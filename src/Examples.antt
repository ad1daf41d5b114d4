-- ===== src/Examples.antt =====
-- Runs of the modelled packages at concrete inputs.
mod Host
mod Serving
mod Records
mod Screens
mod Signed
mod Calls
mod Endpoints
mod Hosting
mod Hooks
mod Limiting
mod Deployed

-- ===== src/Hook.antt =====
-- packages/kyc-react and packages/kyc-react-native, `useIdentityVerification` and `useTokenRefresh`:
-- the headless flow of a verification over the machine of Client, as a state and the events that
-- reach it. Its asynchronous calls end in events of their own, which come in any order.
pub mod State
pub mod Flow
pub mod Web
pub mod Native
pub mod Keeps
pub mod Steps
pub mod NativeSteps
pub mod Consistent
pub mod Counted
pub mod Starts
pub mod Ended
pub mod Tokens
pub mod Silent
pub mod Late
pub mod Preflight

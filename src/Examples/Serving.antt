-- ===== src/Examples/Serving.antt =====
-- What the service promises, at the host of Examples.Host.
use kyc.Common.{◌<>◌, false, is_blank, is_space, ◌≡◌, refl, none, some, List, [], ◌∷◌, ◌++◌}
use kyc.Types.{is_terminal, web, is_verification_platform, approved, declined}
use kyc.Audit.{AuditEntry, sanitize_audit_metadata}
use kyc.Validation.{validate_start_input, optional_text, require_id}
use kyc.Store.{
  SessionRecord, lookup, insert, values, find, filter, place, newest_first, first,
  pick_session_for_applicant, create_session, append_audit_entry, bind_applicant_id,
  update_session_status, write_session_status, write_applicant_id,
  get_session_by_provider_applicant_id, get_latest_unbound_session_for_user,
  get_session_by_id_for_user, get_session_by_id,
}
use kyc.Store.Writes.{Continues}
use kyc.Service.{
  hosted_page, World, SessionView, refresh, require_owned, issue_token, reconcile, status, audit,
  start, persist_session, persist_body, mint_session, bind_minted, handle_webhook_event,
  find_target, apply_event, handle_status, apply_status_transition, audit_outcome, bind_then_write,
  run_effects, run_outcome, write_body, write_bound, write_status, write_unbound,
}
use kyc.Service.Owned.{IsOwned, refresh-IsOwned}
use kyc.Action.{ok}
use kyc.Http.{HostedPageRenderer, HostedPageHttpResult, hosted_page_http}
use kyc.Http.Shown.{IsShown, hosted_page_http-IsShown}
use kyc.Service.Promises.{
  start_session, no_world, serve, run, ServiceCall, deliver, run_keeps_terminal, run_keeps_session,
  run-replay, run_appends,
}
use kyc.Service.Replay.{replay, status_in}
use kyc.Examples.Host.{
  body, sample_deps, approved_world, approved_calls, event, approved_world-IsSound, ticks,
  sample_ids,
}

abbrev approved_session : SessionRecord
approved_session = record {
  id = "s";
  user_id = "user-1";
  provider = "sumsub";
  provider_applicant_id = some "applicant-1";
  level_name = none;
  locale = none;
  platform = web;
  status = approved;
  created_at = 0;
  updated_at = 3;
}

found_session : lookup "s" approved_world.store.sessions ≡ some approved_session
unfolding lookup insert values find filter place newest_first first pick_session_for_applicant
    create_session append_audit_entry bind_applicant_id update_session_status write_session_status
    write_applicant_id get_session_by_provider_applicant_id get_latest_unbound_session_for_user
    audit start persist_session persist_body mint_session bind_minted handle_webhook_event
    find_target apply_event handle_status apply_status_transition audit_outcome bind_then_write
    run_effects run_outcome write_body write_bound write_status write_unbound serve run
    sanitize_audit_metadata validate_start_input optional_text is_verification_platform sample_deps
    approved_calls approved_world ticks
found_session = refl

abbrev later_calls : List ServiceCall
later_calls = deliver (event declined) ∷ []

run_keeps_terminal_example :
    (r : SessionRecord) × (lookup "s" (run sample_deps later_calls approved_world).store.sessions
      ≡ some r)
    × (r.status ≡ approved)
run_keeps_terminal_example =
    run_keeps_terminal sample_deps sample_ids later_calls approved_world "s" approved_session
      approved_world-IsSound found_session refl

run_keeps_session_example :
    (r : SessionRecord) × (lookup "s" (run sample_deps later_calls approved_world).store.sessions
      ≡ some r)
    × Continues approved_session r
run_keeps_session_example =
    run_keeps_session sample_deps sample_ids later_calls approved_world "s" approved_session
      approved_world-IsSound found_session

run-replay_example :
    replay "s" (run sample_deps later_calls approved_world).store.audit
    ≡ status_in "s" (run sample_deps later_calls approved_world).store.sessions
run-replay_example =
    run-replay sample_deps sample_ids later_calls approved_world "s" approved_world-IsSound

run_appends_example :
    (added : List AuditEntry) × ((run sample_deps later_calls approved_world).store.audit
      ≡ approved_world.store.audit ++ added)
run_appends_example =
    run_appends sample_deps sample_ids later_calls approved_world approved_world-IsSound

-- The world after one session is started: it is in progress still.
unfoldable started_world : World
started_world = run sample_deps (start_session (some "user-1") body ∷ []) no_world

refreshes : (refresh sample_deps (some "user-1") "s" started_world).0 ≡ ok "token-2"
unfolding lookup insert values create_session get_session_by_id_for_user require_id refresh
    require_owned issue_token append_audit_entry bind_applicant_id audit start persist_session
    persist_body mint_session bind_minted serve run sanitize_audit_metadata validate_start_input
    optional_text is_verification_platform is_blank is_space sample_deps started_world ticks
refreshes = refl

refresh-IsOwned_example :
    (r : SessionRecord) × IsOwned (some "user-1") "s" started_world r
    × (is_terminal r.status ≡ false)
refresh-IsOwned_example =
    refresh-IsOwned sample_deps (some "user-1") "s" started_world "token-2" refreshes

abbrev sample_page : HostedPageRenderer
sample_page = record {
  csp = some (λ nonce. "script-src " <> nonce);
  permissions_policy = none;
  render = λ params. params.session_id <> " " <> params.access_token;
}

abbrev shown_page : HostedPageHttpResult
shown_page = record {
  status = 200;
  html = "s token-2";
  nonce = "n";
  csp = "script-src n";
  permissions_policy = "camera=(self), microphone=(self)";
}

shows :
    (hosted_page_http sample_deps (λ nonce. "") (some sample_page) "s" "n" started_world).0
    ≡ ok shown_page
unfolding lookup insert values create_session get_session_by_id hosted_page hosted_page_http
    append_audit_entry bind_applicant_id audit start persist_session persist_body mint_session
    bind_minted serve run sanitize_audit_metadata validate_start_input optional_text
    is_verification_platform is_blank is_space sample_deps started_world ticks
shows = refl

hosted_page_http-IsShown_example :
    IsShown sample_deps (λ nonce. "") sample_page "s" "n" started_world shown_page
hosted_page_http-IsShown_example =
    hosted_page_http-IsShown sample_deps (λ nonce. "") sample_page "s" "n" started_world shown_page
      shows

abbrev seen : SessionView
seen = record {
  session_id = "s";
  provider = "sumsub";
  status = approved;
  applicant_id = some "applicant-1";
}

reads_status : (status sample_deps (some "user-1") "s" approved_world).0 ≡ ok seen
unfolding lookup insert values find filter place newest_first first pick_session_for_applicant
    create_session append_audit_entry bind_applicant_id update_session_status write_session_status
    write_applicant_id get_session_by_provider_applicant_id get_latest_unbound_session_for_user
    audit start persist_session persist_body mint_session bind_minted handle_webhook_event
    find_target apply_event handle_status apply_status_transition audit_outcome bind_then_write
    run_effects run_outcome write_body write_bound write_status write_unbound serve run
    sanitize_audit_metadata validate_start_input optional_text is_verification_platform sample_deps
    approved_calls approved_world ticks get_session_by_id_for_user require_id require_owned
    reconcile status is_blank is_space
reads_status = refl

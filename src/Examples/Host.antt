-- ===== src/Examples/Host.antt =====
-- A host: its clock counts, its ids are written in unary, its provider creates every session, and
-- its store and its effects never fail.
use Prim.Native.Nat.{suc}
use kyc.Common.{
  ℕ, zero, String, ◌≡◌, refl, sym, ap, ◌∙◌, none, some, List, [], ◌∷◌, Value, str, obj, end, field,
  arith,
}
use kyc.Types.{VerificationStatus, pending, approved}
use kyc.Action.{ok}
use kyc.Service.{ServiceDeps, World, WebhookEvent}
use kyc.Service.Promises.{
  ServiceCall, start_session, deliver, run, no_world, no_world-IsSound, run-IsSound,
}
use kyc.Service.Sound.{IsSound}

unfoldable pub ticks : ℕ → String
ticks zero = "s"
ticks (suc k) = String.◌∷◌ "i" (ticks k)

size : String → ℕ
size String.[] = 0
size (String.◌∷◌ c s) = suc (size s)

size-ticks : (k : ℕ) → size (ticks k) ≡ suc k
unfolding size ticks
size-ticks zero = refl
size-ticks (suc k) = ap suc (size-ticks k)

pub ticks_injective : (j k : ℕ) → ticks j ≡ ticks k → j ≡ k
ticks_injective j k h =
    let same : suc j ≡ suc k = sym (size-ticks j) ∙ ap size h ∙ size-ticks k in omega arith

unfoldable pub sample_deps : ServiceDeps
sample_deps = record {
  provider = record {
    create_session = λ calls user options.
        ok (record { provider_applicant_id = none; access_token = "token-1"; expires_at = none });
    refresh_token =
        λ calls subject options. ok (record { access_token = "token-2"; expires_at = none });
    get_status = λ calls applicant. ok pending;
    get_status_by_user_id = none;
  };
  provider_name = "sumsub";
  public_base_url = "https://kyc.example";
  now = λ k. k;
  new_id = ticks;
  on_status_transition = none;
  hosted_url_for = none;
  url_origin = λ base. some base;
  store_fault = λ k. none;
}

abbrev pub event : VerificationStatus → WebhookEvent
event status = record {
  provider_applicant_id = "applicant-1";
  external_user_id = some "user-1";
  status = some status;
  raw_status = "applicantReviewed";
  level_name = none;
  reject_labels = none;
}

abbrev pub body : Value
body = obj (field "platform" (str "WEB") end)

-- One session is started, and its applicant is approved.
unfoldable pub approved_calls : List ServiceCall
approved_calls = start_session (some "user-1") body ∷ deliver (event approved) ∷ []

unfoldable pub approved_world : World
approved_world = run sample_deps approved_calls no_world

pub sample_ids : (j k : ℕ) → sample_deps.new_id j ≡ sample_deps.new_id k → j ≡ k
unfolding sample_deps
sample_ids = ticks_injective

pub approved_world-IsSound : IsSound sample_deps approved_world
unfolding approved_world
approved_world-IsSound =
    run-IsSound sample_deps sample_ids approved_calls no_world (no_world-IsSound sample_deps)

-- ===== src/Service/Kept.antt =====
-- packages/kyc-node/src/sessions.ts: the shared steps of the service's calls keep its invariant, and
-- every session and the trail go on.
use kyc.Common.{arith, String, refl, Bool, Option, none, some, List, given, if◌then◌else◌}
use kyc.Types.{UserStatusLookup, VerificationStatus, is_terminal}
use kyc.Errors.{Thrown}
use kyc.Audit.{effect_failed}
use kyc.Action.{Result, Action, pure, throw, from_result, try_catch, ◌>>=◌}
use kyc.Store.{SessionRecord, updated}
use kyc.Service.State.{
  ProviderCall, api, World, ServiceDeps, StatusSource, StatusTransition, StatusTransitionEvent,
  StatusTransitionOutcome, write,
}
use kyc.Service.Transition.{
  call_effect, effect_failure, run_effect, run_outcome, ApplyStatusTransitionOptions, run_effects,
  apply_status_transition,
}
use kyc.Service.Requests.{
  found_or_throw, by_applicant, by_user, apply_found, require_owned, lookup_status, reconcile,
  status,
}
use kyc.Service.Rules
use kyc.Service.Rules.{Keeps}
use kyc.Service.Sound.{
  IsSound, Leads, Leads-IsPreorder, same_tables, on_store-gets-Keeps, call_provider-Keeps,
  audit-Keeps,
}
use kyc.Service.Transactions.{write_status-Keeps}

module _ (deps : ServiceDeps) where
  abbrev pub Kept : {A : Type 0} → Action World A → Type 0
  Kept m = Keeps (IsSound deps) Leads m

  pub pure-Kept : {A : Type 0} (a : A) → Kept (pure a)
  pure-Kept a = Rules.Keeps-pure (IsSound deps) Leads Leads-IsPreorder a

  pub bind_Kept :
      {A B : Type 0} (m : Action World A) (f : A → Action World B)
      → Kept m
      → ((a : A) → Kept (f a))
      → Kept (m >>= f)
  bind_Kept m f h k = Rules.Keeps-bind (IsSound deps) Leads Leads-IsPreorder h k

  pub catch_Kept :
      {A : Type 0} (m : Action World A) (handle : Thrown → Action World A)
      → Kept m
      → ((e : Thrown) → Kept (handle e))
      → Kept (try_catch m handle)
  catch_Kept m handle h k = Rules.Keeps-try_catch (IsSound deps) Leads Leads-IsPreorder h k

  pub if_Kept :
      {A : Type 0} (b : Bool) (m n : Action World A) → Kept m → Kept n → Kept (if b then m else n)
  if_Kept b m n h k = Rules.Keeps-if (IsSound deps) Leads Leads-IsPreorder b h k

  pub throw-Kept : {A : Type 0} (e : Thrown) → Kept (throw {S = World} {A = A} e)
  throw-Kept e = Rules.Keeps-throw (IsSound deps) Leads Leads-IsPreorder e

  pub result_Kept : {A : Type 0} (r : Result A) → Kept (from_result {S = World} r)
  result_Kept r = Rules.Keeps-from_result (IsSound deps) Leads Leads-IsPreorder r

  effect_failure-Kept :
      (id : String) (event : StatusTransitionEvent) (failure : Option Thrown)
      → Kept (effect_failure deps id event failure)
  effect_failure-Kept id event none = pure-Kept tt
  effect_failure-Kept id event (some e) = audit-Keeps deps id effect_failed _ refl

  run_effect-Kept :
      (effect : Option (StatusTransitionEvent → Option Thrown)) (id : String)
      (event : StatusTransitionEvent)
      → Kept (run_effect deps effect id event)
  run_effect-Kept none id event = pure-Kept tt
  run_effect-Kept (some effect) id event =
      bind_Kept (call_effect deps effect event) (effect_failure deps id event)
        (record { keeps = λ w i. same_tables deps w _ refl refl (omega arith) i })
        (effect_failure-Kept id event)

  run_outcome-Kept :
      (outcome : StatusTransitionOutcome) (id : String) (event : StatusTransitionEvent)
      → Kept (run_outcome deps outcome id event)
  unfolding run_outcome
  run_outcome-Kept (write updated) id event = run_effect-Kept deps.on_status_transition id event
  run_outcome-Kept _ id event = pure-Kept tt

  run_effects-Kept :
      (id : String) (source : StatusSource) (t : StatusTransition) (labels : Option (List String))
      → Kept (run_effects deps id source t labels)
  unfolding run_effects
  run_effects-Kept id source t labels = run_outcome-Kept t.outcome id _

  pub apply_status_transition-Kept :
      (id : String) (status : VerificationStatus) (source : StatusSource)
      (options : ApplyStatusTransitionOptions)
      → Kept (apply_status_transition deps id status source options)
  unfolding apply_status_transition
  apply_status_transition-Kept id status source options =
      bind_Kept _ _ (write_status-Keeps deps id status source options)
        (λ t. bind_Kept _ _ (run_effects-Kept id source t options.reject_labels) (λ _. pure-Kept t))

  found_or_throw-Kept : (found : Option SessionRecord) → Kept (found_or_throw deps found)
  found_or_throw-Kept none = throw-Kept _
  found_or_throw-Kept (some s) = pure-Kept s

  by_applicant-Kept : (applicant : Option String) → Kept (by_applicant deps applicant)
  by_applicant-Kept none = pure-Kept none
  by_applicant-Kept (some applicant) =
      bind_Kept _ _ (call_provider-Keeps deps _ _) (λ _. pure-Kept _)

  by_user-Kept :
      (user : String) (ask : Option (List ProviderCall → String → Result UserStatusLookup))
      → Kept (by_user deps user ask)
  by_user-Kept user none = pure-Kept none
  by_user-Kept user (some ask) = bind_Kept _ _ (call_provider-Keeps deps _ _) (λ _. pure-Kept _)

  apply_found-Kept :
      (s : SessionRecord) (found : Option UserStatusLookup) → Kept (apply_found deps s found)
  apply_found-Kept s none = pure-Kept s
  apply_found-Kept s (some found) =
      bind_Kept _ _ (apply_status_transition-Kept s.id found.status api _) (λ _. pure-Kept _)

  pub require_owned-Kept : (id user : String) → Kept (require_owned deps id user)
  unfolding require_owned
  require_owned-Kept id user = bind_Kept _ _ (on_store-gets-Keeps deps _) (found_or_throw-Kept)

  lookup_status-Kept : (s : SessionRecord) → Kept (lookup_status deps s)
  unfolding lookup_status
  lookup_status-Kept s =
      if_Kept (given s.provider_applicant_id) _ _ (by_applicant-Kept s.provider_applicant_id)
        (by_user-Kept s.user_id deps.provider.get_status_by_user_id)

  pub reconcile-Kept : (s : SessionRecord) → Kept (reconcile deps s)
  unfolding reconcile
  reconcile-Kept s = if_Kept (is_terminal s.status) _ _ (pure-Kept s) (
      catch_Kept _ _ (bind_Kept _ _ (lookup_status-Kept s) (apply_found-Kept s)) (λ _. pure-Kept s))

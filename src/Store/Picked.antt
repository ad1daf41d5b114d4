-- ===== src/Store/Picked.antt =====
-- packages/kyc-node/src/store.ts, `pickSessionForApplicant`: which of an applicant's sessions an
-- event is about, against a description that knows nothing of sorting.
use kyc.Common.{
  sym, ◌∙◌, ◌≡◌, refl, ◌⊎◌, inl, inr, Bool, true, false, not, Option, none, some, List, arith,
  String, truthy, same_option, or_else, Bool-cases, Option-cases,
}
use kyc.Types.{is_terminal}
use kyc.Store.Order.{SessionRecord, find, newest_first, first, on_level, pick_session_for_applicant}
use kyc.Store.Newest.{IsAmong, IsNewest, find-newest_first, find-none-newest_first, first-eq-find}

abbrev pub has_level : String → SessionRecord → Bool
has_level level r = same_option r.level_name (some level)

abbrev pub in_progress : SessionRecord → Bool
in_progress r = not (is_terminal r.status)

-- No session is on the level of the event, or the event names none.
abbrev pub NoneOnLevel : Option String → List SessionRecord → Type 0
NoneOnLevel none records = Unit
NoneOnLevel (some level) records =
    (truthy level ≡ false) ⊎ ((x : SessionRecord) → IsAmong x records → has_level level x ≡ false)

abbrev pub IsOnLevel : Option String → List SessionRecord → SessionRecord → Type 0
IsOnLevel none records r = ⊥
IsOnLevel (some level) records r = (truthy level ≡ true) × IsNewest (has_level level) records r

-- The newest on the event's level, else the newest in progress, else the newest of all.
abbrev pub IsPicked : Option String → List SessionRecord → SessionRecord → Type 0
IsPicked level_name records r =
    IsOnLevel level_name records r
    ⊎ (NoneOnLevel level_name records × IsNewest in_progress records r)
    ⊎ (NoneOnLevel level_name records
        × ((x : SessionRecord) → IsAmong x records → in_progress x ≡ false)
        × IsNewest (λ _. true) records r)

on_level-IsOnLevel :
    (level_name : Option String) (records : List SessionRecord) (r : SessionRecord)
    → on_level level_name (newest_first records) ≡ some r
    → IsOnLevel level_name records r
on_level-IsOnLevel none records r h = cc
on_level-IsOnLevel (some level) records r h = elim (Bool-cases (truthy level)) [
  | inl named ↦ (named, find-newest_first (has_level level) records r (rw named at h))
  | inr unnamed ↦ absurd (cc (rw unnamed at h))
]

on_level-NoneOnLevel :
    (level_name : Option String) (records : List SessionRecord)
    → on_level level_name (newest_first records) ≡ none
    → NoneOnLevel level_name records
on_level-NoneOnLevel none records h = tt
on_level-NoneOnLevel (some level) records h = elim (Bool-cases (truthy level)) [
  | inl named ↦ inr (λ x m. find-none-newest_first (has_level level) records x (rw named at h) m)
  | inr unnamed ↦ inl unnamed
]

or_else-some :
    {A : Type 0} (a b : Option A) (c : A)
    → or_else a b ≡ some c
    → (a ≡ some c) ⊎ ((a ≡ none) × (b ≡ some c))
or_else-some none b c h = inr (refl, h)
or_else-some (some x) b c h = inl h

or_else-none : {A : Type 0} (a b : Option A) → or_else a b ≡ none → (a ≡ none) × (b ≡ none)
or_else-none none b h = (refl, h)
or_else-none (some x) b h = ground arith

-- The session that is picked is the newest on the event's level where the event names one that a
-- session of the applicant is on, else the newest that is still in progress, else the newest.
pub pick_session_for_applicant-IsPicked :
    (records : List SessionRecord) (level_name : Option String) (r : SessionRecord)
    → pick_session_for_applicant records level_name ≡ some r
    → IsPicked level_name records r
unfolding pick_session_for_applicant
pick_session_for_applicant-IsPicked records level_name r h =
    let sorted = newest_first records in
    elim (or_else-some (on_level level_name sorted) _ r h) [
      | inl found ↦ inl (on_level-IsOnLevel level_name records r found)
      | inr (missed, rest) ↦
          let unlevelled = on_level-NoneOnLevel level_name records missed in
          elim (or_else-some (find in_progress sorted) (first sorted) r rest) [
            | inl found ↦ inr (inl (unlevelled, find-newest_first in_progress records r found))
            | inr (over, last) ↦ inr (
                inr (
                  unlevelled,
                  (λ x m. find-none-newest_first in_progress records x over m),
                  find-newest_first (λ _. true) records r (sym (first-eq-find sorted) ∙ last),
                ))
          ]
    ]

-- Nothing is picked only from no sessions at all.
pub pick_session_for_applicant-none :
    (records : List SessionRecord) (level_name : Option String) (x : SessionRecord)
    → pick_session_for_applicant records level_name ≡ none
    → ¬ IsAmong x records
unfolding pick_session_for_applicant
pick_session_for_applicant-none records level_name x h m =
    let sorted = newest_first records in
    let (unlevelled, rest) = or_else-none (on_level level_name sorted) _ h in
    let (over, last) = or_else-none (find in_progress sorted) (first sorted) rest in
    cc (find-none-newest_first (λ _. true) records x (sym (first-eq-find sorted) ∙ last) m)

-- From an applicant's sessions, of which there is one at least, one is picked: the newest on the
-- event's level, if the event names a level and a session is on it; else the newest that is not
-- finished; else the newest of all.
pub pick_session_for_applicant-picks :
    (records : List SessionRecord) (level_name : Option String) (x : SessionRecord)
    → IsAmong x records
    → (r : SessionRecord) × (pick_session_for_applicant records level_name ≡ some r)
      × IsPicked level_name records r
pick_session_for_applicant-picks records level_name x m =
    elim (Option-cases (pick_session_for_applicant records level_name)) [
      | inl missed ↦ absurd (pick_session_for_applicant-none records level_name x missed m)
      | inr (r, found) ↦ (r, found, pick_session_for_applicant-IsPicked records level_name r found)
    ]

-- ===== src/Store/Order.antt =====
-- The record of a session, and the choice of one among several: `sort` by creation time, newest
-- first and stable, then `find`.
use kyc.Common.{
  ℕ, String, Bool, not, Option, none, some, List, [], ◌∷◌, if◌then◌else◌, truthy, same_option,
  or_else, leb,
}
use kyc.Types.{VerificationStatus, VerificationPlatform, is_terminal}

pub record SessionRecord : Type 0 where
  pub id : String
  pub user_id : String
  pub provider : String
  pub provider_applicant_id : Option String
  pub level_name : Option String
  pub locale : Option String
  pub platform : VerificationPlatform
  pub status : VerificationStatus
  pub created_at : ℕ
  pub updated_at : ℕ

-- `records.find(test)`
unfoldable pub find : (SessionRecord → Bool) → List SessionRecord → Option SessionRecord
find test [] = none
find test (r ∷ rs) = if test r then some r else find test rs

unfoldable pub filter : (SessionRecord → Bool) → List SessionRecord → List SessionRecord
filter test [] = []
filter test (r ∷ rs) = if test r then r ∷ filter test rs else filter test rs

-- A record goes before those of the rest that are not newer, so equal times keep their order.
unfoldable pub place : SessionRecord → List SessionRecord → List SessionRecord
place r [] = r ∷ []
place r (x ∷ xs) = if leb x.created_at r.created_at then r ∷ x ∷ xs else x ∷ place r xs

-- `[...records].sort((a, b) => b.createdAt.getTime() - a.createdAt.getTime())`
unfoldable pub newest_first : List SessionRecord → List SessionRecord
unfolding place
newest_first [] = []
newest_first (r ∷ rs) = place r (newest_first rs)

unfoldable pub first : List SessionRecord → Option SessionRecord
first [] = none
first (r ∷ rs) = some r

-- `levelName ? newestFirst.find(record => record.levelName === levelName) : undefined`
abbrev pub on_level : Option String → List SessionRecord → Option SessionRecord
on_level none rs = none
on_level (some level) rs =
    if truthy level then find (λ r. same_option r.level_name (some level)) rs else none

unfoldable pub pick_session_for_applicant :
    List SessionRecord → Option String → Option SessionRecord
pick_session_for_applicant records level_name =
    let sorted = newest_first records in
    or_else (on_level level_name sorted)
      (or_else (find (λ r. not (is_terminal r.status)) sorted) (first sorted))

-- ===== src/Sumsub/Verdicts.antt =====
-- packages/kyc-core/src/providers/sumsub/mapping.ts: when a review or a result is a verdict.
use kyc.Common.{
  String, ◌≡◌, refl, ◌↔◌, ◌⊎◌, inl, inr, Bool-cases, true, false, Option, none, some, ◌==◌, Value,
  str, is_text, property, List, [], ◌∷◌, All, includes, prototype_members, subst, sym, ◌∙◌, look_up,
  own, inherited, arith, eq_iff,
}
use kyc.Types.{VerificationStatus, approved, declined, finally_rejected, is_terminal}
use kyc.Sumsub.Mapping.{sumsub_webhook_types, map_sumsub_status, map_sumsub_webhook_type}

red_not_green : (v : Value) → is_text v "RED" ≡ true → is_text v "GREEN" ≡ false
red_not_green (str s) h = rw ((eq_iff s "RED").0 h)
red_not_green _ h = ground arith

-- A review is approved exactly when it is completed with a GREEN answer, finally rejected exactly
-- when it is completed with a RED answer of reject type FINAL, and declined exactly when it is
-- completed with a RED answer of any other reject type.
pub map_sumsub_status_iff :
    (review_status : Option String) (review_result : Value)
    → ((map_sumsub_status review_status review_result ≡ approved) ↔ (
        (review_status ≡ some "completed")
        × (is_text (property "reviewAnswer" review_result) "GREEN" ≡ true)))
      × ((map_sumsub_status review_status review_result ≡ finally_rejected) ↔ (
          (review_status ≡ some "completed")
          × (is_text (property "reviewAnswer" review_result) "RED" ≡ true)
          × (is_text (property "reviewRejectType" review_result) "FINAL" ≡ true)))
      × ((map_sumsub_status review_status review_result ≡ declined) ↔ (
          (review_status ≡ some "completed")
          × (is_text (property "reviewAnswer" review_result) "RED" ≡ true)
          × (is_text (property "reviewRejectType" review_result) "FINAL" ≡ false)))
unfolding map_sumsub_status
map_sumsub_status_iff none review_result = ground arith
map_sumsub_status_iff (some s) review_result =
    ground (arith, eq_iff s "completed", red_not_green (property "reviewAnswer" review_result))

own_injective : (a b : VerificationStatus) → own a ≡ own b → a ≡ b
own_injective a b h = cc

true_is_false : true ≡ false → ⊥
true_is_false h = cc

entry_is_not_final :
    (table : List (String × VerificationStatus)) (key : String) (status : VerificationStatus)
    → All (λ entry. is_terminal entry.1 ≡ false) table
    → look_up table key ≡ own status
    → is_terminal status ≡ false
entry_is_not_final [] key status all h = elim (Bool-cases (includes prototype_members key)) [
  | inl e ↦ absurd (ground arith)
  | inr e ↦ absurd (ground arith)
]
entry_is_not_final ((k, v) ∷ table) key status (here, rest) h = elim (Bool-cases (k == key)) [
  | inl e ↦ subst (λ a. is_terminal a ≡ false) (own_injective _ _ (rw e at h)) here
  | inr e ↦ entry_is_not_final table key status rest (rw e at h)
]

table_is_not_final :
    (type : String) (status : VerificationStatus)
    → look_up sumsub_webhook_types type ≡ own status
    → is_terminal status ≡ false
table_is_not_final type status h =
    entry_is_not_final sumsub_webhook_types type status (refl, (refl, (refl, (refl, tt)))) h

verdict :
    (review_status : Option String) (review_result : Value) (status : VerificationStatus)
    → map_sumsub_status review_status review_result ≡ status
    → is_terminal status ≡ true
    → (review_status ≡ some "completed")
      × ((is_text (property "reviewAnswer" review_result) "GREEN" ≡ true)
          ⊎ ((is_text (property "reviewAnswer" review_result) "RED" ≡ true)
              × (is_text (property "reviewRejectType" review_result) "FINAL" ≡ true)))
verdict review_status review_result approved h t =
    let (completed, green) = (map_sumsub_status_iff review_status review_result).0.0 h in
    (completed, inl green)
verdict review_status review_result finally_rejected h t =
    let (completed, red, final) = (map_sumsub_status_iff review_status review_result).1.0 h in
    (completed, inr (red, final))
verdict review_status review_result _ h t = absurd (ground arith)

-- A webhook gives a final verdict only when its type is applicantReviewed and its review is
-- completed with a GREEN answer, or with a RED answer of reject type FINAL.
map_sumsub_webhook_type-is_terminal :
    (type : String) (review_status : Option String) (review_result : Value)
    (status : VerificationStatus)
    → map_sumsub_webhook_type type review_status review_result ≡ own status
    → is_terminal status ≡ true
    → (type ≡ "applicantReviewed")
      × (review_status ≡ some "completed")
      × ((is_text (property "reviewAnswer" review_result) "GREEN" ≡ true)
          ⊎ ((is_text (property "reviewAnswer" review_result) "RED" ≡ true)
              × (is_text (property "reviewRejectType" review_result) "FINAL" ≡ true)))
unfolding map_sumsub_webhook_type
map_sumsub_webhook_type-is_terminal type review_status review_result status h t =
    elim (Bool-cases (type == "applicantReviewed")) [
      | inl e ↦
          let (completed, answer) =
            verdict review_status review_result status (own_injective _ _ (rw e at h)) t in
          ((eq_iff type "applicantReviewed").0 e, completed, answer)
      | inr e ↦ absurd (ground (arith, table_is_not_final type status))
    ]

inherited_iff :
    (table : List (String × VerificationStatus)) (key : String)
    → All (λ entry. includes prototype_members entry.0 ≡ false) table
    → (look_up table key ≡ inherited) ↔ (includes prototype_members key ≡ true)
inherited_iff [] key all = elim (Bool-cases (includes prototype_members key)) [
  | inl e ↦ (λ h. e, λ h. rw e refl)
  | inr e ↦ (λ h. absurd (ground arith), λ h. absurd (ground arith))
]
inherited_iff ((k, v) ∷ table) key (here, rest) = elim (Bool-cases (k == key)) [
  | inl e ↦ (
    λ h. absurd (ground arith),
    λ h. absurd (
        true_is_false
          (sym h ∙ subst (λ k. includes prototype_members k ≡ false) ((eq_iff k key).0 e) here)),
  )
  | inr e ↦ rw e (inherited_iff table key rest)
]

-- Besides a status and null, the lookup of a webhook's type has a third outcome: a member that the
-- table inherits from Object.prototype, exactly when the type is the name of such a member.
pub map_sumsub_webhook_type_inherited_iff :
    (type : String) (review_status : Option String) (review_result : Value)
    → (map_sumsub_webhook_type type review_status review_result ≡ inherited)
      ↔ (includes prototype_members type ≡ true)
unfolding map_sumsub_webhook_type
map_sumsub_webhook_type_inherited_iff type review_status review_result =
    elim (Bool-cases (type == "applicantReviewed")) [
      | inl e ↦ rw ((eq_iff type "applicantReviewed").0 e) (λ h. absurd cc, λ h. absurd cc)
      | inr e ↦ rw e (inherited_iff sumsub_webhook_types type (refl, (refl, (refl, (refl, tt)))))
    ]

-- ===== src/Audit/Laws.antt =====
-- packages/kyc-node/src/audit.ts, `sanitizeAuditMetadata`: what reaches the audit trail.
use kyc.Common.{
  String, ◌≡◌, refl, subst, inl, inr, Bool, true, false, Bool-cases, [], ◌∷◌, if◌then◌else◌, ◌==◌,
  eq_iff, includes, undefined,
}
use kyc.Audit.{AuditMetadata, metadata_value, allowed_metadata_keys, sanitize_audit_metadata}

allowed_same :
    (k key : String) (b : Bool)
    → (k == key) ≡ true
    → includes allowed_metadata_keys k ≡ b
    → includes allowed_metadata_keys key ≡ b
allowed_same k key b e h = subst (λ x. includes allowed_metadata_keys x ≡ b) ((eq_iff k key).0 e) h

-- After sanitizing, a key of the allow-list has the value it had, and any other key has none.
metadata_value-sanitize_audit_metadata :
    (key : String) (metadata : AuditMetadata)
    → metadata_value key (sanitize_audit_metadata metadata)
      ≡ (if includes allowed_metadata_keys key then metadata_value key metadata else undefined)
unfolding sanitize_audit_metadata
metadata_value-sanitize_audit_metadata key [] =
    elim (Bool-cases (includes allowed_metadata_keys key)) [ inl e ↦ rw e refl | inr e ↦ rw e refl ]
metadata_value-sanitize_audit_metadata key ((k, v) ∷ rest) =
    let ih = metadata_value-sanitize_audit_metadata key rest in
    elim (Bool-cases (includes allowed_metadata_keys k)) [
      | inl kept ↦ rw kept (elim (Bool-cases (k == key)) [
        | inl e ↦ rw (e, allowed_same k key true e kept) refl
        | inr e ↦ rw e ih
      ])
      | inr dropped ↦ rw dropped (elim (Bool-cases (k == key)) [
        | inl e ↦ let d = allowed_same k key false e dropped in rw (e, d) (rw d at ih)
        | inr e ↦ rw e ih
      ])
    ]

-- ===== src/Html/Inert.antt =====
-- packages/kyc-node/src/html.ts: what is escaped cannot leave the place it is put in.
use Prim.Native.Char.{code}
use text.Mathlib.TextLemmas.{nil-append, cons-append}
use kyc.Common.{
  ℕ, String, ◌≡◌, refl, ◌⊎◌, Bool, Bool-cases, inl, inr, true, false, not, none, some, ◌<>◌, eqb,
  all, codes, Value, arith,
}
use kyc.Html.{html_escape, escape_html, replace, json_for_script}

-- No character of a text is the one with code `c`.
abbrev pub is_free_of : ℕ → String → Bool
is_free_of c s = all (λ x. not (eqb x c)) (codes s)

is_free_of-<> :
    (c : ℕ) (s t : String)
    → is_free_of c s ≡ true
    → is_free_of c t ≡ true
    → is_free_of c (s <> t) ≡ true
is_free_of-<> c String.[] t p q = rw (nil-append t) q
is_free_of-<> c (String.◌∷◌ x s) t p q =
    rw (cons-append x s t) (ground (arith, is_free_of-<> c s t (ground arith) q))

replace-removes :
    (c : ℕ) (text s : String) → is_free_of c text ≡ true → is_free_of c (replace c text s) ≡ true
unfolding replace
replace-removes c text String.[] p = refl
replace-removes c text (String.◌∷◌ x s) p = elim (Bool-cases (eqb (code x) c)) [
  | inl same ↦ rw same (is_free_of-<> c text _ p (replace-removes c text s p))
  | inr other ↦ rw (other, other) (replace-removes c text s p)
]

replace-keeps :
    (c d : ℕ) (text s : String)
    → is_free_of d text ≡ true
    → is_free_of d s ≡ true
    → is_free_of d (replace c text s) ≡ true
unfolding replace
replace-keeps c d text String.[] p q = refl
replace-keeps c d text (String.◌∷◌ x s) p q =
    let rest = replace-keeps c d text s p (ground arith) in
    elim (Bool-cases (eqb (code x) c)) [
      | inl same ↦ rw same (is_free_of-<> d text _ p rest)
      | inr other ↦ rw other (ground (arith, rest))
    ]

-- The replacements are free of a character that is replaced.
abbrev IsEscaped : ℕ → Type 0
IsEscaped c =
    (is_free_of c "&amp;" ≡ true)
    × (is_free_of c "&lt;" ≡ true)
    × (is_free_of c "&gt;" ≡ true)
    × (is_free_of c "&quot;" ≡ true)
    × (is_free_of c "&#39;" ≡ true)
    × ((k : ℕ) → html_escape k ≡ none → eqb k c ≡ false)

html_escape-cases :
    (c k : ℕ)
    → IsEscaped c
    → (html_escape k ≡ none)
      ⊎ ((text : String) × ((html_escape k ≡ some text) × (is_free_of c text ≡ true)))
html_escape-cases c k (amp, lt, gt, quot, apos, rest) = elim (Bool-cases (eqb k b'&')) [
  | inl h ↦ rw h (inr (_, (refl, amp)))
  | inr h₁ ↦ elim (Bool-cases (eqb k b'<')) [
    | inl h ↦ rw (h₁, h) (inr (_, (refl, lt)))
    | inr h₂ ↦ elim (Bool-cases (eqb k b'>')) [
      | inl h ↦ rw (h₁, h₂, h) (inr (_, (refl, gt)))
      | inr h₃ ↦ elim (Bool-cases (eqb k 34)) [
        | inl h ↦ rw (h₁, h₂, h₃, h) (inr (_, (refl, quot)))
        | inr h₄ ↦ elim (Bool-cases (eqb k 39)) [
          | inl h ↦ rw (h₁, h₂, h₃, h₄, h) (inr (_, (refl, apos)))
          | inr h ↦ rw (h₁, h₂, h₃, h₄, h) (inl refl)
        ]
      ]
    ]
  ]
]

escape_html-free : (c : ℕ) (s : String) → IsEscaped c → is_free_of c (escape_html s) ≡ true
unfolding escape_html
escape_html-free c String.[] e = refl
escape_html-free c (String.◌∷◌ x s) e = elim (html_escape-cases c (code x) e) [
  | inl kept ↦ rw (kept, e.5 (code x) kept) (escape_html-free c s e)
  | inr (text, (same, free)) ↦ rw same (is_free_of-<> c text _ free (escape_html-free c s e))
]

-- An escaped text has no character that ends an attribute or opens a tag: no "<", ">", '"' or "'".
-- A value that is written for a script has no "<", which could close the script, and neither of the
-- two line terminators that JSON allows.
pub escaped-IsInert :
    (text : String) (stringify : Value → String) (value : Value)
    → let page : String = escape_html text in
      let script : String = json_for_script stringify value in
      ((is_free_of b'<' page ≡ true)
        × (is_free_of b'>' page ≡ true)
        × (is_free_of 34 page ≡ true)
        × (is_free_of 39 page ≡ true))
      × ((is_free_of b'<' script ≡ true)
          × (is_free_of 0x2028 script ≡ true)
          × (is_free_of 0x2029 script ≡ true))
unfolding json_for_script
escaped-IsInert text stringify value =
    let first = replace-removes b'<' "\\u003c" (stringify value) refl in
    let once = replace b'<' "\\u003c" (stringify value) in
    let second = replace 0x2028 "\\u2028" once in
    (
      (
        escape_html-free b'<' text (refl, refl, refl, refl, refl, λ k h. ground arith),
        escape_html-free b'>' text (refl, refl, refl, refl, refl, λ k h. ground arith),
        escape_html-free 34 text (refl, refl, refl, refl, refl, λ k h. ground arith),
        escape_html-free 39 text (refl, refl, refl, refl, refl, λ k h. ground arith),
      ),
      (
        replace-keeps 0x2029 b'<' "\\u2029" second refl
            (replace-keeps 0x2028 b'<' "\\u2028" once refl first),
        replace-keeps 0x2029 0x2028 "\\u2029" second refl
            (replace-removes 0x2028 "\\u2028" once refl),
        replace-removes 0x2029 "\\u2029" second refl,
      ),
    )

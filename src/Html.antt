-- ===== src/Html.antt =====
-- packages/kyc-node/src/html.ts: the escaping of what goes into a page. `JSON.stringify` is a
-- parameter.
pub mod Inert
use Prim.Native.Char.{Char, code}
use kyc.Common.{
  ℕ, String, Bool, true, false, ◌&&◌, ◌||◌, Option, none, some, List, [], ◌∷◌, ◌<>◌, if◌then◌else◌,
  given, eqb, leb, all, codes, Value, length,
}

-- `HTML_ESCAPES[c]`, for the five characters that are matched
abbrev pub html_escape : ℕ → Option String
html_escape c =
    if eqb c b'&'
    then some "&amp;"
    else if eqb c b'<'
    then some "&lt;"
    else if eqb c b'>'
    then some "&gt;"
    else if eqb c 34
    then some "&quot;"
    else if eqb c 39
    then some "&#39;"
    else none

abbrev pub escape_char : Char → Option String → String → String
escape_char c none rest = String.◌∷◌ c rest
escape_char c (some text) rest = text <> rest

unfoldable pub escape_html : String → String
escape_html String.[] = ""
escape_html (String.◌∷◌ c s) = escape_char c (html_escape (code c)) (escape_html s)

abbrev pub is_id_code : ℕ → Bool
is_id_code c =
    (leb b'a' c && leb c b'z')
    || (leb b'A' c && leb c b'Z')
    || (leb b'0' c && leb c b'9')
    || eqb c b'_'
    || eqb c b'-'

-- `value && /^[a-zA-Z0-9_-]{1,64}$/.test(value) ? value : null`
unfoldable pub sanitize_id : Option String → Option String
sanitize_id none = none
sanitize_id (some value) =
    if given (some value) && leb (length value) 64 && all is_id_code (codes value)
    then some value
    else none

-- `text.replace(/c/g, replacement)` for one character
unfoldable pub replace : ℕ → String → String → String
replace c replacement String.[] = ""
replace c replacement (String.◌∷◌ x s) =
    let rest = replace c replacement s in
    if eqb (code x) c then replacement <> rest else String.◌∷◌ x rest

unfoldable pub json_for_script : (Value → String) → Value → String
unfolding replace
json_for_script stringify value =
    replace 0x2029 "\\u2029" (replace 0x2028 "\\u2028" (replace b'<' "\\u003c" (stringify value)))

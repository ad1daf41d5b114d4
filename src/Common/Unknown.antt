-- ===== src/Common/Unknown.antt =====
-- A JavaScript value of type `unknown`, as `JSON.parse` or a message event hands it over.
use Prim.Native.Nat.{ℕ}
use Prim.Native.String.{String}
use mathlib.Core.Bool.{Bool, false}
use mathlib.Core.Option.{Option, none, some}
use mathlib.Core.List.{List, [], ◌∷◌}
use text.Mathlib.Text.{◌==◌}
use kyc.Common.Tests.{if◌then◌else◌}
use kyc.Common.Text.{includes}

-- `other` is any value that the packages only tell from these: a fraction, a function, a symbol.
-- A field that is absent reads as `undefined`.
mutual
  pub data Value : Type 0 where
    undefined null other : Value
    bool : Bool → Value
    num : ℕ → Value
    str : String → Value
    arr : Values → Value
    obj : Fields → Value

  pub data Values : Type 0 where
    nil : Values
    cons : Value → Values → Values

  pub data Fields : Type 0 where
    end : Fields
    field : String → Value → Fields → Fields

-- `data.key` on an object literal; the first entry of a key is the one that counts.
abbrev pub get : String → Fields → Value
get key end = undefined
get key (field k v fs) = if k == key then v else get key fs

-- `typeof value === 'string' ? value : undefined`
abbrev pub as_text : Value → Option String
as_text (str s) = some s
as_text _ = none

-- `value?.key`: only an object has properties of its own that the packages ask for.
abbrev pub property : String → Value → Value
property key (obj fs) = get key fs
property key _ = undefined

-- The object of a value, when `typeof value === 'object'` and it is not null. An array has none of
-- the keys that the packages read.
abbrev pub as_object : Value → Option Fields
as_object (obj fs) = some fs
as_object (arr vs) = some end
as_object _ = none

-- `value === text`
abbrev pub is_text : Value → String → Bool
is_text (str s) text = s == text
is_text _ text = false

-- What `table[key]` finds on an object literal: an entry, a member that every object inherits from
-- `Object.prototype`, or nothing.
pub data Property {ℓ} (A : Type ℓ) : Type ℓ where
  own : A → Property A
  inherited missing : Property A

abbrev pub prototype_members : List String
prototype_members =
    "constructor" ∷ "__defineGetter__" ∷ "__defineSetter__" ∷ "hasOwnProperty" ∷ "__lookupGetter__"
    ∷ "__lookupSetter__" ∷ "isPrototypeOf" ∷ "propertyIsEnumerable" ∷ "toString" ∷ "valueOf"
    ∷ "__proto__" ∷ "toLocaleString" ∷ []

abbrev pub look_up {ℓ} : {A : Type ℓ} → List (String × A) → String → Property A
look_up [] key = if includes prototype_members key then inherited else missing
look_up ((k, v) ∷ table) key = if k == key then own v else look_up table key

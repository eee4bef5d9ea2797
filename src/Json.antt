-- ===== src/Json.antt =====
-- The values of Python's `json`: what `json.loads` returns, how the source reads a message
-- (`message.get(key)`, `isinstance`), and the compact text that
-- `json.dumps(value, ensure_ascii=False, separators=(",", ":"))` writes.
pub mod Text
use mcp_gtw.Base.{
  ℕ, String, Bool, true, false, Option, none, some, List, [], ◌∷◌, ◌==◌, text_eq, if◌then◌else◌,
}

mutual
  pub data Json : Type 0 where
    null : Json
    boolean : Bool → Json
    -- a number, by the characters that `json.dumps` writes for it
    number : List ℕ → Json
    text : String → Json
    array : Items → Json
    object : Fields → Json

  pub data Items : Type 0 where
    nil : Items
    cons : Json → Items → Items

  pub data Fields : Type 0 where
    done : Fields
    field : String → Json → Fields → Fields

unfoldable pub get_field : Fields → String → Option Json
get_field done k = none
get_field (field j v fs) k = if j == k then some v else get_field fs k

-- `value.get(key)` is `None` both for a missing key and for a null.
abbrev pub or_null : Option Json → Json
or_null none = null
or_null (some v) = v

abbrev pub get : Fields → String → Json
get fs k = or_null (get_field fs k)

-- isinstance(value, str), with the text
abbrev pub as_text : Json → Option String
as_text (text s) = some s
as_text _ = none

-- isinstance(value, dict)
abbrev pub as_object : Json → Option Fields
as_object (object fs) = some fs
as_object _ = none

-- isinstance(value, list)
abbrev pub as_array : Json → Option Items
as_array (array xs) = some xs
as_array _ = none

-- isinstance(value, int | float): `bool` is a subclass of `int`
abbrev pub is_number : Json → Bool
is_number (number n) = true
is_number (boolean b) = true
is_number _ = false

abbrev pub is_null : Json → Bool
is_null null = true
is_null _ = false

abbrev prepend {ℓ} : {A : Type ℓ} → A → Option (List A) → Option (List A)
prepend a none = none
prepend a (some l) = some (a ∷ l)

-- the items, if `all(isinstance(item, dict) for item in items)`
abbrev pub all_objects : Items → Option (List Fields)
all_objects nil = some []
all_objects (cons (object fs) xs) = prepend fs (all_objects xs)
all_objects (cons _ xs) = none

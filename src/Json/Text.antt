-- ===== src/Json/Text.antt =====
-- `json.dumps` in its compact form, as code points, and the size of a text in UTF-8.
use Prim.Native.Char.{code}
use mcp_gtw.Base.{
  ℕ, ◌+◌, ◌-◌, String, true, false, List, [], ◌∷◌, ◌++◌, if◌then◌else◌, ltb, eqb_ℕ, ◌≡◌, refl,
}
use mcp_gtw.Json.{
  Json, Items, Fields, null, boolean, number, text, array, object, nil, cons, done, field,
}

abbrev pub codes : String → List ℕ
codes String.[] = []
codes (String.◌∷◌ c s) = code c ∷ codes s

-- the hexadecimal digit of a number below 16
unfoldable pub hex_digit : ℕ → ℕ
hex_digit n = if ltb n 10 then n + b'0' else n + (b'a' - 10)

-- one character of a string literal
unfoldable pub escape : ℕ → List ℕ
unfolding hex_digit
escape c =
    if eqb_ℕ c 34
    then 92 ∷ 34 ∷ []
    else if eqb_ℕ c 92
    then 92 ∷ 92 ∷ []
    else if eqb_ℕ c 10
    then 92 ∷ b'n' ∷ []
    else if eqb_ℕ c 13
    then 92 ∷ b'r' ∷ []
    else if eqb_ℕ c 9
    then 92 ∷ b't' ∷ []
    else if eqb_ℕ c 12
    then 92 ∷ b'f' ∷ []
    else if eqb_ℕ c 8
    then 92 ∷ b'b' ∷ []
    else if ltb c 16
    then 92 ∷ b'u' ∷ b'0' ∷ b'0' ∷ b'0' ∷ hex_digit c ∷ []
    else if ltb c 32
    then 92 ∷ b'u' ∷ b'0' ∷ b'0' ∷ b'1' ∷ hex_digit (c - 16) ∷ []
    else c ∷ []

unfoldable pub escape_all : List ℕ → List ℕ
unfolding escape
escape_all [] = []
escape_all (c ∷ cs) = escape c ++ escape_all cs

unfoldable pub quoted : List ℕ → List ℕ
unfolding escape_all
quoted cs = 34 ∷ (escape_all cs ++ 34 ∷ [])

unfoldable mutual
  unfolding quoted

  pub dumps : Json → List ℕ
  dumps null = codes "null"
  dumps (boolean true) = codes "true"
  dumps (boolean false) = codes "false"
  dumps (number cs) = cs
  dumps (text s) = quoted (codes s)
  dumps (array xs) = 91 ∷ dumps_items xs
  dumps (object fs) = 123 ∷ dumps_fields fs

  -- the items of an array and its closing bracket
  pub dumps_items : Items → List ℕ
  dumps_items nil = 93 ∷ []
  dumps_items (cons v nil) = dumps v ++ 93 ∷ []
  dumps_items (cons v (cons w xs)) = dumps v ++ 44 ∷ dumps_items (cons w xs)

  pub dumps_fields : Fields → List ℕ
  dumps_fields done = 125 ∷ []
  dumps_fields (field k v done) = quoted (codes k) ++ 58 ∷ (dumps v ++ 125 ∷ [])
  dumps_fields (field k v (field j w fs)) =
      quoted (codes k) ++ 58 ∷ (dumps v ++ 44 ∷ dumps_fields (field j w fs))

-- len(text.encode())
unfoldable pub utf8_size : List ℕ → ℕ
utf8_size [] = 0
utf8_size (c ∷ cs) =
    (if ltb c 0x80 then 1 else if ltb c 0x800 then 2 else if ltb c 0x10000 then 3 else 4)
    + utf8_size cs

abbrev sample : Json
sample = object (field "a" (array (cons (text "x\"") (cons (number (b'1' ∷ [])) nil))) done)

dumps-sample : dumps sample ≡ codes "{\"a\":[\"x\\\"\",1]}"
unfolding dumps
dumps-sample = refl

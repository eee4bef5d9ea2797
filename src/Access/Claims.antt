-- ===== src/Access/Claims.antt =====
-- src/mcpgtw/oauth/claims.py: `principal_from_claims`, who a token's claims speak for. Times are
-- counted in a unit of which `second` make a second, so that a claim of n seconds is n * second.
use mcp_gtw.Base.{
  ℕ, zero, suc, String, ◌+◌, ◌-◌, ◌*◌, Bool, true, false, Option, none, some, List, [], ◌∷◌, ◌&&◌,
  ◌||◌, not, leb, ltb, eqb_ℕ, contains, ℕ_eq, text_eq, ◌==◌, if◌then◌else◌, every, split, any_of,
}
use mcp_gtw.Json.{
  Json, Items, Fields, null, boolean, number, text, array, object, nil, cons, done, field,
  get_field, as_text, is_null,
}
use mcp_gtw.Json
use mcp_gtw.Codec.{ℤ, pos, negsuc}
use mcp_gtw.Access.{VerifiedPrincipal}

-- the value of decimal digits, from the left
unfoldable digits : ℕ → List ℕ → Option ℕ
digits value [] = some value
digits value (c ∷ cs) =
    let rest = digits (value * 10 + (c - 48)) cs in if leb 48 c && leb c 57 then rest else none

unfoldable negated : ℕ → ℤ
negated zero = pos 0
negated (suc n) = negsuc n

abbrev integer : Option ℕ → Option ℤ
integer none = none
integer (some n) = some (pos n)

unfoldable negative : Option ℕ → Option ℤ
unfolding negated
negative none = none
negative (some n) = some (negated n)

-- `type(value) is int`, with the value; `True` and a number with a point or an exponent are none
unfoldable pub as_integer : Json → Option ℤ
unfolding digits negative
as_integer (number (c ∷ cs)) =
    if eqb_ℕ c 45 then negative (digits 0 cs) else integer (digits 0 (c ∷ cs))
as_integer _ = none

-- whether a value is true to `if`
unfoldable pub truthy : Json → Bool
truthy null = false
truthy (boolean b) = b
-- zeros are written 0, 0.0 and -0.0, and no other number with these characters alone
truthy (number cs) = any_of (λ c. not (contains (45 ∷ 46 ∷ 48 ∷ []) c)) cs
truthy (text s) = not (s == "")
truthy (array nil) = false
truthy (array (cons v vs)) = true
truthy (object done) = false
truthy (object (field k v fs)) = true

-- `a or b`
unfoldable or_else : Json → Json → Json
unfolding truthy
or_else a b = if truthy a then a else b

-- the texts of a list, if all are texts and none is empty
abbrev prepend : String → Option (List String) → Option (List String)
prepend s none = none
prepend s (some l) = if s == "" then none else some (s ∷ l)

abbrev texts : Items → Option (List String)
texts nil = some []
texts (cons (text s) vs) = prepend s (texts vs)
texts (cons _ vs) = none

-- `[audience] if isinstance(audience, str) else audience`, checked
unfoldable pub audiences : Json → Option (List String)
audiences (text s) = prepend s (some [])
audiences (array vs) = texts vs
audiences _ = none

-- `claims.get(name, default)`
abbrev get_or : Fields → String → Json → Json
get_or claims name default = elim (get_field claims name) [ none ↦ default | some v ↦ v ]

-- a text that is not empty
abbrev some_text : Json → Option String
some_text (text s) = if s == "" then none else some s
some_text _ = none

-- a scope of printable ASCII without quotes and backslashes
unfoldable pub is_scope_character : ℕ → Bool
is_scope_character c = leb 32 c && leb c 126 && not (eqb_ℕ c 34) && not (eqb_ℕ c 92)

unfoldable scope_text : Json → Option String
unfolding is_scope_character
scope_text (text s) = if every is_scope_character s then some s else none
scope_text _ = none

-- whether an expiry has not passed; the clock is later than the skew, so a negative one has
abbrev unexpired : ℕ → ℕ → ℕ → Option ℤ → Option ℕ
unexpired second now skew none = none
unexpired second now skew (some (negsuc n)) = none
unexpired second now skew (some (pos n)) =
    if leb ((n + skew) * second) now then none else some (n * second)

-- the check of "nbf" and "iat"
abbrev in_future : ℕ → ℕ → ℕ → Option ℤ → Bool
in_future second now skew none = true
in_future second now skew (some (negsuc n)) = false
in_future second now skew (some (pos n)) = ltb (now + skew * second) (n * second)

unfoldable pub has_begun : ℕ → ℕ → ℕ → Json → Bool
unfolding as_integer
has_begun second now skew value =
    is_null value || not (in_future second now skew (as_integer value))

-- value == s
abbrev is_text : Json → String → Bool
is_text (text s) t = s == t
is_text _ t = false

-- two claims that both name the client must agree
unfoldable clients_differ : Fields → String → Bool
unfolding truthy
clients_differ claims client =
    truthy (Json.get claims "client_id")
    && truthy (Json.get claims "azp")
    && not (is_text (Json.get claims "azp") client)

infixl 5 ◌>>=◌
abbrev ◌>>=◌ : {A B : Type 0} → Option A → (A → Option B) → Option B
value >>= next = elim value [ none ↦ none | some a ↦ next a ]

-- `principal_from_claims(claims, issuer, resource, skew)`
unfoldable pub principal_from_claims :
    ℕ → ℕ → Fields → String → String → ℕ → Option VerifiedPrincipal
unfolding audiences or_else clients_differ has_begun as_integer scope_text
principal_from_claims second now claims issuer resource skew = do
  audience ← audiences (Json.get claims "aud")
  expiry ← unexpired second now skew (as_integer (Json.get claims "exp"))
  subject ← some_text (Json.get claims "sub")
  client ← some_text (or_else (Json.get claims "client_id") (Json.get claims "azp"))
  scope ← scope_text (get_or claims "scope" (text ""))
  if not (is_text (Json.get claims "iss") issuer)
        || not (contains audience resource)
        || clients_differ claims client
        || not (is_text (get_or claims "token_use" (text "access")) "access")
        || not (has_begun second now skew (Json.get claims "nbf"))
        || not (has_begun second now skew (Json.get claims "iat"))
      then none
      else some (record {
        issuer = issuer;
        subject = subject;
        client_id = client;
        scopes = split scope;
        expires_at = expiry;
      })

-- ===== src/Access/Credentials.antt =====
-- src/mcpgtw/oauth/credentials.py: `bearer_credential`, the token of an Authorization header, and
-- src/mcpgtw/authenticator.py: `extract_bearer_token`.
use Prim.Native.Char.{code}
use Prim.Native.String.append
use mcp_gtw.Base.{
  ℕ, String, ◌+◌, ◌≤◌, Bool, true, false, Option, none, some, List, [], ◌∷◌, ◌≡◌, refl, arith, ◌&&◌,
  ◌||◌, leb, ltb, eqb_ℕ, contains, ℕ_eq, if◌then◌else◌, Option-cases, inl, inr, text_eq, ◌==◌,
  after_prefix, strip, strip_left, is_space, every, join, length, ap, ◌↔◌, ◌⊎◌,
}
use mcp_gtw.Json.Text.{codes, utf8_size}
use mcp_gtw.Errors.{Error}
use mcp_gtw.Access.{Outcome, Reason, granted, denied, raised, missing_token, invalid_token}

-- a letter of the ASCII alphabet in lower case, and every other character as it is
unfoldable lower : ℕ → ℕ
lower c = if leb 65 c && leb c 90 then c + 32 else c

-- what follows the scheme, which is given in lower case and matched without regard to case
unfoldable pub after_scheme : String → String → Option String
unfolding lower
after_scheme String.[] s = some s
after_scheme (String.◌∷◌ c scheme) String.[] = none
after_scheme (String.◌∷◌ c scheme) (String.◌∷◌ d s) =
    let rest = after_scheme scheme s in if eqb_ℕ (code c) (lower (code d)) then rest else none

-- [A-Za-z0-9._~+/-]
unfoldable pub is_token_character : ℕ → Bool
is_token_character c =
    leb 65 c && leb c 90
    || leb 97 c && leb c 122
    || leb 48 c && leb c 57
    || contains (46 ∷ 95 ∷ 126 ∷ 43 ∷ 47 ∷ 45 ∷ []) c

-- [A-Za-z0-9._~+/-]+=*
unfoldable pub is_token : String → Bool
is_token String.[] = false
is_token (String.◌∷◌ c s) =
    is_token_character (code c) && every (eqb_ℕ 61) (strip_left is_token_character s)

abbrev checked : Option String → Outcome String
checked none = denied invalid_token
checked (some token) = if is_token token then granted token else denied invalid_token

unfoldable pub bearer_credential : List String → ℕ → Outcome String
bearer_credential [] maximum_bytes = denied missing_token
bearer_credential (header ∷ []) maximum_bytes =
    if ltb (maximum_bytes + 7) (utf8_size (codes header))
    then denied invalid_token
    else checked (after_scheme "bearer " header)
bearer_credential (header ∷ more ∷ headers) maximum_bytes = denied invalid_token

-- `… or None`
abbrev pub or_none : String → Option String
or_none s = if s == "" then none else some s

unfoldable pub extract_bearer_token : Option String → Option String
extract_bearer_token none = none
extract_bearer_token (some authorization) = elim (after_prefix "Bearer " authorization) [
  | none ↦ none
  | some rest ↦ or_none (strip is_space rest)
]

utf8_size-after_scheme :
    (scheme header rest : String)
    → every (λ c. ltb c 128) scheme ≡ true
    → after_scheme scheme header ≡ some rest
    → utf8_size (codes header) ≡ length (codes scheme) + utf8_size (codes rest)
unfolding after_scheme utf8_size every lower
utf8_size-after_scheme String.[] header rest ascii h = ground arith
utf8_size-after_scheme (String.◌∷◌ c scheme) String.[] rest ascii h = cc
utf8_size-after_scheme (String.◌∷◌ c scheme) (String.◌∷◌ d header) rest ascii h =
    ground (arith, utf8_size-after_scheme scheme header rest)

after_scheme-join :
    (scheme presented rest : String)
    → after_scheme scheme presented ≡ some ""
    → after_scheme scheme (join presented rest) ≡ some rest
unfolding after_scheme
after_scheme-join String.[] presented rest h = ground (arith, ap some (append.nil rest))
after_scheme-join (String.◌∷◌ c scheme) String.[] rest h = cc
after_scheme-join (String.◌∷◌ c scheme) (String.◌∷◌ d presented) rest h =
    rw (append.cons d presented rest) (ground (arith, after_scheme-join scheme presented rest))

-- a header that holds exactly a token which fits the bound
abbrev pub IsBearer : List String → ℕ → String → Type 0
IsBearer [] maximum_bytes token = ⊥
IsBearer (header ∷ []) maximum_bytes token =
    (after_scheme "bearer " header ≡ some token)
    × (is_token token ≡ true)
    × (utf8_size (codes token) ≤ maximum_bytes)
IsBearer (header ∷ more ∷ headers) maximum_bytes token = ⊥

-- `bearer_credential` returns a token exactly if there is one Authorization header, which holds the
-- scheme in any case, one space and that token, if the token is of the grammar, and if it has at
-- most `maximum_bytes` bytes in UTF-8.
pub bearer_credential-IsBearer :
    (headers : List String) (maximum_bytes : ℕ) (token : String)
    → (bearer_credential headers maximum_bytes ≡ granted token)
      ↔ IsBearer headers maximum_bytes token
unfolding bearer_credential every
bearer_credential-IsBearer [] maximum_bytes token = ground arith
bearer_credential-IsBearer (header ∷ []) maximum_bytes token =
    elim (Option-cases (after_scheme "bearer " header)) [
      | inl e ↦ (λ h. ground arith, λ h. ground arith)
      | inr (rest, e) ↦ (
        λ h. ground (arith, utf8_size-after_scheme "bearer " header rest ascii e),
        λ h. ground (arith, utf8_size-after_scheme "bearer " header rest ascii e),
      )
    ]
  where
    ascii : every (λ c. ltb c 128) "bearer " ≡ true
    ascii = refl
bearer_credential-IsBearer (header ∷ more ∷ headers) maximum_bytes token = ground arith

-- A token of the grammar that fits the bound is read back from the header that presents it, however
-- the scheme is capitalised.
pub bearer_credential-join :
    (presented token : String) (maximum_bytes : ℕ)
    → after_scheme "bearer " presented ≡ some ""
    → is_token token ≡ true
    → utf8_size (codes token) ≤ maximum_bytes
    → bearer_credential (join presented token ∷ []) maximum_bytes ≡ granted token
bearer_credential-join presented token maximum_bytes scheme grammar fits =
    (bearer_credential-IsBearer (join presented token ∷ []) maximum_bytes token).1
      (after_scheme-join "bearer " presented token scheme, grammar, fits)

pub IsBearer-unique :
    (headers : List String) (maximum_bytes : ℕ) (a b : String)
    → IsBearer headers maximum_bytes a
    → IsBearer headers maximum_bytes b
    → a ≡ b
IsBearer-unique headers maximum_bytes a b first second = cc (
  (bearer_credential-IsBearer headers maximum_bytes a).1 first,
  (bearer_credential-IsBearer headers maximum_bytes b).1 second,
)

pub bearer_credential-denied :
    (headers : List String) (maximum_bytes : ℕ) (reason : Reason)
    → bearer_credential headers maximum_bytes ≡ denied reason
    → ((headers ≡ []) × (reason ≡ missing_token)) ⊎ (reason ≡ invalid_token)
unfolding bearer_credential
bearer_credential-denied [] maximum_bytes reason h = inl (refl, ground arith)
bearer_credential-denied (header ∷ []) maximum_bytes reason h =
    elim (Option-cases (after_scheme "bearer " header)) [
      | inl e ↦ inr (ground arith)
      | inr (rest, e) ↦ inr (ground arith)
    ]
bearer_credential-denied (header ∷ more ∷ headers) maximum_bytes reason h = inr (ground arith)

pub bearer_credential-returns :
    (headers : List String) (maximum_bytes : ℕ) (e : Error)
    → bearer_credential headers maximum_bytes ≡ raised e
    → ⊥
unfolding bearer_credential
bearer_credential-returns [] maximum_bytes e h = cc
bearer_credential-returns (header ∷ []) maximum_bytes e h =
    elim (Option-cases (after_scheme "bearer " header)) [
      | inl missing ↦ ground arith
      | inr (rest, present) ↦ ground arith
    ]
bearer_credential-returns (header ∷ more ∷ headers) maximum_bytes e h = cc

-- ===== src/Registry/Termination.antt =====
-- src/mcpgtw/registry.py: the loop of `_unique_token` ends when the provider of tokens does not
-- repeat itself, so `create_channel` always returns or raises.
use mcp_gtw.Base.{
  ℕ, zero, suc, String, true, Option, List, [], ◌∷◌, ◌++◌, ◌≡◌, ◌≤◌, ◌<◌, refl, arith, text_eq,
  ==_iff, length, length-append, Bool-cases, Option-cases, inl, inr, ◌||◌, contains,
  contains-discard, discard, is_some, ap,
}
use mcp_gtw.Dict.{Dict, get, has, keys}
use mcp_gtw.Registry.{Registry}
use mcp_gtw.Registry.Expiry.{ExpiryPolicy}
use mcp_gtw.Registry.Tokens.{TokenProvider, token_taken, unique_token, unique_token_loop, turns}
use mcp_gtw.Registry.Lifecycle.{
  NewChannel, choose_id, choose_token, place_with_tokens, create_locked, create_channel,
}

-- what the source relies on: `secrets` does not give a token twice
abbrev pub IsFresh : TokenProvider → Type 0
IsFresh tokens = (m n : ℕ) → tokens.generate 32 m ≡ tokens.generate 32 n → m ≡ n

length-discard-le : (s : List String) (a : String) → length (discard s a) ≤ length s
unfolding discard
length-discard-le [] a = ground arith
length-discard-le (x ∷ s) a = ground (arith, length-discard-le s a)

length-discard :
    (s : List String) (a : String) → contains s a ≡ true → length (discard s a) < length s
unfolding discard
length-discard [] a h = cc
length-discard (x ∷ s) a h = ground (arith, length-discard-le s a, length-discard s a)

contains-append :
    (xs ys : List String) (a : String) → contains (xs ++ ys) a ≡ (contains xs a || contains ys a)
contains-append [] ys a = refl
contains-append (x ∷ xs) ys a = ground (arith, contains-append xs ys a)

contains-keys : (d : Dict String String) (j : String) → contains (keys d) j ≡ has d j
unfolding get
contains-keys [] j = refl
contains-keys ((i, c) ∷ d) j = ground (arith, contains-keys d j)

length-keys : (d : Dict String String) → length (keys d) ≡ length d
length-keys [] = refl
length-keys ((i, c) ∷ d) = ap suc (length-keys d)

-- `left` holds the taken tokens that the loop has not met yet
loop-ends :
    (tokens : TokenProvider) (fuel : ℕ) (r : Registry) (left : List String)
    → IsFresh tokens
    → ((m : ℕ)
        → r.generated ≤ m
        → token_taken r (tokens.generate 32 m) ≡ true
        → contains left (tokens.generate 32 m) ≡ true)
    → length left < fuel
    → is_some (unique_token_loop tokens fuel r) ≡ true
unfolding unique_token_loop token_taken
loop-ends tokens zero r left fresh met room = absurd (ground arith)
loop-ends tokens (suc fuel) r left fresh met room =
    let tok = tokens.generate 32 r.generated in
    elim (Bool-cases (token_taken r tok)) [
      | inr free ↦ ground arith
      | inl taken ↦
          let rest =
            loop-ends tokens fuel (record r { generated = suc r.generated }) (discard left tok)
              fresh
              (λ m le h. ground (
                arith,
                contains-discard left tok (tokens.generate 32 m),
                met m (ground arith) h,
                ==_iff tok (tokens.generate 32 m),
                fresh r.generated m,
              ))
              (ground
                (arith, room, length-discard left tok (met r.generated (ground arith) taken))) in
          ground (arith, rest)
    ]

unique_token-ends :
    (tokens : TokenProvider) (r : Registry)
    → IsFresh tokens
    → is_some (unique_token tokens r) ≡ true
unfolding unique_token turns token_taken
unique_token-ends tokens r fresh =
    let left = keys r.by_mcp_token ++ keys r.by_provider_token in
    loop-ends tokens (turns r) r left fresh
      (λ m le h. ground (
        arith,
        contains-append (keys r.by_mcp_token) (keys r.by_provider_token) (tokens.generate 32 m),
        contains-keys r.by_mcp_token (tokens.generate 32 m),
        contains-keys r.by_provider_token (tokens.generate 32 m),
      ))
      (ground (
        arith,
        length-append (keys r.by_mcp_token) (keys r.by_provider_token),
        length-keys r.by_mcp_token,
        length-keys r.by_provider_token,
      ))

choose_token-ends :
    (tokens : TokenProvider) (token : Option String) (r : Registry)
    → IsFresh tokens
    → is_some (choose_token tokens token r) ≡ true
unfolding choose_token
choose_token-ends tokens token r fresh = ground (arith, unique_token-ends tokens r fresh)

place_with_tokens-ends :
    (tokens : TokenProvider) (policy : ExpiryPolicy) (now : ℕ) (request : NewChannel) (id : String)
    (r : Registry)
    → IsFresh tokens
    → is_some (place_with_tokens tokens policy now request id r) ≡ true
unfolding place_with_tokens
place_with_tokens-ends tokens policy now request id r fresh =
    let first = choose_token-ends tokens request.mcp_token r fresh in
    elim (Option-cases (choose_token tokens request.mcp_token r)) [
      | inl e ↦ absurd (ground arith)
      | inr ((t, s), e) ↦
          let second = choose_token-ends tokens request.provider_token s fresh in
          elim (Option-cases (choose_token tokens request.provider_token s)) [
            | inl q ↦ absurd (ground arith)
            | inr ((u, v), q) ↦ rw (e, q, place_with_tokens) refl
          ]
    ]

-- `create_channel` ends on every registry: if the provider of tokens does not repeat itself, then
-- `_unique_token` finds a free token after at most one turn more than there are tokens in use, so
-- the call returns a channel or raises.
pub create_channel-ends :
    (tokens : TokenProvider) (policy : ExpiryPolicy) (now : ℕ) (request : NewChannel) (r : Registry)
    → IsFresh tokens
    → is_some (create_channel tokens policy now request r) ≡ true
unfolding create_channel create_locked
create_channel-ends tokens policy now request r fresh = ground (
  arith,
  place_with_tokens-ends tokens policy now request (choose_id tokens request.channel_id r).0
      (choose_id tokens request.channel_id r).1 fresh,
)

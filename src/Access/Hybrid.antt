-- ===== src/Access/Hybrid.antt =====
-- src/mcpgtw/oauth/hybrid_client_access.py: which of the two controllers decides a request.
use Prim.Native.Char.{code}
use mcp_gtw.Base.{
  ℕ, String, Bool, true, false, Option, none, some, [], ◌∷◌, ◌≡◌, inl, inr, refl, arith, ◌&&◌, not,
  eqb_ℕ, ap, ◌∙◌, false≢true, ==_false, text_eq, ◌==◌, Option-cases, if◌then◌else◌, is_space, every,
  starts_with, after_prefix, strip, strip_left, every-strip_left, every-weaken, strip_nothing,
}
use mcp_gtw.Channel.{Channel}
use mcp_gtw.Registry.{Registry, resolve, resolve_mcp_token}
use mcp_gtw.Access.{
  Outcome, granted, denied, Request, reference, head, AuthorizedMcpRequest, Digests, Controller,
  invalid_token,
}
use mcp_gtw.Access.Credentials.{
  bearer_credential, bearer_credential-IsBearer, extract_bearer_token, IsBearer, is_token,
  is_token_character, after_scheme, or_none,
}
use mcp_gtw.Access.Controllers.{
  token_authenticator, token_context, token_authorized, token_controller, hybrid_delegate,
  hybrid_authorize, hybrid_controller,
}

is_token_character-space : (c : ℕ) → is_token_character c ≡ true → not (is_space c) ≡ true
unfolding is_token_character is_space
is_token_character-space c h = ground arith

equals-space : (c : ℕ) → eqb_ℕ 61 c ≡ true → not (is_space c) ≡ true
unfolding is_space
equals-space c h = ground arith

-- a token has no white space
is_token-every :
    (token : String) → is_token token ≡ true → every (λ c. not (is_space c)) token ≡ true
unfolding is_token every
is_token-every String.[] h = refl
is_token-every (String.◌∷◌ c s) h = ground (
  arith,
  is_token_character-space (code c),
  every-strip_left (λ c. not (is_space c)) is_token_character s is_token_character-space,
  every-weaken (λ c. not (is_space c)) (eqb_ℕ 61) (strip_left is_token_character s) equals-space,
)

-- the scheme as the authenticator reads it is a spelling of the one that the credentials accept
after_prefix-after_scheme :
    (scheme prefix header rest : String)
    → after_scheme scheme prefix ≡ some ""
    → after_prefix prefix header ≡ some rest
    → after_scheme scheme header ≡ some rest
unfolding after_scheme after_prefix
after_prefix-after_scheme String.[] String.[] header rest spelled h = h
after_prefix-after_scheme String.[] (String.◌∷◌ d prefix) header rest spelled h =
    absurd (false≢true (ap ended spelled))
  where
    ended : Option String → Bool
    ended none = false
    ended (some String.[]) = true
    ended (some (String.◌∷◌ c s)) = false
after_prefix-after_scheme (String.◌∷◌ c scheme) String.[] header rest spelled h = cc
after_prefix-after_scheme (String.◌∷◌ c scheme) (String.◌∷◌ d prefix) String.[] rest spelled h = cc
after_prefix-after_scheme (String.◌∷◌ c scheme) (String.◌∷◌ d prefix) (String.◌∷◌ e header) rest
      spelled h =
    ground (arith, after_prefix-after_scheme scheme prefix header rest)

not_empty : (token : String) → is_token token ≡ true → (token == "") ≡ false
unfolding is_token
not_empty String.[] h = ground arith
not_empty (String.◌∷◌ c s) h = ==_false (String.◌∷◌ c s) "" (λ e. false≢true (ap ended e))
  where
    ended : String → Bool
    ended String.[] = true
    ended (String.◌∷◌ c s) = false

bearer_spelled : after_scheme "bearer " "Bearer " ≡ some ""
unfolding after_scheme
bearer_spelled = refl

extract_bearer_token-IsBearer :
    (header token : String) (maximum_bytes : ℕ)
    → IsBearer (header ∷ []) maximum_bytes token
    → extract_bearer_token (some header)
      ≡ (if starts_with header "Bearer " then some token else none)
unfolding extract_bearer_token starts_with
extract_bearer_token-IsBearer header token maximum_bytes (presented, grammar, fits) =
    elim (Option-cases (after_prefix "Bearer " header)) [
      | inl e ↦ rw (e, extract_bearer_token, starts_with) refl
      | inr (rest, e) ↦ rw (e, extract_bearer_token, starts_with) (go rest (same rest e))
    ]
  where
    same : (rest : String) → after_prefix "Bearer " header ≡ some rest → rest ≡ token
    same rest e = ground (
      arith,
      presented,
      after_prefix-after_scheme "bearer " "Bearer " header rest bearer_spelled e,
    )

    go : (rest : String) → rest ≡ token → or_none (strip is_space rest) ≡ some token
    go rest e =
        rw (e, strip_nothing is_space token (is_token-every token grammar), not_empty token grammar)
          refl

resolve_mcp_token-none : (r : Registry) → resolve_mcp_token r none ≡ none
unfolding resolve_mcp_token resolve
resolve_mcp_token-none r = refl

authenticate_client-static :
    (header token : String) (maximum_token_bytes : ℕ) (request : Request) (r : Registry)
    (channel : Channel)
    → request.authorization ≡ header ∷ []
    → bearer_credential (header ∷ []) maximum_token_bytes ≡ granted token
    → resolve_mcp_token r (some token) ≡ some channel
    → token_authenticator.authenticate_client request r
      ≡ (if starts_with header "Bearer " then some channel else none)
unfolding token_authenticator
authenticate_client-static header token maximum_token_bytes request r channel presented bearer
      resolves =
    ap (λ h. resolve_mcp_token r (extract_bearer_token (head h))) presented
    ∙ ap (resolve_mcp_token r) (
        extract_bearer_token-IsBearer header token maximum_token_bytes
          ((bearer_credential-IsBearer (header ∷ []) maximum_token_bytes token).0 bearer))
    ∙ go (starts_with header "Bearer ")
  where
    go :
        (spelled : Bool)
        → resolve_mcp_token r (if spelled then some token else none)
          ≡ (if spelled then some channel else none)
    go true = resolves
    go false = resolve_mcp_token-none r

-- A request whose token resolves to a channel is decided by the static controller alone: an eligible
-- channel is authorized exactly if the header spells the scheme as "Bearer ", with that channel and
-- the context of its token; everything else is denied as an invalid token. The state of the OAuth
-- controller is not touched.
pub hybrid_controller-static :
    {T O : Type 0} (digests : Digests) (oauth_access : Controller O)
    (static_eligible : Channel → Bool) (maximum_token_bytes now : ℕ) (request : Request)
    (header token : String) (r : Registry) (channel : Channel) (t : T) (o : O)
    → request.authorization ≡ header ∷ []
    → bearer_credential (header ∷ []) maximum_token_bytes ≡ granted token
    → resolve_mcp_token r (some token) ≡ some channel
    → (hybrid_controller
          (token_controller token_authenticator digests)
          oauth_access
          static_eligible
          maximum_token_bytes).authorize
        now request r
        (t, o)
      ≡ (
        if static_eligible channel && starts_with header "Bearer "
            then granted (record {
              channel = reference r channel.channel_id;
              context = token_context digests request channel.channel_id;
            })
            else denied invalid_token,
        (t, o),
      )
unfolding hybrid_controller hybrid_authorize hybrid_delegate token_controller token_authenticator
    token_authorized
hybrid_controller-static {T} {O} digests oauth_access static_eligible maximum_token_bytes now
      request header token r channel t o presented bearer resolves =
    rw
      (
        ap (λ h. bearer_credential h maximum_token_bytes) presented ∙ bearer,
        resolves,
        hybrid_authorize,
        hybrid_delegate,
      )
      (go (static_eligible channel) (starts_with header "Bearer ") (
        authenticate_client-static header token maximum_token_bytes request r channel presented
          bearer resolves))
  where
    go :
        (eligible spelled : Bool)
        → token_authenticator.authenticate_client request r
          ≡ (if spelled then some channel else none)
        → ◌≡◌ {A = Outcome AuthorizedMcpRequest × (T × O)}
            (if not eligible then (denied invalid_token, (t, o)) else (
              token_authorized digests request r
                  (token_authenticator.authenticate_client request r),
              (t, o),
            ))
            (
              if eligible && spelled
                  then granted (record {
                    channel = reference r channel.channel_id;
                    context = token_context digests request channel.channel_id;
                  })
                  else denied invalid_token,
              (t, o),
            )
    go false spelled e = refl
    go true true e = ap (λ c. (token_authorized digests request r c, (t, o))) e
    go true false e = ap (λ c. (token_authorized digests request r c, (t, o))) e

-- A request whose token resolves to no channel is decided by the OAuth controller alone.
pub hybrid_controller-oauth :
    {T O : Type 0} (token_access : Controller T) (oauth_access : Controller O)
    (static_eligible : Channel → Bool) (maximum_token_bytes now : ℕ) (request : Request)
    (token : String) (r : Registry) (t : T) (o : O)
    → bearer_credential request.authorization maximum_token_bytes ≡ granted token
    → resolve_mcp_token r (some token) ≡ none
    → (hybrid_controller token_access oauth_access static_eligible maximum_token_bytes).authorize
        now request r
        (t, o)
      ≡ (
        (oauth_access.authorize now request r o).0,
        (t, (oauth_access.authorize now request r o).1),
      )
unfolding hybrid_controller hybrid_authorize hybrid_delegate
hybrid_controller-oauth token_access oauth_access static_eligible maximum_token_bytes now request
      token r t o bearer resolves =
    rw (bearer, resolves, hybrid_controller, hybrid_authorize, hybrid_delegate) refl

-- ===== src/Registry/Creation.antt =====
-- src/mcpgtw/registry.py: `create_channel` either enters a channel in every table, under an id and
-- tokens that were free, or changes no table.
use mcp_gtw.Base.{
  ℕ, zero, suc, String, false, Option, some, ◌≡◌, ◌≢◌, refl, arith, text_eq, ◌==◌, ==_iff, length,
  Bool-cases, Option-cases, inl, inr, subst, join, if◌then◌else◌, sym, ap, ◌∙◌,
}
use mathlib.Core.Option.{some-injective}
use mcp_gtw.Errors.{Error, Result, ok, err, channel_capacity}
use mcp_gtw.Settings.{at_limit}
use mcp_gtw.Dict.{has}
use mcp_gtw.Channel.{Channel, new_channel}
use mcp_gtw.Registry.{Registry}
use mcp_gtw.Registry.Expiry.{ExpiryPolicy}
use mcp_gtw.Registry.Tokens.{TokenProvider, token_taken, turns, unique_token, unique_token_loop}
use mcp_gtw.Registry.Lifecycle.{
  NewChannel, given, choose_id, choose_token, enter, place, place_with_tokens, create_locked,
  metadata_or_empty,
}

-- the registry after some more calls of `generate`
abbrev pub after : ℕ → Registry → Registry
after n r = record r { generated = n }

pub data Outcome (policy : ExpiryPolicy) (now : ℕ) (request : NewChannel) (r : Registry)
    : Result Channel → Registry → Type 0 where
  placed :
      (n : ℕ) (c : Channel)
      → at_limit r.settings.maximum_channels (length r.channels) ≡ false
      → has r.channels c.channel_id ≡ false
      → c.mcp_token ≢ c.provider_token
      → token_taken r c.mcp_token ≡ false
      → token_taken r c.provider_token ≡ false
      → Outcome policy now request r (ok c) (enter policy now request c (after n r))
  refused : (n : ℕ) (e : Error) → Outcome policy now request r (err e) (after n r)

choose_id-after :
    (tokens : TokenProvider) (id : Option String) (r : Registry)
    → (choose_id tokens id r).1 ≡ after (choose_id tokens id r).1.generated r
unfolding choose_id
choose_id-after tokens id r = elim (Option-cases (given id)) [
  | inl e ↦ rw (e, choose_id) refl
  | inr (a, e) ↦ rw (e, choose_id) refl
]

returned-after :
    (t u : String) (r s : Registry) (n : ℕ)
    → ◌≡◌ {A = Option (String × Registry)} (some (t, after n r)) (some (u, s))
    → (s ≡ after s.generated r) × (t ≡ u)
returned-after t u r s n e =
    let p : String × Registry = (t, after n r) in
    let q : String × Registry = (u, s) in
    let same = some-injective p q e in
    (subst (λ x. x ≡ after x.generated r) (ap (λ p. p.1) same) refl, ap (λ p. p.0) same)

pub unique_token_loop-Free :
    (tokens : TokenProvider) (fuel : ℕ) (r : Registry) (t : String) (r' : Registry)
    → unique_token_loop tokens fuel r ≡ some (t, r')
    → (r' ≡ after r'.generated r) × (token_taken r t ≡ false)
unfolding unique_token_loop token_taken
unique_token_loop-Free tokens zero r t r' e = cc
unique_token_loop-Free tokens (suc fuel) r t r' e =
    let tok = tokens.generate 32 r.generated in
    elim (Bool-cases (token_taken r tok)) [
      | inl taken ↦
          unique_token_loop-Free tokens fuel (after (suc r.generated) r) t r' (ground arith)
      | inr free ↦
          let (one, two) = returned-after tok t r r' (suc r.generated) (ground arith) in
          (one, subst (λ x. token_taken r x ≡ false) two free)
    ]

choose_token-after :
    (tokens : TokenProvider) (token : Option String) (r : Registry) (t : String) (r' : Registry)
    → choose_token tokens token r ≡ some (t, r')
    → r' ≡ after r'.generated r
unfolding choose_token unique_token
choose_token-after tokens token r t r' e = elim (Option-cases (given token)) [
  | inl absent ↦ (unique_token_loop-Free tokens (turns r) r t r' (ground arith)).0
  | inr (a, present) ↦ (returned-after a t r r' r.generated (ground arith)).0
]

module _ (policy : ExpiryPolicy) (now : ℕ) (request : NewChannel) (r : Registry) where
  place-Outcome :
      (n : ℕ) (id mcp provider : String)
      → at_limit r.settings.maximum_channels (length r.channels) ≡ false
      → has r.channels id ≡ false
      → Outcome policy now request r
          (place policy now request id mcp provider (after n r)).0
          (place policy now request id mcp provider (after n r)).1
  unfolding place new_channel token_taken
  place-Outcome n id mcp provider room absent = elim (Bool-cases (mcp == provider)) [
    | inl same ↦ rw same (refused n _)
    | inr differ ↦ elim (Bool-cases (token_taken r mcp)) [
      | inl taken ↦ rw (differ, taken) (refused n _)
      | inr free_mcp ↦ elim (Bool-cases (token_taken r provider)) [
        | inl taken ↦ rw (differ, free_mcp, taken) (refused n _)
        | inr free ↦
            rw (differ, free_mcp, free)
              (placed n
                (new_channel id mcp provider r.settings (metadata_or_empty request.metadata)) room
                absent (ground (arith, ==_iff mcp provider)) free_mcp free)
      ]
    ]
  ]

  place_with_tokens-Outcome :
      (tokens : TokenProvider) (n : ℕ) (id : String) (x : Result Channel × Registry)
      → at_limit r.settings.maximum_channels (length r.channels) ≡ false
      → has r.channels id ≡ false
      → place_with_tokens tokens policy now request id (after n r) ≡ some x
      → Outcome policy now request r x.0 x.1
  unfolding place_with_tokens
  place_with_tokens-Outcome tokens n id x room absent e =
      elim (Option-cases (choose_token tokens request.mcp_token (after n r))) [
        | inl h ↦ absurd (ground arith)
        | inr ((mcp, r₁), h₁) ↦
            elim (Option-cases (choose_token tokens request.provider_token r₁)) [
              | inl h ↦ absurd (ground arith)
              | inr ((provider, r₂), h₂) ↦
                  let first = choose_token-after tokens request.mcp_token (after n r) mcp r₁ h₁ in
                  let second = choose_token-after tokens request.provider_token r₁ provider r₂ h₂ in
                  let both : r₂ ≡ after r₂.generated r =
                    second ∙ ap (λ s. after r₂.generated s) first in
                  let made : place policy now request id mcp provider r₂ ≡ x = ground arith in
                  subst (λ y. Outcome policy now request r y.0 y.1)
                    (ap (λ s. place policy now request id mcp provider s) (sym both) ∙ made)
                    (place-Outcome r₂.generated id mcp provider room absent)
            ]
      ]

  returned :
      (y x : Result Channel × Registry)
      → ◌≡◌ {A = Option (Result Channel × Registry)} (some y) (some x)
      → Outcome policy now request r y.0 y.1
      → Outcome policy now request r x.0 x.1
  returned y x e outcome =
      subst (λ (z : Result Channel × Registry). Outcome policy now request r z.0 z.1)
        (some-injective y x e) outcome

  after_choice :
      (tokens : TokenProvider) (n : ℕ) (id : String) (x : Result Channel × Registry)
      → at_limit r.settings.maximum_channels (length r.channels) ≡ false
      → (if has r.channels id
          then some (err (channel_capacity (join "Channel already exists: " id)), after n r)
          else place_with_tokens tokens policy now request id (after n r))
        ≡ some x
      → Outcome policy now request r x.0 x.1
  after_choice tokens n id x room e = elim (Bool-cases (has r.channels id)) [
    | inl taken ↦
        let exists = channel_capacity (join "Channel already exists: " id) in
        returned (err exists, after n r) x (ground arith) (refused n exists)
    | inr free ↦ place_with_tokens-Outcome tokens n id x room free (ground arith)
  ]

  -- what `create_channel` does under its lock
  pub create_locked-Outcome :
      (tokens : TokenProvider) (x : Result Channel × Registry)
      → create_locked tokens policy now request r ≡ some x
      → Outcome policy now request r x.0 x.1
  unfolding create_locked choose_id
  create_locked-Outcome tokens x e =
      elim (Bool-cases (at_limit r.settings.maximum_channels (length r.channels))) [
        | inl full ↦
            let reached = channel_capacity "The registry reached its maximum number of channels" in
            returned (err reached, r) x (ground arith) (refused r.generated reached)
        | inr room ↦ elim (Option-cases (given request.channel_id)) [
          | inl h ↦
              after_choice tokens (suc r.generated) (tokens.generate 12 r.generated) x room
                (ground arith)
          | inr (a, h) ↦ after_choice tokens r.generated a x room (ground arith)
        ]
      ]

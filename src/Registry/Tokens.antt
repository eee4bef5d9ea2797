-- ===== src/Registry/Tokens.antt =====
-- src/mcpgtw/registry.py: `_token_taken` and `_unique_token`. The provider of tokens is a parameter
-- that gives the texts it generates in order. `_unique_token` loops until a token is free; here the
-- loop has fuel, one turn more than there are tokens in use.
use mcp_gtw.Base.{
  ℕ, zero, suc, String, Bool, true, false, Option, none, some, ◌+◌, ◌||◌, text_eq, length,
}
use mcp_gtw.Dict.{has}
use mcp_gtw.Registry.{Registry}

-- tokens.py: `generate(nbytes)`, the n-th call
pub record TokenProvider : Type 0 where
  pub generate : ℕ → ℕ → String

unfoldable pub token_taken : Registry → String → Bool
token_taken r token = has r.by_mcp_token token || has r.by_provider_token token

abbrev generate_next : TokenProvider → ℕ → Registry → String × Registry
generate_next tokens nbytes r =
    (tokens.generate nbytes r.generated, record r { generated = suc r.generated })

unfoldable pub unique_token_loop : TokenProvider → ℕ → Registry → Option (String × Registry)
unfolding token_taken
unique_token_loop tokens zero r = none
unique_token_loop tokens (suc fuel) r =
    let (token, r') = generate_next tokens 32 r in
    elim (token_taken r token) [
      | true ↦ unique_token_loop tokens fuel r'
      | false ↦ some (token, r')
    ]

unfoldable pub turns : Registry → ℕ
turns r = suc (length r.by_mcp_token + length r.by_provider_token)

unfoldable pub unique_token : TokenProvider → Registry → Option (String × Registry)
unfolding unique_token_loop turns
unique_token tokens r = unique_token_loop tokens (turns r) r

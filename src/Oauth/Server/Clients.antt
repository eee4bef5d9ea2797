-- ===== src/Oauth/Server/Clients.antt =====
-- src/mcpgtw/oauth/authorization_server.py: `authenticate_client`. The registry of clients is a
-- parameter, and so are base64 and percent decoding.
use mcp_gtw.Base.{
  ℕ, String, Bool, true, false, Option, none, some, List, [], ◌∷◌, ◌&&◌, ◌||◌, not, ltb, length,
  text_eq, ◌==◌, if◌then◌else◌,
}
use mcp_gtw.Json.Text.{codes}
use mcp_gtw.Dict.{get, has}
use mcp_gtw.Access.Credentials.{after_scheme}
use mcp_gtw.Oauth.State.{StateStore}
use mcp_gtw.Oauth.Server.{Act, ◌>>=◌, ◌>>◌, require, present, answers, Client, Form, form_get}

pub record Clients : Type 0 where
  -- `clients.get`, at a time
  pub get_client : ℕ → String → StateStore → Option Client × StateStore
  -- base64.b64decode(value, validate=True).decode().split(":", 1), with both parts unquoted
  pub decode_basic : String → Option (String × String)

-- the client and the secret that a request presents, `none` if it is malformed
unfoldable pub presented : Clients → List String → Form → Option (String × String)
presented clients [] form =
    if has form "client_secret" then none else some (form_get form "client_id", "")
presented clients (header ∷ []) form = elim (after_scheme "basic " header) [
  | none ↦ none
  | some encoded ↦
      if ltb 2048 (length (codes header)) || has form "client_secret"
      then none
      else elim (clients.decode_basic encoded) [
        | none ↦ none
        | some (client_id, secret) ↦ elim (get form "client_id") [
          | none ↦ some (client_id, secret)
          | some named ↦ if named == client_id then some (client_id, secret) else none
        ]
      ]
]
presented clients (header ∷ more ∷ headers) form = none

abbrev any_header : List String → Bool
any_header [] = false
any_header (header ∷ headers) = true

-- whether a request authenticates a client by the client's method
unfoldable pub authenticates : Client → List String → String → Bool
authenticates client headers secret =
    not (
      client.method == "client_secret_basic"
      && (not (any_header headers) || not (secret == client.secret)))
    && not (client.method == "none" && any_header headers)

module _ (clients : Clients) (now : ℕ) where
  unfoldable pub find_client : String → Act Client
  find_client client_id s = present (clients.get_client now client_id s)

  unfoldable pub check_client : List String → String × String → Act Client
  check_client headers (client_id, secret) = do
    client ← find_client client_id
    require (authenticates client headers secret)
    λ s. (answers client, s)

  unfoldable pub authenticate_client : List String → Form → Act Client
  authenticate_client headers form = do
    require (not (has form "client_assertion" || has form "client_assertion_type"))
    credentials ← λ s. present (presented clients headers form, s)
    check_client headers credentials

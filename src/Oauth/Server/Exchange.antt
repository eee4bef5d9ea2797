-- ===== src/Oauth/Server/Exchange.antt =====
-- src/mcpgtw/oauth/authorization_server.py: `exchange`, the token endpoint's code and refresh grants.
-- Fresh secrets are arguments. A run of it is one in which nothing comes between its awaits.
pub mod Redemption
pub mod Codes
pub mod Once
use Prim.Native.Char.{code as code_of}
use mcp_gtw.Base.{
  ℕ, ◌+◌, String, Bool, true, false, Option, none, some, List, [], ◌∷◌, ◌&&◌, ◌||◌, not, leb, eqb_ℕ,
  contains, ℕ_eq, subset, length, every, is_empty, as_set, split, text_eq, ◌==◌, if◌then◌else◌,
}
use mcp_gtw.Json.{Json, Fields, null, text, field, done, get_field, as_text}
use mcp_gtw.Json.Text.{codes}
use mcp_gtw.Errors.{Result, ok, err}
use mcp_gtw.Dict.{get}
use mcp_gtw.Oauth.Context.{same_text}
use mcp_gtw.Oauth.State
use mcp_gtw.Oauth.State.{Payload}
use mcp_gtw.Oauth.Server.{
  Act, ◌>>=◌, ◌>>◌, return, require, present, raising, Reply, answers, refuses, raises, Client,
  Claims, Server, Form, form_get, text_of, or_empty,
}

-- the secrets that a run makes
pub record Fresh : Type 0 where
  pub family : String
  pub refresh : String
  pub jti : String

-- what the endpoint answers: the claims that are signed, and the nonce of the identity token
pub record Issued : Type 0 where
  pub access_token : Claims
  pub refresh_token : Option String
  pub id_token : Option (Claims × String)

-- [A-Za-z0-9._~-]{43,128}
unfoldable pub is_verifier : String → Bool
is_verifier verifier =
    every
      (λ c.
        leb 65 c && leb c 90
        || leb 97 c && leb c 122
        || leb 48 c && leb c 57
        || contains (46 ∷ 95 ∷ 126 ∷ 45 ∷ []) c)
      verifier
    && leb 43 (length (codes verifier))
    && leb (length (codes verifier)) 128

abbrev optional_text : Option String → Json
optional_text none = null
optional_text (some value) = text value

abbrev binding_of : Payload → Option String
binding_of payload = elim (get_field payload.rest "binding") [
  | none ↦ none
  | some value ↦ as_text value
]

-- the test of a code that was found
unfoldable pub code_matches : Server → Client → Form → String → Payload → Bool
code_matches v client form resource code =
    code.client_id == client.client_id
    && same_text (some (text_of code "redirect_uri")) (get form "redirect_uri")
    && code.resource == resource
    && is_verifier (form_get form "code_verifier")

-- the proof of possession, and the scopes that are asked for
unfoldable pub code_proves : Server → Form → List String → Payload → Bool
code_proves v form scopes code =
    v.challenge (form_get form "code_verifier") == text_of code "code_challenge"
    && (is_empty scopes || subset scopes code.scopes)

-- `scopes or set(code["scopes"])`
unfoldable pub scopes_or : List String → Payload → List String
scopes_or [] payload = as_set payload.scopes
scopes_or (scope ∷ scopes) payload = scope ∷ scopes

-- the record that a refresh token stands for
unfoldable pub refresh_record : Client → String → List String → String → Payload → Payload
refresh_record client resource scopes family code = record {
  subject = code.subject;
  client_id = client.client_id;
  resource = resource;
  scopes = scopes;
  family = family;
  used = false;
  rest =
      field "nonce" (text (text_of code "nonce"))
        (field "binding" (optional_text (binding_of code)) done);
}

unfoldable pub family_record : Client → Payload → Payload
family_record client code = record {
  subject = code.subject;
  client_id = client.client_id;
  resource = "";
  scopes = [];
  family = "";
  used = false;
  rest = done;
}

module _ (v : Server) (now : ℕ) (client : Client) (form : Form) (fresh : Fresh) where
  unfoldable pub find_code : Act Payload
  find_code s = present (State.get v.digest now "code" (form_get form "code") true s)

  unfoldable pub store_family : Payload → Act (Unit {0})
  store_family code s = raising (
      State.put v.digest now "family" (family_record client code) v.refresh_token_ttl_seconds
        fresh.family s)

  unfoldable pub store_refresh : Payload → Act (Unit {0})
  store_refresh payload s =
      raising (State.put v.digest now "refresh" payload v.refresh_token_ttl_seconds fresh.refresh s)

  -- whether the client may refresh
  unfoldable pub put_refresh : Bool → Payload → Act (Payload × Option String)
  put_refresh false payload = return (payload, none)
  put_refresh true payload = store_refresh payload >> return (payload, some fresh.refresh)

  -- the code grant from the tests of the code on
  unfoldable pub redeem : String → List String → Payload → Act (Payload × Option String)
  redeem resource scopes code = do
    require (code_matches v client form resource code)
    require (code_proves v form scopes code)
    store_family code
    put_refresh (contains client.grant_types "refresh_token")
        (refresh_record client resource (scopes_or scopes code) fresh.family code)

  unfoldable pub exchange_code : String → List String → Act (Payload × Option String)
  exchange_code resource scopes = do code ← find_code; redeem resource scopes code

  abbrev some_refresh : Payload × String → Act (Payload × Option String)
  some_refresh (payload, refresh) = return (payload, some refresh)

  unfoldable pub exchange_refresh : String → List String → Act (Payload × Option String)
  exchange_refresh resource scopes = do
    current ←
        λ s. present (State.get v.digest now "refresh" (form_get form "refresh_token") false s)
    rotated ← λ s. raising (
        State.rotate v.digest now (form_get form "refresh_token") client.client_id resource
          (scopes_or scopes current) fresh.refresh s)
    pair ← λ s. present (rotated, s)
    some_refresh pair

  -- the consent that is looked up for every exchange
  unfoldable pub consents : String → Payload → Bool
  consents resource payload =
      client.browser
      || same_text (binding_of payload)
          (v.consent.binding payload.subject client.client_id resource)
        && v.consent.validate payload.subject client.client_id resource (as_set payload.scopes)

  -- what follows, by whether there is consent
  unfoldable pub confirm : Bool → Payload → Act (Unit {0})
  confirm true payload s = (answers tt, s)
  confirm false payload s = (refuses, State.remove v.digest now "family" payload.family s)

  unfoldable pub access_claims : String → Payload → Claims
  access_claims resource payload = record {
    iss = v.issuer;
    sub = payload.subject;
    client_id = client.client_id;
    aud = if resource == "" then client.client_id else resource;
    iat = now;
    exp = now + v.access_token_ttl_seconds;
    scopes = as_set payload.scopes;
    family = payload.family;
    jti = fresh.jti;
  }

  unfoldable pub issue : String → Payload × Option String → Issued
  issue resource (payload, refresh) =
      let claims = access_claims resource payload in
      record {
        access_token = claims;
        refresh_token = refresh;
        id_token =
            if contains claims.scopes "openid"
            then some (record claims { aud = client.client_id }, text_of payload "nonce")
            else none;
      }

  abbrev pub right_resource : String → Bool
  right_resource resource = resource == (if client.browser then "" else v.resource)

  abbrev pub grants : Option String → Bool
  grants none = false
  grants (some grant_type) = contains client.grant_types grant_type

  -- by whether the grant is one of a code
  unfoldable pub grant : Bool → String → List String → Act (Payload × Option String)
  grant true resource scopes = exchange_code resource scopes
  grant false resource scopes = exchange_refresh resource scopes

  unfoldable pub exchange : Act Issued
  exchange = do
    require (grants (get form "grant_type") && right_resource (form_get form "resource"))
    pair ←
        grant (form_get form "grant_type" == "authorization_code") (form_get form "resource")
          (as_set (split (form_get form "scope")))
    confirm (consents (form_get form "resource") pair.0) pair.0
    return (issue (form_get form "resource") pair)

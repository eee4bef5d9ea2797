-- ===== src/Oauth/Server/Tests.antt =====
-- The authorization server at concrete inputs.
use mcp_gtw.Base.{
  ℕ, ◌+◌, String, true, false, none, some, [], ◌∷◌, ◌≡◌, refl, text_eq, ◌==◌, every, split,
  split_at, is_space, as_set, add,
}
use mcp_gtw.Json.{field, text, done, get_field}
use mcp_gtw.Errors.{ok}
use mcp_gtw.Dict.{get}
use mcp_gtw.Oauth.Context.{same_text}
use mcp_gtw.Oauth.State
use mcp_gtw.Oauth.State.{
  StateStore, Payload, Row, find, delete, delete_expired, upsert, matches, payload_of,
}
use mcp_gtw.Oauth.Server.{Reply, answers, Client, Server, Form, form_get}
use mcp_gtw.Oauth.Server.Exchange.{
  Fresh, Issued, exchange, grant, exchange_code, find_code, redeem, code_matches, code_proves,
  is_verifier, scopes_or, refresh_record, family_record, store_family, store_refresh, put_refresh,
  consents, confirm, access_claims, issue,
}
use mcp_gtw.Oauth.Server.Exchange.Codes.{IsIssued, exchange-IsIssued}
use mcp_gtw.Oauth.Server.Revocation.{SigningKey, Limits, known_token, revocable}

abbrev server : Server
server = record {
  digest = λ secret. secret;
  issuer = "i";
  resource = "r";
  consent = record {
    approve = λ subject client resource scopes. true;
    binding = λ subject client resource. some resource;
    validate = λ subject client resource scopes. true;
  };
  challenge = λ verifier. verifier;
  auth_code_ttl_seconds = 120;
  access_token_ttl_seconds = 900;
  refresh_token_ttl_seconds = 1000;
}

abbrev client : Client
client = record {
  client_id = "k";
  secret = "";
  redirect_uris = "u" ∷ [];
  method = "none";
  name = "n";
  browser = false;
  grant_types = "authorization_code" ∷ [];
}

abbrev long : String
long = "0123456789012345678901234567890123456789012"

abbrev form : Form
form =
    ("grant_type", "authorization_code")
    ∷ ("resource", "r")
    ∷ ("code", "c")
    ∷ ("redirect_uri", "u")
    ∷ ("code_verifier", long)
    ∷ []

abbrev fresh : Fresh
fresh = record { family = "f"; refresh = "t"; jti = "j" }

abbrev code : Payload
code = record {
  subject = "s";
  client_id = "k";
  resource = "r";
  scopes = "read" ∷ [];
  family = "";
  used = false;
  rest =
      field "redirect_uri" (text "u")
        (field "code_challenge" (text long) (field "binding" (text "r") done));
}

abbrev store : StateStore
store = record {
  maximum_records = 5;
  rows = record { kind = "code"; key = "c"; payload = code; expires = 50 } ∷ [];
}

abbrev payload : Payload
payload = record {
  subject = "s";
  client_id = "k";
  resource = "r";
  scopes = "read" ∷ [];
  family = "f";
  used = false;
  rest = field "nonce" (text "") (field "binding" (text "r") done);
}

abbrev issued : Issued
unfolding issue access_claims as_set add
issued = issue server 20 client form fresh "r" (payload, none)

abbrev afterwards : StateStore
unfolding family_record
afterwards = record {
  maximum_records = 5;
  rows =
      record { kind = "family"; key = "f"; payload = family_record client code; expires = 1020 }
      ∷ [];
}

exchanged :
    ◌≡◌ {A = Reply Issued × StateStore}
      (exchange server 20 client form fresh store)
      (answers issued, afterwards)
unfolding exchange grant exchange_code find_code redeem code_matches code_proves is_verifier
    scopes_or refresh_record family_record store_family store_refresh put_refresh consents confirm
    issue access_claims State.get State.put find delete delete_expired upsert every split split_at
    is_space as_set add same_text get_field get
exchanged = refl

coded : (form_get form "grant_type" == "authorization_code") ≡ true
unfolding get
coded = refl

exchange-IsIssued_example : (c : Payload) × IsIssued server 20 client form store c issued
exchange-IsIssued_example =
    exchange-IsIssued server 20 client form fresh issued store afterwards coded exchanged

-- a key that signed one token
abbrev key : SigningKey
key = record {
  decode =
      λ raw_token resource. some (field "client_id" (text "k") (field "family" (text "f") done));
  second = 1;
}

-- a refresh token of the client, with its family
abbrev refresh_row : Row
refresh_row = record { kind = "refresh"; key = "t"; payload = payload; expires = 1020 }

abbrev family_row : Row
unfolding family_record
family_row = record {
  kind = "family";
  key = "f";
  payload = family_record client code;
  expires = 1020;
}

abbrev granted_store : StateStore
granted_store = record { maximum_records = 5; rows = refresh_row ∷ family_row ∷ [] }

abbrev revoked_store : StateStore
revoked_store = record { maximum_records = 5; rows = refresh_row ∷ [] }

abbrev token_form : Form
token_form = ("token", "t") ∷ []

-- budgets that count how often they are asked
abbrev limits : Limits ℕ
limits = record {
  token = λ address n. (ok tt, n + 1);
  client = λ client_id n. (ok tt, n + 1);
  principal = λ subject n. (ok tt, n + 1);
}

owned : known_token server key 20 token_form granted_store ≡ some ("k", "s", "f")
unfolding revocable find delete_expired get get_field
owned = refl

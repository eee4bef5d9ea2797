-- ===== src/Oauth/Server/Exchange/Codes.antt =====
-- src/mcpgtw/oauth/authorization_server.py: what a code is exchanged for.
use mcp_gtw.Base.{
  ℕ, ◌+◌, String, true, Option, some, List, [], ◌∷◌, ◌≡◌, ◌⊎◌, inl, inr, refl, sym, subst, ap, ◌∙◌,
  arith, subset, as_set, text_eq, ◌==◌, ==_iff, Bool-cases, subset-each, subset-contains,
  contains-as_set,
}
use mcp_gtw.Dict.{get}
use mcp_gtw.Oauth.Context.{same_text_iff}
use mcp_gtw.Oauth.State.{StateStore, Payload}
use mcp_gtw.Oauth.Server.{Reply, answers, Client, Server, Form, form_get, text_of}
use mcp_gtw.Oauth.Server.Exchange.{
  Fresh, Issued, is_verifier, code_matches, code_proves, scopes_or, refresh_record, consents,
  access_claims, issue, exchange,
}
use mcp_gtw.Oauth.Server.Exchange.Redemption.{stored_code, requested, exchange-IsExchanged}

scopes_or-subset :
    (v : Server) (form : Form) (scopes : List String) (code : Payload)
    → code_proves v form scopes code ≡ true
    → subset (as_set (scopes_or scopes code)) code.scopes ≡ true
unfolding code_proves scopes_or
scopes_or-subset v form [] code h =
    subset-each (as_set (as_set code.scopes)) code.scopes
      (λ a m. ground (arith, contains-as_set (as_set code.scopes) a, contains-as_set code.scopes a))
scopes_or-subset v form (scope ∷ scopes) code h =
    subset-each (as_set (scope ∷ scopes)) code.scopes (λ a m.
      subset-contains (scope ∷ scopes) code.scopes a (ground arith)
        (sym (contains-as_set (scope ∷ scopes) a) ∙ m))

-- what an access token that is issued for a code says, and what the code and the request are
pub record IsIssued (v : Server) (now : ℕ) (client : Client) (form : Form) (s : StateStore)
    (code : Payload) (issued : Issued) : Type 0 where
  pub stored : stored_code v now form s ≡ some code
  pub of_client : code.client_id ≡ client.client_id
  pub redirect : get form "redirect_uri" ≡ some (text_of code "redirect_uri")
  pub of_resource : code.resource ≡ form_get form "resource"
  pub proved : v.challenge (form_get form "code_verifier") ≡ text_of code "code_challenge"
  pub grammar : is_verifier (form_get form "code_verifier") ≡ true
  pub scopes : subset issued.access_token.scopes code.scopes ≡ true
  pub subject : issued.access_token.sub ≡ code.subject
  pub audience : issued.access_token.client_id ≡ client.client_id
  pub lifetime : issued.access_token.exp ≡ now + v.access_token_ttl_seconds
  pub consented :
      (client.browser ≡ true)
      ⊎ (v.consent.validate code.subject client.client_id
            (form_get form "resource")
            issued.access_token.scopes
          ≡ true)

issue-IsIssued :
    (v : Server) (now : ℕ) (client : Client) (form : Form) (fresh : Fresh) (s : StateStore)
    (code payload : Payload) (refresh : Option String)
    → stored_code v now form s ≡ some code
    → code_matches v client form (form_get form "resource") code ≡ true
    → code_proves v form (requested v now client form fresh) code ≡ true
    → payload
      ≡ refresh_record client
          (form_get form "resource")
          (scopes_or (requested v now client form fresh) code)
          fresh.family
          code
    → consents v now client form fresh (form_get form "resource") payload ≡ true
    → IsIssued v now client form s code
        (issue v now client form fresh (form_get form "resource") (payload, refresh))
unfolding code_matches code_proves consents issue access_claims refresh_record
issue-IsIssued v now client form fresh s code payload refresh stored matched proved same consented =
    record {
      stored = stored;
      of_client = ground (arith, ==_iff code.client_id client.client_id);
      redirect = sym (
          (same_text_iff (some (text_of code "redirect_uri")) (get form "redirect_uri")).0
            (ground arith));
      of_resource = ground (arith, ==_iff code.resource (form_get form "resource"));
      proved =
          (==_iff (v.challenge (form_get form "code_verifier")) (text_of code "code_challenge")).0
            (ground arith);
      grammar = ground arith;
      scopes =
          subst (λ (p : Payload). subset (as_set p.scopes) code.scopes ≡ true) (sym same)
            (scopes_or-subset v form (requested v now client form fresh) code proved);
      subject = ap (λ (p : Payload). p.subject) same;
      audience = refl;
      lifetime = refl;
      consented = elim (Bool-cases client.browser) [
        | inl browser ↦ inl browser
        | inr no_browser ↦ inr (
            subst
              (λ subject.
                v.consent.validate subject client.client_id (form_get form "resource")
                  (as_set payload.scopes)
                ≡ true)
              (ap (λ (p : Payload). p.subject) same) (ground arith))
      ];
    }

-- The token endpoint answers a code grant only for a code that the store holds and that has not
-- expired, that was made for this client, redirect URI and resource, and whose challenge the verifier
-- of the request meets. The access token is for the code's subject and this client, with no scope that the
-- code does not have, for the configured lifetime; and if the client is no browser, the consent
-- policy has validated that subject, client, resource and scopes.
pub exchange-IsIssued :
    (v : Server) (now : ℕ) (client : Client) (form : Form) (fresh : Fresh) (issued : Issued)
    (s t : StateStore)
    → (form_get form "grant_type" == "authorization_code") ≡ true
    → ◌≡◌ {A = Reply Issued × StateStore} (exchange v now client form fresh s) (answers issued, t)
    → (code : Payload) × IsIssued v now client form s code issued
unfolding code_matches code_proves consents issue access_claims refresh_record
exchange-IsIssued v now client form fresh issued s t coded e =
    let (code, payload, refresh, stored, (matched, proved, same), consented, is_issued) =
      exchange-IsExchanged v now client form fresh issued s t coded e in
    (
      code,
      subst (IsIssued v now client form s code) (sym is_issued) (
          issue-IsIssued v now client form fresh s code payload refresh stored matched proved same
            consented),
    )

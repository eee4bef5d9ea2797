-- ===== src/Oauth/Server/Exchange/Redemption.antt =====
-- src/mcpgtw/oauth/authorization_server.py: what has passed when `exchange` answers.
use mcp_gtw.Base.{
  ℕ, String, Bool, true, false, Option, none, some, List, ◌≡◌, refl, sym, subst, ap, ◌&&◌, contains,
  split, as_set, text_eq, ◌==◌,
}
use mcp_gtw.Dict.{get}
use mcp_gtw.Oauth.State
use mcp_gtw.Oauth.State.{StateStore, Payload, Row, find, delete_expired, payload_of}
use mcp_gtw.Oauth.Server.{
  Act, after_reply, return, require, present, Reply, answers, refuses, raises, Client, Server, Form,
  form_get,
}
use mcp_gtw.Oauth.Server.Exchange.{
  Fresh, Issued, grants, right_resource, code_matches, code_proves, scopes_or, refresh_record,
  put_refresh, store_refresh, store_family, find_code, redeem, exchange_code, grant, consents,
  confirm, issue, exchange,
}

module _ {A B : Type 0} where
  -- An action that answered: its first part did, and the rest from there.
  after_reply-answers :
      (next : A → Act B) (o : Reply A × StateStore) (b : B) (t : StateStore)
      → ◌≡◌ {A = Reply B × StateStore} (after_reply next o) (answers b, t)
      → (a : A) × (s : StateStore) × (◌≡◌ {A = Reply A × StateStore} o (answers a, s))
        × (◌≡◌ {A = Reply B × StateStore} (next a s) (answers b, t))
  after_reply-answers next (answers a, s) b t e = (a, s, refl, e)
  after_reply-answers next (refuses, s) b t e = cc
  after_reply-answers next (raises x, s) b t e = cc

require-answers :
    (b : Bool) (u : Unit {0}) (s t : StateStore)
    → ◌≡◌ {A = Reply (Unit {0}) × StateStore} (require b s) (answers u, t)
    → (b ≡ true) × (◌≡◌ {A = StateStore} s t)
require-answers true u s t e = (refl, ap (λ (o : Reply (Unit {0}) × StateStore). o.1) e)
require-answers false u s t e = cc

return-answers :
    {A : Type 0} (a b : A) (s t : StateStore)
    → ◌≡◌ {A = Reply A × StateStore} (return a s) (answers b, t)
    → b ≡ a
return-answers a b s t e = cc e

abbrev payload_or : Payload → Reply (Payload × Option String) → Payload
payload_or payload (answers pair) = pair.0
payload_or payload refuses = payload
payload_or payload (raises e) = payload

-- a code that the store has for a form, unexpired
abbrev pub stored_code : Server → ℕ → Form → StateStore → Option Payload
stored_code v now form s =
    payload_of (find "code" (v.digest (form_get form "code")) (delete_expired now s.rows))

module _ (v : Server) (now : ℕ) (client : Client) (form : Form) (fresh : Fresh) where
  put_refresh-answers :
      (kept : Bool) (payload : Payload) (pair : Payload × Option String) (s t : StateStore)
      → ◌≡◌ {A = Reply (Payload × Option String) × StateStore}
          (put_refresh v now client form fresh kept payload s)
          (answers pair, t)
      → payload ≡ pair.0
  unfolding put_refresh
  put_refresh-answers false payload pair s t e =
      ap (λ (o : Reply (Payload × Option String) × StateStore). payload_or payload o.0) e
  put_refresh-answers true payload pair s t e =
      let (done, s', put, rest) =
        after_reply-answers (λ u. return (payload, some fresh.refresh))
          (store_refresh v now client form fresh payload s) pair t e in
      ap (λ (o : Reply (Payload × Option String) × StateStore). payload_or payload o.0) rest

  -- what a code is redeemed for
  abbrev pub IsRedeemed : String → List String → Payload → Payload → Type 0
  IsRedeemed resource scopes code payload =
      (code_matches v client form resource code ≡ true)
      × (code_proves v form scopes code ≡ true)
      × (payload ≡ refresh_record client resource (scopes_or scopes code) fresh.family code)

  redeem-IsRedeemed :
      (resource : String) (scopes : List String) (code : Payload) (pair : Payload × Option String)
      (s t : StateStore)
      → ◌≡◌ {A = Reply (Payload × Option String) × StateStore}
          (redeem v now client form fresh resource scopes code s)
          (answers pair, t)
      → IsRedeemed resource scopes code pair.0
  unfolding redeem
  redeem-IsRedeemed resource scopes code pair s t e =
      let tested = code_matches v client form resource code in
      let proved = code_proves v form scopes code in
      let payload = refresh_record client resource (scopes_or scopes code) fresh.family code in
      let keep =
        put_refresh v now client form fresh (contains client.grant_types "refresh_token") payload in
      let family = store_family v now client form fresh code in
      let (u₁, s₁, first, rest₁) =
        after_reply-answers
          (λ u r. after_reply (λ w q. after_reply (λ x. keep) (family q)) (require proved r))
          (require tested s) pair t e in
      let (u₂, s₂, second, rest₂) =
        after_reply-answers (λ w q. after_reply (λ x. keep) (family q)) (require proved s₁) pair t
          rest₁ in
      let (u₃, s₃, third, rest₃) = after_reply-answers (λ x. keep) (family s₂) pair t rest₂ in
      (
        (require-answers tested u₁ s s₁ first).0,
        (require-answers proved u₂ s₁ s₂ second).0,
        sym (
            put_refresh-answers (contains client.grant_types "refresh_token") payload pair s₃ t
              rest₃),
      )

  abbrev pub requested : List String
  requested = as_set (split (form_get form "scope"))

  find_code-answers :
      (code : Payload) (s t : StateStore)
      → ◌≡◌ {A = Reply Payload × StateStore} (find_code v now client form fresh s) (answers code, t)
      → stored_code v now form s ≡ some code
  unfolding find_code State.get
  find_code-answers code s t e =
      go (stored_code v now form s)
        (record s {
          rows = State.delete "code" (v.digest (form_get form "code")) (delete_expired now s.rows);
        })
        e
    where
      go :
          (found : Option Payload) (u : StateStore)
          → ◌≡◌ {A = Reply Payload × StateStore} (present (found, u)) (answers code, t)
          → found ≡ some code
      go none u h = cc
      go (some payload) u h = cc

  confirm-answers :
      (consented : Bool) (payload : Payload) (u : Unit {0}) (s t : StateStore)
      → ◌≡◌ {A = Reply (Unit {0}) × StateStore}
          (confirm v now client form fresh consented payload s)
          (answers u, t)
      → consented ≡ true
  unfolding confirm
  confirm-answers true payload u s t e = refl
  confirm-answers false payload u s t e = cc

  -- what an exchange of a code answers for
  abbrev pub IsExchanged : StateStore → Issued → Type 0
  IsExchanged s issued =
      (code : Payload) × (payload : Payload) × (refresh : Option String) × (stored_code v now form s
        ≡ some code)
      × IsRedeemed (form_get form "resource") requested code payload
      × (consents v now client form fresh (form_get form "resource") payload ≡ true)
      × (issued ≡ issue v now client form fresh (form_get form "resource") (payload, refresh))

  pub exchange-IsExchanged :
      (issued : Issued) (s t : StateStore)
      → (form_get form "grant_type" == "authorization_code") ≡ true
      → ◌≡◌ {A = Reply Issued × StateStore} (exchange v now client form fresh s) (answers issued, t)
      → IsExchanged s issued
  unfolding exchange grant exchange_code
  exchange-IsExchanged issued s t coded e =
      let resource = form_get form "resource" in
      let allowed =
        grants v now client form fresh (get form "grant_type")
        && right_resource v now client form fresh resource in
      let finish = λ (pair : Payload × Option String).
        λ (u : Unit {0}). return (issue v now client form fresh resource pair) in
      let confirmed = λ (pair : Payload × Option String).
        confirm v now client form fresh (consents v now client form fresh resource pair.0) pair.0 in
      let continue = λ (pair : Payload × Option String).
        λ (q : StateStore). after_reply (finish pair) (confirmed pair q) in
      let whole = λ (b : Bool). λ (u : Unit {0}). λ (q : StateStore).
        after_reply continue (grant v now client form fresh b resource requested q) in
      let e' =
        subst
          (λ b.
            ◌≡◌ {A = Reply Issued × StateStore} (after_reply (whole b) (require allowed s))
              (answers issued, t))
          coded e in
      let (u₁, s₁, first, rest₁) =
        after_reply-answers (whole true) (require allowed s) issued t e' in
      let (pair, s₂, second, rest₂) =
        after_reply-answers continue (exchange_code v now client form fresh resource requested s₁)
          issued t rest₁ in
      let (u₃, s₃, third, rest₃) =
        after_reply-answers (finish pair) (confirmed pair s₂) issued t rest₂ in
      let (code, s₄, found, rest₄) =
        after_reply-answers (λ code. redeem v now client form fresh resource requested code)
          (find_code v now client form fresh s₁) pair s₂ second in
      (
        code,
        pair.0,
        pair.1,
        subst (λ r. stored_code v now form r ≡ some code)
            (sym (require-answers allowed u₁ s s₁ first).1) (find_code-answers code s₁ s₄ found),
        redeem-IsRedeemed resource requested code pair s₄ s₂ rest₄,
        confirm-answers (consents v now client form fresh resource pair.0) pair.0 u₃ s₂ s₃ third,
        return-answers (issue v now client form fresh resource pair) issued s₃ t rest₃,
      )

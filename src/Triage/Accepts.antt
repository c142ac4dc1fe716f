-- ===== src/Triage/Accepts.antt =====
-- What `_verify_idjag_sync` of cross-domain-id-jag-vc/triage-agent/app.py has checked of an assertion
-- that it accepts.
use agent_identity_demos.Prelude.{String, ◌≡◌, ◌∙◌, sym, ap, subst, true, ◌∷◌, contains, string_eq}
use agent_identity_demos.Prelude.Text.{split}
use agent_identity_demos.Value.{
  string_eq_refl, items_eq_strs-strs, Fields, str, arr, obj, nil, end, get, or_value, strs,
  eq_str→eq, eq_strs→eq,
}
use agent_identity_demos.Effects.{
  ◌>>=◌, require, as_dict, signing_key, jwt_decode, World, History, ok, fetched_key,
}
use agent_identity_demos.Effects.Values.{value_contains, as_text→eq}
use agent_identity_demos.Effects.Invert.{
  Returns, bind-ok, lift_bind-ok, asks_bind-ok, require_bind-ok, as_dict_bind-ok, require-ok,
  pure-ok, signing_key_bind-ok, jwt_decode_bind-ok,
}
use agent_identity_demos.Effects.Quiet.{quiet_rules}
use agent_identity_demos.Effects.Once.{Once, once_rules}
use agent_identity_demos.Triage.Ticket.{
  Config, TicketRequest, jwks_url, idjag_options, check_ticket, verify_idjag,
}

-- The assertion is Sarah's, its signed chain is the ticket's, it names the ticket's intent, and its
-- scope lets tickets be created.
abbrev pub Grants : TicketRequest → Fields → Type 0
Grants body claims =
    (get "sub" claims ≡ str "sarah@org-a.example")
    × ((act : Fields) × (or_value (get "act" claims) (obj end) ≡ obj act)
        × (get "act_chain" act ≡ arr (strs body.act_chain)))
    × (value_contains (or_value (get "intent" claims) (arr nil)) body.intent ≡ ok true)
    × ((scope : String) × (or_value (get "scope" claims) (str "") ≡ str scope)
        × (contains (split b' ' scope) "triage:create" ≡ true))

module _ (body : TicketRequest) (w : World) where
  check_ticket-Grants :
      (claims : Fields) (h h' : History) (u : Unit {0})
      → Returns (check_ticket body claims) w h u h'
      → Grants body claims
  unfolding check_ticket
  check_ticket-Grants claims h h' u p =
      let (is_sub, p1) = require_bind-ok _ _ _ (asks_bind-ok _ _ p) in
      let (act, is_act, p2) = as_dict_bind-ok _ _ p1 in
      let (is_chain, p3) = require_bind-ok _ _ _ p2 in
      let (named, is_named, p4) = lift_bind-ok _ _ p3 in
      let (has_intent, p5) = require_bind-ok _ _ _ p4 in
      let (scope, is_scope, p6) = lift_bind-ok _ _ p5 in
      (
        eq_str→eq _ _ is_sub,
        (act, is_act, eq_strs→eq _ _ is_chain),
        is_named ∙ ap ok has_intent,
        (scope, as_text→eq _ _ is_scope, require-ok _ _ _ _ _ _ p6),
      )

  module _ (cfg : Config) where
    -- The one event of the verification is the fetch of a key for the assertion.
    pub verify_idjag-Once :
        (token : String) → Once (fetched_key (jwks_url cfg) token) (verify_idjag cfg token body) w
    unfolding verify_idjag check_ticket
    verify_idjag-Once token = search (once_rules, quiet_rules) depth 60

    -- An accepted assertion is decoded with the fetched key, for the issuer of Org A and the audience
    -- of Org B, to claims that grant the ticket.
    pub verify_idjag-Grants :
        (token : String) (claims : Fields) (h h' : History)
        → Returns (verify_idjag cfg token body) w h claims h'
        → (key : String) × (w.signing_key h (jwks_url cfg) token ≡ ok key)
          × (w.jwt_decode (fetched_key (jwks_url cfg) token ∷ h) token key (idjag_options cfg)
              ≡ ok claims)
          × Grants body claims
    unfolding verify_idjag
    verify_idjag-Grants token claims h h' p =
        let (key, fetched, p1) = signing_key_bind-ok _ _ _ p in
        let (decoded, verified, p2) = jwt_decode_bind-ok _ _ _ _ p1 in
        let (u, h1, checked, p3) = bind-ok _ _ p2 in
        let same = pure-ok _ _ _ _ _ p3 in
        (
          key,
          fetched,
          verified ∙ ap ok (sym same),
          subst (Grants body) (sym same) (check_ticket-Grants decoded _ _ _ checked),
        )

    -- The checks of a ticket that these claims grant all pass.
    Grants-check_ticket :
        (claims : Fields) (h : History)
        → Grants body claims
        → check_ticket body claims w h ≡ (ok tt, h)
    unfolding check_ticket ◌>>=◌ require as_dict
    Grants-check_ticket claims h
          (is_sub, (act, is_act, is_chain), intent, (scope, is_scope, creates)) =
        rw (
          is_sub,
          string_eq_refl "sarah@org-a.example",
          is_act,
          is_chain,
          items_eq_strs-strs body.act_chain,
          intent,
          is_scope,
          creates,
        )

    -- Every such assertion is accepted, and nothing but the fetch of the key happens.
    pub Grants-verify_idjag :
        (token key : String) (claims : Fields) (h : History)
        → w.signing_key h (jwks_url cfg) token ≡ ok key
        → w.jwt_decode (fetched_key (jwks_url cfg) token ∷ h) token key (idjag_options cfg)
          ≡ ok claims
        → Grants body claims
        → verify_idjag cfg token body w h ≡ (ok claims, fetched_key (jwks_url cfg) token ∷ h)
    unfolding verify_idjag ◌>>=◌ signing_key jwt_decode
    Grants-verify_idjag token key claims h fetched decoded grants =
        rw (
          fetched,
          decoded,
          Grants-check_ticket claims (fetched_key (jwks_url cfg) token ∷ h) grants,
        )

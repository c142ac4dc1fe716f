-- ===== src/OpenCode/Order.antt =====
-- The order of what `run` of cross-domain-id-jag-vc/opencode-agent/app.py does: which answers the
-- ticket for Org B rests on.
use agent_identity_demos.Prelude.{
  ap, ◌∙◌, some, Bool-cases, String, ◌≡◌, sym, Bool, true, List, [], ◌∷◌, arith, inl, inr, nat_eq,
}
use agent_identity_demos.Value.{str, end, get_default, obj, Fields, Value}
use agent_identity_demos.Effects.{Request, ok, World, History, Response}
use agent_identity_demos.Effects.Invert.{
  as_dict_bind-ok, json_bind-ok, Returns, bind-ok, pure-ok, asks_bind-ok,
}
use agent_identity_demos.Step.{dict_at, Step, passed}
use agent_identity_demos.Phase.Passed.{phase-passed, or_stop-passed, passed_eq}
use agent_identity_demos.Exchange.Passed.{
  Granted, Allowed, Allowed-passed, answered-passed, token_phase-passed,
}
use agent_identity_demos.OpenCode.Config.{Config}
use agent_identity_demos.OpenCode.Tokens.{
  login_request, login_phase, scope_check_request, scope_phase, read_mint_request, read_mint_phase,
  egress_request, read_egress_phase, read_redeem_request, read_redeem_phase, exchange_request,
  exchange_phase, mint_request, mint_phase, egress_phase, redeem_request, redeem_phase,
  scoped_intent_of,
}
use agent_identity_demos.OpenCode.Steps.{
  source_request, source_phase, badge_phase, own_grant, badge_outcome,
}
use agent_identity_demos.Client.Vc.{Issued, issue_badge}
use agent_identity_demos.OpenCode.Ticket.{Delegated}
use agent_identity_demos.OpenCode.Run.{read_source, cross_domain, task}

-- The answer to a request is 200 with a file that has this source, or none and the source is empty.
abbrev pub Answers : World → Request → Value → Type 0
Answers w q source =
    (h : History) × (r : Response) × (w.send h q ≡ ok r)
    × (r.status_code ≡ 200)
    × (payload : Fields) × (r.json ≡ some (obj payload))
    × (file : Fields) × (get_default "file" (obj end) payload ≡ obj file)
    × (source ≡ get_default "source" (str "") file)

module _ (cfg : Config) (w : World) where
  egress_phase-passed :
      (assertion : String) (h h' : History) (steps : List Step) (u : Unit {0})
      → Returns (egress_phase cfg assertion) w h (passed steps u) h'
      → Allowed w (egress_request cfg assertion)
  unfolding egress_phase
  egress_phase-passed assertion h h' steps u p = Allowed-passed _ _ _ _ _ _ _ p

  read_egress_phase-passed :
      (assertion : String) (h h' : History) (steps : List Step) (u : Unit {0})
      → Returns (read_egress_phase cfg assertion) w h (passed steps u) h'
      → Allowed w (egress_request cfg assertion)
  unfolding read_egress_phase
  read_egress_phase-passed assertion h h' steps u p = Allowed-passed _ _ _ _ _ _ _ p

  source_phase-passed :
      (repo token assertion : String) (h h' : History) (steps : List Step) (source : Value)
      → Returns (source_phase cfg repo token assertion) w h (passed steps source) h'
      → Answers w (source_request cfg repo token assertion) source
  unfolding source_phase dict_at
  source_phase-passed repo token assertion h h' steps source p =
      let (r, sent_it, good, p1) = answered-passed _ _ _ _ _ _ _ p in
      let (reply, is_json, p2) = json_bind-ok _ _ p1 in
      let (payload, is_dict, p3) = as_dict_bind-ok _ _ p2 in
      let (file, is_file, p4) = as_dict_bind-ok _ _ p3 in
      let same = passed_eq _ _ _ _ (pure-ok _ _ _ _ _ p4) in
      (h, r, sent_it, good, payload, is_json ∙ ap some is_dict, file, is_file, same)

  -- The source that is passed on is the one in the gateway's answer of 200 to a request with a token of
  -- Keycloak B, which it gave for an assertion that Keycloak A gave to read this repository, for the
  -- badge, and that the egress policy has allowed.
  pub read_source-passed :
      (repo sarah_token badge : String) (h h' : History) (steps : List Step) (source : Value)
      → Returns (read_source cfg repo sarah_token badge) w h (passed steps source) h'
      → (assertion : String) × (token : String) × Granted w
          (read_mint_request cfg repo sarah_token badge)
          assertion
        × Allowed w (egress_request cfg assertion)
        × Granted w (read_redeem_request cfg assertion) token
        × Answers w (source_request cfg repo token assertion) source
  unfolding read_source read_mint_phase read_redeem_phase
  read_source-passed repo sarah_token badge h h' steps source p =
      let (_, assertion, h1, in_mint, _, h2, p1) = phase-passed _ _ p in
      let (_, u, h3, in_egress, _, h4, p2) = phase-passed _ _ p1 in
      let (_, token, h5, in_redeem, _, h6, p3) = phase-passed _ _ p2 in
      (
        assertion,
        token,
        token_phase-passed _ _ _ _ _ _ assertion in_mint,
        read_egress_phase-passed assertion _ _ _ u in_egress,
        token_phase-passed _ _ _ _ _ _ token in_redeem,
        source_phase-passed repo token assertion _ _ _ source p3,
      )

  cross_domain-passed :
      (sarah_token badge : String) (analysed : Value × Value) (h h' : History) (steps : List Step)
      (d : Delegated)
      → Returns (cross_domain cfg sarah_token badge analysed) w h (passed steps d) h'
      → (exchanged : String) × Granted w (exchange_request cfg sarah_token badge) exchanged
        × Granted w (mint_request cfg exchanged badge) d.assertion
        × Allowed w (egress_request cfg d.assertion)
        × Granted w (redeem_request cfg d.assertion) d.triage_token
  unfolding cross_domain exchange_phase mint_phase redeem_phase
  cross_domain-passed sarah_token badge analysed h h' steps d p =
      let (_, exchanged, h1, in_exchange, _, h2, p1) = phase-passed _ _ p in
      let (_, assertion, h3, in_mint, _, h4, p2) = phase-passed _ _ p1 in
      let (_, u, h5, in_egress, _, h6, p3) = phase-passed _ _ p2 in
      let (_, token, h7, in_redeem, _, h8, p4) = phase-passed _ _ p3 in
      let same = passed_eq _ _ _ _ (pure-ok _ _ _ _ _ p4) in
      (
        exchanged,
        token_phase-passed _ _ _ _ _ _ exchanged in_exchange,
        rw same (token_phase-passed _ _ _ _ _ _ assertion in_mint),
        rw same (egress_phase-passed assertion _ _ _ u in_egress),
        rw same (token_phase-passed _ _ _ _ _ _ token in_redeem),
      )

  scope_phase-passed :
      (repo sarah_token intent : String) (h h' : History) (steps : List Step)
      → Returns (scope_phase cfg repo sarah_token) w h (passed steps intent) h'
      → (h1 : History) × (r : Response) × (w.send h1 (scope_check_request cfg repo sarah_token)
          ≡ ok r)
        × (r.status_code ≡ 200)
        × (intent ≡ scoped_intent_of repo r)
  unfolding scope_phase
  scope_phase-passed repo sarah_token intent h h' steps p =
      let (r, sent_it, good, p1) = answered-passed _ _ _ _ _ _ _ p in
      (h, r, sent_it, good, passed_eq _ _ _ _ (pure-ok _ _ _ _ _ p1))

  badge_outcome-passed :
      (id : String) (s : Step) (issued : Issued) (steps : List Step) (badge : String)
      → passed steps badge ≡ badge_outcome cfg id s issued
      → (issued.verified ≡ true) × (issued.badge ≡ badge)
  badge_outcome-passed id s issued steps badge p = elim (Bool-cases issued.verified) [
    | inl good ↦ (good, passed_eq _ _ _ _ (sym (rw good at p)))
    | inr bad ↦ absurd (ground (arith, rw bad at p))
  ]

  badge_phase-passed :
      (cimd_id : Value) (intent : String) (h h' : History) (steps : List Step) (badge : String)
      → Returns (badge_phase cfg cimd_id intent) w h (passed steps badge) h'
      → (id : String) × (issued : Issued) × (h1 : History) × (h2 : History) × Returns
          (issue_badge cfg.identity_node_url cfg.vault_cfg
            (own_grant cfg id intent)
            (cfg.opencode_client_id ∷ [])
            3600)
          w
          h1
          issued
          h2
        × (issued.verified ≡ true)
        × (issued.badge ≡ badge)
  unfolding badge_phase
  badge_phase-passed cimd_id intent h h' steps badge p =
      let p1 = asks_bind-ok _ _ (or_stop-passed _ _ _ _ _ _ _ _ p) in
      let (issued, h1, done, p2) = bind-ok _ _ p1 in
      let (good, same) = badge_outcome-passed _ _ issued _ badge (pure-ok _ _ _ _ _ p2) in
      (_, issued, h, h1, done, good, same)

  -- A ticket for Org B rests on: the token that Keycloak A gave Sarah; the intent that the policy of
  -- Org A answered for it; a badge with that intent, issued and verified at the Identity Node; and an
  -- assertion minted for that badge, allowed by the egress policy, and redeemed at Keycloak B for the
  -- token of the ticket.
  pub task-passed :
      (repo cve : String) (use_real : Bool) (h h' : History) (steps : List Step) (d : Delegated)
      → Returns (task cfg repo cve use_real) w h (passed steps d) h'
      → (sarah_token : String) × (intent : String) × (badge : String) × (exchanged : String)
        × Granted w (login_request cfg) sarah_token
        × ((h1 : History) × (r : Response) × (w.send h1 (scope_check_request cfg repo sarah_token)
              ≡ ok r)
            × (r.status_code ≡ 200)
            × (intent ≡ scoped_intent_of repo r))
        × ((id : String) × (issued : Issued) × (h1 : History) × (h2 : History) × Returns
              (issue_badge cfg.identity_node_url cfg.vault_cfg
                (own_grant cfg id intent)
                (cfg.opencode_client_id ∷ [])
                3600)
              w
              h1
              issued
              h2
            × (issued.verified ≡ true)
            × (issued.badge ≡ badge))
        × Granted w (exchange_request cfg sarah_token badge) exchanged
        × Granted w (mint_request cfg exchanged badge) d.assertion
        × Allowed w (egress_request cfg d.assertion)
        × Granted w (redeem_request cfg d.assertion) d.triage_token
  unfolding task login_phase
  task-passed repo cve use_real h h' steps d p =
      let (_, sarah_token, h1, in_login, _, h2, p1) = phase-passed _ _ p in
      let (_, cimd_id, h3, in_identity, _, h4, p2) = phase-passed _ _ p1 in
      let (_, intent, h5, in_scope, _, h6, p3) = phase-passed _ _ p2 in
      let (_, badge, h7, in_badge, _, h8, p4) = phase-passed _ _ p3 in
      let (_, source, h9, in_source, _, h10, p5) = phase-passed _ _ p4 in
      let (_, analysed, h11, in_analysis, _, h12, p6) = phase-passed _ _ p5 in
      let (exchanged, first, minted, allowed, redeemed) =
        cross_domain-passed sarah_token badge analysed _ _ _ d p6 in
      (
        sarah_token,
        intent,
        badge,
        exchanged,
        token_phase-passed _ _ _ _ _ _ sarah_token in_login,
        scope_phase-passed repo sarah_token intent _ _ _ in_scope,
        badge_phase-passed cimd_id intent _ _ _ badge in_badge,
        first,
        minted,
        allowed,
        redeemed,
      )

-- ===== src/OpenCode/Tokens.antt =====
-- The steps of `run` in cross-domain-id-jag-vc/opencode-agent/app.py that obtain a token or a
-- decision of a policy: what is asked of Keycloak A, of Keycloak B, and of Envoy in front of Org A.
use agent_identity_demos.Prelude.{String, ◌<>◌, List, [], ◌∷◌, ◌==◌, nat_eq, if◌then◌else◌}
use agent_identity_demos.Prelude.Text.{is_empty}
use agent_identity_demos.Value.{Value, Fields, str, obj, end, field, set_item}
use agent_identity_demos.Effects.{World, M, pure, ◌>>=◌, Request, Response, request, json, as_dict}
use agent_identity_demos.Effects.Values.{header_or}
use agent_identity_demos.Step.{
  Step, step, reported, failed, http_failure, Outcome, passed, decode_unverified,
}
use agent_identity_demos.Phase.{or_stop, stop_with}
use agent_identity_demos.Exchange.{token_request, decision_request, token_phase}
use agent_identity_demos.OpenCode.Config.{Config}

-- The result of a step that shows a token under a name, with its claims.
abbrev named_token : String → World → String → Value
named_token name w token =
    obj (field name (str token) (field "claims" (decode_unverified w (str token)) end))

abbrev pub login_request : Config → Request
login_request cfg = token_request cfg.kc_a_token_ep (
    ("grant_type", "password")
    ∷ ("client_id", cfg.opencode_client_id)
    ∷ ("client_secret", cfg.opencode_client_secret)
    ∷ ("username", cfg.sarah_user)
    ∷ ("password", cfg.sarah_password)
    ∷ ("scope", "openid profile email")
    ∷ [])

unfoldable pub login_phase : Config → M (Outcome String)
login_phase cfg = token_phase (login_request cfg) (named_token "token") (
    step "sarah-login" "1. Sarah signs in — OIDC password grant → Keycloak A (org-a)" (
      "POST "
      <> (cfg.kc_a_token_ep
          <> ("  client=" <> (cfg.opencode_client_id <> ("  user=" <> cfg.sarah_user))))))

abbrev requested_action : String
requested_action = "scan-remediate"

unfoldable pub scope_check_request : Config → String → String → Request
scope_check_request cfg repo sarah_token =
    decision_request (cfg.egress_pdp_url <> "/api/badge-scope-check") (
      ("Authorization", "Bearer " <> sarah_token)
      ∷ ("x-agntcy-requested-action", requested_action)
      ∷ ("x-agntcy-requested-repo", repo)
      ∷ [])

-- What the policy says of the intent, or else what was asked for.
unfoldable pub scoped_intent_of : String → Response → String
unfolding header_or
scoped_intent_of repo r = header_or "x-agntcy-scoped-intent" (requested_action <> (":" <> repo)) r

abbrev scoped_step : String → Response → Step → Step
scoped_step repo r s =
    reported "ok"
      (obj (
        field "decision" (str "ALLOW") (
          field "scoped_intent" (str (scoped_intent_of repo r)) (
            field "rule" (str (header_or "x-agntcy-policy-rule" "" r)) (
              field "enforced_by" (str (header_or "x-agntcy-policy-enforcer" "" r)) (
                field "note" (str "policy scoped the badge to this task before any work ran")
                  end))))))
      s

unfoldable pub scope_phase : Config → String → String → M (Outcome String)
unfolding scoped_intent_of header_or
scope_phase cfg repo sarah_token = do
  let s =
      step "badge-scope-check"
        "4. Badge request — Sarah's OAuth token → Envoy A + OPA → scoped-down intent"
        ("POST "
          <> (cfg.egress_pdp_url
              <> ("/api/badge-scope-check  action=" <> (requested_action <> ("  repo=" <> repo)))))
  or_stop "" s (do
    r ← request (scope_check_request cfg repo sarah_token)
    if r.status_code == 200
        then pure (passed (scoped_step repo r s ∷ []) (scoped_intent_of repo r))
        else stop_with (
            set_item "result" (obj (field "decision" (str "DENY") end))
              (failed (http_failure r) s)))

abbrev exchange_fields : Config → String → String → List (String × String) → List (String × String)
exchange_fields cfg subject_token badge more =
    ("grant_type", "urn:ietf:params:oauth:grant-type:token-exchange")
    ∷ ("client_id", cfg.opencode_client_id)
    ∷ ("client_secret", cfg.opencode_client_secret)
    ∷ ("subject_token", subject_token)
    ∷ ("subject_token_type", "urn:ietf:params:oauth:token-type:access_token")
    ∷ ("actor_token", badge)
    ∷ ("actor_token_type", "urn:ietf:params:oauth:token-type:jwt")
    ∷ more

-- The narrower of the two assertions: to read the source of one repository.
unfoldable pub read_mint_request : Config → String → String → String → Request
read_mint_request cfg repo sarah_token badge = token_request cfg.kc_a_token_ep (
    exchange_fields cfg sarah_token badge (
      ("requested_token_type", "urn:ietf:params:oauth:token-type:id-jag")
      ∷ ("audience", cfg.kc_b_issuer)
      ∷ ("scope", "openid gitea:read")
      ∷ ("target_client_id", cfg.opencode_client_id)
      ∷ ("act_chain", cfg.opencode_client_id)
      ∷ ("intent", "scan-source")
      ∷ ("resource", repo)
      ∷ []))

unfoldable pub read_mint_phase : Config → String → String → String → M (Outcome String)
read_mint_phase cfg repo sarah_token badge =
    token_phase (read_mint_request cfg repo sarah_token badge) (named_token "assertion") (
      step "mint-read-idjag"
        ("5b. Mint READ assertion at Keycloak A — scope=gitea:read, resource=" <> repo)
        ("POST "
          <> (cfg.kc_a_token_ep <> "  requested_token_type=id-jag  scope=openid gitea:read")))

unfoldable pub egress_request : Config → String → Request
egress_request cfg assertion =
    decision_request (cfg.egress_pdp_url <> "/api/egress-check")
      (("Authorization", "Bearer " <> assertion) ∷ [])

-- The decision of the egress policy on the assertion to read.
unfoldable pub read_egress_phase : Config → String → M (Outcome (Unit {0}))
unfolding header_or
read_egress_phase cfg read_assertion = do
  let s =
      step "read-egress-check"
        "5c. Org A egress PDP on the READ assertion — may Sarah delegate a read to Org B?"
        ("POST " <> (cfg.egress_pdp_url <> "/api/egress-check  Bearer=<read assertion>"))
  or_stop "" s (do
    r ← request (egress_request cfg read_assertion)
    if r.status_code == 200
        then pure (
            passed
              (reported "ok"
                  (obj (
                    field "decision" (str (header_or "x-agntcy-policy-decision" "ALLOW" r)) (
                      field "rule" (str (header_or "x-agntcy-policy-rule" "" r)) (
                        field "enforced_by" (str (header_or "x-agntcy-policy-enforcer" "" r))
                          end))))
                  s
                ∷ [])
              tt)
        else stop_with (failed (http_failure r) s))

abbrev redeem_fields : String → String → String → String → List (String × String)
redeem_fields assertion client secret scope =
    ("grant_type", "urn:ietf:params:oauth:grant-type:jwt-bearer")
    ∷ ("assertion", assertion)
    ∷ ("client_id", client)
    ∷ ("client_secret", secret)
    ∷ ("scope", scope)
    ∷ []

unfoldable pub read_redeem_request : Config → String → Request
read_redeem_request cfg read_assertion = token_request cfg.kc_b_token_ep (
    redeem_fields read_assertion cfg.opencode_client_id cfg.opencode_client_secret
      "openid gitea:read")

unfoldable pub read_redeem_phase : Config → String → M (Outcome String)
read_redeem_phase cfg read_assertion =
    token_phase (read_redeem_request cfg read_assertion) (named_token "token") (
      step "kc-b-read-exchange"
        "5d. Redeem the READ assertion at Keycloak B → access token carrying gitea:read only"
        ("POST "
          <> (cfg.kc_b_token_ep <> ("  grant_type=jwt-bearer  client=" <> cfg.opencode_client_id))))

-- What the standard exchange answers is the subject of the next one.
unfoldable pub exchange_request : Config → String → String → Request
exchange_request cfg sarah_token badge =
    token_request cfg.kc_a_token_ep (exchange_fields cfg sarah_token badge [])

abbrev exchanged_result : Config → World → String → Value
exchanged_result cfg w token = obj (
    field "token" (str token) (
      field "claims" (decode_unverified w (str token)) (
        field "subject" (str cfg.sarah_email) (
          field "actor" (str cfg.opencode_client_id) (
            field "note"
              (str
                "Keycloak validated subject_token and issued this token for real; it does not itself process actor_token into an act claim (see README) — the verified badge's delegation claims are carried forward via the ID-JAG's act_chain next")
              end)))))

unfoldable pub exchange_phase : Config → String → String → M (Outcome String)
exchange_phase cfg sarah_token badge =
    token_phase (exchange_request cfg sarah_token badge) (exchanged_result cfg) (
      step "kc-a-exchange" "9. RFC 8693 exchange (subject=Sarah, actor_token=badge) → Keycloak A"
        ("POST " <> (cfg.kc_a_token_ep <> "  grant_type=token-exchange")))

-- The assertion for Triage.
unfoldable pub mint_request : Config → String → String → Request
mint_request cfg exchanged_token badge = token_request cfg.kc_a_token_ep (
    exchange_fields cfg exchanged_token badge (
      ("requested_token_type", "urn:ietf:params:oauth:token-type:id-jag")
      ∷ ("audience", cfg.kc_b_issuer)
      ∷ ("scope", "openid triage:create")
      ∷ ("target_client_id", cfg.triage_client_id)
      ∷ ("act_chain", cfg.opencode_client_id)
      ∷ ("intent", "create-pr-fix")
      ∷ []))

unfoldable pub mint_phase : Config → String → String → M (Outcome String)
mint_phase cfg exchanged_token badge =
    token_phase (mint_request cfg exchanged_token badge) (named_token "assertion") (
      step "mint-idjag"
        "10. Mint ID-JAG natively at Keycloak A (keycloak-idjag-spi, act_chain=[opencode], aud=KC-B, scope=triage:create)"
        ("POST "
          <> (cfg.kc_a_token_ep
              <> ("  grant_type=token-exchange  requested_token_type=id-jag  aud="
                  <> (cfg.kc_b_issuer <> "  scope=triage:create")))))

-- `r.json() if r.content else {"decision": "ALLOW"}`
abbrev decision_of : Response → M Fields
decision_of r =
    if is_empty r.text
    then pure (field "decision" (str "ALLOW") end)
    else json r >>= λ reply. as_dict reply

unfoldable pub egress_phase : Config → String → M (Outcome (Unit {0}))
unfolding header_or
egress_phase cfg assertion = do
  let s =
      step "egress-check"
        "10b. Egress PDP check — may Sarah delegate this scope to Org B? → Envoy A + OPA"
        ("POST " <> (cfg.egress_pdp_url <> "/api/egress-check  Bearer=<id-jag>"))
  or_stop "" s (do
    r ← request (egress_request cfg assertion)
    if r.status_code == 200
        then (do
          decision ← decision_of r
          let result =
              set_item "delegation_depth" (str (header_or "x-agntcy-delegation-depth" "" r)) (
                set_item "enforced_by" (str (header_or "x-agntcy-policy-enforcer" "" r))
                  (set_item "rule" (str (header_or "x-agntcy-policy-rule" "" r)) decision))
          pure (passed (reported "ok" (obj result) s ∷ []) tt))
        else stop_with (failed (http_failure r) s))

unfoldable pub redeem_request : Config → String → Request
redeem_request cfg assertion =
    token_request cfg.kc_b_token_ep
      (redeem_fields assertion cfg.triage_client_id cfg.triage_client_secret "openid triage:create")

unfoldable pub redeem_phase : Config → String → M (Outcome String)
redeem_phase cfg assertion = token_phase (redeem_request cfg assertion) (named_token "token") (
    step "kc-b-exchange"
      "11. jwt-bearer grant at Keycloak B → scoped access token (triage:create, Sarah propagated)"
      ("POST "
        <> (cfg.kc_b_token_ep <> ("  grant_type=jwt-bearer  client=" <> cfg.triage_client_id))))

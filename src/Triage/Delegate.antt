-- ===== src/Triage/Delegate.antt =====
-- The steps of `receive_ticket` in cross-domain-id-jag-vc/triage-agent/app.py that ask the policy of
-- Org B for the scope, mint the sub-badge at Keycloak B, and spawn the sub-agent.
use agent_identity_demos.Prelude.{
  String, ◌<>◌, ◌||◌, none, [], ◌∷◌, ◌++◌, ◌==◌, nat_eq, if◌then◌else◌,
}
use agent_identity_demos.Prelude.Text.{join, take_text}
use agent_identity_demos.Value.{
  Value, Fields, str, obj, arr, end, field, get_default, set_item, strs,
}
use agent_identity_demos.Effects.{
  World, M, asks, pure, lift, ◌>>=◌, Request, Response, http_post, no_body, form_body, json_body,
  request, json, as_dict,
}
use agent_identity_demos.Effects.Values.{text_at, as_text, header_or, subscript}
use agent_identity_demos.Step.{
  Step, step, reported, failed, http_failure, Outcome, passed, decode_unverified,
}
use agent_identity_demos.Phase.{or_fail, or_stop, stop_with}
use agent_identity_demos.Triage.Ticket.{Config, TicketRequest}
use agent_identity_demos.Triage.Steps.{sub_chain}

-- `SUBBADGE_SCOPE_REQUEST`
abbrev pub scope_request : String
scope_request = "openid gitea:write gitea:pr"

-- What the policy lets the sub-badge hold.
pub record Approved : Type 0 where
  pub scope : String
  pub resource : String

abbrev pub check_url : Config → String
check_url cfg = cfg.subbadge_pdp_url <> "/api/subbadge-scope-check"

unfoldable pub scope_check_request : Config → TicketRequest → String → Request
scope_check_request cfg body access_token = record {
  method = http_post;
  url = check_url cfg;
  headers =
      ("Authorization", "Bearer " <> access_token)
      ∷ ("x-agntcy-requested-scope", scope_request)
      ∷ ("x-agntcy-requested-repo", body.repo)
      ∷ ("x-agntcy-requested-intent", body.intent)
      ∷ [];
  auth = none;
  body = no_body;
}

-- What the answer's headers approve: what was asked for, where they do not say.
unfoldable pub approved : TicketRequest → Response → Approved
unfolding header_or
approved body r = record {
  scope = header_or "x-agntcy-scoped-scope" scope_request r;
  resource = header_or "x-agntcy-scoped-resource" body.repo r;
}

abbrev approved_step : TicketRequest → Response → Step → Step
approved_step body r s =
    reported "ok"
      (obj (
        field "decision" (str "ALLOW") (
          field "scoped_scope" (str (approved body r).scope) (
            field "scoped_resource" (str (approved body r).resource) (
              field "rule" (str (header_or "x-agntcy-policy-rule" "" r)) (
                field "note" (str "policy approved the narrowing before the sub-badge exists")
                  end))))))
      s

unfoldable pub scope_phase : Config → TicketRequest → String → M (Outcome Approved)
unfolding approved header_or
scope_phase cfg body access_token = do
  let s =
      step "subbadge-scope-check"
        "t3. Sub-badge scope check — may this delegation be narrowed? → Envoy B + OPA"
        ("POST "
          <> (check_url cfg
              <> ("  scope="
                  <> (scope_request
                      <> ("  repo=" <> (body.repo <> ("  intent=" <> body.intent)))))))
  or_stop "" s (do
    r ← request (scope_check_request cfg body access_token)
    if r.status_code == 200
        then pure (passed (approved_step body r s ∷ []) (approved body r))
        else stop_with (
            set_item "result" (obj (field "decision" (str "DENY") end))
              (failed (http_failure r) s)))

abbrev pub token_endpoint : Config → String
token_endpoint cfg = cfg.kc_b_issuer <> "/protocol/openid-connect/token"

-- The token exchange asks for what the policy approved, and for the chain up to this hop.
unfoldable pub mint_request : Config → TicketRequest → String → Approved → Request
mint_request cfg body access_token a = record {
  method = http_post;
  url = token_endpoint cfg;
  headers = [];
  auth = none;
  body = form_body (
      ("grant_type", "urn:ietf:params:oauth:grant-type:token-exchange")
      ∷ ("client_id", cfg.triage_client_id)
      ∷ ("client_secret", cfg.triage_client_secret)
      ∷ ("subject_token", access_token)
      ∷ ("subject_token_type", "urn:ietf:params:oauth:token-type:access_token")
      ∷ ("requested_token_type", "urn:ietf:params:oauth:token-type:id-jag")
      ∷ ("audience", cfg.kc_b_issuer)
      ∷ ("scope", a.scope)
      ∷ ("target_client_id", cfg.sub_agent_client_id)
      ∷ ("act_chain", join "," (sub_chain cfg body))
      ∷ ("intent", body.intent)
      ∷ ("resource", a.resource)
      ∷ []);
}

abbrev minted_step : World → Value → String → Step → Step
minted_step w issued_type sub_badge s =
    set_item "result"
      (obj (
        field "issued_token_type" issued_type
          (field "claims" (decode_unverified w (str sub_badge)) end)))
      (set_item "token" (str sub_badge) (
        set_item "token_preview" (str (take_text 48 sub_badge <> "…"))
          (set_item "status" (str "ok") s)))

abbrev minted : Value → String → Step → M (Outcome String)
minted issued_type sub_badge s =
    asks (λ w. passed (minted_step w issued_type sub_badge s ∷ []) sub_badge)

unfoldable pub mint_phase : Config → TicketRequest → String → Approved → M (Outcome String)
mint_phase cfg body access_token a = do
  chain ← text_at (arr (strs (sub_chain cfg body)))
  let s =
      step "mint-sub-badge"
        "t5. Mint narrowed sub-badge natively at Keycloak B (keycloak-idjag-spi)"
        ("POST "
          <> (token_endpoint cfg
              <> ("  grant_type=token-exchange  requested_token_type=id-jag  scope="
                  <> (a.scope <> ("  resource=" <> (a.resource <> ("  act_chain=" <> chain)))))))
  or_stop "" s (do
    r ← request (mint_request cfg body access_token a)
    if r.status_code == 200
        then (do
          reply ← json r
          token ← lift (subscript "access_token" reply)
          sub_badge ← lift (as_text token)
          fields ← as_dict reply
          minted (get_default "issued_token_type" (str "") fields) sub_badge s)
        else stop_with (failed (http_failure r) s))

-- What the sub-agent is asked to do.
unfoldable pub spawn_payload : Config → TicketRequest → String → String → Fields
spawn_payload cfg body ticket_id sub_badge =
    (field "sub_badge" (str sub_badge) (
      field "repo" (str body.repo) (
        field "intent" (str body.intent) (
          field "act_chain" (arr (strs (sub_chain cfg body ++ (cfg.sub_agent_client_id ∷ []))))
            (field "ticket_id" (str ticket_id) end)))))

abbrev pub run_url : Config → String
run_url cfg = cfg.sub_agent_url <> "/api/run"

unfoldable pub spawn_request : Config → TicketRequest → String → String → Request
spawn_request cfg body ticket_id sub_badge = record {
  method = http_post;
  url = run_url cfg;
  headers = [];
  auth = none;
  body = json_body (obj (spawn_payload cfg body ticket_id sub_badge));
}

unfoldable pub spawn : Config → TicketRequest → String → String → M Step
spawn cfg body ticket_id sub_badge = do
  let s =
      step "spawn-sub-agent"
        "t7. Spawn sub-agent with narrowed sub-badge + intent → Sub-Agent /api/run"
        ("POST " <> (run_url cfg <> ("  sub_badge=…  repo=" <> body.repo)))
  or_fail "" s (do
    r ← request (spawn_request cfg body ticket_id sub_badge)
    if r.status_code == 200 || r.status_code == 201
        then (do result ← json r; pure (reported "ok" result s))
        else pure (failed (http_failure r) s))

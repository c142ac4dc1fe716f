-- ===== src/Triage/Receive.antt =====
-- `receive_ticket` of cross-domain-id-jag-vc/triage-agent/app.py: the guards for what Envoy has
-- decided, the verification of the assertion, and then the phases up to the spawn of the sub-agent.
use agent_identity_demos.Prelude.{
  ℕ, zero, suc, String, ◌<>◌, Bool, true, false, ◌&&◌, ◌||◌, Option, none, some, List, [], ◌∷◌,
  string_eq, ◌==◌, if◌then◌else◌,
}
use agent_identity_demos.Prelude.Text.{
  is_empty, split_once, starts_with_lower, remove_text, read_int,
}
use agent_identity_demos.Value.{Value, Fields, str, bool, num, neg, obj, arr, end, field, opt_str}
use agent_identity_demos.Effects.{
  http_exception, value_error, Result, ok, err, M, pure, lift, require, ◌>>=◌, ◌>>◌,
}
use agent_identity_demos.Step.{
  Step, step, reported, failed, has_status, step_values, Outcome, stopped, passed,
}
use agent_identity_demos.Phase.{◌>=>◌, or_stop, stop_with, append_steps}
use agent_identity_demos.Register.{register_phase}
use agent_identity_demos.Triage.Ticket.{Config, TicketRequest, jwks_url, verify_idjag}
use agent_identity_demos.Triage.Sender.{sender_phase}
use agent_identity_demos.Triage.Steps.{
  cimd_register, publish_phase, plan_step, dir_push_turn, dir_search,
}
use agent_identity_demos.Triage.Delegate.{scope_phase, mint_phase, spawn}

-- The headers that the handler reads; a missing one is `None`.
pub record TicketHeaders : Type 0 where
  pub authorization : Option String
  pub actor_token : Option String
  pub policy_decision : Option String
  pub policy_rule : Option String
  pub policy_enforcer : Option String
  pub delegation_depth : Option String

-- The text behind "Bearer ", where the header is of that scheme: `authorization.split(" ", 1)[1]`.
unfoldable pub bearer : Option String → Option String
unfolding split_once starts_with_lower
bearer none = none
bearer (some a) = if starts_with_lower a "bearer " then (split_once b' ' a).1 else none

-- `int(v)` as the value that it has in a dict.
abbrev int_result : Option (Bool × ℕ) → Result Value
int_result none = err (value_error "invalid literal for int() with base 10")
int_result (some (false, n)) = ok (num n)
int_result (some (true, zero)) = ok (num 0)
int_result (some (true, suc n)) = ok (neg n)

-- `int(delegation_depth or "0")`
unfoldable pub depth_of : Option String → Result Value
unfolding read_int
depth_of none = ok (num 0)
depth_of (some d) = if is_empty d then ok (num 0) else int_result (read_int d)

abbrev pub ingress_step : TicketHeaders → Value → Step
ingress_step hs depth = field "id" (str "opa-ingress") (
    field "title"
      (str
        "t1. Envoy + OPA ingress: both JWTs ✓  chain ✓  scope ✓  action ∈ signed intent ✓  → ALLOW")
      (field "status" (str "ok") (
        field "result"
          (obj (
            field "decision" (opt_str hs.policy_decision) (
              field "enforced_by" (opt_str hs.policy_enforcer) (
                field "rule" (opt_str hs.policy_rule) (
                  field "delegation_depth" depth (
                    field "note"
                      (str "decision headers were injected by the Built On Envoy inline OPA filter")
                      end))))))
          end)))

abbrev missing_bearer : {A : Type 0} → Result A
missing_bearer = err (http_exception 401 (str "missing bearer token"))

abbrev token_result : Option String → Result String
token_result none = missing_bearer
token_result (some token) = ok token

abbrev pub is_allowed : Option String → Bool
is_allowed none = false
is_allowed (some d) = d == "ALLOW"

-- The guards against requests that have not come through Envoy, and the step that echoes its
-- decision. What they pass on is the access token.
unfoldable pub admit : TicketHeaders → M (String × Step)
unfolding bearer
admit hs = do
  access_token ← lift (token_result (bearer hs.authorization))
  require (is_allowed hs.policy_decision)
      (http_exception 403 (str "ticket requests must pass the Org B Envoy policy gateway"))
  depth ← lift (depth_of hs.delegation_depth)
  pure (access_token, ingress_step hs depth)

-- `actor_raw`
abbrev pub actor_of : Option String → String
actor_of header = elim (bearer header) [ none ↦ "" | some token ↦ token ]

abbrev verified_result : String → Fields → Value
verified_result token claims = obj (
    field "token" (str token) (
      field "claims" (obj claims) (
        field "note"
          (str
            "verified in-agent, independently of Envoy (defense in depth) — claims shown here are from the real, signature-verified decode (pyjwt.decode), not an unverified base64 read")
          end)))

abbrev pub verify_step : Config → Step
verify_step cfg =
    step "verify-idjag"
      "t1b. Triage verifies the ID-JAG itself — signature vs Keycloak A JWKS + delegation claims"
      ("JWKS "
        <> (jwks_url cfg
            <> ("  expect iss=" <> (cfg.kc_a_issuer <> ("  aud=" <> cfg.kc_b_issuer)))))

unfoldable pub verify_phase : Config → TicketRequest → String → M (Outcome Fields)
verify_phase cfg body actor =
    if is_empty actor
    then stop_with
        (failed "X-AGNTCY-Actor-Token header missing — cannot verify in-agent" (verify_step cfg))
    else or_stop "in-agent ID-JAG verification failed: " (verify_step cfg) (do
      claims ← verify_idjag cfg actor body
      pure (passed (reported "ok" (verified_result actor claims) (verify_step cfg) ∷ []) claims))

-- `f"TRIAGE-{body.cve.replace('CVE-', '')}"`
unfoldable pub ticket_id_of : TicketRequest → String
unfolding remove_text
ticket_id_of body = "TRIAGE-" <> remove_text "CVE-" body.cve

plan_phase : Config → TicketRequest → M (Outcome (Unit {0}))
plan_phase cfg body = pure (passed (plan_step cfg body (ticket_id_of body) ∷ []) tt)

-- The phases up to the sub-badge.
unfoldable pub delegation : Config → TicketRequest → String → Fields → M (Outcome String)
unfolding plan_phase
delegation cfg body access_token claims = sender_phase cfg body claims >=> λ _.
    register_phase cfg.triage_client_id (cimd_register cfg) >=> λ id.
    scope_phase cfg body access_token >=> λ a. publish_phase cfg body claims id a.scope >=> λ _.
    plan_phase cfg body >=> λ _. mint_phase cfg body access_token a

-- The steps after the sub-badge, none of which ends the handler.
unfoldable pub hand_over : Config → TicketRequest → String → M (Outcome (Unit {0}))
hand_over cfg body sub_badge = do
  pushed ← dir_push_turn cfg body (ticket_id_of body)
  searched ← dir_search cfg
  spawned ← spawn cfg body (ticket_id_of body) sub_badge
  pure (passed (pushed ∷ searched ∷ spawned ∷ []) tt)

-- `all(s.get("status") in ("ok", "denied") for s in steps)`
unfoldable pub all_done : List Step → Bool
all_done [] = true
all_done (s ∷ steps) = (has_status "ok" s || has_status "denied" s) && all_done steps

unfoldable pub ticket_reply : Bool → String → List Step → Value
ticket_reply good ticket_id steps = obj (
    field "ok" (bool good)
      (field "ticket_id" (str ticket_id) (field "steps" (arr (step_values steps)) end)))

abbrev pub reply_of : String → Outcome (Unit {0}) → Value
reply_of ticket_id (stopped steps) = ticket_reply false ticket_id steps
reply_of ticket_id (passed steps _) = ticket_reply (all_done steps) ticket_id steps

-- A ticket gets an identifier only once its assertion is verified.
abbrev pub lifecycle : Config → TicketRequest → String → Step → Outcome Fields → M Value
lifecycle cfg body access_token ingress (stopped steps) =
    pure (ticket_reply false "" (ingress ∷ steps))
lifecycle cfg body access_token ingress (passed steps claims) = do
  outcome ← delegation cfg body access_token claims >=> λ sub_badge. hand_over cfg body sub_badge
  pure (reply_of (ticket_id_of body) (append_steps (ingress ∷ steps) outcome))

unfoldable pub receive_ticket : Config → TicketHeaders → TicketRequest → M Value
receive_ticket cfg hs body = do
  admitted ← admit hs
  let (access_token, ingress) = admitted
  verified ← verify_phase cfg body (actor_of hs.actor_token)
  lifecycle cfg body access_token ingress verified

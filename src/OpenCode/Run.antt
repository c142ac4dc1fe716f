-- ===== src/OpenCode/Run.antt =====
-- `run` of cross-domain-id-jag-vc/opencode-agent/app.py: the task that Sarah delegates, in its steps.
-- The identifier of the trace, which the tracer gives, is an argument.
use agent_identity_demos.Prelude.{false, String, Bool, Option, [], ◌∷◌}
use agent_identity_demos.Value.{
  Value, Items, Fields, str, bool, obj, arr, end, field, get, get_default, or_value,
}
use agent_identity_demos.Effects.{type_error, Result, ok, err, M, pure, lift, ◌>>=◌}
use agent_identity_demos.Step.{Step, step_values, Outcome, stopped, passed}
use agent_identity_demos.Phase.{◌>=>◌}
use agent_identity_demos.Register.{result_fields}
use agent_identity_demos.OpenCode.Config.{Config, RunRequest, repo_of, cve_of, use_real_of}
use agent_identity_demos.OpenCode.Model.{opencode_plan}
use agent_identity_demos.OpenCode.Scan.{opencode_scan}
use agent_identity_demos.OpenCode.Tokens.{
  login_phase, scope_phase, read_mint_phase, read_egress_phase, read_redeem_phase, exchange_phase,
  mint_phase, egress_phase, redeem_phase,
}
use agent_identity_demos.OpenCode.Steps.{
  identity_phase, badge_phase, source_phase, dir_push, dir_search,
}
use agent_identity_demos.OpenCode.Ticket.{Delegated, create_ticket, append_items, all_ok}

-- The source, through an assertion of its own that lets the agent read one repository.
unfoldable pub read_source : Config → String → String → String → M (Outcome Value)
read_source cfg repo sarah_token badge =
    read_mint_phase cfg repo sarah_token badge >=> λ read_assertion.
    read_egress_phase cfg read_assertion >=> λ _.
    read_redeem_phase cfg read_assertion >=> λ read_token.
    source_phase cfg repo read_token read_assertion

-- `len(source)` wants a text; other values that have a length do not occur.
abbrev sized : Value → Result String
sized (str s) = ok s
sized _ = err (type_error "object has no len()")

-- `(step.get("result") or {}).get("finding") or {}`, which is a dict in every result of a scan.
abbrev pub finding_of : Step → Fields
finding_of s = result_fields (or_value (get "finding" (result_fields (get "result" s))) (obj end))

-- The scan, the plan, and the two steps of the Directory: none of them ends the handler. What they
-- pass on is the identifier of the weakness and the plan.
unfoldable pub analysis :
    Config → String → String → Bool → String → Value → M (Outcome (Value × Value))
analysis cfg repo cve use_real scoped_intent source = do
  text ← lift (sized source)
  scan ← opencode_scan cfg repo text scoped_intent use_real
  let found = or_value (get "id" (finding_of scan)) (str cve)
  plan ← opencode_plan cfg found repo scoped_intent use_real
  pushed ← dir_push cfg found repo
  searched ← dir_search cfg
  pure (
      passed (scan ∷ plan ∷ pushed ∷ searched ∷ [])
        (found, get_default "plan" (str "") (result_fields (get "result" plan))))

-- From the badge on: the assertion for Triage, past the egress policy, and the token for Triage.
unfoldable pub cross_domain : Config → String → String → Value × Value → M (Outcome Delegated)
cross_domain cfg sarah_token badge analysed =
    exchange_phase cfg sarah_token badge >=> λ exchanged_token.
    mint_phase cfg exchanged_token badge >=> λ assertion. egress_phase cfg assertion >=> λ _.
    redeem_phase cfg assertion >=> λ triage_token. pure (
      passed [] (record {
        assertion = assertion;
        triage_token = triage_token;
        cve = analysed.0;
        plan = analysed.1;
      }))

unfoldable pub task : Config → String → String → Bool → M (Outcome Delegated)
task cfg repo cve use_real = login_phase cfg >=> λ sarah_token. identity_phase cfg >=> λ cimd_id.
    scope_phase cfg repo sarah_token >=> λ scoped_intent.
    badge_phase cfg cimd_id scoped_intent >=> λ badge.
    read_source cfg repo sarah_token badge >=> λ source.
    analysis cfg repo cve use_real scoped_intent source >=> λ analysed.
    cross_domain cfg sarah_token badge analysed

abbrev pub run_reply : Value → Bool → Items → Value
run_reply trace_id good steps =
    obj (field "ok" (bool good) (field "steps" (arr steps) (field "trace_id" trace_id end)))

abbrev pub finish : Config → String → Value → Outcome Delegated → M Value
finish cfg repo trace_id (stopped steps) = pure (run_reply trace_id false (step_values steps))
finish cfg repo trace_id (passed steps d) = do
  ticket ← create_ticket cfg repo d
  let all = append_items (step_values steps) ticket
  good ← lift (all_ok all)
  pure (run_reply trace_id good all)

unfoldable pub run : Config → Value → Option RunRequest → M Value
unfolding repo_of cve_of use_real_of append_items all_ok
run cfg trace_id body = do
  outcome ← task cfg (repo_of cfg body) (cve_of body) (use_real_of body)
  finish cfg (repo_of cfg body) trace_id outcome

-- ===== src/OpenCode/Ticket.antt =====
-- The last step of `run` in cross-domain-id-jag-vc/opencode-agent/app.py, which creates the ticket at
-- Triage and takes over the steps that Org B reports. These are JSON values, so a step of theirs may
-- be anything.
use agent_identity_demos.Prelude.{
  String, ◌<>◌, Bool, true, false, ◌||◌, Option, none, some, [], ◌∷◌, ◌==◌, nat_eq, string_eq,
  if◌then◌else◌,
}
use agent_identity_demos.Value.{
  Value, Items, Fields, str, obj, arr, nil, cons, end, field, get, get_default, eq_str, strs,
  truthy,
}
use agent_identity_demos.Effects.{
  Exn, Result, ok, err, World, M, asks, attempt, pure, ◌>>=◌, Request, http_post, json_body,
  request, json, as_dict, dict_result, exn_text,
}
use agent_identity_demos.Effects.Values.{list_of}
use agent_identity_demos.Step.{Step, step, reported, failed, http_failure}
use agent_identity_demos.OpenCode.Config.{Config}

-- What the earlier steps have found, and the two tokens for Triage.
pub record Delegated : Type 0 where
  pub assertion : String
  pub triage_token : String
  pub cve : Value
  pub plan : Value

unfoldable pub ticket_payload : Config → String → Delegated → Fields
ticket_payload cfg repo d = field "cve" d.cve (
    field "severity" (str "HIGH") (
      field "repo" (str repo) (
        field "intent" (str "create-pr-fix") (
          field "delegating_agent" (str cfg.opencode_client_id) (
            field "act_chain" (arr (strs (cfg.opencode_client_id ∷ [])))
              (field "plan" d.plan end))))))

unfoldable pub ticket_request : Config → String → Delegated → Request
ticket_request cfg repo d = record {
  method = http_post;
  url = cfg.triage_agent_url <> "/api/ticket";
  headers =
      ("Authorization", "Bearer " <> d.triage_token)
      ∷ ("X-AGNTCY-Actor-Token", "Bearer " <> d.assertion)
      ∷ ("Content-Type", "application/json")
      ∷ [];
  auth = none;
  body = json_body (obj (ticket_payload cfg repo d));
}

unfoldable pub append_items : Items → Items → Items
append_items nil vs = vs
append_items (cons u us) vs = cons u (append_items us vs)

-- The steps that were taken over, and the exception that ended it.
abbrev pub Taken : Type 0
Taken = Items × Option Exn

abbrev nested_items : Result Items → Taken
nested_items (ok vs) = (vs, none)
nested_items (err e) = (nil, some e)

-- `ts["result"].get("steps", [])`, where the step spawned the sub-agent and its result is a dict.
abbrev nested_of : Fields → Value → Taken
nested_of fs (obj result) =
    if eq_str (get "id" fs) "spawn-sub-agent"
    then nested_items (list_of (get_default "steps" (arr nil) result))
    else (nil, none)
nested_of fs v = (nil, none)

abbrev then_take : Value → Taken → Taken → Taken
then_take v (nested, some e) rest = (cons v nested, some e)
then_take v (nested, none) (vs, stop) = (cons v (append_items nested vs), stop)

abbrev take_step : Value → Result Fields → Taken → Taken
take_step v (err e) rest = (cons v nil, some e)
take_step v (ok fs) rest = then_take v (nested_of fs (get "result" fs)) rest

-- Every step of the answer, and behind the one that spawned the sub-agent the steps of its answer.
unfoldable pub taken : Items → Taken
unfolding append_items list_of
taken nil = (nil, none)
taken (cons v vs) = take_step v (dict_result v) (taken vs)

abbrev taken_all : Result Items → Taken
unfolding taken
taken_all (ok vs) = taken vs
taken_all (err e) = (nil, some e)

-- An exception on the way fails the step and adds it once more.
abbrev with_taken : World → Step → Taken → Items
with_taken w s (vs, none) = cons (obj s) vs
with_taken w s (vs, some e) =
    cons (obj (failed (exn_text w e) s))
      (append_items vs (cons (obj (failed (exn_text w e) s)) nil))

abbrev ticket_step : Fields → Step → Step
ticket_step reply s =
    reported (if truthy (get "ok" reply) then "ok" else "error")
      (obj (
        field "ticket_id" (get_default "ticket_id" (str "") reply)
          (field "ok" (get "ok" reply) end)))
      s

unfoldable pub ticket_items : World → Step → Fields → Items
unfolding taken list_of append_items
ticket_items w s reply =
    with_taken w (ticket_step reply s) (taken_all (list_of (get_default "steps" (arr nil) reply)))

abbrev items_or_failed : World → Step → Result Items → Items
items_or_failed w s (ok vs) = vs
items_or_failed w s (err e) = cons (obj (failed (exn_text w e) s)) nil

-- The steps of the ticket, whatever comes of it.
unfoldable pub create_ticket : Config → String → Delegated → M Items
unfolding ticket_items
create_ticket cfg repo d = do
  let s =
      step "create-ticket"
        "12. POST /api/ticket → Org B (access token + ID-JAG actor token, intent=create-pr-fix)"
        ("POST " <> (cfg.triage_agent_url <> "/api/ticket  Bearer=triage_token"))
  answer ← attempt (do
    r ← request (ticket_request cfg repo d)
    if r.status_code == 200 || r.status_code == 201
        then (do reply ← json r; fields ← as_dict reply; asks (λ w. ticket_items w s fields))
        else pure (cons (obj (failed (http_failure r) s)) nil))
  asks (λ w. items_or_failed w s answer)

-- `_ok`
unfoldable pub step_ok : Value → Bool
step_ok status = eq_str status "ok" || eq_str status "denied" || eq_str status "skipped"

abbrev status_ok : Result Fields → Result Bool → Result Bool
status_ok (err e) rest = err e
status_ok (ok s) rest = if step_ok (get_default "status" (str "error") s) then rest else ok false

-- `all(_ok(s.get("status", "error")) for s in steps)`, which ends at the first that is not.
unfoldable pub all_ok : Items → Result Bool
unfolding step_ok
all_ok nil = ok true
all_ok (cons v vs) = status_ok (dict_result v) (all_ok vs)

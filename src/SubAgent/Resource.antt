-- ===== src/SubAgent/Resource.antt =====
-- The calls of the gateway in `run` of cross-domain-id-jag-vc/sub-agent/app.py, and the steps that
-- report them.
use agent_identity_demos.Prelude.{
  String, ◌<>◌, Bool, ◌||◌, Option, none, some, List, [], ◌∷◌, string_eq, nat_eq, ◌==◌,
  if◌then◌else◌,
}
use agent_identity_demos.Prelude.Text.{is_empty, join}
use agent_identity_demos.Value.{
  Value, Fields, str, obj, arr, end, field, get_default, strs, set_item,
}
use agent_identity_demos.Effects.{
  json_error, Result, ok, err, World, M, pure, attempt, ◌>>=◌, Request, Response, http_post,
  json_body, request, dict_result, exn_text,
}
use agent_identity_demos.Effects.Values.{text_of}
use agent_identity_demos.Step.{Step, step, reported, failed, http_failure}
use agent_identity_demos.SubAgent.Badge.{Config, RunRequest}

abbrev resource_context : RunRequest → Fields
resource_context body =
    field "intent" (str body.intent)
      (field "act_chain" (arr (strs body.act_chain)) (field "ticket_id" (str body.ticket_id) end))

abbrev gateway_request : Config → RunRequest → String → String → Fields → Request
gateway_request cfg body access_token path payload = record {
  method = http_post;
  url = cfg.gitea_gateway_url <> path;
  headers =
      ("Authorization", "Bearer " <> access_token)
      ∷ ("X-AGNTCY-Actor-Token", "Bearer " <> body.sub_badge)
      ∷ [];
  auth = none;
  body = json_body (obj payload);
}

abbrev pub push_path : String → String → String
push_path owner repo_slug = "/api/gitea/push/" <> (owner <> ("/" <> repo_slug))

abbrev pub pulls_path : String → String → String
pulls_path owner repo_slug = "/api/gitea/pulls/" <> (owner <> ("/" <> repo_slug))

abbrev pub push_request : Config → RunRequest → String → String → String → Request
push_request cfg body access_token owner repo_slug =
    gateway_request cfg body access_token (push_path owner repo_slug) (resource_context body)

abbrev pull_payload : RunRequest → Value → String → Fields
pull_payload body branch title =
    field "head" branch
      (field "base" (str "main") (field "title" (str title) (resource_context body)))

abbrev ticket_or : String → String
ticket_or ticket_id = if is_empty ticket_id then "TRIAGE" else ticket_id

abbrev pub open_pr_request : Config → RunRequest → String → String → String → Value → Request
open_pr_request cfg body access_token owner repo_slug branch =
    gateway_request cfg body access_token (pulls_path owner repo_slug) (
      pull_payload body branch (
        "fix: remediate "
        <> (body.intent
            <> (" [ticket="
                <> (ticket_or body.ticket_id
                    <> ("] [act-chain=" <> (join " → " body.act_chain <> "]")))))))

abbrev pub denied_request : Config → RunRequest → String → String → Value → Request
denied_request cfg body access_token owner branch =
    gateway_request cfg body access_token (pulls_path owner "demo-protected")
      (pull_payload body branch "fix: attempted change to a protected repo (expected to be denied)")

abbrev created : Response → Bool
created r = r.status_code == 200 || r.status_code == 201

-- `s.update(status=…, result=r.json())`, or the failure to read the answer.
abbrev reported_json : World → String → Step → Option Value → Step
reported_json w status s none = failed (exn_text w json_error) s
reported_json w status s (some v) = reported status v s

-- What a step reports of an answer: done, denied by the gateway, or failed.
unfoldable pub answered : World → Step → Result Response → Step
answered w s (err e) = failed (exn_text w e) s
answered w s (ok r) =
    if created r
    then reported_json w "ok" s r.json
    else if r.status_code == 403
    then reported_json w "denied" s r.json
    else failed (http_failure r) s

-- `r.json().get("pushed", {}).get("branch", branch)`
abbrev pushed_branch : Value → Result Fields → Result Value
pushed_branch branch (err e) = err e
pushed_branch branch (ok fields) = elim (dict_result (get_default "pushed" (obj end) fields)) [
  | ok pushed ↦ ok (get_default "branch" branch pushed)
  | err e ↦ err e
]

abbrev after_push : World → Value → Step → Result Value → Step × Value
after_push w branch s (ok used) = (s, used)
after_push w branch s (err e) = (failed (exn_text w e) s, branch)

-- The branch that the gateway used replaces ours, if the push went well and its answer names one.
unfoldable pub pushed : World → Value → Step → Result Response → Step × Value
unfolding answered
pushed w branch s (err e) = (answered w s (err e), branch)
pushed w branch s (ok r) = elim r.json [
  | none ↦ (answered w s (ok r), branch)
  | some v ↦
      if created r
      then after_push w branch (answered w s (ok r)) (pushed_branch branch (dict_result v))
      else (answered w s (ok r), branch)
]

-- The attempt on the protected repository must be denied: here a success is the failure.
unfoldable pub denied : World → Step → Result Response → Step
denied w s (err e) = failed (exn_text w e) s
denied w s (ok r) =
    if r.status_code == 403
    then reported_json w "denied" s r.json
    else if created r
    then (elim r.json [
      | none ↦ failed (exn_text w json_error) s
      | some v ↦
          set_item "result" v
            (failed "expected 403 policy_deny but the PR succeeded — deny-list not enforced" s)
    ])
    else failed (http_failure r) s

-- A request whose exception is a value, and what becomes of the outcome.
unfoldable pub report {ℓ} : {A : Type ℓ} → Request → (World → Result Response → A) → M A
report q f = attempt (request q) >>= λ outcome. λ w h. (ok (f w outcome), h)

abbrev shown : World → Value → String
shown w v = text_of w v

unfoldable pub shown_branch : Value → M String
shown_branch v w h = (ok (shown w v), h)

-- The three calls: push, pull request, and the attempt that the gateway must deny. The second
-- component is the branch that the push used.
unfoldable pub gateway_calls :
    Config → RunRequest → String → String → String → Value → M (List Step × Value)
unfolding pushed answered denied report shown_branch
gateway_calls cfg body access_token owner repo_slug branch = do
  drawn ← shown_branch branch
  first ← report (push_request cfg body access_token owner repo_slug) λ w. pushed w branch (
      step "push-file"
        ("s5a. Push fix file to " <> (drawn <> " (needs gitea:write) → gitea-gateway"))
        ("POST " <> (cfg.gitea_gateway_url <> push_path owner repo_slug)))
  let (push_step, used) = first
  name ← shown_branch used
  pr_step ← report (open_pr_request cfg body access_token owner repo_slug used) λ w. answered w (
      step "open-pr" ("s5b. Open PR (" <> (name <> " → main, needs gitea:pr) → gitea-gateway"))
        ("POST " <> (cfg.gitea_gateway_url <> pulls_path owner repo_slug)))
  denied_step ← report (denied_request cfg body access_token owner used) λ w. denied w (
      step "denied-pr-attempt"
        "s5c. Attempt PR on demo-protected (deny-listed — refused regardless of scope)"
        ("POST " <> (cfg.gitea_gateway_url <> pulls_path owner "demo-protected")))
  pure (push_step ∷ pr_step ∷ denied_step ∷ [], used)

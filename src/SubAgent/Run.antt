-- ===== src/SubAgent/Run.antt =====
-- `run` of cross-domain-id-jag-vc/sub-agent/app.py: verify the sub-badge, register, publish the own
-- credential, check the sender's, redeem the badge, and work at the gateway. The spans of the
-- tracer are left out.
use agent_identity_demos.Prelude.{
  String, ◌<>◌, Bool, true, false, ◌&&◌, ◌||◌, Option, none, some, List, [], ◌∷◌, ◌++◌, string_eq,
  nat_eq, ◌==◌, if◌then◌else◌,
}
use agent_identity_demos.Prelude.Text.{is_empty, split_once, take_text}
use agent_identity_demos.Value.{
  Value, Fields, str, bool, obj, arr, nil, end, field, get, get_default, or_value, eq_str, strs,
  truthy, set_item,
}
use agent_identity_demos.Effects.{
  ok, World, M, pure, ◌>>=◌, Request, http_post, form_body, request, as_dict, token_hex,
}
use agent_identity_demos.Effects.Values.{text_at}
use agent_identity_demos.Client.Vault.{issuer}
use agent_identity_demos.Client.Vc.{Grant}
use agent_identity_demos.Step.{
  Step, step, reported, failed, http_failure, has_status, steps_reply, decode_unverified, dict_at,
  Outcome, stopped, passed,
}
use agent_identity_demos.Exchange.{access_token_of}
use agent_identity_demos.Phase.{◌>=>◌, stop_with, or_stop}
use agent_identity_demos.Register.{register_phase, badge_phase}
use agent_identity_demos.Credential.{scope_words}
use agent_identity_demos.SubAgent.Badge.{
  Config, RunRequest, token_endpoint, jwks_url, verify_subbadge,
}
use agent_identity_demos.SubAgent.Steps.{cimd_register, dir_push_turn}
use agent_identity_demos.SubAgent.Sender.{sender_phase}
use agent_identity_demos.SubAgent.Resource.{gateway_calls}

abbrev pub verify_step : Config → Step
verify_step cfg =
    step "verify-subbadge"
      "s1. Sub-Agent verifies the sub-badge itself — signature vs Keycloak B JWKS + narrowing claims"
      ("JWKS "
        <> (jwks_url cfg
            <> ("  expect iss="
                <> (cfg.kc_b_issuer <> ("  client_id=" <> cfg.sub_agent_client_id)))))

abbrev verified_result : Fields → Fields → Value
verified_result claims act = obj (
    field "iss" (get "iss" claims) (
      field "client_id" (get "client_id" claims) (
        field "scope" (get "scope" claims) (
          field "resource" (get "resource" claims) (
            field "intent" (get "intent" claims) (
              field "act_chain" (get_default "act_chain" (arr nil) act) (
                field "note"
                  (str
                    "verified in-agent against Keycloak B's JWKS, independently of Envoy — narrowing confirmed (no triage:create) and bound to this repo")
                  end)))))))

unfoldable pub verify_phase : Config → RunRequest → M (Outcome Fields)
unfolding verify_subbadge
verify_phase cfg body =
    if is_empty body.sub_badge
    then stop_with (failed "no sub_badge supplied — nothing to verify or redeem" (verify_step cfg))
    else or_stop "in-agent sub-badge verification failed: " (verify_step cfg) (do
      claims ← verify_subbadge cfg body.sub_badge body
      act ← as_dict (or_value (get "act" claims) (obj end))
      pure (passed (reported "ok" (verified_result claims act) (verify_step cfg) ∷ []) claims))

abbrev own_grant : RunRequest → Fields → String → M Grant
own_grant body claims id = do
  scope ← text_at (or_value (get "scope" claims) (str ""))
  pure (record {
    subject_id = id;
    caps = scope_words scope;
    delegating_user = "sarah@org-a.example";
    intent = body.intent;
    delegatable = [];
  })

unfoldable pub publish_phase : Config → RunRequest → Fields → String → M (Outcome (Unit {0}))
publish_phase cfg body claims id =
    badge_phase cfg.identity_node_url cfg.vault_cfg
      (step "resolve-badge"
        "s2c. Publish Sub-Agent's agent badge VC (caps from the verified sub-badge) — org-b Vault-signed"
        ("POST "
          <> (cfg.identity_node_url
              <> ("/v1alpha1/vc/publish  issuer="
                  <> (issuer cfg.vault_cfg <> ("  subject=" <> id))))))
      (own_grant body claims id) body.act_chain

abbrev pub exchange_request : Config → RunRequest → Request
exchange_request cfg body = record {
  method = http_post;
  url = token_endpoint cfg;
  headers = [];
  auth = none;
  body = form_body (
      ("grant_type", "urn:ietf:params:oauth:grant-type:jwt-bearer")
      ∷ ("assertion", body.sub_badge)
      ∷ ("client_id", cfg.sub_agent_client_id)
      ∷ ("client_secret", cfg.sub_agent_client_secret)
      ∷ ("scope", "openid gitea:write gitea:pr")
      ∷ []);
}

abbrev pub token_step : World → String → Step → Step
token_step w access_token s =
    reported "ok" (obj (field "claims" (decode_unverified w (str access_token)) end)) (
      set_item "token" (str access_token) (
        set_item "token_preview" (str (take_text 48 access_token <> "…"))
          (set_item "status" (str "ok") s)))

unfoldable pub token_passed : String → Step → M (Outcome String)
token_passed access_token s w h = (ok (passed (token_step w access_token s ∷ []) access_token), h)

unfoldable pub exchange_phase : Config → RunRequest → M (Outcome String)
unfolding token_passed
exchange_phase cfg body = do
  chain ← text_at (arr (strs body.act_chain))
  let s =
      step "kc-b-exchange"
        ("s3. jwt-bearer exchange (assertion=verified sub-badge) → Keycloak B  [act_chain="
          <> (chain <> "]"))
        ("POST "
          <> (token_endpoint cfg
              <> ("  client=" <> (cfg.sub_agent_client_id <> "  scope=gitea:write gitea:pr"))))
  or_stop "" s (do
    r ← request (exchange_request cfg body)
    if r.status_code == 200
        then (do access_token ← access_token_of r; token_passed access_token s)
        else stop_with (failed (http_failure r) s))

abbrev credentials_step : Step
credentials_step = field "id" (str "idjag-gitea") (
    field "title" (str "s4. Resource credentials — scoped access token + verified sub-badge") (
      field "status" (str "ok") (
        field "result"
          (obj (
            field "note"
              (str
                "The sub-badge was scoped to gitea:write gitea:pr when minted by Triage. The Sub-Agent sends both that original badge and the resulting Keycloak B access token to Envoy for independent verification.")
              end))
          end)))

-- The first policy that one of these two steps carries, or an empty dict.
unfoldable pub first_policy : List Step → M Value
first_policy [] = pure (obj end)
first_policy (s ∷ steps) =
    let rest = first_policy steps in
    if eq_str (get "id" s) "push-file" || eq_str (get "id" s) "open-pr"
    then (dict_at "result" s >>= λ result.
        if truthy (get "policy" result) then pure (get "policy" result) else rest)
    else rest

abbrev egress_step : Fields → Step
egress_step policy = field "id" (str "opa-egress") (
    field "title"
      (str
        "s5d. Envoy + OPA resource boundary: both JWTs ✓  depth ✓  sub-scope ✓  signed intent ✓  repository ✓  → ALLOW")
      (field "status" (str (if eq_str (get "decision" policy) "ALLOW" then "ok" else "error")) (
        field "result"
          (obj (
            field "decision" (get "decision" policy) (
              field "enforced_by" (get "enforced_by" policy) (
                field "rule" (get "rule" policy) (
                  field "action" (get "action" policy) (
                    field "repository" (get "repository" policy) (
                      field "delegation_depth" (get "delegation_depth" policy) (
                        field "sub_scope_subset" (bool true) (
                          field "note"
                            (str
                              "decision headers were injected by the Built On Envoy inline OPA filter")
                            end)))))))))
          end)))

-- `next((s for s in steps if s["id"] == "open-pr"), {})`
abbrev pr_step_of : List Step → Step
pr_step_of [] = end
pr_step_of (s ∷ steps) = if eq_str (get "id" s) "open-pr" then s else pr_step_of steps

abbrev summary_step : RunRequest → Step → Value → Step
summary_step body pr_step pr_url = field "id" (str "pr-created") (
    field "title" (str "s7. PR created ✓ — causal audit: Sarah → OpenCode → Triage → Sub-Agent") (
      field "status" (str (if has_status "ok" pr_step then "ok" else "error")) (
        field "result"
          (obj (
            field "pr_url" pr_url (
              field "act_chain" (arr (strs body.act_chain)) (
                field "ticket" (str body.ticket_id) (
                  field "otel_note"
                    (str "OpenTelemetry trace_id would link every hop in production") end)))))
          end)))

unfoldable pub work_phase :
    Config → RunRequest → String → String → Value → String → M (Outcome (Unit {0}))
work_phase cfg body owner repo_slug branch access_token = do
  called ← gateway_calls cfg body access_token owner repo_slug branch
  let (calls, used) = called
  found ← first_policy calls
  policy ← as_dict found
  let pr_step = pr_step_of calls
  result ← dict_at "result" pr_step
  pull_request ← dict_at "pull_request" result
  let pr_url = get_default "html_url" (str "") pull_request
  pushed ← dir_push_turn cfg body used pr_url
  pure (
      passed
        (credentials_step
          ∷ (calls ++ (egress_step policy ∷ pushed ∷ summary_step body pr_step pr_url ∷ [])))
        tt)

-- `_expected_outcome`
unfoldable pub expected_outcome : Step → Bool
expected_outcome s =
    if eq_str (get "id" s) "denied-pr-attempt" then has_status "denied" s else has_status "ok" s

unfoldable pub all_expected : List Step → Bool
all_expected [] = true
all_expected (s ∷ steps) = expected_outcome s && all_expected steps

-- The owner and the name of `owner/name`; a name alone is the administrator's.
abbrev owner_and_name : Config → String → String × Option String → String × String
owner_and_name cfg repo (owner, some name) = (owner, name)
owner_and_name cfg repo (before, none) = (cfg.gitea_admin_user, repo)

unfoldable pub owner_and_repo : Config → String → String × String
unfolding split_once
owner_and_repo cfg repo = owner_and_name cfg repo (split_once b'/' repo)

-- The phases in their order, up to the work at the gateway.
unfoldable pub credentials : Config → RunRequest → M (Outcome String)
credentials cfg body = verify_phase cfg body >=> λ claims.
    register_phase cfg.sub_agent_client_id (cimd_register cfg) >=> λ id.
    publish_phase cfg body claims id >=> λ _.
    sender_phase cfg body claims >=> λ _. exchange_phase cfg body

abbrev reply_of : Outcome (Unit {0}) → Value
reply_of (stopped steps) = steps_reply false steps
reply_of (passed steps _) = steps_reply (all_expected steps) steps

unfoldable pub run : Config → RunRequest → M Value
unfolding owner_and_repo
run cfg body = do
  token ← token_hex 3
  let (owner, repo_slug) = owner_and_repo cfg body.repo
  outcome ← credentials cfg body >=> λ access_token.
      work_phase cfg body owner repo_slug (str ("sub-agent/fix-" <> token)) access_token
  pure (reply_of outcome)

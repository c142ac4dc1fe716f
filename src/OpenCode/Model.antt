-- ===== src/OpenCode/Model.antt =====
-- `_opencode_plan` and `_opencode_scan` of cross-domain-id-jag-vc/opencode-agent/app.py, which ask
-- the model. A plan that fails is skipped, and a scan that fails falls back to a known finding.
use agent_identity_demos.Prelude.{
  ℕ, none, String, ◌<>◌, Bool, true, not, ◌&&◌, List, [], contains, string_eq, if◌then◌else◌,
}
use agent_identity_demos.Prelude.Text.{is_empty, join, strip, take_text, lower}
use agent_identity_demos.Value.{
  Value, Items, Fields, str, bool, obj, arr, nil, cons, end, field, get, get_default, or_value,
  truthy, eq_str,
}
use agent_identity_demos.Effects.{
  attempt, Exn, Result, ok, err, M, asks, pure, lift, catch, ◌>>=◌, ◌>>◌, Request, http_get,
  http_post, no_body, json_body, request, json, as_dict, dict_result, exn_text,
}
use agent_identity_demos.Effects.Values.{text_at, items_of, as_text, subscript}
use agent_identity_demos.Client.Vault.{raise_for_status}
use agent_identity_demos.Step.{Step, step, reported}
use agent_identity_demos.Credential.{texts}
use agent_identity_demos.OpenCode.Config.{Config, builtin_providers, model_parts, llm_headers}

abbrev get_request : String → List (String × String) → Request
get_request url headers = record {
  method = http_get;
  url = url;
  headers = headers;
  auth = none;
  body = no_body;
}

abbrev post_request : String → Fields → Request
post_request url payload = record {
  method = http_post;
  url = url;
  headers = [];
  auth = none;
  body = json_body (obj payload);
}

abbrev note_of : String → Fields → Value
note_of text fs = obj (field "note" (str text) fs)

-- `p.get("type") == "text" and p.get("text")` chooses the parts whose texts are joined.
abbrev text_part : Result Fields → Result Items → Result Items
text_part (err e) rest = err e
text_part (ok part) (err e) = err e
text_part (ok part) (ok vs) =
    if eq_str (get "type" part) "text" && truthy (get "text" part)
    then ok (cons (get "text" part) vs)
    else ok vs

unfoldable pub text_parts : Items → Result Items
text_parts nil = ok nil
text_parts (cons v vs) = text_part (dict_result v) (text_parts vs)

-- The reply's text: `"\n".join(…).strip()`.
unfoldable pub reply_text : Fields → M String
unfolding text_parts texts strip
reply_text reply = do
  parts ← lift (items_of (get_default "parts" (arr nil) reply))
  found ← lift (text_parts parts)
  lines ← lift (texts found)
  pure (strip (join "\n" lines))

-- The message of an error that OpenCode embeds in its answer, where there is one.
abbrev pub error_message : Value → M String
error_message info_error = do
  fields ← as_dict info_error
  content ← as_dict (or_value (get "data" fields) (obj end))
  shown ← text_at info_error
  lift (as_text (get_default "message" (str shown) content))

unfoldable pub message_request : Config → String → String → Request
message_request cfg session prompt =
    post_request (cfg.opencode_server_url <> ("/session/" <> (session <> "/message"))) (
      field "model"
        (obj (
          field "providerID" (str (model_parts cfg).0)
            (field "modelID" (str (model_parts cfg).1) end)))
        (field "agent" (str "plan") (
          field "parts"
            (arr (cons (obj (field "type" (str "text") (field "text" (str prompt) end))) nil))
            end)))

-- A session with the model: its id, and what the model answers to the prompt.
unfoldable pub ask : Config → String → String → M (Value × Fields)
ask cfg title prompt = do
  r ← request (post_request (cfg.opencode_server_url <> "/session") (field "title" (str title) end))
  raise_for_status r
  created ← json r
  session_id ← lift (subscript "id" created)
  session ← text_at session_id
  answer ← request (message_request cfg session prompt)
  raise_for_status answer
  reply ← json answer
  fields ← as_dict reply
  pure (session_id, fields)

-- `(data.get("info") or {}).get("error")`
unfoldable pub error_of : Fields → M Value
error_of reply = do info ← as_dict (or_value (get "info" reply) (obj end)); pure (get "error" info)

abbrev plan_title : Config → Bool → String
plan_title cfg use_real =
    "6b. OpenCode ("
    <> ((if use_real then "real agent, " <> cfg.opencode_model else "mocked")
        <> ") analyzes the CVE → remediation plan")

abbrev mock_plan : String → String → String → Value
mock_plan cve shown repo = obj (
    field "mock" (bool true) (
      field "model" (str "mock") (
        field "plan"
          (str (
            "[MOCKED — real OpenCode call skipped by request]\n- Affected dependency: example-lib (illustrative — not a real scan)\n- Fix: bump to latest patched version\n- Branch: fix/"
            <> (cve
                <> ("\n- PR title: Security: remediate "
                    <> (shown
                        <> (" in "
                            <> (repo
                                <> "\n- Sub-agent: bump the dependency version and open the PR")))))))
          end)))

abbrev plan_prompt : String → String → String → String
plan_prompt cve repo scoped_intent =
    "Remediation plan needed: "
    <> (cve
        <> (" (HIGH, known RCE) in repository "
            <> (repo
                <> (", scope="
                    <> (scoped_intent
                        <> ". No file or tool access is available — do not read files or run tools; reason from general knowledge only. Reply in plain text, at most 5 short lines: affected dependency, fix (version bump), branch name, PR title, the change a sub-agent should make.")))))

-- What comes of the model's answer to the request for a plan.
unfoldable pub plan_answered : Config → Step → Value → Fields → M Step
plan_answered cfg s session_id reply = do
  info_error ← error_of reply
  if truthy info_error
      then (do
        message ← error_message info_error
        pure (
            reported "skipped"
              (note_of
                ("OpenCode provider error — plan skipped ("
                  <> (take_text 200 message
                      <> ("). If using Ollama: `ollama pull " <> ((model_parts cfg).1 <> "`"))))
                end)
              s))
      else (do
        plan_text ← reply_text reply
        pure (
            if is_empty plan_text
            then reported "skipped" (note_of "OpenCode returned no text parts — plan skipped" end) s
            else reported "ok"
                (obj (
                  field "model" (str cfg.opencode_model) (
                    field "session_id" session_id
                      (field "plan" (str (take_text 2000 plan_text)) end))))
                s))

abbrev pub skipped_with : ℕ → String → Step → Exn → M Step
skipped_with n note s e = asks (λ w.
    reported "skipped" (note_of note (field "error" (str (take_text n (exn_text w e))) end)) s)

-- The probe of a model server that is not a built-in provider's.
abbrev pub probe : Config → M (Unit {0})
probe cfg =
    if contains builtin_providers (model_parts cfg).0
    then pure tt
    else request (get_request (cfg.llm_base_url <> "/models") (llm_headers cfg)) >>= λ r.
        raise_for_status r

abbrev pub plan_real : Config → Value → String → String → Step → M Step
plan_real cfg cve repo scoped_intent s = do
  shown ← text_at cve
  catch
      (do
        asked ←
            ask cfg ("remediate " <> (shown <> (" in " <> repo)))
              (plan_prompt shown repo scoped_intent)
        let (session_id, reply) = asked
        plan_answered cfg s session_id reply)
      (skipped_with 300 "OpenCode plan failed — step skipped, identity chain continues" s)

abbrev pub probed : Config → Value → String → String → Step → Result (Unit {0}) → M Step
probed cfg cve repo scoped_intent s (ok _) = plan_real cfg cve repo scoped_intent s
probed cfg cve repo scoped_intent s (err e) =
    skipped_with 200
      ("model endpoint not reachable at "
        <> (cfg.llm_base_url <> " — plan skipped, identity chain continues"))
      s e

-- `_opencode_plan`. The CVE is whatever the model gave as the id of its finding.
unfoldable pub opencode_plan : Config → Value → String → String → Bool → M Step
unfolding lower
opencode_plan cfg cve repo scoped_intent use_real = do
  let s =
      step "opencode-plan" (plan_title cfg use_real)
        ("POST " <> (cfg.opencode_server_url <> "/session + /session/<id>/message  agent=plan"))
  if not use_real
      then (do
        shown ← text_at cve
        cve_text ← lift (as_text cve)
        pure (reported "ok" (mock_plan (lower cve_text) shown repo) s))
      else (do answer ← attempt (probe cfg); probed cfg cve repo scoped_intent s answer)

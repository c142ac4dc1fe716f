-- ===== src/OpenCode/Steps.antt =====
-- The steps of `run` in cross-domain-id-jag-vc/opencode-agent/app.py at the Identity Node, at the
-- gateway of Org B and at the Directory: `_cimd_generate`, `_cimd_resolve`, the badge, the source,
-- `_dir_push` and `_dir_search`.
use agent_identity_demos.Prelude.{
  false, ℕ, String, ◌<>◌, length, none, [], ◌∷◌, ltb, ◌==◌, nat_eq, string_eq, if◌then◌else◌,
}
use agent_identity_demos.Prelude.Text.{is_empty, take_text}
use agent_identity_demos.Value.{
  Value, Fields, str, num, bool, arr, obj, nil, cons, end, field, get, get_default, or_value, strs,
  set_item,
}
use agent_identity_demos.Effects.{
  M, asks, pure, ◌>>=◌, Request, http_get, no_body, request, json, as_dict, time,
}
use agent_identity_demos.Effects.Values.{text_at, text_of}
use agent_identity_demos.Clock.{iso}
use agent_identity_demos.Client.Vault.{issuer}
use agent_identity_demos.Client.Cimd.{generate_id, well_known_id}
use agent_identity_demos.Client.Vc.{Grant, Issued, issue_badge}
use agent_identity_demos.Client.Directory.{
  push_record, search_by_name, oasf_schema_version, entry, first_record,
}
use agent_identity_demos.Step.{
  Step, step, reported, failed, has_status, http_failure, Outcome, stopped, passed, dict_at,
}
use agent_identity_demos.Phase.{◌>=>◌, or_stop, or_fail, stop_with}
use agent_identity_demos.Register.{generated_result, resolve, result_fields}
use agent_identity_demos.OpenCode.Config.{Config}

unfoldable pub cimd_generate : Config → M Step
cimd_generate cfg = do
  let sub = cfg.opencode_client_id
  let s =
      step "cimd-generate-id"
        ("2. OpenCode registers its identity — generate id for "
          <> (sub
              <> (" (Vault-signed proof, "
                  <> (cfg.vault_cfg.common_name <> " trust authority) → Identity Node"))))
        ("POST "
          <> (cfg.identity_node_url
              <> ("/v1alpha1/id/generate  iss=" <> (issuer cfg.vault_cfg <> ("  sub=" <> sub)))))
  or_fail "" s (do
    res ← generate_id cfg.identity_node_url cfg.vault_cfg sub
    pure (reported "ok" (generated_result res) s))

unfoldable pub cimd_resolve : Config → Value → M Step
cimd_resolve cfg cimd_id = do
  id ← text_at cimd_id
  resolve cfg.identity_node_url cimd_id (
      step "cimd-resolve-id" ("3. Resolve id " <> (id <> " → ResolverMetadata + JWK"))
        ("POST " <> (cfg.identity_node_url <> ("/v1alpha1/id/resolve  id=" <> id))))

-- `if step.get("status") != "ok": return _fail()`
abbrev pub unless_ok {ℓ} : {A : Type ℓ} → A → Step → Outcome A
unless_ok a s = if has_status "ok" s then passed (s ∷ []) a else stopped (s ∷ [])

abbrev generate_phase : Config → M (Outcome Value)
generate_phase cfg = do
  s ← cimd_generate cfg
  pure (
      unless_ok
        (get_default "id" (str (well_known_id cfg.opencode_client_id))
          (result_fields (get "result" s)))
        s)

-- The identifier under which the agent is registered.
unfoldable pub identity_phase : Config → M (Outcome Value)
identity_phase cfg =
    generate_phase cfg >=> λ cimd_id. cimd_resolve cfg cimd_id >>= λ s. pure (unless_ok cimd_id s)

-- `cimd_id or f"AGNTCY-{OPENCODE_CLIENT_ID}"`. The Identity Node's ids are texts.
abbrev subject_text : Config → Value → M String
subject_text cfg cimd_id =
    asks (λ w. text_of w (or_value cimd_id (str (well_known_id cfg.opencode_client_id))))

unfoldable pub own_grant : Config → String → String → Grant
own_grant cfg id scoped_intent = record {
  subject_id = id;
  caps = "scan" ∷ "remediate" ∷ "delegate" ∷ "gitea:read" ∷ [];
  delegating_user = cfg.sarah_email;
  intent = scoped_intent;
  delegatable = "openid" ∷ "triage:create" ∷ [];
}

abbrev issued_result : Config → String → Issued → Value
issued_result cfg id issued = obj (
    field "token" (str issued.badge) (
      field "credential_id" issued.credential_id (
        field "issuer" issued.issuer (
          field "reused_existing_credential" (bool issued.reused) (
            field "superseded_credentials" (arr (strs issued.superseded)) (
              field "verified_by" (str "identity-node /v1alpha1/vc/verify") (
                field "well_known"
                  (str
                    (cfg.identity_node_url <> ("/v1alpha1/vc/" <> (id <> "/.well-known/vcs.json"))))
                  (field "claims" issued.document end))))))))

abbrev pub badge_outcome : Config → String → Step → Issued → Outcome String
badge_outcome cfg id s issued =
    if issued.verified
    then passed
        (set_item "result" (issued_result cfg id issued) (
            set_item "token_preview" (str (take_text 48 issued.badge <> "…"))
              (set_item "status" (str "ok") s))
          ∷ [])
        issued.badge
    else stopped (failed "identity-node reported the published badge as invalid" s ∷ [])

-- The badge for this task. One that the Identity Node does not verify ends the handler.
unfoldable pub badge_phase : Config → Value → String → M (Outcome String)
unfolding own_grant
badge_phase cfg cimd_id scoped_intent = do
  let s =
      step "resolve-badge"
        ("5. Task-scoped agent badge VC (intent="
          <> (scoped_intent <> ") — Vault-signed, published to identity-node"))
        ("POST "
          <> (cfg.identity_node_url
              <> ("/v1alpha1/vc/publish  +  /v1alpha1/vc/verify  (issuer="
                  <> (issuer cfg.vault_cfg <> ")"))))
  or_stop "" s (do
    id ← subject_text cfg cimd_id
    issued ←
        issue_badge cfg.identity_node_url cfg.vault_cfg (own_grant cfg id scoped_intent)
          (cfg.opencode_client_id ∷ []) 3600
    pure (badge_outcome cfg id s issued))

abbrev source_url : Config → String → String
source_url cfg repo =
    cfg.gitea_resource_url <> ("/api/gitea/source/" <> (repo <> ("/" <> cfg.scan_source_path)))

-- The source is asked for with the token to read and the assertion that it was redeemed for.
unfoldable pub source_request : Config → String → String → String → Request
source_request cfg repo read_token read_assertion = record {
  method = http_get;
  url = source_url cfg repo;
  headers =
      ("Authorization", "Bearer " <> read_token)
      ∷ ("X-AGNTCY-Actor-Token", "Bearer " <> read_assertion)
      ∷ [];
  auth = none;
  body = no_body;
}

abbrev source_result : Fields → Fields → Value
source_result payload file = obj (
    field "repository" (get "repository" file) (
      field "path" (get "path" file) (
        field "bytes" (get "size" file) (
          field "policy" (get "policy" payload)
            (field "source" (get_default "source" (str "") file) end)))))

unfoldable pub source_phase : Config → String → String → String → M (Outcome Value)
source_phase cfg repo read_token read_assertion = do
  let s =
      step "fetch-source"
        ("5e. Fetch " <> (cfg.scan_source_path <> " from Org B through Envoy B + inline OPA"))
        ("GET " <> source_url cfg repo)
  or_stop "" s (do
    r ← request (source_request cfg repo read_token read_assertion)
    if r.status_code == 200
        then (do
          reply ← json r
          payload ← as_dict reply
          file ← dict_at "file" payload
          pure (
              passed (reported "ok" (source_result payload file) s ∷ [])
                (get_default "source" (str "") file)))
        else stop_with (failed (http_failure r) s))

abbrev turn_record : Value → String → String → ℕ → Value
turn_record cve shown repo now = obj (
    field "name" (str "opencode-agent") (
      field "version" (str "0.2.0") (
        field "schema_version" (str oasf_schema_version) (
          field "description" (str ("OpenCode agent turn: " <> (shown <> (" in " <> repo)))) (
            field "authors" (arr (cons (str "cross-domain-demo") nil)) (
              field "created_at" (str (iso now)) (
                field "skills"
                  (arr (
                    cons (entry "cybersecurity/vulnerability_management/dependency_security" 100304)
                      (cons (entry "software_engineering/code_quality/code_review" 60701) nil)))
                  (field "domains" (arr (cons (entry "technology/security" 107) nil)) (
                    field "annotations"
                      (obj (
                        field "cve" cve
                          (field "repo" (str repo) (field "turn" (str "remediation") end))))
                      end)))))))))

-- `_dir_push`
unfoldable pub dir_push : Config → Value → String → M Step
dir_push cfg cve repo = do
  shown ← text_at cve
  let s =
      step "dir-push" "7. Directory: push OpenCode turn record (OASF) → CID"
        ("gRPC Push(" <> (cfg.dir_apiserver_url <> (")  cve=" <> (shown <> ("  repo=" <> repo)))))
  if is_empty cfg.dir_apiserver_url
      then pure (
          reported "ok"
            (obj (field "cid" (str "") (field "note" (str "directory not configured") end))) s)
      else or_fail "" s (do
        now ← time
        cid ← push_record cfg.dir_apiserver_url (turn_record cve shown repo now)
        pure (
            reported "ok"
              (obj (
                field "cid" (str cid) (
                  field "schema_version" (str oasf_schema_version)
                    (field "agent" (str "opencode-agent") end))))
              s))

-- `_dir_search`
unfoldable pub dir_search : Config → M Step
dir_search cfg = do
  let s =
      step "dir-search"
        ("8. Directory: search name=" <> (cfg.triage_client_id <> " → agent record"))
        ("gRPC SearchRecords(" <> (cfg.dir_apiserver_url <> (")  name=" <> cfg.triage_client_id)))
  if is_empty cfg.dir_apiserver_url
      then pure (
          reported "ok"
            (obj (field "found" (bool false) (field "note" (str "directory not configured") end)))
            s)
      else or_fail "" s (do
        records ← search_by_name cfg.dir_apiserver_url cfg.triage_client_id 5
        pure (
            reported "ok"
              (obj (
                field "found" (bool (ltb 0 (length records))) (
                  field "record_name" (get_default "name" (str "") (first_record records))
                    (field "count" (num (length records)) end))))
              s))

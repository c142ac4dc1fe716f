-- ===== src/Triage/Steps.antt =====
-- `_cimd_register`, `_dir_push_turn` and the steps of the Directory, of the badge and of the plan in
-- `receive_ticket` of cross-domain-id-jag-vc/triage-agent/app.py.
use agent_identity_demos.Prelude.{
  ℕ, length, String, ◌<>◌, List, [], ◌∷◌, ◌++◌, if◌then◌else◌, string_eq,
}
use agent_identity_demos.Prelude.Text.{is_empty, take_text}
use agent_identity_demos.Value.{
  Value, Items, Fields, str, num, arr, obj, nil, cons, end, field, get, get_default, or_value,
}
use agent_identity_demos.Effects.{M, pure, lift, ◌>>=◌, as_dict}
use agent_identity_demos.Effects.Values.{text_at, items_of}
use agent_identity_demos.Clock.{iso}
use agent_identity_demos.Client.Vault.{issuer}
use agent_identity_demos.Client.Directory.{search_by_name, oasf_schema_version, entry, first_record}
use agent_identity_demos.Client.Vc.{Grant}
use agent_identity_demos.Step.{Step, step, reported, Outcome}
use agent_identity_demos.Phase.{or_fail}
use agent_identity_demos.Register.{registration, badge_phase, push_turn}
use agent_identity_demos.Credential.{scope_words}
use agent_identity_demos.Triage.Ticket.{Config, TicketRequest}

abbrev generate_step : Config → Step
generate_step cfg =
    step "cimd-generate-id"
      ("t2. Triage registers its identity — generate id for "
        <> (cfg.triage_client_id
            <> (" (Vault-signed proof, "
                <> (cfg.vault_cfg.common_name <> " trust authority) → Identity Node"))))
      ("POST "
        <> (cfg.identity_node_url
            <> ("/v1alpha1/id/generate  iss="
                <> (issuer cfg.vault_cfg <> ("  sub=" <> cfg.triage_client_id)))))

abbrev resolve_step : Config → String → Step
resolve_step cfg cimd_id =
    step "cimd-resolve-id" ("t2b. Resolve id " <> (cimd_id <> " → ResolverMetadata + JWK"))
      ("POST " <> (cfg.identity_node_url <> ("/v1alpha1/id/resolve  id=" <> cimd_id)))

unfoldable pub cimd_register : Config → M (List Step)
cimd_register cfg =
    registration cfg.identity_node_url cfg.vault_cfg cfg.triage_client_id (generate_step cfg)
      (resolve_step cfg)

-- `list(body.act_chain) or [body.delegating_agent]`
abbrev pub chain_or : String → List String → List String
chain_or agent [] = agent ∷ []
chain_or agent (a ∷ chain) = a ∷ chain

abbrev pub parent_chain : TicketRequest → List String
parent_chain body = chain_or body.delegating_agent body.act_chain

-- `parent_chain + [TRIAGE_CLIENT_ID]`
unfoldable pub sub_chain : Config → TicketRequest → List String
sub_chain cfg body = parent_chain body ++ (cfg.triage_client_id ∷ [])

-- What Triage holds is what was granted to it, and what it may delegate is what the policy approved.
abbrev pub grant_of : TicketRequest → String → String → String → Grant
grant_of body id scope scoped_scope = record {
  subject_id = id;
  caps = scope_words scope;
  delegating_user = "sarah@org-a.example";
  intent = body.intent;
  delegatable = scope_words scoped_scope;
}

abbrev own_grant : TicketRequest → Fields → String → String → M Grant
own_grant body claims id scoped_scope = do
  scope ← text_at (or_value (get "scope" claims) (str ""))
  pure (grant_of body id scope scoped_scope)

unfoldable pub publish_phase :
    Config → TicketRequest → Fields → String → String → M (Outcome (Unit {0}))
publish_phase cfg body claims id scoped_scope =
    badge_phase cfg.identity_node_url cfg.vault_cfg
      (step "resolve-badge"
        "t3b. Publish Triage's agent badge VC — org-b Vault-signed, describes what Triage HOLDS"
        ("POST "
          <> (cfg.identity_node_url
              <> ("/v1alpha1/vc/publish  issuer="
                  <> (issuer cfg.vault_cfg <> ("  subject=" <> id))))))
      (own_grant body claims id scoped_scope) (sub_chain cfg body)

unfoldable pub plan_step : Config → TicketRequest → String → Step
plan_step cfg body ticket_id = field "id" (str "plan") (
    field "title" (str "t4. Create ticket, plan remediation, decide sub-agent") (
      field "status" (str "ok") (
        field "result"
          (obj (
            field "ticket_id" (str ticket_id) (
              field "plan" (str ("bump-dependency-" <> body.cve)) (
                field "opencode_plan" (str (take_text 500 body.plan)) (
                  field "sub_agent" (str cfg.sub_agent_client_id)
                    (field "repo" (str body.repo) end))))))
          end)))

abbrev turn_record : TicketRequest → String → ℕ → Value
turn_record body ticket_id now = obj (
    field "name" (str "triage-agent") (
      field "version" (str "0.2.0") (
        field "schema_version" (str oasf_schema_version) (
          field "description"
            (str (
              "Triage agent turn: ticket "
              <> (ticket_id <> (" for " <> (body.cve <> (" in " <> body.repo))))))
            (field "authors" (arr (cons (str "cross-domain-demo") nil)) (
              field "created_at" (str (iso now)) (
                field "skills"
                  (arr (
                    cons (entry "cybersecurity/vulnerability_management/dependency_security" 100304)
                      (cons (entry "software_engineering/code_quality/code_review" 60701) nil)))
                  (field "domains" (arr (cons (entry "technology/security" 107) nil)) (
                    field "annotations"
                      (obj (
                        field "cve" (str body.cve) (
                          field "repo" (str body.repo)
                            (field "ticket" (str ticket_id) (field "turn" (str "triage") end)))))
                      end)))))))))

unfoldable pub dir_push_turn : Config → TicketRequest → String → M Step
dir_push_turn cfg body ticket_id =
    push_turn cfg.dir_apiserver_url "triage-agent" (turn_record body ticket_id) (
      step "dir-push" "t6. Directory: push Triage turn record (OASF) → CID"
        ("gRPC Push(" <> (cfg.dir_apiserver_url <> (")  ticket=" <> ticket_id))))

-- `[sk.get("name", "") for sk in skills]`
unfoldable pub skill_names : Items → M Items
skill_names nil = pure nil
skill_names (cons v vs) = do
  skill ← as_dict v
  names ← skill_names vs
  pure (cons (get_default "name" (str "") skill) names)

unfoldable pub dir_search : Config → M Step
unfolding skill_names
dir_search cfg = do
  let s =
      step "dir-search"
        ("t6b. Directory: search name=" <> (cfg.sub_agent_client_id <> " → agent record"))
        ("gRPC SearchRecords("
          <> (cfg.dir_apiserver_url <> (")  name=" <> cfg.sub_agent_client_id)))
  if is_empty cfg.dir_apiserver_url
      then pure (reported "ok" (obj (field "note" (str "directory not configured") end)) s)
      else or_fail "" s (do
        records ← search_by_name cfg.dir_apiserver_url cfg.sub_agent_client_id 5
        let found = first_record records
        skills ← lift (items_of (or_value (get "skills" found) (arr nil)))
        names ← skill_names skills
        pure (
            reported "ok"
              (obj (
                field "matches" (num (length records)) (
                  field "record_name" (get_default "name" (str "") found) (
                    field "skills" (arr names) (
                      field "note" (str "delegate discovered by name, not by hardcoded endpoint")
                        end)))))
              s))

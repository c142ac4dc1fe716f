-- ===== src/SubAgent/Steps.antt =====
-- `_cimd_register` and `_dir_push_turn` of cross-domain-id-jag-vc/sub-agent/app.py. `_cimd_register`
-- reports two steps, the second only if the first went well.
use agent_identity_demos.Prelude.{ℕ, String, ◌<>◌, List, string_eq}
use agent_identity_demos.Prelude.Text.{join}
use agent_identity_demos.Value.{Value, str, num, arr, obj, nil, cons, end, field}
use agent_identity_demos.Effects.{M}
use agent_identity_demos.Clock.{iso}
use agent_identity_demos.Client.Vault.{issuer}
use agent_identity_demos.Client.Directory.{oasf_schema_version}
use agent_identity_demos.Step.{Step, step}
use agent_identity_demos.Register.{registration, push_turn}
use agent_identity_demos.SubAgent.Badge.{Config, RunRequest}

abbrev generate_step : Config → Step
generate_step cfg =
    step "cimd-generate-id"
      ("s2. Sub-Agent registers its identity — generate id for "
        <> (cfg.sub_agent_client_id
            <> (" (Vault-signed proof, "
                <> (cfg.vault_cfg.common_name <> " trust authority) → Identity Node"))))
      ("POST "
        <> (cfg.identity_node_url
            <> ("/v1alpha1/id/generate  iss="
                <> (issuer cfg.vault_cfg <> ("  sub=" <> cfg.sub_agent_client_id)))))

abbrev resolve_step : Config → String → Step
resolve_step cfg cimd_id =
    step "cimd-resolve-id" ("s2b. Resolve id " <> (cimd_id <> " → ResolverMetadata + JWK"))
      ("POST " <> (cfg.identity_node_url <> ("/v1alpha1/id/resolve  id=" <> cimd_id)))

unfoldable pub cimd_register : Config → M (List Step)
cimd_register cfg =
    registration cfg.identity_node_url cfg.vault_cfg cfg.sub_agent_client_id (generate_step cfg)
      (resolve_step cfg)

abbrev turn_record : RunRequest → Value → Value → ℕ → Value
turn_record body branch pr_url now = obj (
    field "name" (str "sub-agent") (
      field "version" (str "0.2.0") (
        field "schema_version" (str oasf_schema_version) (
          field "description"
            (str (
              "Sub-agent turn: "
              <> (body.intent
                  <> (" on " <> (body.repo <> (" (ticket " <> (body.ticket_id <> ")")))))))
            (field "authors" (arr (cons (str "cross-domain-demo") nil)) (
              field "created_at" (str (iso now)) (
                field "skills"
                  (arr (
                    cons
                      (obj (
                        field "name" (str "software_engineering/code_quality/code_review")
                          (field "id" (num 60701) end)))
                      nil))
                  (field "domains"
                    (arr (
                      cons
                        (obj (field "name" (str "technology/security") (field "id" (num 107) end)))
                        nil))
                    (field "annotations"
                      (obj (
                        field "repo" (str body.repo) (
                          field "ticket" (str body.ticket_id) (
                            field "branch" branch (
                              field "pull_request" pr_url (
                                field "act_chain" (str (join " → " body.act_chain))
                                  (field "turn" (str "sub-agent") end)))))))
                      end)))))))))

unfoldable pub dir_push_turn : Config → RunRequest → Value → Value → M Step
dir_push_turn cfg body branch pr_url =
    push_turn cfg.dir_apiserver_url "sub-agent" (turn_record body branch pr_url) (
      step "dir-push" "s6. Directory: push Sub-Agent turn record (OASF) → CID"
        ("gRPC Push(" <> (cfg.dir_apiserver_url <> (")  ticket=" <> body.ticket_id))))

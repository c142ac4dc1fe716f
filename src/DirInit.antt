-- ===== src/DirInit.antt =====
-- cross-domain-id-jag-vc/agent-dir-init/init.py: the script that pushes the static records of the
-- agents to the Directory. What it prints is left out. `Ready` is about the whole script.
pub mod Ready
pub mod Tests
use agent_identity_demos.Prelude.{
  ℕ, zero, suc, String, Bool, true, false, List, [], ◌∷◌, if◌then◌else◌,
}
use agent_identity_demos.Value.{Fields, Items, Value, str, obj, arr, nil, cons, end, field, strs}
use agent_identity_demos.Effects.{
  Ping, served, unavailable, refused, broken, foreign, World, History, M, ok, pure, raise, ◌>>=◌,
  sleep, pinged, pushed_all,
}
use agent_identity_demos.Environ.{Environ, get_env}
use agent_identity_demos.Client.Directory.{entry, oasf_schema_version}
use agent_identity_demos.Poll.{poll}

unfoldable pub dir_url : Environ → String
unfolding get_env
dir_url env = get_env env "DIR_APISERVER_URL" "dir-apiserver:8888"

abbrev agent_record : String → String → Items → Items → List String → Fields → String → Value
agent_record name description skills domains urls annotations created_at = obj (
    field "name" (str name) (
      field "version" (str "0.1.0") (
        field "schema_version" (str oasf_schema_version) (
          field "description" (str description) (
            field "authors" (arr (cons (str "cross-domain-demo") nil)) (
              field "created_at" (str created_at) (
                field "skills" (arr skills) (
                  field "domains" (arr domains) (
                    field "locators"
                      (arr (
                        cons (obj (field "type" (str "url") (field "urls" (arr (strs urls)) end)))
                          nil))
                      (field "annotations" (obj annotations) end))))))))))

abbrev annotations_of : String → String → Fields → Fields
annotations_of org client_id more =
    field "org" (str org)
      (field "cross_domain" (str "true") (field "client_id" (str client_id) more))

-- `AGENTS`
unfoldable pub agents : String → List Value
agents created_at =
    agent_record "opencode-agent"
      "Org A AI coding agent - scans repos for CVEs, delegates remediation cross-domain via ID-JAG"
      (cons (entry "cybersecurity/vulnerability_management/dependency_security" 100304)
        (cons (entry "software_engineering/code_quality/code_review" 60701) nil))
      (cons (entry "technology/security" 107)
        (cons (entry "technology/software_engineering" 102) nil))
      ("http://opencode-agent:8100" ∷ []) (annotations_of "org-a" "opencode-agent" end) created_at
    ∷ agent_record "triage-agent"
        "Org B AI remediation agent - creates tickets, plans fixes, spawns sub-agents"
        (cons
          (entry "research_knowledge_productivity/project_task_management/issue_tracking" 130801)
          (cons (entry "software_engineering/code_quality/code_review" 60701) nil))
        (cons (entry "technology/security" 107) nil)
        ("http://triage-agent:8200" ∷ "http://triage-agent:8200/.well-known/agent.json" ∷ [])
        (annotations_of "org-b" "triage-agent" end) created_at
    ∷ agent_record "sub-agent"
        "Org B sub-agent - bounded privilege, creates PRs in Gitea (gitea:write gitea:pr only)"
        (cons (entry "software_engineering/version_control/pull_request_management" 61003)
          (cons (entry "software_engineering/version_control/commit_authoring" 61002) nil))
        (cons (entry "technology/security" 107) nil) ("http://sub-agent:8300" ∷ [])
        (annotations_of "org-b" "sub-agent" (field "bounded_privilege" (str "true") end)) created_at
    ∷ []

-- Ready is a Directory that answers, if only with an error other than UNAVAILABLE.
abbrev pub is_ready : Ping → Bool
is_ready served = true
is_ready unavailable = false
is_ready refused = true
is_ready broken = false

unfoldable pub ping : String → M Bool
ping url w h = (ok (is_ready (w.dir_ping h url)), pinged url ∷ h)

-- The last attempt has no pause behind it.
unfoldable pub pause : ℕ → ℕ → M (Unit {0})
pause interval zero = pure tt
pause interval (suc left) = sleep interval

unfoldable pub wait_for_directory : String → ℕ → ℕ → M Bool
unfolding ping pause
wait_for_directory url max_tries interval = poll max_tries (ping url) (pause interval)

unfoldable pub push_agents : String → String → M (List String)
unfolding agents
push_agents url created_at w h =
    (w.dir_push_all h url (agents created_at), pushed_all url (agents created_at) ∷ h)

unfoldable pub pushed_if : Bool → String → String → M (List String)
unfolding push_agents
pushed_if true url created_at = push_agents url created_at
pushed_if false url created_at = raise (foreign "SystemExit")

-- The script: it exits where the Directory did not become ready.
unfoldable pub main : String → String → M (List String)
unfolding pushed_if
main url created_at = wait_for_directory url 30 3 >>= λ ready. pushed_if ready url created_at

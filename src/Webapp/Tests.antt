-- ===== src/Webapp/Tests.antt =====
-- Runs of cross-domain-id-jag-vc/webapp/app.py.
use agent_identity_demos.Prelude.{none, ◌≡◌, refl, [], if◌then◌else◌, ◌==◌, string_eq}
use agent_identity_demos.Value.{
  null, Value, Items, Fields, str, num, bool, arr, obj, nil, cons, end, field,
}
use agent_identity_demos.Effects.{Result, ok, World, History, Request, requests, sent}
use agent_identity_demos.Effects.Invert.{Returns}
use agent_identity_demos.Webapp.Config.{Config, config_of}
use agent_identity_demos.Webapp.Keys.{all_keys, transit_request}
use agent_identity_demos.Webapp.Agents.{registered_agents}
use agent_identity_demos.Webapp.Listed
use agent_identity_demos.Webapp.Shown
use agent_identity_demos.Fixtures.{world_of, vault_config, answer}

-- One key of Vault's, of one version, and no other.
abbrev key_answer : Value
key_answer = obj (
    field "data"
      (obj (
        field "latest_version" (num 1) (
          field "keys"
            (obj (field "1" (obj (field "creation_time" (str "2026-01-01T00:00:00Z") end)) end))
            end)))
      end)

abbrev vault_world : World
vault_world = record (world_of (answer 404 (obj end)) end) {
  send = λ h q.
      if q.url == (transit_request vault_config "keys/org-a-issuer").url
      then ok (answer 200 key_answer)
      else ok (answer 404 (obj end));
  repr = λ v. "1";
}

abbrev names : Items
names = cons (str "org-a-issuer") (cons (str "gone") nil)

abbrev listed : Result Items × History
listed = all_keys vault_config names vault_world []

-- Vault shows the first key only.
abbrev keys : Items
keys =
    cons
      (obj (
        field "name" (str "org-a-issuer") (
          field "type" null (
            field "latest_version" (num 1) (
              field "version_count" (num 1) (
                field "created" (str "2026-01-01T00:00:00Z") (
                  field "exportable" null
                    (field "deletion_allowed" null (field "supports_signing" null end)))))))))
      nil

lists : Returns (all_keys vault_config names) vault_world [] keys listed.1
unfolding all_keys agent_identity_demos.Effects.◌>>=◌ agent_identity_demos.Effects.request string_eq
    agent_identity_demos.Client.Vault.raise_for_status agent_identity_demos.Effects.require
    agent_identity_demos.Effects.json agent_identity_demos.Effects.as_dict
    agent_identity_demos.Value.get_default agent_identity_demos.Effects.Values.list_of
lists = record { returns = refl }

all_keys-Lists_example : Shown.Lists vault_config vault_world [] names keys
all_keys-Lists_example = Shown.all_keys-Lists vault_config vault_world names keys [] listed.1 lists

abbrev cfg : Config
cfg = config_of (λ name. none)

registered_agents-Describes_example :
    (opencode : Fields) × (triage : Fields) × (sub : Fields) × (h' : History) × (registered_agents
        cfg vault_world []
      ≡ (
        ok (
            obj (
              field "identity_node_url" (str cfg.identity_node_url) (
                field "agents"
                  (arr (cons (obj opencode) (cons (obj triage) (cons (obj sub) nil))))
                  end))),
        h',
      ))
    × Listed.Describes ("OpenCode Agent", cfg.opencode_client_id, "org-a") opencode
    × Listed.Describes ("Triage Agent", cfg.triage_client_id, "org-b") triage
    × Listed.Describes ("Sub-Agent", cfg.sub_agent_client_id, "org-b") sub
registered_agents-Describes_example = Listed.registered_agents-Describes cfg vault_world []

-- ===== src/Webapp/Listed.antt =====
-- What `registered_agents` and `vault_keys` of cross-domain-id-jag-vc/webapp/app.py list.
use agent_identity_demos.Prelude.{true, ◌≡◌, refl, Option, none, some, string_eq}
use agent_identity_demos.Value.{
  Value, Fields, str, bool, arr, obj, nil, cons, end, field, get, get_default, set_item,
}
use agent_identity_demos.Effects.{ok, World, History, M, catch, pure, ◌>>=◌}
use agent_identity_demos.Effects.Total.{Always, Always-pure, Always-catch, Always-bind}
use agent_identity_demos.Webapp.Config.{Config}
use agent_identity_demos.Webapp.Agents.{
  Agent, with_method, with_kid, with_credential, unresolved, agent_entry, entries_of,
  registered_agents, cimd_id_of,
}

-- The entry names the agent, its client, its organisation and its identifier.
abbrev pub Describes : Agent → Fields → Type 0
Describes (name, client_id, org) entry =
    (get "name" entry ≡ str name)
    × (get "client_id" entry ≡ str client_id)
    × (get "org" entry ≡ str org)
    × (get "holder_id" entry ≡ str (cimd_id_of client_id))

module _ (cfg : Config) (w : World) where
  -- An entry whose verification method was read, whatever the key in it is.
  abbrev resolved : Agent → Fields → Fields
  resolved a vm =
      set_item "verification_method_id" (get_default "id" (str "") vm)
        (set_item "resolved" (bool true) (unresolved cfg a))

  with_kid-Describes :
      (a : Agent) (vm : Fields) (key : Value) (credential : Option Value)
      → Describes a (with_credential credential (with_kid key (resolved a vm)))
  unfolding get_default set_item string_eq
  with_kid-Describes a vm (obj jwk) none = (refl, refl, refl, refl)
  with_kid-Describes a vm (obj jwk) (some v) = (refl, refl, refl, refl)
  with_kid-Describes a vm _ none = (refl, refl, refl, refl)
  with_kid-Describes a vm _ (some v) = (refl, refl, refl, refl)

  with_method-Describes :
      (a : Agent) (vm credential : Option Value)
      → Describes a (with_credential credential (with_method vm (unresolved cfg a)))
  unfolding with_method get_default set_item string_eq
  with_method-Describes a none none = (refl, refl, refl, refl)
  with_method-Describes a none (some v) = (refl, refl, refl, refl)
  with_method-Describes a (some (obj vm)) credential = with_kid-Describes a vm _ credential
  with_method-Describes a (some _) none = (refl, refl, refl, refl)
  with_method-Describes a (some _) (some v) = (refl, refl, refl, refl)

  Always-try : {A : Type 0} (m : M (Option A)) → Always (λ r. Unit {0}) (catch m (λ e. pure none)) w
  Always-try m = Always-catch _ _ (record { holds = λ q. tt }) (λ e. Always-pure none tt)

  agent_entry-Always : (a : Agent) → Always (Describes a) (agent_entry cfg a) w
  unfolding agent_entry
  agent_entry-Always a = Always-bind _ _ (Always-try _) (λ vm _.
      Always-bind _ _ (Always-try _)
        (λ credential _. Always-pure _ (with_method-Describes a vm credential)))

  -- Whatever the Identity Node answers, the list has the three agents of the demo, in their order, each
  -- with its name, its client, its organisation and its identifier.
  pub registered_agents-Describes :
      (h : History)
      → (opencode : Fields) × (triage : Fields) × (sub : Fields) × (h' : History)
        × (registered_agents cfg w h ≡ (
          ok (
              obj (
                field "identity_node_url" (str cfg.identity_node_url) (
                  field "agents"
                    (arr (cons (obj opencode) (cons (obj triage) (cons (obj sub) nil))))
                    end))),
          h',
        ))
        × Describes ("OpenCode Agent", cfg.opencode_client_id, "org-a") opencode
        × Describes ("Triage Agent", cfg.triage_client_id, "org-b") triage
        × Describes ("Sub-Agent", cfg.sub_agent_client_id, "org-b") sub
  unfolding registered_agents entries_of ◌>>=◌
  registered_agents-Describes h =
      let (a, h1, p, da) =
        (agent_entry-Always ("OpenCode Agent", cfg.opencode_client_id, "org-a")).always h in
      let (b, h2, q, db) =
        (agent_entry-Always ("Triage Agent", cfg.triage_client_id, "org-b")).always h1 in
      let (c, h3, r, dc) =
        (agent_entry-Always ("Sub-Agent", cfg.sub_agent_client_id, "org-b")).always h2 in
      (a, b, c, h3, rw (p, q, r), da, db, dc)

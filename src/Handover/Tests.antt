-- ===== src/Handover/Tests.antt =====
-- Triage and the sub-agent of cross-domain-id-jag-vc, together.
use agent_identity_demos.Handover.{World, subset}
use agent_identity_demos.Prelude.{
  String, ◌<>◌, ◌≡◌, refl, true, false, subset, string_eq, List, [], ◌∷◌,
}
use agent_identity_demos.Value.{Fields, str, obj, arr, nil, cons, end, field, strs}
use agent_identity_demos.Client.Vc.{subject_of}
use agent_identity_demos.Credential.{scope_words}
use agent_identity_demos.SubAgent.Badge.{is_empty_list, allowed_scopes}
use agent_identity_demos.SubAgent.Sender.{parent_id}
use agent_identity_demos.SubAgent.Accepts.{Permits}
use agent_identity_demos.SubAgent.Agrees.{Delegates}
use agent_identity_demos.Triage.Ticket.{Config, TicketRequest}
use agent_identity_demos.Triage.Steps.{grant_of, sub_chain}
use agent_identity_demos.Triage.Delegate.{Approved, spawn_payload, scope_request}
use agent_identity_demos.Handover
use agent_identity_demos.Fixtures.{world_of, answer, vault_config, sub_agent_config}

abbrev cfg : Config
cfg = record {
  kc_a_issuer = "http://kc-a/realms/org-a";
  kc_b_issuer = "http://kc-b/realms/org-b";
  triage_client_id = "triage-agent";
  triage_client_secret = "secret";
  sub_agent_client_id = "sub-agent";
  identity_node_url = "http://node";
  dir_apiserver_url = "";
  sub_agent_url = "http://sub-agent";
  subbadge_pdp_url = "http://envoy";
  vault_cfg = vault_config;
}

abbrev ticket : TicketRequest
ticket = record {
  cve = "CVE-2024-1";
  severity = "HIGH";
  repo = "demo-admin/payments";
  intent = "create-pr-fix";
  delegating_agent = "opencode-agent";
  act_chain = "opencode-agent" ∷ [];
  plan = "";
}

abbrev approval : Approved
approval = record { scope = scope_request; resource = "demo-admin/payments" }

abbrev act : Fields
act = field "act_chain" (arr (strs ("opencode-agent" ∷ "triage-agent" ∷ []))) end

abbrev claims : Fields
claims = field "client_id" (str "sub-agent") (
    field "act" (obj act) (
      field "scope" (str scope_request) (
        field "resource" (arr (cons (str "demo-admin/payments") nil))
          (field "intent" (arr (cons (str "create-pr-fix") nil)) end))))

minted : Handover.Minted cfg ticket approval claims
unfolding agent_identity_demos.Value.get_default agent_identity_demos.Prelude.string_eq sub_chain
minted = (refl, (act, refl, refl), refl, refl, refl)

some_scope : is_empty_list (scope_words scope_request) ≡ false
unfolding scope_words agent_identity_demos.Prelude.nat_eq
some_scope = refl

within : subset (scope_words scope_request) allowed_scopes ≡ true
unfolding subset scope_words agent_identity_demos.Prelude.nat_eq
    agent_identity_demos.Prelude.contains string_eq
within = refl

abbrev world : World
world = world_of (answer 200 (obj end)) claims

spawned-accepted_example :
    Handover.Reads
      (spawn_payload cfg ticket "TRIAGE-1" "h.p.s")
      (Handover.spawned cfg ticket "TRIAGE-1" "h.p.s")
    × Permits sub_agent_config (Handover.spawned cfg ticket "TRIAGE-1" "h.p.s") claims
    × ((subject : Fields) × (subject_of
            (grant_of ticket "AGNTCY-triage-agent" "openid" scope_request)
            (sub_chain cfg ticket)
          ≡ obj subject)
        × Delegates world (Handover.spawned cfg ticket "TRIAGE-1" "h.p.s") claims subject)
    × (parent_id (Handover.spawned cfg ticket "TRIAGE-1" "h.p.s").act_chain
        ≡ "AGNTCY-" <> "triage-agent")
spawned-accepted_example =
    Handover.spawned-accepted cfg ticket approval "TRIAGE-1" "h.p.s" sub_agent_config world
      "AGNTCY-triage-agent" "openid" claims refl minted some_scope within refl

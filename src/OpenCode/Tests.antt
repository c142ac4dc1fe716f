-- ===== src/OpenCode/Tests.antt =====
-- Runs of cross-domain-id-jag-vc/opencode-agent/app.py.
use agent_identity_demos.Prelude.{
  nat_eq, string_eq, ℕ, ◌+◌, ◌≤◌, String, ◌≡◌, refl, true, false, some, none, List, [], ◌∷◌, ◌++◌,
  length, inl, inr,
}
use agent_identity_demos.Value.{
  field, obj, Fields, strs, get_default, Value, str, end, get, num, truthy,
}
use agent_identity_demos.Effects.{
  json, as_dict, request, require, ◌>>=◌, attribute_error, ok, err, World, History, Result,
  Response,
}
use agent_identity_demos.Effects.Invert.{Returns}
use agent_identity_demos.Effects.Total.{Always}
use agent_identity_demos.Step.{Step, Outcome, passed}
use agent_identity_demos.Exchange.Passed.{Granted, Allowed}
use agent_identity_demos.Client.Vc.{Issued, issue_badge}
use agent_identity_demos.Phase.{◌>=>◌, or_fail, or_stop}
use agent_identity_demos.Register
use agent_identity_demos.Exchange
use agent_identity_demos.Client.Vault
use agent_identity_demos.Client.Cimd
use agent_identity_demos.Client.Vc
use agent_identity_demos.Step.{dict_at, decode_unverified}
use agent_identity_demos.Base64.{b64decode, pad_segment}
use agent_identity_demos.Effects.{time, uuid4}
use agent_identity_demos.Effects.Values.{subscript, items_of, list_of}
use agent_identity_demos.Value.{set_item}
use agent_identity_demos.OpenCode.Config.{Config}
use agent_identity_demos.OpenCode.Finding
use agent_identity_demos.OpenCode.Model
use agent_identity_demos.OpenCode.Scan
use agent_identity_demos.OpenCode.Tokens
use agent_identity_demos.OpenCode.Steps
use agent_identity_demos.OpenCode.Ticket
use agent_identity_demos.OpenCode.Run
use agent_identity_demos.OpenCode.Stream
use agent_identity_demos.OpenCode.Stream.Bounded
use agent_identity_demos.OpenCode.Stream.Relayed
use agent_identity_demos.OpenCode.Returns
use agent_identity_demos.OpenCode.Found
use agent_identity_demos.OpenCode.Order
use agent_identity_demos.Fixtures.{world_of, answer, everything, vault_config, key_cached}

abbrev cfg : Config
cfg = record {
  kc_a_token_ep = "http://kc-a/token";
  kc_b_token_ep = "http://kc-b/token";
  kc_b_issuer = "http://kc-b/realms/org-b";
  opencode_client_id = "opencode-agent";
  opencode_client_secret = "secret";
  triage_client_id = "triage-agent";
  triage_client_secret = "secret";
  sarah_user = "sarah";
  sarah_password = "pw";
  sarah_email = "sarah@org-a.example";
  identity_node_url = "http://node";
  egress_pdp_url = "http://egress";
  triage_agent_url = "http://triage";
  dir_apiserver_url = "";
  scan_repo = "demo-admin/payments";
  gitea_resource_url = "http://gateway";
  scan_source_path = "A.java";
  opencode_server_url = "http://opencode";
  opencode_model = "ollama/qwen";
  llm_base_url = "http://llm";
  llm_api_key = "";
  vault_cfg = vault_config;
}

abbrev world : World
world = world_of (answer 200 everything) end

-- A finding in the reply of the model, as JSON and as the number of a weakness.
braced_text : Finding.braced "so: {\"id\":\"CWE-89\"} ok" ≡ some "{\"id\":\"CWE-89\"}"
unfolding Finding.braced agent_identity_demos.Prelude.nat_eq
braced_text = refl

cwe_text : Finding.cwe_number "this is cwe 79, an injection" ≡ "79"
unfolding Finding.cwe_number agent_identity_demos.Prelude.nat_eq
cwe_text = refl

opencode_plan-Good_example :
    Always Returns.Good
      (Model.opencode_plan cfg (str "CVE-2024-1") "demo-admin/payments" "scan" true)
      world
opencode_plan-Good_example =
    Returns.opencode_plan-Good cfg world (str "CVE-2024-1") "demo-admin/payments" "scan" true
      (inl refl)

opencode_scan-Identified_example :
    Always Found.Identified
      (Scan.opencode_scan cfg "demo-admin/payments" "class A {}" "scan" true)
      world
opencode_scan-Identified_example =
    Found.opencode_scan-Identified cfg world "demo-admin/payments" "class A {}" "scan" true refl

has_number : Scan.has_finding (Finding.parse_finding world "A.java" "CWE-89: injection") ≡ true
unfolding Finding.parse_finding agent_identity_demos.Prelude.nat_eq
has_number = refl

parse_finding-id_example :
    truthy (get "id" (Finding.parse_finding world "A.java" "CWE-89: injection")) ≡ true
parse_finding-id_example = Found.parse_finding-id world "A.java" "CWE-89: injection" has_number

-- A stream whose one event is a piece of text.
abbrev said : Fields
said =
    field "type" (str "message.part.delta")
      (field "properties" (obj (field "field" (str "text") (field "delta" (str "patch") end))) end)

abbrev saying_world : World
saying_world = record world { loads = λ bytes. some (obj said) }

carries : Relayed.Carries saying_world (": ping" ∷ "data: {}" ∷ []) (str "patch" ∷ [])
unfolding agent_identity_demos.Prelude.Text.starts_with agent_identity_demos.Prelude.nat_eq
    get_default string_eq
carries =
    Relayed.blank refl
      (Relayed.delta (refl, said, refl, refl, _, _, _, refl, refl, refl) Relayed.over)

plan_events-Carries_example :
    Stream.plan_events saying_world (": ping" ∷ "data: {}" ∷ []) none
    ≡ Stream.retry ∷ Relayed.delta_frames (str "patch" ∷ [])
plan_events-Carries_example =
    Relayed.plan_events-Carries saying_world (": ping" ∷ "data: {}" ∷ []) (str "patch" ∷ []) carries

-- A stream whose events are no dicts.
abbrev odd_world : World
odd_world = record world { loads = λ bytes. some (num 1) }

odd_line : Stream.line_frame odd_world "data: 1" ≡ err (attribute_error "get")
unfolding Stream.line_frame agent_identity_demos.Prelude.nat_eq
odd_line = refl

plan_events-failed_example :
    Stream.plan_events odd_world (": ping" ∷ "data: 1" ∷ "data: 2" ∷ []) none
    ≡ Stream.plan_events odd_world (": ping" ∷ "data: 1" ∷ []) none
plan_events-failed_example =
    Bounded.plan_events-failed odd_world (": ping" ∷ []) ("data: 2" ∷ []) "data: 1" none
      (attribute_error "get") odd_line

abbrev source_read : Result (Outcome Value) × History
source_read = Run.read_source cfg "demo-admin/payments" "t" "b" world []

abbrev steps_of : {A : Type 0} → Result (Outcome A) → List Step
steps_of (ok (passed steps a)) = steps
steps_of _ = []

source_passes :
    Returns
      (Run.read_source cfg "demo-admin/payments" "t" "b")
      world
      []
      (passed (steps_of source_read.0) (str ""))
      source_read.1
unfolding Run.read_source Tokens.read_mint_phase Tokens.read_egress_phase Tokens.read_redeem_phase
    Steps.source_phase Exchange.token_phase ◌>=>◌ ◌>>=◌ or_stop nat_eq request json as_dict
    subscript get_default string_eq decode_unverified dict_at
source_passes = record { returns = refl }

read_source-passed_example :
    (assertion : String) × (token : String) × Granted world
      (Tokens.read_mint_request cfg "demo-admin/payments" "t" "b")
      assertion
    × Allowed world (Tokens.egress_request cfg assertion)
    × Granted world (Tokens.read_redeem_request cfg assertion) token
    × Order.Answers world (Steps.source_request cfg "demo-admin/payments" token assertion) (str "")
read_source-passed_example =
    Order.read_source-passed cfg world "demo-admin/payments" "t" "b" [] source_read.1
      (steps_of source_read.0) (str "") source_passes

abbrev whole : Result (Outcome Ticket.Delegated) × History
whole = Run.task cfg "demo-admin/payments" "CVE-2024-1" false world key_cached

abbrev delegated : Ticket.Delegated
delegated = record {
  assertion = "a.e30.s";
  triage_token = "a.e30.s";
  cve = str "CVE-2024-1";
  plan =
      str
        "[MOCKED — real OpenCode call skipped by request]\n- Affected dependency: example-lib (illustrative — not a real scan)\n- Fix: bump to latest patched version\n- Branch: fix/cve-2024-1\n- PR title: Security: remediate CVE-2024-1 in demo-admin/payments\n- Sub-agent: bump the dependency version and open the PR";
}

task_passes :
    Returns
      (Run.task cfg "demo-admin/payments" "CVE-2024-1" false)
      world
      key_cached
      (passed (steps_of whole.0) delegated)
      whole.1
unfolding Run.task Tokens.login_phase Exchange.token_phase Steps.identity_phase Steps.cimd_generate
    Steps.cimd_resolve Tokens.scope_phase Tokens.scoped_intent_of Steps.badge_phase Steps.own_grant
    Run.read_source Tokens.read_mint_phase Tokens.read_egress_phase Tokens.read_redeem_phase
    Steps.source_phase dict_at Run.analysis Scan.opencode_scan Model.opencode_plan Steps.dir_push
    Steps.dir_search Run.cross_domain Tokens.exchange_phase Tokens.mint_phase Tokens.egress_phase
    Tokens.redeem_phase ◌>=>◌ ◌>>=◌ or_stop or_fail require get_default string_eq nat_eq as_dict
    strs Register.resolve Cimd.generate_id Cimd.resolve_id Vault.build_proof_jwt
    Vault.get_issuer_jwk Vault.find_cached subscript time uuid4 Vault.sign_segments
    Vault.vault_sign_rs256 Vault.raise_for_status request json Vault.signature_text Vault.b64_bytes
    b64decode set_item Vc.issue_badge Vc.find_live_badge Vc.well_known_badges items_of Vc.find_in
    Vc.is_live Vc.decode_segment pad_segment Vc.still_valid Vc.subject_matches
    Vc.build_badge_credential Vc.sign_credential Vc.publish_badge Vc.verify_badge decode_unverified
    list_of
task_passes = record { returns = refl }

task-passed_example :
    (sarah_token : String) × (intent : String) × (badge : String) × (exchanged : String) × Granted
      world
      (Tokens.login_request cfg)
      sarah_token
    × ((h1 : History) × (r : Response) × (world.send h1
            (Tokens.scope_check_request cfg "demo-admin/payments" sarah_token)
          ≡ ok r)
        × (r.status_code ≡ 200)
        × (intent ≡ Tokens.scoped_intent_of "demo-admin/payments" r))
    × ((id : String) × (issued : Issued) × (h1 : History) × (h2 : History) × Returns
          (issue_badge cfg.identity_node_url cfg.vault_cfg
            (Steps.own_grant cfg id intent)
            (cfg.opencode_client_id ∷ [])
            3600)
          world
          h1
          issued
          h2
        × (issued.verified ≡ true)
        × (issued.badge ≡ badge))
    × Granted world (Tokens.exchange_request cfg sarah_token badge) exchanged
    × Granted world (Tokens.mint_request cfg exchanged badge) "a.e30.s"
    × Allowed world (Tokens.egress_request cfg "a.e30.s")
    × Granted world (Tokens.redeem_request cfg "a.e30.s") "a.e30.s"
task-passed_example =
    Order.task-passed cfg world "demo-admin/payments" "CVE-2024-1" false key_cached whole.1
      (steps_of whole.0) delegated task_passes

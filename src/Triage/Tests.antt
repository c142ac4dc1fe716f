-- ===== src/Triage/Tests.antt =====
-- Runs of cross-domain-id-jag-vc/triage-agent/app.py.
use agent_identity_demos.Triage.Ticket.{verify_idjag, TicketRequest}
use agent_identity_demos.Prelude.{String, ◌≡◌, refl, [], ◌∷◌, contains, string_eq, nat_eq}
use agent_identity_demos.Prelude.Text.{split}
use agent_identity_demos.Value.{
  Fields, str, arr, obj, end, field, strs, get_default, items_eq_strs, items_contain,
}
use agent_identity_demos.Effects.{
  value_error, World, ok, fetched_key, ◌>>=◌, signing_key, jwt_decode, require, as_dict,
}
use agent_identity_demos.Effects.Once.{AtMost}
use agent_identity_demos.Effects.Values.{value_contains}
use agent_identity_demos.Effects.Invert.{Returns}
use agent_identity_demos.Phase.{◌>=>◌, or_fail, or_stop}
use agent_identity_demos.Register
use agent_identity_demos.Client.Vault
use agent_identity_demos.Client.Cimd
use agent_identity_demos.Client.Vc
use agent_identity_demos.Credential.{scope_words, texts, find_document}
use agent_identity_demos.Step.{Step, Outcome, passed, decode_unverified}
use agent_identity_demos.Base64.{b64decode, pad_segment}
use agent_identity_demos.Effects.{
  Exn, http_exception, Result, err, History, Response, request, json, time, uuid4,
}
use agent_identity_demos.Effects.Values.{subscript, items_of, list_of}
use agent_identity_demos.Value.{Value, num, set_item}
use agent_identity_demos.Prelude.{none, some, false, List, subset}
use agent_identity_demos.Triage.Sender
use agent_identity_demos.Triage.Steps
use agent_identity_demos.Triage.Delegate
use agent_identity_demos.Triage.Receive
use agent_identity_demos.Triage.Agrees
use agent_identity_demos.Triage.Order
use agent_identity_demos.Triage.Contained
use agent_identity_demos.Effects.Sends.{Each}
use agent_identity_demos.Fixtures.{everything, key_cached}
use agent_identity_demos.Triage.Ticket
use agent_identity_demos.Triage.Accepts
use agent_identity_demos.Fixtures.{world_of, answer, vault_config}

abbrev cfg : Ticket.Config
cfg = record {
  kc_a_issuer = "http://kc-a/realms/org-a";
  kc_b_issuer = "http://kc-b/realms/org-b";
  triage_client_id = "triage-agent";
  triage_client_secret = "secret";
  sub_agent_client_id = "sub-agent";
  identity_node_url = "http://node";
  dir_apiserver_url = "";
  sub_agent_url = "http://sub-agent";
  subbadge_pdp_url = "http://envoy";
  vault_cfg = vault_config;
}

abbrev ticket : Ticket.TicketRequest
ticket = record {
  cve = "CVE-2024-1";
  severity = "HIGH";
  repo = "demo-admin/payments";
  intent = "create-pr-fix";
  delegating_agent = "opencode-agent";
  act_chain = "opencode-agent" ∷ [];
  plan = "";
}

abbrev claims : Fields
claims = field "sub" (str "sarah@org-a.example") (
    field "act" (obj (field "act_chain" (arr (strs ("opencode-agent" ∷ []))) end)) (
      field "intent" (arr (strs ("create-pr-fix" ∷ [])))
        (field "scope" (str "openid triage:create") end)))

abbrev world : World
world = world_of (answer 200 (obj end)) claims

abbrev jwks : String
jwks = "http://kc-a/realms/org-a/protocol/openid-connect/certs"

verified :
    Returns (Ticket.verify_idjag cfg "h.p.s" ticket) world [] claims (fetched_key jwks "h.p.s" ∷ [])
unfolding Ticket.verify_idjag Ticket.check_ticket ◌>>=◌ signing_key jwt_decode require as_dict
    get_default string_eq nat_eq strs items_eq_strs value_contains items_contain contains split
verified = record { returns = refl }

verify_idjag-Grants_example :
    (key : String) × (world.signing_key [] jwks "h.p.s" ≡ ok key)
    × (world.jwt_decode (fetched_key jwks "h.p.s" ∷ []) "h.p.s" key (Ticket.idjag_options cfg)
        ≡ ok claims)
    × Accepts.Grants ticket claims
verify_idjag-Grants_example =
    Accepts.verify_idjag-Grants ticket world cfg "h.p.s" claims [] (fetched_key jwks "h.p.s" ∷ [])
      verified

grants : Accepts.Grants ticket claims
unfolding get_default string_eq nat_eq strs contains split value_contains items_contain
grants = (
  refl,
  (field "act_chain" (arr (strs ("opencode-agent" ∷ []))) end, refl, refl),
  refl,
  ("openid triage:create", refl, refl),
)

Grants-verify_idjag_example :
    Ticket.verify_idjag cfg "h.p.s" ticket world [] ≡ (ok claims, fetched_key jwks "h.p.s" ∷ [])
Grants-verify_idjag_example =
    Accepts.Grants-verify_idjag ticket world cfg "h.p.s" "key" claims [] refl refl grants

-- A request that has not come through Envoy.
abbrev direct : Receive.TicketHeaders
direct = record {
  authorization = some "Bearer t";
  actor_token = none;
  policy_decision = none;
  policy_rule = none;
  policy_enforcer = none;
  delegation_depth = none;
}

abbrev forbidden : Exn
forbidden = http_exception 403 (str "ticket requests must pass the Org B Envoy policy gateway")

is_refused : Order.refusal_of direct ≡ some forbidden
unfolding Receive.bearer nat_eq
is_refused = refl

receive_ticket-refused_example :
    Receive.receive_ticket cfg direct ticket world [] ≡ (err forbidden, [])
receive_ticket-refused_example =
    Order.receive_ticket-refused cfg direct ticket world [] forbidden is_refused

-- One that has, but brings no assertion.
abbrev allowed : Receive.TicketHeaders
allowed = record direct { policy_decision = some "ALLOW"; delegation_depth = some "1" }

-- One that brings an assertion too, which is for another intent.
abbrev bearing : Receive.TicketHeaders
bearing = record allowed { actor_token = some "Bearer h.p.s" }

abbrev other_ticket : Ticket.TicketRequest
other_ticket = record ticket { intent = "drop-tables" }

abbrev refusal : Exn
refusal = value_error "ticket intent not present in signed ID-JAG intent"

unverified :
    Ticket.verify_idjag cfg "h.p.s" other_ticket world []
    ≡ (err refusal, fetched_key jwks "h.p.s" ∷ [])
unfolding Ticket.verify_idjag Ticket.check_ticket ◌>>=◌ signing_key jwt_decode require as_dict
    get_default string_eq nat_eq strs items_eq_strs value_contains items_contain contains split
unverified = refl

is_bearing : Receive.bearer bearing.actor_token ≡ some "h.p.s"
unfolding Receive.bearer nat_eq
is_bearing = refl

has_token : Receive.bearer bearing.authorization ≡ some "t"
unfolding Receive.bearer nat_eq
has_token = refl

one_hop : Receive.depth_of bearing.delegation_depth ≡ ok (num 1)
unfolding Receive.depth_of nat_eq
one_hop = refl

receive_ticket-unverified_example :
    (Receive.receive_ticket cfg bearing other_ticket world [] ≡ (
      ok (
          Receive.ticket_reply false "" (
            Receive.ingress_step bearing (num 1)
            ∷ Order.refused_step cfg other_ticket world refusal
            ∷ [])),
      fetched_key jwks "h.p.s" ∷ [],
    ))
    × AtMost (fetched_key jwks "h.p.s") [] (fetched_key jwks "h.p.s" ∷ [])
unfolding string_eq
receive_ticket-unverified_example =
    Order.receive_ticket-unverified cfg other_ticket world bearing "t" "h.p.s" (num 1) []
      (fetched_key jwks "h.p.s" ∷ []) refusal has_token refl one_hop is_bearing refl unverified

-- A run where all goes well, up to the sub-badge.
abbrev credential : Value
credential = obj (
    field "credentialSubject"
      (obj (
        field "id" (str "AGNTCY-opencode-agent") (
          field "act_chain" (arr (strs ("opencode-agent" ∷ [])))
            (field "delegatable" (arr (strs ("openid" ∷ "triage:create" ∷ []))) end))))
      end)

abbrev good_world : World
good_world = record (world_of (answer 200 everything) claims) { loads = λ bytes. some credential }

abbrev all_passed : Result (Outcome String) × History
all_passed = Receive.delegation cfg ticket "t" claims good_world key_cached

abbrev passed_steps : Result (Outcome String) → List Step
passed_steps (ok (passed steps token)) = steps
passed_steps _ = []

delegation_passes :
    Returns
      (Receive.delegation cfg ticket "t" claims)
      good_world
      key_cached
      (passed (passed_steps all_passed.0) "a.e30.s")
      all_passed.1
unfolding ◌>=>◌ ◌>>=◌ or_stop or_fail require get_default string_eq nat_eq as_dict strs
    items_eq_strs scope_words subset contains Register.register_phase Steps.cimd_register
    Register.registration Register.resolve Cimd.generate_id Cimd.resolve_id Vault.build_proof_jwt
    Vault.get_issuer_jwk Vault.find_cached subscript time uuid4 Vault.sign_segments
    Vault.vault_sign_rs256 Vault.raise_for_status request json Vault.signature_text Vault.b64_bytes
    b64decode set_item Steps.publish_phase Register.badge_phase Vc.issue_badge Vc.find_live_badge
    Vc.well_known_badges items_of Vc.find_in Vc.is_live Vc.decode_segment pad_segment Vc.still_valid
    Vc.subject_matches Vc.build_badge_credential Vc.sign_credential Vc.publish_badge Vc.verify_badge
    Sender.sender_phase Sender.resolve_sender Sender.find_sender Sender.check_sender
    Sender.sender_id decode_unverified list_of texts find_document Receive.delegation
    Delegate.scope_phase Delegate.mint_phase
delegation_passes = record { returns = refl }

delegation-Delegates_example :
    ((sender : Fields) × (subject : Fields) × Agrees.Served cfg ticket good_world sender
      × (subscript "credentialSubject" (obj sender) ≡ ok (obj subject))
      × Agrees.Delegates good_world ticket claims subject)
    × (h1 : History) × (r : Response) × (good_world.send h1
          (Delegate.scope_check_request cfg ticket "t")
        ≡ ok r)
    × (r.status_code ≡ 200)
    × (h2 : History) × (r' : Response) × (good_world.send h2
          (Delegate.mint_request cfg ticket "t" (Delegate.approved ticket r))
        ≡ ok r')
    × (r'.status_code ≡ 200)
    × ((reply : Value) × (r'.json ≡ some reply)
        × (subscript "access_token" reply ≡ ok (str "a.e30.s")))
delegation-Delegates_example =
    Order.delegation-Delegates cfg ticket good_world "t" claims key_cached all_passed.1
      (passed_steps all_passed.0) "a.e30.s" delegation_passes

receive_ticket-Contained_example :
    Each
      (Contained.Contained cfg ticket "h.p.s")
      (Receive.receive_ticket cfg bearing ticket good_world []).1
unfolding Receive.bearer Receive.receive_ticket ◌>>=◌ Receive.admit nat_eq
receive_ticket-Contained_example =
    Contained.receive_ticket-Contained cfg ticket good_world bearing [] tt

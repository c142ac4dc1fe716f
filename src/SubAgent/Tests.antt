-- ===== src/SubAgent/Tests.antt =====
-- Runs of cross-domain-id-jag-vc/sub-agent/app.py.
use agent_identity_demos.Prelude.{
  ◌⊎◌, String, ◌≡◌, refl, true, false, List, [], ◌∷◌, string_eq, nat_eq, contains, subset,
}
use agent_identity_demos.Value.{
  field, arr, end, Value, Fields, str, obj, end, get, get_default, set_item, strs, items_eq_strs,
  items_contain,
}
use agent_identity_demos.Effects.{
  Exn, value_error, Result, ok, err, World, History, drew_token, fetched_key, request, requests,
  ◌>>=◌, json, as_dict, require, signing_key, jwt_decode, jwt_header, time, uuid4,
}
use agent_identity_demos.Effects.Invert.{Returns}
use agent_identity_demos.Effects.Once.{AtMost}
use agent_identity_demos.Effects.Values.{value_contains, subscript, items_of, list_of}
use agent_identity_demos.Step.{Step, Outcome, stopped, passed, steps_reply, step, decode_unverified}
use agent_identity_demos.Base64.{b64decode, pad_segment}
use agent_identity_demos.Client.Vault
use agent_identity_demos.Client.Cimd
use agent_identity_demos.Client.Vc
use agent_identity_demos.Phase.{any_failed, ◌>=>◌, or_fail, or_stop}
use agent_identity_demos.Register
use agent_identity_demos.Credential.{scope_words, texts}
use agent_identity_demos.SubAgent.Badge
use agent_identity_demos.SubAgent.Steps
use agent_identity_demos.SubAgent.Sender
use agent_identity_demos.SubAgent.Resource
use agent_identity_demos.SubAgent.Run
use agent_identity_demos.SubAgent.Accepts
use agent_identity_demos.SubAgent.Agrees
use agent_identity_demos.SubAgent.Order
use agent_identity_demos.SubAgent.Calls
use agent_identity_demos.SubAgent.Contained
use agent_identity_demos.SubAgent.Ended
use agent_identity_demos.Fixtures.{
  agent_world, sub_agent_config, run_request, badge_claims, key_cached, answer,
}

abbrev world : World
world = agent_world "sub-agent" "AGNTCY-triage-agent"

abbrev jwks : String
jwks = "http://kc/realms/org-b/protocol/openid-connect/certs"

verified :
    Returns
      (Badge.verify_subbadge sub_agent_config "h.p.s" run_request)
      world
      []
      (badge_claims "sub-agent")
      (fetched_key jwks "h.p.s" ∷ [])
unfolding Badge.verify_subbadge ◌>>=◌ jwt_header require get_default string_eq signing_key
    jwt_decode Badge.check_claims as_dict Badge.ends_at strs items_eq_strs Badge.init scope_words
    nat_eq subset contains value_contains items_contain
verified = record { returns = refl }

verify_subbadge-Permits_example :
    (header : Fields) × (key : String) × (world.jwt_header "h.p.s" ≡ ok header)
    × (get "typ" header ≡ str "oauth-id-jag+jwt")
    × (world.signing_key [] jwks "h.p.s" ≡ ok key)
    × (world.jwt_decode
          (fetched_key jwks "h.p.s" ∷ [])
          "h.p.s"
          key
          (Badge.badge_options sub_agent_config)
        ≡ ok (badge_claims "sub-agent"))
    × Accepts.Permits sub_agent_config run_request (badge_claims "sub-agent")
verify_subbadge-Permits_example =
    Accepts.verify_subbadge-Permits sub_agent_config run_request world "h.p.s"
      (badge_claims "sub-agent") [] (fetched_key jwks "h.p.s" ∷ []) verified

-- A badge for another agent.
abbrev other_world : World
other_world = agent_world "other" "AGNTCY-triage-agent"

abbrev refusal : Exn
refusal = value_error "sub-badge targets other, not sub-agent"

refused :
    Badge.verify_subbadge sub_agent_config "h.p.s" run_request other_world (drew_token ∷ [])
    ≡ (err refusal, fetched_key jwks "h.p.s" ∷ drew_token ∷ [])
unfolding Badge.verify_subbadge ◌>>=◌ jwt_header require get_default string_eq signing_key
    jwt_decode Badge.check_claims
refused = refl

run-refused_example :
    (Run.run sub_agent_config run_request other_world [] ≡ (
      ok (
          steps_reply false
            (Order.refused_step sub_agent_config run_request other_world refusal ∷ [])),
      fetched_key jwks "h.p.s" ∷ drew_token ∷ [],
    ))
    × AtMost
        (fetched_key jwks "h.p.s")
        (drew_token ∷ [])
        (fetched_key jwks "h.p.s" ∷ drew_token ∷ [])
run-refused_example =
    Order.run-refused sub_agent_config run_request other_world []
      (fetched_key jwks "h.p.s" ∷ drew_token ∷ []) refusal refl refused

run-stopped_example :
    ((steps : List Step) × (token : String) × (h' : History) × (Run.credentials sub_agent_config
          run_request other_world
          (drew_token ∷ [])
        ≡ (ok (passed steps token), h')))
    ⊎ ((steps : List Step) × (h' : History) × (Run.credentials sub_agent_config run_request
            other_world
            (drew_token ∷ [])
          ≡ (ok (stopped steps), h'))
        × (any_failed steps ≡ true)
        × (Run.run sub_agent_config run_request other_world []
            ≡ (ok (steps_reply false steps), h')))
run-stopped_example = Ended.run-stopped sub_agent_config run_request other_world []

-- The credentials of a run where all goes well.
abbrev all_passed : Result (Outcome String) × History
all_passed = Run.credentials sub_agent_config run_request world key_cached

abbrev passed_steps : Result (Outcome String) → List Step
passed_steps (ok (passed steps token)) = steps
passed_steps _ = []

credentials_pass :
    Returns
      (Run.credentials sub_agent_config run_request)
      world
      key_cached
      (passed (passed_steps all_passed.0) "a.e30.s")
      all_passed.1
unfolding Run.credentials ◌>=>◌ ◌>>=◌ or_stop Run.verify_phase Badge.verify_subbadge jwt_header
    require get_default string_eq nat_eq signing_key jwt_decode Badge.check_claims as_dict
    Badge.ends_at strs items_eq_strs Badge.init scope_words subset contains value_contains
    items_contain Register.register_phase Steps.cimd_register Register.registration Register.resolve
    or_fail Cimd.generate_id Cimd.resolve_id Vault.build_proof_jwt Vault.get_issuer_jwk
    Vault.find_cached subscript time uuid4 Vault.sign_segments Vault.vault_sign_rs256
    Vault.raise_for_status request json Vault.signature_text Vault.b64_bytes b64decode set_item
    Run.publish_phase Register.badge_phase Vc.issue_badge Vc.find_live_badge Vc.well_known_badges
    items_of Vc.find_in Vc.is_live Vc.decode_segment pad_segment Vc.still_valid Vc.subject_matches
    Vc.build_badge_credential Vc.sign_credential Vc.publish_badge Vc.verify_badge
    Sender.sender_phase Sender.resolve_sender Sender.find_sender Sender.check_sender
    Sender.parent_id decode_unverified list_of texts Run.exchange_phase
credentials_pass = record { returns = refl }

credentials-Delegates_example :
    (claims : Fields) × (key : String) × (subject : Fields) × (world.signing_key key_cached jwks
        "h.p.s"
      ≡ ok key)
    × (world.jwt_decode
          (fetched_key jwks "h.p.s" ∷ key_cached)
          "h.p.s"
          key
          (Badge.badge_options sub_agent_config)
        ≡ ok claims)
    × Accepts.Permits sub_agent_config run_request claims
    × Agrees.Served sub_agent_config run_request world subject
    × Agrees.Delegates world run_request claims subject
credentials-Delegates_example =
    Order.credentials-Delegates sub_agent_config run_request world key_cached all_passed.1
      (passed_steps all_passed.0) "a.e30.s" credentials_pass

gateway_calls-requests_example :
    (used : Value) × (requests
        (Resource.gateway_calls sub_agent_config run_request "t" "demo-admin" "payments"
          (str "fix")
          world
          []).1
      ≡ Resource.denied_request sub_agent_config run_request "t" "demo-admin" used
        ∷ Resource.open_pr_request sub_agent_config run_request "t" "demo-admin" "payments" used
        ∷ Resource.push_request sub_agent_config run_request "t" "demo-admin" "payments"
        ∷ [])
unfolding requests
gateway_calls-requests_example =
    Calls.gateway_calls-requests sub_agent_config run_request world [] "t" "demo-admin" "payments"
      (str "fix")

denied-expected_outcome_example :
    Run.expected_outcome
      (Resource.denied world (step "denied-pr-attempt" "s5c" "POST") (ok (answer 403 (obj end))))
    ≡ true
unfolding nat_eq
denied-expected_outcome_example =
    Calls.denied-expected_outcome world "s5c" "POST" (answer 403 (obj end))

typ : get "typ" (field "typ" (str "oauth-id-jag+jwt") end) ≡ str "oauth-id-jag+jwt"
unfolding get_default string_eq
typ = refl

permits : Accepts.Permits sub_agent_config run_request (badge_claims "sub-agent")
unfolding get_default string_eq nat_eq strs Badge.ends_at Badge.init scope_words subset contains
    value_contains items_contain
permits = (
  refl,
  refl,
  (field "act_chain" (arr (strs ("opencode-agent" ∷ "triage-agent" ∷ []))) end, refl, refl),
  ("gitea:write gitea:pr", refl, refl, refl),
  refl,
  refl,
)

Permits-verify_subbadge_example :
    Badge.verify_subbadge sub_agent_config "h.p.s" run_request world []
    ≡ (ok (badge_claims "sub-agent"), fetched_key jwks "h.p.s" ∷ [])
Permits-verify_subbadge_example =
    Accepts.Permits-verify_subbadge sub_agent_config run_request world "h.p.s" "key"
      (field "typ" (str "oauth-id-jag+jwt") end) (badge_claims "sub-agent") [] refl typ refl refl
      permits

-- ===== src/SubAgent/Calls.antt =====
-- The calls of the gateway in `run` of cross-domain-id-jag-vc/sub-agent/app.py.
use agent_identity_demos.Prelude.{
  String, ◌≡◌, refl, Bool, true, false, ◌&&◌, ◌∷◌, Option, none, some, arith, ◌==◌, nat_eq,
  string_eq,
}
use agent_identity_demos.Value.{Value, get_default, set_item}
use agent_identity_demos.Effects.{ok, World, History, ◌>>=◌, requests, request, Response}
use agent_identity_demos.Step.{step}
use agent_identity_demos.SubAgent.Badge.{Config, RunRequest}
use agent_identity_demos.SubAgent.Resource.{
  push_request, open_pr_request, denied_request, gateway_calls, report, denied,
}
use agent_identity_demos.SubAgent.Run.{expected_outcome}

module _ (cfg : Config) (body : RunRequest) (w : World) (h : History) where
  -- Whatever the gateway answers, it is asked three times: for the push, for the pull request, and
  -- for the one that it must deny, the last two with one branch.
  pub gateway_calls-requests :
      (access_token owner repo_slug : String) (branch : Value)
      → (used : Value) × (requests
            (gateway_calls cfg body access_token owner repo_slug branch w h).1
          ≡ denied_request cfg body access_token owner used
            ∷ open_pr_request cfg body access_token owner repo_slug used
            ∷ push_request cfg body access_token owner repo_slug
            ∷ requests h)
  unfolding gateway_calls report request requests ◌>>=◌
  gateway_calls-requests access_token owner repo_slug branch = (_, refl)

abbrev answered_json : Option Value → Bool
answered_json none = false
answered_json (some v) = true

-- The run counts the attempt on the protected repository as expected just when the gateway denied it
-- by 403 with a readable answer.
pub denied-expected_outcome :
    (w : World) (title detail : String) (r : Response)
    → expected_outcome (denied w (step "denied-pr-attempt" title detail) (ok r))
      ≡ (r.status_code == 403 && answered_json r.json)
unfolding expected_outcome denied get_default set_item string_eq
denied-expected_outcome w title detail r = ground arith

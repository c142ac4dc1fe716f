-- ===== src/Exchange.antt =====
-- The requests for tokens that the agents of cross-domain-id-jag-vc send to Keycloak, and the access
-- token in an answer. `Passed` is about a request that was granted.
pub mod Passed
use agent_identity_demos.Prelude.{String, ◌<>◌, List, none, [], ◌∷◌, ◌==◌, nat_eq, if◌then◌else◌}
use agent_identity_demos.Prelude.Text.{take_text}
use agent_identity_demos.Value.{Value, str, set_item}
use agent_identity_demos.Effects.{
  World, M, asks, lift, ◌>>=◌, Request, Response, http_post, no_body, form_body, request, json,
}
use agent_identity_demos.Effects.Values.{subscript, as_text}
use agent_identity_demos.Step.{Step, failed, http_failure, Outcome, passed}
use agent_identity_demos.Phase.{or_stop, stop_with}

abbrev pub token_request : String → List (String × String) → Request
token_request endpoint fields = record {
  method = http_post;
  url = endpoint;
  headers = [];
  auth = none;
  body = form_body fields;
}

-- A request of a policy decision, which has headers only.
abbrev pub decision_request : String → List (String × String) → Request
decision_request url headers = record {
  method = http_post;
  url = url;
  headers = headers;
  auth = none;
  body = no_body;
}

-- `r.json()["access_token"]`, which is sliced as a text next.
abbrev pub access_token_of : Response → M String
access_token_of r = do
  reply ← json r
  token ← lift (subscript "access_token" reply)
  lift (as_text token)

-- The step that shows a token, with what `result` makes of it.
abbrev pub shown_token : World → (World → String → Value) → String → Step → Step
shown_token w result token s =
    set_item "result" (result w token)
      (set_item "token_preview" (str (take_text 48 token <> "…")) (set_item "status" (str "ok") s))

-- A request for a token: the step shows it and it is passed on, or the handler ends.
unfoldable pub token_phase : Request → (World → String → Value) → Step → M (Outcome String)
token_phase q result s = or_stop "" s (do
  r ← request q
  if r.status_code == 200
      then (do
        token ← access_token_of r
        asks (λ w. passed (shown_token w result token s ∷ []) token))
      else stop_with (failed (http_failure r) s))

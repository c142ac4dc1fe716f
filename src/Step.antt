-- ===== src/Step.antt =====
-- The steps that the agents of cross-domain-id-jag-vc report: dicts with an id, a title, a detail, a
-- status, and a result or an error.
use agent_identity_demos.Prelude.{String, ◌<>◌, Bool, Option, none, some, List, [], ◌∷◌}
use agent_identity_demos.Prelude.Text.{decimal, take_text, split}
use agent_identity_demos.Value.{
  Value, Items, Fields, str, obj, bool, arr, nil, cons, end, field, get, get_default, set_item,
  eq_str,
}
use agent_identity_demos.Effects.{Exn, ok, World, M, Response, exn_text, as_dict}
use agent_identity_demos.Client.Vc.{decode_segment}

abbrev pub Step : Type 0
Step = Fields

abbrev pub step : String → String → String → Step
step id title detail =
    field "id" (str id) (field "title" (str title) (field "detail" (str detail) end))

-- `s.update(status="ok", result=result)`, and the other statuses.
abbrev pub reported : String → Value → Step → Step
reported status result s = set_item "result" result (set_item "status" (str status) s)

-- `s.update(status="error", error=text)`
abbrev pub failed : String → Step → Step
failed text s = set_item "error" (str text) (set_item "status" (str "error") s)

-- `f"HTTP {r.status_code}: {r.text[:300]}"`
abbrev pub http_failure : Response → String
http_failure r = "HTTP " <> (decimal r.status_code <> (": " <> take_text 300 r.text))

abbrev pub has_status : String → Step → Bool
has_status status s = eq_str (get "status" s) status

-- `except Exception as exc: s.update(status="error", error=f"{prefix}{exc}")`
unfoldable pub fails_with : String → Step → Exn → M Step
fails_with prefix s e w h = (ok (failed (prefix <> exn_text w e) s), h)

abbrev pub step_values : List Step → Items
step_values [] = nil
step_values (s ∷ steps) = cons (obj s) (step_values steps)

-- `{"ok": …, "steps": steps}`
abbrev pub steps_reply : Bool → List Step → Value
steps_reply good steps = obj (field "ok" (bool good) (field "steps" (arr (step_values steps)) end))

-- `_decode_jwt_payload_unverified`: the payload of a token for display, or an empty dict.
abbrev loaded_or_empty : Option Value → Value
loaded_or_empty none = obj end
loaded_or_empty (some v) = v

abbrev second_segment : World → List String → Value
second_segment w (header ∷ payload ∷ rest) = loaded_or_empty (decode_segment w payload)
second_segment w _ = obj end

unfoldable pub decode_unverified : World → Value → Value
unfolding split
decode_unverified w (str token) = second_segment w (split b'.' token)
decode_unverified w _ = obj end

-- A dict reached through `v.get(k, {})`.
unfoldable pub dict_at : String → Fields → M Fields
dict_at k fs = as_dict (get_default k (obj end) fs)

-- How a handler goes on: it has answered with the steps so far, or it passes a value on.
pub data Outcome {ℓ} (A : Type ℓ) : Type ℓ where
  stopped : List Step → Outcome A
  passed : List Step → A → Outcome A

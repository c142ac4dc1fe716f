-- ===== src/OpenCode/Found.antt =====
-- The scan of cross-domain-id-jag-vc/opencode-agent/app.py always reports a finding with an
-- identifier, the model's or the known one.
use agent_identity_demos.Prelude.{
  String, ◌<>◌, ◌≡◌, refl, ap, Bool, true, false, Option, some, arith, inl, inr, Bool-cases,
  Option-cases, string_eq,
}
use Prim.Native.String.append
use agent_identity_demos.Prelude.Text.{is_empty}
use agent_identity_demos.Value.{
  Value, Fields, str, obj, end, field, null, get, get_default, get_default-set_item, or_value,
  truthy,
}
use agent_identity_demos.Effects.{World}
use agent_identity_demos.Effects.Total.{
  Holds, Always, Holds-pure, Holds-bind, Holds-asks_bind, Holds-if, Always-pure, Always-asks,
  Always-catch,
}
use agent_identity_demos.Step.{Step, reported, has_status}
use agent_identity_demos.OpenCode.Config.{Config}
use agent_identity_demos.OpenCode.Finding.{
  parse_finding, from_json, from_cwe, present, finding_keys, loads_text, braced, cwe_number,
}
use agent_identity_demos.OpenCode.Scan.{
  opencode_scan, scan_answered, fallback, scanned, mock_finding, has_finding,
}
use agent_identity_demos.OpenCode.Returns.{get_default-reported}
use agent_identity_demos.Register.{result_fields}
use agent_identity_demos.OpenCode.Run.{finding_of}

-- The step is done, and its finding has an identifier.
abbrev pub Identified : Step → Type 0
Identified s = (has_status "ok" s ≡ true) × (truthy (get "id" (finding_of s)) ≡ true)

cwe_truthy : (number : String) → truthy (str ("CWE-" <> number)) ≡ true
cwe_truthy number = ap (λ s. truthy (str s)) (append.cons "C" "WE-" number)

from_json-id :
    (r : Option Value) (finding : Fields)
    → from_json r ≡ some finding
    → truthy (get "id" finding) ≡ true
unfolding from_json present finding_keys get_default string_eq
from_json-id (some (obj parsed)) finding p = elim (Bool-cases (truthy (get "id" parsed))) [
  | inl good ↦ ground (arith, good, rw good at p)
  | inr bad ↦ absurd (ground (arith, rw bad at p))
]
from_json-id _ finding p = absurd (ground (arith, p))

from_cwe-id :
    (path text number : String)
    → has_finding (from_cwe path text number) ≡ true
    → truthy (get "id" (from_cwe path text number)) ≡ true
unfolding from_cwe get_default string_eq
from_cwe-id path text number p = elim (Bool-cases (is_empty number)) [
  | inl none_ ↦ absurd (ground (arith, rw none_ at p))
  | inr some_ ↦ rw some_ (cwe_truthy number)
]

-- A finding in the model's reply has an identifier.
pub parse_finding-id :
    (w : World) (path text : String)
    → has_finding (parse_finding w path text) ≡ true
    → truthy (get "id" (parse_finding w path text)) ≡ true
unfolding parse_finding
parse_finding-id w path text p = elim (Option-cases (from_json (loads_text w (braced text)))) [
  | inl nothing ↦ rw nothing (from_cwe-id path text (cwe_number text) (rw nothing at p))
  | inr (finding, found) ↦ rw found (from_json-id _ finding found)
]

get-result :
    (status : String) (result : Value) (s : Step) → get "result" (reported status result s) ≡ result
unfolding string_eq
get-result status result s = rw (get_default-set_item "result" "result" null result)

or_finding :
    (finding : Fields)
    → truthy (get "id" finding) ≡ true
    → truthy (get "id" (result_fields (or_value (obj finding) (obj end)))) ≡ true
or_finding end good = good
or_finding (field k v fs) good = good

reported-Identified :
    (fs finding : Fields) (s : Step)
    → get "finding" fs ≡ obj finding
    → truthy (get "id" finding) ≡ true
    → Identified (reported "ok" (obj fs) s)
unfolding string_eq
reported-Identified fs finding s found good = (
  rw (get_default-reported "ok" null (obj fs) s),
  rw (get-result "ok" (obj fs) s, found) (or_finding finding good),
)

module _ (cfg : Config) (repo scoped_intent : String) (s : Step) where
  fallback-Identified : (beside : Fields) → Identified (fallback cfg repo scoped_intent beside s)
  unfolding fallback mock_finding get_default string_eq
  fallback-Identified beside = reported-Identified _ (mock_finding cfg) s refl refl

  scanned-Identified :
      (session_id : Value) (text : String) (w : World)
      → Identified (
          scanned cfg repo scoped_intent s session_id text
            (parse_finding w cfg.scan_source_path text))
  unfolding scanned get_default string_eq
  scanned-Identified session_id text w =
      elim (Bool-cases (has_finding (parse_finding w cfg.scan_source_path text))) [
        | inl found ↦ rw found (
            reported-Identified _ (parse_finding w cfg.scan_source_path text) s refl
              (parse_finding-id w cfg.scan_source_path text found))
        | inr missing ↦ rw missing (fallback-Identified _)
      ]

  scan_answered-Identified :
      (w : World) (session_id : Value) (reply : Fields)
      → Holds Identified (scan_answered cfg repo scoped_intent s session_id reply) w
  unfolding scan_answered
  scan_answered-Identified w session_id reply = Holds-bind _ _ (λ info_error.
      Holds-if _ _ _ (Holds-bind _ _ (λ message. Holds-pure _ (fallback-Identified _))) (
        Holds-bind _ _
          (λ text. Holds-asks_bind _ _ (Holds-pure _ (scanned-Identified session_id text w)))))

-- The scan of any source that is not empty returns whatever the model server answers, with a step
-- that is done and whose finding has an identifier.
pub opencode_scan-Identified :
    (cfg : Config) (w : World) (repo source scoped_intent : String) (use_real : Bool)
    → is_empty source ≡ false
    → Always Identified (opencode_scan cfg repo source scoped_intent use_real) w
unfolding opencode_scan
opencode_scan-Identified cfg w repo String.[] scoped_intent use_real p = absurd (ground (arith, p))
opencode_scan-Identified cfg w repo (String.◌∷◌ c source) scoped_intent true p =
    Always-catch _ _
      (Holds-bind _ _
        (λ asked. scan_answered-Identified cfg repo scoped_intent _ w asked.0 asked.1))
      (λ e. Always-asks _ (fallback-Identified cfg repo scoped_intent _ _))
opencode_scan-Identified cfg w repo (String.◌∷◌ c source) scoped_intent false p =
    Always-pure _ (fallback-Identified cfg repo scoped_intent _ _)

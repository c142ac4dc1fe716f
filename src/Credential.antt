-- ===== src/Credential.antt =====
-- How triage-agent/app.py and sub-agent/app.py of cross-domain-id-jag-vc read the credential of the
-- agent that delegates to them: `_decode_jwt_payload_unverified`, and the sets and lists of texts that
-- they compare. `Found` is about a credential that was found.
pub mod Found
use agent_identity_demos.Prelude.{
  some, none, if◌then◌else◌, Option, Bool, String, not, List, [], ◌∷◌, contains, filter, string_eq,
}
use agent_identity_demos.Prelude.Text.{split, nonempty, sorted_set}
use agent_identity_demos.Value.{Value, Items, Fields, str, nil, cons, get_default}
use agent_identity_demos.Effects.{value_error, type_error, Result, ok, err, World, dict_result}
use agent_identity_demos.Step.{decode_unverified}

-- A served credential, decoded without a check of its signature.
abbrev pub document_of : World → Result Fields → Result Fields
document_of w (ok entry) = dict_result (decode_unverified w (get_default "value" (str "") entry))
document_of w (err e) = err e

abbrev pub subject_in : (Fields → Value) → Result Fields → Result Fields
subject_in subject_of (ok document) = dict_result (subject_of document)
subject_in subject_of (err e) = err e

abbrev pub choose_document :
    (Fields → Bool)
    → Result Fields
    → Result Fields
    → Result (Option Fields)
    → Result (Option Fields)
choose_document fits (err e) subject rest = err e
choose_document fits (ok document) (err e) rest = err e
choose_document fits (ok document) (ok subject) rest =
    if fits subject then ok (some document) else rest

-- The first credential whose subject fits, where `subject_of` is how the agent reads the subject.
unfoldable pub find_document :
    World → (Fields → Value) → (Fields → Bool) → Items → Result (Option Fields)
find_document w subject_of fits nil = ok none
find_document w subject_of fits (cons entry entries) =
    let document = document_of w (dict_result entry) in
    choose_document fits document (subject_in subject_of document)
      (find_document w subject_of fits entries)

-- `raise ValueError(f"{sender}…")` where none was found.
abbrev pub found_document : String → Result (Option Fields) → Result Fields
found_document missing (err e) = err e
found_document missing (ok none) = err (value_error missing)
found_document missing (ok (some document)) = ok document

-- `{s for s in text.split(" ") if s}`
unfoldable pub scope_words : String → List String
unfolding split nonempty
scope_words text = nonempty (split b' ' text)

-- `xs - ys`
abbrev pub difference : List String → List String → List String
difference xs ys = filter (λ x. not (contains ys x)) xs

-- The texts of a list. Anything else among them, which Python could neither put in one order with
-- texts nor find among scopes, is an error.
unfoldable pub texts : Items → Result (List String)
texts nil = ok []
texts (cons (str s) vs) = elim (texts vs) [ ok ss ↦ ok (s ∷ ss) | err e ↦ err e ]
texts (cons _ vs) = err (type_error "not a text")

-- `sorted(ss)`, which keeps what occurs twice.
insert : String → List String → List String
unfolding sorted_set
insert s [] = s ∷ []
insert s (t ∷ ts) = elim (Prim.Native.String.compare t s) [
  | Prim.Native.Nat.Ordering.lt ↦ t ∷ insert s ts
  | _ ↦ s ∷ t ∷ ts
]

unfoldable pub sorted : List String → List String
unfolding insert
sorted [] = []
sorted (s ∷ ss) = insert s (sorted ss)

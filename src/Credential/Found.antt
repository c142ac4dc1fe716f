-- ===== src/Credential/Found.antt =====
-- A credential that `find_document` finds has a subject that fits.
use agent_identity_demos.Prelude.{
  String, ◌≡◌, refl, ◌∙◌, sym, ap, Bool, true, Option, none, some, arith, ◌⊎◌, inl, inr, Bool-cases,
}
use agent_identity_demos.Value.{Value, Fields, Items, nil, cons}
use agent_identity_demos.Effects.{Result, ok, err, World, dict_result}
use agent_identity_demos.Credential.{subject_in, choose_document, find_document, found_document}

-- The one that is chosen is the one at hand, and then it fits, or a later one.
choose_document-found :
    (fits : Fields → Bool) (document subject : Result Fields) (rest : Result (Option Fields))
    (found : Fields)
    → choose_document fits document subject rest ≡ ok (some found)
    → (rest ≡ ok (some found))
      ⊎ ((document ≡ ok found) × (s : Fields) × (subject ≡ ok s) × (fits s ≡ true))
choose_document-found fits (err e) subject rest found p = absurd (ground (arith, p))
choose_document-found fits (ok d) (err e) rest found p = absurd (ground (arith, p))
choose_document-found fits (ok d) (ok s) rest found p = elim (Bool-cases (fits s)) [
  | inl same ↦ inr (ground (arith, rw same at p), s, refl, same)
  | inr other ↦ inl (rw other at p)
]

module _ (w : World) (subject_of : Fields → Value) (fits : Fields → Bool) where
  pub find_document-ok :
      (entries : Items) (document : Fields)
      → find_document w subject_of fits entries ≡ ok (some document)
      → (subject : Fields) × (dict_result (subject_of document) ≡ ok subject)
        × (fits subject ≡ true)
  unfolding find_document
  find_document-ok nil document p = absurd (ground (arith, p))
  find_document-ok (cons entry entries) document p =
      elim (choose_document-found fits _ _ _ document p) [
        | inl later ↦ find_document-ok entries document later
        | inr (here, s, is_subject, same) ↦
            (s, ap (subject_in subject_of) (sym here) ∙ is_subject, same)
      ]

pub found_document-ok :
    (missing : String) (r : Result (Option Fields)) (sender : Fields)
    → found_document missing r ≡ ok sender
    → r ≡ ok (some sender)
found_document-ok missing (err e) sender p = absurd (ground (arith, p))
found_document-ok missing (ok none) sender p = absurd (ground (arith, p))
found_document-ok missing (ok (some d)) sender p = ground (arith, p)

pub ok_eq : {a b : Fields} → ok a ≡ ok b → a ≡ b
ok_eq p = ground (arith, p)

-- ===== src/Exchange/Passed.antt =====
-- What a request for a token has gone through if it passed.
use agent_identity_demos.Prelude.{
  String, ◌≡◌, ◌∙◌, sym, ap, some, List, ◌∷◌, arith, inl, inr, ◌==◌, nat_eq, if◌then◌else◌,
}
use agent_identity_demos.Value.{Value, str}
use agent_identity_demos.Effects.{ok, World, History, Request, Response, M, request, sent, ◌>>=◌}
use agent_identity_demos.Effects.Values.{subscript, as_text→eq}
use agent_identity_demos.Effects.Invert.{
  Returns, bind-ok, pure-ok, request_bind-ok, if-ok, json_bind-ok, lift_bind-ok, lift-ok, asks-ok,
}
use agent_identity_demos.Step.{Step, Outcome, passed}
use agent_identity_demos.Phase.{or_stop, stop_with}
use agent_identity_demos.Phase.Passed.{or_stop-passed, passed_eq}
use agent_identity_demos.Exchange.{token_phase}

-- The answer to a request is 200 with this access token.
abbrev pub Granted : World → Request → String → Type 0
Granted w q token =
    (h : History) × (r : Response) × (w.send h q ≡ ok r)
    × (r.status_code ≡ 200)
    × ((reply : Value) × (r.json ≡ some reply) × (subscript "access_token" reply ≡ ok (str token)))

-- The answer to a request is 200.
abbrev pub Allowed : World → Request → Type 0
Allowed w q = (h : History) × (r : Response) × (w.send h q ≡ ok r) × (r.status_code ≡ 200)

module _ {A : Type 0} {w : World} {h h' : History} where
  -- A request whose answer must be 200, and what follows it.
  pub answered-passed :
      (prefix : String) (s : Step) (q : Request) (k : Response → M (Outcome A))
      (refused : Response → Step) (steps : List Step) (a : A)
      → Returns
          (or_stop prefix s
            (request q >>= λ r. if r.status_code == 200 then k r else stop_with (refused r)))
          w
          h
          (passed steps a)
          h'
      → (r : Response) × (w.send h q ≡ ok r)
        × (r.status_code ≡ 200)
        × Returns (k r) w (sent q ∷ h) (passed steps a) h'
  answered-passed prefix s q k refused steps a p =
      let (r, sent_it, p1) = request_bind-ok _ _ (or_stop-passed _ _ _ _ _ _ _ _ p) in
      elim (if-ok (r.status_code == 200) _ _ _ _ _ _ p1) [
        | inl (good, p2) ↦ (r, sent_it, ground arith, p2)
        | inr (bad, p2) ↦ absurd (ground (arith, pure-ok _ _ _ _ _ p2))
      ]

  pub Allowed-passed :
      (prefix : String) (s : Step) (q : Request) (k : Response → M (Outcome A))
      (refused : Response → Step) (steps : List Step) (a : A)
      → Returns
          (or_stop prefix s
            (request q >>= λ r. if r.status_code == 200 then k r else stop_with (refused r)))
          w
          h
          (passed steps a)
          h'
      → Allowed w q
  Allowed-passed prefix s q k refused steps a p =
      let (r, sent_it, good, _) = answered-passed prefix s q k refused steps a p in
      (h, r, sent_it, good)

module _ {w : World} where
  pub token_phase-passed :
      (q : Request) (result : World → String → Value) (s : Step) (h h' : History)
      (steps : List Step) (token : String)
      → Returns (token_phase q result s) w h (passed steps token) h'
      → Granted w q token
  unfolding token_phase
  token_phase-passed q result s h h' steps token p =
      let (r, sent_it, good, p2) = answered-passed _ _ _ _ _ _ _ p in
      let (found, h1, is_token, p3) = bind-ok _ _ p2 in
      let (reply, is_json, q1) = json_bind-ok _ _ is_token in
      let (value, is_found, q2) = lift_bind-ok _ _ q1 in
      let is_text = as_text→eq _ _ (lift-ok _ _ _ _ _ q2) in
      let same = passed_eq _ _ _ _ (asks-ok _ _ _ _ _ p3) in
      (h, r, sent_it, good, (reply, is_json, is_found ∙ ap ok (is_text ∙ ap str (sym same))))

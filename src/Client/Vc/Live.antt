-- ===== src/Client/Vc/Live.antt =====
-- What `find_live_badge` of cross-domain-id-jag-vc/agntcy_identity_client/vc.py returns.
use agent_identity_demos.Client.Vc.{Bool}
use agent_identity_demos.Prelude.{
  ℕ, String, ◌≡◌, refl, ◌∙◌, sym, ap, subst, inl, inr, true, Bool-cases, Option, none, some, arith,
  List, ◌∷◌,
}
use agent_identity_demos.Prelude.Text.{split}
use agent_identity_demos.Value.{Value, Items, Fields, str, obj, nil, cons, get, or_value}
use agent_identity_demos.Effects.{ok, World, History, requests, request, Request}
use agent_identity_demos.Effects.Invert.{
  if-ok, Returns, bind-ok, lift_bind-ok, as_dict_bind-ok, asks_bind-ok, pure-ok, lift-ok,
}
use agent_identity_demos.Effects.Quiet.{requests-bind, bind-returns, quiet_rules}
use agent_identity_demos.Effects.Values.{as_text→eq, items_of}
use agent_identity_demos.Client.Vault.{VaultConfig}
use agent_identity_demos.Client.Vc
use agent_identity_demos.Client.Vc.Expiry.{
  Clocked, still, Clocked-trans, Unexpired, Fresh, pure-history, lift-history, still_valid-ok,
}

some_eq : (a b : String) → some a ≡ some b → a ≡ b
some_eq a b p = ground (arith, p)

-- The entry is a member of the list.
pub data Served : Value → Items → Type 0 where
  here : {v : Value} {vs : Items} → Served v (cons v vs)
  there : {v u : Value} {vs : Items} → Served v vs → Served v (cons u vs)

module _ (g : Vc.Grant) (w : World) where
  is_live-Clocked :
      (payload : Option Value) (h h' : History) (b : Bool)
      → Returns (Vc.is_live g payload) w h b h'
      → Clocked h h'
  unfolding Vc.is_live
  is_live-Clocked none h h' b p = subst (Clocked h) (sym (pure-history _ p)) still
  is_live-Clocked (some payload) h h' b p =
      let (credential, is_dict, p1) = as_dict_bind-ok _ _ p in
      let (valid, h1, checked, p2) = bind-ok _ _ p1 in
      let clocked = (still_valid-ok _ _ _ _ checked).0 in
      elim (if-ok valid _ _ _ _ _ _ p2) [
        | inl (_, q) ↦ subst (Clocked h) (sym (lift-history _ q)) clocked
        | inr (_, q) ↦ subst (Clocked h) (sym (pure-history _ q)) clocked
      ]

  is_live-ok :
      (payload : Option Value) (h h' : History)
      → Returns (Vc.is_live g payload) w h true h'
      → (credential : Fields) × (payload ≡ some (obj credential))
        × Unexpired w h credential
        × (Vc.subject_matches g credential ≡ ok true)
  unfolding Vc.is_live
  is_live-ok none h h' p = absurd (ground (arith, pure-ok _ _ _ _ _ p))
  is_live-ok (some payload) h h' p =
      let (credential, is_dict, p1) = as_dict_bind-ok _ _ p in
      let (valid, h1, checked, p2) = bind-ok _ _ p1 in
      elim (if-ok valid _ _ _ _ _ _ p2) [
        | inl (v, q) ↦
            (credential, ap some is_dict, (still_valid-ok _ _ _ _ checked).1 v, lift-ok _ _ _ _ _ q)
        | inr (_, q) ↦ absurd (ground (arith, pure-ok _ _ _ _ _ q))
      ]

  -- What is known of a credential that is found among these entries.
  abbrev pub Found : History → Items → String → Type 0
  Found h entries jws =
      (entry : Fields) × Served (obj entry) entries
      × (or_value (get "value" entry) (str "") ≡ str jws)
      × (credential : Fields) × (Vc.payload_of w (split b'.' jws) ≡ some (obj credential))
      × Fresh w h credential
      × (Vc.subject_matches g credential ≡ ok true)

  find_in-Found :
      (entries : Items) (jws : String) (h0 h h' : History)
      → Clocked h0 h
      → Returns (Vc.find_in g entries) w h (some jws) h'
      → Found h0 entries jws
  unfolding Vc.find_in
  find_in-Found nil jws h0 h h' c p = absurd (ground (arith, pure-ok _ _ _ _ _ p))
  find_in-Found (cons entry entries) jws h0 h h' c p =
      let (value, h1, at_entry, p1) = bind-ok _ _ p in
      let (fields, is_dict, in_value) = as_dict_bind-ok _ _ at_entry in
      let (text, is_text, p2) = lift_bind-ok _ _ p1 in
      let p3 = asks_bind-ok _ _ p2 in
      let (live, h2, checked, p4) = bind-ok _ _ p3 in
      let c1 = subst (Clocked h0) (sym (pure-history _ in_value)) c in
      elim (Bool-cases live) [
        | inl l ↦
            let same = some_eq _ _ (pure-ok _ _ _ _ _ (rw l at p4)) in
            let (credential, is_payload, unexpired, matches) =
              is_live-ok _ _ _ (record { returns = checked.returns ∙ ap (λ b. (ok b, h2)) l }) in
            subst (Found h0 (cons entry entries)) (sym same) (
              fields,
              subst (λ v. Served (obj fields) (cons v entries)) (sym is_dict) here,
              sym (pure-ok _ _ _ _ _ in_value) ∙ as_text→eq value text is_text,
              credential,
              is_payload,
              (h1, c1, unexpired),
              matches,
            )
        | inr l ↦
            let c2 = Clocked-trans c1 (is_live-Clocked _ _ _ _ checked) in
            let (e, served, is_jws, credential, is_payload, fresh, matches) =
              find_in-Found entries jws h0 h2 h' c2 (rw l at p4) in
            (e, there served, is_jws, credential, is_payload, fresh, matches)
      ]

  -- A credential that `find_live_badge` returns is one that the Identity Node serves for the subject,
  -- of three segments, whose payload is a dict for this grant; and it has no date of expiry, or the
  -- clock, as it was read in this search, was before that date as `time.mktime` reads it in the zone of
  -- the host.
  pub find_live_badge-Found :
      (url jws : String) (h h' : History)
      → Returns (Vc.find_live_badge url g) w h (some jws) h'
      → (vcs : Value) × (entries : Items) × (h1 : History) × Returns
          (Vc.well_known_badges url g.subject_id)
          w
          h
          vcs
          h1
        × (items_of vcs ≡ ok entries)
        × Found h1 entries jws
  unfolding Vc.find_live_badge
  find_live_badge-Found url jws h h' p =
      let (vcs, h1, served, p1) = bind-ok _ _ p in
      let (entries, is_list, p2) = lift_bind-ok _ _ p1 in
      (vcs, entries, h1, served, is_list, find_in-Found entries jws _ _ _ still p2)

requests-sent :
    (w : World) (h : History) (q : Request) → requests (request q w h).1 ≡ q ∷ requests h
unfolding request requests
requests-sent w h q = refl

-- A live credential is presented again: nothing is published, the node is only asked to verify it.
pub issue_badge-reused :
    (url : String) (cfg : VaultConfig) (g : Vc.Grant) (act_chain : List String) (ttl : ℕ)
    (w : World) (h h' : History) (jws : String)
    → Vc.find_live_badge url g w h ≡ (ok (some jws), h')
    → requests (Vc.issue_badge url cfg g act_chain ttl w h).1
      ≡ Vc.verify_request url jws ∷ requests h'
unfolding Vc.issue_badge Vc.verify_badge
issue_badge-reused url cfg g act_chain ttl w h h' jws found =
    ap (λ x. requests x.1) (bind-returns _ _ _ _ _ found)
    ∙ requests-bind (Vc.verify_badge url jws) _ h' (λ reply. search quiet_rules depth 40)
    ∙ requests-bind (request (Vc.verify_request url jws)) _ h' (λ r. search quiet_rules depth 40)
    ∙ requests-sent w h' (Vc.verify_request url jws)

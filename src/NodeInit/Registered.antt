-- ===== src/NodeInit/Registered.antt =====
-- What a run of cross-domain-id-jag-vc/identity-node-init.py that ends well has done, and when the
-- check against the registered key lets a key through.
use agent_identity_demos.Prelude.{
  ap, inr, some, ◌⊎◌, Bool-cases, inl, none, String, ◌≡◌, refl, Bool, true, false, Option, List, [],
  ◌∷◌, All, arith, ◌==◌, nat_eq, string_eq,
}
use agent_identity_demos.Value.{eq_str→eq, string_eq_refl, str, Value, Fields, get}
use agent_identity_demos.Effects.{
  foreign, ok, err, World, History, raise, ◌>>=◌, request, sent, Response,
}
use agent_identity_demos.Effects.Values.{text_of}
use agent_identity_demos.Effects.Invert.{Returns, bind-ok, asks_bind-ok, request_bind-ok}
use agent_identity_demos.NodeInit.Setup.{Config, exit}
use agent_identity_demos.NodeInit.Keys.{
  done_or_exit, create_signing_key, get_public_jwk, published_issuer_modulus, may_register,
  assert_key_matches_registration, jwks_request,
}
use agent_identity_demos.NodeInit.Register.{
  build_self_issued_jwt, register_request, registered, register_issuer, register_one, register_all,
  main,
}

module _ {w : World} where
  exit-never : {h h' : History} {u : Unit {0}} → Returns exit w h u h' → ⊥
  unfolding raise ◌>>=◌
  exit-never p = ground (arith, p.returns)

  done_or_exit-ok :
      (b : Bool) (h h' : History) (u : Unit {0}) → Returns (done_or_exit b) w h u h' → b ≡ true
  done_or_exit-ok true h h' u p = refl
  done_or_exit-ok false h h' u p = absurd (exit-never p)

-- No modulus was found published, or this one.
abbrev pub Agrees : Option Value → String → Type 0
Agrees found n = (found ≡ none) ⊎ (found ≡ some (str n))

may_register-Agrees :
    (found : Option Value) (n : String) → may_register found n ≡ true → Agrees found n
unfolding may_register
may_register-Agrees none n p = inl refl
may_register-Agrees (some v) n p = inr (ap some (eq_str→eq v n p))

Agrees-may_register :
    (found : Option Value) (n : String) → Agrees found n → may_register found n ≡ true
unfolding may_register
Agrees-may_register found n (inl p) = rw p
Agrees-may_register found n (inr p) = rw p (string_eq_refl n)

-- The key of the issuer was read from Vault; a modulus that the Identity Node had published before is
-- the key's; and the Identity Node has answered the registration of this key that it is registered, or
-- that the issuer exists already.
abbrev pub Registered : Config → World → String × String → Type 0
Registered cfg w (key_name, common_name) =
    (jwk : Fields) × (found : Option Value) × (proof : String) × (r : Response) × (h : History)
    × (h1 : History) × Returns (get_public_jwk cfg key_name) w h jwk h1
    × (h2 : History) × (h3 : History) × Returns (published_issuer_modulus cfg common_name) w h2
        found h3
    × Agrees found (text_of w (get "n" jwk))
    × (h4 : History) × (w.send h4 (register_request cfg common_name jwk proof) ≡ ok r)
    × (registered r.status_code r.text ≡ true)

module _ (cfg : Config) (w : World) where
  register_one-Registered :
      (key_name common_name : String) (h h' : History) (u : Unit {0})
      → Returns (register_one cfg key_name common_name) w h u h'
      → Registered cfg w (key_name, common_name)
  unfolding register_one assert_key_matches_registration register_issuer
  register_one-Registered key_name common_name h h' u p =
      let (_, h1, _, p1) = bind-ok _ _ p in
      let (jwk, h2, read, p2) = bind-ok _ _ p1 in
      let (_, h3, checked, p3) = bind-ok _ _ (asks_bind-ok _ _ p2) in
      let (found, h4, published, agrees) = bind-ok _ _ checked in
      let (proof, h5, _, p4) = bind-ok _ _ p3 in
      let (r, answer, done) = request_bind-ok _ _ p4 in
      (
        jwk,
        found,
        proof,
        r,
        h1,
        h2,
        read,
        h2,
        h4,
        published,
        may_register-Agrees _ _ (done_or_exit-ok _ _ _ _ agrees),
        h5,
        answer,
        done_or_exit-ok _ _ _ _ done,
      )

  register_all-Registered :
      (issuers : List (String × String)) (h h' : History) (u : Unit {0})
      → Returns (register_all cfg issuers) w h u h'
      → All (Registered cfg w) issuers
  unfolding register_all
  register_all-Registered [] h h' u p = tt
  register_all-Registered ((key_name, common_name) ∷ issuers) h h' u p =
      let (v, h1, one, rest) = bind-ok _ _ p in
      (
        register_one-Registered key_name common_name h h1 v one,
        register_all-Registered issuers h1 h' u rest,
      )

  -- A run that ends without an exit has, for every configured issuer, read the key from Vault, asked
  -- for the published keys and found no modulus but the key's, and been answered that the key is
  -- registered or that the issuer exists already. Where no modulus was found, the issuer may exist with
  -- another key.
  pub main-Registered :
      (h h' : History) (u : Unit {0})
      → Returns (main cfg) w h u h'
      → All (Registered cfg w) cfg.issuers
  unfolding main
  main-Registered h h' u p =
      let (_, h1, _, p1) = bind-ok _ _ p in
      let (_, h2, _, p2) = bind-ok _ _ p1 in
      let (_, h3, _, p3) = bind-ok _ _ p2 in register_all-Registered cfg.issuers h3 h' u p3

  -- The check against the registered key passes where no modulus is found published, or the key's
  -- own; for every other modulus, it exits.
  pub assert_key_matches_registration-found :
      (common_name n : String) (h h' : History) (found : Option Value)
      → published_issuer_modulus cfg common_name w h ≡ (ok found, h')
      → (Agrees found n × (assert_key_matches_registration cfg common_name n w h ≡ (ok tt, h')))
        ⊎ ((¬ (Agrees found n))
            × (assert_key_matches_registration cfg common_name n w h
                ≡ (err (foreign "SystemExit"), h')))
  unfolding assert_key_matches_registration ◌>>=◌
  assert_key_matches_registration-found common_name n h h' found published =
      elim (Bool-cases (may_register found n)) [
        | inl same ↦ inl (may_register-Agrees found n same, rw (published, same))
        | inr other ↦ inr (
          λ agrees. absurd (ground (arith, other, Agrees-may_register found n agrees)),
          rw (published, other),
        )
      ]

  -- Where the Identity Node answers the question for its key by an error, no key is compared: whatever
  -- key Vault holds, the issuer counts as registered once the Identity Node says that it exists.
  pub register_one-unread :
      (key_name common_name : String) (h h1 h2 h3 : History) (jwk : Fields) (proof : String)
      (r r' : Response)
      → create_signing_key cfg key_name w h ≡ (ok tt, h1)
      → get_public_jwk cfg key_name w h1 ≡ (ok jwk, h2)
      → w.send h2 (jwks_request cfg common_name) ≡ ok r
      → (r.status_code == 200) ≡ false
      → build_self_issued_jwt cfg key_name common_name common_name jwk w
          (sent (jwks_request cfg common_name) ∷ h2)
        ≡ (ok proof, h3)
      → w.send h3 (register_request cfg common_name jwk proof) ≡ ok r'
      → registered r'.status_code r'.text ≡ true
      → register_one cfg key_name common_name w h
        ≡ (ok tt, sent (register_request cfg common_name jwk proof) ∷ h3)
  unfolding register_one assert_key_matches_registration published_issuer_modulus request ◌>>=◌
      register_issuer
  register_one-unread key_name common_name h h1 h2 h3 jwk proof r r' created read answer other built
        answer' done =
      rw (created, read, answer, other, built, answer', done)

-- ===== src/SubAgent/Order.antt =====
-- The order of the phases of `run` in cross-domain-id-jag-vc/sub-agent/app.py: nothing is registered,
-- redeemed or asked of the gateway behind a badge or a sender that was refused.
use agent_identity_demos.Prelude.{
  subst, String, ◌<>◌, ◌≡◌, ◌∙◌, sym, ap, false, List, [], ◌∷◌, arith, inl, inr, Bool-cases,
  string_eq,
}
use agent_identity_demos.Prelude.Text.{is_empty}
use agent_identity_demos.Value.{Value, Fields}
use agent_identity_demos.Effects.{
  Exn, ok, err, World, History, ◌>>=◌, drew_token, token_hex, exn_text, fetched_key,
}
use agent_identity_demos.Effects.Invert.{Returns, bind-ok, pure-ok}
use agent_identity_demos.Effects.Quiet.{quiet_rules}
use agent_identity_demos.Effects.Once.{AtMost, Once, once_rules}
use agent_identity_demos.Step.{Step, failed, fails_with, steps_reply, passed}
use agent_identity_demos.Phase.{◌>=>◌, or_stop}
use agent_identity_demos.Phase.Passed.{or_stop-passed, go_on_bind-passed, phase-passed, passed_eq}
use agent_identity_demos.SubAgent.Badge.{
  Config, RunRequest, jwks_url, badge_options, check_claims, verify_subbadge,
}
use agent_identity_demos.SubAgent.Sender.{sender_phase, resolve_sender}
use agent_identity_demos.SubAgent.Run.{verify_step, verify_phase, credentials, run}
use agent_identity_demos.SubAgent.Accepts.{Permits, verify_subbadge-Permits}
use agent_identity_demos.SubAgent.Agrees.{Delegates, Served, resolve_sender-Delegates}

module _ (cfg : Config) (body : RunRequest) (w : World) where
  -- The one event of verifying a badge is the fetch of a key for it.
  verify_subbadge-Once :
      (token : String) → Once (fetched_key (jwks_url cfg) token) (verify_subbadge cfg token body) w
  unfolding verify_subbadge check_claims
  verify_subbadge-Once token = search (once_rules, quiet_rules) depth 60

  abbrev pub refused_step : Exn → Step
  refused_step e =
      failed ("in-agent sub-badge verification failed: " <> exn_text w e) (verify_step cfg)

  -- A badge that is refused ends the run: the answer has that one step, and beside the random token
  -- that the run draws first, all that has happened is at most the fetch of a key for the badge from
  -- Keycloak B.
  pub run-refused :
      (h h' : History) (e : Exn)
      → is_empty body.sub_badge ≡ false
      → verify_subbadge cfg body.sub_badge body w (drew_token ∷ h) ≡ (err e, h')
      → (run cfg body w h ≡ (ok (steps_reply false (refused_step e ∷ [])), h'))
        × AtMost (fetched_key (jwks_url cfg) body.sub_badge) (drew_token ∷ h) h'
  unfolding run credentials verify_phase or_stop ◌>=>◌ ◌>>=◌ token_hex fails_with
  run-refused h h' e given refused = (
    rw (given, refused),
    subst (λ x. AtMost (fetched_key (jwks_url cfg) body.sub_badge) (drew_token ∷ h) x.1) refused
        ((verify_subbadge-Once body.sub_badge).once (drew_token ∷ h)),
  )

module _ (cfg : Config) (body : RunRequest) (w : World) where
  verify_phase-passed :
      (h h' : History) (steps : List Step) (claims : Fields)
      → Returns (verify_phase cfg body) w h (passed steps claims) h'
      → (h1 : History) × Returns (verify_subbadge cfg body.sub_badge body) w h claims h1
  unfolding verify_phase
  verify_phase-passed h h' steps claims p = elim (Bool-cases (is_empty body.sub_badge)) [
    | inl none_ ↦ absurd (ground (arith, pure-ok _ _ _ _ _ (rw none_ at p)))
    | inr some_ ↦
        let q = or_stop-passed _ _ _ _ _ _ _ _ (rw some_ at p) in
        let (found, h1, verified, q1) = bind-ok _ _ q in
        let (act, h2, read, q2) = bind-ok _ _ q1 in
        let same = passed_eq _ _ _ _ (pure-ok _ _ _ _ _ q2) in
        (h1, record { returns = verified.returns ∙ ap (λ c. (ok c, h1)) (sym same) })
  ]

  sender_phase-passed :
      (claims : Fields) (h h' : History) (steps : List Step) (u : Unit {0})
      → Returns (sender_phase cfg body claims) w h (passed steps u) h'
      → (result : Value) × (h1 : History) × Returns (resolve_sender cfg body claims) w h result h1
  unfolding sender_phase
  sender_phase-passed claims h h' steps u p =
      let (s, h1, q, _) = go_on_bind-passed _ _ _ _ _ _ _ _ _ p in
      let (result, h2, resolved, _) = bind-ok _ _ q in (result, h2, resolved)

  -- The credentials for the gateway come only from a run whose badge PyJWT decoded, with the fetched
  -- key, to claims that permit the work, and whose sender has a credential, served by the Identity
  -- Node, that delegates what the badge grants.
  pub credentials-Delegates :
      (h h' : History) (steps : List Step) (access_token : String)
      → Returns (credentials cfg body) w h (passed steps access_token) h'
      → (claims : Fields) × (key : String) × (subject : Fields) × (w.signing_key h
            (jwks_url cfg)
            body.sub_badge
          ≡ ok key)
        × (w.jwt_decode
              (fetched_key (jwks_url cfg) body.sub_badge ∷ h)
              body.sub_badge
              key
              (badge_options cfg)
            ≡ ok claims)
        × Permits cfg body claims
        × Served cfg body w subject
        × Delegates w body claims subject
  unfolding credentials
  credentials-Delegates h h' steps access_token p =
      let (_, claims, h1, in_verify, _, h2, p1) = phase-passed _ _ p in
      let (_, id, h3, in_register, _, h4, p2) = phase-passed _ _ p1 in
      let (_, _, h5, in_badge, _, h6, p3) = phase-passed _ _ p2 in
      let (_, _, h7, in_sender, _, h8, p4) = phase-passed _ _ p3 in
      let (h9, verified) = verify_phase-passed _ _ _ claims in_verify in
      let (header, key, _, _, fetched, decoded, permits) =
        verify_subbadge-Permits cfg body w _ claims _ _ verified in
      let (result, h10, resolved) = sender_phase-passed claims _ _ _ _ in_sender in
      let (subject, served, delegates) =
        resolve_sender-Delegates cfg body w claims _ _ result resolved in
      (claims, key, subject, fetched, decoded, permits, served, delegates)

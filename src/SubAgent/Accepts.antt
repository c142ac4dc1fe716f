-- ===== src/SubAgent/Accepts.antt =====
-- What `_verify_subbadge_sync` of cross-domain-id-jag-vc/sub-agent/app.py has checked of a badge that
-- it accepts.
use agent_identity_demos.Prelude.{
  String, ◌≡◌, refl, ◌∙◌, sym, ap, subst, Bool, true, false, not, ◌∷◌, subset, string_eq, arith,
}
use agent_identity_demos.Value.{
  string_eq_refl, items_eq_strs-strs, Fields, str, arr, obj, nil, end, get, or_value, strs,
  eq_str→eq, eq_strs→eq,
}
use agent_identity_demos.Effects.{
  ◌>>=◌, require, as_dict, jwt_header, signing_key, jwt_decode, ok, World, History, fetched_key,
}
use agent_identity_demos.Effects.Values.{value_contains, as_text→eq}
use agent_identity_demos.Effects.Invert.{
  Returns, bind-ok, lift_bind-ok, asks_bind-ok, require_bind-ok, as_dict_bind-ok, require-ok,
  pure-ok, jwt_header_bind-ok, signing_key_bind-ok, jwt_decode_bind-ok,
}
use agent_identity_demos.Credential.{scope_words}
use agent_identity_demos.SubAgent.Badge.{
  Config, RunRequest, init, ends_at, is_empty_list, allowed_scopes, check_claims, badge_options,
  jwks_url, verify_subbadge,
}

-- The badge is for this agent and spawned it, its signed chain is ours without this hop, it grants
-- some scope and none beyond the allowed ones, and it names the repository and the intent.
abbrev pub Permits : Config → RunRequest → Fields → Type 0
Permits cfg body claims =
    (get "client_id" claims ≡ str cfg.sub_agent_client_id)
    × (ends_at cfg.sub_agent_client_id body.act_chain ≡ true)
    × ((act : Fields) × (or_value (get "act" claims) (obj end) ≡ obj act)
        × (or_value (get "act_chain" act) (arr nil) ≡ arr (strs (init body.act_chain))))
    × ((scope : String) × (or_value (get "scope" claims) (str "") ≡ str scope)
        × (is_empty_list (scope_words scope) ≡ false)
        × (subset (scope_words scope) allowed_scopes ≡ true))
    × (value_contains (or_value (get "resource" claims) (arr nil)) body.repo ≡ ok true)
    × (value_contains (or_value (get "intent" claims) (arr nil)) body.intent ≡ ok true)

not-false : (b : Bool) → not b ≡ true → b ≡ false
not-false true h = ground arith
not-false false h = refl

module _ (cfg : Config) (body : RunRequest) (w : World) where
  check_claims-Permits :
      (claims : Fields) (h h' : History) (u : Unit {0})
      → Returns (check_claims cfg body claims) w h u h'
      → Permits cfg body claims
  unfolding check_claims
  check_claims-Permits claims h h' u p =
      let p1 = asks_bind-ok _ _ p in
      let (target, p2) = require_bind-ok _ _ _ p1 in
      let (chain, h1, in_act, p3) = bind-ok _ _ p2 in
      let (act, is_act, in_chain) = as_dict_bind-ok _ _ in_act in
      let (ends, p4) = require_bind-ok _ _ _ p3 in
      let p5 = asks_bind-ok _ _ (asks_bind-ok _ _ p4) in
      let (signed, p6) = require_bind-ok _ _ _ p5 in
      let (text, is_scope, p7) = lift_bind-ok _ _ p6 in
      let (some_scope, p8) = require_bind-ok _ _ _ p7 in
      let p9 = asks_bind-ok _ _ p8 in
      let (within, p10) = require_bind-ok _ _ _ p9 in
      let p11 = asks_bind-ok _ _ p10 in
      let (_, h2, in_resource, p12) = bind-ok _ _ p11 in
      let (found, is_found, in_found) = lift_bind-ok _ _ in_resource in
      let (named, is_named, in_named) = lift_bind-ok _ _ p12 in
      (
        eq_str→eq _ _ target,
        ends,
        (
          act,
          is_act,
          sym (pure-ok _ _ _ _ _ in_chain) ∙ eq_strs→eq chain (init body.act_chain) signed,
        ),
        (text, as_text→eq _ _ is_scope, not-false _ some_scope, within),
        is_found ∙ ap ok (require-ok _ _ _ _ _ _ in_found),
        is_named ∙ ap ok (require-ok _ _ _ _ _ _ in_named),
      )

  -- An accepted badge is an ID-JAG assertion that PyJWT decodes with the fetched key, for this issuer
  -- and this audience, to claims that permit the work.
  pub verify_subbadge-Permits :
      (token : String) (claims : Fields) (h h' : History)
      → Returns (verify_subbadge cfg token body) w h claims h'
      → (header : Fields) × (key : String) × (w.jwt_header token ≡ ok header)
        × (get "typ" header ≡ str "oauth-id-jag+jwt")
        × (w.signing_key h (jwks_url cfg) token ≡ ok key)
        × (w.jwt_decode (fetched_key (jwks_url cfg) token ∷ h) token key (badge_options cfg)
            ≡ ok claims)
        × Permits cfg body claims
  unfolding verify_subbadge
  verify_subbadge-Permits token claims h h' p =
      let (header, read, p1) = jwt_header_bind-ok _ _ p in
      let (is_typ, p2) = require_bind-ok _ _ _ (asks_bind-ok _ _ p1) in
      let (key, fetched, p3) = signing_key_bind-ok _ _ _ p2 in
      let (decoded, verified, p4) = jwt_decode_bind-ok _ _ _ _ p3 in
      let (u, h4, checked, p5) = bind-ok _ _ p4 in
      let same = pure-ok _ _ _ _ _ p5 in
      (
        header,
        key,
        read,
        eq_str→eq _ _ is_typ,
        fetched,
        verified ∙ ap ok (sym same),
        subst (Permits cfg body) (sym same) (check_claims-Permits decoded _ _ _ checked),
      )

  -- The checks of claims that permit the work all pass.
  Permits-check_claims :
      (claims : Fields) (h : History)
      → Permits cfg body claims
      → check_claims cfg body claims w h ≡ (ok tt, h)
  unfolding check_claims ◌>>=◌ require as_dict
  Permits-check_claims claims h
        (target, ends, (act, is_act, is_chain), (scope, is_scope, some_, within), repo, intent) =
      rw (
        target,
        string_eq_refl cfg.sub_agent_client_id,
        is_act,
        is_chain,
        ends,
        items_eq_strs-strs (init body.act_chain),
        is_scope,
        some_,
        within,
        repo,
        intent,
      )

  -- Every badge with these properties is accepted, and nothing but the fetch of the key happens.
  pub Permits-verify_subbadge :
      (token key : String) (header claims : Fields) (h : History)
      → w.jwt_header token ≡ ok header
      → get "typ" header ≡ str "oauth-id-jag+jwt"
      → w.signing_key h (jwks_url cfg) token ≡ ok key
      → w.jwt_decode (fetched_key (jwks_url cfg) token ∷ h) token key (badge_options cfg)
        ≡ ok claims
      → Permits cfg body claims
      → verify_subbadge cfg token body w h ≡ (ok claims, fetched_key (jwks_url cfg) token ∷ h)
  unfolding verify_subbadge ◌>>=◌ require jwt_header signing_key jwt_decode
  Permits-verify_subbadge token key header claims h read typ fetched decoded permits = rw (
    read,
    typ,
    string_eq_refl "oauth-id-jag+jwt",
    fetched,
    decoded,
    Permits-check_claims claims (fetched_key (jwks_url cfg) token ∷ h) permits,
  )

-- ===== src/Gateway/Verified.antt =====
-- What `_verify_token` of cross-domain-id-jag-vc/gitea-gateway/app.py accepts, and what becomes of
-- a request whose token it refuses.
use agent_identity_demos.Prelude.{
  String, ◌<>◌, ◌≡◌, ◌⊎◌, inl, inr, false, Option, none, some, [], ◌∷◌, Option-cases,
}
use agent_identity_demos.Value.{Value, Fields, str}
use agent_identity_demos.Effects.{
  Exn, http_exception, Result-cases, ok, err, World, History, ◌>>=◌, DecodeOptions, exn_text,
  signing_key, fetched_key, jwt_decode,
}
use agent_identity_demos.Gateway.Config.{Config}
use agent_identity_demos.Gateway.Token.{
  Headers, bearer_token, verify_token, checked_token, require_token, require_source_read_token,
}
use agent_identity_demos.Gateway.Policy.{ResourceContext}
use agent_identity_demos.Gateway.Routes.{
  CreateRepo, OpenPr, read_source, list_repos, create_repo, push_file, open_pr,
}

-- What the gateway asks of PyJWT: the issuer and RS256, and no audience.
abbrev pub issuer_options : Config → DecodeOptions
issuer_options cfg = record {
  algorithms = "RS256" ∷ [];
  audience = none;
  issuer = cfg.issuer;
  required = [];
  verify_aud = false;
}

module _ (cfg : Config) (a : Option String) (w : World) (h : History) where
  -- The token is a bearer token, its key was fetched, and PyJWT decodes it to these claims.
  abbrev pub Accepted : String → String → Fields → Type 0
  Accepted token key claims =
      (bearer_token a ≡ some token)
      × (w.signing_key h cfg.jwks_url token ≡ ok key)
      × (w.jwt_decode (fetched_key cfg.jwks_url token ∷ h) token key (issuer_options cfg)
          ≡ ok claims)
      × (verify_token cfg a w h ≡ (ok claims, fetched_key cfg.jwks_url token ∷ h))

  abbrev refusal : Exn → Value
  refusal x = str ("invalid token: " <> exn_text w x)

  -- A token is accepted with claims that PyJWT decoded from it, under the key of its own header and
  -- for the issuer of the realm; or the answer is 401.
  pub verify_token-cases :
      ((token : String) × (key : String) × (claims : Fields) × Accepted token key claims)
      ⊎ ((message : Value) × (h' : History) × (verify_token cfg a w h
            ≡ (err (http_exception 401 message), h')))
  unfolding verify_token ◌>>=◌ signing_key jwt_decode
  verify_token-cases = elim (Option-cases (bearer_token a)) [
    | inl missing ↦ inr (str "missing bearer token", h, rw missing)
    | inr (token, e) ↦ elim (Result-cases (w.signing_key h cfg.jwks_url token)) [
      | inl (key, found) ↦
          elim (Result-cases
            (w.jwt_decode (fetched_key cfg.jwks_url token ∷ h) token key (issuer_options cfg))) [
              | inl (claims, good) ↦ inl (token, key, claims, (e, found, good, rw (e, found, good)))
              | inr (x, bad) ↦
                  inr (refusal x, fetched_key cfg.jwks_url token ∷ h, rw (e, found, bad))
            ]
      | inr (x, bad) ↦ inr (refusal x, fetched_key cfg.jwks_url token ∷ h, rw (e, bad))
    ]
  ]

module _ (cfg : Config) (hs : Headers) (w : World) (h h' : History) (e : Exn)
    (refused : verify_token cfg hs.authorization w h ≡ (err e, h')) where
  -- Behind a refused token no handler runs: each answers the refusal and does nothing else.
  pub handlers-refused :
      (owner repo path : String) (context : Option ResourceContext) (pr : OpenPr)
      (body : CreateRepo)
      → (list_repos cfg hs w h ≡ (err e, h'))
        × (create_repo cfg hs body w h ≡ (err e, h'))
        × (read_source cfg hs owner repo path w h ≡ (err e, h'))
        × (push_file cfg hs owner repo context w h ≡ (err e, h'))
        × (open_pr cfg hs owner repo pr w h ≡ (err e, h'))
  unfolding list_repos create_repo read_source push_file open_pr require_token
      require_source_read_token checked_token ◌>>=◌
  handlers-refused owner repo path context pr body =
      (rw refused, rw refused, rw refused, rw refused, rw refused)

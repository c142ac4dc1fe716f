-- ===== src/Client/Vc/Expiry.antt =====
-- What `_still_valid` of cross-domain-id-jag-vc/agntcy_identity_client/vc.py compares, and when.
use agent_identity_demos.Prelude.{
  ℕ, ◌<◌, String, ◌≡◌, refl, ◌∙◌, sym, ap, subst, inl, inr, ◌⊎◌, Bool, true, false, arith, ◌∷◌,
}
use agent_identity_demos.Value.{Fields, str, get, truthy}
use agent_identity_demos.Effects.{
  Result, ok, err, value_error, World, History, read_clock, M, pure, lift, time, ◌>>=◌,
}
use agent_identity_demos.Effects.Invert.{Returns, lift_bind-ok, if-ok}
use agent_identity_demos.Effects.Values.{as_text→eq}
use agent_identity_demos.Client.Vc

-- From one history to the other, nothing but the clock was read.
pub data Clocked (h : History) : History → Type 0 where
  still : Clocked h h
  tick : {h' : History} → Clocked h h' → Clocked h (read_clock ∷ h')

pub Clocked-trans : {h h1 h2 : History} → Clocked h h1 → Clocked h1 h2 → Clocked h h2
Clocked-trans c still = c
Clocked-trans c (tick d) = tick (Clocked-trans c d)

-- The credential has no date of expiry, or the clock, read from this history on, was before it, where
-- `time.mktime` reads the date in the zone of the host.
abbrev pub Unexpired : World → History → Fields → Type 0
Unexpired w h credential =
    (truthy (get "expirationDate" credential) ≡ false)
    ⊎ ((expires : String) × (expiry : ℕ) × (get "expirationDate" credential ≡ str expires)
        × (w.mktime expires ≡ ok expiry)
        × (w.time h < expiry))

-- So it was at a moment after this history, up to which only the clock was read.
abbrev pub Fresh : World → History → Fields → Type 0
Fresh w h credential = (h' : History) × Clocked h h' × Unexpired w h' credential

before-true :
    (now : ℕ) (r : Result ℕ)
    → Vc.before now r ≡ ok true
    → (expiry : ℕ) × (r ≡ ok expiry) × (now < expiry)
before-true now (ok expiry) p = (expiry, refl, ground (arith, p))
before-true now (err (value_error s)) p = absurd (ground (arith, p))
before-true now (err e) p = absurd (ground (arith, p))

module _ {w : World} where
  time_bind-ok :
      {B : Type 0} {h h' : History} {b : B} (k : ℕ → M B)
      → Returns (time >>= k) w h b h'
      → Returns (k (w.time h)) w (read_clock ∷ h) b h'
  unfolding time ◌>>=◌
  time_bind-ok k p = record { returns = p.returns }

  pub pure-history :
      {A : Type 0} {h h' : History} {b : A} (a : A) → Returns (pure a) w h b h' → h' ≡ h
  unfolding pure
  pure-history a p = sym (ap (λ x. x.1) p.returns)

  pub lift-history :
      {A : Type 0} {h h' : History} {b : A} (r : Result A) → Returns (lift r) w h b h' → h' ≡ h
  unfolding lift
  lift-history r p = sym (ap (λ x. x.1) p.returns)

  expiry_after-ok :
      (expires : String) (now : ℕ) (h h' : History) (b : Bool)
      → Returns (Vc.expiry_after expires now) w h b h'
      → (Vc.before now (w.mktime expires) ≡ ok b) × (h' ≡ h)
  unfolding Vc.expiry_after
  expiry_after-ok expires now h h' b p = (ap (λ x. x.0) p.returns, sym (ap (λ x. x.1) p.returns))

  pub still_valid-ok :
      (credential : Fields) (h h' : History) (b : Bool)
      → Returns (Vc.still_valid credential) w h b h'
      → Clocked h h' × (b ≡ true → Unexpired w h credential)
  unfolding Vc.still_valid
  still_valid-ok credential h h' b p =
      elim (if-ok (truthy (get "expirationDate" credential)) _ _ _ _ _ _ p) [
        | inl (dated, q) ↦
            let q1 = time_bind-ok _ q in
            let (expires, is_text, q2) = lift_bind-ok _ _ q1 in
            let (compared, same) = expiry_after-ok _ _ _ _ _ q2 in
            (
              subst (Clocked h) (sym same) (tick still),
              λ yes_.
                  let (expiry, read, early) = before-true _ _ (compared ∙ ap ok yes_) in
                  inr (expires, expiry, as_text→eq _ _ is_text, read, early),
            )
        | inr (undated, q) ↦ (subst (Clocked h) (sym (pure-history _ q)) still, λ _. inl undated)
      ]

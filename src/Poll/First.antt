-- ===== src/Poll/First.antt =====
-- A loop that waits ends at the first attempt that is ready, and no later than after its number of
-- attempts.
use agent_identity_demos.Prelude.{
  ℕ, zero, suc, ◌<◌, ◌≡◌, refl, Bool, true, false, arith, ◌⊎◌, inl, inr,
}
use agent_identity_demos.Effects.{ok, World, History, M, pure, ◌>>=◌}
use agent_identity_demos.Poll.{poll}

module _ (probe : M Bool) (pause : ℕ → M (Unit {0})) (w : World) where
  -- `Ready n k h h'`: of `n` attempts from the events `h` on, the first `k` are not ready, each
  -- followed by a pause, and the next one is, which leaves the events at `h'`.
  pub data Ready : ℕ → ℕ → History → History → Type 0 where
    now : {n : ℕ} {h h' : History} → probe w h ≡ (ok true, h') → Ready (suc n) zero h h'
    later :
        {n k : ℕ} {h h1 h2 h' : History}
        → probe w h ≡ (ok false, h1)
        → pause n w h1 ≡ (ok tt, h2)
        → Ready n k h2 h'
        → Ready (suc n) (suc k) h h'

  -- `Late n h h'`: none of `n` attempts is ready.
  pub data Late : ℕ → History → History → Type 0 where
    over : {h : History} → Late zero h h
    next :
        {n : ℕ} {h h1 h2 h' : History}
        → probe w h ≡ (ok false, h1)
        → pause n w h1 ≡ (ok tt, h2)
        → Late n h2 h'
        → Late (suc n) h h'

  Ready-poll :
      {n k : ℕ} {h h' : History}
      → Ready n k h h'
      → (poll n probe pause w h ≡ (ok true, h')) × (k < n)
  unfolding poll pure ◌>>=◌
  Ready-poll (now p) = (rw p, omega arith)
  Ready-poll (later p q r) = let (same, less) = Ready-poll r in (rw (p, q) same, omega arith)

  Late-poll : {n : ℕ} {h h' : History} → Late n h h' → poll n probe pause w h ≡ (ok false, h')
  unfolding poll pure ◌>>=◌
  Late-poll over = refl
  Late-poll (next p q r) = rw (p, q) (Late-poll r)

  attempted :
      (n : ℕ) (h h1 h2 : History) (b : Bool)
      → probe w h ≡ (ok b, h1)
      → pause n w h1 ≡ (ok tt, h2)
      → ((k : ℕ) × (h' : History) × Ready n k h2 h') ⊎ ((h' : History) × Late n h2 h')
      → ((k : ℕ) × (h' : History) × Ready (suc n) k h h') ⊎ ((h' : History) × Late (suc n) h h')
  attempted n h h1 h2 true p q rest = inl (0, h1, now p)
  attempted n h h1 h2 false p q (inl (k, h', r)) = inl (suc k, h', later p q r)
  attempted n h h1 h2 false p q (inr (h', l)) = inr (h', next p q l)

  module _ (quiet : (h : History) → (b : Bool) × (h' : History) × (probe w h ≡ (ok b, h')))
      (pauses : (n : ℕ) (h : History) → (h' : History) × (pause n w h ≡ (ok tt, h'))) where
    attempts :
        (n : ℕ) (h : History)
        → ((k : ℕ) × (h' : History) × Ready n k h h') ⊎ ((h' : History) × Late n h h')
    attempts zero h = inr (h, over)
    attempts (suc n) h =
        let (b, h1, p) = quiet h in
        let (h2, q) = pauses n h1 in attempted n h h1 h2 b p q (attempts n h2)

    -- The loop always ends. Either one of its attempts is the first to be ready, and it answers true
    -- right then; or none is, and it answers false.
    pub poll-first :
        (n : ℕ) (h : History)
        → ((k : ℕ) × (h' : History) × Ready n k h h'
            × (k < n)
            × (poll n probe pause w h ≡ (ok true, h')))
          ⊎ ((h' : History) × Late n h h' × (poll n probe pause w h ≡ (ok false, h')))
    poll-first n h = elim (attempts n h) [
      | inl (k, h', r) ↦ let (same, less) = Ready-poll r in inl (k, h', r, less, same)
      | inr (h', l) ↦ inr (h', l, Late-poll l)
    ]

-- ===== src/NodeInit/Waits.antt =====
-- The waits of cross-domain-id-jag-vc/identity-node-init.py end.
use agent_identity_demos.Prelude.{ℕ, ◌<◌, ◌≡◌, refl, Bool, ◌⊎◌, inl, inr}
use agent_identity_demos.Effects.{foreign, ok, err, World, History, M, ◌>>=◌, sleep}
use agent_identity_demos.Poll.First.{Ready, Late, poll-first}
use agent_identity_demos.NodeInit.Setup.{wait_for, tried, is_true, pause, max_tries}

module _ (probe : M Bool) (w : World) where
  tried-returns : (h : History) → (b : Bool) × (h' : History) × (tried probe w h ≡ (ok b, h'))
  unfolding tried ◌>>=◌
  tried-returns h = (is_true (probe w h).0, (probe w h).1, refl)

  pause-returns : (n : ℕ) (h : History) → (h' : History) × (pause n w h ≡ (ok tt, h'))
  unfolding sleep
  pause-returns n h = (_, refl)

  -- Waiting for a service always ends, whatever its probe does: it returns right after the first of
  -- at most 30 attempts that is ready, or it exits after 30 attempts of which none was, with a pause
  -- of three seconds behind each attempt that failed.
  pub wait_for-ends :
      (h : History)
      → ((k : ℕ) × (h' : History) × Ready (tried probe) pause w max_tries k h h'
          × (k < max_tries)
          × (wait_for probe w h ≡ (ok tt, h')))
        ⊎ ((h' : History) × Late (tried probe) pause w max_tries h h'
            × (wait_for probe w h ≡ (err (foreign "SystemExit"), h')))
  unfolding wait_for ◌>>=◌
  wait_for-ends h =
      elim (poll-first (tried probe) pause w tried-returns pause-returns max_tries h) [
        | inl (k, h', ready, less, same) ↦ inl (k, h', ready, less, rw same)
        | inr (h', late, same) ↦ inr (h', late, rw same)
      ]

-- ===== src/DirInit/Ready.antt =====
-- The wait of cross-domain-id-jag-vc/agent-dir-init/init.py ends, and the agents are pushed once, to a
-- Directory that is ready.
use agent_identity_demos.Prelude.{ℕ, zero, suc, ◌<◌, String, ◌≡◌, refl, Bool, ◌∷◌, ◌⊎◌, inl, inr}
use agent_identity_demos.Effects.{foreign, ok, err, World, History, ◌>>=◌, sleep, pushed_all}
use agent_identity_demos.Poll.First.{Ready, Late, poll-first}
use agent_identity_demos.DirInit.{
  ping, pause, wait_for_directory, agents, push_agents, main, is_ready,
}

module _ (url created_at : String) (w : World) where
  ping-returns : (h : History) → (b : Bool) × (h' : History) × (ping url w h ≡ (ok b, h'))
  unfolding ping
  ping-returns h = (is_ready (w.dir_ping h url), _, refl)

  pause-returns : (n : ℕ) (h : History) → (h' : History) × (pause 3 n w h ≡ (ok tt, h'))
  unfolding pause sleep ◌>>=◌
  pause-returns zero h = (h, refl)
  pause-returns (suc n) h = (_, refl)

  -- The script always ends. If one of at most 30 attempts to reach the Directory is ready, it pushes
  -- the three agents right after the first that is, and answers what the Directory does; and if none
  -- is, it exits without a push.
  pub main-ends :
      (h : History)
      → ((k : ℕ) × (h' : History) × Ready (ping url) (pause 3) w 30 k h h'
          × (k < 30)
          × (main url created_at w h ≡ (
            w.dir_push_all h' url (agents created_at),
            pushed_all url (agents created_at) ∷ h',
          )))
        ⊎ ((h' : History) × Late (ping url) (pause 3) w 30 h h'
            × (main url created_at w h ≡ (err (foreign "SystemExit"), h')))
  unfolding main wait_for_directory push_agents ◌>>=◌
  main-ends h = elim (poll-first (ping url) (pause 3) w ping-returns pause-returns 30 h) [
    | inl (k, h', ready, less, same) ↦ inl (k, h', ready, less, rw same)
    | inr (h', late, same) ↦ inr (h', late, rw same)
  ]

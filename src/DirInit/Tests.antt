-- ===== src/DirInit/Tests.antt =====
-- A run of cross-domain-id-jag-vc/agent-dir-init/init.py.
use agent_identity_demos.Prelude.{ℕ, ◌<◌, ◌≡◌, [], ◌∷◌, ◌⊎◌}
use agent_identity_demos.Value.{end, obj}
use agent_identity_demos.Effects.{foreign, err, World, History, pushed_all}
use agent_identity_demos.Poll.First.{Ready, Late}
use agent_identity_demos.DirInit
use agent_identity_demos.DirInit.Ready as Ends
use agent_identity_demos.Fixtures.{world_of, answer}

abbrev world : World
world = world_of (answer 200 (obj end)) end

main-ends_example :
    ((k : ℕ) × (h' : History) × Ready (DirInit.ping "dir:8888") (DirInit.pause 3) world 30 k [] h'
      × (k < 30)
      × (DirInit.main "dir:8888" "2026-01-01T00:00:00Z" world [] ≡ (
        world.dir_push_all h' "dir:8888" (DirInit.agents "2026-01-01T00:00:00Z"),
        pushed_all "dir:8888" (DirInit.agents "2026-01-01T00:00:00Z") ∷ h',
      )))
    ⊎ ((h' : History) × Late (DirInit.ping "dir:8888") (DirInit.pause 3) world 30 [] h'
        × (DirInit.main "dir:8888" "2026-01-01T00:00:00Z" world []
            ≡ (err (foreign "SystemExit"), h')))
main-ends_example = Ends.main-ends "dir:8888" "2026-01-01T00:00:00Z" world []

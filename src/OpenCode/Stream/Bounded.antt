-- ===== src/OpenCode/Stream/Bounded.antt =====
-- The relay of cross-domain-id-jag-vc/opencode-agent/app.py ends with the first line that raises.
use agent_identity_demos.Prelude.{ap, String, ◌≡◌, Option, none, List, [], ◌∷◌, ◌++◌}
use agent_identity_demos.Effects.{Exn, err, World}
use agent_identity_demos.OpenCode.Stream.{retry, next_frames, line_frame, relay, plan_events}

module _ (w : World) where
  relay-failed :
      (before after : List String) (line : String) (e : Exn) (stop : Option Exn)
      → line_frame w line ≡ err e
      → relay w (before ++ (line ∷ after)) stop ≡ relay w (before ++ (line ∷ [])) none
  unfolding relay
  relay-failed [] after line e stop failed = rw failed
  relay-failed (b ∷ before) after line e stop failed =
      ap (next_frames w (line_frame w b)) (relay-failed before after line e stop failed)

  -- A line that raises an exception ends the relay: neither the later lines nor the end of the stream
  -- matter.
  pub plan_events-failed :
      (before after : List String) (line : String) (stop : Option Exn) (e : Exn)
      → line_frame w line ≡ err e
      → plan_events w (before ++ (line ∷ after)) stop ≡ plan_events w (before ++ (line ∷ [])) none
  unfolding plan_events
  plan_events-failed before after line stop e failed =
      ap (λ fs. retry ∷ fs) (relay-failed before after line e stop failed)

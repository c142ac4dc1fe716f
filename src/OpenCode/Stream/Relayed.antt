-- ===== src/OpenCode/Stream/Relayed.antt =====
-- What the relay of cross-domain-id-jag-vc/opencode-agent/app.py makes of the model's events.
use agent_identity_demos.Prelude.{
  ap, String, ◌≡◌, refl, true, false, none, some, List, [], ◌∷◌, string_eq,
}
use agent_identity_demos.Prelude.Text.{starts_with, encode}
use agent_identity_demos.Value.{Value, Fields, str, obj, end, field, get, get_default}
use agent_identity_demos.Effects.{ok, World}
use agent_identity_demos.OpenCode.Finding.{drop_text}
use agent_identity_demos.OpenCode.Stream.{
  Frame, retry, frame, event_frame, line_frame, relay, plan_events,
}

-- The line is the event of a piece of the model's text.
abbrev pub Delta : World → String → Value → Type 0
Delta w line text =
    (starts_with line "data: " ≡ true)
    × (evt : Fields) × (w.loads (encode (drop_text 6 line)) ≡ some (obj evt))
    × (get_default "type" (str "") evt ≡ str "message.part.delta")
    × (k : String) × (v : Value) × (props : Fields) × (get_default "properties" (obj end) evt
        ≡ obj (field k v props))
    × (get "field" (field k v props) ≡ str "text")
    × (get_default "delta" (str "") (field k v props) ≡ text)

-- The stream carries these pieces of text, in this order, between lines that hold no event.
pub data Carries (w : World) : List String → List Value → Type 0 where
  over : Carries w [] []
  blank :
      {line : String} {lines : List String} {texts : List Value}
      → starts_with line "data: " ≡ false
      → Carries w lines texts
      → Carries w (line ∷ lines) texts
  delta :
      {line : String} {text : Value} {lines : List String} {texts : List Value}
      → Delta w line text
      → Carries w lines texts
      → Carries w (line ∷ lines) (text ∷ texts)

-- `{"kind": "delta", "text": text}` for each piece.
abbrev pub delta_frames : List Value → List Frame
delta_frames [] = []
delta_frames (text ∷ texts) =
    frame (obj (field "kind" (str "delta") (field "text" text end))) ∷ delta_frames texts

module _ (w : World) where
  line_frame-blank :
      (line : String) → starts_with line "data: " ≡ false → line_frame w line ≡ ok none
  unfolding line_frame
  line_frame-blank line p = rw p

  line_frame-Delta :
      (line : String) (text : Value)
      → Delta w line text
      → line_frame w line
        ≡ ok (some (frame (obj (field "kind" (str "delta") (field "text" text end)))))
  unfolding line_frame event_frame string_eq
  line_frame-Delta line text
        (is_data, evt, is_event, is_delta, k, v, props, has_props, is_text, has_text) =
      rw (is_data, is_event, is_delta, has_props, is_text, has_text)

  relay-Carries :
      {lines : List String} {texts : List Value}
      → Carries w lines texts
      → relay w lines none ≡ delta_frames texts
  unfolding relay
  relay-Carries over = refl
  relay-Carries (blank p c) = rw (line_frame-blank _ p) (relay-Carries c)
  relay-Carries (delta {text = text} d c) = rw (line_frame-Delta _ _ d) (
      ap (λ fs. frame (obj (field "kind" (str "delta") (field "text" text end))) ∷ fs)
        (relay-Carries c))

  -- A stream that carries pieces of the model's text, between lines that hold no event, is relayed as
  -- the frame that begins it and one frame for each piece, in their order, with its text.
  pub plan_events-Carries :
      (lines : List String) (texts : List Value)
      → Carries w lines texts
      → plan_events w lines none ≡ retry ∷ delta_frames texts
  unfolding plan_events
  plan_events-Carries lines texts c = ap (λ fs. retry ∷ fs) (relay-Carries c)

-- ===== src/OpenCode/Stream.antt =====
-- `_plan_event_gen` of cross-domain-id-jag-vc/opencode-agent/app.py: the lines of the model server's
-- event stream, reduced to the frames that the webapp shows. The lines, and the exception with which
-- the stream ends if it fails, are the argument. `Relayed` is about the
-- frames of a stream, and `Bounded` about its end.
pub mod Relayed
pub mod Bounded
use agent_identity_demos.Prelude.{
  ℕ, String, Bool, true, false, ◌&&◌, Option, none, some, List, [], ◌∷◌, ◌==◌, string_eq,
  if◌then◌else◌,
}
use agent_identity_demos.Prelude.Text.{starts_with, take_text, encode}
use agent_identity_demos.Value.{
  Value, Fields, str, obj, end, field, get, get_default, or_value, eq_str,
}
use agent_identity_demos.Effects.{Exn, Result, ok, err, World, dict_result, exn_text}
use agent_identity_demos.OpenCode.Finding.{drop_text}

-- `retry: 2000`, `data: {json.dumps(v)}`, and `: heartbeat`.
pub data Frame : Type 0 where
  retry : Frame
  frame : Value → Frame
  heartbeat : Frame

abbrev frame_of : String → String → Value → Option Frame
frame_of kind name v = some (frame (obj (field "kind" (str kind) (field name v end))))

abbrev delta_frame : Result Fields → Result (Option Frame)
delta_frame (err e) = err e
delta_frame (ok props) = ok (
    if eq_str (get "field" props) "text"
    then frame_of "delta" "text" (get_default "delta" (str "") props)
    else none)

abbrev reasoning_frame : Result Fields → Result (Option Frame)
reasoning_frame (err e) = err e
reasoning_frame (ok part) = ok (
    if eq_str (get "type" part) "reasoning"
    then frame_of "reasoning" "text" (get_default "text" (str "") part)
    else none)

abbrev part_frame : Result Fields → Result (Option Frame)
part_frame (err e) = err e
part_frame (ok props) = reasoning_frame (dict_result (or_value (get "part" props) (obj end)))

abbrev step_frame : Result Fields → Result (Option Frame)
step_frame (err e) = err e
step_frame (ok props) = ok (frame_of "step" "agent" (get_default "agent" (str "") props))

-- The frame of one event, if it has one.
unfoldable pub event_frame : Fields → Result (Option Frame)
event_frame evt =
    let etype = get_default "type" (str "") evt in
    let props = dict_result (or_value (get_default "properties" (obj end) evt) (obj end)) in
    if eq_str etype "message.part.delta"
    then delta_frame props
    else if eq_str etype "message.part.updated"
    then part_frame props
    else if eq_str etype "session.next.step.started"
    then step_frame props
    else if eq_str etype "server.heartbeat"
    then ok (some heartbeat)
    else ok none

abbrev evented : Result Fields → Result (Option Frame)
evented (err e) = err e
evented (ok evt) = event_frame evt

-- The event of a line, where it holds one that is JSON.
unfoldable pub line_frame : World → String → Result (Option Frame)
unfolding event_frame drop_text starts_with encode
line_frame w line =
    if starts_with line "data: "
    then elim (w.loads (encode (drop_text 6 line))) [
      | none ↦ ok none
      | some v ↦ evented (dict_result v)
    ]
    else ok none

-- `yield f"data: {json.dumps({'kind': 'error', 'error': str(exc)[:200]})}"`
abbrev pub error_frame : World → Exn → Frame
error_frame w e =
    frame
      (obj (field "kind" (str "error") (field "error" (str (take_text 200 (exn_text w e))) end)))

abbrev pub next_frames : World → Result (Option Frame) → List Frame → List Frame
next_frames w (err e) rest = error_frame w e ∷ []
next_frames w (ok none) rest = rest
next_frames w (ok (some f)) rest = f ∷ rest

unfoldable pub relay : World → List String → Option Exn → List Frame
unfolding line_frame
relay w [] none = []
relay w [] (some e) = error_frame w e ∷ []
relay w (line ∷ lines) stop = next_frames w (line_frame w line) (relay w lines stop)

unfoldable pub plan_events : World → List String → Option Exn → List Frame
unfolding relay
plan_events w lines stop = retry ∷ relay w lines stop

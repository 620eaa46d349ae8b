-- ===== src/Kiroproto/Stream.antt =====
-- internal/kiroproto/eventstream.go: a whole event stream, frame by frame. The JSON payloads are decoded
-- by parameters; the events go to a callback with a state of its own.
pub mod Parse
pub mod Delivery
pub mod Events
use kiroxy.Prelude.{
  ℕ, zero, suc, ◌+◌, Bool, true, false, not, if◌then◌else◌, List, [], ◌∷◌, Option, none, some,
  length,
}
use kiroxy.Prelude.Bytes.{Bytes, codes, beq, is_empty}
use kiroxy.Kiroproto.Frame.{FrameError, FrameResult, end_of_stream, bad, frame, read_frame}
use kiroxy.Kiroproto.Headers.{extract_frame_headers}
use kiroxy.Kiroproto.ToolUse.{Fragment, ToolState, Completed, idle, update, flush}
use kiroxy.Respconv.Events.{Event, EventType}

-- `TokenUsage` of a metadata payload, with the fields that an `Event` keeps.
pub record TokenUsage : Type 0 where
  pub uncached_input_tokens : ℕ
  pub output_tokens : ℕ
  pub cache_read_input_tokens : ℕ
  pub cache_write_input_tokens : ℕ

-- The decoders of the payloads; none is an error, but for an exception, whose message is then empty.
pub record Decoders : Type 0 where
  pub exception_message : Bytes → Bytes
  pub assistant : Bytes → Option Bytes
  pub reasoning : Bytes → Option (Bytes × Bytes × Bytes)
  pub tool_use : Bytes → Option Fragment
  pub metadata : Bytes → Option TokenUsage
  pub metering : Bytes → Option (ℕ × ℕ)
  pub invalid_state : Bytes → Option (Bytes × Bytes)
  pub message_metadata : Bytes → Option Bytes
  pub context_usage : Bytes → Option ℕ

-- The event types by their names; those that are ignored, known or not, are `other`.
unfoldable pub event_type_of : Bytes → EventType
event_type_of s =
    if beq s (codes "assistantResponseEvent")
    then EventType.assistant_response
    else if beq s (codes "reasoningContentEvent")
    then EventType.reasoning_content
    else if beq s (codes "toolUseEvent")
    then EventType.tool_use
    else if beq s (codes "metadataEvent")
    then EventType.metadata
    else if beq s (codes "meteringEvent")
    then EventType.metering
    else if beq s (codes "invalidStateEvent")
    then EventType.invalid_state
    else if beq s (codes "messageMetadataEvent")
    then EventType.message_metadata
    else if beq s (codes "contextUsageEvent")
    then EventType.context_usage
    else EventType.other

abbrev pub empty_event : EventType → Event
empty_event t = record {
  event_type = t;
  content = [];
  thinking_text = [];
  tool_name = [];
  tool_use_id = [];
  tool_input = [];
  tool_stop = false;
  input_tokens = 0;
  output_tokens = 0;
  cache_read_input_tokens = 0;
  cache_write_input_tokens = 0;
  signature = [];
  redacted_content = [];
  context_usage_percentage = 0;
  conversation_id = [];
  invalid_state_reason = [];
  error_message = [];
}

-- The event of a completed tool call.
abbrev pub tool_event : Completed → Event
tool_event c = record (empty_event EventType.tool_use) {
  tool_name = c.name;
  tool_use_id = c.use_id;
  tool_input = c.input;
  tool_stop = true;
}

abbrev pub map_tools : List Completed → List Event
map_tools [] = []
map_tools (c ∷ cs) = tool_event c ∷ map_tools cs

-- What a frame gives: the events for the callback and the tool call that is under way, the last event of
-- the stream, or an error.
pub data Decoded : Type 0 where
  events : List Event → ToolState → Decoded
  last : Event → Decoded
  decode_error : EventType → Decoded

-- The end of `ParseStream`.
pub data StreamEnd : Type 0 where
  finished cancelled : StreamEnd
  bad_frame : FrameError → StreamEnd
  bad_payload : EventType → StreamEnd

module _ (decode : Decoders) (fresh : ℕ → Bytes) where
  -- One event, or an error where the payload must be decoded, or nothing where it need not.
  abbrev one : Event → ToolState → Decoded
  one e a = events (e ∷ []) a

  -- The cases of the event type. `n` counts the frames, for the identifiers that are made up.
  unfoldable pub decode_payload : ℕ → EventType → Bytes → ToolState → Decoded
  decode_payload n EventType.assistant_response p a = elim (decode.assistant p) [
    | none ↦ decode_error EventType.assistant_response
    | some c ↦ one (record (empty_event EventType.assistant_response) { content = c }) a
  ]
  decode_payload n EventType.reasoning_content p a = elim (decode.reasoning p) [
    | none ↦ decode_error EventType.reasoning_content
    | some (t, s, r) ↦
        one
          (record (empty_event EventType.reasoning_content) {
            thinking_text = t;
            signature = s;
            redacted_content = r;
          })
          a
  ]
  decode_payload n EventType.tool_use p a = elim (decode.tool_use p) [
    | none ↦ events [] a
    | some f ↦ let (b, cs) = update (fresh n) f a in events (map_tools cs) b
  ]
  decode_payload n EventType.metadata p a = elim (decode.metadata p) [
    | none ↦ events [] a
    | some u ↦
        one
          (record (empty_event EventType.metadata) {
            input_tokens = u.uncached_input_tokens + u.cache_read_input_tokens;
            output_tokens = u.output_tokens;
            cache_read_input_tokens = u.cache_read_input_tokens;
            cache_write_input_tokens = u.cache_write_input_tokens;
          })
          a
  ]
  decode_payload n EventType.metering p a = elim (decode.metering p) [
    | none ↦ events [] a
    | some (i, o) ↦
        one (record (empty_event EventType.metering) { input_tokens = i; output_tokens = o }) a
  ]
  decode_payload n EventType.invalid_state p a = elim (decode.invalid_state p) [
    | none ↦ decode_error EventType.invalid_state
    | some (r, m) ↦
        one
          (record (empty_event EventType.invalid_state) {
            invalid_state_reason = r;
            error_message = m;
          })
          a
  ]
  decode_payload n EventType.message_metadata p a = elim (decode.message_metadata p) [
    | none ↦ events [] a
    | some c ↦ one (record (empty_event EventType.message_metadata) { conversation_id = c }) a
  ]
  decode_payload n EventType.context_usage p a = elim (decode.context_usage p) [
    | none ↦ events [] a
    | some c ↦ one (record (empty_event EventType.context_usage) { context_usage_percentage = c }) a
  ]
  decode_payload n EventType.exception p a = events [] a
  decode_payload n EventType.other p a = events [] a

  -- A frame, by the types in its headers.
  unfoldable pub decode_frame : ℕ → Bytes → Bytes → ToolState → Decoded
  unfolding event_type_of decode_payload
  decode_frame n headers p a =
      let (message_type, event_type) = extract_frame_headers headers in
      if beq message_type (codes "exception")
      then last (record (empty_event EventType.exception) {
        error_message = decode.exception_message p;
        invalid_state_reason = event_type;
      })
      else decode_payload n (event_type_of event_type) p a

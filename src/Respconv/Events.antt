-- ===== src/Respconv/Events.antt =====
-- internal/respconv/event_processor.go: one Kiro event through the accumulator.
pub mod Buffers
pub mod Signals
pub mod Stops
use kiroxy.Prelude.{
  ℕ, ◌+◌, ◌/◌, Bool, true, false, not, ◌&&◌, ◌||◌, ltb, leb, if◌then◌else◌, List, [], ◌∷◌, ◌++◌,
  Option, none, some,
}
use kiroxy.Prelude.Bytes.{Bytes, beq, is_empty}
use kiroxy.Strings.Utf8.{rune_count}
use kiroxy.Respconv.ThinkingTags.{TagState, Parsed, parse_thinking_tags}
use kiroxy.Respconv.ChunkDelta.{compute_delta}
use kiroxy.Respconv.Accumulator.{
  Accumulator, EventDelta, ToolCall, StopReason, no_delta, accumulate_thinking, emit_text,
  stop_at_budget,
}

-- The event types that `ProcessEvent` tells apart.
pub data EventType : Type 0 where
  assistant_response reasoning_content tool_use metadata metering invalid_state exception :
      EventType
  message_metadata context_usage other : EventType

-- `kiroproto.Event`, with the fields that the response path reads.
pub record Event : Type 0 where
  pub event_type : EventType
  pub content : Bytes
  pub thinking_text : Bytes
  pub tool_name : Bytes
  pub tool_use_id : Bytes
  pub tool_input : Bytes
  pub tool_stop : Bool
  pub input_tokens : ℕ
  pub output_tokens : ℕ
  pub cache_read_input_tokens : ℕ
  pub cache_write_input_tokens : ℕ
  pub signature : Bytes
  pub redacted_content : Bytes
  pub context_usage_percentage : ℕ
  pub conversation_id : Bytes
  pub invalid_state_reason : Bytes
  pub error_message : Bytes

unfoldable pub error_text : Event → Bytes
error_text e = if is_empty e.error_message then e.invalid_state_reason else e.error_message

-- A lookup in the map of shortened tool names.
unfoldable pub lookup_name : Bytes → List (Bytes × Bytes) → Option Bytes
lookup_name k [] = none
lookup_name k ((j, v) ∷ m) = if beq j k then some v else lookup_name k m

unfoldable pub restored_name : Accumulator → Bytes → Bytes
restored_name a name = elim (lookup_name name a.tool_name_map) [ none ↦ name | some v ↦ v ]

abbrev tool_delta : Event → Bytes → EventDelta → EventDelta
tool_delta e name d = record d {
  tool_stop = true;
  tool_use_id = e.tool_use_id;
  tool_name = name;
  tool_input = e.tool_input;
}

-- The accumulator after the input's runes are counted.
abbrev count_tool_runes : Accumulator → Bytes → Accumulator
count_tool_runes a input =
    let b = record a { output_rune_count = a.output_rune_count + rune_count input } in
    if ltb 0 b.max_tokens_budget && leb b.max_tokens_budget (b.output_rune_count / 4)
    then stop_at_budget b
    else b

record_tool : (Bytes → Bool) → Accumulator → Event → Bytes → EventDelta → Accumulator × EventDelta
record_tool is_valid_json a e name d =
    let b =
      count_tool_runes
        (record a {
          has_tool_use = true;
          tool_parse_error = a.tool_parse_error || not (is_valid_json e.tool_input);
        })
        e.tool_input in
    let call : ToolCall = record { id = e.tool_use_id; name = name; input = e.tool_input } in
    let c = record b { tool_calls = b.tool_calls ++ (call ∷ []) } in
    (
      c,
      if c.local_stop
          then record (tool_delta e name d) { stop_signal = true; stop_reason = c.stop_reason }
          else tool_delta e name d,
    )

-- `is_valid_json` stands for `jsontext.Value.IsValid`.
unfoldable pub process_tool_use_event :
    (Bytes → Bool) → Accumulator → Event → EventDelta → Accumulator × EventDelta
unfolding record_tool
process_tool_use_event is_valid_json a e d =
    if not e.tool_stop || a.local_stop
    then (a, d)
    else let name = restored_name a e.tool_name in
      if not (is_empty a.drop_tool_name) && beq e.tool_name a.drop_tool_name
      then (a, tool_delta e name d)
      else record_tool is_valid_json a e name d

-- The stop signal of an assistant response, with its sequence.
abbrev signal_text_stop : Accumulator × EventDelta → Accumulator × EventDelta
signal_text_stop (a, d) = (
  a,
  if a.local_stop
      then record d {
        stop_signal = true;
        stop_reason = a.stop_reason;
        stop_sequence = a.stop_sequence;
      }
      else d,
)

text_part : Accumulator × EventDelta → Bytes → Accumulator × EventDelta
text_part (a, d) text =
    let (b, out) = emit_text a text in
    if is_empty text then (a, d) else (b, if is_empty out then d else record d { text_delta = out })

thinking_part : Accumulator → Bytes → Accumulator × EventDelta
thinking_part a thinking =
    if is_empty thinking then (a, no_delta) else accumulate_thinking a thinking no_delta

unfoldable pub process_assistant : Accumulator → Event → Accumulator × EventDelta
unfolding text_part thinking_part
process_assistant a e =
    let delta = compute_delta e.content a.last_content in
    let b = record a { last_content = e.content } in
    let p = parse_thinking_tags a.tags delta in
    if not (is_empty delta) && not a.local_stop
    then signal_text_stop (text_part (thinking_part (record b { tags = p.tags }) p.thinking) p.text)
    else (b, no_delta)

unfoldable pub process_reasoning : Accumulator → Event → Accumulator × EventDelta
process_reasoning a e =
    let b = record a { signature = if is_empty e.signature then a.signature else e.signature } in
    let delta = compute_delta e.thinking_text b.last_thinking in
    let c = record b { last_thinking = e.thinking_text } in
    if not (is_empty e.redacted_content)
    then (b, record no_delta { redacted_content = e.redacted_content })
    else if b.tags.suppress
    then (b, no_delta)
    else if not (is_empty delta) && not c.local_stop
    then accumulate_thinking c delta no_delta
    else (c, no_delta)

unfoldable pub process_by_type :
    (Bytes → Bool) → EventType → Accumulator → Event → Accumulator × EventDelta
unfolding process_assistant process_reasoning
process_by_type is_valid_json assistant_response a e = process_assistant a e
process_by_type is_valid_json reasoning_content a e = process_reasoning a e
process_by_type is_valid_json tool_use a e = process_tool_use_event is_valid_json a e no_delta
process_by_type is_valid_json metadata a e = (
  record a {
    has_metadata = true;
    input_tokens = e.input_tokens;
    output_tokens = e.output_tokens;
    cache_read_input_tokens = e.cache_read_input_tokens;
    cache_write_input_tokens = e.cache_write_input_tokens;
  },
  no_delta,
)
process_by_type is_valid_json metering a e = (
  if a.has_metadata
      then a
      else record a { input_tokens = e.input_tokens; output_tokens = e.output_tokens },
  no_delta,
)
process_by_type is_valid_json message_metadata a e =
    (record a { conversation_id = e.conversation_id }, no_delta)
process_by_type is_valid_json context_usage a e = (
  record a { has_context_usage = true; context_usage_percentage = e.context_usage_percentage },
  no_delta,
)
process_by_type is_valid_json invalid_state a e =
    (a, record no_delta { is_error = true; error_message = error_text e })
process_by_type is_valid_json exception a e =
    (a, record no_delta { is_error = true; error_message = error_text e })
process_by_type is_valid_json other a e = (a, no_delta)

unfoldable pub process_event : (Bytes → Bool) → Accumulator → Event → Accumulator × EventDelta
unfolding process_by_type
process_event is_valid_json a e = process_by_type is_valid_json e.event_type a e

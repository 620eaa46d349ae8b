-- ===== src/Respconv/Streaming/Handler.antt =====
-- internal/respconv/streaming.go: `SSEWriter.HandleEvent`, `Finish`, `TruncatedFinish` and `WriteError`.
use kiroxy.Prelude.{ℕ, Bool, true, false, not, if◌then◌else◌, List, [], Option}
use kiroxy.Prelude.Bytes.{Bytes, is_empty, codes}
use kiroxy.Respconv.Accumulator.{
  EventDelta, StopReason, finalize_stream, resolve_stop_reason, resolved_usage,
}
use kiroxy.Respconv.Events.{Event, EventType, process_event}
use kiroxy.Respconv.Streaming.{
  BlockType, Sse, Writer, write_sse, ensure_started, close_active_block, open_block, write_delta,
  fire_visible_output, write_thinking_delta, write_text_delta, write_rest,
}

-- `fails` is that of `write_sse`, `estimate` that of `resolved_usage`.
module _ (fails : List Sse → Sse → Bool) (estimate : ℕ → ℕ → ℕ) where
  -- The closing events, for a response with the stop reason and the stop sequence given.
  unfoldable pub write_close : StopReason → Option Bytes → Writer → Writer
  write_close r q w =
      write_sse fails Sse.message_stop
        (write_sse fails (Sse.message_delta r q (resolved_usage estimate w.acc)) w)

  -- The writer with everything written and its last block closed.
  unfoldable pub finalize : Writer → Writer
  unfolding ensure_started write_rest close_active_block
  finalize w =
      let v = ensure_started fails w in
      let (a, (t, thought)) = finalize_stream v.acc in
      close_active_block fails (write_rest fails t thought (record v { acc = a }))

  unfoldable pub finish : Writer → Writer
  unfolding finalize write_close
  finish w = let v = finalize w in let (r, q) = resolve_stop_reason v.acc in write_close r q v

  -- The stop reason of a severed stream: `max_tokens` in place of `end_turn`.
  abbrev truncated_reason : StopReason → StopReason
  truncated_reason StopReason.unset = StopReason.max_tokens
  truncated_reason StopReason.end_turn = StopReason.max_tokens
  truncated_reason r = r

  unfoldable pub truncated_finish : Writer → Writer
  unfolding finalize write_close
  truncated_finish w =
      let v = finalize w in
      let (r, q) = resolve_stop_reason v.acc in write_close (truncated_reason r) q v

  unfoldable pub write_error : Bytes → Bytes → Writer → Writer
  unfolding close_active_block
  write_error kind message w =
      write_sse fails (Sse.sse_error kind message) (close_active_block fails w)

  -- Ends the response where the delta says so; `true` ends the stream.
  abbrev pub finish_if : Bool → Writer → Writer × Bool
  finish_if stop w = if stop then (finish w, true) else (w, false)

  -- The deltas of an assistant response.
  unfoldable pub write_deltas : EventDelta → Writer → Writer
  unfolding write_thinking_delta write_text_delta ensure_started
  write_deltas d w =
      let v =
        if is_empty d.thinking_delta then w else write_thinking_delta fails d.thinking_delta w in
      if is_empty d.text_delta
      then v
      else write_text_delta fails d.text_delta (ensure_started fails v)

  unfoldable pub handle_text : EventDelta → Writer → Writer × Bool
  unfolding write_deltas finish
  handle_text d w = finish_if d.stop_signal (write_deltas d w)

  unfoldable pub handle_reasoning : EventDelta → Writer → Writer × Bool
  unfolding write_thinking_delta ensure_started close_active_block open_block finish
  handle_reasoning d w =
      if not (is_empty d.redacted_content)
      then (
        close_active_block fails (
            open_block fails BlockType.redacted_thinking d.redacted_content []
              (close_active_block fails (ensure_started fails w))),
        false,
      )
      else if is_empty d.thinking_delta
      then (w, false)
      else finish_if d.stop_signal (write_thinking_delta fails d.thinking_delta w)

  -- The block of a tool call; it stays open.
  unfoldable pub write_tool : EventDelta → Writer → Writer
  unfolding ensure_started close_active_block open_block write_delta fire_visible_output
  write_tool d w = write_delta fails BlockType.tool_use d.tool_input (
      open_block fails BlockType.tool_use d.tool_use_id d.tool_name
        (close_active_block fails (fire_visible_output fails (ensure_started fails w))))

  unfoldable pub handle_tool_use : EventDelta → Writer → Writer × Bool
  unfolding write_thinking_delta write_tool finish
  handle_tool_use d w =
      if not (is_empty d.thinking_delta)
      then finish_if d.stop_signal (write_thinking_delta fails d.thinking_delta w)
      else if not d.tool_stop
      then (w, false)
      else finish_if d.stop_signal (write_tool d w)

  unfoldable pub handle_by_type : EventType → EventDelta → Writer → Writer × Bool
  unfolding handle_text handle_reasoning handle_tool_use write_error
  handle_by_type EventType.assistant_response d w = handle_text d w
  handle_by_type EventType.reasoning_content d w = handle_reasoning d w
  handle_by_type EventType.tool_use d w = handle_tool_use d w
  handle_by_type EventType.invalid_state d w =
      (if w.started then write_error (codes "invalid_state") d.error_message w else w, true)
  handle_by_type EventType.exception d w =
      (if w.started then write_error (codes "api_error") d.error_message w else w, true)
  handle_by_type _ d w = (w, false)

  -- `is_valid_json` is that of `process_event`.
  unfoldable pub handle_event : (Bytes → Bool) → Event → Writer → Writer × Bool
  unfolding handle_by_type
  handle_event is_valid_json e w =
      let (a, d) = process_event is_valid_json w.acc e in
      handle_by_type e.event_type d (record w { acc = a })

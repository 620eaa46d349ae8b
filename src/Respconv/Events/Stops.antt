-- ===== src/Respconv/Events/Stops.antt =====
-- internal/respconv/event_processor.go: the budget and the local stop over one event.
use kiroxy.Prelude.{
  ◌≡◌, inl, inr, Bool, true, false, refl, ◌++◌, [], if◌then◌else◌, arith, Option-cases,
}
use kiroxy.Prelude.Bytes.{Bytes, is_empty}
use kiroxy.Respconv.ThinkingTags.{parse_thinking_tags}
use kiroxy.Respconv.ChunkDelta.{compute_delta}
use kiroxy.Respconv.Accumulator.{
  Accumulator, EventDelta, no_delta, apply_stop_sequence_filter, first_match, accumulate_thinking,
  emit_text, budget_text, append_text, write_thinking,
}
use kiroxy.Respconv.Accumulator.Budget.{WithinBudget, apply_max_tokens_budget-WithinBudget}
use kiroxy.Respconv.Events.{
  Event, EventType, process_event, process_by_type, process_assistant, process_reasoning, text_part,
  thinking_part, process_tool_use_event, record_tool,
}

apply_stop_sequence_filter-WithinBudget :
    (a : Accumulator) (delta : Bytes)
    → WithinBudget a
    → WithinBudget ((apply_stop_sequence_filter a delta).0)
unfolding WithinBudget apply_stop_sequence_filter
apply_stop_sequence_filter-WithinBudget a delta h =
    elim (Option-cases (first_match a.stop_sequences (a.stop_seq_pending ++ delta))) [
      | inl e ↦ ground (arith, e)
      | inr (m, e) ↦ ground (arith, e)
    ]

append_text-WithinBudget :
    (p : Accumulator × Bytes) → WithinBudget (p.0) → WithinBudget ((append_text (budget_text p)).0)
unfolding WithinBudget append_text budget_text
append_text-WithinBudget (a, t) h = ground (arith, apply_max_tokens_budget-WithinBudget a t)

emit_text-WithinBudget :
    (a : Accumulator) (t : Bytes) → WithinBudget a → WithinBudget ((emit_text a t).0)
unfolding WithinBudget emit_text
emit_text-WithinBudget a t h =
    let b : Accumulator = record a { has_text = true } in
    ground (
      arith,
      append_text-WithinBudget (b, t),
      append_text-WithinBudget (apply_stop_sequence_filter b t),
      apply_stop_sequence_filter-WithinBudget b t,
    )

accumulate_thinking-WithinBudget :
    (a : Accumulator) (t : Bytes) (d : EventDelta) → WithinBudget ((accumulate_thinking a t d).0)
unfolding WithinBudget accumulate_thinking write_thinking
accumulate_thinking-WithinBudget a t d = ground (arith, apply_max_tokens_budget-WithinBudget a t)

process_assistant-WithinBudget :
    (a : Accumulator) (e : Event) → WithinBudget a → WithinBudget ((process_assistant a e).0)
unfolding process_assistant WithinBudget text_part thinking_part
process_assistant-WithinBudget a e h =
    let delta = compute_delta e.content a.last_content in
    let p = parse_thinking_tags a.tags delta in
    let b : Accumulator = record a { last_content = e.content; tags = p.tags } in
    let q = thinking_part b p.thinking in
    ground (
      arith,
      emit_text-WithinBudget (q.0) p.text,
      accumulate_thinking-WithinBudget b p.thinking no_delta,
    )

process_tool_use_event-WithinBudget :
    (valid : Bytes → Bool) (a : Accumulator) (e : Event) (d : EventDelta)
    → WithinBudget a
    → WithinBudget ((process_tool_use_event valid a e d).0)
unfolding process_tool_use_event record_tool WithinBudget
process_tool_use_event-WithinBudget valid a e d h = ground arith

process_reasoning-WithinBudget :
    (a : Accumulator) (e : Event) → WithinBudget a → WithinBudget ((process_reasoning a e).0)
unfolding process_reasoning WithinBudget
process_reasoning-WithinBudget a e h =
    let c : Accumulator = record a {
      signature = if is_empty e.signature then a.signature else e.signature;
      last_thinking = e.thinking_text;
    } in
    ground (
      arith,
      accumulate_thinking-WithinBudget c (compute_delta e.thinking_text a.last_thinking) no_delta,
    )

pub process_by_type-WithinBudget :
    (valid : Bytes → Bool) (t : EventType) (a : Accumulator) (e : Event)
    → WithinBudget a
    → WithinBudget ((process_by_type valid t a e).0)
unfolding process_by_type WithinBudget
process_by_type-WithinBudget valid EventType.assistant_response a e h =
    process_assistant-WithinBudget a e h
process_by_type-WithinBudget valid EventType.reasoning_content a e h =
    process_reasoning-WithinBudget a e h
process_by_type-WithinBudget valid EventType.tool_use a e h =
    process_tool_use_event-WithinBudget valid a e no_delta h
process_by_type-WithinBudget valid EventType.metering a e h = ground arith
process_by_type-WithinBudget valid _ a e h = h

-- If a response has stopped or counted fewer tokens than its budget, then so it has after any
-- event, tool calls included. A budget of 0 is none.
pub process_event-WithinBudget :
    (valid : Bytes → Bool) (a : Accumulator) (e : Event)
    → WithinBudget a
    → WithinBudget ((process_event valid a e).0)
unfolding process_event
process_event-WithinBudget valid a e h = process_by_type-WithinBudget valid e.event_type a e h

-- No visible output: neither text, nor thinking, nor a tool call.
unfoldable pub Silent : Accumulator → Accumulator × EventDelta → Type 0
Silent a (b, d) =
    (b.local_stop ≡ true)
    × ((d.text_delta ≡ [])
        × ((d.thinking_delta ≡ []) × ((d.tool_stop ≡ false) × (b.tool_calls ≡ a.tool_calls))))

process_by_type-Silent :
    (valid : Bytes → Bool) (t : EventType) (a : Accumulator) (e : Event)
    → a.local_stop ≡ true
    → Silent a (process_by_type valid t a e)
unfolding process_by_type process_assistant process_reasoning process_tool_use_event Silent
process_by_type-Silent valid EventType.assistant_response a e h = ground arith
process_by_type-Silent valid EventType.reasoning_content a e h = ground arith
process_by_type-Silent valid EventType.tool_use a e h = ground arith
process_by_type-Silent valid EventType.metering a e h = ground arith
process_by_type-Silent valid _ a e h = (h, (refl, (refl, (refl, refl))))

-- Once a response has stopped, every event leaves it stopped and emits no text, no thinking and no
-- tool call.
process_event-Silent :
    (valid : Bytes → Bool) (a : Accumulator) (e : Event)
    → a.local_stop ≡ true
    → Silent a (process_event valid a e)
unfolding process_event
process_event-Silent valid a e h = process_by_type-Silent valid e.event_type a e h

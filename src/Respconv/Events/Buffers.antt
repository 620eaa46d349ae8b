-- ===== src/Respconv/Events/Buffers.antt =====
-- internal/respconv/event_processor.go: the buffers of the non-streaming path hold what the
-- streaming path has emitted.
use kiroxy.Prelude.{
  ℕ, ◌-◌, ◌*◌, ◌≡◌, inl, inr, Bool, true, refl, sym, ◌++◌, [], if◌then◌else◌, arith, append-nil,
  Option-cases,
}
use kiroxy.Prelude.Bytes.{Bytes, is_empty, is_empty-cases}
use kiroxy.Strings.Utf8.{rune_count}
use kiroxy.Respconv.ThinkingTags.{parse_thinking_tags}
use kiroxy.Respconv.ChunkDelta.{compute_delta}
use kiroxy.Respconv.Accumulator.{
  Accumulator, EventDelta, no_delta, apply_max_tokens_budget, apply_stop_sequence_filter,
  first_match, accumulate_thinking, emit_text, over_budget, budget_text, append_text,
  write_thinking,
}
use kiroxy.Respconv.Events.{
  Event, EventType, process_event, process_by_type, process_assistant, process_reasoning, text_part,
  thinking_part, process_tool_use_event, record_tool,
}

-- The buffers of two accumulators are equal.
SameBuffers : Accumulator → Accumulator → Type 0
SameBuffers a b = (b.text_buf ≡ a.text_buf) × (b.thinking_buf ≡ a.thinking_buf)

over_budget-SameBuffers :
    (a : Accumulator) (delta : Bytes) (runes remaining : ℕ)
    → SameBuffers a ((over_budget a delta runes remaining).0)
unfolding over_budget SameBuffers
over_budget-SameBuffers a delta runes remaining = ground arith

apply_max_tokens_budget-SameBuffers :
    (a : Accumulator) (delta : Bytes) → SameBuffers a ((apply_max_tokens_budget a delta).0)
unfolding SameBuffers apply_max_tokens_budget
apply_max_tokens_budget-SameBuffers a delta = ground (
  arith,
  over_budget-SameBuffers a delta (rune_count delta)
      (a.max_tokens_budget * 4 - a.output_rune_count),
)

apply_stop_sequence_filter-SameBuffers :
    (a : Accumulator) (delta : Bytes) → SameBuffers a ((apply_stop_sequence_filter a delta).0)
unfolding SameBuffers apply_stop_sequence_filter
apply_stop_sequence_filter-SameBuffers a delta =
    elim (Option-cases (first_match a.stop_sequences (a.stop_seq_pending ++ delta))) [
      | inl e ↦ ground (arith, e)
      | inr (m, e) ↦ ground (arith, e)
    ]

budget_text-SameBuffers : (a : Accumulator) (t : Bytes) → SameBuffers a ((budget_text (a, t)).0)
unfolding SameBuffers budget_text
budget_text-SameBuffers a t = ground (arith, apply_max_tokens_budget-SameBuffers a t)

-- What a filter lets through, limited by the budget, is what the buffer gains.
append_text-budget_text :
    (p : Accumulator × Bytes)
    → (((append_text (budget_text p)).0).text_buf
        ≡ (p.0).text_buf ++ (append_text (budget_text p)).1)
      × (((append_text (budget_text p)).0).thinking_buf ≡ (p.0).thinking_buf)
unfolding append_text SameBuffers
append_text-budget_text (a, t) = ground (arith, budget_text-SameBuffers a t)

emit_text-buffers :
    (a : Accumulator) (t : Bytes)
    → (((emit_text a t).0).text_buf ≡ a.text_buf ++ (emit_text a t).1)
      × (((emit_text a t).0).thinking_buf ≡ a.thinking_buf)
unfolding emit_text SameBuffers
emit_text-buffers a t =
    let b : Accumulator = record a { has_text = true } in
    ground (
      arith,
      append_text-budget_text (b, t),
      append_text-budget_text (apply_stop_sequence_filter b t),
      apply_stop_sequence_filter-SameBuffers b t,
    )

accumulate_thinking-buffers :
    (a : Accumulator) (t : Bytes) (d : EventDelta)
    → d.thinking_delta ≡ []
    → (((accumulate_thinking a t d).0).text_buf ≡ a.text_buf)
      × ((((accumulate_thinking a t d).0).thinking_buf
            ≡ a.thinking_buf ++ ((accumulate_thinking a t d).1).thinking_delta)
          × (((accumulate_thinking a t d).1).text_delta ≡ d.text_delta))
unfolding accumulate_thinking write_thinking SameBuffers
accumulate_thinking-buffers a t d h = ground (
  arith,
  apply_max_tokens_budget-SameBuffers a t,
  append-nil a.thinking_buf,
  is_empty-cases ((apply_max_tokens_budget a t).1),
)

-- The buffers after a step are those before it with what the step emits behind them.
unfoldable pub Buffered : Accumulator → Accumulator × EventDelta → Type 0
Buffered a (b, d) =
    (b.text_buf ≡ a.text_buf ++ d.text_delta)
    × (b.thinking_buf ≡ a.thinking_buf ++ d.thinking_delta)

process_tool_use_event-Buffered :
    (valid : Bytes → Bool) (a : Accumulator) (e : Event)
    → Buffered a (process_tool_use_event valid a e no_delta)
unfolding Buffered process_tool_use_event record_tool
process_tool_use_event-Buffered valid a e =
    ground (arith, append-nil a.text_buf, append-nil a.thinking_buf)

process_reasoning-Buffered : (a : Accumulator) (e : Event) → Buffered a (process_reasoning a e)
unfolding Buffered process_reasoning
process_reasoning-Buffered a e =
    let c : Accumulator = record a {
      signature = if is_empty e.signature then a.signature else e.signature;
      last_thinking = e.thinking_text;
    } in
    ground (
      arith,
      append-nil a.text_buf,
      append-nil a.thinking_buf,
      accumulate_thinking-buffers c (compute_delta e.thinking_text a.last_thinking) no_delta refl,
    )

thinking_part-Buffered :
    (a : Accumulator) (t : Bytes)
    → Buffered a (thinking_part a t) × (((thinking_part a t).1).text_delta ≡ [])
unfolding Buffered thinking_part
thinking_part-Buffered a t = ground (
  arith,
  append-nil a.text_buf,
  append-nil a.thinking_buf,
  accumulate_thinking-buffers a t no_delta refl,
)

text_part-Buffered :
    (a b : Accumulator) (d : EventDelta) (t : Bytes)
    → Buffered a (b, d)
    → d.text_delta ≡ []
    → Buffered a (text_part (b, d) t)
unfolding Buffered text_part
text_part-Buffered a b d t h k =
    ground (arith, append-nil a.text_buf, emit_text-buffers b t, is_empty-cases ((emit_text b t).1))

process_assistant-Buffered : (a : Accumulator) (e : Event) → Buffered a (process_assistant a e)
unfolding process_assistant Buffered
process_assistant-Buffered a e =
    let delta = compute_delta e.content a.last_content in
    let p = parse_thinking_tags a.tags delta in
    let b : Accumulator = record a { last_content = e.content; tags = p.tags } in
    let q = thinking_part b p.thinking in
    ground (
      arith,
      append-nil a.text_buf,
      append-nil a.thinking_buf,
      text_part-Buffered a (q.0) (q.1) p.text ((thinking_part-Buffered b p.thinking).0)
          ((thinking_part-Buffered b p.thinking).1),
    )

process_by_type-Buffered :
    (valid : Bytes → Bool) (t : EventType) (a : Accumulator) (e : Event)
    → Buffered a (process_by_type valid t a e)
unfolding process_by_type Buffered
process_by_type-Buffered valid EventType.assistant_response a e = process_assistant-Buffered a e
process_by_type-Buffered valid EventType.reasoning_content a e = process_reasoning-Buffered a e
process_by_type-Buffered valid EventType.tool_use a e = process_tool_use_event-Buffered valid a e
process_by_type-Buffered valid EventType.metering a e =
    ground (arith, append-nil a.text_buf, append-nil a.thinking_buf)
process_by_type-Buffered valid _ a e =
    (sym (append-nil a.text_buf), sym (append-nil a.thinking_buf))

-- Every event adds to the buffers of text and of thinking exactly the text and the thinking that
-- its delta emits.
pub process_event-Buffered :
    (valid : Bytes → Bool) (a : Accumulator) (e : Event) → Buffered a (process_event valid a e)
unfolding process_event
process_event-Buffered valid a e = process_by_type-Buffered valid e.event_type a e

-- ===== src/Respconv/Accumulator.antt =====
-- internal/respconv/accumulator.go with token_budget.go, stop_sequence.go, usage.go and finalize.go:
-- the state that a response accumulates, and the filters that its text passes.
pub mod State
pub mod Budget
pub mod Sequences
use kiroxy.Prelude.{
  ℕ, zero, suc, ◌+◌, ◌-◌, ◌*◌, ◌/◌, max, Bool, true, false, not, ◌&&◌, ◌||◌, ltb, leb, ◌==◌,
  if◌then◌else◌, List, [], ◌∷◌, ◌++◌, Option, none, some, length, take, drop,
}
use kiroxy.Prelude.Bytes.{Bytes, is_empty}
use kiroxy.Strings.Index.{index}
use kiroxy.Strings.Utf8.{rune_count, rune_offset}
use kiroxy.Respconv.ThinkingTags.{TagState, Parsed, finalize_thinking_tags}
unfoldable pub use State.*

-- Local stop by the token budget.
abbrev pub stop_at_budget : Accumulator → Accumulator
stop_at_budget a = record a { local_stop = true; stop_reason = max_tokens }

-- `applyMaxTokensBudget` past the budget, with `remaining` runes left.
unfoldable pub over_budget : Accumulator → Bytes → ℕ → ℕ → Accumulator × Bytes
over_budget a delta runes remaining =
    if remaining == 0
    then (stop_at_budget a, [])
    else if ltb remaining runes
    then (
      stop_at_budget (record a { output_rune_count = a.output_rune_count + remaining }),
      take (rune_offset remaining delta) delta,
    )
    else let b = record a { output_rune_count = a.output_rune_count + runes } in
      (if leb a.max_tokens_budget (b.output_rune_count / 4) then stop_at_budget b else b, delta)

unfoldable pub apply_max_tokens_budget : Accumulator → Bytes → Accumulator × Bytes
unfolding over_budget
apply_max_tokens_budget a delta =
    let runes = rune_count delta in
    let total = a.output_rune_count + runes in
    if a.max_tokens_budget == 0
    then (record a { output_rune_count = total }, delta)
    else if ltb (total / 4) a.max_tokens_budget
    then (record a { output_rune_count = total }, delta)
    else over_budget a delta runes (a.max_tokens_budget * 4 - a.output_rune_count)

-- The first configured sequence that occurs in `s`, with its position.
unfoldable pub first_match : List Bytes → Bytes → Option (Bytes × ℕ)
first_match [] s = none
first_match (q ∷ qs) s =
    let rest = first_match qs s in elim (index q s) [ some i ↦ some (q, i) | none ↦ rest ]

unfoldable pub apply_stop_sequence_filter : Accumulator → Bytes → Accumulator × Bytes
apply_stop_sequence_filter a delta =
    let pending = a.stop_seq_pending ++ delta in
    elim (first_match a.stop_sequences pending) [
      | some (q, i) ↦ (
        record a {
          stop_seq_pending = [];
          local_stop = true;
          stop_reason = stop_sequence;
          stop_sequence = q;
        },
        take i pending,
      )
      | none ↦
          let runes = rune_count pending in
          let cut = rune_offset (runes - a.stop_seq_max_keep) pending in
          if leb runes a.stop_seq_max_keep
          then (record a { stop_seq_pending = pending }, [])
          else (record a { stop_seq_pending = drop cut pending }, take cut pending)
    ]

unfoldable pub flush_stop_seq_pending : Accumulator → Accumulator × Bytes
flush_stop_seq_pending a = (record a { stop_seq_pending = [] }, a.stop_seq_pending)

-- The reason and the sequence of the Anthropic response; no sequence is null.
unfoldable pub resolve_stop_reason : Accumulator → StopReason × Option Bytes
resolve_stop_reason a = elim a.stop_reason [
  | unset ↦ (if a.has_tool_use then tool_use else end_turn, none)
  | stop_sequence ↦ (stop_sequence, some a.stop_sequence)
  | r ↦ (r, none)
]

unfoldable pub is_empty_visible_end_turn : Accumulator → Bool
is_empty_visible_end_turn a =
    if a.local_stop
    then false
    else ltb 0 (length a.thinking_buf) && length a.text_buf == 0 && not a.has_tool_use

-- A thinking delta that is not empty goes to the buffer and into the delta.
unfoldable pub write_thinking : Accumulator × Bytes → EventDelta → Accumulator × EventDelta
write_thinking (a, t) d =
    if is_empty t
    then (a, d)
    else (record a { thinking_buf = a.thinking_buf ++ t }, record d { thinking_delta = t })

-- The stop signal of an event's delta, once the accumulator has stopped.
abbrev pub signal_stop : Accumulator × EventDelta → Accumulator × EventDelta
signal_stop (a, d) =
    (a, if a.local_stop then record d { stop_signal = true; stop_reason = a.stop_reason } else d)

unfoldable pub accumulate_thinking : Accumulator → Bytes → EventDelta → Accumulator × EventDelta
unfolding write_thinking
accumulate_thinking a thought d = signal_stop (write_thinking (apply_max_tokens_budget a thought) d)

-- The estimate of the output tokens from the runes counted.
unfoldable pub estimated_output_tokens : Accumulator → ℕ
estimated_output_tokens a = if a.output_rune_count == 0 then 0 else max 1 (a.output_rune_count / 4)

-- `estimate p w` stands for `int(max(0, min(100, p)) / 100 * w)`, computed in floating point.
unfoldable pub resolved_usage : (ℕ → ℕ → ℕ) → Accumulator → ℕ × ℕ
resolved_usage estimate a =
    if a.has_metadata || ltb 0 a.input_tokens || ltb 0 a.output_tokens
    then (a.input_tokens, a.output_tokens)
    else if ltb 0 a.pre_counted_input_tokens
    then (a.pre_counted_input_tokens, estimated_output_tokens a)
    else if a.has_context_usage && ltb 0 a.context_window_size
    then (
      estimate a.context_usage_percentage a.context_window_size - estimated_output_tokens a,
      estimated_output_tokens a,
    )
    else (0, 0)

-- Visible text on its way out: the stop sequences, then the budget, then the buffer.
unfoldable pub budget_text : Accumulator × Bytes → Accumulator × Bytes
budget_text (a, text) =
    if not (is_empty text) && not a.local_stop then apply_max_tokens_budget a text else (a, text)

unfoldable pub append_text : Accumulator × Bytes → Accumulator × Bytes
append_text (a, text) = (record a { text_buf = a.text_buf ++ text }, text)

unfoldable pub emit_text : Accumulator → Bytes → Accumulator × Bytes
unfolding budget_text append_text
emit_text a text =
    let b = record a { has_text = true } in
    append_text (
      budget_text
        (if is_empty a.stop_sequences then (b, text) else apply_stop_sequence_filter b text))

-- Step 1 of `FinalizeStream`, on what the tag parser still holds.
finalize_tags : Accumulator → Parsed → Accumulator × (Bytes × Bytes)
finalize_tags a p =
    let (b, d) =
      let none_yet : Accumulator × EventDelta = (a, no_delta) in
      if is_empty p.thinking then none_yet else accumulate_thinking a p.thinking no_delta in
    let (c, text) = if is_empty p.text then (b, p.text) else emit_text b p.text in
    (c, (text, d.thinking_delta))

-- Step 2, on what the stop-sequence filter still holds.
finalize_pending : Accumulator × (Bytes × Bytes) → Accumulator × (Bytes × Bytes)
finalize_pending (a, (text, thinking)) =
    let (b, remaining) = flush_stop_seq_pending a in
    let (c, more) =
      if not (is_empty remaining) && not b.local_stop
      then append_text (apply_max_tokens_budget b remaining)
      else let nothing : Accumulator × Bytes = (b, []) in nothing in
    (c, (text ++ more, thinking))

-- `FinalizeStream`: the accumulator, and the text and thinking still to emit.
unfoldable pub finalize_stream : Accumulator → Accumulator × (Bytes × Bytes)
unfolding finalize_tags finalize_pending append_text
finalize_stream a =
    let p = finalize_thinking_tags a.tags in
    finalize_pending (finalize_tags (record a { tags = p.tags }) p)

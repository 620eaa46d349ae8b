-- ===== src/Respconv/Events/Signals.antt =====
-- internal/respconv/event_processor.go: an event that stops the response says so in its delta.
use kiroxy.Prelude.{
  ℕ, zero, suc, ◌-◌, ◌*◌, ◌<◌, ◌≡◌, ◌⊎◌, Bool, true, false, refl, [], ◌∷◌, take, if◌then◌else◌,
  arith,
}
use kiroxy.Prelude.Bytes.{Bytes, is_empty}
use kiroxy.Strings.Utf8.{rune_count, rune_offset}
use kiroxy.Respconv.ChunkDelta.{compute_delta}
use kiroxy.Respconv.Accumulator.{
  Accumulator, EventDelta, no_delta, apply_max_tokens_budget, accumulate_thinking, over_budget,
  write_thinking,
}
use kiroxy.Respconv.Accumulator.Budget.{WithinBudget}
use kiroxy.Respconv.Events.{
  Event, process_assistant, process_reasoning, process_tool_use_event, record_tool,
}

-- What is left of text that is not empty, with some runes left in the budget, is not empty.
rune_offset-is_empty :
    (n : ℕ) (s : Bytes) → 0 < n → is_empty s ≡ false → is_empty (take (rune_offset n s) s) ≡ false
unfolding rune_offset is_empty
rune_offset-is_empty n [] h k = cc
rune_offset-is_empty zero (c ∷ s) h k = ground (arith, h)
rune_offset-is_empty (suc n) (c ∷ s) h k = refl

over_budget-is_empty :
    (a : Accumulator) (s : Bytes) (runes remaining : ℕ)
    → 0 < remaining
    → is_empty s ≡ false
    → is_empty ((over_budget a s runes remaining).1) ≡ false
unfolding over_budget
over_budget-is_empty a s runes remaining h k =
    ground (arith, h, k, rune_offset-is_empty remaining s h k)

apply_max_tokens_budget-is_empty :
    (a : Accumulator) (s : Bytes)
    → a.local_stop ≡ false
    → WithinBudget a
    → is_empty s ≡ false
    → is_empty ((apply_max_tokens_budget a s).1) ≡ false
unfolding apply_max_tokens_budget WithinBudget
apply_max_tokens_budget-is_empty a s live h k = ground (
  arith,
  live,
  h,
  k,
  over_budget-is_empty a s (rune_count s) (a.max_tokens_budget * 4 - a.output_rune_count),
)

-- The response goes on, or the delta tells the writer to stop.
unfoldable pub Signals : Accumulator × EventDelta → Type 0
Signals (b, d) = (b.local_stop ≡ false) ⊎ (d.stop_signal ≡ true)

pub process_assistant-Signals :
    (a : Accumulator) (e : Event) → a.local_stop ≡ false → Signals (process_assistant a e)
unfolding Signals process_assistant
process_assistant-Signals a e live = ground (arith, live)

-- A reasoning event that stops the response has thinking to show.
unfoldable pub SignalsThinking : Accumulator × EventDelta → Type 0
SignalsThinking (b, d) =
    (b.local_stop ≡ false)
    ⊎ ((d.stop_signal ≡ true)
        × (is_empty d.thinking_delta ≡ false)
        × (is_empty d.redacted_content ≡ true))

accumulate_thinking-SignalsThinking :
    (a : Accumulator) (t : Bytes)
    → a.local_stop ≡ false
    → WithinBudget a
    → is_empty t ≡ false
    → SignalsThinking (accumulate_thinking a t no_delta)
unfolding SignalsThinking accumulate_thinking write_thinking is_empty
accumulate_thinking-SignalsThinking a t live h k =
    ground (arith, apply_max_tokens_budget-is_empty a t live h k)

pub process_reasoning-SignalsThinking :
    (a : Accumulator) (e : Event)
    → a.local_stop ≡ false
    → WithinBudget a
    → SignalsThinking (process_reasoning a e)
unfolding SignalsThinking process_reasoning WithinBudget
process_reasoning-SignalsThinking a e live h =
    let c : Accumulator = record a {
      signature = if is_empty e.signature then a.signature else e.signature;
      last_thinking = e.thinking_text;
    } in
    ground (
      arith,
      live,
      h,
      accumulate_thinking-SignalsThinking c (compute_delta e.thinking_text a.last_thinking),
    )

-- A tool call that stops the response is shown.
unfoldable pub SignalsTool : Accumulator × EventDelta → Type 0
SignalsTool (b, d) = (b.local_stop ≡ false) ⊎ ((d.stop_signal ≡ true) × (d.tool_stop ≡ true))

pub process_tool_use_event-SignalsTool :
    (valid : Bytes → Bool) (a : Accumulator) (e : Event)
    → a.local_stop ≡ false
    → SignalsTool (process_tool_use_event valid a e no_delta)
unfolding SignalsTool process_tool_use_event record_tool
process_tool_use_event-SignalsTool valid a e live = ground (arith, live)

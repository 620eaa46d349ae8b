-- ===== src/Respconv/Streaming/Settled.antt =====
-- internal/respconv/streaming.go: a response that has stopped has its closing events.
use kiroxy.Prelude.{
  ℕ, ◌≡◌, ◌⊎◌, inl, inr, refl, sym, subst, ◌∙◌, Bool, true, false, not, if◌then◌else◌, List, [],
  arith,
}
use kiroxy.Prelude.Bytes.{Bytes, is_empty}
use kiroxy.Respconv.Accumulator.{Accumulator, EventDelta}
use kiroxy.Respconv.Accumulator.Budget.{WithinBudget}
use kiroxy.Respconv.Events.{Event, EventType, process_event, process_by_type}
use kiroxy.Respconv.Events.Signals.{
  Signals, SignalsThinking, SignalsTool, process_assistant-Signals,
  process_reasoning-SignalsThinking, process_tool_use_event-SignalsTool,
}
use kiroxy.Respconv.Streaming.{
  BlockType, Sse, Writer, ensure_started, write_thinking_delta, close_active_block,
  fire_visible_output, open_block,
}
use kiroxy.Respconv.Streaming.Handler.{
  finish_if, write_deltas, write_tool, handle_text, handle_reasoning, handle_tool_use,
  handle_by_type, handle_event, write_error,
}
use kiroxy.Respconv.Events.Stops.{process_by_type-WithinBudget}
use kiroxy.Respconv.Streaming.Gathered.{
  write_sse-acc, ensure_started-acc, close_active_block-acc, open_block-acc, write_delta-acc,
  fire_visible_output-acc, write_thinking_delta-acc, write_text_delta-acc,
}
use kiroxy.Respconv.Streaming.Protocol.{Phase, Follows, InStep}
use kiroxy.Respconv.Streaming.Preservation.{finish-ended}
use kiroxy.Respconv.Streaming.Handling.{
  write_deltas-InStep, write_tool-InStep, thinking-InStep, with_acc-InStep,
}

module _ (fails : List Sse → Sse → Bool) (estimate : ℕ → ℕ → ℕ) where
  -- The response goes on, inside its budget.
  unfoldable pub Going : Accumulator → Type 0
  Going a = (a.local_stop ≡ false) × WithinBudget a

  -- The response goes on, or the stream is ended and the message complete.
  unfoldable pub Settled : Writer × Bool → Type 0
  Settled (w, stop) = Going w.acc ⊎ ((stop ≡ true) × Follows w Phase.ended)

  finish_if-Settled :
      (b : Bool) (w : Writer)
      → InStep w
      → Going w.acc ⊎ (b ≡ true)
      → Settled (finish_if fails estimate b w)
  unfolding Settled
  finish_if-Settled true w h k = inr (refl, finish-ended fails estimate w h)
  finish_if-Settled false w h (inl k) = inl k
  finish_if-Settled false w h (inr k) = cc

  write_deltas-acc : (d : EventDelta) (w : Writer) → (write_deltas fails estimate d w).acc ≡ w.acc
  unfolding write_deltas
  write_deltas-acc d w =
      let v = write_thinking_delta fails d.thinking_delta w in
      ground (
        arith,
        write_thinking_delta-acc fails d.thinking_delta w,
        write_text_delta-acc fails d.text_delta (ensure_started fails w),
        ensure_started-acc fails w,
        write_text_delta-acc fails d.text_delta (ensure_started fails v),
        ensure_started-acc fails v,
      )

  write_tool-acc : (d : EventDelta) (w : Writer) → (write_tool fails estimate d w).acc ≡ w.acc
  unfolding write_tool
  write_tool-acc d w =
      let v = fire_visible_output fails (ensure_started fails w) in
      write_delta-acc fails BlockType.tool_use d.tool_input _
      ∙ open_block-acc fails BlockType.tool_use d.tool_use_id d.tool_name
          (close_active_block fails v)
      ∙ close_active_block-acc fails v
      ∙ fire_visible_output-acc fails (ensure_started fails w)
      ∙ ensure_started-acc fails w

  with_acc-Going :
      (v w : Writer) (d : EventDelta)
      → v.acc ≡ w.acc
      → Going w.acc ⊎ (d.stop_signal ≡ true)
      → Going v.acc ⊎ (d.stop_signal ≡ true)
  with_acc-Going v w d e (inl h) = inl (subst Going (sym e) h)
  with_acc-Going v w d e (inr h) = inr h

  Signals-Going :
      (a : Accumulator) (d : EventDelta)
      → WithinBudget a
      → Signals (a, d)
      → Going a ⊎ (d.stop_signal ≡ true)
  unfolding Signals Going
  Signals-Going a d h (inl k) = inl (k, h)
  Signals-Going a d h (inr k) = inr k

  handle_text-Settled :
      (d : EventDelta) (w : Writer)
      → InStep w
      → WithinBudget w.acc
      → Signals (w.acc, d)
      → Settled (handle_text fails estimate d w)
  unfolding handle_text
  handle_text-Settled d w h g k =
      finish_if-Settled d.stop_signal (write_deltas fails estimate d w)
        (write_deltas-InStep fails estimate d w h)
        (with_acc-Going (write_deltas fails estimate d w) w d (write_deltas-acc d w)
          (Signals-Going w.acc d g k))

  Settled-if :
      (b : Bool) (u v : Writer × Bool)
      → (b ≡ true → Settled u)
      → (b ≡ false → Settled v)
      → Settled (if b then u else v)
  Settled-if true u v h k = h refl
  Settled-if false u v h k = k refl

  thinking-Settled :
      (d : EventDelta) (w : Writer)
      → InStep w
      → WithinBudget w.acc
      → Signals (w.acc, d)
      → Settled
          (finish_if fails estimate d.stop_signal (write_thinking_delta fails d.thinking_delta w))
  thinking-Settled d w h g k =
      let v = write_thinking_delta fails d.thinking_delta w in
      finish_if-Settled d.stop_signal v (thinking-InStep fails estimate d.thinking_delta w h) (
        with_acc-Going v w d (write_thinking_delta-acc fails d.thinking_delta w)
          (Signals-Going w.acc d g k))

  redacted-acc :
      (s : Bytes) (w : Writer)
      → (close_active_block fails (
          open_block fails BlockType.redacted_thinking s []
            (close_active_block fails (ensure_started fails w)))).acc
        ≡ w.acc
  redacted-acc s w =
      close_active_block-acc fails _
      ∙ open_block-acc fails BlockType.redacted_thinking s [] _
      ∙ close_active_block-acc fails (ensure_started fails w)
      ∙ ensure_started-acc fails w

  handle_reasoning-Settled :
      (d : EventDelta) (w : Writer)
      → InStep w
      → WithinBudget w.acc
      → SignalsThinking (w.acc, d)
      → Settled (handle_reasoning fails estimate d w)
  unfolding handle_reasoning SignalsThinking Signals Settled Going
  handle_reasoning-Settled d w h g (inl k) =
      Settled-if (not (is_empty d.redacted_content)) _ _
        (λ e. inl (subst Going (sym (redacted-acc d.redacted_content w)) (k, g)))
        (λ e.
          Settled-if (is_empty d.thinking_delta) (w, false) _ (λ f. inl (k, g))
            (λ f. thinking-Settled d w h g (inl k)))
  handle_reasoning-Settled d w h g (inr (s, t, r)) =
      Settled-if (not (is_empty d.redacted_content)) _ _ (λ e. ground (arith, e, r))
        (λ e.
          Settled-if (is_empty d.thinking_delta) (w, false) _ (λ f. ground (arith, f, t))
            (λ f. thinking-Settled d w h g (inr s)))

  handle_tool_use-Settled :
      (d : EventDelta) (w : Writer)
      → InStep w
      → WithinBudget w.acc
      → SignalsTool (w.acc, d)
      → Settled (handle_tool_use fails estimate d w)
  unfolding handle_tool_use SignalsTool Signals Settled Going
  handle_tool_use-Settled d w h g k =
      let signalled : (w.acc.local_stop ≡ false) ⊎ (d.stop_signal ≡ true) = ground (arith, k) in
      Settled-if (not (is_empty d.thinking_delta)) _ _ (λ e. thinking-Settled d w h g signalled)
        (λ e.
          Settled-if (not d.tool_stop) (w, false) _ (λ f. inl (ground (arith, f, k), g))
            (λ f.
              finish_if-Settled d.stop_signal (write_tool fails estimate d w)
                (write_tool-InStep fails estimate d w h)
                (with_acc-Going (write_tool fails estimate d w) w d (write_tool-acc d w)
                  (Signals-Going w.acc d g signalled))))

  error-Settled :
      (k m : Bytes) (w : Writer)
      → Going w.acc
      → Settled (if w.started then write_error fails estimate k m w else w, true)
  unfolding Settled
  error-Settled k m w g = inl (subst Going (sym (same w.started)) g)
    where
      same : (b : Bool) → (if b then write_error fails estimate k m w else w).acc ≡ w.acc
      same true =
          unfold write_error in
          write_sse-acc fails _ (close_active_block fails w) ∙ close_active_block-acc fails w
      same false = refl

  handle_by_type-Settled :
      (valid : Bytes → Bool) (t : EventType) (e : Event) (w : Writer)
      → InStep w
      → Going w.acc
      → let p = process_by_type valid t w.acc e in
        Settled (handle_by_type fails estimate t (p.1) (record w { acc = p.0 }))
  unfolding handle_by_type process_by_type Going Settled WithinBudget
  handle_by_type-Settled valid EventType.assistant_response e w h (live, g) =
      handle_text-Settled _ _ (with_acc-InStep fails estimate _ w h)
        (process_by_type-WithinBudget valid EventType.assistant_response w.acc e g)
        (process_assistant-Signals w.acc e live)
  handle_by_type-Settled valid EventType.reasoning_content e w h (live, g) =
      handle_reasoning-Settled _ _ (with_acc-InStep fails estimate _ w h)
        (process_by_type-WithinBudget valid EventType.reasoning_content w.acc e g)
        (process_reasoning-SignalsThinking w.acc e live g)
  handle_by_type-Settled valid EventType.tool_use e w h (live, g) =
      handle_tool_use-Settled _ _ (with_acc-InStep fails estimate _ w h)
        (process_by_type-WithinBudget valid EventType.tool_use w.acc e g)
        (process_tool_use_event-SignalsTool valid w.acc e live)
  handle_by_type-Settled valid EventType.invalid_state e w h g = error-Settled _ _ w g
  handle_by_type-Settled valid EventType.exception e w h g = error-Settled _ _ w g
  handle_by_type-Settled valid EventType.metering e w h (live, g) =
      inl (ground (arith, live), process_by_type-WithinBudget valid EventType.metering w.acc e g)
  handle_by_type-Settled valid _ e w h g = inl g

  -- An event, handled by a writer that agrees with its reader while the response goes on inside
  -- its budget, leaves it going on so, or ends the stream with the message complete, up to a write
  -- that failed.
  pub handle_event-Settled :
      (valid : Bytes → Bool) (e : Event) (w : Writer)
      → InStep w
      → Going w.acc
      → Settled (handle_event fails estimate valid e w)
  unfolding handle_event process_event
  handle_event-Settled valid e w h g = handle_by_type-Settled valid e.event_type e w h g

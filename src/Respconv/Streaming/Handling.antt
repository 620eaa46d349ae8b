-- ===== src/Respconv/Streaming/Handling.antt =====
-- internal/respconv/streaming.go: `HandleEvent` keeps a reader in step.
use kiroxy.Prelude.{
  ℕ, ◌≡◌, ◌⊎◌, inl, inr, refl, ◌∙◌, Bool, true, false, not, if◌then◌else◌, List, [],
}
use kiroxy.Prelude.Bytes.{Bytes, is_empty}
use kiroxy.Respconv.Accumulator.{Accumulator, EventDelta}
use kiroxy.Respconv.Events.{Event, EventType, process_event}
use kiroxy.Respconv.Streaming.{
  BlockType, Sse, Writer, write_thinking_delta, ensure_started, fire_visible_output,
}
use kiroxy.Respconv.Streaming.Handler.{
  finish_if, write_error, write_deltas, write_tool, handle_text, handle_reasoning, handle_tool_use,
  handle_by_type, handle_event,
}
use kiroxy.Respconv.Streaming.Protocol.{
  Phase, Follows, Between, Inside, InsideOf, Shown, Running, InStep, takes, is_hidden,
  close_active_block-visible, fire_visible_output-visible, ensure_started-Running,
  close_active_block-Between, open_block-Inside, write_delta-Inside,
}
use kiroxy.Respconv.Streaming.Preservation.{
  fire_visible_output-Running, write_thinking_delta-Inside, write_text_delta-Inside, finish-ended,
  write_error-Between, InsideOf-Running,
}

module _ (fails : List Sse → Sse → Bool) (estimate : ℕ → ℕ → ℕ) where
  -- Where the writer stands once an event is handled: at the end, or still in step.
  unfoldable pub Handled : Writer × Bool → Type 0
  Handled (w, stop) = InStep w ⊎ ((stop ≡ true) × Follows w Phase.ended)

  InStep-if : (b : Bool) (u v : Writer) → InStep u → InStep v → InStep (if b then u else v)
  InStep-if true u v h k = h
  InStep-if false u v h k = k

  InStep-when :
      (b : Bool) (u v : Writer) → (b ≡ true → InStep u) → InStep v → InStep (if b then u else v)
  InStep-when true u v h k = h refl
  InStep-when false u v h k = k

  started-Running : (w : Writer) → InStep w → w.started ≡ true → Running w
  unfolding InStep
  started-Running w (inl h) e = cc (h.0)
  started-Running w (inr h) e = h

  Handled-if :
      (b : Bool) (u v : Writer × Bool) → Handled u → Handled v → Handled (if b then u else v)
  Handled-if true u v h k = h
  Handled-if false u v h k = k

  finish_if-Handled : (b : Bool) (w : Writer) → InStep w → Handled (finish_if fails estimate b w)
  unfolding Handled
  finish_if-Handled true w h = inr (refl, finish-ended fails estimate w h)
  finish_if-Handled false w h = inl h

  Inside-InStep : (t : BlockType) (w : Writer) → InsideOf t w → InStep w
  unfolding InStep
  Inside-InStep t w h = inr (InsideOf-Running fails t w h)

  Between-InStep : (w : Writer) → Between w → InStep w
  unfolding InStep Running
  Between-InStep w h = inr (inl h)

  pub thinking-InStep :
      (t : Bytes) (w : Writer) → InStep w → InStep (write_thinking_delta fails t w)
  thinking-InStep t w h = Inside-InStep _ _ (write_thinking_delta-Inside fails t w h)

  pub write_deltas-InStep :
      (d : EventDelta) (w : Writer) → InStep w → InStep (write_deltas fails estimate d w)
  unfolding write_deltas
  write_deltas-InStep d w h =
      let b = is_empty d.thinking_delta in
      let v = if b then w else write_thinking_delta fails d.thinking_delta w in
      let k = InStep-if b w _ h (thinking-InStep d.thinking_delta w h) in
      InStep-if (is_empty d.text_delta) v _ k (
        Inside-InStep _ _
          (write_text_delta-Inside fails d.text_delta _ (ensure_started-Running fails v k)))

  handle_text-Handled :
      (d : EventDelta) (w : Writer) → InStep w → Handled (handle_text fails estimate d w)
  unfolding handle_text
  handle_text-Handled d w h = finish_if-Handled d.stop_signal _ (write_deltas-InStep d w h)

  handle_reasoning-Handled :
      (d : EventDelta) (w : Writer) → InStep w → Handled (handle_reasoning fails estimate d w)
  unfolding handle_reasoning Handled is_hidden
  handle_reasoning-Handled d w h =
      Handled-if (not (is_empty d.redacted_content)) _ _
        (inl (
          Between-InStep _ (
            close_active_block-Between fails _ (
              InsideOf-Running fails BlockType.redacted_thinking _ (
                open_block-Inside fails BlockType.redacted_thinking d.redacted_content [] _
                  (inl refl)
                  (close_active_block-Between fails _ (ensure_started-Running fails w h)))))))
        (Handled-if (is_empty d.thinking_delta) _ _ (inl h)
          (finish_if-Handled d.stop_signal _ (thinking-InStep d.thinking_delta w h)))

  pub write_tool-InStep :
      (d : EventDelta) (w : Writer) → InStep w → InStep (write_tool fails estimate d w)
  unfolding write_tool takes
  write_tool-InStep d w h =
      let v = fire_visible_output fails (ensure_started fails w) in
      let seen =
        close_active_block-visible fails v
        ∙ fire_visible_output-visible fails (ensure_started fails w) in
      Inside-InStep _ _ (
        write_delta-Inside fails BlockType.tool_use d.tool_input _ refl (
          open_block-Inside fails BlockType.tool_use d.tool_use_id d.tool_name _ (inr seen) (
            close_active_block-Between fails v
              (fire_visible_output-Running fails _ (ensure_started-Running fails w h)))))

  handle_tool_use-Handled :
      (d : EventDelta) (w : Writer) → InStep w → Handled (handle_tool_use fails estimate d w)
  unfolding handle_tool_use Handled
  handle_tool_use-Handled d w h =
      Handled-if (not (is_empty d.thinking_delta)) _ _
        (finish_if-Handled d.stop_signal _ (thinking-InStep d.thinking_delta w h))
        (Handled-if (not d.tool_stop) _ _ (inl h)
          (finish_if-Handled d.stop_signal _ (write_tool-InStep d w h)))

  error-Handled :
      (k m : Bytes) (w : Writer)
      → InStep w
      → Handled (if w.started then write_error fails estimate k m w else w, true)
  unfolding Handled
  error-Handled k m w h = inl (
      InStep-when w.started _ w
        (λ e. Between-InStep _ (write_error-Between fails estimate k m w (started-Running w h e)))
        h)

  handle_by_type-Handled :
      (t : EventType) (d : EventDelta) (w : Writer)
      → InStep w
      → Handled (handle_by_type fails estimate t d w)
  unfolding handle_by_type Handled
  handle_by_type-Handled EventType.assistant_response d w h = handle_text-Handled d w h
  handle_by_type-Handled EventType.reasoning_content d w h = handle_reasoning-Handled d w h
  handle_by_type-Handled EventType.tool_use d w h = handle_tool_use-Handled d w h
  handle_by_type-Handled EventType.invalid_state d w h = error-Handled _ _ w h
  handle_by_type-Handled EventType.exception d w h = error-Handled _ _ w h
  handle_by_type-Handled _ d w h = inl h

  pub with_acc-InStep : (a : Accumulator) (w : Writer) → InStep w → InStep (record w { acc = a })
  unfolding InStep Running Between Inside InsideOf Follows Shown
  with_acc-InStep a w h = h

  -- Any event, handled by an SSE writer that agrees with a reader of what it wrote, leaves writer
  -- and reader in agreement, or has completed the message and ends the stream. The reader takes a
  -- delta only in a block of its type, and text and calls of tools only after the visible output
  -- was announced.
  pub handle_event-Handled :
      (valid : Bytes → Bool) (e : Event) (w : Writer)
      → InStep w
      → Handled (handle_event fails estimate valid e w)
  unfolding handle_event
  handle_event-Handled valid e w h =
      let p = process_event valid w.acc e in
      handle_by_type-Handled e.event_type (p.1) _ (with_acc-InStep (p.0) w h)

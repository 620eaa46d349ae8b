-- ===== src/Respconv/Streaming/Preservation.antt =====
-- internal/respconv/streaming.go: every operation of the writer keeps a reader in step.
use kiroxy.Prelude.{
  ℕ, ◌≡◌, ◌⊎◌, refl, subst, some, inl, inr, Bool, true, List, [], ◌∷◌, ◌++◌, Option, arith,
  Bool-cases,
}
use kiroxy.Prelude.Bytes.{Bytes}
use kiroxy.Respconv.Accumulator.{Accumulator, StopReason, finalize_stream, resolved_usage}
use kiroxy.Respconv.Streaming.{
  BlockType, Sse, Writer, write_sse, ensure_started, close_active_block, is_block, switch_block,
  block_payload, fire_visible_output, write_thinking_delta, write_text_delta, write_rest,
}
use kiroxy.Respconv.Streaming.Handler.{finalize, finish, truncated_finish, write_close, write_error}
use kiroxy.Respconv.Streaming.Protocol.{
  Phase, read_sse, read_all-snoc, is_some, Follows, Between, Inside, Running, InStep,
  ensure_started-Running, close_active_block-Between, open_block-Inside, write_delta-Inside,
  InsideOf, takes, is_hidden, all_hidden-snoc, Shown, fire_visible_output-visible,
  close_active_block-visible,
}

module _ (fails : List Sse → Sse → Bool) where
  is_block-same : (t : BlockType) (o : Option BlockType) → is_block t o ≡ true → o ≡ some t
  unfolding is_block
  is_block-same t o h = ground (arith, t, o)

  active-InsideOf : (t : BlockType) (w : Writer) → w.active_type ≡ some t → Running w → InsideOf t w
  unfolding Running Between Inside InsideOf
  active-InsideOf t w e (inl h) = cc (h.1.0)
  active-InsideOf t w e (inr (u, h)) =
      let same : u ≡ t = ground (arith, h.1.0, e) in subst (λ v. InsideOf v w) same h

  switch_block-Inside :
      (t : BlockType) (w : Writer)
      → (is_hidden (Sse.block_start w.block_count t [] []) ≡ true) ⊎ (w.visible_fired ≡ true)
      → Running w
      → InsideOf t (switch_block fails t w)
  unfolding switch_block is_hidden
  switch_block-Inside t w v h =
      let u = close_active_block fails w in
      elim (Bool-cases (is_block t w.active_type)) [
        | inl e ↦ rw (e) (active-InsideOf t w (is_block-same t w.active_type e) h)
        | inr e ↦ rw (e) (
            open_block-Inside fails t (block_payload t w.acc) [] u
              (unfold is_hidden in rw (close_active_block-visible fails w) v)
              (close_active_block-Between fails w h))
      ]

  pub write_thinking_delta-Inside :
      (t : Bytes) (w : Writer)
      → InStep w
      → InsideOf BlockType.thinking (write_thinking_delta fails t w)
  unfolding write_thinking_delta takes is_hidden
  write_thinking_delta-Inside t w h =
      let k =
        switch_block-Inside BlockType.thinking (ensure_started fails w) (inl refl)
          (ensure_started-Running fails w h) in
      write_delta-Inside fails BlockType.thinking t _ refl k

  pub fire_visible_output-Running : (w : Writer) → Running w → Running (fire_visible_output fails w)
  unfolding Running Between Inside InsideOf fire_visible_output Follows Shown
  fire_visible_output-Running w h = ground (arith, h)

  pub write_text_delta-Inside :
      (t : Bytes) (w : Writer) → Running w → InsideOf BlockType.text (write_text_delta fails t w)
  unfolding write_text_delta takes
  write_text_delta-Inside t w h = write_delta-Inside fails BlockType.text t _ refl (
      switch_block-Inside BlockType.text (fire_visible_output fails w)
        (inr (fire_visible_output-visible fails w)) (fire_visible_output-Running w h))

  pub InsideOf-Running : (t : BlockType) (w : Writer) → InsideOf t w → Running w
  unfolding Running Inside
  InsideOf-Running t w h = inr (t, h)

  pub write_rest-Running :
      (t thought : Bytes) (w : Writer) → Running w → Running (write_rest fails t thought w)
  unfolding write_rest InStep
  write_rest-Running t thought w h =
      let v = write_thinking_delta fails thought w in
      ground (
        arith,
        InsideOf-Running BlockType.thinking v,
        InsideOf-Running BlockType.text (write_text_delta fails t w),
        InsideOf-Running BlockType.text (write_text_delta fails t v),
        write_thinking_delta-Inside thought w,
        write_text_delta-Inside t w,
        write_text_delta-Inside t v,
      )

-- `estimate` is that of `resolved_usage`.
module _ (fails : List Sse → Sse → Bool) (estimate : ℕ → ℕ → ℕ) where
  with_acc-Running : (a : Accumulator) (w : Writer) → Running w → Running (record w { acc = a })
  unfolding Running Between Inside InsideOf Follows Shown
  with_acc-Running a w h = h

  finalize-Between : (w : Writer) → InStep w → Between (finalize fails estimate w)
  unfolding finalize
  finalize-Between w h =
      let v = ensure_started fails w in
      let f = finalize_stream v.acc in
      close_active_block-Between fails _ (
        write_rest-Running fails ((f.1).0) ((f.1).1) (record v { acc = f.0 })
          (with_acc-Running (f.0) v (ensure_started-Running fails w h)))

  write_close-ended :
      (r : StopReason) (q : Option Bytes) (w : Writer)
      → Between w
      → Follows (write_close fails estimate r q w) Phase.ended
  unfolding write_close write_sse Between Follows read_sse is_some Shown is_hidden
  write_close-ended r q w h =
      let x = Sse.message_delta r q (resolved_usage estimate w.acc) in
      ground (
        arith,
        read_all-snoc Phase.before (Phase.between w.block_count) w.written x,
        read_all-snoc Phase.before Phase.closing (w.written ++ (x ∷ [])) Sse.message_stop,
        all_hidden-snoc w.written x,
        all_hidden-snoc (w.written ++ (x ∷ [])) Sse.message_stop,
      )

  -- `Finish` completes the message, whatever state the response is in.
  pub finish-ended : (w : Writer) → InStep w → Follows (finish fails estimate w) Phase.ended
  unfolding finish
  finish-ended w h = write_close-ended _ _ _ (finalize-Between w h)

  -- `TruncatedFinish`, by a writer that agrees with its reader, completes the message: what was
  -- written follows the protocol, up to the end if no write failed.
  truncated_finish-ended :
      (w : Writer) → InStep w → Follows (truncated_finish fails estimate w) Phase.ended
  unfolding truncated_finish
  truncated_finish-ended w h = write_close-ended _ _ _ (finalize-Between w h)

  pub write_error-Between :
      (k m : Bytes) (w : Writer) → Running w → Between (write_error fails estimate k m w)
  unfolding write_error write_sse Between Follows read_sse is_some Shown is_hidden
  write_error-Between k m w h =
      let v = close_active_block fails w in
      ground (
        arith,
        close_active_block-Between fails w h,
        read_all-snoc Phase.before (Phase.between v.block_count) v.written (Sse.sse_error k m),
        all_hidden-snoc v.written (Sse.sse_error k m),
      )

  pub write_error-visible :
      (k m : Bytes) (w : Writer)
      → (write_error fails estimate k m w).visible_fired ≡ w.visible_fired
  unfolding write_error write_sse
  write_error-visible k m w = ground (arith, close_active_block-visible fails w)

-- ===== src/Respconv/Streaming/Gathered.antt =====
-- internal/respconv/streaming.go: writing changes nothing that the accumulator has gathered.
use kiroxy.Prelude.{◌≡◌, ◌∙◌, Bool, List, [], arith}
use kiroxy.Prelude.Bytes.{Bytes}
use kiroxy.Respconv.Streaming.{
  BlockType, Sse, Writer, block_payload, write_sse, ensure_started, close_active_block, open_block,
  switch_block, write_delta, fire_visible_output, write_thinking_delta, write_text_delta,
}

module _ (fails : List Sse → Sse → Bool) where
  pub write_sse-acc : (x : Sse) (w : Writer) → (write_sse fails x w).acc ≡ w.acc
  unfolding write_sse
  write_sse-acc x w = ground arith

  pub ensure_started-acc : (w : Writer) → (ensure_started fails w).acc ≡ w.acc
  unfolding ensure_started write_sse
  ensure_started-acc w = ground arith

  pub close_active_block-acc : (w : Writer) → (close_active_block fails w).acc ≡ w.acc
  unfolding close_active_block write_sse
  close_active_block-acc w = ground arith

  pub open_block-acc :
      (t : BlockType) (p q : Bytes) (w : Writer) → (open_block fails t p q w).acc ≡ w.acc
  unfolding open_block write_sse
  open_block-acc t p q w = ground arith

  switch_block-acc : (t : BlockType) (w : Writer) → (switch_block fails t w).acc ≡ w.acc
  unfolding switch_block
  switch_block-acc t w = ground (
    arith,
    close_active_block-acc w,
    open_block-acc t (block_payload t w.acc) [] (close_active_block fails w),
  )

  pub write_delta-acc :
      (t : BlockType) (s : Bytes) (w : Writer) → (write_delta fails t s w).acc ≡ w.acc
  unfolding write_delta
  write_delta-acc t s w = write_sse-acc _ w

  pub fire_visible_output-acc : (w : Writer) → (fire_visible_output fails w).acc ≡ w.acc
  unfolding fire_visible_output
  fire_visible_output-acc w = ground arith

  pub write_thinking_delta-acc :
      (t : Bytes) (w : Writer) → (write_thinking_delta fails t w).acc ≡ w.acc
  unfolding write_thinking_delta
  write_thinking_delta-acc t w =
      write_delta-acc BlockType.thinking t _
      ∙ switch_block-acc BlockType.thinking (ensure_started fails w)
      ∙ ensure_started-acc w

  pub write_text_delta-acc : (t : Bytes) (w : Writer) → (write_text_delta fails t w).acc ≡ w.acc
  unfolding write_text_delta
  write_text_delta-acc t w =
      write_delta-acc BlockType.text t _
      ∙ switch_block-acc BlockType.text (fire_visible_output fails w)
      ∙ fire_visible_output-acc w

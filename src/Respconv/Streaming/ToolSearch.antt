-- ===== src/Respconv/Streaming/ToolSearch.antt =====
-- internal/respconv/streaming_toolsearch.go, and `writeBlock` and `ResetAccumulator` of
-- internal/respconv/streaming.go: the blocks of a search for tools, and the next response after it.
use kiroxy.Prelude.{
  ℕ, ◌+◌, ◌-◌, ◌≤◌, ◌≡◌, refl, Bool, true, List, [], Option, none, some, arith, ◌⊎◌, inl, inr, ◌∙◌,
}
use kiroxy.Prelude.Bytes.{Bytes}
use kiroxy.Respconv.Accumulator.{new_accumulator}
use kiroxy.Respconv.Streaming.{
  search_result, search_result_error, BlockType, server_tool_use, tool_search_tool_result, Sse,
  Writer, write_sse, ensure_started, close_active_block, write_delta, fire_visible_output,
}
use kiroxy.Respconv.Streaming.Protocol.{
  Phase, read_sse, read_all-snoc, is_some, Follows, Between, Running, InStep,
  ensure_started-Running, close_active_block-Between, Shown, takes, is_hidden, all_hidden-snoc,
  close_active_block-visible, fire_visible_output-visible,
}
use kiroxy.Respconv.Streaming.Preservation.{fire_visible_output-Running}

module _ (fails : List Sse → Sse → Bool) where
  -- The start of a block that is not made the active one.
  unfoldable pub start_block : BlockType → Bytes → Bytes → Writer → Writer
  start_block t p q w =
      write_sse fails (Sse.block_start w.block_count t p q)
        (record w { block_count = w.block_count + 1 })

  unfoldable pub stop_block : Writer → Writer
  stop_block w = write_sse fails (Sse.block_stop (w.block_count - 1)) w

  -- `writeBlock`
  unfoldable pub write_block : BlockType → Bytes → Bytes → Option Bytes → Writer → Writer
  unfolding start_block stop_block
  write_block t p q delta w =
      let v = start_block t p q (close_active_block fails w) in
      stop_block (elim delta [ none ↦ v | some d ↦ write_delta fails t d v ])

  unfoldable pub write_server_tool_use : Bytes → Bytes → Bytes → Writer → Writer
  unfolding write_block
  write_server_tool_use id name input w =
      write_block server_tool_use id name (some input)
        (fire_visible_output fails (ensure_started fails w))

  unfoldable pub write_tool_search_result : Bytes → List Bytes → Writer → Writer
  unfolding write_block
  write_tool_search_result id refs w =
      write_block (tool_search_tool_result (search_result refs)) id [] none w

  unfoldable pub write_tool_search_error : Bytes → Bytes → Writer → Writer
  unfolding write_block
  write_tool_search_error id code w =
      write_block (tool_search_tool_result (search_result_error code)) id [] none w

  -- `ResetAccumulator`
  unfoldable pub reset_accumulator : ℕ → List Bytes → ℕ → ℕ → Writer → Writer
  reset_accumulator window seqs budget pre_counted w = record w {
    acc = record (new_accumulator window seqs budget pre_counted) {
      drop_tool_name = w.acc.drop_tool_name;
      tool_name_map = w.acc.tool_name_map;
    };
    active_type = none;
  }

  -- The message has begun, and a block of a type is open that is not the active one.
  unfoldable pub Begun : BlockType → Writer → Type 0
  Begun t w =
      (w.started ≡ true)
      × ((w.active_type ≡ none)
          × ((1 ≤ w.block_count) × Follows w (Phase.inside (w.block_count - 1) t)))

  start_block-Begun :
      (t : BlockType) (p q : Bytes) (w : Writer)
      → (is_hidden (Sse.block_start w.block_count t p q) ≡ true) ⊎ (w.visible_fired ≡ true)
      → Between w
      → Begun t (start_block t p q w)
  unfolding Between start_block Begun read_sse is_some write_sse Follows Shown
  start_block-Begun t p q w v h = ground (
    arith,
    v,
    read_all-snoc Phase.before (Phase.between w.block_count) w.written
        (Sse.block_start w.block_count t p q),
    all_hidden-snoc w.written (Sse.block_start w.block_count t p q),
  )

  write_delta-Begun :
      (t : BlockType) (s : Bytes) (w : Writer)
      → takes t t ≡ true
      → Begun t w
      → Begun t (write_delta fails t s w)
  unfolding write_delta Begun read_sse is_some write_sse Follows Shown is_hidden
  write_delta-Begun t s w k h = ground (
    arith,
    k,
    read_all-snoc Phase.before (Phase.inside (w.block_count - 1) t) w.written
        (Sse.block_delta (w.block_count - 1) t s),
    all_hidden-snoc w.written (Sse.block_delta (w.block_count - 1) t s),
  )

  stop_block-Between : (t : BlockType) (w : Writer) → Begun t w → Between (stop_block w)
  unfolding stop_block Between Begun read_sse is_some write_sse Follows Shown is_hidden
  stop_block-Between t w h = ground (
    arith,
    read_all-snoc Phase.before (Phase.inside (w.block_count - 1) t) w.written
        (Sse.block_stop (w.block_count - 1)),
    all_hidden-snoc w.written (Sse.block_stop (w.block_count - 1)),
  )

  -- A block without a delta that is no output to see.
  pub write_block-Between :
      (t : BlockType) (p q : Bytes) (w : Writer)
      → (is_hidden (Sse.block_start w.block_count t p q) ≡ true)
      → Running w
      → Between (write_block t p q none w)
  unfolding write_block is_hidden
  write_block-Between t p q w v h = stop_block-Between t _ (
      start_block-Begun t p q _ (inl (unfold is_hidden in v))
        (close_active_block-Between fails w h))

  pub write_server_tool_use-Between :
      (id name input : Bytes) (w : Writer)
      → InStep w
      → Between (write_server_tool_use id name input w)
  unfolding write_server_tool_use write_block takes
  write_server_tool_use-Between id name input w h =
      let v = fire_visible_output fails (ensure_started fails w) in
      let seen =
        close_active_block-visible fails v
        ∙ fire_visible_output-visible fails (ensure_started fails w) in
      stop_block-Between server_tool_use _ (
        write_delta-Begun server_tool_use input _ refl (
          start_block-Begun server_tool_use id name _ (inr seen) (
            close_active_block-Between fails v
              (fire_visible_output-Running fails _ (ensure_started-Running fails w h)))))

  -- A writer without an open block stays so, whatever its next response.
  pub reset_accumulator-Between :
      (window : ℕ) (seqs : List Bytes) (budget pre_counted : ℕ) (w : Writer)
      → Between w
      → Between (reset_accumulator window seqs budget pre_counted w)
  unfolding Between Follows Shown reset_accumulator
  reset_accumulator-Between window seqs budget pre_counted w h = (h.0, (refl, h.1.1))

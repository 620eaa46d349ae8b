-- ===== src/Respconv/Streaming.antt =====
-- internal/respconv/streaming.go: `SSEWriter`, the server-sent events of one streamed response. The
-- events written are a log in the writer's state, oldest first.
pub mod Gathered
pub mod Handler
pub mod Handling
pub mod Preservation
pub mod Protocol
pub mod Settled
pub mod ToolSearch
use kiroxy.Prelude.{
  ℕ, ◌+◌, ◌-◌, Bool, true, false, if◌then◌else◌, List, [], ◌∷◌, ◌++◌, Option, none, some,
}
use kiroxy.Prelude.Bytes.{Bytes, is_empty}
use kiroxy.Respconv.Accumulator.{Accumulator, StopReason, new_accumulator}

-- The content of a result of the tool search: the names of tools, or the code of an error.
pub data SearchContent : Type 0 where
  search_result : List Bytes → SearchContent
  search_result_error : Bytes → SearchContent

-- The types of content blocks; a result of the tool search has its content with it.
pub data BlockType : Type 0 where
  thinking text redacted_thinking tool_use server_tool_use : BlockType
  tool_search_tool_result : SearchContent → BlockType

-- What `writeSSE` and `writeRawSSE` write, without the fields that only the message's envelope has.
-- A block's start carries its payload: the signature, the redacted data, or the tool's id and name.
pub data Sse : Type 0 where
  message_start : Sse
  block_start : ℕ → BlockType → Bytes → Bytes → Sse
  block_delta : ℕ → BlockType → Bytes → Sse
  block_stop : ℕ → Sse
  message_delta : StopReason → Option Bytes → ℕ × ℕ → Sse
  message_stop : Sse
  sse_error : Bytes → Bytes → Sse

-- `block_count` is `blockIndex + 1`. A failed write sets `write_err`, after which nothing is written.
pub record Writer : Type 0 where
  pub block_count : ℕ
  pub active_type : Option BlockType
  pub started : Bool
  pub write_err : Bool
  pub acc : Accumulator
  pub visible_fired : Bool
  pub written : List Sse

unfoldable pub new_writer : ℕ → List Bytes → ℕ → ℕ → Writer
new_writer window seqs budget pre_counted = record {
  block_count = 0;
  active_type = none;
  started = false;
  write_err = false;
  acc = new_accumulator window seqs budget pre_counted;
  visible_fired = false;
  written = [];
}

-- `writeSSE`, `writeRawSSE`: `fails w x` says whether the client's connection refuses the write.
unfoldable pub write_sse : (List Sse → Sse → Bool) → Sse → Writer → Writer
write_sse fails x w =
    if w.write_err
    then w
    else if fails w.written x
    then record w { write_err = true }
    else record w { written = w.written ++ (x ∷ []) }

unfoldable pub is_block : BlockType → Option BlockType → Bool
is_block BlockType.text (some BlockType.text) = true
is_block thinking (some thinking) = true
is_block redacted_thinking (some redacted_thinking) = true
is_block tool_use (some tool_use) = true
is_block _ _ = false

-- The payload of a block that starts empty: the signature of a thinking block.
abbrev pub block_payload : BlockType → Accumulator → Bytes
block_payload thinking a = a.signature
block_payload _ a = []

module _ (fails : List Sse → Sse → Bool) where
  unfoldable pub ensure_started : Writer → Writer
  ensure_started w =
      if w.started then w else write_sse fails message_start (record w { started = true })

  unfoldable pub close_active_block : Writer → Writer
  close_active_block w = elim w.active_type [
    | none ↦ w
    | some t ↦ record (write_sse fails (block_stop (w.block_count - 1)) w) { active_type = none }
  ]

  -- Opens a block of the type given, whatever is active.
  unfoldable pub open_block : BlockType → Bytes → Bytes → Writer → Writer
  open_block t p q w =
      write_sse fails (block_start w.block_count t p q)
        (record w { block_count = w.block_count + 1; active_type = some t })

  unfoldable pub switch_block : BlockType → Writer → Writer
  unfolding is_block close_active_block open_block
  switch_block t w =
      if is_block t w.active_type
      then w
      else open_block t (block_payload t w.acc) [] (close_active_block w)

  -- `writeDelta` and the delta of a tool's input.
  unfoldable pub write_delta : BlockType → Bytes → Writer → Writer
  write_delta t value w = write_sse fails (block_delta (w.block_count - 1) t value) w

  unfoldable pub fire_visible_output : Writer → Writer
  fire_visible_output w = if w.visible_fired then w else record w { visible_fired = true }

  unfoldable pub write_thinking_delta : Bytes → Writer → Writer
  unfolding ensure_started switch_block write_delta
  write_thinking_delta t w = write_delta thinking t (switch_block thinking (ensure_started w))

  -- The text part of a delta, once the message has started.
  unfoldable pub write_text_delta : Bytes → Writer → Writer
  unfolding fire_visible_output switch_block write_delta
  write_text_delta t w = write_delta text t (switch_block text (fire_visible_output w))

  -- The deltas that `finalizeResult` still has, in the order in which they are written.
  unfoldable pub write_rest : Bytes → Bytes → Writer → Writer
  unfolding write_thinking_delta write_text_delta
  write_rest t thought w =
      let v = if is_empty thought then w else write_thinking_delta thought w in
      if is_empty t then v else write_text_delta t v

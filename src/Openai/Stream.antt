-- ===== src/Openai/Stream.antt =====
-- internal/openai/translate_stream.go: `StreamTranslator`, from Anthropic's events to chunks.
pub mod Reader
pub mod Agreement
pub mod Said
pub mod Blocks
pub mod Assembled
use kiroxy.Prelude.{
  ℕ, ◌+◌, Bool, true, false, ltb, ◌==◌, if◌then◌else◌, List, [], ◌∷◌, ◌++◌, Option, none, some,
}
use kiroxy.Prelude.Bytes.{Bytes, codes, is_empty}
use kiroxy.Reqconv.{BlockType, tool_use, server_tool_use}
use kiroxy.Openai.{
  FinishReason, content_filter, map_finish_reason, chat_completion_id, ToolCall, function_type,
  Usage,
}
use kiroxy.Openai.Events.{
  ChunkDelta, empty_delta, Chunk, Output, chunk, done, Error, malformed, marshal_failed,
  upstream_error, Event, message_start, block_start, text_delta, input_json_delta, other_delta,
  message_delta, message_stop, error_event, skipped, unreadable,
}

-- In the maps the entry made last stands first; an index of none is -1.
pub record Translator : Type 0 where
  pub echo_model : Bytes
  pub created : ℕ
  pub chat_id : Bytes
  pub sent_role : Bool
  pub block_tool_idx : List (ℕ × Option ℕ)
  pub block_tool_meta : List (ℕ × Bytes × Bytes)
  pub next_tool_idx : ℕ
  pub input_tokens : ℕ
  pub output_tokens : ℕ
  pub finish_reason : Option FinishReason
  pub has_tool_use : Bool
  pub sent_final : Bool
  pub write_err : Bool
  pub written : List Output

unfoldable pub new_stream_translator : Bytes → ℕ → Translator
new_stream_translator echo_model now = record {
  echo_model = echo_model;
  created = now;
  chat_id = [];
  sent_role = false;
  block_tool_idx = [];
  block_tool_meta = [];
  next_tool_idx = 0;
  input_tokens = 0;
  output_tokens = 0;
  finish_reason = none;
  has_tool_use = false;
  sent_final = false;
  write_err = false;
  written = [];
}

-- The index of the tool call of a block, if it is one.
unfoldable pub tool_index : ℕ → List (ℕ × Option ℕ) → Option ℕ
tool_index i [] = none
tool_index i ((j, k) ∷ m) = if i == j then k else tool_index i m

-- The client's connection and the encoder: which write fails, behind what was written, which chunk has
-- no JSON, and the decimal digits of a time.
pub record Sink : Type 0 where
  pub fails : List Output → Output → Bool
  pub encodes : Chunk → Bool
  pub digits : ℕ → Bytes

module _ (k : Sink) where
  unfoldable pub write : Output → Translator → Translator
  write x s =
      if k.fails s.written x
      then record s { write_err = true }
      else record s { written = s.written ++ (x ∷ []) }

  -- The identifier that `writeChunk` falls back to.
  unfoldable pub named : Translator → Translator
  named s =
      if is_empty s.chat_id
      then record s { chat_id = codes "chatcmpl-" ++ k.digits s.created }
      else s

  abbrev pub chunk_of : Translator → ChunkDelta → Option FinishReason → Option Usage → Chunk
  chunk_of s delta finish usage = record {
    id = s.chat_id;
    created = s.created;
    model = s.echo_model;
    delta = delta;
    finish_reason = finish;
    usage = usage;
  }

  -- `writeChunk`
  unfoldable pub write_chunk :
      ChunkDelta → Option FinishReason → Option Usage → Translator → Translator × Option Error
  unfolding write named
  write_chunk delta finish usage s =
      let c = chunk_of (named s) delta finish usage in
      if s.write_err
      then (s, none)
      else if k.encodes c
      then (write (chunk c) (named s), none)
      else (named s, some marshal_failed)

  -- `writeDone`
  unfoldable pub write_done : Translator → Translator
  unfolding write
  write_done s = if s.write_err then s else write done s

  abbrev pub call_delta : ToolCall → ChunkDelta
  call_delta c = record { role = []; content = []; tool_calls = c ∷ [] }

  -- `handleMessageStart`
  unfoldable pub handle_message_start : Bytes → ℕ → ℕ → Translator → Translator × Option Error
  unfolding write_chunk
  handle_message_start id input output s =
      write_chunk (record empty_delta { role = codes "assistant" }) none none
        (record s {
          chat_id = chat_completion_id id;
          input_tokens = input;
          output_tokens = output;
          sent_role = true;
        })

  -- A block of a tool: `handleContentBlockStart`.
  unfoldable pub start_tool : ℕ → Bytes → Bytes → Translator → Translator × Option Error
  unfolding write_chunk
  start_tool i id name s =
      write_chunk
        (call_delta (record {
          index = some s.next_tool_idx;
          id = id;
          call_type = function_type;
          name = name;
          arguments = [];
        }))
        none none
        (record s {
          has_tool_use = true;
          next_tool_idx = s.next_tool_idx + 1;
          block_tool_idx = (i, some s.next_tool_idx) ∷ s.block_tool_idx;
          block_tool_meta = (i, id, name) ∷ s.block_tool_meta;
        })

  unfoldable pub handle_block_start :
      ℕ → BlockType → Bytes → Bytes → Translator → Translator × Option Error
  unfolding start_tool
  handle_block_start i t id name s = elim t [
    | tool_use ↦ start_tool i id name s
    | server_tool_use ↦ start_tool i id name s
    | _ ↦ (record s { block_tool_idx = (i, none) ∷ s.block_tool_idx }, none)
  ]

  -- The two kinds of delta that `handleContentBlockDelta` passes on.
  unfoldable pub handle_text_delta : Bytes → Translator → Translator × Option Error
  unfolding write_chunk
  handle_text_delta t s =
      if is_empty t then (s, none) else write_chunk (record empty_delta { content = t }) none none s

  unfoldable pub handle_input_delta : ℕ → Bytes → Translator → Translator × Option Error
  unfolding write_chunk tool_index
  handle_input_delta i partial s = elim (tool_index i s.block_tool_idx) [
    | none ↦ (s, none)
    | some n ↦
        write_chunk
          (call_delta
            (record { index = some n; id = []; call_type = []; name = []; arguments = partial }))
          none none s
  ]

  -- `handleMessageDelta`
  unfoldable pub handle_message_delta : Bytes → ℕ → ℕ → Translator → Translator
  handle_message_delta reason input output s = record s {
    input_tokens = if ltb 0 input then input else s.input_tokens;
    output_tokens = if ltb 0 output then output else s.output_tokens;
    finish_reason =
        if is_empty reason then s.finish_reason else some (map_finish_reason reason s.has_tool_use);
  }

  abbrev pub final_reason : Translator → FinishReason
  final_reason s = elim s.finish_reason [ none ↦ map_finish_reason [] s.has_tool_use | some r ↦ r ]

  -- `handleMessageStop`
  unfoldable pub handle_message_stop : Translator → Translator × Option Error
  unfolding write_chunk
  handle_message_stop s =
      if s.sent_final
      then (s, none)
      else write_chunk empty_delta (some (final_reason s))
          (some (record {
            prompt_tokens = s.input_tokens;
            completion_tokens = s.output_tokens;
            total_tokens = s.input_tokens + s.output_tokens;
          }))
          (record s { sent_final = true })

  -- `handleError`
  unfoldable pub handle_error : Bytes → Bytes → Translator → Translator × Option Error
  unfolding write_chunk write_done
  handle_error kind message s =
      let (s', failed) = write_chunk empty_delta (some content_filter) none s in
      elim failed [
        | some e ↦ (s', some e)
        | none ↦ (write_done s', some (upstream_error kind message))
      ]

  -- `handleFrame`
  unfoldable pub handle_frame : Event → Translator → Translator × Option Error
  unfolding handle_message_start handle_block_start handle_text_delta handle_input_delta
      handle_message_delta handle_message_stop handle_error
  handle_frame (message_start id input output) s = handle_message_start id input output s
  handle_frame (block_start i t id name) s = handle_block_start i t id name s
  handle_frame (text_delta i t) s = handle_text_delta t s
  handle_frame (input_json_delta i partial) s = handle_input_delta i partial s
  handle_frame (other_delta i) s = (s, none)
  handle_frame (message_delta reason input output) s =
      (handle_message_delta reason input output s, none)
  handle_frame message_stop s = handle_message_stop s
  handle_frame (error_event kind message) s = handle_error kind message s
  handle_frame skipped s = (s, none)
  handle_frame (unreadable event) s = (s, some (malformed event))

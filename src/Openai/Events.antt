-- ===== src/Openai/Events.antt =====
-- internal/openai/translate_stream.go: the events that are read, and the chunks that are written.
use kiroxy.Prelude.{ℕ, if◌then◌else◌, List, [], Option, none, some}
use kiroxy.Prelude.Bytes.{Bytes, codes, beq}
use kiroxy.Reqconv.{BlockType}
use kiroxy.Openai.{FinishReason, ToolCall, Usage}

pub record ChunkDelta : Type 0 where
  pub role : Bytes
  pub content : Bytes
  pub tool_calls : List ToolCall

abbrev pub empty_delta : ChunkDelta
empty_delta = record { role = []; content = []; tool_calls = [] }

-- `ChatCompletionChunk`, with its one choice.
pub record Chunk : Type 0 where
  pub id : Bytes
  pub created : ℕ
  pub model : Bytes
  pub delta : ChunkDelta
  pub finish_reason : Option FinishReason
  pub usage : Option Usage

-- What is written: a chunk, or the terminator.
pub data Output : Type 0 where
  chunk : Chunk → Output
  done : Output

pub data Error : Type 0 where
  -- the JSON of an event of this name is not read
  malformed : Bytes → Error
  marshal_failed disconnected scan_failed cancelled : Error
  upstream_error : Bytes → Bytes → Error

-- An event of the Anthropic stream, its JSON decoded.
pub data Event : Type 0 where
  message_start : Bytes → ℕ → ℕ → Event
  block_start : ℕ → BlockType → Bytes → Bytes → Event
  text_delta : ℕ → Bytes → Event
  input_json_delta : ℕ → Bytes → Event
  other_delta : ℕ → Event
  message_delta : Bytes → ℕ → ℕ → Event
  message_stop : Event
  error_event : Bytes → Bytes → Event
  skipped : Event
  unreadable : Bytes → Event

-- `json.Unmarshal` into the payload of each handler.
pub record Decoders : Type 0 where
  pub on_message_start : Bytes → Option (Bytes × ℕ × ℕ)
  pub on_block_start : Bytes → Option (ℕ × BlockType × Bytes × Bytes)
  pub on_block_delta : Bytes → Option (ℕ × Bytes × Bytes × Bytes)
  pub on_message_delta : Bytes → Option (Bytes × ℕ × ℕ)
  pub on_error : Bytes → Bytes × Bytes

-- What `handleContentBlockDelta` switches on.
unfoldable pub delta_event : ℕ → Bytes → Bytes → Bytes → Event
delta_event i delta_type t partial =
    if beq delta_type (codes "text_delta")
    then text_delta i t
    else if beq delta_type (codes "input_json_delta")
    then input_json_delta i partial
    else other_delta i

-- The event of a frame: the switch of `handleFrame`, and the decoding that each handler begins with.
unfoldable pub decode_event : Decoders → Bytes × Bytes → Event
unfolding delta_event
decode_event d (event, payload) =
    if beq event (codes "message_start")
    then elim (d.on_message_start payload) [
      | none ↦ unreadable event
      | some (id, input, output) ↦ message_start id input output
    ]
    else if beq event (codes "content_block_start")
    then elim (d.on_block_start payload) [
      | none ↦ unreadable event
      | some (i, t, id, name) ↦ block_start i t id name
    ]
    else if beq event (codes "content_block_delta")
    then elim (d.on_block_delta payload) [
      | none ↦ unreadable event
      | some (i, t, s, partial) ↦ delta_event i t s partial
    ]
    else if beq event (codes "message_delta")
    then elim (d.on_message_delta payload) [
      | none ↦ unreadable event
      | some (reason, input, output) ↦ message_delta reason input output
    ]
    else if beq event (codes "message_stop")
    then message_stop
    else if beq event (codes "error")
    then error_event (d.on_error payload).0 (d.on_error payload).1
    else skipped

-- ===== src/Openai/Stream/Reader.antt =====
-- What a client makes of the chunks, and what an Anthropic stream says; internal/openai/translate_stream.go
-- goes from the one to the other.
use kiroxy.Prelude.{
  ℕ, zero, suc, Bool, true, false, ◌&&◌, ◌==◌, if◌then◌else◌, List, [], ◌∷◌, ◌++◌, Option, none,
  some,
}
use kiroxy.Prelude.Bytes.{Bytes, is_empty}
use kiroxy.Reqconv.{BlockType, text, Block, plain_result, is_tool_use}
use kiroxy.Openai.{FinishReason, ToolCall}
use kiroxy.Openai.Events.{
  Output, chunk, done, Event, message_start, block_start, text_delta, input_json_delta, other_delta,
  message_delta, message_stop, error_event, skipped, unreadable,
}

-- The message that the client has got.
pub record Got : Type 0 where
  pub text : Bytes
  pub calls : List ToolCall
  pub finish : Option FinishReason
  pub closed : Bool

-- A part of the call at the index given: its arguments go on, or it is the next one.
unfoldable pub put_call : ℕ → ToolCall → List ToolCall → List ToolCall
put_call zero c [] = record c { index = none } ∷ []
put_call (suc n) c [] = []
put_call zero c (d ∷ ds) = record d { arguments = d.arguments ++ c.arguments } ∷ ds
put_call (suc n) c (d ∷ ds) = d ∷ put_call n c ds

unfoldable pub put_calls : List ToolCall → List ToolCall → List ToolCall
unfolding put_call
put_calls [] ds = ds
put_calls (c ∷ cs) ds = put_calls cs (elim c.index [ none ↦ ds | some n ↦ put_call n c ds ])

abbrev pub last_reason : Option FinishReason → Option FinishReason → Option FinishReason
last_reason none r = r
last_reason (some q) r = some q

-- A client reads no further than the terminator.
unfoldable pub receive : Output → Got → Got
unfolding put_calls
receive x g = if g.closed then g else elim x [
  | chunk c ↦ record g {
    text = g.text ++ c.delta.content;
    calls = put_calls c.delta.tool_calls g.calls;
    finish = last_reason c.finish_reason g.finish;
  }
  | done ↦ record g { closed = true }
]

unfoldable pub receive_all : List Output → Got → Got
unfolding receive
receive_all [] g = g
receive_all (x ∷ xs) g = receive_all xs (receive x g)

abbrev pub nothing_got : Got
nothing_got = record { text = []; calls = []; finish = none; closed = false }

-- The message that an Anthropic stream has said: the blocks that are complete, the one that goes on
-- with its index, and the reason why it stopped.
pub record Heard : Type 0 where
  pub settled : List Block
  pub current : Option (ℕ × Block)
  pub closing : Bool
  pub reason : Bytes
  pub ended : Bool

abbrev pub nothing_heard : Heard
nothing_heard = record { settled = []; current = none; closing = false; reason = []; ended = false }

abbrev pub current_blocks : Option (ℕ × Block) → List Block
current_blocks none = []
current_blocks (some (i, b)) = b ∷ []

abbrev pub heard_blocks : Heard → List Block
heard_blocks h = h.settled ++ current_blocks h.current

abbrev pub new_block : BlockType → Bytes → Bytes → Block
new_block t id name = record {
  block_type = t;
  block_text = [];
  id = id;
  name = name;
  input = [];
  tool_use_id = [];
  tool_name = [];
  result = plain_result [];
  source = none;
}

unfoldable pub is_text : Block → Bool
is_text b = elim b.block_type [ text ↦ true | _ ↦ false ]

-- A delta belongs to the block that goes on.
unfoldable pub hear_text : ℕ → Bytes → Heard → Option Heard
unfolding is_text
hear_text i t h = elim h.current [
  | none ↦ none
  | some (j, b) ↦
      if i == j && is_text b
      then some (record h { current = some (j, record b { block_text = b.block_text ++ t }) })
      else none
]

unfoldable pub hear_input : ℕ → Bytes → Heard → Option Heard
unfolding is_tool_use
hear_input i s h = elim h.current [
  | none ↦ none
  | some (j, b) ↦
      if i == j && is_tool_use b
      then some (record h { current = some (j, record b { input = b.input ++ s }) })
      else none
]

-- One event, of a message that goes on; none where it is out of place or an error.
unfoldable pub hear_event : Event → Heard → Option Heard
unfolding hear_text hear_input
hear_event (message_start id input output) h = some h
hear_event (block_start i t id name) h =
    if h.closing
    then none
    else some (record h { settled = heard_blocks h; current = some (i, new_block t id name) })
hear_event (text_delta i t) h = hear_text i t h
hear_event (input_json_delta i s) h = hear_input i s h
hear_event (other_delta i) h = some h
hear_event (message_delta reason input output) h =
    if is_empty reason then some h else some (record h { closing = true; reason = reason })
hear_event message_stop h = some (record h { ended = true })
hear_event (error_event kind message) h = none
hear_event skipped h = some h
hear_event (unreadable event) h = none

unfoldable pub hear : Event → Heard → Option Heard
unfolding hear_event
hear e h = if h.ended then none else hear_event e h

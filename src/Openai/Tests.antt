-- ===== src/Openai/Tests.antt =====
-- Runs of internal/openai, and the theorems at them.
use kiroxy.Prelude.{
  ◌+◌, ◌≡◌, refl, String, true, false, ◌==◌, if◌then◌else◌, List, [], ◌∷◌, ◌++◌, none, some, arith,
  Option, inl, map, length,
}
use kiroxy.Prelude.Bytes.{Bytes, codes, beq, is_empty}
use kiroxy.Strings.Prefix.{has_prefix}
use kiroxy.Reqconv.{
  Role, BlockType, text, tool_use, Block, blocks, Message, plain_result, is_tool_use,
}
use kiroxy.Openai.{ToolCall, function_type}
use kiroxy.Openai.Chat.{ChatRole, tool, content_string, content_null, ChatMessage, ok}
use kiroxy.Openai.Content.{Decoding, content_as_text, parse_arguments_json}
use kiroxy.Openai.Events.{Output, done, Decoders, decode_event, delta_event}
use kiroxy.Openai.Frames.{parse_sse_frame, split_sse_frames, find_frame, read_line}
use kiroxy.Openai.Frames.Arrival.{split_sse_frames-append}
use kiroxy.Openai.Frames.RoundTrip.{event_lines, is_plain, written_event-read}
use kiroxy.Openai.Messages.{
  text_block, empty_block, translate_messages, translate_assistant_message, translate_tool_result,
  translate_calls, translate_call, of_blocks,
}
use kiroxy.Openai.Messages.SentBack.{
  Json, kept, sent_back, content_blocks, translate_assistant_message-sent_back,
}
use kiroxy.Openai.Messages.Items.{message_items, chat_items}
use kiroxy.Openai.Messages.Trace.{translate_messages-items}
use kiroxy.Openai.Request.{resolve_model}
use kiroxy.Openai.Request.Model.{Resolves, IsUnprefixed, resolve_model-IsUnprefixed}
use kiroxy.Openai.Response.{convert_assistant_content}
use kiroxy.Openai.Stream.{Sink, new_stream_translator}
use kiroxy.Openai.Stream.Said.{texts, calls}
use kiroxy.Openai.Stream.Agreement.{got}
use kiroxy.Openai.Stream.Reader.{
  receive_all, nothing_got, Heard, nothing_heard, hear, hear_event, is_text,
}
use kiroxy.Openai.Translate.{Scan, eof, frame, translate}
use kiroxy.Openai.Translate.Message.{IsAnswer, hear_all, translate-IsAnswer}

abbrev trim : Bytes → Bytes
trim [] = []
trim (c ∷ s) = if c == 32 then s else c ∷ s

abbrev quiet : Sink
quiet = record { fails = λ xs x. false; encodes = λ c. true; digits = λ n. codes "0" }

-- An event's JSON by a word for it.
abbrev decoders : Decoders
decoders = record {
  on_message_start = λ s. some (codes "msg_1", 3, 0);
  on_block_start = λ s.
      if beq s (codes "text")
      then some (0, text, [], [])
      else some (1, tool_use, codes "call_1", codes "read");
  on_block_delta = λ s.
      if beq s (codes "text")
      then some (0, codes "text_delta", codes "hi", [])
      else some (1, codes "input_json_delta", [], codes "{}");
  on_message_delta = λ s. some (codes "tool_use", 0, 5);
  on_error = λ s. ([], []);
}

abbrev sse : String → String → Scan → Scan
sse event payload rest = frame false (event_lines (codes event) (codes payload)) rest

abbrev stream : Scan
stream = sse "message_start" "m" (
    sse "content_block_start" "text" (
      sse "content_block_delta" "text" (
        sse "content_block_stop" "0" (
          sse "content_block_start" "tool" (
            sse "content_block_delta" "tool"
              (sse "message_delta" "d" (sse "message_stop" "s" eof)))))))

abbrev said : Block
said = text_block (codes "hi")

abbrev call : Block
call = record (empty_block tool_use) {
  id = codes "call_1";
  name = codes "read";
  input = codes "{}";
}

abbrev heard : Heard
heard = record {
  settled = said ∷ [];
  current = some (1, call);
  closing = true;
  reason = codes "tool_use";
  ended = true;
}

stream-heard : hear_all decoders trim stream nothing_heard ≡ some heard
unfolding hear_all event_lines hear hear_event decode_event delta_event parse_sse_frame read_line
    has_prefix beq is_empty is_text is_tool_use
stream-heard = refl

translate-IsAnswer_example :
    let (s, failed) =
      translate quiet decoders trim stream (new_stream_translator (codes "gpt-4o") 7) in
    (failed ≡ none)
    × ((xs : List Output) × (s.written ≡ xs ++ (done ∷ []))
        × ((receive_all xs nothing_got).closed ≡ false))
    × ((got s).closed ≡ true)
    × IsAnswer some (got s) (convert_assistant_content some (said ∷ call ∷ []) (codes "tool_use"))
translate-IsAnswer_example =
    translate-IsAnswer quiet (λ xs x. refl, λ c. refl) decoders trim some stream (codes "gpt-4o") 7
      heard stream-heard refl

written_event-read_example :
    (split_sse_frames (event_lines (codes "ping") (codes "{}") ++ (10 ∷ 10 ∷ codes "event")) false
      ≡ some (
        length (event_lines (codes "ping") (codes "{}")) + 2,
        event_lines (codes "ping") (codes "{}"),
      ))
    × (parse_sse_frame trim (event_lines (codes "ping") (codes "{}")) ≡ (codes "ping", codes "{}"))
unfolding is_plain
written_event-read_example =
    written_event-read trim (codes "ping") (codes "{}") (codes "event") false refl refl refl refl

abbrev cut_early : Bytes
cut_early = codes "data: 1" ++ (13 ∷ 10 ∷ 13 ∷ 10 ∷ codes "da")

split_sse_frames-append_example :
    split_sse_frames (cut_early ++ codes "ta: 2") true ≡ some (11, codes "data: 1")
unfolding split_sse_frames find_frame has_prefix
split_sse_frames-append_example =
    split_sse_frames-append cut_early (codes "ta: 2") true (11, codes "data: 1") refl

abbrev plain_json : Decoding
plain_json = record { trim_space = trim; is_base64 = λ s. true; parse = λ s. some (some s) }

abbrev tool_call : ToolCall
tool_call = record {
  index = none;
  id = codes "call_1";
  call_type = function_type;
  name = codes "read";
  arguments = codes "{}";
}

abbrev chat : List ChatMessage
chat =
    record {
      role = ChatRole.assistant;
      content = content_null;
      tool_calls = tool_call ∷ [];
      tool_call_id = [];
    }
    ∷ record {
      role = tool;
      content = content_string (codes "done");
      tool_calls = [];
      tool_call_id = codes "call_1";
    }
    ∷ []

abbrev translated : List Message
translated =
    record { role = Role.assistant; content = blocks (call ∷ []) }
    ∷ record {
      role = Role.user;
      content = blocks (
          record (empty_block BlockType.tool_result) {
            tool_use_id = codes "call_1";
            result = plain_result (codes "done");
          }
          ∷ []);
    }
    ∷ []

translate_messages-items_example : message_items translated ≡ chat_items plain_json chat
unfolding translate_messages translate_assistant_message translate_calls translate_call
    translate_tool_result of_blocks parse_arguments_json content_as_text is_empty beq
translate_messages-items_example = translate_messages-items plain_json chat translated refl

-- Inputs are written as they are, but for one that is empty.
abbrev written_input : Bytes → Option Bytes
written_input i = if is_empty i then none else some i

abbrev untrimmed : Decoding
untrimmed = record plain_json { trim_space = λ s. s }

written_input-Json : Json untrimmed written_input
written_input-Json = record {
  braces_trimmed = refl;
  braces_read = refl;
  trimmed = λ i m h. (refl, ground (arith, h));
  read = λ i m h. inl (ground (arith, h));
}

translate_assistant_message-sent_back_example :
    let (answer, _) =
      convert_assistant_content written_input (said ∷ call ∷ []) (codes "tool_use") in
    (m : Message) × (translate_assistant_message untrimmed (sent_back answer) ≡ ok m)
    × (m.role ≡ Role.assistant)
    × (texts (content_blocks m.content) ≡ texts (said ∷ call ∷ []))
    × (calls (content_blocks m.content)
        ≡ calls (map (kept untrimmed written_input) (said ∷ call ∷ [])))
unfolding is_empty is_tool_use
translate_assistant_message-sent_back_example =
    translate_assistant_message-sent_back untrimmed written_input written_input-Json
      (said ∷ call ∷ []) (codes "tool_use") (λ e. cc, (λ e. refl, tt))

resolve_model-IsUnprefixed_example :
    Resolves
      (λ s. s)
      (codes "openai/openai/gpt-4o")
      (resolve_model (λ s. s) (codes "openai/openai/gpt-4o"))
    × IsUnprefixed (resolve_model (λ s. s) (codes "openai/openai/gpt-4o"))
resolve_model-IsUnprefixed_example =
    resolve_model-IsUnprefixed (λ s. s) (λ s. omega arith) (codes "openai/openai/gpt-4o")

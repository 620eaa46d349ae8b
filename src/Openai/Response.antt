-- ===== src/Openai/Response.antt =====
-- internal/openai/translate_response.go: a whole Anthropic message as a chat completion.
use kiroxy.Prelude.{
  ℕ, ◌+◌, Bool, true, false, if◌then◌else◌, List, [], ◌∷◌, Option, none, some, concat,
}
use kiroxy.Prelude.Bytes.{Bytes, codes, is_empty}
use kiroxy.Reqconv.{text, tool_use, server_tool_use, Block}
use kiroxy.Openai.{
  FinishReason, map_finish_reason, chat_completion_id, ToolCall, function_type, Usage,
}

-- `MessageContent` of an answer: a string, or null.
pub data AnswerContent : Type 0 where
  answer_text : Bytes → AnswerContent
  is_null : AnswerContent

-- The `ChatMessage` of the assistant.
pub record Answer : Type 0 where
  pub content : AnswerContent
  pub tool_calls : List ToolCall

-- `anthropicResponse`
pub record AnthropicResponse : Type 0 where
  pub id : Bytes
  pub content : List Block
  pub stop_reason : Bytes
  pub input_tokens : ℕ
  pub output_tokens : ℕ

-- `ChatCompletionResponse`, with its one choice.
pub record ChatCompletion : Type 0 where
  pub id : Bytes
  pub created : ℕ
  pub model : Bytes
  pub message : Answer
  pub finish_reason : FinishReason
  pub usage : Usage

-- What the loop of `convertAssistantContent` gathers: the texts, whether there is a call, and the calls.
unfoldable pub text_parts : List Block → List Bytes
text_parts [] = []
text_parts (b ∷ bs) = elim b.block_type [
  | text ↦ if is_empty b.block_text then text_parts bs else b.block_text ∷ text_parts bs
  | _ ↦ text_parts bs
]

unfoldable pub has_tool_use : List Block → Bool
has_tool_use [] = false
has_tool_use (b ∷ bs) = elim b.block_type [
  | tool_use ↦ true
  | server_tool_use ↦ true
  | _ ↦ has_tool_use bs
]

-- `marshal` parses a tool's input and writes it again; a block without an input has an empty one.
module _ (marshal : Bytes → Option Bytes) where
  -- `marshalArguments`
  unfoldable pub marshal_arguments : Bytes → Bytes
  marshal_arguments input =
      if is_empty input then codes "{}" else elim (marshal input) [ none ↦ codes "{}" | some b ↦ b ]

  abbrev pub call_of : Block → ToolCall
  call_of b = record {
    index = none;
    id = b.id;
    call_type = function_type;
    name = b.name;
    arguments = marshal_arguments b.input;
  }

  unfoldable pub gather_calls : List Block → List ToolCall
  unfolding marshal_arguments
  gather_calls [] = []
  gather_calls (b ∷ bs) = elim b.block_type [
    | tool_use ↦ call_of b ∷ gather_calls bs
    | server_tool_use ↦ call_of b ∷ gather_calls bs
    | _ ↦ gather_calls bs
  ]

  -- `convertAssistantContent`
  unfoldable pub convert_assistant_content : List Block → Bytes → Answer × FinishReason
  unfolding text_parts gather_calls has_tool_use
  convert_assistant_content bs stop_reason =
      let parts = text_parts bs in
      let calls = gather_calls bs in
      let content =
        if is_empty parts
        then if is_empty calls then answer_text [] else is_null
        else answer_text (concat parts) in
      (
        record { content = content; tool_calls = calls },
        map_finish_reason stop_reason (has_tool_use bs),
      )

  -- `buildChatCompletion`
  unfoldable pub build_chat_completion : ℕ → Bytes → AnthropicResponse → ChatCompletion
  unfolding convert_assistant_content chat_completion_id
  build_chat_completion now echo_model r =
      let (message, finish) = convert_assistant_content r.content r.stop_reason in
      record {
        id = chat_completion_id r.id;
        created = now;
        model = echo_model;
        message = message;
        finish_reason = finish;
        usage = record {
          prompt_tokens = r.input_tokens;
          completion_tokens = r.output_tokens;
          total_tokens = r.input_tokens + r.output_tokens;
        };
      }

  -- `TranslateResponse`; `parse` decodes the body.
  unfoldable pub translate_response :
      (Bytes → Option AnthropicResponse) → ℕ → Bytes → Bytes → Option ChatCompletion
  unfolding build_chat_completion
  translate_response parse now echo_model body = elim (parse body) [
    | none ↦ none
    | some r ↦ some (build_chat_completion now echo_model r)
  ]

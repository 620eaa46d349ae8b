-- ===== src/Openai.antt =====
-- internal/openai: the front end that takes requests in the format of OpenAI's chat completions and
-- answers them from an Anthropic message. types.go, and the helpers of translate_response.go.
pub mod Chat
pub mod Content
pub mod Events
pub mod Frames
pub mod Messages
pub mod Request
pub mod Response
pub mod Stream
pub mod Translate
mod Tests
use kiroxy.Prelude.{
  ℕ, Bool, true, false, if◌then◌else◌, List, [], ◌∷◌, ◌++◌, Option, none, some, length, drop,
}
use kiroxy.Prelude.Bytes.{Bytes, codes, beq, is_empty}
use kiroxy.Strings.Prefix.{has_prefix}

-- The values of `finish_reason`: `FinishReasonStop` and the others.
pub data FinishReason : Type 0 where
  stop length_limit tool_calls content_filter : FinishReason

-- `mapFinishReason`
unfoldable pub map_finish_reason : Bytes → Bool → FinishReason
map_finish_reason reason true = tool_calls
map_finish_reason reason false =
    if beq reason (codes "end_turn")
    then stop
    else if beq reason (codes "stop_sequence")
    then stop
    else if beq reason (codes "max_tokens")
    then length_limit
    else if beq reason (codes "tool_use")
    then tool_calls
    else stop

-- `chatCompletionID`
unfoldable pub chat_completion_id : Bytes → Bytes
chat_completion_id anthropic_id =
    let prefix = codes "msg_" in
    let suffix =
      if has_prefix prefix anthropic_id then drop (length prefix) anthropic_id else anthropic_id in
    if is_empty suffix then codes "chatcmpl-unknown" else codes "chatcmpl-" ++ suffix

-- A call of a tool, with its `Function`; `index` is only used in a stream.
pub record ToolCall : Type 0 where
  pub index : Option ℕ
  pub id : Bytes
  pub call_type : Bytes
  pub name : Bytes
  pub arguments : Bytes

abbrev pub function_type : Bytes
function_type = codes "function"

-- `Usage`
pub record Usage : Type 0 where
  pub prompt_tokens : ℕ
  pub completion_tokens : ℕ
  pub total_tokens : ℕ

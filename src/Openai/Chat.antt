-- ===== src/Openai/Chat.antt =====
-- internal/openai/types.go: the messages of a chat, and the errors of a request that is not valid.
use kiroxy.Prelude.{List, Option}
use kiroxy.Prelude.Bytes.{Bytes}
use kiroxy.Openai.{ToolCall}

-- The roles, as their strings.
pub data ChatRole : Type 0 where
  system user assistant tool : ChatRole
  other_role : Bytes → ChatRole

-- `ContentPart`, by its type; an image has its URL, if it has one.
pub data ContentPart : Type 0 where
  text_part : Bytes → ContentPart
  image_part : Option Bytes → ContentPart
  unknown_part : Bytes → ContentPart

-- `MessageContent`: a string, an array, or null.
pub data ChatContent : Type 0 where
  content_string : Bytes → ChatContent
  content_parts : List ContentPart → ChatContent
  content_null : ChatContent

pub record ChatMessage : Type 0 where
  pub role : ChatRole
  pub content : ChatContent
  pub tool_calls : List ToolCall
  pub tool_call_id : Bytes

-- The errors, by what they complain of.
pub data ValidationError : Type 0 where
  model_required messages_empty only_one_choice function_choice : ValidationError
  tool_type tool_name_required system_not_first images_refused part_type : ValidationError
  unknown_role image_without_url call_type call_without_id arguments_not_json : ValidationError
  result_without_id not_a_data_uri malformed_data_uri not_base64 data_not_base64 : ValidationError

pub data Result {ℓ} (A : Type ℓ) : Type ℓ where
  ok : A → Result A
  invalid : ValidationError → Result A

infixl 5 ◌>>=◌
abbrev pub ◌>>=◌ {ℓ μ} : {X : Type ℓ} {Y : Type μ} → Result X → (X → Result Y) → Result Y
ok x >>= next = next x
invalid e >>= next = invalid e

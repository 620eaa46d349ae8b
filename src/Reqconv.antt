-- ===== src/Reqconv.antt =====
-- internal/reqconv: the conversation of a request, made into the one that the upstream takes.
pub mod Text
pub mod Normalizer
pub mod ToolResults
pub mod Payload
mod Tests
use kiroxy.Prelude.{ℕ, Bool, true, false, ◌||◌, List, [], ◌∷◌, Option}
use kiroxy.Prelude.Bytes.{Bytes, beq}

-- The roles, as their strings; any other string is `other`.
pub data Role : Type 0 where
  user assistant : Role
  other : Bytes → Role

-- `==` on the strings.
unfoldable pub same_role : Role → Role → Bool
same_role user user = true
same_role assistant assistant = true
same_role (other a) (other b) = beq a b
same_role _ _ = false

pub data BlockType : Type 0 where
  text thinking image tool_use server_tool_use tool_result tool_search_tool_result tool_reference :
      BlockType
  unknown : Bytes → BlockType

-- A block of a tool's result: a text, the names of tools that were found, or another block.
pub data Part : Type 0 where
  text_part : Bytes → Part
  references : List Bytes → Part
  other_part : Part

-- The content of a tool's result.
pub data ResultContent : Type 0 where
  plain_result : Bytes → ResultContent
  parts : List Part → ResultContent

-- `ImageSource`, of base64 data.
pub record ImageSource : Type 0 where
  pub media_type : Bytes
  pub encoded : Bytes

-- `ContentBlock`; `input` is the JSON of the tool's input.
pub record Block : Type 0 where
  pub block_type : BlockType
  pub block_text : Bytes
  pub id : Bytes
  pub name : Bytes
  pub input : Bytes
  pub tool_use_id : Bytes
  pub tool_name : Bytes
  pub result : ResultContent
  pub source : Option ImageSource

-- `MessageContent`: a string, or blocks.
pub data Content : Type 0 where
  plain : Bytes → Content
  blocks : List Block → Content

pub record Message : Type 0 where
  pub role : Role
  pub content : Content

-- `IsToolUse` and `IsToolResult`
unfoldable pub is_tool_use : Block → Bool
is_tool_use b = elim b.block_type [ tool_use ↦ true | server_tool_use ↦ true | _ ↦ false ]

unfoldable pub is_tool_result : Block → Bool
is_tool_result b = elim b.block_type [
  | tool_result ↦ true
  | tool_search_tool_result ↦ true
  | _ ↦ false
]

-- ===== src/Openai/Messages.antt =====
-- internal/openai/translate_request.go: the messages of a chat as Anthropic messages.
pub mod SentBack
pub mod System
pub mod Items
pub mod Trace
use kiroxy.Prelude.{
  ℕ, suc, Bool, true, false, not, ◌&&◌, ◌||◌, ◌==◌, if◌then◌else◌, List, [], ◌∷◌, ◌++◌, Option,
  none, some, length, take, drop,
}
use kiroxy.Prelude.Bytes.{Bytes, codes, beq, is_empty}
use kiroxy.Strings.Index.{index}
use kiroxy.Strings.Prefix.{has_prefix}
use kiroxy.Strings.Suffix.{cut_suffix}
use kiroxy.Reqconv.{
  Role, BlockType, text, image, tool_use, tool_result, ImageSource, Block, Content, plain, blocks,
  Message, plain_result,
}
use kiroxy.Reqconv.Text.{join}
use kiroxy.Openai.{ToolCall, function_type}
use kiroxy.Openai.Chat.{
  ChatRole, system, tool, ContentPart, text_part, image_part, unknown_part, ChatContent,
  content_string, content_parts, content_null, ChatMessage, ValidationError, system_not_first,
  images_refused, part_type, unknown_role, image_without_url, call_type, call_without_id,
  arguments_not_json, result_without_id, not_a_data_uri, malformed_data_uri, not_base64,
  data_not_base64, Result, ok, invalid, ◌>>=◌,
}
use kiroxy.Openai.Content.{content_as_text, Decoding, parse_image_url, parse_arguments_json}

unfoldable pub is_system : ChatRole → Bool
is_system system = true
is_system _ = false

unfoldable pub has_system : List ChatMessage → Bool
unfolding is_system
has_system [] = false
has_system (m ∷ ms) = is_system m.role || has_system ms

-- The texts of the messages of the system that stand first, and the other messages.
unfoldable pub leading_system : List ChatMessage → Result (List Bytes × List ChatMessage)
unfolding content_as_text is_system
leading_system [] = ok ([], [])
leading_system (m ∷ ms) =
    let rest = leading_system ms in
    if is_system m.role
    then (content_as_text m.content >>= λ t. rest >>= λ r. ok (t ∷ r.0, r.1))
    else ok ([], m ∷ ms)

-- `splitSystem`
unfoldable pub split_system : List ChatMessage → Result (Bytes × List ChatMessage)
unfolding leading_system has_system join
split_system ms = leading_system ms >>= λ r.
    if has_system r.1 then invalid system_not_first else ok (join (10 ∷ 10 ∷ []) r.0, r.1)

abbrev pub empty_block : BlockType → Block
empty_block t = record {
  block_type = t;
  block_text = [];
  id = [];
  name = [];
  input = [];
  tool_use_id = [];
  tool_name = [];
  result = plain_result [];
  source = none;
}

abbrev pub text_block : Bytes → Block
text_block t = record (empty_block text) { block_text = t }

module _ (d : Decoding) where
  unfoldable pub part_block : ContentPart → Result Block
  unfolding parse_image_url
  part_block (text_part t) = ok (text_block t)
  part_block (image_part none) = invalid image_without_url
  part_block (image_part (some url)) =
      parse_image_url d url >>= λ s. ok (record (empty_block image) { source = some s })
  part_block (unknown_part t) = invalid part_type

  unfoldable pub part_blocks : List ContentPart → Result (List Block)
  unfolding part_block
  part_blocks [] = ok []
  part_blocks (p ∷ ps) = part_block p >>= λ b. part_blocks ps >>= λ bs. ok (b ∷ bs)

  -- Blocks gathered by `append`: without any, the slice is nil, and the content an empty string.
  unfoldable pub of_blocks : List Block → Content
  of_blocks [] = plain []
  of_blocks (b ∷ bs) = blocks (b ∷ bs)

  -- `translateUserMessage`
  unfoldable pub translate_user_message : ChatMessage → Result Message
  unfolding part_blocks of_blocks
  translate_user_message m = elim m.content [
    | content_string t ↦ ok (record {
      role = Role.user;
      content = if is_empty m.tool_calls then plain t else blocks (text_block t ∷ []);
    })
    | content_parts ps ↦
        part_blocks ps >>= λ bs. ok (record { role = Role.user; content = of_blocks bs })
    | content_null ↦ ok (record { role = Role.user; content = plain [] })
  ]

  abbrev pub call_block : ToolCall → Bytes → Block
  call_block c input = record (empty_block tool_use) { id = c.id; name = c.name; input = input }

  unfoldable pub translate_call : ToolCall → Result Block
  unfolding parse_arguments_json
  translate_call c =
      if not (is_empty c.call_type) && not (beq c.call_type function_type)
      then invalid call_type
      else if is_empty c.id
      then invalid call_without_id
      else parse_arguments_json d c.arguments >>= λ input. ok (call_block c input)

  unfoldable pub translate_calls : List ToolCall → Result (List Block)
  unfolding translate_call
  translate_calls [] = ok []
  translate_calls (c ∷ cs) = translate_call c >>= λ b. translate_calls cs >>= λ bs. ok (b ∷ bs)

  -- `translateAssistantMessage`
  unfoldable pub translate_assistant_message : ChatMessage → Result Message
  unfolding content_as_text translate_calls of_blocks
  translate_assistant_message m = content_as_text m.content >>= λ t.
      translate_calls m.tool_calls >>= λ bs. ok (record {
        role = Role.assistant;
        content = of_blocks (if is_empty t then bs else text_block t ∷ bs);
      })

  -- `translateToolResult`
  unfoldable pub translate_tool_result : ChatMessage → Result Block
  unfolding content_as_text
  translate_tool_result m =
      if is_empty m.tool_call_id
      then invalid result_without_id
      else content_as_text m.content >>= λ t. ok (record (empty_block tool_result) {
        tool_use_id = m.tool_call_id;
        result = plain_result t;
      })

  abbrev pub results_message : List Block → Message
  results_message bs = record { role = Role.user; content = blocks bs }

  -- `translateMessages`: `open` holds the results of the run of tool messages that goes on, if one does.
  unfoldable pub close_results : Option (List Block) → List Message → List Message
  close_results none ms = ms
  close_results (some bs) ms = results_message bs ∷ ms

  abbrev pub and_result : Option (List Block) → Block → Option (List Block)
  and_result none b = some (b ∷ [])
  and_result (some bs) b = some (bs ++ (b ∷ []))

  unfoldable pub translate_messages : Option (List Block) → List ChatMessage → Result (List Message)
  unfolding translate_user_message translate_assistant_message translate_tool_result close_results
  translate_messages run [] = ok (close_results run [])
  translate_messages run (m ∷ ms) = elim m.role [
    | ChatRole.user ↦ translate_user_message m >>= λ a.
        translate_messages none ms >>= λ out. ok (close_results run (a ∷ out))
    | ChatRole.assistant ↦ translate_assistant_message m >>= λ a.
        translate_messages none ms >>= λ out. ok (close_results run (a ∷ out))
    | tool ↦ translate_tool_result m >>= λ b. translate_messages (and_result run b) ms
    | system ↦ invalid system_not_first
    | _ ↦ invalid unknown_role
  ]

-- ===== src/Reqconv/Normalizer.antt =====
-- internal/reqconv/message_normalizer.go: the pipeline that makes a conversation alternate.
pub mod Alternation
pub mod Answers
pub mod Pairing
use kiroxy.Prelude.{
  ℕ, Bool, true, false, not, ◌&&◌, ◌||◌, if◌then◌else◌, List, [], ◌∷◌, ◌++◌, Option, none, some,
  map,
}
use kiroxy.Prelude.Bytes.{Bytes, codes, beq}
use kiroxy.Reqconv.{
  Role, user, assistant, other, same_role, BlockType, text, tool_use, server_tool_use, tool_result,
  tool_search_tool_result, Block, Content, plain, blocks, Message, plain_result, is_tool_use,
  is_tool_result,
}
use kiroxy.Reqconv.Text.{newline, extract_tool_result_content_text, extract_text_content}

abbrev pub synthetic_empty : Bytes
synthetic_empty = codes "(empty)"

-- Blocks gathered by `append`: without any, the slice is nil, and the content an empty string.
unfoldable pub of_blocks : List Block → Content
of_blocks [] = plain []
of_blocks (b ∷ bs) = blocks (b ∷ bs)

abbrev pub text_block : Bytes → Block
text_block t = record {
  block_type = text;
  block_text = t;
  id = [];
  name = [];
  input = [];
  tool_use_id = [];
  tool_name = [];
  result = plain_result [];
  source = none;
}

unfoldable pub textualize_tool_use : Block → Block
textualize_tool_use b =
    text_block (
      codes "[Tool: " ++ (b.name ++ (codes " (" ++ (b.id ++ (codes ")]" ++ (newline ++ b.input))))))

unfoldable pub textualize_tool_result : Block → Block
unfolding extract_tool_result_content_text
textualize_tool_result b = text_block (
    codes "[Tool Result ("
    ++ (b.tool_use_id ++ (codes ")]" ++ (newline ++ extract_tool_result_content_text b.result))))

unfoldable pub textualize_block : Block → Block
unfolding textualize_tool_use textualize_tool_result is_tool_use is_tool_result
textualize_block b =
    if is_tool_use b
    then textualize_tool_use b
    else if is_tool_result b
    then textualize_tool_result b
    else b

unfoldable pub textualize_content : Content → Content
unfolding textualize_block of_blocks
textualize_content (plain t) = plain t
textualize_content (blocks bs) = of_blocks (map textualize_block bs)

-- `textualizeAllToolContent`
unfoldable pub textualize_all_tool_content : List Message → List Message
unfolding textualize_content
textualize_all_tool_content [] = []
textualize_all_tool_content (m ∷ ms) =
    record m { content = textualize_content m.content } ∷ textualize_all_tool_content ms

-- The identifiers of the tool calls in some blocks.
unfoldable pub tool_ids : List Block → List Bytes
unfolding is_tool_use
tool_ids [] = []
tool_ids (b ∷ bs) = let rest = tool_ids bs in if is_tool_use b then b.id ∷ rest else rest

-- The tool calls of a message that a result in the next one may answer.
unfoldable pub use_ids : Message → List Bytes
unfolding tool_ids
use_ids m = elim m.role [
  | assistant ↦ elim m.content [ plain t ↦ [] | blocks bs ↦ tool_ids bs ]
  | _ ↦ []
]

unfoldable pub has_id : Bytes → List Bytes → Bool
has_id x [] = false
has_id x (y ∷ ys) = beq x y || has_id x ys

unfoldable pub textualize_orphan : List Bytes → Block → Block
unfolding is_tool_result has_id textualize_tool_result
textualize_orphan ids b =
    if is_tool_result b && not (has_id b.tool_use_id ids) then textualize_tool_result b else b

-- A message behind one with the tool calls `ids`.
unfoldable pub textualize_orphans_in : List Bytes → Message → Message
unfolding textualize_orphan of_blocks
textualize_orphans_in ids m = elim m.role [
  | user ↦ elim m.content [
    | plain t ↦ m
    | blocks bs ↦ record m { content = of_blocks (map (textualize_orphan ids) bs) }
  ]
  | _ ↦ m
]

-- `textualizeOrphanToolResults`, from the tool calls of the message before.
unfoldable pub textualize_orphan_tool_results : List Bytes → List Message → List Message
unfolding textualize_orphans_in use_ids
textualize_orphan_tool_results ids [] = []
textualize_orphan_tool_results ids (m ∷ ms) =
    textualize_orphans_in ids m ∷ textualize_orphan_tool_results (use_ids m) ms

-- `textualizeToolContent`
unfoldable pub textualize_tool_content : Bool → List Message → List Message
unfolding textualize_all_tool_content textualize_orphan_tool_results
textualize_tool_content has_tools ms =
    if has_tools then textualize_orphan_tool_results [] ms else textualize_all_tool_content ms

unfoldable pub normalize_role : Role → Role
normalize_role user = user
normalize_role assistant = assistant
normalize_role (other r) = user

-- `normalizeRoles`
unfoldable pub normalize_roles : List Message → List Message
unfolding normalize_role
normalize_roles [] = []
normalize_roles (m ∷ ms) = record m { role = normalize_role m.role } ∷ normalize_roles ms

unfoldable pub all_text : List Block → Bool
all_text [] = true
all_text (b ∷ bs) = elim b.block_type [ text ↦ true | _ ↦ false ] && all_text bs

-- `isPlainTextContent`
unfoldable pub is_plain_text_content : Content → Bool
unfolding all_text
is_plain_text_content (plain t) = true
is_plain_text_content (blocks bs) = all_text bs

-- The message of a run that began with `m`; `built` is the text joined, once the run is longer than one.
unfoldable pub close_run : Message → Option Bytes → Message
close_run m none = m
close_run m (some b) = record m { content = plain b }

-- The text of the run so far.
unfoldable pub run_text : Message → Option Bytes → Bytes
unfolding extract_text_content
run_text m none = extract_text_content m.content
run_text m (some b) = b

-- The run that began with `m` goes on with `x`.
unfoldable pub goes_on : Message → Message → Bool
unfolding is_plain_text_content same_role
goes_on m x =
    is_plain_text_content m.content && same_role x.role m.role && is_plain_text_content x.content

-- The run that goes on, one message after the other, and the runs behind it.
unfoldable pub merge_run : Message → Option Bytes → List Message → List Message
unfolding close_run run_text goes_on
merge_run m built [] = close_run m built ∷ []
merge_run m built (x ∷ xs) = elim (goes_on m x) [
  | true ↦ merge_run m (some (run_text m built ++ (newline ++ extract_text_content x.content))) xs
  | false ↦ close_run m built ∷ merge_run x none xs
]

-- `mergeAdjacentSameRole`
unfoldable pub merge_adjacent_same_role : List Message → List Message
unfolding merge_run
merge_adjacent_same_role [] = []
merge_adjacent_same_role (m ∷ ms) = merge_run m none ms

abbrev pub synthetic : Role → Message
synthetic r = record { role = r; content = plain synthetic_empty }

-- `ensureStartsWithUser`
unfoldable pub ensure_starts_with_user : List Message → List Message
unfolding same_role
ensure_starts_with_user [] = []
ensure_starts_with_user (m ∷ ms) = if same_role m.role user then m ∷ ms else synthetic user ∷ m ∷ ms

unfoldable pub opposite_role : Role → Role
opposite_role assistant = user
opposite_role _ = assistant

-- The messages behind one of the role given.
unfoldable pub alternate : Role → List Message → List Message
unfolding same_role opposite_role
alternate r [] = []
alternate r (m ∷ ms) =
    let rest = alternate m.role ms in
    if same_role m.role r then synthetic (opposite_role m.role) ∷ m ∷ rest else m ∷ rest

-- `ensureAlternatingRoles`
unfoldable pub ensure_alternating_roles : List Message → List Message
unfolding alternate
ensure_alternating_roles [] = []
ensure_alternating_roles (m ∷ ms) = m ∷ alternate m.role ms

-- `Normalize`
unfoldable pub normalize : Bool → List Message → List Message
unfolding textualize_tool_content normalize_roles merge_adjacent_same_role ensure_starts_with_user
    ensure_alternating_roles
normalize has_tools ms = ensure_alternating_roles (
    ensure_starts_with_user
      (merge_adjacent_same_role (normalize_roles (textualize_tool_content has_tools ms))))

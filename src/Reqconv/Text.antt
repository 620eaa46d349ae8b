-- ===== src/Reqconv/Text.antt =====
-- internal/reqconv/content_text.go and internal/reqconv/message_normalizer.go: contents as texts.
use kiroxy.Prelude.{if◌then◌else◌, List, [], ◌∷◌, ◌++◌}
use kiroxy.Prelude.Bytes.{Bytes, codes, is_empty}
use kiroxy.Reqconv.{
  text, unknown, Block, Content, plain, blocks, Part, text_part, references, other_part,
  ResultContent, plain_result, parts,
}

-- `strings.Join`
unfoldable pub join : Bytes → List Bytes → Bytes
join sep [] = []
join sep (x ∷ []) = x
join sep (x ∷ y ∷ xs) = x ++ (sep ++ join sep (y ∷ xs))

abbrev pub newline : Bytes
newline = 10 ∷ []

unfoldable pub reference_parts : List Bytes → List Bytes
reference_parts [] = []
reference_parts (n ∷ ns) =
    let rest = reference_parts ns in
    if is_empty n then rest else (codes "tool_reference: " ++ n) ∷ rest

unfoldable pub result_parts : List Part → List Bytes
unfolding reference_parts
result_parts [] = []
result_parts (text_part t ∷ ps) = t ∷ result_parts ps
result_parts (references ns ∷ ps) = reference_parts ns ++ result_parts ps
result_parts (other_part ∷ ps) = result_parts ps

-- `extractToolResultContentText`
unfoldable pub extract_tool_result_content_text : ResultContent → Bytes
unfolding join result_parts
extract_tool_result_content_text (plain_result t) = t
extract_tool_result_content_text (parts ps) = join newline (result_parts ps)

-- `textualizeUnknownBlock`, of a block of type `t`
unfoldable pub textualize_unknown_block : Bytes → Block → Bytes
textualize_unknown_block t b =
    let second = if is_empty b.name then b.id else b.name in
    let identifier = if is_empty b.tool_name then second else b.tool_name in
    if is_empty identifier
    then codes "[" ++ (t ++ codes "]")
    else codes "[" ++ (t ++ (codes ": " ++ (identifier ++ codes "]")))

unfoldable pub block_parts : Block → List Bytes
unfolding textualize_unknown_block
block_parts b = elim b.block_type [
  | text ↦ b.block_text ∷ []
  | unknown t ↦ textualize_unknown_block t b ∷ []
  | _ ↦ []
]

unfoldable pub content_parts : List Block → List Bytes
unfolding block_parts
content_parts [] = []
content_parts (b ∷ bs) = block_parts b ++ content_parts bs

-- `ExtractTextContent`
unfoldable pub extract_text_content : Content → Bytes
unfolding join content_parts
extract_text_content (plain t) = t
extract_text_content (blocks bs) = join (codes " ") (content_parts bs)

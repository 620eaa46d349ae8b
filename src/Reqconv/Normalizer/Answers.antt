-- ===== src/Reqconv/Normalizer/Answers.antt =====
-- internal/reqconv/message_normalizer.go: every tool result answers a tool call of the message before.
use kiroxy.Prelude.{
  ◌≡◌, refl, ◌⊎◌, inl, inr, Bool, true, false, if◌then◌else◌, List, [], ◌∷◌, map, Bool-cases, All,
  arith,
}
use kiroxy.Prelude.Bytes.{Bytes}
use kiroxy.Reqconv.{
  Role, user, assistant, other, Block, Content, plain, blocks, Message, is_tool_use, is_tool_result,
}
use kiroxy.Reqconv.Normalizer.{
  textualize_tool_use, textualize_tool_result, textualize_block, textualize_content,
  textualize_all_tool_content, use_ids, has_id, textualize_orphan, textualize_orphans_in,
  textualize_orphan_tool_results, textualize_tool_content, of_blocks,
}

-- The tool calls that the results among some blocks answer.
abbrev pub answered_ids : List Block → List Bytes
answered_ids [] = []
answered_ids (b ∷ bs) =
    let rest = answered_ids bs in if is_tool_result b then b.tool_use_id ∷ rest else rest

-- The tool calls that a message of the user answers.
abbrev pub result_ids : Message → List Bytes
result_ids m = elim m.role [
  | user ↦ elim m.content [ plain t ↦ [] | blocks bs ↦ answered_ids bs ]
  | _ ↦ []
]

-- Each result in a message of the user answers a tool call of the message before, the tool calls before
-- the first message being `ids`.
abbrev pub Answered : List Bytes → List Message → Type 0
Answered ids [] = Unit
Answered ids (m ∷ ms) = All (λ i. has_id i ids ≡ true) (result_ids m) × Answered (use_ids m) ms

-- A block that is no result, or answers one of the tool calls.
abbrev Allowed : List Bytes → Block → Type 0
Allowed ids b = (is_tool_result b ≡ false) ⊎ (has_id b.tool_use_id ids ≡ true)

Answers : List Bytes → List Block → Type 0
Answers ids bs = All (λ i. has_id i ids ≡ true) (answered_ids bs)

Answers-cons :
    (ids : List Bytes) (b : Block) (bs : List Block)
    → Allowed ids b
    → Answers ids bs
    → Answers ids (b ∷ bs)
unfolding Answers
Answers-cons ids b bs (inl e) rest = rw (Answers, answered_ids, e) rest
Answers-cons ids b bs (inr e) rest = elim (Bool-cases (is_tool_result b)) [
  | inl f ↦ rw (Answers, answered_ids, f) (e, rest)
  | inr f ↦ rw (Answers, answered_ids, f) rest
]

textualize_orphan-Allowed : (ids : List Bytes) (b : Block) → Allowed ids (textualize_orphan ids b)
unfolding textualize_orphan textualize_tool_result is_tool_result
textualize_orphan-Allowed ids b = ground arith

textualize_orphan-Answers :
    (ids : List Bytes) (bs : List Block) → Answers ids (map (textualize_orphan ids) bs)
unfolding Answers
textualize_orphan-Answers ids [] = _
textualize_orphan-Answers ids (b ∷ bs) =
    Answers-cons ids (textualize_orphan ids b) _ (textualize_orphan-Allowed ids b)
      (textualize_orphan-Answers ids bs)

textualize_block-Allowed : (ids : List Bytes) (b : Block) → Allowed ids (textualize_block b)
unfolding textualize_block textualize_tool_use textualize_tool_result is_tool_use is_tool_result
textualize_block-Allowed ids b = ground arith

textualize_block-Answers :
    (ids : List Bytes) (bs : List Block) → Answers ids (map textualize_block bs)
unfolding Answers
textualize_block-Answers ids [] = _
textualize_block-Answers ids (b ∷ bs) =
    Answers-cons ids (textualize_block b) _ (textualize_block-Allowed ids b)
      (textualize_block-Answers ids bs)

-- A message of the user answers only tool calls among `ids`.
unfoldable pub AnswersTo : List Bytes → Message → Type 0
AnswersTo ids m = All (λ i. has_id i ids ≡ true) (result_ids m)

of_blocks-Answers :
    (ids : List Bytes) (bs : List Block)
    → Answers ids bs
    → AnswersTo ids (record { role = user; content = of_blocks bs })
unfolding AnswersTo Answers of_blocks
of_blocks-Answers ids [] h = _
of_blocks-Answers ids (b ∷ bs) h = h

textualize_orphans_in-AnswersTo :
    (ids : List Bytes) (r : Role) (c : Content)
    → let m : Message = record { role = r; content = c } in
      AnswersTo ids (textualize_orphans_in ids m)
      × (use_ids (textualize_orphans_in ids m) ≡ use_ids m)
unfolding textualize_orphans_in AnswersTo use_ids
textualize_orphans_in-AnswersTo ids user (plain t) = (_, refl)
textualize_orphans_in-AnswersTo ids user (blocks bs) =
    (of_blocks-Answers ids _ (textualize_orphan-Answers ids bs), refl)
textualize_orphans_in-AnswersTo ids assistant c = (_, refl)
textualize_orphans_in-AnswersTo ids (other r) c = (_, refl)

orphans-Answered :
    (ids : List Bytes) (ms : List Message) → Answered ids (textualize_orphan_tool_results ids ms)
unfolding textualize_orphan_tool_results AnswersTo
orphans-Answered ids [] = _
orphans-Answered ids (m ∷ ms) =
    let (h, e) = textualize_orphans_in-AnswersTo ids m.role m.content in
    (h, rw (e) (orphans-Answered (use_ids m) ms))

textualize_content-AnswersTo :
    (ids : List Bytes) (r : Role) (c : Content)
    → AnswersTo ids (record { role = r; content = textualize_content c })
unfolding textualize_content AnswersTo
textualize_content-AnswersTo ids user (plain t) = _
textualize_content-AnswersTo ids user (blocks bs) =
    of_blocks-Answers ids _ (textualize_block-Answers ids bs)
textualize_content-AnswersTo ids assistant c = _
textualize_content-AnswersTo ids (other r) c = _

textualize_all_tool_content-Answered :
    (ids : List Bytes) (ms : List Message) → Answered ids (textualize_all_tool_content ms)
unfolding textualize_all_tool_content AnswersTo
textualize_all_tool_content-Answered ids [] = _
textualize_all_tool_content-Answered ids (m ∷ ms) = (
  textualize_content-AnswersTo ids m.role m.content,
  textualize_all_tool_content-Answered
      (use_ids (record m { content = textualize_content m.content })) ms,
)

pub textualize_tool_content-Answered :
    (has_tools : Bool) (ms : List Message) → Answered [] (textualize_tool_content has_tools ms)
unfolding textualize_tool_content
textualize_tool_content-Answered true ms = orphans-Answered [] ms
textualize_tool_content-Answered false ms = textualize_all_tool_content-Answered [] ms

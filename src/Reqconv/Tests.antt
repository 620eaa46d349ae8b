-- ===== src/Reqconv/Tests.antt =====
-- Runs of internal/reqconv on small conversations, and the theorems at them.
use kiroxy.Prelude.{◌≡◌, ◌++◌, refl, inl, inr, true, none, List, [], ◌∷◌}
use kiroxy.Prelude.Bytes.{Bytes, codes, beq}
use mathlib.Core.List.{Perm}
use kiroxy.Reqconv.{
  Role, user, assistant, other, same_role, BlockType, tool_use, tool_result, Block, Content, plain,
  blocks, Message, plain_result,
}
use kiroxy.Reqconv.Normalizer.{
  has_id, normalize, textualize_tool_content, textualize_orphan_tool_results, textualize_orphans_in,
  use_ids, normalize_roles, normalize_role, merge_adjacent_same_role, merge_run, close_run,
  ensure_starts_with_user, ensure_alternating_roles, alternate,
}
use kiroxy.Reqconv.Normalizer.Alternation.{Alternates, normalize-Alternates}
use kiroxy.Reqconv.Normalizer.Answers.{Answered}
use kiroxy.Reqconv.Normalizer.Pairing.{normalize-Answered}
use kiroxy.Reqconv.ToolResults.{
  success, ToolResult, reorder_tool_results, placed, used, left_over, find_result,
}
use kiroxy.Reqconv.ToolResults.Order.{result_ids, reorder_tool_results-Perm}
use kiroxy.Reqconv.ToolResults.Answers.{answered, reorder_tool_results-answered}
use kiroxy.Reqconv.Payload.{split_messages, split_messages-Alternates}

abbrev block : BlockType → Block
block t = record {
  block_type = t;
  block_text = codes "t";
  id = codes "i";
  name = codes "read";
  input = codes "{}";
  tool_use_id = codes "i";
  tool_name = [];
  result = plain_result (codes "done");
  source = none;
}

abbrev says : Role → Content → Message
says r c = record { role = r; content = c }

-- The user's message, split in two, a call and its result, and a result without a call.
abbrev chat : List Message
chat =
    says user (plain (codes "a"))
    ∷ says user (plain (codes "b"))
    ∷ says assistant (blocks (block tool_use ∷ []))
    ∷ says user (blocks (block tool_result ∷ []))
    ∷ says user (blocks (block tool_result ∷ []))
    ∷ []

normalize-Alternates_example : Alternates user (normalize true chat)
normalize-Alternates_example = normalize-Alternates true chat

normalize-Answered_example : Answered [] (normalize true chat)
normalize-Answered_example =
    normalize-Answered true chat (inl refl, (inl refl, (inr refl, (inl refl, (inl refl, _)))))

split_messages-Alternates_example :
    let (history, last) = split_messages (normalize true chat) in
    Alternates user (history ++ (last ∷ [])) × (last.role ≡ user)
split_messages-Alternates_example = split_messages-Alternates true chat (λ e. cc)

-- A result in a message of another role stays, without a call that it answers.
orphan_kept :
    normalize true (says (other (codes "developer")) (blocks (block tool_result ∷ [])) ∷ [])
    ≡ says user (blocks (block tool_result ∷ [])) ∷ []
unfolding normalize textualize_tool_content textualize_orphan_tool_results textualize_orphans_in
    use_ids normalize_roles normalize_role merge_adjacent_same_role merge_run close_run
    ensure_starts_with_user same_role ensure_alternating_roles alternate
orphan_kept = refl

abbrev result : Bytes → Bytes → ToolResult
result i out = record { tool_use_id = i; status = success; exit_status = codes "0"; stdout = out }

abbrev late_first : List ToolResult
late_first = result (codes "b") (codes "2") ∷ result (codes "a") (codes "1") ∷ []

reorder_tool_results-Perm_example :
    Perm (reorder_tool_results late_first (codes "a" ∷ codes "b" ∷ [])) late_first
unfolding has_id beq
reorder_tool_results-Perm_example =
    reorder_tool_results-Perm late_first (codes "a" ∷ codes "b" ∷ []) (refl, (refl, _))
      (refl, (refl, _))

reorder_tool_results-answered_example :
    result_ids (reorder_tool_results late_first (codes "a" ∷ codes "b" ∷ []))
    ≡ answered late_first (codes "a" ∷ codes "b" ∷ [])
unfolding has_id beq
reorder_tool_results-answered_example =
    reorder_tool_results-answered late_first (codes "a" ∷ codes "b" ∷ []) (refl, (refl, _))
      (refl, (refl, _))

-- Of two results of one call, the earlier is not sent.
result_dropped :
    reorder_tool_results
      (result (codes "a") (codes "1") ∷ result (codes "a") (codes "2") ∷ [])
      (codes "a" ∷ [])
    ≡ result (codes "a") (codes "2") ∷ []
unfolding reorder_tool_results placed used left_over find_result has_id beq
result_dropped = refl

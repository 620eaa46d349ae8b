-- ===== src/Reqconv/ToolResults.antt =====
-- internal/reqconv/tool_results.go: the tool calls and the results of a message, and the order that the
-- results are sent in.
pub mod Order
pub mod Answers
use kiroxy.Prelude.{
  ℕ, Bool, true, false, leb, if◌then◌else◌, List, [], ◌∷◌, ◌++◌, Option, none, some, length,
}
use kiroxy.Prelude.Bytes.{Bytes, codes, beq, is_empty}
use kiroxy.Reqconv.{
  tool_result, Block, Content, plain, blocks, is_tool_use, is_tool_result, ResultContent,
}
use kiroxy.Reqconv.Text.{extract_tool_result_content_text}
use kiroxy.Reqconv.Normalizer.{has_id}

pub data Status : Type 0 where
  success error : Status

-- `kiroproto.ToolResult`, whose content is one JSON object; its `stderr` is empty.
pub record ToolResult : Type 0 where
  pub tool_use_id : Bytes
  pub status : Status
  pub exit_status : Bytes
  pub stdout : Bytes

pub record HistoryToolUse : Type 0 where
  pub tool_use_id : Bytes
  pub name : Bytes
  pub input : Bytes

unfoldable pub tool_uses_of : List Block → List HistoryToolUse
unfolding is_tool_use
tool_uses_of [] = []
tool_uses_of (b ∷ bs) =
    let rest = tool_uses_of bs in
    if is_tool_use b
    then record { tool_use_id = b.id; name = b.name; input = b.input } ∷ rest
    else rest

-- `ExtractToolUses`
unfoldable pub extract_tool_uses : Content → List HistoryToolUse
unfolding tool_uses_of
extract_tool_uses (plain t) = []
extract_tool_uses (blocks bs) = tool_uses_of bs

-- The result in a block; `failed` says whether the block is an error.
unfoldable pub tool_result_of : Bool → Block → ToolResult
unfolding extract_tool_result_content_text
tool_result_of failed b =
    let out = extract_tool_result_content_text b.result in
    record {
      tool_use_id = b.tool_use_id;
      status = if failed then error else success;
      exit_status = if failed then codes "1" else codes "0";
      stdout = if is_empty out then codes "(empty result)" else out;
    }

unfoldable pub tool_results_of : (Block → Bool) → List Block → List ToolResult
unfolding is_tool_result tool_result_of
tool_results_of is_error [] = []
tool_results_of is_error (b ∷ bs) =
    let rest = tool_results_of is_error bs in
    if is_tool_result b then tool_result_of (is_error b) b ∷ rest else rest

-- `ExtractToolResults`; `is_error` is the field of that name.
unfoldable pub extract_tool_results : (Block → Bool) → Content → List ToolResult
unfolding tool_results_of
extract_tool_results is_error (plain t) = []
extract_tool_results is_error (blocks bs) = tool_results_of is_error bs

-- The map `index`: the last result for each identifier.
unfoldable pub find_result : Bytes → List ToolResult → Option ToolResult
find_result x [] = none
find_result x (r ∷ rs) = elim (find_result x rs) [
  | some s ↦ some s
  | none ↦ if beq x r.tool_use_id then some r else none
]

-- The first loop: the results in the order of the tool calls, and the identifiers used.
unfoldable pub placed : List ToolResult → List Bytes → List ToolResult
unfolding find_result
placed rs [] = []
placed rs (x ∷ xs) = elim (find_result x rs) [ none ↦ placed rs xs | some r ↦ r ∷ placed rs xs ]

unfoldable pub used : List ToolResult → List Bytes → List Bytes
unfolding find_result
used rs [] = []
used rs (x ∷ xs) = elim (find_result x rs) [ none ↦ used rs xs | some r ↦ x ∷ used rs xs ]

-- The second loop: the results whose identifiers are not used.
unfoldable pub left_over : List Bytes → List ToolResult → List ToolResult
unfolding has_id
left_over ids [] = []
left_over ids (r ∷ rs) =
    let rest = left_over ids rs in if has_id r.tool_use_id ids then rest else r ∷ rest

-- `ReorderToolResults`
unfoldable pub reorder_tool_results : List ToolResult → List Bytes → List ToolResult
unfolding placed used left_over
reorder_tool_results rs [] = rs
reorder_tool_results rs (x ∷ xs) =
    if leb (length rs) 1 then rs else placed rs (x ∷ xs) ++ left_over (used rs (x ∷ xs)) rs

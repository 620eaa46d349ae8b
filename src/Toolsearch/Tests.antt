-- ===== src/Toolsearch/Tests.antt =====
-- internal/toolsearch: tests and examples.
use kiroxy.Prelude.{◌≤◌, ◌≡◌, ◌⊎◌, inr, refl, Bool, true, false, [], ◌∷◌, some, length}
use kiroxy.Prelude.Bytes.{Bytes, codes, beq, is_empty}
use kiroxy.Strings.Prefix.{has_prefix}
use mathlib.Core.List.{Perm}
use kiroxy.Toolsearch.{
  other, search_bm25, Tool, Context, regex, bm25, has_tool, new_context, promote_tools,
}
use kiroxy.Toolsearch.Promotion.{tools_of, promote_tools-Perm}
use kiroxy.Toolsearch.Search.{SearchCalls, search}
use kiroxy.Toolsearch.Search.Found.{every, limit_of, search-found}

abbrev named : Bytes → Bool → Tool
named n deferred = record {
  tool_type = other [];
  name = n;
  description = [];
  defer_loading = deferred;
}

abbrev search_tool : Tool
search_tool = record (named (codes "find") false) { tool_type = search_bm25 }

abbrev two_deferred : Context
two_deferred = record {
  search_type = regex;
  search_tool_name = codes "find";
  deferred_tools = named (codes "read") true ∷ named (codes "edit") true ∷ [];
  active_tools = named (codes "run") false ∷ [];
}

-- Patterns match what they are equal to; the scores are in descending order already.
abbrev calls : SearchCalls
calls = record {
  compile = λ s. some (beq s);
  quote_meta = λ s. s;
  fields = λ s. s ∷ [];
  to_lower = λ s. s;
  trim_space = λ s. s;
  sort_by_score = λ xs. xs;
  bm25_score = λ ws ts t. 1;
}

-- Of two deferred tools of one name, the context keeps the later.
later_tool_kept :
    new_context (
      named (codes "read") true
      ∷ search_tool
      ∷ named (codes "run") false
      ∷ named (codes "edit") true
      ∷ named (codes "read") true
      ∷ [])
    ≡ some (record two_deferred { search_type = bm25 })
unfolding new_context beq
later_tool_kept = refl

-- A name that is selected twice is found twice, and promoted once.
select_twice :
    search calls (codes "select:edit,edit,no") two_deferred.deferred_tools regex 0
    ≡ inr (codes "edit" ∷ codes "edit" ∷ [])
unfolding search beq has_prefix has_tool is_empty
select_twice = refl

promote_tools-Perm_example :
    Perm
      (tools_of (promote_tools (codes "edit" ∷ codes "edit" ∷ []) two_deferred))
      (tools_of two_deferred)
promote_tools-Perm_example = promote_tools-Perm (codes "edit" ∷ codes "edit" ∷ []) two_deferred

search-found_example :
    (every (λ x. has_tool x two_deferred.deferred_tools) (codes "edit" ∷ []) ≡ true)
    × ((has_prefix (codes "select:") (codes "edit") ≡ true)
        ⊎ (length (codes "edit" ∷ []) ≤ limit_of 0))
unfolding search beq has_prefix
search-found_example =
    search-found calls (λ f xs h. h) (codes "edit") two_deferred.deferred_tools regex 0
      (codes "edit" ∷ []) refl

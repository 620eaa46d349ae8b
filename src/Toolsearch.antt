-- ===== src/Toolsearch.antt =====
-- internal/toolsearch: the tools that a request defers, and the search that finds them.
pub mod Search
pub mod Promotion
mod Tests
use kiroxy.Prelude.{Bool, true, false, ◌||◌, if◌then◌else◌, List, [], ◌∷◌, ◌++◌, Option, none, some}
use kiroxy.Prelude.Bytes.{Bytes, beq, codes}

-- The types of tools: the two search tools, and any other string.
pub data ToolType : Type 0 where
  search_regex search_bm25 : ToolType
  other : Bytes → ToolType

-- `Tool`, without its schema and its cache control.
pub record Tool : Type 0 where
  pub tool_type : ToolType
  pub name : Bytes
  pub description : Bytes
  pub defer_loading : Bool

-- `IsToolSearchTool`
unfoldable pub is_tool_search_tool : Tool → Bool
is_tool_search_tool t = elim t.tool_type [
  | search_regex ↦ true
  | search_bm25 ↦ true
  | other s ↦ false
]

pub data SearchType : Type 0 where
  regex bm25 : SearchType

-- `Context`. A map from names to tools is the list of its tools, with each name once.
pub record Context : Type 0 where
  pub search_type : SearchType
  pub search_tool_name : Bytes
  pub deferred_tools : List Tool
  pub active_tools : List Tool

abbrev pub tool_search_name : Bytes
tool_search_name = codes "ToolSearch"

unfoldable pub has_tool : Bytes → List Tool → Bool
has_tool n [] = false
has_tool n (t ∷ ts) = beq t.name n || has_tool n ts

-- `m[t.Name] = t`
unfoldable pub put : Tool → List Tool → List Tool
put t [] = t ∷ []
put t (u ∷ us) = let rest = put t us in if beq u.name t.name then t ∷ us else u ∷ rest

-- The tool of a name, with the map that it is deleted from.
unfoldable pub take_out : Bytes → List Tool → Option (Tool × List Tool)
take_out n [] = none
take_out n (t ∷ ts) =
    let rest = take_out n ts in
    if beq t.name n
    then some (t, ts)
    else elim rest [ none ↦ none | some (u, us) ↦ some (u, t ∷ us) ]

unfoldable pub first_search_tool : List Tool → Option Tool
unfolding is_tool_search_tool
first_search_tool [] = none
first_search_tool (t ∷ ts) =
    let rest = first_search_tool ts in if is_tool_search_tool t then some t else rest

abbrev search_type_of : ToolType → SearchType
search_type_of search_bm25 = bm25
search_type_of _ = regex

-- The second loop of `NewContext`.
unfoldable pub add_tools : List Tool → Context → Context
unfolding put is_tool_search_tool
add_tools [] c = c
add_tools (t ∷ ts) c = add_tools ts (
    if is_tool_search_tool t
    then c
    else if t.defer_loading
    then record c { deferred_tools = put t c.deferred_tools }
    else record c { active_tools = c.active_tools ++ (t ∷ []) })

-- `NewContext`; none when no tool is a search tool.
unfoldable pub new_context : List Tool → Option Context
unfolding first_search_tool add_tools
new_context ts = elim (first_search_tool ts) [
  | none ↦ none
  | some t ↦ some (
      add_tools ts (record {
        search_type = search_type_of t.tool_type;
        search_tool_name = t.name;
        deferred_tools = [];
        active_tools = [];
      }))
]

-- One round of `PromoteTools`.
unfoldable pub promote_tool : Bytes → Context → Context
unfolding take_out
promote_tool n c = elim (take_out n c.deferred_tools) [
  | none ↦ c
  | some (t, ts) ↦ record c { deferred_tools = ts; active_tools = c.active_tools ++ (t ∷ []) }
]

-- `PromoteTools`
unfoldable pub promote_tools : List Bytes → Context → Context
unfolding promote_tool
promote_tools [] c = c
promote_tools (n ∷ ns) c = promote_tools ns (promote_tool n c)

-- ===== src/Kiroproto/ToolUse.antt =====
-- internal/kiroproto/tooluse.go: the fragments of tool calls, put together.
pub mod Calls
use kiroxy.Prelude.{
  Bool, true, false, not, ◌&&◌, ◌||◌, if◌then◌else◌, List, [], ◌∷◌, ◌++◌, Option, none, some,
}
use kiroxy.Prelude.Bytes.{Bytes, beq, is_empty}

-- The value of `input`: a string that was decoded, a string that cannot be, or another JSON value.
pub data Input : Type 0 where
  text : Bytes → Input
  undecodable : Input
  value : Bytes → Input

-- One payload: an id that is absent or cannot be decoded is empty; a name that is present but cannot be
-- decoded leaves the name as it was, `some none`; `stop` is a stop that is true.
pub record Fragment : Type 0 where
  pub id : Bytes
  pub name : Option (Option Bytes)
  pub input : Option Input
  pub stop : Bool

-- `toolUseAccumulator`
pub record ToolState : Type 0 where
  pub tool_name : Bytes
  pub tool_use_id : Bytes
  pub tool_input : Bytes

-- The completed event.
pub record Completed : Type 0 where
  pub name : Bytes
  pub use_id : Bytes
  pub input : Bytes

abbrev pub idle : ToolState
idle = record { tool_name = []; tool_use_id = []; tool_input = [] }

-- `buildAndReset`; the state after it is `idle`.
unfoldable pub build : ToolState → Completed
build a = record { name = a.tool_name; use_id = a.tool_use_id; input = a.tool_input }

-- The id under which a fragment starts a new tool call, if it does. `fresh` is a new UUID.
unfoldable pub new_call : Bytes → Fragment → ToolState → Option Bytes
new_call fresh f a =
    if not (is_empty f.id) && not (beq f.id a.tool_use_id)
    then some f.id
    else if is_empty f.id && is_empty a.tool_use_id
    then elim f.name [ none ↦ none | some n ↦ some fresh ]
    else none

-- A call without a stop frame is completed by the one that follows.
unfoldable pub begin_call : Option Bytes → ToolState → ToolState × List Completed
unfolding build
begin_call none a = (a, [])
begin_call (some i) a = (
  record { tool_name = []; tool_use_id = i; tool_input = [] },
  if is_empty a.tool_use_id then [] else build a ∷ [],
)

unfoldable pub take_name : Option (Option Bytes) → ToolState → ToolState
take_name (some (some n)) a = record a { tool_name = n }
take_name _ a = a

unfoldable pub take_input : Option Input → ToolState → ToolState
take_input none a = a
take_input (some undecodable) a = a
take_input (some (text s)) a = record a { tool_input = a.tool_input ++ s }
take_input (some (value v)) a = record a { tool_input = v }

unfoldable pub end_call : Bool → ToolState × List Completed → ToolState × List Completed
unfolding build
end_call true (a, es) = (idle, es ++ (build a ∷ []))
end_call false (a, es) = (a, es)

-- `update`
unfoldable pub update : Bytes → Fragment → ToolState → ToolState × List Completed
unfolding new_call begin_call take_name take_input end_call
update fresh f a =
    let (b, es) = begin_call (new_call fresh f a) a in
    end_call f.stop (take_input f.input (take_name f.name b), es)

-- `flush`
unfoldable pub flush : ToolState → ToolState × Option Completed
unfolding build
flush a = if is_empty a.tool_use_id then (a, none) else (idle, some (build a))

-- The fragments of a stream, with the call that is flushed at its end.
unfoldable pub complete_all : List (Bytes × Fragment) → ToolState → List Completed
unfolding update flush
complete_all [] a = elim (flush a).1 [ none ↦ [] | some e ↦ e ∷ [] ]
complete_all ((fresh, f) ∷ fs) a = let (b, es) = update fresh f a in es ++ complete_all fs b

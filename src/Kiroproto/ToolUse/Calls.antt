-- ===== src/Kiroproto/ToolUse/Calls.antt =====
-- internal/kiroproto/tooluse.go: a call that is sent in pieces comes out whole.
use kiroxy.Prelude.{
  ◌≡◌, ◌≢◌, refl, Bool, Option, if◌then◌else◌, false, List, [], ◌∷◌, none, some, arith,
}
use kiroxy.Prelude.Bytes.{Bytes, beq, beq_iff, is_empty, is_empty-cases}
use kiroxy.Kiroproto.ToolUse.{
  Input, Fragment, ToolState, build, update, complete_all, new_call, begin_call, take_name,
  take_input, end_call,
}

-- What a frame of a call has besides its end: its id, its name, and a piece of its input.
pub record Part : Type 0 where
  pub identified : Bool
  pub named : Bool
  pub input : Option Bytes

abbrev text_input : Option Bytes → Option Input
text_input none = none
text_input (some s) = some (Input.text s)

abbrev piece_of : Option Bytes → Bytes
piece_of none = []
piece_of (some s) = s

-- A frame of the call `i` named `n`.
abbrev pub frame : Bytes → Bytes → Bool → Part → Bytes × Fragment
frame i n stop p = (
  [],
  record {
    id = if p.identified then i else [];
    name = if p.named then some (some n) else none;
    input = text_input p.input;
    stop = stop;
  },
)

abbrev pub input_of : Part → Bytes
input_of p = piece_of p.input

abbrev pub first : Bytes → Bytes → Bytes × Fragment
first i n = ([], record { id = i; name = some (some n); input = none; stop = false })

is_empty_not : (i : Bytes) → i ≢ [] → is_empty i ≡ false
is_empty_not i h = ground (arith, h, is_empty-cases i)

beq_not : (i j : Bytes) → i ≢ j → beq i j ≡ false
beq_not i j h = ground (arith, h, beq_iff i j)

-- The state of a call that goes on.
abbrev going : Bytes → Bytes → Bytes → ToolState
going i n acc = record { tool_name = n; tool_use_id = i; tool_input = acc }

-- A tool call that never gets its last frame is completed when a call with another id begins;
-- neither id is empty.
pub severed-complete_all :
    (i j n m acc : Bytes) (fs : List (Bytes × Fragment))
    → i ≢ []
    → j ≢ []
    → j ≢ i
    → complete_all (first j m ∷ fs) (record { tool_name = n; tool_use_id = i; tool_input = acc })
      ≡ record { name = n; use_id = i; input = acc }
        ∷ complete_all fs (record { tool_name = m; tool_use_id = j; tool_input = [] })
unfolding complete_all update new_call begin_call take_name take_input end_call build
severed-complete_all i j n m acc fs hi hj h =
    rw (is_empty_not j hj, beq_not j i h, begin_call, is_empty_not i hi) refl

-- ===== src/Kiroproto/Headers.antt =====
-- internal/kiroproto/frame.go: the headers of a frame.
pub mod RoundTrip
use kiroxy.Prelude.{
  ℕ, zero, suc, ◌+◌, ◌*◌, Bool, true, false, not, ◌&&◌, ◌||◌, ltb, ◌==◌, if◌then◌else◌, [], ◌∷◌,
  Option, none, some, length, take, drop,
}
use kiroxy.Prelude.Bytes.{Bytes, codes, beq}

-- `headerValueSizes`: the size of the values of a type, `some none` where it varies.
unfoldable pub header_value_size : ℕ → Option (Option ℕ)
header_value_size t =
    if t == 0 || t == 1
    then some (some 0)
    else if t == 2
    then some (some 1)
    else if t == 3
    then some (some 2)
    else if t == 4
    then some (some 4)
    else if t == 5 || t == 8
    then some (some 8)
    else if t == 6 || t == 7
    then some none
    else if t == 9
    then some (some 16)
    else none

-- The length of a value, and the bytes from the value on.
unfoldable pub value_length : Option (Option ℕ) → Bytes → Option (ℕ × Bytes)
value_length none s = none
value_length (some (some n)) s = some (n, s)
value_length (some none) (a ∷ b ∷ s) = some (a * 256 + b, s)
value_length (some none) _ = none

pub record Header : Type 0 where
  pub name : Bytes
  pub value_type : ℕ
  pub value : Bytes

-- The value of a header, and what follows it.
unfoldable pub read_value : Bytes → Bytes → Option (Header × Bytes)
unfolding header_value_size value_length
read_value name [] = none
read_value name (t ∷ s) = elim (value_length (header_value_size t) s) [
  | none ↦ none
  | some (n, u) ↦
      if ltb (length u) n
      then none
      else some (record { name = name; value_type = t; value = take n u }, drop n u)
]

-- One header; none at the end, or where the bytes do not hold a whole one.
unfoldable pub read_header : Bytes → Option (Header × Bytes)
unfolding read_value
read_header [] = none
read_header (n ∷ s) = if ltb (length s) n then none else read_value (take n s) (drop n s)

-- The message type and the event type so far, after another header.
unfoldable pub note_header : Header → Bytes × Bytes → Bytes × Bytes
note_header h (msg, event) =
    if not (h.value_type == 7)
    then (msg, event)
    else if beq h.name (codes ":message-type")
    then (h.value, event)
    else if beq h.name (codes ":event-type") || beq h.name (codes ":exception-type")
    then (msg, h.value)
    else (msg, event)

unfoldable pub walk_headers : ℕ → Bytes → Bytes × Bytes → Bytes × Bytes
unfolding read_header note_header
walk_headers zero s types = types
walk_headers (suc fuel) s types = elim (read_header s) [
  | none ↦ types
  | some (h, rest) ↦ walk_headers fuel rest (note_header h types)
]

-- `extractFrameHeaders`. A header takes a byte at least, so that there are no more headers than bytes.
unfoldable pub extract_frame_headers : Bytes → Bytes × Bytes
unfolding walk_headers
extract_frame_headers s = walk_headers (length s) s ([], [])

-- ===== src/Openai/Frames.antt =====
-- internal/openai/translate_stream.go: server-sent events, cut from the stream and read.
pub mod Arrival
pub mod RoundTrip
use kiroxy.Prelude.{
  ℕ, suc, ◌+◌, Bool, true, false, not, ◌&&◌, ◌||◌, ◌==◌, if◌then◌else◌, List, [], ◌∷◌, ◌++◌, Option,
  none, some, length, drop,
}
use kiroxy.Prelude.Bytes.{Bytes, codes, is_empty}
use kiroxy.Strings.Prefix.{has_prefix}

abbrev pub blank_line : Bytes
blank_line = 10 ∷ 10 ∷ []

abbrev pub blank_line_crlf : Bytes
blank_line_crlf = 13 ∷ 10 ∷ 13 ∷ 10 ∷ []

-- How far to advance, and the frame.
abbrev pub Cut : Type 0
Cut = ℕ × Bytes

abbrev pub behind : ℕ → Cut → Cut
behind c (n, frame) = (suc n, c ∷ frame)

-- The loop: the first blank line, of either kind.
unfoldable pub find_frame : Bytes → Option Cut
unfolding has_prefix
find_frame [] = none
find_frame (c ∷ s) =
    let rest = find_frame s in
    if has_prefix blank_line (c ∷ s)
    then some (2, [])
    else if has_prefix blank_line_crlf (c ∷ s)
    then some (4, [])
    else elim rest [ none ↦ none | some cut ↦ some (behind c cut) ]

-- `splitSSEFrames`; none asks for more bytes, or says at the end that there are no more.
unfoldable pub split_sse_frames : Bytes → Bool → Option Cut
unfolding find_frame
split_sse_frames s at_eof = elim (find_frame s) [
  | some cut ↦ some cut
  | none ↦ if at_eof && not (is_empty s) then some (length s, s) else none
]

-- `bytes.Split` at a newline.
unfoldable pub split_lines : Bytes → List Bytes
split_lines [] = [] ∷ []
split_lines (c ∷ s) = elim (c == 10) [
  | true ↦ [] ∷ split_lines s
  | false ↦ elim (split_lines s) [ [] ↦ (c ∷ []) ∷ [] | l ∷ ls ↦ (c ∷ l) ∷ ls ]
]

-- `bytes.TrimRight(line, "\r")`
unfoldable pub trim_cr : Bytes → Bytes
trim_cr [] = []
trim_cr (c ∷ s) = let rest = trim_cr s in if is_empty rest && c == 13 then [] else c ∷ rest

-- `strings.TrimSpace` is the library's.
module _ (trim_space : Bytes → Bytes) where
  -- One line, of which the event and the data so far are those given.
  unfoldable pub read_line : Bytes → Bytes × Bytes → Bytes × Bytes
  unfolding has_prefix
  read_line line (event, payload) =
      let value = trim_space (drop 5 line) in
      if is_empty line || has_prefix (codes ":") line
      then (event, payload)
      else if has_prefix (codes "event:") line
      then (trim_space (drop 6 line), payload)
      else if has_prefix (codes "data:") line
      then (event, if is_empty payload then value else payload ++ (10 ∷ value))
      else (event, payload)

  unfoldable pub read_lines : List Bytes → Bytes × Bytes → Bytes × Bytes
  unfolding read_line trim_cr
  read_lines [] r = r
  read_lines (l ∷ ls) r = read_lines ls (read_line (trim_cr l) r)

  -- `parseSSEFrame`
  unfoldable pub parse_sse_frame : Bytes → Bytes × Bytes
  unfolding read_lines split_lines
  parse_sse_frame frame = read_lines (split_lines frame) ([], [])

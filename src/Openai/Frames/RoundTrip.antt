-- ===== src/Openai/Frames/RoundTrip.antt =====
-- The events that `writeSSE` writes (internal/respconv/streaming.go) are read again by
-- internal/openai/translate_stream.go.
use kiroxy.Prelude.{
  ℕ, suc, ◌+◌, ◌≡◌, refl, ap, ◌∙◌, Bool, true, not, ◌&&◌, ◌==◌, if◌then◌else◌, [], ◌∷◌, ◌++◌, none,
  some, arith, length, append-nil, append_assoc, length-append,
}
use kiroxy.Prelude.Bytes.{Bytes, codes, is_empty}
use kiroxy.Strings.Prefix.{has_prefix}
use kiroxy.Openai.Frames.{
  Cut, blank_line, blank_line_crlf, behind, find_frame, split_sse_frames, split_lines, trim_cr,
  read_line, read_lines, parse_sse_frame,
}

-- The bytes of `fmt.Fprintf(s.w, "event: %s\ndata: %s\n\n", …)`, without the blank line.
unfoldable pub event_lines : Bytes → Bytes → Bytes
event_lines event payload = codes "event: " ++ (event ++ (10 ∷ (codes "data: " ++ payload)))

-- No end of a line.
unfoldable pub is_plain : Bytes → Bool
is_plain [] = true
is_plain (c ∷ s) = not (c == 10) && not (c == 13) && is_plain s

find_frame-byte :
    (c : ℕ) (s : Bytes)
    → not (c == 10) && not (c == 13) ≡ true
    → find_frame (c ∷ s) ≡ elim (find_frame s) [ none ↦ none | some cut ↦ some (behind c cut) ]
unfolding find_frame has_prefix
find_frame-byte c s h = ground arith

abbrev behind_all : Bytes → Cut → Cut
behind_all u (n, f) = (length u + n, u ++ f)

find_frame-plain :
    (u s : Bytes) (cut : Cut)
    → is_plain u ≡ true
    → find_frame s ≡ some cut
    → find_frame (u ++ s) ≡ some (behind_all u cut)
unfolding is_plain
find_frame-plain [] s cut h e = ground (arith, e)
find_frame-plain (c ∷ u) s cut h e =
    let ih = find_frame-plain u s cut (ground arith) e in
    ground (arith, find_frame-byte c (u ++ s), ih)

split_lines-plain : (u : Bytes) → is_plain u ≡ true → split_lines u ≡ u ∷ []
unfolding split_lines is_plain
split_lines-plain [] h = refl
split_lines-plain (c ∷ u) h = ground (arith, split_lines-plain u)

split_lines-line :
    (u s : Bytes) → is_plain u ≡ true → split_lines (u ++ (10 ∷ s)) ≡ u ∷ split_lines s
unfolding split_lines is_plain
split_lines-line [] s h = refl
split_lines-line (c ∷ u) s h = ground (arith, split_lines-line u s)

trim_cr-plain : (u : Bytes) → is_plain u ≡ true → trim_cr u ≡ u
unfolding trim_cr is_plain
trim_cr-plain [] h = refl
trim_cr-plain (c ∷ u) h = ground (arith, trim_cr-plain u)

find_frame_step :
    (c : ℕ) (s : Bytes)
    → find_frame (c ∷ s) ≡ (
        if has_prefix blank_line (c ∷ s)
        then some (2, [])
        else if has_prefix blank_line_crlf (c ∷ s)
        then some (4, [])
        else elim (find_frame s) [ none ↦ none | some cut ↦ some (behind c cut) ])
unfolding find_frame
find_frame_step c s = refl

next_byte :
    (s : Bytes) (cut : Cut)
    → find_frame (100 ∷ s) ≡ some cut
    → find_frame (10 ∷ 100 ∷ s) ≡ some (behind 10 cut)
unfolding has_prefix
next_byte s cut e = rw (find_frame_step 10 (100 ∷ s), e) refl

end_of_frame : (rest : Bytes) → find_frame (10 ∷ 10 ∷ rest) ≡ some (2, [])
unfolding find_frame has_prefix
end_of_frame rest = refl

-- The second line does not begin with a newline.
find_frame-newline :
    (s : Bytes) (cut : Cut)
    → find_frame (codes "data: " ++ s) ≡ some cut
    → find_frame (10 ∷ (codes "data: " ++ s)) ≡ some (behind 10 cut)
find_frame-newline s cut e = next_byte (codes "ata: " ++ s) cut e

-- The two lines of an event.
abbrev event_line : Bytes → Bytes
event_line event = codes "event: " ++ event

abbrev data_line : Bytes → Bytes
data_line payload = codes "data: " ++ payload

module _ (event payload : Bytes) (pe : is_plain event ≡ true) (pp : is_plain payload ≡ true) where
  event_line-is_plain : is_plain (event_line event) ≡ true
  unfolding is_plain
  event_line-is_plain = pe

  data_line-is_plain : is_plain (data_line payload) ≡ true
  unfolding is_plain
  data_line-is_plain = pp

  find_frame-event :
      (rest : Bytes)
      → find_frame (event_lines event payload ++ (10 ∷ 10 ∷ rest))
        ≡ some (length (event_lines event payload) + 2, event_lines event payload)
  unfolding event_lines
  find_frame-event rest =
      let tail : Bytes = 10 ∷ 10 ∷ rest in
      let d =
        find_frame-plain (data_line payload) tail (2, []) data_line-is_plain (end_of_frame rest) in
      let n = find_frame-newline (payload ++ tail) _ d in
      let e = find_frame-plain (event_line event) _ _ event_line-is_plain n in
      let same : event_lines event payload ++ tail
          ≡ event_line event ++ (10 ∷ (data_line payload ++ tail)) =
        ap (λ y. codes "event: " ++ y) (append_assoc event (10 ∷ data_line payload) tail) in
      let size : length (event ++ (10 ∷ data_line payload))
          ≡ length event + suc (length (data_line payload)) =
        length-append event (10 ∷ data_line payload) in
      ap find_frame same ∙ (e ∙ ap some (ground (arith, size, append-nil payload)))

module _ (trim_space : Bytes → Bytes) where
  read_two :
      (l m : Bytes) (r : Bytes × Bytes)
      → trim_cr l ≡ l
      → trim_cr m ≡ m
      → read_lines trim_space (l ∷ m ∷ []) r ≡ read_line trim_space m (read_line trim_space l r)
  unfolding read_lines
  read_two l m r hl hm = rw (hl, hm) refl

  read_event :
      (event : Bytes)
      → trim_space (32 ∷ event) ≡ event
      → read_line trim_space (event_line event) ([], []) ≡ (event, [])
  unfolding read_line has_prefix is_empty
  read_event event te = rw te refl

  read_data :
      (event payload : Bytes)
      → trim_space (32 ∷ payload) ≡ payload
      → read_line trim_space (data_line payload) (event, []) ≡ (event, payload)
  unfolding read_line has_prefix is_empty
  read_data event payload tp = rw tp refl

  parse_sse_frame-event :
      (event payload : Bytes)
      → is_plain event ≡ true
      → is_plain payload ≡ true
      → trim_space (32 ∷ event) ≡ event
      → trim_space (32 ∷ payload) ≡ payload
      → parse_sse_frame trim_space (event_lines event payload) ≡ (event, payload)
  unfolding parse_sse_frame event_lines
  parse_sse_frame-event event payload pe pp te tp =
      let e = event_line-is_plain event payload pe pp in
      let d = data_line-is_plain event payload pe pp in
      let l =
        split_lines-line (event_line event) (data_line payload) e
        ∙ ap (◌∷◌ (event_line event)) (split_lines-plain (data_line payload) d) in
      ap (λ ls. read_lines trim_space ls ([], [])) l
      ∙ (read_two _ _ ([], []) (trim_cr-plain (event_line event) e)
            (trim_cr-plain (data_line payload) d)
          ∙ (ap (read_line trim_space (data_line payload)) (read_event event te)
              ∙ read_data event payload tp))

  -- An event that is written, whose name and data hold no end of a line and no space round them, is cut
  -- from the stream whatever follows it, and read.
  pub written_event-read :
      (event payload rest : Bytes) (at_eof : Bool)
      → is_plain event ≡ true
      → is_plain payload ≡ true
      → trim_space (32 ∷ event) ≡ event
      → trim_space (32 ∷ payload) ≡ payload
      → (split_sse_frames (event_lines event payload ++ (10 ∷ 10 ∷ rest)) at_eof
          ≡ some (length (event_lines event payload) + 2, event_lines event payload))
        × (parse_sse_frame trim_space (event_lines event payload) ≡ (event, payload))
  unfolding split_sse_frames
  written_event-read event payload rest at_eof pe pp te tp = (
    rw (split_sse_frames, find_frame-event event payload pe pp rest) refl,
    parse_sse_frame-event event payload pe pp te tp,
  )

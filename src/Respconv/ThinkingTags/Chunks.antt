-- ===== src/Respconv/ThinkingTags/Chunks.antt =====
-- The tag parser of internal/respconv/thinking_tags.go does not see chunk boundaries.
use kiroxy.Prelude.{
  ℕ, zero, suc, ◌≡◌, refl, sym, ap, ◌∙◌, Bool, true, false, not, ◌&&◌, List, [], ◌∷◌, ◌++◌, arith,
  length, inl, inr, Bool-cases, append_assoc, append-nil, or-false, concat, ◌-◌,
}
use kiroxy.Prelude.Bytes.{Bytes, is_empty, is_empty-cases}
use kiroxy.Strings.Prefix.{has_prefix}
use kiroxy.Strings.Index.{contains_byte}
use kiroxy.Respconv.ThinkingTags.Scan.{Scanned, stop, scan, join, scan-append, scan_partial}
use kiroxy.Respconv.ThinkingTags.Loop.{after_scan, parse_loop-scan}
use kiroxy.Respconv.Accumulator.{Accumulator}
use kiroxy.Respconv.ThinkingTags.{TagState, Parsed, tag_of, parse_thinking_tags}

abbrev pub start : TagState
start = record { inside = false; buf = []; suppress = false }

abbrev no_output : TagState → Parsed
no_output t = record { tags = t; text = []; thinking = [] }

-- Without `<` there is no tag to find.
scan_plain :
    (d : Bytes)
    → contains_byte b'<' d ≡ false
    → scan false 0 d ≡ record { text = d; thinking = []; inside = false; rest = []; opened = false }
unfolding scan contains_byte has_prefix
scan_plain [] h = refl
scan_plain (c ∷ d) h = ground (arith, scan_plain d)

plain_chunk :
    (t : TagState) (d : Bytes)
    → (is_empty t.buf && not t.inside && not (contains_byte b'<' d)) ≡ true
    → parse_thinking_tags t d ≡ after_scan (no_output t) (scan t.inside 0 (t.buf ++ d))
unfolding parse_thinking_tags
plain_chunk t d plain = elim (is_empty-cases t.buf) [
  | inl (e, empty) ↦
      let outside : t.inside ≡ false = ground arith in
      let no_tag : contains_byte b'<' d ≡ false = ground arith in
      let whole : scan t.inside 0 (t.buf ++ d)
          ≡ record { text = d; thinking = []; inside = false; rest = []; opened = false } =
        rw (e, outside) (scan_plain d no_tag) in
      rw (plain, whole) (ground (arith, or-false t.suppress))
  | inr (more, _) ↦ cc
]

-- One chunk: the parser adds to its state the scan of the kept tail and the chunk.
pub parse_thinking_tags-scan :
    (t : TagState) (d : Bytes)
    → parse_thinking_tags t d ≡ after_scan (no_output t) (scan t.inside 0 (t.buf ++ d))
unfolding parse_thinking_tags
parse_thinking_tags-scan t d =
    elim (Bool-cases (is_empty t.buf && not t.inside && not (contains_byte b'<' d))) [
      | inl plain ↦ plain_chunk t d plain
      | inr other ↦ rw other (parse_loop-scan _ _ (omega arith))
    ]

-- The parser on the chunks of a stream, with all outputs put together.
unfoldable pub parse_chunks : TagState → List Bytes → Parsed
parse_chunks t [] = no_output t
parse_chunks t (d ∷ ds) =
    let p = parse_thinking_tags t d in
    let rest = parse_chunks p.tags ds in
    record rest { text = p.text ++ rest.text; thinking = p.thinking ++ rest.thinking }

-- The parser waits on `buf` only where a tag may go on.
abbrev pub IsPending : TagState → Type 0
IsPending t = scan t.inside 0 t.buf ≡ stop t.inside t.buf

scan-rest :
    (i : Bool) (k : ℕ) (s : Bytes)
    → let r = scan i k s in scan r.inside 0 r.rest ≡ stop r.inside r.rest
unfolding scan
scan-rest i k [] = refl
scan-rest i (suc k) (c ∷ s) = scan-rest i k s
scan-rest i zero (c ∷ s) = elim (Bool-cases (has_prefix (tag_of i) (c ∷ s))) [
  | inl tag ↦ rw tag (scan-rest (not i) (length (tag_of i) - 1) s)
  | inr no_tag ↦ elim (Bool-cases (has_prefix (c ∷ s) (tag_of i))) [
    | inl partial ↦ rw (no_tag, partial) (scan_partial i c s no_tag partial)
    | inr byte ↦ rw (no_tag, byte) (scan-rest i zero s)
  ]
]

parse_thinking_tags-IsPending :
    (t : TagState) (d : Bytes) → IsPending (parse_thinking_tags t d).tags
parse_thinking_tags-IsPending t d =
    rw (parse_thinking_tags-scan t d) (scan-rest t.inside 0 (t.buf ++ d))

combine :
    (t : TagState) (a b : Scanned)
    → let p = after_scan (no_output t) a in
      let q = after_scan (no_output p.tags) b in
      record q { text = p.text ++ q.text; thinking = p.thinking ++ q.thinking }
      ≡ after_scan (no_output t) (join a b)
combine t a b = ground arith

-- Two chunks in turn give what their concatenation gives at once.
parse_thinking_tags-append :
    (t : TagState) (d e : Bytes)
    → let p = parse_thinking_tags t d in
      let q = parse_thinking_tags p.tags e in
      record q { text = p.text ++ q.text; thinking = p.thinking ++ q.thinking }
      ≡ parse_thinking_tags t (d ++ e)
parse_thinking_tags-append t d e =
    let a = scan t.inside 0 (t.buf ++ d) in
    let b = scan a.inside 0 (a.rest ++ e) in
    let after = after_scan (no_output t) a in
    rw (parse_thinking_tags-scan t d) (
      rw (parse_thinking_tags-scan after.tags e) (
        combine t a b
        ∙ ap (after_scan (no_output t)) (
            sym (scan-append t.inside 0 (t.buf ++ d) e (omega arith))
            ∙ ap (scan t.inside 0) (append_assoc t.buf d e))
        ∙ sym (parse_thinking_tags-scan t (d ++ e))))

-- From a state in which the parser holds back only what may go on as a tag, however a stream is
-- cut into chunks, it puts out the same text and thinking and ends in the same state as on the
-- whole stream in one chunk.
pub parse_chunks-concat :
    (t : TagState) (ds : List Bytes)
    → IsPending t
    → parse_chunks t ds ≡ parse_thinking_tags t (concat ds)
unfolding parse_chunks
parse_chunks-concat t [] pending = rw (parse_thinking_tags-scan t [], append-nil, pending, or-false)
parse_chunks-concat t (d ∷ ds) pending =
    rw (parse_chunks-concat (parse_thinking_tags t d).tags ds (parse_thinking_tags-IsPending t d))
      (parse_thinking_tags-append t d (concat ds))

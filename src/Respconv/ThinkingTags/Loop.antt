-- ===== src/Respconv/ThinkingTags/Loop.antt =====
-- The search loop of `parseThinkingTags` (internal/respconv/thinking_tags.go) computes the scan.
use kiroxy.Prelude.{
  ℕ, zero, suc, ◌+◌, ◌-◌, ◌<◌, ◌≡◌, sym, ap, ◌∙◌, Bool, true, false, ◌||◌, ltb, [], ◌++◌, none,
  some, arith, length, take, drop, inl, inr, Bool-cases, Option-cases, append_assoc, append-nil,
  length-drop, take-length, drop-length, or-false, or-true,
}
use kiroxy.Prelude.Bytes.{Bytes, is_empty-cases}
use kiroxy.Strings.Index.{index}
use kiroxy.Respconv.ThinkingTags.Scan.{Scanned, tag_of-length, stop, prepend, opening, scan}
use kiroxy.Respconv.ThinkingTags.{
  Parsed, tag_of, emit, partial_tag_suffix, tag_found, tag_missing, parse_loop,
}
use kiroxy.Respconv.ThinkingTags.Search.{index-length, scan_found, scan_missing}

-- What a run of the loop adds to a parse, given the scan of its buffer.
abbrev pub after_scan : Parsed → Scanned → Parsed
after_scan p r = record {
  tags = record { inside = r.inside; buf = r.rest; suppress = p.tags.suppress || r.opened };
  text = p.text ++ r.text;
  thinking = p.thinking ++ r.thinking;
}

abbrev parsed : Bool → Bytes → Bool → Bytes → Bytes → Parsed
parsed i s u x y = record {
  tags = record { inside = i; buf = s; suppress = u };
  text = x;
  thinking = y;
}

tag_missing-stop :
    (i : Bool) (s : Bytes) (u : Bool) (x y : Bytes)
    → let n = length s - partial_tag_suffix s (tag_of i) in
      tag_missing (parsed i s u x y)
      ≡ after_scan (parsed i s u x y) (prepend i (take n s) (stop i (drop n s)))
unfolding tag_missing
tag_missing-stop i s u x y = elim (Bool-cases (ltb 0 (partial_tag_suffix s (tag_of i)))) [
  | inl some_kept ↦ rw some_kept (kept i _ _)
  | inr none_kept ↦
      let z : partial_tag_suffix s (tag_of i) ≡ 0 = ground arith in
      let e : length s - 0 ≡ length s = omega arith in
      rw (none_kept, z, e, take-length s, drop-length s) (all i)
]
  where
    kept :
        (i : Bool) (t d : Bytes)
        → record (emit i t (parsed i s u x y)) {
          tags = record { inside = i; buf = d; suppress = u };
        }
          ≡ after_scan (parsed i s u x y) (prepend i t (stop i d))
    kept true t d = simp (append-nil, or-false)
    kept false t d = simp (append-nil, or-false)

    all :
        (i : Bool)
        → record (emit i s (parsed i s u x y)) {
          tags = record { inside = i; buf = []; suppress = u };
        }
          ≡ after_scan (parsed i s u x y) (prepend i s (stop i []))
    all true = simp (append-nil, or-false)
    all false = simp (append-nil, or-false)

tag_missing-scan :
    (p : Parsed)
    → index (tag_of p.tags.inside) p.tags.buf ≡ none
    → tag_missing p ≡ after_scan p (scan p.tags.inside 0 p.tags.buf)
tag_missing-scan p h =
    tag_missing-stop p.tags.inside p.tags.buf p.tags.suppress p.text p.thinking
    ∙ ap (after_scan p) (sym (scan_missing p.tags.inside p.tags.buf h))

after_scan-tag_found :
    (i : Bool) (s : Bytes) (u : Bool) (x y : Bytes) (k : ℕ) (r : Scanned)
    → after_scan (tag_found k (parsed i s u x y)) r
      ≡ after_scan (parsed i s u x y) (prepend i (take k s) (opening i r))
unfolding tag_found
after_scan-tag_found true s u x y k r = simp append_assoc
after_scan-tag_found false s u x y k r = simp (append_assoc, or-true)

tag_found-scan :
    (p : Parsed) (k : ℕ)
    → index (tag_of p.tags.inside) p.tags.buf ≡ some k
    → after_scan (tag_found k p) (scan (tag_found k p).tags.inside 0 (tag_found k p).tags.buf)
      ≡ after_scan p (scan p.tags.inside 0 p.tags.buf)
unfolding tag_found
tag_found-scan p k h =
    after_scan-tag_found p.tags.inside p.tags.buf p.tags.suppress p.text p.thinking k _
    ∙ ap (after_scan p) (sym (scan_found p.tags.inside p.tags.buf k h))

tag_found-shrinks :
    (p : Parsed) (k fuel : ℕ)
    → index (tag_of p.tags.inside) p.tags.buf ≡ some k
    → length p.tags.buf < suc fuel
    → length (tag_found k p).tags.buf < fuel
unfolding tag_found
tag_found-shrinks p k fuel e h = omega (
  arith,
  length-drop (k + length (tag_of p.tags.inside)) p.tags.buf,
  index-length (tag_of p.tags.inside) p.tags.buf k e,
  tag_of-length p.tags.inside,
)

after_scan-nil : (p : Parsed) → p.tags.buf ≡ [] → p ≡ after_scan p (scan p.tags.inside 0 p.tags.buf)
unfolding scan
after_scan-nil p e =
    ground (arith, append-nil p.text, append-nil p.thinking, or-false p.tags.suppress)

-- With fuel above the length of the buffer the loop ends, and adds the scan of the buffer.
pub parse_loop-scan :
    (fuel : ℕ) (p : Parsed)
    → length p.tags.buf < fuel
    → parse_loop fuel p ≡ after_scan p (scan p.tags.inside 0 p.tags.buf)
unfolding parse_loop
parse_loop-scan zero p h = absurd (omega arith)
parse_loop-scan (suc fuel) p h = elim (is_empty-cases p.tags.buf) [
  | inl (e, empty) ↦ rw (empty, parse_loop) (after_scan-nil p e)
  | inr (more, _) ↦ elim (Option-cases (index (tag_of p.tags.inside) p.tags.buf)) [
    | inl n ↦ rw (more, parse_loop, n) (tag_missing-scan p n)
    | inr (k, e) ↦
        rw (more, parse_loop, e)
          (parse_loop-scan fuel (tag_found k p) (tag_found-shrinks p k fuel e h)
            ∙ tag_found-scan p k e)
  ]
]

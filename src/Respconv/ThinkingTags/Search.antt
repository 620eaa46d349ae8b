-- ===== src/Respconv/ThinkingTags/Search.antt =====
-- The search for a tag in `parseThinkingTags` (internal/respconv/thinking_tags.go): a found tag and a
-- missing one, in terms of the scan.
use kiroxy.Prelude.{
  ℕ, zero, suc, ◌+◌, ◌-◌, ◌≤◌, ◌<◌, ◌≡◌, refl, sym, ap, ◌∙◌, Bool, true, false, not, ◌&&◌, ◌==◌,
  ◌⊎◌, ltb, [], ◌∷◌, none, some, arith, length, take, drop, inl, inr, Bool-cases, min,
}
use kiroxy.Prelude.Bytes.{Bytes, beq}
use kiroxy.Strings.Prefix.{has_prefix, has_prefix-length}
use kiroxy.Strings.Index.{index}
use kiroxy.Respconv.ThinkingTags.Scan.{
  Scanned, stop, prepend, opening, scan, scan_tag, scan_partial, scan_byte,
}
use kiroxy.Respconv.ThinkingTags.{tag_of, partial_from, partial_tag_suffix}

pub index-length : (p s : Bytes) (i : ℕ) → index p s ≡ some i → i + length p ≤ length s
unfolding index
index-length p [] i h = ground (arith, has_prefix-length p [])
index-length p (c ∷ s) zero h = ground (arith, has_prefix-length p (c ∷ s))
index-length p (c ∷ s) (suc i) h = ground (arith, index-length p s i)

prepend_nil : (i : Bool) (r : Scanned) → prepend i [] r ≡ r
prepend_nil true r = refl
prepend_nil false r = refl

prepend_cons :
    (i : Bool) (c : ℕ) (s : Bytes) (r : Scanned)
    → prepend i (c ∷ []) (prepend i s r) ≡ prepend i (c ∷ s) r
prepend_cons true c s r = refl
prepend_cons false c s r = refl

has_prefix-take : (s tag : Bytes) → has_prefix s tag ≡ beq s (take (length s) tag)
unfolding has_prefix beq
has_prefix-take [] tag = refl
has_prefix-take (x ∷ s) [] = refl
has_prefix-take (x ∷ s) (y ∷ tag) = ap (◌&&◌ (x == y)) (has_prefix-take s tag)

has_prefix-eq_length :
    (s t : Bytes) → has_prefix s t ≡ true → length t ≤ length s → has_prefix t s ≡ true
unfolding has_prefix
has_prefix-eq_length [] [] h k = refl
has_prefix-eq_length [] (y ∷ t) h k = absurd (omega arith)
has_prefix-eq_length (x ∷ s) [] h k = cc
has_prefix-eq_length (x ∷ s) (y ∷ t) h k = ground (arith, has_prefix-eq_length s t)

-- What holds the whole pattern further on does not begin the pattern here.
not-has_prefix_of_index :
    (p : Bytes) (c : ℕ) (s : Bytes) (k : ℕ) → index p s ≡ some k → has_prefix (c ∷ s) p ≡ false
not-has_prefix_of_index p c s k h = elim (Bool-cases (has_prefix (c ∷ s) p)) [
  | inl begins ↦ absurd (omega (arith, index-length p s k h, has_prefix-length (c ∷ s) p begins))
  | inr other ↦ other
]

index_cases :
    (p : Bytes) (c : ℕ) (s : Bytes) (k : ℕ)
    → index p (c ∷ s) ≡ some k
    → ((has_prefix p (c ∷ s) ≡ true) × (k ≡ 0))
      ⊎ ((has_prefix p (c ∷ s) ≡ false) × ((j : ℕ) × (k ≡ suc j) × (index p s ≡ some j)))
unfolding index
index_cases p c s zero h = ground arith
index_cases p c s (suc k) h = ground arith

index_nil : (i : Bool) → index (tag_of i) [] ≡ none
unfolding index has_prefix
index_nil true = refl
index_nil false = refl

-- A found tag: the scan emits what stands before it and goes on behind it on the other side.
pub scan_found :
    (i : Bool) (s : Bytes) (k : ℕ)
    → index (tag_of i) s ≡ some k
    → scan i 0 s
      ≡ prepend i (take k s) (opening i (scan (not i) 0 (drop (k + length (tag_of i)) s)))
scan_found i [] k h = cc (index_nil i)
scan_found i (c ∷ s) k h = elim (index_cases (tag_of i) c s k h) [
  | inl (tag, here) ↦
      let n : 0 + length (tag_of i) ≡ length (tag_of i) = omega arith in
      rw (here, n) (scan_tag i c s tag ∙ sym (prepend_nil i _))
  | inr (no_tag, (j, later, found)) ↦
      let n : suc j + length (tag_of i) ≡ suc (j + length (tag_of i)) = omega arith in
      rw (later, n)
        (scan_byte i c s no_tag (not-has_prefix_of_index (tag_of i) c s j found)
          ∙ ap (prepend i (c ∷ [])) (scan_found i s j found)
          ∙ prepend_cons i c (take j s) _)
]

-- `partialTagSuffix` of a longer text, for suffixes that the shorter text has too.
drop-suc :
    (c : ℕ) (s : Bytes) (n : ℕ)
    → n < length s + 1
    → drop (suc (length s) - n) (c ∷ s) ≡ drop (length s - n) s
drop-suc c s n h = let e : suc (length s) - n ≡ suc (length s - n) = omega arith in rw e refl

partial_from-cons :
    (c : ℕ) (s tag : Bytes) (n : ℕ)
    → n ≤ length s
    → partial_from (c ∷ s) tag n ≡ partial_from s tag n
unfolding partial_from
partial_from-cons c s tag zero h = refl
partial_from-cons c s tag (suc n) h =
    rw (drop-suc c s (suc n) (omega arith), partial_from-cons c s tag n (omega arith))

partial_from-le : (s tag : Bytes) (n : ℕ) → partial_from s tag n ≤ n
unfolding partial_from
partial_from-le s tag zero = omega arith
partial_from-le s tag (suc n) = ground (arith, partial_from-le s tag n)

-- A text that begins the tag is kept whole.
partial_tag_suffix-whole :
    (c : ℕ) (s tag : Bytes)
    → has_prefix (c ∷ s) tag ≡ true
    → has_prefix tag (c ∷ s) ≡ false
    → partial_tag_suffix (c ∷ s) tag ≡ suc (length s)
unfolding partial_tag_suffix partial_from
partial_tag_suffix-whole c s tag begins no_tag =
    let fits : suc (length s) < length tag = ground (arith, has_prefix-eq_length (c ∷ s) tag) in
    let e : min (length tag - 1) (suc (length s)) ≡ suc (length s) = omega arith in
    let z : suc (length s) - suc (length s) ≡ 0 = omega arith in
    rw (e, partial_from, z, sym (has_prefix-take (c ∷ s) tag), begins) refl

partial_tag_suffix-cons :
    (c : ℕ) (s tag : Bytes)
    → has_prefix (c ∷ s) tag ≡ false
    → partial_tag_suffix (c ∷ s) tag ≡ partial_tag_suffix s tag
unfolding partial_tag_suffix partial_from
partial_tag_suffix-cons c s tag other = elim (Bool-cases (ltb (length s) (length tag - 1))) [
  | inl long ↦
      let e : min (length tag - 1) (suc (length s)) ≡ suc (length s) = ground arith in
      let e' : min (length tag - 1) (length s) ≡ length s = ground arith in
      let z : suc (length s) - suc (length s) ≡ 0 = omega arith in
      rw (e, e', partial_from, z, sym (has_prefix-take (c ∷ s) tag), other)
        (partial_from-cons c s tag (length s) (omega arith))
  | inr short ↦
      let e : min (length tag - 1) (suc (length s)) ≡ length tag - 1 = ground arith in
      let e' : min (length tag - 1) (length s) ≡ length tag - 1 = ground arith in
      rw (e, e') (partial_from-cons c s tag (length tag - 1) (ground arith))
]

index-cons_none :
    (p : Bytes) (c : ℕ) (s : Bytes)
    → index p (c ∷ s) ≡ none
    → (has_prefix p (c ∷ s) ≡ false) × (index p s ≡ none)
unfolding index
index-cons_none p c s h = ground arith

-- No tag: the scan keeps the tail that `partialTagSuffix` measures, and emits the rest.
pub scan_missing :
    (i : Bool) (s : Bytes)
    → index (tag_of i) s ≡ none
    → let n = length s - partial_tag_suffix s (tag_of i) in
      scan i 0 s ≡ prepend i (take n s) (stop i (drop n s))
scan_missing true [] h = unfold scan partial_tag_suffix partial_from in refl
scan_missing false [] h = unfold scan partial_tag_suffix partial_from in refl
scan_missing i (c ∷ s) h =
    let (no_tag, none_later) = index-cons_none (tag_of i) c s h in
    elim (Bool-cases (has_prefix (c ∷ s) (tag_of i))) [
      | inl begins ↦
          let z : suc (length s) - suc (length s) ≡ 0 = omega arith in
          rw (partial_tag_suffix-whole c s (tag_of i) begins no_tag, z)
            (scan_partial i c s no_tag begins ∙ sym (prepend_nil i (stop i (c ∷ s))))
      | inr byte ↦
          let keep = partial_tag_suffix s (tag_of i) in
          let le : keep ≤ length s =
            unfold partial_tag_suffix in
            omega (arith, partial_from-le s (tag_of i) (min (length (tag_of i) - 1) (length s))) in
          let n : suc (length s) - keep ≡ suc (length s - keep) = omega arith in
          rw (partial_tag_suffix-cons c s (tag_of i) byte, n)
            (scan_byte i c s no_tag byte
              ∙ ap (prepend i (c ∷ [])) (scan_missing i s none_later)
              ∙ prepend_cons i c (take (length s - keep) s) (stop i (drop (length s - keep) s)))
    ]

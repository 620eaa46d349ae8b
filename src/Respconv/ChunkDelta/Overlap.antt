-- ===== src/Respconv/ChunkDelta/Overlap.antt =====
-- How far the overlap search of internal/respconv/chunk_delta.go goes.
use kiroxy.Prelude.{
  ℕ, zero, suc, ◌+◌, ◌-◌, ◌≤◌, ◌<◌, ◌≡◌, ◌≢◌, refl, ap, false, List, [], ◌∷◌, ◌++◌, arith, length,
  inl, inr, ◌⊎◌, length-append, length-drop,
}
use kiroxy.Prelude.Bytes.{Bytes, beq_iff, is_empty}
use kiroxy.Strings.Prefix.{has_prefix}
use kiroxy.Respconv.ChunkDelta.{
  at, compute_delta, kmp_overlap, match_suffix, build_fail, kmp_step, fall_back,
}

-- An entry of the failure table is at most its index.
abbrev IsBounded : List ℕ → Type 0
IsBounded fail = (i : ℕ) → at fail i ≤ i

IsBounded-append :
    (fail : List ℕ) (k i : ℕ) → IsBounded fail → k ≤ length fail → at (fail ++ (k ∷ [])) i ≤ i
IsBounded-append fail k i bounded h = omega (arith, at-append fail k i, bounded i)
  where
    at-append :
        (f : List ℕ) (k i : ℕ)
        → (at (f ++ (k ∷ [])) i ≤ at f i) ⊎ ((at (f ++ (k ∷ [])) i ≡ k) × (i ≡ length f))
    at-append [] k zero = inr (refl, refl)
    at-append [] k (suc i) = inl (omega arith)
    at-append (x ∷ f) k zero = inl (omega arith)
    at-append (x ∷ f) k (suc i) = ground (arith, at-append f k i)

module _ (b : Bytes) (c : ℕ) where
  fall_back-le : (fail : List ℕ) (fuel k : ℕ) → IsBounded fail → fall_back fuel fail b c k ≤ k
  unfolding fall_back
  fall_back-le fail zero k bounded = omega arith
  fall_back-le fail (suc fuel) k bounded =
      ground (arith, fall_back-le fail fuel (at fail (k - 1)) bounded, bounded (k - 1))

  kmp_step-le : (fail : List ℕ) (k : ℕ) → IsBounded fail → kmp_step fail b c k ≤ k + 1
  unfolding kmp_step
  kmp_step-le fail k bounded = ground (arith, fall_back-le fail k k bounded)

build_fail-IsBounded :
    (b : Bytes) (rest : Bytes) (fail : List ℕ) (k : ℕ)
    → IsBounded fail
    → k < length fail
    → IsBounded (build_fail b fail k rest)
unfolding build_fail
build_fail-IsBounded b [] fail k bounded h = bounded
build_fail-IsBounded b (c ∷ rest) fail k bounded h =
    let k' = kmp_step fail b c k in
    let le : k' ≤ length fail = omega (arith, kmp_step-le b c fail k bounded) in
    build_fail-IsBounded b rest (fail ++ (k' ∷ [])) k' (λ i. IsBounded-append fail k' i bounded le)
      (omega (arith, length-append fail (k' ∷ [])))

match_suffix-lt :
    (a b : Bytes) (fail : List ℕ) (k : ℕ)
    → IsBounded fail
    → k < length b
    → match_suffix fail b k a < length b
unfolding match_suffix
match_suffix-lt [] b fail k bounded h = h
match_suffix-lt (c ∷ a) b fail k bounded h =
    match_suffix-lt a b fail _ bounded
      (ground (arith, kmp_step-le b c fail k bounded, bounded (kmp_step fail b c k - 1)))

first-IsBounded : IsBounded (0 ∷ [])
first-IsBounded zero = omega arith
first-IsBounded (suc i) = omega arith

-- The overlap found is always shorter than the chunk.
pub kmp_overlap-lt : (a b : Bytes) → b ≢ [] → kmp_overlap a b < length b
unfolding kmp_overlap is_empty
kmp_overlap-lt a [] h = absurd (h refl)
kmp_overlap-lt [] (c ∷ b) h = omega arith
kmp_overlap-lt (d ∷ a) (c ∷ b) h =
    match_suffix-lt (d ∷ a) (c ∷ b) _ 0
      (build_fail-IsBounded (c ∷ b) b (0 ∷ []) 0 first-IsBounded (omega arith)) (omega arith)

-- A chunk that is not empty and that the text before it ends with, but does not begin with and is
-- not, is emitted again in part or whole.
compute_delta_repeats :
    (x chunk : Bytes)
    → x ≢ []
    → chunk ≢ []
    → has_prefix chunk (x ++ chunk) ≡ false
    → compute_delta chunk (x ++ chunk) ≢ []
unfolding compute_delta is_empty
compute_delta_repeats [] chunk hx h other e = hx refl
compute_delta_repeats (c ∷ x) chunk hx h other e =
    let n = kmp_overlap ((c ∷ x) ++ chunk) chunk in
    ground (
      arith,
      beq_iff chunk ((c ∷ x) ++ chunk),
      ap (length {A = ℕ}) e,
      length-append (c ∷ x) chunk,
      kmp_overlap-lt ((c ∷ x) ++ chunk) chunk h,
      length-drop n chunk,
    )

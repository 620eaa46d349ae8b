-- ===== src/Respconv/ChunkDelta.antt =====
-- internal/respconv/chunk_delta.go: what a cumulative chunk adds to the text before it, with the
-- overlap search by the failure function of Knuth, Morris and Pratt.
pub mod Cumulative
pub mod Overlap
use kiroxy.Prelude.{
  ℕ, zero, suc, ◌+◌, ◌-◌, Bool, true, false, not, ◌&&◌, ltb, ◌==◌, if◌then◌else◌, List, [], ◌∷◌,
  ◌++◌, length, drop,
}
use kiroxy.Prelude.Bytes.{Bytes, beq, is_empty}
use kiroxy.Strings.Prefix.{has_prefix}

-- Reads of `b` and `fail`; the loops stay inside their bounds.
abbrev at : List ℕ → ℕ → ℕ
at [] i = 0
at (x ∷ xs) zero = x
at (x ∷ xs) (suc i) = at xs i

-- `for k > 0 && b[k] != c { k = fail[k-1] }`; each round lowers `k`, which is fuel enough.
unfoldable pub fall_back : ℕ → List ℕ → Bytes → ℕ → ℕ → ℕ
fall_back zero fail b c k = k
fall_back (suc fuel) fail b c k =
    let rest = fall_back fuel fail b c (at fail (k - 1)) in
    if ltb 0 k && not (at b k == c) then rest else k

-- The body of both loops: fall back, then advance on a match.
unfoldable pub kmp_step : List ℕ → Bytes → ℕ → ℕ → ℕ
kmp_step fail b c k = let k' = fall_back k fail b c k in if at b k' == c then k' + 1 else k'

-- The loop that builds `fail`, over the bytes `b[i:]`; `fail` holds the entries so far.
unfoldable pub build_fail : Bytes → List ℕ → ℕ → Bytes → List ℕ
build_fail b fail k [] = fail
build_fail b fail k (c ∷ rest) =
    let k' = kmp_step fail b c k in build_fail b (fail ++ (k' ∷ [])) k' rest

-- The loop that matches `b` against the rest of `a`.
unfoldable pub match_suffix : List ℕ → Bytes → ℕ → Bytes → ℕ
match_suffix fail b k [] = k
match_suffix fail b k (c ∷ a) =
    let k' = kmp_step fail b c k in
    match_suffix fail b (if k' == length b then at fail (k' - 1) else k') a

unfoldable pub kmp_overlap : Bytes → Bytes → ℕ
kmp_overlap a b =
    if is_empty a
    then 0
    else if is_empty b
    then 0
    else match_suffix (build_fail b (0 ∷ []) 0 (drop 1 b)) b 0 a

unfoldable pub compute_delta : Bytes → Bytes → Bytes
compute_delta chunk previous =
    if is_empty previous
    then chunk
    else if beq chunk previous
    then []
    else if ltb (length previous) (length chunk) && has_prefix previous chunk
    then drop (length previous) chunk
    else if ltb (length chunk) (length previous) && has_prefix chunk previous
    then []
    else let overlap = kmp_overlap previous chunk in
      if ltb 0 overlap then drop overlap chunk else chunk

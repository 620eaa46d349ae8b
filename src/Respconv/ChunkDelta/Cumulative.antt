-- ===== src/Respconv/ChunkDelta/Cumulative.antt =====
-- On cumulative text, `ComputeDelta` (internal/respconv/chunk_delta.go) returns what is new.
use kiroxy.Prelude.{◌≡◌, refl, List, [], ◌∷◌, ◌++◌, arith, length, drop, length-append, append-nil}
use kiroxy.Prelude.Bytes.{Bytes, beq_iff, is_empty}
use kiroxy.Strings.Prefix.{has_prefix-append_self}
use kiroxy.Respconv.ChunkDelta.{compute_delta}

drop-append_self : (p s : Bytes) → drop (length p) (p ++ s) ≡ s
drop-append_self [] s = refl
drop-append_self (x ∷ p) s = drop-append_self p s

-- A chunk that continues the text before it yields its continuation.
pub compute_delta-append : (p d : Bytes) → compute_delta (p ++ d) p ≡ d
unfolding compute_delta is_empty
compute_delta-append [] d = refl
compute_delta-append (x ∷ p) [] = rw (append-nil p, (beq_iff (x ∷ p) (x ∷ p)).1 refl)
compute_delta-append (x ∷ p) (y ∷ d) = ground (
  arith,
  beq_iff ((x ∷ p) ++ (y ∷ d)) (x ∷ p),
  has_prefix-append_self (x ∷ p) (y ∷ d),
  drop-append_self (x ∷ p) (y ∷ d),
  length-append (x ∷ p) (y ∷ d),
)

-- The deltas of a stream of cumulative chunks, `last` being the text received before.
abbrev pub deltas : Bytes → List Bytes → List Bytes
deltas last [] = []
deltas last (c ∷ cs) = compute_delta c last ∷ deltas c cs

-- The chunks that a sender of cumulative text makes of the pieces `ds`.
abbrev pub cumulative : Bytes → List Bytes → List Bytes
cumulative last [] = []
cumulative last (d ∷ ds) = (last ++ d) ∷ cumulative (last ++ d) ds

-- Whatever pieces a cumulative stream is made of, the deltas are those pieces.
pub deltas-cumulative : (last : Bytes) (ds : List Bytes) → deltas last (cumulative last ds) ≡ ds
deltas-cumulative last [] = refl
deltas-cumulative last (d ∷ ds) = rw (compute_delta-append last d, deltas-cumulative (last ++ d) ds)

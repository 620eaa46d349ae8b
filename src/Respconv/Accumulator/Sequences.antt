-- ===== src/Respconv/Accumulator/Sequences.antt =====
-- internal/respconv/stop_sequence.go: the filter loses no text, and cuts only at a configured sequence.
use kiroxy.Prelude.{
  ℕ, ◌-◌, ◌≡◌, ◌⊎◌, inl, inr, true, refl, ◌++◌, [], ◌∷◌, drop, arith, Bool-cases, some,
  Option-cases, List, take-append-drop,
}
use kiroxy.Prelude.Bytes.{Bytes}
use kiroxy.Strings.Utf8.{rune_count, rune_offset}
use kiroxy.Strings.Prefix.{has_prefix}
use kiroxy.Strings.Index.{index}
use kiroxy.Respconv.Accumulator.{Accumulator, apply_stop_sequence_filter, first_match}

index-has_prefix : (p s : Bytes) (i : ℕ) → index p s ≡ some i → has_prefix p (drop i s) ≡ true
unfolding index
index-has_prefix p [] i h = elim (Bool-cases (has_prefix p [])) [
  | inl e ↦ ground (arith, e)
  | inr e ↦ ground (arith, e)
]
index-has_prefix p (c ∷ s) i h = elim (Bool-cases (has_prefix p (c ∷ s))) [
  | inl e ↦ ground (arith, e)
  | inr e ↦ elim (Option-cases (index p s)) [
    | inl n ↦ ground (arith, e, n)
    | inr (j, n) ↦ ground (arith, e, n, index-has_prefix p s j n)
  ]
]

-- The sequence found is one of the list, and it begins at the position found.
first_match_sound :
    (qs : List Bytes) (s q : Bytes) (i : ℕ)
    → first_match qs s ≡ some (q, i)
    → has_prefix q (drop i s) ≡ true
unfolding first_match
first_match_sound [] s q i h = cc
first_match_sound (r ∷ qs) s q i h = elim (Option-cases (index r s)) [
  | inl n ↦ ground (arith, n, first_match_sound qs s q i)
  | inr (j, n) ↦ ground (arith, n, index-has_prefix r s j n)
]

-- Without a match, what is emitted and what is kept back are the text that came in. With one, what
-- is emitted stops right before an occurrence of the sequence reported.
apply_stop_sequence_filter_lem :
    (a : Accumulator) (delta : Bytes)
    → let b = (apply_stop_sequence_filter a delta).0 in
      let out = (apply_stop_sequence_filter a delta).1 in
      ((out ++ b.stop_seq_pending ≡ a.stop_seq_pending ++ delta) × (b.local_stop ≡ a.local_stop))
      ⊎ ((rest : Bytes) × ((out ++ rest ≡ a.stop_seq_pending ++ delta)
            × ((has_prefix b.stop_sequence rest ≡ true)
                × ((b.local_stop ≡ true) × (b.stop_seq_pending ≡ [])))))
unfolding apply_stop_sequence_filter
apply_stop_sequence_filter_lem a delta =
    let pending = a.stop_seq_pending ++ delta in
    elim (Option-cases (first_match a.stop_sequences pending)) [
      | inl e ↦ ground (
        arith,
        e,
        take-append-drop (rune_offset (rune_count pending - a.stop_seq_max_keep) pending) pending,
      )
      | inr ((q, i), e) ↦
          rw (e, apply_stop_sequence_filter)
            (inr (
              drop i pending,
              (
                take-append-drop i pending,
                (first_match_sound a.stop_sequences pending q i e, (refl, refl)),
              ),
            ))
    ]

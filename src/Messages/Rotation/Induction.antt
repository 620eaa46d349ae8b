-- ===== src/Messages/Rotation/Induction.antt =====
-- internal/messages/execute.go: proofs about the rotation loop, by its rounds.
use kiroxy.Prelude.{
  ℕ, zero, suc, ◌≡◌, refl, true, false, inl, inr, Bool-cases, String, ◌⊎◌, none, some, Option-cases,
  arith,
}
use kiroxy.Messages.Errors.{UpstreamError, CallError, StreamCode, is_rotatable_upstream_error}
use kiroxy.Messages.World.{World}
use kiroxy.Messages.Rotation.{Loop, stop, continues, raise_retries, rotate_on, round, rotate}

module _ {S R : Type 0} (W : World S R) where
  module _ (code_name : StreamCode → String) (status_text : ℕ → String) where
    -- A round of a loop that goes on leaves it, or rotates on the error it found.
    pub round_cases :
        (P : Loop S R → Type 0) (l : Loop S R)
        → continues l ≡ true
        → ((e : CallError)
            → l.result ≡ inl e
            → is_rotatable_upstream_error code_name status_text e ≡ none
            → P (stop l))
        → ((e : CallError) (ue : UpstreamError)
            → l.result ≡ inl e
            → is_rotatable_upstream_error code_name status_text e ≡ some ue
            → P (rotate_on W code_name status_text ue (raise_retries ue l)))
        → P (round W code_name status_text l)
    unfolding round continues
    round_cases P l c at_stop on = by_result l.result refl
      where
        by_result : (x : CallError ⊎ R) → l.result ≡ x → P (round W code_name status_text l)
        by_result (inr r) h = absurd (ground (arith, h, c))
        by_result (inl e) h =
            elim (Option-cases (is_rotatable_upstream_error code_name status_text e)) [
              | inl n ↦ rw (h, round, n) (at_stop e h n)
              | inr (ue, n) ↦ rw (h, round, n) (on e ue h n)
            ]

    pub rotate-done :
        (fuel : ℕ) (l : Loop S R) → continues l ≡ false → rotate W code_name status_text fuel l ≡ l
    unfolding rotate
    rotate-done zero l h = refl
    rotate-done (suc fuel) l h = rw (h, rotate) refl

    -- What each round keeps, the loop keeps.
    pub rotate_inv :
        (P : Loop S R → Type 0)
        → ((l : Loop S R) → continues l ≡ true → P l → P (round W code_name status_text l))
        → (fuel : ℕ) (l : Loop S R) → P l
        → P (rotate W code_name status_text fuel l)
    unfolding rotate
    rotate_inv P keep zero l h = h
    rotate_inv P keep (suc fuel) l h = elim (Bool-cases (continues l)) [
      | inl e ↦
          rw (e, rotate) (rotate_inv P keep fuel (round W code_name status_text l) (keep l e h))
      | inr e ↦ rw (e, rotate) h
    ]

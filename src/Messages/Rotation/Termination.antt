-- ===== src/Messages/Rotation/Termination.antt =====
-- internal/messages/execute.go: the rotation loop ends by its own test.
use kiroxy.Prelude.{
  ℕ, zero, suc, ◌+◌, ◌≤◌, ◌≡◌, refl, true, false, inl, inr, arith, Bool-cases, String, ◌⊎◌,
}
use kiroxy.Messages.Errors.{UpstreamError, StreamCode}
use kiroxy.Messages.World.{World}
use kiroxy.Messages.Rotation.Induction.{rotate-done}
use kiroxy.Messages.Rotation.{
  Loop, continues, raise_retries, next_account, wait_and_go, rotate_banned, rotate_failed,
  rotate_on, round, rotate,
}

-- The body left the loop, or went on to the next attempt without more retries than `n`.
abbrev pub Advanced : {S R : Type 0} → ℕ → ℕ → Loop S R → Type 0
Advanced n attempt l =
    (l.retries ≤ n) × (((l.stopped ≡ true) × (l.attempt ≡ attempt)) ⊎ (l.attempt ≡ attempt + 1))

module _ {S R : Type 0} where
  stopped-continues : (l : Loop S R) → l.stopped ≡ true → continues l ≡ false
  unfolding continues
  stopped-continues l h = rw h refl

  spent-continues : (l : Loop S R) → l.retries ≤ l.attempt → continues l ≡ false
  unfolding continues
  spent-continues l h = ground arith

module _ {S R : Type 0} (W : World S R) where
  next_account-Advanced :
      (n : ℕ) (l : Loop S R) → l.retries ≤ n → Advanced n l.attempt (next_account W l)
  unfolding next_account
  next_account-Advanced n l h = ground arith

  wait_and_go-Advanced :
      (n delay : ℕ) (l : Loop S R) → l.retries ≤ n → Advanced n l.attempt (wait_and_go W delay l)
  unfolding wait_and_go
  wait_and_go-Advanced n delay l h = grind (arith, next_account-Advanced)

  rotate_banned-Advanced :
      (n : ℕ) (l : Loop S R) → l.retries ≤ n → Advanced n l.attempt (rotate_banned W l)
  unfolding rotate_banned
  rotate_banned-Advanced n l h = grind (arith, wait_and_go-Advanced)

  module _ (code_name : StreamCode → String) (status_text : ℕ → String) where
    rotate_failed-Advanced :
        (n : ℕ) (ue : UpstreamError) (l : Loop S R)
        → l.retries ≤ n
        → Advanced n l.attempt (rotate_failed W code_name status_text ue l)
    unfolding rotate_failed
    rotate_failed-Advanced n ue l h = wait_and_go-Advanced n _ (record l { run = _ }) h

    rotate_on-Advanced :
        (n : ℕ) (ue : UpstreamError) (l : Loop S R)
        → l.retries ≤ n
        → Advanced n l.attempt (rotate_on W code_name status_text ue l)
    unfolding rotate_on
    rotate_on-Advanced n ue l h =
        ground (arith, rotate_banned-Advanced n l, rotate_failed-Advanced n ue l)

    raise_retries-le :
        (n : ℕ) (ue : UpstreamError) (l : Loop S R)
        → l.retries ≤ n
        → 3 ≤ n
        → ((raise_retries ue l).retries ≤ n) × ((raise_retries ue l).attempt ≡ l.attempt)
    unfolding raise_retries
    raise_retries-le n ue l h k = ground arith

    pub round-Advanced :
        (n : ℕ) (l : Loop S R)
        → l.retries ≤ n
        → 3 ≤ n
        → continues l ≡ true
        → Advanced n l.attempt (round W code_name status_text l)
    unfolding continues round
    round-Advanced n l h k c = grind (arith, rotate_on-Advanced, raise_retries-le)

    -- A loop that is allowed `n` attempts, of 3 at least, needs no more than those it has left.
    pub rotate-continues :
        (n fuel : ℕ) (l : Loop S R)
        → 3 ≤ n
        → l.retries ≤ n
        → n ≤ l.attempt + fuel
        → continues (rotate W code_name status_text fuel l) ≡ false
    unfolding rotate
    rotate-continues n zero l k h m = spent-continues l (omega (arith, h, m))
    rotate-continues n (suc fuel) l k h m = elim (Bool-cases (continues l)) [
      | inl e ↦
          rw (e, rotate)
            let v = round-Advanced n l h k e in
              elim v.1 [
                | inl (st, at) ↦
                    let l' = round W code_name status_text l in
                    let q : continues l' ≡ false = stopped-continues l' st in
                    rw (rotate-done W code_name status_text fuel l' q) q
                | inr a ↦ rotate-continues n fuel _ k v.0 (omega (arith, a, m))
              ]
      | inr e ↦ rw (e, rotate) e
    ]

-- ===== src/Messages/Rotation/Counts.antt =====
-- internal/messages/execute.go: how often a request calls the upstream, accuses an account, and answers.
use kiroxy.Prelude.{ℕ, suc, ◌+◌, ◌≤◌, ◌<◌, ◌≡◌, true, List, [], ◌∷◌, arith, String, ◌⊎◌}
use kiroxy.Messages.Errors.{UpstreamError, StreamCode}
use kiroxy.Messages.World.{
  World, Action, called, recorded_structural, wrote_error, handled, generate, note_structural,
  note_failure, rotation_sleep,
}
use kiroxy.Messages.Rotation.{
  Loop, continues, raise_retries, next_account, wait_and_go, rotate_banned, rotate_failed,
  rotate_on, round, rotate, rotation_backoff_for,
}
use kiroxy.Messages.Rotation.Induction.{rotate_inv, round_cases}
use kiroxy.Messages.Rotation.Termination.{round-Advanced}

abbrev pub count_call : Action → ℕ → ℕ
count_call (called i e) n = suc n
count_call _ n = n

abbrev pub count_structural : Action → ℕ → ℕ
count_structural (recorded_structural i reason) n = suc n
count_structural _ n = n

-- A response that was handled, or an error that was written in its place.
abbrev pub count_answer : Action → ℕ → ℕ
count_answer (wrote_error status text) n = suc n
count_answer handled n = suc n
count_answer _ n = n

abbrev pub calls : List Action → ℕ
calls [] = 0
calls (a ∷ log) = count_call a (calls log)

abbrev pub accusations : List Action → ℕ
accusations [] = 0
accusations (a ∷ log) = count_structural a (accusations log)

abbrev pub answers : List Action → ℕ
answers [] = 0
answers (a ∷ log) = count_answer a (answers log)

-- What the loop has done since the log `log`: one call for each attempt, one accusation at most for
-- each ban, two bans at most, and no answer.
pub record Tallied {S R : Type 0} (log : List Action) (l : Loop S R) : Type 0 where
  pub call_count : calls l.run.log ≡ calls log + l.attempt
  pub accusation_count : accusations l.run.log ≤ accusations log + l.bans
  pub answer_count : answers l.run.log ≡ answers log
  pub ban_count : (l.bans ≤ 1) ⊎ ((l.stopped ≡ true) × (l.bans ≤ 2))

module _ {S R : Type 0} (W : World S R) where
  next_account-Tallied :
      (log : List Action) (l : Loop S R)
      → l.bans ≤ 1
      → Tallied log l
      → Tallied log (next_account W l)
  unfolding next_account generate
  next_account-Tallied log l b t = ground (arith, t)

  wait_and_go-Tallied :
      (log : List Action) (delay : ℕ) (l : Loop S R)
      → l.bans ≤ 1
      → Tallied log l
      → Tallied log (wait_and_go W delay l)
  unfolding wait_and_go rotation_sleep
  wait_and_go-Tallied log delay l b t = grind (arith, next_account-Tallied)

  rotate_banned-Tallied :
      (log : List Action) (l : Loop S R)
      → l.bans ≤ 1
      → Tallied log l
      → Tallied log (rotate_banned W l)
  unfolding rotate_banned note_structural
  rotate_banned-Tallied log l b t = grind (arith, wait_and_go-Tallied)

  module _ (code_name : StreamCode → String) (status_text : ℕ → String) where
    rotate_failed-Tallied :
        (log : List Action) (ue : UpstreamError) (l : Loop S R)
        → l.bans ≤ 1
        → Tallied log l
        → Tallied log (rotate_failed W code_name status_text ue l)
    unfolding rotate_failed note_failure rotation_backoff_for
    rotate_failed-Tallied log ue l b t =
        wait_and_go-Tallied log _ (record l { run = _ }) b (ground (arith, t))

    rotate_on-Tallied :
        (log : List Action) (ue : UpstreamError) (l : Loop S R)
        → l.bans ≤ 1
        → Tallied log l
        → Tallied log (rotate_on W code_name status_text ue l)
    unfolding rotate_on
    rotate_on-Tallied log ue l b t =
        ground (arith, rotate_banned-Tallied log l b t, rotate_failed-Tallied log ue l b t)

    raise_retries-Tallied :
        (log : List Action) (ue : UpstreamError) (l : Loop S R)
        → Tallied log l
        → Tallied log (raise_retries ue l) × ((raise_retries ue l).bans ≡ l.bans)
    unfolding raise_retries
    raise_retries-Tallied log ue l t = ground (arith, t)

    continues-bans :
        (log : List Action) (l : Loop S R) → continues l ≡ true → Tallied log l → l.bans ≤ 1
    unfolding continues
    continues-bans log l c t = ground (arith, t)

    round-Tallied :
        (log : List Action) (l : Loop S R)
        → continues l ≡ true
        → Tallied log l
        → Tallied log (round W code_name status_text l)
    round-Tallied log l c t =
        let b = continues-bans log l c t in
        round_cases W code_name status_text (λ k. Tallied log k) l c (λ _ _ _. ground (arith, t, b))
          λ e ue h n.
            let r = raise_retries-Tallied log ue l t in
            rotate_on-Tallied log ue (raise_retries ue l) (rw (r.1) b) r.0

    -- The counts, and no more attempts than the loop is allowed.
    abbrev pub Within : ℕ → List Action → Loop S R → Type 0
    Within n log l = Tallied log l × (l.attempt ≤ n) × (l.retries ≤ n)

    continues-lt : (l : Loop S R) → continues l ≡ true → l.attempt < l.retries
    unfolding continues
    continues-lt l c = ground (arith, c)

    round-Within :
        (n : ℕ) (log : List Action) (l : Loop S R)
        → 3 ≤ n
        → continues l ≡ true
        → Within n log l
        → Within n log (round W code_name status_text l)
    round-Within n log l k c (t, a, h) = ground (
      arith,
      a,
      h,
      continues-lt l c,
      round-Tallied log l c t,
      round-Advanced W code_name status_text n l h k c,
    )

    pub rotate-Within :
        (n fuel : ℕ) (log : List Action) (l : Loop S R)
        → 3 ≤ n
        → Within n log l
        → Within n log (rotate W code_name status_text fuel l)
    rotate-Within n fuel log l k =
        rotate_inv W code_name status_text (Within n log) (λ m. round-Within n log m k) fuel l

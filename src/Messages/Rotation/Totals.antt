-- ===== src/Messages/Rotation/Totals.antt =====
-- internal/messages/execute.go: how often a request calls the upstream, accuses an account, and answers,
-- in all.
use kiroxy.Prelude.{ℕ, ◌+◌, ◌*◌, ◌≤◌, max, ◌≡◌, false, ◌∷◌, arith, String, none}
use kiroxy.Messages.Errors.{StreamCode}
use kiroxy.Messages.World.{World, Run, Invocation, called, generate, note_structural, answer}
use kiroxy.Messages.Rotation.{
  Loop, continues, rotate, start, quarantine, give_up, handle_response, conclude, call_and_handle,
}
use kiroxy.Messages.Rotation.Termination.{rotate-continues}
use kiroxy.Messages.Rotation.Counts.{Within, rotate-Within, calls, accusations, answers}
use kiroxy.Messages.Retry.{execute_with_retry, give_up_retry}

module _ {S R : Type 0} (W : World S R) where
  module _ (code_name : StreamCode → String) (status_text : ℕ → String) where
    -- The rotation loop that a call runs.
    abbrev pub last : ℕ → Invocation → Run S → Loop S R
    last pool_retries inv r =
        rotate W code_name status_text (max pool_retries 3)
          (start W code_name status_text pool_retries inv r)

    start-Within :
        (n pool_retries : ℕ) (inv : Invocation) (r : Run S)
        → pool_retries ≤ n
        → Within W code_name status_text n
            (called inv none ∷ r.log)
            (start W code_name status_text pool_retries inv r)
    unfolding start generate
    start-Within n pool_retries inv r h = ground (arith, h)

    -- What a call has done when its loop has ended.
    last-counts :
        (pool_retries : ℕ) (inv : Invocation) (r : Run S)
        → let l = last pool_retries inv r in
          (calls l.run.log ≤ calls r.log + 1 + max pool_retries 3)
          × (accusations l.run.log ≤ accusations r.log + 2)
          × (answers l.run.log ≡ answers r.log)
    last-counts pool_retries inv r =
        let n = max pool_retries 3 in
        ground (
          arith,
          rotate-Within W code_name status_text n n (called inv none ∷ r.log)
              (start W code_name status_text pool_retries inv r) (omega arith)
              (start-Within n pool_retries inv r (omega arith)),
        )

    -- The rotation ends by its own test: it has answered, tried as often as it may, or been left.
    pub last-continues :
        (pool_retries : ℕ) (inv : Invocation) (r : Run S)
        → continues (last pool_retries inv r) ≡ false
    unfolding start
    last-continues pool_retries inv r =
        rotate-continues W code_name status_text (max pool_retries 3) (max pool_retries 3)
          (start W code_name status_text pool_retries inv r) (omega arith) (omega arith)
          (omega arith)

    conclude-counts :
        (l : Loop S R)
        → let q = (conclude W code_name status_text l).0 in
          (calls q.log ≡ calls l.run.log)
          × (accusations q.log ≤ accusations l.run.log + 1)
          × (answers q.log ≡ answers l.run.log + 1)
    unfolding conclude give_up answer quarantine note_structural handle_response
    conclude-counts l = ground arith

    pub call_and_handle-counts :
        (pool_retries : ℕ) (inv : Invocation) (r : Run S)
        → let q = (call_and_handle W code_name status_text pool_retries inv r).0 in
          (calls q.log ≤ calls r.log + 1 + max pool_retries 3)
          × (accusations q.log ≤ accusations r.log + 3)
          × (answers q.log ≡ answers r.log + 1)
    unfolding call_and_handle
    call_and_handle-counts pool_retries inv r =
        ground (arith, last-counts pool_retries inv r, conclude-counts (last pool_retries inv r))

    pub execute_with_retry-counts :
        (pool_retries : ℕ) (inv : Invocation) (r : Run S)
        → let q = execute_with_retry W code_name status_text pool_retries inv r in
          (calls q.log ≤ calls r.log + 2 * (1 + max pool_retries 3))
          × (accusations q.log ≤ accusations r.log + 6)
    unfolding execute_with_retry give_up_retry answer
    execute_with_retry-counts pool_retries inv r =
        let (q, again, reason) = call_and_handle W code_name status_text pool_retries inv r in
        ground (
          arith,
          call_and_handle-counts pool_retries inv r,
          call_and_handle-counts pool_retries (record again { conversation_id = "" }) q,
        )

    -- With no retries the upstream is called once, whatever the error.
    pub call_and_handle-single :
        (inv : Invocation) (r : Run S)
        → let q = (call_and_handle W code_name status_text 0 inv r).0 in
          (calls q.log ≡ calls r.log + 1) × (answers q.log ≡ answers r.log + 1)
    unfolding call_and_handle start generate rotate continues
    call_and_handle-single inv r =
        ground (arith, conclude-counts (start W code_name status_text 0 inv r))

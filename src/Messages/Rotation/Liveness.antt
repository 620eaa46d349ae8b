-- ===== src/Messages/Rotation/Liveness.antt =====
-- internal/messages/execute.go: a request is answered once an account can serve it.
use kiroxy.Prelude.{
  ℕ, ◌+◌, ◌≤◌, ◌<◌, max, ◌≡◌, ◌≢◌, refl, max, sym, Bool, true, false, List, ◌∷◌, arith, String, ◌⊎◌,
  inl, inr, none, some, Option-cases, ap, subst, some_inj, ◌∙◌, ◌/◌, if◌then◌else◌,
}
use kiroxy.Messages.Errors.{
  UpstreamError, CallError, StreamCode, is_rotatable_upstream_error, is_suspicious_activity_error,
  is_capacity_shortage, is_quota_failure, rotation_failure_reason,
}
use kiroxy.Messages.World.{
  World, Run, Invocation, Action, generate, handled, note_failure, rotation_sleep,
}
use kiroxy.Messages.Rotation.{
  Loop, continues, raise_retries, call_with, next_account, wait_and_go, rotate_failed, rotate_on,
  round, rotate, start, rotation_backoff_for, handle_response, conclude, call_and_handle, backoff,
  capacity_shortage_base_delay, pool_rotation_base_delay,
}
use kiroxy.Messages.Rotation.Induction.{rotate_inv, round_cases}
use kiroxy.Messages.Rotation.Totals.{last-continues}

module _ {S R : Type 0} (W : World S R) (code_name : StreamCode → String)
    (status_text : ℕ → String) where
  -- `rank` bounds how often the upstream still fails, each time with an error that is worth another
  -- account and is no ban; no wait is cut short, and there is always another account.
  pub record Recovers (rank : S → ℕ) : Type 0 where
    pub fails :
        (inv : Invocation) (s : S) (e : CallError)
        → (W.generate inv s).1 ≡ inl e
        → (ue : UpstreamError) × (is_rotatable_upstream_error code_name status_text e ≡ some ue)
          × (is_suspicious_activity_error ue ≡ false)
          × (rank (W.generate inv s).0 < rank s)
    pub has_account : (s : S) → (W.get_token s).1 ≢ none
    pub token_rank : (s : S) → rank (W.get_token s).0 ≤ rank s
    pub awake : (d : ℕ) (s : S) → (W.sleep d s).1 ≡ true
    pub sleep_rank : (d : ℕ) (s : S) → rank (W.sleep d s).0 ≤ rank s
    pub rand_rank : (n : ℕ) (s : S) → rank (W.rand n s).0 ≤ rank s
    pub failure_rank :
        (f : String → Bool → String → S → S) (i : String) (quota : Bool) (reason : String) (s : S)
        → W.failure_recorder ≡ some f
        → rank (f i quota reason s) ≤ rank s

  module _ (rank : S → ℕ) (rec : Recovers rank) where
    -- Every failure that is left can be met with another attempt.
    record Hopeful (n : ℕ) (l : Loop S R) : Type 0 where
      goes_on : l.stopped ≡ false
      allowed : n ≤ l.retries
      left :
          (e : CallError)
          → l.result ≡ inl e
          → (ue : UpstreamError) × (is_rotatable_upstream_error code_name status_text e ≡ some ue)
            × (is_suspicious_activity_error ue ≡ false)
            × (rank l.run.world + l.attempt < n)

    -- A call at a time when `k` failures are left, all of which can be met.
    called-Hopeful :
        (n : ℕ) (l : Loop S R) (inv : Invocation) (s : S)
        → l.stopped ≡ false
        → n ≤ l.retries
        → l.result ≡ (W.generate inv s).1
        → l.run.world ≡ (W.generate inv s).0
        → rank s + l.attempt ≤ n
        → Hopeful n l
    called-Hopeful n l inv s st a h w k = record {
      goes_on = st;
      allowed = a;
      left = λ e f.
          let (ue, r, b, lt) = rec.fails inv s e (sym h ∙ f) in
          (ue, r, b, omega (arith, lt, k, ap rank w));
    }

    next_account-Hopeful :
        (n : ℕ) (l : Loop S R)
        → l.stopped ≡ false
        → n ≤ l.retries
        → rank l.run.world + l.attempt < n
        → Hopeful n (next_account W l)
    unfolding next_account call_with generate
    next_account-Hopeful n l st a k = elim (Option-cases (W.get_token l.run.world).1) [
      | inl e ↦ absurd (rec.has_account l.run.world e)
      | inr (c, e) ↦
          rw (next_account, e)
            (called-Hopeful n _ (record l.inv { creds = c; profile_arn = c.profile_arn })
              (W.get_token l.run.world).0 st a refl refl
              (omega (arith, k, rec.token_rank l.run.world)))
    ]

    rotation_sleep-rank :
        (delay : ℕ) (r : Run S)
        → ((rotation_sleep W delay r).1 ≡ true)
          × (rank (rotation_sleep W delay r).0.world ≤ rank r.world)
    unfolding rotation_sleep
    rotation_sleep-rank delay r =
        ground (arith, rec.awake delay r.world, rec.sleep_rank delay r.world)

    rotation_backoff_for-rank :
        (attempt base : ℕ) (r : Run S)
        → rank (rotation_backoff_for W attempt base r).0.world ≤ rank r.world
    unfolding rotation_backoff_for
    rotation_backoff_for-rank attempt base r =
        ground (arith, rec.rand_rank (backoff base attempt / 2) r.world)

    rank-if :
        (b : Bool) (u v : Run S)
        → rank v.world ≤ rank u.world
        → rank (if b then u else v).world ≤ rank u.world
    rank-if true u v h = omega arith
    rank-if false u v h = h

    note_failure-rank :
        (i : String) (quota : Bool) (reason : String) (r : Run S)
        → rank (note_failure W i quota reason r).world ≤ rank r.world
    unfolding note_failure
    note_failure-rank i quota reason r = elim (Option-cases W.failure_recorder) [
      | inl e ↦ rw (note_failure, e) (omega arith)
      | inr (f, e) ↦
          rw (note_failure, e) (ground (arith, rec.failure_rank f i quota reason r.world e))
    ]

    wait_and_go-Hopeful :
        (n delay : ℕ) (l : Loop S R)
        → l.stopped ≡ false
        → n ≤ l.retries
        → rank l.run.world + l.attempt < n
        → Hopeful n (wait_and_go W delay l)
    unfolding wait_and_go
    wait_and_go-Hopeful n delay l st a k =
        let (r, awake) = rotation_sleep W delay l.run in
        let s = rotation_sleep-rank delay l.run in
        rw (wait_and_go, s.0)
          (next_account-Hopeful n (record l { run = r }) st a (omega (arith, k, s.1)))

    rotate_failed-Hopeful :
        (n : ℕ) (ue : UpstreamError) (l : Loop S R)
        → l.stopped ≡ false
        → n ≤ l.retries
        → rank l.run.world + l.attempt < n
        → Hopeful n (rotate_failed W code_name status_text ue l)
    unfolding rotate_failed
    rotate_failed-Hopeful n ue l st a k =
        let short = is_capacity_shortage ue in
        let noted =
          note_failure W l.inv.creds.account_id (is_quota_failure ue)
            (rotation_failure_reason code_name status_text ue) l.run in
        let r = if short then l.run else noted in
        let base = if short then capacity_shortage_base_delay else pool_rotation_base_delay in
        let (q, delay) = rotation_backoff_for W l.attempt base r in
        wait_and_go-Hopeful n delay (record l { run = q }) st a
          (omega (
            arith,
            k,
            rotation_backoff_for-rank l.attempt base r,
            rank-if short l.run noted (
                note_failure-rank l.inv.creds.account_id (is_quota_failure ue)
                  (rotation_failure_reason code_name status_text ue) l.run),
          ))

    raise_retries-Hopeful :
        (n : ℕ) (ue : UpstreamError) (l : Loop S R)
        → n ≤ l.retries
        → ((raise_retries ue l).stopped ≡ l.stopped)
          × (n ≤ (raise_retries ue l).retries)
          × ((raise_retries ue l).attempt ≡ l.attempt)
          × ((raise_retries ue l).run ≡ l.run)
    unfolding raise_retries
    raise_retries-Hopeful n ue l h = ground arith

    round-Hopeful :
        (n : ℕ) (l : Loop S R)
        → continues l ≡ true
        → Hopeful n l
        → Hopeful n (round W code_name status_text l)
    unfolding rotate_on
    round-Hopeful n l c h =
        round_cases W code_name status_text (Hopeful n) l c
          (λ e f none_found.
            let (ue, r, b, lt) = h.left e f in absurd (ground (arith, r, none_found)))
          λ e ue f found.
            let (ue2, r, b, lt) = h.left e f in
            let (st, a, at, rn) = raise_retries-Hopeful n ue l h.allowed in
            let calm : is_suspicious_activity_error ue ≡ false =
              subst (λ u. is_suspicious_activity_error u ≡ false) (some_inj (sym r ∙ found)) b in
            rw (rotate_on, calm)
              (rotate_failed-Hopeful n ue (raise_retries ue l) (st ∙ h.goes_on) a (rw (at, rn) lt))

    start-Hopeful :
        (n : ℕ) (inv : Invocation) (r : Run S)
        → rank r.world ≤ n
        → Hopeful n (start W code_name status_text n inv r)
    unfolding start generate
    start-Hopeful n inv r k =
        called-Hopeful n (start W code_name status_text n inv r) inv r.world refl (omega arith) refl
          refl (omega (arith, k))

    out_of_hope :
        (n : ℕ) (l : Loop S R) (e : CallError)
        → l.result ≡ inl e
        → continues l ≡ false
        → ¬ Hopeful n l
    unfolding continues
    out_of_hope n l e f c h =
        let (ue, r, b, lt) = h.left e f in ground (arith, f, c, h.goes_on, h.allowed, lt)

    served :
        (n : ℕ) (l : Loop S R)
        → continues l ≡ false
        → Hopeful n l
        → (log : List Action) × ((conclude W code_name status_text l).0.log ≡ handled ∷ log)
    unfolding conclude handle_response
    served n l c h = by_result l.result refl
      where
        by_result :
            (x : CallError ⊎ R)
            → l.result ≡ x
            → (log : List Action) × ((conclude W code_name status_text l).0.log ≡ handled ∷ log)
        by_result (inr x) e = (l.run.log, rw (conclude, e) refl)
        by_result (inl x) e = absurd (out_of_hope n l x e c h)

    -- If the upstream fails no more often than the pool's retries, each time with an error that is worth
    -- another account and is no ban, no wait is cut short, there is always another account, and nothing
    -- but the upstream's own calls makes it fail more often, then the request ends with a response
    -- handled.
    pub call_and_handle-served :
        (pool_retries : ℕ) (inv : Invocation) (r : Run S)
        → rank r.world ≤ pool_retries
        → (log : List Action) × ((call_and_handle W code_name status_text pool_retries inv r).0.log
            ≡ handled ∷ log)
    unfolding call_and_handle
    call_and_handle-served pool_retries inv r k =
        let first = start W code_name status_text pool_retries inv r in
        let l = rotate W code_name status_text (max pool_retries 3) first in
        served pool_retries l (last-continues W code_name status_text pool_retries inv r) (
          rotate_inv W code_name status_text (Hopeful pool_retries) (round-Hopeful pool_retries)
            (max pool_retries 3) first (start-Hopeful pool_retries inv r k))

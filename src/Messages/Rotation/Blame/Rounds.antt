-- ===== src/Messages/Rotation/Blame/Rounds.antt =====
-- internal/messages/execute.go: the rounds of the rotation loop blame the account whose call failed.
use kiroxy.Prelude.{
  ℕ, ◌+◌, if◌then◌else◌, ◌≡◌, refl, Bool, true, false, arith, String, str_eq, ltb, ◌&&◌, ap, ◌∙◌,
  inl, inr, Option, none, some, Bool-cases,
}
use kiroxy.Messages.Errors.{
  UpstreamError, CallError, StreamCode, is_rotatable_upstream_error, is_suspicious_activity_error,
  is_capacity_shortage, is_quota_failure, rotation_failure_reason,
}
use kiroxy.Messages.World.{
  World, Run, Invocation, Credentials, generate, note_structural, note_failure, rotation_sleep,
  error_of,
}
use kiroxy.Messages.Rotation.{
  Loop, stop, continues, raise_retries, call_with, next_account, wait_and_go, rotate_banned,
  rotate_failed, rotate_on, round, rotation_backoff_for, suspicious_ban_rotation_delay,
  capacity_shortage_base_delay, pool_rotation_base_delay,
}
use kiroxy.Messages.Rotation.Induction.{round_cases}
use kiroxy.Messages.Rotation.Blame.{
  Failed, Coherent, FailureBlame, StructuralBlame, Justified, Known, Knows,
}

module _ (code_name : StreamCode → String) (status_text : ℕ → String) where
  module _ {S R : Type 0} (W : World S R) where
    pub generate-Known :
        (inv : Invocation) (r : Run S)
        → Coherent inv
        → Justified code_name status_text r.log
        → let (q, x) = generate W inv r in Known code_name status_text inv (error_of x) q
    unfolding generate Justified
    generate-Known inv r c j = ((c, j), refl, c)

    call_with-Knows :
        (t : Option Credentials) (l : Loop S R)
        → Knows code_name status_text l
        → Knows code_name status_text (call_with W t l)
    unfolding call_with
    call_with-Knows none l k = k
    call_with-Knows (some c) l (j, k, h) =
        generate-Known (record l.inv { creds = c; profile_arn = c.profile_arn }) l.run refl j

    rotation_sleep-log : (delay : ℕ) (r : Run S) → (rotation_sleep W delay r).0.log ≡ r.log
    unfolding rotation_sleep
    rotation_sleep-log delay r = ground arith

    Known-log :
        (inv : Invocation) (x : Option CallError) (q r : Run S)
        → q.log ≡ r.log
        → Known code_name status_text inv x r
        → Known code_name status_text inv x q
    Known-log inv x q r e k = rw (e) k

    Knows-if :
        (b : Bool) (u v : Loop S R)
        → Knows code_name status_text u
        → Knows code_name status_text v
        → Knows code_name status_text (if b then u else v)
    Knows-if true u v h k = h
    Knows-if false u v h k = k

    wait_and_go-Knows :
        (delay : ℕ) (l : Loop S R)
        → Knows code_name status_text l
        → Knows code_name status_text (wait_and_go W delay l)
    unfolding wait_and_go next_account
    wait_and_go-Knows delay l k =
        let (q, awake) = rotation_sleep W delay l.run in
        let m : Loop S R = record l { run = q } in
        let h = Known-log l.inv (error_of l.result) q l.run (rotation_sleep-log delay l.run) k in
        Knows-if awake (next_account W m) (stop m) (call_with-Knows _ _ h) h

    pub note_structural-Known :
        (i reason : String) (inv : Invocation) (x : Option CallError) (r : Run S)
        → StructuralBlame code_name status_text i reason r.log
        → Known code_name status_text inv x r
        → Known code_name status_text inv x (note_structural W i reason r)
    unfolding note_structural Justified
    note_structural-Known i reason inv x r b (j, k, c) = ground (arith, b, j, k, c)

    note_failure-Known :
        (i : String) (quota : Bool) (reason : String) (inv : Invocation) (x : Option CallError)
        (r : Run S)
        → FailureBlame code_name status_text i quota reason r.log
        → Known code_name status_text inv x r
        → Known code_name status_text inv x (note_failure W i quota reason r)
    unfolding note_failure Justified
    note_failure-Known i quota reason inv x r b (j, k, c) = ground (arith, b, j, k, c)

    rotation_backoff_for-log :
        (attempt base : ℕ) (r : Run S) → (rotation_backoff_for W attempt base r).0.log ≡ r.log
    unfolding rotation_backoff_for
    rotation_backoff_for-log attempt base r = ground arith

    pub Knows-Failed :
        (e : CallError) (l : Loop S R)
        → l.result ≡ inl e
        → Knows code_name status_text l
        → Failed l.inv.creds.account_id e l.run.log
    Knows-Failed e l h k = record {
      inv = l.inv;
      failed = k.1 ∙ ap (λ x. some (l.inv, error_of x)) h;
      account = refl;
    }

    rotate_banned-Knows :
        (e : CallError) (ue : UpstreamError) (l : Loop S R)
        → l.result ≡ inl e
        → is_rotatable_upstream_error code_name status_text e ≡ some ue
        → is_suspicious_activity_error ue ≡ true
        → Knows code_name status_text l
        → Knows code_name status_text (rotate_banned W l)
    unfolding rotate_banned
    rotate_banned-Knows e ue l h x b k =
        let r = note_structural W l.inv.creds.account_id "suspicious_activity_ban" l.run in
        let m : Loop S R = record l { run = r; bans = l.bans + 1 } in
        let j =
          note_structural-Known l.inv.creds.account_id "suspicious_activity_ban" l.inv
            (error_of l.result) l.run
            (record { e = e; ue = ue; failed = Knows-Failed e l h k; cause = inl (x, b, refl) })
            k in
        Knows-if _ (stop m) (wait_and_go W suspicious_ban_rotation_delay m) j
          (wait_and_go-Knows suspicious_ban_rotation_delay m j)

    Known-if :
        (b : Bool) (inv : Invocation) (x : Option CallError) (u v : Run S)
        → (b ≡ true → Known code_name status_text inv x u)
        → (b ≡ false → Known code_name status_text inv x v)
        → Known code_name status_text inv x (if b then u else v)
    Known-if true inv x u v h k = h refl
    Known-if false inv x u v h k = k refl

    rotate_failed-Knows :
        (e : CallError) (ue : UpstreamError) (l : Loop S R)
        → l.result ≡ inl e
        → is_rotatable_upstream_error code_name status_text e ≡ some ue
        → is_suspicious_activity_error ue ≡ false
        → Knows code_name status_text l
        → Knows code_name status_text (rotate_failed W code_name status_text ue l)
    unfolding rotate_failed
    rotate_failed-Knows e ue l h n b k =
        let i = l.inv.creds.account_id in
        let quota = is_quota_failure ue in
        let why = rotation_failure_reason code_name status_text ue in
        let short = is_capacity_shortage ue in
        let noted = note_failure W i quota why l.run in
        let r = if short then l.run else noted in
        let base = if short then capacity_shortage_base_delay else pool_rotation_base_delay in
        let (q, delay) = rotation_backoff_for W l.attempt base r in
        let j =
          Known-if short l.inv (error_of l.result) l.run noted (λ _. k)
            λ s.
              note_failure-Known i quota why l.inv (error_of l.result) l.run
                (record {
                  e = e;
                  ue = ue;
                  failed = Knows-Failed e l h k;
                  rotatable = n;
                  not_short = s;
                  not_banned = b;
                  kind = refl;
                  why = refl;
                })
                k in
        wait_and_go-Knows delay (record l { run = q })
          (Known-log l.inv (error_of l.result) q r (rotation_backoff_for-log l.attempt base r) j)

    rotate_on-Knows :
        (e : CallError) (ue : UpstreamError) (l : Loop S R)
        → l.result ≡ inl e
        → is_rotatable_upstream_error code_name status_text e ≡ some ue
        → Knows code_name status_text l
        → Knows code_name status_text (rotate_on W code_name status_text ue l)
    unfolding rotate_on
    rotate_on-Knows e ue l h n k = elim (Bool-cases (is_suspicious_activity_error ue)) [
      | inl b ↦ rw (rotate_on, b) (rotate_banned-Knows e ue l h n b k)
      | inr b ↦ rw (rotate_on, b) (rotate_failed-Knows e ue l h n b k)
    ]

    -- Neither the run nor the last call changes with the retries.
    raise_retries-same :
        (ue : UpstreamError) (l : Loop S R)
        → (n : ℕ) × (raise_retries ue l ≡ record l { retries = n })
    unfolding raise_retries
    raise_retries-same ue l =
        elim (Bool-cases (str_eq ue.reason "INVALID_MODEL_ID" && ltb l.retries 3)) [
          | inl e ↦ (3, rw (e) refl)
          | inr e ↦ (l.retries, rw (e) refl)
        ]

    pub round-Knows :
        (l : Loop S R)
        → continues l ≡ true
        → Knows code_name status_text l
        → Knows code_name status_text (round W code_name status_text l)
    round-Knows l c k =
        round_cases W code_name status_text (λ m. Knows code_name status_text m) l c (λ _ _ _. k)
          λ e ue h n.
            let (j, same) = raise_retries-same ue l in
            rw (same) (rotate_on-Knows e ue (record l { retries = j }) h n k)

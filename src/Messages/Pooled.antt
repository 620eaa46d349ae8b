-- ===== src/Messages/Pooled.antt =====
-- internal/messages/execute.go with internal/pool/pool.go: what a request reports takes effect in the
-- pool.
use kiroxy.Prelude.{ℕ, ◌+◌, ◌<◌, ◌≡◌, ◌≢◌, ◌∙◌, inl, some, String, str_eq, eq_iff, false, arith}
use kiroxy.Pool.{Pool, Account, find_account}
use kiroxy.Pool.Cooldowns.{Out}
use kiroxy.Pool.Reports.{report_structural_error, structural_cooldown, report_structural_error-Out}
use kiroxy.Messages.Errors.{
  UpstreamError, CallError, StreamCode, is_structural_error, rotation_failure_reason,
}
use kiroxy.Messages.World.{World, Run, Invocation, note_structural, answer}
use kiroxy.Messages.Rotation.{quarantine, give_up, conclude, call_and_handle, Loop}
use kiroxy.Messages.Rotation.Totals.{last}

module _ {S R : Type 0} (W : World S R) (code_name : StreamCode → String)
    (status_text : ℕ → String) where
  -- The structural errors that the world records are reported to the pool in it at the
  -- time that its clock has then, and an answer to the
  -- client leaves that pool alone.
  pub record Pooled (now : S → ℕ) (pool : S → Pool) : Type 0 where
    pub recorder : String → String → S → S
    pub records : W.structural_recorder ≡ some recorder
    pub reports :
        (i reason : String) (s : S)
        → pool (recorder i reason s) ≡ report_structural_error (now s) i reason (pool s)
    pub answers : (status : ℕ) (text : String) (s : S) → pool (W.write_error status text s) ≡ pool s

  module _ (now : S → ℕ) (pool : S → Pool) (pooled : Pooled now pool) where
    quarantine-pool :
        (e : CallError) (ue : UpstreamError) (l : Loop S R)
        → l.inv.creds.account_id ≢ ""
        → is_structural_error e ≡ some ue
        → pool (give_up W code_name status_text e l).world
          ≡ report_structural_error
              (now l.run.world)
              l.inv.creds.account_id
              (rotation_failure_reason code_name status_text ue)
              (pool l.run.world)
    unfolding give_up answer quarantine note_structural
    quarantine-pool e ue l named h =
        let i = l.inv.creds.account_id in
        let why = rotation_failure_reason code_name status_text ue in
        let there : str_eq i "" ≡ false = ground (arith, named, eq_iff i "") in
        rw (give_up, answer, quarantine, note_structural, h, pooled.records, there)
          (pooled.answers 502 "upstream API error" (pooled.recorder i why l.run.world)
            ∙ pooled.reports i why l.run.world)

    -- If the structural errors of the world are reported to the pool in it at the time of its
    -- clock, an answer to the client leaves that pool alone, and the rotation ends with a
    -- structural error, with an account of the pool that has a name, then after the attempt that
    -- account is out, until the end of the shortest cooldown that a structural error may have,
    -- counted from the end of the rotation: it is on cooldown, and no session is pinned to it.
    pub call_and_handle-Out :
        (pool_retries t : ℕ) (inv : Invocation) (r : Run S) (e : CallError) (ue : UpstreamError)
        (a : Account) (session : String)
        → let l = last W code_name status_text pool_retries inv r in
          let i = l.inv.creds.account_id in
          l.result ≡ inl e
          → is_structural_error e ≡ some ue
          → i ≢ ""
          → find_account i (pool l.run.world).accounts ≡ some a
          → t < now l.run.world + structural_cooldown (pool l.run.world).policy
          → Out t i session
              (pool (call_and_handle W code_name status_text pool_retries inv r).0.world)
    unfolding call_and_handle conclude
    call_and_handle-Out pool_retries t inv r e ue a session h structural named found early =
        let l = last W code_name status_text pool_retries inv r in
        let i = l.inv.creds.account_id in
        let why = rotation_failure_reason code_name status_text ue in
        rw (call_and_handle, conclude, h, quarantine-pool e ue l named structural)
          (report_structural_error-Out (now l.run.world) t i why session (pool l.run.world) a named
            found early)

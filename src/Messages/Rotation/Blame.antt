-- ===== src/Messages/Rotation/Blame.antt =====
-- internal/messages/execute.go: whom the failures of a request are blamed on.
pub mod Rounds
pub mod Requests
use kiroxy.Prelude.{
  ℕ, zero, suc, ◌+◌, max, if◌then◌else◌, ◌≡◌, refl, Bool, true, false, List, [], ◌∷◌, arith, String,
  str_eq, ltb, ◌&&◌, ap, ◌∙◌, ◌⊎◌, inl, inr, Option, none, some, Option-cases, Bool-cases,
}
use kiroxy.Messages.Errors.{
  UpstreamError, CallError, StreamCode, is_rotatable_upstream_error, is_suspicious_activity_error,
  is_capacity_shortage, is_quota_failure, is_structural_error, rotation_failure_reason,
}
use kiroxy.Messages.World.{
  World, Run, Invocation, Credentials, Action, called, recorded_failure, recorded_structural,
  wrote_error, handled, generate, note_structural, note_failure, rotation_sleep, answer, error_of,
}
use kiroxy.Messages.Rotation.{
  Loop, stop, continues, raise_retries, call_with, next_account, wait_and_go, rotate_banned,
  rotate_failed, rotate_on, round, rotate, start, rotation_backoff_for, quarantine, give_up,
  handle_response, conclude, call_and_handle, suspicious_ban_rotation_delay,
  capacity_shortage_base_delay, pool_rotation_base_delay,
}
use kiroxy.Messages.Rotation.Induction.{rotate_inv, round_cases}
use kiroxy.Messages.Retry.{execute_with_retry, give_up_retry}

-- The call that came last, with its error.
abbrev pub last_call : List Action → Option (Invocation × Option CallError)
last_call [] = none
last_call (called inv e ∷ log) = some (inv, e)
last_call (_ ∷ log) = last_call log

-- The last call was made with account `i` and failed with `e`.
pub record Failed (i : String) (e : CallError) (log : List Action) : Type 0 where
  pub inv : Invocation
  pub failed : last_call log ≡ some (inv, some e)
  pub account : i ≡ inv.creds.account_id

-- The credentials of a call and the profile in its payload are of one account.
abbrev pub Coherent : Invocation → Type 0
Coherent inv = inv.profile_arn ≡ inv.creds.profile_arn

module _ (code_name : StreamCode → String) (status_text : ℕ → String) where
  -- A failure is recorded of an error that is worth another account, is no ban, and is not a shortage of
  -- capacity.
  pub record FailureBlame (i : String) (quota : Bool) (reason : String) (log : List Action)
      : Type 0 where
    pub e : CallError
    pub ue : UpstreamError
    pub failed : Failed i e log
    pub rotatable : is_rotatable_upstream_error code_name status_text e ≡ some ue
    pub not_short : is_capacity_shortage ue ≡ false
    pub not_banned : is_suspicious_activity_error ue ≡ false
    pub kind : quota ≡ is_quota_failure ue
    pub why : reason ≡ rotation_failure_reason code_name status_text ue

  -- A structural error is recorded of an error that is worth another account and is a ban, or that is
  -- itself structural.
  pub record StructuralBlame (i reason : String) (log : List Action) : Type 0 where
    pub e : CallError
    pub ue : UpstreamError
    pub failed : Failed i e log
    pub cause :
        ((is_rotatable_upstream_error code_name status_text e ≡ some ue)
          × (is_suspicious_activity_error ue ≡ true)
          × (reason ≡ "suspicious_activity_ban"))
        ⊎ ((is_structural_error e ≡ some ue)
            × (reason ≡ rotation_failure_reason code_name status_text ue))

  unfoldable pub Justifies : Action → List Action → Type 0
  Justifies (called inv e) log = Coherent inv
  Justifies (recorded_failure i quota reason) log = FailureBlame i quota reason log
  Justifies (recorded_structural i reason) log = StructuralBlame i reason log
  Justifies _ log = Unit

  -- Every action is justified by those before it.
  unfoldable pub Justified : List Action → Type 0
  unfolding Justifies
  Justified [] = Unit
  Justified (a ∷ log) = Justifies a log × Justified log

  -- A run whose last call was `inv`, with the error `x`.
  abbrev pub Known : {S : Type 0} → Invocation → Option CallError → Run S → Type 0
  Known inv x r = Justified r.log × (last_call r.log ≡ some (inv, x)) × Coherent inv

  abbrev pub Knows : {S R : Type 0} → Loop S R → Type 0
  Knows l = Known l.inv (error_of l.result) l.run

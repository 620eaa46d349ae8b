-- ===== src/Pool/Reports.antt =====
-- internal/pool/pool.go: what a caller that holds only the token getter reports of an account.
use kiroxy.Prelude.{
  ℕ, ◌+◌, ◌<◌, ◌≡◌, ◌≢◌, Bool, false, ltb, ◌&&◌, min, if◌then◌else◌, some, String, str_eq, eq_iff,
  arith,
}
use kiroxy.Pool.{Pool, Policy, Account, find_account}
use kiroxy.Pool.Failures.{transient, quota, record_failure, record_structural_error}
use kiroxy.Pool.Cooldowns.{Out, found-Out}

-- `TokenGetter.RecordFailure`, with a pool.
unfoldable pub report_failure : (String → Bool) → ℕ → String → Bool → String → Pool → Pool
unfolding record_failure
report_failure headroom now i is_quota reason p =
    if str_eq i ""
    then p
    else record_failure headroom now i (if is_quota then quota else transient) reason p

-- `TokenGetter.RecordStructuralError`, with a pool and no vault.
unfoldable pub report_structural_error : ℕ → String → String → Pool → Pool
unfolding record_structural_error
report_structural_error now i reason p =
    if str_eq i "" then p else record_structural_error now i reason p

-- The shortest cooldown of a structural error, whatever its reason.
unfoldable pub structural_cooldown : Policy → ℕ
structural_cooldown policy =
    if ltb 0 policy.suspicious_ban_cooldown
    then min policy.suspicious_ban_cooldown policy.max_cooldown
    else policy.max_cooldown

-- An account of the pool with a name, of which a structural error is reported, is out until the end of
-- the shortest cooldown that the reason may have.
pub report_structural_error-Out :
    (now t : ℕ) (i reason s : String) (p : Pool) (a : Account)
    → i ≢ ""
    → find_account i p.accounts ≡ some a
    → t < now + structural_cooldown p.policy
    → Out t i s (report_structural_error now i reason p)
unfolding report_structural_error record_structural_error structural_cooldown
report_structural_error-Out now t i reason s p a named h k =
    let until =
      now
      + (if str_eq reason "suspicious_activity_ban" && ltb 0 p.policy.suspicious_ban_cooldown
          then p.policy.suspicious_ban_cooldown
          else p.policy.max_cooldown) in
    let long : t < until = ground (arith, k) in
    let there : str_eq i "" ≡ false = ground (arith, named, eq_iff i "") in
    rw (report_structural_error, record_structural_error, there, h)
      (found-Out t until i reason s p a named h long)

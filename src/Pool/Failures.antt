-- ===== src/Pool/Failures.antt =====
-- internal/pool/pool.go: what a request reports back to the pool.
use kiroxy.Prelude.{
  ℕ, ◌+◌, ◌-◌, ◌*◌, ◌%◌, ◌^◌, Bool, ◌&&◌, ◌||◌, ltb, leb, ◌==◌, if◌then◌else◌, List, [], ◌∷◌, none,
  some, String, str_eq,
}
use kiroxy.Pool.{
  Account, HealthState, Policy, Pool, fresh_health, second, find_account, lookup_health, set_health,
  set_account, release_pins,
}

pub data FailureKind : Type 0 where
  transient quota : FailureKind

-- The duration `cool * mul` of an int64, added to `now`.
unfoldable pub add_scaled : ℕ → ℕ → ℕ → ℕ → ℕ
add_scaled now cool mul most =
    let d = cool * mul % 2 ^ 64 in
    if leb (2 ^ 63) d then now - (2 ^ 64 - d) else if ltb most d then now + most else now + d

-- The cooldown of a transient failure, the count of failures in a row included.
unfoldable pub transient_until : Policy → ℕ → ℕ → ℕ → ℕ
unfolding add_scaled
transient_until policy now consecutive until =
    let mul = consecutive - policy.consecutive_error_threshold + 1 in
    if leb policy.consecutive_error_threshold consecutive
    then add_scaled now policy.short_cooldown mul policy.max_cooldown
    else until

-- `headroom` says that the account may still spend on overages.
unfoldable pub failure_until : Policy → Bool → ℕ → FailureKind → ℕ → ℕ → ℕ
unfolding transient_until
failure_until policy headroom now quota consecutive until =
    now + (if headroom then 30 * second else policy.quota_cooldown)
failure_until policy headroom now transient consecutive until =
    transient_until policy now consecutive until

-- Whether the failure puts the account on a cooldown that it was not on.
unfoldable pub cooldown_just_applied : Policy → ℕ → FailureKind → ℕ → ℕ → Bool
cooldown_just_applied policy now quota consecutive until = leb until now
cooldown_just_applied policy now transient consecutive until =
    leb policy.consecutive_error_threshold consecutive && leb until now

abbrev pub health_of : String → Pool → HealthState
health_of i p = elim (lookup_health i p.health) [ none ↦ fresh_health | some h ↦ h ]

abbrev count_error : Account → Account
count_error a = record a { error_count = a.error_count + 1 }

unfoldable pub fail_account : (String → Bool) → ℕ → Account → FailureKind → String → Pool → Pool
fail_account headroom now a kind reason p =
    let h = health_of a.id p in
    let n = h.consecutive + 1 in
    let k : HealthState = record {
      consecutive = n;
      cooldown_until = failure_until p.policy (headroom a.id) now kind n h.cooldown_until;
      last_error = reason;
    } in
    let q = record p {
      accounts = set_account (count_error a) p.accounts;
      health = set_health a.id k p.health;
    } in
    if cooldown_just_applied p.policy now kind n h.cooldown_until then release_pins a.id q else q

-- `RecordFailure`; an account that the pool does not have is passed over.
unfoldable pub record_failure : (String → Bool) → ℕ → String → FailureKind → String → Pool → Pool
unfolding fail_account
record_failure headroom now i kind reason p = elim (find_account i p.accounts) [
  | none ↦ p
  | some a ↦ fail_account headroom now a kind reason p
]

-- A cooldown at once, until the time given, and no session is left on the account.
unfoldable pub break_account : Account → ℕ → String → Pool → Pool
break_account a until reason p =
    let h = health_of a.id p in
    release_pins a.id (record p {
      accounts = set_account (count_error a) p.accounts;
      health =
          set_health a.id
            (record {
              consecutive = h.consecutive + 1;
              cooldown_until = until;
              last_error = reason;
            })
            p.health;
    })

-- The window of the count of accounts that were refused.
abbrev pub oidc_window : ℕ
oidc_window = 300 * second

unfoldable pub count_401 : ℕ → Pool → Pool
count_401 now p =
    if p.consecutive401_first == 0 || ltb (p.consecutive401_first + oidc_window) now
    then record p { consecutive401 = 1; consecutive401_first = now }
    else record p { consecutive401 = p.consecutive401 + 1 }

-- `RecordUnauthorized`
unfoldable pub record_unauthorized : ℕ → String → String → Pool → Pool
unfolding break_account count_401
record_unauthorized now i reason p = elim (find_account i p.accounts) [
  | none ↦ p
  | some a ↦ count_401 now (break_account a (now + p.policy.max_cooldown) reason p)
]

-- `RecordStructuralError`
unfoldable pub record_structural_error : ℕ → String → String → Pool → Pool
unfolding break_account
record_structural_error now i reason p = elim (find_account i p.accounts) [
  | none ↦ p
  | some a ↦
      let banned =
        str_eq reason "suspicious_activity_ban" && ltb 0 p.policy.suspicious_ban_cooldown in
      break_account a
        (now + (if banned then p.policy.suspicious_ban_cooldown else p.policy.max_cooldown)) reason
        p
]

-- `RecordSuccess`
unfoldable pub record_success : String → Pool → Pool
record_success i p = elim (lookup_health i p.health) [
  | none ↦ p
  | some h ↦ record p { health = set_health i fresh_health p.health }
]

-- The cooldowns and errors that `ClearAllCooldowns` counts, and the health that it leaves.
unfoldable pub clear_health : ℕ → List (String × HealthState) → List (String × HealthState) × ℕ
clear_health now [] = ([], 0)
clear_health now ((i, h) ∷ hs) =
    let (rest, n) = clear_health now hs in
    ((i, fresh_health) ∷ rest, if ltb now h.cooldown_until || ltb 0 h.consecutive then n + 1 else n)

unfoldable pub clear_all_cooldowns : ℕ → Pool → Pool × ℕ
unfolding clear_health
clear_all_cooldowns now p = let (hs, n) = clear_health now p.health in (record p { health = hs }, n)

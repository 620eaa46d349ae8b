-- ===== src/Pool/Cooldowns.antt =====
-- internal/pool/pool.go: how long an account is out, and that it is.
use kiroxy.Prelude.{
  ℕ, ◌+◌, ◌-◌, ◌*◌, max, ◌≤◌, ◌<◌, ◌≡◌, ◌≢◌, inl, inr, refl, sym, ◌∙◌, subst, Bool, true, false,
  if◌then◌else◌, List, [], ◌∷◌, none, some, Option-cases, Bool-cases, String, str_eq, eq_iff, arith,
  some_inj,
}
use kiroxy.Pool.{
  Account, HealthState, Policy, Pool, second, find_account, lookup_health, set_health, release_pins,
  is_cool,
}
use kiroxy.Pool.Failures.{
  FailureKind, add_scaled, transient_until, failure_until, record_failure, record_unauthorized,
  fail_account, break_account, count_401, health_of, clear_all_cooldowns, clear_health,
}
use kiroxy.Pool.Stickiness.{Pin, live_pin, release}
use kiroxy.Pool.Stickiness.Pins.{release-live_pin}

add_scaled-le : (now cool mul most : ℕ) → add_scaled now cool mul most ≤ now + most
unfolding add_scaled
add_scaled-le now cool mul most = ground arith

-- A failure keeps an account out no longer than the longest of the cooldowns, or than it was out.
pub failure_until-le :
    (policy : Policy) (headroom : Bool) (now : ℕ) (kind : FailureKind) (consecutive until : ℕ)
    → failure_until policy headroom now kind consecutive until
      ≤ max until (now + max (30 * second) (max policy.quota_cooldown policy.max_cooldown))
unfolding failure_until transient_until
failure_until-le policy headroom now FailureKind.quota n until = ground arith
failure_until-le policy headroom now FailureKind.transient n until = ground (
  arith,
  add_scaled-le now policy.short_cooldown (n - policy.consecutive_error_threshold + 1)
      policy.max_cooldown,
)

lookup_health-set_health :
    (i : String) (h : HealthState) (hs : List (String × HealthState))
    → lookup_health i (set_health i h hs) ≡ some h
unfolding lookup_health set_health
lookup_health-set_health i h [] = ground (arith, eq_iff i i)
lookup_health-set_health i h ((j, k) ∷ hs) =
    ground (arith, eq_iff j i, lookup_health-set_health i h hs)

-- The pins of the tracker, if there is one.
unfoldable pub pins_of : Pool → List Pin
pins_of p = elim p.pins [ none ↦ [] | some ps ↦ ps ]

-- At the time given, the account is on a cooldown, and the session is not pinned to it.
unfoldable pub Out : ℕ → String → String → Pool → Type 0
Out t i s p = (is_cool t p.health i ≡ false) × (live_pin t s (pins_of p) ≢ some i)

release_pins-live_pin :
    (t : ℕ) (i s : String) (p : Pool) → i ≢ "" → live_pin t s (pins_of (release_pins i p)) ≢ some i
unfolding pins_of release_pins
release_pins-live_pin t i s p named h = elim (Option-cases p.pins) [
  | inl f ↦ release-live_pin t s i [] named (unfold release in rw (f) at h)
  | inr (ps, f) ↦ release-live_pin t s i ps named (rw (f) at h)
]

pub find_account-id :
    (i : String) (xs : List Account) (a : Account) → find_account i xs ≡ some a → a.id ≡ i
unfolding find_account
find_account-id i [] a h = cc
find_account-id i (x ∷ xs) a h = elim (Bool-cases (str_eq x.id i)) [
  | inl e ↦ subst (λ c. c.id ≡ i) (some_inj (rw (e) at h)) ((eq_iff x.id i).0 e)
  | inr e ↦ find_account-id i xs a (rw (e) at h)
]

break_account-Out :
    (a : Account) (t until : ℕ) (reason s : String) (p : Pool)
    → a.id ≢ ""
    → t < until
    → Out t a.id s (break_account a until reason p)
unfolding Out break_account is_cool release_pins
break_account-Out a t until reason s p named h =
    let k : HealthState = record {
      consecutive = (health_of a.id p).consecutive + 1;
      cooldown_until = until;
      last_error = reason;
    } in
    (
      ground (arith, h, lookup_health-set_health a.id k p.health),
      release_pins-live_pin t a.id s _ named,
    )

Out-if :
    (b : Bool) (t : ℕ) (i s : String) (u v : Pool)
    → Out t i s u
    → Out t i s v
    → Out t i s (if b then u else v)
Out-if true t i s u v h k = h
Out-if false t i s u v h k = k

count_401-Out : (now t : ℕ) (i s : String) (p : Pool) → Out t i s p → Out t i s (count_401 now p)
unfolding count_401 Out pins_of
count_401-Out now t i s p h =
    Out-if _ t i s (record p { consecutive401 = 1; consecutive401_first = now })
      (record p { consecutive401 = p.consecutive401 + 1 }) h h

pub found-Out :
    (t until : ℕ) (i reason s : String) (p : Pool) (a : Account)
    → i ≢ ""
    → find_account i p.accounts ≡ some a
    → t < until
    → Out t i s (break_account a until reason p)
found-Out t until i reason s p a named h k =
    let e = find_account-id i p.accounts a h in
    subst (λ j. Out t j s (break_account a until reason p)) e
      (break_account-Out a t until reason s p (λ f. named (sym e ∙ f)) k)

-- An account of the pool that was refused, and has a name, is out for the longest cooldown from
-- now on: at every time before its end the account is on cooldown, and no session is pinned to it.
pub record_unauthorized-Out :
    (now t : ℕ) (i reason s : String) (p : Pool) (a : Account)
    → i ≢ ""
    → find_account i p.accounts ≡ some a
    → t < now + p.policy.max_cooldown
    → Out t i s (record_unauthorized now i reason p)
unfolding record_unauthorized
record_unauthorized-Out now t i reason s p a named h k =
    rw (record_unauthorized, h)
      (count_401-Out now t i s _
        (found-Out t (now + p.policy.max_cooldown) i reason s p a named h k))

clear_health-is_cool :
    (now t : ℕ) (i : String) (hs : List (String × HealthState))
    → is_cool t ((clear_health now hs).0) i ≡ true
unfolding clear_health is_cool lookup_health
clear_health-is_cool now t i [] = refl
clear_health-is_cool now t i ((j, h) ∷ hs) =
    ground (arith, eq_iff j i, clear_health-is_cool now t i hs)

-- After the operator's reset no account of the pool is on a cooldown, at any time.
pub clear_all_cooldowns-is_cool :
    (now t : ℕ) (i : String) (p : Pool) → is_cool t ((clear_all_cooldowns now p).0).health i ≡ true
unfolding clear_all_cooldowns
clear_all_cooldowns-is_cool now t i p = clear_health-is_cool now t i p.health

fail_account-cooldown_until :
    (headroom : String → Bool) (now : ℕ) (a : Account) (kind : FailureKind) (reason : String)
    (p : Pool)
    → let h = health_of a.id p in
      lookup_health a.id (fail_account headroom now a kind reason p).health
      ≡ some (record {
        consecutive = h.consecutive + 1;
        cooldown_until =
            failure_until p.policy (headroom a.id) now kind (h.consecutive + 1) h.cooldown_until;
        last_error = reason;
      })
unfolding fail_account release_pins
fail_account-cooldown_until headroom now a kind reason p =
    let h = health_of a.id p in
    let k : HealthState = record {
      consecutive = h.consecutive + 1;
      cooldown_until =
          failure_until p.policy (headroom a.id) now kind (h.consecutive + 1) h.cooldown_until;
      last_error = reason;
    } in
    ground (arith, lookup_health-set_health a.id k p.health)

-- A quota failure of an account of the pool with overage headroom leaves a cooldown of 30 seconds
-- at most, whatever cooldown it was on.
record_failure_shortens :
    (headroom : String → Bool) (now : ℕ) (i reason : String) (p : Pool) (a : Account)
    → find_account i p.accounts ≡ some a
    → headroom i ≡ true
    → is_cool
        (now + 30 * second)
        (record_failure headroom now i FailureKind.quota reason p).health
        i
      ≡ true
unfolding record_failure is_cool failure_until
record_failure_shortens headroom now i reason p a h k =
    let e = find_account-id i p.accounts a h in
    ground (
      arith,
      h,
      k,
      e,
      eq_iff a.id i,
      fail_account-cooldown_until headroom now a FailureKind.quota reason p,
    )

-- ===== src/Pool/Tests.antt =====
-- Runs of the pool of internal/pool on two accounts, and the theorems at them.
use kiroxy.Prelude.{
  ℕ, ◌+◌, ◌*◌, max, ◌≤◌, refl, true, false, List, [], ◌∷◌, Option, some, String, select, arith,
}
use kiroxy.Pool.{
  Account, Pool, default_policy, fresh_health, second, find_account, lookup_health, set_account,
  decay, is_cool,
}
use kiroxy.Pool.Stickiness.{Pin, pick_pin, live_pin, find_pin}
use kiroxy.Pool.Failures.{FailureKind, failure_until, record_unauthorized}
use kiroxy.Pool.Cooldowns.{Out, failure_until-le, record_unauthorized-Out}
use kiroxy.Pool.Selection.{pick}
use kiroxy.Pool.Selection.Usable.{Usable, pick-Usable}

abbrev account : String → ℕ → Account
account i t = record {
  id = i;
  label = i;
  provider = "kiro";
  region = "us-east-1";
  enabled = true;
  last_used = t;
  request_count = 0;
  error_count = 0;
}

abbrev pins : List Pin
pins =
    record { session = "s"; account = "b"; expires = 100 * second }
    ∷ record { session = "t"; account = "a"; expires = 5 * second }
    ∷ []

-- `a` was used 20 seconds after the zero time, `b` 10.
abbrev two : Pool
two = record {
  accounts = account "a" (20 * second) ∷ account "b" (10 * second) ∷ [];
  health = ("a", fresh_health) ∷ ("b", fresh_health) ∷ [];
  policy = default_policy;
  pins = some pins;
  ttl = 60 * second;
  consecutive401 = 0;
  consecutive401_first = 0;
}

abbrev token : String → String → Option String
token p i = some i

abbrev weight : Account → ℕ
weight a = 100

abbrev draw : ℕ → ℕ
draw n = 0

abbrev now : ℕ
now = 50 * second

pick-Usable_example : Usable now two (account "b" (10 * second))
unfolding pick find_account live_pin pick_pin find_pin lookup_health is_cool decay set_account
    select default_policy
pick-Usable_example =
    pick-Usable weight 1 draw token now "s" two (account "b" (10 * second)) "b" refl

failure_until-le_example :
    failure_until default_policy false now FailureKind.transient 4 0
    ≤ max 0
        (now + max (30 * second) (max default_policy.quota_cooldown default_policy.max_cooldown))
failure_until-le_example = failure_until-le default_policy false now FailureKind.transient 4 0

record_unauthorized-Out_example :
    Out (60 * second) "b" "s" (record_unauthorized now "b" "revoked" two)
unfolding find_account default_policy
record_unauthorized-Out_example =
    record_unauthorized-Out now (60 * second) "b" "revoked" "s" two (account "b" (10 * second))
      (λ e. cc) refl (omega arith)

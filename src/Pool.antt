-- ===== src/Pool.antt =====
-- internal/pool/pool.go: the pool of upstream accounts, their cooldowns and the choice of one. Times are
-- nanoseconds since Go's zero time, which is 0; a map is a list in the order in which it is ranged over.
pub mod Stickiness
pub mod Failures
pub mod Selection
pub mod Cooldowns
pub mod Reports
mod Tests
use kiroxy.Prelude.{
  ℕ, ◌+◌, ◌-◌, ◌*◌, ◌%◌, ◌^◌, Bool, true, false, not, ◌&&◌, ◌||◌, ltb, leb, ◌==◌, if◌then◌else◌,
  List, [], ◌∷◌, ◌++◌, Option, none, some, map, String, str_eq, select, length,
}
use kiroxy.Pool.Stickiness.{Pin, pick_pin, release}

pub record Account : Type 0 where
  pub id : String
  pub label : String
  pub provider : String
  pub region : String
  pub enabled : Bool
  pub last_used : ℕ
  pub request_count : ℕ
  pub error_count : ℕ

pub record HealthState : Type 0 where
  pub consecutive : ℕ
  pub cooldown_until : ℕ
  pub last_error : String

pub record Policy : Type 0 where
  pub consecutive_error_threshold : ℕ
  pub short_cooldown : ℕ
  pub quota_cooldown : ℕ
  pub max_cooldown : ℕ
  pub min_rest_period : ℕ
  pub suspicious_ban_cooldown : ℕ

abbrev pub second : ℕ
second = 1000000000

-- `DefaultPolicy`
unfoldable pub default_policy : Policy
default_policy = record {
  consecutive_error_threshold = 3;
  short_cooldown = 60 * second;
  quota_cooldown = 3600 * second;
  max_cooldown = 7200 * second;
  min_rest_period = 5 * second;
  suspicious_ban_cooldown = 900 * second;
}

abbrev pub fresh_health : HealthState
fresh_health = record { consecutive = 0; cooldown_until = 0; last_error = "" }

-- `pins` is none without a stickiness tracker.
pub record Pool : Type 0 where
  pub accounts : List Account
  pub health : List (String × HealthState)
  pub policy : Policy
  pub pins : Option (List Pin)
  pub ttl : ℕ
  pub consecutive401 : ℕ
  pub consecutive401_first : ℕ

unfoldable pub find_account : String → List Account → Option Account
find_account i [] = none
find_account i (a ∷ xs) = if str_eq a.id i then some a else find_account i xs

unfoldable pub lookup_health : String → List (String × HealthState) → Option HealthState
lookup_health i [] = none
lookup_health i ((j, h) ∷ hs) = if str_eq j i then some h else lookup_health i hs

unfoldable pub set_health :
    String → HealthState → List (String × HealthState) → List (String × HealthState)
set_health i h [] = (i, h) ∷ []
set_health i h ((j, k) ∷ hs) =
    let rest = set_health i h hs in if str_eq j i then (j, h) ∷ hs else (j, k) ∷ rest

unfoldable pub without_account : String → List Account → List Account
without_account i [] = []
without_account i (a ∷ xs) =
    let rest = without_account i xs in if str_eq a.id i then rest else a ∷ rest

unfoldable pub without_health : String → List (String × HealthState) → List (String × HealthState)
without_health i [] = []
without_health i ((j, h) ∷ hs) =
    let rest = without_health i hs in if str_eq j i then rest else (j, h) ∷ rest

-- An account changed in place.
unfoldable pub set_account : Account → List Account → List Account
set_account b [] = b ∷ []
set_account b (a ∷ xs) =
    let rest = set_account b xs in if str_eq a.id b.id then b ∷ xs else a ∷ rest

unfoldable pub add : Account → Pool → Pool
unfolding set_account set_health
add a p = record p {
  accounts = set_account a p.accounts;
  health = set_health a.id fresh_health p.health;
}

-- `Release`, where there is a tracker.
unfoldable pub release_pins : String → Pool → Pool
unfolding release
release_pins i p = record p { pins = elim p.pins [ none ↦ none | some s ↦ some (release i s) ] }

unfoldable pub remove : String → Pool → Pool
unfolding without_account without_health release_pins
remove i p =
    release_pins i
      (record p { accounts = without_account i p.accounts; health = without_health i p.health })

-- The cooldowns that have run out are forgotten, with the errors that led to them.
unfoldable pub decay_health : ℕ → HealthState → HealthState
decay_health now h =
    if not (h.cooldown_until == 0) && ltb h.cooldown_until now && ltb 0 h.consecutive
    then fresh_health
    else h

unfoldable pub decay : ℕ → List (String × HealthState) → List (String × HealthState)
unfolding decay_health
decay now [] = []
decay now ((i, h) ∷ hs) = (i, decay_health now h) ∷ decay now hs

-- No cooldown is running.
unfoldable pub is_cool : ℕ → List (String × HealthState) → String → Bool
is_cool now hs i = elim (lookup_health i hs) [ none ↦ true | some h ↦ leb h.cooldown_until now ]

-- The accounts that both selections range over.
unfoldable pub is_candidate : ℕ → Pool → Account → Bool
unfolding is_cool
is_candidate now p a =
    a.enabled
    && is_cool now p.health a.id
    && (p.policy.min_rest_period == 0 || leb (a.last_used + p.policy.min_rest_period) now)

-- The least recently used of the accounts, the first of those used at the same time.
unfoldable pub oldest : Option Account → List Account → Option Account
oldest best [] = best
oldest none (a ∷ xs) = oldest (some a) xs
oldest (some b) (a ∷ xs) = oldest (some (if ltb a.last_used b.last_used then a else b)) xs

unfoldable pub select_lru : ℕ → Pool → Option Account
unfolding is_candidate oldest
select_lru now p = oldest none (select (is_candidate now p) p.accounts)

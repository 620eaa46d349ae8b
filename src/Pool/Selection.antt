-- ===== src/Pool/Selection.antt =====
-- internal/pool/pool.go: `Pick`.
pub mod Usable
use kiroxy.Prelude.{
  ℕ, ◌+◌, ◌-◌, ◌*◌, Bool, true, false, not, ◌&&◌, ◌||◌, ltb, leb, ◌==◌, if◌then◌else◌, List, [],
  ◌∷◌, Option, none, some, String, str_eq, select,
}
use kiroxy.Pool.{
  Account, HealthState, Policy, Pool, find_account, set_account, release_pins, decay, is_cool,
  is_candidate, oldest, select_lru,
}
use kiroxy.Pool.Stickiness.{Pin, pick_pin}

-- The sum of the weights.
unfoldable pub total : (Account → ℕ) → List Account → ℕ
total weight [] = 0
total weight (a ∷ xs) = weight a + total weight xs

-- No account weighs more than twice the floor.
unfoldable pub degenerate : (Account → ℕ) → ℕ → List Account → Bool
degenerate weight floor [] = true
degenerate weight floor (a ∷ xs) = leb (weight a) (floor * 2) && degenerate weight floor xs

-- The account at which the weights reach the target, or the last.
unfoldable pub spin : (Account → ℕ) → ℕ → List Account → Option Account
spin weight target [] = none
spin weight target (a ∷ []) = some a
spin weight target (a ∷ b ∷ xs) =
    let rest = spin weight (target - weight a) (b ∷ xs) in
    if leb target (weight a) then some a else rest

-- `weight` and `floor` are the float64 weights of the accounts' health as multiples of a unit, and `draw`
-- is `rng.Float64()` times the sum that it gets.
module _ (weight : Account → ℕ) (floor : ℕ) (draw : ℕ → ℕ) where
  unfoldable pub select_weighted : ℕ → Pool → Option Account
  unfolding is_candidate total degenerate spin oldest
  select_weighted now p =
      let cands = select (is_candidate now p) p.accounts in
      if degenerate weight floor cands
      then oldest none cands
      else spin weight (draw (total weight cands)) cands

  -- The pinned account, if the pool may still use it.
  unfoldable pub usable_pinned : ℕ → Pool → String → Option Account
  unfolding is_cool
  usable_pinned now p i = elim (find_account i p.accounts) [
    | none ↦ none
    | some a ↦ if a.enabled && is_cool now p.health i then some a else none
  ]

  -- An account without a name is no account.
  unfoldable pub account_id : Option Account → Option String
  account_id none = none
  account_id (some a) = if str_eq a.id "" then none else some a.id

  -- The account of a session: its pin, or a fresh choice once the pin is dropped.
  unfoldable pub select_pinned : ℕ → Pool → Option String → Pool × Option Account
  unfolding usable_pinned select_lru release_pins
  select_pinned now p none = (p, none)
  select_pinned now p (some i) = elim (usable_pinned now p i) [
    | some a ↦ (p, some a)
    | none ↦ (release_pins i p, select_lru now p)
  ]

  unfoldable pub select_sticky : ℕ → Pool → List Pin → String → Pool × Option Account
  unfolding select_pinned pick_pin select_lru account_id
  select_sticky now p pins session =
      let (qs, pinned) = pick_pin now p.ttl session (account_id (select_lru now p)) pins in
      select_pinned now (record p { pins = some qs }) pinned

  -- The account chosen; an empty session is none.
  unfoldable pub select_account : ℕ → String → Pool → Pool × Option Account
  unfolding select_sticky select_weighted
  select_account now session p = elim p.pins [
    | none ↦ (p, select_weighted now p)
    | some pins ↦
        let sticky = select_sticky now p pins session in
        if str_eq session "" then (p, select_weighted now p) else sticky
  ]

  -- `Pick`: the account and its token. `token` is the vault's answer for a provider and an account.
  unfoldable pub pick :
      (String → String → Option String) → ℕ → String → Pool → Pool × Option (Account × String)
  unfolding select_account decay
  pick token now session p =
      let (q, best) = select_account now session (record p { health = decay now p.health }) in
      elim best [
        | none ↦ (q, none)
        | some a ↦ elim (token a.provider a.id) [
          | none ↦ (q, none)
          | some t ↦
              let b : Account = record a { last_used = now; request_count = a.request_count + 1 } in
              (record q { accounts = set_account b q.accounts }, some (a, t))
        ]
      ]

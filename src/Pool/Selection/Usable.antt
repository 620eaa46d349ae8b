-- ===== src/Pool/Selection/Usable.antt =====
-- internal/pool/pool.go: `Pick` hands out an account that is usable, the least recently used where it
-- goes by that.
use kiroxy.Prelude.{
  ℕ, ◌-◌, ◌≤◌, ◌≡◌, inl, inr, refl, sym, subst, ◌∙◌, Bool, true, false, ◌&&◌, ltb, leb,
  if◌then◌else◌, List, [], ◌∷◌, Option, none, some, some_inj, Option-cases, Bool-cases, String,
  str_eq, select, All, arith,
}
use kiroxy.Pool.{
  HealthState, lookup_health, decay_health, Account, Pool, find_account, decay, is_cool,
  is_candidate, oldest, select_lru,
}
use kiroxy.Pool.Cooldowns.{find_account-id}
use kiroxy.Pool.Stickiness.{Pin, pick_pin}
use kiroxy.Pool.Selection.{
  spin, select_weighted, usable_pinned, select_pinned, select_sticky, select_account, pick,
  degenerate, account_id, total,
}

oldest-All :
    (Q : Account → Type 0) (best : Option Account) (xs : List Account) (a : Account)
    → ((b : Account) → best ≡ some b → Q b)
    → All Q xs
    → oldest best xs ≡ some a
    → Q a
unfolding oldest
oldest-All Q best [] a hb hx h = hb a h
oldest-All Q none (x ∷ xs) a hb hx h =
    oldest-All Q (some x) xs a (λ b e. subst Q (some_inj e) hx.0) hx.1 h
oldest-All Q (some y) (x ∷ xs) a hb hx h =
    oldest-All Q (some (if ltb x.last_used y.last_used then x else y)) xs a
      (λ b e. subst Q (some_inj e) (either (ltb x.last_used y.last_used))) hx.1 h
  where
    either : (c : Bool) → Q (if c then x else y)
    either true = hx.0
    either false = hb y refl

oldest-le :
    (b : Account) (xs : List Account) (a : Account)
    → oldest (some b) xs ≡ some a
    → (a.last_used ≤ b.last_used) × All (λ c. a.last_used ≤ c.last_used) xs
unfolding oldest
oldest-le b [] a h = (subst (λ c. c.last_used ≤ b.last_used) (some_inj h) (omega arith), _)
oldest-le b (x ∷ xs) a h = elim (Bool-cases (ltb x.last_used b.last_used)) [
  | inl e ↦ ground (arith, e, h, oldest-le x xs a)
  | inr e ↦ ground (arith, e, h, oldest-le b xs a)
]

select-All : (q : Account → Bool) (xs : List Account) → All (λ a. q a ≡ true) (select q xs)
unfolding select
select-All q [] = _
select-All q (x ∷ xs) = elim (Bool-cases (q x)) [
  | inl e ↦ rw (e, select) (e, select-All q xs)
  | inr e ↦ rw (e, select) (select-All q xs)
]

spin-All :
    (Q : Account → Type 0) (weight : Account → ℕ) (target : ℕ) (xs : List Account) (a : Account)
    → All Q xs
    → spin weight target xs ≡ some a
    → Q a
unfolding spin
spin-All Q weight target [] a hx h = cc
spin-All Q weight target (x ∷ []) a hx h = subst Q (some_inj h) hx.0
spin-All Q weight target (x ∷ y ∷ xs) a hx h = elim (Bool-cases (leb target (weight x))) [
  | inl e ↦ subst Q (some_inj (rw (e) at h)) hx.0
  | inr e ↦ spin-All Q weight (target - weight x) (y ∷ xs) a hx.1 (rw (e) at h)
]

-- An account that `Pick` may hand out.
unfoldable pub Usable : ℕ → Pool → Account → Type 0
Usable now p a = (a.enabled ≡ true) × (is_cool now p.health a.id ≡ true)

-- What decay forgets is no running cooldown.
decay-is_cool :
    (now : ℕ) (hs : List (String × HealthState)) (i : String)
    → is_cool now (decay now hs) i ≡ true
    → is_cool now hs i ≡ true
unfolding is_cool decay decay_health lookup_health
decay-is_cool now [] i h = refl
decay-is_cool now ((j, x) ∷ hs) i h = ground (arith, h, decay-is_cool now hs i)

decay-Usable :
    (now : ℕ) (p : Pool) (a : Account)
    → Usable now (record p { health = decay now p.health }) a
    → Usable now p a
unfolding Usable
decay-Usable now p a (h, k) = (h, decay-is_cool now p.health a.id k)

candidates-Usable :
    (now : ℕ) (p : Pool) (xs : List Account) → All (Usable now p) (select (is_candidate now p) xs)
unfolding select Usable is_candidate
candidates-Usable now p [] = _
candidates-Usable now p (x ∷ xs) = elim (Bool-cases (is_candidate now p x)) [
  | inl e ↦ rw (e, select) (ground (arith, e), candidates-Usable now p xs)
  | inr e ↦ rw (e, select) (candidates-Usable now p xs)
]

select_lru-Usable : (now : ℕ) (p : Pool) (a : Account) → select_lru now p ≡ some a → Usable now p a
unfolding select_lru
select_lru-Usable now p a h =
    oldest-All (Usable now p) none (select (is_candidate now p) p.accounts) a (λ b e. cc)
      (candidates-Usable now p p.accounts) h

oldest-none-le :
    (xs : List Account) (a : Account)
    → oldest none xs ≡ some a
    → All (λ c. a.last_used ≤ c.last_used) xs
unfolding oldest
oldest-none-le [] a e = _
oldest-none-le (x ∷ xs) a e = oldest-le x xs a e

-- The account that is least recently used is chosen: none that could be chosen was used before it.
pub select_lru-le :
    (now : ℕ) (p : Pool) (a : Account)
    → select_lru now p ≡ some a
    → All (λ c. a.last_used ≤ c.last_used) (select (is_candidate now p) p.accounts)
unfolding select_lru
select_lru-le now p a h = oldest-none-le (select (is_candidate now p) p.accounts) a h

module _ (weight : Account → ℕ) (floor : ℕ) (draw : ℕ → ℕ) where
  select_weighted-Usable :
      (now : ℕ) (p : Pool) (a : Account)
      → select_weighted weight floor draw now p ≡ some a
      → Usable now p a
  unfolding select_weighted
  select_weighted-Usable now p a h =
      let cands = select (is_candidate now p) p.accounts in
      elim (Bool-cases (degenerate weight floor cands)) [
        | inl e ↦
            oldest-All (Usable now p) none cands a (λ b f. cc) (candidates-Usable now p p.accounts)
              (rw (e) at h)
        | inr e ↦
            spin-All (Usable now p) weight (draw (total weight cands)) cands a
              (candidates-Usable now p p.accounts) (rw (e) at h)
      ]

  Usable-at :
      (now : ℕ) (p : Pool) (i : String) (b : Account)
      → b.id ≡ i
      → (b.enabled && is_cool now p.health i) ≡ true
      → Usable now p b
  unfolding Usable
  Usable-at now p i b e f =
      let cool : is_cool now p.health i ≡ true = ground (arith, f) in
      (ground (arith, f), subst (λ j. is_cool now p.health j ≡ true) (sym e) cool)

  usable_pinned-Usable :
      (now : ℕ) (p : Pool) (i : String) (a : Account)
      → usable_pinned weight floor draw now p i ≡ some a
      → Usable now p a
  unfolding usable_pinned
  usable_pinned-Usable now p i a h = elim (Option-cases (find_account i p.accounts)) [
    | inl e ↦ cc (rw (usable_pinned, e) at h)
    | inr (b, e) ↦ elim (Bool-cases (b.enabled && is_cool now p.health i)) [
      | inl f ↦
          subst (Usable now p) (some_inj (rw (e, usable_pinned, f) at h))
            (Usable-at now p i b (find_account-id i p.accounts b e) f)
      | inr f ↦ cc (rw (e, usable_pinned, f) at h)
    ]
  ]

  select_pinned-Usable :
      (now : ℕ) (p : Pool) (o : Option String) (a : Account)
      → (select_pinned weight floor draw now p o).1 ≡ some a
      → Usable now p a
  unfolding select_pinned
  select_pinned-Usable now p none a h = cc
  select_pinned-Usable now p (some i) a h =
      elim (Option-cases (usable_pinned weight floor draw now p i)) [
        | inl e ↦ select_lru-Usable now p a (rw (e, select_pinned) at h)
        | inr (b, e) ↦ usable_pinned-Usable now p i a (e ∙ (rw (e, select_pinned) at h))
      ]

  select_sticky-Usable :
      (now : ℕ) (p : Pool) (pins : List Pin) (session : String) (a : Account)
      → (select_sticky weight floor draw now p pins session).1 ≡ some a
      → Usable now p a
  unfolding select_sticky Usable
  select_sticky-Usable now p pins session a h =
      let q = pick_pin now p.ttl session (account_id weight floor draw (select_lru now p)) pins in
      select_pinned-Usable now (record p { pins = some (q.0) }) (q.1) a h

  Usable-if :
      (now : ℕ) (p : Pool) (a : Account) (b : Bool) (u v : Pool × Option Account)
      → (u.1 ≡ some a → Usable now p a)
      → (v.1 ≡ some a → Usable now p a)
      → (if b then u else v).1 ≡ some a
      → Usable now p a
  Usable-if now p a true u v h k e = h e
  Usable-if now p a false u v h k e = k e

  select_account-Usable :
      (now : ℕ) (session : String) (p : Pool) (a : Account)
      → (select_account weight floor draw now session p).1 ≡ some a
      → Usable now p a
  unfolding select_account
  select_account-Usable now session p a h = elim (Option-cases p.pins) [
    | inl e ↦ select_weighted-Usable now p a (rw (e, select_account) at h)
    | inr (pins, e) ↦
        Usable-if now p a (str_eq session "") (p, select_weighted weight floor draw now p) _
          (select_weighted-Usable now p a) (select_sticky-Usable now p pins session a)
          (rw (e, select_account) at h)
  ]

  -- The account that Pick hands out is enabled, and by the health that the pool had before on no
  -- cooldown, by whichever rule it is chosen.
  pub pick-Usable :
      (token : String → String → Option String) (now : ℕ) (session : String) (p : Pool)
      (a : Account) (t : String)
      → (pick weight floor draw token now session p).1 ≡ some (a, t)
      → Usable now p a
  unfolding pick
  pick-Usable token now session p a t h =
      let q : Pool = record p { health = decay now p.health } in
      let s = select_account weight floor draw now session q in
      elim (Option-cases (s.1)) [
        | inl e ↦ cc (rw (pick, e) at h)
        | inr (b, e) ↦ elim (Option-cases (token b.provider b.id)) [
          | inl f ↦ cc (rw (pick, e, f) at h)
          | inr (u, f) ↦
              let k : some (b, u) ≡ some (a, t) = (rw (pick, e, f) at h) in
              decay-Usable now p a (
                subst (λ c. Usable now q c.0) (some_inj k)
                  (select_account-Usable now session q b e))
        ]
      ]

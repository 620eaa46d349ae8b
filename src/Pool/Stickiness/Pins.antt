-- ===== src/Pool/Stickiness/Pins.antt =====
-- internal/pool/stickiness.go: what a pin promises.
use kiroxy.Prelude.{
  ℕ, ◌+◌, ◌≤◌, ◌<◌, ◌≡◌, ◌≢◌, inl, inr, refl, List, [], ◌∷◌, Option, none, some, Option-cases,
  String, eq_iff, arith,
}
use kiroxy.Pool.Stickiness.{Pin, find_pin, set_pin, live_pin, pick_pin, release, prune}

find_pin-set_pin : (q : Pin) (ps : List Pin) → find_pin q.session (set_pin q ps) ≡ some q
unfolding find_pin set_pin
find_pin-set_pin q [] = ground (arith, eq_iff q.session q.session)
find_pin-set_pin q (p ∷ ps) =
    ground (arith, eq_iff q.session q.session, eq_iff p.session q.session, find_pin-set_pin q ps)

-- If pins last at all, a second pick for a named session at the same time finds the account of the
-- first, whatever its own fallback would pick.
pick_pin-repeat :
    (now ttl : ℕ) (s : String) (fallback other : Option String) (ps qs : List Pin) (a : String)
    → s ≢ ""
    → 0 < ttl
    → pick_pin now ttl s fallback ps ≡ (qs, some a)
    → pick_pin now ttl s other qs ≡ (qs, some a)
unfolding pick_pin live_pin
pick_pin-repeat now ttl s fallback other ps qs a named positive h =
    elim (Option-cases (live_pin now s ps)) [
      | inr (b, e) ↦ ground (arith, eq_iff s "", e, h)
      | inl e ↦ elim (Option-cases fallback) [
        | inl f ↦ ground (arith, eq_iff s "", e, f, h)
        | inr (b, f) ↦ ground (
          arith,
          eq_iff s "",
          e,
          f,
          h,
          find_pin-set_pin (record { session = s; account = b; expires = now + ttl }) ps,
        )
      ]
    ]

-- Once an account with a name is released, no session is pinned to it.
pub release-live_pin :
    (now : ℕ) (s a : String) (ps : List Pin) → a ≢ "" → live_pin now s (release a ps) ≢ some a
unfolding live_pin release find_pin
release-live_pin now s a [] h = cc
release-live_pin now s a (p ∷ ps) h =
    ground
      (arith, eq_iff a "", eq_iff p.account a, eq_iff p.session s, release-live_pin now s a ps h)

-- No two pins are of one session.
unfoldable pub OnePinEach : List Pin → Type 0
OnePinEach [] = Unit
OnePinEach (p ∷ ps) = (find_pin p.session ps ≡ none) × OnePinEach ps

find_pin-prune :
    (now : ℕ) (s : String) (ps : List Pin) → find_pin s ps ≡ none → find_pin s (prune now ps) ≡ none
unfolding find_pin prune
find_pin-prune now s [] h = refl
find_pin-prune now s (p ∷ ps) h = ground (arith, find_pin-prune now s ps)

-- Pruning a map with one pin for each session changes no pin that lasts, then or later.
live_pin-prune :
    (now later : ℕ) (s : String) (ps : List Pin)
    → OnePinEach ps
    → now ≤ later
    → live_pin later s (prune now ps) ≡ live_pin later s ps
unfolding live_pin find_pin prune OnePinEach
live_pin-prune now later s [] h k = refl
live_pin-prune now later s (p ∷ ps) h k = ground (
  arith,
  eq_iff p.session s,
  find_pin-prune now p.session ps,
  live_pin-prune now later s ps h.1 k,
)

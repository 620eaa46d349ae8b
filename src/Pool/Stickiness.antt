-- ===== src/Pool/Stickiness.antt =====
-- internal/pool/stickiness.go: session pins, in the order in which the map is ranged over. A lock is
-- held over each step; the time is an argument.
pub mod Pins
use kiroxy.Prelude.{
  ℕ, ◌+◌, Bool, true, false, not, ◌&&◌, ltb, leb, if◌then◌else◌, List, [], ◌∷◌, Option, none, some,
  String, str_eq,
}

pub record Pin : Type 0 where
  pub session : String
  pub account : String
  pub expires : ℕ

unfoldable pub find_pin : String → List Pin → Option Pin
find_pin s [] = none
find_pin s (p ∷ ps) = if str_eq p.session s then some p else find_pin s ps

unfoldable pub set_pin : Pin → List Pin → List Pin
set_pin q [] = q ∷ []
set_pin q (p ∷ ps) =
    let rest = set_pin q ps in if str_eq p.session q.session then q ∷ ps else p ∷ rest

-- The account of a session's pin, while it lasts.
unfoldable pub live_pin : ℕ → String → List Pin → Option String
live_pin now s ps = elim (find_pin s ps) [
  | none ↦ none
  | some p ↦ if ltb now p.expires then some p.account else none
]

-- `Pick` up to the fallback: a pin that lasts, or the account that the fallback picks, pinned. A
-- session without a name is never pinned; an empty account is no account.
unfoldable pub pick_pin : ℕ → ℕ → String → Option String → List Pin → List Pin × Option String
pick_pin now ttl s fallback ps = if str_eq s "" then (ps, fallback) else elim (live_pin now s ps) [
  | some a ↦ (ps, some a)
  | none ↦ elim fallback [
    | none ↦ (ps, none)
    | some a ↦ (set_pin (record { session = s; account = a; expires = now + ttl }) ps, some a)
  ]
]

-- `Release`
unfoldable pub release : String → List Pin → List Pin
release a [] = []
release a (p ∷ ps) =
    let rest = release a ps in if not (str_eq a "") && str_eq p.account a then rest else p ∷ rest

-- `prune`
unfoldable pub prune : ℕ → List Pin → List Pin
prune now [] = []
prune now (p ∷ ps) = let rest = prune now ps in if ltb now p.expires then p ∷ rest else rest

-- `Snapshot`: the sessions and accounts of the pins that last.
unfoldable pub snapshot : ℕ → List Pin → List (String × String)
snapshot now [] = []
snapshot now (p ∷ ps) =
    let rest = snapshot now ps in if ltb now p.expires then (p.session, p.account) ∷ rest else rest

-- ===== src/Reqconv/Normalizer/Alternation.antt =====
-- internal/reqconv/message_normalizer.go: the conversation alternates, from the user on.
use kiroxy.Prelude.{
  ◌≡◌, refl, subst, ◌⊎◌, inl, inr, Bool, true, false, List, [], ◌∷◌, Option, none, some, Bool-cases,
  if◌then◌else◌, All, arith,
}
use kiroxy.Prelude.Bytes.{Bytes}
use kiroxy.Reqconv.{Role, user, assistant, other, same_role, Message}
use kiroxy.Reqconv.Normalizer.{
  normalize_role, normalize_roles, close_run, merge_run, merge_adjacent_same_role,
  ensure_starts_with_user, opposite_role, alternate, ensure_alternating_roles, normalize,
  textualize_tool_content, goes_on, synthetic,
}

-- The roles take turns, the first being `r`.
abbrev pub Alternates : Role → List Message → Type 0
Alternates r [] = Unit
Alternates r (m ∷ ms) = (m.role ≡ r) × Alternates (opposite_role r) ms

abbrev pub IsStandard : Message → Type 0
IsStandard m = (m.role ≡ user) ⊎ (m.role ≡ assistant)

normalize_roles-IsStandard : (ms : List Message) → All IsStandard (normalize_roles ms)
unfolding normalize_roles normalize_role
normalize_roles-IsStandard [] = _
normalize_roles-IsStandard (m ∷ ms) = (by_role m.role, normalize_roles-IsStandard ms)
  where
    by_role : (r : Role) → (normalize_role r ≡ user) ⊎ (normalize_role r ≡ assistant)
    by_role user = inl refl
    by_role assistant = inr refl
    by_role (other r) = inl refl

close_run-role : (m : Message) (built : Option Bytes) → (close_run m built).role ≡ m.role
unfolding close_run
close_run-role m none = refl
close_run-role m (some b) = refl

merge_run-IsStandard :
    (m : Message) (built : Option Bytes) (ms : List Message)
    → IsStandard m
    → All IsStandard ms
    → All IsStandard (merge_run m built ms)
unfolding merge_run
merge_run-IsStandard m built [] h k = ground (arith, h, close_run-role m built)
merge_run-IsStandard m built (x ∷ xs) h (k, ks) = elim (Bool-cases (goes_on m x)) [
  | inl e ↦ rw (merge_run, e) (merge_run-IsStandard m _ xs h ks)
  | inr e ↦
      rw (merge_run, e)
        (ground (arith, h, close_run-role m built), merge_run-IsStandard x none xs k ks)
]

merge-IsStandard :
    (ms : List Message) → All IsStandard ms → All IsStandard (merge_adjacent_same_role ms)
unfolding merge_adjacent_same_role
merge-IsStandard [] h = _
merge-IsStandard (m ∷ ms) (h, hs) = merge_run-IsStandard m none ms h hs

alternate-Alternates :
    (m : Message) (ms : List Message)
    → IsStandard m
    → All IsStandard ms
    → Alternates (opposite_role m.role) (alternate m.role ms)
unfolding alternate same_role opposite_role
alternate-Alternates m [] h k = _
alternate-Alternates m (x ∷ xs) h (k, ks) = ground (arith, h, k, alternate-Alternates x xs k ks)

-- The first message, if any, is the user's.
abbrev StartsWithUser : List Message → Type 0
StartsWithUser [] = Unit
StartsWithUser (m ∷ ms) = m.role ≡ user

ensure_starts_with_user-lem :
    (ms : List Message)
    → All IsStandard ms
    → All IsStandard (ensure_starts_with_user ms) × StartsWithUser (ensure_starts_with_user ms)
unfolding ensure_starts_with_user same_role
ensure_starts_with_user-lem [] h = _
ensure_starts_with_user-lem (m ∷ ms) (h, hs) =
    let said : StartsWithUser (ensure_starts_with_user (m ∷ ms)) = ground (arith, h) in
    (by_test (same_role m.role user), said)
  where
    by_test : (b : Bool) → All IsStandard (if b then m ∷ ms else synthetic user ∷ m ∷ ms)
    by_test true = (h, hs)
    by_test false = (inl refl, (h, hs))

ensure_alternating_roles-Alternates :
    (ms : List Message)
    → All IsStandard ms
    → StartsWithUser ms
    → Alternates user (ensure_alternating_roles ms)
unfolding ensure_alternating_roles opposite_role
ensure_alternating_roles-Alternates [] h s = _
ensure_alternating_roles-Alternates (m ∷ ms) (h, hs) s = (
  s,
  subst (λ r. Alternates (opposite_role r) (alternate m.role ms)) s
      (alternate-Alternates m ms h hs),
)

-- Whatever the conversation, with tools or without, the normalized one is empty or begins with the
-- user, and then the assistant and the user take turns.
pub normalize-Alternates :
    (has_tools : Bool) (ms : List Message) → Alternates user (normalize has_tools ms)
unfolding normalize
normalize-Alternates has_tools ms =
    let standard =
      merge-IsStandard _ (normalize_roles-IsStandard (textualize_tool_content has_tools ms)) in
    let (h, s) = ensure_starts_with_user-lem _ standard in ensure_alternating_roles-Alternates _ h s

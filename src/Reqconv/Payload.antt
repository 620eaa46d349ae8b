-- ===== src/Reqconv/Payload.antt =====
-- internal/reqconv/build_payload.go: the normalized conversation, split into history and current message.
use kiroxy.Prelude.{
  ◌≡◌, ◌≢◌, refl, ◌⊎◌, inl, inr, Bool, true, false, if◌then◌else◌, List, [], ◌∷◌, ◌++◌, Option,
  none, Bool-cases, arith,
}
use kiroxy.Prelude.Bytes.{Bytes, codes}
use kiroxy.Reqconv.{Role, user, assistant, other, same_role, plain, Message}
use kiroxy.Reqconv.Normalizer.{
  opposite_role, normalize, merge_run, goes_on, normalize_roles, normalize_role,
  merge_adjacent_same_role, textualize_tool_content, textualize_all_tool_content,
  textualize_orphan_tool_results, ensure_alternating_roles, ensure_starts_with_user,
}
use kiroxy.Reqconv.Normalizer.Alternation.{Alternates, normalize-Alternates}

-- The user message that stands behind a conversation that ends with the assistant.
abbrev pub continue_message : Message
continue_message = record { role = user; content = plain (codes "Continue") }

-- The messages before the last of `m ∷ ms`, and the last.
unfoldable pub split_last : Message → List Message → List Message × Message
split_last m [] = ([], m)
split_last m (x ∷ xs) = let (init, last) = split_last x xs in (m ∷ init, last)

-- `splitMessages`; without any message the last one has no role.
unfoldable pub split_messages : List Message → List Message × Message
unfolding split_last same_role
split_messages [] = ([], record { role = other []; content = plain [] })
split_messages (m ∷ ms) =
    let (init, last) = split_last m ms in
    if same_role last.role assistant then (m ∷ ms, continue_message) else (init, last)

-- `r` is a role that takes turns.
abbrev Takes : Role → Type 0
Takes r = (r ≡ user) ⊎ (r ≡ assistant)

split_last-Alternates :
    (r : Role) (m : Message) (ms : List Message)
    → Takes r
    → Alternates r (m ∷ ms)
    → let (init, last) = split_last m ms in
      (same_role last.role assistant ≡ true → Alternates r ((m ∷ ms) ++ (continue_message ∷ [])))
      × (same_role last.role assistant ≡ false
          → Alternates r (init ++ (last ∷ [])) × (last.role ≡ user))
unfolding split_last same_role opposite_role
split_last-Alternates r m [] t (h, k) =
    (λ e. (h, (ground (arith, h, t, e), _)), λ e. ((h, _), ground (arith, h, t, e)))
split_last-Alternates r m (x ∷ xs) t (h, k) =
    let ih = split_last-Alternates (opposite_role r) x xs (ground (arith, t)) k in
    (λ e. (h, ih.0 e), λ e. let (a, u) = ih.1 e in ((h, a), u))

-- Of a conversation that alternates from the user on, and is not empty, the history and the current
-- message alternate again, and the current message is the user's.
split-Alternates :
    (m : Message) (ms : List Message)
    → Alternates user (m ∷ ms)
    → let (history, last) = split_messages (m ∷ ms) in
      Alternates user (history ++ (last ∷ [])) × (last.role ≡ user)
unfolding split_messages
split-Alternates m ms h =
    let (ended, not_ended) = split_last-Alternates user m ms (inl refl) h in
    elim (Bool-cases (same_role (split_last m ms).1.role assistant)) [
      | inl e ↦ rw (split_messages, e) (ended e, refl)
      | inr e ↦ rw (split_messages, e) (not_ended e)
    ]

merge_run-nonempty :
    (ms : List Message) (m : Message) (built : Option Bytes) → merge_run m built ms ≢ []
unfolding merge_run
merge_run-nonempty [] m built = λ e. cc
merge_run-nonempty (x ∷ xs) m built = elim (Bool-cases (goes_on m x)) [
  | inl e ↦ rw (merge_run, e) (merge_run-nonempty xs m _)
  | inr e ↦ rw (merge_run, e) (λ n. cc)
]

normalize_roles-nonempty :
    (ms : List Message) → ms ≢ [] → merge_adjacent_same_role (normalize_roles ms) ≢ []
unfolding normalize_roles merge_adjacent_same_role
normalize_roles-nonempty [] h = λ e. h refl
normalize_roles-nonempty (m ∷ ms) h =
    merge_run-nonempty (normalize_roles ms) (record m { role = normalize_role m.role }) none

textualize-nonempty :
    (has_tools : Bool) (ms : List Message) → ms ≢ [] → textualize_tool_content has_tools ms ≢ []
unfolding textualize_tool_content textualize_all_tool_content textualize_orphan_tool_results
textualize-nonempty has_tools [] h e = h refl
textualize-nonempty true (m ∷ ms) h e = cc
textualize-nonempty false (m ∷ ms) h e = cc

ensure-nonempty :
    (ms : List Message) → ms ≢ [] → ensure_alternating_roles (ensure_starts_with_user ms) ≢ []
unfolding ensure_alternating_roles ensure_starts_with_user
ensure-nonempty [] h = λ e. h refl
ensure-nonempty (m ∷ ms) h = elim (Bool-cases (same_role m.role user)) [
  | inl e ↦ rw (ensure_starts_with_user, e) (λ n. cc)
  | inr e ↦ rw (ensure_starts_with_user, e) (λ n. cc)
]

normalize-nonempty : (has_tools : Bool) (ms : List Message) → ms ≢ [] → normalize has_tools ms ≢ []
unfolding normalize
normalize-nonempty has_tools ms h =
    ensure-nonempty _ (normalize_roles-nonempty _ (textualize-nonempty has_tools ms h))

-- Of any conversation with a message, with tools or without: the history and the current message that
-- the upstream gets alternate from the user on, and the current message is the user's.
pub split_messages-Alternates :
    (has_tools : Bool) (ms : List Message)
    → ms ≢ []
    → let (history, last) = split_messages (normalize has_tools ms) in
      Alternates user (history ++ (last ∷ [])) × (last.role ≡ user)
split_messages-Alternates has_tools ms h =
    by_shape (normalize has_tools ms) (normalize-nonempty has_tools ms h)
      (normalize-Alternates has_tools ms)
  where
    by_shape :
        (xs : List Message)
        → xs ≢ []
        → Alternates user xs
        → let (history, last) = split_messages xs in
          Alternates user (history ++ (last ∷ [])) × (last.role ≡ user)
    by_shape [] k a = absurd (k refl)
    by_shape (x ∷ xs) k a = split-Alternates x xs a

-- ===== src/Reqconv/Normalizer/Pairing.antt =====
-- internal/reqconv/message_normalizer.go: the steps behind the tool contents keep each result next to
-- its call.
use kiroxy.Prelude.{
  ◌≡◌, refl, ◌⊎◌, inl, inr, sym, ap, ◌∙◌, Bool, true, false, List, [], ◌∷◌, Option, none, some,
  Bool-cases, All, arith,
}
use kiroxy.Prelude.Bytes.{Bytes}
use kiroxy.Reqconv.{
  Role, user, assistant, other, same_role, Block, Content, plain, blocks, Message, is_tool_use,
  is_tool_result,
}
use kiroxy.Reqconv.Normalizer.{
  use_ids, tool_ids, all_text, is_plain_text_content, close_run, goes_on, merge_run,
  merge_adjacent_same_role, synthetic, ensure_starts_with_user, opposite_role, alternate,
  textualize_orphans_in, textualize_orphan_tool_results, textualize_all_tool_content,
  ensure_alternating_roles, normalize_role, normalize_roles, normalize, textualize_tool_content,
}
use kiroxy.Reqconv.Normalizer.Alternation.{IsStandard}
use kiroxy.Reqconv.Normalizer.Answers.{
  answered_ids, result_ids, Answered, AnswersTo, textualize_tool_content-Answered,
}

-- A message without tool calls and without results.
abbrev Quiet : Message → Type 0
Quiet m = (use_ids m ≡ []) × (result_ids m ≡ [])

all_text-ids : (bs : List Block) → all_text bs ≡ true → (tool_ids bs ≡ []) × (answered_ids bs ≡ [])
unfolding all_text tool_ids is_tool_use is_tool_result
all_text-ids [] h = (refl, refl)
all_text-ids (b ∷ bs) h = ground (arith, h, all_text-ids bs)

plain-Quiet :
    (r : Role) (c : Content)
    → is_plain_text_content c ≡ true
    → Quiet (record { role = r; content = c })
unfolding is_plain_text_content use_ids
plain-Quiet user (plain t) h = (refl, refl)
plain-Quiet user (blocks bs) h = (refl, (all_text-ids bs h).1)
plain-Quiet assistant (plain t) h = (refl, refl)
plain-Quiet assistant (blocks bs) h = ((all_text-ids bs h).0, refl)
plain-Quiet (other r) c h = (refl, refl)

-- The message of a run answers what its first message does, and has the same tool calls.
close_run-ids :
    (m : Message) (built : Option Bytes)
    → (built ≡ none) ⊎ Quiet m
    → (use_ids (close_run m built) ≡ use_ids m) × (result_ids (close_run m built) ≡ result_ids m)
unfolding close_run is_plain_text_content
close_run-ids m none h = (refl, refl)
close_run-ids m (some b) (inl e) = absurd cc
close_run-ids m (some b) (inr (u, r)) =
    let (v, q) = plain-Quiet m.role (plain b) refl in (v ∙ sym u, q ∙ sym r)

goes_on-Quiet : (m x : Message) → goes_on m x ≡ true → Quiet m × Quiet x
unfolding goes_on
goes_on-Quiet m x h = (
  plain-Quiet m.role m.content (ground (arith, h)),
  plain-Quiet x.role x.content (ground (arith, h)),
)

merge_run-Answered :
    (ids : List Bytes) (m : Message) (built : Option Bytes) (ms : List Message)
    → (built ≡ none) ⊎ Quiet m
    → Answered ids (m ∷ ms)
    → Answered ids (merge_run m built ms)
unfolding merge_run
merge_run-Answered ids m built [] q (h, k) = (rw ((close_run-ids m built q).1) h, _)
merge_run-Answered ids m built (x ∷ xs) q (h, (hx, k)) = elim (Bool-cases (goes_on m x)) [
  | inl e ↦
      let (qm, qx) = goes_on-Quiet m x e in
      rw (merge_run, e) (merge_run-Answered ids m _ xs (inr qm) (h, rw (qm.0 ∙ sym qx.0) k))
  | inr e ↦
      let (u, r) = close_run-ids m built q in
      rw (merge_run, e)
        (rw (r) h, rw (u) (merge_run-Answered (use_ids m) x none xs (inl refl) (hx, k)))
]

merge-Answered : (ms : List Message) → Answered [] ms → Answered [] (merge_adjacent_same_role ms)
unfolding merge_adjacent_same_role
merge-Answered [] h = _
merge-Answered (m ∷ ms) h = merge_run-Answered [] m none ms (inl refl) h

-- A message that is not the user's answers nothing.
not_user-AnswersTo :
    (ids : List Bytes) (r : Role) (c : Content)
    → same_role r user ≡ false
    → AnswersTo ids (record { role = r; content = c })
unfolding AnswersTo same_role
not_user-AnswersTo ids user c h = cc
not_user-AnswersTo ids assistant c h = _
not_user-AnswersTo ids (other s) c h = _

ensure_starts-Answered :
    (ms : List Message) → Answered [] ms → Answered [] (ensure_starts_with_user ms)
unfolding ensure_starts_with_user use_ids AnswersTo
ensure_starts-Answered [] h = _
ensure_starts-Answered (m ∷ ms) h = elim (Bool-cases (same_role m.role user)) [
  | inl e ↦ rw (ensure_starts_with_user, e) h
  | inr e ↦ rw (ensure_starts_with_user, e) (_, h)
]

-- Behind a message of its own role, a message answers nothing.
same_role-AnswersTo :
    (r s : Role) (c d : Content)
    → same_role s r ≡ true
    → AnswersTo (use_ids (record { role = r; content = c })) (record { role = s; content = d })
    → AnswersTo [] (record { role = s; content = d })
unfolding same_role AnswersTo use_ids
same_role-AnswersTo user user c d e h = h
same_role-AnswersTo assistant user c d e h = cc
same_role-AnswersTo (other q) user c d e h = cc
same_role-AnswersTo r assistant c d e h = _
same_role-AnswersTo r (other q) c d e h = _

synthetic-Quiet : (r : Role) → Quiet (synthetic r)
unfolding is_plain_text_content
synthetic-Quiet r = plain-Quiet r _ refl

alternate-Answered :
    (m : Message) (ms : List Message)
    → Answered (use_ids m) ms
    → Answered (use_ids m) (alternate m.role ms)
unfolding alternate AnswersTo
alternate-Answered m [] h = _
alternate-Answered m (x ∷ xs) (h, k) = elim (Bool-cases (same_role x.role m.role)) [
  | inl e ↦
      let q = synthetic-Quiet (opposite_role x.role) in
      rw (alternate, e)
        (
          rw (q.1) _,
          (
            rw (q.0) (same_role-AnswersTo m.role x.role m.content x.content e h),
            alternate-Answered x xs k,
          ),
        )
  | inr e ↦ rw (alternate, e) (h, alternate-Answered x xs k)
]

ensure_alternating-Answered :
    (ms : List Message) → Answered [] ms → Answered [] (ensure_alternating_roles ms)
unfolding ensure_alternating_roles
ensure_alternating-Answered [] h = _
ensure_alternating-Answered (m ∷ ms) (h, k) = (h, alternate-Answered m ms k)

normalize_role-standard : (r : Role) → (r ≡ user) ⊎ (r ≡ assistant) → normalize_role r ≡ r
unfolding normalize_role
normalize_role-standard r (inl e) = rw (e) refl
normalize_role-standard r (inr e) = rw (e) refl

normalize_roles-standard : (ms : List Message) → All IsStandard ms → normalize_roles ms ≡ ms
unfolding normalize_roles
normalize_roles-standard [] h = refl
normalize_roles-standard (m ∷ ms) (h, hs) =
    ap (λ r. record m { role = r } ∷ normalize_roles ms) (normalize_role-standard m.role h)
    ∙ ap (◌∷◌ m) (normalize_roles-standard ms hs)

textualize_orphans_in-role :
    (ids : List Bytes) (r : Role) (c : Content)
    → (textualize_orphans_in ids (record { role = r; content = c })).role ≡ r
unfolding textualize_orphans_in
textualize_orphans_in-role ids user (plain t) = refl
textualize_orphans_in-role ids user (blocks bs) = refl
textualize_orphans_in-role ids assistant c = refl
textualize_orphans_in-role ids (other s) c = refl

orphans-IsStandard :
    (ids : List Bytes) (ms : List Message)
    → All IsStandard ms
    → All IsStandard (textualize_orphan_tool_results ids ms)
unfolding textualize_orphan_tool_results
orphans-IsStandard ids [] h = _
orphans-IsStandard ids (m ∷ ms) (h, hs) =
    (rw (textualize_orphans_in-role ids m.role m.content) h, orphans-IsStandard (use_ids m) ms hs)

textualize_all_tool_content-IsStandard :
    (ms : List Message) → All IsStandard ms → All IsStandard (textualize_all_tool_content ms)
unfolding textualize_all_tool_content
textualize_all_tool_content-IsStandard [] h = _
textualize_all_tool_content-IsStandard (m ∷ ms) (h, hs) =
    (h, textualize_all_tool_content-IsStandard ms hs)

textualize_tool_content-IsStandard :
    (has_tools : Bool) (ms : List Message)
    → All IsStandard ms
    → All IsStandard (textualize_tool_content has_tools ms)
unfolding textualize_tool_content
textualize_tool_content-IsStandard true ms h = orphans-IsStandard [] ms h
textualize_tool_content-IsStandard false ms h = textualize_all_tool_content-IsStandard ms h

-- If every message is the user's or the assistant's, then in the normalized conversation, with tools or
-- without, each tool result in a message of the user answers a tool call of the assistant's message
-- right before it.
pub normalize-Answered :
    (has_tools : Bool) (ms : List Message)
    → All IsStandard ms
    → Answered [] (normalize has_tools ms)
unfolding normalize
normalize-Answered has_tools ms h =
    let texts = textualize_tool_content has_tools ms in
    let answered : Answered [] (normalize_roles texts) =
      rw (normalize_roles-standard texts (textualize_tool_content-IsStandard has_tools ms h))
        (textualize_tool_content-Answered has_tools ms) in
    ensure_alternating-Answered _ (ensure_starts-Answered _ (merge-Answered _ answered))

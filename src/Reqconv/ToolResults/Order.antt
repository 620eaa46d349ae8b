-- ===== src/Reqconv/ToolResults/Order.antt =====
-- `ReorderToolResults` (internal/reqconv/tool_results.go) loses no result and repeats none.
use kiroxy.Prelude.{
  ◌≡◌, refl, sym, ap, ◌∙◌, inl, inr, true, false, leb, List, [], ◌∷◌, ◌++◌, none, some, map,
  Bool-cases, Option-cases, arith, length,
}
use kiroxy.Prelude.Bytes.{Bytes, beq, beq_iff}
use mathlib.Core.List.{Perm, perm_middle}
use mathlib.Core.List.Perm
use kiroxy.Reqconv.Normalizer.{has_id}
use kiroxy.Reqconv.ToolResults.{
  ToolResult, find_result, placed, used, left_over, reorder_tool_results,
}

abbrev pub result_ids : List ToolResult → List Bytes
result_ids rs = map (λ r. r.tool_use_id) rs

-- No identifier stands twice.
abbrev pub Distinct : List Bytes → Type 0
Distinct [] = Unit
Distinct (x ∷ xs) = (has_id x xs ≡ false) × Distinct xs

pub beq_comm : (a b : Bytes) → beq a b ≡ beq b a
unfolding beq
beq_comm [] [] = refl
beq_comm [] (y ∷ b) = refl
beq_comm (x ∷ a) [] = refl
beq_comm (x ∷ a) (y ∷ b) = ground (arith, beq_comm a b)

find_result-absent :
    (x : Bytes) (rs : List ToolResult) → has_id x (result_ids rs) ≡ false → find_result x rs ≡ none
unfolding find_result has_id
find_result-absent x [] h = refl
find_result-absent x (r ∷ rs) h = ground (arith, find_result-absent x rs)

left_over-absent :
    (x : Bytes) (ids : List Bytes) (rs : List ToolResult)
    → has_id x (result_ids rs) ≡ false
    → left_over (x ∷ ids) rs ≡ left_over ids rs
unfolding left_over has_id
left_over-absent x ids [] h = refl
left_over-absent x ids (r ∷ rs) h =
    ground (arith, left_over-absent x ids rs, beq_comm x r.tool_use_id)

left_over-nil : (rs : List ToolResult) → left_over [] rs ≡ rs
unfolding left_over has_id
left_over-nil [] = refl
left_over-nil (r ∷ rs) = ap (◌∷◌ r) (left_over-nil rs)

not-has_id-used :
    (x : Bytes) (rs : List ToolResult) (ids : List Bytes)
    → has_id x ids ≡ false
    → has_id x (used rs ids) ≡ false
unfolding used has_id
not-has_id-used x rs [] h = refl
not-has_id-used x rs (y ∷ ids) h = ground (arith, not-has_id-used x rs ids)

pub found_here :
    (x : Bytes) (s : ToolResult) (rs : List ToolResult) (r : ToolResult)
    → find_result x rs ≡ none
    → beq x s.tool_use_id ≡ true
    → find_result x (s ∷ rs) ≡ some r
    → s ≡ r
unfolding find_result
found_here x s rs r n b f = ground arith

found_later :
    (x : Bytes) (s : ToolResult) (rs : List ToolResult) (r : ToolResult)
    → beq x s.tool_use_id ≡ false
    → find_result x (s ∷ rs) ≡ some r
    → find_result x rs ≡ some r
unfolding find_result
found_later x s rs r b f = ground arith

-- A result found for `x` is what `left_over` keeps no more once `x` is used.
left_over-found :
    (x : Bytes) (ids : List Bytes) (rs : List ToolResult) (r : ToolResult)
    → Distinct (result_ids rs)
    → has_id x ids ≡ false
    → find_result x rs ≡ some r
    → Perm (left_over ids rs) (r ∷ left_over (x ∷ ids) rs)
unfolding left_over find_result has_id
left_over-found x ids [] r d u f = absurd cc
left_over-found x ids (s ∷ rs) r (new, d) u f = elim (Bool-cases (beq x s.tool_use_id)) [
  | inl here ↦
      let e : s.tool_use_id ≡ x = sym ((beq_iff x s.tool_use_id).0 here) in
      let k : has_id s.tool_use_id ids ≡ false = rw e u in
      let b : beq s.tool_use_id x ≡ true = beq_comm s.tool_use_id x ∙ here in
      let a : has_id x (result_ids rs) ≡ false = rw (sym e) new in
      let same : s ≡ r = found_here x s rs r (find_result-absent x rs a) here f in
      rw (k, b, left_over-absent x ids rs a, same) Perm.rfl
  | inr later ↦
      let b : beq s.tool_use_id x ≡ false = beq_comm s.tool_use_id x ∙ later in
      let ih = left_over-found x ids rs r d u (found_later x s rs r later f) in
      elim (Bool-cases (has_id s.tool_use_id ids)) [
        | inl gone ↦ rw (b, gone) ih
        | inr kept ↦ rw (b, kept) (Perm.trans (Perm.cons s ih) (Perm.swap r s _))
      ]
]

placed-Perm :
    (rs : List ToolResult) (ids : List Bytes)
    → Distinct (result_ids rs)
    → Distinct ids
    → Perm (placed rs ids ++ left_over (used rs ids) rs) rs
unfolding placed used
placed-Perm rs [] d e = rw (left_over-nil rs) Perm.rfl
placed-Perm rs (x ∷ xs) d (new, e) = elim (Option-cases (find_result x rs)) [
  | inl n ↦ rw (placed, used, n) (placed-Perm rs xs d e)
  | inr (r, f) ↦
      rw (placed, used, f)
        (Perm.trans (Perm.symm (perm_middle (placed rs xs) (left_over (x ∷ used rs xs) rs))) (
          Perm.trans
            (Perm.append_left (placed rs xs)
              (Perm.symm (left_over-found x (used rs xs) rs r d (not-has_id-used x rs xs new) f)))
            (placed-Perm rs xs d e)))
]

-- If no two results and no two tool calls share an identifier, the reordering sends exactly the results
-- that there are.
pub reorder_tool_results-Perm :
    (rs : List ToolResult) (ids : List Bytes)
    → Distinct (result_ids rs)
    → Distinct ids
    → Perm (reorder_tool_results rs ids) rs
unfolding reorder_tool_results
reorder_tool_results-Perm rs [] d e = Perm.rfl
reorder_tool_results-Perm rs (x ∷ xs) d e = elim (Bool-cases (leb (length rs) 1)) [
  | inl one ↦ rw one Perm.rfl
  | inr more ↦ rw more (placed-Perm rs (x ∷ xs) d e)
]

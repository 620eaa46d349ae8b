-- ===== src/Reqconv/ToolResults/Answers.antt =====
-- `ReorderToolResults` (internal/reqconv/tool_results.go) follows the order of the tool calls.
use kiroxy.Prelude.{
  ◌≡◌, refl, sym, ap, ◌∙◌, inl, inr, true, false, leb, if◌then◌else◌, List, [], ◌∷◌, ◌++◌, none,
  some, Bool-cases, Option-cases, arith, length, All, append-nil, or-true,
}
use kiroxy.Prelude.Bytes.{Bytes, beq, beq_iff, beq_refl}
use kiroxy.Reqconv.Normalizer.{has_id}
use kiroxy.Reqconv.ToolResults.{
  ToolResult, find_result, placed, used, left_over, reorder_tool_results,
}
use kiroxy.Reqconv.ToolResults.Order.{result_ids, Distinct, beq_comm, found_here}

-- The tool calls that some results answer, in the order of the calls.
abbrev pub answered : List ToolResult → List Bytes → List Bytes
answered rs [] = []
answered rs (x ∷ xs) =
    let rest = answered rs xs in if has_id x (result_ids rs) then x ∷ rest else rest

find_result-id :
    (x : Bytes) (rs : List ToolResult) (r : ToolResult)
    → find_result x rs ≡ some r
    → (x ≡ r.tool_use_id) × (has_id x (result_ids rs) ≡ true)
unfolding find_result has_id
find_result-id x [] r f = absurd cc
find_result-id x (s ∷ rs) r f = elim (Option-cases (find_result x rs)) [
  | inl n ↦ elim (Bool-cases (beq x s.tool_use_id)) [
    | inl here ↦
        let same : s ≡ r = found_here x s rs r n here f in
        rw here ((beq_iff x s.tool_use_id).0 here ∙ ap (λ t. t.tool_use_id) same, refl)
    | inr other ↦ absurd (ground arith)
  ]
  | inr (t, e) ↦ ground (arith, find_result-id x rs t e)
]

find_result-none :
    (x : Bytes) (rs : List ToolResult) → find_result x rs ≡ none → has_id x (result_ids rs) ≡ false
unfolding find_result has_id
find_result-none x [] n = refl
find_result-none x (s ∷ rs) n = ground (arith, find_result-none x rs)

used-answered : (rs : List ToolResult) (ids : List Bytes) → used rs ids ≡ answered rs ids
unfolding used
used-answered rs [] = refl
used-answered rs (x ∷ xs) = elim (Option-cases (find_result x rs)) [
  | inl n ↦ rw (used, n, find_result-none x rs n) (used-answered rs xs)
  | inr (r, f) ↦ rw (used, f, (find_result-id x rs r f).1) (ap (◌∷◌ x) (used-answered rs xs))
]

result_ids-placed :
    (rs : List ToolResult) (ids : List Bytes) → result_ids (placed rs ids) ≡ used rs ids
unfolding placed used
result_ids-placed rs [] = refl
result_ids-placed rs (x ∷ xs) = elim (Option-cases (find_result x rs)) [
  | inl n ↦ rw (placed, used, n) (result_ids-placed rs xs)
  | inr (r, f) ↦
      rw (placed, used, f, (find_result-id x rs r f).0)
        (ap (◌∷◌ r.tool_use_id) (result_ids-placed rs xs))
]

has_id-answered :
    (i : Bytes) (rs : List ToolResult) (ids : List Bytes)
    → has_id i (result_ids rs) ≡ true
    → has_id i ids ≡ true
    → has_id i (answered rs ids) ≡ true
unfolding has_id
has_id-answered i rs [] a h = absurd cc
has_id-answered i rs (x ∷ xs) a h = elim (Bool-cases (beq i x)) [
  | inl here ↦
      let e : has_id x (result_ids rs) ≡ true = rw (sym ((beq_iff i x).0 here)) a in
      rw (e, has_id, here) refl
  | inr later ↦ ground (arith, has_id-answered i rs xs a)
]

has_id-All :
    (i : Bytes) (ids xs : List Bytes)
    → All (λ j. has_id j ids ≡ true) xs
    → has_id i xs ≡ true
    → has_id i ids ≡ true
unfolding has_id
has_id-All i ids [] h m = absurd cc
has_id-All i ids (x ∷ xs) (h, hs) m = elim (Bool-cases (beq i x)) [
  | inl here ↦ rw ((beq_iff i x).0 here) h
  | inr later ↦ has_id-All i ids xs hs (rw later at m)
]

left_over-covered :
    (ids : List Bytes) (rs : List ToolResult)
    → ((i : Bytes) → has_id i (result_ids rs) ≡ true → has_id i ids ≡ true)
    → left_over ids rs ≡ []
unfolding left_over has_id
left_over-covered ids [] h = refl
left_over-covered ids (r ∷ rs) h =
    let here : has_id r.tool_use_id ids ≡ true =
      h r.tool_use_id (rw (beq_refl r.tool_use_id) refl) in
    rw here (left_over-covered ids rs (λ i m. h i (rw m (or-true _))))

answered_single :
    (r : ToolResult) (ids : List Bytes)
    → Distinct ids
    → answered (r ∷ []) ids ≡ (if has_id r.tool_use_id ids then r.tool_use_id ∷ [] else [])
unfolding has_id
answered_single r [] d = refl
answered_single r (x ∷ xs) (new, d) = elim (Bool-cases (beq x r.tool_use_id)) [
  | inl here ↦
      let e : x ≡ r.tool_use_id = (beq_iff x r.tool_use_id).0 here in
      let absent : has_id r.tool_use_id xs ≡ false = rw (sym e) new in
      rw (e, beq_refl r.tool_use_id, answered_single r xs d, absent) refl
  | inr other ↦
      let e : beq r.tool_use_id x ≡ false = beq_comm r.tool_use_id x ∙ other in
      rw (other, e) (answered_single r xs d)
]

answered_none : (ids : List Bytes) → answered [] ids ≡ []
unfolding has_id
answered_none [] = refl
answered_none (x ∷ xs) = answered_none xs

-- One result at most.
answered_short :
    (rs : List ToolResult) (ids : List Bytes)
    → leb (length rs) 1 ≡ true
    → Distinct ids
    → All (λ i. has_id i ids ≡ true) (result_ids rs)
    → result_ids rs ≡ answered rs ids
answered_short [] ids one d h = sym (answered_none ids)
answered_short (r ∷ []) ids one d (h, _) = sym (answered_single r ids d ∙ rw h refl)
answered_short (r ∷ s ∷ rs) ids one d h = absurd (ground arith)

result_ids-reordered :
    (rs : List ToolResult) (ids : List Bytes)
    → All (λ i. has_id i ids ≡ true) (result_ids rs)
    → result_ids (placed rs ids ++ left_over (used rs ids) rs) ≡ answered rs ids
result_ids-reordered rs ids h =
    let covered : left_over (used rs ids) rs ≡ [] =
      left_over-covered (used rs ids) rs
        (λ i m. rw (used-answered rs ids) (has_id-answered i rs ids m (has_id-All i ids _ h m))) in
    rw (covered, append-nil (placed rs ids)) (result_ids-placed rs ids ∙ used-answered rs ids)

-- If no two tool calls share an identifier and each result answers one of them, then the calls are answered
-- in the order in which they were made.
pub reorder_tool_results-answered :
    (rs : List ToolResult) (ids : List Bytes)
    → Distinct ids
    → All (λ i. has_id i ids ≡ true) (result_ids rs)
    → result_ids (reorder_tool_results rs ids) ≡ answered rs ids
unfolding reorder_tool_results has_id
reorder_tool_results-answered [] [] d h = refl
reorder_tool_results-answered (r ∷ rs) [] d (h, _) = absurd cc
reorder_tool_results-answered rs (x ∷ xs) d h = elim (Bool-cases (leb (length rs) 1)) [
  | inl one ↦ rw one (answered_short rs (x ∷ xs) one d h)
  | inr more ↦ rw more (result_ids-reordered rs (x ∷ xs) h)
]

-- ===== src/Toolsearch/Promotion.antt =====
-- internal/toolsearch/context.go: promoting tools moves them, and nothing else.
use kiroxy.Prelude.{
  ◌≡◌, inl, inr, Bool-cases, Option-cases, List, [], ◌∷◌, ◌++◌, some, append_assoc, arith,
}
use kiroxy.Prelude.Bytes.{Bytes, beq}
use mathlib.Core.List.{Perm}
use mathlib.Core.List.Perm
use kiroxy.Toolsearch.{Tool, Context, take_out, promote_tool, promote_tools}

take_out-Perm :
    (n : Bytes) (ts : List Tool) {t : Tool} {us : List Tool}
    → take_out n ts ≡ some (t, us)
    → Perm (t ∷ us) ts
unfolding take_out
take_out-Perm n [] h = cc
take_out-Perm n (x ∷ ts) {t} {us} h = elim (Bool-cases (beq x.name n)) [
  | inl e ↦ let same : x ∷ ts ≡ t ∷ us = ground (arith, e, h) in rw same Perm.rfl
  | inr e ↦ elim (Option-cases (take_out n ts)) [
    | inl none_left ↦ ground (arith, e, none_left, h)
    | inr ((u, vs), f) ↦
        let first : t ≡ u = ground (arith, e, f, h) in
        let left : us ≡ x ∷ vs = ground (arith, e, f, h) in
        rw (first, left) (Perm.trans (Perm.swap x u vs) (Perm.cons x (take_out-Perm n ts f)))
  ]
]

-- Every tool of a context, active or deferred.
abbrev pub tools_of : Context → List Tool
tools_of c = c.active_tools ++ c.deferred_tools

promote_tool-Perm : (n : Bytes) (c : Context) → Perm (tools_of (promote_tool n c)) (tools_of c)
unfolding promote_tool
promote_tool-Perm n c = elim (Option-cases (take_out n c.deferred_tools)) [
  | inl e ↦ rw (promote_tool, e) Perm.rfl
  | inr ((t, us), e) ↦
      rw (promote_tool, e, append_assoc c.active_tools (t ∷ []) us)
        (Perm.append_left c.active_tools (take_out-Perm n c.deferred_tools e))
]

-- Promoting tools loses none, invents none and repeats none: the active and the deferred tools
-- are those that there were, in some order.
pub promote_tools-Perm :
    (ns : List Bytes) (c : Context) → Perm (tools_of (promote_tools ns c)) (tools_of c)
unfolding promote_tools
promote_tools-Perm [] c = Perm.rfl
promote_tools-Perm (n ∷ ns) c =
    Perm.trans (promote_tools-Perm ns (promote_tool n c)) (promote_tool-Perm n c)

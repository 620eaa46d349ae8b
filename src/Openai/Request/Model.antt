-- ===== src/Openai/Request/Model.antt =====
-- internal/openai/models.go: the name of a model is resolved to the end.
use kiroxy.Prelude.{
  ℕ, zero, suc, ◌≤◌, ◌<◌, ◌≡◌, ◌≢◌, refl, sym, inl, inr, false, List, [], ◌∷◌, ◌++◌, arith,
  Bool-cases, All, length, drop, length-drop,
}
use kiroxy.Prelude.Bytes.{Bytes, beq, beq_iff}
use kiroxy.Strings.Prefix.{has_prefix, has_prefix-length, has_prefix-split}
use kiroxy.Openai.Request.{alias_table, alias, vendor_prefix, resolve_name, resolve_model}

-- Without the prefix of the vendor.
abbrev pub IsUnprefixed : Bytes → Type 0
IsUnprefixed name = has_prefix vendor_prefix name ≡ false

-- What a table makes of a name: the model of the first entry with that name, or the name itself.
pub data Aliased : Bytes → List (Bytes × Bytes) → Bytes → Type 0 where
  absent : {name : Bytes} → Aliased name [] name
  here :
      {name a m : Bytes} {table : List (Bytes × Bytes)} → name ≡ a → Aliased name ((a, m) ∷ table) m
  later :
      {name a k m : Bytes} {table : List (Bytes × Bytes)}
      → name ≢ a
      → Aliased name table m
      → Aliased name ((a, k) ∷ table) m

alias-Aliased :
    (name : Bytes) (table : List (Bytes × Bytes)) → Aliased name table (alias name table)
unfolding alias
alias-Aliased name [] = absent
alias-Aliased name ((a, m) ∷ table) = elim (Bool-cases (beq name a)) [
  | inl e ↦ rw (alias, e) (here ((beq_iff name a).0 e))
  | inr e ↦ rw (alias, e) (later (ground (arith, e, beq_iff name a)) (alias-Aliased name table))
]

alias-IsUnprefixed :
    (name : Bytes) (table : List (Bytes × Bytes))
    → All (λ e. IsUnprefixed e.1) table
    → IsUnprefixed name
    → IsUnprefixed (alias name table)
unfolding alias
alias-IsUnprefixed name [] h u = u
alias-IsUnprefixed name ((a, m) ∷ table) (h, hs) u = elim (Bool-cases (beq name a)) [
  | inl e ↦ rw (alias, e) h
  | inr e ↦ rw (alias, e) (alias-IsUnprefixed name table hs u)
]

alias_table-IsUnprefixed : All (λ e. IsUnprefixed e.1) alias_table
unfolding has_prefix
alias_table-IsUnprefixed = (refl, (refl, (refl, (refl, (refl, (refl, (refl, _)))))))

module _ (trim_space : Bytes → Bytes) where
  -- How a name is resolved, in as many steps as it has prefixes.
  pub data Resolves : Bytes → Bytes → Type 0 where
    strip :
        {name rest m : Bytes}
        → trim_space name ≡ vendor_prefix ++ rest
        → Resolves rest m
        → Resolves name m
    rename :
        {name m : Bytes}
        → IsUnprefixed (trim_space name)
        → Aliased (trim_space name) alias_table m
        → Resolves name m

  module _ (shortens : (s : Bytes) → length (trim_space s) ≤ length s) where
    resolve_name-Resolves :
        (fuel : ℕ) (name : Bytes)
        → length name < fuel
        → Resolves name (resolve_name trim_space fuel name)
          × IsUnprefixed (resolve_name trim_space fuel name)
    unfolding resolve_name
    resolve_name-Resolves zero name h = absurd (omega arith)
    resolve_name-Resolves (suc fuel) name h =
        let trimmed = trim_space name in
        elim (Bool-cases (has_prefix vendor_prefix trimmed)) [
          | inl y ↦
              let shorter : length (drop (length vendor_prefix) trimmed) < fuel = omega (
                arith,
                shortens name,
                length-drop (length vendor_prefix) trimmed,
                has_prefix-length vendor_prefix trimmed y,
              ) in
              let (r, u) =
                resolve_name-Resolves fuel (drop (length vendor_prefix) trimmed) shorter in
              rw (resolve_name, y) (strip (sym (has_prefix-split vendor_prefix trimmed y)) r, u)
          | inr n ↦
              rw (resolve_name, n)
                (
                  rename n (alias-Aliased trimmed alias_table),
                  alias-IsUnprefixed trimmed alias_table alias_table-IsUnprefixed n,
                )
        ]

    -- Trimming a name never lengthening it, a model's name is resolved to the end: it is trimmed and a
    -- prefix of the vendor taken off it until none is left, however many it had, and what is left then is
    -- looked up in the table of aliases, which gives the first entry with that name or leaves it. The
    -- result has no prefix of the vendor.
    pub resolve_model-IsUnprefixed :
        (name : Bytes)
        → Resolves name (resolve_model trim_space name)
          × IsUnprefixed (resolve_model trim_space name)
    unfolding resolve_model
    resolve_model-IsUnprefixed name = resolve_name-Resolves (suc (length name)) name (omega arith)

-- ===== src/Strings/Index.antt =====
-- `strings.Index` and `strings.Contains`.
use kiroxy.Prelude.{ℕ, suc, Bool, true, false, ◌||◌, ◌==◌, [], ◌∷◌, Option, none, some}
use kiroxy.Prelude.Bytes.{Bytes}
use kiroxy.Strings.Prefix.{has_prefix}

abbrev pub next_index : Option ℕ → Option ℕ
next_index none = none
next_index (some i) = some (suc i)

-- `strings.Index(s, p)`, the pattern first; `none` stands for -1.
unfoldable pub index : Bytes → Bytes → Option ℕ
index p [] = elim (has_prefix p []) [ true ↦ some 0 | false ↦ none ]
index p (c ∷ s) =
    let rest = index p s in elim (has_prefix p (c ∷ s)) [ true ↦ some 0 | false ↦ next_index rest ]

-- `strings.Contains(s, string(c))` for one byte.
unfoldable pub contains_byte : ℕ → Bytes → Bool
contains_byte c [] = false
contains_byte c (d ∷ s) = c == d || contains_byte c s

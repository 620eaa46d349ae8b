-- ===== src/Tokenvault/Rows.antt =====
-- How the SQL statements of internal/tokenvault/vault.go act on the row of a key.
use kiroxy.Prelude.{
  ℕ, ◌≡◌, refl, String, str_eq, eq_iff, true, ◌&&◌, ◌==◌, if◌then◌else◌, [], ◌∷◌, Option, none,
  some, arith, select,
}
use kiroxy.Tokenvault.Sql.{Bundle, Table, has_key, find_row, update_where, upsert, delete_row}

-- A statement that does not touch the primary key.
abbrev pub KeepsKey : (Bundle → Bundle) → Type 0
KeepsKey f = (p c : String) (r : Bundle) → has_key p c (f r) ≡ has_key p c r

abbrev pub map_row : (Bundle → Bundle) → Option Bundle → Option Bundle
map_row f none = none
map_row f (some r) = some (f r)

pub find_row-has_key :
    (p c : String) (t : Table) (r : Bundle) → find_row p c t ≡ some r → has_key p c r ≡ true
unfolding find_row
find_row-has_key p c [] r h = ground arith
find_row-has_key p c (s ∷ t) r h = ground (arith, find_row-has_key p c t r)

-- The row of any key after an UPDATE.
pub find_row-update_where :
    (p c q d : String) (g : ℕ) (f : Bundle → Bundle) (t : Table)
    → KeepsKey f
    → find_row q d (update_where p c g f t)
      ≡ map_row (λ r. if has_key p c r && r.generation == g then f r else r) (find_row q d t)
unfolding find_row update_where
find_row-update_where p c q d g f [] k = refl
find_row-update_where p c q d g f (r ∷ t) k =
    ground (arith, k q d r, find_row-update_where p c q d g f t k)

-- The row of any key after an INSERT .. ON CONFLICT.
pub find_row-upsert :
    (q d : String) (r : Bundle) (t : Table)
    → find_row q d (upsert r t) ≡ (if has_key q d r then some r else find_row q d t)
unfolding find_row upsert has_key
find_row-upsert q d r [] = refl
find_row-upsert q d r (s ∷ t) = ground (
  arith,
  find_row-upsert q d r t,
  eq_iff s.provider r.provider,
  eq_iff s.connection_id r.connection_id,
  eq_iff r.provider q,
  eq_iff r.connection_id d,
  eq_iff s.provider q,
  eq_iff s.connection_id d,
)

-- The row of any key after a DELETE.
pub find_row-delete_row :
    (p c q d : String) (t : Table)
    → find_row q d (delete_row p c t) ≡ (if str_eq p q && str_eq c d then none else find_row q d t)
unfolding find_row delete_row has_key select
find_row-delete_row p c q d [] = ground arith
find_row-delete_row p c q d (s ∷ t) = ground (
  arith,
  find_row-delete_row p c q d t,
  eq_iff p q,
  eq_iff c d,
  eq_iff s.provider p,
  eq_iff s.connection_id c,
  eq_iff s.provider q,
  eq_iff s.connection_id d,
)

-- A row has one key.
pub has_key-same :
    (p c q d : String) (r : Bundle)
    → has_key q d r ≡ true
    → has_key p c r ≡ (str_eq p q && str_eq c d)
unfolding has_key
has_key-same p c q d r h = ground (
  arith,
  eq_iff p q,
  eq_iff c d,
  eq_iff r.provider p,
  eq_iff r.connection_id c,
  eq_iff r.provider q,
  eq_iff r.connection_id d,
)

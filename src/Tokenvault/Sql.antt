-- ===== src/Tokenvault/Sql.antt =====
-- The table token_bundles of internal/tokenvault/vault.go: its rows and the SQL statements that the
-- vault issues (SELECT, INSERT .. ON CONFLICT, UPDATE .. WHERE, DELETE). SQLite itself is not part
-- of the repository; each statement is written with its documented effect on the rows.
use kiroxy.Prelude.{
  ℕ, ◌*◌, String, str_eq, Bool, ◌&&◌, not, ◌==◌, ltb, if◌then◌else◌, List, [], ◌∷◌, Option, none,
  some, select,
}

-- One credential record. In a row the three times are milliseconds, in what `scan_bundle` returns
-- they are nanoseconds since the epoch; 0 stands for Go's zero time.
pub record Bundle : Type 0 where
  pub provider : String
  pub connection_id : String
  pub access_token : String
  pub refresh_token : String
  pub previous_refresh_token : String
  pub generation : ℕ
  pub updated_at : ℕ
  pub source : String
  pub metadata : String
  pub refresh_in_progress : Bool
  pub refresh_started_at : ℕ
  pub refresh_lock_expires_at : ℕ

abbrev pub Table : Type 0
Table = List Bundle

abbrev pub nanos_per_milli : ℕ
nanos_per_milli = 1_000_000

unfoldable pub scan_bundle : Bundle → Bundle
scan_bundle r = record r {
  updated_at = r.updated_at * nanos_per_milli;
  refresh_started_at =
      if ltb 0 r.refresh_started_at then r.refresh_started_at * nanos_per_milli else 0;
  refresh_lock_expires_at =
      if ltb 0 r.refresh_lock_expires_at then r.refresh_lock_expires_at * nanos_per_milli else 0;
}

-- `provider = ? AND connection_id = ?`
unfoldable pub has_key : String → String → Bundle → Bool
has_key p c r = str_eq r.provider p && str_eq r.connection_id c

-- The row of a key, as stored.
unfoldable pub find_row : String → String → Table → Option Bundle
find_row p c [] = none
find_row p c (r ∷ t) = if has_key p c r then some r else find_row p c t

-- `UPDATE token_bundles SET .. WHERE provider = ? AND connection_id = ? AND generation = ?`
unfoldable pub update_where : String → String → ℕ → (Bundle → Bundle) → Table → Table
update_where p c g f [] = []
update_where p c g f (r ∷ t) =
    (if has_key p c r && r.generation == g then f r else r) ∷ update_where p c g f t

-- `INSERT INTO token_bundles .. ON CONFLICT(provider, connection_id) DO UPDATE SET ..`, where every
-- column of the conflicting row is overwritten.
unfoldable pub upsert : Bundle → Table → Table
upsert r [] = r ∷ []
upsert r (s ∷ t) = if has_key r.provider r.connection_id s then r ∷ t else s ∷ upsert r t

-- `DELETE FROM token_bundles WHERE provider = ? AND connection_id = ?`
unfoldable pub delete_row : String → String → Table → Table
unfolding select
delete_row p c t = select (λ r. not (has_key p c r)) t

-- ===== src/Tokenvault/State.antt =====
-- internal/tokenvault/vault.go: errors, the reading of a bundle, and the row that `Save` writes.
use kiroxy.Prelude.{ℕ, ◌+◌, ◌/◌, String, Bool, true, false, Option, none, some}
use kiroxy.Tokenvault.Sql.{Bundle, Table, nanos_per_milli, scan_bundle, find_row}

pub data Error : Type 0 where
  not_found no_refresh_token lock_held generation_stale marshal_failed refresh_failed : Error
  -- a database call failed
  db_error : Error

pub data Result {ℓ} (A : Type ℓ) : Type ℓ where
  ok : A → Result A
  err : Error → Result A

-- Which of a call's database operations fail: opening the transaction, reading the row inside it,
-- the statement, the commit, and the read that follows.
pub record Faults : Type 0 where
  pub at_begin : Bool
  pub at_get : Bool
  pub at_exec : Bool
  pub at_commit : Bool
  pub at_reread : Bool

abbrev pub no_faults : Faults
no_faults = record {
  at_begin = false;
  at_get = false;
  at_exec = false;
  at_commit = false;
  at_reread = false;
}

-- `Vault.Get` and `getBundle`; the flag says that the query fails.
unfoldable pub get : Bool → String → String → Table → Result Bundle
get true p c t = err db_error
get false p c t = elim (find_row p c t) [ none ↦ err not_found | some r ↦ ok (scan_bundle r) ]

pub record Tokens : Type 0 where
  pub access_token : String
  pub refresh_token : String
  pub source : String
  pub metadata : String

abbrev pub unix_milli : ℕ → ℕ
unix_milli now = now / nanos_per_milli

abbrev pub prior_token : Option Bundle → String
prior_token none = ""
prior_token (some b) = b.refresh_token

abbrev pub prior_generation : Option Bundle → ℕ
prior_generation none = 0
prior_generation (some b) = b.generation

-- The row that `Save` writes over `prior`.
unfoldable pub saved_row : String → String → Tokens → ℕ → Option Bundle → Bundle
saved_row p c tokens now prior = record {
  provider = p;
  connection_id = c;
  access_token = tokens.access_token;
  refresh_token = tokens.refresh_token;
  previous_refresh_token = prior_token prior;
  generation = prior_generation prior + 1;
  updated_at = unix_milli now;
  source = tokens.source;
  metadata = tokens.metadata;
  refresh_in_progress = false;
  refresh_started_at = 0;
  refresh_lock_expires_at = 0;
}

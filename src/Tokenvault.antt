-- ===== src/Tokenvault.antt =====
-- internal/tokenvault/vault.go: the credential store with its reserve, commit and release protocol.
-- Each call runs in one transaction under the vault's mutex, so a call is one step on the table. A
-- database call may fail: `Faults` says which ones do, and a transaction that fails is rolled back.
pub mod Sql
pub mod State
pub mod Rows
pub mod Outcomes
pub mod Machine
pub mod Contract
pub mod Transitions
pub mod Generations
pub mod Locks
mod Tests
use kiroxy.Prelude.{
  ℕ, suc, ◌+◌, ◌*◌, ◌/◌, String, str_eq, Bool, true, false, ◌&&◌, ◌||◌, not, ◌==◌, ltb,
  if◌then◌else◌, List, [], ◌∷◌, map, Option, none, some, select,
}
use Sql.{
  Bundle, Table, nanos_per_milli, scan_bundle, has_key, find_row, update_where, upsert, delete_row,
}
unfoldable pub use State.*

-- The end of a writing transaction: the statement, the commit, and `v.Get`.
finish : Faults → String → String → Table → Table → Table × Result Bundle
finish f p c t t' =
    if f.at_exec || f.at_commit then (t, err db_error) else (t', get f.at_reread p c t')

unfoldable pub save : Faults → ℕ → String → String → Tokens → Table → Table × Result Bundle
unfolding saved_row finish
save f now p c tokens t = if f.at_begin then (t, err db_error) else elim (get f.at_get p c t) [
  | err not_found ↦ finish f p c t (upsert (saved_row p c tokens now none) t)
  | err e ↦ (t, err e)
  | ok b ↦ finish f p c t (upsert (saved_row p c tokens now (some b)) t)
]

abbrev pub default_lock_ttl : ℕ
default_lock_ttl = 300_000_000_000

-- What `Reserve` writes into the row.
unfoldable pub reserve_row : ℕ → ℕ → Bundle → Bundle
reserve_row now expires r = record r {
  refresh_in_progress = true;
  refresh_started_at = unix_milli now;
  refresh_lock_expires_at = unix_milli expires;
  updated_at = unix_milli now;
}

-- A lock TTL of 0 stands for any duration that is not positive.
abbrev pub lock_ttl : ℕ → ℕ
lock_ttl ttl = if ttl == 0 then default_lock_ttl else ttl

reserve_checked : Faults → ℕ → String → String → ℕ → Table → Bundle → Table × Result (String × ℕ)
unfolding reserve_row
reserve_checked f now p c ttl t b =
    if str_eq b.refresh_token ""
    then (t, err no_refresh_token)
    else if b.refresh_in_progress && ltb now b.refresh_lock_expires_at
    then (t, err lock_held)
    else if f.at_exec || f.at_commit
    then (t, err db_error)
    else (
      update_where p c b.generation (reserve_row now (now + ttl)) t,
      ok (b.refresh_token, b.generation),
    )

unfoldable pub reserve : Faults → ℕ → String → String → ℕ → Table → Table × Result (String × ℕ)
unfolding reserve_checked
reserve f now p c ttl t = if f.at_begin then (t, err db_error) else elim (get f.at_get p c t) [
  | err e ↦ (t, err e)
  | ok b ↦ reserve_checked f now p c (lock_ttl ttl) t b
]

-- What `Commit` writes into the row; `old` is the refresh token read in the transaction.
unfoldable pub commit_row : ℕ → String → Tokens → Bundle → Bundle
commit_row now old tokens r = record r {
  access_token = tokens.access_token;
  refresh_token = tokens.refresh_token;
  previous_refresh_token = old;
  generation = r.generation + 1;
  updated_at = unix_milli now;
  source = tokens.source;
  refresh_in_progress = false;
  refresh_started_at = 0;
  refresh_lock_expires_at = 0;
}

unfoldable pub commit : Faults → ℕ → String → String → ℕ → Tokens → Table → Table × Result Bundle
unfolding commit_row finish
commit f now p c reserved tokens t =
    if f.at_begin then (t, err db_error) else elim (get f.at_get p c t) [
      | err e ↦ (t, err e)
      | ok b ↦
          if not (b.generation == reserved)
          then (t, err generation_stale)
          else finish f p c t (update_where p c reserved (commit_row now b.refresh_token tokens) t)
    ]

unfoldable pub commit_meta_row : ℕ → String → Tokens → String → Bundle → Bundle
unfolding commit_row
commit_meta_row now old tokens merged r = record (commit_row now old tokens r) { metadata = merged }

-- `merge` stands for the JSON round trip: it takes the stored metadata to the text that holds the
-- patched object, or fails as `json.Marshal` does.
unfoldable pub commit_with_meta_patch :
    (String → Option String)
    → Faults
    → ℕ
    → String
    → String
    → ℕ
    → Tokens
    → Table
    → Table × Result Bundle
unfolding commit_meta_row finish
commit_with_meta_patch merge f now p c reserved tokens t =
    if f.at_begin then (t, err db_error) else elim (get f.at_get p c t) [
      | err e ↦ (t, err e)
      | ok b ↦
          if not (b.generation == reserved)
          then (t, err generation_stale)
          else elim (merge b.metadata) [
            | none ↦ (t, err marshal_failed)
            | some merged ↦
                finish f p c t
                  (update_where p c reserved (commit_meta_row now b.refresh_token tokens merged) t)
          ]
    ]

unfoldable pub release_row : ℕ → Bundle → Bundle
release_row now r = record r {
  refresh_in_progress = false;
  refresh_started_at = 0;
  refresh_lock_expires_at = 0;
  updated_at = unix_milli now;
}

unfoldable pub release : Faults → ℕ → String → String → ℕ → Bool → Table → Table × Result (Unit {0})
unfolding release_row
release f now p c reserved only_if_expired t =
    if f.at_begin then (t, err db_error) else elim (get f.at_get p c t) [
      | err e ↦ (t, err e)
      | ok b ↦
          if not (b.generation == reserved)
          then (t, ok tt)
          else if only_if_expired && ltb now b.refresh_lock_expires_at
          then (t, ok tt)
          else if f.at_exec || f.at_commit
          then (t, err db_error)
          else (update_where p c reserved (release_row now) t, ok tt)
    ]

unfoldable pub delete : Faults → String → String → Table → Table × Result (Unit {0})
delete f p c t = if f.at_exec then (t, err db_error) else (delete_row p c t, ok tt)

-- The rest of `Vault.Refresh`, on the outcome of its reservation.
refresh_reserved :
    Faults
    → ℕ
    → String
    → String
    → (String → Option Tokens)
    → (Table → Table)
    → Table × Result (String × ℕ)
    → Table × Result Bundle
refresh_reserved f' now' p c fn others (t', err e) = (t', err e)
refresh_reserved f' now' p c fn others (t', ok (token, gen)) = elim (fn token) [
  | none ↦ ((release f' now' p c gen false (others t')).0, err refresh_failed)
  | some tokens ↦ commit f' now' p c gen tokens (others t')
]

-- `Vault.Refresh`: reserve, the upstream call, then commit or release. Other callers may use the
-- vault while the upstream call runs; `others` is what they do to the table. `fn` is the upstream
-- call, `now'` the time at which it is done, and `f` and `f'` the faults of the two vault calls.
unfoldable pub refresh :
    Faults
    → Faults
    → ℕ
    → ℕ
    → String
    → String
    → ℕ
    → (String → Option Tokens)
    → (Table → Table)
    → Table
    → Table × Result Bundle
unfolding refresh_reserved
refresh f f' now now' p c ttl fn others t =
    refresh_reserved f' now' p c fn others (reserve f now p c ttl t)

-- A call of the vault that may change the table, with its arguments.
pub data Call : Type 0 where
  saves : Faults → ℕ → String → String → Tokens → Call
  reserves : Faults → ℕ → String → String → ℕ → Call
  commits : Faults → ℕ → String → String → ℕ → Tokens → Call
  patches : (String → Option String) → Faults → ℕ → String → String → ℕ → Tokens → Call
  releases : Faults → ℕ → String → String → ℕ → Bool → Call
  deletes : Faults → String → String → Call

-- The table after a call.
unfoldable pub apply : Call → Table → Table
apply (saves f now p c tokens) t = (save f now p c tokens t).0
apply (reserves f now p c ttl) t = (reserve f now p c ttl t).0
apply (commits f now p c g tokens) t = (commit f now p c g tokens t).0
apply (patches merge f now p c g tokens) t = (commit_with_meta_patch merge f now p c g tokens t).0
apply (releases f now p c g only_if_expired) t = (release f now p c g only_if_expired t).0
apply (deletes f p c) t = (delete f p c t).0

-- Any interleaving of calls by any number of callers.
unfoldable pub run : List Call → Table → Table
run [] t = t
run (c ∷ cs) t = run cs (apply c t)

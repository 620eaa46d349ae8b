-- ===== src/Tokenvault/Contract.antt =====
-- What each call of internal/tokenvault/vault.go may write and answer, given the row that it finds
-- and the faults of the database: the table that its transactions are held against.
use kiroxy.Prelude.{
  ℕ, ◌+◌, String, str_eq, Bool, true, false, ◌&&◌, ◌||◌, not, ◌==◌, ltb, if◌then◌else◌, Option,
  none, some,
}
use kiroxy.Tokenvault.Sql.{Bundle, Table, find_row, scan_bundle}
use kiroxy.Tokenvault.{
  Faults, Result, ok, err, lock_ttl, save, saved_row, reserve, reserve_row, commit, commit_row,
  commit_meta_row, commit_with_meta_patch, release, release_row, delete, Call, saves, reserves,
  commits, patches, releases, deletes,
}

-- A database call before the end of the transaction fails.
abbrev pub breaks : Faults → Bool
breaks f = f.at_begin || f.at_get || f.at_exec || f.at_commit

-- A lock that is in force at `now`: the row's expiry is later.
abbrev pub runs_past : ℕ → Bundle → Bool
runs_past now r = ltb now (scan_bundle r).refresh_lock_expires_at

abbrev pub is_for : String → String → Call → Bool
is_for q d (saves f now p c tokens) = str_eq p q && str_eq c d
is_for q d (reserves f now p c ttl) = str_eq p q && str_eq c d
is_for q d (commits f now p c g tokens) = str_eq p q && str_eq c d
is_for q d (patches merge f now p c g tokens) = str_eq p q && str_eq c d
is_for q d (releases f now p c g only_if_expired) = str_eq p q && str_eq c d
is_for q d (deletes f p c) = str_eq p q && str_eq c d

-- Whether a call writes to a row that it finds as `o`.
abbrev pub writes : Call → Option Bundle → Bool
writes (saves f now p c tokens) o = not (breaks f)
writes (reserves f now p c ttl) none = false
writes (reserves f now p c ttl) (some r) =
    not (breaks f)
    && not (str_eq r.refresh_token "")
    && not (r.refresh_in_progress && runs_past now r)
writes (commits f now p c g tokens) none = false
writes (commits f now p c g tokens) (some r) = not (breaks f) && (r.generation == g)
writes (patches merge f now p c g tokens) none = false
writes (patches merge f now p c g tokens) (some r) = elim (merge r.metadata) [
  | none ↦ false
  | some m ↦ not (breaks f) && (r.generation == g)
]
writes (releases f now p c g only_if_expired) none = false
writes (releases f now p c g only_if_expired) (some r) =
    not (breaks f) && (r.generation == g) && not (only_if_expired && runs_past now r)
writes (deletes f p c) o = not f.at_exec

-- What it writes.
abbrev pub written : Call → Option Bundle → Option Bundle
written (saves f now p c tokens) o = some (saved_row p c tokens now o)
written (reserves f now p c ttl) none = none
written (reserves f now p c ttl) (some r) = some (reserve_row now (now + lock_ttl ttl) r)
written (commits f now p c g tokens) none = none
written (commits f now p c g tokens) (some r) = some (commit_row now r.refresh_token tokens r)
written (patches merge f now p c g tokens) none = none
written (patches merge f now p c g tokens) (some r) = elim (merge r.metadata) [
  | none ↦ some r
  | some m ↦ some (commit_meta_row now r.refresh_token tokens m r)
]
written (releases f now p c g only_if_expired) none = none
written (releases f now p c g only_if_expired) (some r) = some (release_row now r)
written (deletes f p c) o = none

-- Whether the call succeeds when it finds `o`: a writing call that rereads the row fails when that
-- read does, and a release that has nothing to clear succeeds.
abbrev pub answers : Call → Option Bundle → Bool
answers (releases f now p c g only_if_expired) (some r) =
    not (f.at_begin || f.at_get)
    && (not (r.generation == g)
        || (only_if_expired && runs_past now r)
        || not (f.at_exec || f.at_commit))
answers (saves f now p c tokens) o = writes (saves f now p c tokens) o && not f.at_reread
answers (commits f now p c g tokens) o = writes (commits f now p c g tokens) o && not f.at_reread
answers (patches merge f now p c g tokens) o =
    writes (patches merge f now p c g tokens) o && not f.at_reread
answers c o = writes c o

-- The row of (`q`, `d`) after a call.
abbrev pub next : String → String → Call → Option Bundle → Option Bundle
next q d c o = if is_for q d c && writes c o then written c o else o

abbrev pub is_ok {ℓ} : {A : Type ℓ} → Result A → Bool
is_ok (ok x) = true
is_ok (err e) = false

-- The row that a call is about, and whether the call succeeds.
abbrev pub own_row : Call → Table → Option Bundle
own_row (saves f now p c tokens) t = find_row p c t
own_row (reserves f now p c ttl) t = find_row p c t
own_row (commits f now p c g tokens) t = find_row p c t
own_row (patches merge f now p c g tokens) t = find_row p c t
own_row (releases f now p c g only_if_expired) t = find_row p c t
own_row (deletes f p c) t = find_row p c t

abbrev pub succeeds : Call → Table → Bool
succeeds (saves f now p c tokens) t = is_ok (save f now p c tokens t).1
succeeds (reserves f now p c ttl) t = is_ok (reserve f now p c ttl t).1
succeeds (commits f now p c g tokens) t = is_ok (commit f now p c g tokens t).1
succeeds (patches merge f now p c g tokens) t =
    is_ok (commit_with_meta_patch merge f now p c g tokens t).1
succeeds (releases f now p c g only_if_expired) t = is_ok (release f now p c g only_if_expired t).1
succeeds (deletes f p c) t = is_ok (delete f p c t).1

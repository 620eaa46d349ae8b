-- ===== src/Tokenvault/Locks.antt =====
-- The refresh lock of internal/tokenvault/vault.go: who may reserve a credential, and when.
use kiroxy.Prelude.{
  ℕ, ◌+◌, ◌*◌, ◌/◌, ◌<◌, ◌≡◌, ◌≢◌, refl, sym, ◌∙◌, String, str_eq, eq_iff, true, false, ◌&&◌, List,
  [], ◌∷◌, Option, some, arith, ◌⊎◌, All, some_inj,
}
use kiroxy.Tokenvault.Sql.{Bundle, Table, nanos_per_milli, find_row, scan_bundle}
use kiroxy.Tokenvault.Machine.{
  Step, stays, saved, reserved, committed, patched, released, deleted, apply-Step,
  find_row-update_row, reserve_row-KeepsKey, release_row-KeepsKey,
}
use kiroxy.Tokenvault.Generations.{find_row-reserve}
use kiroxy.Tokenvault.Outcomes.{reserve-ok}
use kiroxy.Tokenvault.{
  Faults, no_faults, ok, err, lock_held, lock_ttl, get, reserve, reserve_row, release, release_row,
  Call, saves, reserves, commits, patches, releases, deletes, apply, run,
}

-- The lock's expiry as the vault reads it back: whole milliseconds.
abbrev pub lock_expiry : ℕ → ℕ → ℕ
lock_expiry now ttl = (now + lock_ttl ttl) / nanos_per_milli * nanos_per_milli

-- A call that may run while the key's lock of generation `g` is in force up to `until`: anything
-- on another credential, a reservation before that time, and a commit or a release by a caller
-- that holds another generation.
abbrev pub RespectsLock : String → String → ℕ → ℕ → Call → Type 0
RespectsLock q d g until (saves f now p c tokens) = (str_eq p q && str_eq c d) ≡ false
RespectsLock q d g until (reserves f now p c ttl) =
    ((str_eq p q && str_eq c d) ≡ false) ⊎ (now < until)
RespectsLock q d g until (commits f now p c g' tokens) =
    ((str_eq p q && str_eq c d) ≡ false) ⊎ (g' ≢ g)
RespectsLock q d g until (patches merge f now p c g' tokens) =
    ((str_eq p q && str_eq c d) ≡ false) ⊎ (g' ≢ g)
RespectsLock q d g until (releases f now p c g' only_if_expired) =
    ((str_eq p q && str_eq c d) ≡ false) ⊎ (g' ≢ g)
RespectsLock q d g until (deletes f p c) = (str_eq p q && str_eq c d) ≡ false

-- The row is locked at generation `g` up to `until`.
record IsLocked (g until : ℕ) (r : Bundle) : Type 0 where
  in_progress : r.refresh_in_progress ≡ true
  expiry : (scan_bundle r).refresh_lock_expires_at ≡ until
  has_token : r.refresh_token ≢ ""
  at_generation : r.generation ≡ g

Step-IsLocked :
    (q d : String) (g until : ℕ) {o o' : Option Bundle} {c : Call} (r : Bundle)
    → RespectsLock q d g until c
    → o ≡ some r
    → IsLocked g until r
    → Step q d o o' c
    → o' ≡ some r
Step-IsLocked q d g until r respects e l (stays e') = ground arith
Step-IsLocked q d g until r respects e l (saved e') =
    absurd (ground (arith, eq_iff q q, eq_iff d d))
Step-IsLocked q d g until r respects e l (reserved s e' token free e'') =
    absurd (ground (arith, eq_iff q q, eq_iff d d))
Step-IsLocked q d g until r respects e l (committed s e' h e'') =
    absurd (ground (arith, eq_iff q q, eq_iff d d))
Step-IsLocked q d g until r respects e l (patched s m e' h m' e'') =
    absurd (ground (arith, eq_iff q q, eq_iff d d))
Step-IsLocked q d g until r respects e l (released s e' h e'') =
    absurd (ground (arith, eq_iff q q, eq_iff d d))
Step-IsLocked q d g until r respects e l (deleted e') =
    absurd (ground (arith, eq_iff q q, eq_iff d d))

run-IsLocked :
    (q d : String) (g until : ℕ) (r : Bundle) (cs : List Call) (t : Table)
    → All (RespectsLock q d g until) cs
    → find_row q d t ≡ some r
    → IsLocked g until r
    → find_row q d (run cs t) ≡ some r
unfolding run
run-IsLocked q d g until r [] t respects e l = e
run-IsLocked q d g until r (c ∷ cs) t respects e l =
    run-IsLocked q d g until r cs (apply c t) respects.1
      (Step-IsLocked q d g until r respects.0 e l (apply-Step q d t c)) l

reserve_locked :
    (now : ℕ) (p c : String) (ttl g until : ℕ) (t : Table) (r : Bundle)
    → find_row p c t ≡ some r
    → IsLocked g until r
    → now < until
    → reserve no_faults now p c ttl t ≡ (t, err lock_held)
unfolding reserve get scan_bundle
reserve_locked now p c ttl g until t r e l h = ground (arith, eq_iff r.refresh_token "")

reserve_row-IsLocked :
    (now ttl g : ℕ) (r : Bundle)
    → r.refresh_token ≢ ""
    → r.generation ≡ g
    → IsLocked g (lock_expiry now ttl) (reserve_row now (now + lock_ttl ttl) r)
unfolding reserve_row scan_bundle
reserve_row-IsLocked now ttl g r h gen = record {
  in_progress = refl;
  expiry = ground arith;
  has_token = h;
  at_generation = gen;
}

-- Mutual exclusion: once a caller has reserved a credential, and as long as the others respect its
-- lock, every later reservation before the lock expires, with no fault of the database, fails with
-- `ErrLockHeld`.
pub reserve_excludes :
    (f : Faults) (now now' : ℕ) (p c : String) (ttl ttl' g : ℕ) (token : String) (t t' : Table)
    (cs : List Call)
    → reserve f now p c ttl t ≡ (t', ok (token, g))
    → All (RespectsLock p c g (lock_expiry now ttl)) cs
    → now' < lock_expiry now ttl
    → reserve no_faults now' p c ttl' (run cs t') ≡ (run cs t', err lock_held)
reserve_excludes f now now' p c ttl ttl' g token t t' cs held respects early =
    let (r, found, _, gen, some_token) = find_row-reserve f now p c ttl g token t t' held in
    let l = reserve_row-IsLocked now ttl g r some_token gen in
    reserve_locked now' p c ttl' g _ (run cs t') _ (run-IsLocked p c g _ _ cs t' respects found l) l
      early

find_row-release :
    (now : ℕ) (p c : String) (g : ℕ) (t : Table) (r : Bundle)
    → find_row p c t ≡ some r
    → r.generation ≡ g
    → find_row p c (release no_faults now p c g false t).0 ≡ some (release_row now r)
unfolding release get scan_bundle
find_row-release now p c g t r e gen = ground (
  arith,
  find_row-update_row p c p c g (release_row now) t r (release_row-KeepsKey now) e gen,
  eq_iff p p,
  eq_iff c c,
)

-- A credential that nobody has reserved can be reserved.
reserve_free :
    (now : ℕ) (p c : String) (ttl : ℕ) (t : Table) (r : Bundle)
    → find_row p c t ≡ some r
    → r.refresh_token ≢ ""
    → r.refresh_in_progress ≡ false
    → (reserve no_faults now p c ttl t).1 ≡ ok (r.refresh_token, r.generation)
unfolding reserve get scan_bundle
reserve_free now p c ttl t r e h free = ground (arith, eq_iff r.refresh_token "")

third_reserve :
    (now expires now'' : ℕ) (p c : String) (ttl'' : ℕ) {g : ℕ} {token : String} (t : Table)
    (r : Bundle)
    → r.refresh_token ≡ token
    → r.generation ≡ g
    → r.refresh_token ≢ ""
    → find_row p c t ≡ some (reserve_row now expires r)
    → (reserve no_faults now'' p c ttl'' (release no_faults now'' p c g false t).0).1
      ≡ ok (token, g)
unfolding reserve_row release_row
third_reserve now expires now'' p c ttl'' {g} {token} t r tok gen h found =
    reserve_free now'' p c ttl'' _ (release_row now'' (reserve_row now expires r))
      (find_row-release now'' p c g t (reserve_row now expires r) found gen) h refl
    ∙ ground arith

-- Reserving again does not change the generation, so a caller whose lock has expired and has been
-- taken over still frees its successor's lock when its own refresh fails: right after that release a
-- third reservation of the same generation succeeds, however long the second lock had to run.
release_frees_successor :
    (f f' : Faults) (now now' now'' : ℕ) (p c : String) (ttl ttl' ttl'' g g' : ℕ)
    (token token' : String) (t t' t'' : Table)
    → reserve f now p c ttl t ≡ (t', ok (token, g))
    → reserve f' now' p c ttl' t' ≡ (t'', ok (token', g'))
    → (reserve no_faults now'' p c ttl'' (release no_faults now'' p c g false t'').0).1
      ≡ ok (token, g)
release_frees_successor f f' now now' now'' p c ttl ttl' ttl'' g g' token token' t t' t'' h h' =
    let (r, found, tok, gen, some_token) = find_row-reserve f now p c ttl g token t t' h in
    let (r', found', tok', gen', some_token', e) =
      reserve-ok f' now' p c ttl' g' token' t' t'' h' in
    let held = reserve_row now (now + lock_ttl ttl) r in
    let k = reserve_row-KeepsKey now' (now' + lock_ttl ttl') in
    let second : find_row p c t'' ≡ some (reserve_row now' (now' + lock_ttl ttl') r') = rw e (
      find_row-update_row p c p c g' _ t' r' k found' gen'
      ∙ ground (arith, eq_iff p p, eq_iff c c)) in
    let same : r' ≡ held = some_inj (sym found' ∙ found) in
    third_reserve now' (now' + lock_ttl ttl') now'' p c ttl'' t'' r'
      (rw same (unfold reserve_row in tok)) (rw same (unfold reserve_row in gen)) some_token' second

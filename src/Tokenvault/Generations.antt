-- ===== src/Tokenvault/Generations.antt =====
-- The generation counter of internal/tokenvault/vault.go, by which a commit tells that somebody else
-- rotated the credential since the reservation.
use kiroxy.Prelude.{
  ℕ, ◌+◌, ◌≤◌, ◌<◌, ◌≡◌, ◌≢◌, refl, ◌∙◌, String, str_eq, eq_iff, false, ◌&&◌, List, [], ◌∷◌, Option,
  none, some, arith, inl, inr, Option-cases, All,
}
use kiroxy.Tokenvault.Sql.{Bundle, Table, find_row, scan_bundle}
use kiroxy.Tokenvault.Rows.{find_row-upsert, find_row-delete_row}
use kiroxy.Tokenvault.Outcomes.{commit-ok, reserve-ok}
use kiroxy.Tokenvault.Machine.{
  Step, stays, saved, reserved, committed, patched, released, deleted, apply-Step,
  find_row-update_row, commit_row-KeepsKey, reserve_row-KeepsKey, has_key-saved_row,
}
use kiroxy.Tokenvault.{
  lock_ttl, Faults, no_faults, ok, err, generation_stale, Tokens, prior_generation, get, save,
  saved_row, reserve, reserve_row, commit, commit_row, commit_meta_row, release_row, delete, Call,
  deletes, apply, run,
}

-- The generation of a credential, 0 where there is none.
abbrev pub generation_at : String → String → Table → ℕ
generation_at q d t = prior_generation (find_row q d t)

-- A call other than a deletion of the key.
abbrev pub SparesKey : String → String → Call → Type 0
SparesKey q d (deletes f p c) = (str_eq p q && str_eq c d) ≡ false
SparesKey q d _ = Unit

Step-generation :
    (q d : String) {o o' : Option Bundle} {c : Call}
    → SparesKey q d c
    → Step q d o o' c
    → prior_generation o ≤ prior_generation o'
unfolding saved_row reserve_row commit_meta_row release_row
Step-generation q d spares (stays e) = ground arith
Step-generation q d {o = none} spares (saved e) = ground arith
Step-generation q d {o = some r} spares (saved e) = ground arith
Step-generation q d spares (reserved r e token free e') = ground arith
Step-generation q d spares (committed r e g e') = ground arith
Step-generation q d spares (patched r m e g e'' e') = ground arith
Step-generation q d spares (released r e g e') = ground arith
Step-generation q d spares (deleted e) = absurd (ground (arith, eq_iff q q, eq_iff d d))

run-generation :
    (q d : String) (cs : List Call) (t : Table)
    → All (SparesKey q d) cs
    → generation_at q d t ≤ generation_at q d (run cs t)
unfolding run
run-generation q d [] t spares = omega arith
run-generation q d (c ∷ cs) t spares = omega (
  arith,
  Step-generation q d spares.0 (apply-Step q d t c),
  run-generation q d cs (apply c t) spares.1,
)

commit-generation_at :
    (f : Faults) (now : ℕ) (p c : String) (g : ℕ) (tokens : Tokens) (t t' : Table) (b : Bundle)
    → commit f now p c g tokens t ≡ (t', ok b)
    → generation_at p c t' ≡ g + 1
unfolding commit_row
commit-generation_at f now p c g tokens t t' b h =
    let (r, found, gen, e) = commit-ok f now p c g tokens t t' b h in
    let k = commit_row-KeepsKey now r.refresh_token tokens in
    rw e (ground (arith, find_row-update_row p c p c g _ t r k found gen, eq_iff p p, eq_iff c c))

-- A commit at another generation than the row's is refused and changes nothing.
pub commit_stale :
    (now : ℕ) (p c : String) (g : ℕ) (tokens : Tokens) (t : Table)
    → g < generation_at p c t
    → commit no_faults now p c g tokens t ≡ (t, err generation_stale)
unfolding commit get scan_bundle
commit_stale now p c g tokens t h = elim (Option-cases (find_row p c t)) [
  | inl e ↦ absurd (ground arith)
  | inr (r, e) ↦ ground arith
]

-- A reserved generation is good for one commit: after a commit at `g` that succeeded, and any calls
-- by anybody that do not delete the credential, a commit at `g`, with no fault of the database, fails
-- with `ErrGenerationStale` and leaves the table as it is.
pub commit_once :
    (f : Faults) (now now' : ℕ) (p c : String) (g : ℕ) (tokens tokens' : Tokens) (t t' : Table)
    (b : Bundle) (cs : List Call)
    → commit f now p c g tokens t ≡ (t', ok b)
    → All (SparesKey p c) cs
    → commit no_faults now' p c g tokens' (run cs t') ≡ (run cs t', err generation_stale)
commit_once f now now' p c g tokens tokens' t t' b cs h spares =
    commit_stale now' p c g tokens' (run cs t') (
      omega
        (arith, commit-generation_at f now p c g tokens t t' b h, run-generation p c cs t' spares))

-- A reservation leaves the generation, and its row is locked until the time it wrote.
pub find_row-reserve :
    (f : Faults) (now : ℕ) (p c : String) (ttl g : ℕ) (token : String) (t t' : Table)
    → reserve f now p c ttl t ≡ (t', ok (token, g))
    → (r : Bundle) × (find_row p c t' ≡ some (reserve_row now (now + lock_ttl ttl) r))
      × (r.refresh_token ≡ token)
      × (r.generation ≡ g)
      × (r.refresh_token ≢ "")
find_row-reserve f now p c ttl g token t t' h =
    let (r, found, tok, gen, some_token, e) = reserve-ok f now p c ttl g token t t' h in
    let k = reserve_row-KeepsKey now (now + lock_ttl ttl) in
    (
      r,
      rw e (
          find_row-update_row p c p c g _ t r k found gen ∙ ground (arith, eq_iff p p, eq_iff c c)),
      tok,
      gen,
      some_token,
    )

-- A commit at the row's own generation.
commit_fresh :
    (now : ℕ) (p c : String) (g : ℕ) (tokens : Tokens) (t : Table) (r : Bundle)
    → find_row p c t ≡ some r
    → r.generation ≡ g
    → let row = commit_row now r.refresh_token tokens r in
      (find_row p c (commit no_faults now p c g tokens t).0 ≡ some row)
      × ((commit no_faults now p c g tokens t).1 ≡ ok (scan_bundle row))
unfolding commit get scan_bundle
commit_fresh now p c g tokens t r found same =
    let k = commit_row-KeepsKey now r.refresh_token tokens in
    let e = find_row-update_row p c p c g _ t r k found same in
    (ground (arith, e, eq_iff p p, eq_iff c c), ground (arith, e, eq_iff p p, eq_iff c c))

-- Generations start again at 1 when a credential is deleted and saved anew, so a reservation made
-- at generation 1 before the deletion still commits: the stale tokens replace the saved ones.
commit_after_delete :
    (f : Faults) (now now' now'' : ℕ) (p c : String) (ttl : ℕ) (token : String)
    (saved_tokens stale_tokens : Tokens) (t t' : Table)
    → reserve f now p c ttl t ≡ (t', ok (token, 1))
    → let anew = (save no_faults now' p c saved_tokens (delete no_faults p c t').0).0 in
      let fresh = saved_row p c saved_tokens now' none in
      (find_row p c anew ≡ some fresh)
      × (find_row p c (commit no_faults now'' p c 1 stale_tokens anew).0
          ≡ some (commit_row now'' saved_tokens.refresh_token stale_tokens fresh))
commit_after_delete f now now' now'' p c ttl token saved_tokens stale_tokens t t' held =
    (saved_anew, (commit_fresh now'' p c 1 stale_tokens _ _ saved_anew first).0 ∙ refreshed)
  where
    gone : find_row p c (delete no_faults p c t').0 ≡ none
    gone = unfold delete in find_row-delete_row p c p c t' ∙ ground (arith, eq_iff p p, eq_iff c c)

    fresh : Bundle
    fresh = saved_row p c saved_tokens now' none

    saved_anew :
        find_row p c (save no_faults now' p c saved_tokens (delete no_faults p c t').0).0
        ≡ some fresh
    saved_anew =
        unfold save get in
        rw gone (
          find_row-upsert p c fresh _
          ∙ ground
              (arith, has_key-saved_row p c p c saved_tokens now' none, eq_iff p p, eq_iff c c))

    first : fresh.generation ≡ 1
    first = unfold saved_row in refl

    refreshed :
        some (commit_row now'' fresh.refresh_token stale_tokens fresh)
        ≡ some (commit_row now'' saved_tokens.refresh_token stale_tokens fresh)
    refreshed = unfold saved_row in refl

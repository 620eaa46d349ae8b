-- ===== src/Tokenvault/Tests.antt =====
-- Runs of the vault of internal/tokenvault/vault.go on one credential, and the theorems at them.
use kiroxy.Prelude.{◌≡◌, refl, String, [], ◌∷◌, none, arith, true}
use kiroxy.Tokenvault.Sql.{Table, find_row, scan_bundle, has_key, update_where}
use kiroxy.Tokenvault.Contract.{next, answers, own_row, succeeds}
use kiroxy.Tokenvault.Transitions.{apply-next}
use kiroxy.Tokenvault.Generations.{commit_once}
use kiroxy.Tokenvault.Locks.{reserve_excludes}
use kiroxy.Tokenvault.{
  no_faults, err, lock_held, generation_stale, Tokens, saved_row, reserve, commit, Call, reserves,
  releases, apply, run, get,
}

abbrev tokens : String → Tokens
tokens s = record { access_token = s; refresh_token = s; source = ""; metadata = "" }

-- One credential, at generation 1.
abbrev one : Table
one = saved_row "kiro" "a" (tokens "r1") 0 none ∷ []

abbrev second : Table
second = (reserve no_faults 5_000_000 "kiro" "a" 1_000_000_000 one).0

-- A release of expired locks only, while the lock is in force.
abbrev early : Call
early = releases no_faults 6_000_000 "kiro" "a" 1 true

apply-next_example :
    (find_row "kiro" "a" (apply early second) ≡ next "kiro" "a" early (find_row "kiro" "a" second))
    × (succeeds early second ≡ answers early (own_row early second))
apply-next_example = apply-next second "kiro" "a" early

commit_once_example :
    let after = (commit no_faults 7 "kiro" "a" 1 (tokens "r2") one).0 in
    commit no_faults 9 "kiro" "a" 1
      (tokens "r3")
      (run (reserves no_faults 8 "kiro" "a" 0 ∷ []) after)
    ≡ (run (reserves no_faults 8 "kiro" "a" 0 ∷ []) after, err generation_stale)
unfolding commit saved_row find_row has_key update_where scan_bundle get
commit_once_example =
    commit_once no_faults 7 9 "kiro" "a" 1 (tokens "r2") (tokens "r3") one _ _
      (reserves no_faults 8 "kiro" "a" 0 ∷ []) refl (tt, tt)

reserve_excludes_example :
    reserve no_faults 6_000_000 "kiro" "a" 0 (run [] second) ≡ (run [] second, err lock_held)
unfolding reserve saved_row find_row has_key update_where scan_bundle get
reserve_excludes_example =
    reserve_excludes no_faults 5_000_000 6_000_000 "kiro" "a" 1_000_000_000 0 1 "r1" one _ [] refl
      tt (omega arith)

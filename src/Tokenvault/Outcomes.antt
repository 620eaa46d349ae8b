-- ===== src/Tokenvault/Outcomes.antt =====
-- The two things that a call of internal/tokenvault/vault.go may do to the table: nothing, or its
-- one statement, under the conditions that the code checks first.
use kiroxy.Prelude.{
  ℕ, ◌+◌, ◌≤◌, ◌≡◌, ◌≢◌, String, eq_iff, Bool, false, Option, some, arith, inl, inr, ◌⊎◌,
  Option-cases,
}
use kiroxy.Tokenvault.Sql.{Bundle, Table, find_row, update_where, upsert, scan_bundle}
use kiroxy.Tokenvault.{
  Faults, ok, Tokens, lock_ttl, get, save, saved_row, reserve, reserve_row, commit, commit_row,
  commit_meta_row, commit_with_meta_patch, release, release_row,
}

module _ (f : Faults) (now : ℕ) (p c : String) (t : Table) where
  pub save_cases :
      (tokens : Tokens)
      → ((save f now p c tokens t).0 ≡ t)
        ⊎ ((save f now p c tokens t).0 ≡ upsert (saved_row p c tokens now (find_row p c t)) t)
  unfolding save saved_row get scan_bundle
  save_cases tokens = ground arith

  pub reserve_cases :
      (ttl : ℕ)
      → ((reserve f now p c ttl t).0 ≡ t)
        ⊎ ((r : Bundle) × (find_row p c t ≡ some r)
            × (r.refresh_token ≢ "")
            × ((r.refresh_in_progress ≡ false) ⊎ ((scan_bundle r).refresh_lock_expires_at ≤ now))
            × ((reserve f now p c ttl t).0
                ≡ update_where p c r.generation (reserve_row now (now + lock_ttl ttl)) t))
  unfolding reserve get scan_bundle
  reserve_cases ttl = elim (Option-cases (find_row p c t)) [
    | inl e ↦ inl (ground arith)
    | inr (r, e) ↦ ground (arith, eq_iff r.refresh_token "")
  ]

  pub commit_cases :
      (g : ℕ) (tokens : Tokens)
      → ((commit f now p c g tokens t).0 ≡ t)
        ⊎ ((r : Bundle) × (find_row p c t ≡ some r)
            × (r.generation ≡ g)
            × ((commit f now p c g tokens t).0
                ≡ update_where p c g (commit_row now r.refresh_token tokens) t))
  unfolding commit get scan_bundle
  commit_cases g tokens = elim (Option-cases (find_row p c t)) [
    | inl e ↦ inl (ground arith)
    | inr (r, e) ↦ ground arith
  ]

  pub commit_with_meta_patch_cases :
      (merge : String → Option String) (g : ℕ) (tokens : Tokens)
      → ((commit_with_meta_patch merge f now p c g tokens t).0 ≡ t)
        ⊎ ((r : Bundle) × (m : String) × (find_row p c t ≡ some r)
            × (r.generation ≡ g)
            × (merge r.metadata ≡ some m)
            × ((commit_with_meta_patch merge f now p c g tokens t).0
                ≡ update_where p c g (commit_meta_row now r.refresh_token tokens m) t))
  unfolding commit_with_meta_patch get scan_bundle
  commit_with_meta_patch_cases merge g tokens = elim (Option-cases (find_row p c t)) [
    | inl e ↦ inl (ground arith)
    | inr (r, e) ↦ elim (Option-cases (merge r.metadata)) [
      | inl n ↦ inl (ground arith)
      | inr (m, n) ↦ ground arith
    ]
  ]

  pub release_cases :
      (g : ℕ) (only_if_expired : Bool)
      → ((release f now p c g only_if_expired t).0 ≡ t)
        ⊎ ((r : Bundle) × (find_row p c t ≡ some r)
            × (r.generation ≡ g)
            × ((release f now p c g only_if_expired t).0 ≡ update_where p c g (release_row now) t))
  unfolding release get scan_bundle
  release_cases g only_if_expired = elim (Option-cases (find_row p c t)) [
    | inl e ↦ inl (ground arith)
    | inr (r, e) ↦ ground arith
  ]

-- A commit that succeeds found the reserved generation, and its row holds the new tokens under the
-- next generation, the old refresh token kept for audit and the reservation cleared.
pub commit-ok :
    (f : Faults) (now : ℕ) (p c : String) (g : ℕ) (tokens : Tokens) (t t' : Table) (b : Bundle)
    → commit f now p c g tokens t ≡ (t', ok b)
    → (r : Bundle) × (find_row p c t ≡ some r)
      × (r.generation ≡ g)
      × (t' ≡ update_where p c g (commit_row now r.refresh_token tokens) t)
unfolding commit get scan_bundle
commit-ok f now p c g tokens t t' b h = elim (Option-cases (find_row p c t)) [
  | inl e ↦ absurd (ground arith)
  | inr (r, e) ↦ (r, e, ground arith, ground arith)
]

-- A reservation that succeeds found a row with a refresh token and no lock in force, and returns
-- that token and the row's generation.
pub reserve-ok :
    (f : Faults) (now : ℕ) (p c : String) (ttl g : ℕ) (token : String) (t t' : Table)
    → reserve f now p c ttl t ≡ (t', ok (token, g))
    → (r : Bundle) × (find_row p c t ≡ some r)
      × (r.refresh_token ≡ token)
      × (r.generation ≡ g)
      × (r.refresh_token ≢ "")
      × (t' ≡ update_where p c g (reserve_row now (now + lock_ttl ttl)) t)
unfolding reserve get scan_bundle
reserve-ok f now p c ttl g token t t' h = elim (Option-cases (find_row p c t)) [
  | inl e ↦ absurd (ground arith)
  | inr (r, e) ↦ ground (arith, eq_iff r.refresh_token "")
]

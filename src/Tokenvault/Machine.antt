-- ===== src/Tokenvault/Machine.antt =====
-- What internal/tokenvault/vault.go promises of one credential: a state machine on its row, in which
-- the calls on other credentials do nothing.
use kiroxy.Prelude.{
  ℕ, ◌+◌, ◌≤◌, ◌≡◌, ◌≢◌, refl, ap, subst, ◌∙◌, String, str_eq, eq_iff, Bool, false, ◌&&◌,
  if◌then◌else◌, Option, none, some, arith, inl, inr, ◌⊎◌, Bool-cases, Option-cases,
}
use kiroxy.Tokenvault.Sql.{
  Bundle, Table, has_key, find_row, update_where, upsert, delete_row, scan_bundle,
}
use kiroxy.Tokenvault.Rows.{
  KeepsKey, find_row-has_key, find_row-update_where, find_row-upsert, find_row-delete_row,
  has_key-same,
}
use kiroxy.Tokenvault.Outcomes.{
  save_cases, reserve_cases, commit_cases, commit_with_meta_patch_cases, release_cases,
}
use kiroxy.Tokenvault.{
  Faults, Tokens, lock_ttl, save, saved_row, reserve, reserve_row, commit, commit_row,
  commit_meta_row, commit_with_meta_patch, release, release_row, delete, Call, saves, reserves,
  commits, patches, releases, deletes, apply,
}

-- How a call takes the row of (`q`, `d`) from `o` to `o'`.
pub data Step (q d : String) (o o' : Option Bundle) : Call → Type 0 where
  stays : {c : Call} → o' ≡ o → Step q d o o' c
  saved :
      {f : Faults} {now : ℕ} {tokens : Tokens}
      → o' ≡ some (saved_row q d tokens now o)
      → Step q d o o' (saves f now q d tokens)
  reserved :
      {f : Faults} {now ttl : ℕ} (r : Bundle)
      → o ≡ some r
      → r.refresh_token ≢ ""
      → (r.refresh_in_progress ≡ false) ⊎ ((scan_bundle r).refresh_lock_expires_at ≤ now)
      → o' ≡ some (reserve_row now (now + lock_ttl ttl) r)
      → Step q d o o' (reserves f now q d ttl)
  committed :
      {f : Faults} {now g : ℕ} {tokens : Tokens} (r : Bundle)
      → o ≡ some r
      → r.generation ≡ g
      → o' ≡ some (commit_row now r.refresh_token tokens r)
      → Step q d o o' (commits f now q d g tokens)
  patched :
      {merge : String → Option String} {f : Faults} {now g : ℕ} {tokens : Tokens} (r : Bundle)
      (m : String)
      → o ≡ some r
      → r.generation ≡ g
      → merge r.metadata ≡ some m
      → o' ≡ some (commit_meta_row now r.refresh_token tokens m r)
      → Step q d o o' (patches merge f now q d g tokens)
  released :
      {f : Faults} {now g : ℕ} {only_if_expired : Bool} (r : Bundle)
      → o ≡ some r
      → r.generation ≡ g
      → o' ≡ some (release_row now r)
      → Step q d o o' (releases f now q d g only_if_expired)
  deleted : {f : Faults} → o' ≡ none → Step q d o o' (deletes f q d)

pub reserve_row-KeepsKey : (now e : ℕ) → KeepsKey (reserve_row now e)
unfolding reserve_row has_key
reserve_row-KeepsKey now e p c r = refl

pub commit_row-KeepsKey :
    (now : ℕ) (old : String) (tokens : Tokens) → KeepsKey (commit_row now old tokens)
unfolding commit_row has_key
commit_row-KeepsKey now old tokens p c r = refl

pub commit_meta_row-KeepsKey :
    (now : ℕ) (old : String) (tokens : Tokens) (m : String)
    → KeepsKey (commit_meta_row now old tokens m)
unfolding commit_meta_row has_key
commit_meta_row-KeepsKey now old tokens m p c r = refl

pub release_row-KeepsKey : (now : ℕ) → KeepsKey (release_row now)
unfolding release_row has_key
release_row-KeepsKey now p c r = refl

-- An UPDATE of the row that a key has, at its generation, as seen from any key.
pub find_row-update_row :
    (p c q d : String) (g : ℕ) (f : Bundle → Bundle) (t : Table) (r : Bundle)
    → KeepsKey f
    → find_row p c t ≡ some r
    → r.generation ≡ g
    → find_row q d (update_where p c g f t)
      ≡ (if str_eq p q && str_eq c d then some (f r) else find_row q d t)
find_row-update_row p c q d g f t r k e h =
    rw (find_row-update_where p c q d g f t k) (elim (Bool-cases (str_eq p q && str_eq c d)) [
      | inl same ↦ ground (arith, eq_iff p q, eq_iff c d, find_row-has_key p c t r)
      | inr other ↦ elim (Option-cases (find_row q d t)) [
        | inl n ↦ ground arith
        | inr (s, n) ↦ ground (arith, has_key-same p c q d s, find_row-has_key q d t s)
      ]
    ])

pub has_key-saved_row :
    (p c q d : String) (tokens : Tokens) (now : ℕ) (o : Option Bundle)
    → has_key q d (saved_row p c tokens now o) ≡ (str_eq p q && str_eq c d)
unfolding has_key saved_row
has_key-saved_row p c q d tokens now o = refl

-- One call as seen from one key: `self` is the step if the key is the call's own.
Step-of_keys :
    (p c q d : String) (t t' : Table) (call : Call)
    → Step p c (find_row p c t) (find_row p c t') call
    → ((str_eq p q && str_eq c d) ≡ false → find_row q d t' ≡ find_row q d t)
    → Step q d (find_row q d t) (find_row q d t') call
Step-of_keys p c q d t t' call self other = elim (Bool-cases (str_eq p q && str_eq c d)) [
  | inl same ↦
      let e : p ≡ q = ground (arith, eq_iff p q) in
      let e' : c ≡ d = ground (arith, eq_iff c d) in
      subst (λ d. Step q d (find_row q d t) (find_row q d t') call) e'
        (subst (λ q. Step q c (find_row q c t) (find_row q c t') call) e self)
  | inr differ ↦ stays (other differ)
]

module _ (q d : String) (t : Table) where
  save-Step :
      (f : Faults) (now : ℕ) (p c : String) (tokens : Tokens)
      → Step q d
          (find_row q d t)
          (find_row q d (save f now p c tokens t).0)
          (saves f now p c tokens)
  save-Step f now p c tokens = elim (save_cases f now p c t tokens) [
    | inl e ↦ stays (ap (find_row q d) e)
    | inr e ↦
        let row = saved_row p c tokens now (find_row p c t) in
        rw e (
          Step-of_keys p c q d t (upsert row t) _
            (saved (
              rw (find_row-upsert p c row t, has_key-saved_row p c p c tokens now _)
                (ground (arith, eq_iff p p, eq_iff c c))))
            (λ differ.
              rw (find_row-upsert q d row t, has_key-saved_row p c q d tokens now _, differ) refl))
  ]

  reserve-Step :
      (f : Faults) (now : ℕ) (p c : String) (ttl : ℕ)
      → Step q d
          (find_row q d t)
          (find_row q d (reserve f now p c ttl t).0)
          (reserves f now p c ttl)
  reserve-Step f now p c ttl = elim (reserve_cases f now p c t ttl) [
    | inl e ↦ stays (ap (find_row q d) e)
    | inr (r, found, token, free, e) ↦
        let k = reserve_row-KeepsKey now (now + lock_ttl ttl) in
        rw e (
          Step-of_keys p c q d t _ _
            (reserved r found token free (
              find_row-update_row p c p c r.generation _ t r k found refl
              ∙ ground (arith, eq_iff p p, eq_iff c c)))
            (λ differ. find_row-update_row p c q d r.generation _ t r k found refl ∙ rw differ))
  ]

  commit-Step :
      (f : Faults) (now : ℕ) (p c : String) (g : ℕ) (tokens : Tokens)
      → Step q d
          (find_row q d t)
          (find_row q d (commit f now p c g tokens t).0)
          (commits f now p c g tokens)
  commit-Step f now p c g tokens = elim (commit_cases f now p c t g tokens) [
    | inl e ↦ stays (ap (find_row q d) e)
    | inr (r, found, gen, e) ↦
        let k = commit_row-KeepsKey now r.refresh_token tokens in
        rw e (
          Step-of_keys p c q d t _ _
            (committed r found gen (
              find_row-update_row p c p c g _ t r k found gen
              ∙ ground (arith, eq_iff p p, eq_iff c c)))
            (λ differ. find_row-update_row p c q d g _ t r k found gen ∙ rw differ))
  ]

  commit_with_meta_patch-Step :
      (merge : String → Option String) (f : Faults) (now : ℕ) (p c : String) (g : ℕ)
      (tokens : Tokens)
      → Step q d
          (find_row q d t)
          (find_row q d (commit_with_meta_patch merge f now p c g tokens t).0)
          (patches merge f now p c g tokens)
  commit_with_meta_patch-Step merge f now p c g tokens =
      elim (commit_with_meta_patch_cases f now p c t merge g tokens) [
        | inl e ↦ stays (ap (find_row q d) e)
        | inr (r, m, found, gen, merged, e) ↦
            let k = commit_meta_row-KeepsKey now r.refresh_token tokens m in
            rw e (
              Step-of_keys p c q d t _ _
                (patched r m found gen merged (
                  find_row-update_row p c p c g _ t r k found gen
                  ∙ ground (arith, eq_iff p p, eq_iff c c)))
                (λ differ. find_row-update_row p c q d g _ t r k found gen ∙ rw differ))
      ]

  release-Step :
      (f : Faults) (now : ℕ) (p c : String) (g : ℕ) (only_if_expired : Bool)
      → Step q d
          (find_row q d t)
          (find_row q d (release f now p c g only_if_expired t).0)
          (releases f now p c g only_if_expired)
  release-Step f now p c g only_if_expired = elim (release_cases f now p c t g only_if_expired) [
    | inl e ↦ stays (ap (find_row q d) e)
    | inr (r, found, gen, e) ↦
        let k = release_row-KeepsKey now in
        rw e (
          Step-of_keys p c q d t _ _
            (released r found gen (
              find_row-update_row p c p c g _ t r k found gen
              ∙ ground (arith, eq_iff p p, eq_iff c c)))
            (λ differ. find_row-update_row p c q d g _ t r k found gen ∙ rw differ))
  ]

  delete-Step :
      (f : Faults) (p c : String)
      → Step q d (find_row q d t) (find_row q d (delete f p c t).0) (deletes f p c)
  unfolding delete
  delete-Step f p c = elim (Bool-cases f.at_exec) [
    | inl failed ↦ stays (ground arith)
    | inr done ↦ rw done (
        Step-of_keys p c q d t (delete_row p c t) _
          (deleted (find_row-delete_row p c p c t ∙ ground (arith, eq_iff p p, eq_iff c c)))
          (λ differ. find_row-delete_row p c q d t ∙ rw differ))
  ]

  -- Every call, with whatever faults, takes the row of every key by a step of the state machine, of
  -- which leaving the row alone is one.
  pub apply-Step : (c : Call) → Step q d (find_row q d t) (find_row q d (apply c t)) c
  unfolding apply
  apply-Step (saves f now p c tokens) = save-Step f now p c tokens
  apply-Step (reserves f now p c ttl) = reserve-Step f now p c ttl
  apply-Step (commits f now p c g tokens) = commit-Step f now p c g tokens
  apply-Step (patches merge f now p c g tokens) =
      commit_with_meta_patch-Step merge f now p c g tokens
  apply-Step (releases f now p c g only) = release-Step f now p c g only
  apply-Step (deletes f p c) = delete-Step f p c

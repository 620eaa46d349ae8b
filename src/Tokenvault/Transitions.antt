-- ===== src/Tokenvault/Transitions.antt =====
-- The calls of internal/tokenvault/vault.go do to the table what their contract says, and answer so.
use kiroxy.Prelude.{
  ℕ, ◌+◌, ◌≡◌, refl, subst, ◌∙◌, ap, String, str_eq, eq_iff, Bool, false, ◌&&◌, if◌then◌else◌,
  Option, arith, inl, inr, Bool-cases, Option-cases,
}
use kiroxy.Tokenvault.Sql.{Bundle, Table, find_row, scan_bundle}
use kiroxy.Tokenvault.Rows.{find_row-upsert, find_row-delete_row}
use kiroxy.Tokenvault.Outcomes.{
  save_cases, reserve_cases, commit_cases, commit_with_meta_patch_cases, release_cases,
}
use kiroxy.Tokenvault.Contract.{writes, written, answers, next, own_row, succeeds}
use kiroxy.Tokenvault.Machine.{
  reserve_row-KeepsKey, commit_row-KeepsKey, commit_meta_row-KeepsKey, release_row-KeepsKey,
  find_row-update_row, has_key-saved_row,
}
use kiroxy.Tokenvault.{
  Faults, Tokens, lock_ttl, get, save, saved_row, reserve, reserve_row, commit,
  commit_with_meta_patch, release, delete, Call, saves, reserves, commits, patches, releases,
  deletes, apply,
}

-- A call as seen from one key, when `own` says what it does to the row of its own key.
next-of_keys :
    (p c q d : String) (t t' : Table) (w : Option Bundle → Bool)
    (wr : Option Bundle → Option Bundle)
    → find_row p c t' ≡ (if w (find_row p c t) then wr (find_row p c t) else find_row p c t)
    → ((str_eq p q && str_eq c d) ≡ false → find_row q d t' ≡ find_row q d t)
    → find_row q d t' ≡ (
        if (str_eq p q && str_eq c d) && w (find_row q d t)
        then wr (find_row q d t)
        else find_row q d t)
next-of_keys p c q d t t' w wr own other = elim (Bool-cases (str_eq p q && str_eq c d)) [
  | inl same ↦
      let e : p ≡ q = ground (arith, eq_iff p q) in
      let e' : c ≡ d = ground (arith, eq_iff c d) in
      rw same (
        subst
          (λ d.
            find_row q d t' ≡ (if w (find_row q d t) then wr (find_row q d t) else find_row q d t))
          e'
          (subst
            (λ q.
              find_row q c t'
              ≡ (if w (find_row q c t) then wr (find_row q c t) else find_row q c t))
            e own))
  | inr differ ↦ rw differ (other differ)
]

module _ (q d : String) (t : Table) where
  save-next :
      (f : Faults) (now : ℕ) (p c : String) (tokens : Tokens)
      → find_row q d (save f now p c tokens t).0
        ≡ next q d (saves f now p c tokens) (find_row q d t)
  unfolding save get scan_bundle
  save-next f now p c tokens =
      let row = saved_row p c tokens now (find_row p c t) in
      next-of_keys p c q d t _ (writes (saves f now p c tokens)) (written (saves f now p c tokens))
        (ground (
          arith,
          Option-cases (find_row p c t),
          find_row-upsert p c row t,
          has_key-saved_row p c p c tokens now (find_row p c t),
          eq_iff p p,
          eq_iff c c,
        ))
        (λ differ. elim (save_cases f now p c t tokens) [
          | inl e ↦ ap (find_row q d) e
          | inr e ↦
              rw e (
                rw (find_row-upsert q d row t, has_key-saved_row p c q d tokens now _, differ) refl)
        ])

  reserve-next :
      (f : Faults) (now : ℕ) (p c : String) (ttl : ℕ)
      → find_row q d (reserve f now p c ttl t).0
        ≡ next q d (reserves f now p c ttl) (find_row q d t)
  unfolding reserve get scan_bundle
  reserve-next f now p c ttl =
      let k = reserve_row-KeepsKey now (now + lock_ttl ttl) in
      next-of_keys p c q d t _ (writes (reserves f now p c ttl)) (written (reserves f now p c ttl))
        (elim (Option-cases (find_row p c t)) [
          | inl e ↦ ground arith
          | inr (r, e) ↦ ground (
            arith,
            eq_iff r.refresh_token "",
            eq_iff p p,
            eq_iff c c,
            find_row-update_row p c p c r.generation (reserve_row now (now + lock_ttl ttl)) t r k e
                refl,
          )
        ])
        (λ differ. elim (reserve_cases f now p c t ttl) [
          | inl e ↦ ap (find_row q d) e
          | inr (r, found, token, free, e) ↦
              rw e (find_row-update_row p c q d r.generation _ t r k found refl ∙ rw differ)
        ])

  commit-next :
      (f : Faults) (now : ℕ) (p c : String) (g : ℕ) (tokens : Tokens)
      → find_row q d (commit f now p c g tokens t).0
        ≡ next q d (commits f now p c g tokens) (find_row q d t)
  unfolding commit get scan_bundle
  commit-next f now p c g tokens =
      next-of_keys p c q d t _ (writes (commits f now p c g tokens))
        (written (commits f now p c g tokens))
        (elim (Option-cases (find_row p c t)) [
          | inl e ↦ ground arith
          | inr (r, e) ↦
              let k = commit_row-KeepsKey now r.refresh_token tokens in
              ground (arith, eq_iff p p, eq_iff c c, find_row-update_row p c p c g _ t r k e)
        ])
        (λ differ. elim (commit_cases f now p c t g tokens) [
          | inl e ↦ ap (find_row q d) e
          | inr (r, found, gen, e) ↦
              let k = commit_row-KeepsKey now r.refresh_token tokens in
              rw e (find_row-update_row p c q d g _ t r k found gen ∙ rw differ)
        ])

  commit_with_meta_patch-next :
      (merge : String → Option String) (f : Faults) (now : ℕ) (p c : String) (g : ℕ)
      (tokens : Tokens)
      → find_row q d (commit_with_meta_patch merge f now p c g tokens t).0
        ≡ next q d (patches merge f now p c g tokens) (find_row q d t)
  unfolding commit_with_meta_patch get scan_bundle
  commit_with_meta_patch-next merge f now p c g tokens =
      next-of_keys p c q d t _ (writes (patches merge f now p c g tokens))
        (written (patches merge f now p c g tokens))
        (elim (Option-cases (find_row p c t)) [
          | inl e ↦ ground arith
          | inr (r, e) ↦ elim (Option-cases (merge r.metadata)) [
            | inl n ↦ ground arith
            | inr (m, n) ↦
                let k = commit_meta_row-KeepsKey now r.refresh_token tokens m in
                ground (arith, eq_iff p p, eq_iff c c, find_row-update_row p c p c g _ t r k e)
          ]
        ])
        (λ differ. elim (commit_with_meta_patch_cases f now p c t merge g tokens) [
          | inl e ↦ ap (find_row q d) e
          | inr (r, m, found, gen, merged, e) ↦
              let k = commit_meta_row-KeepsKey now r.refresh_token tokens m in
              rw e (find_row-update_row p c q d g _ t r k found gen ∙ rw differ)
        ])

  release-next :
      (f : Faults) (now : ℕ) (p c : String) (g : ℕ) (only_if_expired : Bool)
      → find_row q d (release f now p c g only_if_expired t).0
        ≡ next q d (releases f now p c g only_if_expired) (find_row q d t)
  unfolding release get scan_bundle
  release-next f now p c g only_if_expired =
      let k = release_row-KeepsKey now in
      next-of_keys p c q d t _ (writes (releases f now p c g only_if_expired))
        (written (releases f now p c g only_if_expired))
        (elim (Option-cases (find_row p c t)) [
          | inl e ↦ ground arith
          | inr (r, e) ↦
              ground (arith, eq_iff p p, eq_iff c c, find_row-update_row p c p c g _ t r k e)
        ])
        (λ differ. elim (release_cases f now p c t g only_if_expired) [
          | inl e ↦ ap (find_row q d) e
          | inr (r, found, gen, e) ↦
              rw e (find_row-update_row p c q d g _ t r k found gen ∙ rw differ)
        ])

  delete-next :
      (f : Faults) (p c : String)
      → find_row q d (delete f p c t).0 ≡ next q d (deletes f p c) (find_row q d t)
  unfolding delete
  delete-next f p c =
      next-of_keys p c q d t _ (writes (deletes f p c)) (written (deletes f p c))
        (ground (arith, find_row-delete_row p c p c t, eq_iff p p, eq_iff c c))
        (λ differ. ground (arith, find_row-delete_row p c q d t))

module _ (t : Table) where
  save-answers :
      (f : Faults) (now : ℕ) (p c : String) (tokens : Tokens)
      → succeeds (saves f now p c tokens) t ≡ answers (saves f now p c tokens) (find_row p c t)
  unfolding save get scan_bundle
  save-answers f now p c tokens = ground (
    arith,
    Option-cases (find_row p c t),
    find_row-upsert p c (saved_row p c tokens now (find_row p c t)) t,
    has_key-saved_row p c p c tokens now (find_row p c t),
    eq_iff p p,
    eq_iff c c,
  )

  reserve-answers :
      (f : Faults) (now : ℕ) (p c : String) (ttl : ℕ)
      → succeeds (reserves f now p c ttl) t ≡ answers (reserves f now p c ttl) (find_row p c t)
  unfolding reserve get scan_bundle
  reserve-answers f now p c ttl = elim (Option-cases (find_row p c t)) [
    | inl e ↦ ground arith
    | inr (r, e) ↦ ground (arith, eq_iff r.refresh_token "")
  ]

  commit-answers :
      (f : Faults) (now : ℕ) (p c : String) (g : ℕ) (tokens : Tokens)
      → succeeds (commits f now p c g tokens) t
        ≡ answers (commits f now p c g tokens) (find_row p c t)
  unfolding commit get scan_bundle
  commit-answers f now p c g tokens = elim (Option-cases (find_row p c t)) [
    | inl e ↦ ground arith
    | inr (r, e) ↦
        let k = commit_row-KeepsKey now r.refresh_token tokens in
        ground (arith, eq_iff p p, eq_iff c c, find_row-update_row p c p c g _ t r k e)
  ]

  commit_with_meta_patch-answers :
      (merge : String → Option String) (f : Faults) (now : ℕ) (p c : String) (g : ℕ)
      (tokens : Tokens)
      → succeeds (patches merge f now p c g tokens) t
        ≡ answers (patches merge f now p c g tokens) (find_row p c t)
  unfolding commit_with_meta_patch get scan_bundle
  commit_with_meta_patch-answers merge f now p c g tokens = elim (Option-cases (find_row p c t)) [
    | inl e ↦ ground arith
    | inr (r, e) ↦ elim (Option-cases (merge r.metadata)) [
      | inl n ↦ ground arith
      | inr (m, n) ↦
          let k = commit_meta_row-KeepsKey now r.refresh_token tokens m in
          ground (arith, eq_iff p p, eq_iff c c, find_row-update_row p c p c g _ t r k e)
    ]
  ]

  release-answers :
      (f : Faults) (now : ℕ) (p c : String) (g : ℕ) (only_if_expired : Bool)
      → succeeds (releases f now p c g only_if_expired) t
        ≡ answers (releases f now p c g only_if_expired) (find_row p c t)
  unfolding release get scan_bundle
  release-answers f now p c g only_if_expired = elim (Option-cases (find_row p c t)) [
    | inl e ↦ ground arith
    | inr (r, e) ↦ ground arith
  ]

  -- Every call, with whatever database faults, leaves in the row of every key what `next` makes of
  -- it, and succeeds just when `answers` says so. It writes to its own key only, and only when no
  -- fault comes before the end of its transaction and its guard holds: a reservation needs a refresh
  -- token and no lock in force; a commit the reserved generation, and a patch that can be written if
  -- it has one; a release that generation and, if asked to clear expired locks only, an expired one.
  pub apply-next :
      (q d : String) (call : Call)
      → (find_row q d (apply call t) ≡ next q d call (find_row q d t))
        × (succeeds call t ≡ answers call (own_row call t))
  unfolding apply delete
  apply-next q d (saves f now p c tokens) =
      (save-next q d t f now p c tokens, save-answers f now p c tokens)
  apply-next q d (reserves f now p c ttl) =
      (reserve-next q d t f now p c ttl, reserve-answers f now p c ttl)
  apply-next q d (commits f now p c g tokens) =
      (commit-next q d t f now p c g tokens, commit-answers f now p c g tokens)
  apply-next q d (patches merge f now p c g tokens) = (
    commit_with_meta_patch-next q d t merge f now p c g tokens,
    commit_with_meta_patch-answers merge f now p c g tokens,
  )
  apply-next q d (releases f now p c g only) =
      (release-next q d t f now p c g only, release-answers f now p c g only)
  apply-next q d (deletes f p c) = (delete-next q d t f p c, ground arith)

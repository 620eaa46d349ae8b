-- ===== src/Toolsearch/Search/Found.antt =====
-- internal/toolsearch/search.go: what is found is there.
use kiroxy.Prelude.{
  ℕ, zero, suc, ◌≤◌, ◌≡◌, ◌⊎◌, inl, inr, refl, Bool, true, ◌&&◌, ◌==◌, if◌then◌else◌, List, [], ◌∷◌,
  Option, map, take, drop, length, arith, Bool-cases, Option-cases,
}
use kiroxy.Prelude.Bytes.{Bytes, beq_refl, codes}
use kiroxy.Strings.Prefix.{has_prefix}
use kiroxy.Toolsearch.{Tool, SearchType, bm25, has_tool}
use kiroxy.Toolsearch.Search.{
  Scored, SearchCalls, default_max_results, split_commas, top_names, selected, tokenize,
  regex_score, word_pattern, score_tools, search_regex, positive, search_bm25, search,
}

-- A test that every element passes.
unfoldable pub every {ℓ} : {A : Type ℓ} → (A → Bool) → List A → Bool
every f [] = true
every f (x ∷ xs) = f x && every f xs

every_mono {ℓ} :
    {A : Type ℓ} (f g : A → Bool) (xs : List A)
    → ((x : A) → f x ≡ true → g x ≡ true)
    → every f xs ≡ true
    → every g xs ≡ true
unfolding every
every_mono f g [] h k = refl
every_mono f g (x ∷ xs) h k = ground (arith, h x, every_mono f g xs h)

every-has_tool : (ts : List Tool) → every (λ t. has_tool t.name ts) ts ≡ true
unfolding every has_tool
every-has_tool [] = refl
every-has_tool (t ∷ ts) = ground (
  arith,
  beq_refl t.name,
  every_mono (λ u. has_tool u.name ts) (λ u. has_tool u.name (t ∷ ts)) ts (λ u h. ground (arith, h))
      (every-has_tool ts),
)

module _ {ℓ} {A : Type ℓ} (f : A → Bool) where
  every-take : (n : ℕ) (xs : List A) → every f xs ≡ true → every f (take n xs) ≡ true
  unfolding every
  every-take zero xs h = refl
  every-take (suc n) [] h = refl
  every-take (suc n) (x ∷ xs) h = ground (arith, h, every-take n xs)

  every-map :
      {B : Type ℓ} (g : B → A) (xs : List B)
      → every (λ x. f (g x)) xs ≡ true
      → every f (map g xs) ≡ true
  unfolding every
  every-map g [] h = refl
  every-map g (x ∷ xs) h = ground (arith, h, every-map g xs)

  length-map-take : {B : Type ℓ} (g : B → A) (n : ℕ) (xs : List B) → length (map g (take n xs)) ≤ n
  length-map-take g zero xs = omega arith
  length-map-take g (suc n) [] = omega arith
  length-map-take g (suc n) (x ∷ xs) = omega (arith, length-map-take g n xs)

abbrev pub limit_of : ℕ → ℕ
limit_of n = if n == 0 then default_max_results else n

module _ (p : SearchCalls) where
  selected-have :
      (ws : List Bytes) (ts : List Tool) → every (λ n. has_tool n ts) (selected p ws ts) ≡ true
  unfolding every selected
  selected-have [] ts = refl
  selected-have (w ∷ ws) ts = ground (arith, selected-have ws ts)

  score_tools-have :
      (f : Tool → Option ℕ) (q : Bytes → Bool) (ts : List Tool)
      → every (λ t. q t.name) ts ≡ true
      → every (λ s. q s.scored_name) (score_tools p f ts) ≡ true
  unfolding every score_tools
  score_tools-have f q [] h = refl
  score_tools-have f q (t ∷ ts) h = elim (Option-cases (f t)) [
    | inl e ↦ ground (arith, e, h, score_tools-have f q ts)
    | inr (n, e) ↦ ground (arith, e, h, score_tools-have f q ts)
  ]

  -- Names of tools, no more than the limit.
  unfoldable Few : ℕ → List Tool → List Bytes → Type 0
  Few n ts names = (every (λ x. has_tool x ts) names ≡ true) × (length names ≤ n)

  module _
      (kept : (f : Scored → Bool) (xs : List Scored)
        → every f xs ≡ true
        → every f (p.sort_by_score xs) ≡ true) where
    top_names-Few :
        (f : Tool → Option ℕ) (n : ℕ) (ts : List Tool)
        → Few n ts (top_names p (score_tools p f ts) n)
    unfolding Few top_names
    top_names-Few f n ts =
        let found : Scored → Bool = λ s. has_tool s.scored_name ts in
        let scored = score_tools p f ts in
        (
          every-map (λ x. has_tool x ts) (λ s. s.scored_name) (take n (p.sort_by_score scored))
              (every-take found n (p.sort_by_score scored) (
                kept found scored
                  (score_tools-have f (λ x. has_tool x ts) ts (every-has_tool ts)))),
          length-map-take (λ x. has_tool x ts) (λ s. s.scored_name) n (p.sort_by_score scored),
        )

    search_bm25-Few : (ws : List Bytes) (ts : List Tool) (n : ℕ) → Few n ts (search_bm25 p ws ts n)
    unfolding Few search_bm25 every
    search_bm25-Few ws ts n =
        ground (arith, top_names-Few (λ t. positive p (p.bm25_score ws ts t)) n ts)

    search_regex-Few :
        (s : Bytes) (ts : List Tool) (n : ℕ) (names : List Bytes)
        → search_regex p s ts n ≡ inr names
        → Few n ts names
    unfolding Few search_regex
    search_regex-Few s ts n names h = elim (Option-cases (p.compile s)) [
      | inl e ↦ ground (arith, e, h)
      | inr (re, e) ↦
          ground (arith, e, h, top_names-Few (regex_score p s re (word_pattern p s)) n ts)
    ]

    searched :
        (query : Bytes) (ts : List Tool) (t : SearchType) (n : ℕ) (names : List Bytes)
        → ((t ≡ bm25) × (names ≡ search_bm25 p (tokenize p query) ts (limit_of n)))
          ⊎ (search_regex p query ts (limit_of n) ≡ inr names)
        → (every (λ x. has_tool x ts) names ≡ true)
          × ((has_prefix (codes "select:") query ≡ true) ⊎ (length names ≤ limit_of n))
    unfolding Few
    searched query ts t n names (inl h) =
        let few = search_bm25-Few (tokenize p query) ts (limit_of n) in
        let same = h.1 in rw same (few.0, inr (few.1))
    searched query ts t n names (inr h) =
        let few = search_regex-Few query ts (limit_of n) names h in (few.0, inr (few.1))

    -- If sorting keeps what every scored name passes, then what a search finds are names of tools,
    -- and unless the query selects them, no more than the results asked for, or 5.
    pub search-found :
        (query : Bytes) (ts : List Tool) (t : SearchType) (n : ℕ) (names : List Bytes)
        → search p query ts t n ≡ inr names
        → (every (λ x. has_tool x ts) names ≡ true)
          × ((has_prefix (codes "select:") query ≡ true) ⊎ (length names ≤ limit_of n))
    unfolding search Few
    search-found query ts t n names h = elim (Bool-cases (has_prefix (codes "select:") query)) [
      | inl e ↦ ground (arith, e, h, selected-have (split_commas (drop 7 query)) ts)
      | inr e ↦ searched query ts t n names (unfold search in ground (arith, e, h))
    ]

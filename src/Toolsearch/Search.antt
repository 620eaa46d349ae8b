-- ===== src/Toolsearch/Search.antt =====
-- internal/toolsearch/search.go: the names that a query finds.
pub mod Found
use kiroxy.Prelude.{
  ℕ, Bool, true, false, not, ◌&&◌, ◌||◌, ◌==◌, ltb, ◌⊎◌, inl, inr, if◌then◌else◌, List, [], ◌∷◌,
  ◌++◌, Option, none, some, length, take, drop, map,
}
use kiroxy.Prelude.Bytes.{Bytes, beq, codes, is_empty}
use kiroxy.Strings.Prefix.{has_prefix}
use kiroxy.Reqconv.Text.{join}
use kiroxy.Toolsearch.{Tool, SearchType, regex, bm25, has_tool}

-- `ErrInvalidPattern`, `ErrPatternTooLong`
pub data SearchError : Type 0 where
  invalid_pattern pattern_too_long : SearchError

-- `ErrorCode`
unfoldable pub error_code : SearchError → Bytes
error_code invalid_pattern = codes "invalid_pattern"
error_code pattern_too_long = codes "pattern_too_long"

-- `scored`; the scores are numbers of a common unit.
pub record Scored : Type 0 where
  pub scored_name : Bytes
  pub score : ℕ

-- What the search calls: `regexp.Compile` of a pattern with `(?i)` before it, `regexp.QuoteMeta`,
-- `strings.Fields`, `strings.ToLower`, `strings.TrimSpace`, the sort by descending scores, and the score of
-- a tool among the tools for the tokens of a query, which is computed in floating point.
pub record SearchCalls : Type 0 where
  pub compile : Bytes → Option (Bytes → Bool)
  pub quote_meta : Bytes → Bytes
  pub fields : Bytes → List Bytes
  pub to_lower : Bytes → Bytes
  pub trim_space : Bytes → Bytes
  pub sort_by_score : List Scored → List Scored
  pub bm25_score : List Bytes → List Tool → Tool → ℕ

abbrev pub default_max_results : ℕ
default_max_results = 5

-- `strings.SplitSeq(s, ",")`
unfoldable pub split_commas : Bytes → List Bytes
split_commas [] = [] ∷ []
split_commas (c ∷ s) = elim (c == 44) [
  | true ↦ [] ∷ split_commas s
  | false ↦ elim (split_commas s) [ [] ↦ (c ∷ []) ∷ [] | w ∷ ws ↦ (c ∷ w) ∷ ws ]
]

unfoldable pub spaces_for_underscores : Bytes → Bytes
spaces_for_underscores [] = []
spaces_for_underscores (c ∷ s) = (if c == 95 then 32 else c) ∷ spaces_for_underscores s

module _ (p : SearchCalls) where
  -- `topNames`
  unfoldable pub top_names : List Scored → ℕ → List Bytes
  top_names results max_results =
      map (λ s. s.scored_name) (take max_results (p.sort_by_score results))

  -- The names of a `select:` query that are those of tools.
  unfoldable pub selected : List Bytes → List Tool → List Bytes
  selected [] tools = []
  selected (w ∷ ws) tools =
      let name = p.trim_space w in
      let rest = selected ws tools in
      if has_tool name tools && not (is_empty name) then name ∷ rest else rest

  -- `tokenize`
  unfoldable pub tokenize : Bytes → List Bytes
  unfolding spaces_for_underscores
  tokenize s = p.fields (spaces_for_underscores (p.to_lower s))

  unfoldable pub quoted : List Bytes → List Bytes
  quoted [] = []
  quoted (w ∷ ws) = p.quote_meta w ∷ quoted ws

  -- `wordRe`: any of the words of the pattern, if there are two.
  unfoldable pub word_pattern : Bytes → Option (Bytes → Bool)
  unfolding quoted
  word_pattern pattern =
      let words = p.fields (p.to_lower pattern) in
      if ltb 1 (length words)
      then p.compile (codes "(" ++ (join (codes "|") (quoted words) ++ codes ")"))
      else none

  -- The score of a tool; none when nothing of it matches.
  unfoldable pub regex_score : Bytes → (Bytes → Bool) → Option (Bytes → Bool) → Tool → Option ℕ
  regex_score pattern re word_re t =
      if beq t.name pattern
      then some 3
      else if re t.name
      then some 2
      else if re t.description
      then some 1
      else elim word_re [
        | none ↦ none
        | some w ↦ if w t.name || w t.description then some 1 else none
      ]

  -- The tools that a test scores, in the order of the map.
  unfoldable pub score_tools : (Tool → Option ℕ) → List Tool → List Scored
  score_tools f [] = []
  score_tools f (t ∷ ts) =
      let rest = score_tools f ts in
      elim (f t) [ none ↦ rest | some n ↦ record { scored_name = t.name; score = n } ∷ rest ]

  -- `searchRegex`
  unfoldable pub search_regex : Bytes → List Tool → ℕ → SearchError ⊎ List Bytes
  unfolding word_pattern regex_score score_tools top_names
  search_regex pattern tools max_results =
      if ltb 200 (length pattern) then inl pattern_too_long else elim (p.compile pattern) [
        | none ↦ inl invalid_pattern
        | some re ↦ inr (
            top_names (score_tools (regex_score pattern re (word_pattern pattern)) tools)
              max_results)
      ]

  -- Only tools with a score above 0 are found.
  unfoldable pub positive : ℕ → Option ℕ
  positive n = if ltb 0 n then some n else none

  -- `searchBM25`; `tokens` are those of the query.
  unfoldable pub search_bm25 : List Bytes → List Tool → ℕ → List Bytes
  unfolding positive score_tools top_names
  search_bm25 tokens tools max_results =
      if is_empty tokens
      then []
      else if is_empty tools
      then []
      else top_names (score_tools (λ t. positive (p.bm25_score tokens tools t)) tools) max_results

  -- `Search`; 0 stands for every number of results that is not positive.
  unfoldable pub search : Bytes → List Tool → SearchType → ℕ → SearchError ⊎ List Bytes
  unfolding selected split_commas search_regex search_bm25 tokenize
  search query tools t max_results =
      let limit = if max_results == 0 then default_max_results else max_results in
      if has_prefix (codes "select:") query
      then inr (selected (split_commas (drop 7 query)) tools)
      else elim t [
        | bm25 ↦ inr (search_bm25 (tokenize query) tools limit)
        | regex ↦ search_regex query tools limit
      ]

-- ===== src/Models.antt =====
-- internal/models/models.go: the model that a request names, and the one that the upstream is asked for.
pub mod Echo
pub mod Tiers
mod Tests
use kiroxy.Prelude.{
  ℕ, Bool, true, false, not, ◌&&◌, ◌||◌, ltb, ◌==◌, if◌then◌else◌, List, [], ◌∷◌, ◌++◌, Option,
  none, some,
}
use kiroxy.Prelude.Bytes.{Bytes, codes, beq, is_empty}
use kiroxy.Strings.Prefix.{has_prefix}
use kiroxy.Strings.Suffix.{cut_suffix, has_suffix}

pub record Mapping : Type 0 where
  pub anthropic : Bytes
  pub kiro : Bytes
  pub kiro1m : Bytes
  pub context_window_size : ℕ

abbrev pub thinking_suffix : Bytes
thinking_suffix = codes "[1m]"

abbrev pub default_context_window_size : ℕ
default_context_window_size = 200000

abbrev pub thinking_context_window_size : ℕ
thinking_context_window_size = 1000000

abbrev entry : Bytes → Bytes → Bytes → Mapping
entry a k m = record { anthropic = a; kiro = k; kiro1m = m; context_window_size = 0 }

-- `modelMapOrdered`
unfoldable pub model_map_ordered : List Mapping
model_map_ordered =
    entry (codes "claude-opus-4-7[1m]") (codes "claude-opus-4.7") (codes "claude-opus-4.7")
    ∷ entry (codes "claude-opus-4-6[1m]") (codes "claude-opus-4.6") (codes "claude-opus-4.6")
    ∷ entry (codes "claude-opus-4-7") (codes "claude-opus-4.7") (codes "claude-opus-4.7")
    ∷ entry (codes "claude-sonnet-4-6") (codes "claude-sonnet-4.6") (codes "claude-sonnet-4.6-1m")
    ∷ entry (codes "claude-sonnet-4.5") (codes "claude-sonnet-4.5") (codes "claude-sonnet-4.5-1m")
    ∷ entry (codes "claude-sonnet-4-5") (codes "claude-sonnet-4.5") (codes "claude-sonnet-4.5-1m")
    ∷ entry (codes "claude-opus-4-6") (codes "claude-opus-4.6") (codes "claude-opus-4.6")
    ∷ entry (codes "claude-opus-4.5") (codes "claude-opus-4.5") []
    ∷ entry (codes "claude-opus-4-5") (codes "claude-opus-4.5") []
    ∷ entry (codes "claude-haiku-4.5") (codes "claude-haiku-4.5") []
    ∷ entry (codes "claude-haiku-4-5") (codes "claude-haiku-4.5") []
    ∷ []

abbrev pub default_model : Bytes
default_model = codes "claude-sonnet-4.6"

abbrev pub default_anthropic_model : Bytes
default_anthropic_model = codes "claude-sonnet-4-6"

-- `effectiveMappings`, with the overrides of the environment.
unfoldable pub effective_mappings : List Mapping → List Mapping
unfolding model_map_ordered
effective_mappings overrides = overrides ++ model_map_ordered

-- The first mapping of a name.
unfoldable pub find_mapping : Bytes → List Mapping → Option Mapping
find_mapping model [] = none
find_mapping model (m ∷ ms) =
    let rest = find_mapping model ms in
    if beq model m.anthropic || beq model m.kiro then some m else rest

-- What `Resolve` returns.
pub record Resolved : Type 0 where
  pub kiro_model : Bytes
  pub thinking : Bool
  pub window_size : ℕ
  pub anthropic_model : Bytes

-- The mapping that was found; without one, its strings are empty and its size is 0.
abbrev pub matched_or_empty : Option Mapping → Mapping
matched_or_empty none = record { anthropic = []; kiro = []; kiro1m = []; context_window_size = 0 }
matched_or_empty (some m) = m

-- The names before the context window is chosen: the upstream's and the one to echo.
unfoldable pub base_names : Option Mapping → Bytes → Bytes × Bytes
base_names (some m) model = (m.kiro, m.anthropic)
base_names none model =
    if has_prefix (codes "claude-") model
    then (model, model)
    else (default_model, default_anthropic_model)

-- The upstream's model and the size of its window.
unfoldable pub choose_window : Mapping → Bool → Bytes → Bytes × ℕ
choose_window m thinking kiro =
    if beq m.kiro1m kiro
    then (kiro, thinking_context_window_size)
    else if thinking && not (is_empty m.kiro1m)
    then (m.kiro1m, thinking_context_window_size)
    else if ltb 0 m.context_window_size
    then (kiro, m.context_window_size)
    else (kiro, default_context_window_size)

-- The name to echo, which says where the window is a large one.
unfoldable pub advertise : ℕ → Bytes → Bytes
unfolding has_suffix
advertise size name =
    if size == thinking_context_window_size && not (has_suffix thinking_suffix name)
    then name ++ thinking_suffix
    else name

-- The end of `Resolve`, behind the lookups.
unfoldable pub resolve_found : Option Mapping → Bytes → Bool → Resolved
unfolding base_names choose_window advertise
resolve_found found model thinking =
    let (kiro, name) = base_names found model in
    let (kiro_model, size) = choose_window (matched_or_empty found) thinking kiro in
    record {
      kiro_model = kiro_model;
      thinking = thinking;
      window_size = size;
      anthropic_model = advertise size name;
    }

-- The second lookup, without the suffix that asks for thinking.
unfoldable pub resolve_stripped : List Mapping → Bytes → Bool → Resolved
unfolding cut_suffix find_mapping resolve_found
resolve_stripped ms model context1m = elim (cut_suffix thinking_suffix model) [
  | none ↦ resolve_found none model context1m
  | some stripped ↦ resolve_found (find_mapping stripped ms) stripped true
]

-- `Resolve`, on the effective mappings.
unfoldable pub resolve : List Mapping → Bytes → Bool → Resolved
unfolding find_mapping resolve_found resolve_stripped
resolve ms model context1m = elim (find_mapping model ms) [
  | some m ↦ resolve_found (some m) model context1m
  | none ↦ resolve_stripped ms model context1m
]

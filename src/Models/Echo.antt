-- ===== src/Models/Echo.antt =====
-- internal/models/models.go: the name that is echoed to the client names the same model again.
use kiroxy.Prelude.{
  ◌≡◌, refl, sym, ◌∙◌, inl, inr, subst, Bool, true, false, ◌||◌, List, [], ◌∷◌, none, some,
  some_inj, Option-cases, Bool-cases, All,
}
use kiroxy.Prelude.Bytes.{Bytes, codes, beq, is_empty}
use kiroxy.Strings.Prefix.{has_prefix}
use kiroxy.Strings.Suffix.{cut_suffix, has_suffix}
use kiroxy.Models.{
  Mapping, model_map_ordered, thinking_suffix, default_model, default_anthropic_model, find_mapping,
  Resolved, base_names, choose_window, advertise, resolve_found, resolve_stripped, resolve,
}

-- Both give the client the same model, window and name.
abbrev pub SameModel : Resolved → Resolved → Type 0
SameModel r s =
    (r.kiro_model ≡ s.kiro_model)
    × (r.window_size ≡ s.window_size)
    × (r.anthropic_model ≡ s.anthropic_model)

-- The name that is echoed leads to the same model.
unfoldable pub Echoed : Resolved → Type 0
Echoed r = SameModel r (resolve model_map_ordered r.anthropic_model false)

-- A mapping whose echo, with thinking and without, leads back to it.
Echoes : Mapping → Type 0
Echoes m = (thinking : Bool) (model : Bytes) → Echoed (resolve_found (some m) model thinking)

both : (P : Bool → Type 0) → P true → P false → (b : Bool) → P b
both P h k true = h
both P h k false = k

table-Echoes : All Echoes model_map_ordered
unfolding Echoes Echoed model_map_ordered resolve resolve_stripped resolve_found find_mapping
    base_names choose_window advertise cut_suffix has_suffix beq is_empty
table-Echoes = (
  both _ (λ q. (refl, refl, refl)) (λ q. (refl, refl, refl)),
  (
    both _ (λ q. (refl, refl, refl)) (λ q. (refl, refl, refl)),
    (
      both _ (λ q. (refl, refl, refl)) (λ q. (refl, refl, refl)),
      (
        both _ (λ q. (refl, refl, refl)) (λ q. (refl, refl, refl)),
        (
          both _ (λ q. (refl, refl, refl)) (λ q. (refl, refl, refl)),
          (
            both _ (λ q. (refl, refl, refl)) (λ q. (refl, refl, refl)),
            (
              both _ (λ q. (refl, refl, refl)) (λ q. (refl, refl, refl)),
              (
                both _ (λ q. (refl, refl, refl)) (λ q. (refl, refl, refl)),
                (
                  both _ (λ q. (refl, refl, refl)) (λ q. (refl, refl, refl)),
                  (
                    both _ (λ q. (refl, refl, refl)) (λ q. (refl, refl, refl)),
                    (both _ (λ q. (refl, refl, refl)) (λ q. (refl, refl, refl)), _),
                  ),
                ),
              ),
            ),
          ),
        ),
      ),
    ),
  ),
)

find_mapping-All :
    (Q : Mapping → Type 0) (model : Bytes) (ms : List Mapping) (m : Mapping)
    → All Q ms
    → find_mapping model ms ≡ some m
    → Q m
unfolding find_mapping
find_mapping-All Q model [] m h e = cc
find_mapping-All Q model (x ∷ xs) m (h, hs) e =
    elim (Bool-cases (beq model x.anthropic || beq model x.kiro)) [
      | inl t ↦ subst Q (some_inj (rw (t) at e)) h
      | inr f ↦ find_mapping-All Q model xs m hs (rw (f) at e)
    ]

-- A name that is in the table, itself or without the suffix.
found-Echoed :
    (model : Bytes) (m : Mapping) (thinking : Bool) (name : Bytes)
    → find_mapping name model_map_ordered ≡ some m
    → Echoed (resolve_found (some m) model thinking)
unfolding Echoes
found-Echoed model m thinking name e =
    find_mapping-All Echoes name model_map_ordered m table-Echoes e thinking model

abbrev small_window : Bytes → Bytes → Bool → Resolved
small_window kiro name thinking = record {
  kiro_model = kiro;
  thinking = thinking;
  window_size = 200000;
  anthropic_model = name;
}

-- A name that is in no table is passed on where it is one of a Claude model.
claude-resolved :
    (model : Bytes) (thinking : Bool)
    → has_prefix (codes "claude-") model ≡ true
    → resolve_found none model thinking ≡ small_window model model thinking
unfolding resolve_found base_names choose_window advertise has_prefix beq is_empty
claude-resolved [] thinking p = absurd cc
claude-resolved (x ∷ s) true p = rw (resolve_found, base_names, p) refl
claude-resolved (x ∷ s) false p = rw (resolve_found, base_names, p) refl

other-resolved :
    (model : Bytes) (thinking : Bool)
    → has_prefix (codes "claude-") model ≡ false
    → resolve_found none model thinking
      ≡ small_window default_model default_anthropic_model thinking
unfolding resolve_found base_names choose_window advertise beq is_empty
other-resolved model true p = rw (resolve_found, base_names, p) refl
other-resolved model false p = rw (resolve_found, base_names, p) refl

default-Echoed :
    (thinking : Bool) → Echoed (small_window default_model default_anthropic_model thinking)
unfolding Echoed model_map_ordered resolve resolve_found find_mapping base_names choose_window
    advertise has_suffix cut_suffix beq is_empty
default-Echoed thinking = (refl, refl, refl)

-- The lookups of a name that is not in the table, with the suffix and without.
resolve-unknown :
    (model : Bytes) (context1m : Bool)
    → find_mapping model model_map_ordered ≡ none
    → cut_suffix thinking_suffix model ≡ none
    → resolve model_map_ordered model context1m ≡ resolve_found none model context1m
unfolding resolve resolve_stripped
resolve-unknown model context1m f c = rw (resolve, resolve_stripped, f, c) refl

resolve-suffixed :
    (model stripped : Bytes) (context1m : Bool)
    → find_mapping model model_map_ordered ≡ none
    → cut_suffix thinking_suffix model ≡ some stripped
    → resolve model_map_ordered model context1m
      ≡ resolve_found (find_mapping stripped model_map_ordered) stripped true
unfolding resolve resolve_stripped
resolve-suffixed model stripped context1m f c = rw (resolve, resolve_stripped, f, c) refl

claude-Echoed :
    (model : Bytes) (thinking : Bool)
    → find_mapping model model_map_ordered ≡ none
    → cut_suffix thinking_suffix model ≡ none
    → has_prefix (codes "claude-") model ≡ true
    → Echoed (small_window model model thinking)
unfolding Echoed
claude-Echoed model thinking f c p =
    subst (SameModel (small_window model model thinking))
      (sym (resolve-unknown model false f c ∙ claude-resolved model false p)) (refl, refl, refl)

-- A name that is not in the table, neither itself nor, as it has none, without the suffix.
unknown-Echoed :
    (model : Bytes) (thinking : Bool)
    → find_mapping model model_map_ordered ≡ none
    → cut_suffix thinking_suffix model ≡ none
    → Echoed (resolve_found none model thinking)
unknown-Echoed model thinking f c = elim (Bool-cases (has_prefix (codes "claude-") model)) [
  | inl p ↦
      subst Echoed (sym (claude-resolved model thinking p)) (claude-Echoed model thinking f c p)
  | inr p ↦ subst Echoed (sym (other-resolved model thinking p)) (default-Echoed thinking)
]

-- With the built-in mappings and without the header for a large window: unless the name in a request
-- ends in the suffix twice, the name that is echoed for it gives the same upstream model, the same
-- window and the same name again.
pub resolve-Echoed :
    (model : Bytes)
    → ((stripped : Bytes)
        → cut_suffix thinking_suffix model ≡ some stripped
        → cut_suffix thinking_suffix stripped ≡ none)
    → Echoed (resolve model_map_ordered model false)
unfolding resolve
resolve-Echoed model once = elim (Option-cases (find_mapping model model_map_ordered)) [
  | inr (m, e) ↦ rw (resolve, e) (found-Echoed model m false model e)
  | inl e ↦ elim (Option-cases (cut_suffix thinking_suffix model)) [
    | inl c ↦ subst Echoed (sym (resolve-unknown model false e c)) (unknown-Echoed model false e c)
    | inr (s, c) ↦
        subst Echoed (sym (resolve-suffixed model s false e c))
          (elim (Option-cases (find_mapping s model_map_ordered)) [
            | inr (m, f) ↦ rw (f) (found-Echoed s m true s f)
            | inl f ↦ rw (f) (unknown-Echoed s true f (once s c))
          ])
  ]
]

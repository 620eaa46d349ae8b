-- ===== src/Models/Tests.antt =====
-- Runs of internal/models and of the tier gate, and the theorems at them.
use kiroxy.Prelude.{◌≡◌, refl, subst, some_inj, true, false, none, some}
use kiroxy.Prelude.Bytes.{Bytes, codes, beq, is_empty}
use kiroxy.Strings.Suffix.{cut_suffix, has_suffix}
use kiroxy.Strings.Index.{index}
use kiroxy.Strings.Prefix.{has_prefix}
use kiroxy.Models.{
  model_map_ordered, thinking_suffix, find_mapping, base_names, choose_window, advertise,
  resolve_found, resolve_stripped, resolve,
}
use kiroxy.Models.Echo.{Echoed, resolve-Echoed}
use kiroxy.Models.Tiers.{
  UsageLimits, check_tier_gate, tier_satisfies, tier, tier_rank, minimum_tier, is_unknown, contains,
}

-- A model with the suffix that asks for thinking is answered under its name, with a large window.
suffixed : resolve model_map_ordered (codes "claude-sonnet-4-6[1m]") false ≡ record {
  kiro_model = codes "claude-sonnet-4.6-1m";
  thinking = true;
  window_size = 1000000;
  anthropic_model = codes "claude-sonnet-4-6[1m]";
}
unfolding model_map_ordered resolve resolve_stripped resolve_found find_mapping base_names
    choose_window advertise cut_suffix has_suffix beq is_empty
suffixed = refl

resolve-Echoed_example : Echoed (resolve model_map_ordered (codes "claude-sonnet-4-6[1m]") false)
unfolding cut_suffix beq
resolve-Echoed_example =
    resolve-Echoed (codes "claude-sonnet-4-6[1m]")
      (λ s e. subst (λ t. cut_suffix thinking_suffix t ≡ none) (some_inj e) refl)

abbrev free_account : UsageLimits
free_account = record { subscription_type = "Q_DEVELOPER_STANDALONE_FREE"; monthly_cap = 50 }

abbrev same : Bytes → Bytes
same s = s

-- An account on the free tier is refused an Opus.
free_refused : check_tier_gate same true "a" (some free_account) (codes "claude-opus-4-7") ≡ true
unfolding check_tier_gate tier_satisfies tier tier_rank minimum_tier is_unknown contains index
    has_prefix is_empty
free_refused = refl

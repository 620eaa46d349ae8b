-- ===== src/Respconv/Accumulator/Budget.antt =====
-- internal/respconv/token_budget.go: a response that has not stopped is inside its budget.
use kiroxy.Prelude.{ℕ, ◌-◌, ◌*◌, ◌/◌, ◌<◌, ◌≡◌, ◌⊎◌, true, arith}
use kiroxy.Prelude.Bytes.{Bytes}
use kiroxy.Strings.Utf8.{rune_count}
use kiroxy.Respconv.Accumulator.{Accumulator, apply_max_tokens_budget, over_budget}

-- A response with a budget that has not stopped has counted fewer tokens than the budget.
unfoldable pub WithinBudget : Accumulator → Type 0
WithinBudget a =
    (a.local_stop ≡ true)
    ⊎ ((a.max_tokens_budget ≡ 0) ⊎ (a.output_rune_count / 4 < a.max_tokens_budget))

over_budget-WithinBudget :
    (a : Accumulator) (delta : Bytes) (runes remaining : ℕ)
    → WithinBudget ((over_budget a delta runes remaining).0)
unfolding WithinBudget over_budget
over_budget-WithinBudget a delta runes remaining = ground arith

pub apply_max_tokens_budget-WithinBudget :
    (a : Accumulator) (delta : Bytes) → WithinBudget ((apply_max_tokens_budget a delta).0)
unfolding WithinBudget apply_max_tokens_budget
apply_max_tokens_budget-WithinBudget a delta = ground (
  arith,
  over_budget-WithinBudget a delta (rune_count delta)
      (a.max_tokens_budget * 4 - a.output_rune_count),
)

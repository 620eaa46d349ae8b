-- ===== src/Models/Tiers.antt =====
-- internal/models/tier.go, internal/kiroclient/usage.go and internal/messages/tier_gate.go: whether an
-- account's subscription may use a model.
use kiroxy.Prelude.{
  ℕ, ◌≡◌, refl, Bool, true, false, not, ◌&&◌, ◌||◌, leb, ◌==◌, if◌then◌else◌, Option, none, some,
  String, str_eq, arith,
}
use kiroxy.Prelude.Bytes.{Bytes, codes, is_empty}
use kiroxy.Strings.Index.{index}

-- `SubscriptionTier`
pub data SubscriptionTier : Type 0 where
  unknown free pro pro_plus power : SubscriptionTier

-- The fields of `UsageLimits` that say the tier; a cap that is not positive is 0.
pub record UsageLimits : Type 0 where
  pub subscription_type : String
  pub monthly_cap : ℕ

-- The tier by the cap, where the type says nothing.
unfoldable pub tier_of_cap : ℕ → SubscriptionTier
tier_of_cap cap =
    if cap == 0
    then unknown
    else if leb cap 100
    then free
    else if leb cap 1500
    then pro
    else if leb cap 5000
    then pro_plus
    else power

-- `UsageLimits.Tier`
unfoldable pub tier : UsageLimits → SubscriptionTier
unfolding tier_of_cap
tier u =
    if str_eq u.subscription_type "Q_DEVELOPER_STANDALONE_FREE"
    then free
    else if str_eq u.subscription_type "Q_DEVELOPER_STANDALONE_PRO"
    then pro
    else if str_eq u.subscription_type "Q_DEVELOPER_STANDALONE_PRO_PLUS"
    then pro_plus
    else if str_eq u.subscription_type "Q_DEVELOPER_STANDALONE_POWER"
    then power
    else tier_of_cap u.monthly_cap

-- `tierRank`
unfoldable pub tier_rank : SubscriptionTier → ℕ
tier_rank power = 4
tier_rank pro_plus = 3
tier_rank pro = 2
tier_rank free = 1
tier_rank unknown = 0

unfoldable pub is_unknown : SubscriptionTier → Bool
is_unknown unknown = true
is_unknown _ = false

-- `TierSatisfies`
unfoldable pub tier_satisfies : SubscriptionTier → SubscriptionTier → Bool
unfolding tier_rank is_unknown
tier_satisfies account model_min =
    if is_unknown account || is_unknown model_min
    then true
    else leb (tier_rank model_min) (tier_rank account)

-- `strings.Contains`, the substring first
unfoldable pub contains : Bytes → Bytes → Bool
unfolding index
contains p s = elim (index p s) [ none ↦ false | some i ↦ true ]

-- `to_lower` stands for `strings.ToLower`.
module _ (to_lower : Bytes → Bytes) where
  -- `MinimumTier`
  unfoldable pub minimum_tier : Bytes → SubscriptionTier
  unfolding contains
  minimum_tier model =
      let lower = to_lower model in
      if is_empty model
      then unknown
      else if contains (codes "haiku") lower
      then free
      else if contains (codes "sonnet") lower || contains (codes "opus") lower
      then pro
      else unknown

  -- `checkTierGate`: whether the request is refused. `usage` is none without a snapshot, or where the
  -- token getter has none.
  unfoldable pub check_tier_gate : Bool → String → Option UsageLimits → Bytes → Bool
  unfolding minimum_tier tier_satisfies tier
  check_tier_gate strict account_id usage model =
      if str_eq account_id "" || is_empty model then false else elim usage [
        | none ↦ false
        | some u ↦ if tier_satisfies (tier u) (minimum_tier model) then false else strict
      ]

  -- The account is known to be on the free tier.
  unfoldable is_free : Option UsageLimits → Bool
  unfolding tier
  is_free usage = elim usage [ none ↦ false | some u ↦ elim (tier u) [ free ↦ true | _ ↦ false ] ]

  -- The name is of a Sonnet or an Opus, and not of a Haiku.
  unfoldable needs_pro : Bytes → Bool
  unfolding contains
  needs_pro model =
      let lower = to_lower model in
      not (is_empty model)
      && not (contains (codes "haiku") lower)
      && (contains (codes "sonnet") lower || contains (codes "opus") lower)

  not_satisfied :
      (account : SubscriptionTier) (model : Bytes)
      → not (tier_satisfies account (minimum_tier model))
        ≡ (elim account [ free ↦ true | _ ↦ false ]) && needs_pro model
  unfolding minimum_tier tier_satisfies needs_pro tier_rank is_unknown
  not_satisfied unknown model = ground arith
  not_satisfied free model = ground arith
  not_satisfied pro model = ground arith
  not_satisfied pro_plus model = ground arith
  not_satisfied power model = ground arith

  needs_pro_named : (model : Bytes) → is_empty model ≡ true → needs_pro model ≡ false
  unfolding needs_pro
  needs_pro_named model e = rw (needs_pro, e) refl

  -- A request is refused exactly when the gate is strict, it has an account, the account is known to be
  -- on the free tier, and the model is a Sonnet or an Opus by its name, and no Haiku.
  check_tier_gate_lem :
      (strict : Bool) (account_id : String) (usage : Option UsageLimits) (model : Bytes)
      → check_tier_gate strict account_id usage model
        ≡ strict && not (str_eq account_id "") && is_free usage && needs_pro model
  unfolding check_tier_gate is_free
  check_tier_gate_lem strict account_id none model = ground arith
  check_tier_gate_lem strict account_id (some u) model =
      ground (arith, not_satisfied (tier u) model, needs_pro_named model)

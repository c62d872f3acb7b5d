-- ===== src/Examples/Plans.antt =====
-- The theorems on plan billing applied to a deploy with one plan, and runs of the calendar.
use directory_platform.Common.{ℕ, ◌+◌, ◌*◌, ◌≡◌, refl, Bool, false, true, none, some}
use directory_platform.Webhook.{subscription_cancelled}
use directory_platform.Billing.Calendar.{
  Interval, annual, monthly, days_of, civil_of, next_month, add_interval,
}
use directory_platform.Billing.{
  TierName, free, essential, premium, SubscriptionStatus, Deploy, BillingEvent, CurrentSubscription,
  EffectAction, Effect, effect, paid_plans, plan_id_for, find_plan, tier_for_plan_id, resolve_plan,
  base_effect, still_paid_for, extend, cancelled_effect, decide_type, decide,
}
use directory_platform.Billing.Lapse.{TakesAwayOnly, decide-TakesAwayOnly}

abbrev is_paid : TierName → Bool
is_paid free = false
is_paid essential = true
is_paid premium = true

abbrev plan_ids : TierName → Interval → ℕ
plan_ids essential monthly = 11
plan_ids _ _ = 0

abbrev deploy : Deploy
deploy = record { is_paid_tier = is_paid; trial_days = λ t. 0; plan_id_env = plan_ids }

abbrev cancellation : BillingEvent
cancellation = record {
  type = subscription_cancelled;
  plan_id = some 11;
  status_is_active = false;
  next_billing_time = none;
}

abbrev current : CurrentSubscription
current = record {
  tier = premium;
  interval = monthly;
  status = SubscriptionStatus.active;
  current_period_end = some 500;
  trial_ends_at = none;
  cancel_at_period_end = false;
}

abbrev cancelled_early : Effect
cancelled_early = record {
  action = EffectAction.cancel;
  status = SubscriptionStatus.cancelled;
  tier = essential;
  interval = monthly;
  provider_plan_id = some 11;
  current_period_end = some 500;
  trial_ends_at = none;
  cancel_at_period_end = true;
  listing_tier = premium;
  drop_verified = false;
  open_verification_check = false;
}

early_run : decide deploy cancellation current 100 ≡ effect cancelled_early
unfolding decide decide_type cancelled_effect still_paid_for base_effect resolve_plan
    tier_for_plan_id find_plan plan_id_for paid_plans
early_run = refl

decide-TakesAwayOnly_example : TakesAwayOnly deploy cancellation current 100 cancelled_early
decide-TakesAwayOnly_example =
    decide-TakesAwayOnly deploy cancellation current 100 cancelled_early early_run

-- 31 January 2026 and a month is 3 March 2026.
month_carries : add_interval (20484 * 86400000 + 7) monthly ≡ 20515 * 86400000 + 7
unfolding add_interval days_of civil_of next_month
month_carries = refl

-- 29 February 2024 and a year is 1 March 2025.
leap_year_carries : add_interval (19782 * 86400000) annual ≡ 20148 * 86400000
unfolding add_interval days_of civil_of
leap_year_carries = refl

-- A period that ended on 1 January 2026, and two sales on 30 January: the second moves it again.
second_sale_extends :
    extend
      (some (extend (some (20454 * 86400000)) monthly (20483 * 86400000)))
      monthly
      (20483 * 86400000)
    ≡ 20513 * 86400000
unfolding extend add_interval days_of civil_of next_month
second_sale_extends = refl

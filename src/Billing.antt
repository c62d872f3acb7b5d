-- ===== src/Billing.antt =====
-- The tier plans: what a PayPal event does to a subscription and its listing, decided as a pure
-- function (lib/billing/webhooks.ts), and how a plan id names a tier (lib/billing/plans.ts).
pub mod Calendar
pub mod Lapse
use directory_platform.Common.{
  ℕ, ◌+◌, ◌-◌, ◌*◌, Bool, true, false, not, ◌&&◌, Option, none, some, List, [], ◌∷◌, ltb, ◌==◌,
  if◌then◌else◌, option_eq, get_or, or_else,
}
use directory_platform.Webhook.{
  EventType, subscription_activated, subscription_updated, subscription_suspended,
  subscription_cancelled, subscription_expired, payment_failed, sale_completed, other_subscription,
  other,
}
use directory_platform.Billing.Calendar.{Interval, annual, monthly, day_ms, add_interval}

pub data TierName : Type 0 where
  free essential premium : TierName

pub data SubscriptionStatus : Type 0 where
  approval_pending active past_due cancelled suspended expired : SubscriptionStatus

pub record PlanRef : Type 0 where
  pub tier : TierName
  pub interval : Interval

-- What the deploy configures: whether a tier costs anything, how long its trial is, and the plan
-- ids in the environment. An id is the number of its trimmed text, and the empty text is 0.
pub record Deploy : Type 0 where
  pub is_paid_tier : TierName → Bool
  pub trial_days : TierName → ℕ
  pub plan_id_env : TierName → Interval → ℕ

module _ (deploy : Deploy) where
  abbrev plans_of : TierName → List PlanRef → List PlanRef
  plans_of tier rest =
      if deploy.is_paid_tier tier
      then record { tier = tier; interval = monthly }
        ∷ record { tier = tier; interval = annual }
        ∷ rest
      else rest

  -- `PAID_PLANS`
  unfoldable pub paid_plans : List PlanRef
  paid_plans = plans_of free (plans_of essential (plans_of premium []))

  unfoldable pub plan_id_for : TierName → Interval → Option ℕ
  plan_id_for tier interval =
      let id = deploy.plan_id_env tier interval in
      if not (deploy.is_paid_tier tier) then none else if id == 0 then none else some id

  -- the loop of `tierForPlanId`
  unfoldable pub find_plan : ℕ → List PlanRef → Option PlanRef
  find_plan wanted [] = none
  find_plan wanted (plan ∷ plans) =
      let rest = find_plan wanted plans in
      if option_eq (plan_id_for plan.tier plan.interval) (some wanted) then some plan else rest

  unfoldable pub tier_for_plan_id : Option ℕ → Option PlanRef
  tier_for_plan_id plan_id =
      let wanted = get_or plan_id 0 in if wanted == 0 then none else find_plan wanted paid_plans

-- The fields of an event, as the code reads them.
pub record BillingEvent : Type 0 where
  pub type : EventType
  pub plan_id : Option ℕ
  pub status_is_active : Bool
  pub next_billing_time : Option ℕ

pub record CurrentSubscription : Type 0 where
  pub tier : TierName
  pub interval : Interval
  pub status : SubscriptionStatus
  pub current_period_end : Option ℕ
  pub trial_ends_at : Option ℕ
  pub cancel_at_period_end : Bool

pub data EffectAction : Type 0 where
  activate update renew cancel lapse become_past_due : EffectAction

pub record Effect : Type 0 where
  pub action : EffectAction
  pub status : SubscriptionStatus
  pub tier : TierName
  pub interval : Interval
  pub provider_plan_id : Option ℕ
  pub current_period_end : Option ℕ
  pub trial_ends_at : Option ℕ
  pub cancel_at_period_end : Bool
  pub listing_tier : TierName
  pub drop_verified : Bool
  pub open_verification_check : Bool

pub data Decision : Type 0 where
  ignore : Decision
  effect : Effect → Decision

-- three days
abbrev renewal_window_ms : ℕ
renewal_window_ms = 3 * day_ms

abbrev is_pending_approval : SubscriptionStatus → Bool
is_pending_approval approval_pending = true
is_pending_approval _ = false

-- `periodEnd !== null && periodEnd > at`
unfoldable pub still_paid_for : Option ℕ → ℕ → Bool
still_paid_for none at = false
still_paid_for (some end) at = ltb at end

-- The period's end after a sale that does not say when the next one is due. Where `stored` is
-- before `at` the source's difference is negative and here it is 0: neither is above the window.
unfoldable pub extend : Option ℕ → Interval → ℕ → ℕ
extend none interval at = add_interval at interval
extend (some stored) interval at =
    if ltb renewal_window_ms (stored - at)
    then stored
    else if ltb at (add_interval stored interval)
    then add_interval stored interval
    else add_interval at interval

module _ (deploy : Deploy) where
  -- `resolvePlan`: the plan's tier, or the row's own
  unfoldable pub resolve_plan : BillingEvent → CurrentSubscription → PlanRef
  resolve_plan event current =
      get_or (tier_for_plan_id deploy event.plan_id)
        (record { tier = current.tier; interval = current.interval })

  -- the fields of `base`, and the five that a case always writes
  unfoldable pub base_effect :
      BillingEvent
      → CurrentSubscription
      → EffectAction
      → SubscriptionStatus
      → Option ℕ
      → TierName
      → Effect
  base_effect event current action status period_end listing_tier =
      let plan = resolve_plan event current in
      record {
        action = action;
        status = status;
        tier = plan.tier;
        interval = plan.interval;
        provider_plan_id = event.plan_id;
        current_period_end = period_end;
        trial_ends_at = current.trial_ends_at;
        cancel_at_period_end = current.cancel_at_period_end;
        listing_tier = listing_tier;
        drop_verified = false;
        open_verification_check = false;
      }

  unfoldable pub activated : BillingEvent → CurrentSubscription → Effect
  activated event current =
      let plan = resolve_plan event current in
      let period_end = or_else event.next_billing_time current.current_period_end in
      record (base_effect event current activate active period_end plan.tier) {
        trial_ends_at = or_else current.trial_ends_at (
            if ltb 0 (deploy.trial_days plan.tier) && is_pending_approval current.status
            then period_end
            else none);
        cancel_at_period_end = false;
        open_verification_check = true;
      }

  unfoldable pub updated : BillingEvent → CurrentSubscription → Effect
  updated event current =
      let live = event.status_is_active in
      base_effect event current update (if live then active else current.status)
        (or_else event.next_billing_time current.current_period_end)
        (if live then (resolve_plan event current).tier else current.tier)

  unfoldable pub cancelled_effect : BillingEvent → CurrentSubscription → ℕ → Effect
  cancelled_effect event current at =
      let paid = still_paid_for current.current_period_end at in
      record (base_effect event current cancel cancelled current.current_period_end
        (if paid then current.tier else free)) {
          cancel_at_period_end = true;
          drop_verified = not paid;
        }

  unfoldable pub lapsed_effect : BillingEvent → CurrentSubscription → SubscriptionStatus → Effect
  lapsed_effect event current status =
      record (base_effect event current lapse status current.current_period_end free) {
        drop_verified = true;
      }

  unfoldable pub failed_effect : BillingEvent → CurrentSubscription → Effect
  failed_effect event current =
      base_effect event current become_past_due past_due
        (or_else event.next_billing_time current.current_period_end) current.tier

  unfoldable pub renewed_effect : BillingEvent → CurrentSubscription → ℕ → Effect
  renewed_effect event current at =
      let plan = resolve_plan event current in
      base_effect event current renew active
        (some (get_or event.next_billing_time (extend current.current_period_end plan.interval at)))
        plan.tier

  unfoldable pub decide_type : BillingEvent → CurrentSubscription → ℕ → EventType → Decision
  decide_type event current at subscription_activated = effect (activated event current)
  decide_type event current at subscription_updated = effect (updated event current)
  decide_type event current at subscription_cancelled = effect (cancelled_effect event current at)
  decide_type event current at subscription_suspended =
      effect (lapsed_effect event current suspended)
  decide_type event current at subscription_expired = effect (lapsed_effect event current expired)
  decide_type event current at payment_failed = effect (failed_effect event current)
  decide_type event current at sale_completed = effect (renewed_effect event current at)
  decide_type event current at other_subscription = ignore
  decide_type event current at other = ignore

  unfoldable pub decide : BillingEvent → CurrentSubscription → ℕ → Decision
  decide event current at = decide_type event current at event.type

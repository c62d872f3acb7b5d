-- ===== src/Billing/Lapse.antt =====
-- When a paid tier is taken away, and where a tier comes from (`decide` and `tierForPlanId`).
use directory_platform.Common.{
  ℕ, ◌≤◌, ◌≡◌, ◌≢◌, ◌⊎◌, ◌↔◌, refl, ap, subst, inl, inr, arith, Bool, true, false, not, Option,
  none, some, List, [], ◌∷◌, ◌==◌, ==→ne, if◌then◌else◌, option_eq, get_or, Bool-cases,
}
use directory_platform.Webhook.{
  EventType, subscription_activated, subscription_updated, subscription_suspended,
  subscription_cancelled, subscription_expired, payment_failed, sale_completed, other_subscription,
  other,
}
use directory_platform.Billing.Calendar.{Interval}
use directory_platform.Billing.{
  TierName, free, PlanRef, Deploy, paid_plans, plan_id_for, find_plan, tier_for_plan_id,
  BillingEvent, CurrentSubscription, Effect, Decision, ignore, effect, resolve_plan, base_effect,
  still_paid_for, activated, updated, cancelled_effect, lapsed_effect, failed_effect,
  renewed_effect, decide_type, decide,
}

-- The period that was paid for is over, if there is one.
abbrev pub IsOver : Option ℕ → ℕ → Type 0
IsOver none at = Unit
IsOver (some end) at = end ≤ at

-- The events on which a subscription lapses at once.
abbrev pub Lapses : EventType → Option ℕ → ℕ → Type 0
Lapses subscription_suspended end at = Unit
Lapses subscription_expired end at = Unit
Lapses subscription_cancelled end at = IsOver end at
Lapses subscription_activated end at = ⊥
Lapses subscription_updated end at = ⊥
Lapses payment_failed end at = ⊥
Lapses sale_completed end at = ⊥
Lapses other_subscription end at = ⊥
Lapses other end at = ⊥

-- A deploy's environment names the tier for the plan of an event.
abbrev pub IsPlanOf : Deploy → Option ℕ → TierName → Type 0
IsPlanOf deploy plan_id tier =
    (interval : Interval) × (id : ℕ) × (plan_id ≡ some id)
    × (id ≢ 0)
    × (deploy.is_paid_tier tier ≡ true)
    × (deploy.plan_id_env tier interval ≡ id)

abbrev IsPlanFor : Deploy → ℕ → PlanRef → Type 0
IsPlanFor deploy id plan =
    (deploy.is_paid_tier plan.tier ≡ true) × (deploy.plan_id_env plan.tier plan.interval ≡ id)

plan_id_for-some :
    (deploy : Deploy) (tier : TierName) (interval : Interval) (id : ℕ)
    → option_eq (plan_id_for deploy tier interval) (some id) ≡ true
    → (deploy.is_paid_tier tier ≡ true) × (deploy.plan_id_env tier interval ≡ id)
unfolding plan_id_for
plan_id_for-some deploy tier interval id h = ground arith

find_plan-some :
    (deploy : Deploy) (id : ℕ) (plans : List PlanRef) (plan : PlanRef)
    → find_plan deploy id plans ≡ some plan
    → IsPlanFor deploy id plan
unfolding find_plan
find_plan-some deploy id [] plan h = ground arith
find_plan-some deploy id (p ∷ ps) plan h =
    elim (Bool-cases (option_eq (plan_id_for deploy p.tier p.interval) (some id))) [
      | inl e ↦
          let here = plan_id_for-some deploy p.tier p.interval id e in
          subst (IsPlanFor deploy id) (ap (λ o. get_or o p) (rw e at h)) here
      | inr e ↦ find_plan-some deploy id ps plan (rw e at h)
    ]

tier_for_plan_id-some :
    (deploy : Deploy) (plan_id : Option ℕ) (plan : PlanRef)
    → tier_for_plan_id deploy plan_id ≡ some plan
    → IsPlanOf deploy plan_id plan.tier
unfolding tier_for_plan_id
tier_for_plan_id-some deploy none plan h = absurd (ground arith)
tier_for_plan_id-some deploy (some id) plan h = elim (Bool-cases (id == 0)) [
  | inl e ↦ let k = rw e at h in absurd (ground arith)
  | inr e ↦
      let found = find_plan-some deploy id (paid_plans deploy) plan (rw e at h) in
      (plan.interval, id, refl, ==→ne id 0 e, found.0, found.1)
]

resolve_plan-tier :
    (deploy : Deploy) (event : BillingEvent) (current : CurrentSubscription)
    → let tier = (resolve_plan deploy event current).tier in
      (tier ≡ current.tier) ⊎ IsPlanOf deploy event.plan_id tier
unfolding resolve_plan
resolve_plan-tier deploy event current = by_plan (tier_for_plan_id deploy event.plan_id) refl
  where
    by_plan :
        (o : Option PlanRef)
        → tier_for_plan_id deploy event.plan_id ≡ o
        → let tier =
            (get_or o (record { tier = current.tier; interval = current.interval })).tier in
          (tier ≡ current.tier) ⊎ IsPlanOf deploy event.plan_id tier
    by_plan none e = inl refl
    by_plan (some plan) e = inr (tier_for_plan_id-some deploy event.plan_id plan e)

still_paid_for-IsOver :
    (end : Option ℕ) (at : ℕ) → (not (still_paid_for end at) ≡ true) ↔ IsOver end at
unfolding still_paid_for
still_paid_for-IsOver none at = (λ e. tt, λ e. refl)
still_paid_for-IsOver (some end) at = (λ e. ground arith, λ e. ground arith)

-- What a decision does to the listing.
pub record TakesAwayOnly (deploy : Deploy) (event : BillingEvent) (current : CurrentSubscription)
    (at : ℕ) (e : Effect) : Type 0 where
  pub drops : (e.drop_verified ≡ true) ↔ Lapses event.type current.current_period_end at
  pub to_free : e.drop_verified ≡ true → e.listing_tier ≡ free
  pub kept :
      e.drop_verified ≡ false
      → (e.listing_tier ≡ current.tier) ⊎ IsPlanOf deploy event.plan_id e.listing_tier

abbrev OnEffect : (Effect → Type 0) → Decision → Type 0
OnEffect P ignore = Unit
OnEffect P (effect e) = P e

module _ (deploy : Deploy) (event : BillingEvent) (current : CurrentSubscription) (at : ℕ) where
  decide_type-TakesAwayOnly :
      (type : EventType)
      → OnEffect
          (TakesAwayOnly deploy (record event { type = type }) current at)
          (decide_type deploy event current at type)
  unfolding decide_type activated updated cancelled_effect lapsed_effect failed_effect
      renewed_effect base_effect
  decide_type-TakesAwayOnly subscription_activated = record {
    drops = (λ e. absurd (ground arith), λ e. absurd e);
    to_free = λ e. absurd (ground arith);
    kept = λ e. resolve_plan-tier deploy event current;
  }
  decide_type-TakesAwayOnly subscription_updated = record {
    drops = (λ e. absurd (ground arith), λ e. absurd e);
    to_free = λ e. absurd (ground arith);
    kept = λ e. live event.status_is_active;
  }
    where
      live :
          (c : Bool)
          → let tier = if c then (resolve_plan deploy event current).tier else current.tier in
            (tier ≡ current.tier) ⊎ IsPlanOf deploy event.plan_id tier
      live true = resolve_plan-tier deploy event current
      live false = inl refl
  decide_type-TakesAwayOnly subscription_cancelled = record {
    drops = still_paid_for-IsOver current.current_period_end at;
    to_free = λ e. over (still_paid_for current.current_period_end at) e;
    kept = λ e. inl (paid (still_paid_for current.current_period_end at) e);
  }
    where
      over : (c : Bool) → not c ≡ true → (if c then current.tier else free) ≡ free
      over true e = absurd (ground arith)
      over false e = refl

      paid : (c : Bool) → not c ≡ false → (if c then current.tier else free) ≡ current.tier
      paid true e = refl
      paid false e = absurd (ground arith)
  decide_type-TakesAwayOnly subscription_suspended = record {
    drops = (λ e. tt, λ e. refl);
    to_free = λ e. refl;
    kept = λ e. absurd (ground arith);
  }
  decide_type-TakesAwayOnly subscription_expired = record {
    drops = (λ e. tt, λ e. refl);
    to_free = λ e. refl;
    kept = λ e. absurd (ground arith);
  }
  decide_type-TakesAwayOnly payment_failed = record {
    drops = (λ e. absurd (ground arith), λ e. absurd e);
    to_free = λ e. absurd (ground arith);
    kept = λ e. inl refl;
  }
  decide_type-TakesAwayOnly sale_completed = record {
    drops = (λ e. absurd (ground arith), λ e. absurd e);
    to_free = λ e. absurd (ground arith);
    kept = λ e. resolve_plan-tier deploy event current;
  }
  decide_type-TakesAwayOnly other_subscription = tt
  decide_type-TakesAwayOnly other = tt

-- Whatever the event, a decision drops the verified claim exactly if the subscription lapses at
-- once: on a suspension, on an expiry, or on a cancellation after the period that was paid for.
-- It then sets the listing's tier to free. Otherwise the tier is the row's own, or a paid tier
-- whose plan id in the deploy's environment is the event's.
pub decide-TakesAwayOnly :
    (deploy : Deploy) (event : BillingEvent) (current : CurrentSubscription) (at : ℕ) (e : Effect)
    → decide deploy event current at ≡ effect e
    → TakesAwayOnly deploy event current at e
unfolding decide
decide-TakesAwayOnly deploy event current at e h =
    let k = decide_type-TakesAwayOnly deploy event current at event.type in rw h at k

-- ===== src/Webhook/Closed.antt =====
-- A row that was closed stays closed (`CLOSED` and the guards of lib/spots/webhook.ts).
use directory_platform.Common.{◌≡◌, refl, ap, Bool, true, false, not, Option, some, if◌then◌else◌}
use directory_platform.Provider.{PayPalClient}
use directory_platform.Notify.{spots_system_viewer}
use directory_platform.Store.Rows.{
  Db, FeaturedSubscription, FeaturedSubscriptionStatus, approval_pending, active, past_due, paused,
  cancelled, suspended, expired,
}
use directory_platform.Store.Tx.{ok, pure, on_option, ◌>>=◌}
use directory_platform.Store.Subscriptions.{featured_subscription_for_event, is_billing}
use directory_platform.Webhook.{
  EventType, subscription_activated, subscription_updated, subscription_suspended,
  subscription_cancelled, subscription_expired, payment_failed, sale_completed, other_subscription,
  other, PayPalEvent, provider_subscription_id_for, Ignored, row_is_closed, sale_for_closed_row,
  update_is_not_active, ignored, is_closed, confirm_row, renew_row, fail_row, apply_type,
  apply_event, process_featured_event,
}

-- The events that say that a subscription is alive, or that it owes a payment.
unfoldable pub can_revive : EventType → Bool
can_revive subscription_activated = true
can_revive subscription_updated = true
can_revive payment_failed = true
can_revive sale_completed = true
can_revive _ = false

-- The event found its row, and reading it changed nothing.
abbrev pub Finds : PayPalEvent → Db → FeaturedSubscription → Type 0
Finds event s sub =
    featured_subscription_for_event spots_system_viewer (provider_subscription_id_for event)
      event.custom_id s
    ≡ ok (some sub, s)

closed_bills_not : (st : FeaturedSubscriptionStatus) → is_closed st ≡ true → is_billing st ≡ false
closed_bills_not approval_pending h = cc
closed_bills_not active h = cc
closed_bills_not past_due h = cc
closed_bills_not paused h = cc
closed_bills_not cancelled h = refl
closed_bills_not suspended h = refl
closed_bills_not expired h = refl

module _ (client : Option PayPalClient) (sub : FeaturedSubscription)
    (h : is_closed sub.status ≡ true) where
  closed-confirm_row :
      (event : PayPalEvent) → confirm_row client sub event ≡ pure (ignored row_is_closed)
  unfolding confirm_row
  closed-confirm_row event = rw h refl

  closed_unless :
      (event : PayPalEvent) (b : Bool)
      → (reason : Ignored) × ((if not b
            then pure (ignored update_is_not_active)
            else confirm_row client sub event)
          ≡ pure (ignored reason))
  closed_unless event true = (row_is_closed, closed-confirm_row event)
  closed_unless event false = (update_is_not_active, refl)

  closed-apply_type :
      (event : PayPalEvent) (type : EventType)
      → can_revive type ≡ true
      → (reason : Ignored) × (apply_type client sub event type ≡ pure (ignored reason))
  unfolding apply_type can_revive fail_row renew_row
  closed-apply_type event subscription_activated k = (row_is_closed, closed-confirm_row event)
  closed-apply_type event subscription_updated k = closed_unless event event.status_is_active
  closed-apply_type event payment_failed k = (row_is_closed, rw h refl)
  closed-apply_type event sale_completed k = (sale_for_closed_row, rw (closed_bills_not _ h) refl)
  closed-apply_type event subscription_suspended k = cc
  closed-apply_type event subscription_cancelled k = cc
  closed-apply_type event subscription_expired k = cc
  closed-apply_type event other_subscription k = cc
  closed-apply_type event other k = cc

-- When the row that an event finds is cancelled, suspended or expired, and the event says that
-- the subscription is alive, was paid or owes a payment, it is ignored and changes nothing: not the row, a bid, the audit, the queue or what PayPal was asked.
pub closed_is_final :
    (client : Option PayPalClient) (event : PayPalEvent) (sub : FeaturedSubscription) (s : Db)
    → Finds event s sub
    → is_closed sub.status ≡ true
    → can_revive event.type ≡ true
    → (reason : Ignored) × (process_featured_event client event s ≡ ok (ignored reason, s))
unfolding process_featured_event apply_event ◌>>=◌ on_option pure
closed_is_final client event sub s found h k =
    let (reason, e) = closed-apply_type client sub h event event.type k in
    (reason, rw found (ap (λ m. m s) e))

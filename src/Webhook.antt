-- ===== src/Webhook.antt =====
-- What a PayPal event does to a featured subscription (lib/spots/webhook.ts), and how an event
-- names the row (lib/billing/webhooks.ts). An event's fields stand here as the code reads them:
-- `quantity` is what `parseQuantity` makes of the field, `next_billing_time` a valid date.
pub mod Reconcile
pub mod Closed
use directory_platform.Common.{
  ℕ, Bool, true, false, not, ◌&&◌, Option, none, some, List, [], ◌∷◌, ◌++◌, map, leb, if◌then◌else◌,
  is_some, or_else,
}
use directory_platform.Provider.{PayPalClient}
use directory_platform.Notify.{spots_system_viewer}
use directory_platform.Store.Rows.{
  BidRow, FeaturedSubscriptionStatus, FeaturedSubscription, active, cancelled, suspended, expired,
  confirmed, renewed, lapsed, went_past_due,
}
use directory_platform.Store.Tx.{Tx, on_option, pure, ◌>>=◌, ◌>>◌}
use directory_platform.Store.Spots.{PagePath}
use directory_platform.Store.Bids.{
  confirm_listing_bids, cancel_listing_bids, listing_bids_for_system,
}
use directory_platform.Store.Subscriptions.{
  Patch, no_patch, update_featured_subscription, featured_subscription_for_event, is_paused,
  is_billing,
}
use directory_platform.Engine.Sync.{settle_spots}

-- `other_subscription` is any other type that starts with `BILLING.SUBSCRIPTION.`.
pub data EventType : Type 0 where
  subscription_activated subscription_updated subscription_suspended : EventType
  subscription_cancelled subscription_expired payment_failed : EventType
  sale_completed other_subscription other : EventType

pub record PayPalEvent : Type 0 where
  pub type : EventType
  -- fields of the resource
  pub resource_id : Option ℕ
  pub billing_agreement_id : Option ℕ
  pub custom_id : Option ℕ
  pub status_is_active : Bool
  pub quantity : Option ℕ
  pub next_billing_time : Option ℕ

-- `providerSubscriptionIdFor`
unfoldable pub provider_subscription_id_for : PayPalEvent → Option ℕ
provider_subscription_id_for event = elim event.type [
  | sale_completed ↦ event.billing_agreement_id
  | other ↦ none
  | _ ↦ event.resource_id
]

pub data Ignored : Type 0 where
  update_is_not_active suspended_by_this_site row_is_closed sale_for_closed_row no_handler : Ignored

pub data AppliedAction : Type 0 where
  confirm renew lapse past_due : AppliedAction

pub data FeaturedWebhookOutcome : Type 0 where
  unknown_subscription : FeaturedWebhookOutcome
  ignored : Ignored → FeaturedWebhookOutcome
  applied : AppliedAction → List PagePath → FeaturedWebhookOutcome

-- `CLOSED.includes(status)`
abbrev pub is_closed : FeaturedSubscriptionStatus → Bool
is_closed cancelled = true
is_closed expired = true
is_closed suspended = true
is_closed _ = false

-- `quantity !== null && quantity >= sub.requestedQuantity`
unfoldable pub covers : FeaturedSubscription → Option ℕ → Bool
covers sub none = false
covers sub (some quantity) = leb sub.requested_quantity quantity

-- What a confirmation writes: the quantity only if the event has one, and the request is settled
-- only if it is covered.
unfoldable pub confirmation : FeaturedSubscription → PayPalEvent → Patch
confirmation sub event = record no_patch {
  status = some active;
  quantity = event.quantity;
  revise_requested_at = if covers sub event.quantity then some none else none;
  paused_at = some none;
  approve_url = if covers sub event.quantity then some none else none;
  current_period_end = some (or_else event.next_billing_time sub.current_period_end);
}

module _ (client : Option PayPalClient) (sub : FeaturedSubscription) where
  -- Pending bids and raises become real only if the quantity covers what was asked.
  unfoldable pub confirm_covered : Bool → Tx (List ℕ)
  confirm_covered false = pure []
  confirm_covered true = confirm_listing_bids spots_system_viewer sub.listing_id

  unfoldable pub confirm_row : PayPalEvent → Tx FeaturedWebhookOutcome
  confirm_row event = if is_closed sub.status then pure (ignored row_is_closed) else do
    update_featured_subscription spots_system_viewer sub.id (confirmation sub event) confirmed none
        none
    touched ← confirm_covered (covers sub event.quantity)
    held ← listing_bids_for_system spots_system_viewer sub.listing_id
    settled ← settle_spots client (touched ++ map (λ (b : BidRow). b.spot_id) held) [] none
    pure (applied confirm settled.paths)

  unfoldable pub renew_row : PayPalEvent → Tx FeaturedWebhookOutcome
  renew_row event = if not (is_billing sub.status) then pure (ignored sale_for_closed_row) else do
    update_featured_subscription spots_system_viewer sub.id
        (record no_patch {
          status = some active;
          current_period_end = some (or_else event.next_billing_time sub.current_period_end);
        })
        renewed none none
    pure (applied renew [])

  unfoldable pub lapse_row : FeaturedSubscriptionStatus → Tx FeaturedWebhookOutcome
  lapse_row status = do
    update_featured_subscription spots_system_viewer sub.id
        (record no_patch {
          status = some status;
          revise_requested_at = some none;
          approve_url = some none;
          paused_at = some none;
        })
        lapsed none none
    spots ← cancel_listing_bids spots_system_viewer sub.listing_id
    settled ← settle_spots client spots [] none
    pure (applied lapse settled.paths)

  unfoldable pub fail_row : Tx FeaturedWebhookOutcome
  fail_row = if is_closed sub.status then pure (ignored row_is_closed) else do
    update_featured_subscription spots_system_viewer sub.id
        (record no_patch { status = some FeaturedSubscriptionStatus.past_due }) went_past_due none
        none
    pure (applied past_due [])

  -- the `switch` on the event's type
  unfoldable pub apply_type : PayPalEvent → EventType → Tx FeaturedWebhookOutcome
  apply_type event subscription_activated = confirm_row event
  apply_type event subscription_updated =
      if not event.status_is_active then pure (ignored update_is_not_active) else confirm_row event
  apply_type event sale_completed = renew_row event
  apply_type event subscription_suspended =
      if is_paused sub.status then pure (ignored suspended_by_this_site) else lapse_row suspended
  apply_type event subscription_cancelled = lapse_row cancelled
  apply_type event subscription_expired = lapse_row expired
  apply_type event payment_failed = fail_row
  apply_type event other_subscription = pure (ignored no_handler)
  apply_type event other = pure (ignored no_handler)

  unfoldable pub apply_event : PayPalEvent → Tx FeaturedWebhookOutcome
  apply_event event = apply_type event event.type

unfoldable pub process_featured_event :
    Option PayPalClient → PayPalEvent → Tx FeaturedWebhookOutcome
process_featured_event client event = do
  found ←
      featured_subscription_for_event spots_system_viewer (provider_subscription_id_for event)
        event.custom_id
  on_option found (pure unknown_subscription) λ sub. apply_event client sub event

-- ===== src/Webhook/Reconcile.antt =====
-- `reconcileFeaturedSubscription` (lib/spots/webhook.ts): PayPal is asked, and its answer goes
-- through the transitions of a webhook.
use directory_platform.Common.{ℕ, Bool, true, false, Option, none, some, List, ◌∷◌}
use directory_platform.Provider.{
  PayPalClient, ProviderStatus, is_active, is_suspended, is_cancelled, is_expired,
  is_approval_pending, unlisted, SubscriptionView,
}
use directory_platform.Notify.{spots_system_viewer}
use directory_platform.Store.Rows.{get_subscription}
use directory_platform.Store.Tx.{Tx, on_option, pure, gets, ◌>>=◌, ◌>>◌, modify}
use directory_platform.Store.Spots.{PagePath}
use directory_platform.Store.Subscriptions.{featured_subscription_for_event}
use directory_platform.Webhook.{
  EventType, subscription_activated, subscription_suspended, subscription_cancelled,
  subscription_expired, PayPalEvent, AppliedAction, FeaturedWebhookOutcome, unknown_subscription,
  ignored, applied, process_featured_event,
}

pub data FeaturedReconcileOutcome : Type 0 where
  not_configured not_known not_found provider_error : FeaturedReconcileOutcome
  still_pending : ProviderStatus → FeaturedReconcileOutcome
  reconciled : AppliedAction → List PagePath → FeaturedReconcileOutcome

-- `STATUS_EVENTS[view.status]`
unfoldable pub status_event : ProviderStatus → Option EventType
status_event is_active = some subscription_activated
status_event is_suspended = some subscription_suspended
status_event is_cancelled = some subscription_cancelled
status_event is_expired = some subscription_expired
status_event is_approval_pending = none
status_event unlisted = none

abbrev says_active : ProviderStatus → Bool
says_active is_active = true
says_active _ = false

unfoldable pub event_of_view : SubscriptionView → EventType → PayPalEvent
event_of_view view type = record {
  type = type;
  resource_id = some view.id;
  billing_agreement_id = none;
  custom_id = none;
  status_is_active = says_active view.status;
  quantity = view.quantity;
  next_billing_time = view.next_billing_time;
}

unfoldable pub outcome_of : ProviderStatus → FeaturedWebhookOutcome → FeaturedReconcileOutcome
outcome_of status (applied action paths) = reconciled action paths
outcome_of status unknown_subscription = still_pending status
outcome_of status (ignored reason) = still_pending status

unfoldable pub apply_view : PayPalClient → SubscriptionView → Tx FeaturedReconcileOutcome
apply_view client view =
    on_option (status_event view.status) (pure (still_pending view.status)) λ type. do
      out ← process_featured_event (some client) (event_of_view view type)
      pure (outcome_of view.status out)

-- The read is logged whether or not PayPal could be reached; an error is an outcome here.
unfoldable pub ask_and_apply : PayPalClient → ℕ → Tx FeaturedReconcileOutcome
ask_and_apply client provider_id = do
  answer ← gets (λ s. client.get provider_id s.calls)
  modify (λ s. record s { calls = get_subscription provider_id ∷ s.calls })
  on_option answer (pure provider_error)
      λ found. on_option found (pure not_found) λ view. apply_view client view

unfoldable pub reconcile_featured_subscription :
    Option PayPalClient → ℕ → Tx FeaturedReconcileOutcome
reconcile_featured_subscription client provider_id = on_option client (pure not_configured) λ c. do
  sub ← featured_subscription_for_event spots_system_viewer (some provider_id) none
  on_option sub (pure not_known) λ row. ask_and_apply c provider_id

-- ===== src/Engine/Sync.antt =====
-- `syncQuantities` and `settleSpots` (lib/spots/engine.ts): what PayPal is told after a re-rank.
use directory_platform.Common.{
  ℕ, Bool, not, ◌&&◌, ◌||◌, Option, none, some, List, [], ◌∷◌, ◌++◌, ltb, ◌==◌, if◌then◌else◌,
  is_some, length, distinct,
}
use directory_platform.Rank.{ChargeableBid, quantity_for}
use directory_platform.Provider.{PayPalClient}
use directory_platform.Notify.{spots_system_viewer}
use directory_platform.Store.Rows.{
  active, paused, cancelled, FeaturedSubscription, ProviderCall, subscription_cancelled,
  spots_paused, spots_resumed, revise_settled, revise_requested, cancel_subscription,
  suspend_subscription, activate_subscription, revise_subscription,
}
use directory_platform.Store.Tx.{Tx, on_option, pure, gets, ◌>>=◌, ◌>>◌, collect, ask_provider}
use directory_platform.Store.Spots.{PagePath}
use directory_platform.Store.Bids.{chargeable_bids_for_listing, has_pending_bids}
use directory_platform.Store.Subscriptions.{
  current_featured_subscription, no_patch, update_featured_subscription, is_paused,
  is_approval_pending,
}
use directory_platform.Engine.{
  rerank_spots, QuantityAction, unchanged, revised, went_paused, went_cancelled, resumed,
  not_configured, awaiting_approval, QuantityChange,
}

-- `deps.client?.suspendSubscription` and the like
abbrev pub method {ℓ} : {A : Type ℓ} → Option PayPalClient → (PayPalClient → Option A) → Option A
method none m = none
method (some c) m = m c

abbrev pub cancel_method : PayPalClient → Option (ℕ → List ProviderCall → Option (Unit {0}))
cancel_method c = some c.cancel

module _ (client : Option PayPalClient) (sub : FeaturedSubscription)
    (provider_id quantity : ℕ) where
  -- `push(action, approveUrl)`
  abbrev push : QuantityAction → Option ℕ → Tx (List QuantityChange)
  push action url = pure (
      record {
        listing_id = sub.listing_id;
        subscription_id = sub.id;
        quantity = quantity;
        action = action;
        approve_url = url;
      }
      ∷ [])

  -- No bid is left at all: the subscription is cancelled at PayPal.
  unfoldable pub cancel_subscription_now : Tx (List QuantityChange)
  cancel_subscription_now =
      on_option (method client cancel_method) (push not_configured none) λ cancel. do
        ask_provider (cancel_subscription provider_id) (cancel provider_id)
        update_featured_subscription spots_system_viewer sub.id
            (record no_patch {
              status = some cancelled;
              paused_at = some none;
              revise_requested_at = some none;
              approve_url = some none;
            })
            subscription_cancelled none none
        push went_cancelled none

  -- The outbid bids stay in the queue: the subscription is suspended.
  unfoldable pub suspend_now : Tx (List QuantityChange)
  suspend_now = on_option (method client (λ c. c.suspend)) (push not_configured none) λ suspend. do
    ask_provider (suspend_subscription provider_id) (suspend provider_id)
    at ← gets (λ s. s.now)
    update_featured_subscription spots_system_viewer sub.id
        (record no_patch {
          status = some paused;
          paused_at = some (some at);
          revise_requested_at = some none;
          approve_url = some none;
        })
        spots_paused none none
    push went_paused none

  -- `quantity === 0 && !pending`
  unfoldable pub stop_billing : List ChargeableBid → Tx (List QuantityChange)
  stop_billing live_bids =
      if length live_bids == 0
      then cancel_subscription_now
      else if is_paused sub.status
      then push unchanged none
      else suspend_now

  -- Whatever was outstanding is moot: PayPal already bills this amount.
  unfoldable pub settle_request : Bool → Tx (List QuantityChange)
  settle_request pending =
      let outstanding =
        is_some sub.approve_url
        || is_some sub.revise_requested_at
        || not (sub.requested_quantity == quantity) in
      if not (not pending && outstanding) then push unchanged none else do
        update_featured_subscription spots_system_viewer sub.id
            (record no_patch {
              requested_quantity = some quantity;
              revise_requested_at = some none;
              approve_url = some none;
            })
            revise_settled none none
        push unchanged none

  unfoldable pub request_revision : Tx (List QuantityChange)
  request_revision = on_option (method client (λ c. c.revise)) (push not_configured none) λ revise.
      if sub.requested_quantity == quantity
        && is_some sub.revise_requested_at
        && is_some sub.approve_url
      then push awaiting_approval sub.approve_url
      else do
        url ← ask_provider (revise_subscription provider_id quantity) (revise provider_id quantity)
        at ← gets (λ s. s.now)
        update_featured_subscription spots_system_viewer sub.id
            (record no_patch {
              requested_quantity = some quantity;
              revise_requested_at = some (some at);
              approve_url = some url;
            })
            revise_requested none none
        push revised url

  -- From "A raise or a new bid is waiting" to the end of the round.
  unfoldable pub settle_quantity : Bool → Tx (List QuantityChange)
  settle_quantity pending =
      if pending && is_some sub.revise_requested_at && is_some sub.approve_url
      then push awaiting_approval sub.approve_url
      else if quantity == sub.quantity || quantity == 0
      then settle_request pending
      else request_revision

  -- A paused subscription that something is featured for again is activated first.
  unfoldable pub resume_billing : Bool → Tx (List QuantityChange)
  resume_billing pending =
      on_option (method client (λ c. c.activate)) (push not_configured none) λ activate. do
        ask_provider (activate_subscription provider_id) (activate provider_id)
        update_featured_subscription spots_system_viewer sub.id
            (record no_patch { status = some active; paused_at = some none }) spots_resumed none
            none
        if quantity == sub.quantity then push resumed none else settle_quantity pending

  -- What is done for a subscription that PayPal has approved.
  unfoldable pub sync_approved : List ChargeableBid → Bool → Tx (List QuantityChange)
  sync_approved live_bids pending =
      if quantity == 0 && not pending
      then stop_billing live_bids
      else if is_paused sub.status && ltb 0 quantity
      then resume_billing pending
      else settle_quantity pending

-- The round for a listing with the subscription `sub`.
unfoldable pub sync_subscription :
    Option PayPalClient
    → FeaturedSubscription
    → List ChargeableBid
    → Bool
    → Tx (List QuantityChange)
sync_subscription client sub live_bids pending =
    let quantity = quantity_for live_bids in
    let awaiting = push client sub 0 quantity awaiting_approval sub.approve_url in
    on_option sub.provider_subscription_id awaiting λ provider_id.
      if is_approval_pending sub.status
      then awaiting
      else sync_approved client sub provider_id quantity live_bids pending

-- One round of the loop of `syncQuantities`.
unfoldable pub sync_listing : Option PayPalClient → ℕ → Tx (List QuantityChange)
sync_listing client listing_id = do
  found ← current_featured_subscription spots_system_viewer listing_id none
  on_option found (pure []) λ sub. do
    live_bids ← chargeable_bids_for_listing spots_system_viewer listing_id
    pending ← has_pending_bids spots_system_viewer listing_id
    sync_subscription client sub live_bids pending

unfoldable pub sync_quantities : Option PayPalClient → List ℕ → Tx (List QuantityChange)
sync_quantities client listing_ids = collect (distinct listing_ids) (sync_listing client)

pub record SettleResult : Type 0 where
  pub paths : List PagePath
  pub changes : List QuantityChange

-- Re-rank, then re-bill. `also` are listings that may hold no bid in these spots any more.
unfoldable pub settle_spots : Option PayPalClient → List ℕ → List ℕ → Option ℕ → Tx SettleResult
settle_spots client spot_ids also silent = do
  ranked ← rerank_spots spot_ids silent
  changes ← sync_quantities client (ranked.listing_ids ++ also)
  pure (record { paths = ranked.paths; changes = changes })

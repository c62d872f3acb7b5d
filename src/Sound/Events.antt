-- ===== src/Sound/Events.antt =====
-- PayPal's events, an owner's cancellation and an admin's closing of a spot keep the rows sound.
use directory_platform.Common.{ℕ, ◌≡◌, Bool, true, false, Option, none, some}
use directory_platform.Provider.{PayPalClient, SubscriptionView}
use directory_platform.Store.Rows.{Db, BidRow, FeaturedSubscription, FeaturedSubscriptionStatus}
use directory_platform.Store.Tx.{ok}
use directory_platform.Store.Triple.{
  Keeps-pure, Keeps-gets, Keeps-if, Keeps-option, Keeps-bind, Keeps-modify,
}
use directory_platform.Store.Frame.{
  Ends-ok, frame_rules, frame-featured_subscription_for_event, frame-update_featured_subscription,
  frame-listing_bids_for_system,
}
use directory_platform.Bidding.Cancel.{
  CancelBidOutcome, CancelBidInput, cancel_found, cancel_approved, cancel_unless_unapproved,
  cancel_own_bid,
}
use directory_platform.Webhook.{
  EventType, subscription_activated, subscription_updated, subscription_suspended,
  subscription_cancelled, subscription_expired, payment_failed, sale_completed, other_subscription,
  other, PayPalEvent, FeaturedWebhookOutcome, confirm_covered, confirm_row, renew_row, lapse_row,
  fail_row, apply_type, apply_event, process_featured_event,
}
use directory_platform.Webhook.Reconcile.{
  apply_view, ask_and_apply, reconcile_featured_subscription,
}
use directory_platform.Sound.Rows.{AreSound}
use directory_platform.Sound.Bids.{
  KeepsSound, sound-cancel_bid, sound-confirm_listing_bids, sound-cancel_listing_bids,
  sound-settle_spots,
}

module _ (client : Option PayPalClient) (sub : FeaturedSubscription) where
  sound-confirm_covered : (b : Bool) → KeepsSound (confirm_covered client sub b)
  unfolding confirm_covered
  sound-confirm_covered false = Keeps-pure _
  sound-confirm_covered true = sound-confirm_listing_bids _ _

  sound-confirm_row : (event : PayPalEvent) → KeepsSound (confirm_row client sub event)
  unfolding confirm_row
  sound-confirm_row event = Keeps-if _ _ _ (Keeps-pure _) (
      Keeps-bind _ _ (frame-update_featured_subscription AreSound _ _ _ _ _ _) λ _.
        Keeps-bind _ _ (sound-confirm_covered _) λ touched.
          Keeps-bind _ _ (frame-listing_bids_for_system AreSound _ _)
            λ held. Keeps-bind _ _ (sound-settle_spots _ _ _ _) λ _. Keeps-pure _)

  sound-renew_row : (event : PayPalEvent) → KeepsSound (renew_row client sub event)
  unfolding renew_row
  sound-renew_row event = search frame_rules depth 9

  sound-lapse_row : (status : FeaturedSubscriptionStatus) → KeepsSound (lapse_row client sub status)
  unfolding lapse_row
  sound-lapse_row status =
      Keeps-bind _ _ (frame-update_featured_subscription AreSound _ _ _ _ _ _) λ _.
        Keeps-bind _ _ (sound-cancel_listing_bids _ _)
          λ spots. Keeps-bind _ _ (sound-settle_spots _ _ _ _) λ _. Keeps-pure _

  sound-fail_row : KeepsSound (fail_row client sub)
  unfolding fail_row
  sound-fail_row = search frame_rules depth 9

  sound-apply_type :
      (event : PayPalEvent) (type : EventType) → KeepsSound (apply_type client sub event type)
  unfolding apply_type
  sound-apply_type event subscription_activated = sound-confirm_row event
  sound-apply_type event subscription_updated =
      Keeps-if _ _ _ (Keeps-pure _) (sound-confirm_row event)
  sound-apply_type event subscription_suspended = Keeps-if _ _ _ (Keeps-pure _) (sound-lapse_row _)
  sound-apply_type event subscription_cancelled = sound-lapse_row _
  sound-apply_type event subscription_expired = sound-lapse_row _
  sound-apply_type event payment_failed = sound-fail_row
  sound-apply_type event sale_completed = sound-renew_row event
  sound-apply_type event other_subscription = Keeps-pure _
  sound-apply_type event other = Keeps-pure _

sound-process_featured_event :
    (client : Option PayPalClient) (event : PayPalEvent)
    → KeepsSound (process_featured_event client event)
unfolding process_featured_event apply_event
sound-process_featured_event client event =
    Keeps-bind _ _ (frame-featured_subscription_for_event AreSound _ _ _)
      λ found. Keeps-option _ _ _ (Keeps-pure _) λ sub. sound-apply_type client sub event _

-- If every bid, and every raise that waits, is in whole units and no position stands on a bid
-- that is not active, then the same holds after any event that is handled without a throw.
pub process_featured_event-AreSound :
    (client : Option PayPalClient) (event : PayPalEvent) (s s' : Db) (out : FeaturedWebhookOutcome)
    → AreSound s.bids
    → process_featured_event client event s ≡ ok (out, s')
    → AreSound s'.bids
process_featured_event-AreSound client event s s' out h e =
    Ends-ok AreSound e ((sound-process_featured_event client event).at s h)

module _ (client : PayPalClient) where
  sound-apply_view : (view : SubscriptionView) → KeepsSound (apply_view client view)
  unfolding apply_view
  sound-apply_view view =
      Keeps-option _ _ _ (Keeps-pure _)
        λ type. Keeps-bind _ _ (sound-process_featured_event _ _) λ out. Keeps-pure _

  sound-ask_and_apply : (provider_id : ℕ) → KeepsSound (ask_and_apply client provider_id)
  unfolding ask_and_apply
  sound-ask_and_apply provider_id = Keeps-bind _ _ (Keeps-gets _) λ answer.
      Keeps-bind _ _ (Keeps-modify _ (λ s h. h)) λ _.
        Keeps-option _ _ _ (Keeps-pure _)
          λ found. Keeps-option _ _ _ (Keeps-pure _) λ view. sound-apply_view view

sound-reconcile :
    (client : Option PayPalClient) (provider_id : ℕ)
    → KeepsSound (reconcile_featured_subscription client provider_id)
unfolding reconcile_featured_subscription
sound-reconcile client provider_id = Keeps-option _ _ _ (Keeps-pure _) λ c.
    Keeps-bind _ _ (frame-featured_subscription_for_event AreSound _ _ _)
      λ sub. Keeps-option _ _ _ (Keeps-pure _) λ row. sound-ask_and_apply c provider_id

module _ (input : CancelBidInput) where
  sound-cancel_found : (own : BidRow) → KeepsSound (cancel_found input own)
  unfolding cancel_found
  sound-cancel_found own =
      Keeps-bind _ _ (sound-cancel_bid _ _ _)
        λ _. Keeps-bind _ _ (sound-settle_spots _ _ _ _) λ _. Keeps-pure _

  sound-cancel_approved : KeepsSound (cancel_approved input)
  unfolding cancel_approved
  sound-cancel_approved = search (frame_rules, sound-cancel_found)

  sound-cancel_unless_unapproved :
      (sub : Option FeaturedSubscription) → KeepsSound (cancel_unless_unapproved input sub)
  unfolding cancel_unless_unapproved
  sound-cancel_unless_unapproved none = sound-cancel_approved
  sound-cancel_unless_unapproved (some sub) = Keeps-if _ _ _ (Keeps-pure _) sound-cancel_approved

  sound-cancel_own_bid : KeepsSound (cancel_own_bid input)
  unfolding cancel_own_bid
  sound-cancel_own_bid = search (frame_rules, sound-cancel_unless_unapproved) depth 9

-- If every bid, and every raise that waits, is in whole units and no position stands on a bid
-- that is not active, then the same holds after any `cancelOwnBid` that does not throw.
pub cancel_own_bid-AreSound :
    (input : CancelBidInput) (s s' : Db) (out : CancelBidOutcome)
    → AreSound s.bids
    → cancel_own_bid input s ≡ ok (out, s')
    → AreSound s'.bids
cancel_own_bid-AreSound input s s' out h e =
    Ends-ok AreSound e ((sound-cancel_own_bid input).at s h)

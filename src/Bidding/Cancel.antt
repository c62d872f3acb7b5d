-- ===== src/Bidding/Cancel.antt =====
-- `cancelOwnBid` (lib/spots/bidding.ts).
use directory_platform.Common.{ℕ, Option, none, some, List, [], ◌∷◌, ◌==◌, if◌then◌else◌, find?}
use directory_platform.Provider.{PayPalClient}
use directory_platform.Store.Rows.{BidRow, FeaturedSubscription, Viewer}
use directory_platform.Store.Tx.{Tx, on_option, pure, ◌>>=◌, ◌>>◌}
use directory_platform.Store.Listings.{listing_for_bidding, lock_listing}
use directory_platform.Store.Spots.{PagePath}
use directory_platform.Store.Bids.{listing_bids, cancel_bid}
use directory_platform.Store.Subscriptions.{current_featured_subscription}
use directory_platform.Engine.Sync.{settle_spots}
use directory_platform.Bidding.{approval_for, is_unapproved}

pub data CancelBidOutcome : Type 0 where
  not_owner no_bid : CancelBidOutcome
  awaiting_approval : Option ℕ → CancelBidOutcome
  applied : Option ℕ → List PagePath → CancelBidOutcome

pub record CancelBidInput : Type 0 where
  pub client : Option PayPalClient
  pub viewer : Viewer
  pub profile_id : ℕ
  pub listing_id : ℕ
  pub spot_id : ℕ
  pub ip : Option ℕ

module _ (input : CancelBidInput) where
  unfoldable pub cancel_found : BidRow → Tx CancelBidOutcome
  cancel_found own = do
    cancel_bid input.viewer own.id input.ip
    settled ← settle_spots input.client (input.spot_id ∷ []) (input.listing_id ∷ []) none
    pure (applied (approval_for settled.changes input.listing_id) settled.paths)

  unfoldable pub cancel_approved : Tx CancelBidOutcome
  cancel_approved = do
    mine ← listing_bids input.viewer input.listing_id input.profile_id
    on_option (find? (λ (b : BidRow). b.spot_id == input.spot_id) mine) (pure no_bid)
        λ own. cancel_found own

  unfoldable pub cancel_unless_unapproved : Option FeaturedSubscription → Tx CancelBidOutcome
  cancel_unless_unapproved none = cancel_approved
  cancel_unless_unapproved (some sub) =
      if is_unapproved sub then pure (awaiting_approval sub.approve_url) else cancel_approved

  unfoldable pub cancel_own_bid : Tx CancelBidOutcome
  cancel_own_bid = do
    listing ← listing_for_bidding input.viewer input.listing_id input.profile_id
    on_option listing (pure not_owner) λ l. do
      lock_listing input.viewer l.id
      sub ← current_featured_subscription input.viewer input.listing_id (some input.profile_id)
      cancel_unless_unapproved sub

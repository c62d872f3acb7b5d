-- ===== src/Bidding.antt =====
-- What an owner can do with a spot: bid, raise, lower, withdraw a raise, cancel
-- (lib/spots/bidding.ts). The configuration check of the plan id is the parameter `plan_id`.
pub mod Place
pub mod Cancel
use directory_platform.Common.{
  ℕ, ◌+◌, ◌/◌, Bool, true, false, not, ◌&&◌, ◌||◌, Option, none, some, List, [], ◌∷◌, ◌++◌, map,
  ltb, ◌==◌, if◌then◌else◌, is_some, is_none, option_eq, get_or, find?, filter, any, includes,
}
use directory_platform.Rank.{
  RankableBid, RankedBid, SpotStanding, BidRejection, BidValidation, accepted, rejected, unit_cents,
  is_active, rank_bids, quantity_for, validate_bid, validate_lower,
}
use directory_platform.Provider.{PayPalClient}
use directory_platform.Notify.{spots_system_viewer}
use directory_platform.Store.Rows.{
  SpotKey, SpotRow, SpotStatus, is_open, is_closed, BidRow, FeaturedSubscription, Db, Viewer,
  active, ProviderCall, create_subscription, activate_subscription, revise_subscription,
  revise_settled, revise_requested, spots_resumed,
}
use directory_platform.Store.Tx.{Tx, pure, gets, ◌>>=◌, ◌>>◌, ask_provider}
use directory_platform.Store.Listings.{
  IneligibleReason, BiddingListing, listing_for_bidding, lock_listing, spot_area_exists,
}
use directory_platform.Store.Spots.{PagePath, ensure_spot}
use directory_platform.Store.Bids.{
  spot_bids, listing_bids, insert_bid, set_bid_pending, set_bid_amount, cancel_bid,
  clear_pending_raise, confirm_listing_bids, chargeable,
}
use directory_platform.Store.Subscriptions.{
  current_featured_subscription, create_featured_subscription, attach_featured_provider, no_patch,
  update_featured_subscription, is_paused, is_approval_pending,
}
use directory_platform.Engine.{rankable, QuantityChange}
use directory_platform.Engine.Sync.{method, SettleResult, settle_spots}

pub data BidOutcome : Type 0 where
  not_configured not_owner no_such_area not_your_category spot_closed unchanged : BidOutcome
  not_eligible : IneligibleReason → BidOutcome
  refused : BidRejection → ℕ → BidOutcome
  awaiting_approval : Option ℕ → BidOutcome
  approval applied : Option ℕ → List PagePath → BidOutcome

pub record PlaceBidInput : Type 0 where
  pub client : Option PayPalClient
  -- `featuredPlanIdFor(env)`
  pub plan_id : Option ℕ
  pub viewer : Viewer
  pub profile_id : ℕ
  pub listing_id : ℕ
  pub spot : SpotKey
  pub amount_cents : ℕ
  pub ip : Option ℕ

unfoldable pub spot_allowed_for : BiddingListing → SpotKey → Bool
spot_allowed_for listing key = elim key.category_id [
  | none ↦ true
  | some c ↦ includes listing.category_ids c
]

-- The standing holds the others' featured amounts. `validateBid` reads their highest, their
-- lowest and their number, which do not depend on the order that the code sorts them into.
unfoldable pub standing_for : SpotRow → List BidRow → ℕ → SpotStanding
standing_for spot bids listing_id = record {
  floor_cents = spot.floor_cents;
  positions = spot.positions;
  featured =
      map (λ (b : BidRow). b.amount_cents)
        (filter (λ b. not (b.listing_id == listing_id) && is_active b.status && is_some b.position)
          bids);
}

-- The bid as it would rank if it were confirmed now; its id in the code is a text that is no
-- uuid, and `hypothetical` is the number of that text.
unfoldable pub hypothetical_bids : ℕ → List BidRow → ℕ → ℕ → ℕ → List RankableBid
hypothetical_bids hypothetical bids listing_id amount at =
    map rankable (filter (λ b. not (b.listing_id == listing_id)) bids)
    ++ record {
      id = hypothetical;
      listing_id = listing_id;
      amount_cents = amount;
      amount_set_at = at;
      status = directory_platform.Rank.BidStatus.active;
    }
      ∷ []

-- the units that the ranked row of the listing adds
unfoldable pub units_if_placed : Option RankedBid → ℕ → ℕ
units_if_placed none amount = 0
units_if_placed (some r) amount = if is_some r.position then amount / unit_cents else 0

unfoldable pub projected_quantity : ℕ → SpotRow → List BidRow → List BidRow → ℕ → ℕ → ℕ → ℕ
projected_quantity hypothetical spot bids others listing_id amount at =
    let ranked =
      rank_bids (hypothetical_bids hypothetical bids listing_id amount at) spot.positions in
    let mine = find? (λ (r : RankedBid). r.listing_id == listing_id) ranked in
    quantity_for (map chargeable others) + units_if_placed mine amount

-- `approvalFor`
unfoldable pub approval_for : List QuantityChange → ℕ → Option ℕ
approval_for changes listing_id =
    elim (find? (λ (c : QuantityChange). c.listing_id == listing_id) changes) [
      | none ↦ none
      | some c ↦ c.approve_url
    ]

-- `sub.status === "approval_pending" || sub.providerSubscriptionId === null`
abbrev pub is_unapproved : FeaturedSubscription → Bool
is_unapproved sub = is_approval_pending sub.status || is_none sub.provider_subscription_id

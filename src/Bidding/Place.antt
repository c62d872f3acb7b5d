-- ===== src/Bidding/Place.antt =====
-- `placeBid` and `cancelOwnBid` (lib/spots/bidding.ts), block by block.
use directory_platform.Common.{
  ℕ, Bool, true, false, not, Option, none, some, List, [], ◌∷◌, ltb, ◌==◌, if◌then◌else◌, find?,
  filter,
}
use directory_platform.Rank.{BidValidation, accepted, rejected, validate_bid, validate_lower}
use directory_platform.Provider.{PayPalClient, Revise}
use directory_platform.Notify.{spots_system_viewer}
use directory_platform.Store.Rows.{
  SpotRow, SpotStatus, is_open, is_closed, BidRow, FeaturedSubscription, active,
  create_subscription, activate_subscription, revise_subscription, revise_settled, revise_requested,
  spots_resumed,
}
use directory_platform.Store.Tx.{Tx, on_option, pure, gets, ◌>>=◌, ◌>>◌, ask_provider}
use directory_platform.Store.Listings.{
  BiddingListing, listing_for_bidding, lock_listing, spot_area_exists,
}
use directory_platform.Store.Spots.{ensure_spot}
use directory_platform.Store.Bids.{
  spot_bids, listing_bids, insert_bid, set_bid_pending, set_bid_amount, clear_pending_raise,
  confirm_listing_bids,
}
use directory_platform.Store.Subscriptions.{
  current_featured_subscription, create_featured_subscription, attach_featured_provider, no_patch,
  update_featured_subscription, is_paused,
}
use directory_platform.Engine.Sync.{settle_spots}
use directory_platform.Bidding.{
  BidOutcome, not_configured, not_owner, no_such_area, not_your_category, spot_closed, unchanged,
  not_eligible, refused, awaiting_approval, approval, applied, PlaceBidInput, spot_allowed_for,
  standing_for, projected_quantity, approval_for, is_unapproved,
}

-- `if (!check.ok) return { outcome: "rejected", … }`, and the rest of the block
unfoldable pub on_validation : BidValidation → Tx BidOutcome → Tx BidOutcome
on_validation accepted rest = rest
on_validation (rejected reason minimum) rest = pure (refused reason minimum)

module _ (input : PlaceBidInput) (client : PayPalClient) (spot : SpotRow) where
  -- The amount is the bid's own: a pending raise is withdrawn.
  unfoldable pub withdraw_raise : BidRow → Tx BidOutcome
  withdraw_raise own = on_option own.pending_amount_cents (pure unchanged) λ raise. do
    clear_pending_raise input.viewer own.id input.ip
    settled ← settle_spots (some client) (spot.id ∷ []) (input.listing_id ∷ []) none
    pure (applied none settled.paths)

  unfoldable pub lower_accepted : BidRow → Tx BidOutcome
  lower_accepted own = do
    set_bid_amount input.viewer own.id input.amount_cents input.ip
    settled ← settle_spots (some client) (spot.id ∷ []) [] (some input.listing_id)
    pure (applied (approval_for settled.changes input.listing_id) settled.paths)

  unfoldable pub lower_bid : BidRow → Tx BidOutcome
  lower_bid own =
      on_validation (validate_lower input.amount_cents spot.floor_cents) (lower_accepted own)

  -- A first bid is inserted as pending, a raise noted as pending.
  unfoldable pub write_pending : ℕ → Option BidRow → Tx Unit
  write_pending subscription_id none = do
    insert_bid input.viewer (record {
      spot_id = spot.id;
      listing_id = input.listing_id;
      subscription_id = subscription_id;
      amount_cents = input.amount_cents;
      ip = input.ip;
    })
    pure tt
  write_pending subscription_id (some own) =
      set_bid_pending input.viewer own.id input.amount_cents input.ip

  -- The listing's first subscription: pending row, pending bid, then PayPal.
  unfoldable pub start_subscription : ℕ → ℕ → Option BidRow → Tx BidOutcome
  start_subscription plan_id quantity own = do
    subscription_id ←
        create_featured_subscription input.viewer input.listing_id input.profile_id plan_id quantity
          input.ip
    write_pending subscription_id own
    created ←
        ask_provider (create_subscription plan_id quantity)
          (client.create plan_id subscription_id quantity)
    attach_featured_provider input.viewer subscription_id created.id created.approve_url
    pure (approval created.approve_url [])

  -- PayPal bills this quantity already, so the bid is confirmed at once.
  unfoldable pub confirm_now : FeaturedSubscription → ℕ → Tx BidOutcome
  confirm_now sub quantity = do
    update_featured_subscription input.viewer sub.id
        (record no_patch {
          requested_quantity = some quantity;
          revise_requested_at = some none;
          approve_url = some none;
        })
        revise_settled (some input.profile_id) input.ip
    touched ← confirm_listing_bids spots_system_viewer input.listing_id
    settled ← settle_spots (some client) (spot.id ∷ touched) [] none
    pure (applied none settled.paths)

  -- PayPal is asked for the quantity that covers the bid.
  unfoldable pub ask_for_quantity : FeaturedSubscription → ℕ → ℕ → Revise → Tx BidOutcome
  ask_for_quantity sub provider_id quantity revise =
      if quantity == sub.quantity then confirm_now sub quantity else do
        url ← ask_provider (revise_subscription provider_id quantity) (revise provider_id quantity)
        at ← gets (λ s. s.now)
        update_featured_subscription input.viewer sub.id
            (record no_patch {
              requested_quantity = some quantity;
              revise_requested_at = some (some at);
              approve_url = some url;
            })
            revise_requested (some input.profile_id) input.ip
        pure (approval url [])

  -- Resume first: a revise on a suspended subscription is refused.
  unfoldable pub resume_and_ask : FeaturedSubscription → ℕ → ℕ → Revise → Tx BidOutcome
  resume_and_ask sub provider_id quantity revise =
      on_option client.activate (pure not_configured) λ activate. do
        ask_provider (activate_subscription provider_id) (activate provider_id)
        update_featured_subscription input.viewer sub.id
            (record no_patch { status = some active; paused_at = some none }) spots_resumed
            (some input.profile_id) input.ip
        ask_for_quantity sub provider_id quantity revise

  unfoldable pub revise_live : FeaturedSubscription → ℕ → Tx BidOutcome
  revise_live sub quantity = on_option client.revise (pure not_configured) λ revise.
      on_option sub.provider_subscription_id (pure not_configured) λ provider_id.
        if is_paused sub.status
        then resume_and_ask sub provider_id quantity revise
        else ask_for_quantity sub provider_id quantity revise

  -- A live subscription exists: the bid waits for PayPal to confirm the quantity.
  unfoldable pub bid_on_live : FeaturedSubscription → ℕ → Option BidRow → Tx BidOutcome
  bid_on_live sub quantity own = do write_pending sub.id own; revise_live sub quantity

  unfoldable pub bid_accepted : ℕ → Option FeaturedSubscription → ℕ → Option BidRow → Tx BidOutcome
  bid_accepted plan_id none quantity own = start_subscription plan_id quantity own
  bid_accepted plan_id (some sub) quantity own = bid_on_live sub quantity own

  -- A first bid or a raise; `others` are the listing's bids on other spots.
  unfoldable pub bid_or_raise :
      ℕ
      → ℕ
      → Option FeaturedSubscription
      → List BidRow
      → List BidRow
      → Option BidRow
      → Tx BidOutcome
  bid_or_raise hypothetical plan_id sub bids others own =
      on_validation (validate_bid input.amount_cents (standing_for spot bids input.listing_id)) do
        at ← gets (λ s. s.now)
        bid_accepted plan_id sub
            (projected_quantity hypothetical spot bids others input.listing_id input.amount_cents
              at)
            own

  unfoldable pub decide_bid :
      ℕ
      → ℕ
      → Option FeaturedSubscription
      → List BidRow
      → List BidRow
      → Option BidRow
      → Tx BidOutcome
  decide_bid hypothetical plan_id sub bids others none =
      bid_or_raise hypothetical plan_id sub bids others none
  decide_bid hypothetical plan_id sub bids others (some own) =
      if input.amount_cents == own.amount_cents
      then withdraw_raise own
      else if ltb input.amount_cents own.amount_cents
      then lower_bid own
      else bid_or_raise hypothetical plan_id sub bids others (some own)

  -- The first approval has not happened: back to PayPal.
  unfoldable pub decide_approved :
      ℕ → ℕ → Option FeaturedSubscription → List BidRow → List BidRow → Tx BidOutcome
  decide_approved hypothetical plan_id none bids mine =
      decide_bid hypothetical plan_id none bids (filter (λ b. not (b.spot_id == spot.id)) mine)
        (find? (λ b. b.listing_id == input.listing_id) bids)
  decide_approved hypothetical plan_id (some sub) bids mine =
      if is_unapproved sub
      then pure (awaiting_approval sub.approve_url)
      else decide_bid hypothetical plan_id (some sub) bids
          (filter (λ b. not (b.spot_id == spot.id)) mine)
          (find? (λ b. b.listing_id == input.listing_id) bids)

abbrev is_closed_spot : SpotStatus → Bool
is_closed_spot is_closed = true
is_closed_spot is_open = false

module _ (hypothetical : ℕ) (input : PlaceBidInput) where
  -- Everything below the lock reads and writes this listing's subscription and bids.
  unfoldable pub place_locked : PayPalClient → ℕ → Tx BidOutcome
  place_locked client plan_id = do
    lock_listing input.viewer input.listing_id
    spot ← ensure_spot input.viewer input.spot
    if is_closed_spot spot.status then pure spot_closed else do
      bids ← spot_bids spot.id
      mine ← listing_bids input.viewer input.listing_id input.profile_id
      sub ← current_featured_subscription input.viewer input.listing_id (some input.profile_id)
      decide_approved input client spot hypothetical plan_id sub bids mine

  unfoldable pub place_eligible : PayPalClient → ℕ → BiddingListing → Tx BidOutcome
  place_eligible client plan_id listing =
      if not (spot_allowed_for listing input.spot) then pure not_your_category else do
        exists ← spot_area_exists input.viewer input.spot
        if not exists then pure no_such_area else place_locked client plan_id

  unfoldable pub place_for : PayPalClient → ℕ → BiddingListing → Tx BidOutcome
  place_for client plan_id listing =
      on_option listing.reason (place_eligible client plan_id listing)
        λ reason. pure (not_eligible reason)

  unfoldable pub place_configured : PayPalClient → ℕ → Tx BidOutcome
  place_configured client plan_id = do
    listing ← listing_for_bidding input.viewer input.listing_id input.profile_id
    on_option listing (pure not_owner) λ l. place_for client plan_id l

  unfoldable pub place_bid : Tx BidOutcome
  place_bid = on_option input.client (pure not_configured) λ client.
      on_option input.plan_id (pure not_configured) λ plan_id. place_configured client plan_id

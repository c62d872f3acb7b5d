-- ===== src/Engine/Keeps.antt =====
-- What holds of the rows of bids through a settlement. A settlement writes them in two places:
-- the new positions, and the mark of a bid whose owner is told.
use directory_platform.Common.{ℕ, ◌≡◌, refl, Bool, Option, List, map, update}
use directory_platform.Rank.{RankedBid, ChargeableBid}
use directory_platform.Provider.{PayPalClient}
use directory_platform.Notify.{
  spots_system_viewer, OutbidChange, outbid_debounce_ms, notify_change, notify_outbid,
}
use directory_platform.Store.Rows.{SpotRow, BidRow, FeaturedSubscription}
use directory_platform.Store.Tx.{gets}
use directory_platform.Store.Triple.{
  Triple, Keeps, Keeps-pure, Keeps-gets, Keeps-if, Keeps-option, Keeps-bind, Keeps-modify,
  Triple-bind, Keeps-collect,
}
use directory_platform.Store.Frame.{
  Holds, frame_rules, frame-assert_worker, frame-spot_by_id, frame-spot_paths, frame-enqueue_job,
  frame-listings_in_spots, frame-current_featured_subscription,
}
use directory_platform.Store.Bids.{
  spot_bids, apply_ranking, due, notified_row, mark_outbid_notified,
}
use directory_platform.Engine.{rerank_spot, rerank_spots}
use directory_platform.Engine.Rows.{apply_rows, bids_on, ranking_of, apply_ranking-eq}
use directory_platform.Engine.Sync.{
  cancel_subscription_now, suspend_now, stop_billing, settle_request, request_revision,
  settle_quantity, resume_billing, sync_approved, sync_subscription, sync_listing, sync_quantities,
  settle_spots,
}

-- The billing half of a settlement writes no bid.
module _ (F : List BidRow → Type 0) (client : Option PayPalClient) (sub : FeaturedSubscription)
    (pid q : ℕ) where
  Keeps-cancel_subscription_now : Keeps (Holds F) (cancel_subscription_now client sub pid q)
  unfolding cancel_subscription_now
  Keeps-cancel_subscription_now = search frame_rules depth 9

  Keeps-suspend_now : Keeps (Holds F) (suspend_now client sub pid q)
  unfolding suspend_now
  Keeps-suspend_now = search frame_rules depth 9

  Keeps-stop_billing :
      (live : List ChargeableBid) → Keeps (Holds F) (stop_billing client sub pid q live)
  unfolding stop_billing
  Keeps-stop_billing live =
      Keeps-if _ _ _ Keeps-cancel_subscription_now (Keeps-if _ _ _ (Keeps-pure _) Keeps-suspend_now)

  Keeps-settle_request :
      (pending : Bool) → Keeps (Holds F) (settle_request client sub pid q pending)
  unfolding settle_request
  Keeps-settle_request pending = search frame_rules depth 7

  Keeps-request_revision : Keeps (Holds F) (request_revision client sub pid q)
  unfolding request_revision
  Keeps-request_revision = search frame_rules depth 9

  Keeps-settle_quantity :
      (pending : Bool) → Keeps (Holds F) (settle_quantity client sub pid q pending)
  unfolding settle_quantity
  Keeps-settle_quantity pending =
      Keeps-if _ _ _ (Keeps-pure _)
        (Keeps-if _ _ _ (Keeps-settle_request pending) Keeps-request_revision)

  Keeps-resume_billing :
      (pending : Bool) → Keeps (Holds F) (resume_billing client sub pid q pending)
  unfolding resume_billing
  Keeps-resume_billing pending =
      Keeps-option _ _ _ (Keeps-pure _) λ m. search (frame_rules, Keeps-settle_quantity)

  Keeps-sync_approved :
      (live : List ChargeableBid) (pending : Bool)
      → Keeps (Holds F) (sync_approved client sub pid q live pending)
  unfolding sync_approved
  Keeps-sync_approved live pending =
      Keeps-if _ _ _ (Keeps-stop_billing live)
        (Keeps-if _ _ _ (Keeps-resume_billing pending) (Keeps-settle_quantity pending))

module _ (F : List BidRow → Type 0) (client : Option PayPalClient) where
  Keeps-sync_subscription :
      (sub : FeaturedSubscription) (live : List ChargeableBid) (pending : Bool)
      → Keeps (Holds F) (sync_subscription client sub live pending)
  unfolding sync_subscription
  Keeps-sync_subscription sub live pending =
      Keeps-option _ _ _ (Keeps-pure _)
        λ pid. Keeps-if _ _ _ (Keeps-pure _) (Keeps-sync_approved F client sub pid _ live pending)

  Keeps-sync_listing : (l : ℕ) → Keeps (Holds F) (sync_listing client l)
  unfolding sync_listing
  Keeps-sync_listing l = Keeps-bind _ _ (frame-current_featured_subscription F _ _ _) λ found.
      Keeps-option _ _ _ (Keeps-pure _) λ sub. search (frame_rules, Keeps-sync_subscription)

  pub Keeps-sync_quantities : (ls : List ℕ) → Keeps (Holds F) (sync_quantities client ls)
  unfolding sync_quantities
  Keeps-sync_quantities ls = Keeps-collect _ _ Keeps-sync_listing

module _ (F : List BidRow → Type 0)
    (keeps_ranking : (spot : SpotRow) (spot_id at : ℕ) (bids : List BidRow)
      → F bids
      → F (apply_rows at spot_id (ranking_of spot spot_id bids) bids))
    (keeps_mark : (at bid_id : ℕ) (bids : List BidRow)
      → F bids
      → F (update (due at outbid_debounce_ms bid_id) (notified_row at) bids)) where
  Keeps-mark :
      (id : ℕ) → Keeps (Holds F) (mark_outbid_notified spots_system_viewer id outbid_debounce_ms)
  unfolding mark_outbid_notified
  Keeps-mark id = Keeps-bind _ _ (frame-assert_worker F _) λ _. Keeps-bind _ _ (Keeps-gets _) λ at.
      Keeps-bind _ _ (Keeps-gets _)
        λ hit. Keeps-bind _ _ (Keeps-modify _ (λ s h. keeps_mark at id s.bids h)) λ _. Keeps-pure _

  Keeps-notify_change :
      (spot : SpotRow) (after : List RankedBid) (silent : Option ℕ) (c : OutbidChange)
      → Keeps (Holds F) (notify_change spot after silent c)
  unfolding notify_change
  Keeps-notify_change spot after silent c = Keeps-if _ _ _ (Keeps-pure _) (
      Keeps-bind _ _ (Keeps-mark c.bid_id) λ fresh.
        Keeps-if _ _ _ (Keeps-pure _) (Keeps-bind _ _ (frame-enqueue_job F _) λ _. Keeps-pure _))

  Keeps-notify_outbid :
      (spot : SpotRow) (before : List BidRow) (after : List RankedBid) (silent : Option ℕ)
      → Keeps (Holds F) (notify_outbid spot before after silent)
  unfolding notify_outbid
  Keeps-notify_outbid spot before after silent =
      Keeps-collect _ _ (Keeps-notify_change spot after silent)

  -- The rows that were read are the ones that are ranked and written.
  Triple-spot_bids :
      (spot_id : ℕ)
      → Triple (Holds F) (spot_bids spot_id) (λ rows s. Holds F s × (rows ≡ bids_on spot_id s.bids))
  unfolding spot_bids gets
  Triple-spot_bids spot_id = record { at = λ s h. (h, refl) }

  Triple-apply_ranking :
      (spot : SpotRow) (spot_id : ℕ) (rows : List BidRow)
      → Triple
          (λ s. Holds F s × (rows ≡ bids_on spot_id s.bids))
          (apply_ranking spots_system_viewer spot_id (
            directory_platform.Rank.rank_bids
              (map directory_platform.Engine.rankable rows)
              spot.positions))
          (λ _. Holds F)
  Triple-apply_ranking spot spot_id rows = record {
    at =
        λ s h. rw (apply_ranking-eq spot_id _ s, h.1) (keeps_ranking spot spot_id s.now s.bids h.0);
  }

  Keeps-rerank_spot : (silent : Option ℕ) (id : ℕ) → Keeps (Holds F) (rerank_spot silent id)
  unfolding rerank_spot
  Keeps-rerank_spot silent id = Keeps-bind _ _ (frame-spot_by_id F id) λ found.
      Keeps-option _ _ _ (Keeps-pure _) λ spot. Triple-bind _ _ _ (Triple-spot_bids id) λ rows.
        Triple-bind _ _ _ (Triple-apply_ranking spot id rows)
          λ _. Keeps-bind _ _ (Keeps-notify_outbid _ _ _ _) λ _. frame-spot_paths F _

  pub Keeps-rerank_spots :
      (ids : List ℕ) (silent : Option ℕ) → Keeps (Holds F) (rerank_spots ids silent)
  unfolding rerank_spots
  Keeps-rerank_spots ids silent =
      Keeps-bind _ _ (Keeps-collect _ _ (Keeps-rerank_spot silent))
        λ paths. Keeps-bind _ _ (frame-listings_in_spots F _ _) λ l. Keeps-pure _

  -- A settlement keeps what its two writes to the bids keep.
  pub Keeps-settle_spots :
      (client : Option PayPalClient) (ids also : List ℕ) (silent : Option ℕ)
      → Keeps (Holds F) (settle_spots client ids also silent)
  unfolding settle_spots
  Keeps-settle_spots client ids also silent =
      Keeps-bind _ _ (Keeps-rerank_spots ids silent)
        λ ranked. Keeps-bind _ _ (Keeps-sync_quantities F client _) λ changes. Keeps-pure _

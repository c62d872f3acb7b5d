-- ===== src/Engine.antt =====
-- What happens after any bid changes (lib/spots/engine.ts): the spots that it touched are ranked
-- again, and every listing with a bid there has its PayPal quantity brought up to date.
pub mod Sync
pub mod Rows
pub mod Keeps
pub mod Calls
pub mod Confirmed
pub mod Positions
use directory_platform.Common.{
  ℕ, ◌+◌, Bool, true, false, not, ◌&&◌, ◌||◌, Option, none, some, List, [], ◌∷◌, ◌++◌, map, ltb,
  ◌==◌, if◌then◌else◌, is_some, is_none, option_eq, any, length, distinct,
}
use directory_platform.Rank.{RankableBid, ChargeableBid, rank_bids, quantity_for}
use directory_platform.Provider.{PayPalClient}
use directory_platform.Notify.{spots_system_viewer, notify_outbid}
use directory_platform.Store.Rows.{
  SpotRow, BidRow, FeaturedSubscriptionStatus, active, paused, cancelled, FeaturedSubscription,
  AuditAction, subscription_cancelled, spots_paused, spots_resumed, revise_settled,
  revise_requested, cancel_subscription, suspend_subscription, activate_subscription,
  revise_subscription,
}
use directory_platform.Store.Tx.{Tx, on_option, pure, gets, ◌>>=◌, ◌>>◌, collect, ask_provider}
use directory_platform.Store.Spots.{
  PagePath, area_page, city_page, category_page, spot_by_id, spot_paths,
}
use directory_platform.Store.Bids.{
  spot_bids, apply_ranking, listings_in_spots, chargeable_bids_for_listing, has_pending_bids,
}
use directory_platform.Store.Subscriptions.{
  current_featured_subscription, Patch, no_patch, update_featured_subscription, is_paused,
  is_approval_pending,
}

abbrev pub rankable : BidRow → RankableBid
rankable b = record {
  id = b.id;
  listing_id = b.listing_id;
  amount_cents = b.amount_cents;
  amount_set_at = b.amount_set_at;
  status = b.status;
}

-- the texts of two paths are equal
unfoldable pub same_path : PagePath → PagePath → Bool
same_path (area_page a) (area_page b) = a == b
same_path (city_page a) (city_page b) = a == b
same_path (category_page a b) (category_page c d) = a == c && b == d
same_path _ _ = false

-- the values of a `Set` of paths
unfoldable pub distinct_paths : List PagePath → List PagePath → List PagePath
distinct_paths seen [] = []
distinct_paths seen (p ∷ ps) =
    let rest = distinct_paths (p ∷ seen) ps in
    let others = distinct_paths seen ps in if any (same_path p) seen then others else p ∷ rest

-- One round of the loop of `rerankSpots`: the listing `silent` is told nothing.
unfoldable pub rerank_spot : Option ℕ → ℕ → Tx (List PagePath)
rerank_spot silent spot_id = do
  found ← spot_by_id spot_id
  on_option found (pure []) λ spot. do
    bids ← spot_bids spot_id
    let ranked = rank_bids (map rankable bids) spot.positions
    apply_ranking spots_system_viewer spot_id ranked
    notify_outbid spot bids ranked silent
    spot_paths spot_id

pub record RerankResult : Type 0 where
  pub listing_ids : List ℕ
  pub paths : List PagePath

unfoldable pub rerank_spots : List ℕ → Option ℕ → Tx RerankResult
rerank_spots spot_ids silent = do
  paths ← collect (distinct spot_ids) (rerank_spot silent)
  listings ← listings_in_spots spots_system_viewer (distinct spot_ids)
  pure (record { listing_ids = listings; paths = distinct_paths [] paths })

pub data QuantityAction : Type 0 where
  unchanged revised went_paused went_cancelled resumed not_configured awaiting_approval :
      QuantityAction

pub record QuantityChange : Type 0 where
  pub listing_id : ℕ
  pub subscription_id : ℕ
  pub quantity : ℕ
  pub action : QuantityAction
  pub approve_url : Option ℕ

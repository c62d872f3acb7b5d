-- ===== src/Store/Bids.antt =====
-- The bids: read, placed, raised, lowered, cancelled, confirmed, ranked (lib/db/queries/spots.ts).
use directory_platform.Common.{
  ℕ, ◌+◌, Bool, true, not, ◌&&◌, ◌||◌, Option, none, some, List, [], ◌∷◌, ◌++◌, map, ltb, ◌==◌,
  if◌then◌else◌, is_some, is_none, get_or, filter, any, update, includes, distinct, sort_by,
}
use directory_platform.Rank.{
  pending, active, outbid, cancelled, RankedBid, ChargeableBid, is_pending, is_cancelled,
}
use directory_platform.Store.Rows.{
  BidRow, Db, Viewer, bid_placed, bid_raise_requested, bid_lowered, bid_cancelled, raise_withdrawn,
  raise_expired,
}
use directory_platform.Store.Tx.{
  conflict, Tx, pure, gets, ◌>>=◌, ◌>>◌, modify, require, for_each, assert_worker, assert_signed_in,
  fresh_id, write_audit_as,
}
use directory_platform.Store.Listings.{actor_for, owns}
use directory_platform.Store.Spots.{cancelled_row}

abbrev pub is_live : BidRow → Bool
is_live b = not (is_cancelled b.status)

unfoldable pub spot_bids : ℕ → Tx (List BidRow)
spot_bids spot_id =
    gets λ s. sort_by (λ b. b.created_at) (filter (λ b. b.spot_id == spot_id && is_live b) s.bids)

unfoldable pub listing_bids : Viewer → ℕ → ℕ → Tx (List BidRow)
listing_bids viewer listing_id profile_id = do
  assert_signed_in viewer
  gets λ s.
      filter (λ b. b.listing_id == listing_id && owns s b.listing_id profile_id && is_live b) s.bids

unfoldable pub listing_bids_for_system : Viewer → ℕ → Tx (List BidRow)
listing_bids_for_system viewer listing_id = do
  assert_worker viewer
  gets (λ s. filter (λ b. b.listing_id == listing_id && is_live b) s.bids)

abbrev pub chargeable : BidRow → ChargeableBid
chargeable b = record { amount_cents = b.amount_cents; status = b.status; position = b.position }

unfoldable pub chargeable_bids_for_listing : Viewer → ℕ → Tx (List ChargeableBid)
chargeable_bids_for_listing viewer listing_id = do
  assert_worker viewer
  gets λ s.
      map chargeable
        (sort_by (λ b. b.created_at) (filter (λ b. b.listing_id == listing_id && is_live b) s.bids))

unfoldable pub listings_in_spots : Viewer → List ℕ → Tx (List ℕ)
listings_in_spots viewer spot_ids = do
  assert_worker viewer
  gets λ s.
      distinct
        (map (λ b. b.listing_id) (filter (λ b. includes spot_ids b.spot_id && is_live b) s.bids))

-- a first bid, or a raise, that waits for PayPal
abbrev pub waits : BidRow → Bool
waits b = is_pending b.status || is_some b.pending_amount_cents

unfoldable pub has_pending_bids : Viewer → ℕ → Tx Bool
has_pending_bids viewer listing_id = do
  assert_worker viewer
  gets (λ s. any (λ b. b.listing_id == listing_id && waits b) s.bids)

pub record InsertBidInput : Type 0 where
  pub spot_id : ℕ
  pub listing_id : ℕ
  pub subscription_id : ℕ
  pub amount_cents : ℕ
  pub ip : Option ℕ

unfoldable pub pending_row : InsertBidInput → ℕ → ℕ → BidRow
pending_row input id at = record {
  id = id;
  spot_id = input.spot_id;
  listing_id = input.listing_id;
  subscription_id = some input.subscription_id;
  amount_cents = input.amount_cents;
  amount_set_at = at;
  pending_amount_cents = none;
  status = pending;
  position = none;
  created_at = at;
  updated_at = at;
  cancelled_at = none;
  outbid_notified_at = none;
}

-- `insertBid` with status `pending`, as both callers have it. The index `featured_bids_live_key`
-- refuses a second uncancelled bid of a listing on a spot.
unfoldable pub insert_bid : Viewer → InsertBidInput → Tx ℕ
insert_bid viewer input = do
  assert_signed_in viewer
  at ← gets (λ s. s.now)
  id ← fresh_id
  taken ← gets λ s.
      any (λ b. b.spot_id == input.spot_id && b.listing_id == input.listing_id && is_live b) s.bids
  require (not taken) conflict
  modify (λ s. record s { bids = s.bids ++ pending_row input id at ∷ [] })
  actor ← actor_for viewer
  write_audit_as actor (bid_placed input.spot_id input.listing_id input.amount_cents pending) id
      input.ip
  pure id

abbrev pub set_bids : (BidRow → Bool) → (BidRow → BidRow) → Db → Db
set_bids p f s = record s { bids = update p f s.bids }

unfoldable pub raised_row : ℕ → ℕ → BidRow → BidRow
raised_row amount at b = record b { pending_amount_cents = some amount; updated_at = at }

unfoldable pub set_bid_pending : Viewer → ℕ → ℕ → Option ℕ → Tx Unit
set_bid_pending viewer bid_id amount ip = do
  assert_signed_in viewer
  at ← gets (λ s. s.now)
  modify (set_bids (λ b. b.id == bid_id) (raised_row amount at))
  actor ← actor_for viewer
  write_audit_as actor (bid_raise_requested amount) bid_id ip

unfoldable pub lowered_row : ℕ → ℕ → BidRow → BidRow
lowered_row amount at b = record b {
  amount_cents = amount;
  amount_set_at = at;
  pending_amount_cents = none;
  updated_at = at;
}

unfoldable pub set_bid_amount : Viewer → ℕ → ℕ → Option ℕ → Tx Unit
set_bid_amount viewer bid_id amount ip = do
  assert_signed_in viewer
  at ← gets (λ s. s.now)
  modify (set_bids (λ b. b.id == bid_id) (lowered_row amount at))
  actor ← actor_for viewer
  write_audit_as actor (bid_lowered amount) bid_id ip

unfoldable pub cancel_bid : Viewer → ℕ → Option ℕ → Tx Unit
cancel_bid viewer bid_id ip = do
  assert_signed_in viewer
  at ← gets (λ s. s.now)
  modify (set_bids (λ b. b.id == bid_id) (cancelled_row at))
  actor ← actor_for viewer
  write_audit_as actor bid_cancelled bid_id ip

unfoldable pub unraised_row : ℕ → BidRow → BidRow
unraised_row at b = record b { pending_amount_cents = none; updated_at = at }

unfoldable pub clear_pending_raise : Viewer → ℕ → Option ℕ → Tx Unit
clear_pending_raise viewer bid_id ip = do
  assert_signed_in viewer
  at ← gets (λ s. s.now)
  modify (set_bids (λ b. b.id == bid_id) (unraised_row at))
  actor ← actor_for viewer
  write_audit_as actor raise_withdrawn bid_id ip

unfoldable pub ranked_row : RankedBid → ℕ → BidRow → BidRow
ranked_row r at b = record b {
  position = r.position;
  status = if is_none r.position then outbid else active;
  updated_at = at;
}

unfoldable pub apply_ranking : Viewer → ℕ → List RankedBid → Tx Unit
apply_ranking viewer spot_id ranked = do
  assert_worker viewer
  at ← gets (λ s. s.now)
  for_each ranked
      λ r. modify (set_bids (λ b. b.id == r.id && b.spot_id == spot_id) (ranked_row r at))

-- a pending bid becomes a real one, and a pending raise is applied and is a new amount
unfoldable pub confirmed_row : ℕ → BidRow → BidRow
confirmed_row at b = record b {
  status = if is_pending b.status then active else b.status;
  amount_cents = get_or b.pending_amount_cents b.amount_cents;
  amount_set_at = if is_none b.pending_amount_cents then b.amount_set_at else at;
  pending_amount_cents = none;
  updated_at = at;
}

abbrev pub waits_for : ℕ → BidRow → Bool
waits_for listing_id b = b.listing_id == listing_id && waits b

unfoldable pub confirm_listing_bids : Viewer → ℕ → Tx (List ℕ)
confirm_listing_bids viewer listing_id = do
  assert_worker viewer
  at ← gets (λ s. s.now)
  rows ← gets (λ s. filter (waits_for listing_id) s.bids)
  modify (set_bids (waits_for listing_id) (confirmed_row at))
  pure (distinct (map (λ (b : BidRow). b.spot_id) rows))

abbrev pub live_of : ℕ → BidRow → Bool
live_of listing_id b = b.listing_id == listing_id && is_live b

unfoldable pub cancel_listing_bids : Viewer → ℕ → Tx (List ℕ)
cancel_listing_bids viewer listing_id = do
  assert_worker viewer
  at ← gets (λ s. s.now)
  rows ← gets (λ s. filter (live_of listing_id) s.bids)
  modify (set_bids (live_of listing_id) (cancelled_row at))
  for_each rows (λ b. write_audit_as none bid_cancelled b.id none)
  pure (distinct (map (λ (b : BidRow). b.spot_id) rows))

abbrev pub raises_of : ℕ → BidRow → Bool
raises_of listing_id b = b.listing_id == listing_id && is_some b.pending_amount_cents

abbrev pub unconfirmed_of : ℕ → BidRow → Bool
unconfirmed_of listing_id b = b.listing_id == listing_id && is_pending b.status

-- the second statement of `expirePendingBids` leaves `pending_amount_cents` alone
unfoldable pub expired_row : ℕ → BidRow → BidRow
expired_row at b = record b {
  status = cancelled;
  position = none;
  cancelled_at = some at;
  updated_at = at;
}

unfoldable pub expire_pending_bids : Viewer → ℕ → Tx (List ℕ)
expire_pending_bids viewer listing_id = do
  assert_worker viewer
  at ← gets (λ s. s.now)
  dropped ← gets (λ s. filter (raises_of listing_id) s.bids)
  modify (set_bids (raises_of listing_id) (unraised_row at))
  expired ← gets (λ s. filter (unconfirmed_of listing_id) s.bids)
  modify (set_bids (unconfirmed_of listing_id) (expired_row at))
  for_each (dropped ++ expired)
      λ b. write_audit_as none (raise_expired listing_id b.spot_id) b.id none
  pure (distinct (map (λ (b : BidRow). b.spot_id) (dropped ++ expired)))

-- `outbid_notified_at is null or outbid_notified_at < at - window`
abbrev pub due : ℕ → ℕ → ℕ → BidRow → Bool
due at window bid_id b =
    b.id == bid_id && elim b.outbid_notified_at [ none ↦ true | some t ↦ ltb (t + window) at ]

unfoldable pub notified_row : ℕ → BidRow → BidRow
notified_row at b = record b { outbid_notified_at = some at; updated_at = at }

unfoldable pub mark_outbid_notified : Viewer → ℕ → ℕ → Tx Bool
mark_outbid_notified viewer bid_id window = do
  assert_worker viewer
  at ← gets (λ s. s.now)
  hit ← gets (λ s. any (due at window bid_id) s.bids)
  modify (set_bids (due at window bid_id) (notified_row at))
  pure hit

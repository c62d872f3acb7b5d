-- ===== src/Notify.antt =====
-- Who is told after a re-rank (lib/spots/notify.ts).
use directory_platform.Common.{
  ℕ, ◌*◌, not, ◌&&◌, Option, none, some, List, [], ◌∷◌, ◌++◌, map, ltb, ◌==◌, if◌then◌else◌,
  is_some, option_eq, find?, filter,
}
use directory_platform.Rank.{
  RankedBid, SpotStanding, is_active, minimum_to_take_first, minimum_to_enter,
}
use directory_platform.Store.Rows.{
  SpotRow, BidRow, OutbidKind, lost_first, dropped_out, notify_spot_outbid, Viewer, admin,
}
use directory_platform.Store.Tx.{Tx, pure, ◌>>=◌, ◌>>◌, collect, enqueue_job}
use directory_platform.Store.Bids.{mark_outbid_notified}

pub record OutbidChange : Type 0 where
  pub bid_id : ℕ
  pub listing_id : ℕ
  pub kind : OutbidKind
  pub from : ℕ
  pub to : Option ℕ

-- an hour, in milliseconds
abbrev pub outbid_debounce_ms : ℕ
outbid_debounce_ms = 60 * 60 * 1000

-- The system viewer: the nil uuid, which is no user's.
abbrev pub spots_system_viewer : Viewer
spots_system_viewer = admin 0

-- `next.get(id) ?? null`; the ids of a ranking are distinct.
unfoldable pub next_position : List RankedBid → ℕ → Option ℕ
next_position after id = elim (find? (λ r. r.id == id) after) [ none ↦ none | some r ↦ r.position ]

-- A place that was held, against the next one.
unfoldable pub change_of : BidRow → ℕ → Option ℕ → List OutbidChange
change_of b held none =
    record { bid_id = b.id; listing_id = b.listing_id; kind = dropped_out; from = held; to = none }
    ∷ []
change_of b held (some to) =
    if held == 1 && ltb 1 to
    then record {
      bid_id = b.id;
      listing_id = b.listing_id;
      kind = lost_first;
      from = 1;
      to = some to;
    }
      ∷ []
    else []

-- One round of the loop of `positionChanges`.
unfoldable pub changes_of : List RankedBid → BidRow → Option ℕ → List OutbidChange
changes_of after b none = []
changes_of after b (some held) =
    if is_active b.status then change_of b held (next_position after b.id) else []

unfoldable pub position_changes : List BidRow → List RankedBid → List OutbidChange
position_changes [] after = []
position_changes (b ∷ bs) after = changes_of after b b.position ++ position_changes bs after

unfoldable pub amount_to_retake : SpotRow → List RankedBid → OutbidChange → ℕ
amount_to_retake spot after change =
    let others =
      filter (λ (r : RankedBid). is_some r.position && not (r.listing_id == change.listing_id))
        after in
    let standing : SpotStanding = record {
      floor_cents = spot.floor_cents;
      positions = spot.positions;
      featured = map (λ (r : RankedBid). r.amount_cents) others;
    } in
    elim change.kind [
      | lost_first ↦ minimum_to_take_first standing
      | dropped_out ↦ minimum_to_enter standing
    ]

-- One round of the loop of `notifyOutbid`: the change, if it was queued.
unfoldable pub notify_change :
    SpotRow → List RankedBid → Option ℕ → OutbidChange → Tx (List OutbidChange)
notify_change spot after silent change =
    if option_eq (some change.listing_id) silent then pure [] else do
      fresh ← mark_outbid_notified spots_system_viewer change.bid_id outbid_debounce_ms
      if not fresh then pure [] else do
        enqueue_job
            (notify_spot_outbid change.bid_id change.kind (amount_to_retake spot after change))
        pure (change ∷ [])

unfoldable pub notify_outbid :
    SpotRow → List BidRow → List RankedBid → Option ℕ → Tx (List OutbidChange)
notify_outbid spot before after silent =
    collect (position_changes before after) (notify_change spot after silent)

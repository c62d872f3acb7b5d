-- ===== src/Book.antt =====
-- The book of bids: what the table says of each bid once positions, dates and the subscription
-- are left out. It is the abstract state that confirmations and cancellations are specified
-- on (lib/spots/webhook.ts, lib/db/queries/spots.ts).
pub mod Queries
pub mod Events
pub mod Spots
pub mod Reconcile
use directory_platform.Common.{
  ℕ, ◌≡◌, Bool, true, false, not, ◌&&◌, ◌||◌, Option, none, some, List, [], ◌∷◌, map, ◌==◌,
  if◌then◌else◌, is_some, get_or,
}
use directory_platform.Rank.{BidStatus}
use directory_platform.Store.Rows.{BidRow, Db}
use directory_platform.Engine.Confirmed.{HasDistinctIds}

-- An active and an outbid bid differ in their positions only.
pub data Stage : Type 0 where
  waiting confirmed withdrawn : Stage

abbrev pub stage_of : BidStatus → Stage
stage_of BidStatus.pending = waiting
stage_of BidStatus.active = confirmed
stage_of BidStatus.outbid = confirmed
stage_of BidStatus.cancelled = withdrawn

pub record Entry : Type 0 where
  pub id : ℕ
  pub spot_id : ℕ
  pub listing_id : ℕ
  pub amount_cents : ℕ
  pub raise : Option ℕ
  pub stage : Stage

abbrev pub entry : BidRow → Entry
entry b = record {
  id = b.id;
  spot_id = b.spot_id;
  listing_id = b.listing_id;
  amount_cents = b.amount_cents;
  raise = b.pending_amount_cents;
  stage = stage_of b.status;
}

abbrev pub book : Db → List Entry
book s = map entry s.bids

-- A table whose ids are distinct and whose book is `m`.
abbrev pub Shows : List Entry → List BidRow → Type 0
Shows m bids = HasDistinctIds bids × (map entry bids ≡ m)

abbrev pub is_waiting : Stage → Bool
is_waiting waiting = true
is_waiting confirmed = false
is_waiting withdrawn = false

abbrev pub is_withdrawn : Stage → Bool
is_withdrawn waiting = false
is_withdrawn confirmed = false
is_withdrawn withdrawn = true

-- A confirmed entry: what waited is real, and a raise is the amount.
abbrev pub confirm_entry : ℕ → Entry → Entry
confirm_entry listing_id e =
    if e.listing_id == listing_id && (is_waiting e.stage || is_some e.raise)
    then record e {
      amount_cents = get_or e.raise e.amount_cents;
      raise = none;
      stage = if is_waiting e.stage then confirmed else e.stage;
    }
    else e

-- A cancelled entry.
abbrev pub cancel_entry : ℕ → Entry → Entry
cancel_entry listing_id e =
    if e.listing_id == listing_id && not (is_withdrawn e.stage)
    then record e { raise = none; stage = withdrawn }
    else e

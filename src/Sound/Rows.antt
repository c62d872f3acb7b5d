-- ===== src/Sound/Rows.antt =====
-- A sound row, and each write to a row.
use directory_platform.Common.{
  ℕ, ◌%◌, ◌≡◌, refl, Bool, true, false, ◌&&◌, Option, none, some, List, [], ◌∷◌, ◌==◌, arith,
  is_some, get_or, All, All-update, update,
}
use directory_platform.Rank.{RankedBid, BidStatus, active}
use directory_platform.Notify.{outbid_debounce_ms}
use directory_platform.Store.Rows.{BidRow, SpotRow}
use directory_platform.Store.Spots.{cancelled_row}
use directory_platform.Store.Bids.{
  InsertBidInput, pending_row, raised_row, lowered_row, unraised_row, ranked_row, confirmed_row,
  expired_row, notified_row, due,
}
use directory_platform.Engine.Rows.{apply_rows, ranking_of}

-- The amount, and the amount that a confirmation would set, are in whole units, and only an
-- active bid holds a position.
pub record RowIsSound (b : BidRow) : Type 0 where
  pub whole : b.amount_cents % 100 ≡ 0
  pub whole_next : get_or b.pending_amount_cents b.amount_cents % 100 ≡ 0
  pub placed : is_some b.position ≡ true → b.status ≡ active

abbrev pub AreSound : List BidRow → Type 0
AreSound = All RowIsSound

pub pending_row-RowIsSound :
    (i : InsertBidInput) (id at : ℕ) → i.amount_cents % 100 ≡ 0 → RowIsSound (pending_row i id at)
unfolding pending_row
pending_row-RowIsSound i id at h = record { whole = h; whole_next = h; placed = λ e. cc }

pub raised_row-RowIsSound :
    (amount at : ℕ) (b : BidRow)
    → amount % 100 ≡ 0
    → RowIsSound b
    → RowIsSound (raised_row amount at b)
unfolding raised_row
raised_row-RowIsSound amount at b h s = record {
  whole = s.whole;
  whole_next = h;
  placed = s.placed;
}

pub lowered_row-RowIsSound :
    (amount at : ℕ) (b : BidRow)
    → amount % 100 ≡ 0
    → RowIsSound b
    → RowIsSound (lowered_row amount at b)
unfolding lowered_row
lowered_row-RowIsSound amount at b h s = record { whole = h; whole_next = h; placed = s.placed }

pub unraised_row-RowIsSound : (at : ℕ) (b : BidRow) → RowIsSound b → RowIsSound (unraised_row at b)
unfolding unraised_row
unraised_row-RowIsSound at b s = record { whole = s.whole; whole_next = s.whole; placed = s.placed }

pub cancelled_row-RowIsSound :
    (at : ℕ) (b : BidRow) → RowIsSound b → RowIsSound (cancelled_row at b)
unfolding cancelled_row
cancelled_row-RowIsSound at b s = record { whole = s.whole; whole_next = s.whole; placed = λ e. cc }

pub expired_row-RowIsSound : (at : ℕ) (b : BidRow) → RowIsSound b → RowIsSound (expired_row at b)
unfolding expired_row
expired_row-RowIsSound at b s = record {
  whole = s.whole;
  whole_next = s.whole_next;
  placed = λ e. cc;
}

pub confirmed_row-RowIsSound :
    (at : ℕ) (b : BidRow) → RowIsSound b → RowIsSound (confirmed_row at b)
unfolding confirmed_row
confirmed_row-RowIsSound at b s = record {
  whole = s.whole_next;
  whole_next = s.whole_next;
  placed = λ e. still_active (b.status) (s.placed e);
}
  where
    still_active :
        (st : BidStatus)
        → st ≡ active
        → directory_platform.Common.if◌then◌else◌ (directory_platform.Rank.is_pending st) active st
          ≡ active
    still_active st e = ground arith

pub ranked_row-RowIsSound :
    (r : RankedBid) (at : ℕ) (b : BidRow) → RowIsSound b → RowIsSound (ranked_row r at b)
unfolding ranked_row
ranked_row-RowIsSound r at b s = record {
  whole = s.whole;
  whole_next = s.whole_next;
  placed = λ e. ground arith;
}

notified_row-RowIsSound : (at : ℕ) (b : BidRow) → RowIsSound b → RowIsSound (notified_row at b)
unfolding notified_row
notified_row-RowIsSound at b s = record {
  whole = s.whole;
  whole_next = s.whole_next;
  placed = s.placed;
}

apply_rows-AreSound :
    (at spot_id : ℕ) (rs : List RankedBid) (bids : List BidRow)
    → AreSound bids
    → AreSound (apply_rows at spot_id rs bids)
unfolding apply_rows
apply_rows-AreSound at spot_id [] bids h = h
apply_rows-AreSound at spot_id (r ∷ rs) bids h =
    apply_rows-AreSound at spot_id rs _
      (All-update RowIsSound _ _ bids (λ b e s. ranked_row-RowIsSound r at b s) h)

pub ranking-AreSound :
    (spot : SpotRow) (spot_id at : ℕ) (bids : List BidRow)
    → AreSound bids
    → AreSound (apply_rows at spot_id (ranking_of spot spot_id bids) bids)
ranking-AreSound spot spot_id at bids =
    apply_rows-AreSound at spot_id (ranking_of spot spot_id bids) bids

pub mark-AreSound :
    (at bid_id : ℕ) (bids : List BidRow)
    → AreSound bids
    → AreSound (update (due at outbid_debounce_ms bid_id) (notified_row at) bids)
mark-AreSound at bid_id bids =
    All-update RowIsSound _ _ bids (λ b e s. notified_row-RowIsSound at b s)

-- ===== src/Book/Queries.antt =====
-- The queries on the book: a settlement leaves it alone, and the statements that confirm or
-- cancel a listing's bids do to it what its specification says.
use directory_platform.Common.{
  ℕ, ◌≡◌, refl, ap, ap₂, ◌∙◌, Bool, true, false, ◌&&◌, ◌||◌, not, Option, none, List, [], ◌∷◌, map,
  ◌==◌, arith, if◌then◌else◌, is_some, is_none, get_or, update,
}
use directory_platform.Rank.{BidStatus, RankedBid, ranks, is_pending, is_cancelled}
use directory_platform.Provider.{PayPalClient}
use directory_platform.Notify.{outbid_debounce_ms}
use directory_platform.Store.Rows.{BidRow, SpotRow, Viewer}
use directory_platform.Store.Tx.{modify}
use directory_platform.Store.Triple.{
  Triple, Keeps, Keeps-gets, Keeps-for_each, Triple-bind, Triple-pure,
}
use directory_platform.Store.Frame.{Holds, frame-assert_worker, frame-write_audit_as}
use directory_platform.Store.Spots.{cancelled_row}
use directory_platform.Store.Bids.{
  ranked_row, confirmed_row, notified_row, due, waits_for, live_of, confirm_listing_bids,
  cancel_listing_bids,
}
use directory_platform.Engine.Rows.{apply_rows, ranking_of}
use directory_platform.Engine.Keeps.{Keeps-settle_spots}
use directory_platform.Engine.Sync.{settle_spots}
use directory_platform.Engine.Confirmed.{HasDistinctIds-update, HasDistinctIds-ranking, map-ranking}
use directory_platform.Book.{
  confirmed, withdrawn, is_waiting, is_withdrawn, stage_of, Entry, entry, Shows, confirm_entry,
  cancel_entry,
}

ranked_stage :
    (c : Bool) (st : BidStatus)
    → ranks st ≡ true
    → stage_of (if c then BidStatus.outbid else BidStatus.active) ≡ stage_of st
ranked_stage c st h = ground arith

ranked_row-entry :
    (r : RankedBid) (at : ℕ) (b : BidRow)
    → ranks b.status ≡ true
    → entry (ranked_row r at b) ≡ entry b
unfolding ranked_row
ranked_row-entry r at b h =
    ap (λ t. record (entry b) { stage = t }) (ranked_stage (is_none r.position) b.status h)

-- A statement that does to each row what `g` does to its entry.
map-update :
    (p : BidRow → Bool) (f : BidRow → BidRow) (g : Entry → Entry) (bids : List BidRow)
    → ((b : BidRow) → entry (if p b then f b else b) ≡ g (entry b))
    → map entry (update p f bids) ≡ map g (map entry bids)
map-update p f g [] h = refl
map-update p f g (b ∷ bs) h = ap₂ ◌∷◌ (h b) (map-update p f g bs h)

ranking-Shows :
    (m : List Entry) (spot : SpotRow) (spot_id at : ℕ) (bids : List BidRow)
    → Shows m bids
    → Shows m (apply_rows at spot_id (ranking_of spot spot_id bids) bids)
ranking-Shows m spot spot_id at bids (d, e) = (
  HasDistinctIds-ranking spot spot_id at bids d,
  map-ranking entry ranked_row-entry spot spot_id at bids d ∙ e,
)

map_same : (m : List Entry) → map (λ e. e) m ≡ m
map_same [] = refl
map_same (e ∷ es) = ap₂ ◌∷◌ refl (map_same es)

mark-Shows :
    (m : List Entry) (at bid_id : ℕ) (bids : List BidRow)
    → Shows m bids
    → Shows m (update (due at outbid_debounce_ms bid_id) (notified_row at) bids)
unfolding notified_row
mark-Shows m at bid_id bids (d, e) = (
  HasDistinctIds-update _ (notified_row at) bids (λ b. same_id b) d,
  map-update _ (notified_row at) (λ e. e) bids (λ b. same b (due at outbid_debounce_ms bid_id b))
      ∙ map_same _
      ∙ e,
)
  where
    same_id : (b : BidRow) → (notified_row at b).id ≡ b.id
    same_id b = refl

    same : (b : BidRow) (c : Bool) → entry (if c then notified_row at b else b) ≡ entry b
    same b true = refl
    same b false = refl

-- A settlement leaves the book as it is: it moves bids, charges for them and tells their owners.
pub settle_spots-Shows :
    (m : List Entry) (client : Option PayPalClient) (ids also : List ℕ) (silent : Option ℕ)
    → Keeps (Holds (Shows m)) (settle_spots client ids also silent)
settle_spots-Shows m = Keeps-settle_spots (Shows m) (ranking-Shows m) (mark-Shows m)

-- A statement on the rows, as a statement on the book.
pub update-Shows :
    (m : List Entry) (p : BidRow → Bool) (f : BidRow → BidRow) (g : Entry → Entry)
    → ((b : BidRow) → (f b).id ≡ b.id)
    → ((b : BidRow) → entry (if p b then f b else b) ≡ g (entry b))
    → Triple
        (Holds (Shows m))
        (modify (λ s. record s { bids = update p f s.bids }))
        (λ _. Holds (Shows (map g m)))
unfolding modify
update-Shows m p f g same h = record {
  at = λ s k.
      (HasDistinctIds-update p f s.bids same k.0, map-update p f g s.bids h ∙ ap (map g) k.1);
}

pub pending_waits : (st : BidStatus) → is_pending st ≡ is_waiting (stage_of st)
pending_waits st = ground arith

pub cancelled_is_withdrawn : (st : BidStatus) → is_cancelled st ≡ is_withdrawn (stage_of st)
cancelled_is_withdrawn st = ground arith

confirmed_stage :
    (st : BidStatus)
    → stage_of (if is_pending st then BidStatus.active else st)
      ≡ (if is_waiting (stage_of st) then confirmed else stage_of st)
confirmed_stage st = ground arith

confirmed_id : (at : ℕ) (b : BidRow) → (confirmed_row at b).id ≡ b.id
unfolding confirmed_row
confirmed_id at b = refl

pub cancelled_id : (at : ℕ) (b : BidRow) → (cancelled_row at b).id ≡ b.id
unfolding cancelled_row
cancelled_id at b = refl

confirmed_row-entry :
    (l at : ℕ) (b : BidRow)
    → entry (if waits_for l b then confirmed_row at b else b) ≡ confirm_entry l (entry b)
unfolding confirmed_row
confirmed_row-entry l at b =
    split (waits_for l b) _ (
      ap (λ c. b.listing_id == l && (c || is_some b.pending_amount_cents)) (pending_waits b.status))
  where
    split :
        (c c' : Bool)
        → c ≡ c'
        → entry (if c then confirmed_row at b else b) ≡ (
            if c'
            then record (entry b) {
              amount_cents = get_or b.pending_amount_cents b.amount_cents;
              raise = none;
              stage = if is_waiting (stage_of b.status) then confirmed else stage_of b.status;
            }
            else entry b)
    split true true e =
        ap (λ t. record (entry (confirmed_row at b)) { stage = t }) (confirmed_stage b.status)
    split false false e = refl
    split true false e = cc
    split false true e = cc

cancelled_row-entry :
    (l at : ℕ) (b : BidRow)
    → entry (if live_of l b then cancelled_row at b else b) ≡ cancel_entry l (entry b)
unfolding cancelled_row
cancelled_row-entry l at b =
    rw (cancelled_is_withdrawn b.status)
      (split (b.listing_id == l && not (is_withdrawn (stage_of b.status))))
  where
    split :
        (c : Bool)
        → entry (if c then cancelled_row at b else b)
          ≡ (if c then record (entry b) { raise = none; stage = withdrawn } else entry b)
    split true = refl
    split false = refl

pub confirm_listing_bids-Shows :
    (m : List Entry) (v : Viewer) (l : ℕ)
    → Triple
        (Holds (Shows m))
        (confirm_listing_bids v l)
        (λ _. Holds (Shows (map (confirm_entry l) m)))
unfolding confirm_listing_bids
confirm_listing_bids-Shows m v l = Triple-bind _ _ _ (frame-assert_worker (Shows m) v) λ _.
    Triple-bind _ _ _ (Keeps-gets _) λ at. Triple-bind _ _ _ (Keeps-gets _) λ rows.
      Triple-bind _ _ _ (update-Shows m _ _ _ (λ b. confirmed_id at b) (confirmed_row-entry l at))
        λ _. Triple-pure _ (λ s h. h)

pub cancel_listing_bids-Shows :
    (m : List Entry) (v : Viewer) (l : ℕ)
    → Triple
        (Holds (Shows m))
        (cancel_listing_bids v l)
        (λ _. Holds (Shows (map (cancel_entry l) m)))
unfolding cancel_listing_bids
cancel_listing_bids-Shows m v l =
    let after = Shows (map (cancel_entry l) m) in
    Triple-bind _ _ _ (frame-assert_worker (Shows m) v) λ _. Triple-bind _ _ _ (Keeps-gets _) λ at.
      Triple-bind _ _ _ (Keeps-gets _) λ rows.
        Triple-bind _ _ _ (update-Shows m _ _ _ (λ b. cancelled_id at b) (cancelled_row-entry l at))
          λ _.
            Triple-bind _ _ _ (Keeps-for_each _ _ λ b. frame-write_audit_as after _ _ _ _)
              λ _. Triple-pure _ (λ s h. h)

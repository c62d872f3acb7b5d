-- ===== src/Sound/Bids.antt =====
-- Every query that writes bids keeps the rows sound, and so does a settlement.
use directory_platform.Common.{ℕ, ◌%◌, ◌≡◌, Bool, Option, List, All-update, All-append, update}
use directory_platform.Provider.{PayPalClient}
use directory_platform.Store.Rows.{BidRow, Viewer}
use directory_platform.Store.Tx.{Tx, modify}
use directory_platform.Store.Triple.{
  Keeps, Keeps-pure, Keeps-gets, Keeps-bind, Keeps-modify, Keeps-require, Keeps-for_each,
}
use directory_platform.Store.Frame.{
  Holds, frame_rules, frame-assert_worker, frame-assert_signed_in, frame-actor_for, frame-fresh_id,
  frame-write_audit_as,
}
use directory_platform.Store.Bids.{
  InsertBidInput, insert_bid, set_bid_pending, set_bid_amount, cancel_bid, clear_pending_raise,
  confirm_listing_bids, cancel_listing_bids, expire_pending_bids,
}
use directory_platform.Engine.Keeps.{Keeps-settle_spots}
use directory_platform.Engine.Sync.{settle_spots}
use directory_platform.Sound.Rows.{
  RowIsSound, AreSound, pending_row-RowIsSound, raised_row-RowIsSound, lowered_row-RowIsSound,
  unraised_row-RowIsSound, cancelled_row-RowIsSound, expired_row-RowIsSound,
  confirmed_row-RowIsSound, ranking-AreSound, mark-AreSound,
}

abbrev pub KeepsSound : {A : Type 0} → Tx A → Type 0
KeepsSound m = Keeps (Holds AreSound) m

-- A statement that writes rows by `f` where `p`.
pub keeps_update :
    (p : BidRow → Bool) (f : BidRow → BidRow)
    → ((b : BidRow) → RowIsSound b → RowIsSound (f b))
    → KeepsSound (modify (λ s. record s { bids = update p f s.bids }))
keeps_update p f h = Keeps-modify _ (λ s k. All-update RowIsSound p f s.bids (λ b e. h b) k)

pub sound-insert_bid :
    (v : Viewer) (i : InsertBidInput) → i.amount_cents % 100 ≡ 0 → KeepsSound (insert_bid v i)
unfolding insert_bid
sound-insert_bid v i h = Keeps-bind _ _ (frame-assert_signed_in AreSound v) λ _.
    Keeps-bind _ _ (Keeps-gets _) λ at. Keeps-bind _ _ (frame-fresh_id AreSound) λ id.
      Keeps-bind _ _ (Keeps-gets _) λ taken. Keeps-bind _ _ (Keeps-require _ _) λ _.
        Keeps-bind _ _
          (Keeps-modify _
            λ s k. All-append RowIsSound s.bids _ k (pending_row-RowIsSound i id at h, tt))
          λ _.
            Keeps-bind _ _ (frame-actor_for AreSound v)
              λ actor. Keeps-bind _ _ (frame-write_audit_as AreSound _ _ _ _) λ _. Keeps-pure _

pub sound-set_bid_pending :
    (v : Viewer) (id amount : ℕ) (ip : Option ℕ)
    → amount % 100 ≡ 0
    → KeepsSound (set_bid_pending v id amount ip)
unfolding set_bid_pending
sound-set_bid_pending v id amount ip h = Keeps-bind _ _ (frame-assert_signed_in AreSound v) λ _.
    Keeps-bind _ _ (Keeps-gets _) λ at.
      Keeps-bind _ _ (keeps_update _ _ (λ b. raised_row-RowIsSound amount at b h))
        λ _. search frame_rules

pub sound-set_bid_amount :
    (v : Viewer) (id amount : ℕ) (ip : Option ℕ)
    → amount % 100 ≡ 0
    → KeepsSound (set_bid_amount v id amount ip)
unfolding set_bid_amount
sound-set_bid_amount v id amount ip h = Keeps-bind _ _ (frame-assert_signed_in AreSound v) λ _.
    Keeps-bind _ _ (Keeps-gets _) λ at.
      Keeps-bind _ _ (keeps_update _ _ (λ b. lowered_row-RowIsSound amount at b h))
        λ _. search frame_rules

pub sound-clear_pending_raise :
    (v : Viewer) (id : ℕ) (ip : Option ℕ) → KeepsSound (clear_pending_raise v id ip)
unfolding clear_pending_raise
sound-clear_pending_raise v id ip = Keeps-bind _ _ (frame-assert_signed_in AreSound v) λ _.
    Keeps-bind _ _ (Keeps-gets _)
      λ at. Keeps-bind _ _ (keeps_update _ _ (unraised_row-RowIsSound at)) λ _. search frame_rules

pub sound-cancel_bid : (v : Viewer) (id : ℕ) (ip : Option ℕ) → KeepsSound (cancel_bid v id ip)
unfolding cancel_bid
sound-cancel_bid v id ip = Keeps-bind _ _ (frame-assert_signed_in AreSound v) λ _.
    Keeps-bind _ _ (Keeps-gets _)
      λ at. Keeps-bind _ _ (keeps_update _ _ (cancelled_row-RowIsSound at)) λ _. search frame_rules

pub sound-confirm_listing_bids : (v : Viewer) (l : ℕ) → KeepsSound (confirm_listing_bids v l)
unfolding confirm_listing_bids
sound-confirm_listing_bids v l = Keeps-bind _ _ (frame-assert_worker AreSound v) λ _.
    Keeps-bind _ _ (Keeps-gets _) λ at.
      Keeps-bind _ _ (Keeps-gets _)
        λ rows. Keeps-bind _ _ (keeps_update _ _ (confirmed_row-RowIsSound at)) λ _. Keeps-pure _

pub sound-cancel_listing_bids : (v : Viewer) (l : ℕ) → KeepsSound (cancel_listing_bids v l)
unfolding cancel_listing_bids
sound-cancel_listing_bids v l = Keeps-bind _ _ (frame-assert_worker AreSound v) λ _.
    Keeps-bind _ _ (Keeps-gets _) λ at. Keeps-bind _ _ (Keeps-gets _) λ rows.
      Keeps-bind _ _ (keeps_update _ _ (cancelled_row-RowIsSound at)) λ _.
        Keeps-bind _ _ (Keeps-for_each _ _ λ b. frame-write_audit_as AreSound _ _ _ _)
          λ _. Keeps-pure _

pub sound-expire_pending_bids : (v : Viewer) (l : ℕ) → KeepsSound (expire_pending_bids v l)
unfolding expire_pending_bids
sound-expire_pending_bids v l = Keeps-bind _ _ (frame-assert_worker AreSound v) λ _.
    Keeps-bind _ _ (Keeps-gets _) λ at. Keeps-bind _ _ (Keeps-gets _) λ rows.
      Keeps-bind _ _ (keeps_update _ _ (unraised_row-RowIsSound at)) λ _.
        Keeps-bind _ _ (Keeps-gets _) λ gone.
          Keeps-bind _ _ (keeps_update _ _ (expired_row-RowIsSound at)) λ _.
            Keeps-bind _ _ (Keeps-for_each _ _ λ b. frame-write_audit_as AreSound _ _ _ _)
              λ _. Keeps-pure _

pub sound-settle_spots :
    (client : Option PayPalClient) (ids also : List ℕ) (silent : Option ℕ)
    → KeepsSound (settle_spots client ids also silent)
sound-settle_spots = Keeps-settle_spots AreSound ranking-AreSound mark-AreSound

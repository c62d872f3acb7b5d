-- ===== src/Sound/Place.antt =====
-- `placeBid` and `cancelOwnBid` keep the rows sound.
use directory_platform.Common.{ℕ, ◌%◌, ◌≡◌, refl, Option, none, some, List, arith}
use directory_platform.Rank.{BidValidation, accepted, rejected, validate_lower}
use directory_platform.Rank.Minimums.{validate_bid-whole}
use directory_platform.Provider.{PayPalClient, Revise}
use directory_platform.Store.Rows.{Db, BidRow, SpotRow, FeaturedSubscription}
use directory_platform.Store.Tx.{Tx, ok}
use directory_platform.Store.Triple.{Keeps-pure, Keeps-gets, Keeps-option, Keeps-bind}
use directory_platform.Store.Frame.{Ends-ok, frame_rules}
use directory_platform.Bidding.{BidOutcome, PlaceBidInput}
use directory_platform.Bidding.Place.{
  on_validation, withdraw_raise, lower_accepted, lower_bid, write_pending, start_subscription,
  confirm_now, ask_for_quantity, resume_and_ask, revise_live, bid_on_live, bid_accepted,
  bid_or_raise, decide_bid, decide_approved, place_locked, place_eligible, place_for,
  place_configured, place_bid,
}
use directory_platform.Sound.Rows.{AreSound}
use directory_platform.Sound.Bids.{
  KeepsSound, sound-insert_bid, sound-set_bid_pending, sound-set_bid_amount,
  sound-clear_pending_raise, sound-confirm_listing_bids, sound-settle_spots,
}

ruleset sound_rules =
    (frame_rules, sound-clear_pending_raise, sound-confirm_listing_bids, sound-settle_spots)

validate_lower-whole : (a floor : ℕ) → validate_lower a floor ≡ accepted → a % 100 ≡ 0
unfolding validate_lower
validate_lower-whole a floor e = ground arith

sound-on_validation :
    (v : BidValidation) (m : Tx BidOutcome)
    → (v ≡ accepted → KeepsSound m)
    → KeepsSound (on_validation v m)
unfolding on_validation
sound-on_validation accepted m k = k refl
sound-on_validation (rejected r n) m k = Keeps-pure _

module _ (input : PlaceBidInput) (client : PayPalClient) (spot : SpotRow) where
  sound-withdraw_raise : (own : BidRow) → KeepsSound (withdraw_raise input client spot own)
  unfolding withdraw_raise
  sound-withdraw_raise own = Keeps-option _ _ _ (Keeps-pure _) λ raise.
      Keeps-bind _ _ (sound-clear_pending_raise _ _ _)
        λ _. Keeps-bind _ _ (sound-settle_spots _ _ _ _) λ _. Keeps-pure _

  sound-lower_bid : (own : BidRow) → KeepsSound (lower_bid input client spot own)
  unfolding lower_bid lower_accepted
  sound-lower_bid own = sound-on_validation _ _ λ e.
      Keeps-bind _ _ (sound-set_bid_amount _ _ _ _ (validate_lower-whole _ _ e))
        λ _. Keeps-bind _ _ (sound-settle_spots _ _ _ _) λ _. Keeps-pure _

  sound-confirm_now :
      (sub : FeaturedSubscription) (q : ℕ) → KeepsSound (confirm_now input client spot sub q)
  unfolding confirm_now
  sound-confirm_now sub q = search sound_rules depth 9

  sound-ask_for_quantity :
      (sub : FeaturedSubscription) (pid q : ℕ) (revise : Revise)
      → KeepsSound (ask_for_quantity input client spot sub pid q revise)
  unfolding ask_for_quantity
  sound-ask_for_quantity sub pid q revise = search (sound_rules, sound-confirm_now) depth 9

  sound-resume_and_ask :
      (sub : FeaturedSubscription) (pid q : ℕ) (revise : Revise)
      → KeepsSound (resume_and_ask input client spot sub pid q revise)
  unfolding resume_and_ask
  sound-resume_and_ask sub pid q revise = search (sound_rules, sound-ask_for_quantity) depth 9

  sound-revise_live :
      (sub : FeaturedSubscription) (q : ℕ) → KeepsSound (revise_live input client spot sub q)
  unfolding revise_live
  sound-revise_live sub q =
      search (sound_rules, sound-ask_for_quantity, sound-resume_and_ask) depth 9

  module _ (h : input.amount_cents % 100 ≡ 0) where
    sound-write_pending :
        (id : ℕ) (own : Option BidRow) → KeepsSound (write_pending input client spot id own)
    unfolding write_pending
    sound-write_pending id none = Keeps-bind _ _ (sound-insert_bid _ _ h) λ _. Keeps-pure _
    sound-write_pending id (some own) = sound-set_bid_pending _ _ _ _ h

    sound-bid_accepted :
        (plan_id : ℕ) (sub : Option FeaturedSubscription) (q : ℕ) (own : Option BidRow)
        → KeepsSound (bid_accepted input client spot plan_id sub q own)
    unfolding bid_accepted start_subscription bid_on_live
    sound-bid_accepted plan_id none q own = search (sound_rules, sound-write_pending) depth 9
    sound-bid_accepted plan_id (some sub) q own =
        Keeps-bind _ _ (sound-write_pending _ _) λ _. sound-revise_live sub q

  sound-bid_or_raise :
      (hyp plan_id : ℕ) (sub : Option FeaturedSubscription) (bids others : List BidRow)
      (own : Option BidRow)
      → KeepsSound (bid_or_raise input client spot hyp plan_id sub bids others own)
  unfolding bid_or_raise
  sound-bid_or_raise hyp plan_id sub bids others own = sound-on_validation _ _ λ e.
      Keeps-bind _ _ (Keeps-gets _) λ at. sound-bid_accepted (validate_bid-whole _ _ e).0 _ _ _ _

  sound-decide_bid :
      (hyp plan_id : ℕ) (sub : Option FeaturedSubscription) (bids others : List BidRow)
      (own : Option BidRow)
      → KeepsSound (decide_bid input client spot hyp plan_id sub bids others own)
  unfolding decide_bid
  sound-decide_bid hyp plan_id sub bids others none = sound-bid_or_raise _ _ _ _ _ _
  sound-decide_bid hyp plan_id sub bids others (some own) =
      search (sound_rules, sound-withdraw_raise, sound-lower_bid, sound-bid_or_raise)

  sound-decide_approved :
      (hyp plan_id : ℕ) (sub : Option FeaturedSubscription) (bids mine : List BidRow)
      → KeepsSound (decide_approved input client spot hyp plan_id sub bids mine)
  unfolding decide_approved
  sound-decide_approved hyp plan_id none bids mine = sound-decide_bid _ _ _ _ _ _
  sound-decide_approved hyp plan_id (some sub) bids mine = search (sound_rules, sound-decide_bid)

module _ (hyp : ℕ) (input : PlaceBidInput) where
  sound-place_locked :
      (client : PayPalClient) (plan_id : ℕ) → KeepsSound (place_locked hyp input client plan_id)
  unfolding place_locked
  sound-place_locked client plan_id = search (sound_rules, sound-decide_approved) depth 9

  sound-place_configured :
      (client : PayPalClient) (plan_id : ℕ) → KeepsSound (place_configured hyp input client plan_id)
  unfolding place_configured place_for place_eligible
  sound-place_configured client plan_id = search (sound_rules, sound-place_locked) depth 9

  sound-place_bid : KeepsSound (place_bid hyp input)
  unfolding place_bid
  sound-place_bid =
      Keeps-option _ _ _ (Keeps-pure _)
        λ client. Keeps-option _ _ _ (Keeps-pure _) λ plan_id. sound-place_configured client plan_id

-- If every bid, and every raise that waits, is in whole units and no position stands on a bid
-- that is not active, then the same holds after any `placeBid` that does not throw.
pub place_bid-AreSound :
    (hyp : ℕ) (input : PlaceBidInput) (s s' : Db) (out : BidOutcome)
    → AreSound s.bids
    → place_bid hyp input s ≡ ok (out, s')
    → AreSound s'.bids
place_bid-AreSound hyp input s s' out h e = Ends-ok AreSound e ((sound-place_bid hyp input).at s h)

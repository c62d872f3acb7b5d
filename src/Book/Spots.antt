-- ===== src/Book/Spots.antt =====
-- What a closed spot and an expired request do to the book (lib/db/queries/spots.ts).
use directory_platform.Common.{
  ℕ, ◌≡◌, refl, ap₂, ◌∙◌, Bool, true, false, not, ◌&&◌, Option, none, some, List, [], ◌∷◌, map,
  ◌==◌, if◌then◌else◌, is_some,
}
use directory_platform.Store.Rows.{BidRow, Db, SpotKey, Viewer}
use directory_platform.Store.Tx.{Result, ok, is_admin}
use directory_platform.Store.Triple.{
  Ends, Triple, Keeps-gets, Keeps-for_each, Keeps-modify, Triple-bind, Triple-if, Triple-pure,
}
use directory_platform.Store.Frame.{
  Holds, frame-assert_worker, frame-write_audit_as, frame-enqueue_job, frame-actor_for,
  frame-spot_paths, frame-ensure_spot,
}
use directory_platform.Store.Spots.{
  AdminSpotResult, done, not_allowed, cancelled_row, live_on_spot, close_spot,
}
use directory_platform.Store.Bids.{
  raises_of, unconfirmed_of, unraised_row, expired_row, expire_pending_bids,
}
use directory_platform.Engine.Confirmed.{HasDistinctIds}
use directory_platform.Book.{
  withdrawn, is_waiting, is_withdrawn, stage_of, Entry, entry, book, Shows,
}
use directory_platform.Book.Queries.{
  cancelled_id, cancelled_is_withdrawn, pending_waits, update-Shows,
}

-- An entry of a spot that is closed.
abbrev pub close_entry : ℕ → Entry → Entry
close_entry spot_id e =
    if e.spot_id == spot_id && not (is_withdrawn e.stage)
    then record e { raise = none; stage = withdrawn }
    else e

-- The book after an administrator's request, which may be refused.
abbrev pub closed_book : AdminSpotResult → List Entry → List Entry
closed_book (done spot_id owners paths) m = map (close_entry spot_id) m
closed_book not_allowed m = m

-- An entry whose unpaid requests have expired: it keeps what PayPal has confirmed.
abbrev unraised_entry : ℕ → Entry → Entry
unraised_entry listing_id e = if e.listing_id == listing_id then record e { raise = none } else e

abbrev unplaced_entry : ℕ → Entry → Entry
unplaced_entry listing_id e =
    if e.listing_id == listing_id && is_waiting e.stage then record e { stage = withdrawn } else e

abbrev pub expire_entry : ℕ → Entry → Entry
expire_entry listing_id e =
    if e.listing_id == listing_id
    then record e { raise = none; stage = if is_waiting e.stage then withdrawn else e.stage }
    else e

closed_row-entry :
    (spot_id at : ℕ) (b : BidRow)
    → entry (if live_on_spot spot_id b then cancelled_row at b else b)
      ≡ close_entry spot_id (entry b)
unfolding cancelled_row
closed_row-entry spot_id at b =
    rw (cancelled_is_withdrawn b.status)
      (split (b.spot_id == spot_id && not (is_withdrawn (stage_of b.status))))
  where
    split :
        (c : Bool)
        → entry (if c then cancelled_row at b else b)
          ≡ (if c then record (entry b) { raise = none; stage = withdrawn } else entry b)
    split true = refl
    split false = refl

close_spot-Shows :
    (m : List Entry) (v : Viewer) (key : SpotKey) (ip : Option ℕ)
    → Triple (Holds (Shows m)) (close_spot v key ip) (λ r. Holds (Shows (closed_book r m)))
unfolding close_spot
close_spot-Shows m v key ip =
    Triple-if (not (is_admin v)) _ _ (λ e. Triple-pure _ (λ s h. h))
      λ e. Triple-bind _ _ _ (frame-ensure_spot (Shows m) v key) λ spot.
        let after = Shows (map (close_entry spot.id) m) in
        Triple-bind _ _ _ (Keeps-gets _) λ at. Triple-bind _ _ _ (Keeps-gets _) λ rows.
          Triple-bind _ _ _
            (update-Shows m _ _ _ (λ b. cancelled_id at b) (closed_row-entry spot.id at))
            λ _. Triple-bind _ _ _ (frame-actor_for after v) λ actor.
              Triple-bind _ _ _ (Keeps-for_each _ _ λ b. frame-write_audit_as after _ _ _ _) λ _.
                Triple-bind _ _ _ (Keeps-modify _ (λ s h. h)) λ _.
                  Triple-bind _ _ _ (Keeps-for_each _ _ λ l. frame-enqueue_job after _) λ _.
                    Triple-bind _ _ _ (frame-write_audit_as after _ _ _ _) λ _.
                      Triple-bind _ _ _ (frame-spot_paths after spot.id)
                        λ paths. Triple-pure _ (λ s h. h)

unraised_row-entry :
    (l at : ℕ) (b : BidRow)
    → entry (if raises_of l b then unraised_row at b else b) ≡ unraised_entry l (entry b)
unfolding unraised_row
unraised_row-entry l at b = split (b.listing_id == l) b.pending_amount_cents refl
  where
    split :
        (c : Bool) (o : Option ℕ)
        → b.pending_amount_cents ≡ o
        → entry (if c && is_some b.pending_amount_cents then unraised_row at b else b)
          ≡ (if c then record (entry b) { raise = none } else entry b)
    split true none e = rw e refl
    split true (some a) e = rw e refl
    split false o e = refl

expired_row-entry :
    (l at : ℕ) (b : BidRow)
    → entry (if unconfirmed_of l b then expired_row at b else b) ≡ unplaced_entry l (entry b)
unfolding expired_row
expired_row-entry l at b =
    rw (pending_waits b.status) (split (b.listing_id == l && is_waiting (stage_of b.status)))
  where
    split :
        (c : Bool)
        → entry (if c then expired_row at b else b)
          ≡ (if c then record (entry b) { stage = withdrawn } else entry b)
    split true = refl
    split false = refl

-- the two statements, one after the other
unplaced-unraised : (l : ℕ) (e : Entry) → unplaced_entry l (unraised_entry l e) ≡ expire_entry l e
unplaced-unraised l e = by_test (e.listing_id == l) refl
  where
    by_stage :
        (w : Bool)
        → (if w then record e { raise = none; stage = withdrawn } else record e { raise = none })
          ≡ record e { raise = none; stage = if w then withdrawn else e.stage }
    by_stage true = refl
    by_stage false = refl

    by_test :
        (c : Bool)
        → (e.listing_id == l) ≡ c
        → unplaced_entry l (unraised_entry l e) ≡ expire_entry l e
    by_test true h = rw h (rw h (by_stage (is_waiting e.stage)))
    by_test false h = simp (h)

map-unplaced-unraised :
    (l : ℕ) (m : List Entry)
    → map (unplaced_entry l) (map (unraised_entry l) m) ≡ map (expire_entry l) m
map-unplaced-unraised l [] = refl
map-unplaced-unraised l (e ∷ es) = ap₂ ◌∷◌ (unplaced-unraised l e) (map-unplaced-unraised l es)

expire_pending_bids-Shows :
    (m : List Entry) (v : Viewer) (l : ℕ)
    → Triple
        (Holds (Shows m))
        (expire_pending_bids v l)
        (λ _. Holds (Shows (map (unplaced_entry l) (map (unraised_entry l) m))))
unfolding expire_pending_bids unraised_row expired_row
expire_pending_bids-Shows m v l =
    let dropped = map (unraised_entry l) m in
    let after = Shows (map (unplaced_entry l) dropped) in
    Triple-bind _ _ _ (frame-assert_worker (Shows m) v) λ _. Triple-bind _ _ _ (Keeps-gets _) λ at.
      Triple-bind _ _ _ (Keeps-gets _) λ rows.
        Triple-bind _ _ _ (update-Shows m _ _ _ (λ b. unraised_id at b) (unraised_row-entry l at))
          λ _. Triple-bind _ _ _ (Keeps-gets _) λ gone.
            Triple-bind _ _ _
              (update-Shows dropped _ _ _ (λ b. expired_id at b) (expired_row-entry l at))
              λ _.
                Triple-bind _ _ _ (Keeps-for_each _ _ λ b. frame-write_audit_as after _ _ _ _)
                  λ _. Triple-pure _ (λ s h. h)
  where
    unraised_id : (at : ℕ) (b : BidRow) → (unraised_row at b).id ≡ b.id
    unraised_id at b = refl

    expired_id : (at : ℕ) (b : BidRow) → (expired_row at b).id ≡ b.id
    expired_id at b = refl

-- what a run that returned has done
pub read_run :
    {A : Type 0} (f : A → List Entry) (r : Result (A × Db)) (a : A) (s' : Db)
    → r ≡ ok (a, s')
    → Ends (λ a. Holds (Shows (f a))) r
    → book s' ≡ f a
read_run f r a s' e h = read (rw e at h)
  where
    read : Shows (f a) s'.bids → book s' ≡ f a
    read k = k.1

-- With distinct ids of bids, when an administrator's closing of a spot returns `done`, every bid
-- of that spot that was not withdrawn is withdrawn with its raise, and no other bid's amount,
-- raise or stage changes; when it is refused as not allowed, no bid's does.
pub close_spot-book :
    (v : Viewer) (key : SpotKey) (ip : Option ℕ) (s s' : Db) (r : AdminSpotResult)
    → HasDistinctIds s.bids
    → close_spot v key ip s ≡ ok (r, s')
    → book s' ≡ closed_book r (book s)
close_spot-book v key ip s s' r d e =
    read_run (λ r. closed_book r (book s)) _ r s' e
      ((close_spot-Shows (book s) v key ip).at s (d, refl))

-- With distinct ids of bids, when `expirePendingBids` returns, the bids of the listing that wait
-- for PayPal are withdrawn and every raise of the listing is dropped: its confirmed bids keep
-- their amounts, and no bid of another listing changes its amount, raise or stage.
pub expire_pending_bids-book :
    (v : Viewer) (listing_id : ℕ) (s s' : Db) (spots : List ℕ)
    → HasDistinctIds s.bids
    → expire_pending_bids v listing_id s ≡ ok (spots, s')
    → book s' ≡ map (expire_entry listing_id) (book s)
expire_pending_bids-book v l s s' spots d e =
    read_run (λ _. map (unplaced_entry l) (map (unraised_entry l) (book s))) _ spots s' e
      ((expire_pending_bids-Shows (book s) v l).at s (d, refl))
    ∙ map-unplaced-unraised l (book s)

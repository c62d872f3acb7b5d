-- ===== src/Store/Frame.antt =====
-- What the queries do to the table of bids: most of them nothing. `F` is any property of the
-- rows, so each rule says that a query keeps whatever holds of them.
use directory_platform.Common.{◌≡◌, ℕ, Option, none, some, List, ◌∷◌}
use directory_platform.Store.Rows.{
  BidRow, ProviderCall, AuditAction, Job, Viewer, public, user, owner, admin, Db, SpotKey, SpotRow,
}
use directory_platform.Store.Tx.{
  Result, ok, err, Tx, pure, throw, gets, ◌>>=◌, ◌>>◌, modify, require, for_each, assert_worker,
  assert_signed_in, fresh_id, write_audit_as, enqueue_job, ask_provider,
}
use directory_platform.Store.Triple.{
  Ends, Keeps, Keeps-pure, Triple-throw, Keeps-gets, Keeps-if, Keeps-bind, Keeps-modify,
  Keeps-require, Keeps-option, keeps_rules,
}
use directory_platform.Store.Listings.{
  insert_profile, ensure_profile_of, ensure_profile, actor_for, listing_for_bidding, lock_listing,
  spot_area_exists,
}
use directory_platform.Store.Spots.{
  find_spot, spot_by_id, found_or_vanished, insert_spot, ensure_spot, spot_paths,
}
use directory_platform.Store.Bids.{
  spot_bids, listing_bids, listing_bids_for_system, chargeable_bids_for_listing, listings_in_spots,
  has_pending_bids,
}
use directory_platform.Store.Subscriptions.{
  current_featured_subscription, create_featured_subscription, attach_featured_provider, Patch,
  set_subscription, update_featured_subscription, featured_subscription_for_event,
}

module _ (F : List BidRow → Type 0) where
  abbrev pub Holds : Db → Type 0
  Holds s = F s.bids

  pub frame-assert_worker : (v : Viewer) → Keeps Holds (assert_worker v)
  unfolding assert_worker
  frame-assert_worker v = Keeps-require _ _

  pub frame-assert_signed_in : (v : Viewer) → Keeps Holds (assert_signed_in v)
  unfolding assert_signed_in
  frame-assert_signed_in v = Keeps-require _ _

  pub frame-fresh_id : Keeps Holds fresh_id
  unfolding fresh_id
  frame-fresh_id = record { at = λ s h. h }

  pub frame-write_audit_as :
      (a : Option ℕ) (action : AuditAction) (e : ℕ) (ip : Option ℕ)
      → Keeps Holds (write_audit_as a action e ip)
  unfolding write_audit_as
  frame-write_audit_as a action e ip = Keeps-modify _ (λ s h. h)

  pub frame-enqueue_job : (j : Job) → Keeps Holds (enqueue_job j)
  unfolding enqueue_job
  frame-enqueue_job j = Keeps-modify _ (λ s h. h)

  pub frame-ask_provider :
      {A : Type 0} (c : ProviderCall) (f : List ProviderCall → Option A)
      → Keeps Holds (ask_provider c f)
  unfolding ask_provider
  frame-ask_provider c f = record { at = λ s h. answered s h (f s.calls) }
    where
      answered :
          {A : Type 0} (s : Db)
          → Holds s
          → (o : Option A)
          → directory_platform.Store.Triple.Ends
              (λ _. Holds)
              (elim o [
                | none ↦ err directory_platform.Store.Tx.Failure.provider_failed (c ∷ s.calls)
                | some a ↦ ok (a, record s { calls = c ∷ s.calls })
              ])
      answered s h none = tt
      answered s h (some a) = h

  frame-ensure_profile_of : (u : ℕ) → Keeps Holds (ensure_profile_of u)
  unfolding ensure_profile_of insert_profile
  frame-ensure_profile_of u = Keeps-bind _ _ (Keeps-gets _) λ found.
      Keeps-option _ _ _
        (Keeps-bind _ _ frame-fresh_id
          λ id. Keeps-bind _ _ (Keeps-modify _ (λ s h. h)) λ _. Keeps-pure _)
        (λ p. Keeps-pure _)

  frame-ensure_profile : (v : Viewer) → Keeps Holds (ensure_profile v)
  unfolding ensure_profile
  frame-ensure_profile public = Triple-throw _
  frame-ensure_profile (user u) = frame-ensure_profile_of u
  frame-ensure_profile (owner u) = frame-ensure_profile_of u
  frame-ensure_profile (admin u) = frame-ensure_profile_of u

  pub frame-actor_for : (v : Viewer) → Keeps Holds (actor_for v)
  unfolding actor_for
  frame-actor_for public = Keeps-pure _
  frame-actor_for (admin u) = Keeps-pure _
  frame-actor_for (user u) = search (keeps_rules, frame-ensure_profile)
  frame-actor_for (owner u) = search (keeps_rules, frame-ensure_profile)

  pub frame-listing_for_bidding : (v : Viewer) (l p : ℕ) → Keeps Holds (listing_for_bidding v l p)
  unfolding listing_for_bidding
  frame-listing_for_bidding v l p = search (keeps_rules, frame-assert_signed_in)

  pub frame-lock_listing : (v : Viewer) (l : ℕ) → Keeps Holds (lock_listing v l)
  unfolding lock_listing
  frame-lock_listing v l = frame-assert_signed_in v

  pub frame-spot_area_exists : (v : Viewer) (k : SpotKey) → Keeps Holds (spot_area_exists v k)
  unfolding spot_area_exists
  frame-spot_area_exists v k = Keeps-gets _

  pub frame-find_spot : (k : SpotKey) → Keeps Holds (find_spot k)
  unfolding find_spot
  frame-find_spot k = Keeps-gets _

  pub frame-spot_by_id : (id : ℕ) → Keeps Holds (spot_by_id id)
  unfolding spot_by_id
  frame-spot_by_id id = Keeps-gets _

  pub frame-spot_paths : (id : ℕ) → Keeps Holds (spot_paths id)
  unfolding spot_paths
  frame-spot_paths id = Keeps-gets _

  frame-found_or_vanished : (o : Option SpotRow) → Keeps Holds (found_or_vanished o)
  unfolding found_or_vanished
  frame-found_or_vanished o = Keeps-option _ _ _ (Triple-throw _) λ spot. Keeps-pure _

  pub frame-ensure_spot : (v : Viewer) (k : SpotKey) → Keeps Holds (ensure_spot v k)
  unfolding ensure_spot insert_spot
  frame-ensure_spot v k = Keeps-bind _ _ (frame-assert_signed_in v) λ _.
      Keeps-bind _ _ (frame-find_spot k)
        λ found. Keeps-option _ _ _ frame-insert_spot (λ spot. Keeps-pure _)
    where
      frame-insert_spot : Keeps Holds (insert_spot k)
      frame-insert_spot = Keeps-bind _ _ frame-fresh_id λ id.
          Keeps-bind _ _ (Keeps-modify _ (λ s h. h))
            λ _. Keeps-bind _ _ (frame-find_spot k) λ o. frame-found_or_vanished o

  pub frame-spot_bids : (id : ℕ) → Keeps Holds (spot_bids id)
  unfolding spot_bids
  frame-spot_bids id = Keeps-gets _

  pub frame-listing_bids : (v : Viewer) (l p : ℕ) → Keeps Holds (listing_bids v l p)
  unfolding listing_bids
  frame-listing_bids v l p = search (keeps_rules, frame-assert_signed_in)

  pub frame-listing_bids_for_system :
      (v : Viewer) (l : ℕ) → Keeps Holds (listing_bids_for_system v l)
  unfolding listing_bids_for_system
  frame-listing_bids_for_system v l = search (keeps_rules, frame-assert_worker)

  pub frame-chargeable_bids_for_listing :
      (v : Viewer) (l : ℕ) → Keeps Holds (chargeable_bids_for_listing v l)
  unfolding chargeable_bids_for_listing
  frame-chargeable_bids_for_listing v l = search (keeps_rules, frame-assert_worker)

  pub frame-listings_in_spots : (v : Viewer) (ids : List ℕ) → Keeps Holds (listings_in_spots v ids)
  unfolding listings_in_spots
  frame-listings_in_spots v ids = search (keeps_rules, frame-assert_worker)

  pub frame-has_pending_bids : (v : Viewer) (l : ℕ) → Keeps Holds (has_pending_bids v l)
  unfolding has_pending_bids
  frame-has_pending_bids v l = search (keeps_rules, frame-assert_worker)

  pub frame-current_featured_subscription :
      (v : Viewer) (l : ℕ) (p : Option ℕ) → Keeps Holds (current_featured_subscription v l p)
  unfolding current_featured_subscription
  frame-current_featured_subscription v l p = search (keeps_rules, frame-assert_signed_in)

  pub frame-featured_subscription_for_event :
      (v : Viewer) (p c : Option ℕ) → Keeps Holds (featured_subscription_for_event v p c)
  unfolding featured_subscription_for_event
  frame-featured_subscription_for_event v p c = search (keeps_rules, frame-assert_worker)

  pub frame-create_featured_subscription :
      (v : Viewer) (l p plan q : ℕ) (ip : Option ℕ)
      → Keeps Holds (create_featured_subscription v l p plan q ip)
  unfolding create_featured_subscription
  frame-create_featured_subscription v l p plan q ip =
      Keeps-bind _ _ (frame-assert_signed_in v) λ _. Keeps-bind _ _ (Keeps-gets _) λ at.
        Keeps-bind _ _ frame-fresh_id λ id. Keeps-bind _ _ (Keeps-gets _) λ taken.
          Keeps-bind _ _ (Keeps-require _ _) λ _.
            Keeps-bind _ _ (Keeps-modify _ (λ s h. h))
              λ _. Keeps-bind _ _ (frame-write_audit_as _ _ _ _) λ _. Keeps-pure _

  pub frame-attach_featured_provider :
      (v : Viewer) (id p : ℕ) (url : Option ℕ) → Keeps Holds (attach_featured_provider v id p url)
  unfolding attach_featured_provider set_subscription
  frame-attach_featured_provider v id p url =
      Keeps-bind _ _ (frame-assert_signed_in v)
        λ _. Keeps-bind _ _ (Keeps-gets _) λ at. Keeps-modify _ (λ s h. h)

  pub frame-update_featured_subscription :
      (v : Viewer) (id : ℕ) (p : Patch) (action : AuditAction) (actor ip : Option ℕ)
      → Keeps Holds (update_featured_subscription v id p action actor ip)
  unfolding update_featured_subscription set_subscription
  frame-update_featured_subscription v id p action actor ip =
      Keeps-bind _ _ (frame-assert_signed_in v) λ _.
        Keeps-bind _ _ (Keeps-gets _)
          λ at. Keeps-bind _ _ (Keeps-modify _ (λ s h. h)) λ _. frame-write_audit_as _ _ _ _

-- Read off a run that ended.
pub Ends-ok :
    {A : Type 0} (F : List BidRow → Type 0) {m : Result (A × Db)} {a : A} {s : Db}
    → m ≡ ok (a, s)
    → Ends (λ _. Holds F) m
    → F s.bids
Ends-ok F e h = rw e at h

pub ruleset frame_rules = (
  keeps_rules, frame-assert_worker, frame-assert_signed_in, frame-fresh_id, frame-write_audit_as,
  frame-enqueue_job, frame-ask_provider, frame-actor_for, frame-listing_for_bidding,
  frame-lock_listing, frame-spot_area_exists, frame-find_spot, frame-spot_by_id, frame-spot_paths,
  frame-ensure_spot, frame-spot_bids, frame-listing_bids, frame-listing_bids_for_system,
  frame-chargeable_bids_for_listing, frame-listings_in_spots, frame-has_pending_bids,
  frame-current_featured_subscription, frame-featured_subscription_for_event,
  frame-create_featured_subscription, frame-attach_featured_provider,
  frame-update_featured_subscription,
)

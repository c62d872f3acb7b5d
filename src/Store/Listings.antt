-- ===== src/Store/Listings.antt =====
-- Profiles, listings, cities and who may bid for what (lib/auth/profile.ts and the listing part
-- of lib/db/queries/spots.ts).
use directory_platform.Common.{
  ℕ, Bool, not, ◌&&◌, Option, none, some, List, [], ◌∷◌, ◌++◌, ◌==◌, if◌then◌else◌, option_eq,
  filter, find?, any,
}
use directory_platform.Store.Rows.{
  city, region, SpotKey, ListingRow, Db, Viewer, public, user, owner, admin,
}
use directory_platform.Store.Tx.{
  forbidden, Tx, on_option, pure, throw, gets, ◌>>=◌, ◌>>◌, modify, assert_signed_in, fresh_id,
}

unfoldable pub insert_profile : ℕ → Tx ℕ
insert_profile u = do
  id ← fresh_id
  modify (λ s. record s { profiles = s.profiles ++ record { id = id; user_id = u } ∷ [] })
  pure id

-- `ensureProfile`: the profile of a signed-in user, made on first sight. Inside one transaction
-- nobody else inserts the row between the look-up and the insert.
unfoldable pub ensure_profile_of : ℕ → Tx ℕ
ensure_profile_of u = do
  found ← gets (λ s. find? (λ p. p.user_id == u) s.profiles)
  on_option found (insert_profile u) λ p. pure p.id

unfoldable pub ensure_profile : Viewer → Tx ℕ
ensure_profile public = throw forbidden
ensure_profile (user u) = ensure_profile_of u
ensure_profile (owner u) = ensure_profile_of u
ensure_profile (admin u) = ensure_profile_of u

-- `actorFor`: the owner's profile for the audit row; the system viewer records nobody.
unfoldable pub actor_for : Viewer → Tx (Option ℕ)
actor_for public = pure none
actor_for (admin u) = pure none
actor_for (user u) = do id ← ensure_profile (user u); pure (some id)
actor_for (owner u) = do id ← ensure_profile (owner u); pure (some id)

-- `listings.owner_id = profile` for the listing of that id
abbrev pub owns : Db → ℕ → ℕ → Bool
owns s listing_id profile_id =
    any (λ l. l.id == listing_id && option_eq l.owner_id (some profile_id)) s.listings

pub data IneligibleReason : Type 0 where
  not_published not_verified no_subscription : IneligibleReason

pub record BiddingListing : Type 0 where
  pub id : ℕ
  -- primary first, then every extra category
  pub category_ids : List ℕ
  pub reason : Option IneligibleReason

unfoldable pub has_live_plan : Db → ℕ → Bool
has_live_plan s listing_id =
    any (λ p. p.listing_id == listing_id && p.is_live && p.is_paid_tier) s.plans

unfoldable pub ineligible_reason : Db → ListingRow → Option IneligibleReason
ineligible_reason s l =
    if not l.is_published
    then some not_published
    else if not l.is_verified
    then some not_verified
    else if not (has_live_plan s l.id)
    then some no_subscription
    else none

unfoldable pub bidding_listing : Db → ListingRow → BiddingListing
bidding_listing s l = record {
  id = l.id;
  category_ids =
      l.primary_category_id ∷ filter (λ c. not (c == l.primary_category_id)) l.extra_category_ids;
  reason = ineligible_reason s l;
}

abbrev find_own : Db → ℕ → ℕ → Option ListingRow
find_own s listing_id profile_id =
    find? (λ l. l.id == listing_id && option_eq l.owner_id (some profile_id)) s.listings

unfoldable pub listing_for_bidding : Viewer → ℕ → ℕ → Tx (Option BiddingListing)
listing_for_bidding viewer listing_id profile_id = do
  assert_signed_in viewer
  gets λ s. elim (find_own s listing_id profile_id) [
    | none ↦ none
    | some l ↦ some (bidding_listing s l)
  ]

-- The row lock orders transactions; inside one it changes nothing.
unfoldable pub lock_listing : Viewer → ℕ → Tx Unit
lock_listing viewer listing_id = assert_signed_in viewer

unfoldable pub area_exists : Db → SpotKey → Bool
area_exists s key = elim key.area_kind [
  | city ↦ any (λ c. c.id == key.area_id && c.is_published) s.cities
  | region ↦ any (λ c. c.is_published && option_eq c.region_slug (some key.area_id)) s.cities
]

unfoldable pub spot_area_exists : Viewer → SpotKey → Tx Bool
spot_area_exists viewer key = gets (λ s. area_exists s key)

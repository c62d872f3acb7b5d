-- ===== src/Store/Spots.antt =====
-- The spots: found, made on the first bid, closed, opened and priced (lib/db/queries/spots.ts).
use directory_platform.Common.{
  ℕ, Bool, true, false, not, ◌&&◌, ◌||◌, Option, none, some, List, [], ◌∷◌, ◌++◌, map, ◌==◌,
  if◌then◌else◌, option_eq, find?, filter, update, length, distinct,
}
use directory_platform.Rank.{cancelled, is_cancelled}
use directory_platform.Store.Rows.{
  AreaKind, city, region, SpotKey, is_open, is_closed, SpotRow, BidRow, Db, Viewer, spot_closed,
  spot_opened, floor_set, bid_cancelled, notify_spot_closed,
}
use directory_platform.Store.Tx.{
  vanished, Tx, on_option, pure, throw, gets, ◌>>=◌, ◌>>◌, modify, for_each, assert_signed_in,
  is_admin, fresh_id, write_audit_as, enqueue_job,
}
use directory_platform.Store.Listings.{actor_for}

unfoldable pub same_area : AreaKind → AreaKind → Bool
same_area city city = true
same_area region region = true
same_area city region = false
same_area region city = false

-- `keyWhere`
unfoldable pub matches_key : SpotKey → SpotRow → Bool
matches_key key s =
    same_area s.area_kind key.area_kind
    && s.area_id == key.area_id
    && option_eq s.category_id key.category_id

unfoldable pub find_spot : SpotKey → Tx (Option SpotRow)
find_spot key = gets (λ s. find? (matches_key key) s.spots)

unfoldable pub spot_by_id : ℕ → Tx (Option SpotRow)
spot_by_id id = gets (λ s. find? (λ r. r.id == id) s.spots)

unfoldable pub floor_cents_for : Db → AreaKind → ℕ
floor_cents_for s city = s.config.city_floor_cents
floor_cents_for s region = s.config.region_floor_cents

-- The row that `ensureSpot` inserts; `status` is the column's default.
unfoldable pub new_spot : Db → SpotKey → ℕ → SpotRow
new_spot s key id = record {
  id = id;
  area_kind = key.area_kind;
  area_id = key.area_id;
  category_id = key.category_id;
  positions = s.config.positions;
  floor_cents = floor_cents_for s key.area_kind;
  status = is_open;
}

-- `created === null`
unfoldable pub found_or_vanished : Option SpotRow → Tx SpotRow
found_or_vanished created = on_option created (throw vanished) pure

unfoldable pub insert_spot : SpotKey → Tx SpotRow
insert_spot key = do
  id ← fresh_id
  modify (λ s. record s { spots = s.spots ++ new_spot s key id ∷ [] })
  created ← find_spot key
  found_or_vanished created

unfoldable pub ensure_spot : Viewer → SpotKey → Tx SpotRow
ensure_spot viewer key = do
  assert_signed_in viewer
  existing ← find_spot key
  on_option existing (insert_spot key) pure

pub data PagePath : Type 0 where
  area_page : ℕ → PagePath
  city_page : ℕ → PagePath
  category_page : ℕ → ℕ → PagePath

unfoldable pub paths_of_spot : Db → SpotRow → List PagePath
paths_of_spot s spot = elim spot.area_kind [
  | region ↦ area_page spot.area_id ∷ []
  | city ↦ elim (find? (λ c. c.id == spot.area_id) s.cities) [
    | none ↦ []
    | some c ↦ elim spot.category_id [
      | none ↦ city_page c.slug ∷ []
      | some k ↦
          elim (find? (λ r. r.parent_scope == spot.area_id && r.entity_id == k) s.category_slugs) [
            | none ↦ []
            | some r ↦ category_page c.slug r.slug ∷ []
          ]
    ]
  ]
]

unfoldable pub spot_paths : ℕ → Tx (List PagePath)
spot_paths id =
    gets
      λ s. elim (find? (λ r. r.id == id) s.spots) [ none ↦ [] | some spot ↦ paths_of_spot s spot ]

pub data AdminSpotResult : Type 0 where
  done : ℕ → List ℕ → List PagePath → AdminSpotResult
  not_allowed : AdminSpotResult

-- `set({ status: "cancelled", position: null, … })`
unfoldable pub cancelled_row : ℕ → BidRow → BidRow
cancelled_row at b = record b {
  status = cancelled;
  position = none;
  pending_amount_cents = none;
  cancelled_at = some at;
  updated_at = at;
}

abbrev pub live_on_spot : ℕ → BidRow → Bool
live_on_spot spot_id b = b.spot_id == spot_id && not (is_cancelled b.status)

abbrev set_spot : ℕ → (SpotRow → SpotRow) → Db → Db
set_spot id f s = record s { spots = update (λ r. r.id == id) f s.spots }

unfoldable pub close_spot : Viewer → SpotKey → Option ℕ → Tx AdminSpotResult
close_spot viewer key ip = if not (is_admin viewer) then pure not_allowed else do
  spot ← ensure_spot viewer key
  at ← gets (λ s. s.now)
  rows ← gets (λ s. filter (live_on_spot spot.id) s.bids)
  modify (λ s. record s { bids = update (live_on_spot spot.id) (cancelled_row at) s.bids })
  actor ← actor_for viewer
  for_each rows (λ b. write_audit_as actor bid_cancelled b.id ip)
  modify (set_spot spot.id (λ r. record r { status = is_closed }))
  let owners = distinct (map (λ (b : BidRow). b.listing_id) rows)
  for_each owners (λ l. enqueue_job (notify_spot_closed l spot.id))
  write_audit_as actor (spot_closed (length rows)) spot.id ip
  paths ← spot_paths spot.id
  pure (done spot.id owners paths)

unfoldable pub open_spot : Viewer → SpotKey → Option ℕ → Tx AdminSpotResult
open_spot viewer key ip = if not (is_admin viewer) then pure not_allowed else do
  spot ← ensure_spot viewer key
  modify (set_spot spot.id (λ r. record r { status = is_open }))
  actor ← actor_for viewer
  write_audit_as actor spot_opened spot.id ip
  paths ← spot_paths spot.id
  pure (done spot.id [] paths)

unfoldable pub set_spot_floor : Viewer → SpotKey → ℕ → Option ℕ → Tx AdminSpotResult
set_spot_floor viewer key floor_cents ip =
    if not (is_admin viewer) || floor_cents == 0 then pure not_allowed else do
      spot ← ensure_spot viewer key
      modify (set_spot spot.id (λ r. record r { floor_cents = floor_cents }))
      actor ← actor_for viewer
      write_audit_as actor (floor_set spot.floor_cents floor_cents) spot.id ip
      pure (done spot.id [] [])

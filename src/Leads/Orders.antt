-- ===== src/Leads/Orders.antt =====
-- The standing orders of a listing: validation, creation, changes and deletion
-- (lib/db/queries/lead-market.ts). An advisory lock makes the creations on one listing follow one
-- another, so a creation is one step here.
use directory_platform.Common.{
  ℕ, Bool, true, false, not, ◌&&◌, ◌||◌, Option, none, some, List, [], ◌∷◌, ◌==◌, ltb, leb,
  if◌then◌else◌, option_eq, find?, filter, any, distinct, length, update,
}
use directory_platform.Store.Rows.{CityRow, Viewer}
use directory_platform.Leads.{Territory, city, region, national, max_standing_orders_per_listing}
use directory_platform.Leads.Rows.{
  OrderStatus, is_active, is_paused, by_user, PauseReason, StandingOrder, LeadPurchase, CategoryRow,
  MarketDb, LeadAction, order_created, order_updated, order_paused, order_resumed, order_deleted,
}
use directory_platform.Leads.Tx.{
  Market, pure, gets, ◌>>=◌, ◌>>◌, modify, on_option, assert_signed_in, fresh_id, own_profile,
  write_audit,
}
use directory_platform.Leads.Sale.{is_own_published}
use directory_platform.Leads.Allocate.{set_order}

abbrev pub max_order_cents : ℕ
max_order_cents = 1000000

pub record StandingOrderInput : Type 0 where
  pub listing_id : ℕ
  pub territories : List Territory
  pub category_ids : Option (List ℕ)
  pub price_cents : ℕ

-- `Partial<Record<StandingOrderField, string>>`: which fields have an error
pub record OrderErrors : Type 0 where
  pub listing : Bool
  pub territories : Bool
  pub categories : Bool
  pub price : Bool

pub data StandingOrderResult : Type 0 where
  saved : ℕ → StandingOrderResult
  invalid : OrderErrors → StandingOrderResult
  limit not_found : StandingOrderResult

-- the keys of the set `seen`
abbrev pub same_territory : Territory → Territory → Bool
same_territory (city a) (city b) = a == b
same_territory (region a) (region b) = a == b
same_territory national national = true
same_territory _ _ = false

unfoldable pub distinct_territories : List Territory → List Territory → List Territory
distinct_territories seen [] = []
distinct_territories seen (t ∷ ts) =
    if any (same_territory t) seen
    then distinct_territories seen ts
    else t ∷ distinct_territories (t ∷ seen) ts

-- the towns and regions that `standingOrderOptions` offers
abbrev pub is_offered : MarketDb → Territory → Bool
is_offered s (city id) = any (λ (c : CityRow). c.is_published && c.id == id) s.cities
is_offered s (region slug) =
    any (λ (c : CityRow). c.is_published && option_eq c.region_slug (some slug)) s.cities
is_offered s national = true

abbrev pub is_offered_category : MarketDb → ℕ → Bool
is_offered_category s id = any (λ (c : CategoryRow). c.is_active && c.id == id) s.categories

-- null for every category: an empty list counts as null
abbrev pub wanted_categories : Option (List ℕ) → Option (List ℕ)
wanted_categories none = none
wanted_categories (some ids) = elim (distinct ids) [ [] ↦ none | x ∷ xs ↦ some (x ∷ xs) ]

abbrev pub is_empty : {A : Type 0} → List A → Bool
is_empty [] = true
is_empty (x ∷ xs) = false

abbrev pub bad_price : MarketDb → ℕ → Bool
bad_price s price_cents = ltb price_cents s.config.floor_cents || ltb max_order_cents price_cents

abbrev pub bad_territories : MarketDb → List Territory → Bool
bad_territories s ts = is_empty ts || any (λ t. not (is_offered s t)) ts

abbrev pub bad_categories : MarketDb → Option (List ℕ) → Bool
bad_categories s none = false
bad_categories s (some ids) = any (λ id. not (is_offered_category s id)) ids

pub record Validated : Type 0 where
  pub errors : OrderErrors
  pub territories : List Territory
  pub category_ids : Option (List ℕ)

-- `validateOrder`
unfoldable pub validate_order : StandingOrderInput → MarketDb → Validated
validate_order input s =
    let territories = distinct_territories [] input.territories in
    let category_ids = wanted_categories input.category_ids in
    record {
      errors = record {
        listing = false;
        territories = bad_territories s territories;
        categories = bad_categories s category_ids;
        price = bad_price s input.price_cents;
      };
      territories = territories;
      category_ids = category_ids;
    }

-- `Object.keys(errors).length > 0`
abbrev pub has_errors : OrderErrors → Bool
has_errors e = e.listing || (e.territories || (e.categories || e.price))

-- how many standing orders the listing has
abbrev pub count_orders : ℕ → List StandingOrder → ℕ
count_orders listing_id orders = length (filter (λ o. o.listing_id == listing_id) orders)

abbrev pub new_order : ℕ → StandingOrderInput → Validated → ℕ → ℕ → StandingOrder
new_order profile_id input v id at = record {
  id = id;
  user_id = profile_id;
  listing_id = input.listing_id;
  territories = v.territories;
  category_ids = v.category_ids;
  price_cents = input.price_cents;
  status = is_active;
  paused_reason = none;
  won_count = 0;
  created_at = at;
  updated_at = at;
}

unfoldable pub insert_standing_order :
    Viewer → ℕ → StandingOrderInput → Validated → ℕ → Market StandingOrderResult
insert_standing_order viewer profile_id input v at = do
  id ← fresh_id
  modify (λ s. record s { orders = new_order profile_id input v id at ∷ s.orders })
  write_audit viewer (order_created input.listing_id input.price_cents) id
  pure (saved id)

abbrev no_listing : OrderErrors
no_listing = record { listing = true; territories = false; categories = false; price = false }

-- after the look-up of the listing
unfoldable pub create_on_listing :
    Viewer → ℕ → StandingOrderInput → ℕ → Bool → Market StandingOrderResult
create_on_listing viewer profile_id input at false = pure (invalid no_listing)
create_on_listing viewer profile_id input at true = do
  v ← gets (validate_order input)
  n ← gets (λ s. count_orders input.listing_id s.orders)
  if has_errors v.errors
      then pure (invalid v.errors)
      else if leb max_standing_orders_per_listing n
      then pure limit
      else insert_standing_order viewer profile_id input v at

-- `createStandingOrder`
unfoldable pub create_standing_order : Viewer → StandingOrderInput → ℕ → Market StandingOrderResult
create_standing_order viewer input at = do
  assert_signed_in viewer
  profile_id ← own_profile viewer
  own ← gets (λ s. any (is_own_published profile_id input.listing_id) s.listings)
  create_on_listing viewer profile_id input at own

-- `ownOrder`
unfoldable pub own_order : ℕ → ℕ → Market (Option StandingOrder)
own_order profile_id id = gets (λ s. find? (λ o. o.id == id && o.user_id == profile_id) s.orders)

abbrev pub edited_order : StandingOrderInput → Validated → ℕ → StandingOrder → StandingOrder
edited_order input v at o = record o {
  territories = v.territories;
  category_ids = v.category_ids;
  price_cents = input.price_cents;
  updated_at = at;
}

unfoldable pub edit_order :
    Viewer → StandingOrder → StandingOrderInput → ℕ → Market StandingOrderResult
edit_order viewer order input at = do
  v ← gets (validate_order input)
  if has_errors v.errors then pure (invalid v.errors) else do
    modify (set_order order.id (edited_order input v at))
    write_audit viewer (order_updated input.price_cents) order.id
    pure (saved order.id)

-- `updateStandingOrder`; the input's listing is the order's own
unfoldable pub update_standing_order :
    Viewer → ℕ → StandingOrderInput → ℕ → Market StandingOrderResult
update_standing_order viewer id input at = do
  assert_signed_in viewer
  profile_id ← own_profile viewer
  found ← own_order profile_id id
  on_option found (pure not_found)
      λ order. edit_order viewer order (record input { listing_id = order.listing_id }) at

abbrev pub pause_reason_of : OrderStatus → Option PauseReason
pause_reason_of is_active = none
pause_reason_of is_paused = some by_user

abbrev action_of_status : OrderStatus → LeadAction
action_of_status is_active = order_resumed
action_of_status is_paused = order_paused by_user

abbrev pub switched_order : OrderStatus → ℕ → StandingOrder → StandingOrder
switched_order status at o = record o {
  status = status;
  paused_reason = pause_reason_of status;
  updated_at = at;
}

-- `setStandingOrderStatus`
unfoldable pub set_standing_order_status : Viewer → ℕ → OrderStatus → ℕ → Market StandingOrderResult
set_standing_order_status viewer id status at = do
  assert_signed_in viewer
  profile_id ← own_profile viewer
  found ← own_order profile_id id
  on_option found (pure not_found) λ order. do
    modify (set_order order.id (switched_order status at))
    write_audit viewer (action_of_status status) order.id
    pure (saved order.id)

-- `on delete set null`: the order's purchases forget it
abbrev pub without_order : LeadPurchase → LeadPurchase
without_order p = record p { standing_order_id = none }

abbrev pub drop_order : ℕ → MarketDb → MarketDb
drop_order id s = record s {
  orders = filter (λ o. not (o.id == id)) s.orders;
  purchases =
      update (λ (p : LeadPurchase). option_eq p.standing_order_id (some id)) without_order
        s.purchases;
}

-- `deleteStandingOrder`
unfoldable pub delete_standing_order : Viewer → ℕ → Market StandingOrderResult
delete_standing_order viewer id = do
  assert_signed_in viewer
  profile_id ← own_profile viewer
  found ← own_order profile_id id
  on_option found (pure not_found) λ order. do
    modify (drop_order order.id)
    write_audit viewer (order_deleted order.listing_id) order.id
    pure (saved order.id)

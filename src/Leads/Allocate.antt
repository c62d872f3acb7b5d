-- ===== src/Leads/Allocate.antt =====
-- `allocateLead` (lib/leads/allocate.ts): a new lead goes to the best-paying standing order that
-- covers it and can pay, and every candidate that cannot is paused.
use directory_platform.Common.{
  ℕ, ◌+◌, Bool, true, false, ◌&&◌, ◌||◌, Option, none, some, List, [], ◌∷◌, ◌++◌, ◌==◌, ltb,
  if◌then◌else◌, option_eq, find?, filter, any, includes, update, pos, ltb_ℤ,
}
use directory_platform.Store.Rows.{ListingRow, CityRow, Viewer, admin}
use directory_platform.Credits.{credit_balance}
use directory_platform.Credits.Operations.{Posted}
use directory_platform.Leads.{Territory, city, region, national}
use directory_platform.Leads.Rows.{
  LeadRow, OrderStatus, is_active, is_paused, no_credit, StandingOrder, MarketDb, order_paused,
  notify_lead_won, notify_lead_topup,
}
use directory_platform.Leads.Tx.{
  Market, ⊤, pure, gets, ◌>>=◌, ◌>>◌, modify, on_option, Debit, paid, short, try_debit, write_audit,
  enqueue_job,
}
use directory_platform.Leads.Sale.{lock_open_lead, SaleInput, record_sale}

-- the system's viewer
abbrev pub allocation_viewer : Viewer
allocation_viewer = admin 0

abbrev pub active_order : OrderStatus → Bool
active_order is_active = true
active_order is_paused = false

-- `territories @> '[…]'` for one of the three shapes
abbrev pub has_city : ℕ → Territory → Bool
has_city id (city c) = c == id
has_city id _ = false

abbrev pub has_region : Option ℕ → Territory → Bool
has_region none t = false
has_region (some slug) (region r) = r == slug
has_region (some slug) _ = false

abbrev pub is_national : Territory → Bool
is_national national = true
is_national _ = false

-- the condition `covers` of the query; a city without a region has no region clause
unfoldable pub covers_place : ℕ → Option ℕ → List Territory → Bool
covers_place city_id slug territories =
    any (has_city city_id) territories
    || (any is_national territories || any (has_region slug) territories)

-- the condition `category` of the query
unfoldable pub covers_category : Option ℕ → Option (List ℕ) → Bool
covers_category none none = true
covers_category none (some ids) = false
covers_category (some c) none = true
covers_category (some c) (some ids) = includes ids c

-- the join with the order's published listing, still owned by the order's account
abbrev pub serves : List ListingRow → StandingOrder → Bool
serves listings o =
    any (λ l. l.id == o.listing_id && (option_eq l.owner_id (some o.user_id) && l.is_published))
      listings

unfoldable pub is_candidate : MarketDb → LeadRow → Option ℕ → StandingOrder → Bool
unfolding covers_place covers_category
is_candidate s lead slug o =
    serves s.listings o
    && (active_order o.status
        && (covers_place lead.city_id slug o.territories
            && covers_category lead.category_id o.category_ids))

-- `order by price_cents desc, created_at asc, id asc`
unfoldable pub ranks_before : StandingOrder → StandingOrder → Bool
ranks_before a b =
    if a.price_cents == b.price_cents
    then if a.created_at == b.created_at then ltb a.id b.id else ltb a.created_at b.created_at
    else ltb b.price_cents a.price_cents

unfoldable pub insert_order : StandingOrder → List StandingOrder → List StandingOrder
insert_order o [] = o ∷ []
insert_order o (p ∷ ps) = if ranks_before p o then p ∷ insert_order o ps else o ∷ p ∷ ps

unfoldable pub rank_orders : List StandingOrder → List StandingOrder
rank_orders [] = []
rank_orders (o ∷ os) = insert_order o (rank_orders os)

-- `region ? … : …`: a slug that is the empty text, number 0, is none
abbrev pub if_some_text : Option ℕ → Option ℕ
if_some_text none = none
if_some_text (some slug) = if slug == 0 then none else some slug

abbrev pub slug_of_city : ℕ → MarketDb → Option ℕ
slug_of_city city_id s = elim (find? (λ (c : CityRow). c.id == city_id) s.cities) [
  | none ↦ none
  | some c ↦ if_some_text c.region_slug
]

unfoldable pub candidates : LeadRow → MarketDb → List StandingOrder
candidates lead s =
    rank_orders (filter (is_candidate s lead (slug_of_city lead.city_id s)) s.orders)

pub data AllocationResult : Type 0 where
  -- the purchase, the standing order and the account
  sold_to : ℕ → ℕ → ℕ → AllocationResult
  -- the paused orders
  left_open : List ℕ → AllocationResult
  not_open : AllocationResult

abbrev pub set_order : ℕ → (StandingOrder → StandingOrder) → MarketDb → MarketDb
set_order id f s = record s { orders = update (λ o. o.id == id) f s.orders }

abbrev pub paused_order : ℕ → StandingOrder → StandingOrder
paused_order at o = record o { status = is_paused; paused_reason = some no_credit; updated_at = at }

unfoldable pub pause_for_credit : Viewer → ℕ → ℕ → Market ⊤
pause_for_credit viewer id at = do
  modify (set_order id (paused_order at))
  write_audit viewer (order_paused no_credit) id
  enqueue_job (notify_lead_topup id)

abbrev pub order_sale : LeadRow → StandingOrder → Posted → SaleInput
order_sale lead c posted = record {
  lead_id = lead.id;
  profile_id = c.user_id;
  listing_id = c.listing_id;
  standing_order_id = some c.id;
  price_cents = c.price_cents;
  ledger_id = posted.entry_id;
}

abbrev pub won_order : ℕ → StandingOrder → StandingOrder
won_order at o = record o { won_count = o.won_count + 1; updated_at = at }

-- the `try` block after the debit
unfoldable pub sell_to : Viewer → LeadRow → StandingOrder → ℕ → Posted → Market AllocationResult
sell_to viewer lead c at posted = do
  purchase_id ← record_sale viewer (order_sale lead c posted) at
  modify (set_order c.id (won_order at))
  enqueue_job (notify_lead_won purchase_id)
  pure (sold_to purchase_id c.id c.user_id)

-- Below the winner: an order that cannot pay its own price is paused.
unfoldable pub pause_short : Viewer → ℕ → List StandingOrder → Market ⊤
pause_short viewer at [] = pure tt
pause_short viewer at (c ∷ cs) = do
  balance ← gets (λ s. credit_balance s.credit c.user_id)
  if ltb_ℤ balance (pos c.price_cents) then pause_for_credit viewer c.id at else pure tt
  pause_short viewer at cs

-- what follows the debit of a candidate: the sale and the orders below it, or the next offer
unfoldable pub offered :
    Viewer
    → LeadRow
    → ℕ
    → StandingOrder
    → Market ⊤
    → Market AllocationResult
    → Debit
    → Market AllocationResult
offered viewer lead at c below rest (paid posted) = do
  won ← sell_to viewer lead c at posted
  below
  pure won
offered viewer lead at c below rest (short balance needed) = pause_for_credit viewer c.id at >> rest

-- The loop over the candidates; `paused` are the orders paused so far.
unfoldable pub offer : Viewer → LeadRow → ℕ → List ℕ → List StandingOrder → Market AllocationResult
unfolding pure ◌>>=◌
offer viewer lead at paused [] = pure (left_open paused)
offer viewer lead at paused (c ∷ cs) =
    try_debit allocation_viewer c.user_id c.price_cents lead.id
    >>= offered viewer lead at c (pause_short viewer at cs)
        (offer viewer lead at (paused ++ c.id ∷ []) cs)

unfoldable pub allocate_lead : Viewer → ℕ → ℕ → Market AllocationResult
allocate_lead viewer lead_id at = do
  found ← lock_open_lead lead_id at
  on_option found (pure not_open)
      λ lead. do ranked ← gets (candidates lead); offer viewer lead at [] ranked

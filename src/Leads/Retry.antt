-- ===== src/Leads/Retry.antt =====
-- Open leads that a fresh standing order covers (`openLeadPlaces`, lib/db/queries/lead-market.ts),
-- and the run that offers them again (`retryAllocation`, lib/leads/allocate.ts).
use directory_platform.Common.{
  ℕ, ◌+◌, Bool, ◌&&◌, Option, none, some, List, [], ◌∷◌, ◌++◌, ◌==◌, leb, find?, filter, map, any,
  length, sort_by, take,
}
use directory_platform.Store.Rows.{CityRow, Viewer}
use directory_platform.Leads.{LeadPlace, order_covers}
use directory_platform.Leads.Rows.{LeadRow, StandingOrder, MarketDb}
use directory_platform.Leads.Tx.{MarketResult, ok, err, Market, pure, gets, ◌>>=◌}
use directory_platform.Leads.Sale.{open_at}
use directory_platform.Leads.Allocate.{
  active_order, AllocationResult, sold_to, left_open, not_open, allocate_lead,
}

-- The default limit of `openLeadPlaces`.
abbrev pub places_limit : ℕ
places_limit = 5000

pub record OpenPlace : Type 0 where
  pub id : ℕ
  pub place : LeadPlace

-- the row of an open lead, if its city is there
abbrev in_city : LeadRow → Option CityRow → List OpenPlace
in_city l none = []
in_city l (some c) =
    record {
      id = l.id;
      place = record {
        city_id = l.city_id;
        region_slug = c.region_slug;
        category_id = l.category_id;
      };
    }
    ∷ []

abbrev pub joined : List CityRow → List LeadRow → List OpenPlace
joined cities [] = []
joined cities (l ∷ ls) =
    in_city l (find? (λ (c : CityRow). c.id == l.city_id) cities) ++ joined cities ls

unfoldable pub open_lead_places : ℕ → MarketDb → List OpenPlace
open_lead_places at s =
    take places_limit
      (joined s.cities (sort_by (λ (l : LeadRow). l.created_at) (filter (open_at at) s.leads)))

-- the orders made, edited or switched on since
abbrev pub is_fresh : ℕ → StandingOrder → Bool
is_fresh since o = active_order o.status && leb since o.updated_at

abbrev pub covered_by : List StandingOrder → OpenPlace → Bool
covered_by orders p =
    any (λ (o : StandingOrder). order_covers o.territories o.category_ids p.place) orders

pub record RetryResult : Type 0 where
  pub checked : ℕ
  pub sold : ℕ

abbrev is_sale : AllocationResult → ℕ
is_sale (sold_to purchase_id order_id user_id) = 1
is_sale (left_open paused) = 0
is_sale not_open = 0

-- each attempt is a transaction of its own: one that throws is logged and leaves nothing
abbrev pub attempted : MarketDb → MarketResult AllocationResult → MarketResult ℕ
attempted s (ok r s') = ok (is_sale r) s'
attempted s (err e) = ok 0 s

unfoldable pub retry_each : Viewer → ℕ → List ℕ → Market ℕ
retry_each viewer at [] = pure 0
retry_each viewer at (id ∷ ids) = do
  sold ← (λ s. attempted s (allocate_lead viewer id at s))
  rest ← retry_each viewer at ids
  pure (sold + rest)

unfoldable pub retry_covered : Viewer → ℕ → List StandingOrder → Market RetryResult
retry_covered viewer at [] = pure (record { checked = 0; sold = 0 })
retry_covered viewer at (o ∷ os) = do
  ids ←
      gets
        (λ s. map (λ (p : OpenPlace). p.id) (filter (covered_by (o ∷ os)) (open_lead_places at s)))
  sold ← retry_each viewer at ids
  pure (record { checked = length ids; sold = sold })

-- `retryAllocation`
unfoldable pub retry_allocation : Viewer → ℕ → ℕ → Market RetryResult
retry_allocation viewer since at = do
  fresh ← gets (λ s. filter (is_fresh since) s.orders)
  retry_covered viewer at fresh

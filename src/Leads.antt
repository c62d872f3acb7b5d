-- ===== src/Leads.antt =====
-- The rules of the lead market that need no database (lib/leads/market.ts): what a lead costs,
-- what a standing order covers and which reports are refunded. A slug or a uuid is a number
-- here, and a territory is its parts, not its text.
pub mod Rows
pub mod Tx
pub mod Sale
pub mod Allocate
pub mod Orders
pub mod Refunds
pub mod Retry
pub mod Sweep
pub mod Create
pub mod Doors
pub mod Triple
pub mod Frame
pub mod Consistent
pub mod Keeps
pub mod Ordered
pub mod Edited
pub mod Reported
pub mod Decided
pub mod Retried
pub mod Opened
pub mod OneLead
pub mod Blocked
pub mod Refused
pub mod Confirms
pub mod Swept
pub mod Steps
pub mod Coverage
pub mod Ranked
pub mod Paused
pub mod Payer
pub mod Offered
pub mod Best
pub mod Total
pub mod GoesThrough
pub mod Bought
pub mod Sells
use directory_platform.Common.{
  ℕ, ◌+◌, ◌*◌, ◌/◌, Bool, true, false, ◌&&◌, ◌||◌, Option, none, some, List, ◌==◌, ltb, leb,
  if◌then◌else◌, option_eq, any, includes,
}

abbrev pub max_standing_orders_per_listing : ℕ
max_standing_orders_per_listing = 5

abbrev pub day_ms : ℕ
day_ms = 86400000

-- `currentPriceCents`: half of the price, rounded up, from `half_price_at` on
unfoldable pub current_price_cents : ℕ → ℕ → ℕ → ℕ
current_price_cents price_cents half_price_at at =
    if leb half_price_at at then (price_cents + 1) / 2 else price_cents

pub data Territory : Type 0 where
  city region : ℕ → Territory
  national : Territory

pub data RefundReason : Type 0 where
  dead_phone wrong_person bounced spam never_asked wrong_area : RefundReason

-- `refundWindowOpen`, for the configured number of days
unfoldable pub refund_window_open : ℕ → ℕ → ℕ → Bool
refund_window_open refund_window_days bought_at at =
    ltb at (bought_at + refund_window_days * day_ms)

abbrev pub blocklist_months : ℕ
blocklist_months = 12

-- `BLOCKLISTING_REASONS.includes(reason)`
unfoldable pub blocklists_on_refund : RefundReason → Bool
blocklists_on_refund dead_phone = true
blocklists_on_refund wrong_person = true
blocklists_on_refund bounced = false
blocklists_on_refund spam = true
blocklists_on_refund never_asked = true
blocklists_on_refund wrong_area = false

pub record LeadPlace : Type 0 where
  pub city_id : ℕ
  pub region_slug : Option ℕ
  pub category_id : Option ℕ

unfoldable pub is_place : LeadPlace → Territory → Bool
is_place lead (city id) = id == lead.city_id
is_place lead (region id) = option_eq (some id) lead.region_slug
is_place lead national = true

unfoldable pub is_category : Option (List ℕ) → Option ℕ → Bool
is_category none c = true
is_category (some ids) none = false
is_category (some ids) (some c) = includes ids c

-- `orderCovers`
unfoldable pub order_covers : List Territory → Option (List ℕ) → LeadPlace → Bool
order_covers territories category_ids lead =
    if any (is_place lead) territories then is_category category_ids lead.category_id else false

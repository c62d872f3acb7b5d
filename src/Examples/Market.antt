-- ===== src/Examples/Market.antt =====
-- The theorems on the lead market, applied to a board of one lead and three standing orders.
use directory_platform.Common.{
  ℕ, ◌-◌, ◌*◌, ◌+◌, if◌then◌else◌, ◌==◌, List, Option, ◌+◌, ◌≡◌, refl, arith, true, false, none,
  some, [], ◌∷◌, pos, ltb_ℤ,
}
use directory_platform.Store.Rows.{owner, admin}
use directory_platform.Credits.{
  LedgerRow, topup, balance_in, ensure_profile, insert_entry, assert_acts_for,
}
use directory_platform.Credits.Operations.{spend, debit_for_purchase}
use directory_platform.Leads.{Territory, city, region, national, current_price_cents}
use directory_platform.Leads.Rows.{LeadSource, is_open, is_active, LeadRow, StandingOrder, MarketDb}
use directory_platform.Leads.Tx.{
  MarketResult, ok, err, pure, gets, ◌>>=◌, modify, on_option, on_credit, fresh_id, audit_actor,
  profile_unless_nil, assert_admin, require, write_audit, enqueue_job, try_debit,
}
use directory_platform.Leads.Sale.{
  find_lead, open_lead, lock_open_lead, insert_purchase, record_sale,
}
use directory_platform.Leads.Sale.{BuyResult, buy_lead}
use directory_platform.Leads.Sweep.{sweep_leads}
use directory_platform.Leads.Allocate.{
  AllocationResult, sold_to, covers_place, covers_category, is_candidate, ranks_before,
  insert_order, rank_orders, candidates, pause_for_credit, sell_to, pause_short, offered, offer,
  allocate_lead, allocation_viewer,
}
use directory_platform.Leads.Consistent.{IsConsistent}
use directory_platform.Leads.Steps.{start, next, allocated, Reaches-IsConsistent}
use directory_platform.Leads.Sells.{allocate_lead_returns, buy_lead_returns}
use directory_platform.Leads.Bought.{BuyIs, Leaves}
use directory_platform.Leads.Swept.{nothing_swept, sweep_leads_twice}
use directory_platform.Leads.Best.{Allocated, allocate_lead-Allocated}

abbrev pub lead_row : LeadRow
lead_row = record {
  id = 4;
  status = is_open;
  source = LeadSource.quote;
  quote_request_id = some 70;
  listing_id = none;
  city_id = 5;
  category_id = some 8;
  price_cents = 2000;
  half_price_at = 1000;
  expires_at = 2000;
  sold_at = none;
  sold_to_listing_id = none;
  buyer_user_id = none;
  name = some 1;
  email = some 2;
  phone = some 3;
  message = none;
  phone_normalised = some 3;
  email_normalised = some 2;
  contact_purged_at = none;
  created_at = 0;
  updated_at = 0;
}

abbrev order_of : ℕ → ℕ → ℕ → Territory → ℕ → StandingOrder
order_of id user_id listing_id territory price_cents = record {
  id = id;
  user_id = user_id;
  listing_id = listing_id;
  territories = territory ∷ [];
  category_ids = none;
  price_cents = price_cents;
  status = is_active;
  paused_reason = none;
  won_count = 0;
  created_at = id;
  updated_at = id;
}

abbrev topped_up : ℕ → ℕ → LedgerRow
topped_up id user_id = record {
  id = id;
  user_id = user_id;
  delta_cents = pos 5000;
  kind = topup;
  ref = none;
  note = none;
  order_id = some id;
  created_by = none;
}

-- The hundredths of a plain decimal text.
abbrev fraction : ℕ → List ℕ → Option ℕ
fraction n [] = some (n * 100)
fraction n (a ∷ []) = some (n * 100 + (a - 48) * 10)
fraction n (a ∷ b ∷ []) = some (n * 100 + (a - 48) * 10 + (b - 48))
fraction n _ = none

abbrev number_in : ℕ → List ℕ → Option ℕ
number_in n [] = some (n * 100)
number_in n (c ∷ s) =
    let later = number_in (n * 10 + (c - 48)) s in if c == 46 then fraction n s else later

abbrev pub board : MarketDb
board = record {
  leads = lead_row ∷ [];
  purchases = [];
  refunds = [];
  orders =
      order_of 31 107 21 national 2500
      ∷ order_of 32 108 22 (city 5) 3000
      ∷ order_of 33 109 23 (region 6) 4000
      ∷ [];
  blocklist = [];
  requests = [];
  recipients = [];
  listings =
      record {
        id = 21;
        owner_id = some 107;
        is_published = true;
        is_verified = true;
        is_unclaimed = false;
        is_free = false;
        has_email = true;
        city_id = 5;
        primary_category_id = 8;
        extra_category_ids = [];
      }
      ∷ record {
        id = 22;
        owner_id = some 108;
        is_published = true;
        is_verified = true;
        is_unclaimed = false;
        is_free = false;
        has_email = true;
        city_id = 5;
        primary_category_id = 8;
        extra_category_ids = [];
      }
      ∷ record {
        id = 23;
        owner_id = some 109;
        is_published = true;
        is_verified = true;
        is_unclaimed = false;
        is_free = false;
        has_email = true;
        city_id = 5;
        primary_category_id = 8;
        extra_category_ids = [];
      }
      ∷ [];
  cities = record { id = 5; slug = 5; region_slug = some 6; is_published = true } ∷ [];
  categories = [];
  credit = record {
    ledger = topped_up 41 107 ∷ topped_up 42 108 ∷ [];
    profiles = record { id = 107; user_id = 7 } ∷ record { id = 108; user_id = 8 } ∷ [];
    audit_log = [];
    uuid = λ n. n + 1000;
    drawn = 0;
  };
  credit_orders = [];
  order_calls = [];
  audit_log = [];
  jobs = [];
  config = record {
    floor_cents = 500;
    refund_window_days = 7;
    retain_sold_days = 90;
    packs = 25 ∷ 50 ∷ [];
    money = record {
      currency = 71 ∷ 66 ∷ 80 ∷ [];
      to_number = number_in 0;
      to_upper_case = λ t. t;
    };
    half_price_after_days = 7;
    delete_after_days = 30;
  };
}

abbrev pub left_by : {A : Type 0} → MarketResult A → MarketDb
left_by (ok a s) = s
left_by (err e) = board

unfoldable sold_board : MarketDb
sold_board = left_by (allocate_lead allocation_viewer 4 10 board)

-- the order of 40 units has no credit, and the next best one wins
allocate_run : allocate_lead allocation_viewer 4 10 board ≡ ok (sold_to 1001 32 108) sold_board
unfolding sold_board allocate_lead lock_open_lead open_lead offer offered pause_short sell_to
    pause_for_credit candidates rank_orders insert_order ranks_before is_candidate covers_place
    covers_category try_debit debit_for_purchase spend insert_entry assert_acts_for record_sale
    insert_purchase fresh_id write_audit audit_actor profile_unless_nil enqueue_job modify gets
    on_option pure ◌>>=◌ ensure_profile on_credit
allocate_run = refl

board_lead : open_lead 10 (find_lead 4 board) ≡ some lead_row
unfolding open_lead
board_lead = refl

open_later : open_lead 1500 (find_lead 4 board) ≡ some lead_row
unfolding open_lead
open_later = refl

allocate_lead-Allocated_example : Allocated 10 board lead_row (sold_to 1001 32 108) sold_board
allocate_lead-Allocated_example =
    allocate_lead-Allocated allocation_viewer 4 10 board lead_row (sold_to 1001 32 108) sold_board
      board_lead allocate_run

board-IsConsistent :
    IsConsistent board.leads board.purchases board.credit.ledger board.refunds board.orders
      board.blocklist
board-IsConsistent = record {
  once = tt;
  sold = (λ e. refl, tt);
  paid = tt;
  refunded = tt;
  limited = λ l. ground arith;
}

Reaches-IsConsistent_example :
    IsConsistent sold_board.leads sold_board.purchases sold_board.credit.ledger sold_board.refunds
      sold_board.orders sold_board.blocklist
Reaches-IsConsistent_example =
    Reaches-IsConsistent
      (next board board sold_board (start board)
        (allocated allocation_viewer 4 10 (sold_to 1001 32 108) allocate_run))
      board-IsConsistent

allocate_lead_returns_example :
    (r : AllocationResult) × ((s' : MarketDb) × ((allocate_lead allocation_viewer 4 10 board
          ≡ ok r s')
        × Allocated 10 board lead_row r s'))
allocate_lead_returns_example =
    allocate_lead_returns allocation_viewer 4 10 board lead_row board-IsConsistent
      (omega arith, (omega arith, (omega arith, tt))) board_lead

-- at half of the price
buy_lead_returns_example :
    (r : BuyResult) × ((s' : MarketDb) × ((buy_lead (owner 7) 4 21 1500 board ≡ ok r s')
        × (BuyIs board lead_row 107 21
              (current_price_cents 2000 1000 1500)
              1500
              (ltb_ℤ
                (balance_in board.credit.ledger 107)
                (pos (current_price_cents 2000 1000 1500)))
              r
              s'
            × Leaves board.leads board.orders lead_row 21 1500 r s')))
buy_lead_returns_example =
    buy_lead_returns 7 4 21 1500 board lead_row (record { id = 107; user_id = 7 })
      board-IsConsistent refl refl open_later (omega arith)

unfoldable swept_board : MarketDb
swept_board = left_by (sweep_leads (admin 0) 3000 board)

sweep_run :
    sweep_leads (admin 0) 3000 board
    ≡ ok (record { expired = 1; deleted = 0; purged = 0 }) swept_board
unfolding swept_board sweep_leads assert_admin require gets modify pure ◌>>=◌
sweep_run = refl

sweep_leads_twice_example : sweep_leads (admin 5) 3000 swept_board ≡ ok nothing_swept swept_board
sweep_leads_twice_example =
    sweep_leads_twice (admin 0) (admin 5) 3000 board swept_board
      (record { expired = 1; deleted = 0; purged = 0 }) sweep_run refl

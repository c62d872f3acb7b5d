-- ===== src/Examples/Requests.antt =====
-- The theorems on requests and on the block list, applied to small tables.
use directory_platform.Common.{
  any, ◌<◌, ◌≡◌, ◌≢◌, inl, refl, arith, true, false, none, some, [], ◌∷◌, pos,
}
use directory_platform.Store.Rows.{public, admin}
use directory_platform.Credits.{insert_entry}
use directory_platform.Credits.Operations.{refund_once, refund_to_credit}
use directory_platform.Billing.Calendar.{annual, add_interval, days_of, civil_of}
use directory_platform.Leads.{dead_phone, blocklists_on_refund}
use directory_platform.Leads.Rows.{
  quote, capture, is_sold, is_confirmed, is_pending, LeadRow, LeadPurchase, LeadRefund,
  QuoteRequest, MarketDb,
}
use directory_platform.Leads.Tx.{
  ok, pure, gets, ◌>>=◌, modify, on_option, on_credit, fresh_id, require, assert_admin, audit_actor,
  profile_unless_nil, write_audit, enqueue_job,
}
use directory_platform.Leads.Refunds.{
  approved, DecisionInput, refund_case, RefundCase, block, block_key, block_lead, decision_actor,
  finish_decision, carry_out, decide_case, decide_refund,
}
use directory_platform.Leads.Create
use directory_platform.Leads.Create.{
  LeadTexts, check_known, check_phone, check_lead_rules, is_of_request, store_lead, insert_lead,
  insert_once, request_fields, ready,
}
use directory_platform.Leads.Doors.{quote_lead, create_lead_from_quote, door}
use directory_platform.Leads.OneLead.{door_once}
use directory_platform.Leads.Refused.{decide_refund_blocks}
use directory_platform.Examples.Market.{board, left_by, lead_row}

abbrev request : QuoteRequest
request = record {
  id = 71;
  status = is_confirmed;
  source = quote;
  spam = false;
  listing_id = none;
  city_id = some 5;
  category_id = none;
  name = none;
  email = some 12;
  phone = some 13;
  message = some 14;
}

abbrev plain_texts : LeadTexts
plain_texts = record {
  normalise_phone = λ p. p;
  normalise_email = λ e. e;
  is_disposable = λ e. false;
  no_text = 0;
}

abbrev asked : MarketDb
asked = record board { requests = request ∷ [] }

abbrev made : LeadRow
made = Create.lead_row plain_texts (request_fields plain_texts quote request 12 14 5) asked 20 1000

unfoldable opened : MarketDb
opened = left_by (door quote plain_texts public 71 20 asked)

door_run : door quote plain_texts public 71 20 asked ≡ ok (some made) opened
unfolding opened door create_lead_from_quote quote_lead insert_once insert_lead store_lead
    check_lead_rules check_phone check_known ready write_audit audit_actor fresh_id on_option modify
    gets pure ◌>>=◌
door_run = refl

-- The lead has been sold since.
abbrev sold_since : MarketDb
sold_since = record opened { leads = record made { status = is_sold } ∷ []; jobs = [] }

door_once_example :
    (any (is_of_request 71) opened.leads ≡ true)
    × (door capture plain_texts public 71 90 sold_since ≡ ok none sold_since)
door_once_example =
    door_once quote capture plain_texts public public 71 20 90 asked opened sold_since made door_run
      refl

abbrev sold_lead_row : LeadRow
sold_lead_row = record lead_row { status = is_sold; sold_at = some 30 }

abbrev bought_row : LeadPurchase
bought_row = record {
  id = 51;
  lead_id = 4;
  user_id = 107;
  listing_id = 21;
  standing_order_id = none;
  price_cents = 2000;
  ledger_id = 43;
  created_at = 30;
}

abbrev report_row : LeadRefund
report_row = record {
  id = 81;
  purchase_id = 51;
  reason = dead_phone;
  note = none;
  status = is_pending;
  decided_by = none;
  decided_at = none;
  decision_note = none;
}

abbrev reported : MarketDb
reported = record board {
  leads = sold_lead_row ∷ [];
  purchases = bought_row ∷ [];
  refunds = report_row ∷ [];
}

abbrev yes : DecisionInput
yes = record { approve = true; note = none; ledger_note = 9 }

unfoldable approved_board : MarketDb
approved_board = left_by (decide_refund (admin 0) 81 yes 40 reported)

approve_run : decide_refund (admin 0) 81 yes 40 reported ≡ ok (approved (pos 7000)) approved_board
unfolding approved_board decide_refund refund_case decide_case decision_actor carry_out
    finish_decision block_lead block_key block refund_to_credit refund_once insert_entry on_credit
    write_audit audit_actor profile_unless_nil enqueue_job require assert_admin on_option modify
    gets pure ◌>>=◌ blocklists_on_refund
approve_run = refl

abbrev reported_case : RefundCase
reported_case = record { refund = report_row; purchase = bought_row; lead = sold_lead_row }

case_found : refund_case 81 reported ≡ some reported_case
unfolding refund_case
case_found = refl

reason_blocks : blocklists_on_refund dead_phone ≡ true
unfolding blocklists_on_refund
reason_blocks = refl

within_year : 5000 < add_interval 40 annual
unfolding add_interval days_of civil_of
within_year = omega arith

decide_refund_blocks_example : check_lead_rules plain_texts 99 (some 3) 5000 approved_board ≢ none
decide_refund_blocks_example =
    decide_refund_blocks (admin 0) 81 40 yes (pos 7000) reported approved_board reported_case
      plain_texts 3 99 5000 (some 3) case_found approve_run reason_blocks refl (inl refl)
      within_year

-- ===== src/Examples/Topups.antt =====
-- The theorems on top-ups, applied to a pack of 25 units.
use directory_platform.Common.{◌≡◌, refl, true, false, none, some, [], ◌∷◌}
use directory_platform.Store.Rows.{admin}
use directory_platform.Credits.{insert_entry}
use directory_platform.Credits.Operations.{post_ledger}
use directory_platform.Leads.Rows.{is_created, CreditOrder, Amount, MarketDb}
use directory_platform.Leads.Tx.{
  ok, pure, gets, ◌>>=◌, modify, on_option, on_credit, enqueue_job, require, assert_admin,
}
use directory_platform.Topup.{
  digits_of, whole_text, pad_start, credit_topup_amount, amount_matches, OrdersClient, ask,
}
use directory_platform.Topup.Amounts.{cents_from, credit_topup_amount-cents_from}
use directory_platform.Topup.Settle.{
  audit_nobody, announce, credit_topup, CaptureEvent, capture_created, capture_by_status,
  capture_for, apply_topup_capture, settle_captured, settle_by_status, settle_topup_order,
}
use directory_platform.Topup.Exact.{After}
use directory_platform.Topup.Halves.{by_event, by_return, attempt}
use directory_platform.Topup.Once.{attempt_exact, attempt_once}
use directory_platform.Examples.Market.{board, left_by}

abbrev order_row : CreditOrder
order_row = record {
  id = 61;
  user_id = 107;
  pack_cents = 2500;
  provider_order_id = some 900;
  status = is_created;
  captured_at = none;
}

abbrev ordered : MarketDb
ordered = record board { credit_orders = order_row ∷ [] }

-- "25.0" in "GBP"
abbrev paid : Amount
paid = record { value = 50 ∷ 53 ∷ 46 ∷ 48 ∷ []; currency = 71 ∷ 66 ∷ 80 ∷ [] }

abbrev paypal : OrdersClient
paypal = record {
  create = λ calls. none;
  capture = λ calls. some (record { other_status = none; capture_id = some 5; amount = some paid });
}

abbrev late_event : CaptureEvent
late_event = record { capture_id = 5; order_id = some 900; amount = some paid }

unfoldable topped : MarketDb
topped = left_by (attempt (by_return (admin 0) paypal) 61 900 20 ordered)

topped_run : attempt (by_return (admin 0) paypal) 61 900 20 ordered ≡ ok true topped
unfolding topped attempt settle_topup_order settle_by_status settle_captured ask credit_topup
    announce audit_nobody amount_matches credit_topup_amount digits_of whole_text pad_start
    post_ledger insert_entry on_credit enqueue_job require assert_admin modify gets on_option pure
    ◌>>=◌
topped_run = refl

unfoldable told_again : MarketDb
told_again = left_by (attempt (by_event (admin 0) late_event) 61 900 30 topped)

again_run : attempt (by_event (admin 0) late_event) 61 900 30 topped ≡ ok false told_again
unfolding told_again topped attempt settle_topup_order settle_by_status settle_captured ask
    credit_topup announce audit_nobody amount_matches credit_topup_amount digits_of whole_text
    pad_start post_ledger insert_entry on_credit enqueue_job require assert_admin modify gets
    on_option pure ◌>>=◌ apply_topup_capture capture_for capture_by_status capture_created
again_run = refl

attempt_exact_example :
    After ordered.credit.ledger board.config.money order_row 900 20 (some paid) true topped
attempt_exact_example =
    attempt_exact (by_return (admin 0) paypal) 900 20 ordered topped order_row true refl refl
      topped_run

attempt_once_example : (false ≡ false) × (told_again.credit.ledger ≡ topped.credit.ledger)
attempt_once_example =
    attempt_once (by_return (admin 0) paypal) (by_event (admin 0) late_event) 900 20 30 ordered
      topped told_again order_row false refl refl topped_run again_run

credit_topup_amount-cents_from_example :
    (cents_from 0 (credit_topup_amount board.config.money 2505).value ≡ some 2505)
    × ((credit_topup_amount board.config.money 2505).currency ≡ board.config.money.currency)
credit_topup_amount-cents_from_example = credit_topup_amount-cents_from board.config.money 2505

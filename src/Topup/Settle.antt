-- ===== src/Topup/Settle.antt =====
-- The two halves that credit a captured order (lib/billing/credit-topup.ts): the webhook's and the
-- return page's. Both hold the order's row from its look-up to the end of the transaction, so each
-- is one step here.
use directory_platform.Common.{
  ℕ, Bool, false, not, Option, none, some, ◌∷◌, ◌==◌, if◌then◌else◌, is_none, find?, pos,
}
use directory_platform.Store.Rows.{Viewer}
use directory_platform.Credits.{EntryInput, topup, credit_order}
use directory_platform.Credits.Operations.{post_ledger}
use directory_platform.Leads.Rows.{
  CreditOrderStatus, is_created, is_captured, is_failed, CreditOrder, Amount, OrderCall,
  MismatchReason, wrong_amount, order_mismatch, MarketDb, LeadAction, payment_mismatch, topped_up,
  notify_credit_topup,
}
use directory_platform.Leads.Tx.{
  Market, ⊤, pure, gets, ◌>>=◌, ◌>>◌, modify, on_option, assert_admin, on_credit, enqueue_job,
}
use directory_platform.Topup.{
  credit_topup_amount, amount_matches, CapturedOrder, OrdersClient, ask, set_order_row,
  is_provider_id,
}

-- the number of the text "PayPal top-up"
abbrev pub topup_note : ℕ
topup_note = 0

abbrev pub topup_entry : CreditOrder → ℕ → EntryInput
topup_entry row provider_order_id = record {
  user_id = row.user_id;
  delta_cents = pos row.pack_cents;
  kind = topup;
  ref = some (credit_order row.id);
  note = some topup_note;
  order_id = some provider_order_id;
  created_by = none;
}

-- `writeAuditAs(tx, null, …)`
unfoldable pub audit_nobody : LeadAction → ℕ → Market ⊤
unfolding modify
audit_nobody action entity_id = modify λ s. record s {
  audit_log = record { action = action; entity_id = entity_id; actor_id = none } ∷ s.audit_log;
}

-- `recordMismatch`
abbrev pub record_mismatch : CreditOrder → MismatchReason → Option ℕ → Market ⊤
record_mismatch row reason provider_order_id =
    audit_nobody (payment_mismatch reason provider_order_id) row.id

abbrev pub captured_row : ℕ → CreditOrder → CreditOrder
captured_row at o = record o { status = is_captured; captured_at = some at }

abbrev pub failed_row : CreditOrder → CreditOrder
failed_row o = record o { status = is_failed }

pub data Credited : Type 0 where
  credited already_credited : Credited

-- after the row is captured: an entry that was there already is not announced again
unfoldable pub announce : CreditOrder → ℕ → Option ℕ → Market Credited
announce row provider_order_id none = pure already_credited
announce row provider_order_id (some entry) = do
  audit_nobody (topped_up row.user_id row.pack_cents provider_order_id) row.id
  enqueue_job (notify_credit_topup row.id)
  pure credited

-- `creditOrder`
unfoldable pub credit_topup : Viewer → CreditOrder → ℕ → ℕ → Market Credited
credit_topup viewer row provider_order_id at = do
  entry ← on_credit (post_ledger viewer (topup_entry row provider_order_id))
  modify (set_order_row row.id (captured_row at))
  announce row provider_order_id entry

-- `wrong-amount`: the mismatch is written down and the order fails
unfoldable pub fail_order : CreditOrder → ℕ → Market ⊤
fail_order row provider_order_id = do
  record_mismatch row wrong_amount (some provider_order_id)
  modify (set_order_row row.id failed_row)

-- `CaptureEvent`
pub record CaptureEvent : Type 0 where
  pub capture_id : ℕ
  pub order_id : Option ℕ
  pub amount : Option Amount

pub data TopupCapture : Type 0 where
  settled : Credited → TopupCapture
  mismatched failed_before wrong unknown : TopupCapture

unfoldable pub capture_created : Viewer → CaptureEvent → CreditOrder → ℕ → ℕ → Market TopupCapture
capture_created viewer event row provider_id at = do
  money ← gets (λ s. s.config.money)
  if not (amount_matches money event.amount (credit_topup_amount money row.pack_cents))
      then fail_order row provider_id >> pure wrong
      else credit_topup viewer row provider_id at >>= λ out. pure (settled out)

unfoldable pub capture_by_status :
    Viewer → CaptureEvent → CreditOrder → ℕ → ℕ → CreditOrderStatus → Market TopupCapture
capture_by_status viewer event row provider_id at is_captured = pure (settled already_credited)
capture_by_status viewer event row provider_id at is_failed = pure failed_before
capture_by_status viewer event row provider_id at is_created =
    capture_created viewer event row provider_id at

-- an event that names an order names this one
abbrev pub names_other : Option ℕ → ℕ → Bool
names_other none provider_id = false
names_other (some o) provider_id = not (o == provider_id)

unfoldable pub capture_for : Viewer → CaptureEvent → ℕ → CreditOrder → Market TopupCapture
capture_for viewer event at row = on_option row.provider_order_id (pure unknown) λ provider_id.
    if names_other event.order_id provider_id
    then record_mismatch row order_mismatch event.order_id >> pure mismatched
    else capture_by_status viewer event row provider_id at row.status

abbrev pub find_order : ℕ → MarketDb → Option CreditOrder
find_order id s = find? (λ (o : CreditOrder). o.id == id) s.credit_orders

-- `applyTopupCapture`
unfoldable pub apply_topup_capture : Viewer → CaptureEvent → ℕ → ℕ → Market TopupCapture
apply_topup_capture viewer event credit_order_id at = do
  assert_admin viewer
  found ← gets (find_order credit_order_id)
  on_option found (pure unknown) (capture_for viewer event at)

-- "FAILED", "UNAVAILABLE", "AMOUNT_MISMATCH" or what PayPal says
pub data NotCompleted : Type 0 where
  order_failed client_unavailable amount_mismatch : NotCompleted
  by_paypal : Option ℕ → NotCompleted

pub data TopupSettle : Type 0 where
  settled_by_return : Credited → CreditOrder → TopupSettle
  not_completed : NotCompleted → CreditOrder → TopupSettle
  unknown_order not_configured : TopupSettle

-- what PayPal answers to the capture: nothing if it throws
unfoldable pub settle_captured :
    Viewer → CreditOrder → ℕ → ℕ → Option CapturedOrder → Market TopupSettle
settle_captured viewer row order_id at none = pure (not_completed client_unavailable row)
settle_captured viewer row order_id at (some c) = do
  money ← gets (λ s. s.config.money)
  if not (is_none c.other_status)
      then pure (not_completed (by_paypal c.other_status) row)
      else if not (amount_matches money c.amount (credit_topup_amount money row.pack_cents))
      then fail_order row order_id >> pure (not_completed amount_mismatch row)
      else credit_topup viewer row order_id at >>= λ out. pure (settled_by_return out row)

unfoldable pub settle_by_status :
    OrdersClient → Viewer → ℕ → ℕ → CreditOrder → CreditOrderStatus → Market TopupSettle
settle_by_status client viewer order_id at row is_captured =
    pure (settled_by_return already_credited row)
settle_by_status client viewer order_id at row is_failed = pure (not_completed order_failed row)
settle_by_status client viewer order_id at row is_created =
    ask (OrderCall.capture_order order_id) client.capture >>= settle_captured viewer row order_id at

-- `lockOrderByProviderId`
abbrev pub find_provider_order : ℕ → MarketDb → Option CreditOrder
find_provider_order order_id s = find? (is_provider_id order_id) s.credit_orders

-- `settleTopupOrder`
unfoldable pub settle_topup_order : Option OrdersClient → Viewer → ℕ → ℕ → Market TopupSettle
settle_topup_order client viewer order_id at = do
  assert_admin viewer
  on_option client (pure not_configured) λ c. do
    found ← gets (find_provider_order order_id)
    on_option found (pure unknown_order) λ row. settle_by_status c viewer order_id at row row.status

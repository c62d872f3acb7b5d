-- ===== src/Topup.antt =====
-- Credit top-ups through PayPal's orders (lib/billing/credit-topup.ts, and the amounts of
-- lib/billing/orders.ts). The orders client is a parameter: it answers from all that it has been
-- asked, and an answer that is missing is one that throws.
pub mod Settle
pub mod Exact
pub mod Halves
pub mod Once
pub mod Amounts
use directory_platform.Common.{
  ℕ, zero, suc, ◌++◌, ltb, length, ◌+◌, ◌*◌, ◌/◌, ◌%◌, Bool, true, false, not, ◌&&◌, ◌||◌, Option,
  none, some, List, [], ◌∷◌, ◌==◌, if◌then◌else◌, option_eq, is_none, find?, any, includes, map,
  update, pos,
}
use directory_platform.Routing.{Text, same_text}
use directory_platform.Store.Rows.{Viewer}
use directory_platform.Credits.{EntryInput, conflict, unavailable, topup, credit_order}
use directory_platform.Credits.Operations.{post_ledger}
use directory_platform.Leads.Rows.{
  CreditOrderStatus, is_created, is_captured, is_failed, CreditOrder, Amount, Money, OrderCall,
  MismatchReason, wrong_amount, order_mismatch, MarketDb, LeadAction, payment_mismatch, topped_up,
  notify_credit_topup,
}
use directory_platform.Leads.Tx.{
  Market, ⊤, pure, throw, gets, ◌>>=◌, ◌>>◌, modify, on_option, assert_signed_in, assert_admin,
  on_credit, fresh_id, own_profile, enqueue_job,
}

-- `topupPackCents`
abbrev pub topup_pack_cents : MarketDb → List ℕ
topup_pack_cents s = map (λ pack. pack * 100) s.config.packs

-- `String(n)`; the fuel is enough when it is more than the number
unfoldable pub digits_of : ℕ → ℕ → Text
digits_of zero n = []
digits_of (suc fuel) n =
    let before = digits_of fuel (n / 10) in
    if ltb n 10 then (48 + n) ∷ [] else before ++ ((48 + n % 10) ∷ [])

unfoldable pub whole_text : ℕ → Text
whole_text n = digits_of (suc n) n

-- `padStart(2, "0")`, for a text that is not empty
unfoldable pub pad_start : Text → Text
pad_start t = if ltb (length t) 2 then 48 ∷ t else t

-- `creditTopupAmount`: the whole units, a point and the two digits of the rest
unfoldable pub credit_topup_amount : Money → ℕ → Amount
credit_topup_amount money pack_cents = record {
  value = whole_text (pack_cents / 100) ++ (46 ∷ pad_start (whole_text (pack_cents % 100)));
  currency = money.currency;
}

-- `a === b` on numbers: NaN is not itself
abbrev pub same_number : Option ℕ → Option ℕ → Bool
same_number none b = false
same_number (some a) none = false
same_number (some a) (some b) = a == b

-- `amountMatches`
unfoldable pub amount_matches : Money → Option Amount → Amount → Bool
amount_matches money none expected = false
amount_matches money (some a) expected =
    same_number (money.to_number a.value) (money.to_number expected.value)
    && same_text (money.to_upper_case a.currency) (money.to_upper_case expected.currency)

pub record CreatedOrder : Type 0 where
  pub id : ℕ
  pub approve_url : Option ℕ

-- `CapturedOrder`; the status is whether it is "COMPLETED", or the number of another text
pub record CapturedOrder : Type 0 where
  pub other_status : Option ℕ
  pub capture_id : Option ℕ
  pub amount : Option Amount

pub record OrdersClient : Type 0 where
  pub create : List OrderCall → Option CreatedOrder
  pub capture : List OrderCall → Option CapturedOrder

-- asks for it, and keeps that it was asked
unfoldable pub ask : {A : Type 0} → OrderCall → (List OrderCall → A) → Market A
unfolding gets modify ◌>>=◌
ask call answer = do
  modify (λ s. record s { order_calls = call ∷ s.order_calls })
  gets (λ s. answer s.order_calls)

pub data StartTopupResult : Type 0 where
  -- the page to approve it on, PayPal's order and our row
  pay : ℕ → ℕ → ℕ → StartTopupResult
  invalid_pack not_configured no_approve_url : StartTopupResult

abbrev pub set_order_row : ℕ → (CreditOrder → CreditOrder) → MarketDb → MarketDb
set_order_row id f s = record s { credit_orders = update (λ o. o.id == id) f s.credit_orders }

-- `credit_orders_provider_order_key`
abbrev pub is_provider_id : ℕ → CreditOrder → Bool
is_provider_id provider_id o = option_eq o.provider_order_id (some provider_id)

unfoldable pub attach_order : ℕ → CreatedOrder → Market StartTopupResult
attach_order id order = do
  taken ← gets (λ s. any (is_provider_id order.id) s.credit_orders)
  if taken then throw conflict else do
    modify (set_order_row id (λ o. record o { provider_order_id = some order.id }))
    on_option order.approve_url (pure no_approve_url) λ url. pure (pay url order.id id)

abbrev pub created_row : ℕ → ℕ → ℕ → CreditOrder
created_row id user_id pack_cents = record {
  id = id;
  user_id = user_id;
  pack_cents = pack_cents;
  provider_order_id = none;
  status = is_created;
  captured_at = none;
}

unfoldable pub create_topup : OrdersClient → Viewer → ℕ → Market StartTopupResult
create_topup client viewer pack_cents = do
  profile_id ← own_profile viewer
  id ← fresh_id
  modify (λ s. record s { credit_orders = created_row id profile_id pack_cents ∷ s.credit_orders })
  money ← gets (λ s. s.config.money)
  order ← ask (OrderCall.create_order id (credit_topup_amount money pack_cents)) client.create
  on_option order (throw unavailable) (attach_order id)

-- `startTopup`
unfoldable pub start_topup : Option OrdersClient → Viewer → ℕ → Market StartTopupResult
start_topup client viewer pack_cents = do
  assert_signed_in viewer
  packs ← gets topup_pack_cents
  if not (includes packs pack_cents)
      then pure invalid_pack
      else on_option client (pure not_configured) λ c. create_topup c viewer pack_cents

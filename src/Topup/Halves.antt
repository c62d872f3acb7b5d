-- ===== src/Topup/Halves.antt =====
-- Each half of a top-up (lib/billing/credit-topup.ts), on a row that both look-ups find: it credits
-- the order, or leaves the ledger as it was.
use directory_platform.Common.{
  ℕ, arith, ◌≡◌, refl, sym, ap, ◌∙◌, subst, Bool, true, false, not, Option, none, some, List, ◌∷◌,
  if◌then◌else◌, is_none,
}
use directory_platform.Store.Rows.{Viewer}
use directory_platform.Store.Tx.{is_admin}
use directory_platform.Credits.{LedgerRow}
use directory_platform.Leads.Rows.{
  CreditOrderStatus, is_created, is_captured, is_failed, CreditOrder, Amount, Money, OrderCall,
  MismatchReason, wrong_amount, order_mismatch, MarketDb,
}
use directory_platform.Leads.Tx.{Market, pure, gets, ◌>>=◌, ◌>>◌, modify, on_option, assert_admin}
use directory_platform.Leads.Triple.{
  Triple, Triple-pure, Triple-bind, Triple-given, Triple-modify, Triple-gets, Triple-if,
  Triple-weaken, Keeps-require,
}
use directory_platform.Topup.{credit_topup_amount, amount_matches, CapturedOrder, OrdersClient, ask}
use directory_platform.Topup.Settle.{
  audit_nobody, record_mismatch, Credited, credited, already_credited, credit_topup, fail_order,
  find_order, find_provider_order, CaptureEvent, TopupCapture, settled, mismatched, wrong, unknown,
  capture_created, capture_by_status, names_other, capture_for, apply_topup_capture, TopupSettle,
  settled_by_return, amount_mismatch, by_paypal, not_completed, unknown_order, settle_captured,
  settle_by_status, settle_topup_order,
}
use directory_platform.Topup.Exact.{Before, After, is_credited, credit_topup-After}

-- The two halves: a capture event, or the buyer's return with the client.
pub data Half : Type 0 where
  by_event : Viewer → CaptureEvent → Half
  by_return : Viewer → OrdersClient → Half

-- Whether an answer says that the top-up was credited now.
abbrev pub capture_credited : TopupCapture → Bool
capture_credited (settled credited) = true
capture_credited _ = false

abbrev pub settle_credited : TopupSettle → Bool
settle_credited (settled_by_return credited row) = true
settle_credited _ = false

-- One half at work on our row `id` and PayPal's order `pid`.
unfoldable pub attempt : Half → ℕ → ℕ → ℕ → Market Bool
attempt (by_event viewer event) id pid at =
    apply_topup_capture viewer event id at >>= λ r. pure (capture_credited r)
attempt (by_return viewer client) id pid at =
    settle_topup_order (some client) viewer pid at >>= λ r. pure (settle_credited r)

abbrev pub amount_of : Option CapturedOrder → Option Amount
amount_of none = none
amount_of (some c) = c.amount

-- What PayPal says was paid.
abbrev pub paid_amount : Half → ℕ → MarketDb → Option Amount
paid_amount (by_event viewer event) pid s = event.amount
paid_amount (by_return viewer client) pid s =
    amount_of (client.capture (OrderCall.capture_order pid ∷ s.order_calls))

not-not : (b : Bool) → not b ≡ false → b ≡ true
not-not b h = ground arith

module _ (l : List LedgerRow) (money : Money) (row : CreditOrder) (pid at : ℕ) (v : Viewer) where
  -- a step that keeps the ledger, before an answer that credits nothing
  mismatch-Same :
      (reason : MismatchReason) (o : Option ℕ)
      → Triple
          (Before l money row pid at)
          (record_mismatch row reason o)
          (λ _ s. s.credit.ledger ≡ l)
  unfolding audit_nobody
  mismatch-Same reason o = Triple-modify {Q = λ s. s.credit.ledger ≡ l} _ (λ s h. h.0)

  fail_order-Same :
      (o : ℕ) → Triple (Before l money row pid at) (fail_order row o) (λ _ s. s.credit.ledger ≡ l)
  unfolding fail_order
  fail_order-Same o =
      Triple-bind _ _ _ (mismatch-Same wrong_amount (some o))
        λ _. Triple-modify {Q = λ s. s.credit.ledger ≡ l} _ (λ s h. h)

  -- the site's money is read first
  with_money :
      {A : Type 0} {Q : A → MarketDb → Type 0} (m : Money → Market A)
      → Triple (Before l money row pid at) (m money) Q
      → Triple (Before l money row pid at) (gets (λ s. s.config.money) >>= m) Q
  with_money {A} {Q} m k =
      Triple-bind (λ c s. (money ≡ c) × Before l money row pid at s) _ _
        (Triple-weaken (λ s h. h) (λ c s h. (sym (h.1 ∙ h.0.1.0), h.0))
          (Triple-gets (λ s. s.config.money)))
        λ c. Triple-given λ same. subst (λ d. Triple (Before l money row pid at) (m d) Q) same k

  -- the test of the amount, and what is done with an order that was created
  paid_or_failed :
      {A : Type 0} (amount : Option Amount) (f : Credited → A) (refusal : A) (is : A → Bool)
      → row.status ≡ is_created
      → ((out : Credited) → is (f out) ≡ is_credited l money row pid at out)
      → is refusal ≡ false
      → Triple
          (Before l money row pid at)
          (if not (amount_matches money amount (credit_topup_amount money row.pack_cents))
            then fail_order row pid >> pure refusal
            else credit_topup v row pid at >>= λ out. pure (f out))
          (λ r. After l money row pid at amount (is r))
  paid_or_failed amount f refusal is created same refused =
      Triple-if _ _ _
        (λ h. Triple-bind _ _ _ (fail_order-Same pid) λ _.
          Triple-pure _ (λ s k. subst (λ b. After l money row pid at amount b s) (sym refused) k))
        (λ h.
          Triple-bind _ _ _ (credit_topup-After l money row pid at v amount (created, not-not _ h))
            λ out.
              Triple-pure _
                (λ s k. subst (λ b. After l money row pid at amount b s) (sym (same out)) k))

  capture_created-After :
      (event : CaptureEvent)
      → row.status ≡ is_created
      → Triple
          (Before l money row pid at)
          (capture_created v event row pid at)
          (λ r. After l money row pid at event.amount (capture_credited r))
  unfolding capture_created
  capture_created-After event created =
      with_money _ (paid_or_failed event.amount settled wrong capture_credited created by_out refl)
    where
      by_out :
          (out : Credited) → capture_credited (settled out) ≡ is_credited l money row pid at out
      by_out credited = refl
      by_out already_credited = refl

  capture_by_status-After :
      (event : CaptureEvent) (st : CreditOrderStatus)
      → row.status ≡ st
      → Triple
          (Before l money row pid at)
          (capture_by_status v event row pid at st)
          (λ r. After l money row pid at event.amount (capture_credited r))
  unfolding capture_by_status
  capture_by_status-After event is_created e = capture_created-After event e
  capture_by_status-After event is_captured e = Triple-pure _ (λ s h. h.0)
  capture_by_status-After event is_failed e = Triple-pure _ (λ s h. h.0)

  capture_for-After :
      (event : CaptureEvent)
      → row.provider_order_id ≡ some pid
      → Triple
          (Before l money row pid at)
          (capture_for v event at row)
          (λ r. After l money row pid at event.amount (capture_credited r))
  unfolding capture_for on_option
  capture_for-After event e =
      subst
        (λ o.
          Triple (Before l money row pid at)
            (on_option o (pure unknown) λ provider_id.
              if names_other event.order_id provider_id
              then record_mismatch row order_mismatch event.order_id >> pure mismatched
              else capture_by_status v event row provider_id at row.status)
            (λ r. After l money row pid at event.amount (capture_credited r)))
        (sym e)
        (Triple-if (names_other event.order_id pid)
          (record_mismatch row order_mismatch event.order_id >> pure mismatched) _
          (λ h.
            Triple-bind _ _ _ (mismatch-Same order_mismatch event.order_id)
              λ _. Triple-pure mismatched (λ s k. k))
          (λ h. capture_by_status-After event row.status refl))

  settle_captured-After :
      (c : Option CapturedOrder)
      → row.status ≡ is_created
      → Triple
          (Before l money row pid at)
          (settle_captured v row pid at c)
          (λ r. After l money row pid at (amount_of c) (settle_credited r))
  unfolding settle_captured
  settle_captured-After none created = Triple-pure _ (λ s h. h.0)
  settle_captured-After (some c) created = with_money _ (
      Triple-if (not (is_none c.other_status)) (pure (not_completed (by_paypal c.other_status) row))
        _ (λ h. Triple-pure (not_completed (by_paypal c.other_status) row) (λ s k. k.0))
        (λ h.
          paid_or_failed c.amount (λ out. settled_by_return out row)
            (not_completed amount_mismatch row) settle_credited created by_out refl))
    where
      by_out :
          (out : Credited)
          → settle_credited (settled_by_return out row) ≡ is_credited l money row pid at out
      by_out credited = refl
      by_out already_credited = refl

  ask-Asked :
      (client : OrdersClient) (calls : List OrderCall)
      → Triple
          (λ s. (s.order_calls ≡ calls) × Before l money row pid at s)
          (ask (OrderCall.capture_order pid) client.capture)
          (λ c s.
            (client.capture (OrderCall.capture_order pid ∷ calls) ≡ c)
            × Before l money row pid at s)
  unfolding ask gets modify ◌>>=◌
  ask-Asked client calls = record {
    at = λ s h. (ap (λ cs. client.capture (OrderCall.capture_order pid ∷ cs)) (sym h.0), h.1);
  }

  settle_by_status-After :
      (client : OrdersClient) (calls : List OrderCall) (st : CreditOrderStatus)
      → row.status ≡ st
      → Triple
          (λ s. (s.order_calls ≡ calls) × Before l money row pid at s)
          (settle_by_status client v pid at row st)
          (λ r.
            After l money row pid at
              (amount_of (client.capture (OrderCall.capture_order pid ∷ calls)))
              (settle_credited r))
  unfolding settle_by_status
  settle_by_status-After client calls is_captured e = Triple-pure _ (λ s h. h.1.0)
  settle_by_status-After client calls is_failed e = Triple-pure _ (λ s h. h.1.0)
  settle_by_status-After client calls is_created e =
      Triple-bind
        (λ c s.
          (client.capture (OrderCall.capture_order pid ∷ calls) ≡ c) × Before l money row pid at s)
        _ _ (ask-Asked client calls)
        λ c. Triple-given λ same.
          subst
            (λ d.
              Triple (Before l money row pid at) (settle_captured v row pid at c)
                (λ r. After l money row pid at (amount_of d) (settle_credited r)))
            (sym same) (settle_captured-After c e)

  pub by_event-After :
      (event : CaptureEvent)
      → row.provider_order_id ≡ some pid
      → Triple
          (Before l money row pid at)
          (attempt (by_event v event) row.id pid at)
          (λ b. After l money row pid at event.amount b)
  unfolding attempt apply_topup_capture assert_admin on_option
  by_event-After event e =
      Triple-bind (λ r. After l money row pid at event.amount (capture_credited r)) _ _
        (Triple-bind _ _ _ (Keeps-require (is_admin v)) λ _.
          Triple-bind (λ found s. (some row ≡ found) × Before l money row pid at s) _ _
            (Triple-weaken (λ s h. h) (λ o s h. (sym (h.1 ∙ h.0.1.1.0), h.0))
              (Triple-gets (find_order row.id)))
            λ found. Triple-given λ same.
              subst
                (λ o.
                  Triple (Before l money row pid at)
                    (on_option o (pure unknown) (capture_for v event at))
                    (λ r. After l money row pid at event.amount (capture_credited r)))
                same (capture_for-After event e))
        λ r. Triple-pure _ (λ s h. h)

  pub by_return-After :
      (client : OrdersClient) (calls : List OrderCall)
      → Triple
          (λ s. (s.order_calls ≡ calls) × Before l money row pid at s)
          (attempt (by_return v client) row.id pid at)
          (λ b.
            After l money row pid at
              (amount_of (client.capture (OrderCall.capture_order pid ∷ calls)))
              b)
  unfolding attempt settle_topup_order assert_admin on_option
  by_return-After client calls =
      let amount = amount_of (client.capture (OrderCall.capture_order pid ∷ calls)) in
      Triple-bind (λ r. After l money row pid at amount (settle_credited r)) _ _
        (Triple-bind _ _ _ (Keeps-require (is_admin v)) λ _.
          Triple-bind
            (λ found s.
              (some row ≡ found) × ((s.order_calls ≡ calls) × Before l money row pid at s))
            _ _
            (Triple-weaken (λ s h. h) (λ o s h. (sym (h.1 ∙ h.0.1.1.1.1), h.0))
              (Triple-gets (find_provider_order pid)))
            λ found. Triple-given λ same.
              subst
                (λ o.
                  Triple (λ s. (s.order_calls ≡ calls) × Before l money row pid at s)
                    (on_option o (pure unknown_order)
                      λ r. settle_by_status client v pid at r r.status)
                    (λ r. After l money row pid at amount (settle_credited r)))
                same (settle_by_status-After client calls row.status refl))
        λ r. Triple-pure _ (λ s h. h)

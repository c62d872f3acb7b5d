-- ===== src/Topup/Once.antt =====
-- A top-up is credited exactly and once, by whichever half arrives first.
use directory_platform.Common.{
  ℕ, ◌≡◌, refl, ap, Bool, true, false, Option, none, some, option_eq, ==→eq, find?_passes,
}
use directory_platform.Leads.Rows.{is_created, is_captured, CreditOrder, MarketDb}
use directory_platform.Leads.Tx.{ok}
use directory_platform.Leads.Triple.{returned}
use directory_platform.Topup.{is_provider_id}
use directory_platform.Topup.Settle.{captured_row, find_order, find_provider_order}
use directory_platform.Topup.Exact.{After}
use directory_platform.Topup.Halves.{
  Half, by_event, by_return, attempt, paid_amount, by_event-After, by_return-After,
}

option_eq-some : (o : Option ℕ) (n : ℕ) → option_eq o (some n) ≡ true → o ≡ some n
option_eq-some none n h = cc
option_eq-some (some m) n h = ap some (==→eq m n h)

-- The answer of one half, when both look-ups find the row and the half returns: either it says that
-- the top-up was credited now, and then the order was not captured before, PayPal reported the
-- pack's amount in the site's currency as paid, and the one new row of the ledger gives the order's
-- account the pack; or it does not, and the ledger is what it was.
pub attempt_exact :
    (half : Half) (pid at : ℕ) (s s' : MarketDb) (row : CreditOrder) (credits : Bool)
    → find_order row.id s ≡ some row
    → find_provider_order pid s ≡ some row
    → attempt half row.id pid at s ≡ ok credits s'
    → After s.credit.ledger s.config.money row pid at (paid_amount half pid s) credits s'
attempt_exact half pid at s s' row credits by_id by_provider run =
    by_half half
      (option_eq-some row.provider_order_id pid
        (find?_passes (is_provider_id pid) s.credit_orders row by_provider))
      run
  where
    by_half :
        (h : Half)
        → row.provider_order_id ≡ some pid
        → attempt h row.id pid at s ≡ ok credits s'
        → After s.credit.ledger s.config.money row pid at (paid_amount h pid s) credits s'
    by_half (by_event v event) e r = returned _ r (
        (by_event-After s.credit.ledger s.config.money row pid at v event e).at s
          (refl, (refl, (by_id, by_provider))))
    by_half (by_return v client) e r = returned _ r (
        (by_return-After s.credit.ledger s.config.money row pid at v client s.order_calls).at s
          (refl, (refl, (refl, (by_id, by_provider)))))

captured_not_created : ¬ (is_captured ≡ is_created)
captured_not_created e = cc

-- Once a half has credited the top-up, no half that returns credits it again or changes the ledger,
-- whichever the two halves are and whatever the second one says was paid.
pub attempt_once :
    (first second : Half) (pid at later : ℕ) (s s₁ s₂ : MarketDb) (row : CreditOrder)
    (credits : Bool)
    → find_order row.id s ≡ some row
    → find_provider_order pid s ≡ some row
    → attempt first row.id pid at s ≡ ok true s₁
    → attempt second row.id pid later s₁ ≡ ok credits s₂
    → (credits ≡ false) × (s₂.credit.ledger ≡ s₁.credit.ledger)
attempt_once first second pid at later s s₁ s₂ row credits by_id by_provider run again =
    let (paid, (entered, known)) = attempt_exact first pid at s s₁ row true by_id by_provider run in
    refused credits
      (attempt_exact second pid later s₁ s₂ (captured_row at row) credits known.1.0 known.1.1 again)
  where
    refused :
        (b : Bool)
        → After s₁.credit.ledger s₁.config.money
            (captured_row at row)
            pid
            later
            (paid_amount second pid s₁)
            b
            s₂
        → (b ≡ false) × (s₂.credit.ledger ≡ s₁.credit.ledger)
    refused true k = elim (captured_not_created k.0.0) [ ]
    refused false k = (refl, k)

-- ===== src/Topup/Exact.antt =====
-- What one half of a top-up does to the ledger and to the order's row.
use directory_platform.Common.{
  ℕ, ◌≡◌, refl, ap, ◌∙◌, Bool, true, false, not, Option, none, some, List, [], ◌∷◌, ◌==◌, ==_self,
  if◌then◌else◌, find?, update,
}
use directory_platform.Store.Rows.{Viewer}
use directory_platform.Store.Tx.{is_admin}
use directory_platform.Credits.{
  CreditDb, LedgerRow, EntryInput, row_of, CreditResult, order_taken, forbidden,
}
use directory_platform.Credits.Operations.{post_ledger}
use directory_platform.Credits.Balance
use directory_platform.Credits.Balance.{SameLedger, Ends-ok, Ends-err, Ends-if, Ends-after}
use directory_platform.Credits.Entries.{Adds, insert_entry-Adds}
use directory_platform.Leads.Rows.{is_created, CreditOrder, Amount, Money, MarketDb}
use directory_platform.Leads.Tx.{lifted, on_credit, enqueue_job}
use directory_platform.Leads.Triple.{Ends, Triple, Triple-pure, Triple-bind, Triple-modify}
use directory_platform.Topup.{credit_topup_amount, amount_matches, set_order_row, is_provider_id}
use directory_platform.Topup.Settle.{
  topup_entry, captured_row, audit_nobody, Credited, credited, already_credited, announce,
  credit_topup, find_order, find_provider_order,
}

-- What posting an entry does: nothing, or one more row.
abbrev Posts : EntryInput → CreditDb → Option ℕ → CreditDb → Type 0
Posts e s none s' = SameLedger s s'
Posts e s (some id) s' = Adds (row_of e id) s s'

post_ledger-Posts :
    (v : Viewer) (e : EntryInput) (s : CreditDb) → Balance.Ends (Posts e s) (post_ledger v e s)
unfolding post_ledger
post_ledger-Posts v e s =
    Ends-if (not (is_admin v)) (CreditResult.err forbidden) _ (λ _. Ends-err _)
      λ _.
        Ends-if (order_taken e s) (CreditResult.ok none s) _ (λ _. Ends-ok _ _ refl)
          λ _. Ends-after _ _ _ (insert_entry-Adds e s) λ id s' h. Ends-ok _ _ h

module _ {A : Type 0} (p q : A → Bool) (f : A → A) where
  -- The row that is found, when it is the one that is updated.
  pub find_update :
      (xs : List A) (x : A)
      → ((y : A) → q (f y) ≡ q y)
      → find? q xs ≡ some x
      → p x ≡ true
      → find? q (update p f xs) ≡ some (f x)
  find_update [] x same e h = cc
  find_update (y ∷ ys) x same e h = by_tests (q y) refl (p y) refl (find_update ys x same) e
    where
      by_tests :
          (b : Bool)
          → q y ≡ b
          → (c : Bool) → p y ≡ c
          → (find? q ys ≡ some x → p x ≡ true → find? q (update p f ys) ≡ some (f x))
          → (if b then some y else find? q ys) ≡ some x
          → find? q ((if c then f y else y) ∷ update p f ys) ≡ some (f x)
      by_tests true hb true hc ih e' =
          let k : y ≡ x = cc in rw (same y, hb) (ap (λ z. some (f z)) k)
      by_tests true hb false hc ih e' = let k : y ≡ x = cc in cc
      by_tests false hb true hc ih e' = rw (same y, hb) (ih e' h)
      by_tests false hb false hc ih e' = rw hb (ih e' h)

-- A half of a top-up, on the row that both look-ups find: PayPal's order `pid`, our row `row`.
module _ (l : List LedgerRow) (money : Money) (row : CreditOrder) (pid at : ℕ) where
  -- the site's currency, and what both look-ups find
  abbrev pub Known : CreditOrder → MarketDb → Type 0
  Known found s =
      (s.config.money ≡ money)
      × ((find_order row.id s ≡ some found) × (find_provider_order pid s ≡ some found))

  abbrev pub Before : MarketDb → Type 0
  Before s = (s.credit.ledger ≡ l) × Known row s

  -- The order was not captured before, and the amount that was paid is the pack's.
  abbrev pub IsPaid : Option Amount → Type 0
  IsPaid amount =
      (row.status ≡ is_created)
      × (amount_matches money amount (credit_topup_amount money row.pack_cents) ≡ true)

  -- The one new row of the ledger is the top-up's.
  abbrev pub IsEntered : MarketDb → Type 0
  IsEntered s = (entry : ℕ) × (s.credit.ledger ≡ row_of (topup_entry row pid) entry ∷ l)

  abbrev pub After : Option Amount → Bool → MarketDb → Type 0
  After amount true s = IsPaid amount × (IsEntered s × Known (captured_row at row) s)
  After amount false s = s.credit.ledger ≡ l

  abbrev Posted : Option ℕ → List LedgerRow → Type 0
  Posted none ledger = ledger ≡ l
  Posted (some entry) ledger = ledger ≡ row_of (topup_entry row pid) entry ∷ l

  posted_now :
      (s : MarketDb) (r : CreditResult (Option ℕ))
      → Balance.Ends (Posts (topup_entry row pid) s.credit) r
      → Before s
      → Ends (λ entry t. Posted entry t.credit.ledger × Known row t) (lifted s r)
  posted_now s (CreditResult.ok none c) k h = (k.holds ∙ h.0, h.1)
  posted_now s (CreditResult.ok (some entry) c) k h =
      (k.holds ∙ ap (◌∷◌ (row_of (topup_entry row pid) entry)) h.0, h.1)
  posted_now s (CreditResult.err e) k h = tt

  captured_now :
      (s : MarketDb)
      → Known row s
      → Known (captured_row at row) (set_order_row row.id (captured_row at) s)
  captured_now s h =
      let f = captured_row at in
      (
        h.0,
        (
          find_update (λ o. o.id == row.id) (λ o. o.id == row.id) f s.credit_orders row (λ o. refl)
              h.1.0 (==_self row.id),
          find_update (λ o. o.id == row.id) (is_provider_id pid) f s.credit_orders row (λ o. refl)
              h.1.1 (==_self row.id),
        ),
      )

  abbrev pub is_credited : Credited → Bool
  is_credited credited = true
  is_credited already_credited = false

  announce-After :
      (amount : Option Amount) (entry : Option ℕ)
      → IsPaid amount
      → Triple
          (λ s. Posted entry s.credit.ledger × Known (captured_row at row) s)
          (announce row pid entry)
          (λ out. After amount (is_credited out))
  unfolding announce audit_nobody enqueue_job
  announce-After amount none paid = Triple-pure _ (λ s h. h.0)
  announce-After amount (some entry) paid =
      Triple-bind (λ _ s. IsEntered s × Known (captured_row at row) s) _ _
        (Triple-modify {Q = λ s. IsEntered s × Known (captured_row at row) s} _
          λ s h. ((entry, h.0), h.1))
        λ _.
          Triple-bind (λ _ s. IsEntered s × Known (captured_row at row) s) _ _
            (Triple-modify {Q = λ s. IsEntered s × Known (captured_row at row) s} _
              λ s h. (h.0, h.1))
            λ _. Triple-pure _ (λ s h. (paid, h))

  pub credit_topup-After :
      (v : Viewer) (amount : Option Amount)
      → IsPaid amount
      → Triple Before (credit_topup v row pid at) (λ out. After amount (is_credited out))
  unfolding credit_topup on_credit
  credit_topup-After v amount paid =
      Triple-bind (λ entry s. Posted entry s.credit.ledger × Known row s) _ _
        (record {
          at = λ s h. posted_now s _ (post_ledger-Posts v (topup_entry row pid) s.credit) h;
        })
        λ entry.
          Triple-bind (λ _ s. Posted entry s.credit.ledger × Known (captured_row at row) s) _ _
            (Triple-modify {Q = λ s. Posted entry s.credit.ledger × Known (captured_row at row) s}
              (set_order_row row.id (captured_row at)) λ s h. (h.0, captured_now s h.1))
            λ _. announce-After amount entry paid

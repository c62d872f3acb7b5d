-- ===== src/Leads/Payer.antt =====
-- The debit for a lead and its sale to a standing order (lib/leads/allocate.ts).
use directory_platform.Common.{
  ◌+◌, update, Option, some, ℕ, ◌≡◌, refl, ap, Bool, true, false, not, ◌∷◌, ◌==◌, if◌then◌else◌,
  pos, ◌+ℤ◌, neg, is_not_positive, ltb_ℤ,
}
use directory_platform.Store.Rows.{Viewer}
use directory_platform.Credits.{
  EntryInput, credit_balance, after, CreditResult, assert_acts_for, insert_entry, conflict,
  not_positive, insufficient_credit, order_taken, refund_taken, inserted,
}
use directory_platform.Credits.Operations.{Posted, debit_for_purchase, purchase_entry, spend}
use directory_platform.Credits.Entries.{purchase_row}
use directory_platform.Leads.Rows.{LeadRow, is_sold, StandingOrder, MarketDb}
use directory_platform.Leads.Tx.{Debit, paid, short, try_debit, caught, fresh_id}
use directory_platform.Leads.Sale
use directory_platform.Leads.Sale.{sold_row, SaleInput, record_sale, insert_purchase}
use directory_platform.Leads.Allocate.{
  sold_to, AllocationResult, won_order, allocation_viewer, order_sale, sell_to,
}
use directory_platform.Leads.Triple.{
  Ends, Triple, Keeps-gets, Triple-pure, Triple-throw, Triple-bind, Triple-modify, Triple-if,
}
use directory_platform.Leads.Paused.{can_pay, Books, books, BooksBe, entered, same-audit, same-job}

-- The lead is sold to the order's listing, by the purchase `id`, that the row `entry` of the ledger
-- paid for, and the order has won one more.
abbrev pub sold_in : ℕ → LeadRow → StandingOrder → ℕ → ℕ → Option ℕ → Books → Books
sold_in at lead c id entry buyer b = record {
  leads =
      update (λ l. l.id == lead.id)
        (λ l. record l {
          status = is_sold;
          sold_at = some at;
          sold_to_listing_id = some c.listing_id;
          buyer_user_id = buyer;
          updated_at = at;
        })
        b.leads;
  purchases =
      record {
        id = id;
        lead_id = lead.id;
        user_id = c.user_id;
        listing_id = c.listing_id;
        standing_order_id = some c.id;
        price_cents = c.price_cents;
        ledger_id = entry;
        created_at = at;
      }
      ∷ b.purchases;
  orders =
      update (λ o. o.id == c.id) (λ o. record o { won_count = o.won_count + 1; updated_at = at })
        b.orders;
  ledger = b.ledger;
}

-- The lead is marked sold and the purchase entered.
abbrev pub recorded : ℕ → SaleInput → ℕ → Option ℕ → Books → Books
recorded at input id buyer b = record b {
  leads = update (λ l. l.id == input.lead_id) (sold_row input buyer at) b.leads;
  purchases = Sale.purchase_row input id at ∷ b.purchases;
}

insert_purchase-Books :
    (b : Books) (input : SaleInput) (at : ℕ)
    → Triple
        (BooksBe b)
        (insert_purchase input at)
        (λ id. BooksBe (record b { purchases = Sale.purchase_row input id at ∷ b.purchases }))
unfolding insert_purchase fresh_id
insert_purchase-Books b input at =
    Triple-bind (λ _. BooksBe b) _ _ (record { at = λ s h. h })
      λ id.
        Triple-bind (λ _. BooksBe b) _ _ (Keeps-gets _)
          λ taken.
            Triple-if taken _ _ (λ _. Triple-throw _)
              λ _.
                let after : Books = record b {
                  purchases = Sale.purchase_row input id at ∷ b.purchases;
                } in
                Triple-bind (λ _. BooksBe after) _ _
                  (Triple-modify _ (λ s h.
                    ap {B = Books}
                      (λ (x : Books). record x {
                        purchases = Sale.purchase_row input id at ∷ x.purchases;
                      })
                      h))
                  λ _. Triple-pure _ (λ s h. h)

pub record_sale-Books :
    (b : Books) (v : Viewer) (input : SaleInput) (at : ℕ)
    → Triple
        (BooksBe b)
        (record_sale v input at)
        (λ id s. (buyer : Option ℕ) × BooksBe (recorded at input id buyer b) s)
unfolding record_sale
record_sale-Books b v input at =
    Triple-bind (λ _. BooksBe b) _ _ (Keeps-gets _)
      λ buyer. Triple-bind _ _ _ (insert_purchase-Books b input at) λ id.
        let after = recorded at input id buyer b in
        Triple-bind (λ _. BooksBe after) _ _
          (Triple-modify _ (λ s h.
            ap {B = Books}
              (λ (x : Books). record x {
                leads = update (λ l. l.id == input.lead_id) (sold_row input buyer at) x.leads;
              })
              h))
          λ _. Triple-bind _ _ _ (same-audit after v _ _) λ _. Triple-pure id (λ s h. (buyer, h))

-- A sale to an order.
abbrev pub SoldTo : ℕ → LeadRow → StandingOrder → ℕ → Books → AllocationResult → MarketDb → Type 0
SoldTo at lead c entry b r s =
    (id : ℕ) × ((buyer : Option ℕ) × ((r ≡ sold_to id c.id c.user_id)
        × BooksBe (sold_in at lead c id entry buyer b) s))

pub sell_to-SoldTo :
    (b : Books) (v : Viewer) (lead : LeadRow) (c : StandingOrder) (at : ℕ) (p : Posted)
    → Triple (BooksBe b) (sell_to v lead c at p) (SoldTo at lead c p.entry_id b)
unfolding sell_to
sell_to-SoldTo b v lead c at p =
    Triple-bind _ _ _ (record_sale-Books b v (order_sale lead c p) at) λ id. record {
      at = λ s h.
          let after = sold_in at lead c id p.entry_id h.0 b in
          (Triple-bind (λ _. BooksBe after) _ _
              (Triple-modify _ (λ s k.
                ap {B = Books}
                  (λ (x : Books). record x {
                    orders = update (λ o. o.id == c.id) (won_order at) x.orders;
                  })
                  k))
              λ _.
                Triple-bind _ _ _ (same-job after _)
                  λ _. Triple-pure _ (λ s k. (id, (h.0, (refl, k))))).at
            s h.1;
    }

-- A debit by the system: the order could pay and its row is entered, or it could not.
abbrev pub Debited : Books → LeadRow → StandingOrder → Debit → MarketDb → Type 0
Debited b lead c (paid p) s =
    (can_pay b.ledger c ≡ true)
    × BooksBe (entered (purchase_row c.user_id (pos c.price_cents) lead.id p.entry_id) b) s
Debited b lead c (short balance needed) s = (can_pay b.ledger c ≡ false) × BooksBe b s

pub try_debit-Debited :
    (lead : LeadRow) (c : StandingOrder) (s : MarketDb)
    → Ends
        (Debited (books s) lead c)
        (try_debit allocation_viewer c.user_id c.price_cents lead.id s)
unfolding try_debit debit_for_purchase assert_acts_for spend insert_entry
try_debit-Debited lead c s =
    by_tests (is_not_positive (pos c.price_cents))
      (ltb_ℤ (credit_balance s.credit c.user_id) (pos c.price_cents)) (order_taken e s.credit) refl
  where
    e : EntryInput
    e = purchase_entry c.user_id (pos c.price_cents) lead.id

    spent : Bool → CreditResult Posted
    spent taken =
        after
          (if taken
            then CreditResult.err conflict
            else if refund_taken e s.credit
            then CreditResult.err conflict
            else CreditResult.ok (s.credit.uuid s.credit.drawn) (inserted e s.credit))
          λ id s'.
            CreditResult.ok
              (record {
                entry_id = id;
                balance_cents = credit_balance s.credit c.user_id +ℤ neg (pos c.price_cents);
              })
              s'

    by_tests :
        (np low taken : Bool)
        → ltb_ℤ (credit_balance s.credit c.user_id) (pos c.price_cents) ≡ low
        → Ends (Debited (books s) lead c) (
            caught s (
              if np
              then CreditResult.err not_positive
              else if low
              then CreditResult.err
                  (insufficient_credit (credit_balance s.credit c.user_id) (pos c.price_cents))
              else spent taken))
    by_tests true low taken h = tt
    by_tests false true taken h = (ap not h, refl)
    by_tests false false true h = tt
    by_tests false false false h = (ap not h, refl)

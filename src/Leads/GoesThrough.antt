-- ===== src/Leads/GoesThrough.antt =====
-- The debit and the offers of a lead (lib/leads/allocate.ts) when no purchase names the lead: none
-- of these steps throws.
use directory_platform.Common.{
  ℕ, zero, suc, ◌<◌, ◌≡◌, refl, subst, arith, Bool, true, false, none, List, [], ◌∷◌, ◌++◌,
  if◌then◌else◌, any, pos, ltb_ℤ, is_not_positive, All, ◌+ℤ◌, neg,
}
use directory_platform.Store.Rows.{Viewer}
use directory_platform.Credits.{
  LedgerRow, CreditResult, balance_in, credit_balance, assert_acts_for, after, EntryInput,
  order_taken, refund_taken, has_order, insert_entry, inserted, insufficient_credit, conflict,
}
use directory_platform.Credits.Operations.{Posted, debit_for_purchase, purchase_entry, spend}
use directory_platform.Leads.Rows.{LeadRow, LeadPurchase, StandingOrder, MarketDb}
use directory_platform.Leads.Tx.{Market, pure, gets, Debit, paid, short, try_debit, caught}
use directory_platform.Leads.Sale.{
  SaleInput, has_purchase, find_lead, open_status, open_at, open_lead, lock_open_lead,
}
use directory_platform.Leads.Allocate.{
  AllocationResult, allocation_viewer, order_sale, pause_for_credit, sell_to, pause_short, offered,
  offer,
}
use directory_platform.Leads.Consistent.{is_bought}
use directory_platform.Credits.Entries
use directory_platform.Leads.Sale
use directory_platform.Leads.Best.{not_both}
use directory_platform.Leads.Total.{
  Returns, Total, Total-bind, Total-pure, Total-given, Total-modify, BooksAre, total-audit,
  total-job, total-record_sale,
}

no_order : (l : List LedgerRow) → any (has_order none) l ≡ false
no_order [] = refl
no_order (r ∷ rs) = no_order rs

positive : (n : ℕ) → 0 < n → is_not_positive (pos n) ≡ false
positive zero h = elim (absurd h) [ ]
  where
    absurd : ¬ (0 < 0)
    absurd k = omega arith
positive (suc n) h = refl

-- A debit of a positive price by someone who acts for the account returns: it is short exactly if
-- the balance is lower than the price, and otherwise enters the row of the purchase.
abbrev pub DebitIs :
    List LeadPurchase → List LedgerRow → ℕ → ℕ → ℕ → Bool → Debit → MarketDb → Type 0
DebitIs ps l u cents lead_id low (paid p) s =
    (low ≡ false) × BooksAre ps (Entries.purchase_row u (pos cents) lead_id p.entry_id ∷ l) s
DebitIs ps l u cents lead_id low (short balance needed) s =
    ((low ≡ true) × ((balance ≡ balance_in l u) × (needed ≡ pos cents))) × BooksAre ps l s

spend-Returns :
    (u cents lead_id : ℕ) (s : MarketDb)
    → Returns
        (DebitIs s.purchases s.credit.ledger u cents lead_id
          (ltb_ℤ (balance_in s.credit.ledger u) (pos cents)))
        (caught s (spend u (pos cents) lead_id s.credit))
unfolding spend insert_entry
spend-Returns u cents lead_id s =
    by_tests (ltb_ℤ (balance_in s.credit.ledger u) (pos cents)) (order_taken e s.credit)
      (no_order s.credit.ledger)
  where
    e : EntryInput
    e = purchase_entry u (pos cents) lead_id

    by_tests :
        (low taken : Bool)
        → taken ≡ false
        → Returns (DebitIs s.purchases s.credit.ledger u cents lead_id low) (
            caught s (
              if low
              then CreditResult.err (insufficient_credit (credit_balance s.credit u) (pos cents))
              else after
                  (if taken
                    then CreditResult.err conflict
                    else if refund_taken e s.credit
                    then CreditResult.err conflict
                    else CreditResult.ok (s.credit.uuid s.credit.drawn) (inserted e s.credit))
                  λ id s'.
                    CreditResult.ok
                      (record {
                        entry_id = id;
                        balance_cents = credit_balance s.credit u +ℤ neg (pos cents);
                      })
                      s'))
    by_tests true taken h = ((refl, (refl, refl)), (refl, refl))
    by_tests false true h = elim (not_both true refl h) [ ]
    by_tests false false h = (refl, (refl, refl))

debit_now :
    (v : Viewer) (u cents lead_id : ℕ) (s : MarketDb)
    → assert_acts_for v u s.credit ≡ CreditResult.ok tt s.credit
    → 0 < cents
    → Returns
        (DebitIs s.purchases s.credit.ledger u cents lead_id
          (ltb_ℤ (balance_in s.credit.ledger u) (pos cents)))
        (try_debit v u cents lead_id s)
unfolding try_debit debit_for_purchase
debit_now v u cents lead_id s acts some_price =
    rw (acts, positive cents some_price) (spend-Returns u cents lead_id s)

-- The state acts as given, and its books are these.
pub total-debit :
    (ps : List LeadPurchase) (l : List LedgerRow) (v : Viewer) (u cents lead_id : ℕ)
    → 0 < cents
    → Total
        (λ s. (assert_acts_for v u s.credit ≡ CreditResult.ok tt s.credit) × BooksAre ps l s)
        (try_debit v u cents lead_id)
        (DebitIs ps l u cents lead_id (ltb_ℤ (balance_in l u) (pos cents)))
total-debit ps l v u cents lead_id some_price = record {
  at = λ s h.
      subst
        (λ ps'.
          Returns (DebitIs ps' l u cents lead_id (ltb_ℤ (balance_in l u) (pos cents)))
            (try_debit v u cents lead_id s))
        h.1.0
        (subst
          (λ l'.
            Returns (DebitIs s.purchases l' u cents lead_id (ltb_ℤ (balance_in l' u) (pos cents)))
              (try_debit v u cents lead_id s))
          h.1.1 (debit_now v u cents lead_id s h.0 some_price));
}

module _ (ps : List LeadPurchase) (v : Viewer) (lead : LeadRow) (at : ℕ) where
  total-pause :
      (l : List LedgerRow) (id : ℕ)
      → Total (BooksAre ps l) (pause_for_credit v id at) (λ _. BooksAre ps l)
  unfolding pause_for_credit
  total-pause l id =
      Total-bind _ _ _ (Total-modify ps l _ (λ s. (refl, refl)))
        λ _. Total-bind _ _ _ (total-audit ps l v _ _) λ _. total-job ps l _

  total-pause_short :
      (l : List LedgerRow) (cs : List StandingOrder)
      → Total (BooksAre ps l) (pause_short v at cs) (λ _. BooksAre ps l)
  unfolding pause_short gets
  total-pause_short l [] = Total-pure _ (λ s h. h)
  total-pause_short l (c ∷ cs) =
      Total-bind (λ _. BooksAre ps l) _ _ (record { at = λ s h. h })
        λ balance.
          Total-bind _ _ _ (by_balance (ltb_ℤ balance (pos c.price_cents)))
            λ _. total-pause_short l cs
    where
      by_balance :
          (b : Bool)
          → Total
              (BooksAre ps l)
              (if b then pause_for_credit v c.id at else pure tt)
              (λ _. BooksAre ps l)
      by_balance true = total-pause l c.id
      by_balance false = Total-pure _ (λ s h. h)

module _ (ps : List LeadPurchase) (l : List LedgerRow) (v : Viewer) (lead : LeadRow) (at : ℕ)
    (free : is_bought lead.id ps ≡ false) where
  total-sold :
      (done : List ℕ) (c : StandingOrder) (cs : List StandingOrder) (rest : Market AllocationResult)
      (l' : List LedgerRow) (p : Posted)
      → Total
          (BooksAre ps l')
          (offered v lead at c (pause_short v at cs) rest (paid p))
          (λ _ _. Unit)
  unfolding offered sell_to
  total-sold done c cs rest l' p =
      Total-bind (λ _ s. (qs : List LeadPurchase) × BooksAre qs l' s) _ _
        (Total-bind _ _ _ (total-record_sale ps l' v (order_sale lead c p) at free) λ id.
          let qs = Sale.purchase_row (order_sale lead c p) id at ∷ ps in
          Total-bind _ _ _ (Total-modify qs l' _ (λ s. (refl, refl)))
            λ _. Total-bind _ _ _ (total-job qs l' _) λ _. Total-pure _ (λ s h. (qs, h)))
        λ won. record {
          at = λ s h.
              (Total-bind _ _ _ (total-pause_short h.0 v lead at l' cs)
                  λ _. Total-pure won (λ s k. tt)).at
                s h.1;
        }

  pub total-offer :
      (done : List ℕ) (cs : List StandingOrder)
      → All (λ c. 0 < c.price_cents) cs
      → Total (BooksAre ps l) (offer v lead at done cs) (λ _ _. Unit)
  unfolding offer offered assert_acts_for
  total-offer done [] h = Total-pure _ (λ s k. tt)
  total-offer done (c ∷ cs) h =
      Total-bind _ _ _
        (record {
          at = λ s k.
              (total-debit ps l allocation_viewer c.user_id c.price_cents lead.id h.0).at s
                (refl, k);
        })
        (by_debit (total-offer (done ++ c.id ∷ []) cs h.1))
    where
      by_debit :
          Total (BooksAre ps l) (offer v lead at (done ++ c.id ∷ []) cs) (λ _ _. Unit)
          → (d : Debit)
          → Total
              (DebitIs ps l c.user_id c.price_cents lead.id
                (ltb_ℤ (balance_in l c.user_id) (pos c.price_cents))
                d)
              (offered v lead at c (pause_short v at cs) (offer v lead at (done ++ c.id ∷ []) cs) d)
              (λ _ _. Unit)
      by_debit ih (paid p) = Total-given λ k.
          total-sold done c cs (offer v lead at (done ++ c.id ∷ []) cs)
            (Entries.purchase_row c.user_id (pos c.price_cents) lead.id p.entry_id ∷ l) p
      by_debit ih (short balance needed) =
          Total-given λ k. Total-bind _ _ _ (total-pause ps v lead at l c.id) λ _. ih

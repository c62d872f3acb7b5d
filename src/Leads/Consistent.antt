-- ===== src/Leads/Consistent.antt =====
-- What always holds of the lead market: the invariant, and that a sale keeps it.
use directory_platform.Common.{
  ℕ, ◌≤◌, ◌≡◌, ◌≢◌, ◌⊎◌, inl, inr, refl, sym, ◌∙◌, arith, Bool, true, false, Option, some, List, [],
  ◌∷◌, ◌||◌, subst, ◌==◌, any, pos, All, All-mono, All-update_to, Pairwise,
}
use directory_platform.Store.Rows.{Viewer}
use directory_platform.Credits.{LedgerRow, lead_refund, same_ref}
use directory_platform.Credits.Entries.{purchase_row}
use directory_platform.Leads.{max_standing_orders_per_listing}
use directory_platform.Leads.Rows.{
  LeadRow, LeadPurchase, RefundStatus, is_pending, is_approved, is_rejected, LeadRefund,
  StandingOrder, BlockRow, MarketDb,
}
use directory_platform.Leads.Tx.{fresh_id}
use directory_platform.Leads.Sale
use directory_platform.Leads.Sale.{SaleInput, has_purchase, insert_purchase, mark_sold, record_sale}
use directory_platform.Leads.Orders.{count_orders}
use directory_platform.Leads.Refunds.{sold_status}
use directory_platform.Leads.Triple.{
  Triple, Keeps-gets, Triple-gets, Triple-pure, Triple-throw, Triple-if, Triple-bind, Triple-modify,
}
use directory_platform.Leads.Frame.{Holds, Grown, frame-write_audit}

abbrev pub is_bought : ℕ → List LeadPurchase → Bool
is_bought lead_id ps = any (λ (p : LeadPurchase). p.lead_id == lead_id) ps

-- A lead that is not sold has no purchase.
abbrev pub SoldIfBought : List LeadPurchase → LeadRow → Type 0
SoldIfBought ps l = sold_status l.status ≡ false → is_bought l.id ps ≡ false

-- The ledger has the purchase's own row: its account, its price and its lead.
abbrev pub Paid : List LedgerRow → LeadPurchase → Type 0
Paid [] p = ⊥
Paid (r ∷ rs) p = (r ≡ purchase_row p.user_id (pos p.price_cents) p.lead_id p.ledger_id) ⊎ Paid rs p

abbrev pub approved_refund : RefundStatus → Bool
approved_refund is_approved = true
approved_refund is_pending = false
approved_refund is_rejected = false

-- An approved report has its row in the ledger.
abbrev pub Refunded : List LedgerRow → LeadRefund → Type 0
Refunded ledger r =
    approved_refund r.status ≡ true
    → any (λ (e : LedgerRow). same_ref e.ref (some (lead_refund r.id))) ledger ≡ true

abbrev pub OtherLead : LeadPurchase → LeadPurchase → Type 0
OtherLead p q = p.lead_id ≢ q.lead_id

pub record IsConsistent (leads : List LeadRow) (purchases : List LeadPurchase)
    (ledger : List LedgerRow) (refunds : List LeadRefund) (orders : List StandingOrder)
    (blocklist : List BlockRow) : Type 0 where
  pub once : Pairwise OtherLead purchases
  pub sold : All (SoldIfBought purchases) leads
  pub paid : All (Paid ledger) purchases
  pub refunded : All (Refunded ledger) refunds
  pub limited : (l : ℕ) → count_orders l orders ≤ max_standing_orders_per_listing

pub or_right : (a b : Bool) → b ≡ true → (a || b) ≡ true
or_right a b e = ground arith

pub grown : Grown IsConsistent
grown r s h = record {
  once = h.once;
  sold = h.sold;
  paid =
      All-mono (Paid s.credit.ledger) (Paid (r ∷ s.credit.ledger)) (λ p k. inr k) s.purchases
        h.paid;
  refunded =
      All-mono (Refunded s.credit.ledger) (Refunded (r ∷ s.credit.ledger))
        (λ x k a. or_right _ _ (k a)) s.refunds h.refunded;
  limited = h.limited;
}

module _ (input : SaleInput) where
  abbrev pub Charged : MarketDb → Type 0
  Charged s =
      (rest : List LedgerRow) × (s.credit.ledger
        ≡ purchase_row input.profile_id (pos input.price_cents) input.lead_id input.ledger_id
          ∷ rest)

  abbrev pub Before : MarketDb → Type 0
  Before s = Holds IsConsistent s × Charged s

  -- between the two statements the lead's own row is behind
  record HasNewPurchase (s : MarketDb) : Type 0 where
    once : Pairwise OtherLead s.purchases
    sold :
        All (λ (l : LeadRow). (l.id == input.lead_id) ≡ false → SoldIfBought s.purchases l) s.leads
    paid : All (Paid s.credit.ledger) s.purchases
    refunded : All (Refunded s.credit.ledger) s.refunds
    limited : (l : ℕ) → count_orders l s.orders ≤ max_standing_orders_per_listing

  unbought-others :
      (ps : List LeadPurchase)
      → is_bought input.lead_id ps ≡ false
      → All (λ (q : LeadPurchase). input.lead_id ≢ q.lead_id) ps
  unbought-others [] h = tt
  unbought-others (p ∷ ps) h = (λ e. absurd (ground arith), unbought-others ps (ground arith))

  other_id :
      (a : ℕ) (b : Bool)
      → (a == input.lead_id) ≡ false
      → b ≡ false
      → (input.lead_id == a || b) ≡ false
  other_id a b n h = ground arith

  own_row :
      (id at : ℕ) (s : MarketDb) → Charged s → Paid s.credit.ledger (Sale.purchase_row input id at)
  own_row id at s (rest, e) = subst (λ l. Paid l (Sale.purchase_row input id at)) (sym e) (inl refl)

  inserted :
      (id at : ℕ) (s : MarketDb)
      → Before s
      → is_bought input.lead_id s.purchases ≡ false
      → HasNewPurchase (record s { purchases = Sale.purchase_row input id at ∷ s.purchases })
  inserted id at s (h, charged) free = record {
    once = (unbought-others s.purchases free, h.once);
    sold =
        All-mono (SoldIfBought s.purchases) _ (λ l k n m. other_id l.id _ n (k m)) s.leads h.sold;
    paid = (own_row id at s charged, h.paid);
    refunded = h.refunded;
    limited = h.limited;
  }

  marked :
      (buyer : Option ℕ) (at : ℕ) (s : MarketDb)
      → HasNewPurchase s
      → Holds IsConsistent (mark_sold input buyer at s)
  marked buyer at s h = record {
    once = h.once;
    sold =
        All-update_to _ _ (λ l. l.id == input.lead_id) _ s.leads (λ l e k n. cc) (λ l e k n. k e n)
          h.sold;
    paid = h.paid;
    refunded = h.refunded;
    limited = h.limited;
  }

  insert_purchase-HasNewPurchase :
      (at : ℕ) → Triple Before (insert_purchase input at) (λ _. HasNewPurchase)
  unfolding insert_purchase fresh_id
  insert_purchase-HasNewPurchase at =
      Triple-bind (λ _. Before) _ _ drawn
        λ id. Triple-bind _ _ _ (Triple-gets _) λ taken.
          Triple-if taken _ _ (λ e. Triple-throw _)
            λ e.
              Triple-bind (λ _. HasNewPurchase) _ _
                (Triple-modify _ λ s h. inserted id at s h.0 (sym h.1 ∙ e))
                λ _. Triple-pure _ (λ s h. h)
    where
      drawn : Triple Before fresh_id (λ _. Before)
      drawn = record { at = λ s h. h }

  -- A sale whose debit is in the ledger.
  pub record_sale-IsConsistent :
      (v : Viewer) (at : ℕ) → Triple Before (record_sale v input at) (λ _. Holds IsConsistent)
  unfolding record_sale
  record_sale-IsConsistent v at = Triple-bind _ _ _ (Keeps-gets _) λ buyer.
      Triple-bind _ _ _ (insert_purchase-HasNewPurchase at) λ id.
        Triple-bind (λ _. Holds IsConsistent) _ _ (Triple-modify _ (λ s h. marked buyer at s h))
          λ _.
            Triple-bind (λ _. Holds IsConsistent) _ _ (frame-write_audit IsConsistent grown v _ _)
              λ _. Triple-pure _ (λ s h. h)

-- ===== src/Leads/Bought.antt =====
-- The rows that a purchase off the board leaves (lib/db/queries/lead-market.ts).
use directory_platform.Common.{
  ℕ, ◌≡◌, refl, ap, ◌∙◌, List, Option, none, some, update, ◌==◌, ◌<◌, arith, pos, ◌∷◌, Bool, true,
  false,
}
use directory_platform.Store.Rows.{Viewer}
use directory_platform.Leads.Rows.{LeadRow, StandingOrder, MarketDb, is_sold}
use directory_platform.Leads.Tx.{Debit, paid, short, try_debit}
use directory_platform.Leads.Sale.{
  SaleInput, BuyResult, bought, insufficient, gone, not_your_listing, board_sale, record_sale,
  sold_row, sell_or_refuse, buy_open,
}
use directory_platform.Leads.Triple.{Triple, Triple-pure, Triple-bind, Triple-weaken, Keeps}
use directory_platform.Leads.Frame.{Tables, try_debit-Entered, frame-enqueue_job}
use directory_platform.Leads.Paused.{Books, books}
use directory_platform.Leads.Payer.{record_sale-Books}
use directory_platform.Credits.{balance_in}
use directory_platform.Credits.Operations.{Posted}
use directory_platform.Leads.{current_price_cents}
use directory_platform.Leads.Consistent.{is_bought}
use directory_platform.Leads.Best.{not_both}
use directory_platform.Leads.Total.{
  Total, Total-bind, Total-pure, Total-given, BooksAre, total-job, total-record_sale,
}
use directory_platform.Leads.GoesThrough.{DebitIs}
use directory_platform.Credits.Entries
use directory_platform.Leads.Sale

-- What a purchase off the board does, by whether the balance is lower than the price: it is refused
-- with both amounts and enters nothing, or it enters one purchase and one row of the ledger.
abbrev pub BuyIs : MarketDb → LeadRow → ℕ → ℕ → ℕ → ℕ → Bool → BuyResult → MarketDb → Type 0
BuyIs s lead profile_id listing_id price at true r s' =
    (r ≡ insufficient (balance_in s.credit.ledger profile_id) (pos price))
    × BooksAre s.purchases s.credit.ledger s'
BuyIs s lead profile_id listing_id price at false r s' =
    (p : Posted) × ((id : ℕ) × ((r ≡ bought id)
        × BooksAre
            (record {
              id = id;
              lead_id = lead.id;
              user_id = profile_id;
              listing_id = listing_id;
              standing_order_id = none;
              price_cents = price;
              ledger_id = p.entry_id;
              created_at = at;
            }
              ∷ s.purchases)
            (Entries.purchase_row profile_id (pos price) lead.id p.entry_id ∷ s.credit.ledger) s'))

pub half_positive :
    (price half_price_at at : ℕ) → 0 < price → 0 < current_price_cents price half_price_at at
unfolding current_price_cents
half_positive price half_price_at at h = ground arith

module _ (s : MarketDb) (v : Viewer) (lead : LeadRow) (profile_id listing_id at : ℕ) where
  pub buy_open-BuyIs :
      (price : ℕ)
      → is_bought lead.id s.purchases ≡ false
      → (d : Debit) → (low : Bool)
      → Total
          (DebitIs s.purchases s.credit.ledger profile_id price lead.id low d)
          (sell_or_refuse v lead profile_id listing_id price at d)
          (BuyIs s lead profile_id listing_id price at low)
  unfolding sell_or_refuse
  buy_open-BuyIs price free (short balance needed) true =
      Total-given λ k. Total-pure _ (λ s' h. (rw (k.1.0, k.1.1) refl, h))
  buy_open-BuyIs price free (short balance needed) false =
      Total-given λ k. elim (not_both false k.0 refl) [ ]
  buy_open-BuyIs price free (paid p) true = Total-given λ k. elim (not_both true refl k) [ ]
  buy_open-BuyIs price free (paid p) false =
      let input = board_sale lead profile_id listing_id price p in
      let row = Entries.purchase_row profile_id (pos price) lead.id p.entry_id in
      Total-given λ k.
        Total-bind _ _ _ (total-record_sale s.purchases (row ∷ s.credit.ledger) v input at free)
          λ id.
            Total-bind _ _ _
              (total-job (Sale.purchase_row input id at ∷ s.purchases) (row ∷ s.credit.ledger) _)
              λ _. Total-pure _ (λ s' h. (p, (id, (refl, h))))

-- The leads and the standing orders are these.
abbrev pub Desk : List LeadRow → List StandingOrder → MarketDb → Type 0
Desk ls os s = (s.leads ≡ ls) × (s.orders ≡ os)

-- The leads with this one sold to the listing.
abbrev pub sold_among : LeadRow → ℕ → ℕ → Option ℕ → List LeadRow → List LeadRow
sold_among lead listing_id at buyer ls =
    update (λ l. l.id == lead.id)
      (λ l. record l {
        status = is_sold;
        sold_at = some at;
        sold_to_listing_id = some listing_id;
        buyer_user_id = buyer;
        updated_at = at;
      })
      ls

-- What a purchase off the board does to the leads and the standing orders: if it is refused, nothing.
abbrev pub Leaves :
    List LeadRow → List StandingOrder → LeadRow → ℕ → ℕ → BuyResult → MarketDb → Type 0
Leaves ls os lead listing_id at (bought id) s =
    (buyer : Option ℕ) × Desk (sold_among lead listing_id at buyer ls) os s
Leaves ls os lead listing_id at (insufficient balance needed) s = Desk ls os s
Leaves ls os lead listing_id at gone s = ⊥
Leaves ls os lead listing_id at not_your_listing s = ⊥

module _ (ls : List LeadRow) (os : List StandingOrder) where
  abbrev DeskIs : Tables
  DeskIs ls' ps ledger refunds os' blocks = (ls' ≡ ls) × (os' ≡ os)

  try_debit-Desk :
      (v : Viewer) (u cents lead_id : ℕ) → Keeps (Desk ls os) (try_debit v u cents lead_id)
  try_debit-Desk v u cents lead_id =
      Triple-weaken (λ s h. h) (λ d s h. h.0)
        (try_debit-Entered DeskIs (λ r s h. h) u cents lead_id v)

  record_sale-Desk :
      (v : Viewer) (input : SaleInput) (at : ℕ)
      → Triple (Desk ls os) (record_sale v input at) (λ id s.
        (buyer : Option ℕ) × Desk
          (update (λ l. l.id == input.lead_id) (sold_row input buyer at) ls)
          os
          s)
  record_sale-Desk v input at = record {
    at = λ s h.
        (Triple-weaken (λ s' k. k)
            (λ id s' k. (
              k.0,
              (
                ap (λ (b : Books). b.leads) k.1
                    ∙ ap (update (λ l. l.id == input.lead_id) (sold_row input k.0 at)) h.0,
                ap (λ (b : Books). b.orders) k.1 ∙ h.1,
              ),
            ))
            (record_sale-Books (books s) v input at)).at
          s refl;
  }

  sell_or_refuse-Leaves :
      (v : Viewer) (lead : LeadRow) (profile_id listing_id price at : ℕ) (d : Debit)
      → Triple
          (Desk ls os)
          (sell_or_refuse v lead profile_id listing_id price at d)
          (Leaves ls os lead listing_id at)
  unfolding sell_or_refuse
  sell_or_refuse-Leaves v lead profile_id listing_id price at (short balance needed) =
      Triple-pure _ (λ s h. h)
  sell_or_refuse-Leaves v lead profile_id listing_id price at (paid p) =
      Triple-bind _ _ _ (record_sale-Desk v (board_sale lead profile_id listing_id price p) at)
        λ id. record {
          at = λ s h.
              let now = sold_among lead listing_id at h.0 ls in
              (Triple-bind (λ _. Desk now os) _ _
                  (frame-enqueue_job (λ ls' ps ledger refunds os' blocks. (ls' ≡ now) × (os' ≡ os))
                    (λ r s k. k) _)
                  λ _. Triple-pure _ (λ s k. (h.0, k))).at
                s h.1;
        }

  pub buy_open-Leaves :
      (v : Viewer) (lead : LeadRow) (profile_id listing_id at : ℕ)
      → Triple
          (Desk ls os)
          (buy_open v lead profile_id listing_id at)
          (Leaves ls os lead listing_id at)
  unfolding buy_open
  buy_open-Leaves v lead profile_id listing_id at =
      Triple-bind (λ _. Desk ls os) _ _ (try_debit-Desk v _ _ _)
        λ d. sell_or_refuse-Leaves v lead profile_id listing_id _ at d

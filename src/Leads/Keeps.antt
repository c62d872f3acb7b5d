-- ===== src/Leads/Keeps.antt =====
-- Every operation of the lead market keeps the invariant of Leads.Consistent: sales, standing
-- orders, the sweep and deletions. Leads.Decided has the refunds.
use directory_platform.Common.{
  ℕ, ◌≤◌, ◌≡◌, refl, arith, Bool, true, false, List, [], ◌∷◌, ◌++◌, ◌==◌, update, ltb_ℤ, pos,
}
use directory_platform.Store.Rows.{Viewer}
use directory_platform.Leads.{current_price_cents, max_standing_orders_per_listing}
use directory_platform.Leads.Rows.{LeadRow, StandingOrder, MarketDb}
use directory_platform.Leads.Tx.{Market, Debit, paid, short}
use directory_platform.Leads.Sale.{
  sell_or_refuse, buy_open, buy_for_listing, buy_lead, lock_open_lead, board_sale,
}
use directory_platform.Leads.Allocate.{
  AllocationResult, allocation_viewer, set_order, paused_order, won_order, order_sale,
  pause_for_credit, sell_to, pause_short, offered, offer, allocate_lead,
}
use directory_platform.Leads.Orders.{count_orders}
use directory_platform.Leads.Triple.{
  Triple, Keeps, Keeps-pure, Keeps-gets, Triple-pure, Keeps-if, Keeps-option, Triple-bind,
  Keeps-bind, Triple-modify, Triple-weaken,
}
use directory_platform.Leads.Frame.{
  Holds, Entered, frame-own_profile, frame-write_audit, frame-enqueue_job, frame-assert_signed_in,
  try_debit-Entered,
}
use directory_platform.Leads.Consistent.{IsConsistent, grown, record_sale-IsConsistent}

abbrev pub Invariant : MarketDb → Type 0
Invariant = Holds IsConsistent

-- The standing orders may change as long as no listing has more than five.
pub with_orders :
    (s : MarketDb) (os : List StandingOrder)
    → ((l : ℕ) → count_orders l os ≤ max_standing_orders_per_listing)
    → Invariant s
    → Invariant (record s { orders = os })
with_orders s os k h = record {
  once = h.once;
  sold = h.sold;
  paid = h.paid;
  refunded = h.refunded;
  limited = k;
}

count-update :
    (p : StandingOrder → Bool) (f : StandingOrder → StandingOrder) (l : ℕ) (os : List StandingOrder)
    → ((o : StandingOrder) → (f o).listing_id ≡ o.listing_id)
    → count_orders l (update p f os) ≡ count_orders l os
count-update p f l [] same = refl
count-update p f l (o ∷ os) same = ground (arith, same o, count-update p f l os same)

pub set_order-Invariant :
    (id : ℕ) (f : StandingOrder → StandingOrder) (s : MarketDb)
    → ((o : StandingOrder) → (f o).listing_id ≡ o.listing_id)
    → Invariant s
    → Invariant (set_order id f s)
set_order-Invariant id f s same h =
    with_orders s _ (λ l. rw (count-update (λ o. o.id == id) f l s.orders same) (h.limited l)) h

-- Sales off the board.
module _ (v : Viewer) (at : ℕ) where
  sell_or_refuse-Keeps :
      (lead : LeadRow) (profile_id listing_id price : ℕ) (d : Debit)
      → Triple
          (λ s. Invariant s × Entered profile_id price lead.id d s)
          (sell_or_refuse v lead profile_id listing_id price at d)
          (λ _. Invariant)
  unfolding sell_or_refuse
  sell_or_refuse-Keeps lead profile_id listing_id price (short b n) = Triple-pure _ (λ s h. h.0)
  sell_or_refuse-Keeps lead profile_id listing_id price (paid p) =
      Triple-bind _ _ _
        (record_sale-IsConsistent (board_sale lead profile_id listing_id price p) v at)
        λ id.
          Triple-bind _ _ _ (frame-enqueue_job IsConsistent grown _) λ _. Triple-pure _ (λ s h. h)

  buy_open-Keeps :
      (lead : LeadRow) (profile_id listing_id : ℕ)
      → Keeps Invariant (buy_open v lead profile_id listing_id at)
  unfolding buy_open
  buy_open-Keeps lead profile_id listing_id =
      let price = current_price_cents lead.price_cents lead.half_price_at at in
      Triple-bind _ _ _ (try_debit-Entered IsConsistent grown profile_id price lead.id v)
        λ d. sell_or_refuse-Keeps lead profile_id listing_id price d

  buy_for_listing-Keeps :
      (lead_id profile_id listing_id : ℕ) (own : Bool)
      → Keeps Invariant (buy_for_listing v lead_id profile_id listing_id at own)
  unfolding buy_for_listing lock_open_lead
  buy_for_listing-Keeps lead_id profile_id listing_id false = Keeps-pure _
  buy_for_listing-Keeps lead_id profile_id listing_id true =
      Keeps-bind _ _ (Keeps-gets _)
        λ found. Keeps-option _ _ _ (Keeps-pure _) λ lead. buy_open-Keeps lead profile_id listing_id

  pub buy_lead-Keeps : (lead_id listing_id : ℕ) → Keeps Invariant (buy_lead v lead_id listing_id at)
  unfolding buy_lead
  buy_lead-Keeps lead_id listing_id =
      Keeps-bind _ _ (frame-assert_signed_in IsConsistent grown v) λ _.
        Keeps-bind _ _ (frame-own_profile IsConsistent grown v) λ profile_id.
          Keeps-bind _ _ (Keeps-gets _)
            λ own. buy_for_listing-Keeps lead_id profile_id listing_id own

  pause_for_credit-Keeps : (id : ℕ) → Keeps Invariant (pause_for_credit v id at)
  unfolding pause_for_credit
  pause_for_credit-Keeps id =
      Keeps-bind _ _
        (Triple-modify _ λ s h. set_order-Invariant id (paused_order at) s (λ o. refl) h)
        λ _.
          Keeps-bind _ _ (frame-write_audit IsConsistent grown v _ _)
            λ _. frame-enqueue_job IsConsistent grown _

  pause_short-Keeps : (cs : List StandingOrder) → Keeps Invariant (pause_short v at cs)
  unfolding pause_short
  pause_short-Keeps [] = Keeps-pure _
  pause_short-Keeps (c ∷ cs) = Keeps-bind _ _ (Keeps-gets _) λ balance.
      Keeps-bind _ _
        (Keeps-if (ltb_ℤ balance (pos c.price_cents)) _ _ (pause_for_credit-Keeps c.id)
          (Keeps-pure _))
        λ _. pause_short-Keeps cs

  -- Sales to standing orders.
  offered-Keeps :
      (lead : LeadRow) (c : StandingOrder) (cs : List StandingOrder)
      (rest : Market AllocationResult) (d : Debit)
      → Keeps Invariant rest
      → Triple
          (λ s. Invariant s × Entered c.user_id c.price_cents lead.id d s)
          (offered v lead at c (pause_short v at cs) rest d)
          (λ _. Invariant)
  unfolding offered sell_to
  offered-Keeps lead c cs rest (short b n) k =
      Triple-bind (λ _. Invariant) _ _
        (Triple-weaken (λ s h. h.0) (λ a s h. h) (pause_for_credit-Keeps c.id)) λ _. k
  offered-Keeps lead c cs rest (paid p) k =
      Triple-bind (λ _. Invariant) _ _
        (Triple-bind _ _ _ (record_sale-IsConsistent (order_sale lead c p) v at) λ id.
          Keeps-bind _ _
            (Triple-modify _ λ s h. set_order-Invariant c.id (won_order at) s (λ o. refl) h)
            λ _. Keeps-bind _ _ (frame-enqueue_job IsConsistent grown _) λ _. Keeps-pure _)
        λ won. Keeps-bind _ _ (pause_short-Keeps cs) λ _. Keeps-pure _

  offer-Keeps :
      (lead : LeadRow) (done : List ℕ) (cs : List StandingOrder)
      → Keeps Invariant (offer v lead at done cs)
  unfolding offer
  offer-Keeps lead done [] = Keeps-pure _
  offer-Keeps lead done (c ∷ cs) =
      Triple-bind _ _ _
        (try_debit-Entered IsConsistent grown c.user_id c.price_cents lead.id allocation_viewer)
        λ d. offered-Keeps lead c cs _ d (offer-Keeps lead (done ++ c.id ∷ []) cs)

  pub allocate_lead-Keeps : (lead_id : ℕ) → Keeps Invariant (allocate_lead v lead_id at)
  unfolding allocate_lead lock_open_lead
  allocate_lead-Keeps lead_id = Keeps-bind _ _ (Keeps-gets _) λ found.
      Keeps-option _ _ _ (Keeps-pure _)
        λ lead. Keeps-bind _ _ (Keeps-gets _) λ ranked. offer-Keeps lead [] ranked

-- ===== src/Leads/Ordered.antt =====
-- The changes to standing orders keep the invariant.
use directory_platform.Common.{
  ℕ, ◌≤◌, ◌≡◌, refl, sym, ap, ◌∙◌, arith, Bool, true, false, not, List, [], ◌∷◌, ◌==◌, leb, ==→eq,
  filter, some, option_eq, update, inl, inr, All-update, All-mono, Pairwise, if◌then◌else◌,
}
use directory_platform.Store.Rows.{Viewer}
use directory_platform.Leads.{max_standing_orders_per_listing}
use directory_platform.Leads.Rows.{OrderStatus, StandingOrder, LeadPurchase, MarketDb}
use directory_platform.Credits.{LedgerRow}
use directory_platform.Leads.Tx.{Market, ◌>>=◌, on_option, fresh_id, own_profile}
use directory_platform.Leads.Orders.{
  StandingOrderInput, Validated, count_orders, new_order, insert_standing_order, create_on_listing,
  create_standing_order, has_errors, own_order, edited_order, edit_order, update_standing_order,
  switched_order, set_standing_order_status, delete_standing_order, without_order,
}
use directory_platform.Leads.Triple.{
  Triple, Keeps, Keeps-pure, Keeps-gets, Triple-gets, Triple-pure, Triple-if, Keeps-if,
  Keeps-option, Triple-bind, Keeps-bind, Triple-modify, Triple-weaken,
}
use directory_platform.Leads.Frame.{frame-own_profile, frame-write_audit, frame-assert_signed_in}
use directory_platform.Leads.Consistent.{
  IsConsistent, grown, is_bought, SoldIfBought, Paid, OtherLead,
}
use directory_platform.Leads.Keeps.{Invariant, with_orders, set_order-Invariant}

count-filter :
    (p : StandingOrder → Bool) (l : ℕ) (os : List StandingOrder)
    → count_orders l (filter p os) ≤ count_orders l os
count-filter p l [] = omega arith
count-filter p l (o ∷ os) = ground (arith, count-filter p l os)

-- The listing of the new order has room for it.
room :
    (input : StandingOrderInput) (profile_id id at : ℕ) (w : Validated) (os : List StandingOrder)
    → ((l : ℕ) → count_orders l os ≤ max_standing_orders_per_listing)
    → leb max_standing_orders_per_listing (count_orders input.listing_id os) ≡ false
    → (l : ℕ)
    → count_orders l (new_order profile_id input w id at ∷ os) ≤ max_standing_orders_per_listing
room input profile_id id at w os h free l = ground (arith, h l, ==→eq input.listing_id l)

-- Purchases may forget their orders.
forgotten_bought :
    (p : LeadPurchase → Bool) (id : ℕ) (ps : List LeadPurchase)
    → is_bought id (update p without_order ps) ≡ is_bought id ps
forgotten_bought p id [] = refl
forgotten_bought p id (q ∷ qs) = ground (arith, forgotten_bought p id qs)

forgotten_once :
    (p : LeadPurchase → Bool) (ps : List LeadPurchase)
    → Pairwise OtherLead ps
    → Pairwise OtherLead (update p without_order ps)
forgotten_once p [] h = tt
forgotten_once p (q ∷ qs) h =
    at_row (p q)
      (All-update (OtherLead q) p without_order qs (λ r e k. k) h.0, forgotten_once p qs h.1)
  where
    at_row :
        (b : Bool)
        → Pairwise OtherLead (q ∷ update p without_order qs)
        → Pairwise OtherLead ((if b then without_order q else q) ∷ update p without_order qs)
    at_row true k = k
    at_row false k = k

paid_forgotten :
    (ledger : List LedgerRow) (q : LeadPurchase) → Paid ledger q → Paid ledger (without_order q)
paid_forgotten [] q h = h
paid_forgotten (r ∷ rs) q (inl e) = inl e
paid_forgotten (r ∷ rs) q (inr h) = inr (paid_forgotten rs q h)

with_forgotten :
    (s : MarketDb) (p : LeadPurchase → Bool)
    → Invariant s
    → Invariant (record s { purchases = update p without_order s.purchases })
with_forgotten s p h = record {
  once = forgotten_once p s.purchases h.once;
  sold =
      All-mono (SoldIfBought s.purchases) _ (λ l k n. forgotten_bought p l.id s.purchases ∙ k n)
        s.leads h.sold;
  paid =
      All-update (Paid s.credit.ledger) p without_order s.purchases
        (λ q e k. paid_forgotten s.credit.ledger q k) h.paid;
  refunded = h.refunded;
  limited = h.limited;
}

module _ (v : Viewer) (at : ℕ) where
  insert-Keeps :
      (profile_id : ℕ) (input : StandingOrderInput) (w : Validated)
      → Triple
          (λ s.
            Invariant s
            × (leb max_standing_orders_per_listing (count_orders input.listing_id s.orders)
                ≡ false))
          (insert_standing_order v profile_id input w at)
          (λ _. Invariant)
  unfolding insert_standing_order fresh_id
  insert-Keeps profile_id input w =
      Triple-bind
        (λ _ s.
          Invariant s
          × (leb max_standing_orders_per_listing (count_orders input.listing_id s.orders) ≡ false))
        _ _ (record { at = λ s h. h })
        λ id.
          Triple-bind (λ _. Invariant) _ _
            (Triple-modify _
              λ s h. with_orders s _ (room input profile_id id at w s.orders h.0.limited h.1) h.0)
            λ _. Keeps-bind _ _ (frame-write_audit IsConsistent grown v _ _) λ _. Keeps-pure _

  create_on_listing-Keeps :
      (profile_id : ℕ) (input : StandingOrderInput) (own : Bool)
      → Keeps Invariant (create_on_listing v profile_id input at own)
  unfolding create_on_listing
  create_on_listing-Keeps profile_id input false = Keeps-pure _
  create_on_listing-Keeps profile_id input true = Keeps-bind _ _ (Keeps-gets _) λ w.
      Triple-bind _ _ _ (Triple-gets _) λ n.
        Triple-if (has_errors w.errors) _ _ (λ e. Triple-pure _ (λ s h. h.0))
          λ e.
            Triple-if (leb max_standing_orders_per_listing n) _ _ (λ f. Triple-pure _ (λ s h. h.0))
              λ f.
                Triple-weaken (λ s h. (h.0, ap (leb max_standing_orders_per_listing) (sym h.1) ∙ f))
                  (λ a s h. h) (insert-Keeps profile_id input w)

  pub create_standing_order-Keeps :
      (input : StandingOrderInput) → Keeps Invariant (create_standing_order v input at)
  unfolding create_standing_order
  create_standing_order-Keeps input =
      Keeps-bind _ _ (frame-assert_signed_in IsConsistent grown v) λ _.
        Keeps-bind _ _ (frame-own_profile IsConsistent grown v) λ profile_id.
          Keeps-bind _ _ (Keeps-gets _) λ own. create_on_listing-Keeps profile_id input own

  edit_order-Keeps :
      (order : StandingOrder) (input : StandingOrderInput)
      → Keeps Invariant (edit_order v order input at)
  unfolding edit_order
  edit_order-Keeps order input = Keeps-bind _ _ (Keeps-gets _) λ w.
      Keeps-if (has_errors w.errors) _ _ (Keeps-pure _) (
        Keeps-bind _ _
          (Triple-modify _
            λ s h. set_order-Invariant order.id (edited_order input w at) s (λ o. refl) h)
          λ _. Keeps-bind _ _ (frame-write_audit IsConsistent grown v _ _) λ _. Keeps-pure _)

  -- the look-up of an order of one's own
  own-Keeps :
      {B : Type 0} (id : ℕ) (m : Market B) (f : StandingOrder → Market B)
      → Keeps Invariant m
      → ((o : StandingOrder) → Keeps Invariant (f o))
      → Keeps Invariant (own_profile v >>= λ p. own_order p id >>= λ found. on_option found m f)
  unfolding own_order
  own-Keeps id m f km kf =
      Keeps-bind _ _ (frame-own_profile IsConsistent grown v)
        λ p. Keeps-bind _ _ (Keeps-gets _) λ found. Keeps-option _ _ _ km kf

  pub update_standing_order-Keeps :
      (id : ℕ) (input : StandingOrderInput) → Keeps Invariant (update_standing_order v id input at)
  unfolding update_standing_order
  update_standing_order-Keeps id input =
      Keeps-bind _ _ (frame-assert_signed_in IsConsistent grown v)
        λ _. own-Keeps id _ _ (Keeps-pure _) λ order. edit_order-Keeps order _

  pub set_standing_order_status-Keeps :
      (id : ℕ) (status : OrderStatus) → Keeps Invariant (set_standing_order_status v id status at)
  unfolding set_standing_order_status
  set_standing_order_status-Keeps id status =
      Keeps-bind _ _ (frame-assert_signed_in IsConsistent grown v) λ _.
        own-Keeps id _ _ (Keeps-pure _) λ order.
          Keeps-bind _ _
            (Triple-modify _
              λ s h. set_order-Invariant order.id (switched_order status at) s (λ o. refl) h)
            λ _. Keeps-bind _ _ (frame-write_audit IsConsistent grown v _ _) λ _. Keeps-pure _

  pub delete_standing_order-Keeps : (id : ℕ) → Keeps Invariant (delete_standing_order v id)
  unfolding delete_standing_order
  delete_standing_order-Keeps id = Keeps-bind _ _ (frame-assert_signed_in IsConsistent grown v) λ _.
      own-Keeps id _ _ (Keeps-pure _) λ order.
        Keeps-bind _ _
          (Triple-modify _ λ s h.
            with_forgotten (record s { orders = filter (λ o. not (o.id == order.id)) s.orders })
              (λ p. option_eq p.standing_order_id (some order.id))
              (with_orders s _
                (λ l.
                  omega (arith, h.limited l, count-filter (λ o. not (o.id == order.id)) l s.orders))
                h))
          λ _. Keeps-bind _ _ (frame-write_audit IsConsistent grown v _ _) λ _. Keeps-pure _

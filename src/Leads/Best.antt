-- ===== src/Leads/Best.antt =====
-- What `allocateLead` (lib/leads/allocate.ts) does for an open lead: who gets it, and what it leaves.
use mathlib.Core.List.{Mem, mem-cons_of_mem, mem-cons_self}
use directory_platform.Common.{
  ℕ, ◌≡◌, refl, subst, Bool, true, false, Option, some, List, [], ◌∷◌, ◌++◌, map, if◌then◌else◌,
  filter, All, All-mono, All-find?,
}
use directory_platform.Store.Rows.{Viewer}
use directory_platform.Leads.Rows.{LeadRow, StandingOrder, MarketDb}
use directory_platform.Leads.Tx.{ok, pure, ◌>>=◌, on_option, gets}
use directory_platform.Leads.Sale.{find_lead, open_lead, lock_open_lead}
use directory_platform.Leads.Allocate.{
  AllocationResult, sold_to, left_open, not_open, is_candidate, candidates, slug_of_city, offer,
  allocate_lead, rank_orders,
}
use directory_platform.Leads.Triple.{returned}
use directory_platform.Leads.Ranked.{
  PaysAsMuch, All-rank_orders, All-of_rank_orders, All-of_filter, rank_orders-Pairwise,
  first_pays_most, none_passes,
}
use directory_platform.Leads.Paused.{can_pay, books, BooksBe, all_paused}
use directory_platform.Leads.Offered.{after_sale, Picks, offer-Picks}

module _ {ℓ κ} {A : Type ℓ} (P : A → Type κ) where
  All-filtered :
      (p : A → Bool) (xs : List A) → All P xs → All (λ x. P x × (p x ≡ true)) (filter p xs)
  All-filtered p [] h = tt
  All-filtered p (x ∷ xs) h = kept (p x) refl (All-filtered p xs h.1)
    where
      kept :
          (b : Bool)
          → p x ≡ b
          → All (λ y. P y × (p y ≡ true)) (filter p xs)
          → All (λ y. P y × (p y ≡ true)) (if b then x ∷ filter p xs else filter p xs)
      kept true e r = ((h.0, e), r)
      kept false e r = r

All-self {ℓ} : {A : Type ℓ} (xs : List A) → All (λ x. Mem x xs) xs
All-self [] = tt
All-self (x ∷ xs) = (
  mem-cons_self,
  All-mono (λ y. Mem y xs) (λ y. Mem y (x ∷ xs)) (λ y m. mem-cons_of_mem x m) xs (All-self xs),
)

-- This order is a candidate for the lead and can pay.
abbrev pub Payable : MarketDb → LeadRow → StandingOrder → Type 0
Payable s lead o =
    (is_candidate s lead (slug_of_city lead.city_id s) o ≡ true)
    × (can_pay s.credit.ledger o ≡ true)

-- What `allocateLead` may answer for an open lead, and the leads, purchases, orders and ledger that
-- it leaves.
abbrev pub Allocated : ℕ → MarketDb → LeadRow → AllocationResult → MarketDb → Type 0
Allocated at s lead (sold_to purchase_id order_id user_id) s' =
    (c : StandingOrder) × (((order_id ≡ c.id) × (user_id ≡ c.user_id))
      × ((Mem c s.orders × Payable s lead c)
          × (All (λ o. Payable s lead o → PaysAsMuch c o) s.orders
              × ((above : List StandingOrder) × ((below : List StandingOrder) × ((candidates lead s
                        ≡ above ++ c ∷ below)
                      × (All (λ o. can_pay s.credit.ledger o ≡ false) above
                          × ((entry : ℕ) × ((buyer : Option ℕ) × BooksBe
                                  (after_sale at lead above c below purchase_id entry buyer
                                    (books s))
                                  s')))))))))
Allocated at s lead (left_open paused) s' =
    All (λ o. ¬ Payable s lead o) s.orders
    × ((paused ≡ map (λ c. c.id) (candidates lead s))
        × BooksBe (all_paused at (books s) (candidates lead s)) s')
Allocated at s lead not_open s' = ⊥

pub not_both : (b : Bool) → b ≡ true → ¬ (b ≡ false)
not_both b h k = cc

Allocated-of_Picks :
    (at : ℕ) (s : MarketDb) (lead : LeadRow) (r : AllocationResult) (s' : MarketDb)
    → Picks (books s) lead at [] (candidates lead s) r s'
    → Allocated at s lead r s'
unfolding candidates
Allocated-of_Picks at s lead (sold_to purchase_id order_id user_id) s' (c, (e, (same, en))) =
    let l = s.credit.ledger in
    let test = is_candidate s lead (slug_of_city lead.city_id s) in
    let ranked = rank_orders (filter test s.orders) in
    let found =
      All-find? _ (can_pay l) ranked c
        (All-rank_orders _ _ (All-filtered _ test s.orders (All-self s.orders))) e in
    let best = first_pays_most (can_pay l) ranked c (rank_orders-Pairwise _) e in
    let all = All-of_filter _ test s.orders (All-of_rank_orders _ _ best) in
    (
      c,
      (
        same,
        ((found.0.0, (found.0.1, found.1)), (All-mono _ _ (λ q k h. k h.0 h.1) s.orders all, en)),
      ),
    )
Allocated-of_Picks at s lead (left_open paused) s' (e, (p, h)) =
    let test = is_candidate s lead (slug_of_city lead.city_id s) in
    let nobody = none_passes (can_pay s.credit.ledger) (rank_orders (filter test s.orders)) e in
    let all = All-of_filter _ test s.orders (All-of_rank_orders _ _ nobody) in
    (All-mono _ _ (λ q k h. not_both _ h.1 (k h.0)) s.orders all, (p, h))
Allocated-of_Picks at s lead not_open s' h = h

-- If the lead is open at the time of the call and `allocateLead` returns, then one of two things is
-- so. Either the lead is sold to a standing order of the book that covers it and whose account can
-- pay its price, and no other order that covers it and can pay has a higher price: the lead has the
-- status, the time and the listing of the sale, the one new purchase and the one new row of the
-- ledger have the order's own price, the order's count is up by one, the candidates that rank above
-- it, none of which can pay, are paused, and so are those below it that cannot pay after the sale.
-- Or no order that covers the lead can pay: every candidate is paused for want of credit, and the
-- leads, the purchases and the ledger are what they were.
pub allocate_lead-Allocated :
    (v : Viewer) (lead_id at : ℕ) (s : MarketDb) (lead : LeadRow) (r : AllocationResult)
    (s' : MarketDb)
    → open_lead at (find_lead lead_id s) ≡ some lead
    → allocate_lead v lead_id at s ≡ ok r s'
    → Allocated at s lead r s'
unfolding allocate_lead lock_open_lead gets ◌>>=◌ on_option
allocate_lead-Allocated v lead_id at s lead r s' found run = Allocated-of_Picks at s lead r s' (
    returned _ (by_lead (open_lead at (find_lead lead_id s)) found run)
      ((offer-Picks lead v at [] (candidates lead s) (books s)).at s refl))
  where
    by_lead :
        (o : Option LeadRow)
        → o ≡ some lead
        → on_option o (pure not_open) (λ l. gets (candidates l) >>= offer v l at []) s ≡ ok r s'
        → offer v lead at [] (candidates lead s) s ≡ ok r s'
    by_lead o e run =
        subst
          (λ o'.
            on_option o' (pure not_open) (λ l. gets (candidates l) >>= offer v l at []) s ≡ ok r s')
          e run

-- ===== src/Leads/Offered.antt =====
-- The loop of `allocateLead` (lib/leads/allocate.ts): the first candidate that can pay has the lead.
use directory_platform.Common.{
  ℕ, ◌≡◌, refl, sym, ap, ◌∙◌, subst, false, Option, none, some, List, [], ◌∷◌, ◌++◌, append_assoc,
  append-nil, map, find?, pos, All,
}
use directory_platform.Store.Rows.{Viewer}
use directory_platform.Credits.Operations.{Posted}
use directory_platform.Credits.Entries.{purchase_row}
use directory_platform.Leads.Rows.{LeadRow, StandingOrder, MarketDb}
use directory_platform.Leads.Tx.{Debit, paid, short, try_debit}
use directory_platform.Leads.Allocate.{
  AllocationResult, sold_to, left_open, not_open, allocation_viewer, pause_short, offered, offer,
}
use directory_platform.Leads.Triple.{
  Ends, Triple, Triple-pure, Triple-bind, Triple-given, Triple-weaken,
}
use directory_platform.Leads.Paused.{
  can_pay, Books, BooksBe, entered, paused_in, all_paused, short_paused, pause-Books,
  pause_short-Books,
}
use directory_platform.Leads.Payer.{sold_in, Debited, try_debit-Debited, sell_to-SoldTo}

-- The tables once the order `c` has the lead: the orders offered it before are paused, the order
-- is charged its price and has the lead, and below it those that then cannot pay are paused.
abbrev pub after_sale :
    ℕ
    → LeadRow
    → List StandingOrder
    → StandingOrder
    → List StandingOrder
    → ℕ
    → ℕ
    → Option ℕ
    → Books
    → Books
after_sale at lead above c below id entry buyer b =
    short_paused at
      (sold_in at lead c id entry buyer (
        entered (purchase_row c.user_id (pos c.price_cents) lead.id entry) (all_paused at b above)))
      below

-- The first of these orders that can pay has the lead; if none can, all of them are paused.
abbrev pub Picks :
    Books → LeadRow → ℕ → List ℕ → List StandingOrder → AllocationResult → MarketDb → Type 0
Picks b lead at done cs (sold_to id order_id user_id) s =
    (c : StandingOrder) × ((find? (can_pay b.ledger) cs ≡ some c)
      × (((order_id ≡ c.id) × (user_id ≡ c.user_id))
          × ((above : List StandingOrder) × ((below : List StandingOrder) × ((cs
                    ≡ above ++ c ∷ below)
                  × (All (λ o. can_pay b.ledger o ≡ false) above
                      × ((entry : ℕ) × ((buyer : Option ℕ) × BooksBe
                              (after_sale at lead above c below id entry buyer b) s))))))))
Picks b lead at done cs (left_open paused) s =
    (find? (can_pay b.ledger) cs ≡ none)
    × ((paused ≡ done ++ map (λ c. c.id) cs) × BooksBe (all_paused at b cs) s)
Picks b lead at done cs not_open s = ⊥

Picks-skip :
    (b : Books) (lead : LeadRow) (at : ℕ) (done : List ℕ) (c : StandingOrder)
    (cs : List StandingOrder) (r : AllocationResult) (s : MarketDb)
    → can_pay b.ledger c ≡ false
    → Picks (paused_in at b c.id) lead at (done ++ c.id ∷ []) cs r s
    → Picks b lead at done (c ∷ cs) r s
Picks-skip b lead at done c cs (sold_to id order_id user_id) s k
      (o, (e, (same, (above, (below, (split, (poor, rest))))))) =
    (o, (rw k e, (same, (c ∷ above, (below, (ap (◌∷◌ c) split, ((k, poor), rest)))))))
Picks-skip b lead at done c cs (left_open paused) s k (e, (p, h)) =
    (rw k e, (p ∙ append_assoc done _ _, h))
Picks-skip b lead at done c cs not_open s k h = h

debit-Debited :
    (b : Books) (lead : LeadRow) (c : StandingOrder)
    → Triple
        (BooksBe b)
        (try_debit allocation_viewer c.user_id c.price_cents lead.id)
        (Debited b lead c)
debit-Debited b lead c = record {
  at = λ s h.
      subst
        (λ b'.
          Ends (Debited b' lead c) (try_debit allocation_viewer c.user_id c.price_cents lead.id s))
        h (try_debit-Debited lead c s);
}

sold_now :
    (b : Books) (lead : LeadRow) (v : Viewer) (at : ℕ) (done : List ℕ) (c : StandingOrder)
    (cs : List StandingOrder) (p : Posted)
    → Triple
        (Debited b lead c (paid p))
        (offered v lead at c
          (pause_short v at cs)
          (offer v lead at (done ++ c.id ∷ []) cs)
          (paid p))
        (Picks b lead at done (c ∷ cs))
unfolding offered
sold_now b lead v at done c cs p =
    let charged = entered (purchase_row c.user_id (pos c.price_cents) lead.id p.entry_id) b in
    Triple-given λ yes. Triple-bind _ _ _ (sell_to-SoldTo charged v lead c at p) λ won. record {
      at = λ s h.
          let sold = sold_in at lead c h.0 p.entry_id h.1.0 charged in
          (Triple-bind _ _ _ (pause_short-Books v at cs sold) λ _. Triple-pure won λ s k.
              subst (λ r. Picks b lead at done (c ∷ cs) r s) (sym h.1.1.0)
                (
                  c,
                  (rw yes refl, ((refl, refl), ([], (cs, (refl, (tt, (p.entry_id, (h.1.0, k)))))))),
                )).at
            s h.1.1.1;
    }

pub offer-Picks :
    (lead : LeadRow) (v : Viewer) (at : ℕ) (done : List ℕ) (cs : List StandingOrder) (b : Books)
    → Triple (BooksBe b) (offer v lead at done cs) (Picks b lead at done cs)
unfolding offer offered
offer-Picks lead v at done [] b = Triple-pure _ (λ s h. (refl, (sym (append-nil done), h)))
offer-Picks lead v at done (c ∷ cs) b =
    Triple-bind (Debited b lead c) _ _ (debit-Debited b lead c)
      (by_debit (offer-Picks lead v at (done ++ c.id ∷ []) cs (paused_in at b c.id)))
  where
    by_debit :
        Triple
          (BooksBe (paused_in at b c.id))
          (offer v lead at (done ++ c.id ∷ []) cs)
          (Picks (paused_in at b c.id) lead at (done ++ c.id ∷ []) cs)
        → (d : Debit)
        → Triple
            (Debited b lead c d)
            (offered v lead at c (pause_short v at cs) (offer v lead at (done ++ c.id ∷ []) cs) d)
            (Picks b lead at done (c ∷ cs))
    by_debit ih (paid p) = sold_now b lead v at done c cs p
    by_debit ih (short balance needed) = Triple-given λ k.
        Triple-bind _ _ _ (pause-Books b v c.id at)
          λ _. Triple-weaken (λ s h. h) (λ r s h. Picks-skip b lead at done c cs r s k h) ih

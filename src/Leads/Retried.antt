-- ===== src/Leads/Retried.antt =====
-- Offering open leads again keeps the invariant.
use directory_platform.Common.{ℕ, List, [], ◌∷◌}
use directory_platform.Store.Rows.{Viewer}
use directory_platform.Leads.Rows.{StandingOrder, MarketDb}
use directory_platform.Leads.Tx.{MarketResult, ok, err}
use directory_platform.Leads.Allocate.{AllocationResult}
use directory_platform.Leads.Retry.{attempted, retry_each, retry_covered, retry_allocation}
use directory_platform.Leads.Triple.{Ends, Keeps, Keeps-pure, Keeps-gets, Keeps-bind}
use directory_platform.Leads.Keeps.{Invariant, allocate_lead-Keeps}

attempted-Invariant :
    (s : MarketDb) (r : MarketResult AllocationResult)
    → Invariant s
    → Ends (λ _. Invariant) r
    → Ends (λ _. Invariant) (attempted s r)
attempted-Invariant s (ok a t) h k = k
attempted-Invariant s (err e) h k = h

module _ (v : Viewer) (at : ℕ) where
  retry_each-Keeps : (ids : List ℕ) → Keeps Invariant (retry_each v at ids)
  unfolding retry_each
  retry_each-Keeps [] = Keeps-pure _
  retry_each-Keeps (id ∷ ids) =
      Keeps-bind _ _
        (record { at = λ s h. attempted-Invariant s _ h ((allocate_lead-Keeps v at id).at s h) })
        λ sold. Keeps-bind _ _ (retry_each-Keeps ids) λ rest. Keeps-pure _

  retry_covered-Keeps : (os : List StandingOrder) → Keeps Invariant (retry_covered v at os)
  unfolding retry_covered
  retry_covered-Keeps [] = Keeps-pure _
  retry_covered-Keeps (o ∷ os) =
      Keeps-bind _ _ (Keeps-gets _)
        λ ids. Keeps-bind _ _ (retry_each-Keeps ids) λ sold. Keeps-pure _

  pub retry_allocation-Keeps : (since : ℕ) → Keeps Invariant (retry_allocation v since at)
  unfolding retry_allocation
  retry_allocation-Keeps since = Keeps-bind _ _ (Keeps-gets _) retry_covered-Keeps

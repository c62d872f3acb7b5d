-- ===== src/Leads/Confirms.antt =====
-- A confirmed request (app/get-quotes/verify/[token]/confirm/route.ts) keeps the invariant: the new
-- lead has no purchase, and its allocation is a transaction of its own.
use directory_platform.Common.{ℕ, ◌≡◌, false, Option, none, some, ◌∷◌}
use directory_platform.Store.Rows.{Viewer, public}
use directory_platform.Leads.Rows.{LeadSource, LeadRow, MarketDb}
use directory_platform.Leads.Tx.{MarketResult, ok, err, gets, on_option, pure, fresh_id}
use directory_platform.Leads.Allocate.{AllocationResult, allocate_lead}
use directory_platform.Leads.Create.{LeadTexts, LeadFields, store_lead}
use directory_platform.Leads.Doors.{kept_or_undone, run_after_lead_created, confirm_lead}
use directory_platform.Leads.Triple.{
  Ends, Triple, Triple-pure, Triple-bind, Triple-modify, Keeps, Keeps-pure,
}
use directory_platform.Leads.Frame.{frame-write_audit}
use directory_platform.Leads.Consistent.{IsConsistent, grown, is_bought}
use directory_platform.Leads.Keeps.{Invariant, allocate_lead-Keeps}
use directory_platform.Leads.Opened.{door-Ends}

-- The invariant, and the next id that the database draws is of no purchased lead.
abbrev pub IsReady : MarketDb → Type 0
IsReady s = Invariant s × (is_bought (s.credit.uuid s.credit.drawn) s.purchases ≡ false)

arrived-Invariant :
    (l : LeadRow) (s : MarketDb)
    → is_bought l.id s.purchases ≡ false
    → Invariant s
    → Invariant (record s { leads = l ∷ s.leads })
arrived-Invariant l s free h = record {
  once = h.once;
  sold = (λ _. free, h.sold);
  paid = h.paid;
  refunded = h.refunded;
  limited = h.limited;
}

store_lead-Invariant :
    (texts : LeadTexts) (v : Viewer) (f : LeadFields) (at : ℕ)
    → Triple IsReady (store_lead texts v f at) (λ _. Invariant)
unfolding store_lead fresh_id gets
store_lead-Invariant texts v f at =
    Triple-bind (λ id s. Invariant s × (is_bought id s.purchases ≡ false)) _ _
      (record { at = λ s h. h })
      λ id.
        Triple-bind (λ l s. Invariant s × (is_bought l.id s.purchases ≡ false)) _ _
          (record { at = λ s h. h })
          λ l.
            Triple-bind _ _ _
              (Triple-modify {Q = Invariant} _ (λ s h. arrived-Invariant l s h.1 h.0))
              λ _.
                Triple-bind _ _ _ (frame-write_audit IsConsistent grown v _ _)
                  λ _. Triple-pure _ (λ s h. h)

after-Keeps : (l : LeadRow) (at : ℕ) → Keeps Invariant (run_after_lead_created public l at)
unfolding run_after_lead_created
after-Keeps l at = record {
  at = λ s h.
      kept s (allocate_lead public l.id at s) h ((allocate_lead-Keeps public at l.id).at s h);
}
  where
    kept :
        (s : MarketDb) (r : MarketResult AllocationResult)
        → Invariant s
        → Ends (λ _. Invariant) r
        → Ends (λ _. Invariant) (kept_or_undone s r)
    kept s (ok a t) h k = k
    kept s (err e) h k = h

pub confirm_lead-Invariant :
    (texts : LeadTexts) (source : LeadSource) (id at : ℕ)
    → Triple IsReady (confirm_lead texts source id at) (λ _. Invariant)
unfolding confirm_lead on_option
confirm_lead-Invariant texts source id at =
    Triple-bind (λ _. Invariant) _ _
      (door-Ends IsReady (λ _. Invariant) (λ s h. h.0) texts public at id
        (λ f e. store_lead-Invariant texts public f at) source)
      by_lead
  where
    by_lead :
        (lead : Option LeadRow)
        → Keeps Invariant (on_option lead (pure false) λ l. run_after_lead_created public l at)
    by_lead none = Keeps-pure false
    by_lead (some l) = after-Keeps l at

-- ===== src/Leads/Steps.antt =====
-- The operations of the lead market in any order, and what holds after them all.
use directory_platform.Common.{ℕ, ◌≡◌, Bool, false, Option}
use directory_platform.Store.Rows.{Viewer}
use directory_platform.Leads.{RefundReason}
use directory_platform.Leads.Rows.{LeadSource, OrderStatus, MarketDb}
use directory_platform.Leads.Tx.{ok}
use directory_platform.Leads.Sale.{BuyResult, buy_lead}
use directory_platform.Leads.Allocate.{AllocationResult, allocate_lead}
use directory_platform.Leads.Create.{LeadTexts}
use directory_platform.Leads.Doors.{confirm_lead}
use directory_platform.Leads.Confirms.{confirm_lead-Invariant}
use directory_platform.Leads.Retry.{RetryResult, retry_allocation}
use directory_platform.Leads.Retried.{retry_allocation-Keeps}
use directory_platform.Leads.Orders.{
  StandingOrderInput, StandingOrderResult, create_standing_order, update_standing_order,
  set_standing_order_status, delete_standing_order,
}
use directory_platform.Leads.Refunds.{
  RefundRequestResult, RefundDecision, DecisionInput, request_refund, decide_refund,
}
use directory_platform.Leads.Sweep.{SweepResult, DeleteResult, sweep_leads, admin_delete_lead}
use directory_platform.Leads.Triple.{returned}
use directory_platform.Leads.Consistent.{IsConsistent, is_bought}
use directory_platform.Leads.Keeps.{Invariant, buy_lead-Keeps, allocate_lead-Keeps}
use directory_platform.Leads.Ordered.{
  create_standing_order-Keeps, update_standing_order-Keeps, set_standing_order_status-Keeps,
  delete_standing_order-Keeps,
}
use directory_platform.Leads.Edited.{sweep_leads-Keeps, admin_delete_lead-Keeps}
use directory_platform.Leads.Reported.{request_refund-Keeps}
use directory_platform.Leads.Decided.{decide_refund-Keeps}

-- One operation that does not throw. The id that a confirmed request's lead gets is of no
-- purchased lead.
pub data Step (s s' : MarketDb) : Type 0 where
  confirmed :
      (texts : LeadTexts) (source : LeadSource) (request_id at : ℕ) (out : Bool)
      → is_bought (s.credit.uuid s.credit.drawn) s.purchases ≡ false
      → confirm_lead texts source request_id at s ≡ ok out s'
      → Step s s'
  bought_by :
      (v : Viewer) (lead_id listing_id at : ℕ) (out : BuyResult)
      → buy_lead v lead_id listing_id at s ≡ ok out s'
      → Step s s'
  allocated :
      (v : Viewer) (lead_id at : ℕ) (out : AllocationResult)
      → allocate_lead v lead_id at s ≡ ok out s'
      → Step s s'
  retried :
      (v : Viewer) (since at : ℕ) (out : RetryResult)
      → retry_allocation v since at s ≡ ok out s'
      → Step s s'
  order_made :
      (v : Viewer) (input : StandingOrderInput) (at : ℕ) (out : StandingOrderResult)
      → create_standing_order v input at s ≡ ok out s'
      → Step s s'
  order_changed :
      (v : Viewer) (id : ℕ) (input : StandingOrderInput) (at : ℕ) (out : StandingOrderResult)
      → update_standing_order v id input at s ≡ ok out s'
      → Step s s'
  order_switched :
      (v : Viewer) (id : ℕ) (status : OrderStatus) (at : ℕ) (out : StandingOrderResult)
      → set_standing_order_status v id status at s ≡ ok out s'
      → Step s s'
  order_removed :
      (v : Viewer) (id : ℕ) (out : StandingOrderResult)
      → delete_standing_order v id s ≡ ok out s'
      → Step s s'
  reported :
      (v : Viewer) (lead_id : ℕ) (reason : Option RefundReason) (note : Option ℕ) (at : ℕ)
      (out : RefundRequestResult)
      → request_refund v lead_id reason note at s ≡ ok out s'
      → Step s s'
  decided :
      (v : Viewer) (refund_id : ℕ) (input : DecisionInput) (at : ℕ) (out : RefundDecision)
      → decide_refund v refund_id input at s ≡ ok out s'
      → Step s s'
  swept : (v : Viewer) (at : ℕ) (out : SweepResult) → sweep_leads v at s ≡ ok out s' → Step s s'
  removed :
      (v : Viewer) (lead_id at : ℕ) (out : DeleteResult)
      → admin_delete_lead v lead_id at s ≡ ok out s'
      → Step s s'

pub data Reaches : MarketDb → MarketDb → Type 0 where
  start : (s : MarketDb) → Reaches s s
  next : (s t u : MarketDb) → Reaches s t → Step t u → Reaches s u

step-Invariant : {s s' : MarketDb} → Step s s' → Invariant s → Invariant s'
step-Invariant {s} (confirmed texts source id at out free e) h =
    returned (λ _. Invariant) e ((confirm_lead-Invariant texts source id at).at s (h, free))
step-Invariant {s} (bought_by v lead_id listing_id at out e) h =
    returned (λ _. Invariant) e ((buy_lead-Keeps v at lead_id listing_id).at s h)
step-Invariant {s} (allocated v lead_id at out e) h =
    returned (λ _. Invariant) e ((allocate_lead-Keeps v at lead_id).at s h)
step-Invariant {s} (retried v since at out e) h =
    returned (λ _. Invariant) e ((retry_allocation-Keeps v at since).at s h)
step-Invariant {s} (order_made v input at out e) h =
    returned (λ _. Invariant) e ((create_standing_order-Keeps v at input).at s h)
step-Invariant {s} (order_changed v id input at out e) h =
    returned (λ _. Invariant) e ((update_standing_order-Keeps v at id input).at s h)
step-Invariant {s} (order_switched v id status at out e) h =
    returned (λ _. Invariant) e ((set_standing_order_status-Keeps v at id status).at s h)
step-Invariant {s} (order_removed v id out e) h =
    returned (λ _. Invariant) e ((delete_standing_order-Keeps v 0 id).at s h)
step-Invariant {s} (reported v lead_id reason note at out e) h =
    returned (λ _. Invariant) e ((request_refund-Keeps v at lead_id reason note).at s h)
step-Invariant {s} (decided v refund_id input at out e) h =
    returned (λ _. Invariant) e ((decide_refund-Keeps v at refund_id input).at s h)
step-Invariant {s} (swept v at out e) h =
    returned (λ _. Invariant) e ((sweep_leads-Keeps v at).at s h)
step-Invariant {s} (removed v lead_id at out e) h =
    returned (λ _. Invariant) e ((admin_delete_lead-Keeps v at lead_id).at s h)

-- After any sequence of confirmed requests, sales, allocations, retried allocations, changes of
-- standing orders, reports, decisions, sweeps and deletions, where a new lead's id is of no purchased
-- lead, from a state where it holds: no two purchases are of one lead, a lead that is not sold has
-- no purchase, the ledger has for every purchase the row of its account, price and lead, it has a
-- refund row for every approved report, and no listing has more than five standing orders.
pub Reaches-IsConsistent :
    {s s' : MarketDb}
    → Reaches s s'
    → IsConsistent s.leads s.purchases s.credit.ledger s.refunds s.orders s.blocklist
    → IsConsistent s'.leads s'.purchases s'.credit.ledger s'.refunds s'.orders s'.blocklist
Reaches-IsConsistent (start s) h = h
Reaches-IsConsistent (next s t u r k) h = step-Invariant k (Reaches-IsConsistent r h)

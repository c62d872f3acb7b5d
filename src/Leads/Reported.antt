-- ===== src/Leads/Reported.antt =====
-- A report of a bad lead keeps the invariant, and so does the block list.
use directory_platform.Common.{ℕ, Option, List, ◌∷◌, All}
use directory_platform.Store.Rows.{Viewer}
use directory_platform.Leads.{RefundReason}
use directory_platform.Leads.Rows.{LeadPurchase, LeadRefund, BlockRow, MarketDb}
use directory_platform.Leads.Refunds.{refund_row, insert_refund, report_purchase, request_refund}
use directory_platform.Leads.Triple.{
  Keeps, Keeps-pure, Keeps-gets, Keeps-if, Keeps-option, Keeps-bind, Triple-modify,
}
use directory_platform.Leads.Frame.{
  frame-fresh_id, frame-own_profile, frame-write_audit, frame-assert_signed_in,
}
use directory_platform.Leads.Consistent.{IsConsistent, grown, Refunded}
use directory_platform.Leads.Keeps.{Invariant}

-- The reports may change as long as the approved ones are credited.
pub with_refunds :
    (s : MarketDb) (rs : List LeadRefund)
    → All (Refunded s.credit.ledger) rs
    → Invariant s
    → Invariant (record s { refunds = rs })
with_refunds s rs k h = record {
  once = h.once;
  sold = h.sold;
  paid = h.paid;
  refunded = k;
  limited = h.limited;
}

-- The block list is free.
pub with_blocks :
    (s : MarketDb) (bs : List BlockRow) → Invariant s → Invariant (record s { blocklist = bs })
with_blocks s bs h = record {
  once = h.once;
  sold = h.sold;
  paid = h.paid;
  refunded = h.refunded;
  limited = h.limited;
}

module _ (v : Viewer) (at : ℕ) where
  report_purchase-Keeps :
      (lead_id : ℕ) (reason : RefundReason) (note : Option ℕ) (p : LeadPurchase)
      → Keeps Invariant (report_purchase v lead_id reason note at p)
  unfolding report_purchase insert_refund
  report_purchase-Keeps lead_id reason note p = Keeps-bind _ _ (Keeps-gets _) λ reported.
      Keeps-bind _ _ (Keeps-gets _) λ days. Keeps-if reported _ _ (Keeps-pure _) (
        Keeps-if _ _ _ (Keeps-pure _) (
          Keeps-bind _ _ (frame-fresh_id IsConsistent grown) λ id.
            Keeps-bind _ _
              (Triple-modify _ λ s h.
                with_refunds s (refund_row id p reason note ∷ s.refunds) (λ e. cc, h.refunded) h)
              λ _. Keeps-bind _ _ (frame-write_audit IsConsistent grown v _ _) λ _. Keeps-pure _))

  pub request_refund-Keeps :
      (lead_id : ℕ) (reason : Option RefundReason) (note : Option ℕ)
      → Keeps Invariant (request_refund v lead_id reason note at)
  unfolding request_refund
  request_refund-Keeps lead_id reason note =
      Keeps-bind _ _ (frame-assert_signed_in IsConsistent grown v) λ _.
        Keeps-option _ _ _ (Keeps-pure _) λ why.
          Keeps-bind _ _ (frame-own_profile IsConsistent grown v) λ profile_id.
            Keeps-bind _ _ (Keeps-gets _)
              λ found. Keeps-option _ _ _ (Keeps-pure _) (report_purchase-Keeps lead_id why note)

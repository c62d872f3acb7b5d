-- ===== src/Leads/Decided.antt =====
-- The decision of a report keeps the invariant; an approval is credited in the same step.
use directory_platform.Common.{
  ℕ, ◌≤◌, ◌≡◌, refl, sym, ap, ◌∙◌, arith, Bool, true, false, not, ◌&&◌, Option, some, List, [], ◌∷◌,
  ◌==◌, ==→eq, if◌then◌else◌, Bool-cases, ◌⊎◌, is_none, find?, any, update, ℤ, All, All-update,
  All-mono, All-update_to, Pairwise, inl, inr,
}
use directory_platform.Store.Rows.{Viewer, public, user, owner, admin}
use directory_platform.Credits.{CreditDb, LedgerRow, lead_refund, same_ref, CreditResult}
use directory_platform.Credits.Operations
use directory_platform.Credits.Operations.{refund_to_credit, find_refund}
use directory_platform.Credits.Balance
use directory_platform.Credits.Entries.{Grows, refund_to_credit-Grows}
use directory_platform.Credits.Once.{Found, refund_to_credit-Found}
use directory_platform.Leads.{max_standing_orders_per_listing}
use directory_platform.Leads.Rows.{
  is_approved, is_rejected, LeadRow, LeadPurchase, LeadRefund, StandingOrder, BlockRow, MarketDb,
}
use directory_platform.Leads.Tx.{◌>>=◌, on_credit, lifted, modify}
use directory_platform.Leads.Orders.{count_orders}
use directory_platform.Leads.Refunds.{
  pending_refund, RefundCase, DecisionInput, decided_row, set_refund, decision_actor,
  finish_decision, carry_out, decide_case, decide_refund,
}
use directory_platform.Leads.Triple.{
  Ends, Triple, Keeps, Keeps-pure, Keeps-gets, Keeps-if, Keeps-option, Triple-bind, Keeps-bind,
  Triple-modify,
}
use directory_platform.Leads.Frame.{
  Holds, Grown, grow, frame-profile_unless_nil, frame-write_audit, frame-enqueue_job,
  frame-assert_admin,
}
use directory_platform.Leads.Consistent.{
  IsConsistent, grown, SoldIfBought, OtherLead, Paid, Refunded, approved_refund, or_right,
}
use directory_platform.Leads.Keeps.{Invariant}
use directory_platform.Leads.Reported.{with_blocks, with_refunds}

-- Between the two statements of an approval the report's own row is behind.
record IsApproving (refund_id : ℕ) (leads : List LeadRow) (purchases : List LeadPurchase)
    (ledger : List LedgerRow) (refunds : List LeadRefund) (orders : List StandingOrder)
    (blocklist : List BlockRow) : Type 0 where
  once : Pairwise OtherLead purchases
  sold : All (SoldIfBought purchases) leads
  paid : All (Paid ledger) purchases
  refunded : All (λ (r : LeadRefund). (r.id == refund_id) ≡ false → Refunded ledger r) refunds
  limited : (l : ℕ) → count_orders l orders ≤ max_standing_orders_per_listing

module _ (refund_id : ℕ) where
  grown_rows : Grown (IsApproving refund_id)
  grown_rows r s h = record {
    once = h.once;
    sold = h.sold;
    paid =
        All-mono (Paid s.credit.ledger) (Paid (r ∷ s.credit.ledger)) (λ p k. inr k) s.purchases
          h.paid;
    refunded = All-mono _ _ (λ x k n a. or_right _ _ (k n a)) s.refunds h.refunded;
    limited = h.limited;
  }

  approving :
      (f : LeadRefund → LeadRefund) (s : MarketDb)
      → ((r : LeadRefund) → (f r).id ≡ r.id)
      → Invariant s
      → Holds (IsApproving refund_id) (set_refund refund_id f s)
  approving f s same h = record {
    once = h.once;
    sold = h.sold;
    paid = h.paid;
    refunded =
        All-update_to (Refunded s.credit.ledger) _ (λ r. r.id == refund_id) f s.refunds
          (λ r e k n. absurd_id r e (ap (λ i. i == refund_id) (sym (same r)) ∙ n)) (λ r e k n. k)
          h.refunded;
    limited = h.limited;
  }
    where
      absurd_id :
          {P : Type 0} (r : LeadRefund)
          → (r.id == refund_id) ≡ true
          → (r.id == refund_id) ≡ false
          → P
      absurd_id r e n = cc

  -- The ledger has the row of the refund.
  abbrev HasRefund : List LedgerRow → Type 0
  HasRefund ledger =
      any (λ (e : LedgerRow). same_ref e.ref (some (lead_refund refund_id))) ledger ≡ true

  found_any :
      (row : LedgerRow) (ledger : List LedgerRow)
      → find? (λ (e : LedgerRow). same_ref e.ref (some (lead_refund refund_id))) ledger ≡ some row
      → HasRefund ledger
  found_any row [] e = ground arith
  found_any row (x ∷ xs) e = ground (arith, found_any row xs)

  credited :
      (s : MarketDb) → HasRefund s.credit.ledger → Holds (IsApproving refund_id) s → Invariant s
  credited s has h = record {
    once = h.once;
    sold = h.sold;
    paid = h.paid;
    refunded =
        All-mono _ (Refunded s.credit.ledger) (λ r k. by_id r k (Bool-cases _)) s.refunds
          h.refunded;
    limited = h.limited;
  }
    where
      by_id :
          (r : LeadRefund)
          → ((r.id == refund_id) ≡ false → Refunded s.credit.ledger r)
          → (((r.id == refund_id) ≡ true) ⊎ ((r.id == refund_id) ≡ false))
          → Refunded s.credit.ledger r
      by_id r k (inl e) a = rw (==→eq r.id refund_id e) has
      by_id r k (inr n) a = k n a

  -- The credit of an approval.
  credit-Invariant :
      (v : Viewer) (u : ℕ) (cents : ℤ) (note : ℕ)
      → Triple
          (Holds (IsApproving refund_id))
          (on_credit (refund_to_credit v u cents note refund_id))
          (λ _. Invariant)
  unfolding on_credit Found
  credit-Invariant v u cents note = record {
    at = λ s h.
        ends s _ (refund_to_credit-Grows v u cents note refund_id s.credit)
          (refund_to_credit-Found v u cents note refund_id s.credit) h;
  }
    where
      has : (id : ℕ) (c : CreditDb) → Found refund_id id c → HasRefund c.ledger
      has id c f = found_any f.0 c.ledger f.1

      ends :
          (s : MarketDb) (r : CreditResult Operations.Refunded)
          → Balance.Ends (λ _. Grows s.credit) r
          → Balance.Ends (λ x c. Found refund_id x.entry_id c) r
          → Holds (IsApproving refund_id) s
          → Ends (λ _. Invariant) (lifted s r)
      ends s (CreditResult.err e) g f h = tt
      ends s (CreditResult.ok x c) g f h =
          credited (record s { credit = c }) (has x.entry_id c f.holds)
            (grow (IsApproving refund_id) grown_rows s c g.holds h)

not_approved :
    (b : Bool) → b ≡ false → approved_refund (if b then is_approved else is_rejected) ≡ true → ⊥
not_approved b e a = ground arith

module _ (v : Viewer) (at : ℕ) where
  finish-Keeps :
      (c : RefundCase) (approve blocked : Bool)
      → Keeps Invariant (finish_decision v c approve blocked)
  unfolding finish_decision
  finish-Keeps c approve blocked =
      Keeps-bind _ _ (frame-write_audit IsConsistent grown v _ _)
        λ _. frame-enqueue_job IsConsistent grown _

  actor-Keeps : Keeps Invariant (decision_actor v)
  unfolding decision_actor
  actor-Keeps = of_viewer v
    where
      of_viewer : (w : Viewer) → Keeps Invariant (decision_actor w)
      of_viewer (admin u) = frame-profile_unless_nil IsConsistent grown u
      of_viewer public = Keeps-pure _
      of_viewer (user u) = Keeps-pure _
      of_viewer (owner u) = Keeps-pure _

  decide_case-Keeps :
      (input : DecisionInput) (c : RefundCase) → Keeps Invariant (decide_case v input at c)
  unfolding decide_case carry_out
  decide_case-Keeps input c = Keeps-bind _ _ actor-Keeps λ actor. by_answer actor input.approve refl
    where
      rejected_rows :
          (actor : Option ℕ) (s : MarketDb)
          → input.approve ≡ false
          → Invariant s
          → All
              (Refunded s.credit.ledger)
              (update (λ r. r.id == c.refund.id) (decided_row input actor at) s.refunds)
      rejected_rows actor s e h =
          All-update (Refunded s.credit.ledger) (λ r. r.id == c.refund.id)
            (decided_row input actor at) s.refunds
            (λ r q k a. absurd (not_approved input.approve e a)) h.refunded

      by_answer :
          (actor : Option ℕ) (b : Bool)
          → input.approve ≡ b
          → Keeps Invariant (
              modify (set_refund c.refund.id (decided_row input actor at)) >>= λ _.
              carry_out v input at c b)
      by_answer actor true e =
          Triple-bind (λ _. Holds (IsApproving c.refund.id)) _ _
            (Triple-modify _
              λ s h. approving c.refund.id (decided_row input actor at) s (λ r. refl) h)
            λ _.
              Triple-bind (λ _. Invariant) _ _ (credit-Invariant c.refund.id v _ _ _)
                λ back.
                  Keeps-bind _ _ (Triple-modify _ λ s h. with_blocks s _ h)
                    λ _. Keeps-bind _ _ (finish-Keeps c true _) λ _. Keeps-pure _
      by_answer actor false e =
          Keeps-bind _ _ (Triple-modify _ λ s h. with_refunds s _ (rejected_rows actor s e h) h)
            λ _. Keeps-bind _ _ (finish-Keeps c false false) λ _. Keeps-pure _

  pub decide_refund-Keeps :
      (refund_id : ℕ) (input : DecisionInput) → Keeps Invariant (decide_refund v refund_id input at)
  unfolding decide_refund
  decide_refund-Keeps refund_id input =
      Keeps-bind _ _ (frame-assert_admin IsConsistent grown v) λ _.
        Keeps-if (not input.approve && is_none input.note) _ _ (Keeps-pure _) (
          Keeps-bind _ _ (Keeps-gets _) λ found. Keeps-option _ _ _ (Keeps-pure _) λ c.
            Keeps-if (not (pending_refund c.refund.status)) _ _ (Keeps-pure _)
              (decide_case-Keeps input c))

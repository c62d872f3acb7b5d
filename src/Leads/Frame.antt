-- ===== src/Leads/Frame.antt =====
-- What the steps that write no lead, purchase, report, standing order or block leave alone. `F`
-- is any property of these tables and of the ledger that one more ledger row does not spoil.
use directory_platform.Common.{ℕ, ◌≡◌, ◌==◌, sym, subst, not, List, ◌∷◌, inl, inr, ℤ, pos}
use directory_platform.Store.Rows.{Viewer, public, user, owner, admin}
use directory_platform.Store.Tx.{is_admin, is_public}
use directory_platform.Credits.{
  CreditDb, forbidden, not_positive, conflict, unavailable, insufficient_credit, CreditResult,
  LedgerRow,
}
use directory_platform.Credits.Operations.{Posted, refund_to_credit}
use directory_platform.Credits.Balance
use directory_platform.Credits.Balance.{SameLedger, ensure_profile-SameLedger}
use directory_platform.Credits.Entries.{
  Adds, Grows, purchase_row, debit_for_purchase-Adds, refund_to_credit-Grows, ensure_profile-Grows,
}
use directory_platform.Leads.Rows.{
  LeadRow, LeadPurchase, LeadRefund, StandingOrder, BlockRow, MarketDb, LeadAction, LeadJob,
}
use directory_platform.Leads.Tx.{
  assert_signed_in, assert_admin, lifted, on_credit, Debit, paid, short, caught, try_debit,
  fresh_id, own_profile, profile_unless_nil, audit_actor, write_audit, enqueue_job,
}
use directory_platform.Leads.Triple.{
  Ends, Triple, Keeps, Keeps-pure, Triple-throw, Keeps-if, Keeps-bind, Triple-modify, Keeps-require,
}

abbrev pub Tables : Type 1
Tables =
    List LeadRow
    → List LeadPurchase
    → List LedgerRow
    → List LeadRefund
    → List StandingOrder
    → List BlockRow
    → Type 0

abbrev pub Holds : Tables → MarketDb → Type 0
Holds F s = F s.leads s.purchases s.credit.ledger s.refunds s.orders s.blocklist

-- One more row of the ledger does not spoil it.
abbrev pub Grown : Tables → Type 0
Grown F =
    (r : LedgerRow) (s : MarketDb)
    → Holds F s
    → F s.leads s.purchases (r ∷ s.credit.ledger) s.refunds s.orders s.blocklist

module _ (F : Tables) (grown : Grown F) where
  abbrev pub WithLedger : MarketDb → List LedgerRow → Type 0
  WithLedger s l = F s.leads s.purchases l s.refunds s.orders s.blocklist

  pub grow : (s : MarketDb) (c : CreditDb) → Grows s.credit c → Holds F s → WithLedger s c.ledger
  grow s c (inl same) h = subst (WithLedger s) (sym same) h
  grow s c (inr (r, e)) h = subst (WithLedger s) (sym e) (grown r s h)

  frame-lifted :
      {A : Type 0} (s : MarketDb) (r : CreditResult A)
      → Balance.Ends (λ _. Grows s.credit) r
      → Holds F s
      → Ends (λ _. Holds F) (lifted s r)
  unfolding grow
  frame-lifted s (CreditResult.ok a c) k h = grow s c k.holds h
  frame-lifted s (CreditResult.err e) k h = tt

  frame-on_credit :
      {A : Type 0} (op : CreditDb → CreditResult A)
      → ((c : CreditDb) → Balance.Ends (λ _. Grows c) (op c))
      → Keeps (Holds F) (on_credit op)
  unfolding on_credit
  frame-on_credit op k = record { at = λ s h. frame-lifted s (op s.credit) (k s.credit) h }

  pub frame-refund :
      (v : Viewer) (u : ℕ) (cents : ℤ) (note refund_id : ℕ)
      → Keeps (Holds F) (on_credit (refund_to_credit v u cents note refund_id))
  frame-refund v u cents note refund_id =
      frame-on_credit _ (refund_to_credit-Grows v u cents note refund_id)

  pub frame-fresh_id : Keeps (Holds F) fresh_id
  unfolding fresh_id
  frame-fresh_id = record { at = λ s h. h }

  pub frame-own_profile : (v : Viewer) → Keeps (Holds F) (own_profile v)
  unfolding own_profile
  frame-own_profile public = Triple-throw _
  frame-own_profile (user u) = frame-on_credit _ (ensure_profile-Grows u)
  frame-own_profile (owner u) = frame-on_credit _ (ensure_profile-Grows u)
  frame-own_profile (admin u) = frame-on_credit _ (ensure_profile-Grows u)

  pub frame-profile_unless_nil : (u : ℕ) → Keeps (Holds F) (profile_unless_nil u)
  unfolding profile_unless_nil
  frame-profile_unless_nil u =
      Keeps-if (u == 0) _ _ (Keeps-pure _)
        (Keeps-bind _ _ (frame-on_credit _ (ensure_profile-Grows u)) λ id. Keeps-pure _)

  pub frame-audit_actor : (v : Viewer) → Keeps (Holds F) (audit_actor v)
  unfolding audit_actor
  frame-audit_actor public = Keeps-pure _
  frame-audit_actor (user u) = frame-profile_unless_nil u
  frame-audit_actor (owner u) = frame-profile_unless_nil u
  frame-audit_actor (admin u) = frame-profile_unless_nil u

  pub frame-write_audit :
      (v : Viewer) (a : LeadAction) (e : ℕ) → Keeps (Holds F) (write_audit v a e)
  unfolding write_audit
  frame-write_audit v a e = Keeps-bind _ _ (frame-audit_actor v) λ actor. Triple-modify _ (λ s h. h)

  pub frame-enqueue_job : (j : LeadJob) → Keeps (Holds F) (enqueue_job j)
  unfolding enqueue_job
  frame-enqueue_job j = Triple-modify _ (λ s h. h)

  pub frame-assert_signed_in : (v : Viewer) → Keeps (Holds F) (assert_signed_in v)
  unfolding assert_signed_in
  frame-assert_signed_in v = Keeps-require (not (is_public v))

  pub frame-assert_admin : (v : Viewer) → Keeps (Holds F) (assert_admin v)
  unfolding assert_admin
  frame-assert_admin v = Keeps-require (is_admin v)

-- The ledger has the row of the purchase, if the debit went through.
abbrev pub Entered : ℕ → ℕ → ℕ → Debit → MarketDb → Type 0
Entered u cents lead_id (paid p) s =
    (rest : List LedgerRow) × (s.credit.ledger
      ≡ purchase_row u (pos cents) lead_id p.entry_id ∷ rest)
Entered u cents lead_id (short balance needed) s = Unit

module _ (F : Tables) (grown : Grown F) (u cents lead_id : ℕ) where
  caught-Entered :
      (s : MarketDb) (r : CreditResult Posted)
      → Balance.Ends (λ p c. Adds (purchase_row u (pos cents) lead_id p.entry_id) s.credit c) r
      → Holds F s
      → Ends (λ d s'. Holds F s' × Entered u cents lead_id d s') (caught s r)
  unfolding grow
  caught-Entered s (CreditResult.ok p c) k h =
      (grow F grown s c (inr (_, k.holds)) h, (s.credit.ledger, k.holds))
  caught-Entered s (CreditResult.err (insufficient_credit b n)) k h = (h, tt)
  caught-Entered s (CreditResult.err forbidden) k h = tt
  caught-Entered s (CreditResult.err not_positive) k h = tt
  caught-Entered s (CreditResult.err conflict) k h = tt
  caught-Entered s (CreditResult.err unavailable) k h = tt

  -- A debit keeps the tables, and one that goes through has entered its row.
  pub try_debit-Entered :
      (v : Viewer)
      → Triple
          (Holds F)
          (try_debit v u cents lead_id)
          (λ d s. Holds F s × Entered u cents lead_id d s)
  unfolding try_debit
  try_debit-Entered v = record {
    at = λ s h. caught-Entered s _ (debit_for_purchase-Adds v u (pos cents) lead_id s.credit) h;
  }

-- ===== src/Credits/Solvent.antt =====
-- What a purchase leaves, that no account is ever overdrawn.
use directory_platform.Common.{ℕ, ◌≡◌, sym, ap, ◌∙◌, false, inl, inr, ℤ, neg, is_negative}
use directory_platform.Store.Rows.{Viewer}
use directory_platform.Credits.{CreditDb, ok, credit_balance}
use directory_platform.Credits.Operations.{Posted, debit_for_purchase}
use directory_platform.Credits.Balance.{ended, Moves, positive_not_negative, +ℤ_comm}
use directory_platform.Credits.Steps.{
  Credited, Adjusted, debit_for_purchase-Spent, post_ledger-Credited, refund_to_credit-Credited,
  admin_adjust-Adjusted, NoneNegative, SameLedger-NoneNegative, Moves-NoneNegative, Step, topped_up,
  debited, refunded, adjusted_by, Reaches, start, next,
}

-- A purchase that goes through takes its price from the balance of its account and from no
-- other's, answers with the balance that is left, and that is not negative.
pub debit_for_purchase_exact :
    (v : Viewer) (u : ℕ) (cents : ℤ) (lead_id : ℕ) (p : Posted) (s s' : CreditDb)
    → debit_for_purchase v u cents lead_id s ≡ ok p s'
    → Moves u (neg cents) s s'
      × (credit_balance s' u ≡ p.balance_cents)
      × (is_negative p.balance_cents ≡ false)
debit_for_purchase_exact v u cents lead_id p s s' e =
    let r = ended e (debit_for_purchase-Spent v u cents lead_id s) in (r.moves, r.told, r.covered)

Credited-NoneNegative : (s s' : CreditDb) → Credited s s' → NoneNegative s → NoneNegative s'
unfolding Credited
Credited-NoneNegative s s' (inl same) h = SameLedger-NoneNegative s s' same h
Credited-NoneNegative s s' (inr (u, d, p, m)) h =
    Moves-NoneNegative u d s s' m (positive_not_negative d _ p (h u)) h

Adjusted-NoneNegative : (s s' : CreditDb) → Adjusted s s' → NoneNegative s → NoneNegative s'
unfolding Adjusted
Adjusted-NoneNegative s s' (inl same) h = SameLedger-NoneNegative s s' same h
Adjusted-NoneNegative s s' (inr (u, d, p, m)) h =
    Moves-NoneNegative u d s s' m (ap is_negative (+ℤ_comm d (credit_balance s u)) ∙ p) h

step-NoneNegative : {s s' : CreditDb} → Step s s' → NoneNegative s → NoneNegative s'
step-NoneNegative (topped_up v e id s s' p q) h =
    Credited-NoneNegative s s' (ended q (post_ledger-Credited v e s p)) h
step-NoneNegative (debited v u cents lead_id p s s' q) h =
    let r = debit_for_purchase_exact v u cents lead_id p s s' q in
    Moves-NoneNegative u (neg cents) s s' r.0 (ap is_negative (sym r.0.0 ∙ r.1) ∙ r.2) h
step-NoneNegative (refunded v u cents note refund_id r s s' q) h =
    Credited-NoneNegative s s' (ended q (refund_to_credit-Credited v u cents note refund_id s)) h
step-NoneNegative (adjusted_by v u cents note r s s' q) h =
    Adjusted-NoneNegative s s' (ended q (admin_adjust-Adjusted v u cents note s)) h

-- If no account starts with a debt, none has one after any sequence of purchases, refunds,
-- adjustments and top-ups of a positive amount.
pub Reaches-NoneNegative : {s s' : CreditDb} → Reaches s s' → NoneNegative s → NoneNegative s'
Reaches-NoneNegative (start s) h = h
Reaches-NoneNegative (next s t s' r k) h = step-NoneNegative k (Reaches-NoneNegative r h)

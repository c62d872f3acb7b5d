-- ===== src/Credits/Entries.antt =====
-- Which row each operation on the ledger adds.
use directory_platform.Common.{
  ℕ, ◌≡◌, ◌⊎◌, inl, inr, refl, ap, ◌∙◌, not, Option, none, some, ◌∷◌, ℤ, ltb_ℤ, is_not_positive,
}
use directory_platform.Store.Rows.{Viewer}
use directory_platform.Store.Tx.{is_admin}
use directory_platform.Credits.{
  CreditDb, LedgerRow, forbidden, not_positive, insufficient_credit, CreditResult, ok, err,
  credit_balance, EntryInput, row_of, inserted, insert_entry, ensure_profile,
}
use directory_platform.Credits.Operations.{
  purchase_entry, spend, debit_for_purchase, refund_entry, find_refund, refund_once,
  refund_to_credit,
}
use directory_platform.Credits.Balance.{
  Ends, Ends-ok, Ends-err, Ends-if, Ends-after, SameLedger, assert_acts_for-SameLedger,
  ensure_profile-SameLedger,
}
use directory_platform.Credits.Once.{insert_entry-inserted}

-- One more row, at the front.
abbrev pub Adds : LedgerRow → CreditDb → CreditDb → Type 0
Adds r s s' = s'.ledger ≡ r ∷ s.ledger

added :
    (e : EntryInput) (id : ℕ) (s s' : CreditDb)
    → id ≡ s.uuid s.drawn
    → s' ≡ inserted e s
    → Adds (row_of e id) s s'
added e id s s' i q = rw (q, i) refl

Ends-weaken :
    {A : Type 0} {R Q : A → CreditDb → Type 0} (r : CreditResult A)
    → Ends R r
    → ((a : A) (s : CreditDb) → R a s → Q a s)
    → Ends Q r
Ends-weaken (ok a s) h k = Ends-ok a s (k a s h.holds)
Ends-weaken (err e) h k = Ends-err e

pub insert_entry-Adds :
    (e : EntryInput) (s : CreditDb) → Ends (λ id s'. Adds (row_of e id) s s') (insert_entry e s)
insert_entry-Adds e s =
    Ends-weaken _ (insert_entry-inserted e s) (λ id s' h. added e id s s' h.0 h.1)

-- The row of a purchase.
abbrev pub purchase_row : ℕ → ℤ → ℕ → ℕ → LedgerRow
purchase_row user_id cents lead_id id = row_of (purchase_entry user_id cents lead_id) id

spend-Adds :
    (u : ℕ) (cents : ℤ) (lead_id : ℕ) (s s₁ : CreditDb)
    → SameLedger s s₁
    → Ends (λ p s'. Adds (purchase_row u cents lead_id p.entry_id) s s') (spend u cents lead_id s₁)
unfolding spend
spend-Adds u cents lead_id s s₁ same =
    let balance = credit_balance s₁ u in
    Ends-if (ltb_ℤ balance cents) (err (insufficient_credit balance cents)) _ (λ _. Ends-err _)
      λ _.
        Ends-after _ _ _ (insert_entry-Adds (purchase_entry u cents lead_id) s₁)
          λ id s' h. Ends-ok _ _ (h ∙ ap (◌∷◌ (purchase_row u cents lead_id id)) same)

pub debit_for_purchase-Adds :
    (v : Viewer) (u : ℕ) (cents : ℤ) (lead_id : ℕ) (s : CreditDb)
    → Ends
        (λ p s'. Adds (purchase_row u cents lead_id p.entry_id) s s')
        (debit_for_purchase v u cents lead_id s)
unfolding debit_for_purchase
debit_for_purchase-Adds v u cents lead_id s =
    Ends-after _ _ _ (assert_acts_for-SameLedger v u s) λ t s₁ same.
      Ends-if (is_not_positive cents) (err not_positive) _ (λ _. Ends-err _)
        (λ _. spend-Adds u cents lead_id s s₁ same)

-- The ledger is as it was, or has one more row.
abbrev pub Grows : CreditDb → CreditDb → Type 0
Grows s s' = SameLedger s s' ⊎ ((r : LedgerRow) × Adds r s s')

refund_once-Grows :
    (u : ℕ) (cents : ℤ) (note refund_id : ℕ) (o : Option LedgerRow) (s : CreditDb)
    → Ends (λ _. Grows s) (refund_once u cents note refund_id o s)
unfolding refund_once
refund_once-Grows u cents note refund_id (some r) s = Ends-ok _ _ (inl refl)
refund_once-Grows u cents note refund_id none s =
    Ends-after _ _ _ (insert_entry-Adds (refund_entry u cents note refund_id) s)
      λ id s' h. Ends-ok _ _ (inr (row_of (refund_entry u cents note refund_id) id, h))

pub refund_to_credit-Grows :
    (v : Viewer) (u : ℕ) (cents : ℤ) (note refund_id : ℕ) (s : CreditDb)
    → Ends (λ _. Grows s) (refund_to_credit v u cents note refund_id s)
unfolding refund_to_credit
refund_to_credit-Grows v u cents note refund_id s =
    Ends-if (not (is_admin v)) (err forbidden) _ (λ _. Ends-err _)
      λ _.
        Ends-if (is_not_positive cents) (err not_positive) _ (λ _. Ends-err _)
          (λ _. refund_once-Grows u cents note refund_id (find_refund refund_id s) s)

pub ensure_profile-Grows : (u : ℕ) (s : CreditDb) → Ends (λ _. Grows s) (ensure_profile u s)
ensure_profile-Grows u s = Ends-weaken _ (ensure_profile-SameLedger u s) (λ a s' h. inl h)

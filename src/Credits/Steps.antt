-- ===== src/Credits/Steps.antt =====
-- The operations of Credits/Operations.antt, each with what it adds to a balance, and any sequence
-- of them.
use directory_platform.Common.{
  ℕ, zero, suc, ◌≡◌, ◌⊎◌, refl, ap, ◌∙◌, false, not, Option, none, some, List, ◌==◌, ==→eq, ==→ne,
  Bool-cases, inl, inr, any, ℤ, ◌+ℤ◌, neg, ltb_ℤ, is_negative, is_zero, is_not_positive,
}
use directory_platform.Store.Rows.{ProfileRow, Viewer, public, user, owner, admin}
use directory_platform.Store.Tx.{is_admin}
use directory_platform.Credits.{
  CreditDb, LedgerRow, forbidden, not_positive, insufficient_credit, ok, err, credit_balance,
  EntryInput, order_taken,
}
use directory_platform.Credits.Operations.{
  post_ledger, Posted, purchase_entry, spend, debit_for_purchase, Refunded, refund_entry,
  find_refund, refund_once, refund_to_credit, AdjustResult, would_go_negative, invalid_amount,
  unknown_account, adjust_entry, adjust_actor, adjust_account, adjust_noted, admin_adjust,
}
use directory_platform.Credits.Balance.{
  +ℤ_comm, Ends, Ends-after, Ends-err, Ends-if, Ends-ok, Moves, Moves-SameLedger, SameLedger,
  assert_acts_for-SameLedger, ensure_profile-SameLedger, insert_entry-Moves, neg_not_negative,
}

-- what a purchase leaves
pub record Spent (u : ℕ) (cents : ℤ) (s : CreditDb) (p : Posted) (s' : CreditDb) : Type 0 where
  pub moves : Moves u (neg cents) s s'
  pub told : credit_balance s' u ≡ p.balance_cents
  pub covered : is_negative p.balance_cents ≡ false

spend-Spent :
    (u : ℕ) (cents : ℤ) (lead_id : ℕ) (s s₁ : CreditDb)
    → SameLedger s s₁
    → is_not_positive cents ≡ false
    → Ends (Spent u cents s) (spend u cents lead_id s₁)
unfolding spend
spend-Spent u cents lead_id s s₁ same p =
    let b = credit_balance s₁ u in
    Ends-if (ltb_ℤ b cents) (err (insufficient_credit b cents)) _ (λ _. Ends-err _)
      λ enough. Ends-after _ _ _ (insert_entry-Moves (purchase_entry u cents lead_id) s₁) λ id s' m.
        Ends-ok _ _ (record {
          moves = Moves-SameLedger u (neg cents) s s₁ s' same m;
          told = m.0 ∙ +ℤ_comm (neg cents) b;
          covered = ap is_negative (+ℤ_comm b (neg cents)) ∙ neg_not_negative b cents p enough;
        })

pub debit_for_purchase-Spent :
    (v : Viewer) (u : ℕ) (cents : ℤ) (lead_id : ℕ) (s : CreditDb)
    → Ends (Spent u cents s) (debit_for_purchase v u cents lead_id s)
unfolding debit_for_purchase
debit_for_purchase-Spent v u cents lead_id s =
    Ends-after _ _ _ (assert_acts_for-SameLedger v u s) λ t s₁ same.
      Ends-if (is_not_positive cents) (err not_positive) _ (λ _. Ends-err _)
        (spend-Spent u cents lead_id s s₁ same)

-- the ledger is as it was, or has one more entry that credits an account
unfoldable pub Credited : CreditDb → CreditDb → Type 0
Credited s s' = SameLedger s s' ⊎ ((u : ℕ) × (d : ℤ) × (is_not_positive d ≡ false) × Moves u d s s')

pub post_ledger-Credited :
    (v : Viewer) (e : EntryInput) (s : CreditDb)
    → is_not_positive e.delta_cents ≡ false
    → Ends (λ _. Credited s) (post_ledger v e s)
unfolding post_ledger Credited
post_ledger-Credited v e s p =
    Ends-if (not (is_admin v)) (err forbidden) _ (λ _. Ends-err _)
      λ _.
        Ends-if (order_taken e s) (ok none s) _ (λ _. Ends-ok _ _ (inl refl))
          λ _.
            Ends-after _ _ _ (insert_entry-Moves e s)
              λ id s' m. Ends-ok _ _ (inr (e.user_id, e.delta_cents, p, m))

refund_once-Credited :
    (u : ℕ) (cents : ℤ) (note refund_id : ℕ) (o : Option LedgerRow) (s : CreditDb)
    → is_not_positive cents ≡ false
    → Ends (λ _. Credited s) (refund_once u cents note refund_id o s)
unfolding refund_once Credited
refund_once-Credited u cents note refund_id (some r) s p = Ends-ok _ _ (inl refl)
refund_once-Credited u cents note refund_id none s p =
    Ends-after _ _ _ (insert_entry-Moves (refund_entry u cents note refund_id) s)
      λ id s' m. Ends-ok _ _ (inr (u, cents, p, m))

pub refund_to_credit-Credited :
    (v : Viewer) (u : ℕ) (cents : ℤ) (note refund_id : ℕ) (s : CreditDb)
    → Ends (λ _. Credited s) (refund_to_credit v u cents note refund_id s)
unfolding refund_to_credit
refund_to_credit-Credited v u cents note refund_id s =
    Ends-if (not (is_admin v)) (err forbidden) _ (λ _. Ends-err _)
      λ _.
        Ends-if (is_not_positive cents) (err not_positive) _ (λ _. Ends-err _)
          (refund_once-Credited u cents note refund_id (find_refund refund_id s) s)

-- the ledger is as it was, or an account moved to a balance that is not negative
unfoldable pub Adjusted : CreditDb → CreditDb → Type 0
Adjusted s s' =
    SameLedger s s'
    ⊎ ((u : ℕ) × (d : ℤ) × (is_negative (credit_balance s u +ℤ d) ≡ false) × Moves u d s s')

adjust_actor-SameLedger : (v : Viewer) (s : CreditDb) → Ends (λ _. SameLedger s) (adjust_actor v s)
unfolding adjust_actor
adjust_actor-SameLedger public s = Ends-ok _ _ refl
adjust_actor-SameLedger (user u) s = Ends-ok _ _ refl
adjust_actor-SameLedger (owner u) s = Ends-ok _ _ refl
adjust_actor-SameLedger (admin zero) s = Ends-ok _ _ refl
adjust_actor-SameLedger (admin (suc u)) s =
    Ends-after _ _ _ (ensure_profile-SameLedger (suc u) s) λ id s' h. Ends-ok _ _ h

adjust_account-Adjusted :
    (v : Viewer) (u : ℕ) (cents : ℤ) (note : ℕ) (s : CreditDb)
    → Ends (λ _. Adjusted s) (adjust_account v u cents note s)
unfolding adjust_account Adjusted
adjust_account-Adjusted v u cents note s =
    let before = credit_balance s u in
    Ends-if (is_negative (before +ℤ cents)) (ok (would_go_negative before) s) _
      (λ _. Ends-ok _ _ (inl refl))
      λ p. Ends-after _ _ _ (adjust_actor-SameLedger v s) λ actor s₁ same.
        Ends-after _ _ _ (insert_entry-Moves (adjust_entry u cents note actor) s₁)
          λ id s₂ m. Ends-ok _ _ (inr (u, cents, p, Moves-SameLedger u cents s s₁ s₂ same m))

adjust_noted-Adjusted :
    (v : Viewer) (u : ℕ) (cents : ℤ) (note : Option ℕ) (s : CreditDb)
    → Ends (λ _. Adjusted s) (adjust_noted v u cents note s)
unfolding adjust_noted Adjusted
adjust_noted-Adjusted v u cents none s = Ends-ok _ _ (inl refl)
adjust_noted-Adjusted v u cents (some text) s =
    Ends-if (is_zero cents) (ok invalid_amount s) _ (λ _. Ends-ok _ _ (inl refl))
      λ _.
        Ends-if (not (any (λ (p : ProfileRow). p.id == u) s.profiles)) (ok unknown_account s) _
          (λ _. Ends-ok _ _ (inl refl)) (λ _. adjust_account-Adjusted v u cents text s)

pub admin_adjust-Adjusted :
    (v : Viewer) (u : ℕ) (cents : ℤ) (note : Option ℕ) (s : CreditDb)
    → Ends (λ _. Adjusted s) (admin_adjust v u cents note s)
unfolding admin_adjust
admin_adjust-Adjusted v u cents note s =
    Ends-if (not (is_admin v)) (err forbidden) _ (λ _. Ends-err _)
      (λ _. adjust_noted-Adjusted v u cents note s)

-- No account owes anything.
abbrev pub NoneNegative : CreditDb → Type 0
NoneNegative s = (u : ℕ) → is_negative (credit_balance s u) ≡ false

pub SameLedger-NoneNegative : (s s' : CreditDb) → SameLedger s s' → NoneNegative s → NoneNegative s'
SameLedger-NoneNegative s s' e h w =
    ap (λ (l : List LedgerRow). is_negative (credit_balance (record s { ledger = l }) w)) e ∙ h w

pub Moves-NoneNegative :
    (u : ℕ) (d : ℤ) (s s' : CreditDb)
    → Moves u d s s'
    → is_negative (d +ℤ credit_balance s u) ≡ false
    → NoneNegative s
    → NoneNegative s'
Moves-NoneNegative u d s s' m p h w = elim (Bool-cases (w == u)) [
  | inl e ↦ ap is_negative (ap (credit_balance s') (==→eq w u e) ∙ m.0) ∙ p
  | inr e ↦ ap is_negative (m.1 w (==→ne w u e)) ∙ h w
]

-- The operations on the ledger, in any order. A top-up's entry is posted for a pack's price.
pub data Step : CreditDb → CreditDb → Type 0 where
  topped_up :
      (v : Viewer) (e : EntryInput) (id : Option ℕ) (s s' : CreditDb)
      → is_not_positive e.delta_cents ≡ false
      → post_ledger v e s ≡ ok id s'
      → Step s s'
  debited :
      (v : Viewer) (u : ℕ) (cents : ℤ) (lead_id : ℕ) (p : Posted) (s s' : CreditDb)
      → debit_for_purchase v u cents lead_id s ≡ ok p s'
      → Step s s'
  refunded :
      (v : Viewer) (u : ℕ) (cents : ℤ) (note refund_id : ℕ) (r : Refunded) (s s' : CreditDb)
      → refund_to_credit v u cents note refund_id s ≡ ok r s'
      → Step s s'
  adjusted_by :
      (v : Viewer) (u : ℕ) (cents : ℤ) (note : Option ℕ) (r : AdjustResult) (s s' : CreditDb)
      → admin_adjust v u cents note s ≡ ok r s'
      → Step s s'

pub data Reaches : CreditDb → CreditDb → Type 0 where
  start : (s : CreditDb) → Reaches s s
  next : (s t u : CreditDb) → Reaches s t → Step t u → Reaches s u

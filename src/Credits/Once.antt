-- ===== src/Credits/Once.antt =====
-- A refund is credited once, and so is an order.
use directory_platform.Common.{
  ℕ, ◌≡◌, refl, sym, ◌∙◌, true, false, not, Option, none, some, ==_self, ℤ, is_not_positive,
}
use directory_platform.Store.Rows.{Viewer}
use directory_platform.Store.Tx.{is_admin}
use directory_platform.Credits.{
  CreditDb, LedgerRow, forbidden, not_positive, conflict, ok, err, credit_balance, EntryInput,
  row_of, order_taken, refund_taken, inserted, insert_entry,
}
use directory_platform.Credits.Operations.{
  post_ledger, Refunded, refund_entry, find_refund, refund_once, refund_to_credit,
}
use directory_platform.Credits.Balance.{Ends, Ends-ok, Ends-err, Ends-if, Ends-after, ended}

-- The entry of the refund, and its id.
unfoldable pub Found : ℕ → ℕ → CreditDb → Type 0
Found refund_id entry_id s =
    (row : LedgerRow) × (find_refund refund_id s ≡ some row) × (row.id ≡ entry_id)

pub insert_entry-inserted :
    (e : EntryInput) (s : CreditDb)
    → Ends (λ id s'. (id ≡ s.uuid s.drawn) × (s' ≡ inserted e s)) (insert_entry e s)
unfolding insert_entry
insert_entry-inserted e s =
    Ends-if (order_taken e s) (err conflict) _ (λ _. Ends-err conflict)
      (λ _.
        Ends-if (refund_taken e s) (err conflict) (ok (s.uuid s.drawn) (inserted e s))
          (λ _. Ends-err conflict) (λ _. Ends-ok _ _ (refl, refl)))

find_inserted :
    (u : ℕ) (cents : ℤ) (note refund_id : ℕ) (s : CreditDb)
    → find_refund refund_id (inserted (refund_entry u cents note refund_id) s)
      ≡ some (row_of (refund_entry u cents note refund_id) (s.uuid s.drawn))
find_inserted u cents note refund_id s = rw (==_self refund_id) refl

Found-inserted :
    (u : ℕ) (cents : ℤ) (note refund_id id : ℕ) (s s' : CreditDb)
    → id ≡ s.uuid s.drawn
    → s' ≡ inserted (refund_entry u cents note refund_id) s
    → Found refund_id id s'
unfolding Found
Found-inserted u cents note refund_id id s s' i e =
    rw (i, e)
      (
        row_of (refund_entry u cents note refund_id) (s.uuid s.drawn),
        find_inserted u cents note refund_id s,
        refl,
      )

refund_once-Found :
    (u : ℕ) (cents : ℤ) (note refund_id : ℕ) (s : CreditDb) (o : Option LedgerRow)
    → find_refund refund_id s ≡ o
    → Ends (λ x s'. Found refund_id x.entry_id s') (refund_once u cents note refund_id o s)
unfolding refund_once Found
refund_once-Found u cents note refund_id s (some r) e = Ends-ok _ _ (r, e, refl)
refund_once-Found u cents note refund_id s none e =
    Ends-after _ _ _ (insert_entry-inserted (refund_entry u cents note refund_id) s)
      λ id s' h. Ends-ok _ _ (Found-inserted u cents note refund_id id s s' h.0 h.1)

pub refund_to_credit-Found :
    (v : Viewer) (u : ℕ) (cents : ℤ) (note refund_id : ℕ) (s : CreditDb)
    → Ends (λ x s'. Found refund_id x.entry_id s') (refund_to_credit v u cents note refund_id s)
unfolding refund_to_credit
refund_to_credit-Found v u cents note refund_id s =
    Ends-if (not (is_admin v)) (err forbidden) _ (λ _. Ends-err _)
      λ _.
        Ends-if (is_not_positive cents) (err not_positive) _ (λ _. Ends-err _)
          (λ _. refund_once-Found u cents note refund_id s (find_refund refund_id s) refl)

-- Once a refund has been credited, approving it again, by whichever admin and for whatever
-- positive amount, changes nothing and answers with the entry that was made first.
pub refund_to_credit_once :
    (v w : Viewer) (u u' : ℕ) (cents cents' : ℤ) (note note' refund_id : ℕ) (x : Refunded)
    (s s' : CreditDb)
    → refund_to_credit v u cents note refund_id s ≡ ok x s'
    → is_admin w ≡ true
    → is_not_positive cents' ≡ false
    → refund_to_credit w u' cents' note' refund_id s'
      ≡ ok
          (record {
            entry_id = x.entry_id;
            balance_cents = credit_balance s' u';
            already_refunded = true;
          })
          s'
unfolding refund_to_credit refund_once Found
refund_to_credit_once v w u u' cents cents' note note' refund_id x s s' e a p =
    let (row, found, same) = ended e (refund_to_credit-Found v u cents note refund_id s) in
    rw (a, p, found, same) refl

taken_again :
    (e e' : EntryInput) (id o : ℕ) (s s' : CreditDb)
    → e.order_id ≡ some o
    → e'.order_id ≡ some o
    → s' ≡ inserted e s
    → order_taken e' s' ≡ true
taken_again e e' id o s s' h h' q = rw (q, h', h, ==_self o) refl

same_order :
    (e e' : EntryInput) (s : CreditDb)
    → e.order_id ≡ e'.order_id
    → order_taken e s ≡ true
    → order_taken e' s ≡ true
same_order e e' s q h = rw q at h

post_ledger-taken :
    (v : Viewer) (e e' : EntryInput) (o : ℕ) (s : CreditDb)
    → e.order_id ≡ some o
    → e'.order_id ≡ some o
    → Ends (λ id s'. order_taken e' s' ≡ true) (post_ledger v e s)
unfolding post_ledger
post_ledger-taken v e e' o s h h' =
    Ends-if (not (is_admin v)) (err forbidden) _ (λ _. Ends-err _)
      λ _.
        Ends-if (order_taken e s) (ok none s) _
          (λ t. Ends-ok _ _ (same_order e e' s (h ∙ sym h') t))
          λ _.
            Ends-after _ _ _ (insert_entry-inserted e s)
              λ id s' q. Ends-ok _ _ (taken_again e e' id o s s' h h' q.1)

-- Once an entry has been posted for an order, no entry for that order, of whatever account or
-- amount, is posted again: an admin's attempt answers with no entry and changes nothing.
pub post_ledger_once :
    (v w : Viewer) (e e' : EntryInput) (o : ℕ) (id : Option ℕ) (s s' : CreditDb)
    → e.order_id ≡ some o
    → e'.order_id ≡ some o
    → post_ledger v e s ≡ ok id s'
    → is_admin w ≡ true
    → post_ledger w e' s' ≡ ok none s'
unfolding post_ledger
post_ledger_once v w e e' o id s s' h h' q a =
    let t = ended q (post_ledger-taken v e e' o s h h') in rw (a, t) refl

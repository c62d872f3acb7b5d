-- ===== src/Credits/Operations.antt =====
-- What is done with the ledger: entries posted, purchases, refunds and adjustments
-- (lib/db/queries/credits.ts).
use directory_platform.Common.{
  ℕ, zero, suc, Bool, true, false, not, Option, none, some, ◌∷◌, ◌==◌, if◌then◌else◌, find?, any, ℤ,
  ◌+ℤ◌, neg, ltb_ℤ, is_negative, is_zero, is_not_positive,
}
use directory_platform.Store.Rows.{Viewer, admin}
use directory_platform.Store.Tx.{is_admin}
use directory_platform.Credits.{
  CreditDb, CreditResult, EntryInput, LedgerRow, adjust, after, assert_acts_for, credit_balance,
  ensure_profile, err, forbidden, insert_entry, insufficient_credit, lead, lead_refund,
  not_positive, ok, order_taken, purchase, refund, same_ref,
}

-- `postLedger`: an order that has its entry is not credited again.
unfoldable pub post_ledger : Viewer → EntryInput → CreditDb → CreditResult (Option ℕ)
post_ledger viewer e s =
    if not (is_admin viewer)
    then err forbidden
    else if order_taken e s
    then ok none s
    else after (insert_entry e s) (λ id s'. ok (some id) s')

pub record Posted : Type 0 where
  pub entry_id : ℕ
  pub balance_cents : ℤ

abbrev pub purchase_entry : ℕ → ℤ → ℕ → EntryInput
purchase_entry user_id cents lead_id = record {
  user_id = user_id;
  delta_cents = neg cents;
  kind = purchase;
  ref = some (lead lead_id);
  note = none;
  order_id = none;
  created_by = none;
}

unfoldable pub spend : ℕ → ℤ → ℕ → CreditDb → CreditResult Posted
spend user_id cents lead_id s =
    let balance = credit_balance s user_id in
    if ltb_ℤ balance cents
    then err (insufficient_credit balance cents)
    else after (insert_entry (purchase_entry user_id cents lead_id) s)
        λ id s'. ok (record { entry_id = id; balance_cents = balance +ℤ neg cents }) s'

-- `debitForPurchase`
unfoldable pub debit_for_purchase : Viewer → ℕ → ℤ → ℕ → CreditDb → CreditResult Posted
debit_for_purchase viewer user_id cents lead_id s =
    after (assert_acts_for viewer user_id s)
      λ t s'. if is_not_positive cents then err not_positive else spend user_id cents lead_id s'

pub record Refunded : Type 0 where
  pub entry_id : ℕ
  pub balance_cents : ℤ
  pub already_refunded : Bool

-- the note is the number of "Refund for lead …"
abbrev pub refund_entry : ℕ → ℤ → ℕ → ℕ → EntryInput
refund_entry user_id cents note refund_id = record {
  user_id = user_id;
  delta_cents = cents;
  kind = refund;
  ref = some (lead_refund refund_id);
  note = some note;
  order_id = none;
  created_by = none;
}

abbrev pub find_refund : ℕ → CreditDb → Option LedgerRow
find_refund refund_id s = find? (λ r. same_ref r.ref (some (lead_refund refund_id))) s.ledger

-- A second approval of a refund finds its entry.
unfoldable pub refund_once : ℕ → ℤ → ℕ → ℕ → Option LedgerRow → CreditDb → CreditResult Refunded
refund_once user_id cents note refund_id (some r) s =
    ok
      (record {
        entry_id = r.id;
        balance_cents = credit_balance s user_id;
        already_refunded = true;
      })
      s
refund_once user_id cents note refund_id none s =
    after (insert_entry (refund_entry user_id cents note refund_id) s) λ id s'.
      ok
        (record {
          entry_id = id;
          balance_cents = credit_balance s' user_id;
          already_refunded = false;
        })
        s'

-- `refundToCredit`
unfoldable pub refund_to_credit : Viewer → ℕ → ℤ → ℕ → ℕ → CreditDb → CreditResult Refunded
refund_to_credit viewer user_id cents note refund_id s =
    if not (is_admin viewer)
    then err forbidden
    else if is_not_positive cents
    then err not_positive
    else refund_once user_id cents note refund_id (find_refund refund_id s) s

pub data AdjustResult : Type 0 where
  adjusted would_go_negative : ℤ → AdjustResult
  note_required invalid_amount unknown_account : AdjustResult

abbrev pub adjust_entry : ℕ → ℤ → ℕ → Option ℕ → EntryInput
adjust_entry user_id cents note actor = record {
  user_id = user_id;
  delta_cents = cents;
  kind = adjust;
  ref = none;
  note = some note;
  order_id = none;
  created_by = actor;
}

-- the admin's profile; the system's nil uuid, here 0, records nobody
unfoldable pub adjust_actor : Viewer → CreditDb → CreditResult (Option ℕ)
adjust_actor (admin zero) s = ok none s
adjust_actor (admin (suc u)) s = after (ensure_profile (suc u) s) (λ id s'. ok (some id) s')
adjust_actor _ s = ok none s

unfoldable pub adjust_account : Viewer → ℕ → ℤ → ℕ → CreditDb → CreditResult AdjustResult
adjust_account viewer user_id cents note s =
    let before = credit_balance s user_id in
    if is_negative (before +ℤ cents)
    then ok (would_go_negative before) s
    else after (adjust_actor viewer s) λ actor s₁.
      after (insert_entry (adjust_entry user_id cents note actor) s₁) λ id s₂.
        ok (adjusted (before +ℤ cents)) (record s₂ {
          audit_log =
              record {
                entity_id = user_id;
                cents = cents;
                note = note;
                balance_before = before;
                balance_after = before +ℤ cents;
              }
              ∷ s₂.audit_log;
        })

unfoldable pub adjust_noted : Viewer → ℕ → ℤ → Option ℕ → CreditDb → CreditResult AdjustResult
adjust_noted viewer user_id cents none s = ok note_required s
adjust_noted viewer user_id cents (some text) s =
    if is_zero cents
    then ok invalid_amount s
    else if not (any (λ p. p.id == user_id) s.profiles)
    then ok unknown_account s
    else adjust_account viewer user_id cents text s

-- `adminAdjust`; the note is what is left of the text after `trim`, if anything is
unfoldable pub admin_adjust : Viewer → ℕ → ℤ → Option ℕ → CreditDb → CreditResult AdjustResult
admin_adjust viewer user_id cents note s =
    if not (is_admin viewer) then err forbidden else adjust_noted viewer user_id cents note s

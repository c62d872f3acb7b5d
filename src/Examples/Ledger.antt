-- ===== src/Examples/Ledger.antt =====
-- The theorems on the ledger, applied to an account of 50 units.
use directory_platform.Common.{
  ◌+◌, ◌≡◌, refl, arith, true, false, none, some, [], ◌∷◌, pos, negsuc, is_negative,
}
use directory_platform.Store.Rows.{owner, admin}
use directory_platform.Credits.{
  topup, credit_order, CreditDb, CreditResult, ok, err, credit_balance, EntryInput, insert_entry,
  ensure_profile, is_own_profile, assert_acts_for,
}
use directory_platform.Credits.Operations.{
  post_ledger, Posted, spend, debit_for_purchase, Refunded, refund_once, refund_to_credit,
}
use directory_platform.Credits.Balance.{Moves}
use directory_platform.Credits.Steps.{NoneNegative, debited, start, next}
use directory_platform.Credits.Solvent.{debit_for_purchase_exact, Reaches-NoneNegative}
use directory_platform.Credits.Once.{refund_to_credit_once, post_ledger_once}

abbrev no_entries : CreditDb
no_entries = record {
  ledger = [];
  profiles = record { id = 107; user_id = 7 } ∷ [];
  audit_log = [];
  uuid = λ n. n + 1000;
  drawn = 0;
}

abbrev state_of : {A : Type 0} → CreditResult A → CreditDb
state_of (ok a s) = s
state_of (err e) = no_entries

abbrev top_up : EntryInput
top_up = record {
  user_id = 107;
  delta_cents = pos 5000;
  kind = topup;
  ref = some (credit_order 1);
  note = none;
  order_id = some 77;
  created_by = none;
}

unfoldable funded : CreditDb
funded = state_of (post_ledger (admin 0) top_up no_entries)

funded_run : post_ledger (admin 0) top_up no_entries ≡ ok (some 1000) funded
unfolding funded post_ledger insert_entry
funded_run = refl

post_ledger_once_example : post_ledger (admin 3) top_up funded ≡ ok none funded
post_ledger_once_example =
    post_ledger_once (admin 0) (admin 3) top_up top_up 77 (some 1000) no_entries funded refl refl
      funded_run refl

unfoldable bought : CreditDb
bought = state_of (debit_for_purchase (owner 7) 107 (pos 1500) 4 funded)

abbrev receipt : Posted
receipt = record { entry_id = 1001; balance_cents = pos 3500 }

bought_run : debit_for_purchase (owner 7) 107 (pos 1500) 4 funded ≡ ok receipt bought
unfolding bought funded post_ledger insert_entry ensure_profile is_own_profile assert_acts_for spend
    debit_for_purchase
bought_run = refl

debit_for_purchase_exact_example :
    Moves 107 (negsuc 1499) funded bought
    × (credit_balance bought 107 ≡ pos 3500)
    × (is_negative (pos 3500) ≡ false)
debit_for_purchase_exact_example =
    debit_for_purchase_exact (owner 7) 107 (pos 1500) 4 receipt funded bought bought_run

funded-NoneNegative : NoneNegative funded
unfolding funded post_ledger insert_entry
funded-NoneNegative u = ground arith

Reaches-NoneNegative_example : NoneNegative bought
Reaches-NoneNegative_example =
    Reaches-NoneNegative
      (next funded funded bought (start funded)
        (debited (owner 7) 107 (pos 1500) 4 receipt funded bought bought_run))
      funded-NoneNegative

unfoldable refunded : CreditDb
refunded = state_of (refund_to_credit (admin 0) 107 (pos 1500) 8 60 no_entries)

abbrev refund_receipt : Refunded
refund_receipt = record { entry_id = 1000; balance_cents = pos 1500; already_refunded = false }

refunded_run :
    refund_to_credit (admin 0) 107 (pos 1500) 8 60 no_entries ≡ ok refund_receipt refunded
unfolding refunded refund_to_credit refund_once insert_entry
refunded_run = refl

refund_to_credit_once_example :
    refund_to_credit (admin 3) 107 (pos 900) 9 60 refunded
    ≡ ok
        (record {
          entry_id = 1000;
          balance_cents = credit_balance refunded 107;
          already_refunded = true;
        })
        refunded
refund_to_credit_once_example =
    refund_to_credit_once (admin 0) (admin 3) 107 107 (pos 1500) (pos 900) 8 9 60 refund_receipt
      no_entries refunded refunded_run refl refl

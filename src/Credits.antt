-- ===== src/Credits.antt =====
-- The prepaid lead-credit ledger (lib/db/queries/credits.ts, lib/db/schema/credits.ts). The
-- balance of an account is the sum of its rows. An advisory lock holds an account from the read
-- of its balance to the end of the transaction, so an operation here is one step on the ledger.
pub mod Operations
pub mod Balance
pub mod Steps
pub mod Solvent
pub mod Once
pub mod Entries
use directory_platform.Common.{
  ℕ, zero, suc, ◌+◌, Bool, true, false, not, ◌&&◌, Option, none, some, List, [], ◌∷◌, ◌++◌, ◌==◌,
  if◌then◌else◌, option_eq, is_some, find?, any, ℤ, pos, negsuc, ◌+ℤ◌, neg, ltb_ℤ, is_negative,
  is_zero, is_not_positive,
}
use directory_platform.Store.Rows.{ProfileRow, Viewer, public, user, owner, admin}
use directory_platform.Store.Tx.{is_admin}

pub data CreditKind : Type 0 where
  topup purchase refund adjust : CreditKind

-- `ref_type` and `ref_id`
pub data Ref : Type 0 where
  credit_order lead lead_refund : ℕ → Ref

-- A row of `credit_ledger`; a note is the number of its text.
pub record LedgerRow : Type 0 where
  pub id : ℕ
  pub user_id : ℕ
  pub delta_cents : ℤ
  pub kind : CreditKind
  pub ref : Option Ref
  pub note : Option ℕ
  pub order_id : Option ℕ
  pub created_by : Option ℕ

-- An audit row `credit.adjusted` with its `meta`.
pub record AdjustAudit : Type 0 where
  pub entity_id : ℕ
  pub cents : ℤ
  pub note : ℕ
  pub balance_before : ℤ
  pub balance_after : ℤ

pub record CreditDb : Type 0 where
  -- the newest first
  pub ledger : List LedgerRow
  pub profiles : List ProfileRow
  pub audit_log : List AdjustAudit
  pub uuid : ℕ → ℕ
  pub drawn : ℕ

-- What is thrown: `FORBIDDEN`, `assertPositiveCents`, `InsufficientCredit`, a unique index, and
-- what the payment provider's client throws.
pub data CreditFailure : Type 0 where
  forbidden not_positive conflict unavailable : CreditFailure
  insufficient_credit : ℤ → ℤ → CreditFailure

pub data CreditResult (A : Type 0) : Type 0 where
  ok : A → CreditDb → CreditResult A
  err : CreditFailure → CreditResult A

-- the rest of a function after a step that may throw
abbrev pub after :
    {A B : Type 0} → CreditResult A → (A → CreditDb → CreditResult B) → CreditResult B
after (ok a s) f = f a s
after (err e) f = err e

abbrev pub balance_in : List LedgerRow → ℕ → ℤ
balance_in [] u = pos 0
balance_in (r ∷ rs) u =
    let rest = balance_in rs u in if r.user_id == u then r.delta_cents +ℤ rest else rest

-- `creditBalance`
abbrev pub credit_balance : CreditDb → ℕ → ℤ
credit_balance s u = balance_in s.ledger u

-- What an entry says besides its account and amount.
pub record EntryInput : Type 0 where
  pub user_id : ℕ
  pub delta_cents : ℤ
  pub kind : CreditKind
  pub ref : Option Ref
  pub note : Option ℕ
  pub order_id : Option ℕ
  pub created_by : Option ℕ

abbrev pub row_of : EntryInput → ℕ → LedgerRow
row_of e id = record {
  id = id;
  user_id = e.user_id;
  delta_cents = e.delta_cents;
  kind = e.kind;
  ref = e.ref;
  note = e.note;
  order_id = e.order_id;
  created_by = e.created_by;
}

abbrev pub has_order : Option ℕ → LedgerRow → Bool
has_order none r = false
has_order (some o) r = option_eq r.order_id (some o)

abbrev is_refund : CreditKind → Bool
is_refund refund = true
is_refund _ = false

abbrev pub same_ref : Option Ref → Option Ref → Bool
same_ref (some (credit_order a)) (some (credit_order b)) = a == b
same_ref (some (lead a)) (some (lead b)) = a == b
same_ref (some (lead_refund a)) (some (lead_refund b)) = a == b
same_ref _ _ = false

-- `credit_ledger_order_key`
abbrev pub order_taken : EntryInput → CreditDb → Bool
order_taken e s = any (has_order e.order_id) s.ledger

-- `credit_ledger_refund_key`: one row of kind refund for a reference
abbrev pub refund_taken : EntryInput → CreditDb → Bool
refund_taken e s = is_refund e.kind && any (λ r. is_refund r.kind && same_ref r.ref e.ref) s.ledger

abbrev pub inserted : EntryInput → CreditDb → CreditDb
inserted e s = record s { ledger = row_of e (s.uuid s.drawn) ∷ s.ledger; drawn = s.drawn + 1 }

-- an insert that a unique index can refuse, and the id of the new row
unfoldable pub insert_entry : EntryInput → CreditDb → CreditResult ℕ
insert_entry e s =
    if order_taken e s
    then err conflict
    else if refund_taken e s
    then err conflict
    else ok (s.uuid s.drawn) (inserted e s)

-- `ensureProfile` and the id of the profile
unfoldable pub ensure_profile : ℕ → CreditDb → CreditResult ℕ
ensure_profile u s = elim (find? (λ p. p.user_id == u) s.profiles) [
  | some p ↦ ok p.id s
  | none ↦ ok (s.uuid s.drawn) (record s {
    profiles = s.profiles ++ record { id = s.uuid s.drawn; user_id = u } ∷ [];
    drawn = s.drawn + 1;
  })
]

unfoldable pub is_own_profile : ℕ → ℕ → CreditDb → CreditResult (Unit {0})
is_own_profile user_id id s = if id == user_id then ok tt s else err forbidden

-- An admin acts for anyone; a signed-in user only for their own profile.
unfoldable pub assert_acts_for : Viewer → ℕ → CreditDb → CreditResult (Unit {0})
assert_acts_for public user_id s = err forbidden
assert_acts_for (admin u) user_id s = ok tt s
assert_acts_for (user u) user_id s = after (ensure_profile u s) (is_own_profile user_id)
assert_acts_for (owner u) user_id s = after (ensure_profile u s) (is_own_profile user_id)

-- ===== src/Credits/Balance.antt =====
-- The balances of the ledger of Credits.antt, and the two ways an operation may end.
use directory_platform.Common.{
  ℕ, ◌+◌, ◌≡◌, ◌≢◌, refl, ap, ◌∙◌, arith, Bool, true, false, Option, none, some, List, [], ◌∷◌,
  ◌++◌, ◌==◌, if◌then◌else◌, find?, ℤ, ◌+ℤ◌, neg, ltb_ℤ, is_negative, is_not_positive,
}
use directory_platform.Store.Rows.{ProfileRow, Viewer, public, user, owner, admin}
use directory_platform.Credits.{
  CreditDb, LedgerRow, CreditFailure, forbidden, conflict, CreditResult, ok, err, after,
  credit_balance, EntryInput, order_taken, refund_taken, inserted, insert_entry, ensure_profile,
  is_own_profile, assert_acts_for,
}

-- What holds of an operation that does not throw; one that throws writes nothing.
abbrev EndsWith : {A : Type 0} → (A → CreditDb → Type 0) → CreditResult A → Type 0
EndsWith Q (ok a s) = Q a s
EndsWith Q (err e) = Unit

pub record Ends {A : Type 0} (Q : A → CreditDb → Type 0) (r : CreditResult A) : Type 0 where
  pub holds : EndsWith Q r

module _ {A : Type 0} {Q : A → CreditDb → Type 0} where
  pub Ends-ok : (a : A) (s : CreditDb) → Q a s → Ends Q (ok a s)
  Ends-ok a s h = record { holds = h }

  pub Ends-err : (e : CreditFailure) → Ends Q (err e)
  Ends-err e = record { holds = tt }

  pub Ends-if :
      (b : Bool) (m n : CreditResult A)
      → (b ≡ true → Ends Q m)
      → (b ≡ false → Ends Q n)
      → Ends Q (if b then m else n)
  Ends-if true m n h k = h refl
  Ends-if false m n h k = k refl

  pub ended : {r : CreditResult A} {a : A} {s : CreditDb} → r ≡ ok a s → Ends Q r → Q a s
  ended e h = let k = h.holds in rw e at k

module _ {A B : Type 0} {Q : B → CreditDb → Type 0} where
  pub Ends-after :
      (R : A → CreditDb → Type 0) (r : CreditResult A) (f : A → CreditDb → CreditResult B)
      → Ends R r
      → ((a : A) (s : CreditDb) → R a s → Ends Q (f a s))
      → Ends Q (after r f)
  Ends-after R (ok a s) f h k = k a s h.holds
  Ends-after R (err e) f h k = Ends-err e

-- The ledger is what it was.
abbrev pub SameLedger : CreditDb → CreditDb → Type 0
SameLedger s s' = s'.ledger ≡ s.ledger

pub ensure_profile-SameLedger :
    (u : ℕ) (s : CreditDb) → Ends (λ _. SameLedger s) (ensure_profile u s)
unfolding ensure_profile
ensure_profile-SameLedger u s = found (find? (λ (p : ProfileRow). p.user_id == u) s.profiles)
  where
    found :
        (o : Option ProfileRow)
        → Ends
            (λ _. SameLedger s)
            (elim o [
              | some p ↦ ok p.id s
              | none ↦ ok (s.uuid s.drawn) (record s {
                profiles = s.profiles ++ record { id = s.uuid s.drawn; user_id = u } ∷ [];
                drawn = s.drawn + 1;
              })
            ])
    found none = Ends-ok _ _ refl
    found (some p) = Ends-ok _ _ refl

own_profile-SameLedger :
    (s : CreditDb) (user_id id : ℕ) (s' : CreditDb)
    → SameLedger s s'
    → Ends (λ _. SameLedger s) (is_own_profile user_id id s')
unfolding is_own_profile
own_profile-SameLedger s user_id id s' h =
    Ends-if (id == user_id) (ok tt s') (err forbidden) (λ e. Ends-ok tt s' h)
      (λ e. Ends-err forbidden)

pub assert_acts_for-SameLedger :
    (v : Viewer) (u : ℕ) (s : CreditDb) → Ends (λ _. SameLedger s) (assert_acts_for v u s)
unfolding assert_acts_for
assert_acts_for-SameLedger public u s = Ends-err _
assert_acts_for-SameLedger (admin a) u s = Ends-ok _ _ refl
assert_acts_for-SameLedger (user a) u s =
    Ends-after _ _ _ (ensure_profile-SameLedger a s) (own_profile-SameLedger s u)
assert_acts_for-SameLedger (owner a) u s =
    Ends-after _ _ _ (ensure_profile-SameLedger a s) (own_profile-SameLedger s u)

-- The balances after an entry: the account's moves by the amount, and no other.
abbrev pub Moves : ℕ → ℤ → CreditDb → CreditDb → Type 0
Moves u delta s s' =
    (credit_balance s' u ≡ delta +ℤ credit_balance s u)
    × ((w : ℕ) → w ≢ u → credit_balance s' w ≡ credit_balance s w)

inserted-Moves : (e : EntryInput) (s : CreditDb) → Moves e.user_id e.delta_cents s (inserted e s)
inserted-Moves e s = (ground arith, λ w ne. ground arith)

pub insert_entry-Moves :
    (e : EntryInput) (s : CreditDb) → Ends (λ _. Moves e.user_id e.delta_cents s) (insert_entry e s)
unfolding insert_entry
insert_entry-Moves e s =
    Ends-if (order_taken e s) (err conflict) _ (λ _. Ends-err conflict)
      (λ _.
        Ends-if (refund_taken e s) (err conflict) (ok (s.uuid s.drawn) (inserted e s))
          (λ _. Ends-err conflict) (λ _. Ends-ok _ _ (inserted-Moves e s)))

pub Moves-SameLedger :
    (u : ℕ) (d : ℤ) (s s₁ s' : CreditDb) → SameLedger s s₁ → Moves u d s₁ s' → Moves u d s s'
Moves-SameLedger u d s s₁ s' e m = (
  m.0 ∙ ap (λ (l : List LedgerRow). d +ℤ credit_balance (record s { ledger = l }) u) e,
  λ w ne. m.1 w ne ∙ ap (λ (l : List LedgerRow). credit_balance (record s { ledger = l }) w) e,
)

pub neg_not_negative :
    (b c : ℤ) → is_not_positive c ≡ false → ltb_ℤ b c ≡ false → is_negative (neg c +ℤ b) ≡ false
neg_not_negative b c p h = ground arith

pub +ℤ_comm : (a b : ℤ) → a +ℤ b ≡ b +ℤ a
+ℤ_comm a b = ground arith

pub positive_not_negative :
    (d b : ℤ) → is_not_positive d ≡ false → is_negative b ≡ false → is_negative (d +ℤ b) ≡ false
positive_not_negative d b p h = ground arith

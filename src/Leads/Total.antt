-- ===== src/Leads/Total.antt =====
-- Steps of the lead market that do not throw: rules for them, and the steps of a sale.
use directory_platform.Common.{
  ℕ, ◌≡◌, refl, ◌∙◌, Bool, true, false, Option, none, some, List, [], ◌∷◌, ◌==◌, ◌++◌, ◌+◌,
  if◌then◌else◌, find?,
}
use directory_platform.Store.Rows.{Viewer, ProfileRow, public, user, owner, admin}
use directory_platform.Credits.{LedgerRow, CreditResult, ensure_profile}
use directory_platform.Leads.Rows.{LeadPurchase, MarketDb, LeadAction, LeadJob}
use directory_platform.Leads.Tx.{
  MarketResult, ok, err, Market, pure, gets, continue, ◌>>=◌, modify, lifted, on_credit,
  profile_unless_nil, audit_actor, write_audit, enqueue_job, fresh_id,
}
use directory_platform.Leads.Consistent.{is_bought}
use directory_platform.Leads.Sale
use directory_platform.Leads.Sale.{SaleInput, has_purchase, insert_purchase, record_sale}

-- The step returns, and this holds of what it returns and leaves.
abbrev pub Returns : {A : Type 0} → (A → MarketDb → Type 0) → MarketResult A → Type 0
Returns Q (ok a s) = Q a s
Returns Q (err e) = ⊥

pub record Total {A : Type 0} (P : MarketDb → Type 0) (m : Market A) (Q : A → MarketDb → Type 0)
    : Type 0 where
  pub at : (s : MarketDb) → P s → Returns Q (m s)

pub Returns-continue :
    {A B : Type 0} {R : A → MarketDb → Type 0} {Q : B → MarketDb → Type 0} (r : MarketResult A)
    (f : A → Market B)
    → Returns R r
    → ((a : A) → Total (R a) (f a) Q)
    → Returns Q (continue r f)
Returns-continue (ok a s) f h k = (k a).at s h
Returns-continue (err e) f h k = elim h [ ]

module _ {A B : Type 0} {P : MarketDb → Type 0} {Q : B → MarketDb → Type 0} where
  pub Total-bind :
      (R : A → MarketDb → Type 0) (m : Market A) (f : A → Market B)
      → Total P m R
      → ((a : A) → Total (R a) (f a) Q)
      → Total P (m >>= f) Q
  unfolding ◌>>=◌
  Total-bind R m f km kf = record { at = λ s h. Returns-continue (m s) f (km.at s h) kf }

module _ {A : Type 0} {P : MarketDb → Type 0} where
  pub Total-pure :
      {Q : A → MarketDb → Type 0} (a : A) → ((s : MarketDb) → P s → Q a s) → Total P (pure a) Q
  unfolding pure
  Total-pure a h = record { at = h }

  -- a fact about values, apart from the state
  pub Total-given :
      {B : Type 0} {m : Market A} {Q : A → MarketDb → Type 0}
      → (B → Total P m Q)
      → Total (λ s. B × P s) m Q
  Total-given k = record { at = λ s h. (k h.0).at s h.1 }

-- What a step returns when it returns.
pub result_of :
    {A : Type 0} {Q : A → MarketDb → Type 0} (r : MarketResult A)
    → Returns Q r
    → (a : A) × ((s : MarketDb) × ((r ≡ ok a s) × Q a s))
result_of (ok a s) h = (a, (s, (refl, h)))
result_of (err e) h = elim h [ ]

-- The rows of purchases and of the ledger.
abbrev pub BooksAre : List LeadPurchase → List LedgerRow → MarketDb → Type 0
BooksAre ps l s = (s.purchases ≡ ps) × (s.credit.ledger ≡ l)

-- Steps that keep these rows always return.
module _ (ps : List LeadPurchase) (l : List LedgerRow) where
  pub Total-modify :
      (f : MarketDb → MarketDb)
      → ((s : MarketDb) → BooksAre s.purchases s.credit.ledger (f s))
      → Total (BooksAre ps l) (modify f) (λ _. BooksAre ps l)
  unfolding modify
  Total-modify f same = record { at = λ s h. ((same s).0 ∙ h.0, (same s).1 ∙ h.1) }

  total-ensure_profile :
      (u : ℕ) → Total (BooksAre ps l) (on_credit (ensure_profile u)) (λ _. BooksAre ps l)
  unfolding on_credit ensure_profile
  total-ensure_profile u = record {
    at = λ s h. found s h (find? (λ (p : ProfileRow). p.user_id == u) s.credit.profiles);
  }
    where
      found :
          (s : MarketDb)
          → BooksAre ps l s
          → (o : Option ProfileRow)
          → Returns
              (λ _. BooksAre ps l)
              (lifted s (elim o [
                | some p ↦ CreditResult.ok p.id s.credit
                | none ↦ CreditResult.ok (s.credit.uuid s.credit.drawn) (record s.credit {
                  profiles =
                      s.credit.profiles
                      ++ record { id = s.credit.uuid s.credit.drawn; user_id = u } ∷ [];
                  drawn = s.credit.drawn + 1;
                })
              ]))
      found s h none = h
      found s h (some p) = h

  total-unless_nil : (u : ℕ) → Total (BooksAre ps l) (profile_unless_nil u) (λ _. BooksAre ps l)
  unfolding profile_unless_nil
  total-unless_nil u = by_test (u == 0)
    where
      by_test :
          (b : Bool)
          → Total
              (BooksAre ps l)
              (if b then pure none else (on_credit (ensure_profile u) >>= λ id. pure (some id)))
              (λ _. BooksAre ps l)
      by_test true = Total-pure _ (λ s h. h)
      by_test false = Total-bind _ _ _ (total-ensure_profile u) λ id. Total-pure _ (λ s h. h)

  total-actor : (v : Viewer) → Total (BooksAre ps l) (audit_actor v) (λ _. BooksAre ps l)
  unfolding audit_actor
  total-actor public = Total-pure _ (λ s h. h)
  total-actor (user u) = total-unless_nil u
  total-actor (owner u) = total-unless_nil u
  total-actor (admin u) = total-unless_nil u

  pub total-audit :
      (v : Viewer) (a : LeadAction) (e : ℕ)
      → Total (BooksAre ps l) (write_audit v a e) (λ _. BooksAre ps l)
  unfolding write_audit
  total-audit v a e = Total-bind _ _ _ (total-actor v) λ actor. Total-modify _ (λ s. (refl, refl))

  pub total-job : (j : LeadJob) → Total (BooksAre ps l) (enqueue_job j) (λ _. BooksAre ps l)
  unfolding enqueue_job
  total-job j = Total-modify _ (λ s. (refl, refl))

  total-insert_purchase :
      (input : SaleInput) (at : ℕ)
      → is_bought input.lead_id ps ≡ false
      → Total
          (BooksAre ps l)
          (insert_purchase input at)
          (λ id. BooksAre (Sale.purchase_row input id at ∷ ps) l)
  unfolding insert_purchase fresh_id gets modify pure ◌>>=◌
  total-insert_purchase input at free = record { at = λ s h. rw (h.0, free) (refl, h.1) }

pub total-record_sale :
    (ps : List LeadPurchase) (l : List LedgerRow) (v : Viewer) (input : SaleInput) (at : ℕ)
    → is_bought input.lead_id ps ≡ false
    → Total
        (BooksAre ps l)
        (record_sale v input at)
        (λ id. BooksAre (Sale.purchase_row input id at ∷ ps) l)
unfolding record_sale gets
total-record_sale ps l v input at free =
    Total-bind (λ _. BooksAre ps l) _ _ (record { at = λ s h. h })
      λ buyer. Total-bind _ _ _ (total-insert_purchase ps l input at free) λ id.
        let ps' = Sale.purchase_row input id at ∷ ps in
        Total-bind _ _ _ (Total-modify ps' l _ (λ s. (refl, refl)))
          λ _. Total-bind _ _ _ (total-audit ps' l v _ _) λ _. Total-pure _ (λ s h. h)

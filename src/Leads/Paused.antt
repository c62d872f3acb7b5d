-- ===== src/Leads/Paused.antt =====
-- The tables that an allocation writes (lib/leads/allocate.ts), and what a pause does to them.
use directory_platform.Common.{
  some, update, subst, sym, ℕ, ◌≡◌, ap, ◌∙◌, Bool, true, false, not, List, [], ◌∷◌, ◌==◌,
  if◌then◌else◌, pos, ltb_ℤ,
}
use directory_platform.Store.Rows.{Viewer, public, user, owner, admin}
use directory_platform.Credits.{LedgerRow, CreditResult, balance_in, ensure_profile}
use directory_platform.Credits.Balance
use directory_platform.Credits.Balance.{SameLedger, ensure_profile-SameLedger}
use directory_platform.Leads.Rows.{
  LeadRow, LeadPurchase, StandingOrder, MarketDb, LeadAction, LeadJob, is_paused, no_credit,
}
use directory_platform.Leads.Tx.{
  pure, gets, lifted, on_credit, profile_unless_nil, audit_actor, write_audit, enqueue_job,
}
use directory_platform.Leads.Allocate.{pause_for_credit, pause_short}
use directory_platform.Leads.Triple.{
  Ends, Triple, Keeps, Keeps-pure, Triple-pure, Keeps-if, Triple-bind, Keeps-bind, Triple-modify,
  Triple-given,
}

-- The balance of the order's account, by these rows of the ledger, covers its price.
abbrev pub can_pay : List LedgerRow → StandingOrder → Bool
can_pay ledger o = not (ltb_ℤ (balance_in ledger o.user_id) (pos o.price_cents))

-- The tables that a sale and a pause write.
pub record Books : Type 0 where
  pub leads : List LeadRow
  pub purchases : List LeadPurchase
  pub orders : List StandingOrder
  pub ledger : List LedgerRow

abbrev pub books : MarketDb → Books
books s = record {
  leads = s.leads;
  purchases = s.purchases;
  orders = s.orders;
  ledger = s.credit.ledger;
}

abbrev pub BooksBe : Books → MarketDb → Type 0
BooksBe b s = books s ≡ b

-- a row of the ledger
abbrev pub entered : LedgerRow → Books → Books
entered r b = record b { ledger = r ∷ b.ledger }

-- The order is paused for want of credit.
abbrev pub paused_in : ℕ → Books → ℕ → Books
paused_in at b id = record b {
  orders =
      update (λ o. o.id == id)
        (λ o. record o { status = is_paused; paused_reason = some no_credit; updated_at = at })
        b.orders;
}

abbrev pub all_paused : ℕ → Books → List StandingOrder → Books
all_paused at b [] = b
all_paused at b (c ∷ cs) = all_paused at (paused_in at b c.id) cs

-- Of these orders, those whose accounts cannot pay their prices are paused.
abbrev pub short_paused : ℕ → Books → List StandingOrder → Books
short_paused at b [] = b
short_paused at b (c ∷ cs) =
    short_paused at (if can_pay b.ledger c then b else paused_in at b c.id) cs

module _ (b : Books) where
  same-on_credit :
      {A : Type 0} (s : MarketDb) (r : CreditResult A)
      → Balance.Ends (λ _. SameLedger s.credit) r
      → BooksBe b s
      → Ends (λ _. BooksBe b) (lifted s r)
  same-on_credit s (CreditResult.ok a c) k h = ap (λ l. record (books s) { ledger = l }) k.holds ∙ h
  same-on_credit s (CreditResult.err e) k h = tt

  same-profile : (u : ℕ) → Keeps (BooksBe b) (on_credit (ensure_profile u))
  unfolding on_credit
  same-profile u = record {
    at = λ s h. same-on_credit s _ (ensure_profile-SameLedger u s.credit) h;
  }

  same-unless_nil : (u : ℕ) → Keeps (BooksBe b) (profile_unless_nil u)
  unfolding profile_unless_nil
  same-unless_nil u =
      Keeps-if (u == 0) _ _ (Keeps-pure _) (Keeps-bind _ _ (same-profile u) λ id. Keeps-pure _)

  same-actor : (v : Viewer) → Keeps (BooksBe b) (audit_actor v)
  unfolding audit_actor
  same-actor public = Keeps-pure _
  same-actor (user u) = same-unless_nil u
  same-actor (owner u) = same-unless_nil u
  same-actor (admin u) = same-unless_nil u

  pub same-audit : (v : Viewer) (a : LeadAction) (e : ℕ) → Keeps (BooksBe b) (write_audit v a e)
  unfolding write_audit
  same-audit v a e = Keeps-bind _ _ (same-actor v) λ actor. Triple-modify _ (λ s h. h)

  pub same-job : (j : LeadJob) → Keeps (BooksBe b) (enqueue_job j)
  unfolding enqueue_job
  same-job j = Triple-modify _ (λ s h. h)

pub pause-Books :
    (b : Books) (v : Viewer) (id at : ℕ)
    → Triple (BooksBe b) (pause_for_credit v id at) (λ _. BooksBe (paused_in at b id))
unfolding pause_for_credit
pause-Books b v id at =
    let after = paused_in at b id in
    Triple-bind (λ _. BooksBe after) _ _ (Triple-modify _ (λ s h. ap (λ x. paused_in at x id) h))
      λ _. Triple-bind _ _ _ (same-audit after v _ _) λ _. same-job after _

pub pause_short-Books :
    (v : Viewer) (at : ℕ) (cs : List StandingOrder) (b : Books)
    → Triple (BooksBe b) (pause_short v at cs) (λ _. BooksBe (short_paused at b cs))
unfolding pause_short gets
pause_short-Books v at [] b = Triple-pure _ (λ s h. h)
pause_short-Books v at (c ∷ cs) b =
    Triple-bind (λ balance s. (balance_in b.ledger c.user_id ≡ balance) × BooksBe b s) _ _
      (record { at = λ s h. (ap (λ (x : Books). balance_in x.ledger c.user_id) (sym h), h) })
      λ balance. Triple-given λ same.
        Triple-bind (λ _. BooksBe next) _ _
          (subst
            (λ x.
              Triple (BooksBe b)
                (if ltb_ℤ x (pos c.price_cents) then pause_for_credit v c.id at else pure tt)
                (λ _. BooksBe next))
            same (by_test (ltb_ℤ (balance_in b.ledger c.user_id) (pos c.price_cents))))
          λ _. pause_short-Books v at cs next
  where
    next : Books
    next = if can_pay b.ledger c then b else paused_in at b c.id

    by_test :
        (low : Bool)
        → Triple
            (BooksBe b)
            (if low then pause_for_credit v c.id at else pure tt)
            (λ _. BooksBe (if not low then b else paused_in at b c.id))
    by_test true = pause-Books b v c.id at
    by_test false = Triple-pure _ (λ s h. h)

-- ===== src/Leads/Swept.antt =====
-- The sweep of leads leaves nothing for a second sweep at the same instant.
use directory_platform.Common.{
  ℕ, ◌≡◌, refl, ap, ap₂, ◌∙◌, subst, ◌&&◌, any, some, option_eq, Bool, true, false, not, List, [],
  ◌∷◌, filter, length, update, if◌then◌else◌, All, All-update, All-update_to, All-filter,
}
use directory_platform.Store.Rows.{Viewer, public, user, owner, admin}
use directory_platform.Store.Tx.{is_admin}
use directory_platform.Leads.Rows.{LeadRow, BlockRow, MarketDb}
use directory_platform.Leads.Tx.{
  MarketResult, ok, err, pure, gets, ◌>>=◌, modify, require, assert_admin, throw,
}
use directory_platform.Leads.Sweep.{
  lapses, expired_row, goes, purges, purged_row, SweepResult, expire_leads, drop_leads, purge_leads,
  sweep_leads,
}

-- A row does not pass the test.
abbrev Misses : {A : Type 0} → (A → Bool) → A → Type 0
Misses p x = p x ≡ false

module _ {A : Type 0} (p : A → Bool) where
  update_none : (f : A → A) (xs : List A) → All (Misses p) xs → update p f xs ≡ xs
  update_none f [] h = refl
  update_none f (x ∷ xs) h = rw (h.0, update_none f xs h.1) refl

  filter_none : (xs : List A) → All (Misses p) xs → length (filter p xs) ≡ 0
  filter_none [] h = refl
  filter_none (x ∷ xs) h = rw h.0 (filter_none xs h.1)

  keep_all : (xs : List A) → All (Misses p) xs → filter (λ x. not (p x)) xs ≡ xs
  keep_all [] h = refl
  keep_all (x ∷ xs) h = rw h.0 (ap (◌∷◌ x) (keep_all xs h.1))

  dropped_none : (xs : List A) → All (Misses p) (filter (λ x. not (p x)) xs)
  dropped_none [] = tt
  dropped_none (x ∷ xs) = by_test (p x) refl (dropped_none xs)
    where
      by_test :
          (b : Bool)
          → p x ≡ b
          → All (Misses p) (filter (λ x. not (p x)) xs)
          → All
              (Misses p)
              (if not b then x ∷ filter (λ x. not (p x)) xs else filter (λ x. not (p x)) xs)
      by_test true e ih = ih
      by_test false e ih = (e, ih)

all_leads : (ls : List LeadRow) → All (λ _. Unit {0}) ls
all_leads [] = tt
all_leads (l ∷ ls) = (tt, all_leads ls)

abbrev swept : ℕ → MarketDb → MarketDb
swept at s = purge_leads at (drop_leads at (expire_leads at s))

-- Nothing lapses, goes or is purged.
abbrev IsSwept : ℕ → MarketDb → Type 0
IsSwept at s =
    All (Misses (lapses at)) s.leads
    × (All (Misses (goes at s)) s.leads × All (Misses (purges at s)) s.leads)

swept-IsSwept : (at : ℕ) (s : MarketDb) → IsSwept at (swept at s)
swept-IsSwept at s =
    let s₁ = expire_leads at s in
    let s₂ = drop_leads at s₁ in
    let lapsed =
      All-update_to (λ _. Unit) (Misses (lapses at)) (lapses at) (expired_row at) s.leads
        (λ l e h. refl) (λ l e h. e) (all_leads s.leads) in
    (
      All-update _ (purges at s₂) (purged_row at) s₂.leads (λ l e h. h)
          (All-filter _ (λ l. not (goes at s₁ l)) s₁.leads lapsed),
      (
        All-update _ (purges at s₂) (purged_row at) s₂.leads (λ l e h. h)
            (dropped_none (goes at s₁) s₁.leads),
        All-update_to (λ _. Unit) (Misses (purges at s₂)) (purges at s₂) (purged_row at) s₂.leads
            (λ l e h. refl) (λ l e h. e) (all_leads s₂.leads),
      ),
    )

abbrev on_leads : MarketDb → List LeadRow → MarketDb
on_leads s ls = record s { leads = ls }

update_never :
    (p : BlockRow → Bool) (f : BlockRow → BlockRow) (bs : List BlockRow)
    → ((b : BlockRow) → p b ≡ false)
    → update p f bs ≡ bs
update_never p f [] h = refl
update_never p f (b ∷ bs) h = rw (h b) (ap (◌∷◌ b) (update_never p f bs h))

module _ (at : ℕ) (s : MarketDb) where
  -- no row of the block list is of a lead that goes, if none goes
  none_lost :
      (b : BlockRow) (ls : List LeadRow)
      → All (Misses (goes at s)) ls
      → any (λ l. goes at s l && option_eq b.lead_id (some l.id)) ls ≡ false
  none_lost b [] h = refl
  none_lost b (l ∷ ls) h = rw (h.0, none_lost b ls h.1) refl

  none_expired : All (Misses (lapses at)) s.leads → expire_leads at s ≡ s
  none_expired h = ap (on_leads s) (update_none _ (expired_row at) s.leads h)

  none_dropped : All (Misses (goes at s)) s.leads → drop_leads at s ≡ s
  none_dropped h =
      ap₂ (λ ls bs. record s { leads = ls; blocklist = bs }) (keep_all _ s.leads h)
        (update_never _ _ s.blocklist λ b. none_lost b s.leads h)

  none_purged : All (Misses (purges at s)) s.leads → purge_leads at s ≡ s
  none_purged h = ap (on_leads s) (update_none _ (purged_row at) s.leads h)

-- no rows found
abbrev pub nothing_swept : SweepResult
nothing_swept = record { expired = 0; deleted = 0; purged = 0 }

-- what the sweep answers, by the states that its three statements find
abbrev answered : ℕ → MarketDb → MarketDb → MarketDb → MarketDb → MarketResult SweepResult
answered at s s₁ s₂ s₃ =
    ok
      (record {
        expired = length (filter (lapses at) s.leads);
        deleted = length (filter (goes at s₁) s₁.leads);
        purged = length (filter (purges at s₂) s₂.leads);
      })
      s₃

sweep_IsSwept :
    (u at : ℕ) (s : MarketDb) → IsSwept at s → sweep_leads (admin u) at s ≡ ok nothing_swept s
unfolding sweep_leads assert_admin require gets modify pure ◌>>=◌
sweep_IsSwept u at s (l, (g, p)) =
    let e₁ = none_expired at s l in
    let e₂ = ap (λ t. drop_leads at t) e₁ ∙ none_dropped at s g in
    let e₃ = ap (λ t. purge_leads at t) e₂ ∙ none_purged at s p in
    ap (λ t. answered at s t (drop_leads at (expire_leads at s)) (swept at s)) e₁
    ∙ (ap (λ t. answered at s s t (swept at s)) e₂
        ∙ (ap (answered at s s s) e₃
            ∙ rw (filter_none _ s.leads l, filter_none _ s.leads g, filter_none _ s.leads p) refl))

abbrev leaves : MarketResult SweepResult → MarketDb → MarketDb
leaves (ok out s) d = s
leaves (err e) d = d

-- When `sweepLeads` returns, a second sweep at the same instant finds nothing to expire, delete or
-- purge and changes nothing.
pub sweep_leads_twice :
    (v w : Viewer) (at : ℕ) (s s' : MarketDb) (out : SweepResult)
    → sweep_leads v at s ≡ ok out s'
    → is_admin w ≡ true
    → sweep_leads w at s' ≡ ok nothing_swept s'
unfolding sweep_leads assert_admin require gets modify pure throw ◌>>=◌
sweep_leads_twice (admin u) (admin w) at s s' out run h =
    let same : swept at s ≡ s' = ap (λ r. leaves r s) run in
    subst (λ t. sweep_leads (admin w) at t ≡ ok nothing_swept t) same
      (sweep_IsSwept w at (swept at s) (swept-IsSwept at s))
sweep_leads_twice public w at s s' out run h = cc
sweep_leads_twice (user u) w at s s' out run h = cc
sweep_leads_twice (owner u) w at s s' out run h = cc
sweep_leads_twice (admin u) public at s s' out run h = cc
sweep_leads_twice (admin u) (user w) at s s' out run h = cc
sweep_leads_twice (admin u) (owner w) at s s' out run h = cc

-- ===== src/Leads/Ranked.antt =====
-- The order in which standing orders are offered a lead: no candidate is lost, and none that pays
-- less comes before one that pays more.
use directory_platform.Common.{
  ◌≤◌, ◌≡◌, refl, arith, Bool, true, false, none, some, List, [], ◌∷◌, if◌then◌else◌, find?, filter,
  All, All-mono, Pairwise,
}
use directory_platform.Leads.Rows.{StandingOrder}
use directory_platform.Leads.Allocate.{ranks_before, insert_order, rank_orders}

module _ (P : StandingOrder → Type 0) where
  All-of_insert_order :
      (o : StandingOrder) (os : List StandingOrder) → All P (insert_order o os) → P o × All P os
  unfolding insert_order
  All-of_insert_order o [] h = h
  All-of_insert_order o (p ∷ ps) h = by_rank (ranks_before p o) (All-of_insert_order o ps) h
    where
      by_rank :
          (b : Bool)
          → (All P (insert_order o ps) → P o × All P ps)
          → All P (if b then p ∷ insert_order o ps else o ∷ p ∷ ps)
          → P o × (P p × All P ps)
      by_rank true ih h = ((ih h.1).0, (h.0, (ih h.1).1))
      by_rank false ih h = h

  pub All-of_rank_orders : (os : List StandingOrder) → All P (rank_orders os) → All P os
  unfolding rank_orders
  All-of_rank_orders [] h = tt
  All-of_rank_orders (o ∷ os) h =
      let (k, ks) = All-of_insert_order o (rank_orders os) h in (k, All-of_rank_orders os ks)

  All-insert_order :
      (o : StandingOrder) (os : List StandingOrder) → P o → All P os → All P (insert_order o os)
  unfolding insert_order
  All-insert_order o [] k h = (k, tt)
  All-insert_order o (p ∷ ps) k h = by_rank (ranks_before p o) (All-insert_order o ps k h.1)
    where
      by_rank :
          (b : Bool)
          → All P (insert_order o ps)
          → All P (if b then p ∷ insert_order o ps else o ∷ p ∷ ps)
      by_rank true ih = (h.0, ih)
      by_rank false ih = (k, h)

  pub All-rank_orders : (os : List StandingOrder) → All P os → All P (rank_orders os)
  unfolding rank_orders
  All-rank_orders [] h = tt
  All-rank_orders (o ∷ os) h = All-insert_order o (rank_orders os) h.0 (All-rank_orders os h.1)

  pub All-of_filter :
      (p : StandingOrder → Bool) (os : List StandingOrder)
      → All P (filter p os)
      → All (λ o. p o ≡ true → P o) os
  All-of_filter p [] h = tt
  All-of_filter p (o ∷ os) h = by_test (p o) refl (All-of_filter p os) h
    where
      by_test :
          (b : Bool)
          → p o ≡ b
          → (All P (filter p os) → All (λ o. p o ≡ true → P o) os)
          → All P (if b then o ∷ filter p os else filter p os)
          → (p o ≡ true → P o) × All (λ o. p o ≡ true → P o) os
      by_test true e ih h = (λ _. h.0, ih h.1)
      by_test false e ih h = (λ k. cc, ih h)

-- the earlier order pays at least as much
abbrev pub PaysAsMuch : StandingOrder → StandingOrder → Type 0
PaysAsMuch a b = b.price_cents ≤ a.price_cents

before_pays : (a b : StandingOrder) → ranks_before a b ≡ true → PaysAsMuch a b
unfolding ranks_before
before_pays a b h = ground arith

not_before_pays : (a b : StandingOrder) → ranks_before a b ≡ false → PaysAsMuch b a
unfolding ranks_before
not_before_pays a b h = ground arith

pays_trans : (a b c : StandingOrder) → PaysAsMuch a b → PaysAsMuch b c → PaysAsMuch a c
pays_trans a b c h k = omega arith

insert_order-Pairwise :
    (o : StandingOrder) (os : List StandingOrder)
    → Pairwise PaysAsMuch os
    → Pairwise PaysAsMuch (insert_order o os)
unfolding insert_order
insert_order-Pairwise o [] h = (tt, tt)
insert_order-Pairwise o (p ∷ ps) h =
    by_rank (ranks_before p o) refl (insert_order-Pairwise o ps h.1)
  where
    by_rank :
        (b : Bool)
        → ranks_before p o ≡ b
        → Pairwise PaysAsMuch (insert_order o ps)
        → Pairwise PaysAsMuch (if b then p ∷ insert_order o ps else o ∷ p ∷ ps)
    by_rank true e ih = (All-insert_order (PaysAsMuch p) o ps (before_pays p o e) h.0, ih)
    by_rank false e ih =
        let k = not_before_pays p o e in
        ((k, All-mono (PaysAsMuch p) (PaysAsMuch o) (λ q m. pays_trans o p q k m) ps h.0), h)

pub rank_orders-Pairwise : (os : List StandingOrder) → Pairwise PaysAsMuch (rank_orders os)
unfolding rank_orders
rank_orders-Pairwise [] = tt
rank_orders-Pairwise (o ∷ os) = insert_order-Pairwise o (rank_orders os) (rank_orders-Pairwise os)

same_pay : (a b q : StandingOrder) → a ≡ b → PaysAsMuch a q → PaysAsMuch b q
same_pay a b q e m = rw (← e) m

-- The first that passes a test pays at least as much as any other that passes it.
pub first_pays_most :
    (p : StandingOrder → Bool) (os : List StandingOrder) (c : StandingOrder)
    → Pairwise PaysAsMuch os
    → find? p os ≡ some c
    → All (λ o. p o ≡ true → PaysAsMuch c o) os
first_pays_most p [] c h e = tt
first_pays_most p (o ∷ os) c h e = by_test (p o) refl (first_pays_most p os c h.1) e
  where
    by_test :
        (b : Bool)
        → p o ≡ b
        → (find? p os ≡ some c → All (λ o. p o ≡ true → PaysAsMuch c o) os)
        → (if b then some o else find? p os) ≡ some c
        → (p o ≡ true → PaysAsMuch c o) × All (λ o. p o ≡ true → PaysAsMuch c o) os
    by_test true t ih e =
        let same : o ≡ c = cc in
        (λ _. ground arith, All-mono (PaysAsMuch o) _ (λ q m k. same_pay o c q same m) os h.0)
    by_test false t ih e = (λ k. cc, ih e)

pub none_passes :
    (p : StandingOrder → Bool) (os : List StandingOrder)
    → find? p os ≡ none
    → All (λ o. p o ≡ false) os
none_passes p [] e = tt
none_passes p (o ∷ os) e = by_test (p o) refl (none_passes p os) e
  where
    by_test :
        (b : Bool)
        → p o ≡ b
        → (find? p os ≡ none → All (λ o. p o ≡ false) os)
        → (if b then some o else find? p os) ≡ none
        → (p o ≡ false) × All (λ o. p o ≡ false) os
    by_test true t ih e = cc
    by_test false t ih e = (t, ih e)

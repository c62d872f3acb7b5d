-- ===== src/Rank/Unique.antt =====
-- What `rankBids` returns is fixed by the set of confirmed bids, not by the order of the rows.
use mathlib.Core.List.{Mem, Perm, mem-cons, not-mem-nil, mem-cons_self}
use mathlib.Core.List.Perm
use mathlib.Core.Logic.Or
use native.Mathlib.Nat.{ℕ_set}
use directory_platform.Common.{
  ℕ, suc, ◌+◌, ◌-◌, ◌≡◌, refl, sym, ap, ap₂, ◌≢◌, List, [], ◌∷◌, arith, if◌then◌else◌, is_some, min,
  length, filter, All, All-filter, Pairwise,
}
use directory_platform.Rank.{
  RankableBid, BidStatus, RankedBid, ranks, insert, sort, number_from, rank_bids,
}
use directory_platform.Rank.Order.{Ahead, Ahead-asymm, HasDistinctIds, sort-perm, sort-Pairwise}

BidStatus-set : IsSet BidStatus
BidStatus-set = hlevel

RankableBid-set : IsSet RankableBid
RankableBid-set = hlevel (ℕ_set, BidStatus-set)

not-mem_of_All :
    (P : RankableBid → Type 0) (x : RankableBid) (l : List RankableBid)
    → All P l
    → ¬ P x
    → ¬ Mem x l
not-mem_of_All P x [] h n m = not-mem-nil m
not-mem_of_All P x (y ∷ ys) h n m =
    Or.elim (λ a b. absurd a) (mem-cons.0 m) (λ e. n (subst' e h.0)) (not-mem_of_All P x ys h.1 n)
  where
    subst' : x ≡ y → P y → P x
    subst' e p = rw e p

heads-eq :
    (a b : RankableBid) (l r : List RankableBid)
    → All (Ahead a) l
    → All (Ahead b) r
    → Mem a (b ∷ r)
    → Mem b (a ∷ l)
    → a ≡ b
heads-eq a b l r hl hr ma mb =
    Or.elim (RankableBid-set a b) (mem-cons.0 ma) (λ e. e)
      λ in_r.
        Or.elim (RankableBid-set a b) (mem-cons.0 mb) (λ e. sym e)
          λ in_l. absurd (
            not-mem_of_All (Ahead b) a r hr
              (λ ba. not-mem_of_All (Ahead a) b l hl (λ ab. Ahead-asymm a b ab ba) in_l) in_r)

-- A list has one strictly ordered rearrangement.
pub Pairwise-eq_of_perm :
    (l r : List RankableBid) → Pairwise Ahead l → Pairwise Ahead r → Perm l r → l ≡ r
Pairwise-eq_of_perm [] r hl hr p = Perm.nil-eq p
Pairwise-eq_of_perm (a ∷ l) [] hl hr p = Perm.eq-nil p
Pairwise-eq_of_perm (a ∷ l) (b ∷ r) hl hr p =
    let heads =
      heads-eq a b l r hl.0 hr.0 ((Perm.mem_iff p).0 mem-cons_self)
        ((Perm.mem_iff p).1 mem-cons_self) in
    let tails = Perm.cons_inv (Perm.trans p (Perm.symm (Perm.cons' heads (Perm.refl r)))) in
    ap₂ ◌∷◌ heads (Pairwise-eq_of_perm l r hl.1 hr.1 tails)

pub HasDistinctIds-filter :
    (l : List RankableBid) → HasDistinctIds l → HasDistinctIds (filter (λ b. ranks b.status) l)
HasDistinctIds-filter [] d = tt
HasDistinctIds-filter (x ∷ xs) d = ground (
  arith,
  HasDistinctIds-filter xs d.1,
  All-filter (λ y. x.id ≢ y.id) (λ b. ranks b.status) xs d.0,
)

-- If the ids of the bids are distinct then, whatever the order of the rows, the ranking numbers the one list of the confirmed bids in
-- which a higher amount, then an earlier date, then a lower id stands in front: any list `l`
-- that rearranges the confirmed bids in that strict order is the list that is numbered.
pub rank_bids_unique :
    (bids l : List RankableBid) (positions : ℕ)
    → HasDistinctIds bids
    → Perm l (filter (λ b. ranks b.status) bids)
    → Pairwise Ahead l
    → rank_bids bids positions ≡ number_from positions 0 l
unfolding rank_bids
rank_bids_unique bids l positions d p o =
    let confirmed = filter (λ (b : RankableBid). ranks b.status) bids in
    ap (number_from positions 0) (
      Pairwise-eq_of_perm (sort confirmed) l
        (sort-Pairwise confirmed (HasDistinctIds-filter bids d)) o
        (Perm.trans (sort-perm confirmed) (Perm.symm p)))

-- The number of rows with a position.
abbrev pub count_featured : List RankedBid → ℕ
count_featured [] = 0
count_featured (r ∷ rs) = if is_some r.position then suc (count_featured rs) else count_featured rs

count_featured-number_from :
    (positions i : ℕ) (l : List RankableBid)
    → count_featured (number_from positions i l) ≡ min (positions - i) (length l)
unfolding number_from
count_featured-number_from positions i [] = omega arith
count_featured-number_from positions i (b ∷ bs) =
    ground (arith, count_featured-number_from positions (i + 1) bs)

length-insert : (x : RankableBid) (l : List RankableBid) → length (insert x l) ≡ suc (length l)
unfolding insert
length-insert x [] = refl
length-insert x (y ∷ ys) = ground (arith, length-insert x ys)

length-sort : (l : List RankableBid) → length (sort l) ≡ length l
unfolding sort
length-sort [] = refl
length-sort (x ∷ xs) = omega (arith, length-sort xs, length-insert x (sort xs))

-- As many bids are featured as there are positions, or all the confirmed bids if these are fewer.
pub count_featured-rank_bids :
    (bids : List RankableBid) (positions : ℕ)
    → count_featured (rank_bids bids positions)
      ≡ min positions (length (filter (λ b. ranks b.status) bids))
unfolding rank_bids
count_featured-rank_bids bids positions =
    let confirmed = filter (λ (b : RankableBid). ranks b.status) bids in
    omega (arith, count_featured-number_from positions 0 (sort confirmed), length-sort confirmed)

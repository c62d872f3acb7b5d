-- ===== src/Rank/Order.antt =====
-- The order of the ranking: `sort` returns the bids that it was given, each ahead of the next.
use mathlib.Core.List.{Perm}
use mathlib.Core.List.Perm
use directory_platform.Common.{
  ◌<◌, ◌≡◌, ◌≢◌, ◌⊎◌, inl, inr, true, false, List, [], ◌∷◌, arith, Bool-cases, All, Pairwise,
}
use directory_platform.Rank.{RankableBid, compare_bids, is_after, insert, sort}

-- A strictly higher amount, the same amount set earlier, or all alike and the lower id.
abbrev pub Ahead : RankableBid → RankableBid → Type 0
Ahead a b =
    (b.amount_cents < a.amount_cents)
    ⊎ ((a.amount_cents ≡ b.amount_cents)
        × ((a.amount_set_at < b.amount_set_at)
            ⊎ ((a.amount_set_at ≡ b.amount_set_at) × (a.id < b.id))))

pub Ahead-trans : (a b c : RankableBid) → Ahead a b → Ahead b c → Ahead a c
Ahead-trans a b c h k = grind arith

pub Ahead-asymm : (a b : RankableBid) → Ahead a b → ¬ Ahead b a
Ahead-asymm a b h k = grind arith

compare_bids-after : (a b : RankableBid) → is_after (compare_bids a b) ≡ true → Ahead b a
unfolding compare_bids
compare_bids-after a b e = ground arith

compare_bids-before :
    (a b : RankableBid) → is_after (compare_bids a b) ≡ false → a.id ≢ b.id → Ahead a b
unfolding compare_bids
compare_bids-before a b e ne = ground arith

-- No other row of the list has the id of `x`.
abbrev pub IsFresh : RankableBid → List RankableBid → Type 0
IsFresh x l = All (λ y. x.id ≢ y.id) l

-- The ids of a list of rows, each once: the primary key of the table.
abbrev pub HasDistinctIds : List RankableBid → Type 0
HasDistinctIds l = Pairwise (λ x y. x.id ≢ y.id) l

pub insert-perm : (x : RankableBid) (l : List RankableBid) → Perm (insert x l) (x ∷ l)
unfolding insert
insert-perm x [] = Perm.refl (x ∷ [])
insert-perm x (y ∷ ys) = elim (Bool-cases (is_after (compare_bids x y))) [
  | inl e ↦ rw (e, insert) (Perm.trans (Perm.cons y (insert-perm x ys)) (Perm.swap x y ys))
  | inr e ↦ rw (e, insert) (Perm.refl (x ∷ y ∷ ys))
]

pub sort-perm : (l : List RankableBid) → Perm (sort l) l
unfolding sort
sort-perm [] = Perm.refl []
sort-perm (x ∷ xs) = Perm.trans (insert-perm x (sort xs)) (Perm.cons x (sort-perm xs))

module _ (P : RankableBid → Type 0) where
  pub All-insert : (x : RankableBid) (l : List RankableBid) → P x → All P l → All P (insert x l)
  unfolding insert
  All-insert x [] p h = (p, tt)
  All-insert x (y ∷ ys) p h = ground (arith, All-insert x ys p h.1)

  pub All-sort : (l : List RankableBid) → All P l → All P (sort l)
  unfolding sort
  All-sort [] h = tt
  All-sort (x ∷ xs) h = All-insert x (sort xs) h.0 (All-sort xs h.1)

All-Ahead-trans :
    (x y : RankableBid) (l : List RankableBid) → Ahead x y → All (Ahead y) l → All (Ahead x) l
All-Ahead-trans x y [] h k = tt
All-Ahead-trans x y (z ∷ zs) h k = (Ahead-trans x y z h k.0, All-Ahead-trans x y zs h k.1)

insert-Pairwise :
    (x : RankableBid) (l : List RankableBid)
    → IsFresh x l
    → Pairwise Ahead l
    → Pairwise Ahead (insert x l)
unfolding insert
insert-Pairwise x [] f h = (tt, tt)
insert-Pairwise x (y ∷ ys) f h = elim (Bool-cases (is_after (compare_bids x y))) [
  | inl e ↦
      rw (e, insert)
        (All-insert (Ahead y) x ys (compare_bids-after x y e) h.0, insert-Pairwise x ys f.1 h.1)
  | inr e ↦
      let p = compare_bids-before x y e f.0 in rw (e, insert) ((p, All-Ahead-trans x y ys p h.0), h)
]

-- Rows with distinct ids come out in a strict order.
pub sort-Pairwise : (l : List RankableBid) → HasDistinctIds l → Pairwise Ahead (sort l)
unfolding sort
sort-Pairwise [] d = tt
sort-Pairwise (x ∷ xs) d =
    insert-Pairwise x (sort xs) (All-sort (λ y. x.id ≢ y.id) xs d.0) (sort-Pairwise xs d.1)

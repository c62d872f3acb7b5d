-- ===== src/Rank/Quantity.antt =====
-- What a listing is charged: `quantityFor` counts the featured bids and nothing else.
use directory_platform.Common.{
  ℕ, ◌+◌, ◌*◌, ◌%◌, ◌≡◌, refl, inl, inr, ◌∙◌, List, [], ◌∷◌, arith, Bool-cases, All, filter,
}
use directory_platform.Rank.{ChargeableBid, is_featured, featured_cents, quantity_for}

abbrev pub sum_amounts : List ChargeableBid → ℕ
sum_amounts [] = 0
sum_amounts (b ∷ bs) = b.amount_cents + sum_amounts bs

featured_cents-eq-sum :
    (cents : ℕ) (bids : List ChargeableBid)
    → featured_cents cents bids ≡ cents + sum_amounts (filter is_featured bids)
unfolding featured_cents
featured_cents-eq-sum cents [] = omega arith
featured_cents-eq-sum cents (b ∷ bs) = elim (Bool-cases (is_featured b)) [
  | inl e ↦ rw e (featured_cents-eq-sum (cents + b.amount_cents) bs ∙ omega arith)
  | inr e ↦ rw e (featured_cents-eq-sum cents bs)
]

-- Amounts in whole units, as every bid is.
abbrev pub IsWhole : ChargeableBid → Type 0
IsWhole b = b.amount_cents % 100 ≡ 0

sum_amounts-whole :
    (bids : List ChargeableBid) → All IsWhole bids → sum_amounts (filter is_featured bids) % 100 ≡ 0
sum_amounts-whole [] h = refl
sum_amounts-whole (b ∷ bs) h = elim (Bool-cases (is_featured b)) [
  | inl e ↦ let ih = sum_amounts-whole bs h.1 in let w = h.0 in rw e (omega arith)
  | inr e ↦ rw e (sum_amounts-whole bs h.1)
]

-- With bids in whole units the quantity, times a unit, is the sum of the amounts of the bids
-- that are active and hold a position: nothing else is charged, and the rounding loses nothing.
pub quantity_for_exact :
    (bids : List ChargeableBid)
    → All IsWhole bids
    → quantity_for bids * 100 ≡ sum_amounts (filter is_featured bids)
unfolding quantity_for
quantity_for_exact bids h =
    let total = featured_cents-eq-sum 0 bids in let whole = sum_amounts-whole bids h in omega arith

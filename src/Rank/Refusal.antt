-- ===== src/Rank/Refusal.antt =====
-- The entry minimum that `validateBid` quotes when it refuses an amount.
use directory_platform.Common.{
  ℕ, ◌+◌, ◌*◌, ◌/◌, ◌%◌, ◌≤◌, max, ◌≡◌, refl, List, [], ◌∷◌, arith, length, All,
}
use directory_platform.Rank.{
  round_up_to_unit, max_of, min_of, minimum_to_take_first, minimum_to_enter, rejected, below_entry,
  below_first, takes_first, validate_bid,
}
use directory_platform.Rank.Minimums.{standing}

max_of-const : (x : ℕ) (xs : List ℕ) → All (λ f. f ≡ x) xs → max_of x xs ≡ x
unfolding max_of
max_of-const x [] h = refl
max_of-const x (y ∷ ys) h = rw (h.0, max_of-const x ys h.1) (omega arith)

min_of-const : (x : ℕ) (xs : List ℕ) → All (λ f. f ≡ x) xs → min_of x xs ≡ x
unfolding min_of
min_of-const x [] h = refl
min_of-const x (y ∷ ys) h = rw (h.0, min_of-const x ys h.1) (omega arith)

round_up_to_unit-whole : (x : ℕ) → x % 100 ≡ 0 → round_up_to_unit (x + 100) ≡ x + 100
unfolding round_up_to_unit
round_up_to_unit-whole x h = omega arith

round_up_to_unit-ge : (x : ℕ) → x ≤ round_up_to_unit x
unfolding round_up_to_unit
round_up_to_unit-ge x = omega arith

-- In a full spot whose featured amounts are all alike, a whole amount from the floor up that
-- does not beat them is refused with one unit more as the amount to bid, and that amount is
-- refused in its turn: it stands above them all, and so needs the first-place step.
pub entry_minimum_refused :
    (a x floor positions : ℕ) (xs : List ℕ)
    → All (λ f. f ≡ x) xs
    → positions ≤ length (x ∷ xs)
    → x % 100 ≡ 0
    → a % 100 ≡ 0
    → floor ≤ a
    → a ≤ x
    → let s = standing floor positions (x ∷ xs) in
      (validate_bid a s ≡ rejected below_entry (x + 100))
      × (validate_bid (x + 100) s ≡ rejected below_first (minimum_to_take_first s))
unfolding validate_bid takes_first minimum_to_enter minimum_to_take_first
entry_minimum_refused a x floor positions xs same full h whole fl le =
    let highest = max_of-const x xs same in
    let least = min_of-const x xs same in
    let step = round_up_to_unit-whole x h in
    let first = round_up_to_unit-ge (x + max ((x * 10 + 99) / 100) 500) in
    (rw (highest, least, step) (ground arith), rw highest (ground arith))

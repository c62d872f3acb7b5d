-- ===== src/Rank/Minimums.antt =====
-- `validateBid` against the rule that it is to enforce, read off the amounts one by one.
use directory_platform.Common.{
  ℕ, ◌+◌, ◌*◌, ◌/◌, ◌%◌, ◌≤◌, ◌<◌, max, ◌≡◌, ◌≢◌, refl, ◌↔◌, ◌⊎◌, inl, inr, true, false, none, some,
  List, [], ◌∷◌, arith, ltb, Bool-cases, ltb→lt, lt→ltb, length, All,
}
use directory_platform.Rank.{
  SpotStanding, top, round_up_to_unit, max_of, min_of, minimum_to_take_first, minimum_to_enter,
  accepted, takes_first, validate_bid,
}
use directory_platform.Rank.Extremes.{Exists, max_of-All, All-max_of, min_of-Exists, Exists-min_of}

-- than each amount there.
abbrev pub TakesFirst : ℕ → SpotStanding → Type 0
TakesFirst a s = All (λ f. f < a) s.featured

abbrev pub ClearsFirst : ℕ → SpotStanding → Type 0
ClearsFirst a s = All (λ f. (f * 110 ≤ a * 100) × (f + 500 ≤ a)) s.featured

-- A position is free, or some featured amount is beaten by a unit.
abbrev pub ClearsEntry : ℕ → SpotStanding → Type 0
ClearsEntry a s = (length s.featured < s.positions) ⊎ Exists (λ f. f + 100 ≤ a) s.featured

-- The rule for an acceptable new amount.
abbrev pub IsAcceptable : ℕ → SpotStanding → Type 0
IsAcceptable a s =
    (a % 100 ≡ 0)
    × (s.floor_cents ≤ a)
    × ((TakesFirst a s × ClearsFirst a s) ⊎ (¬ TakesFirst a s × ClearsEntry a s))

round_up_to_unit-le :
    (x a : ℕ) → a % 100 ≡ 0 → (x ≤ a → round_up_to_unit x ≤ a) × (round_up_to_unit x ≤ a → x ≤ a)
unfolding round_up_to_unit
round_up_to_unit-le x a h = (omega arith, omega arith)

takes_first_iff : (a : ℕ) (s : SpotStanding) → (takes_first a s ≡ true) ↔ TakesFirst a s
unfolding takes_first
takes_first_iff a s = from_list s.featured
  where
    from_list :
        (l : List ℕ) → (elim (top l) [ none ↦ true | some t ↦ ltb t a ] ≡ true) ↔ All (λ f. f < a) l
    from_list [] = (λ h. tt, λ h. refl)
    from_list (x ∷ xs) = (
      λ h. max_of-All (λ f. f < a) (λ f g le lt. omega arith) x xs (ltb→lt _ _ h),
      λ h. lt→ltb _ _ (All-max_of (λ f. f < a) (λ f g le lt. omega arith) x xs h),
    )

abbrev Clears : ℕ → ℕ → Type 0
Clears a f = (f * 110 ≤ a * 100) × (f + 500 ≤ a)

first_step_iff :
    (a t floor : ℕ)
    → a % 100 ≡ 0
    → floor ≤ a
    → (max floor (round_up_to_unit (t + max ((t * 10 + 99) / 100) 500)) ≤ a) ↔ Clears a t
first_step_iff a t floor h fl =
    let round = round_up_to_unit-le (t + max ((t * 10 + 99) / 100) 500) a h in
    (
      λ k. let le = round.1 (omega arith) in omega arith,
      λ k. let le = round.0 (omega arith) in omega arith,
    )

entry_step_iff :
    (a l floor : ℕ)
    → a % 100 ≡ 0
    → floor ≤ a
    → (max floor (round_up_to_unit (l + 100)) ≤ a) ↔ (l + 100 ≤ a)
entry_step_iff a l floor h fl =
    let round = round_up_to_unit-le (l + 100) a h in
    (λ k. round.1 (omega arith), λ k. let le = round.0 k in omega arith)

-- In whole units and from the floor up, an amount reaches the first-place minimum exactly if it
-- clears every featured amount by ten per cent and by five units.
pub minimum_to_take_first_iff :
    (a : ℕ) (s : SpotStanding)
    → a % 100 ≡ 0
    → s.floor_cents ≤ a
    → (minimum_to_take_first s ≤ a) ↔ ClearsFirst a s
unfolding minimum_to_take_first
minimum_to_take_first_iff a s h fl = from_list s.featured
  where
    from_list :
        (l : List ℕ) → (minimum_to_take_first (record s { featured = l }) ≤ a) ↔ All (Clears a) l
    from_list [] = (λ k. tt, λ k. fl)
    from_list (x ∷ xs) =
        let step = first_step_iff a (max_of x xs) s.floor_cents h fl in
        (
          λ k. max_of-All (Clears a) (λ f g le c. omega arith) x xs (step.0 k),
          λ k. step.1 (All-max_of (Clears a) (λ f g le c. omega arith) x xs k),
        )

abbrev pub standing : ℕ → ℕ → List ℕ → SpotStanding
standing floor positions featured = record {
  floor_cents = floor;
  positions = positions;
  featured = featured;
}

module _ (a floor positions x : ℕ) (xs : List ℕ) (h : a % 100 ≡ 0) (fl : floor ≤ a) where
  minimum_to_enter_sound :
      minimum_to_enter (standing floor positions (x ∷ xs)) ≤ a
      → ClearsEntry a (standing floor positions (x ∷ xs))
  unfolding minimum_to_enter
  minimum_to_enter_sound k = elim (Bool-cases (ltb (length (x ∷ xs)) positions)) [
    | inl free ↦ inl (ltb→lt _ _ free)
    | inr full ↦
        let least = (entry_step_iff a (min_of x xs) floor h fl).0 (ground arith) in
        inr (min_of-Exists (λ f. f + 100 ≤ a) (λ f g le c. omega arith) x xs least)
  ]

  minimum_to_enter_complete :
      ClearsEntry a (standing floor positions (x ∷ xs))
      → minimum_to_enter (standing floor positions (x ∷ xs)) ≤ a
  unfolding minimum_to_enter
  minimum_to_enter_complete (inl free) = rw (lt→ltb _ _ free) fl
  minimum_to_enter_complete (inr beaten) =
      let least = Exists-min_of (λ f. f + 100 ≤ a) (λ f g le c. omega arith) x xs beaten in
      let bound = (entry_step_iff a (min_of x xs) floor h fl).1 least in ground arith

-- In whole units and from the floor up, an amount reaches the entry minimum of a spot where
-- somebody is featured exactly if a position is free or it beats some featured amount by a unit.
minimum_to_enter_iff :
    (a : ℕ) (s : SpotStanding)
    → s.featured ≢ []
    → a % 100 ≡ 0
    → s.floor_cents ≤ a
    → (minimum_to_enter s ≤ a) ↔ ClearsEntry a s
minimum_to_enter_iff a s ne h fl = from_list s.featured ne
  where
    from_list :
        (l : List ℕ)
        → l ≢ []
        → (minimum_to_enter (record s { featured = l }) ≤ a)
          ↔ ClearsEntry a (record s { featured = l })
    from_list [] n = absurd (n refl)
    from_list (x ∷ xs) n = (
      minimum_to_enter_sound a s.floor_cents s.positions x xs h fl,
      minimum_to_enter_complete a s.floor_cents s.positions x xs h fl,
    )

-- Once the amount is whole and from the floor up, the test against the minimum decides.
validate_bid-first :
    (a : ℕ) (s : SpotStanding)
    → a % 100 ≡ 0
    → s.floor_cents ≤ a
    → takes_first a s ≡ true
    → (validate_bid a s ≡ accepted) ↔ (minimum_to_take_first s ≤ a)
unfolding validate_bid
validate_bid-first a s h fl first = (λ e. ground arith, λ e. ground arith)

validate_bid-entry :
    (a : ℕ) (s : SpotStanding)
    → a % 100 ≡ 0
    → s.floor_cents ≤ a
    → takes_first a s ≡ false
    → (validate_bid a s ≡ accepted) ↔ (minimum_to_enter s ≤ a)
unfolding validate_bid
validate_bid-entry a s h fl first = (λ e. ground arith, λ e. ground arith)

pub validate_bid-whole :
    (a : ℕ) (s : SpotStanding) → validate_bid a s ≡ accepted → (a % 100 ≡ 0) × (s.floor_cents ≤ a)
unfolding validate_bid
validate_bid-whole a s e = ground arith

not-TakesFirst-empty : (a : ℕ) (s : SpotStanding) → ¬ TakesFirst a s → s.featured ≢ []
not-TakesFirst-empty a s n e = n (rw e tt)

not-TakesFirst : (a : ℕ) (s : SpotStanding) → takes_first a s ≡ false → ¬ TakesFirst a s
not-TakesFirst a s e h = let first = (takes_first_iff a s).1 h in cc

-- `validateBid` accepts an amount exactly if it is in whole units, not below the floor, and
-- either stands above every featured amount by ten per cent and by five units, or does not
-- stand above them all and finds a free position or beats some featured amount by a unit.
pub validate_bid_iff : (a : ℕ) (s : SpotStanding) → (validate_bid a s ≡ accepted) ↔ IsAcceptable a s
validate_bid_iff a s = (λ e. sound e (validate_bid-whole a s e), complete)
  where
    sound : validate_bid a s ≡ accepted → (a % 100 ≡ 0) × (s.floor_cents ≤ a) → IsAcceptable a s
    sound e (h, fl) = elim (Bool-cases (takes_first a s)) [
      | inl first ↦
          let above = (validate_bid-first a s h fl first).0 e in
          (h, fl, inl ((takes_first_iff a s).0 first, (minimum_to_take_first_iff a s h fl).0 above))
      | inr below ↦
          let n = not-TakesFirst a s below in
          let above = (validate_bid-entry a s h fl below).0 e in
          let ne = not-TakesFirst-empty a s n in
          (h, fl, inr (n, (minimum_to_enter_iff a s ne h fl).0 above))
    ]

    complete : IsAcceptable a s → validate_bid a s ≡ accepted
    complete (h, fl, inl (first, clears)) =
        (validate_bid-first a s h fl ((takes_first_iff a s).1 first)).1
          ((minimum_to_take_first_iff a s h fl).1 clears)
    complete (h, fl, inr (n, clears)) = elim (Bool-cases (takes_first a s)) [
      | inl first ↦ absurd (n ((takes_first_iff a s).0 first))
      | inr below ↦
          (validate_bid-entry a s h fl below).1
            ((minimum_to_enter_iff a s (not-TakesFirst-empty a s n) h fl).1 clears)
    ]

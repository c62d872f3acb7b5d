-- ===== src/Rank.antt =====
-- The ranking of a featured spot, its minimum bids and what a listing is charged
-- (lib/spots/rank.ts). Ids, amounts in cents and instants in milliseconds are natural numbers.
pub mod Order
pub mod Unique
pub mod Extremes
pub mod Minimums
pub mod Refusal
pub mod Quantity
use directory_platform.Common.{
  ℕ, suc, ◌+◌, ◌-◌, ◌*◌, ◌/◌, ◌%◌, max, min, compare, Ordering, Bool, true, false, not, ◌&&◌, ◌||◌,
  Option, none, some, List, [], ◌∷◌, ltb, leb, ◌==◌, if◌then◌else◌, is_some, is_none, length,
  filter,
}

pub data BidStatus : Type 0 where
  pending active outbid cancelled : BidStatus

pub record RankableBid : Type 0 where
  pub id : ℕ
  pub listing_id : ℕ
  pub amount_cents : ℕ
  pub amount_set_at : ℕ
  pub status : BidStatus

pub record RankedBid : Type 0 where
  pub id : ℕ
  pub listing_id : ℕ
  pub amount_cents : ℕ
  -- 1 to the spot's positions while featured, `none` while outbid
  pub position : Option ℕ

abbrev pub unit_cents : ℕ
unit_cents = 100

abbrev pub first_place_percent : ℕ
first_place_percent = 10

abbrev pub first_place_min_step_cents : ℕ
first_place_min_step_cents = 5 * unit_cents

abbrev pub enter_step_cents : ℕ
enter_step_cents = 1 * unit_cents

-- `RANKS.includes(status)`
abbrev pub ranks : BidStatus → Bool
ranks active = true
ranks outbid = true
ranks pending = false
ranks cancelled = false

abbrev pub is_active : BidStatus → Bool
is_active active = true
is_active _ = false

abbrev pub is_pending : BidStatus → Bool
is_pending pending = true
is_pending _ = false

abbrev pub is_cancelled : BidStatus → Bool
is_cancelled cancelled = true
is_cancelled _ = false

-- The comparator of `live.sort`: `lt` for a negative result, `gt` for a positive one.
unfoldable pub compare_bids : RankableBid → RankableBid → Ordering
compare_bids a b =
    if not (a.amount_cents == b.amount_cents)
    then compare b.amount_cents a.amount_cents
    else if not (a.amount_set_at == b.amount_set_at)
    then compare a.amount_set_at b.amount_set_at
    else compare a.id b.id

abbrev pub is_after : Ordering → Bool
is_after Ordering.gt = true
is_after _ = false

-- `Array.prototype.sort` is stable: an item goes in front of those that it does not compare
-- after.
unfoldable pub insert : RankableBid → List RankableBid → List RankableBid
insert x [] = x ∷ []
insert x (y ∷ ys) = if is_after (compare_bids x y) then y ∷ insert x ys else x ∷ y ∷ ys

unfoldable pub sort : List RankableBid → List RankableBid
sort [] = []
sort (x ∷ xs) = insert x (sort xs)

-- `live.map((b, i) => …)` from index `i`
unfoldable pub number_from : ℕ → ℕ → List RankableBid → List RankedBid
number_from positions i [] = []
number_from positions i (b ∷ bs) =
    record {
      id = b.id;
      listing_id = b.listing_id;
      amount_cents = b.amount_cents;
      position = if ltb i positions then some (i + 1) else none;
    }
    ∷ number_from positions (i + 1) bs

unfoldable pub rank_bids : List RankableBid → ℕ → List RankedBid
unfolding insert compare_bids sort number_from
rank_bids bids positions = number_from positions 0 (sort (filter (λ b. ranks b.status) bids))

unfoldable pub round_up_to_unit : ℕ → ℕ
round_up_to_unit cents = (cents + (unit_cents - 1)) / unit_cents * unit_cents

pub record SpotStanding : Type 0 where
  pub floor_cents : ℕ
  pub positions : ℕ
  pub featured : List ℕ

-- `Math.max(x, ...xs)` and `Math.min(x, ...xs)`
unfoldable pub max_of : ℕ → List ℕ → ℕ
max_of x [] = x
max_of x (y ∷ ys) = max x (max_of y ys)

unfoldable pub min_of : ℕ → List ℕ → ℕ
min_of x [] = x
min_of x (y ∷ ys) = min x (min_of y ys)

unfoldable pub top : List ℕ → Option ℕ
top [] = none
top (x ∷ xs) = some (max_of x xs)

unfoldable pub lowest : List ℕ → Option ℕ
lowest [] = none
lowest (x ∷ xs) = some (min_of x xs)

-- `Math.ceil((t * FIRST_PLACE_PERCENT) / 100)`
abbrev percent_step : ℕ → ℕ
percent_step t = (t * first_place_percent + 99) / 100

unfoldable pub minimum_to_take_first : SpotStanding → ℕ
unfolding round_up_to_unit max_of top
minimum_to_take_first s = elim (top s.featured) [
  | none ↦ s.floor_cents
  | some t ↦
      max s.floor_cents (round_up_to_unit (t + max (percent_step t) first_place_min_step_cents))
]

unfoldable pub minimum_to_enter : SpotStanding → ℕ
unfolding round_up_to_unit min_of lowest
minimum_to_enter s = elim (lowest s.featured) [
  | none ↦ s.floor_cents
  | some l ↦
      if ltb (length s.featured) s.positions
      then s.floor_cents
      else max s.floor_cents (round_up_to_unit (l + enter_step_cents))
]

pub data BidRejection : Type 0 where
  not_whole_units below_floor below_entry below_first : BidRejection

pub data BidValidation : Type 0 where
  accepted : BidValidation
  rejected : BidRejection → ℕ → BidValidation

-- `t === null || amountCents > t`
unfoldable pub takes_first : ℕ → SpotStanding → Bool
unfolding max_of top
takes_first amount s = elim (top s.featured) [ none ↦ true | some t ↦ ltb t amount ]

unfoldable pub validate_bid : ℕ → SpotStanding → BidValidation
validate_bid amount s =
    let first = takes_first amount s in
    let minimum = if first then minimum_to_take_first s else minimum_to_enter s in
    if not (amount % unit_cents == 0)
    then rejected not_whole_units minimum
    else if ltb amount s.floor_cents
    then rejected below_floor s.floor_cents
    else if ltb amount minimum
    then rejected (if first then below_first else below_entry) minimum
    else accepted

unfoldable pub validate_lower : ℕ → ℕ → BidValidation
validate_lower amount floor =
    if not (amount % unit_cents == 0)
    then rejected not_whole_units floor
    else if ltb amount floor
    then rejected below_floor floor
    else accepted

pub record ChargeableBid : Type 0 where
  pub amount_cents : ℕ
  pub status : BidStatus
  pub position : Option ℕ

-- `b.status === "active" && b.position !== null`
abbrev pub is_featured : ChargeableBid → Bool
is_featured b = is_active b.status && is_some b.position

-- the loop of `quantityFor`
unfoldable pub featured_cents : ℕ → List ChargeableBid → ℕ
featured_cents cents [] = cents
featured_cents cents (b ∷ bs) =
    featured_cents (if is_featured b then cents + b.amount_cents else cents) bs

-- `Math.round(cents / UNIT_CENTS)`, halves upwards
unfoldable pub quantity_for : List ChargeableBid → ℕ
unfolding featured_cents
quantity_for bids = (featured_cents 0 bids + unit_cents / 2) / unit_cents

-- ===== src/Engine/Confirmed.antt =====
-- A re-rank writes the rows of confirmed bids and no other, since an id names one row.
use directory_platform.Common.{
  ℕ, ◌+◌, ◌≡◌, ◌≢◌, refl, sym, ap₂, ◌∙◌, Bool, true, false, ◌&&◌, List, [], ◌∷◌, map, ◌==◌, arith,
  if◌then◌else◌, ==→eq, filter, update, All, All-update, All-sort_by, Pairwise, Bool-cases, inl,
  inr,
}
use directory_platform.Rank.{RankableBid, RankedBid, ranks, number_from, rank_bids}
use directory_platform.Rank.Order.{All-sort}
use directory_platform.Store.Rows.{BidRow, SpotRow}
use directory_platform.Store.Bids.{is_live, ranked_row}
use directory_platform.Engine.{rankable}
use directory_platform.Engine.Rows.{apply_rows, ranking_of}

-- The primary key of the table.
abbrev pub HasDistinctIds : List BidRow → Type 0
HasDistinctIds = Pairwise (λ x y. x.id ≢ y.id)

-- An update that leaves ids alone keeps them distinct.
pub All-ids-update :
    (p : BidRow → Bool) (f : BidRow → BidRow) (id : ℕ) (bids : List BidRow)
    → ((b : BidRow) → (f b).id ≡ b.id)
    → All (λ b. id ≢ b.id) bids
    → All (λ b. id ≢ b.id) (update p f bids)
All-ids-update p f id bids same h =
    All-update (λ b. id ≢ b.id) p f bids (λ b e ne q. ne (q ∙ same b)) h

pub HasDistinctIds-update :
    (p : BidRow → Bool) (f : BidRow → BidRow) (bids : List BidRow)
    → ((b : BidRow) → (f b).id ≡ b.id)
    → HasDistinctIds bids
    → HasDistinctIds (update p f bids)
HasDistinctIds-update p f [] same d = tt
HasDistinctIds-update p f (x ∷ xs) same d = (head (p x), HasDistinctIds-update p f xs same d.1)
  where
    head : (c : Bool) → All (λ b. (if c then f x else x).id ≢ b.id) (update p f xs)
    head true = rw (same x) (All-ids-update p f x.id xs same d.0)
    head false = All-ids-update p f x.id xs same d.0

-- With distinct ids, what holds of a row holds of every row that its id names.
module _ (P : BidRow → Type 0) where
  abbrev pub Named : List BidRow → ℕ → Type 0
  Named bids id = All (λ (b : BidRow). b.id ≡ id → P b) bids

  Named-cons :
      (x : BidRow) (l bids : List BidRow)
      → All (λ b. x.id ≢ b.id) l
      → All (λ (b : BidRow). P b → Named bids b.id) l
      → All (λ (b : BidRow). P b → Named (x ∷ bids) b.id) l
  Named-cons x [] bids ne h = tt
  Named-cons x (y ∷ ys) bids ne h =
      (λ e. (λ q. absurd (ne.0 q), h.0 e), Named-cons x ys bids ne.1 h.1)

  Named-fresh : (x : BidRow) (l : List BidRow) → All (λ b. x.id ≢ b.id) l → Named l x.id
  Named-fresh x [] ne = tt
  Named-fresh x (y ∷ ys) ne = (λ q. absurd (ne.0 (sym q)), Named-fresh x ys ne.1)

  pub Named-ids :
      (bids : List BidRow) → HasDistinctIds bids → All (λ (b : BidRow). P b → Named bids b.id) bids
  Named-ids [] d = tt
  Named-ids (x ∷ xs) d =
      (λ e. (λ q. e, Named-fresh x xs d.0), Named-cons x xs xs d.0 (Named-ids xs d.1))

  -- A filter's rows pass its test.
  All-filter-passes :
      (p : BidRow → Bool) (l : List BidRow) → All (λ b. p b ≡ true → P b) l → All P (filter p l)
  All-filter-passes p [] h = tt
  All-filter-passes p (b ∷ bs) h = elim (Bool-cases (p b)) [
    | inl e ↦ rw e (h.0 e, All-filter-passes p bs h.1)
    | inr e ↦ rw e (All-filter-passes p bs h.1)
  ]

  pub All-weaken :
      (R : BidRow → Type 0) (l : List BidRow) → ((b : BidRow) → R b → P b) → All R l → All P l
  All-weaken R [] k h = tt
  All-weaken R (b ∷ bs) k h = (k b h.0, All-weaken R bs k h.1)

-- The row that `id` names is of a confirmed bid.
abbrev pub Confirmed : List BidRow → ℕ → Type 0
Confirmed = Named (λ b. ranks b.status ≡ true)

false_passes : (c d : Bool) → c ≡ false → (c && d) ≡ true → ⊥
false_passes c d k e = ground arith

module _ (Q : ℕ → Type 0) where
  All-rankable :
      (l : List BidRow)
      → All (λ (b : BidRow). ranks b.status ≡ true → Q b.id) l
      → All (λ (b : RankableBid). ranks b.status ≡ true → Q b.id) (map rankable l)
  All-rankable [] h = tt
  All-rankable (b ∷ bs) h = (h.0, All-rankable bs h.1)

  All-ranks :
      (l : List RankableBid)
      → All (λ (b : RankableBid). ranks b.status ≡ true → Q b.id) l
      → All (λ (b : RankableBid). Q b.id) (filter (λ b. ranks b.status) l)
  All-ranks [] h = tt
  All-ranks (b ∷ bs) h = elim (Bool-cases (ranks b.status)) [
    | inl e ↦ rw e (h.0 e, All-ranks bs h.1)
    | inr e ↦ rw e (All-ranks bs h.1)
  ]

  All-number_from :
      (positions i : ℕ) (l : List RankableBid)
      → All (λ (b : RankableBid). Q b.id) l
      → All (λ (r : RankedBid). Q r.id) (number_from positions i l)
  unfolding number_from
  All-number_from positions i [] h = tt
  All-number_from positions i (b ∷ bs) h = (h.0, All-number_from positions (i + 1) bs h.1)

  -- The ids of a ranking are ids of confirmed bids of the spot.
  pub All-ranking_of :
      (spot : SpotRow) (spot_id : ℕ) (bids : List BidRow)
      → All (λ (b : BidRow). b.spot_id ≡ spot_id → ranks b.status ≡ true → Q b.id) bids
      → All (λ (r : RankedBid). Q r.id) (ranking_of spot spot_id bids)
  unfolding rank_bids
  All-ranking_of spot spot_id bids h =
      let P = λ (b : BidRow). ranks b.status ≡ true → Q b.id in
      let on_spot = λ (b : BidRow). b.spot_id == spot_id && is_live b in
      All-number_from spot.positions 0 _ (
        All-sort (λ b. Q b.id) _
          (All-ranks _ (
            All-rankable _ (
              All-sort_by P (λ b. b.created_at) _
                (All-filter-passes P on_spot bids
                  (All-weaken _ _ bids (λ b k e. k (passed b e)) h))))))
    where
      passed : (b : BidRow) → (b.spot_id == spot_id && is_live b) ≡ true → b.spot_id ≡ spot_id
      passed b e = elim (Bool-cases (b.spot_id == spot_id)) [
        | inl k ↦ ==→eq b.spot_id spot_id k
        | inr k ↦ absurd (false_passes _ _ k e)
      ]

-- what a re-rank writes is a confirmed bid again
ranked_row-ranks : (r : RankedBid) (at : ℕ) (b : BidRow) → ranks (ranked_row r at b).status ≡ true
unfolding ranked_row
ranked_row-ranks r at b = ground arith

ranked_row-id : (r : RankedBid) (at : ℕ) (b : BidRow) → (ranked_row r at b).id ≡ b.id
unfolding ranked_row
ranked_row-id r at b = refl

Confirmed-update :
    (p : BidRow → Bool) (r : RankedBid) (at id : ℕ) (bids : List BidRow)
    → Confirmed bids id
    → Confirmed (update p (ranked_row r at) bids) id
Confirmed-update p r at id bids h =
    All-update (λ b. b.id ≡ id → ranks b.status ≡ true) p (ranked_row r at) bids
      (λ b e k q. ranked_row-ranks r at b) h

All-Confirmed-update :
    (p : BidRow → Bool) (r : RankedBid) (at : ℕ) (rs : List RankedBid) (bids : List BidRow)
    → All (λ (q : RankedBid). Confirmed bids q.id) rs
    → All (λ (q : RankedBid). Confirmed (update p (ranked_row r at) bids) q.id) rs
All-Confirmed-update p r at [] bids h = tt
All-Confirmed-update p r at (q ∷ qs) bids h =
    (Confirmed-update p r at q.id bids h.0, All-Confirmed-update p r at qs bids h.1)

HasDistinctIds-apply_rows :
    (at spot_id : ℕ) (rs : List RankedBid) (bids : List BidRow)
    → HasDistinctIds bids
    → HasDistinctIds (apply_rows at spot_id rs bids)
unfolding apply_rows
HasDistinctIds-apply_rows at spot_id [] bids d = d
HasDistinctIds-apply_rows at spot_id (r ∷ rs) bids d =
    HasDistinctIds-apply_rows at spot_id rs _
      (HasDistinctIds-update _ (ranked_row r at) bids (ranked_row-id r at) d)

-- Something of a row that a re-rank leaves alone in every confirmed bid.
module _ {E : Type 0} (evidence : BidRow → E)
    (alike : (r : RankedBid) (at : ℕ) (b : BidRow)
      → ranks b.status ≡ true
      → evidence (ranked_row r at b) ≡ evidence b) where
  map-update-ranked :
      (r : RankedBid) (at spot_id : ℕ) (bids : List BidRow)
      → Confirmed bids r.id
      → map evidence (update (λ b. b.id == r.id && b.spot_id == spot_id) (ranked_row r at) bids)
        ≡ map evidence bids
  map-update-ranked r at spot_id [] h = refl
  map-update-ranked r at spot_id (b ∷ bs) h =
      ap₂ ◌∷◌ (head (b.id == r.id) refl (b.spot_id == spot_id))
        (map-update-ranked r at spot_id bs h.1)
    where
      head :
          (c : Bool)
          → (b.id == r.id) ≡ c
          → (d : Bool) → evidence (if c && d then ranked_row r at b else b) ≡ evidence b
      head true e true = alike r at b (h.0 (==→eq b.id r.id e))
      head true e false = refl
      head false e d = refl

  map-apply_rows :
      (at spot_id : ℕ) (rs : List RankedBid) (bids : List BidRow)
      → All (λ (r : RankedBid). Confirmed bids r.id) rs
      → map evidence (apply_rows at spot_id rs bids) ≡ map evidence bids
  unfolding apply_rows
  map-apply_rows at spot_id [] bids h = refl
  map-apply_rows at spot_id (r ∷ rs) bids h =
      map-apply_rows at spot_id rs _ (All-Confirmed-update _ r at rs bids h.1)
      ∙ map-update-ranked r at spot_id bids h.0

  -- The whole table shows the same of every row after a re-rank.
  pub map-ranking :
      (spot : SpotRow) (spot_id at : ℕ) (bids : List BidRow)
      → HasDistinctIds bids
      → map evidence (apply_rows at spot_id (ranking_of spot spot_id bids) bids) ≡ map evidence bids
  map-ranking spot spot_id at bids d = map-apply_rows at spot_id _ bids (
      All-ranking_of (Confirmed bids) spot spot_id bids
        (All-weaken _ _ bids (λ b k e. k) (Named-ids (λ b. ranks b.status ≡ true) bids d)))

pub HasDistinctIds-ranking :
    (spot : SpotRow) (spot_id at : ℕ) (bids : List BidRow)
    → HasDistinctIds bids
    → HasDistinctIds (apply_rows at spot_id (ranking_of spot spot_id bids) bids)
HasDistinctIds-ranking spot spot_id at bids = HasDistinctIds-apply_rows at spot_id _ bids

-- ===== src/Engine/Positions.antt =====
-- After a re-rank the rows of a spot carry the ranking (`rerankSpots` and `applyRanking`).
use directory_platform.Common.{
  ℕ, ◌+◌, ◌≡◌, ◌≢◌, refl, sym, ◌∙◌, arith, Bool, true, false, ◌&&◌, List, [], ◌∷◌, map, ◌==◌, ltb,
  if◌then◌else◌, is_none, ==→eq, ==→ne, filter, update, insert_by, sort_by, All, All-update,
  All-filter, All-insert_by, All-sort_by, Pairwise, Bool-cases, inl, inr,
}
use directory_platform.Rank.{
  BidStatus, RankableBid, RankedBid, ranks, compare_bids, is_after, insert, sort, number_from,
  rank_bids,
}
use directory_platform.Rank.Unique
use directory_platform.Rank.Order.{All-insert, All-sort}
use directory_platform.Store.Rows.{BidRow, SpotRow, Db}
use directory_platform.Store.Bids.{ranked_row, apply_ranking}
use directory_platform.Store.Tx.{ok}
use directory_platform.Notify.{spots_system_viewer}
use directory_platform.Engine.{rankable}
use directory_platform.Engine.Rows.{apply_rows, ranking_of, apply_ranking-eq}
use directory_platform.Engine.Confirmed.{
  HasDistinctIds, Named, Named-ids, All-ranking_of, All-weaken,
}

-- No row of the list has the id.
abbrev Fresh : ℕ → List BidRow → Type 0
Fresh id l = All (λ b. id ≢ b.id) l

HasDistinctIds-filter :
    (p : BidRow → Bool) (l : List BidRow) → HasDistinctIds l → HasDistinctIds (filter p l)
HasDistinctIds-filter p [] d = tt
HasDistinctIds-filter p (x ∷ xs) d = elim (Bool-cases (p x)) [
  | inl e ↦ rw e (All-filter (λ b. x.id ≢ b.id) p xs d.0, HasDistinctIds-filter p xs d.1)
  | inr e ↦ rw e (HasDistinctIds-filter p xs d.1)
]

HasDistinctIds-insert_by :
    (key : BidRow → ℕ) (x : BidRow) (l : List BidRow)
    → Fresh x.id l
    → HasDistinctIds l
    → HasDistinctIds (insert_by key x l)
HasDistinctIds-insert_by key x [] f d = (tt, tt)
HasDistinctIds-insert_by key x (y ∷ ys) f d = elim (Bool-cases (ltb (key y) (key x))) [
  | inl e ↦ rw e (
    All-insert_by (λ b. y.id ≢ b.id) key x ys (λ q. f.0 (sym q)) d.0,
    HasDistinctIds-insert_by key x ys f.1 d.1,
  )
  | inr e ↦ rw e (f, d)
]

HasDistinctIds-sort_by :
    (key : BidRow → ℕ) (l : List BidRow) → HasDistinctIds l → HasDistinctIds (sort_by key l)
unfolding sort_by
HasDistinctIds-sort_by key [] d = tt
HasDistinctIds-sort_by key (x ∷ xs) d =
    HasDistinctIds-insert_by key x (sort_by key xs) (All-sort_by (λ b. x.id ≢ b.id) key xs d.0)
      (HasDistinctIds-sort_by key xs d.1)

All-rankable :
    (id : ℕ) (l : List BidRow) → Fresh id l → All (λ (b : RankableBid). id ≢ b.id) (map rankable l)
All-rankable id [] f = tt
All-rankable id (b ∷ bs) f = (f.0, All-rankable id bs f.1)

HasDistinctIds-rankable :
    (l : List BidRow)
    → HasDistinctIds l
    → directory_platform.Rank.Order.HasDistinctIds (map rankable l)
HasDistinctIds-rankable [] d = tt
HasDistinctIds-rankable (b ∷ bs) d = (All-rankable b.id bs d.0, HasDistinctIds-rankable bs d.1)

HasDistinctIds-insert :
    (x : RankableBid) (l : List RankableBid)
    → All (λ (y : RankableBid). x.id ≢ y.id) l
    → directory_platform.Rank.Order.HasDistinctIds l
    → directory_platform.Rank.Order.HasDistinctIds (insert x l)
unfolding insert
HasDistinctIds-insert x [] f d = (tt, tt)
HasDistinctIds-insert x (y ∷ ys) f d = elim (Bool-cases (is_after (compare_bids x y))) [
  | inl e ↦
      rw (e, insert)
        (
          All-insert (λ b. y.id ≢ b.id) x ys (λ q. f.0 (sym q)) d.0,
          HasDistinctIds-insert x ys f.1 d.1,
        )
  | inr e ↦ rw (e, insert) (f, d)
]

HasDistinctIds-sort :
    (l : List RankableBid)
    → directory_platform.Rank.Order.HasDistinctIds l
    → directory_platform.Rank.Order.HasDistinctIds (sort l)
unfolding sort
HasDistinctIds-sort [] d = tt
HasDistinctIds-sort (x ∷ xs) d =
    HasDistinctIds-insert x (sort xs) (All-sort (λ y. x.id ≢ y.id) xs d.0)
      (HasDistinctIds-sort xs d.1)

-- The entries of a ranking have distinct ids.
abbrev DistinctEntries : List RankedBid → Type 0
DistinctEntries = Pairwise (λ r q. r.id ≢ q.id)

number_from-fresh :
    (id positions i : ℕ) (l : List RankableBid)
    → All (λ (b : RankableBid). id ≢ b.id) l
    → All (λ (r : RankedBid). id ≢ r.id) (number_from positions i l)
unfolding number_from
number_from-fresh id positions i [] f = tt
number_from-fresh id positions i (b ∷ bs) f = (f.0, number_from-fresh id positions (i + 1) bs f.1)

number_from-DistinctEntries :
    (positions i : ℕ) (l : List RankableBid)
    → directory_platform.Rank.Order.HasDistinctIds l
    → DistinctEntries (number_from positions i l)
unfolding number_from
number_from-DistinctEntries positions i [] d = tt
number_from-DistinctEntries positions i (b ∷ bs) d = (
  number_from-fresh b.id positions (i + 1) bs d.0,
  number_from-DistinctEntries positions (i + 1) bs d.1,
)

ranking_of-DistinctEntries :
    (spot : SpotRow) (spot_id : ℕ) (bids : List BidRow)
    → HasDistinctIds bids
    → DistinctEntries (ranking_of spot spot_id bids)
unfolding rank_bids
ranking_of-DistinctEntries spot spot_id bids d = number_from-DistinctEntries spot.positions 0 _ (
    HasDistinctIds-sort _ (
      directory_platform.Rank.Unique.HasDistinctIds-filter _
        (HasDistinctIds-rankable _ (HasDistinctIds-sort_by _ _ (HasDistinctIds-filter _ bids d)))))

-- The row of an entry: its position, and with one it is active.
pub record IsPlaced (r : RankedBid) (b : BidRow) : Type 0 where
  pub position : b.position ≡ r.position
  pub status : b.status ≡ (if is_none r.position then BidStatus.outbid else BidStatus.active)

abbrev pub Carries : List BidRow → RankedBid → Type 0
Carries bids r = Named (IsPlaced r) bids r.id

abbrev OnSpot : ℕ → List BidRow → ℕ → Type 0
OnSpot spot_id = Named (λ b. b.spot_id ≡ spot_id)

abbrev written : ℕ → ℕ → RankedBid → List BidRow → List BidRow
written at spot_id r bids =
    update (λ b. b.id == r.id && b.spot_id == spot_id) (ranked_row r at) bids

Carries-written :
    (at spot_id : ℕ) (r : RankedBid) (bids : List BidRow)
    → OnSpot spot_id bids r.id
    → Carries (written at spot_id r bids) r
unfolding ranked_row
Carries-written at spot_id r [] h = tt
Carries-written at spot_id r (b ∷ bs) h =
    (head (b.id == r.id) refl (b.spot_id == spot_id) refl, Carries-written at spot_id r bs h.1)
  where
    head :
        (c : Bool)
        → (b.id == r.id) ≡ c
        → (d : Bool) → (b.spot_id == spot_id) ≡ d
        → let b' = if c && d then ranked_row r at b else b in b'.id ≡ r.id → IsPlaced r b'
    head true e true k q = record { position = refl; status = refl }
    head true e false k q = absurd (==→ne b.spot_id spot_id k (h.0 q))
    head false e d k q = absurd (==→ne b.id r.id e q)

Carries-kept :
    (at spot_id : ℕ) (r q : RankedBid) (bids : List BidRow)
    → r.id ≢ q.id
    → Carries bids r
    → Carries (written at spot_id q bids) r
unfolding ranked_row
Carries-kept at spot_id r q bids ne h =
    All-update (λ b. b.id ≡ r.id → IsPlaced r b) _ _ bids
      (λ b e k same. absurd (ne (sym same ∙ ==→eq b.id q.id (left_true _ _ e)))) h
  where
    left_true : (c d : Bool) → (c && d) ≡ true → c ≡ true
    left_true c d e = ground arith

OnSpot-written :
    (at spot_id id : ℕ) (r : RankedBid) (bids : List BidRow)
    → OnSpot spot_id bids id
    → OnSpot spot_id (written at spot_id r bids) id
unfolding ranked_row
OnSpot-written at spot_id id r bids h =
    All-update (λ b. b.id ≡ id → b.spot_id ≡ spot_id) _ (ranked_row r at) bids (λ b e k. k) h

All-OnSpot-written :
    (at spot_id : ℕ) (r : RankedBid) (bids : List BidRow) (qs : List RankedBid)
    → All (λ (q : RankedBid). OnSpot spot_id bids q.id) qs
    → All (λ (q : RankedBid). OnSpot spot_id (written at spot_id r bids) q.id) qs
All-OnSpot-written at spot_id r bids [] h = tt
All-OnSpot-written at spot_id r bids (q ∷ qs) h =
    (OnSpot-written at spot_id q.id r bids h.0, All-OnSpot-written at spot_id r bids qs h.1)

Carries-apply_rows :
    (at spot_id : ℕ) (r : RankedBid) (qs : List RankedBid) (bids : List BidRow)
    → All (λ (q : RankedBid). r.id ≢ q.id) qs
    → Carries bids r
    → Carries (apply_rows at spot_id qs bids) r
unfolding apply_rows
Carries-apply_rows at spot_id r [] bids ne h = h
Carries-apply_rows at spot_id r (q ∷ qs) bids ne h =
    Carries-apply_rows at spot_id r qs _ ne.1 (Carries-kept at spot_id r q bids ne.0 h)

apply_rows-Carries :
    (at spot_id : ℕ) (rs : List RankedBid) (bids : List BidRow)
    → DistinctEntries rs
    → All (λ (r : RankedBid). OnSpot spot_id bids r.id) rs
    → All (Carries (apply_rows at spot_id rs bids)) rs
unfolding apply_rows
apply_rows-Carries at spot_id [] bids d h = tt
apply_rows-Carries at spot_id (r ∷ rs) bids d h = (
  Carries-apply_rows at spot_id r rs _ d.0 (Carries-written at spot_id r bids h.0),
  apply_rows-Carries at spot_id rs _ d.1 (All-OnSpot-written at spot_id r bids rs h.1),
)

-- With distinct ids of bids, the ranking of a spot can always be applied, and then every row that
-- an entry of the ranking names holds the entry's position, and is active if that is a position
-- and outbid if it is none.
pub apply_ranking-Carries :
    (spot : SpotRow) (spot_id : ℕ) (s : Db)
    → HasDistinctIds s.bids
    → (s' : Db) × (apply_ranking spots_system_viewer spot_id (ranking_of spot spot_id s.bids) s
        ≡ ok (tt, s'))
      × All (Carries s'.bids) (ranking_of spot spot_id s.bids)
apply_ranking-Carries spot spot_id s d =
    let rs = ranking_of spot spot_id s.bids in
    (
      record s { bids = apply_rows s.now spot_id rs s.bids },
      apply_ranking-eq spot_id rs s,
      apply_rows-Carries s.now spot_id rs s.bids (ranking_of-DistinctEntries spot spot_id s.bids d)
          (All-ranking_of (OnSpot spot_id s.bids) spot spot_id s.bids (
            All-weaken _ _ s.bids (λ b k e r. k e)
              (Named-ids (λ b. b.spot_id ≡ spot_id) s.bids d))),
    )

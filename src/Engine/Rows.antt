-- ===== src/Engine/Rows.antt =====
-- A re-rank as a function of the table of bids: the writes of `applyRanking`, one after another.
use directory_platform.Common.{
  ℕ, ◌≡◌, refl, ◌&&◌, List, [], ◌∷◌, map, ◌==◌, filter, update, sort_by,
}
use directory_platform.Rank.{RankedBid, rank_bids}
use directory_platform.Notify.{spots_system_viewer}
use directory_platform.Store.Rows.{BidRow, SpotRow, Db}
use directory_platform.Store.Tx.{ok, pure, gets, ◌>>=◌, modify, require, for_each, assert_worker}
use directory_platform.Store.Bids.{is_live, ranked_row, apply_ranking}
use directory_platform.Engine.{rankable}

-- the rows after each ranked bid has been written
unfoldable pub apply_rows : ℕ → ℕ → List RankedBid → List BidRow → List BidRow
apply_rows at spot_id [] bids = bids
apply_rows at spot_id (r ∷ rs) bids =
    apply_rows at spot_id rs
      (update (λ b. b.id == r.id && b.spot_id == spot_id) (ranked_row r at) bids)

-- the bids that `spotBids` reads
abbrev pub bids_on : ℕ → List BidRow → List BidRow
bids_on spot_id bids =
    sort_by (λ b. b.created_at) (filter (λ b. b.spot_id == spot_id && is_live b) bids)

abbrev pub ranking_of : SpotRow → ℕ → List BidRow → List RankedBid
ranking_of spot spot_id bids = rank_bids (map rankable (bids_on spot_id bids)) spot.positions

for_each-rows :
    (at spot_id : ℕ) (rs : List RankedBid) (s : Db)
    → for_each rs
        (λ r. modify λ d. record d {
          bids = update (λ b. b.id == r.id && b.spot_id == spot_id) (ranked_row r at) d.bids;
        })
        s
      ≡ ok (tt, record s { bids = apply_rows at spot_id rs s.bids })
unfolding for_each apply_rows pure ◌>>=◌ modify
for_each-rows at spot_id [] s = refl
for_each-rows at spot_id (r ∷ rs) s = for_each-rows at spot_id rs _

-- For the system, `applyRanking` is that function.
pub apply_ranking-eq :
    (spot_id : ℕ) (rs : List RankedBid) (s : Db)
    → apply_ranking spots_system_viewer spot_id rs s
      ≡ ok (tt, record s { bids = apply_rows s.now spot_id rs s.bids })
unfolding apply_ranking assert_worker require pure gets ◌>>=◌
apply_ranking-eq spot_id rs s = for_each-rows s.now spot_id rs s

-- ===== src/Examples/Ranking.antt =====
-- The theorems on rankings and minimums, applied to small spots.
use mathlib.Core.List.Perm
use directory_platform.Common.{
  ℕ, ◌≡◌, refl, inl, inr, arith, ◌↔◌, ◌*◌, ◌≤◌, none, some, List, [], ◌∷◌, filter,
}
use directory_platform.Rank.{
  BidStatus, RankableBid, number_from, rank_bids, accepted, rejected, below_entry, below_first,
  validate_bid, minimum_to_take_first, ChargeableBid, is_featured, quantity_for,
}
use directory_platform.Rank.Unique.{rank_bids_unique, count_featured, count_featured-rank_bids}
use directory_platform.Rank.Minimums.{
  ClearsFirst, IsAcceptable, standing, minimum_to_take_first_iff, validate_bid_iff,
}
use directory_platform.Rank.Refusal.{entry_minimum_refused}
use directory_platform.Rank.Quantity.{sum_amounts, quantity_for_exact}

abbrev bid : ℕ → ℕ → BidStatus → RankableBid
bid id amount status = record {
  id = id;
  listing_id = id;
  amount_cents = amount;
  amount_set_at = id;
  status = status;
}

-- 1 and 2 bid the same, 1 earlier; 3 bids more but waits
abbrev bids : List RankableBid
bids = bid 2 1000 BidStatus.active ∷ bid 3 3000 BidStatus.pending ∷ bid 1 1000 BidStatus.outbid ∷ []

abbrev in_order : List RankableBid
in_order = bid 1 1000 BidStatus.outbid ∷ bid 2 1000 BidStatus.active ∷ []

rank_bids_unique_example : rank_bids bids 1 ≡ number_from 1 0 in_order
rank_bids_unique_example =
    rank_bids_unique bids in_order 1
      ((λ e. omega arith, (λ e. omega arith, tt)), ((λ e. omega arith, tt), (tt, tt)))
      (Perm.swap _ _ _) ((inr (refl, inl (omega arith)), tt), (tt, tt))

count_featured-rank_bids_example : count_featured (rank_bids bids 1) ≡ 1
count_featured-rank_bids_example = count_featured-rank_bids bids 1

minimum_to_take_first_iff_example :
    (minimum_to_take_first (standing 1000 3 (2000 ∷ [])) ≤ 2500)
    ↔ ClearsFirst 2500 (standing 1000 3 (2000 ∷ []))
minimum_to_take_first_iff_example =
    minimum_to_take_first_iff 2500 (standing 1000 3 (2000 ∷ [])) refl (omega arith)

validate_bid_iff_example :
    (validate_bid 2500 (standing 1000 3 (2000 ∷ [])) ≡ accepted)
    ↔ IsAcceptable 2500 (standing 1000 3 (2000 ∷ []))
validate_bid_iff_example = validate_bid_iff 2500 (standing 1000 3 (2000 ∷ []))

entry_minimum_refused_example :
    (validate_bid 1000 (standing 1000 1 (2000 ∷ [])) ≡ rejected below_entry 2100)
    × (validate_bid 2100 (standing 1000 1 (2000 ∷ []))
        ≡ rejected below_first (minimum_to_take_first (standing 1000 1 (2000 ∷ []))))
entry_minimum_refused_example =
    entry_minimum_refused 1000 2000 1000 1 [] tt (omega arith) refl refl (omega arith) (omega arith)

abbrev held : List ChargeableBid
held =
    record { amount_cents = 2000; status = BidStatus.active; position = some 1 }
    ∷ record { amount_cents = 900; status = BidStatus.outbid; position = none }
    ∷ []

quantity_for_exact_example : quantity_for held * 100 ≡ sum_amounts (filter is_featured held)
quantity_for_exact_example = quantity_for_exact held (refl, (refl, tt))

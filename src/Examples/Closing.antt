-- ===== src/Examples/Closing.antt =====
-- The theorems on closed spots and expired requests, applied to runs on the tables.
use directory_platform.Common.{◌≡◌, refl, arith, none, [], ◌∷◌, map}
use directory_platform.Store.Rows.{Db, SpotKey, city, admin}
use directory_platform.Store.Tx.{
  Result, ok, err, pure, gets, ◌>>=◌, on_option, modify, require, for_each, assert_worker,
  assert_signed_in, write_audit_as, enqueue_job,
}
use directory_platform.Store.Listings.{actor_for}
use directory_platform.Store.Spots.{
  PagePath, AdminSpotResult, done, same_area, matches_key, find_spot, ensure_spot, paths_of_spot,
  spot_paths, cancelled_row, close_spot,
}
use directory_platform.Store.Bids.{unraised_row, expired_row, expire_pending_bids}
use directory_platform.Engine.Confirmed.{HasDistinctIds}
use directory_platform.Book.{book}
use directory_platform.Book.Spots.{
  closed_book, expire_entry, close_spot-book, expire_pending_bids-book,
}
use directory_platform.Examples.Tables.{tables}

abbrev state_of : {A : Type 0} → Result (A × Db) → Db
state_of (ok (a, s)) = s
state_of (err e calls) = tables

abbrev city_spot : SpotKey
city_spot = record { area_kind = city; area_id = 5; category_id = none }

-- An administrator closes the spot that both listings bid for.
unfoldable closed : Db
closed = state_of (close_spot (admin 1) city_spot none tables)

abbrev closing : AdminSpotResult
closing = done 1 (7 ∷ 8 ∷ []) (PagePath.city_page 50 ∷ [])

-- PayPal never confirmed the bid of listing 8.
unfoldable expired : Db
expired = state_of (expire_pending_bids (admin 0) 8 tables)

tables_distinct : HasDistinctIds tables.bids
tables_distinct = ((λ e. omega arith, tt), (tt, tt))

runs :
    (close_spot (admin 1) city_spot none tables ≡ ok (closing, closed))
    × (expire_pending_bids (admin 0) 8 tables ≡ ok (1 ∷ [], expired))
unfolding closed expired pure gets ◌>>=◌ on_option modify require for_each assert_worker
    assert_signed_in write_audit_as enqueue_job actor_for same_area matches_key find_spot
    ensure_spot paths_of_spot spot_paths cancelled_row close_spot unraised_row expired_row
    expire_pending_bids
runs = (refl, refl)

close_spot-book_example : book closed ≡ closed_book closing (book tables)
close_spot-book_example =
    close_spot-book (admin 1) city_spot none tables closed closing tables_distinct runs.0

expire_pending_bids-book_example : book expired ≡ map (expire_entry 8) (book tables)
expire_pending_bids-book_example =
    expire_pending_bids-book (admin 0) 8 tables expired (1 ∷ []) tables_distinct runs.1

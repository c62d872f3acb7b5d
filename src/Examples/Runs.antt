-- ===== src/Examples/Runs.antt =====
-- The theorems on bids, applied to runs on the tables.
use directory_platform.Common.{
  All, false, List, ◌≡◌, refl, arith, none, some, [], ◌∷◌, map, sort_by,
}
use directory_platform.Store.Rows.{Db, FeaturedSubscriptionStatus, FeaturedSubscription}
use directory_platform.Store.Tx.{Result, ok, err}
use directory_platform.Store.Tx.{
  pure, throw, gets, ◌>>=◌, on_option, modify, require, for_each, collect, assert_worker,
  assert_signed_in, fresh_id, write_audit_as, enqueue_job, ask_provider,
}
use directory_platform.Store.Listings.{
  insert_profile, ensure_profile_of, ensure_profile, actor_for, has_live_plan, ineligible_reason,
  bidding_listing, listing_for_bidding, lock_listing, area_exists, spot_area_exists,
}
use directory_platform.Store.Spots.{
  PagePath, same_area, matches_key, find_spot, spot_by_id, floor_cents_for, new_spot,
  found_or_vanished, insert_spot, ensure_spot, paths_of_spot, spot_paths, cancelled_row, close_spot,
  open_spot, set_spot_floor,
}
use directory_platform.Store.Bids.{
  spot_bids, listing_bids, listing_bids_for_system, chargeable_bids_for_listing, listings_in_spots,
  has_pending_bids, pending_row, insert_bid, raised_row, set_bid_pending, lowered_row,
  set_bid_amount, cancel_bid, unraised_row, clear_pending_raise, ranked_row, apply_ranking,
  confirmed_row, confirm_listing_bids, cancel_listing_bids, expired_row, expire_pending_bids,
  notified_row, mark_outbid_notified,
}
use directory_platform.Store.Subscriptions.{
  current_featured_subscription, new_subscription, create_featured_subscription, set_subscription,
  attach_featured_provider, patched, update_featured_subscription, featured_subscription_for_event,
}
use directory_platform.Notify.{
  spots_system_viewer, next_position, change_of, changes_of, position_changes, amount_to_retake,
  notify_change, notify_outbid,
}
use directory_platform.Engine.{
  QuantityAction, QuantityChange, same_path, distinct_paths, rerank_spot, rerank_spots,
}
use directory_platform.Engine.Sync.{
  cancel_subscription_now, suspend_now, stop_billing, settle_request, request_revision,
  settle_quantity, resume_billing, sync_approved, sync_subscription, sync_listing, sync_quantities,
  settle_spots,
}
use directory_platform.Bidding.{
  BidOutcome, spot_allowed_for, standing_for, hypothetical_bids, units_if_placed,
  projected_quantity, approval_for,
}
use directory_platform.Bidding.Place.{
  on_validation, withdraw_raise, lower_accepted, lower_bid, write_pending, start_subscription,
  confirm_now, ask_for_quantity, resume_and_ask, revise_live, bid_on_live, bid_accepted,
  bid_or_raise, decide_bid, decide_approved, place_locked, place_eligible, place_for,
  place_configured, place_bid,
}
use directory_platform.Bidding.Cancel.{
  CancelBidOutcome, cancel_found, cancel_approved, cancel_unless_unapproved, cancel_own_bid,
}
use directory_platform.Webhook.{
  PayPalEvent, Ignored, EventType, FeaturedWebhookOutcome, AppliedAction,
  provider_subscription_id_for, covers, confirmation, confirm_covered, confirm_row, renew_row,
  lapse_row, fail_row, apply_type, apply_event, process_featured_event,
}
use directory_platform.Webhook.Reconcile.{
  status_event, event_of_view, outcome_of, apply_view, ask_and_apply,
  reconcile_featured_subscription,
}
use directory_platform.Rank.{
  BidStatus, ChargeableBid, insert, compare_bids, sort, number_from, rank_bids, round_up_to_unit,
  max_of, min_of, top, lowest, minimum_to_take_first, minimum_to_enter, takes_first, validate_bid,
  validate_lower, featured_cents, quantity_for,
}
use directory_platform.Engine.Calls.{told, Extends, Justified, sync_listing_calls}
use directory_platform.Engine.Rows.{ranking_of}
use directory_platform.Engine.Positions.{Carries, apply_ranking-Carries}
use directory_platform.Engine.Confirmed.{HasDistinctIds}
use directory_platform.Webhook.Closed.{Finds, can_revive, closed_is_final}
use directory_platform.Book.{book, cancel_entry}
use directory_platform.Book.Events.{
  ends_subscription, confirms_subscription, confirmed_book, ending_event-book,
  confirming_event-book,
}
use directory_platform.Sound.Rows.{AreSound}
use directory_platform.Sound.Place.{place_bid-AreSound}
use directory_platform.Sound.Events.{process_featured_event-AreSound, cancel_own_bid-AreSound}
use directory_platform.Examples.Tables.{
  spot_row, tables, subscription, event, client, input, withdrawal,
}

-- what a run returns, and the tables that it leaves
abbrev state_of : {A : Type 0} → Result (A × Db) → Db
state_of (ok (a, s)) = s
state_of (err e calls) = tables

tables-HasDistinctIds : HasDistinctIds tables.bids
tables-HasDistinctIds = ((λ e. omega arith, tt), (tt, tt))

tables-AreSound : AreSound tables.bids
tables-AreSound = (
  record { whole = refl; whole_next = refl; placed = λ e. refl },
  (record { whole = refl; whole_next = refl; placed = λ e. cc }, tt),
)

-- PayPal confirms the first bid of listing 8, and the settlement moves listing 7 out.
abbrev confirmation_event : PayPalEvent
confirmation_event = event EventType.subscription_activated 922 (some 30)

unfoldable confirmed : Db
confirmed = state_of (process_featured_event none confirmation_event tables)

abbrev waiting_row : FeaturedSubscription
waiting_row = subscription 22 8 FeaturedSubscriptionStatus.approval_pending 0 30

-- PayPal cancels the subscription of listing 7, and its bid is withdrawn.
abbrev cancellation_event : PayPalEvent
cancellation_event = event EventType.subscription_cancelled 921 none

unfoldable lapsed : Db
lapsed = state_of (process_featured_event none cancellation_event tables)

abbrev active_row : FeaturedSubscription
active_row = subscription 21 7 FeaturedSubscriptionStatus.active 20 20

-- A late activation of a subscription that was cancelled.
abbrev late_event : PayPalEvent
late_event = event EventType.subscription_activated 923 (some 30)

abbrev closed_row : FeaturedSubscription
closed_row = subscription 23 4 FeaturedSubscriptionStatus.cancelled 0 0

-- The owner of listing 9 bids 40 units, and is sent to PayPal to approve the subscription.
unfoldable placed : Db
placed = state_of (place_bid 9999 (input 4000) tables)

-- The owner of listing 7 withdraws its only bid.
unfoldable withdrawn : Db
withdrawn = state_of (cancel_own_bid withdrawal tables)

-- Listing 7 holds no position any more, and its subscription is suspended.
abbrev outbid_bids : List ChargeableBid
outbid_bids = record { amount_cents = 2000; status = BidStatus.outbid; position = none } ∷ []

abbrev changes : List QuantityChange
changes =
    record {
      listing_id = 7;
      subscription_id = 21;
      quantity = 0;
      action = QuantityAction.went_paused;
      approve_url = none;
    }
    ∷ []

unfoldable suspended : Db
suspended = state_of (sync_listing (some client) 7 confirmed)

-- The runs, and the rows that the events find.
runs :
    (process_featured_event none confirmation_event tables
      ≡ ok (
        FeaturedWebhookOutcome.applied AppliedAction.confirm (PagePath.city_page 50 ∷ []),
        confirmed,
      ))
    × (Finds confirmation_event tables waiting_row)
    × (process_featured_event none cancellation_event tables
        ≡ ok (
          FeaturedWebhookOutcome.applied AppliedAction.lapse (PagePath.city_page 50 ∷ []),
          lapsed,
        ))
    × (Finds cancellation_event tables active_row)
    × (Finds late_event tables closed_row)
    × (place_bid 9999 (input 4000) tables ≡ ok (BidOutcome.approval (some 1) [], placed))
    × (cancel_own_bid withdrawal tables
        ≡ ok (CancelBidOutcome.applied none (PagePath.city_page 50 ∷ []), withdrawn))
    × (current_featured_subscription spots_system_viewer 7 none confirmed
        ≡ ok (some active_row, confirmed))
    × (chargeable_bids_for_listing spots_system_viewer 7 confirmed ≡ ok (outbid_bids, confirmed))
    × (has_pending_bids spots_system_viewer 7 confirmed ≡ ok (false, confirmed))
    × (sync_listing (some client) 7 confirmed ≡ ok (changes, suspended))
unfolding confirmed lapsed placed withdrawn suspended sort_by pure throw gets ◌>>=◌ on_option modify
    require for_each collect assert_worker assert_signed_in fresh_id write_audit_as enqueue_job
    ask_provider insert_profile ensure_profile_of ensure_profile actor_for has_live_plan
    ineligible_reason bidding_listing listing_for_bidding lock_listing area_exists spot_area_exists
    same_area matches_key find_spot spot_by_id floor_cents_for new_spot found_or_vanished
    insert_spot ensure_spot paths_of_spot spot_paths cancelled_row close_spot open_spot
    set_spot_floor spot_bids listing_bids listing_bids_for_system chargeable_bids_for_listing
    listings_in_spots has_pending_bids pending_row insert_bid raised_row set_bid_pending lowered_row
    set_bid_amount cancel_bid unraised_row clear_pending_raise ranked_row apply_ranking
    confirmed_row confirm_listing_bids cancel_listing_bids expired_row expire_pending_bids
    notified_row mark_outbid_notified current_featured_subscription new_subscription
    create_featured_subscription set_subscription attach_featured_provider patched
    update_featured_subscription featured_subscription_for_event next_position change_of changes_of
    position_changes amount_to_retake notify_change notify_outbid same_path distinct_paths
    rerank_spot rerank_spots cancel_subscription_now suspend_now stop_billing settle_request
    request_revision settle_quantity resume_billing sync_approved sync_subscription sync_listing
    sync_quantities settle_spots spot_allowed_for standing_for hypothetical_bids units_if_placed
    projected_quantity approval_for on_validation withdraw_raise lower_accepted lower_bid
    write_pending start_subscription confirm_now ask_for_quantity resume_and_ask revise_live
    bid_on_live bid_accepted bid_or_raise decide_bid decide_approved place_locked place_eligible
    place_for place_configured place_bid cancel_found cancel_approved cancel_unless_unapproved
    cancel_own_bid provider_subscription_id_for covers confirmation confirm_covered confirm_row
    renew_row lapse_row fail_row apply_type apply_event process_featured_event status_event
    event_of_view outcome_of apply_view ask_and_apply reconcile_featured_subscription insert
    compare_bids sort number_from rank_bids round_up_to_unit max_of min_of top lowest
    minimum_to_take_first minimum_to_enter takes_first validate_bid validate_lower featured_cents
    quantity_for
runs = (refl, refl, refl, refl, refl, refl, refl, refl, refl, refl, refl)

confirming_event-book_example :
    book confirmed
    ≡ confirmed_book waiting_row (covers waiting_row confirmation_event.quantity) (book tables)
unfolding confirms_subscription
confirming_event-book_example =
    confirming_event-book none confirmation_event waiting_row tables confirmed
      (FeaturedWebhookOutcome.applied AppliedAction.confirm (PagePath.city_page 50 ∷ []))
      tables-HasDistinctIds runs.1 refl runs.0

process_featured_event-AreSound_example : AreSound confirmed.bids
process_featured_event-AreSound_example =
    process_featured_event-AreSound none confirmation_event tables confirmed
      (FeaturedWebhookOutcome.applied AppliedAction.confirm (PagePath.city_page 50 ∷ []))
      tables-AreSound runs.0

ending_event-book_example : book lapsed ≡ map (cancel_entry 7) (book tables)
unfolding ends_subscription
ending_event-book_example =
    ending_event-book none cancellation_event active_row tables lapsed
      (FeaturedWebhookOutcome.applied AppliedAction.lapse (PagePath.city_page 50 ∷ []))
      tables-HasDistinctIds runs.3 refl runs.2

closed_is_final_example :
    (reason : Ignored) × (process_featured_event (some client) late_event tables
      ≡ ok (FeaturedWebhookOutcome.ignored reason, tables))
unfolding can_revive
closed_is_final_example =
    closed_is_final (some client) late_event closed_row tables runs.4 refl refl

place_bid-AreSound_example : AreSound placed.bids
place_bid-AreSound_example =
    place_bid-AreSound 9999 (input 4000) tables placed (BidOutcome.approval (some 1) [])
      tables-AreSound runs.5

cancel_own_bid-AreSound_example : AreSound withdrawn.bids
cancel_own_bid-AreSound_example =
    cancel_own_bid-AreSound withdrawal tables withdrawn
      (CancelBidOutcome.applied none (PagePath.city_page 50 ∷ [])) tables-AreSound runs.6

sync_listing_calls_example :
    Extends
      (Justified active_row (quantity_for outbid_bids) outbid_bids false)
      confirmed.calls
      (told (sync_listing (some client) 7 confirmed))
sync_listing_calls_example =
    sync_listing_calls (some client) 7 active_row outbid_bids false confirmed runs.7 runs.8 runs.9

apply_ranking-Carries_example :
    (s' : Db) × (apply_ranking spots_system_viewer 1 (ranking_of spot_row 1 tables.bids) tables
      ≡ ok (tt, s'))
    × All (Carries s'.bids) (ranking_of spot_row 1 tables.bids)
apply_ranking-Carries_example = apply_ranking-Carries spot_row 1 tables tables-HasDistinctIds

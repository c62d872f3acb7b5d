-- ===== src/Examples/Reconciling.antt =====
-- A run of a reconciliation on the tables, and the theorem on reconciliations applied to it.
use directory_platform.Common.{◌≡◌, refl, arith, none, some, [], ◌∷◌, sort_by}
use directory_platform.Store.Rows.{Db, FeaturedSubscriptionStatus, FeaturedSubscription}
use directory_platform.Store.Tx.{Result, ok, err}
use directory_platform.Store.Tx.{
  pure, throw, gets, ◌>>=◌, on_option, modify, require, for_each, collect, assert_worker,
  assert_signed_in, fresh_id, write_audit_as, enqueue_job, ask_provider,
}
use directory_platform.Store.Spots.{PagePath, spot_by_id, paths_of_spot, spot_paths, cancelled_row}
use directory_platform.Store.Bids.{
  spot_bids, listing_bids, listing_bids_for_system, chargeable_bids_for_listing, listings_in_spots,
  has_pending_bids, ranked_row, apply_ranking, confirmed_row, confirm_listing_bids,
  cancel_listing_bids, notified_row, mark_outbid_notified,
}
use directory_platform.Store.Subscriptions.{
  current_featured_subscription, set_subscription, patched, update_featured_subscription,
  featured_subscription_for_event,
}
use directory_platform.Notify.{
  next_position, change_of, changes_of, position_changes, amount_to_retake, notify_change,
  notify_outbid,
}
use directory_platform.Engine.{same_path, distinct_paths, rerank_spot, rerank_spots}
use directory_platform.Engine.Sync.{
  cancel_subscription_now, suspend_now, stop_billing, settle_request, request_revision,
  settle_quantity, resume_billing, sync_approved, sync_subscription, sync_listing, sync_quantities,
  settle_spots,
}
use directory_platform.Webhook.{
  AppliedAction, provider_subscription_id_for, covers, confirmation, confirm_covered, confirm_row,
  lapse_row, apply_type, apply_event, process_featured_event,
}
use directory_platform.Webhook.Reconcile.{
  status_event, event_of_view, outcome_of, apply_view, ask_and_apply,
  reconcile_featured_subscription,
}
use directory_platform.Rank.{
  insert, compare_bids, sort, number_from, rank_bids, featured_cents, quantity_for,
}
use directory_platform.Engine.Confirmed.{HasDistinctIds}
use directory_platform.Book.{book}
use directory_platform.Examples.Tables.{tables, subscription, client}
use directory_platform.Provider.{PayPalClient, SubscriptionView, is_cancelled}
use directory_platform.Webhook.Reconcile.{FeaturedReconcileOutcome, reconciled}
use directory_platform.Book.Reconcile.{Names, reported_book, reconcile-book}

abbrev state_of : {A : Type 0} → Result (A × Db) → Db
state_of (ok (a, s)) = s
state_of (err e calls) = tables

-- PayPal says that the subscription of listing 7 is cancelled.
abbrev cancelled_view : SubscriptionView
cancelled_view = record {
  id = 921;
  status = is_cancelled;
  quantity = none;
  next_billing_time = none;
}

abbrev answering : PayPalClient
answering = record client { get = λ id calls. some (some cancelled_view) }

unfoldable reconciled_tables : Db
reconciled_tables = state_of (reconcile_featured_subscription (some answering) 921 tables)

abbrev outcome : FeaturedReconcileOutcome
outcome = reconciled AppliedAction.lapse (PagePath.city_page 50 ∷ [])

abbrev row : FeaturedSubscription
row = subscription 21 7 FeaturedSubscriptionStatus.active 20 20

tables_distinct : HasDistinctIds tables.bids
tables_distinct = ((λ e. omega arith, tt), (tt, tt))

run :
    (reconcile_featured_subscription (some answering) 921 tables ≡ ok (outcome, reconciled_tables))
    × Names 921 tables row
unfolding reconciled_tables sort_by pure throw gets ◌>>=◌ on_option modify require for_each collect
    assert_worker assert_signed_in fresh_id write_audit_as enqueue_job ask_provider spot_by_id
    paths_of_spot spot_paths cancelled_row spot_bids listing_bids listing_bids_for_system
    chargeable_bids_for_listing listings_in_spots has_pending_bids ranked_row apply_ranking
    confirmed_row confirm_listing_bids cancel_listing_bids notified_row mark_outbid_notified
    current_featured_subscription set_subscription patched update_featured_subscription
    featured_subscription_for_event next_position change_of changes_of position_changes
    amount_to_retake notify_change notify_outbid same_path distinct_paths rerank_spot rerank_spots
    cancel_subscription_now suspend_now stop_billing settle_request request_revision settle_quantity
    resume_billing sync_approved sync_subscription sync_listing sync_quantities settle_spots
    provider_subscription_id_for covers confirmation confirm_covered confirm_row lapse_row
    apply_type apply_event process_featured_event status_event event_of_view outcome_of apply_view
    ask_and_apply reconcile_featured_subscription insert compare_bids sort number_from rank_bids
    featured_cents quantity_for
run = (refl, refl)

reconcile-book_example : book reconciled_tables ≡ reported_book is_cancelled none row (book tables)
reconcile-book_example =
    reconcile-book answering cancelled_view row tables reconciled_tables outcome tables_distinct
      run.1 refl run.0

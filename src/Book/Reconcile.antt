-- ===== src/Book/Reconcile.antt =====
-- What `reconcileFeaturedSubscription` (lib/spots/webhook.ts) does to the book for each status
-- that PayPal may report.
use directory_platform.Common.{
  ℕ, ◌≡◌, refl, sym, ◌∙◌, Bool, true, false, Option, none, some, List, ◌∷◌, map, if◌then◌else◌,
  option_eq, find?,
}
use directory_platform.Provider.{
  PayPalClient, ProviderStatus, is_active, is_suspended, is_cancelled, is_expired,
  is_approval_pending, unlisted, SubscriptionView,
}
use directory_platform.Notify.{spots_system_viewer}
use directory_platform.Store.Rows.{Db, FeaturedSubscription, get_subscription}
use directory_platform.Store.Tx.{
  ok, Tx, pure, gets, modify, on_option, continue, require, assert_worker, ◌>>=◌,
}
use directory_platform.Store.Triple.{
  Ends, Triple, Triple-if, Triple-pure, Keeps-pure, Ends-continue,
}
use directory_platform.Store.Frame.{Holds}
use directory_platform.Store.Subscriptions.{is_paused, featured_subscription_for_event}
use directory_platform.Engine.Confirmed.{HasDistinctIds}
use directory_platform.Webhook.{
  EventType, PayPalEvent, is_closed, covers, confirm_row, provider_subscription_id_for, apply_type,
  process_featured_event,
}
use directory_platform.Webhook.Closed.{Finds}
use directory_platform.Webhook.Reconcile.{
  FeaturedReconcileOutcome, status_event, event_of_view, outcome_of, apply_view, ask_and_apply,
  reconcile_featured_subscription,
}
use directory_platform.Book.{Entry, book, Shows, cancel_entry}
use directory_platform.Book.Events.{
  confirmed_book, process_found, lapse_row-Shows, confirm_row-Shows,
}
use directory_platform.Book.Spots.{read_run}

-- The subscription that PayPal's id names.
abbrev pub Names : ℕ → Db → FeaturedSubscription → Type 0
Names id s sub =
    find? (λ r. option_eq r.provider_subscription_id (some id)) s.subscriptions ≡ some sub

-- The book once PayPal has reported a status and a quantity.
abbrev pub reported_book :
    ProviderStatus → Option ℕ → FeaturedSubscription → List Entry → List Entry
reported_book is_active quantity sub m =
    if is_closed sub.status then m else confirmed_book sub (covers sub quantity) m
reported_book is_suspended quantity sub m =
    if is_paused sub.status then m else map (cancel_entry sub.listing_id) m
reported_book is_cancelled quantity sub m = map (cancel_entry sub.listing_id) m
reported_book is_expired quantity sub m = map (cancel_entry sub.listing_id) m
reported_book is_approval_pending quantity sub m = m
reported_book unlisted quantity sub m = m

lookup :
    (id : ℕ) (sub : FeaturedSubscription) (s : Db)
    → Names id s sub
    → featured_subscription_for_event spots_system_viewer (some id) none s ≡ ok (some sub, s)
unfolding featured_subscription_for_event assert_worker require gets pure ◌>>=◌
lookup id sub s h = rw h refl

module _ (m : List Entry) (c : PayPalClient) (sub : FeaturedSubscription) where
  -- a transaction that leaves a book leaves the same book under another name
  renamed :
      {A : Type 0} (m' m'' : List Entry) (t : Tx A)
      → m' ≡ m''
      → Triple (Holds (Shows m)) t (λ _. Holds (Shows m'))
      → Triple (Holds (Shows m)) t (λ _. Holds (Shows m''))
  renamed m' m'' t e k = rw⁻¹ e k

  -- a row that is closed is not confirmed
  closed-Shows :
      (event : PayPalEvent)
      → is_closed sub.status ≡ true
      → Triple (Holds (Shows m)) (confirm_row (some c) sub event) (λ _. Holds (Shows m))
  unfolding confirm_row
  closed-Shows event h = rw h (Keeps-pure _)

  active-Shows :
      (event : PayPalEvent) (b : Bool)
      → is_closed sub.status ≡ b
      → Triple
          (Holds (Shows m))
          (confirm_row (some c) sub event)
          (λ _. Holds (Shows (reported_book is_active event.quantity sub m)))
  active-Shows event true h = renamed m _ _ (rw h refl) (closed-Shows event h)
  active-Shows event false h =
      renamed _ _ _ (rw h refl) (confirm_row-Shows m (some c) sub event (rw h refl))

  module _ (id : ℕ) (quantity next : Option ℕ) (s : Db) (named : Names id s sub) where
    abbrev view : ProviderStatus → SubscriptionView
    view st = record { id = id; status = st; quantity = quantity; next_billing_time = next }

    -- the run of the event of a view that finds the row
    reported-Ends :
        (m' : List Entry) (st : ProviderStatus) (type : EventType)
        → Finds (event_of_view (view st) type) s sub
        → Triple
            (Holds (Shows m))
            (apply_type
              (some c)
              sub
              (event_of_view (view st) type)
              (event_of_view (view st) type).type)
            (λ _. Holds (Shows m'))
        → Shows m s.bids
        → Ends
            (λ _. Holds (Shows m'))
            (continue
              (process_featured_event (some c) (event_of_view (view st) type) s)
              (λ out. pure (outcome_of st out)))
    reported-Ends m' st type found run k =
        Ends-continue {R = λ _. Holds (Shows m')} _ _
          (rw (process_found (some c) (event_of_view (view st) type) sub s found) (run.at s k))
          (λ out. Triple-pure _ (λ t h. h))

    view-Ends :
        (st : ProviderStatus)
        → Shows m s.bids
        → Ends (λ _. Holds (Shows (reported_book st quantity sub m))) (apply_view c (view st) s)
    unfolding apply_view status_event ◌>>=◌ on_option event_of_view provider_subscription_id_for
        apply_type pure
    view-Ends is_cancelled k =
        reported-Ends _ is_cancelled EventType.subscription_cancelled (lookup id sub s named)
          (lapse_row-Shows m (some c) sub _) k
    view-Ends is_expired k =
        reported-Ends _ is_expired EventType.subscription_expired (lookup id sub s named)
          (lapse_row-Shows m (some c) sub _) k
    view-Ends is_active k =
        reported-Ends _ is_active EventType.subscription_activated (lookup id sub s named)
          (active-Shows _ _ refl) k
    view-Ends is_suspended k =
        reported-Ends _ is_suspended EventType.subscription_suspended (lookup id sub s named)
          (Triple-if (is_paused sub.status) _ _ (λ e. renamed m _ _ (rw e refl) (Keeps-pure _))
            (λ e. renamed _ _ _ (rw e refl) (lapse_row-Shows m (some c) sub _)))
          k
    view-Ends is_approval_pending k = k
    view-Ends unlisted k = k

-- the run of a reconciliation that PayPal answers is the run of its answer
reconcile_run :
    (c : PayPalClient) (view : SubscriptionView) (sub : FeaturedSubscription) (s : Db)
    → Names view.id s sub
    → c.get view.id s.calls ≡ some (some view)
    → reconcile_featured_subscription (some c) view.id s
      ≡ apply_view c view (record s { calls = get_subscription view.id ∷ s.calls })
unfolding reconcile_featured_subscription ask_and_apply on_option ◌>>=◌ gets modify
reconcile_run c view sub s named answer = rw (lookup view.id sub s named, answer) refl

-- With distinct ids of bids, when PayPal answers a reconciliation with a view of the
-- subscription that it was asked about, and that is the id of a row, the book changes as the
-- view's status says if the reconciliation returns: an active one confirms the waiting bids and
-- raises of the listing unless the row is closed or no quantity covers the request, a
-- cancelled or expired one withdraws the listing's bids, so does a suspended one unless the row
-- is paused, and any other status changes nothing.
pub reconcile-book :
    (c : PayPalClient) (view : SubscriptionView) (sub : FeaturedSubscription) (s s' : Db)
    (out : FeaturedReconcileOutcome)
    → HasDistinctIds s.bids
    → Names view.id s sub
    → c.get view.id s.calls ≡ some (some view)
    → reconcile_featured_subscription (some c) view.id s ≡ ok (out, s')
    → book s' ≡ reported_book view.status view.quantity sub (book s)
reconcile-book c view sub s s' out d named answer e =
    read_run (λ _. reported_book view.status view.quantity sub (book s)) _ out s'
      (sym (reconcile_run c view sub s named answer) ∙ e)
      (view-Ends (book s) c sub view.id view.quantity view.next_billing_time
        (record s { calls = get_subscription view.id ∷ s.calls }) named view.status (d, refl))

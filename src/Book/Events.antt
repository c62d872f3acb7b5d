-- ===== src/Book/Events.antt =====
-- What an event that ends, or confirms, a subscription does to the book.
use directory_platform.Common.{
  ◌≡◌, refl, sym, ◌∙◌, arith, if◌then◌else◌, Bool, true, false, not, Option, List, map,
}
use directory_platform.Provider.{PayPalClient}
use directory_platform.Store.Rows.{Db, FeaturedSubscription, FeaturedSubscriptionStatus}
use directory_platform.Store.Tx.{Result, ok, ◌>>=◌, on_option}
use directory_platform.Store.Triple.{Ends, Triple, Triple-bind, Triple-pure, Triple-if, Keeps-pure}
use directory_platform.Store.Frame.{
  Holds, Ends-ok, frame-update_featured_subscription, frame-listing_bids_for_system,
}
use directory_platform.Store.Subscriptions.{is_paused}
use directory_platform.Engine.Confirmed.{HasDistinctIds}
use directory_platform.Webhook.{
  EventType, subscription_activated, subscription_updated, subscription_suspended,
  subscription_cancelled, subscription_expired, payment_failed, sale_completed, other_subscription,
  other, PayPalEvent, FeaturedWebhookOutcome, is_closed, covers, confirm_covered, confirm_row,
  lapse_row, apply_type, apply_event, process_featured_event,
}
use directory_platform.Webhook.Closed.{Finds}
use directory_platform.Book.{Entry, book, Shows, confirm_entry, cancel_entry}
use directory_platform.Book.Queries.{
  confirm_listing_bids-Shows, cancel_listing_bids-Shows, settle_spots-Shows,
}

-- The events on which a subscription ends; a suspension that this site asked for is a pause.
unfoldable pub ends_subscription : EventType → FeaturedSubscription → Bool
ends_subscription subscription_cancelled sub = true
ends_subscription subscription_expired sub = true
ends_subscription subscription_suspended sub = not (is_paused sub.status)
ends_subscription _ sub = false

-- The events that confirm a subscription that is open.
unfoldable pub confirms_subscription : PayPalEvent → EventType → FeaturedSubscription → Bool
confirms_subscription event subscription_activated sub = not (is_closed sub.status)
confirms_subscription event subscription_updated sub =
    if event.status_is_active then not (is_closed sub.status) else false
confirms_subscription event _ sub = false

-- the book after a confirmation
abbrev pub confirmed_book : FeaturedSubscription → Bool → List Entry → List Entry
confirmed_book sub true m = map (confirm_entry sub.listing_id) m
confirmed_book sub false m = m

module _ (m : List Entry) (client : Option PayPalClient) (sub : FeaturedSubscription) where
  pub lapse_row-Shows :
      (status : FeaturedSubscriptionStatus)
      → Triple
          (Holds (Shows m))
          (lapse_row client sub status)
          (λ _. Holds (Shows (map (cancel_entry sub.listing_id) m)))
  unfolding lapse_row
  lapse_row-Shows status =
      Triple-bind _ _ _ (frame-update_featured_subscription (Shows m) _ _ _ _ _ _) λ _.
        Triple-bind _ _ _ (cancel_listing_bids-Shows m _ _)
          λ spots. Triple-bind _ _ _ (settle_spots-Shows _ _ _ _ _) λ _. Triple-pure _ (λ s k. k)

  pub confirm_covered-Shows :
      (c : Bool)
      → Triple
          (Holds (Shows m))
          (confirm_covered client sub c)
          (λ _. Holds (Shows (confirmed_book sub c m)))
  unfolding confirm_covered
  confirm_covered-Shows false = Keeps-pure _
  confirm_covered-Shows true = confirm_listing_bids-Shows m _ _

  pub confirm_row-Shows :
      (event : PayPalEvent)
      → not (is_closed sub.status) ≡ true
      → Triple
          (Holds (Shows m))
          (confirm_row client sub event)
          (λ _. Holds (Shows (confirmed_book sub (covers sub event.quantity) m)))
  unfolding confirm_row
  confirm_row-Shows event h =
      let after = Shows (confirmed_book sub (covers sub event.quantity) m) in
      Triple-if _ _ _ (λ (e : is_closed sub.status ≡ true). absurd (ground arith))
        λ e. Triple-bind _ _ _ (frame-update_featured_subscription (Shows m) _ _ _ _ _ _) λ _.
          Triple-bind _ _ _ (confirm_covered-Shows _) λ touched.
            Triple-bind _ _ _ (frame-listing_bids_for_system after _ _)
              λ held. Triple-bind _ _ _ (settle_spots-Shows _ _ _ _ _) λ _. Triple-pure _ (λ s k. k)

  ending-Shows :
      (event : PayPalEvent) (type : EventType)
      → ends_subscription type sub ≡ true
      → Triple
          (Holds (Shows m))
          (apply_type client sub event type)
          (λ _. Holds (Shows (map (cancel_entry sub.listing_id) m)))
  unfolding apply_type ends_subscription
  ending-Shows event subscription_cancelled h = lapse_row-Shows _
  ending-Shows event subscription_expired h = lapse_row-Shows _
  ending-Shows event subscription_suspended h =
      Triple-if _ _ _ (λ (e : is_paused sub.status ≡ true). absurd (ground arith))
        (λ e. lapse_row-Shows _)
  ending-Shows event subscription_activated h = absurd (ground arith)
  ending-Shows event subscription_updated h = absurd (ground arith)
  ending-Shows event payment_failed h = absurd (ground arith)
  ending-Shows event sale_completed h = absurd (ground arith)
  ending-Shows event other_subscription h = absurd (ground arith)
  ending-Shows event other h = absurd (ground arith)

  confirming-Shows :
      (event : PayPalEvent) (type : EventType)
      → confirms_subscription event type sub ≡ true
      → Triple
          (Holds (Shows m))
          (apply_type client sub event type)
          (λ _. Holds (Shows (confirmed_book sub (covers sub event.quantity) m)))
  unfolding apply_type confirms_subscription
  confirming-Shows event subscription_activated h = confirm_row-Shows event h
  confirming-Shows event subscription_updated h =
      Triple-if _ _ _ (λ (e : not event.status_is_active ≡ true). absurd (ground arith))
        (λ e. confirm_row-Shows event (ground arith))
  confirming-Shows event subscription_cancelled h = absurd (ground arith)
  confirming-Shows event subscription_expired h = absurd (ground arith)
  confirming-Shows event subscription_suspended h = absurd (ground arith)
  confirming-Shows event payment_failed h = absurd (ground arith)
  confirming-Shows event sale_completed h = absurd (ground arith)
  confirming-Shows event other_subscription h = absurd (ground arith)
  confirming-Shows event other h = absurd (ground arith)

-- the event's run is the run of its row's transition
pub process_found :
    (client : Option PayPalClient) (event : PayPalEvent) (sub : FeaturedSubscription) (s : Db)
    → Finds event s sub
    → process_featured_event client event s ≡ apply_type client sub event event.type s
unfolding process_featured_event apply_event ◌>>=◌ on_option
process_found client event sub s found = rw found refl

read_book :
    (m' : List Entry) (r : Result (FeaturedWebhookOutcome × Db)) (out : FeaturedWebhookOutcome)
    (s' : Db)
    → r ≡ ok (out, s')
    → Ends (λ _. Holds (Shows m')) r
    → book s' ≡ m'
read_book m' r out s' e h = (Ends-ok (Shows m') e h).1

-- With distinct ids of bids, when an event that finds its row ends the subscription, and is
-- handled without a throw, every bid of its listing that was not withdrawn is
-- withdrawn with its raise, and no other bid's amount, raise or stage changes, whatever the
-- re-rank and the charges that follow do.
pub ending_event-book :
    (client : Option PayPalClient) (event : PayPalEvent) (sub : FeaturedSubscription) (s s' : Db)
    (out : FeaturedWebhookOutcome)
    → HasDistinctIds s.bids
    → Finds event s sub
    → ends_subscription event.type sub ≡ true
    → process_featured_event client event s ≡ ok (out, s')
    → book s' ≡ map (cancel_entry sub.listing_id) (book s)
ending_event-book client event sub s s' out d found h e =
    read_book _ _ out s' (sym (process_found client event sub s found) ∙ e)
      ((ending-Shows (book s) client sub event event.type h).at s (d, refl))

-- With distinct ids of bids, when an event that finds its row confirms a subscription that is
-- not closed, and is handled without a throw, the bids and raises of its listing
-- that wait become real if the event's quantity covers the requested one; otherwise, or if it
-- carries no quantity, every bid keeps its amount, raise and stage. No other bid's change.
pub confirming_event-book :
    (client : Option PayPalClient) (event : PayPalEvent) (sub : FeaturedSubscription) (s s' : Db)
    (out : FeaturedWebhookOutcome)
    → HasDistinctIds s.bids
    → Finds event s sub
    → confirms_subscription event event.type sub ≡ true
    → process_featured_event client event s ≡ ok (out, s')
    → book s' ≡ confirmed_book sub (covers sub event.quantity) (book s)
confirming_event-book client event sub s s' out d found h e =
    read_book _ _ out s' (sym (process_found client event sub s found) ∙ e)
      ((confirming-Shows (book s) client sub event event.type h).at s (d, refl))

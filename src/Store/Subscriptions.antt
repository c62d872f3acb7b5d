-- ===== src/Store/Subscriptions.antt =====
-- The featured subscriptions: one live row for each listing, read, made and written
-- (lib/db/queries/spots.ts).
use directory_platform.Common.{
  ℕ, Bool, true, false, not, ◌&&◌, ◌||◌, Option, none, some, [], ◌∷◌, ◌++◌, ◌==◌, option_eq, get_or,
  find?, filter, any, update, latest,
}
use directory_platform.Store.Rows.{
  FeaturedSubscriptionStatus, approval_pending, active, past_due, paused, cancelled, suspended,
  expired, FeaturedSubscription, Db, Viewer, AuditAction, checkout_started,
}
use directory_platform.Store.Tx.{
  conflict, Tx, pure, gets, ◌>>=◌, ◌>>◌, modify, require, assert_worker, assert_signed_in, is_admin,
  fresh_id, write_audit_as,
}
use directory_platform.Store.Listings.{owns}

-- `LIVE_FEATURED_STATUSES`
abbrev pub is_live : FeaturedSubscriptionStatus → Bool
is_live approval_pending = true
is_live active = true
is_live past_due = true
is_live paused = true
is_live cancelled = false
is_live suspended = false
is_live expired = false

abbrev pub is_paused : FeaturedSubscriptionStatus → Bool
is_paused paused = true
is_paused _ = false

abbrev pub is_approval_pending : FeaturedSubscriptionStatus → Bool
is_approval_pending approval_pending = true
is_approval_pending _ = false

-- `status === "active"` or `"past_due"`
abbrev pub is_billing : FeaturedSubscriptionStatus → Bool
is_billing active = true
is_billing past_due = true
is_billing _ = false

-- The admin reads any listing's row, an owner that of a listing of the profile.
abbrev owner_gate : Db → Viewer → Option ℕ → ℕ → Bool
owner_gate s viewer profile_id listing_id =
    is_admin viewer || elim profile_id [ none ↦ false | some p ↦ owns s listing_id p ]

unfoldable pub current_featured_subscription :
    Viewer → ℕ → Option ℕ → Tx (Option FeaturedSubscription)
current_featured_subscription viewer listing_id profile_id = do
  assert_signed_in viewer
  gets λ s.
      latest (λ r. r.created_at)
        (filter
          (λ r.
            r.listing_id == listing_id
            && is_live r.status
            && owner_gate s viewer profile_id r.listing_id)
          s.subscriptions)

unfoldable pub new_subscription : ℕ → ℕ → ℕ → ℕ → ℕ → ℕ → FeaturedSubscription
new_subscription listing_id profile_id plan_id quantity id at = record {
  id = id;
  listing_id = listing_id;
  profile_id = some profile_id;
  provider_subscription_id = none;
  provider_plan_id = some plan_id;
  status = approval_pending;
  quantity = 0;
  requested_quantity = quantity;
  revise_requested_at = none;
  paused_at = none;
  approve_url = none;
  current_period_end = none;
  created_at = at;
  updated_at = at;
}

-- The index `featured_subscriptions_live_key` refuses a second live row of a listing.
unfoldable pub create_featured_subscription : Viewer → ℕ → ℕ → ℕ → ℕ → Option ℕ → Tx ℕ
create_featured_subscription viewer listing_id profile_id plan_id quantity ip = do
  assert_signed_in viewer
  at ← gets (λ s. s.now)
  id ← fresh_id
  taken ← gets (λ s. any (λ r. r.listing_id == listing_id && is_live r.status) s.subscriptions)
  require (not taken) conflict
  modify λ s. record s {
    subscriptions =
        s.subscriptions ++ new_subscription listing_id profile_id plan_id quantity id at ∷ [];
  }
  write_audit_as (some profile_id) (checkout_started listing_id quantity) id ip
  pure id

unfoldable pub set_subscription : ℕ → (FeaturedSubscription → FeaturedSubscription) → Db → Db
set_subscription id f s = record s { subscriptions = update (λ r. r.id == id) f s.subscriptions }

unfoldable pub attach_featured_provider : Viewer → ℕ → ℕ → Option ℕ → Tx Unit
attach_featured_provider viewer id provider_id approve_url = do
  assert_signed_in viewer
  at ← gets (λ s. s.now)
  modify (
      set_subscription id λ r. record r {
        provider_subscription_id = some provider_id;
        approve_url = approve_url;
        updated_at = at;
      })

-- A patch names the columns that it writes; `none` leaves a column alone, and for the columns
-- that may be null the inner `none` writes null.
pub record Patch : Type 0 where
  pub status : Option FeaturedSubscriptionStatus
  pub quantity : Option ℕ
  pub requested_quantity : Option ℕ
  pub revise_requested_at : Option (Option ℕ)
  pub paused_at : Option (Option ℕ)
  pub approve_url : Option (Option ℕ)
  pub current_period_end : Option (Option ℕ)

abbrev pub no_patch : Patch
no_patch = record {
  status = none;
  quantity = none;
  requested_quantity = none;
  revise_requested_at = none;
  paused_at = none;
  approve_url = none;
  current_period_end = none;
}

unfoldable pub patched : Patch → ℕ → FeaturedSubscription → FeaturedSubscription
patched p at r = record r {
  status = get_or p.status r.status;
  quantity = get_or p.quantity r.quantity;
  requested_quantity = get_or p.requested_quantity r.requested_quantity;
  revise_requested_at = get_or p.revise_requested_at r.revise_requested_at;
  paused_at = get_or p.paused_at r.paused_at;
  approve_url = get_or p.approve_url r.approve_url;
  current_period_end = get_or p.current_period_end r.current_period_end;
  updated_at = at;
}

unfoldable pub update_featured_subscription :
    Viewer → ℕ → Patch → AuditAction → Option ℕ → Option ℕ → Tx Unit
update_featured_subscription viewer id patch action actor ip = do
  assert_signed_in viewer
  at ← gets (λ s. s.now)
  modify (set_subscription id (patched patch at))
  write_audit_as actor action id ip

-- PayPal's id first, our own id second.
unfoldable pub featured_subscription_for_event :
    Viewer → Option ℕ → Option ℕ → Tx (Option FeaturedSubscription)
featured_subscription_for_event viewer provider_id custom_id = do
  assert_worker viewer
  gets λ s. elim provider_id [
    | some p ↦ find? (λ r. option_eq r.provider_subscription_id (some p)) s.subscriptions
    | none ↦ elim custom_id [ some c ↦ find? (λ r. r.id == c) s.subscriptions | none ↦ none ]
  ]

-- ===== src/Engine/Calls.antt =====
-- What PayPal is asked for in a round of `syncQuantities` (lib/spots/engine.ts).
use directory_platform.Common.{
  ℕ, ◌<◌, ◌≡◌, ◌≢◌, refl, sym, ap, subst, if◌then◌else◌, arith, Bool, true, false, not, ◌&&◌, ◌||◌,
  Option, none, some, List, [], ◌∷◌, ◌++◌, ltb, ◌==◌, ==→eq, ==→ne, is_some, length, All,
}
use directory_platform.Rank.{ChargeableBid, quantity_for}
use directory_platform.Provider.{PayPalClient}
use directory_platform.Notify.{spots_system_viewer}
use directory_platform.Store.Rows.{
  FeaturedSubscription, AuditAction, ProviderCall, create_subscription, cancel_subscription,
  suspend_subscription, activate_subscription, revise_subscription, get_subscription, Viewer, Db,
}
use directory_platform.Store.Tx.{
  Result, ok, err, Tx, Failure, provider_failed, pure, throw, gets, continue, modify, require,
  ◌>>=◌, on_option, assert_signed_in, write_audit_as, ask_provider,
}
use directory_platform.Store.Bids.{chargeable_bids_for_listing, has_pending_bids}
use directory_platform.Store.Subscriptions.{
  current_featured_subscription, Patch, set_subscription, update_featured_subscription, is_paused,
  is_approval_pending,
}
use directory_platform.Engine.{QuantityChange}
use directory_platform.Engine.Sync.{
  cancel_subscription_now, suspend_now, stop_billing, settle_request, request_revision,
  settle_quantity, resume_billing, sync_approved, sync_subscription, sync_listing,
}

-- What a subscription, its listing's live bids and a wait for an approval justify. `q` is the
-- quantity of the bids that hold a position.
abbrev pub Justified : FeaturedSubscription → ℕ → List ChargeableBid → Bool → ProviderCall → Type 0
Justified sub q live pending (cancel_subscription id) =
    (sub.provider_subscription_id ≡ some id) × (q ≡ 0) × (pending ≡ false) × (length live ≡ 0)
Justified sub q live pending (suspend_subscription id) =
    (sub.provider_subscription_id ≡ some id)
    × (q ≡ 0)
    × (pending ≡ false)
    × (length live ≢ 0)
    × (is_paused sub.status ≡ false)
Justified sub q live pending (activate_subscription id) =
    (sub.provider_subscription_id ≡ some id) × (0 < q) × (is_paused sub.status ≡ true)
Justified sub q live pending (revise_subscription id n) =
    (sub.provider_subscription_id ≡ some id) × (n ≡ q) × (0 < q) × (q ≢ sub.quantity)
Justified sub q live pending (create_subscription plan n) = ⊥
Justified sub q live pending (get_subscription id) = ⊥

-- The calls are those before, and new ones that satisfy `J`.
pub record Extends (J : ProviderCall → Type 0) (before calls : List ProviderCall) : Type 0 where
  pub new : List ProviderCall
  pub split : calls ≡ new ++ before
  pub justified : All J new

-- What PayPal has been asked when a transaction ends, by returning or by throwing.
abbrev pub told : {A : Type 0} → Result (A × Db) → List ProviderCall
told (ok (a, s)) = s.calls
told (err e calls) = calls

module _ (J : ProviderCall → Type 0) (before : List ProviderCall) where
  -- However it ends, `m` asks only what `J` allows.
  record AsksOnly {A : Type 0} (m : Tx A) : Type 0 where
    at : (s : Db) → Extends J before s.calls → Extends J before (told (m s))

  Extends-cons :
      (call : ProviderCall) (calls : List ProviderCall)
      → J call
      → Extends J before calls
      → Extends J before (call ∷ calls)
  Extends-cons call calls j e = record {
    new = call ∷ e.new;
    split = ap (◌∷◌ call) e.split;
    justified = (j, e.justified);
  }

  asks-ask :
      {A : Type 0} (call : ProviderCall) (answer : List ProviderCall → Option A)
      → J call
      → AsksOnly (ask_provider call answer)
  unfolding ask_provider
  asks-ask {A} call answer j = record { at = λ s h. answered s h (answer s.calls) }
    where
      answered :
          (s : Db)
          → Extends J before s.calls
          → (o : Option A)
          → Extends J before (
              told {A = A} (elim o [
                | none ↦ err provider_failed (call ∷ s.calls)
                | some a ↦ ok (a, record s { calls = call ∷ s.calls })
              ]))
      answered s h none = Extends-cons call s.calls j h
      answered s h (some a) = Extends-cons call s.calls j h

  asks-pure : {A : Type 0} (a : A) → AsksOnly (pure a)
  unfolding pure
  asks-pure a = record { at = λ s h. h }

  asks-gets : {A : Type 0} (f : Db → A) → AsksOnly (gets f)
  unfolding gets
  asks-gets f = record { at = λ s h. h }

  asks-if :
      {A : Type 0} (b : Bool) (m n : Tx A)
      → (b ≡ true → AsksOnly m)
      → (b ≡ false → AsksOnly n)
      → AsksOnly (if b then m else n)
  asks-if true m n km kn = km refl
  asks-if false m n km kn = kn refl

  asks-option :
      {A B : Type 0} (o : Option A) (m : Tx B) (f : A → Tx B)
      → AsksOnly m
      → ((a : A) → o ≡ some a → AsksOnly (f a))
      → AsksOnly (on_option o m f)
  unfolding on_option
  asks-option none m f km kf = km
  asks-option (some a) m f km kf = kf a refl

  asks-bind :
      {A B : Type 0} (m : Tx A) (f : A → Tx B)
      → AsksOnly m
      → ((a : A) → AsksOnly (f a))
      → AsksOnly (m >>= f)
  unfolding ◌>>=◌
  asks-bind {A} {B} m f km kf = record { at = λ s h. after (m s) (km.at s h) }
    where
      after :
          (r : Result (A × Db)) → Extends J before (told r) → Extends J before (told (continue r f))
      after (ok (a, s)) h = (kf a).at s h
      after (err e calls) h = h

  asks-require : (b : Bool) (e : Failure) → AsksOnly (require b e)
  unfolding require pure throw
  asks-require true e = record { at = λ s h. h }
  asks-require false e = record { at = λ s h. h }

  asks-update :
      (v : Viewer) (id : ℕ) (p : Patch) (action : AuditAction) (actor ip : Option ℕ)
      → AsksOnly (update_featured_subscription v id p action actor ip)
  unfolding update_featured_subscription set_subscription assert_signed_in write_audit_as modify
  asks-update v id p action actor ip = asks-bind _ _ (asks-require _ _) λ _.
      asks-bind _ _ (asks-gets _)
        λ at. asks-bind _ _ (record { at = λ s h. h }) λ _. record { at = λ s h. h }

module _ (client : Option PayPalClient) (sub : FeaturedSubscription) (pid q : ℕ)
    (live : List ChargeableBid) (pending : Bool) (before : List ProviderCall)
    (named : sub.provider_subscription_id ≡ some pid) where
  abbrev J : ProviderCall → Type 0
  J = Justified sub q live pending

  abbrev Asks : Tx (List QuantityChange) → Type 0
  Asks m = AsksOnly J before m

  cancel_subscription_now-Asks :
      q ≡ 0 → pending ≡ false → length live ≡ 0 → Asks (cancel_subscription_now client sub pid q)
  unfolding cancel_subscription_now
  cancel_subscription_now-Asks z n e = asks-option J before _ _ _ (asks-pure J before _) λ cancel _.
      asks-bind J before _ _ (asks-ask J before _ _ (named, z, n, e))
        λ _. asks-bind J before _ _ (asks-update J before _ _ _ _ _ _) λ _. asks-pure J before _

  suspend_now-Asks :
      q ≡ 0
      → pending ≡ false
      → length live ≢ 0
      → is_paused sub.status ≡ false
      → Asks (suspend_now client sub pid q)
  unfolding suspend_now
  suspend_now-Asks z n e p = asks-option J before _ _ _ (asks-pure J before _) λ suspend _.
      asks-bind J before _ _ (asks-ask J before _ _ (named, z, n, e, p)) λ _.
        asks-bind J before _ _ (asks-gets J before _)
          λ at. asks-bind J before _ _ (asks-update J before _ _ _ _ _ _) λ _. asks-pure J before _

  stop_billing-Asks : q ≡ 0 → pending ≡ false → Asks (stop_billing client sub pid q live)
  unfolding stop_billing
  stop_billing-Asks z n =
      asks-if J before _ _ _ (λ e. cancel_subscription_now-Asks z n (==→eq _ _ e))
        λ ne.
          asks-if J before _ _ _ (λ _. asks-pure J before _)
            λ p. suspend_now-Asks z n (==→ne _ _ ne) p

  settle_request-Asks : Asks (settle_request client sub pid q pending)
  unfolding settle_request
  settle_request-Asks = search (asks-if, asks-pure, asks-bind, asks-update) depth 7

  request_revision-Asks : 0 < q → q ≢ sub.quantity → Asks (request_revision client sub pid q)
  unfolding request_revision
  request_revision-Asks pos ne = asks-option J before _ _ _ (asks-pure J before _) λ revise _.
      asks-if J before
        (sub.requested_quantity == q && is_some sub.revise_requested_at && is_some sub.approve_url)
        _ _ (λ _. asks-pure J before _)
        λ _.
          asks-bind J before _ _
            (asks-ask J before (revise_subscription pid q) (revise pid q) (named, refl, pos, ne))
            λ url. asks-bind J before _ _ (asks-gets J before _) λ at.
              asks-bind J before _ _ (asks-update J before _ _ _ _ _ _) λ _. asks-pure J before _

  settle_quantity-Asks : Asks (settle_quantity client sub pid q pending)
  unfolding settle_quantity
  settle_quantity-Asks =
      asks-if J before (pending && is_some sub.revise_requested_at && is_some sub.approve_url) _ _
        (λ _. asks-pure J before _)
        λ _.
          asks-if J before (q == sub.quantity || q == 0) _ _ (λ _. settle_request-Asks)
            λ e. request_revision-Asks (grind arith) (grind arith)

  resume_billing-Asks :
      0 < q → is_paused sub.status ≡ true → Asks (resume_billing client sub pid q pending)
  unfolding resume_billing
  resume_billing-Asks pos p = asks-option J before _ _ _ (asks-pure J before _) λ activate _.
      asks-bind J before _ _
        (asks-ask J before (activate_subscription pid) (activate pid) (named, pos, p))
        λ _. asks-bind J before _ _ (asks-update J before _ _ _ _ _ _) λ _.
          asks-if J before (q == sub.quantity) _ _ (λ _. asks-pure J before _)
            (λ _. settle_quantity-Asks)

  sync_approved-Asks : Asks (sync_approved client sub pid q live pending)
  unfolding sync_approved
  sync_approved-Asks =
      asks-if J before (q == 0 && not pending) _ _
        (λ e. stop_billing-Asks (ground arith) (ground arith))
        λ _.
          asks-if J before (is_paused sub.status && ltb 0 q) _ _
            (λ e. resume_billing-Asks (ground arith) (ground arith)) λ _. settle_quantity-Asks

sync_subscription-Asks :
    (client : Option PayPalClient) (sub : FeaturedSubscription) (live : List ChargeableBid)
    (pending : Bool) (before : List ProviderCall)
    → AsksOnly
        (Justified sub (quantity_for live) live pending)
        before
        (sync_subscription client sub live pending)
unfolding sync_subscription
sync_subscription-Asks client sub live pending before =
    let Call = Justified sub (quantity_for live) live pending in
    asks-option Call before sub.provider_subscription_id _ _ (asks-pure Call before _) λ pid named.
      asks-if Call before (is_approval_pending sub.status) _ _ (λ _. asks-pure Call before _)
        λ _. sync_approved-Asks client sub pid (quantity_for live) live pending before named

sync_listing-eq :
    (client : Option PayPalClient) (l : ℕ) (sub : FeaturedSubscription) (live : List ChargeableBid)
    (pending : Bool) (s : Db)
    → current_featured_subscription spots_system_viewer l none s ≡ ok (some sub, s)
    → chargeable_bids_for_listing spots_system_viewer l s ≡ ok (live, s)
    → has_pending_bids spots_system_viewer l s ≡ ok (pending, s)
    → sync_listing client l s ≡ sync_subscription client sub live pending s
unfolding sync_listing ◌>>=◌ on_option
sync_listing-eq client l sub live pending s a b c = rw (a, b, c) refl

-- In a round of `syncQuantities` for a listing with a live subscription, as the tables show its
-- live bids and whether one waits, whether the round returns or throws, PayPal is sent only calls
-- for that subscription. It is asked to cancel only when no live bid is left, and to suspend only
-- when bids are left and it is not paused, both with nothing featured and nothing waiting; to
-- activate only from a pause with something featured; and to revise only to the quantity of the
-- featured bids, when that is positive and not what it bills.
pub sync_listing_calls :
    (client : Option PayPalClient) (l : ℕ) (sub : FeaturedSubscription) (live : List ChargeableBid)
    (pending : Bool) (s : Db)
    → current_featured_subscription spots_system_viewer l none s ≡ ok (some sub, s)
    → chargeable_bids_for_listing spots_system_viewer l s ≡ ok (live, s)
    → has_pending_bids spots_system_viewer l s ≡ ok (pending, s)
    → Extends
        (Justified sub (quantity_for live) live pending)
        s.calls
        (told (sync_listing client l s))
sync_listing_calls client l sub live pending s a b c =
    let start : Extends (Justified sub (quantity_for live) live pending) s.calls s.calls = record {
      new = [];
      split = refl;
      justified = tt;
    } in
    subst (λ r. Extends (Justified sub (quantity_for live) live pending) s.calls (told r))
      (sym (sync_listing-eq client l sub live pending s a b c))
      ((sync_subscription-Asks client sub live pending s.calls).at s start)

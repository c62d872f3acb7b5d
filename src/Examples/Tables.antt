-- ===== src/Examples/Tables.antt =====
-- Two listings that bid for the one position of a city's spot, one of them not yet confirmed.
use directory_platform.Common.{false, ℕ, ◌+◌, true, Option, none, some, [], ◌∷◌}
use directory_platform.Rank.{BidStatus}
use directory_platform.Provider.{PayPalClient}
use directory_platform.Store.Rows.{
  SpotRow, city, is_open, BidRow, FeaturedSubscriptionStatus, FeaturedSubscription, ListingRow,
  PlanRow, Db, owner,
}
use directory_platform.Bidding.{PlaceBidInput}
use directory_platform.Bidding.Cancel.{CancelBidInput}
use directory_platform.Webhook.{EventType, PayPalEvent}

abbrev pub bid : ℕ → ℕ → ℕ → BidStatus → Option ℕ → BidRow
bid id listing_id amount status position = record {
  id = id;
  spot_id = 1;
  listing_id = listing_id;
  subscription_id = none;
  amount_cents = amount;
  amount_set_at = id;
  pending_amount_cents = none;
  status = status;
  position = position;
  created_at = id;
  updated_at = id;
  cancelled_at = none;
  outbid_notified_at = none;
}

abbrev pub subscription : ℕ → ℕ → FeaturedSubscriptionStatus → ℕ → ℕ → FeaturedSubscription
subscription id listing_id status quantity requested = record {
  id = id;
  listing_id = listing_id;
  profile_id = some (listing_id + 100);
  provider_subscription_id = some (id + 900);
  provider_plan_id = some 5;
  status = status;
  quantity = quantity;
  requested_quantity = requested;
  revise_requested_at = none;
  paused_at = none;
  approve_url = none;
  current_period_end = none;
  created_at = 1;
  updated_at = 1;
}

abbrev pub listing : ℕ → ListingRow
listing id = record {
  id = id;
  owner_id = some (id + 100);
  is_published = true;
  is_verified = true;
  is_unclaimed = false;
  is_free = false;
  has_email = true;
  city_id = 5;
  primary_category_id = 6;
  extra_category_ids = [];
}

abbrev pub plan : ℕ → PlanRow
plan id = record { listing_id = id; is_live = true; is_paid_tier = true }

abbrev pub spot_row : SpotRow
spot_row = record {
  id = 1;
  area_kind = city;
  area_id = 5;
  category_id = none;
  positions = 1;
  floor_cents = 1000;
  status = is_open;
}

abbrev pub tables : Db
tables = record {
  spots = spot_row ∷ [];
  bids = bid 11 7 2000 BidStatus.active (some 1) ∷ bid 12 8 3000 BidStatus.pending none ∷ [];
  subscriptions =
      subscription 21 7 FeaturedSubscriptionStatus.active 20 20
      ∷ subscription 22 8 FeaturedSubscriptionStatus.approval_pending 0 30
      ∷ subscription 23 4 FeaturedSubscriptionStatus.cancelled 0 0
      ∷ [];
  listings = listing 7 ∷ listing 8 ∷ listing 9 ∷ [];
  plans = plan 7 ∷ plan 8 ∷ plan 9 ∷ [];
  cities = record { id = 5; slug = 50; region_slug = none; is_published = true } ∷ [];
  category_slugs = [];
  profiles = [];
  audit_log = [];
  jobs = [];
  calls = [];
  config = record { positions = 1; city_floor_cents = 1000; region_floor_cents = 2000 };
  now = 100;
  uuid = λ n. n + 1000;
  drawn = 0;
}

-- What PayPal sends about the subscription `id`.
abbrev pub event : EventType → ℕ → Option ℕ → PayPalEvent
event type id quantity = record {
  type = type;
  resource_id = some id;
  billing_agreement_id = some id;
  custom_id = none;
  status_is_active = true;
  quantity = quantity;
  next_billing_time = some 500;
}

-- A PayPal that grants whatever it is asked.
abbrev pub client : PayPalClient
client = record {
  create = λ plan custom q calls. some (record { id = 950; approve_url = some 1 });
  cancel = λ id calls. some tt;
  revise = some (λ id q calls. some (some 1));
  suspend = some (λ id calls. some tt);
  activate = some (λ id calls. some tt);
  get = λ id calls. some none;
}

-- The owner of listing 9 bids for the spot.
abbrev pub input : ℕ → PlaceBidInput
input amount = record {
  client = some client;
  plan_id = some 5;
  viewer = owner 9;
  profile_id = 109;
  listing_id = 9;
  spot = record { area_kind = city; area_id = 5; category_id = none };
  amount_cents = amount;
  ip = none;
}

-- The owner of listing 7 withdraws the listing's bid.
abbrev pub withdrawal : CancelBidInput
withdrawal = record {
  client = some client;
  viewer = owner 7;
  profile_id = 107;
  listing_id = 7;
  spot_id = 1;
  ip = none;
}

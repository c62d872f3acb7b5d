-- ===== src/Store/Rows.antt =====
-- The rows of the tables (lib/db/schema/spots.ts and the listing, city and plan columns that the
-- bidding code reads), and the state of a transaction. An id is a number: a uuid in the order of
-- its text; a text that is no uuid is a number that names no row.
use directory_platform.Common.{ℕ, Bool, Option, List}
use directory_platform.Rank.{BidStatus}

pub data AreaKind : Type 0 where
  city region : AreaKind

pub record SpotKey : Type 0 where
  pub area_kind : AreaKind
  -- the city's id, or the number of the region's slug
  pub area_id : ℕ
  pub category_id : Option ℕ

pub data SpotStatus : Type 0 where
  is_open is_closed : SpotStatus

pub record SpotRow : Type 0 where
  pub id : ℕ
  pub area_kind : AreaKind
  pub area_id : ℕ
  pub category_id : Option ℕ
  pub positions : ℕ
  pub floor_cents : ℕ
  pub status : SpotStatus

pub record BidRow : Type 0 where
  pub id : ℕ
  pub spot_id : ℕ
  pub listing_id : ℕ
  pub subscription_id : Option ℕ
  pub amount_cents : ℕ
  pub amount_set_at : ℕ
  pub pending_amount_cents : Option ℕ
  pub status : BidStatus
  pub position : Option ℕ
  pub created_at : ℕ
  pub updated_at : ℕ
  pub cancelled_at : Option ℕ
  pub outbid_notified_at : Option ℕ

pub data FeaturedSubscriptionStatus : Type 0 where
  approval_pending active past_due paused cancelled suspended expired : FeaturedSubscriptionStatus

pub record FeaturedSubscription : Type 0 where
  pub id : ℕ
  pub listing_id : ℕ
  pub profile_id : Option ℕ
  pub provider_subscription_id : Option ℕ
  pub provider_plan_id : Option ℕ
  pub status : FeaturedSubscriptionStatus
  pub quantity : ℕ
  pub requested_quantity : ℕ
  pub revise_requested_at : Option ℕ
  pub paused_at : Option ℕ
  pub approve_url : Option ℕ
  pub current_period_end : Option ℕ
  pub created_at : ℕ
  pub updated_at : ℕ

pub record ListingRow : Type 0 where
  pub id : ℕ
  pub owner_id : Option ℕ
  -- `status === "published"` and `claimStatus === "verified"`
  pub is_published : Bool
  pub is_verified : Bool
  -- `claimStatus === "unclaimed"`, `tier === "free"`, and whether `email` is not blank
  pub is_unclaimed : Bool
  pub is_free : Bool
  pub has_email : Bool
  pub city_id : ℕ
  pub primary_category_id : ℕ
  -- the rows of `listing_categories`
  pub extra_category_ids : List ℕ

-- A row of `subscriptions`, the tier plans.
pub record PlanRow : Type 0 where
  pub listing_id : ℕ
  -- `status` is one of `LIVE_SUBSCRIPTION_STATUSES`, and `tier` essential or premium
  pub is_live : Bool
  pub is_paid_tier : Bool

pub record CityRow : Type 0 where
  pub id : ℕ
  pub slug : ℕ
  -- `slugify(region)`
  pub region_slug : Option ℕ
  pub is_published : Bool

-- A row of `slugs` of kind "category".
pub record CategorySlugRow : Type 0 where
  pub parent_scope : ℕ
  pub entity_id : ℕ
  pub slug : ℕ

pub record ProfileRow : Type 0 where
  pub id : ℕ
  pub user_id : ℕ

-- The action of an audit row, with what its `meta` says.
pub data AuditAction : Type 0 where
  bid_placed : ℕ → ℕ → ℕ → BidStatus → AuditAction
  bid_raise_requested : ℕ → AuditAction
  bid_lowered : ℕ → AuditAction
  bid_cancelled raise_withdrawn : AuditAction
  raise_expired : ℕ → ℕ → AuditAction
  checkout_started : ℕ → ℕ → AuditAction
  subscription_cancelled spots_paused spots_resumed revise_settled revise_requested : AuditAction
  revise_expired confirmed renewed lapsed went_past_due never_approved : AuditAction
  spot_closed : ℕ → AuditAction
  spot_opened : AuditAction
  floor_set : ℕ → ℕ → AuditAction

pub record AuditRow : Type 0 where
  pub action : AuditAction
  pub entity_id : ℕ
  pub actor_id : Option ℕ
  pub ip : Option ℕ

pub data OutbidKind : Type 0 where
  lost_first dropped_out : OutbidKind

-- A row of the queue that the mail worker reads.
pub data Job : Type 0 where
  notify_spot_outbid : ℕ → OutbidKind → ℕ → Job
  notify_spot_closed : ℕ → ℕ → Job

-- What PayPal has been asked to do.
pub data ProviderCall : Type 0 where
  create_subscription : ℕ → ℕ → ProviderCall
  cancel_subscription suspend_subscription activate_subscription : ℕ → ProviderCall
  revise_subscription : ℕ → ℕ → ProviderCall
  get_subscription : ℕ → ProviderCall

-- `siteConfig.featured`, the floors in minor units
pub record FeaturedConfig : Type 0 where
  pub positions : ℕ
  pub city_floor_cents : ℕ
  pub region_floor_cents : ℕ

pub record Db : Type 0 where
  pub spots : List SpotRow
  pub bids : List BidRow
  pub subscriptions : List FeaturedSubscription
  pub listings : List ListingRow
  pub plans : List PlanRow
  pub cities : List CityRow
  pub category_slugs : List CategorySlugRow
  pub profiles : List ProfileRow
  -- the newest first
  pub audit_log : List AuditRow
  pub jobs : List Job
  pub calls : List ProviderCall
  pub config : FeaturedConfig
  -- the instant that `now()` reads throughout the transaction
  pub now : ℕ
  -- the ids that the database draws for new rows, and how many it has drawn
  pub uuid : ℕ → ℕ
  pub drawn : ℕ

pub data Viewer : Type 0 where
  public : Viewer
  user owner admin : ℕ → Viewer

-- ===== src/Leads/Rows.antt =====
-- The rows of the lead market and of the top-ups (lib/db/schema/lead-market.ts,
-- lib/db/schema/leads.ts, the credit orders and the columns of quote requests, listings, cities
-- and categories that they read), and their state. A text is the number
-- of its value, and an instant is in milliseconds.
use directory_platform.Common.{ℕ, Bool, Option, List}
use directory_platform.Store.Rows.{ListingRow, CityRow}
use directory_platform.Credits.{CreditDb}
use directory_platform.Leads.{RefundReason, Territory}

pub data LeadStatus : Type 0 where
  is_open is_sold is_expired is_deleted : LeadStatus

pub data LeadSource : Type 0 where
  quote capture enquiry : LeadSource

pub record LeadRow : Type 0 where
  pub id : ℕ
  pub status : LeadStatus
  pub source : LeadSource
  pub quote_request_id : Option ℕ
  pub listing_id : Option ℕ
  pub city_id : ℕ
  pub category_id : Option ℕ
  pub price_cents : ℕ
  pub half_price_at : ℕ
  pub expires_at : ℕ
  pub sold_at : Option ℕ
  pub sold_to_listing_id : Option ℕ
  pub buyer_user_id : Option ℕ
  pub name : Option ℕ
  pub email : Option ℕ
  pub phone : Option ℕ
  pub message : Option ℕ
  pub phone_normalised : Option ℕ
  pub email_normalised : Option ℕ
  pub contact_purged_at : Option ℕ
  pub created_at : ℕ
  pub updated_at : ℕ

pub data OrderStatus : Type 0 where
  is_active is_paused : OrderStatus

pub data PauseReason : Type 0 where
  no_credit by_user : PauseReason

pub record StandingOrder : Type 0 where
  pub id : ℕ
  pub user_id : ℕ
  pub listing_id : ℕ
  pub territories : List Territory
  pub category_ids : Option (List ℕ)
  pub price_cents : ℕ
  pub status : OrderStatus
  pub paused_reason : Option PauseReason
  pub won_count : ℕ
  pub created_at : ℕ
  pub updated_at : ℕ

pub record LeadPurchase : Type 0 where
  pub id : ℕ
  pub lead_id : ℕ
  pub user_id : ℕ
  pub listing_id : ℕ
  pub standing_order_id : Option ℕ
  pub price_cents : ℕ
  pub ledger_id : ℕ
  pub created_at : ℕ

pub data RefundStatus : Type 0 where
  is_pending is_approved is_rejected : RefundStatus

pub record LeadRefund : Type 0 where
  pub id : ℕ
  pub purchase_id : ℕ
  pub reason : RefundReason
  pub note : Option ℕ
  pub status : RefundStatus
  pub decided_by : Option ℕ
  pub decided_at : Option ℕ
  pub decision_note : Option ℕ

pub data BlockKind : Type 0 where
  by_phone by_email : BlockKind

-- A row of `lead_blocklist`; one without `expires_at` is permanent.
pub record BlockRow : Type 0 where
  pub kind : BlockKind
  pub value : ℕ
  pub reason : RefundReason
  pub lead_id : Option ℕ
  pub expires_at : Option ℕ

pub data QuoteStatus : Type 0 where
  is_waiting is_confirmed is_overdue is_spam : QuoteStatus

-- A row of `quote_requests`.
pub record QuoteRequest : Type 0 where
  pub id : ℕ
  pub status : QuoteStatus
  pub source : LeadSource
  pub spam : Bool
  pub listing_id : Option ℕ
  pub city_id : Option ℕ
  pub category_id : Option ℕ
  pub name : Option ℕ
  pub email : Option ℕ
  pub phone : Option ℕ
  pub message : Option ℕ

-- A row of `quote_recipients`.
pub record QuoteRecipient : Type 0 where
  pub quote_request_id : ℕ
  pub listing_id : ℕ

-- A row of `categories`.
pub record CategoryRow : Type 0 where
  pub id : ℕ
  pub is_active : Bool

-- `credit_order_status`
pub data CreditOrderStatus : Type 0 where
  is_created is_captured is_failed : CreditOrderStatus

-- A row of `credit_orders`.
pub record CreditOrder : Type 0 where
  pub id : ℕ
  pub user_id : ℕ
  pub pack_cents : ℕ
  pub provider_order_id : Option ℕ
  pub status : CreditOrderStatus
  pub captured_at : Option ℕ

-- `CaptureAmount`: two texts, as lists of codes
pub record Amount : Type 0 where
  pub value : List ℕ
  pub currency : List ℕ

-- What PayPal's orders client has been asked for: an order for one of our rows, and a capture.
pub data OrderCall : Type 0 where
  create_order : ℕ → Amount → OrderCall
  capture_order : ℕ → OrderCall

pub data MismatchReason : Type 0 where
  wrong_amount order_mismatch : MismatchReason

-- The action of an audit row, with what its `meta` says.
pub data LeadAction : Type 0 where
  sold : ℕ → Option ℕ → ℕ → ℕ → LeadAction
  refund_requested : ℕ → ℕ → RefundReason → LeadAction
  refund_decided : Bool → ℕ → ℕ → ℕ → Bool → LeadAction
  lead_deleted : LeadStatus → LeadAction
  lead_created : LeadSource → Option ℕ → Option ℕ → LeadAction
  order_created : ℕ → ℕ → LeadAction
  order_updated : ℕ → LeadAction
  order_paused : PauseReason → LeadAction
  order_resumed : LeadAction
  order_deleted : ℕ → LeadAction
  payment_mismatch : MismatchReason → Option ℕ → LeadAction
  topped_up : ℕ → ℕ → ℕ → LeadAction

pub record LeadAudit : Type 0 where
  pub action : LeadAction
  pub entity_id : ℕ
  pub actor_id : Option ℕ

pub data LeadJob : Type 0 where
  notify_lead_won notify_lead_topup notify_lead_refund_decided notify_credit_topup : ℕ → LeadJob

-- `siteConfig.currency`, and what the language makes of a text: the number that `Number` gives, or
-- none for NaN, and `toUpperCase`
pub record Money : Type 0 where
  pub currency : List ℕ
  pub to_number : List ℕ → Option ℕ
  pub to_upper_case : List ℕ → List ℕ

-- `siteConfig.leads`, the floor in minor units
pub record LeadsConfig : Type 0 where
  pub floor_cents : ℕ
  pub refund_window_days : ℕ
  pub retain_sold_days : ℕ
  pub half_price_after_days : ℕ
  pub delete_after_days : ℕ
  -- `packs`, in major units, and the site's currency
  pub packs : List ℕ
  pub money : Money

pub record MarketDb : Type 0 where
  pub leads : List LeadRow
  pub purchases : List LeadPurchase
  pub refunds : List LeadRefund
  pub orders : List StandingOrder
  pub blocklist : List BlockRow
  pub requests : List QuoteRequest
  pub recipients : List QuoteRecipient
  pub listings : List ListingRow
  pub cities : List CityRow
  pub categories : List CategoryRow
  -- the ledger, the profiles and the ids that the database draws
  pub credit : CreditDb
  pub credit_orders : List CreditOrder
  -- the newest first
  pub order_calls : List OrderCall
  pub audit_log : List LeadAudit
  pub jobs : List LeadJob
  pub config : LeadsConfig

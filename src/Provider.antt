-- ===== src/Provider.antt =====
-- PayPal as the code calls it (the interface `PayPalClient` of lib/billing/paypal.ts): what it
-- answers may depend on everything that it was asked before. `none` is an answer that the client
-- throws at; a method that is itself `none` is one that the client does not have.
use directory_platform.Common.{ℕ, Option, List}
use directory_platform.Store.Rows.{ProviderCall}

pub record CreatedSubscription : Type 0 where
  pub id : ℕ
  pub approve_url : Option ℕ

-- `status` of a subscription at PayPal; `unlisted` is any other text.
pub data ProviderStatus : Type 0 where
  is_active is_suspended is_cancelled is_expired is_approval_pending unlisted : ProviderStatus

pub record SubscriptionView : Type 0 where
  pub id : ℕ
  pub status : ProviderStatus
  pub quantity : Option ℕ
  pub next_billing_time : Option ℕ

abbrev pub Revise : Type 0
Revise = ℕ → ℕ → List ProviderCall → Option (Option ℕ)

pub record PayPalClient : Type 0 where
  -- the plan, the custom id and the quantity
  pub create : ℕ → ℕ → ℕ → List ProviderCall → Option CreatedSubscription
  pub cancel : ℕ → List ProviderCall → Option (Unit {0})
  -- the id and the quantity; it answers with an approval link, if there is one
  pub revise : Option Revise
  pub suspend : Option (ℕ → List ProviderCall → Option (Unit {0}))
  pub activate : Option (ℕ → List ProviderCall → Option (Unit {0}))
  pub get : ℕ → List ProviderCall → Option (Option SubscriptionView)

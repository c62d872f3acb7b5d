-- ===== src/Leads/Sale.antt =====
-- A sale: the open lead is locked, the buyer debited and the sale recorded (`lockOpenLead`,
-- `recordSale` and `buyLead` of lib/db/queries/lead-market.ts). The row lock makes the sales of
-- one lead follow one another, so a sale is one step here.
use directory_platform.Common.{
  ℕ, Bool, true, false, not, ◌&&◌, Option, none, some, ◌∷◌, ◌==◌, leb, if◌then◌else◌, option_eq,
  find?, any, update, ℤ,
}
use directory_platform.Store.Rows.{ListingRow, ProfileRow, Viewer}
use directory_platform.Credits.{conflict}
use directory_platform.Credits.Operations.{Posted}
use directory_platform.Leads.{current_price_cents}
use directory_platform.Leads.Rows.{
  LeadStatus, is_open, is_sold, LeadRow, LeadPurchase, MarketDb, sold, notify_lead_won,
}
use directory_platform.Leads.Tx.{
  Market, pure, throw, gets, ◌>>=◌, ◌>>◌, modify, on_option, assert_signed_in, Debit, paid, short,
  try_debit, fresh_id, own_profile, write_audit, enqueue_job,
}

abbrev pub open_status : LeadStatus → Bool
open_status is_open = true
open_status _ = false

abbrev pub find_lead : ℕ → MarketDb → Option LeadRow
find_lead lead_id s = find? (λ l. l.id == lead_id) s.leads

-- open, and not yet expired
abbrev pub open_at : ℕ → LeadRow → Bool
open_at at l = open_status l.status && not (leb l.expires_at at)

unfoldable pub open_lead : ℕ → Option LeadRow → Option LeadRow
open_lead at none = none
open_lead at (some l) = if open_at at l then some l else none

unfoldable pub lock_open_lead : ℕ → ℕ → Market (Option LeadRow)
unfolding gets open_lead
lock_open_lead lead_id at = gets (λ s. open_lead at (find_lead lead_id s))

pub record SaleInput : Type 0 where
  pub lead_id : ℕ
  pub profile_id : ℕ
  pub listing_id : ℕ
  pub standing_order_id : Option ℕ
  pub price_cents : ℕ
  pub ledger_id : ℕ

abbrev pub purchase_row : SaleInput → ℕ → ℕ → LeadPurchase
purchase_row input id at = record {
  id = id;
  lead_id = input.lead_id;
  user_id = input.profile_id;
  listing_id = input.listing_id;
  standing_order_id = input.standing_order_id;
  price_cents = input.price_cents;
  ledger_id = input.ledger_id;
  created_at = at;
}

-- `lead_purchases_lead_key`: one purchase for each lead
abbrev pub has_purchase : ℕ → MarketDb → Bool
has_purchase lead_id s = any (λ (p : LeadPurchase). p.lead_id == lead_id) s.purchases

unfoldable pub insert_purchase : SaleInput → ℕ → Market ℕ
insert_purchase input at = do
  id ← fresh_id
  taken ← gets (has_purchase input.lead_id)
  if taken
      then throw conflict
      else do modify (λ s. record s { purchases = purchase_row input id at ∷ s.purchases }); pure id

abbrev pub sold_row : SaleInput → Option ℕ → ℕ → LeadRow → LeadRow
sold_row input buyer at l = record l {
  status = is_sold;
  sold_at = some at;
  sold_to_listing_id = some input.listing_id;
  buyer_user_id = buyer;
  updated_at = at;
}

abbrev pub mark_sold : SaleInput → Option ℕ → ℕ → MarketDb → MarketDb
mark_sold input buyer at s = record s {
  leads = update (λ l. l.id == input.lead_id) (sold_row input buyer at) s.leads;
}

-- the account's own user, `buyer?.authUserId ?? null`
abbrev auth_user_of : ℕ → MarketDb → Option ℕ
auth_user_of profile_id s =
    elim (find? (λ (p : ProfileRow). p.id == profile_id) s.credit.profiles) [
      | none ↦ none
      | some p ↦ some p.user_id
    ]

unfoldable pub record_sale : Viewer → SaleInput → ℕ → Market ℕ
record_sale viewer input at = do
  buyer ← gets (auth_user_of input.profile_id)
  purchase_id ← insert_purchase input at
  modify (mark_sold input buyer at)
  write_audit viewer (sold purchase_id input.standing_order_id input.price_cents input.listing_id)
      input.lead_id
  pure purchase_id

pub data BuyResult : Type 0 where
  bought : ℕ → BuyResult
  insufficient : ℤ → ℤ → BuyResult
  gone not_your_listing : BuyResult

-- a published listing of the account
abbrev pub is_own_published : ℕ → ℕ → ListingRow → Bool
is_own_published profile_id listing_id l =
    l.id == listing_id && option_eq l.owner_id (some profile_id) && l.is_published

abbrev pub board_sale : LeadRow → ℕ → ℕ → ℕ → Posted → SaleInput
board_sale lead profile_id listing_id price posted = record {
  lead_id = lead.id;
  profile_id = profile_id;
  listing_id = listing_id;
  standing_order_id = none;
  price_cents = price;
  ledger_id = posted.entry_id;
}

-- after the debit
unfoldable pub sell_or_refuse : Viewer → LeadRow → ℕ → ℕ → ℕ → ℕ → Debit → Market BuyResult
sell_or_refuse viewer lead profile_id listing_id price at (short balance needed) =
    pure (insufficient balance needed)
sell_or_refuse viewer lead profile_id listing_id price at (paid posted) = do
  purchase_id ← record_sale viewer (board_sale lead profile_id listing_id price posted) at
  enqueue_job (notify_lead_won purchase_id)
  pure (bought purchase_id)

unfoldable pub buy_open : Viewer → LeadRow → ℕ → ℕ → ℕ → Market BuyResult
buy_open viewer lead profile_id listing_id at = do
  let price = current_price_cents lead.price_cents lead.half_price_at at
  debit ← try_debit viewer profile_id price lead.id
  sell_or_refuse viewer lead profile_id listing_id price at debit

unfoldable pub buy_for_listing : Viewer → ℕ → ℕ → ℕ → ℕ → Bool → Market BuyResult
buy_for_listing viewer lead_id profile_id listing_id at false = pure not_your_listing
buy_for_listing viewer lead_id profile_id listing_id at true = do
  found ← lock_open_lead lead_id at
  on_option found (pure gone) λ lead. buy_open viewer lead profile_id listing_id at

-- `buyLead`
unfoldable pub buy_lead : Viewer → ℕ → ℕ → ℕ → Market BuyResult
buy_lead viewer lead_id listing_id at = do
  assert_signed_in viewer
  profile_id ← own_profile viewer
  own ← gets (λ s. any (is_own_published profile_id listing_id) s.listings)
  buy_for_listing viewer lead_id profile_id listing_id at own

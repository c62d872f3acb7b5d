-- ===== src/Leads/Sweep.antt =====
-- `sweepLeads` and `adminDeleteLead` (lib/db/queries/lead-market.ts): leads that leave the board,
-- leads that are deleted and contact details that are purged.
use directory_platform.Common.{
  ℕ, ◌+◌, ◌*◌, Bool, true, false, not, ◌&&◌, Option, none, some, ◌==◌, leb, is_none, filter, any,
  length, update, option_eq,
}
use directory_platform.Store.Rows.{Viewer}
use directory_platform.Leads.{day_ms}
use directory_platform.Leads.Rows.{
  LeadStatus, is_open, is_sold, is_expired, is_deleted, LeadRow, LeadPurchase, LeadRefund, BlockRow,
  MarketDb, lead_deleted,
}
use directory_platform.Leads.Tx.{
  Market, pure, gets, ◌>>=◌, ◌>>◌, modify, on_option, assert_admin, write_audit,
}
use directory_platform.Leads.Sale.{open_status, has_purchase, find_lead}
use directory_platform.Leads.Refunds.{pending_refund}

abbrev pub delete_after_expiry_days : ℕ
delete_after_expiry_days = 7

abbrev pub expired_row : ℕ → LeadRow → LeadRow
expired_row at l = record l { status = is_expired; updated_at = at }

-- open, and past `expires_at`
abbrev pub lapses : ℕ → LeadRow → Bool
lapses at l = open_status l.status && leb l.expires_at at

abbrev pub is_dead : LeadStatus → Bool
is_dead is_expired = true
is_dead is_deleted = true
is_dead _ = false

-- `lte(expiresAt, at - 7 days)` and no purchase
abbrev pub goes : ℕ → MarketDb → LeadRow → Bool
goes at s l =
    is_dead l.status
    && (leb (l.expires_at + delete_after_expiry_days * day_ms) at && not (has_purchase l.id s))

-- a report on a purchase of the lead still waits for a decision
abbrev pub has_pending_report : ℕ → MarketDb → Bool
has_pending_report lead_id s =
    any
      (λ (r : LeadRefund).
        pending_refund r.status
        && any (λ (p : LeadPurchase). p.id == r.purchase_id && p.lead_id == lead_id) s.purchases)
      s.refunds

-- `lte(soldAt, at - retainSoldDays)`, which is not true of a null
abbrev pub sold_before : ℕ → ℕ → Option ℕ → Bool
sold_before days at none = false
sold_before days at (some t) = leb (t + days * day_ms) at

abbrev pub purges : ℕ → MarketDb → LeadRow → Bool
purges at s l =
    is_none l.contact_purged_at
    && (sold_before s.config.retain_sold_days at l.sold_at && not (has_pending_report l.id s))

abbrev pub purged_row : ℕ → LeadRow → LeadRow
purged_row at l = record l {
  name = none;
  email = none;
  phone = none;
  message = none;
  phone_normalised = none;
  email_normalised = none;
  contact_purged_at = some at;
  updated_at = at;
}

pub record SweepResult : Type 0 where
  pub expired : ℕ
  pub deleted : ℕ
  pub purged : ℕ

abbrev pub expire_leads : ℕ → MarketDb → MarketDb
expire_leads at s = record s { leads = update (lapses at) (expired_row at) s.leads }

-- `on delete set null`: the block list forgets a lead that goes
abbrev pub loses_lead : ℕ → MarketDb → BlockRow → Bool
loses_lead at s b = any (λ l. goes at s l && option_eq b.lead_id (some l.id)) s.leads

abbrev pub without_lead : BlockRow → BlockRow
without_lead b = record b { lead_id = none }

abbrev pub drop_leads : ℕ → MarketDb → MarketDb
drop_leads at s = record s {
  leads = filter (λ l. not (goes at s l)) s.leads;
  blocklist = update (loses_lead at s) without_lead s.blocklist;
}

abbrev pub purge_leads : ℕ → MarketDb → MarketDb
purge_leads at s = record s { leads = update (purges at s) (purged_row at) s.leads }

-- the three statements, and how many rows each returned
unfoldable pub sweep_leads : Viewer → ℕ → Market SweepResult
sweep_leads viewer at = do
  assert_admin viewer
  expired ← gets (λ s. length (filter (lapses at) s.leads))
  modify (expire_leads at)
  deleted ← gets (λ s. length (filter (goes at s) s.leads))
  modify (drop_leads at)
  purged ← gets (λ s. length (filter (purges at s) s.leads))
  modify (purge_leads at)
  pure (record { expired = expired; deleted = deleted; purged = purged })

pub data DeleteResult : Type 0 where
  deleted already_sold not_found : DeleteResult

abbrev pub deleted_row : ℕ → LeadRow → LeadRow
deleted_row at l = record l { status = is_deleted; updated_at = at }

unfoldable pub delete_unsold : Viewer → ℕ → ℕ → LeadStatus → Market DeleteResult
delete_unsold viewer lead_id at from = do
  modify (λ s. record s { leads = update (λ l. l.id == lead_id) (deleted_row at) s.leads })
  write_audit viewer (lead_deleted from) lead_id
  pure deleted

unfoldable pub delete_by_status : Viewer → ℕ → ℕ → LeadStatus → Market DeleteResult
delete_by_status viewer lead_id at is_deleted = pure not_found
delete_by_status viewer lead_id at is_sold = pure already_sold
delete_by_status viewer lead_id at is_open = delete_unsold viewer lead_id at is_open
delete_by_status viewer lead_id at is_expired = delete_unsold viewer lead_id at is_expired

-- `adminDeleteLead`
unfoldable pub admin_delete_lead : Viewer → ℕ → ℕ → Market DeleteResult
admin_delete_lead viewer lead_id at = do
  assert_admin viewer
  found ← gets (find_lead lead_id)
  on_option found (pure not_found) λ l. delete_by_status viewer lead_id at l.status

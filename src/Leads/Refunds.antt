-- ===== src/Leads/Refunds.antt =====
-- Bad leads: a buyer's report (`requestRefund`) and the admin's decision on it (`decideRefund`,
-- lib/db/queries/lead-market.ts).
use directory_platform.Common.{
  ℕ, Bool, true, false, not, ◌&&◌, ◌||◌, Option, none, some, List, ◌∷◌, ◌==◌, max, if◌then◌else◌,
  is_none, find?, any, update, ℤ, pos,
}
use directory_platform.Store.Rows.{Viewer, admin}
use directory_platform.Credits.Operations.{refund_to_credit}
use directory_platform.Billing.Calendar.{annual, add_interval}
use directory_platform.Leads.{RefundReason, refund_window_open, blocklists_on_refund}
use directory_platform.Leads.Rows.{
  LeadStatus, is_sold, LeadRow, LeadPurchase, RefundStatus, is_pending, is_approved, is_rejected,
  LeadRefund, BlockKind, by_phone, by_email, BlockRow, MarketDb, refund_requested, refund_decided,
  notify_lead_refund_decided,
}
use directory_platform.Leads.Tx.{
  Market, ⊤, pure, gets, ◌>>=◌, ◌>>◌, modify, on_option, assert_signed_in, assert_admin, on_credit,
  fresh_id, own_profile, profile_unless_nil, write_audit, enqueue_job,
}
use directory_platform.Leads.Sale.{find_lead}

abbrev pub sold_status : LeadStatus → Bool
sold_status is_sold = true
sold_status _ = false

abbrev pub pending_refund : RefundStatus → Bool
pending_refund is_pending = true
pending_refund _ = false

pub data RefundRequestResult : Type 0 where
  requested : ℕ → RefundRequestResult
  invalid_reason not_found already_reported window_closed : RefundRequestResult

-- the purchase, if the account made it and its lead is still sold
abbrev pub sold_lead : ℕ → MarketDb → Bool
sold_lead lead_id s = elim (find_lead lead_id s) [ none ↦ false | some l ↦ sold_status l.status ]

unfoldable pub own_purchase : ℕ → ℕ → MarketDb → Option LeadPurchase
own_purchase lead_id profile_id s =
    if sold_lead lead_id s
    then find? (λ p. p.lead_id == lead_id && p.user_id == profile_id) s.purchases
    else none

abbrev pub is_reported : ℕ → MarketDb → Bool
is_reported purchase_id s = any (λ (r : LeadRefund). r.purchase_id == purchase_id) s.refunds

abbrev pub refund_row : ℕ → LeadPurchase → RefundReason → Option ℕ → LeadRefund
refund_row id p reason note = record {
  id = id;
  purchase_id = p.id;
  reason = reason;
  note = note;
  status = is_pending;
  decided_by = none;
  decided_at = none;
  decision_note = none;
}

unfoldable pub insert_refund :
    Viewer → ℕ → LeadPurchase → RefundReason → Option ℕ → Market RefundRequestResult
insert_refund viewer lead_id p reason note = do
  id ← fresh_id
  modify (λ s. record s { refunds = refund_row id p reason note ∷ s.refunds })
  write_audit viewer (refund_requested id p.id reason) lead_id
  pure (requested id)

unfoldable pub report_purchase :
    Viewer → ℕ → RefundReason → Option ℕ → ℕ → LeadPurchase → Market RefundRequestResult
report_purchase viewer lead_id reason note at p = do
  reported ← gets (is_reported p.id)
  days ← gets (λ s. s.config.refund_window_days)
  if reported
      then pure already_reported
      else if not (refund_window_open days p.created_at at)
      then pure window_closed
      else insert_refund viewer lead_id p reason note

-- `requestRefund`; a reason that is none of the six is `none`, and the note is what is left of the
-- text after `trim` and `slice`, if anything is
unfoldable pub request_refund :
    Viewer → ℕ → Option RefundReason → Option ℕ → ℕ → Market RefundRequestResult
request_refund viewer lead_id reason note at = do
  assert_signed_in viewer
  on_option reason (pure invalid_reason) λ why. do
    profile_id ← own_profile viewer
    found ← gets (own_purchase lead_id profile_id)
    on_option found (pure not_found) (report_purchase viewer lead_id why note at)

pub data RefundDecision : Type 0 where
  approved : ℤ → RefundDecision
  rejected already_decided not_found note_required : RefundDecision

-- The joined row: the report, its purchase and its lead.
pub record RefundCase : Type 0 where
  pub refund : LeadRefund
  pub purchase : LeadPurchase
  pub lead : LeadRow

abbrev with_lead : MarketDb → LeadRefund → LeadPurchase → Option RefundCase
with_lead s r p = elim (find_lead p.lead_id s) [
  | none ↦ none
  | some l ↦ some (record { refund = r; purchase = p; lead = l })
]

abbrev with_purchase : MarketDb → LeadRefund → Option RefundCase
with_purchase s r = elim (find? (λ (p : LeadPurchase). p.id == r.purchase_id) s.purchases) [
  | none ↦ none
  | some p ↦ with_lead s r p
]

unfoldable pub refund_case : ℕ → MarketDb → Option RefundCase
refund_case refund_id s = elim (find? (λ (r : LeadRefund). r.id == refund_id) s.refunds) [
  | none ↦ none
  | some r ↦ with_purchase s r
]

pub record DecisionInput : Type 0 where
  pub approve : Bool
  -- the trimmed text, if anything is left
  pub note : Option ℕ
  -- the number of the ledger's note "Refund for lead …"
  pub ledger_note : ℕ

abbrev pub decided_row : DecisionInput → Option ℕ → ℕ → LeadRefund → LeadRefund
decided_row input actor at r = record r {
  status = if input.approve then is_approved else is_rejected;
  decided_by = actor;
  decided_at = some at;
  decision_note = input.note;
}

abbrev pub set_refund : ℕ → (LeadRefund → LeadRefund) → MarketDb → MarketDb
set_refund id f s = record s { refunds = update (λ r. r.id == id) f s.refunds }

abbrev pub same_kind : BlockKind → BlockKind → Bool
same_kind by_phone by_phone = true
same_kind by_email by_email = true
same_kind _ _ = false

-- `case when expires_at is null then null else greatest(…) end`
abbrev pub later_expiry : Option ℕ → ℕ → Option ℕ
later_expiry none until = none
later_expiry (some t) until = some (max t until)

abbrev pub same_key : BlockKind → ℕ → BlockRow → Bool
same_key kind value b = same_kind b.kind kind && b.value == value

abbrev pub extended : RefundReason → ℕ → ℕ → BlockRow → BlockRow
extended reason lead_id until b = record b {
  reason = reason;
  lead_id = some lead_id;
  expires_at = later_expiry b.expires_at until;
}

-- the insert with `onConflictDoUpdate` on kind and value
unfoldable pub block : BlockKind → ℕ → RefundReason → ℕ → ℕ → List BlockRow → List BlockRow
block kind value reason lead_id until rows =
    if any (same_key kind value) rows
    then update (same_key kind value) (extended reason lead_id until) rows
    else record {
      kind = kind;
      value = value;
      reason = reason;
      lead_id = some lead_id;
      expires_at = some until;
    }
      ∷ rows

unfoldable pub block_key :
    BlockKind → Option ℕ → RefundReason → ℕ → ℕ → List BlockRow → List BlockRow
block_key kind none reason lead_id until rows = rows
block_key kind (some value) reason lead_id until rows = block kind value reason lead_id until rows

-- the loop over the entries: the phone, then the email
unfoldable pub block_lead : RefundCase → ℕ → List BlockRow → List BlockRow
unfolding block_key
block_lead c until rows =
    if not (blocklists_on_refund c.refund.reason)
    then rows
    else block_key by_email c.lead.email_normalised c.refund.reason c.lead.id until
        (block_key by_phone c.lead.phone_normalised c.refund.reason c.lead.id until rows)

abbrev pub blocks_anything : RefundCase → Bool
blocks_anything c =
    blocklists_on_refund c.refund.reason
    && (not (is_none c.lead.phone_normalised) || not (is_none c.lead.email_normalised))

-- the admin's profile; the system's viewer records nobody
unfoldable pub decision_actor : Viewer → Market (Option ℕ)
unfolding pure
decision_actor (admin u) = profile_unless_nil u
decision_actor _ = pure none

unfoldable pub finish_decision : Viewer → RefundCase → Bool → Bool → Market ⊤
finish_decision viewer c approve blocklisted = do
  write_audit viewer
      (refund_decided approve c.refund.id c.purchase.id c.purchase.price_cents blocklisted)
      c.lead.id
  enqueue_job (notify_lead_refund_decided c.refund.id)

-- the report is closed either way; an approval credits the price and blocks the lead's keys
unfoldable pub carry_out : Viewer → DecisionInput → ℕ → RefundCase → Bool → Market RefundDecision
carry_out viewer input at c false = do finish_decision viewer c false false; pure rejected
carry_out viewer input at c true = do
  back ← on_credit (
      refund_to_credit viewer c.purchase.user_id (pos c.purchase.price_cents) input.ledger_note
        c.refund.id)
  modify (λ s. record s { blocklist = block_lead c (add_interval at annual) s.blocklist })
  finish_decision viewer c true (blocks_anything c)
  pure (approved back.balance_cents)

unfoldable pub decide_case : Viewer → DecisionInput → ℕ → RefundCase → Market RefundDecision
decide_case viewer input at c = do
  actor ← decision_actor viewer
  modify (set_refund c.refund.id (decided_row input actor at))
  carry_out viewer input at c input.approve

-- `decideRefund`; twelve months on is a year on, by the same setters of the date
unfoldable pub decide_refund : Viewer → ℕ → DecisionInput → ℕ → Market RefundDecision
decide_refund viewer refund_id input at = do
  assert_admin viewer
  if not input.approve && is_none input.note then pure note_required else do
    found ← gets (refund_case refund_id)
    on_option found (pure not_found) λ c.
        if not (pending_refund c.refund.status)
        then pure already_decided
        else decide_case viewer input at c

-- ===== src/Leads/Create.antt =====
-- Where leads come from (lib/db/queries/leads.ts) and the rules that refuse one
-- (`checkLeadRules`, lib/leads/rules.ts). What is made of texts is a parameter: the normalised
-- phone and address, the throwaway inboxes, and the number of an empty text.
use directory_platform.Common.{
  ℕ, ◌+◌, ◌*◌, Bool, true, false, not, ◌&&◌, ◌||◌, Option, none, some, List, ◌∷◌, ◌==◌, ltb,
  if◌then◌else◌, option_eq, find?, any,
}
use directory_platform.Store.Rows.{ListingRow, Viewer}
use directory_platform.Leads.{day_ms}
use directory_platform.Leads.Rows.{
  LeadSource, quote, capture, enquiry, LeadRow, is_open, QuoteStatus, is_confirmed, QuoteRequest,
  QuoteRecipient, BlockKind, by_phone, by_email, BlockRow, MarketDb, lead_created,
}
use directory_platform.Leads.Tx.{Market, pure, gets, ◌>>=◌, ◌>>◌, modify, fresh_id, write_audit}
use directory_platform.Leads.Refunds.{same_kind}

pub record LeadTexts : Type 0 where
  pub normalise_phone : Option ℕ → Option ℕ
  pub normalise_email : ℕ → ℕ
  pub is_disposable : ℕ → Bool
  pub no_text : ℕ

abbrev pub duplicate_window_days : ℕ
duplicate_window_days = 30

pub data LeadRejection : Type 0 where
  phone_invalid disposable_email blocklisted duplicate : LeadRejection

-- a row of the block list that has not run out
abbrev pub still_blocks : ℕ → BlockRow → Bool
still_blocks at b = elim b.expires_at [ none ↦ true | some t ↦ ltb at t ]

abbrev pub blocks : BlockKind → ℕ → BlockRow → Bool
blocks kind value b = same_kind b.kind kind && b.value == value

abbrev pub is_blocked : ℕ → ℕ → ℕ → List BlockRow → Bool
is_blocked phone email at rows =
    any (λ b. (blocks by_phone phone b || blocks by_email email b) && still_blocks at b) rows

-- `gt(createdAt, at - 30 days)`
abbrev pub is_recent_same : ℕ → ℕ → ℕ → LeadRow → Bool
is_recent_same phone email at l =
    (option_eq l.phone_normalised (some phone) || option_eq l.email_normalised (some email))
    && ltb at (l.created_at + duplicate_window_days * day_ms)

unfoldable pub check_known : ℕ → ℕ → ℕ → MarketDb → Option LeadRejection
check_known phone email at s =
    if is_blocked phone email at s.blocklist
    then some blocklisted
    else if any (is_recent_same phone email at) s.leads
    then some duplicate
    else none

unfoldable pub check_phone : LeadTexts → ℕ → ℕ → Option ℕ → MarketDb → Option LeadRejection
check_phone texts email at none s = some phone_invalid
check_phone texts email at (some phone) s =
    if texts.is_disposable email
    then some disposable_email
    else check_known phone (texts.normalise_email email) at s

-- `checkLeadRules`: why the lead is refused, if it is
unfoldable pub check_lead_rules : LeadTexts → ℕ → Option ℕ → ℕ → MarketDb → Option LeadRejection
check_lead_rules texts email phone at s = check_phone texts email at (texts.normalise_phone phone) s

pub record LeadFields : Type 0 where
  pub source : LeadSource
  pub quote_request_id : Option ℕ
  pub listing_id : Option ℕ
  pub city_id : ℕ
  pub category_id : Option ℕ
  pub name : ℕ
  pub email : ℕ
  pub phone : Option ℕ
  pub message : ℕ

abbrev pub lead_row : LeadTexts → LeadFields → MarketDb → ℕ → ℕ → LeadRow
lead_row texts f s at id = record {
  id = id;
  status = is_open;
  source = f.source;
  quote_request_id = f.quote_request_id;
  listing_id = f.listing_id;
  city_id = f.city_id;
  category_id = f.category_id;
  price_cents = s.config.floor_cents;
  half_price_at = at + s.config.half_price_after_days * day_ms;
  expires_at = at + s.config.delete_after_days * day_ms;
  sold_at = none;
  sold_to_listing_id = none;
  buyer_user_id = none;
  name = some f.name;
  email = some f.email;
  phone = f.phone;
  message = some f.message;
  phone_normalised = texts.normalise_phone f.phone;
  email_normalised = some (texts.normalise_email f.email);
  contact_purged_at = none;
  created_at = at;
  updated_at = at;
}

unfoldable pub store_lead : LeadTexts → Viewer → LeadFields → ℕ → Market (Option LeadRow)
store_lead texts viewer f at = do
  id ← fresh_id
  lead ← gets (λ s. lead_row texts f s at id)
  modify (λ s. record s { leads = lead ∷ s.leads })
  write_audit viewer (lead_created f.source f.quote_request_id f.listing_id) id
  pure (some lead)

abbrev pub if_accepted : Option LeadRejection → Market (Option LeadRow) → Market (Option LeadRow)
if_accepted none m = m
if_accepted (some why) m = pure none

-- `insertLead`
unfoldable pub insert_lead : LeadTexts → Viewer → LeadFields → ℕ → Market (Option LeadRow)
insert_lead texts viewer f at = do
  verdict ← gets (check_lead_rules texts f.email f.phone at)
  if_accepted verdict (store_lead texts viewer f at)

-- a lead of the request
abbrev pub is_of_request : ℕ → LeadRow → Bool
is_of_request request_id l = option_eq l.quote_request_id (some request_id)

-- unless the request is a lead already
unfoldable pub insert_once :
    LeadTexts → Viewer → LeadFields → ℕ → Option ℕ → Market (Option LeadRow)
insert_once texts viewer f at none = insert_lead texts viewer f at
insert_once texts viewer f at (some request_id) = do
  existing ← gets (λ s. any (is_of_request request_id) s.leads)
  if existing then pure none else insert_lead texts viewer f at

abbrev pub same_source : LeadSource → LeadSource → Bool
same_source quote quote = true
same_source capture capture = true
same_source enquiry enquiry = true
same_source _ _ = false

abbrev pub confirmed_status : QuoteStatus → Bool
confirmed_status is_confirmed = true
confirmed_status _ = false

abbrev pub find_request : ℕ → MarketDb → Option QuoteRequest
find_request id s = find? (λ (q : QuoteRequest). q.id == id) s.requests

-- verified, not spam, and from the door's own source
abbrev pub makes_lead : LeadSource → QuoteRequest → Bool
makes_lead source q = confirmed_status q.status && (not q.spam && same_source q.source source)

unfoldable pub ready : LeadSource → Option QuoteRequest → Option QuoteRequest
ready source none = none
ready source (some q) = if makes_lead source q then some q else none

-- `name ?? ""`
abbrev pub text_or : ℕ → Option ℕ → ℕ
text_or empty none = empty
text_or empty (some t) = t

-- a listing that the request went to and that is on a paid tier now
abbrev pub has_paid_local : ℕ → MarketDb → Bool
has_paid_local request_id s =
    any
      (λ (r : QuoteRecipient).
        r.quote_request_id == request_id
        && any (λ (l : ListingRow). l.id == r.listing_id && not l.is_free) s.listings)
      s.recipients

abbrev pub request_fields : LeadTexts → LeadSource → QuoteRequest → ℕ → ℕ → ℕ → LeadFields
request_fields texts source q email message city_id = record {
  source = source;
  quote_request_id = some q.id;
  listing_id = none;
  city_id = city_id;
  category_id = q.category_id;
  name = text_or texts.no_text q.name;
  email = email;
  phone = q.phone;
  message = message;
}

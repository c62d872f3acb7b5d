-- ===== src/Leads/Doors.antt =====
-- The three doors through which a confirmed request becomes a lead (lib/db/queries/leads.ts), and
-- what the confirm route does with the lead (lib/leads/hooks.ts,
-- app/get-quotes/verify/[token]/confirm/route.ts).
use directory_platform.Common.{
  ℕ, Bool, true, false, not, ◌&&◌, ◌||◌, Option, none, some, ◌==◌, if◌then◌else◌, find?,
}
use directory_platform.Store.Rows.{ListingRow, Viewer, public}
use directory_platform.Store.Tx.{is_admin}
use directory_platform.Leads.Rows.{
  LeadSource, quote, capture, enquiry, LeadRow, QuoteRequest, MarketDb,
}
use directory_platform.Leads.Tx.{MarketResult, ok, err, Market, pure, gets, ◌>>=◌, on_option}
use directory_platform.Leads.Allocate.{AllocationResult, allocate_lead}
use directory_platform.Leads.Create.{
  LeadTexts, LeadFields, insert_once, find_request, ready, has_paid_local, request_fields,
}

-- the request's address, message and town, or no lead
abbrev pub with_texts : QuoteRequest → (ℕ → ℕ → Market (Option LeadRow)) → Market (Option LeadRow)
with_texts q f =
    on_option q.email (pure none)
      λ email. on_option q.message (pure none) λ message. f email message

-- for the request, if it is of this source and ready
abbrev pub for_ready :
    LeadSource → ℕ → (QuoteRequest → Market (Option LeadRow)) → Market (Option LeadRow)
for_ready source request_id f = do
  found ← gets (λ s. ready source (find_request request_id s))
  on_option found (pure none) f

unfoldable pub quote_lead :
    LeadTexts → Viewer → ℕ → QuoteRequest → ℕ → ℕ → ℕ → Market (Option LeadRow)
quote_lead texts viewer at q email message city_id = do
  paid ← gets (has_paid_local q.id)
  if paid
      then pure none
      else insert_once texts viewer (request_fields texts quote q email message city_id) at
          (some q.id)

-- `createLeadFromQuote`
unfoldable pub create_lead_from_quote : LeadTexts → Viewer → ℕ → ℕ → Market (Option LeadRow)
create_lead_from_quote texts viewer request_id at = for_ready quote request_id λ q.
    with_texts q
      λ email message. on_option q.city_id (pure none) (quote_lead texts viewer at q email message)

-- `createCaptureLead`
unfoldable pub create_capture_lead :
    LeadTexts → Viewer → LeadFields → Option ℕ → ℕ → Market (Option LeadRow)
create_capture_lead texts viewer input request_id at =
    insert_once texts viewer
      (record input { source = capture; listing_id = none; quote_request_id = request_id }) at
      request_id

-- `createLeadFromCaptureRequest`
unfoldable pub create_lead_from_capture : LeadTexts → Viewer → ℕ → ℕ → Market (Option LeadRow)
create_lead_from_capture texts viewer request_id at = for_ready capture request_id λ q.
    with_texts q λ email message. on_option q.city_id (pure none) λ city_id.
      create_capture_lead texts viewer (request_fields texts capture q email message city_id)
        (some q.id) at

-- published, for anyone but an admin; unclaimed, and without an address on file
abbrev pub takes_enquiries : Viewer → ℕ → ListingRow → Bool
takes_enquiries viewer listing_id l =
    l.id == listing_id
    && ((is_admin viewer || l.is_published) && (l.is_unclaimed && not l.has_email))

-- `enquiryLeadTarget`
unfoldable pub enquiry_lead_target : Viewer → ℕ → MarketDb → Option ListingRow
enquiry_lead_target viewer listing_id s = find? (takes_enquiries viewer listing_id) s.listings

abbrev pub enquiry_fields : LeadFields → ListingRow → Option ℕ → LeadFields
enquiry_fields input l request_id = record input {
  source = enquiry;
  quote_request_id = request_id;
  listing_id = some l.id;
  city_id = l.city_id;
  category_id = some l.primary_category_id;
}

-- `createEnquiryLead`
unfoldable pub create_enquiry_lead :
    LeadTexts → Viewer → ℕ → LeadFields → Option ℕ → ℕ → Market (Option LeadRow)
create_enquiry_lead texts viewer listing_id input request_id at = do
  target ← gets (enquiry_lead_target viewer listing_id)
  on_option target (pure none)
      λ l. insert_once texts viewer (enquiry_fields input l request_id) at request_id

-- `createLeadFromEnquiryRequest`; the town is the listing's
unfoldable pub create_lead_from_enquiry : LeadTexts → Viewer → ℕ → ℕ → Market (Option LeadRow)
create_lead_from_enquiry texts viewer request_id at = for_ready enquiry request_id λ q.
    with_texts q λ email message. on_option q.listing_id (pure none) λ listing_id.
      create_enquiry_lead texts viewer listing_id (request_fields texts enquiry q email message 0)
        (some q.id) at

-- the door of a source
unfoldable pub door : LeadSource → LeadTexts → Viewer → ℕ → ℕ → Market (Option LeadRow)
door quote = create_lead_from_quote
door capture = create_lead_from_capture
door enquiry = create_lead_from_enquiry

-- the savepoint: what throws leaves nothing
abbrev pub kept_or_undone : MarketDb → MarketResult AllocationResult → MarketResult Bool
kept_or_undone s (ok r s') = ok true s'
kept_or_undone s (err e) = ok false s

-- `runAfterLeadCreated` with `afterLeadCreated`
unfoldable pub run_after_lead_created : Viewer → LeadRow → ℕ → Market Bool
run_after_lead_created viewer lead at s = kept_or_undone s (allocate_lead viewer lead.id at s)

-- the confirm route, once the request is verified and the marketplace is on
unfoldable pub confirm_lead : LeadTexts → LeadSource → ℕ → ℕ → Market Bool
confirm_lead texts source request_id at = do
  lead ← door source texts public request_id at
  on_option lead (pure false) λ l. run_after_lead_created public l at

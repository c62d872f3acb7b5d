-- ===== src/Leads/Opened.antt =====
-- What holds of a door's one insert holds of the door (lib/db/queries/leads.ts).
use directory_platform.Common.{
  ℕ, ◌≡◌, refl, sym, ap, ◌∙◌, subst, Bool, true, false, Option, none, some, ==→eq, if◌then◌else◌,
  find?_passes,
}
use directory_platform.Store.Rows.{Viewer}
use directory_platform.Leads.Rows.{
  LeadSource, quote, capture, enquiry, LeadRow, QuoteRequest, MarketDb,
}
use directory_platform.Leads.Tx.{Market, pure, on_option}
use directory_platform.Leads.Create.{
  LeadTexts, LeadFields, LeadRejection, store_lead, if_accepted, insert_lead, insert_once,
  find_request, ready, makes_lead,
}
use directory_platform.Leads.Doors.{
  with_texts, for_ready, quote_lead, create_lead_from_quote, create_capture_lead,
  create_lead_from_capture, create_enquiry_lead, create_lead_from_enquiry, door,
}
use directory_platform.Leads.Triple.{
  Triple, Triple-pure, Triple-bind, Triple-gets, Triple-if, Triple-given, Triple-weaken, Keeps-gets,
}

-- a request that is ready has the id that it was looked up by
pub ready-id :
    (source : LeadSource) (id : ℕ) (o : Option QuoteRequest) (q : QuoteRequest)
    → ((p : QuoteRequest) → o ≡ some p → p.id ≡ id)
    → ready source o ≡ some q
    → q.id ≡ id
unfolding ready
ready-id source id none q found e = cc
ready-id source id (some p) q found e = by_test (makes_lead source p) e
  where
    by_test : (b : Bool) → (if b then some p else none) ≡ some q → q.id ≡ id
    by_test true k = let same : p ≡ q = cc in subst (λ r. r.id ≡ id) same (found p refl)
    by_test false k = cc

pub found-id : (id : ℕ) (s : MarketDb) (p : QuoteRequest) → find_request id s ≡ some p → p.id ≡ id
found-id id s p e = ==→eq p.id id (find?_passes _ s.requests p e)

module _ (P : MarketDb → Type 0) (Q : Option LeadRow → MarketDb → Type 0)
    (refused : (s : MarketDb) → P s → Q none s) (texts : LeadTexts) (v : Viewer) (at id : ℕ)
    (stored : (f : LeadFields)
      → f.quote_request_id ≡ some id
      → Triple P (store_lead texts v f at) Q) where
  Triple-none : Triple P (pure none) Q
  Triple-none = Triple-pure none refused

  Triple-on_option :
      {A : Type 0} (o : Option A) (f : A → Market (Option LeadRow))
      → ((a : A) → Triple P (f a) Q)
      → Triple P (on_option o (pure none) f) Q
  unfolding on_option
  Triple-on_option none f k = Triple-none
  Triple-on_option (some a) f k = k a

  insert_once-Ends :
      (f : LeadFields)
      → f.quote_request_id ≡ some id
      → Triple P (insert_once texts v f at (some id)) Q
  unfolding insert_once insert_lead
  insert_once-Ends f e =
      Triple-bind (λ _. P) _ _ (Keeps-gets _)
        λ existing.
          Triple-if existing _ _ (λ _. Triple-none)
            λ _. Triple-bind (λ _. P) _ _ (Keeps-gets _) by_verdict
    where
      by_verdict :
          (verdict : Option LeadRejection)
          → Triple P (if_accepted verdict (store_lead texts v f at)) Q
      by_verdict none = stored f e
      by_verdict (some why) = Triple-none

  with_texts-Ends :
      (q : QuoteRequest) (f : ℕ → ℕ → Market (Option LeadRow))
      → ((email message : ℕ) → Triple P (f email message) Q)
      → Triple P (with_texts q f) Q
  with_texts-Ends q f k =
      Triple-on_option q.email _ λ email. Triple-on_option q.message _ λ message. k email message

  for_ready-Ends :
      (source : LeadSource) (f : QuoteRequest → Market (Option LeadRow))
      → ((q : QuoteRequest) → q.id ≡ id → Triple P (f q) Q)
      → Triple P (for_ready source id f) Q
  unfolding on_option pure
  for_ready-Ends source f k =
      Triple-bind (λ found s. ((q : QuoteRequest) → found ≡ some q → q.id ≡ id) × P s) _ _
        (Triple-weaken (λ s h. h)
          (λ found s h.
            ((λ q e. ready-id source id (find_request id s) q (found-id id s) (sym h.1 ∙ e)), h.0))
          (Triple-gets (λ s. ready source (find_request id s))))
        λ found. Triple-given (by_request found)
    where
      by_request :
          (found : Option QuoteRequest)
          → ((q : QuoteRequest) → found ≡ some q → q.id ≡ id)
          → Triple P (on_option found (pure none) f) Q
      by_request none e = Triple-none
      by_request (some q) e = k q (e q refl)

  same_request :
      (q : QuoteRequest) (f : LeadFields)
      → f.quote_request_id ≡ some q.id
      → q.id ≡ id
      → Triple P (insert_once texts v f at (some q.id)) Q
  same_request q f e same =
      subst (λ n. Triple P (insert_once texts v f at (some n)) Q) (sym same)
        (insert_once-Ends f (e ∙ ap some same))

  pub door-Ends : (source : LeadSource) → Triple P (door source texts v id at) Q
  unfolding door create_lead_from_quote quote_lead create_lead_from_capture create_capture_lead
      create_lead_from_enquiry create_enquiry_lead
  door-Ends quote = for_ready-Ends quote _ λ q same. with_texts-Ends q _ λ email message.
      Triple-on_option q.city_id _ λ city_id.
        Triple-bind (λ _. P) _ _ (Keeps-gets _)
          λ paid. Triple-if paid _ _ (λ _. Triple-none) (λ _. same_request q _ refl same)
  door-Ends capture = for_ready-Ends capture _ λ q same.
      with_texts-Ends q _
        λ email message. Triple-on_option q.city_id _ λ city_id. same_request q _ refl same
  door-Ends enquiry = for_ready-Ends enquiry _ λ q same. with_texts-Ends q _ λ email message.
      Triple-on_option q.listing_id _ λ listing_id.
        Triple-bind (λ _. P) _ _ (Keeps-gets _)
          λ target. Triple-on_option target _ λ l. same_request q _ refl same

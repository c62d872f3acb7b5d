-- ===== src/Leads/OneLead.antt =====
-- A request with a lead makes no second one, whichever door it comes to (lib/db/queries/leads.ts).
use directory_platform.Common.{
  ℕ, ◌≡◌, refl, sym, subst, Bool, true, false, Option, none, some, ==_self, if◌then◌else◌, any,
}
use directory_platform.Store.Rows.{Viewer}
use directory_platform.Leads.Rows.{
  LeadSource, quote, capture, enquiry, LeadRow, QuoteRequest, MarketDb,
}
use directory_platform.Leads.Tx.{ok, Market, pure, gets, ◌>>=◌, on_option, fresh_id}
use directory_platform.Leads.Create.{
  LeadTexts, LeadFields, store_lead, insert_once, has_paid_local, find_request, ready,
  is_of_request,
}
use directory_platform.Leads.Doors.{
  with_texts, for_ready, quote_lead, create_lead_from_quote, create_capture_lead,
  create_lead_from_capture, create_enquiry_lead, create_lead_from_enquiry, door,
}
use directory_platform.Leads.Triple.{Triple, Triple-pure, Triple-bind, Triple-modify, returned}
use directory_platform.Leads.Frame.{frame-write_audit}
use directory_platform.Leads.Opened.{ready-id, found-id, door-Ends}

-- The request has a lead.
abbrev pub IsTaken : ℕ → MarketDb → Type 0
IsTaken request_id s = any (is_of_request request_id) s.leads ≡ true

-- If a lead is made, the request has one.
abbrev MakesIt : ℕ → Option LeadRow → MarketDb → Type 0
MakesIt request_id none s = Unit
MakesIt request_id (some l) s = IsTaken request_id s

store_lead-IsTaken :
    (texts : LeadTexts) (v : Viewer) (f : LeadFields) (at id : ℕ)
    → f.quote_request_id ≡ some id
    → Triple (λ s. Unit) (store_lead texts v f at) (MakesIt id)
unfolding store_lead fresh_id gets
store_lead-IsTaken texts v f at id e =
    Triple-bind (λ _ _. Unit) _ _ (record { at = λ s h. h })
      λ n.
        Triple-bind (λ l s. (is_of_request id l ≡ true)) _ _
          (record { at = λ s h. rw e (==_self id) })
          λ l.
            Triple-bind (λ _. IsTaken id) _ _ (Triple-modify {Q = IsTaken id} _ λ s h. rw h refl)
              λ _.
                Triple-bind (λ _. IsTaken id) _ _
                  (frame-write_audit (λ ls _ _ _ _ _. any (is_of_request id) ls ≡ true) (λ r s h. h)
                    v _ _)
                  λ _. Triple-pure _ (λ s h. h)

-- A door that finds the request taken makes nothing.
module _ (texts : LeadTexts) (v : Viewer) (at id : ℕ) (s : MarketDb) (taken : IsTaken id s) where
  insert_once-refuses : (f : LeadFields) → insert_once texts v f at (some id) s ≡ ok none s
  unfolding insert_once gets pure ◌>>=◌
  insert_once-refuses f = rw taken refl

  same_refuses :
      (q : QuoteRequest) (f : LeadFields)
      → q.id ≡ id
      → insert_once texts v f at (some q.id) s ≡ ok none s
  same_refuses q f same =
      subst (λ n. insert_once texts v f at (some n) s ≡ ok none s) (sym same)
        (insert_once-refuses f)

  option_refuses :
      {A : Type 0} (o : Option A) (f : A → Market (Option LeadRow))
      → ((a : A) → f a s ≡ ok none s)
      → on_option o (pure none) f s ≡ ok none s
  unfolding on_option pure
  option_refuses none f k = refl
  option_refuses (some a) f k = k a

  if_refuses :
      (b : Bool) (m : Market (Option LeadRow))
      → m s ≡ ok none s
      → (if b then pure none else m) s ≡ ok none s
  unfolding pure
  if_refuses true m h = refl
  if_refuses false m h = h

  texts_refuse :
      (q : QuoteRequest) (f : ℕ → ℕ → Market (Option LeadRow))
      → ((email message : ℕ) → f email message s ≡ ok none s)
      → with_texts q f s ≡ ok none s
  texts_refuse q f k =
      option_refuses q.email _ λ email. option_refuses q.message _ λ message. k email message

  ready_refuses :
      (source : LeadSource) (f : QuoteRequest → Market (Option LeadRow))
      → ((q : QuoteRequest) → q.id ≡ id → f q s ≡ ok none s)
      → for_ready source id f s ≡ ok none s
  unfolding gets pure on_option ◌>>=◌
  ready_refuses source f k =
      by_request (ready source (find_request id s))
        λ q e. ready-id source id (find_request id s) q (found-id id s) e
    where
      by_request :
          (found : Option QuoteRequest)
          → ((q : QuoteRequest) → found ≡ some q → q.id ≡ id)
          → on_option found (pure none) f s ≡ ok none s
      by_request none e = refl
      by_request (some q) e = k q (e q refl)

  door_refuses : (source : LeadSource) → door source texts v id at s ≡ ok none s
  unfolding door create_lead_from_quote quote_lead create_lead_from_capture create_capture_lead
      create_lead_from_enquiry create_enquiry_lead gets pure ◌>>=◌
  door_refuses quote = ready_refuses quote _ λ q same. texts_refuse q _ λ email message.
      option_refuses q.city_id _
        λ city_id. if_refuses (has_paid_local q.id s) _ (same_refuses q _ same)
  door_refuses capture = ready_refuses capture _ λ q same.
      texts_refuse q _ λ email message. option_refuses q.city_id _ λ city_id. same_refuses q _ same
  door_refuses enquiry = ready_refuses enquiry _ λ q same. texts_refuse q _ λ email message.
      option_refuses q.listing_id _ λ listing_id. option_refuses _ _ λ l. same_refuses q _ same

-- A door that makes a lead of a request leaves a lead of that request in the table; and in any
-- state that has one, whatever has happened in between, every door at any time makes nothing of the
-- request and changes nothing.
pub door_once :
    (source other : LeadSource) (texts : LeadTexts) (v w : Viewer) (id at later : ℕ)
    (s s' t : MarketDb) (l : LeadRow)
    → door source texts v id at s ≡ ok (some l) s'
    → any (is_of_request id) t.leads ≡ true
    → (any (is_of_request id) s'.leads ≡ true) × (door other texts w id later t ≡ ok none t)
door_once source other texts v w id at later s s' t l run taken = (
  returned (MakesIt id) run (
      (door-Ends (λ s. Unit) (MakesIt id) (λ s h. tt) texts v at id
          (λ f e. store_lead-IsTaken texts v f at id e) source).at
        s tt),
  door_refuses texts w later id t taken other,
)

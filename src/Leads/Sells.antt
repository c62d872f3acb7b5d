-- ===== src/Leads/Sells.antt =====
-- Sales that go through: from a state where the invariant holds, an open lead is allocated or left
-- open without an exception, and a buyer who can pay gets it.
use directory_platform.Common.{
  ℕ, ◌<◌, ◌≡◌, refl, ◌∙◌, subst, Bool, true, false, ◌&&◌, Option, none, some, [], ◌==◌, ==_self,
  if◌then◌else◌, any, pos, ltb_ℤ, find?, All, All-find?, All-filter,
}
use directory_platform.Store.Rows.{Viewer, ProfileRow, owner}
use directory_platform.Credits.{
  CreditDb, CreditResult, ensure_profile, is_own_profile, balance_in, assert_acts_for,
}
use directory_platform.Leads.{current_price_cents}
use directory_platform.Leads.Rows.{LeadRow, LeadStatus, is_open, MarketDb}
use directory_platform.Leads.Tx.{
  ok, pure, gets, ◌>>=◌, on_option, on_credit, own_profile, assert_signed_in, require,
}
use directory_platform.Leads.Sale.{
  find_lead, open_status, open_at, open_lead, lock_open_lead, BuyResult, is_own_published, buy_open,
  buy_for_listing, buy_lead,
}
use directory_platform.Leads.Allocate.{AllocationResult, candidates, allocate_lead}
use directory_platform.Leads.Refunds.{sold_status}
use directory_platform.Leads.Consistent.{IsConsistent, SoldIfBought, is_bought}
use directory_platform.Leads.Keeps.{Invariant}
use directory_platform.Leads.Ranked.{All-rank_orders}
use directory_platform.Leads.Best.{Allocated, allocate_lead-Allocated}
use directory_platform.Leads.Triple.{returned}
use directory_platform.Leads.Bought.{BuyIs, Leaves, half_positive, buy_open-BuyIs, buy_open-Leaves}
use directory_platform.Leads.Total.{Returns, Total-bind, result_of}
use directory_platform.Leads.GoesThrough.{total-debit, total-offer}

abbrev status_of : Option LeadRow → LeadStatus
status_of none = is_open
status_of (some m) = m.status

-- What is known of a lead that is found open.
opened :
    (at : ℕ) (o : Option LeadRow) (lead : LeadRow)
    → open_lead at o ≡ some lead
    → (o ≡ some lead) × (sold_status lead.status ≡ false)
unfolding open_lead
opened at none lead e = cc
opened at (some l) lead e = by_test (open_at at l) refl e
  where
    unsold : (st : LeadStatus) (b : Bool) → (open_status st && b) ≡ true → sold_status st ≡ false
    unsold is_open b h = refl
    unsold LeadStatus.is_sold b h = cc
    unsold LeadStatus.is_expired b h = refl
    unsold LeadStatus.is_deleted b h = refl

    by_test :
        (b : Bool)
        → open_at at l ≡ b
        → (if b then some l else none) ≡ some lead
        → (some l ≡ some lead) × (sold_status lead.status ≡ false)
    by_test true t e = (e, subst (λ o. sold_status (status_of o) ≡ false) e (unsold l.status _ t))
    by_test false t e = cc

open_lead-unbought :
    (s : MarketDb) (lead_id at : ℕ) (lead : LeadRow)
    → Invariant s
    → open_lead at (find_lead lead_id s) ≡ some lead
    → is_bought lead.id s.purchases ≡ false
open_lead-unbought s lead_id at lead h e =
    let (found, unsold) = opened at (find_lead lead_id s) lead e in
    (All-find? (SoldIfBought s.purchases) (λ l. l.id == lead_id) s.leads lead h.sold found).0 unsold

allocate_lead-Returns :
    (v : Viewer) (lead_id at : ℕ) (s : MarketDb) (lead : LeadRow)
    → Invariant s
    → All (λ o. 0 < o.price_cents) s.orders
    → open_lead at (find_lead lead_id s) ≡ some lead
    → Returns (λ _ _. Unit) (allocate_lead v lead_id at s)
unfolding allocate_lead lock_open_lead gets ◌>>=◌ on_option candidates
allocate_lead-Returns v lead_id at s lead h prices e =
    let free = open_lead-unbought s lead_id at lead h e in
    rw e (
      (total-offer s.purchases s.credit.ledger v lead at free [] _
          (All-rank_orders _ _ (All-filter _ _ s.orders prices))).at
        s (refl, refl))

-- If the invariant holds, every standing order has a positive price and the lead is open at the time
-- of the call, `allocateLead` returns, and the leads, the purchases, the standing orders and the
-- ledger that it leaves are as `Allocated` says. If some order covers the lead and can pay, the lead
-- is sold to a best-paying one: the row of the lead has the status sold, the time and the listing,
-- the new rows are one purchase and one row of the ledger, both at the order's price, the order has
-- won one more, and the candidates before it, as those after it that cannot pay any more, are
-- paused. If there is none, every candidate is paused and nothing is sold.
pub allocate_lead_returns :
    (v : Viewer) (lead_id at : ℕ) (s : MarketDb) (lead : LeadRow)
    → IsConsistent s.leads s.purchases s.credit.ledger s.refunds s.orders s.blocklist
    → All (λ o. 0 < o.price_cents) s.orders
    → open_lead at (find_lead lead_id s) ≡ some lead
    → (r : AllocationResult) × ((s' : MarketDb) × ((allocate_lead v lead_id at s ≡ ok r s')
          × Allocated at s lead r s'))
allocate_lead_returns v lead_id at s lead h prices e =
    let (r, (s', (run, k))) =
      result_of (allocate_lead v lead_id at s)
        (allocate_lead-Returns v lead_id at s lead h prices e) in
    (r, (s', (run, allocate_lead-Allocated v lead_id at s lead r s' e run)))

known_profile :
    (u : ℕ) (s : CreditDb) (profile : ProfileRow)
    → find? (λ (p : ProfileRow). p.user_id == u) s.profiles ≡ some profile
    → ensure_profile u s ≡ CreditResult.ok profile.id s
unfolding ensure_profile
known_profile u s profile found = rw (found, ensure_profile) refl

acts_for_own :
    (u : ℕ) (s : CreditDb) (profile : ProfileRow)
    → find? (λ (p : ProfileRow). p.user_id == u) s.profiles ≡ some profile
    → assert_acts_for (owner u) profile.id s ≡ CreditResult.ok tt s
unfolding assert_acts_for is_own_profile
acts_for_own u s profile found = rw (known_profile u s profile found, ==_self profile.id) refl

buy_lead-buy_open :
    (u lead_id listing_id at : ℕ) (s : MarketDb) (lead : LeadRow) (profile : ProfileRow)
    → find? (λ (p : ProfileRow). p.user_id == u) s.credit.profiles ≡ some profile
    → any (is_own_published profile.id listing_id) s.listings ≡ true
    → open_lead at (find_lead lead_id s) ≡ some lead
    → buy_lead (owner u) lead_id listing_id at s
      ≡ buy_open (owner u) lead profile.id listing_id at s
unfolding buy_lead assert_signed_in require own_profile on_credit gets pure buy_for_listing
    lock_open_lead on_option ◌>>=◌
buy_lead-buy_open u lead_id listing_id at s lead profile found own e =
    rw (known_profile u s.credit profile found, own, e) refl

buy_open-Returns :
    (u listing_id at : ℕ) (s : MarketDb) (lead : LeadRow) (profile : ProfileRow)
    → is_bought lead.id s.purchases ≡ false
    → find? (λ (p : ProfileRow). p.user_id == u) s.credit.profiles ≡ some profile
    → 0 < lead.price_cents
    → Returns
        (BuyIs s lead profile.id listing_id
          (current_price_cents lead.price_cents lead.half_price_at at)
          at
          (ltb_ℤ
            (balance_in s.credit.ledger profile.id)
            (pos (current_price_cents lead.price_cents lead.half_price_at at))))
        (buy_open (owner u) lead profile.id listing_id at s)
unfolding buy_open
buy_open-Returns u listing_id at s lead profile free found some_price =
    let price = current_price_cents lead.price_cents lead.half_price_at at in
    (Total-bind _ _ _
        (total-debit s.purchases s.credit.ledger (owner u) profile.id price lead.id
          (half_positive lead.price_cents lead.half_price_at at some_price))
        (λ d. buy_open-BuyIs s (owner u) lead profile.id listing_id at price free d _)).at
      s (acts_for_own u s.credit profile found, (refl, refl))

-- If the invariant holds, the user has the profile, the listing is published and the profile's, the
-- lead is open at the time of the call and has a positive price, then `buyLead` returns. If the
-- balance is lower than the current price, it answers `insufficient` with the balance and the price
-- and leaves the leads, the purchases, the standing orders and the ledger as they were. Otherwise
-- the lead is bought: its row has the status sold, the time, the listing and a buyer or none, the
-- new rows are one purchase at the current price and one row of the ledger for it, and the other
-- leads and the standing orders are as they were.
pub buy_lead_returns :
    (u lead_id listing_id at : ℕ) (s : MarketDb) (lead : LeadRow) (profile : ProfileRow)
    → IsConsistent s.leads s.purchases s.credit.ledger s.refunds s.orders s.blocklist
    → find? (λ (p : ProfileRow). p.user_id == u) s.credit.profiles ≡ some profile
    → any (is_own_published profile.id listing_id) s.listings ≡ true
    → open_lead at (find_lead lead_id s) ≡ some lead
    → 0 < lead.price_cents
    → (r : BuyResult) × ((s' : MarketDb) × ((buy_lead (owner u) lead_id listing_id at s ≡ ok r s')
          × (BuyIs s lead profile.id listing_id
                (current_price_cents lead.price_cents lead.half_price_at at)
                at
                (ltb_ℤ
                  (balance_in s.credit.ledger profile.id)
                  (pos (current_price_cents lead.price_cents lead.half_price_at at)))
                r
                s'
              × Leaves s.leads s.orders lead listing_id at r s')))
buy_lead_returns u lead_id listing_id at s lead profile h found own e some_price =
    let (r, (s', (run, is))) = result_of (buy_open (owner u) lead profile.id listing_id at s) (
      buy_open-Returns u listing_id at s lead profile (open_lead-unbought s lead_id at lead h e)
        found some_price) in
    let left = returned _ run (
      (buy_open-Leaves s.leads s.orders (owner u) lead profile.id listing_id at).at s
        (refl, refl)) in
    (
      r,
      (
        s',
        (buy_lead-buy_open u lead_id listing_id at s lead profile found own e ∙ run, (is, left)),
      ),
    )

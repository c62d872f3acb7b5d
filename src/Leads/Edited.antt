-- ===== src/Leads/Edited.antt =====
-- The sweep and the deletions keep the invariant.
use directory_platform.Common.{
  ℕ, filter, ◌≡◌, refl, sym, arith, true, false, not, Option, none, some, List, ◌==◌, ==→eq, All,
  All-update, All-filter, All-find?,
}
use directory_platform.Store.Rows.{Viewer}
use directory_platform.Leads.Rows.{
  LeadRow, LeadStatus, is_open, is_sold, is_expired, is_deleted, MarketDb,
}
use directory_platform.Leads.Tx.{pure, on_option}
use directory_platform.Leads.Sale.{open_status, find_lead}
use directory_platform.Leads.Refunds.{sold_status}
use directory_platform.Leads.Sweep.{
  lapses, expired_row, goes, purges, purged_row, expire_leads, drop_leads, purge_leads, sweep_leads,
  not_found, deleted_row, delete_unsold, delete_by_status, admin_delete_lead,
}
use directory_platform.Leads.Triple.{
  Triple, Keeps, Keeps-pure, Keeps-gets, Triple-gets, Triple-pure, Triple-bind, Keeps-bind,
  Triple-modify, Triple-weaken,
}
use directory_platform.Leads.Frame.{frame-write_audit, frame-assert_admin}
use directory_platform.Leads.Consistent.{IsConsistent, grown, SoldIfBought, is_bought}
use directory_platform.Leads.Keeps.{Invariant}
use directory_platform.Leads.Reported.{with_blocks}

-- The leads may change as long as no lead that is not sold has a purchase.
with_leads :
    (s : MarketDb) (ls : List LeadRow)
    → All (SoldIfBought s.purchases) ls
    → Invariant s
    → Invariant (record s { leads = ls })
with_leads s ls k h = record {
  once = h.once;
  sold = k;
  paid = h.paid;
  refunded = h.refunded;
  limited = h.limited;
}

open_unsold : (st : LeadStatus) → open_status st ≡ true → sold_status st ≡ false
open_unsold st h = ground arith

module _ (v : Viewer) (at : ℕ) where
  expire-Invariant : (s : MarketDb) → Invariant s → Invariant (expire_leads at s)
  expire-Invariant s h =
      with_leads s _
        (All-update (SoldIfBought s.purchases) (lapses at) (expired_row at) s.leads
          (λ l e k n. k (open_unsold l.status (ground arith))) h.sold)
        h

  purge-Invariant : (s : MarketDb) → Invariant s → Invariant (purge_leads at s)
  purge-Invariant s h =
      with_leads s _
        (All-update (SoldIfBought s.purchases) (purges at s) (purged_row at) s.leads
          (λ l e k n. k n) h.sold)
        h

  drop-Invariant : (s : MarketDb) → Invariant s → Invariant (drop_leads at s)
  drop-Invariant s h =
      with_blocks (record s { leads = filter (λ l. not (goes at s l)) s.leads }) _
        (with_leads s _
          (All-filter (SoldIfBought s.purchases) (λ l. not (goes at s l)) s.leads h.sold) h)

  pub sweep_leads-Keeps : Keeps Invariant (sweep_leads v at)
  unfolding sweep_leads
  sweep_leads-Keeps = Keeps-bind _ _ (frame-assert_admin IsConsistent grown v) λ _.
      Keeps-bind _ _ (Keeps-gets _) λ a. Keeps-bind _ _ (Triple-modify _ expire-Invariant) λ _.
        Keeps-bind _ _ (Keeps-gets _) λ b. Keeps-bind _ _ (Triple-modify _ drop-Invariant) λ _.
          Keeps-bind _ _ (Keeps-gets _)
            λ c. Keeps-bind _ _ (Triple-modify _ purge-Invariant) λ _. Keeps-pure _

  -- The lead with that id has no purchase.
  abbrev Unbought : ℕ → MarketDb → Type 0
  Unbought lead_id s = Invariant s × (is_bought lead_id s.purchases ≡ false)

  delete_unsold-Keeps :
      (lead_id : ℕ) (from : LeadStatus)
      → Triple (Unbought lead_id) (delete_unsold v lead_id at from) (λ _. Invariant)
  unfolding delete_unsold
  delete_unsold-Keeps lead_id from =
      Triple-bind (λ _. Invariant) _ _
        (Triple-modify _ λ s h.
          with_leads s _
            (All-update (SoldIfBought s.purchases) (λ l. l.id == lead_id) (deleted_row at) s.leads
              (λ l e k n. rw (==→eq l.id lead_id e) h.1) h.0.sold)
            h.0)
        λ _. Keeps-bind _ _ (frame-write_audit IsConsistent grown v _ _) λ _. Keeps-pure _

  delete_by_status-Keeps :
      (lead_id : ℕ) (st : LeadStatus)
      → Triple
          (λ s. Invariant s × (sold_status st ≡ false → is_bought lead_id s.purchases ≡ false))
          (delete_by_status v lead_id at st)
          (λ _. Invariant)
  unfolding delete_by_status
  delete_by_status-Keeps lead_id is_deleted = Triple-pure _ (λ s h. h.0)
  delete_by_status-Keeps lead_id is_sold = Triple-pure _ (λ s h. h.0)
  delete_by_status-Keeps lead_id is_open =
      Triple-weaken (λ s h. (h.0, h.1 refl)) (λ a s h. h) (delete_unsold-Keeps lead_id is_open)
  delete_by_status-Keeps lead_id is_expired =
      Triple-weaken (λ s h. (h.0, h.1 refl)) (λ a s h. h) (delete_unsold-Keeps lead_id is_expired)

  found_unbought :
      (lead_id : ℕ) (l : LeadRow) (s : MarketDb)
      → Invariant s
      → find_lead lead_id s ≡ some l
      → sold_status l.status ≡ false
      → is_bought lead_id s.purchases ≡ false
  found_unbought lead_id l s h e n =
      let (k, same) =
        All-find? (SoldIfBought s.purchases) (λ l. l.id == lead_id) s.leads l h.sold e in
      rw (sym (==→eq l.id lead_id same)) (k n)

  pub admin_delete_lead-Keeps : (lead_id : ℕ) → Keeps Invariant (admin_delete_lead v lead_id at)
  unfolding admin_delete_lead on_option
  admin_delete_lead-Keeps lead_id =
      Keeps-bind _ _ (frame-assert_admin IsConsistent grown v)
        λ _. Triple-bind _ _ _ (Triple-gets _) λ found. by_lead found
    where
      by_lead :
          (found : Option LeadRow)
          → Triple
              (λ s. Invariant s × (found ≡ find_lead lead_id s))
              (on_option found (pure not_found) λ l. delete_by_status v lead_id at l.status)
              (λ _. Invariant)
      by_lead none = Triple-pure _ (λ s h. h.0)
      by_lead (some l) =
          Triple-weaken (λ s h. (h.0, found_unbought lead_id l s h.0 (sym h.1))) (λ a s h. h)
            (delete_by_status-Keeps lead_id l.status)

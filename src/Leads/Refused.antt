-- ===== src/Leads/Refused.antt =====
-- After a report is approved for a reason that blocks, the lead's phone and address make no lead for
-- a year (`decideRefund`, lib/db/queries/lead-market.ts; `checkLeadRules`, lib/leads/rules.ts).
use directory_platform.Common.{
  ℕ, ◌<◌, ◌≡◌, ◌≢◌, ◌⊎◌, inl, inr, refl, sym, ap, ◌∙◌, subst, arith, Bool, true, false, not, ◌&&◌,
  ◌||◌, Option, none, some, List, if◌then◌else◌, is_none, ℤ,
}
use directory_platform.Store.Rows.{Viewer, public, user, owner, admin}
use directory_platform.Store.Tx.{is_admin}
use directory_platform.Billing.Calendar.{annual, add_interval}
use directory_platform.Leads.{blocklists_on_refund}
use directory_platform.Leads.Rows.{BlockKind, by_phone, by_email, BlockRow, MarketDb}
use directory_platform.Leads.Tx.{ok, pure, on_option, require, assert_admin}
use directory_platform.Leads.Refunds.{
  RefundCase, RefundDecision, approved, not_found, already_decided, note_required, decided_row,
  set_refund, DecisionInput, refund_case, pending_refund, block_key, block_lead, decision_actor,
  finish_decision, carry_out, decide_case, decide_refund,
}
use directory_platform.Leads.Create.{
  LeadTexts, blocklisted, disposable_email, blocks, is_blocked, check_known, check_phone,
  check_lead_rules,
}
use directory_platform.Leads.Triple.{
  Triple, Triple-pure, Triple-bind, Triple-modify, Triple-gets, Triple-if, Triple-given,
  Triple-weaken, Keeps, Keeps-pure, Triple-throw, returned,
}
use directory_platform.Leads.Frame.{
  Tables, frame-profile_unless_nil, frame-write_audit, frame-enqueue_job, frame-refund,
}
use directory_platform.Leads.Blocked.{holds_key, BlocksAt, any_weaken, block-keeps, block-BlocksAt}

-- The lead's phone is this one, or its address is.
abbrev pub SharesKey : RefundCase → ℕ → ℕ → Type 0
SharesKey c phone email =
    (c.lead.phone_normalised ≡ some phone) ⊎ (c.lead.email_normalised ≡ some email)

block_key-BlocksAt :
    (c : RefundCase) (kind : BlockKind) (value until later : ℕ) (o : Option ℕ)
    (rows : List BlockRow)
    → later < until
    → o ≡ some value
    → BlocksAt later kind value (block_key kind o c.refund.reason c.lead.id until rows)
unfolding block_key
block_key-BlocksAt c kind value until later o rows h e =
    subst (λ k. BlocksAt later kind value (block_key kind k c.refund.reason c.lead.id until rows))
      (sym e) (block-BlocksAt c.refund.reason c.lead.id until later kind value rows h)

block_key-keeps :
    (c : RefundCase) (kind other : BlockKind) (key until later : ℕ) (o : Option ℕ)
    (rows : List BlockRow)
    → BlocksAt later other key rows
    → BlocksAt later other key (block_key kind o c.refund.reason c.lead.id until rows)
unfolding block_key
block_key-keeps c kind other key until later none rows h = h
block_key-keeps c kind other key until later (some value) rows h =
    block-keeps c.refund.reason c.lead.id until later kind other value key rows h

either_left : (a b t : Bool) → (a && t) ≡ true → ((a || b) && t) ≡ true
either_left a b t h = ground arith

either_right : (a b t : Bool) → (b && t) ≡ true → ((a || b) && t) ≡ true
either_right a b t h = ground arith

block_lead-blocks :
    (c : RefundCase) (phone email until later : ℕ) (rows : List BlockRow)
    → blocklists_on_refund c.refund.reason ≡ true
    → SharesKey c phone email
    → later < until
    → is_blocked phone email later (block_lead c until rows) ≡ true
unfolding block_lead
block_lead-blocks c phone email until later rows b key h = rw b (by_key key)
  where
    first : List BlockRow
    first = block_key by_phone c.lead.phone_normalised c.refund.reason c.lead.id until rows

    by_key :
        SharesKey c phone email
        → is_blocked phone email later
            (block_key by_email c.lead.email_normalised c.refund.reason c.lead.id until first)
          ≡ true
    by_key (inl e) =
        any_weaken _ (holds_key later by_phone phone)
          (block_key by_email c.lead.email_normalised c.refund.reason c.lead.id until first)
          (λ b k. either_left (blocks by_phone phone b) (blocks by_email email b) _ k)
          (block_key-keeps c by_email by_phone phone until later c.lead.email_normalised first
            (block_key-BlocksAt c by_phone phone until later c.lead.phone_normalised rows h e))
    by_key (inr e) =
        any_weaken _ (holds_key later by_email email)
          (block_key by_email c.lead.email_normalised c.refund.reason c.lead.id until first)
          (λ b k. either_right (blocks by_phone phone b) (blocks by_email email b) _ k)
          (block_key-BlocksAt c by_email email until later c.lead.email_normalised first h e)

-- What an approval leaves in the block list.
abbrev BlockedBy : List BlockRow → ℕ → Option RefundCase → List BlockRow → Type 0
BlockedBy rows at none bl = ⊥
BlockedBy rows at (some c) bl = bl ≡ block_lead c (add_interval at annual) rows

abbrev Blocked : List BlockRow → Option RefundCase → ℕ → RefundDecision → MarketDb → Type 0
Blocked rows found at (approved balance) s = BlockedBy rows at found s.blocklist
Blocked rows found at _ s = Unit

module _ (v : Viewer) (input : DecisionInput) (at : ℕ) (rows : List BlockRow) where
  abbrev Rows : List BlockRow → Tables
  Rows bl _ _ _ _ _ now_bl = now_bl ≡ bl

  finish_decision-Keeps :
      (bl : List BlockRow) (c : RefundCase) (approve any_key : Bool)
      → Keeps (λ s. s.blocklist ≡ bl) (finish_decision v c approve any_key)
  unfolding finish_decision
  finish_decision-Keeps bl c approve any_key =
      Triple-bind _ _ _ (frame-write_audit (Rows bl) (λ r s h. h) v _ _)
        λ _. frame-enqueue_job (Rows bl) (λ r s h. h) _

  decision_actor-Keeps : (w : Viewer) → Keeps (λ s. s.blocklist ≡ rows) (decision_actor w)
  unfolding decision_actor
  decision_actor-Keeps (admin u) = frame-profile_unless_nil (Rows rows) (λ r s h. h) u
  decision_actor-Keeps public = Keeps-pure none
  decision_actor-Keeps (user u) = Keeps-pure none
  decision_actor-Keeps (owner u) = Keeps-pure none

  carry_out-Blocked :
      (c : RefundCase) (b : Bool)
      → Triple (λ s. s.blocklist ≡ rows) (carry_out v input at c b) (Blocked rows (some c) at)
  unfolding carry_out
  carry_out-Blocked c false =
      Triple-bind _ _ _ (finish_decision-Keeps rows c false false) λ _. Triple-pure _ (λ s h. tt)
  carry_out-Blocked c true =
      let bl = block_lead c (add_interval at annual) rows in
      Triple-bind _ _ _ (frame-refund (Rows rows) (λ r s h. h) v _ _ _ _) λ back.
        Triple-bind (λ _ s. s.blocklist ≡ bl) _ _
          (Triple-modify {Q = λ s. s.blocklist ≡ bl} _
            (λ s h. ap (block_lead c (add_interval at annual)) h))
          λ _.
            Triple-bind _ _ _ (finish_decision-Keeps bl c true _)
              λ _. Triple-pure (approved back.balance_cents) (λ s h. h)

  decide_case-Blocked :
      (c : RefundCase)
      → Triple (λ s. s.blocklist ≡ rows) (decide_case v input at c) (Blocked rows (some c) at)
  unfolding decide_case
  decide_case-Blocked c = Triple-bind _ _ _ (decision_actor-Keeps v) λ actor.
      Triple-bind (λ _ s. s.blocklist ≡ rows) _ _
        (Triple-modify {Q = λ s. s.blocklist ≡ rows}
          (set_refund c.refund.id (decided_row input actor at)) (λ s h. h))
        λ _. carry_out-Blocked c input.approve

  by_case :
      (found : Option RefundCase)
      → Triple
          (λ s. s.blocklist ≡ rows)
          (on_option found (pure not_found) λ c.
            if not (pending_refund c.refund.status)
            then pure already_decided
            else decide_case v input at c)
          (Blocked rows found at)
  unfolding on_option
  by_case none = Triple-pure not_found (λ s h. tt)
  by_case (some c) =
      Triple-if (not (pending_refund c.refund.status)) (pure already_decided) _
        (λ _. Triple-pure already_decided (λ s h. tt)) (λ _. decide_case-Blocked c)

  decide_refund-Blocked :
      (refund_id : ℕ) (found : Option RefundCase)
      → Triple
          (λ s. (refund_case refund_id s ≡ found) × (s.blocklist ≡ rows))
          (decide_refund v refund_id input at)
          (Blocked rows found at)
  unfolding decide_refund assert_admin require
  decide_refund-Blocked refund_id found =
      Triple-bind (λ _ s. (refund_case refund_id s ≡ found) × (s.blocklist ≡ rows)) _ _
        (Triple-if (is_admin v) _ _ (λ _. Triple-pure tt (λ s h. h)) (λ _. Triple-throw _))
        λ _.
          Triple-if (not input.approve && is_none input.note) (pure note_required) _
            (λ _. Triple-pure note_required (λ s h. tt))
            λ _.
              Triple-bind (λ o s. (found ≡ o) × (s.blocklist ≡ rows)) _ _
                (Triple-weaken (λ s h. h) (λ o s h. (sym (h.1 ∙ h.0.0), h.0.1))
                  (Triple-gets (refund_case refund_id)))
                λ o. Triple-given λ same.
                  subst
                    (λ f.
                      Triple (λ s. s.blocklist ≡ rows)
                        (on_option o (pure not_found) λ c.
                          if not (pending_refund c.refund.status)
                          then pure already_decided
                          else decide_case v input at c)
                        (Blocked rows f at))
                    (sym same) (by_case o)

rules_refuse :
    (texts : LeadTexts) (phone email later : ℕ) (typed : Option ℕ) (s : MarketDb)
    → texts.normalise_phone typed ≡ some phone
    → is_blocked phone (texts.normalise_email email) later s.blocklist ≡ true
    → check_lead_rules texts email typed later s ≢ none
unfolding check_lead_rules check_phone check_known
rules_refuse texts phone email later typed s e b = rw (e, b) (by_test (texts.is_disposable email))
  where
    by_test : (d : Bool) → (if d then some disposable_email else some blocklisted) ≢ none
    by_test true k = cc
    by_test false k = cc

-- When `decideRefund` approves a report whose reason blocks, then until a year after the decision
-- `checkLeadRules` refuses every lead whose phone normalises, if it normalises to the reported lead's
-- phone or the address normalises to the reported lead's address.
pub decide_refund_blocks :
    (v : Viewer) (refund_id at : ℕ) (input : DecisionInput) (balance : ℤ) (s s' : MarketDb)
    (c : RefundCase) (texts : LeadTexts) (phone email later : ℕ) (typed : Option ℕ)
    → refund_case refund_id s ≡ some c
    → decide_refund v refund_id input at s ≡ ok (approved balance) s'
    → blocklists_on_refund c.refund.reason ≡ true
    → texts.normalise_phone typed ≡ some phone
    → SharesKey c phone (texts.normalise_email email)
    → later < add_interval at annual
    → check_lead_rules texts email typed later s' ≢ none
decide_refund_blocks v refund_id at input balance s s' c texts phone email later typed found run b e
      key h =
    let rows =
      returned (Blocked s.blocklist (some c) at) run
        ((decide_refund-Blocked v input at s.blocklist refund_id (some c)).at s (found, refl)) in
    rules_refuse texts phone email later typed s' e (
      subst (λ bl. is_blocked phone (texts.normalise_email email) later bl ≡ true) (sym rows)
        (block_lead-blocks c phone (texts.normalise_email email) (add_interval at annual) later
          s.blocklist b key h))

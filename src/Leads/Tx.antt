-- ===== src/Leads/Tx.antt =====
-- A transaction on the lead market: it reads and writes the state, or throws, and then nothing of
-- it is kept. What the ledger's operations do is lifted to it.
use directory_platform.Common.{
  ℕ, ◌+◌, Bool, not, Option, none, some, List, [], ◌∷◌, ◌==◌, if◌then◌else◌, pos,
}
use directory_platform.Store.Rows.{Viewer, public, user, owner, admin}
use directory_platform.Store.Tx.{is_admin, is_public}
use directory_platform.Credits.{
  CreditDb, CreditFailure, forbidden, insufficient_credit, CreditResult, ensure_profile,
}
use directory_platform.Credits.Operations.{Posted, debit_for_purchase}
use directory_platform.Common.{ℤ}
use directory_platform.Leads.Rows.{MarketDb, LeadAction, LeadJob}

pub data MarketResult (A : Type 0) : Type 0 where
  ok : A → MarketDb → MarketResult A
  err : CreditFailure → MarketResult A

abbrev pub Market : Type 0 → Type 0
Market A = MarketDb → MarketResult A

abbrev pub ⊤ : Type 0
⊤ = Unit {0}

module _ {A : Type 0} where
  unfoldable pub pure : A → Market A
  pure a s = ok a s

  unfoldable pub throw : CreditFailure → Market A
  throw e s = err e

  unfoldable pub gets : (MarketDb → A) → Market A
  gets f s = ok (f s) s

abbrev pub continue : {A B : Type 0} → MarketResult A → (A → Market B) → MarketResult B
continue (ok a s) f = f a s
continue (err e) f = err e

infixl 5 ◌>>=◌ ◌>>◌
unfoldable pub ◌>>=◌ : {A B : Type 0} → Market A → (A → Market B) → Market B
◌>>=◌ m f s = continue (m s) f

abbrev pub ◌>>◌ : {A B : Type 0} → Market A → Market B → Market B
m >> k = m >>= λ _. k

unfoldable pub modify : (MarketDb → MarketDb) → Market ⊤
modify f s = ok tt (f s)

-- `if (x === null) return m;` and the rest of the block with `x`
unfoldable pub on_option : {A B : Type 0} → Option A → Market B → (A → Market B) → Market B
on_option none m f = m
on_option (some a) m f = f a

-- `if (!b) throw new Error("FORBIDDEN")`
unfoldable pub require : Bool → Market ⊤
require b = if b then pure tt else throw forbidden

unfoldable pub assert_signed_in : Viewer → Market ⊤
unfolding require pure throw
assert_signed_in viewer = require (not (is_public viewer))

unfoldable pub assert_admin : Viewer → Market ⊤
unfolding require pure throw
assert_admin viewer = require (is_admin viewer)

-- what an operation on the ledger did
abbrev pub lifted : {A : Type 0} → MarketDb → CreditResult A → MarketResult A
lifted s (CreditResult.ok a c) = ok a (record s { credit = c })
lifted s (CreditResult.err e) = err e

unfoldable pub on_credit : {A : Type 0} → (CreditDb → CreditResult A) → Market A
on_credit op s = lifted s (op s.credit)

-- `debitForPurchase` and the `catch` around it
pub data Debit : Type 0 where
  paid : Posted → Debit
  short : ℤ → ℤ → Debit

-- The debit refuses before it writes, so a caught refusal has written nothing.
abbrev pub caught : MarketDb → CreditResult Posted → MarketResult Debit
caught s (CreditResult.ok p c) = ok (paid p) (record s { credit = c })
caught s (CreditResult.err (insufficient_credit balance needed)) = ok (short balance needed) s
caught s (CreditResult.err e) = err e

unfoldable pub try_debit : Viewer → ℕ → ℕ → ℕ → Market Debit
try_debit viewer user_id cents lead_id s =
    caught s (debit_for_purchase viewer user_id (pos cents) lead_id s.credit)

-- an id that the database draws for a new row
unfoldable pub fresh_id : Market ℕ
fresh_id s =
    ok (s.credit.uuid s.credit.drawn)
      (record s { credit = record s.credit { drawn = s.credit.drawn + 1 } })

unfoldable pub own_profile : Viewer → Market ℕ
unfolding throw
own_profile public = throw forbidden
own_profile (user u) = on_credit (ensure_profile u)
own_profile (owner u) = on_credit (ensure_profile u)
own_profile (admin u) = on_credit (ensure_profile u)

-- the profile of a signed-in user; the nil uuid, here 0, records nobody
unfoldable pub profile_unless_nil : ℕ → Market (Option ℕ)
unfolding pure ◌>>=◌
profile_unless_nil u =
    if u == 0 then pure none else do id ← on_credit (ensure_profile u); pure (some id)

unfoldable pub audit_actor : Viewer → Market (Option ℕ)
unfolding pure
audit_actor public = pure none
audit_actor (user u) = profile_unless_nil u
audit_actor (owner u) = profile_unless_nil u
audit_actor (admin u) = profile_unless_nil u

-- `writeAudit`
unfoldable pub write_audit : Viewer → LeadAction → ℕ → Market ⊤
unfolding ◌>>=◌ modify
write_audit viewer action entity_id = do
  actor ← audit_actor viewer
  modify λ s. record s {
    audit_log = record { action = action; entity_id = entity_id; actor_id = actor } ∷ s.audit_log;
  }

unfoldable pub enqueue_job : LeadJob → Market ⊤
unfolding modify
enqueue_job job = modify λ s. record s { jobs = job ∷ s.jobs }

-- `for (const x of xs) await f(x)`
unfoldable pub for_each : {A : Type 0} → List A → (A → Market ⊤) → Market ⊤
unfolding pure ◌>>=◌
for_each [] f = pure tt
for_each (x ∷ xs) f = f x >> for_each xs f

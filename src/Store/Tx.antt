-- ===== src/Store/Tx.antt =====
-- A transaction: it reads and writes the database, or throws, and then nothing of it is kept but
-- what PayPal was asked.
use directory_platform.Common.{
  ℕ, ◌+◌, not, ◌++◌, Bool, true, false, Option, none, some, List, [], ◌∷◌, if◌then◌else◌,
}
use directory_platform.Store.Rows.{Db, Viewer, public, admin, AuditAction, Job, ProviderCall}

-- What can be thrown: a viewer without the right, a unique index, PayPal, a row that vanished.
pub data Failure : Type 0 where
  forbidden conflict provider_failed vanished : Failure

pub data Result (A : Type 0) : Type 0 where
  ok : A → Result A
  -- with what PayPal had been asked until then
  err : Failure → List ProviderCall → Result A

abbrev pub Tx : Type 0 → Type 0
Tx A = Db → Result (A × Db)

abbrev pub ⊤ : Type 0
⊤ = Unit {0}

module _ {A : Type 0} where
  unfoldable pub pure : A → Tx A
  pure a s = ok (a, s)

  unfoldable pub throw : Failure → Tx A
  throw e s = err e s.calls

  unfoldable pub gets : (Db → A) → Tx A
  gets f s = ok (f s, s)

-- the rest of a block, after a step's result
abbrev pub continue : {A B : Type 0} → Result (A × Db) → (A → Tx B) → Result (B × Db)
continue (ok (a, s)) f = f a s
continue (err e calls) f = err e calls

infixl 5 ◌>>=◌ ◌>>◌
unfoldable pub ◌>>=◌ : {A B : Type 0} → Tx A → (A → Tx B) → Tx B
◌>>=◌ m f s = continue (m s) f

abbrev pub ◌>>◌ : {A B : Type 0} → Tx A → Tx B → Tx B
m >> k = m >>= λ _. k

-- `if (x === null) return m;` and the rest of the block with `x`
unfoldable pub on_option : {A B : Type 0} → Option A → Tx B → (A → Tx B) → Tx B
on_option none m f = m
on_option (some a) m f = f a

unfoldable pub modify : (Db → Db) → Tx ⊤
modify f s = ok (tt, f s)

-- `if (!b) throw e`
unfoldable pub require : Bool → Failure → Tx ⊤
unfolding pure throw
require b e = if b then pure tt else throw e

-- `for (const x of xs) await f(x)`
unfoldable pub for_each : {A : Type 0} → List A → (A → Tx ⊤) → Tx ⊤
unfolding pure ◌>>=◌
for_each [] f = pure tt
for_each (x ∷ xs) f = f x >> for_each xs f

-- the same, keeping what each round pushes
unfoldable pub collect : {A B : Type 0} → List A → (A → Tx (List B)) → Tx (List B)
unfolding pure ◌>>=◌
collect [] f = pure []
collect (x ∷ xs) f = do here ← f x; rest ← collect xs f; pure (here ++ rest)

-- `assertWorker` and `assertSignedIn`
abbrev pub is_admin : Viewer → Bool
is_admin (admin u) = true
is_admin _ = false

abbrev pub is_public : Viewer → Bool
is_public public = true
is_public _ = false

unfoldable pub assert_worker : Viewer → Tx ⊤
unfolding require
assert_worker v = require (is_admin v) forbidden

unfoldable pub assert_signed_in : Viewer → Tx ⊤
unfolding require
assert_signed_in v = require (not (is_public v)) forbidden

-- The id of a row that is being inserted.
unfoldable pub fresh_id : Tx ℕ
fresh_id s = ok (s.uuid s.drawn, record s { drawn = s.drawn + 1 })

-- `writeAuditAs`
unfoldable pub write_audit_as : Option ℕ → AuditAction → ℕ → Option ℕ → Tx ⊤
unfolding modify
write_audit_as actor action entity ip = modify λ s. record s {
  audit_log =
      record { action = action; entity_id = entity; actor_id = actor; ip = ip } ∷ s.audit_log;
}

-- `enqueueJob`
unfoldable pub enqueue_job : Job → Tx ⊤
unfolding modify
enqueue_job job = modify λ s. record s { jobs = job ∷ s.jobs }

-- PayPal is asked for something, and what it answers depends on all that it was asked before;
-- `none` is an answer that the client throws at.
unfoldable pub ask_provider : {A : Type 0} → ProviderCall → (List ProviderCall → Option A) → Tx A
ask_provider call answer s = elim (answer s.calls) [
  | none ↦ err provider_failed (call ∷ s.calls)
  | some a ↦ ok (a, record s { calls = call ∷ s.calls })
]

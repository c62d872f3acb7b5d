-- ===== src/Leads/Triple.antt =====
-- Before and after a transaction on the lead market: rules for its steps.
use directory_platform.Common.{◌≡◌, refl, Bool, true, false, Option, none, some, if◌then◌else◌}
use directory_platform.Credits.{CreditFailure}
use directory_platform.Leads.Rows.{MarketDb}
use directory_platform.Leads.Tx.{
  MarketResult, ok, err, Market, pure, throw, gets, continue, ◌>>=◌, on_option, modify, require,
}

-- What holds of a transaction that ends well.
abbrev pub Ends : {A : Type 0} → (A → MarketDb → Type 0) → MarketResult A → Type 0
Ends Q (ok a s) = Q a s
Ends Q (err e) = Unit

pub record Triple {A : Type 0} (P : MarketDb → Type 0) (m : Market A) (Q : A → MarketDb → Type 0)
    : Type 0 where
  pub at : (s : MarketDb) → P s → Ends Q (m s)

abbrev pub Keeps : {A : Type 0} → (MarketDb → Type 0) → Market A → Type 0
Keeps P m = Triple P m (λ _. P)

module _ {A : Type 0} {P : MarketDb → Type 0} where
  pub Triple-pure :
      {Q : A → MarketDb → Type 0} (a : A) → ((s : MarketDb) → P s → Q a s) → Triple P (pure a) Q
  unfolding pure
  Triple-pure a h = record { at = h }

  pub Keeps-pure : (a : A) → Keeps P (pure a)
  Keeps-pure a = Triple-pure a (λ s h. h)

  pub Triple-throw : {Q : A → MarketDb → Type 0} (e : CreditFailure) → Triple P (throw e) Q
  unfolding throw
  Triple-throw e = record { at = λ s h. tt }

  pub Keeps-gets : (f : MarketDb → A) → Keeps P (gets f)
  unfolding gets
  Keeps-gets f = record { at = λ s h. h }

  -- the value that is read, and where it comes from
  pub Triple-gets : (f : MarketDb → A) → Triple P (gets f) (λ a s. P s × (a ≡ f s))
  unfolding gets
  Triple-gets f = record { at = λ s h. (h, refl) }

  pub Triple-if :
      {Q : A → MarketDb → Type 0} (b : Bool) (m n : Market A)
      → (b ≡ true → Triple P m Q)
      → (b ≡ false → Triple P n Q)
      → Triple P (if b then m else n) Q
  Triple-if true m n km kn = km refl
  Triple-if false m n km kn = kn refl

  pub Keeps-if : (b : Bool) (m n : Market A) → Keeps P m → Keeps P n → Keeps P (if b then m else n)
  Keeps-if true m n km kn = km
  Keeps-if false m n km kn = kn

pub Ends-continue :
    {A B : Type 0} {R : A → MarketDb → Type 0} {Q : B → MarketDb → Type 0} (r : MarketResult A)
    (f : A → Market B)
    → Ends R r
    → ((a : A) → Triple (R a) (f a) Q)
    → Ends Q (continue r f)
Ends-continue (ok a s) f h k = (k a).at s h
Ends-continue (err e) f h k = tt

module _ {A B : Type 0} {P : MarketDb → Type 0} where
  pub Keeps-option :
      (o : Option A) (m : Market B) (f : A → Market B)
      → Keeps P m
      → ((a : A) → Keeps P (f a))
      → Keeps P (on_option o m f)
  unfolding on_option
  Keeps-option none m f km kf = km
  Keeps-option (some a) m f km kf = kf a

module _ {A B : Type 0} {P : MarketDb → Type 0} {Q : B → MarketDb → Type 0} where
  pub Triple-bind :
      (R : A → MarketDb → Type 0) (m : Market A) (f : A → Market B)
      → Triple P m R
      → ((a : A) → Triple (R a) (f a) Q)
      → Triple P (m >>= f) Q
  unfolding ◌>>=◌
  Triple-bind R m f km kf = record { at = λ s h. Ends-continue (m s) f (km.at s h) kf }

module _ {A B : Type 0} {P : MarketDb → Type 0} where
  pub Keeps-bind :
      (m : Market A) (f : A → Market B) → Keeps P m → ((a : A) → Keeps P (f a)) → Keeps P (m >>= f)
  Keeps-bind m f km kf = Triple-bind (λ _. P) m f km kf

module _ {P : MarketDb → Type 0} where
  pub Triple-modify :
      {Q : MarketDb → Type 0} (f : MarketDb → MarketDb)
      → ((s : MarketDb) → P s → Q (f s))
      → Triple P (modify f) (λ _. Q)
  unfolding modify
  Triple-modify f h = record { at = h }

  pub Keeps-require : (b : Bool) → Keeps P (require b)
  unfolding require
  Keeps-require b = Keeps-if b (pure tt) (throw _) (Keeps-pure tt) (Triple-throw _)

-- a step may be given less and may promise more
pub Triple-weaken :
    {A : Type 0} {P P' : MarketDb → Type 0} {Q Q' : A → MarketDb → Type 0} {m : Market A}
    → ((s : MarketDb) → P' s → P s)
    → ((a : A) (s : MarketDb) → Q a s → Q' a s)
    → Triple P m Q
    → Triple P' m Q'
Triple-weaken {A} {P} {P'} {Q} {Q'} {m} before after k = record {
  at = λ s h. weaker (m s) (k.at s (before s h));
}
  where
    weaker : (r : MarketResult A) → Ends Q r → Ends Q' r
    weaker (ok a s) h = after a s h
    weaker (err e) h = tt

-- a fact about values, apart from the state
pub Triple-given :
    {A B : Type 0} {P : MarketDb → Type 0} {m : Market A} {Q : A → MarketDb → Type 0}
    → (B → Triple P m Q)
    → Triple (λ s. B × P s) m Q
Triple-given k = record { at = λ s h. (k h.0).at s h.1 }

-- What a run that returned has done.
pub returned :
    {A : Type 0} (Q : A → MarketDb → Type 0) {r : MarketResult A} {a : A} {s : MarketDb}
    → r ≡ ok a s
    → Ends Q r
    → Q a s
returned Q e h = rw e at h

pub ruleset keeps_rules =
    (Keeps-pure, Triple-throw, Keeps-gets, Keeps-if, Keeps-option, Keeps-bind, Keeps-require)

-- ===== src/Store/Triple.antt =====
-- Before and after a transaction: rules for what its steps establish and keep.
use directory_platform.Common.{
  ◌≡◌, refl, Bool, true, false, Option, none, some, List, [], ◌∷◌, if◌then◌else◌,
}
use directory_platform.Store.Rows.{Db}
use directory_platform.Store.Tx.{
  Failure, Result, ok, err, Tx, ⊤, pure, throw, gets, continue, ◌>>=◌, on_option, modify, require,
  for_each, collect,
}

-- What holds of a transaction that ends well; one that throws leaves the database as it was.
abbrev pub Ends : {A : Type 0} → (A → Db → Type 0) → Result (A × Db) → Type 0
Ends Q (ok (a, s)) = Q a s
Ends Q (err e calls) = Unit

-- From a state where `P` holds, `m` ends in one where `Q` holds of its result.
pub record Triple {A : Type 0} (P : Db → Type 0) (m : Tx A) (Q : A → Db → Type 0) : Type 0 where
  pub at : (s : Db) → P s → Ends Q (m s)

-- `m` keeps `P`.
abbrev pub Keeps : {A : Type 0} → (Db → Type 0) → Tx A → Type 0
Keeps P m = Triple P m (λ _. P)

module _ {A : Type 0} {P : Db → Type 0} where
  pub Triple-pure : {Q : A → Db → Type 0} (a : A) → ((s : Db) → P s → Q a s) → Triple P (pure a) Q
  unfolding pure
  Triple-pure a h = record { at = h }

  pub Keeps-pure : (a : A) → Keeps P (pure a)
  unfolding pure
  Keeps-pure a = record { at = λ s h. h }

  pub Triple-throw : {Q : A → Db → Type 0} (e : Failure) → Triple P (throw e) Q
  unfolding throw
  Triple-throw e = record { at = λ s h. tt }

  pub Keeps-gets : (f : Db → A) → Keeps P (gets f)
  unfolding gets
  Keeps-gets f = record { at = λ s h. h }

  pub Triple-if :
      {Q : A → Db → Type 0} (b : Bool) (m n : Tx A)
      → (b ≡ true → Triple P m Q)
      → (b ≡ false → Triple P n Q)
      → Triple P (if b then m else n) Q
  Triple-if true m n km kn = km refl
  Triple-if false m n km kn = kn refl

  pub Keeps-if : (b : Bool) (m n : Tx A) → Keeps P m → Keeps P n → Keeps P (if b then m else n)
  Keeps-if true m n km kn = km
  Keeps-if false m n km kn = kn

pub Ends-continue :
    {A B : Type 0} {R : A → Db → Type 0} {Q : B → Db → Type 0} (r : Result (A × Db)) (f : A → Tx B)
    → Ends R r
    → ((a : A) → Triple (R a) (f a) Q)
    → Ends Q (continue r f)
Ends-continue (ok (a, s)) f h k = (k a).at s h
Ends-continue (err e calls) f h k = tt

module _ {A B : Type 0} {P : Db → Type 0} where
  -- a step that is chosen by an option
  pub Keeps-option :
      (o : Option A) (m : Tx B) (f : A → Tx B)
      → Keeps P m
      → ((a : A) → Keeps P (f a))
      → Keeps P (on_option o m f)
  unfolding on_option
  Keeps-option none m f km kf = km
  Keeps-option (some a) m f km kf = kf a

module _ {A B : Type 0} {P : Db → Type 0} {Q : B → Db → Type 0} where
  -- the same with what the option is
  pub Triple-option :
      (o : Option A) (m : Tx B) (f : A → Tx B)
      → (o ≡ none → Triple P m Q)
      → ((a : A) → o ≡ some a → Triple P (f a) Q)
      → Triple P (on_option o m f) Q
  unfolding on_option
  Triple-option none m f km kf = km refl
  Triple-option (some a) m f km kf = kf a refl

  pub Triple-bind :
      (R : A → Db → Type 0) (m : Tx A) (f : A → Tx B)
      → Triple P m R
      → ((a : A) → Triple (R a) (f a) Q)
      → Triple P (m >>= f) Q
  unfolding ◌>>=◌
  Triple-bind R m f km kf = record { at = λ s h. Ends-continue (m s) f (km.at s h) kf }

module _ {A B : Type 0} {P : Db → Type 0} where
  pub Keeps-bind :
      (m : Tx A) (f : A → Tx B) → Keeps P m → ((a : A) → Keeps P (f a)) → Keeps P (m >>= f)
  Keeps-bind m f km kf = Triple-bind (λ _. P) m f km kf

module _ {P : Db → Type 0} where
  pub Keeps-modify : (f : Db → Db) → ((s : Db) → P s → P (f s)) → Keeps P (modify f)
  unfolding modify
  Keeps-modify f h = record { at = h }

  pub Keeps-require : (b : Bool) (e : Failure) → Keeps P (require b e)
  unfolding require
  Keeps-require b e = Keeps-if b (pure tt) (throw e) (Keeps-pure tt) (Triple-throw e)

module _ {A : Type 0} {P : Db → Type 0} where
  pub Keeps-for_each :
      (xs : List A) (f : A → Tx ⊤) → ((x : A) → Keeps P (f x)) → Keeps P (for_each xs f)
  unfolding for_each
  Keeps-for_each [] f k = Keeps-pure tt
  Keeps-for_each (x ∷ xs) f k =
      Keeps-bind (f x) (λ _. for_each xs f) (k x) (λ _. Keeps-for_each xs f k)

module _ {A B : Type 0} {P : Db → Type 0} where
  pub Keeps-collect :
      (xs : List A) (f : A → Tx (List B)) → ((x : A) → Keeps P (f x)) → Keeps P (collect xs f)
  unfolding collect
  Keeps-collect [] f k = Keeps-pure []
  Keeps-collect (x ∷ xs) f k =
      Keeps-bind (f x) _ (k x)
        λ here. Keeps-bind (collect xs f) _ (Keeps-collect xs f k) λ rest. Keeps-pure _

pub ruleset keeps_rules = (
  Keeps-pure, Triple-throw, Keeps-gets, Keeps-if, Keeps-option, Keeps-bind, Keeps-require,
  Keeps-for_each, Keeps-collect,
)

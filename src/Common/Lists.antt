-- ===== src/Common/Lists.antt =====
-- Lists by native numbers and Boolean tests.
use Prim.Native.Nat.{ℕ, zero, suc, ◌+◌}
use mathlib.Core.Path.{◌≡◌, refl}
use mathlib.Core.Bool.{Bool, true, false, ◌||◌}
use mathlib.Core.Option.{Option, none, some}
use mathlib.Core.List.{List, [], ◌∷◌, ◌++◌}
use native.Mathlib.Omega.{arith}
use directory_platform.Common.Tests.{if◌then◌else◌, ◌==◌, ltb, leb}

module _ {ℓ} {A : Type ℓ} where
  abbrev pub length : List A → ℕ
  length [] = 0
  length (x ∷ xs) = suc (length xs)

  -- `xs.filter(p)`
  abbrev pub filter : (A → Bool) → List A → List A
  filter p [] = []
  filter p (x ∷ xs) = if p x then x ∷ filter p xs else filter p xs

  -- `xs.find(p) ?? null`
  abbrev pub find? : (A → Bool) → List A → Option A
  find? p [] = none
  find? p (x ∷ xs) = if p x then some x else find? p xs

  -- `xs.some(p)`
  abbrev pub any : (A → Bool) → List A → Bool
  any p [] = false
  any p (x ∷ xs) = p x || any p xs

  -- `update … set f where p`
  abbrev pub update : (A → Bool) → (A → A) → List A → List A
  update p f [] = []
  update p f (x ∷ xs) = (if p x then f x else x) ∷ update p f xs

  -- `limit n`
  abbrev pub take : ℕ → List A → List A
  take zero xs = []
  take (suc n) [] = []
  take (suc n) (x ∷ xs) = x ∷ take n xs

  -- `order by key asc`
  abbrev pub insert_by : (A → ℕ) → A → List A → List A
  insert_by key x [] = x ∷ []
  insert_by key x (y ∷ ys) = if ltb (key y) (key x) then y ∷ insert_by key x ys else x ∷ y ∷ ys

  unfoldable pub sort_by : (A → ℕ) → List A → List A
  sort_by key [] = []
  sort_by key (x ∷ xs) = insert_by key x (sort_by key xs)

  -- `order by key desc limit 1`: the last of the rows with the highest key
  abbrev pub latest : (A → ℕ) → List A → Option A
  latest key [] = none
  latest key (x ∷ xs) = later (latest key xs)
    where
      later : Option A → Option A
      later none = some x
      later (some y) = if leb (key x) (key y) then some y else some x

  pub length-append : (xs ys : List A) → length (xs ++ ys) ≡ length xs + length ys
  length-append [] ys = omega arith
  length-append (x ∷ xs) ys = omega (arith, length-append xs ys)

-- `ids.includes(id)`
abbrev pub includes : List ℕ → ℕ → Bool
includes [] a = false
includes (x ∷ xs) a = x == a || includes xs a

-- The values of `new Set(ids)`, in the order of first appearance; `seen` are the ones kept so far.
abbrev pub distinct_from : List ℕ → List ℕ → List ℕ
distinct_from seen [] = []
distinct_from seen (x ∷ xs) =
    if includes seen x then distinct_from seen xs else x ∷ distinct_from (x ∷ seen) xs

abbrev pub distinct : List ℕ → List ℕ
distinct xs = distinct_from [] xs

module _ {ℓ κ} {A : Type ℓ} (P : A → Type κ) where
  abbrev pub All : List A → Type κ
  All [] = Unit
  All (x ∷ xs) = P x × All xs

  pub All-append : (xs ys : List A) → All xs → All ys → All (xs ++ ys)
  All-append [] ys hx hy = hy
  All-append (x ∷ xs) ys hx hy = (hx.0, All-append xs ys hx.1 hy)

  -- An update keeps a property of every row when it keeps it of the rows that it writes.
  pub All-update :
      (p : A → Bool) (f : A → A) (xs : List A)
      → ((x : A) → p x ≡ true → P x → P (f x))
      → All xs
      → All (update p f xs)
  All-update p f [] keep h = tt
  All-update p f (x ∷ xs) keep h = (at_row (p x) refl, All-update p f xs keep h.1)
    where
      at_row : (b : Bool) → p x ≡ b → P (if b then f x else x)
      at_row true e = keep x e h.0
      at_row false e = h.0

  pub All-filter : (p : A → Bool) (xs : List A) → All xs → All (filter p xs)
  All-filter p [] h = tt
  All-filter p (x ∷ xs) h = kept (p x) (All-filter p xs h.1)
    where
      kept : (b : Bool) → All (filter p xs) → All (if b then x ∷ filter p xs else filter p xs)
      kept true r = (h.0, r)
      kept false r = r

  pub All-insert_by : (key : A → ℕ) (x : A) (xs : List A) → P x → All xs → All (insert_by key x xs)
  All-insert_by key x [] p h = (p, tt)
  All-insert_by key x (y ∷ ys) p h = placed (ltb (key y) (key x)) (All-insert_by key x ys p h.1)
    where
      placed :
          (b : Bool)
          → All (insert_by key x ys)
          → All (if b then y ∷ insert_by key x ys else x ∷ y ∷ ys)
      placed true r = (h.0, r)
      placed false r = (p, h)

  pub All-sort_by : (key : A → ℕ) (xs : List A) → All xs → All (sort_by key xs)
  unfolding sort_by
  All-sort_by key [] h = tt
  All-sort_by key (x ∷ xs) h = All-insert_by key x (sort_by key xs) h.0 (All-sort_by key xs h.1)

  -- What `find` returns has the property, and passes the test.
  pub All-find? :
      (p : A → Bool) (xs : List A) (y : A) → All xs → find? p xs ≡ some y → P y × (p y ≡ true)
  All-find? p (x ∷ xs) y h e = ground (arith, All-find? p xs y h.1)
  All-find? p [] y h e = ground arith

-- What `find` returns passes the test.
pub find?_passes {ℓ} :
    {A : Type ℓ} (p : A → Bool) (xs : List A) (y : A) → find? p xs ≡ some y → p y ≡ true
find?_passes p [] y e = ground arith
find?_passes p (x ∷ xs) y e = ground (arith, find?_passes p xs y)

module _ {ℓ κ μ} {A : Type ℓ} (P : A → Type κ) (Q : A → Type μ) where
  pub All-mono : ((x : A) → P x → Q x) → (xs : List A) → All P xs → All Q xs
  All-mono f [] h = tt
  All-mono f (x ∷ xs) h = (f x h.0, All-mono f xs h.1)

  -- An update that gives every row the new property.
  pub All-update_to :
      (p : A → Bool) (f : A → A) (xs : List A)
      → ((x : A) → p x ≡ true → P x → Q (f x))
      → ((x : A) → p x ≡ false → P x → Q x)
      → All P xs
      → All Q (update p f xs)
  All-update_to p f [] hit miss h = tt
  All-update_to p f (x ∷ xs) hit miss h = (at_row (p x) refl, All-update_to p f xs hit miss h.1)
    where
      at_row : (b : Bool) → p x ≡ b → Q (if b then f x else x)
      at_row true e = hit x e h.0
      at_row false e = miss x e h.0

module _ {ℓ κ} {A : Type ℓ} (R : A → A → Type κ) where
  -- Every earlier item is related to every later one.
  abbrev pub Pairwise : List A → Type κ
  Pairwise [] = Unit
  Pairwise (x ∷ xs) = All (R x) xs × Pairwise xs

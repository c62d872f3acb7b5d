-- ===== src/Routing/Registry.antt =====
-- What an allocation does to the registry of slugs (lib/routing/slugs.ts).
use directory_platform.Common.{
  ℕ, zero, suc, ◌+◌, ◌/◌, ◌%◌, ◌≤◌, Bool, true, false, ◌&&◌, Option, none, some, List, [], ◌∷◌,
  ◌++◌, find?, any, ltb, if◌then◌else◌, ◌≡◌, refl, sym, ap, subst, ◌∙◌, inl, inr, arith, All,
  All-append,
}
use directory_platform.Routing.{Text, Unicode, same_text, slugify, is_reserved, is_plain, IsPlain}
use directory_platform.Routing.Shape.{slugify-IsSlug, IsPlain-of_IsSlug}
use directory_platform.Routing.Slugs.{
  Scope, root_scope, region_scope, of_entity, same_scope, SlugRow, RouteDb, ok, err, nothing_left,
  reserved, is_at, claim, SlugInput, claimed_row, number_text, numbered, disambiguated, candidates,
  next_if, first_free, is_empty, allocate_slug,
}

module _ {ℓ} {A : Type ℓ} where
  pub find?-append :
      (p : A → Bool) (xs ys : List A) (r : A) → find? p xs ≡ some r → find? p (xs ++ ys) ≡ some r
  find?-append p [] ys r e = ground arith
  find?-append p (x ∷ xs) ys r e = ground (arith, find?-append p xs ys r)

  pub find?-last :
      (p : A → Bool) (xs : List A) (y : A)
      → any p xs ≡ false
      → p y ≡ true
      → find? p (xs ++ (y ∷ [])) ≡ some y
  find?-last p [] y e h = ground arith
  find?-last p (x ∷ xs) y e h = ground (arith, find?-last p xs y)

  pub any-append : (p : A → Bool) (xs ys : List A) → any p xs ≡ true → any p (xs ++ ys) ≡ true
  any-append p [] ys e = ground arith
  any-append p (x ∷ xs) ys e = ground (arith, any-append p xs ys)

  pub any-last : (p : A → Bool) (xs : List A) (y : A) → p y ≡ true → any p (xs ++ (y ∷ [])) ≡ true
  any-last p [] y e = ground arith
  any-last p (x ∷ xs) y e = ground (arith, any-last p xs y)

pub same_text_self : (s : Text) → same_text s s ≡ true
same_text_self [] = refl
same_text_self (c ∷ s) = ground (arith, same_text_self s)

pub same_text→eq : (s t : Text) → same_text s t ≡ true → s ≡ t
same_text→eq [] [] e = refl
same_text→eq [] (d ∷ t) e = ground arith
same_text→eq (c ∷ s) [] e = ground arith
same_text→eq (c ∷ s) (d ∷ t) e = ground (arith, same_text→eq s t)

pub same_scope_self : (scope : Scope) → same_scope scope scope ≡ true
same_scope_self root_scope = refl
same_scope_self region_scope = refl
same_scope_self (of_entity a) = ground arith

pub same_scope→eq : (a b : Scope) → same_scope a b ≡ true → a ≡ b
same_scope→eq root_scope root_scope e = refl
same_scope→eq root_scope region_scope e = ground arith
same_scope→eq root_scope (of_entity b) e = ground arith
same_scope→eq region_scope root_scope e = ground arith
same_scope→eq region_scope region_scope e = refl
same_scope→eq region_scope (of_entity b) e = ground arith
same_scope→eq (of_entity a) root_scope e = ground arith
same_scope→eq (of_entity a) region_scope e = ground arith
same_scope→eq (of_entity a) (of_entity b) e = ground arith

pub is_at_self : (r : SlugRow) → is_at r.parent_scope r.slug r ≡ true
is_at_self r = ground (arith, same_scope_self r.parent_scope, same_text_self r.slug)

abbrev pub with_row : SlugRow → RouteDb → RouteDb
with_row r s = record s { slugs = s.slugs ++ (r ∷ []) }

pub ok_inj : {A : Type 0} (a b : A) (s t : RouteDb) → ok a s ≡ ok b t → (a ≡ b) × (s ≡ t)
ok_inj a b s t e = (ground arith, ground arith)

-- The slug was free, it passes what every candidate passes, and its row is all that is new.
pub record Claimed (input : SlugInput) (P : Text → Type 0) (slug : Text) (s t : RouteDb)
    : Type 0 where
  pub free : any (is_at input.parent_scope slug) s.slugs ≡ false
  pub passes : P slug
  pub grown : t ≡ with_row (claimed_row input slug) s

first_free-Claimed :
    (input : SlugInput) (P : Text → Type 0) (cs : List Text) (s t : RouteDb) (slug : Text)
    → All P cs
    → first_free input cs s ≡ ok slug t
    → Claimed input P slug s t
unfolding first_free claim
first_free-Claimed input P [] s t slug h e = ground arith
first_free-Claimed input P (c ∷ cs) s t slug h e =
    at_claim (any (is_at input.parent_scope c) s.slugs) refl e
      (first_free-Claimed input P cs s t slug h.1)
  where
    row : SlugRow
    row = claimed_row input c

    at_claim :
        (b : Bool)
        → any (is_at input.parent_scope c) s.slugs ≡ b
        → next_if c (if b then (false, s) else (true, with_row row s)) (first_free input cs)
          ≡ ok slug t
        → (first_free input cs s ≡ ok slug t → Claimed input P slug s t)
        → Claimed input P slug s t
    at_claim true f g rest = rest g
    at_claim false f g rest =
        let same = ok_inj c slug (with_row row s) t g in
        record {
          free = subst (λ x. any (is_at input.parent_scope x) s.slugs ≡ false) same.0 f;
          passes = subst P same.0 h.0;
          grown = sym same.1 ∙ ap (λ x. with_row (claimed_row input x) s) same.0;
        }

plain_code : (c : ℕ) → 48 ≤ c → c ≤ 57 → is_plain c ≡ true
plain_code c h k = ground arith

number_text-IsPlain : (n : ℕ) → n ≤ 99 → IsPlain (number_text n)
number_text-IsPlain n h = at_size (ltb n 10) refl
  where
    tens : IsPlain ((48 + n / 10) ∷ (48 + n % 10) ∷ [])
    tens = (
      plain_code (48 + n / 10) (omega arith) (omega arith),
      (plain_code (48 + n % 10) (omega arith) (omega arith), tt),
    )

    at_size :
        (b : Bool)
        → ltb n 10 ≡ b
        → IsPlain (if b then (48 + n) ∷ [] else (48 + n / 10) ∷ (48 + n % 10) ∷ [])
    at_size true e = (plain_code (48 + n) (omega arith) (ground arith), tt)
    at_size false e = tens

numbered-IsPlain :
    (stem : Text) (count n : ℕ)
    → IsPlain stem
    → n + count ≤ 100
    → All IsPlain (numbered stem count n)
unfolding numbered
numbered-IsPlain stem zero n h k = tt
numbered-IsPlain stem (suc count) n h k = (
  All-append (λ c. is_plain c ≡ true) stem (45 ∷ number_text n) h
      (refl, number_text-IsPlain n (omega arith)),
  numbered-IsPlain stem count (suc n) h (omega arith),
)

slugify-IsPlain : (unicode : Unicode) (input : Text) → IsPlain (slugify unicode input)
slugify-IsPlain unicode input = elim (slugify-IsSlug unicode input) [
  | inl e ↦ subst IsPlain (sym e) tt
  | inr h ↦ IsPlain-of_IsSlug (slugify unicode input) h
]

abbrev IsPlainOption : Option Text → Type 0
IsPlainOption none = Unit
IsPlainOption (some d) = IsPlain d

disambiguated-IsPlain :
    (unicode : Unicode) (input : SlugInput) → IsPlainOption (disambiguated unicode input)
unfolding disambiguated
disambiguated-IsPlain unicode input = slug_with input.disambiguator
  where
    slug_with :
        (d : Option Text)
        → IsPlainOption (disambiguated unicode (record input { disambiguator = d }))
    slug_with none = tt
    slug_with (some []) = tt
    slug_with (some (c ∷ d)) = slugify-IsPlain unicode (input.desired ++ (45 ∷ c ∷ d))

candidates-IsPlain :
    (bare : Text) (with_more : Option Text)
    → IsPlain bare
    → IsPlainOption with_more
    → All IsPlain (candidates bare with_more)
unfolding candidates
candidates-IsPlain bare none h k = (h, numbered-IsPlain bare 49 2 h (omega arith))
candidates-IsPlain bare (some d) h k = (h, at_same (same_text d bare))
  where
    more : All IsPlain (numbered d 49 2)
    more = numbered-IsPlain d 49 2 k (omega arith)

    at_same : (b : Bool) → All IsPlain ((if b then [] else d ∷ []) ++ numbered d 49 2)
    at_same true = more
    at_same false = (k, more)

-- An allocation claims the first candidate that is free.
pub allocate_slug-Claimed :
    (unicode : Unicode) (input : SlugInput) (s t : RouteDb) (slug : Text)
    → allocate_slug unicode input s ≡ ok slug t
    → Claimed input IsPlain slug s t
unfolding allocate_slug
allocate_slug-Claimed unicode input s t slug e =
    at_tests (is_empty (slugify unicode input.desired))
      (same_scope input.parent_scope root_scope
        && is_reserved unicode (slugify unicode input.desired))
      e
  where
    offered : List Text
    offered = candidates (slugify unicode input.desired) (disambiguated unicode input)

    at_tests :
        (a b : Bool)
        → (if a then err nothing_left else if b then err reserved else first_free input offered s)
          ≡ ok slug t
        → Claimed input IsPlain slug s t
    at_tests true b f = ground arith
    at_tests false true f = ground arith
    at_tests false false f =
        first_free-Claimed input IsPlain offered s t slug
          (candidates-IsPlain (slugify unicode input.desired) (disambiguated unicode input)
            (slugify-IsPlain unicode input.desired) (disambiguated-IsPlain unicode input))
          f

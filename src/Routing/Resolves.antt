-- ===== src/Routing/Resolves.antt =====
-- A slug that was allocated resolves, and never is a reserved word (lib/routing/slugs.ts).
use directory_platform.Common.{
  Bool, true, false, some, List, [], ◌∷◌, find?, any, ◌≡◌, refl, sym, ap, subst, ◌∙◌, arith, All,
  All-mono, if◌then◌else◌,
}
use directory_platform.Routing.{
  Text, Unicode, same_text, reserved_slugs, is_reserved, IsPlain, KeepsPlain,
}
use directory_platform.Routing.Slugs.{
  Scope, root_scope, SlugRow, RouteDb, ok, is_at, claim, SlugInput, claimed_row, allocate_slug,
  resolve_slug, static_row, claim_static, seed_reserved_slugs,
}
use directory_platform.Routing.Registry.{
  find?-append, find?-last, any-append, any-last, same_text→eq, is_at_self, with_row, Claimed,
  allocate_slug-Claimed,
}

pub Claimed-resolves :
    (unicode : Unicode) (input : SlugInput) (s t : RouteDb) (slug : Text)
    → KeepsPlain unicode
    → Claimed input IsPlain slug s t
    → resolve_slug unicode input.parent_scope slug t ≡ some (claimed_row input slug)
unfolding resolve_slug
Claimed-resolves unicode input s t slug k c =
    ap (λ x. find? (is_at input.parent_scope x) t.slugs) (k.to_lower_case_plain slug c.passes)
    ∙ ap (λ x. find? (is_at input.parent_scope slug) (x.slugs)) c.grown
    ∙ find?-last (is_at input.parent_scope slug) s.slugs (claimed_row input slug) c.free
        (is_at_self (claimed_row input slug))

Claimed-keeps :
    (unicode : Unicode) (input : SlugInput) (s t : RouteDb) (slug : Text)
    → Claimed input IsPlain slug s t
    → (scope : Scope) (other : Text) (r : SlugRow) → resolve_slug unicode scope other s ≡ some r
    → resolve_slug unicode scope other t ≡ some r
unfolding resolve_slug
Claimed-keeps unicode input s t slug c scope other r e =
    ap (λ x. find? (is_at scope (unicode.to_lower_case other)) (x.slugs)) c.grown
    ∙ find?-append (is_at scope (unicode.to_lower_case other)) s.slugs (claimed_row input slug ∷ [])
        r e

-- The slug that an allocation returns resolves, in its scope, to the entity that it was allocated
-- for, and what resolved before resolves as before, in every scope; where the Unicode functions
-- leave lower-case letters, digits and dashes as they are.
pub allocate_slug-resolve_slug :
    (unicode : Unicode) (input : SlugInput) (s t : RouteDb) (slug : Text)
    → KeepsPlain unicode
    → allocate_slug unicode input s ≡ ok slug t
    → (resolve_slug unicode input.parent_scope slug t ≡ some (claimed_row input slug))
      × ((scope : Scope) (other : Text) (r : SlugRow)
          → resolve_slug unicode scope other s ≡ some r
          → resolve_slug unicode scope other t ≡ some r)
allocate_slug-resolve_slug unicode input s t slug k e =
    let claimed = allocate_slug-Claimed unicode input s t slug e in
    (
      Claimed-resolves unicode input s t slug k claimed,
      Claimed-keeps unicode input s t slug claimed,
    )

-- Every reserved word has a row at the root.
abbrev pub IsSeeded : RouteDb → Type 0
IsSeeded s = All (λ slug. any (is_at root_scope slug) s.slugs ≡ true) reserved_slugs

abbrev claim_if : Bool → SlugRow → RouteDb → Bool × RouteDb
claim_if b r s = if b then (false, s) else (true, with_row r s)

any-claim :
    (p : SlugRow → Bool) (r : SlugRow) (s : RouteDb)
    → any p s.slugs ≡ true
    → any p (claim r s).1.slugs ≡ true
unfolding claim
any-claim p r s e = at_key (any (is_at r.parent_scope r.slug) s.slugs)
  where
    at_key : (b : Bool) → any p ((claim_if b r s).1.slugs) ≡ true
    at_key true = e
    at_key false = any-append p s.slugs (r ∷ []) e

claim-any :
    (r : SlugRow) (s : RouteDb) → any (is_at r.parent_scope r.slug) (claim r s).1.slugs ≡ true
unfolding claim
claim-any r s = at_key (any (is_at r.parent_scope r.slug) s.slugs) refl
  where
    at_key :
        (b : Bool)
        → any (is_at r.parent_scope r.slug) s.slugs ≡ b
        → any (is_at r.parent_scope r.slug) ((claim_if b r s).1.slugs) ≡ true
    at_key true e = e
    at_key false e = any-last (is_at r.parent_scope r.slug) s.slugs r (is_at_self r)

any-claim_static :
    (p : SlugRow → Bool) (words : List Text) (s : RouteDb)
    → any p s.slugs ≡ true
    → any p (claim_static words s).slugs ≡ true
unfolding claim_static
any-claim_static p [] s e = e
any-claim_static p (w ∷ ws) s e =
    any-claim_static p ws (claim (static_row w) s).1 (any-claim p (static_row w) s e)

claim_static-any :
    (words : List Text) (s : RouteDb)
    → All (λ slug. any (is_at root_scope slug) (claim_static words s).slugs ≡ true) words
unfolding claim_static
claim_static-any [] s = tt
claim_static-any (w ∷ ws) s = (
  any-claim_static (is_at root_scope w) ws (claim (static_row w) s).1 (claim-any (static_row w) s),
  claim_static-any ws (claim (static_row w) s).1,
)

pub seed_reserved_slugs-IsSeeded : (s : RouteDb) → IsSeeded (seed_reserved_slugs s)
unfolding seed_reserved_slugs
seed_reserved_slugs-IsSeeded s = claim_static-any reserved_slugs s

-- A word of the list whose key is free would have to be taken.
not_listed :
    (slug : Text) (s : RouteDb) (words : List Text)
    → All (λ w. any (is_at root_scope w) s.slugs ≡ true) words
    → any (is_at root_scope slug) s.slugs ≡ false
    → any (same_text slug) words ≡ false
not_listed slug s [] h e = refl
not_listed slug s (w ∷ ws) h e = at_word (same_text slug w) refl (not_listed slug s ws h.1 e)
  where
    at_word :
        (b : Bool)
        → same_text slug w ≡ b
        → any (same_text slug) ws ≡ false
        → any (same_text slug) (w ∷ ws) ≡ false
    at_word true f r =
        let taken : any (is_at root_scope slug) s.slugs ≡ true =
          subst (λ x. any (is_at root_scope x) s.slugs ≡ true) (sym (same_text→eq slug w f)) h.0 in
        ground (arith, taken, e)
    at_word false f r = ground (arith, f, r)

-- Once every reserved word has its row, an allocation at the root never returns one, not even by
-- its disambiguator, and every reserved word keeps its row; where the Unicode functions leave
-- lower-case letters, digits and dashes as they are.
pub allocate_slug-IsSeeded :
    (unicode : Unicode) (input : SlugInput) (s t : RouteDb) (slug : Text)
    → KeepsPlain unicode
    → IsSeeded s
    → input.parent_scope ≡ root_scope
    → allocate_slug unicode input s ≡ ok slug t
    → (is_reserved unicode slug ≡ false) × IsSeeded t
unfolding is_reserved
allocate_slug-IsSeeded unicode input s t slug k seeded at_root e =
    let c = allocate_slug-Claimed unicode input s t slug e in
    (
      ap (λ x. any (same_text x) reserved_slugs) (k.to_lower_case_plain slug c.passes)
          ∙ not_listed slug s reserved_slugs seeded
              (subst (λ x. any (is_at x slug) s.slugs ≡ false) at_root c.free),
      subst IsSeeded (sym c.grown) (
          All-mono (λ w. any (is_at root_scope w) s.slugs ≡ true)
            (λ w. any (is_at root_scope w) (with_row (claimed_row input slug) s).slugs ≡ true)
            (λ w. any-append (is_at root_scope w) s.slugs (claimed_row input slug ∷ []))
            reserved_slugs seeded),
    )

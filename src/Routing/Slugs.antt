-- ===== src/Routing/Slugs.antt =====
-- The registry of slugs (lib/routing/slugs.ts) and the redirects that a rename leaves behind. The
-- tables of cities, verticals, areas, categories and listings are one list here, of the columns
-- that a rename writes. What throws keeps nothing of the transaction.
use directory_platform.Common.{
  ℕ, zero, suc, ◌+◌, ◌/◌, ◌%◌, Bool, true, false, not, ◌&&◌, Option, none, some, List, [], ◌∷◌,
  ◌++◌, filter, find?, any, update, ltb, ◌==◌, if◌then◌else◌, get_or, option_eq,
}
use directory_platform.Routing.{Text, Unicode, same_text, slugify, reserved_slugs, is_reserved}

-- `ROOT_SCOPE`, `REGION_SCOPE`, or the id of a city or a vertical
pub data Scope : Type 0 where
  root_scope region_scope : Scope
  of_entity : ℕ → Scope

abbrev pub same_scope : Scope → Scope → Bool
same_scope root_scope root_scope = true
same_scope region_scope region_scope = true
same_scope (of_entity a) (of_entity b) = a == b
same_scope _ _ = false

pub data SlugKind : Type 0 where
  static_kind city_kind vertical_kind area_kind category_kind listing_kind region_kind : SlugKind

abbrev pub same_kind : SlugKind → SlugKind → Bool
same_kind static_kind static_kind = true
same_kind city_kind city_kind = true
same_kind vertical_kind vertical_kind = true
same_kind area_kind area_kind = true
same_kind category_kind category_kind = true
same_kind listing_kind listing_kind = true
same_kind region_kind region_kind = true
same_kind _ _ = false

pub record SlugRow : Type 0 where
  pub parent_scope : Scope
  pub slug : Text
  pub kind : SlugKind
  pub entity_id : Option ℕ

pub record Redirect : Type 0 where
  pub from_path : Text
  pub to_path : Text
  pub status_code : ℕ

pub record Entity : Type 0 where
  pub kind : SlugKind
  pub id : ℕ
  pub slug : Text

pub record RouteDb : Type 0 where
  pub slugs : List SlugRow
  pub redirects : List Redirect
  pub entities : List Entity

-- The reasons of a `SlugError`.
pub data SlugError : Type 0 where
  nothing_left reserved exhausted is_static unallocated : SlugError

pub data RouteResult (A : Type 0) : Type 0 where
  ok : A → RouteDb → RouteResult A
  err : SlugError → RouteResult A

abbrev pub and_then : {A B : Type 0} → RouteResult A → (A → RouteDb → RouteResult B) → RouteResult B
and_then (ok a s) f = f a s
and_then (err e) f = err e

-- `parent_scope = … and slug = …`
abbrev pub is_at : Scope → Text → SlugRow → Bool
is_at scope slug r = same_scope scope r.parent_scope && same_text slug r.slug

-- `insert … on conflict do nothing`: whether the row went in
unfoldable pub claim : SlugRow → RouteDb → Bool × RouteDb
claim r s =
    if any (is_at r.parent_scope r.slug) s.slugs
    then (false, s)
    else (true, record s { slugs = s.slugs ++ (r ∷ []) })

pub record SlugInput : Type 0 where
  pub parent_scope : Scope
  pub desired : Text
  pub kind : SlugKind
  pub entity_id : ℕ
  pub disambiguator : Option Text

abbrev pub claimed_row : SlugInput → Text → SlugRow
claimed_row input candidate = record {
  parent_scope = input.parent_scope;
  slug = candidate;
  kind = input.kind;
  entity_id = some input.entity_id;
}

-- `${n}`, for a number below a hundred
abbrev pub number_text : ℕ → Text
number_text n = if ltb n 10 then (48 + n) ∷ [] else (48 + n / 10) ∷ (48 + n % 10) ∷ []

-- `count` candidates from `n` on
unfoldable pub numbered : Text → ℕ → ℕ → List Text
numbered stem zero n = []
numbered stem (suc count) n = (stem ++ (45 ∷ number_text n)) ∷ numbered stem count (suc n)

-- An empty disambiguator is none.
unfoldable pub disambiguated : Unicode → SlugInput → Option Text
disambiguated unicode input = slug_with input.disambiguator
  where
    slug_with : Option Text → Option Text
    slug_with none = none
    slug_with (some []) = none
    slug_with (some (c ∷ d)) = some (slugify unicode (input.desired ++ (45 ∷ c ∷ d)))

abbrev pub unless_same : Text → Option Text → List Text
unless_same bare none = []
unless_same bare (some d) = if same_text d bare then [] else d ∷ []

unfoldable pub candidates : Text → Option Text → List Text
candidates bare with_more =
    bare ∷ (unless_same bare with_more ++ numbered (get_or with_more bare) 49 2)

abbrev pub next_if : Text → Bool × RouteDb → (RouteDb → RouteResult Text) → RouteResult Text
next_if candidate (true, s) rest = ok candidate s
next_if candidate (false, s) rest = rest s

unfoldable pub first_free : SlugInput → List Text → RouteDb → RouteResult Text
first_free input [] s = err exhausted
first_free input (c ∷ cs) s = next_if c (claim (claimed_row input c) s) (first_free input cs)

abbrev pub is_empty : Text → Bool
is_empty [] = true
is_empty (c ∷ s) = false

unfoldable pub allocate_slug : Unicode → SlugInput → RouteDb → RouteResult Text
allocate_slug unicode input s =
    let bare = slugify unicode input.desired in
    if is_empty bare
    then err nothing_left
    else if same_scope input.parent_scope root_scope && is_reserved unicode bare
    then err reserved
    else first_free input (candidates bare (disambiguated unicode input)) s

unfoldable pub resolve_slug : Unicode → Scope → Text → RouteDb → Option SlugRow
resolve_slug unicode scope slug s = find? (is_at scope (unicode.to_lower_case slug)) s.slugs

abbrev pub static_row : Text → SlugRow
static_row slug = record {
  parent_scope = root_scope;
  slug = slug;
  kind = static_kind;
  entity_id = none;
}

unfoldable pub claim_static : List Text → RouteDb → RouteDb
claim_static [] s = s
claim_static (slug ∷ rest) s = claim_static rest (claim (static_row slug) s).1

unfoldable pub seed_reserved_slugs : RouteDb → RouteDb
seed_reserved_slugs s = claim_static reserved_slugs s

unfoldable pub write_entity_slug : SlugKind → ℕ → Text → RouteDb → RouteDb
write_entity_slug region_kind id slug s = s
write_entity_slug kind id slug s = record s {
  entities =
      update (λ e. same_kind e.kind kind && e.id == id) (λ e. record e { slug = slug }) s.entities;
}

-- `parent_scope = … and entity_id = …`
abbrev pub is_entity_at : Scope → ℕ → SlugRow → Bool
is_entity_at scope id r = same_scope scope r.parent_scope && option_eq r.entity_id (some id)

pub record Rename : Type 0 where
  pub to : SlugInput
  pub old_path : Text
  pub new_path_for : Text → Text

-- `insert … on conflict (from_path) do update set to_path`
unfoldable pub upsert_redirect : Text → Text → List Redirect → List Redirect
upsert_redirect old new rows =
    if any (λ r. same_text r.from_path old) rows
    then update (λ r. same_text r.from_path old) (λ r. record r { to_path = new }) rows
    else rows ++ (record { from_path = old; to_path = new; status_code = 301 } ∷ [])

unfoldable pub collapse : Text → Text → List Redirect → List Redirect
collapse old new rows = update (λ r. same_text r.to_path old) (λ r. record r { to_path = new }) rows

unfoldable pub leave_redirect : Text → Text → RouteDb → RouteDb
leave_redirect old new s = record s {
  redirects = upsert_redirect old new (collapse old new s.redirects);
}

abbrev pub is_category_alias : SlugInput → Bool
is_category_alias input =
    same_kind input.kind category_kind && not (same_scope input.parent_scope root_scope)

unfoldable pub renamed : Rename → Text → RouteDb → RouteResult Text
renamed rename allocated s =
    let input = rename.to in
    let written =
      if is_category_alias input
      then s
      else write_entity_slug input.kind input.entity_id allocated s in
    ok allocated (leave_redirect rename.old_path (rename.new_path_for allocated) written)

unfoldable pub drop_entity_slugs : Scope → ℕ → RouteDb → RouteDb
drop_entity_slugs scope id s = record s {
  slugs = filter (λ r. not (is_entity_at scope id r)) s.slugs;
}

unfoldable pub reallocate_slug : Unicode → Rename → RouteDb → RouteResult Text
reallocate_slug unicode rename s =
    if same_kind rename.to.kind static_kind
    then err is_static
    else from_current (find? (is_entity_at rename.to.parent_scope rename.to.entity_id) s.slugs)
  where
    from_current : Option SlugRow → RouteResult Text
    from_current none = err unallocated
    from_current (some current) =
        if same_text (slugify unicode rename.to.desired) current.slug
        then ok current.slug s
        else and_then
            (allocate_slug unicode rename.to
              (drop_entity_slugs rename.to.parent_scope rename.to.entity_id s))
            (renamed rename)

unfoldable pub region_slug : Unicode → Text → Text
region_slug unicode region = slugify unicode region

unfoldable pub register_region_slug : Unicode → Text → RouteDb → RouteResult Text
register_region_slug unicode region s =
    let slug = region_slug unicode region in
    if is_empty slug
    then err nothing_left
    else if is_reserved unicode slug
    then err reserved
    else ok slug
        (claim
          (record {
            parent_scope = region_scope;
            slug = slug;
            kind = region_kind;
            entity_id = none;
          })
          s).1

unfoldable pub release_region_slug : Unicode → Text → RouteDb → RouteDb
release_region_slug unicode region s = record s {
  slugs = filter (λ r. not (is_at region_scope (region_slug unicode region) r)) s.slugs;
}

-- The row of `redirects` that a path is looked up in (`redirectFor`, lib/routing/resolve.ts).
unfoldable pub redirect_for : Unicode → Text → RouteDb → Option Redirect
redirect_for unicode path s =
    find? (λ r. same_text r.from_path (unicode.to_lower_case path)) s.redirects

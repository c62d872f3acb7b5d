-- ===== src/Routing/Pages.antt =====
-- The page numbers of resolved paths (`resolveRoute`, lib/routing/resolve.ts).
use directory_platform.Common.{
  ℕ, Bool, true, false, ◌&&◌, Option, none, some, List, [], ◌∷◌, ◌++◌, map, ◌==◌, if◌then◌else◌,
  get_or, or_else,
}
use directory_platform.Routing.{Text, codes, Unicode, same_text}
use directory_platform.Routing.Slugs.{
  root_scope, of_entity, SlugKind, static_kind, city_kind, vertical_kind, area_kind, category_kind,
  listing_kind, region_kind, same_kind, SlugRow, Redirect, RouteDb, resolve_slug, redirect_for,
}
use directory_platform.Routing.Normalise.{
  RouteResolution, pillar, listing, listing_reviews, redirect, not_found, SiteMode, niche_national,
  local_multi_vertical, Pagination, split_pagination, PathNormalisation, moved, proceed, no_path,
  same_segments, has_none, normalise_page, normalise_path_segments, join,
}
use directory_platform.Routing.Paths.{
  to_redirect, root_prefix_redirect, Request, redirect_or_nothing, no_root, area_page, child_page,
  of_child, below_root, expected_root_kind, of_root, resolve_segments, resolve_normalised,
  resolve_route,
}
use directory_platform.Routing.Numbers.{InRange, PageOption, split_pagination-InRange}

-- A page that is served has its number in the range.
abbrev pub ServesInRange : RouteResolution → Type 0
ServesInRange (pillar scope page) = InRange page
ServesInRange (listing_reviews id parent_id page) = InRange page
ServesInRange (listing id parent_id) = Unit
ServesInRange (redirect to status) = Unit
ServesInRange not_found = Unit

abbrev RangeOption : Option RouteResolution → Type 0
RangeOption none = Unit
RangeOption (some r) = ServesInRange r

to_redirect-InRange : (o : Option Redirect) → RangeOption (to_redirect o)
unfolding to_redirect
to_redirect-InRange none = tt
to_redirect-InRange (some r) = tt

get_or-InRange : (o : Option RouteResolution) → RangeOption o → ServesInRange (get_or o not_found)
get_or-InRange none h = tt
get_or-InRange (some r) h = h

or_else-InRange :
    (o p : Option RouteResolution) → RangeOption o → RangeOption p → RangeOption (or_else o p)
or_else-InRange none p h k = k
or_else-InRange (some r) p h k = h

if-InRange :
    (b : Bool) (r q : RouteResolution)
    → ServesInRange r
    → ServesInRange q
    → ServesInRange (if b then r else q)
if-InRange true r q h k = h
if-InRange false r q h k = k

root_prefix_redirect-InRange :
    (unicode : Unicode) (segments : List Text) (s : RouteDb)
    → RangeOption (root_prefix_redirect unicode segments s)
unfolding root_prefix_redirect
root_prefix_redirect-InRange unicode [] s = tt
root_prefix_redirect-InRange unicode (first ∷ []) s = tt
root_prefix_redirect-InRange unicode (first ∷ second ∷ rest) s =
    under (redirect_for unicode (47 ∷ first) s)
  where
    gone :
        (b : Bool) (r q : Text × ℕ)
        → RangeOption (if b then some (redirect r.0 r.1) else some (redirect q.0 q.1))
    gone true r q = tt
    gone false r q = tt

    under :
        (o : Option Redirect)
        → RangeOption (elim o [
          | none ↦ none
          | some target ↦
              if target.status_code == 410
              then some (redirect target.to_path target.status_code)
              else some (redirect (target.to_path ++ (47 ∷ join (second ∷ rest))) 301)
        ])
    under none = tt
    under (some target) =
        gone (target.status_code == 410) (target.to_path, target.status_code)
          (target.to_path ++ (47 ∷ join (second ∷ rest)), 301)

module _ (unicode : Unicode) (request : Request) (s : RouteDb) (h : InRange request.page) where
  redirect_or_nothing-InRange : ServesInRange (redirect_or_nothing unicode request s)
  unfolding redirect_or_nothing
  redirect_or_nothing-InRange = get_or-InRange _ (to_redirect-InRange _)

  no_root-InRange : ServesInRange (no_root unicode request s)
  unfolding no_root
  no_root-InRange = get_or-InRange _ (
      or_else-InRange (to_redirect (redirect_for unicode (47 ∷ join request.lowered) s)) _
        (to_redirect-InRange _) (root_prefix_redirect-InRange unicode request.lowered s))

  area_page-InRange :
      (mode : SiteMode) (parent_id id : ℕ)
      → ServesInRange (area_page unicode request s mode parent_id id)
  area_page-InRange niche_national parent_id id =
      if-InRange request.neighbourhoods _ _ h redirect_or_nothing-InRange
  area_page-InRange local_multi_vertical parent_id id = h

  child_page-InRange :
      (reviews : Bool) (parent_id : ℕ) (kind : SlugKind) (id : ℕ)
      → ServesInRange (child_page unicode request s reviews parent_id kind id)
  unfolding child_page
  child_page-InRange reviews parent_id static_kind id = tt
  child_page-InRange reviews parent_id city_kind id = tt
  child_page-InRange reviews parent_id vertical_kind id = tt
  child_page-InRange reviews parent_id region_kind id = tt
  child_page-InRange reviews parent_id area_kind id =
      if-InRange reviews _ _ redirect_or_nothing-InRange
        (area_page-InRange request.mode parent_id id)
  child_page-InRange reviews parent_id category_kind id =
      if-InRange reviews _ _ redirect_or_nothing-InRange h
  child_page-InRange reviews parent_id listing_kind id =
      if-InRange reviews (listing_reviews id parent_id request.page)
        (if request.explicit then not_found else listing id parent_id) h
        (if-InRange request.explicit not_found (listing id parent_id) tt tt)

  of_child-InRange :
      (reviews : Bool) (parent_id : ℕ) (o : Option SlugRow)
      → ServesInRange (of_child unicode request s reviews parent_id o)
  unfolding of_child
  of_child-InRange reviews parent_id none = redirect_or_nothing-InRange
  of_child-InRange reviews parent_id (some child) = with_entity child.entity_id
    where
      with_entity :
          (o : Option ℕ)
          → ServesInRange
              (of_child unicode request s reviews parent_id (some (record child { entity_id = o })))
      with_entity none = redirect_or_nothing-InRange
      with_entity (some id) = child_page-InRange reviews parent_id child.kind id

  below_root-InRange :
      (parent_id : ℕ) (rest : List Text)
      → ServesInRange (below_root unicode request s parent_id rest)
  unfolding below_root
  below_root-InRange parent_id [] = h
  below_root-InRange parent_id (second ∷ []) =
      of_child-InRange false parent_id (resolve_slug unicode (of_entity parent_id) second s)
  below_root-InRange parent_id (second ∷ third ∷ []) =
      if-InRange (same_text third (codes "reviews")) _ _
        (of_child-InRange true parent_id (resolve_slug unicode (of_entity parent_id) second s))
        redirect_or_nothing-InRange
  below_root-InRange parent_id (second ∷ third ∷ fourth ∷ rest) = redirect_or_nothing-InRange

  of_root-InRange :
      (o : Option SlugRow) (rest : List Text) → ServesInRange (of_root unicode request s o rest)
  unfolding of_root
  of_root-InRange none rest = no_root-InRange
  of_root-InRange (some root) rest = with_parent root.entity_id
    where
      tests :
          (a b : Bool) (r : RouteResolution)
          → ServesInRange r
          → ServesInRange (if a then not_found else if b then r else no_root unicode request s)
      tests true b r k = tt
      tests false true r k = k
      tests false false r k = no_root-InRange

      with_parent :
          (o : Option ℕ)
          → ServesInRange (of_root unicode request s (some (record root { entity_id = o })) rest)
      with_parent none =
          tests (same_kind root.kind static_kind)
            (same_kind root.kind (expected_root_kind unicode request s request.mode))
            (no_root unicode request s) no_root-InRange
      with_parent (some parent_id) =
          tests (same_kind root.kind static_kind)
            (same_kind root.kind (expected_root_kind unicode request s request.mode))
            (below_root unicode request s parent_id rest) (below_root-InRange parent_id rest)

  resolve_segments-InRange :
      (segments : List Text) → ServesInRange (resolve_segments unicode request segments s)
  unfolding resolve_segments
  resolve_segments-InRange [] = tt
  resolve_segments-InRange (first ∷ rest) =
      of_root-InRange (resolve_slug unicode root_scope first s) rest

abbrev ProceedsInRange : PathNormalisation → Type 0
ProceedsInRange (moved to) = Unit
ProceedsInRange no_path = Unit
ProceedsInRange (proceed segments lowered page) = InRange page

normalise_page-InRange :
    (base : Text) (lowered : List Text) (o : Option Pagination)
    → PageOption o
    → ProceedsInRange (normalise_page base lowered o)
unfolding normalise_page
normalise_page-InRange base lowered none h = tt
normalise_page-InRange base lowered (some p) h = tests (has_none p.rest) (p.explicit && p.page == 1)
  where
    tests :
        (a b : Bool)
        → ProceedsInRange (
            if a
            then no_path
            else if b
            then moved (base ++ (47 ∷ join p.rest))
            else proceed p.rest lowered p.page)
    tests true b = tt
    tests false true = tt
    tests false false = h

normalise_path_segments-InRange :
    (unicode : Unicode) (base : Text) (raw : List Text)
    → ProceedsInRange (normalise_path_segments unicode base raw)
unfolding normalise_path_segments
normalise_path_segments-InRange unicode base raw =
    at_case (same_segments (map unicode.to_lower_case raw) raw)
  where
    lowered : List Text
    lowered = map unicode.to_lower_case raw

    at_case :
        (b : Bool)
        → ProceedsInRange (
            if b
            then normalise_page base lowered (split_pagination lowered)
            else moved (base ++ (47 ∷ join lowered)))
    at_case true =
        normalise_page-InRange base lowered (split_pagination lowered)
          (split_pagination-InRange lowered)
    at_case false = tt

resolve_normalised-InRange :
    (unicode : Unicode) (mode : SiteMode) (neighbourhoods : Bool) (p : PathNormalisation)
    (s : RouteDb)
    → ProceedsInRange p
    → ServesInRange (resolve_normalised unicode mode neighbourhoods p s)
unfolding resolve_normalised
resolve_normalised-InRange unicode mode neighbourhoods (moved to) s h = tt
resolve_normalised-InRange unicode mode neighbourhoods no_path s h = tt
resolve_normalised-InRange unicode mode neighbourhoods (proceed segments lowered page) s h =
    resolve_segments-InRange unicode _ s h segments

-- Whatever path `resolveRoute` is asked for, a page that it serves has a number from 1 to 10000.
pub resolve_route-InRange :
    (unicode : Unicode) (mode : SiteMode) (neighbourhoods : Bool) (raw : List Text) (s : RouteDb)
    → ServesInRange (resolve_route unicode mode neighbourhoods raw s)
unfolding resolve_route
resolve_route-InRange unicode mode neighbourhoods raw s =
    resolve_normalised-InRange unicode mode neighbourhoods (normalise_path_segments unicode [] raw)
      s (normalise_path_segments-InRange unicode [] raw)

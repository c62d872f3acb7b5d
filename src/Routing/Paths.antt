-- ===== src/Routing/Paths.antt =====
-- The page of a normalised path (`resolveRoute`, lib/routing/resolve.ts).
use directory_platform.Common.{
  ℕ, Bool, true, false, not, Option, none, some, List, [], ◌∷◌, ◌++◌, ◌==◌, if◌then◌else◌, get_or,
  or_else, length,
}
use directory_platform.Routing.{Text, codes, Unicode, same_text}
use directory_platform.Routing.Slugs.{
  root_scope, of_entity, SlugKind, static_kind, city_kind, vertical_kind, area_kind, category_kind,
  listing_kind, same_kind, SlugRow, Redirect, RouteDb, resolve_slug, redirect_for,
}
use directory_platform.Routing.Normalise.{
  PathNormalisation, PillarScope, RouteResolution, SiteMode, city, city_area, city_category, join,
  listing, listing_reviews, local_multi_vertical, moved, niche_national, no_path,
  normalise_path_segments, not_found, pillar, proceed, redirect, vertical, vertical_area,
}

unfoldable pub to_redirect : Option Redirect → Option RouteResolution
to_redirect none = none
to_redirect (some r) = some (redirect r.to_path r.status_code)

unfoldable pub root_prefix_redirect : Unicode → List Text → RouteDb → Option RouteResolution
root_prefix_redirect unicode [] s = none
root_prefix_redirect unicode (first ∷ []) s = none
root_prefix_redirect unicode (first ∷ second ∷ rest) s = under (redirect_for unicode (47 ∷ first) s)
  where
    under : Option Redirect → Option RouteResolution
    under none = none
    under (some target) =
        if target.status_code == 410
        then some (redirect target.to_path target.status_code)
        else some (redirect (target.to_path ++ (47 ∷ join (second ∷ rest))) 301)

-- What `resolveRoute` has found once the path is normalised.
pub record Request : Type 0 where
  pub mode : SiteMode
  pub neighbourhoods : Bool
  pub lowered : List Text
  pub page : ℕ
  pub explicit : Bool

module _ (unicode : Unicode) (request : Request) (s : RouteDb) where
  unfoldable pub redirect_or_nothing : RouteResolution
  redirect_or_nothing =
      get_or (to_redirect (redirect_for unicode (47 ∷ join request.lowered) s)) not_found

  unfoldable pub no_root : RouteResolution
  no_root =
      get_or
        (or_else (to_redirect (redirect_for unicode (47 ∷ join request.lowered) s))
          (root_prefix_redirect unicode request.lowered s))
        not_found

  abbrev pub area_page : SiteMode → ℕ → ℕ → RouteResolution
  area_page niche_national parent_id id =
      if request.neighbourhoods
      then pillar (city_area parent_id id) request.page
      else redirect_or_nothing
  area_page local_multi_vertical parent_id id = pillar (vertical_area parent_id id) request.page

  unfoldable pub child_page : Bool → ℕ → SlugKind → ℕ → RouteResolution
  child_page reviews parent_id category_kind id =
      if reviews then redirect_or_nothing else pillar (city_category parent_id id) request.page
  child_page reviews parent_id area_kind id =
      if reviews then redirect_or_nothing else area_page request.mode parent_id id
  child_page reviews parent_id listing_kind id =
      if reviews
      then listing_reviews id parent_id request.page
      else if request.explicit
      then not_found
      else listing id parent_id
  child_page reviews parent_id kind id = not_found

  unfoldable pub of_child : Bool → ℕ → Option SlugRow → RouteResolution
  of_child reviews parent_id none = redirect_or_nothing
  of_child reviews parent_id (some child) = with_entity child.entity_id
    where
      with_entity : Option ℕ → RouteResolution
      with_entity none = redirect_or_nothing
      with_entity (some id) = child_page reviews parent_id child.kind id

  abbrev pub parent_page : SiteMode → ℕ → PillarScope
  parent_page niche_national parent_id = city parent_id
  parent_page local_multi_vertical parent_id = vertical parent_id

  -- the segments after the root one
  unfoldable pub below_root : ℕ → List Text → RouteResolution
  below_root parent_id [] = pillar (parent_page request.mode parent_id) request.page
  below_root parent_id (second ∷ []) =
      of_child false parent_id (resolve_slug unicode (of_entity parent_id) second s)
  below_root parent_id (second ∷ third ∷ []) =
      if same_text third (codes "reviews")
      then of_child true parent_id (resolve_slug unicode (of_entity parent_id) second s)
      else redirect_or_nothing
  below_root parent_id (second ∷ third ∷ fourth ∷ rest) = redirect_or_nothing

  abbrev pub expected_root_kind : SiteMode → SlugKind
  expected_root_kind niche_national = city_kind
  expected_root_kind local_multi_vertical = vertical_kind

  unfoldable pub of_root : Option SlugRow → List Text → RouteResolution
  of_root none rest = no_root
  of_root (some root) rest =
      if same_kind root.kind static_kind
      then not_found
      else if same_kind root.kind (expected_root_kind request.mode)
      then with_parent root.entity_id
      else no_root
    where
      with_parent : Option ℕ → RouteResolution
      with_parent none = no_root
      with_parent (some parent_id) = below_root parent_id rest

unfoldable pub resolve_segments : Unicode → Request → List Text → RouteDb → RouteResolution
resolve_segments unicode request [] s = not_found
resolve_segments unicode request (first ∷ rest) s =
    of_root unicode request s (resolve_slug unicode root_scope first s) rest

unfoldable pub resolve_normalised :
    Unicode → SiteMode → Bool → PathNormalisation → RouteDb → RouteResolution
resolve_normalised unicode mode neighbourhoods (moved to) s = redirect to 301
resolve_normalised unicode mode neighbourhoods no_path s = not_found
resolve_normalised unicode mode neighbourhoods (proceed segments lowered page) s =
    resolve_segments unicode
      (record {
        mode = mode;
        neighbourhoods = neighbourhoods;
        lowered = lowered;
        page = page;
        explicit = not (length lowered == length segments);
      })
      segments s

unfoldable pub resolve_route : Unicode → SiteMode → Bool → List Text → RouteDb → RouteResolution
resolve_route unicode mode neighbourhoods raw s =
    resolve_normalised unicode mode neighbourhoods (normalise_path_segments unicode [] raw) s

-- ===== src/Examples/Routes.antt =====
-- Slugs, their registry and a rename on small tables (lib/routing/slugify.ts, lib/routing/slugs.ts).
use directory_platform.Common.{
  List, ℕ, ◌+◌, true, false, some, [], ◌∷◌, ◌++◌, map, leb, ◌&&◌, if◌then◌else◌, ◌≡◌, refl, ◌⊎◌,
  arith,
}
use directory_platform.Routing.{
  Text, codes, Unicode, with_dashes, trim_start, trim_end, slugify, reserved_slugs, is_reserved,
  IsSlug, IsPlain, KeepsPlain,
}
use directory_platform.Routing.Shape.{slugify-IsSlug, slugify_twice}
use directory_platform.Routing.Slugs.{
  Scope, root_scope, city_kind, SlugRow, RouteDb, ok, SlugInput, claimed_row, claim, numbered,
  disambiguated, candidates, first_free, allocate_slug, resolve_slug, claim_static,
  seed_reserved_slugs, Rename, write_entity_slug, upsert_redirect, collapse, leave_redirect,
  renamed, drop_entity_slugs, reallocate_slug,
}
use directory_platform.Routing.Resolves.{
  allocate_slug-resolve_slug, IsSeeded, seed_reserved_slugs-IsSeeded, allocate_slug-IsSeeded,
}
use directory_platform.Routing.Normalise.{
  city, pillar, niche_national, last_two, page_of, split_pagination, normalise_page,
  normalise_path_segments,
}
use directory_platform.Routing.Paths.{
  resolve_segments, of_root, below_root, resolve_normalised, resolve_route,
}
use directory_platform.Routing.Pages.{ServesInRange, resolve_route-InRange}
use directory_platform.Routing.NewCity.{allocate_slug-resolve_route}

-- The Unicode functions on texts of ASCII characters.
abbrev lower : ℕ → ℕ
lower c = if leb b'A' c && leb c b'Z' then c + 32 else c

abbrev ascii : Unicode
ascii = record { normalize = λ s. s; to_lower_case = map lower }

map-lower : (s : Text) → IsPlain s → map lower s ≡ s
map-lower [] h = refl
map-lower (c ∷ s) h = ground (arith, h.0, map-lower s h.1)

ascii-KeepsPlain : KeepsPlain ascii
ascii-KeepsPlain = record { normalize_plain = λ s h. refl; to_lower_case_plain = map-lower }

market_slug : slugify ascii (codes "St Ouen's  Market!") ≡ codes "st-ouens-market"
unfolding slugify with_dashes trim_start trim_end
market_slug = refl

slugify-IsSlug_example :
    (slugify ascii (codes "St Ouen's  Market!") ≡ [])
    ⊎ IsSlug (slugify ascii (codes "St Ouen's  Market!"))
slugify-IsSlug_example = slugify-IsSlug ascii (codes "St Ouen's  Market!")

slugify_twice_example :
    slugify ascii (slugify ascii (codes "St Ouen's  Market!"))
    ≡ slugify ascii (codes "St Ouen's  Market!")
slugify_twice_example = slugify_twice ascii ascii-KeepsPlain (codes "St Ouen's  Market!")

abbrev leeds : SlugInput
leeds = record {
  parent_scope = root_scope;
  desired = codes "Leeds";
  kind = city_kind;
  entity_id = 7;
  disambiguator = some (codes "UK");
}

abbrev first_leeds : RouteDb
first_leeds = record {
  slugs =
      record {
        parent_scope = root_scope;
        slug = codes "leeds";
        kind = city_kind;
        entity_id = some 3;
      }
      ∷ [];
  redirects = [];
  entities = record { kind = city_kind; id = 3; slug = codes "leeds" } ∷ [];
}

abbrev both_leeds : RouteDb
both_leeds = record first_leeds {
  slugs =
      record {
        parent_scope = root_scope;
        slug = codes "leeds";
        kind = city_kind;
        entity_id = some 3;
      }
      ∷ claimed_row leeds (codes "leeds-uk")
      ∷ [];
}

leeds_run : allocate_slug ascii leeds first_leeds ≡ ok (codes "leeds-uk") both_leeds
unfolding allocate_slug slugify with_dashes trim_start trim_end is_reserved reserved_slugs
    disambiguated candidates numbered first_free claim
leeds_run = refl

allocate_slug-resolve_slug_example :
    (resolve_slug ascii root_scope (codes "leeds-uk") both_leeds
      ≡ some (claimed_row leeds (codes "leeds-uk")))
    × ((scope : Scope) (other : Text) (r : SlugRow)
        → resolve_slug ascii scope other first_leeds ≡ some r
        → resolve_slug ascii scope other both_leeds ≡ some r)
allocate_slug-resolve_slug_example =
    allocate_slug-resolve_slug ascii leeds first_leeds both_leeds (codes "leeds-uk")
      ascii-KeepsPlain leeds_run

-- The seeded registry, and a city of the name Add in it.
unfoldable seeded : RouteDb
seeded = seed_reserved_slugs (record { slugs = []; redirects = []; entities = [] })

seeded-IsSeeded : IsSeeded seeded
unfolding seeded
seeded-IsSeeded =
    seed_reserved_slugs-IsSeeded (record { slugs = []; redirects = []; entities = [] })

unfoldable with_add : RouteDb
with_add = (claim (claimed_row (record leeds { desired = codes "Add" }) (codes "add")) seeded).1

abbrev first_add : SlugInput
first_add = record leeds { desired = codes "Add" }

add_run : allocate_slug ascii first_add seeded ≡ ok (codes "add") with_add
unfolding seeded with_add seed_reserved_slugs claim_static allocate_slug slugify with_dashes
    trim_start trim_end is_reserved reserved_slugs disambiguated candidates numbered first_free
    claim
add_run = refl

allocate_slug-IsSeeded_example : (is_reserved ascii (codes "add") ≡ false) × IsSeeded with_add
allocate_slug-IsSeeded_example =
    allocate_slug-IsSeeded ascii first_add seeded with_add (codes "add") ascii-KeepsPlain
      seeded-IsSeeded refl add_run

-- The second Leeds takes another name.
abbrev to_leeds_city : Rename
to_leeds_city = record {
  to = record leeds { desired = codes "Leeds City" };
  old_path = codes "/leeds-uk";
  new_path_for = λ slug. codes "/" ++ slug;
}

abbrev leeds_city : RouteDb
leeds_city = record {
  slugs =
      record {
        parent_scope = root_scope;
        slug = codes "leeds";
        kind = city_kind;
        entity_id = some 3;
      }
      ∷ claimed_row leeds (codes "leeds-city")
      ∷ [];
  redirects =
      record { from_path = codes "/leeds-uk"; to_path = codes "/leeds-city"; status_code = 301 }
      ∷ [];
  entities = first_leeds.entities;
}

-- Renamed back to its former slug, it leaves a redirect from that path to itself.
abbrev to_leeds_uk : Rename
to_leeds_uk = record {
  to = record leeds { desired = codes "Leeds UK" };
  old_path = codes "/leeds-city";
  new_path_for = λ slug. codes "/" ++ slug;
}

abbrev leeds_uk_again : RouteDb
leeds_uk_again = record both_leeds {
  redirects =
      record { from_path = codes "/leeds-uk"; to_path = codes "/leeds-uk"; status_code = 301 }
      ∷ record { from_path = codes "/leeds-city"; to_path = codes "/leeds-uk"; status_code = 301 }
      ∷ [];
}

leeds_uk_again_run :
    reallocate_slug ascii to_leeds_uk leeds_city ≡ ok (codes "leeds-uk") leeds_uk_again
unfolding reallocate_slug renamed leave_redirect upsert_redirect collapse write_entity_slug
    drop_entity_slugs allocate_slug slugify with_dashes trim_start trim_end is_reserved
    reserved_slugs disambiguated candidates numbered first_free claim
leeds_uk_again_run = refl

-- Paths over the two cities.
abbrev city_path : List Text
city_path = codes "leeds" ∷ codes "page" ∷ codes "12" ∷ []

city_path_run : resolve_route ascii niche_national true city_path both_leeds ≡ pillar (city 3) 12
unfolding resolve_route resolve_normalised normalise_path_segments normalise_page split_pagination
    last_two page_of resolve_segments of_root below_root resolve_slug
city_path_run = refl

resolve_route-InRange_example :
    ServesInRange (resolve_route ascii niche_national true city_path both_leeds)
resolve_route-InRange_example = resolve_route-InRange ascii niche_national true city_path both_leeds

allocate_slug-resolve_route_example :
    resolve_route ascii niche_national true (codes "leeds-uk" ∷ []) both_leeds ≡ pillar (city 7) 1
allocate_slug-resolve_route_example =
    allocate_slug-resolve_route ascii (codes "Leeds") 7 (some (codes "UK")) true first_leeds
      both_leeds (codes "leeds-uk") ascii-KeepsPlain leeds_run

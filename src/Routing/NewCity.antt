-- ===== src/Routing/NewCity.antt =====
-- The page of a city that has just got its slug (lib/routing/slugs.ts, lib/routing/resolve.ts).
use directory_platform.Common.{
  ℕ, Bool, true, false, ◌&&◌, Option, some, [], ◌∷◌, if◌then◌else◌, ◌≡◌, ap, ◌∙◌,
}
use directory_platform.Routing.{Text, Unicode, same_text, KeepsPlain}
use directory_platform.Routing.Slugs.{
  root_scope, city_kind, SlugRow, RouteDb, ok, SlugInput, claimed_row, allocate_slug, resolve_slug,
}
use directory_platform.Routing.Registry.{same_text_self, allocate_slug-Claimed}
use directory_platform.Routing.Resolves.{Claimed-resolves}
use directory_platform.Routing.Normalise.{
  city, pillar, niche_national, last_two, split_pagination, moved, same_segments, normalise_page,
  normalise_path_segments,
}
use directory_platform.Routing.Paths.{
  Request, below_root, of_root, resolve_segments, resolve_normalised, resolve_route,
}

-- A city is allocated at the root.
abbrev pub new_city : Text → ℕ → Option Text → SlugInput
new_city desired id disambiguator = record {
  parent_scope = root_scope;
  desired = desired;
  kind = city_kind;
  entity_id = id;
  disambiguator = disambiguator;
}

-- A path of one segment in lower case is looked up at the root.
resolve_route-one :
    (unicode : Unicode) (neighbourhoods : Bool) (slug lowered : Text) (id : ℕ) (desired : Text)
    (disambiguator : Option Text) (s : RouteDb)
    → lowered ≡ slug
    → resolve_slug unicode root_scope lowered s
      ≡ some (claimed_row (new_city desired id disambiguator) slug)
    → resolve_normalised unicode niche_national neighbourhoods
        (if same_segments (lowered ∷ []) (slug ∷ [])
          then normalise_page [] (lowered ∷ []) (split_pagination (lowered ∷ []))
          else moved (47 ∷ lowered))
        s
      ≡ pillar (city id) 1
unfolding resolve_normalised normalise_page split_pagination last_two resolve_segments of_root
    below_root
resolve_route-one unicode neighbourhoods slug lowered id desired disambiguator s e f =
    ap
      (λ b.
        resolve_normalised unicode niche_national neighbourhoods
          (if b && true
            then normalise_page [] (lowered ∷ []) (split_pagination (lowered ∷ []))
            else moved (47 ∷ lowered))
          s)
      (ap (λ x. same_text x slug) e ∙ same_text_self slug)
    ∙ at_root (resolve_slug unicode root_scope lowered s) f
  where
    request : Request
    request = record {
      mode = niche_national;
      neighbourhoods = neighbourhoods;
      lowered = lowered ∷ [];
      page = 1;
      explicit = false;
    }

    at_root :
        (o : Option SlugRow)
        → o ≡ some (claimed_row (new_city desired id disambiguator) slug)
        → of_root unicode request s o [] ≡ pillar (city id) 1
    at_root o g = ap (λ x. of_root unicode request s x []) g

-- Once a city has its slug, the path of that slug alone is the city's page, in the mode whose
-- roots are cities, even if a redirect from that path is left from an earlier rename; where the
-- Unicode functions leave lower-case letters, digits and dashes as they are.
pub allocate_slug-resolve_route :
    (unicode : Unicode) (desired : Text) (id : ℕ) (disambiguator : Option Text)
    (neighbourhoods : Bool) (s t : RouteDb) (slug : Text)
    → KeepsPlain unicode
    → allocate_slug unicode (new_city desired id disambiguator) s ≡ ok slug t
    → resolve_route unicode niche_national neighbourhoods (slug ∷ []) t ≡ pillar (city id) 1
unfolding resolve_route normalise_path_segments
allocate_slug-resolve_route unicode desired id disambiguator neighbourhoods s t slug k e =
    let input = new_city desired id disambiguator in
    let c = allocate_slug-Claimed unicode input s t slug e in
    let low = k.to_lower_case_plain slug c.passes in
    resolve_route-one unicode neighbourhoods slug (unicode.to_lower_case slug) id desired
      disambiguator t low
      (ap (λ x. resolve_slug unicode root_scope x t) low
        ∙ Claimed-resolves unicode input s t slug k c)

-- ===== src/Routing/Normalise.antt =====
-- The canonical form of a path and its page number (lib/routing/resolve.ts), and what a path may
-- lead to (lib/routing/scope.ts).
use directory_platform.Common.{
  ℕ, ◌+◌, ◌-◌, ◌*◌, Bool, true, false, not, ◌&&◌, Option, none, some, List, [], ◌∷◌, ◌++◌, map, ltb,
  leb, ◌==◌, if◌then◌else◌, length,
}
use directory_platform.Routing.{Text, codes, Unicode, same_text}

pub data PillarScope : Type 0 where
  city : ℕ → PillarScope
  city_category city_area : ℕ → ℕ → PillarScope
  vertical : ℕ → PillarScope
  vertical_area : ℕ → ℕ → PillarScope

pub data RouteResolution : Type 0 where
  pillar : PillarScope → ℕ → RouteResolution
  listing : ℕ → ℕ → RouteResolution
  listing_reviews : ℕ → ℕ → ℕ → RouteResolution
  redirect : Text → ℕ → RouteResolution
  not_found : RouteResolution

pub data SiteMode : Type 0 where
  niche_national local_multi_vertical : SiteMode

-- `segments.join("/")`
abbrev pub join : List Text → Text
join [] = []
join (a ∷ []) = a
join (a ∷ b ∷ rest) = a ++ (47 ∷ join (b ∷ rest))

-- `/^[1-9]\d*$/`
abbrev pub is_digit : ℕ → Bool
is_digit c = leb b'0' c && leb c b'9'

abbrev pub all_digits : Text → Bool
all_digits [] = true
all_digits (c ∷ s) = is_digit c && all_digits s

abbrev pub is_page_number : Text → Bool
is_page_number [] = false
is_page_number (c ∷ s) = leb b'1' c && leb c b'9' && all_digits s

-- `Number(raw)`, for a text of digits
abbrev pub number_from : ℕ → Text → ℕ
number_from n [] = n
number_from n (c ∷ s) = number_from (n * 10 + (c - 48)) s

abbrev pub max_page_number : ℕ
max_page_number = 10000

abbrev pub max_page_digits : ℕ
max_page_digits = 5

pub record Pagination : Type 0 where
  pub rest : List Text
  pub page : ℕ
  pub explicit : Bool

-- What stands before the last two segments, and these two.
abbrev pub before_first :
    Text → Option (List Text × (Text × Text)) → Option (List Text × (Text × Text))
before_first a none = none
before_first a (some (rest, ends)) = some (a ∷ rest, ends)

unfoldable pub last_two : List Text → Option (List Text × (Text × Text))
last_two [] = none
last_two (a ∷ []) = none
last_two (a ∷ b ∷ []) = some ([], (a, b))
last_two (a ∷ b ∷ c ∷ rest) = before_first a (last_two (b ∷ c ∷ rest))

unfoldable pub page_of : List Text → Text → Option Pagination
page_of rest raw =
    if not (is_page_number raw)
    then none
    else if ltb max_page_digits (length raw)
    then none
    else if ltb max_page_number (number_from 0 raw)
    then none
    else some (record { rest = rest; page = number_from 0 raw; explicit = true })

unfoldable pub split_pagination : List Text → Option Pagination
split_pagination segments = with_ends (last_two segments)
  where
    with_ends : Option (List Text × (Text × Text)) → Option Pagination
    with_ends none = some (record { rest = segments; page = 1; explicit = false })
    with_ends (some (rest, (word, raw))) =
        if same_text word (codes "page")
        then page_of rest raw
        else some (record { rest = segments; page = 1; explicit = false })

pub data PathNormalisation : Type 0 where
  moved : Text → PathNormalisation
  proceed : List Text → List Text → ℕ → PathNormalisation
  no_path : PathNormalisation

abbrev pub same_segments : List Text → List Text → Bool
same_segments [] [] = true
same_segments [] (b ∷ t) = false
same_segments (a ∷ s) [] = false
same_segments (a ∷ s) (b ∷ t) = same_text a b && same_segments s t

abbrev pub has_none : List Text → Bool
has_none [] = true
has_none (a ∷ rest) = false

unfoldable pub normalise_page : Text → List Text → Option Pagination → PathNormalisation
normalise_page base lowered none = no_path
normalise_page base lowered (some p) =
    if has_none p.rest
    then no_path
    else if p.explicit && p.page == 1
    then moved (base ++ (47 ∷ join p.rest))
    else proceed p.rest lowered p.page

unfoldable pub normalise_path_segments : Unicode → Text → List Text → PathNormalisation
normalise_path_segments unicode base raw =
    let lowered = map unicode.to_lower_case raw in
    if same_segments lowered raw
    then normalise_page base lowered (split_pagination lowered)
    else moved (base ++ (47 ∷ join lowered))

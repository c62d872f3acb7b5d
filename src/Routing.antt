-- ===== src/Routing.antt =====
-- The segments of the site's addresses (lib/routing/slugify.ts). A text is the list of its codes;
-- what the language does with Unicode is a parameter.
use Prim.Native.Char.{code}
use Prim.Native.String.{String}
use directory_platform.Common.{
  ℕ, Bool, true, false, not, ◌&&◌, ◌||◌, List, [], ◌∷◌, map, filter, any, leb, ◌==◌, if◌then◌else◌,
  ◌≡◌, All,
}
pub mod Shape
pub mod Slugs
pub mod Normalise
pub mod Paths
pub mod Numbers
pub mod Pages
pub mod NewCity
pub mod Registry
pub mod Resolves
pub mod Redirects
pub mod Renames

abbrev pub Text : Type 0
Text = List ℕ

abbrev pub codes : String → Text
codes String.[] = []
codes (String.◌∷◌ c s) = code c ∷ codes s

abbrev pub same_text : Text → Text → Bool
same_text [] [] = true
same_text [] (b ∷ t) = false
same_text (a ∷ s) [] = false
same_text (a ∷ s) (b ∷ t) = a == b && same_text s t

-- `normalize("NFKD")` and `toLowerCase()`
pub record Unicode : Type 0 where
  pub normalize : Text → Text
  pub to_lower_case : Text → Text

-- `[a-z0-9]`
abbrev pub is_slug_char : ℕ → Bool
is_slug_char c = (leb b'a' c && leb c b'z') || (leb b'0' c && leb c b'9')

-- the combining diacritics and the apostrophes, which vanish
abbrev pub is_diacritic : ℕ → Bool
is_diacritic c = leb 768 c && leb c 879

abbrev pub is_apostrophe : ℕ → Bool
is_apostrophe c = c == 39 || c == 8217

-- `replace(/[^a-z0-9]+/g, "-")`: one dash for a run of other characters
abbrev pub skip_dash : Text → Text
skip_dash [] = []
skip_dash (c ∷ s) = if c == 45 then s else c ∷ s

abbrev pub separated : ℕ → Text → Text
separated c rest = if is_slug_char c then c ∷ rest else 45 ∷ skip_dash rest

unfoldable pub with_dashes : Text → Text
with_dashes [] = []
with_dashes (c ∷ s) = separated c (with_dashes s)

-- `replace(/^-+|-+$/g, "")`
unfoldable pub trim_start : Text → Text
trim_start [] = []
trim_start (c ∷ s) = if c == 45 then trim_start s else c ∷ s

abbrev pub unless_last_dash : ℕ → Text → Text
unless_last_dash c [] = if c == 45 then [] else c ∷ []
unless_last_dash c (d ∷ s) = c ∷ d ∷ s

unfoldable pub trim_end : Text → Text
trim_end [] = []
trim_end (c ∷ s) = unless_last_dash c (trim_end s)

unfoldable pub slugify : Unicode → Text → Text
slugify unicode input =
    let plain = filter (λ c. not (is_diacritic c)) (unicode.normalize input) in
    let bare = filter (λ c. not (is_apostrophe c)) plain in
    trim_start (trim_end (with_dashes (unicode.to_lower_case bare)))

unfoldable pub reserved_slugs : List Text
reserved_slugs = map codes (
    "about" ∷ "account" ∷ "add-listing" ∷ "admin" ∷ "advertise" ∷ "api" ∷ "areas" ∷ "awards"
    ∷ "badge" ∷ "blog" ∷ "categories" ∷ "cities" ∷ "claim" ∷ "contact" ∷ "cost" ∷ "data-sources"
    ∷ "faq" ∷ "get-quotes" ∷ "guides" ∷ "images" ∷ "jobs" ∷ "leave-review" ∷ "page" ∷ "post-a-job"
    ∷ "pricing" ∷ "privacy" ∷ "robots" ∷ "safety" ∷ "search" ∷ "select-listing-type" ∷ "shortlist"
    ∷ "sitemap" ∷ "sitemaps" ∷ "terms" ∷ "tools" ∷ "trust" ∷ "_next" ∷ "checkout" ∷ "login"
    ∷ "signup" ∷ "logout" ∷ "forgot-password" ∷ "reset-password" ∷ "verify-email" ∷ "remove"
    ∷ "report" ∷ "review" ∷ "reviews" ∷ "billing" ∷ "spots" ∷ "neighbourhoods" ∷ "verified" ∷ "out"
    ∷ "unsubscribe" ∷ "leads" ∷ [])

unfoldable pub is_reserved : Unicode → Text → Bool
is_reserved unicode slug = any (same_text (unicode.to_lower_case slug)) reserved_slugs

-- `/^[a-z0-9]+(?:-[a-z0-9]+)*$/`: words of slug characters with one dash between two of them.
pub data IsSlug : Text → Type 0 where
  last : (c : ℕ) → is_slug_char c ≡ true → IsSlug (c ∷ [])
  next : (c : ℕ) (s : Text) → is_slug_char c ≡ true → IsSlug s → IsSlug (c ∷ s)
  dash : (c : ℕ) (s : Text) → is_slug_char c ≡ true → IsSlug s → IsSlug (c ∷ 45 ∷ s)

abbrev pub is_plain : ℕ → Bool
is_plain c = is_slug_char c || c == 45

abbrev pub IsPlain : Text → Type 0
IsPlain s = All (λ c. is_plain c ≡ true) s

-- Both functions leave lower-case letters, digits and dashes as they are.
pub record KeepsPlain (unicode : Unicode) : Type 0 where
  pub normalize_plain : (s : Text) → IsPlain s → unicode.normalize s ≡ s
  pub to_lower_case_plain : (s : Text) → IsPlain s → unicode.to_lower_case s ≡ s

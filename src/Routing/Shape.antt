-- ===== src/Routing/Shape.antt =====
-- The form of what `slugify` returns (lib/routing/slugify.ts).
use directory_platform.Common.{
  ℕ, Bool, true, false, not, [], ◌∷◌, filter, ◌==◌, ◌≡◌, refl, ◌⊎◌, inl, inr, arith, sym, ap, ◌∙◌,
  subst, if◌then◌else◌,
}
use directory_platform.Routing.{
  Text, Unicode, is_slug_char, is_diacritic, is_apostrophe, skip_dash, with_dashes, trim_start,
  unless_last_dash, trim_end, slugify, IsSlug, last, next, dash, is_plain, IsPlain, KeepsPlain,
}

-- A slug, after a dash or not, or nothing.
data Edge : Text → Type 0 where
  none_left : Edge []
  slug_left : (s : Text) → IsSlug s → Edge s
  dash_left : (s : Text) → IsSlug s → Edge (45 ∷ s)

skip_dash-IsSlug : (s : Text) → IsSlug s → skip_dash s ≡ s
skip_dash-IsSlug _ (last c h) = ground arith
skip_dash-IsSlug _ (next c s h r) = ground arith
skip_dash-IsSlug _ (dash c s h r) = ground arith

unless_last_dash-IsSlug : (c : ℕ) (s : Text) → IsSlug s → unless_last_dash c s ≡ c ∷ s
unless_last_dash-IsSlug c _ (last d h) = refl
unless_last_dash-IsSlug c _ (next d s h r) = refl
unless_last_dash-IsSlug c _ (dash d s h r) = refl

skip_dash-trim_end : (s : Text) → trim_end (skip_dash s) ≡ skip_dash (trim_end s)
unfolding trim_end
skip_dash-trim_end [] = refl
skip_dash-trim_end (c ∷ s) = at_dash (c == 45) (trim_end s) refl refl
  where
    at_dash :
        (b : Bool) (t : Text)
        → (c == 45) ≡ b
        → trim_end s ≡ t
        → trim_end (if b then s else c ∷ s) ≡ skip_dash (unless_last_dash c t)
    at_dash true [] e f = ground (arith, f)
    at_dash true (d ∷ t) e f = ground (arith, f)
    at_dash false [] e f = ground (arith, f)
    at_dash false (d ∷ t) e f = ground (arith, f)

skip_dash-Edge : (s : Text) → Edge s → (skip_dash s ≡ []) ⊎ IsSlug (skip_dash s)
skip_dash-Edge _ none_left = inl refl
skip_dash-Edge _ (slug_left s h) = inr (subst IsSlug (sym (skip_dash-IsSlug s h)) h)
skip_dash-Edge _ (dash_left s h) = inr h

after_char : (c : ℕ) (s : Text) → is_slug_char c ≡ true → Edge s → Edge (unless_last_dash c s)
after_char c _ e none_left =
    let kept : c ∷ [] ≡ unless_last_dash c [] = ground arith in
    subst Edge kept (slug_left (c ∷ []) (last c e))
after_char c _ e (slug_left s h) =
    subst Edge (sym (unless_last_dash-IsSlug c s h)) (slug_left (c ∷ s) (next c s e h))
after_char c _ e (dash_left s h) = slug_left (c ∷ 45 ∷ s) (dash c s e h)

after_dash : (s : Text) → (s ≡ []) ⊎ IsSlug s → Edge (unless_last_dash 45 s)
after_dash s (inl e) = subst (λ t. Edge (unless_last_dash 45 t)) (sym e) none_left
after_dash s (inr h) = subst Edge (sym (unless_last_dash-IsSlug 45 s h)) (dash_left s h)

trim_end-Edge : (s : Text) → Edge (trim_end (with_dashes s))
unfolding trim_end with_dashes
trim_end-Edge [] = none_left
trim_end-Edge (c ∷ s) = at_char (is_slug_char c) refl (trim_end-Edge s)
  where
    at_char :
        (b : Bool)
        → is_slug_char c ≡ b
        → Edge (trim_end (with_dashes s))
        → Edge (trim_end (if b then c ∷ with_dashes s else 45 ∷ skip_dash (with_dashes s)))
    at_char true e r = after_char c (trim_end (with_dashes s)) e r
    at_char false e r =
        subst (λ t. Edge (unless_last_dash 45 t)) (sym (skip_dash-trim_end (with_dashes s)))
          (after_dash (skip_dash (trim_end (with_dashes s)))
            (skip_dash-Edge (trim_end (with_dashes s)) r))

trim_start-IsSlug : (s : Text) → IsSlug s → trim_start s ≡ s
unfolding trim_start
trim_start-IsSlug _ (last c h) = ground arith
trim_start-IsSlug _ (next c s h r) = ground arith
trim_start-IsSlug _ (dash c s h r) = ground arith

trim_start-Edge : (s : Text) → Edge s → (trim_start s ≡ []) ⊎ IsSlug (trim_start s)
unfolding trim_start
trim_start-Edge _ none_left = inl refl
trim_start-Edge _ (slug_left s h) = inr (subst IsSlug (sym (trim_start-IsSlug s h)) h)
trim_start-Edge _ (dash_left s h) = inr (subst IsSlug (sym (trim_start-IsSlug s h)) h)

-- `slugify` returns the empty text, or words of lower-case letters and digits with one dash
-- between two of them, whatever the text is.
pub slugify-IsSlug :
    (unicode : Unicode) (input : Text)
    → (slugify unicode input ≡ []) ⊎ IsSlug (slugify unicode input)
unfolding slugify
slugify-IsSlug unicode input = trim_start-Edge _ (trim_end-Edge _)

trim_end-IsSlug : (s : Text) → IsSlug s → trim_end s ≡ s
unfolding trim_end
trim_end-IsSlug _ (last c h) = ground arith
trim_end-IsSlug _ (next c s h r) =
    ap (unless_last_dash c) (trim_end-IsSlug s r) ∙ unless_last_dash-IsSlug c s r
trim_end-IsSlug _ (dash c s h r) =
    ap (unless_last_dash c)
      (ap (unless_last_dash 45) (trim_end-IsSlug s r) ∙ unless_last_dash-IsSlug 45 s r)

with_dashes-IsSlug : (s : Text) → IsSlug s → with_dashes s ≡ s
unfolding with_dashes
with_dashes-IsSlug _ (last c h) = ground arith
with_dashes-IsSlug _ (next c s h r) = ground (arith, with_dashes-IsSlug s r)
with_dashes-IsSlug _ (dash c s h r) = ground (arith, with_dashes-IsSlug s r, skip_dash-IsSlug s r)

pub IsPlain-of_IsSlug : (s : Text) → IsSlug s → IsPlain s
IsPlain-of_IsSlug _ (last c h) = (ground arith, tt)
IsPlain-of_IsSlug _ (next c s h r) = (ground arith, IsPlain-of_IsSlug s r)
IsPlain-of_IsSlug _ (dash c s h r) = (ground arith, (refl, IsPlain-of_IsSlug s r))

-- What is not a plain character may be dropped from a plain text without a change.
filter-IsPlain :
    (p : ℕ → Bool) (s : Text)
    → ((c : ℕ) → is_plain c ≡ true → p c ≡ true)
    → IsPlain s
    → filter p s ≡ s
filter-IsPlain p [] keep h = refl
filter-IsPlain p (c ∷ s) keep h = ground (arith, keep c h.0, filter-IsPlain p s keep h.1)

slugify-plain :
    (unicode : Unicode)
    → KeepsPlain unicode
    → (s : Text) → IsPlain s
    → slugify unicode s ≡ trim_start (trim_end (with_dashes s))
unfolding slugify
slugify-plain unicode k s plain =
    ap bare (k.normalize_plain s plain)
    ∙ ap apostrophes (filter-IsPlain (λ c. not (is_diacritic c)) s (λ c e. ground arith) plain)
    ∙ ap lower (filter-IsPlain (λ c. not (is_apostrophe c)) s (λ c e. ground arith) plain)
    ∙ ap dashed (k.to_lower_case_plain s plain)
  where
    dashed : Text → Text
    dashed t = trim_start (trim_end (with_dashes t))

    lower : Text → Text
    lower t = dashed (unicode.to_lower_case t)

    apostrophes : Text → Text
    apostrophes t = lower (filter (λ c. not (is_apostrophe c)) t)

    bare : Text → Text
    bare t = apostrophes (filter (λ c. not (is_diacritic c)) t)

slugify_fixes :
    (unicode : Unicode) → KeepsPlain unicode → (s : Text) → IsSlug s → slugify unicode s ≡ s
slugify_fixes unicode k s h =
    slugify-plain unicode k s (IsPlain-of_IsSlug s h)
    ∙ ap (λ t. trim_start (trim_end t)) (with_dashes-IsSlug s h)
    ∙ ap trim_start (trim_end-IsSlug s h)
    ∙ trim_start-IsSlug s h

slugify_empty : (unicode : Unicode) → KeepsPlain unicode → slugify unicode [] ≡ []
unfolding with_dashes trim_start trim_end
slugify_empty unicode k = slugify-plain unicode k [] tt

-- A slug is the slug of itself: slugifying again changes nothing, where the Unicode functions
-- leave lower-case letters, digits and dashes as they are.
pub slugify_twice :
    (unicode : Unicode)
    → KeepsPlain unicode
    → (input : Text) → slugify unicode (slugify unicode input) ≡ slugify unicode input
slugify_twice unicode k input = elim (slugify-IsSlug unicode input) [
  | inl e ↦ ap (slugify unicode) e ∙ slugify_empty unicode k ∙ sym e
  | inr h ↦ slugify_fixes unicode k (slugify unicode input) h
]

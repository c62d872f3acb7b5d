-- ===== src/Routing/Numbers.antt =====
-- The page numbers that `splitPagination` accepts (lib/routing/resolve.ts).
use directory_platform.Common.{
  ℕ, ◌+◌, ◌-◌, ◌*◌, ◌≤◌, Bool, true, false, not, Option, none, some, List, [], ◌∷◌, ltb,
  if◌then◌else◌, length, ◌≡◌, refl, arith,
}
use directory_platform.Routing.{Text, codes, same_text}
use directory_platform.Routing.Normalise.{
  is_page_number, number_from, max_page_digits, Pagination, last_two, page_of, split_pagination,
}

abbrev pub InRange : ℕ → Type 0
InRange page = (1 ≤ page) × (page ≤ 10000)

number_from_grows : (n : ℕ) (s : Text) → n ≤ number_from n s
number_from_grows n [] = omega arith
number_from_grows n (c ∷ s) = omega (arith, number_from_grows (n * 10 + (c - 48)) s)

number_from-InRange :
    (raw : Text)
    → is_page_number raw ≡ true
    → ltb 10000 (number_from 0 raw) ≡ false
    → InRange (number_from 0 raw)
number_from-InRange [] e f = ground arith
number_from-InRange (c ∷ s) e f =
    let first : 49 ≤ c = ground arith in
    (omega (arith, first, number_from_grows (0 * 10 + (c - 48)) s), ground arith)

abbrev pub PageOption : Option Pagination → Type 0
PageOption none = Unit
PageOption (some p) = InRange p.page

page_of-InRange : (rest : List Text) (raw : Text) → PageOption (page_of rest raw)
unfolding page_of
page_of-InRange rest raw =
    at_tests (is_page_number raw) (ltb max_page_digits (length raw)) (ltb 10000 (number_from 0 raw))
      refl refl
  where
    at_tests :
        (a b c : Bool)
        → is_page_number raw ≡ a
        → ltb 10000 (number_from 0 raw) ≡ c
        → PageOption (
            if not a
            then none
            else if b
            then none
            else if c
            then none
            else some (record { rest = rest; page = number_from 0 raw; explicit = true }))
    at_tests false b c e f = tt
    at_tests true true c e f = tt
    at_tests true false true e f = tt
    at_tests true false false e f = number_from-InRange raw e f

pub split_pagination-InRange : (segments : List Text) → PageOption (split_pagination segments)
unfolding split_pagination
split_pagination-InRange segments = with_ends (last_two segments)
  where
    at_word :
        (b : Bool) (rest : List Text) (raw : Text)
        → PageOption (
            if b
            then page_of rest raw
            else some (record { rest = segments; page = 1; explicit = false }))
    at_word true rest raw = page_of-InRange rest raw
    at_word false rest raw = (omega arith, omega arith)

    with_ends :
        (ends : Option (List Text × (Text × Text)))
        → PageOption (elim ends [
          | none ↦ some (record { rest = segments; page = 1; explicit = false })
          | some x ↦
              if same_text x.1.0 (codes "page")
              then page_of x.0 x.1.1
              else some (record { rest = segments; page = 1; explicit = false })
        ])
    with_ends none = (omega arith, omega arith)
    with_ends (some (rest, (word, raw))) = at_word (same_text word (codes "page")) rest raw

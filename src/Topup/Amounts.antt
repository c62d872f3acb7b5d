-- ===== src/Topup/Amounts.antt =====
-- The texts of the amounts of top-ups (`creditTopupAmount`, lib/billing/orders.ts).
use directory_platform.Common.{
  ℕ, zero, suc, ◌+◌, ◌-◌, ◌*◌, ◌/◌, ◌%◌, ◌≤◌, ◌<◌, ◌≡◌, refl, ap, ap₂, ◌∙◌, arith, Bool, true,
  false, Option, none, some, [], ◌∷◌, ◌++◌, ◌==◌, ltb, length, if◌then◌else◌, All, All-append,
}
use directory_platform.Routing.{Text}
use directory_platform.Leads.Rows.{Money}
use directory_platform.Topup.{digits_of, whole_text, pad_start, credit_topup_amount}

-- How such a text is read: the digits before the point, and exactly two after it.
abbrev pub two_digits : ℕ → Text → Option ℕ
two_digits whole (a ∷ b ∷ []) = some (whole * 100 + (a - 48) * 10 + (b - 48))
two_digits whole _ = none

abbrev pub cents_from : ℕ → Text → Option ℕ
cents_from whole [] = none
cents_from whole (c ∷ s) =
    let later = cents_from (whole * 10 + (c - 48)) s in
    if c == 46 then two_digits whole s else later

abbrev IsDigit : ℕ → Type 0
IsDigit c = (48 ≤ c) × (c ≤ 57)

abbrev value_from : ℕ → Text → ℕ
value_from n [] = n
value_from n (c ∷ s) = value_from (n * 10 + (c - 48)) s

value_from-append : (n : ℕ) (s t : Text) → value_from n (s ++ t) ≡ value_from (value_from n s) t
value_from-append n [] t = refl
value_from-append n (c ∷ s) t = value_from-append (n * 10 + (c - 48)) s t

cents_from-append :
    (n : ℕ) (s t : Text) → All IsDigit s → cents_from n (s ++ t) ≡ cents_from (value_from n s) t
cents_from-append n [] t h = refl
cents_from-append n (c ∷ s) t h =
    let digit : (c == 46) ≡ false = ground (arith, h.0) in
    rw digit (cents_from-append (n * 10 + (c - 48)) s t h.1)

-- With fuel above the number, its digits are digits and their value is the number.
digits_of-value :
    (fuel n : ℕ) → n < fuel → All IsDigit (digits_of fuel n) × (value_from 0 (digits_of fuel n) ≡ n)
unfolding digits_of
digits_of-value zero n h = elim (absurd h) [ ]
  where
    absurd : n < 0 → ⊥
    absurd k = omega arith
digits_of-value (suc fuel) n h = at_size (ltb n 10) refl (digits_of-value fuel (n / 10))
  where
    before : Text
    before = digits_of fuel (n / 10)

    at_size :
        (b : Bool)
        → ltb n 10 ≡ b
        → (n / 10 < fuel → All IsDigit before × (value_from 0 before ≡ n / 10))
        → All IsDigit (if b then (48 + n) ∷ [] else before ++ ((48 + n % 10) ∷ []))
          × (value_from 0 (if b then (48 + n) ∷ [] else before ++ ((48 + n % 10) ∷ [])) ≡ n)
    at_size true e k = (((omega arith, ground arith), tt), omega arith)
    at_size false e k =
        let big : 10 ≤ n = ground arith in
        let later = k (omega (arith, big, h)) in
        (
          All-append IsDigit before ((48 + n % 10) ∷ []) later.0 ((omega arith, omega arith), tt),
          value_from-append 0 before ((48 + n % 10) ∷ [])
              ∙ ap (λ v. v * 10 + (48 + n % 10 - 48)) later.1
              ∙ whole,
        )
      where
        whole : n / 10 * 10 + (48 + n % 10 - 48) ≡ n
        whole = omega arith

one_digit : (fuel n : ℕ) → n < 10 → digits_of (suc fuel) n ≡ (48 + n) ∷ []
unfolding digits_of
one_digit fuel n h = ground arith

more_digits :
    (fuel n : ℕ) → 10 ≤ n → digits_of (suc fuel) n ≡ digits_of fuel (n / 10) ++ ((48 + n % 10) ∷ [])
unfolding digits_of
more_digits fuel n h = ground arith

one_text : (n : ℕ) → n < 10 → whole_text n ≡ (48 + n) ∷ []
unfolding whole_text
one_text n h = one_digit n n h

two_of : (n : ℕ) → 10 ≤ n → n < 100 → whole_text n ≡ (48 + n / 10) ∷ (48 + n % 10) ∷ []
unfolding whole_text
two_of zero h k = elim (absurd h) [ ]
  where
    absurd : 10 ≤ 0 → ⊥
    absurd e = omega arith
two_of (suc m) h k =
    more_digits (suc m) (suc m) h
    ∙ ap (λ t. t ++ ((48 + suc m % 10) ∷ [])) (one_digit m (suc m / 10) (omega arith))

pad_start-two : (n : ℕ) → n < 100 → pad_start (whole_text n) ≡ (48 + n / 10) ∷ (48 + n % 10) ∷ []
unfolding pad_start
pad_start-two n h = at_size (ltb n 10) refl
  where
    at_size :
        (b : Bool)
        → ltb n 10 ≡ b
        → (if ltb (length (whole_text n)) 2 then 48 ∷ whole_text n else whole_text n)
          ≡ (48 + n / 10) ∷ (48 + n % 10) ∷ []
    at_size true e =
        let small : n < 10 = ground arith in
        rw (one_text n small)
          (ap₂ (λ a b. a ∷ b ∷ []) (omega (arith, small)) (omega (arith, small)))
    at_size false e = rw (two_of n (ground arith) h) refl

-- The text that PayPal is sent for a pack, read as whole units, a point and exactly two digits, is
-- the pack's number of cents; its currency is the site's.
pub credit_topup_amount-cents_from :
    (money : Money) (pack_cents : ℕ)
    → (cents_from 0 (credit_topup_amount money pack_cents).value ≡ some pack_cents)
      × ((credit_topup_amount money pack_cents).currency ≡ money.currency)
unfolding credit_topup_amount whole_text
credit_topup_amount-cents_from money pack_cents =
    let whole = pack_cents / 100 in
    let rest = pack_cents % 100 in
    let digits = digits_of-value (suc whole) whole (omega arith) in
    (
      cents_from-append 0 (digits_of (suc whole) whole) _ digits.0
          ∙ ap (λ n. two_digits n (pad_start (whole_text rest))) digits.1
          ∙ ap (two_digits whole) (pad_start-two rest (omega arith))
          ∙ ap some sum,
      refl,
    )
  where
    sum :
        pack_cents / 100 * 100
          + (48 + pack_cents % 100 / 10 - 48) * 10
          + (48 + pack_cents % 100 % 10 - 48)
        ≡ pack_cents
    sum = omega arith

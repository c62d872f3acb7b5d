-- ===== src/Rank/Extremes.antt =====
-- The highest and the lowest featured amount, and what holds of them.
use native.Mathlib.Decide.{dec_le}
use directory_platform.Common.{ℕ, ◌≤◌, max, ◌⊎◌, inl, inr, List, [], ◌∷◌, arith, All}
use directory_platform.Rank.{max_of, min_of}

-- Some amount of the list has the property.
abbrev pub Exists : (ℕ → Type 0) → List ℕ → Type 0
Exists P [] = ⊥
Exists P (x ∷ xs) = P x ⊎ Exists P xs

-- Above every featured amount: first place is being taken, at ten per cent and five units more

module _ (P : ℕ → Type 0) (down : (f g : ℕ) → f ≤ g → P g → P f) where
  -- What holds downwards holds of the highest amount exactly if it holds of them all,
  pub max_of-All : (x : ℕ) (xs : List ℕ) → P (max_of x xs) → All P (x ∷ xs)
  unfolding max_of
  max_of-All x [] h = (h, tt)
  max_of-All x (y ∷ ys) h =
      (down x _ (omega arith) h, max_of-All y ys (down (max_of y ys) _ (omega arith) h))

  pub All-max_of : (x : ℕ) (xs : List ℕ) → All P (x ∷ xs) → P (max_of x xs)
  unfolding max_of
  All-max_of x [] h = h.0
  All-max_of x (y ∷ ys) h = max_of_two (All-max_of y ys h.1) h.0
    where
      max_of_two : P (max_of y ys) → P x → P (max x (max_of y ys))
      max_of_two p q = elim (dec_le x (max_of y ys)) [
        | yes le ↦ down _ (max_of y ys) (omega arith) p
        | no gt ↦ down _ x (omega arith) q
      ]

  -- and of the lowest exactly if it holds of one of them.
  pub min_of-Exists : (x : ℕ) (xs : List ℕ) → P (min_of x xs) → Exists P (x ∷ xs)
  unfolding min_of
  min_of-Exists x [] h = inl h
  min_of-Exists x (y ∷ ys) h = elim (dec_le x (min_of y ys)) [
    | yes le ↦ inl (down x _ (omega arith) h)
    | no gt ↦ inr (min_of-Exists y ys (down (min_of y ys) _ (omega arith) h))
  ]

  pub Exists-min_of : (x : ℕ) (xs : List ℕ) → Exists P (x ∷ xs) → P (min_of x xs)
  unfolding min_of
  Exists-min_of x [] (inl h) = h
  Exists-min_of x [] (inr h) = absurd h
  Exists-min_of x (y ∷ ys) (inl h) = down _ x (omega arith) h
  Exists-min_of x (y ∷ ys) (inr h) = down _ (min_of y ys) (omega arith) (Exists-min_of y ys h)

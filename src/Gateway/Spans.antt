-- ===== src/Gateway/Spans.antt =====
-- The times in a span, and those that reach beyond a time.
use ottie.Prelude.{
  ℕ, ◌+◌, ◌≤◌, ◌≡◌, refl, Bool, false, ◌&&◌, List, [], ◌∷◌, ◌++◌, arith, ltb, leb, length, keep_if,
  All, any,
}
use ottie.Gateway.{in_window}

-- Whether a time lies in the span of length `w` that ends at `t`, and how many do.
abbrev pub in_span : ℕ → ℕ → ℕ → Bool
in_span w t x = leb x t && ltb t (x + w)

abbrev pub count_in : ℕ → ℕ → List ℕ → ℕ
count_in w t xs = length (keep_if (in_span w t) xs)

-- The times whose span of length `w` reaches beyond `t`.
abbrev pub reaching : ℕ → ℕ → List ℕ → ℕ
reaching w t xs = length (keep_if (λ x. ltb t (x + w)) xs)

pub reaching-snoc :
    (w t x : ℕ) (xs : List ℕ) → reaching w t (xs ++ (x ∷ [])) ≡ reaching w t (x ∷ xs)
reaching-snoc w t x [] = refl
reaching-snoc w t x (y ∷ xs) = ground (arith, reaching-snoc w t x xs)

-- Of the times in a span of length `w`, all reach beyond any earlier time.
pub count_in_le : (w t now : ℕ) (xs : List ℕ) → now ≤ t → count_in w t xs ≤ reaching w now xs
count_in_le w t now [] h = omega arith
count_in_le w t now (x ∷ xs) h = ground (arith, count_in_le w t now xs h)

pub reaching_none :
    (w t high : ℕ) (xs : List ℕ) → All (λ x. x ≤ high) xs → high + w ≤ t → reaching w t xs ≡ 0
reaching_none w t high [] a h = refl
reaching_none w t high (x ∷ xs) a h = ground (arith, reaching_none w t high xs a.1 h)

-- A filter of a longer window keeps all that reach beyond `t`.
pub reaching-filtered :
    (wide w now t : ℕ) (xs : List ℕ)
    → now + w ≤ t + wide
    → reaching w t xs ≤ reaching w t (keep_if (in_window wide now) xs)
reaching-filtered wide w now t [] h = omega arith
reaching-filtered wide w now t (x ∷ xs) h = ground (arith, reaching-filtered wide w now t xs h)

pub reaching_le :
    (wide w now : ℕ) (xs : List ℕ)
    → w ≤ wide
    → reaching w now xs ≤ length (keep_if (in_window wide now) xs)
reaching_le wide w now [] h = omega arith
reaching_le wide w now (x ∷ xs) h = ground (arith, reaching_le wide w now xs h)

-- Where no time is in the longer window, none reaches beyond `t`.
pub reaching_stale :
    (wide w now t : ℕ) (xs : List ℕ)
    → now + w ≤ t + wide
    → any (in_window wide now) xs ≡ false
    → reaching w t xs ≡ 0
reaching_stale wide w now t [] h none' = refl
reaching_stale wide w now t (x ∷ xs) h none' = ground (arith, reaching_stale wide w now t xs h)

pub All-later : (a b : ℕ) (xs : List ℕ) → a ≤ b → All (λ x. x ≤ a) xs → All (λ x. x ≤ b) xs
All-later a b [] h all = tt
All-later a b (x ∷ xs) h all = (omega arith, All-later a b xs h all.1)

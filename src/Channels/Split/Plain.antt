-- ===== src/Channels/Split/Plain.antt =====
-- A message without code blocks: the splitting ends, and loses nothing but white space.
use ottie.Prelude.{
  ℕ, zero, suc, ◌<◌, ◌≤◌, ◌≡◌, inl, inr, refl, sym, ap, ◌∙◌, Bool, true, false, not, some, List, [],
  ◌∷◌, ◌++◌, ◌==◌, leb, arith, length, take, drop, keep_if, length-drop, All, Bool-cases,
  if◌then◌else◌,
}
use ottie.Channels.Split.{
  Runes, effective_limit, natural_end, skip_white, plain_cut, cut_at, split_round, split_from, Cut,
}
use ottie.Channels.Split.Search.{find_unclosed-none, is_white}

-- No rune is a backtick.
abbrev pub IsPlain : Runes → Type 0
IsPlain s = All (λ c. c == b'`' ≡ false) s

-- The runes that are not white.
abbrev pub ink : Runes → Runes
ink s = keep_if (λ c. not (is_white c)) s

abbrev pub concat : List Runes → Runes
concat [] = []
concat (chunk ∷ chunks) = chunk ++ concat chunks

ink-append : (s t : Runes) → ink (s ++ t) ≡ ink s ++ ink t
ink-append [] t = refl
ink-append (c ∷ s) t = elim (Bool-cases (is_white c)) [
  | inl e ↦ rw e (ink-append s t)
  | inr e ↦ rw e (ap (λ l. c ∷ l) (ink-append s t))
]

ink-skip_white : (s : Runes) → ink (skip_white s) ≡ ink s
unfolding skip_white
ink-skip_white [] = refl
ink-skip_white (c ∷ s) = by_rune (is_white c) refl (ink-skip_white s)
  where
    by_rune :
        (b : Bool)
        → is_white c ≡ b
        → ink (skip_white s) ≡ ink s
        → ink (if b then skip_white s else c ∷ s) ≡ ink (c ∷ s)
    by_rune true e h = rw e h
    by_rune false e h = refl

append_nil : (s : Runes) → s ++ [] ≡ s
append_nil [] = refl
append_nil (c ∷ s) = ap (λ l. c ∷ l) (append_nil s)

length-skip_white : (s : Runes) → length (skip_white s) ≤ length s
unfolding skip_white
length-skip_white [] = omega arith
length-skip_white (c ∷ s) = ground (arith, length-skip_white s)

skip_white-IsPlain : (s : Runes) → IsPlain s → IsPlain (skip_white s)
unfolding skip_white
skip_white-IsPlain [] h = tt
skip_white-IsPlain (c ∷ s) h = elim (Bool-cases (is_white c)) [
  | inl e ↦ rw e (skip_white-IsPlain s h.1)
  | inr e ↦ rw e h
]

drop-IsPlain : (m : ℕ) (s : Runes) → IsPlain s → IsPlain (drop m s)
drop-IsPlain zero s h = h
drop-IsPlain (suc m) [] h = tt
drop-IsPlain (suc m) (c ∷ s) h = drop-IsPlain m s h.1

take-drop : (m : ℕ) (s : Runes) → take m s ++ drop m s ≡ s
take-drop zero s = refl
take-drop (suc m) [] = refl
take-drop (suc m) (c ∷ s) = ap (λ l. c ∷ l) (take-drop m s)

-- A cut takes something, keeps the ink, and leaves no backtick.
abbrev IsStep : Runes → Cut → Type 0
IsStep s cut = (length cut.1 < length s) × (ink cut.0 ++ ink cut.1 ≡ ink s) × IsPlain cut.1

end-IsStep :
    (m : ℕ) (s : Runes)
    → 1 ≤ m
    → 1 ≤ length s
    → IsPlain s
    → IsStep s (take m s, skip_white (drop m s))
end-IsStep m s pos-m pos-s h = (
  omega (arith, length-skip_white (drop m s), length-drop m s, pos-m, pos-s),
  rw (ink-skip_white (drop m s)) (sym (ink-append (take m s) (drop m s)) ∙ ap ink (take-drop m s)),
  skip_white-IsPlain (drop m s) (drop-IsPlain m s h),
)

effective_pos : (n : ℕ) → 1 ≤ n → 1 ≤ effective_limit n
effective_pos n h = ground arith

module _ (trim_space : Runes → Runes) where
  round-IsStep :
      (n : ℕ) (s : Runes) → 1 ≤ n → 1 ≤ length s → IsPlain s → IsStep s (split_round trim_space n s)
  unfolding split_round cut_at plain_cut
  round-IsStep n s pos-n pos-s h =
      let cut = natural_end s (effective_limit n) in
      rw (find_unclosed-none s cut h) (elim (Bool-cases (cut == 0)) [
        | inl e ↦ rw e (end-IsStep (effective_limit n) s (effective_pos n pos-n) pos-s h)
        | inr e ↦ rw e (end-IsStep cut s (ground arith) pos-s h)
      ])

  -- A message without a backtick is split, for any positive limit, within as many rounds as it has runes, and its
  -- chunks in order have exactly its runes that are not white space.
  pub split_from-IsPlain :
      (fuel n : ℕ) (s : Runes)
      → 1 ≤ n
      → length s ≤ fuel
      → IsPlain s
      → (chunks : List Runes) × (split_from trim_space fuel n s ≡ some chunks)
        × (ink (concat chunks) ≡ ink s)
  unfolding split_from
  split_from-IsPlain fuel n [] pos-n le h = ([], refl, refl)
  split_from-IsPlain zero n (c ∷ s) pos-n le h = absurd (omega (arith, le))
  split_from-IsPlain (suc fuel) n (c ∷ s) pos-n le h =
      let (less, kept, plain) = round-IsStep n (c ∷ s) pos-n (omega arith) h in
      let (chunk, rest) = split_round trim_space n (c ∷ s) in
      let (chunks, e, same) =
        split_from-IsPlain fuel n rest pos-n (omega (arith, less, le)) plain in
      elim (Bool-cases (leb (length (c ∷ s)) n)) [
        | inl y ↦ ((c ∷ s) ∷ [], rw y refl, ap ink (append_nil (c ∷ s)))
        | inr y ↦
            (chunk ∷ chunks, rw y (rw e refl), ink-append chunk (concat chunks) ∙ rw same kept)
      ]

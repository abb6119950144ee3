-- ===== src/Channels/Split/Search.antt =====
-- split.go: the searches. An index is into the list; a range ends before its end.
use ottie.Prelude.{
  ℕ, zero, suc, ◌+◌, ◌-◌, ◌<◌, ◌≡◌, inl, inr, refl, Bool, true, false, ◌&&◌, ◌||◌, Option, none,
  some, List, [], ◌∷◌, ◌==◌, leb, ltb, arith, All, Bool-cases, if◌then◌else◌,
}

abbrev pub is_white : ℕ → Bool
is_white c = c == b' ' || (c == b'\t' || (c == b'\n' || c == b'\r'))

-- The last index from `lo` on and before `end` at which the test holds, where the list starts at index i.
unfoldable pub find_last : (ℕ → Bool) → ℕ → ℕ → ℕ → Option ℕ → List ℕ → Option ℕ
find_last p i lo end found [] = found
find_last p i lo end found (c ∷ s) =
    find_last p (suc i) lo end (if leb lo i && (ltb i end && p c) then some i else found) s

-- `findLastNewlineInRange` within the last `window` runes of the range.
unfoldable pub find_last_newline : List ℕ → ℕ → ℕ → Option ℕ
unfolding find_last
find_last_newline s end window = find_last (λ c. c == b'\n') 0 (end - window) end none s

unfoldable pub find_last_space : List ℕ → ℕ → ℕ → Option ℕ
unfolding find_last
find_last_space s end window = find_last (λ c. c == b' ' || c == b'\t') 0 (end - window) end none s

-- Three backticks at the head.
unfoldable pub is_fence : List ℕ → Bool
is_fence (a ∷ b ∷ c ∷ s) = a == b'`' && (b == b'`' && c == b'`')
is_fence _ = false

abbrev pub toggled : Option ℕ → ℕ → Option ℕ
toggled none i = some i
toggled (some j) i = none

-- The loop of findLastUnclosedCodeBlockInRange: the open block's index, and the runes of a fence still to skip.
unfoldable pub unclosed_from : ℕ → ℕ → ℕ → Option ℕ → List ℕ → Option ℕ
unfolding is_fence
unclosed_from i end skip open' [] = open'
unclosed_from i end (suc skip) open' (c ∷ s) = unclosed_from (suc i) end skip open' s
unclosed_from i end zero open' (c ∷ s) =
    let here = ltb (i + 2) end && is_fence (c ∷ s) in
    unclosed_from (suc i) end (if here then 2 else 0) (if here then toggled open' i else open') s

unfoldable pub find_unclosed : List ℕ → ℕ → Option ℕ
unfolding unclosed_from
find_unclosed s end = unclosed_from 0 end 0 none s

-- The index after the next fence, from an index on.
unfoldable pub closing_from : ℕ → ℕ → List ℕ → Option ℕ
unfolding is_fence
closing_from i from [] = none
closing_from i from (c ∷ s) =
    let later = closing_from (suc i) from s in
    if leb from i && is_fence (c ∷ s) then some (i + 3) else later

unfoldable pub find_next_closing : List ℕ → ℕ → Option ℕ
unfolding closing_from
find_next_closing s from = closing_from 0 from s

unfoldable pub newline_from : ℕ → ℕ → List ℕ → Option ℕ
newline_from i from [] = none
newline_from i from (c ∷ s) =
    let later = newline_from (suc i) from s in if leb from i && c == b'\n' then some i else later

unfoldable pub find_newline_from : List ℕ → ℕ → Option ℕ
unfolding newline_from
find_newline_from s from = newline_from 0 from s

-- A found index lies before the end.
abbrev pub IsBelow : ℕ → Option ℕ → Type 0
IsBelow end none = Unit
IsBelow end (some i) = i < end

find_last-IsBelow :
    (p : ℕ → Bool) (i lo end : ℕ) (found : Option ℕ) (s : List ℕ)
    → IsBelow end found
    → IsBelow end (find_last p i lo end found s)
unfolding find_last
find_last-IsBelow p i lo end found [] h = h
find_last-IsBelow p i lo end found (c ∷ s) h =
    find_last-IsBelow p (suc i) lo end _ s (kept (leb lo i && (ltb i end && p c)) refl)
  where
    kept :
        (b : Bool) → leb lo i && (ltb i end && p c) ≡ b → IsBelow end (if b then some i else found)
    kept true e = ground arith
    kept false e = h

pub find_last_newline-IsBelow :
    (s : List ℕ) (end window : ℕ) → IsBelow end (find_last_newline s end window)
unfolding find_last_newline
find_last_newline-IsBelow s end window = find_last-IsBelow _ 0 (end - window) end none s tt

pub find_last_space-IsBelow :
    (s : List ℕ) (end window : ℕ) → IsBelow end (find_last_space s end window)
unfolding find_last_space
find_last_space-IsBelow s end window = find_last-IsBelow _ 0 (end - window) end none s tt

unclosed_from-IsBelow :
    (i end skip : ℕ) (open' : Option ℕ) (s : List ℕ)
    → IsBelow end open'
    → IsBelow end (unclosed_from i end skip open' s)
unfolding unclosed_from
unclosed_from-IsBelow i end skip open' [] h = h
unclosed_from-IsBelow i end (suc skip) open' (c ∷ s) h =
    unclosed_from-IsBelow (suc i) end skip open' s h
unclosed_from-IsBelow i end zero open' (c ∷ s) h =
    unclosed_from-IsBelow (suc i) end _ _ s
      (kept (ltb (i + 2) end && is_fence (c ∷ s)) refl open' h)
  where
    kept :
        (b : Bool)
        → ltb (i + 2) end && is_fence (c ∷ s) ≡ b
        → (o : Option ℕ) → IsBelow end o
        → IsBelow end (if b then toggled o i else o)
    kept true e none h = ground arith
    kept true e (some j) h = tt
    kept false e o h = h

pub find_unclosed-IsBelow : (s : List ℕ) (end : ℕ) → IsBelow end (find_unclosed s end)
unfolding find_unclosed
find_unclosed-IsBelow s end = unclosed_from-IsBelow 0 end 0 none s tt

-- Without a backtick there is no fence.
pub no_fence : (s : List ℕ) → All (λ c. c == b'`' ≡ false) s → is_fence s ≡ false
unfolding is_fence
no_fence [] h = refl
no_fence (a ∷ []) h = refl
no_fence (a ∷ b ∷ []) h = refl
no_fence (a ∷ b ∷ c ∷ s) h = ground (arith, h.0)

unclosed_from-none :
    (i end : ℕ) (s : List ℕ) → All (λ c. c == b'`' ≡ false) s → unclosed_from i end 0 none s ≡ none
unfolding unclosed_from
unclosed_from-none i end [] h = refl
unclosed_from-none i end (c ∷ s) h =
    let rest = unclosed_from-none (suc i) end s h.1 in
    rw (no_fence (c ∷ s) h)
      (elim (Bool-cases (ltb (i + 2) end)) [ inl e ↦ rw e rest | inr e ↦ rw e rest ])

pub find_unclosed-none :
    (s : List ℕ) (end : ℕ) → All (λ c. c == b'`' ≡ false) s → find_unclosed s end ≡ none
unfolding find_unclosed
find_unclosed-none s end h = unclosed_from-none 0 end s h

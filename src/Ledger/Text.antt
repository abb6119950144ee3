-- ===== src/Ledger/Text.antt =====
-- actionlog.go, `contains` and `containsAny`: the hand-written substring search over bytes.
use Prim.Native.Char.{code}
use ottie.Prelude.{
  ℕ, ◌≡◌, ◌↔◌, refl, ap, String, Bool, true, false, List, [], ◌∷◌, ◌++◌, arith, ◌==◌, ◌&&◌,
  if◌then◌else◌, inl, inr, Bool-cases, leb, length, take, drop, length-append, ◌∙◌,
}

-- The bytes of an ASCII text.
abbrev pub bytes : String → List ℕ
bytes String.[] = []
bytes (String.◌∷◌ c s) = code c ∷ bytes s

-- `==` on strings
unfoldable pub equal_bytes : List ℕ → List ℕ → Bool
equal_bytes [] [] = true
equal_bytes [] (y ∷ ys) = false
equal_bytes (x ∷ xs) [] = false
equal_bytes (x ∷ xs) (y ∷ ys) = x == y && equal_bytes xs ys

-- The loop of `contains` at `s[i:]`: the bound `i+len(sub) <= len(s)` is a bound on what is left.
unfoldable pub search_from : List ℕ → List ℕ → Bool
unfolding equal_bytes
search_from [] sub = false
search_from (x ∷ s) sub =
    if leb (length sub) (length (x ∷ s))
    then (if equal_bytes (take (length sub) (x ∷ s)) sub then true else search_from s sub)
    else false

unfoldable pub contains : List ℕ → List ℕ → Bool
unfolding search_from
contains s [] = true
contains s (b ∷ sub) = search_from s (b ∷ sub)

unfoldable pub contains_any : List ℕ → List (List ℕ) → Bool
contains_any s [] = false
contains_any s (sub ∷ subs) = if contains s sub then true else contains_any s subs

equal_bytes-eq : (xs ys : List ℕ) → equal_bytes xs ys ≡ true → xs ≡ ys
unfolding equal_bytes
equal_bytes-eq [] [] h = refl
equal_bytes-eq [] (y ∷ ys) h = cc
equal_bytes-eq (x ∷ xs) [] h = cc
equal_bytes-eq (x ∷ xs) (y ∷ ys) h = ground (arith, equal_bytes-eq xs ys)

equal_bytes_refl : (xs : List ℕ) → equal_bytes xs xs ≡ true
unfolding equal_bytes
equal_bytes_refl [] = refl
equal_bytes_refl (x ∷ xs) = ground (arith, equal_bytes_refl xs)

take-append : (xs ys : List ℕ) → take (length xs) (xs ++ ys) ≡ xs
take-append [] ys = refl
take-append (x ∷ xs) ys = ap (λ l. x ∷ l) (take-append xs ys)

take-drop : (xs sub : List ℕ) → take (length sub) xs ≡ sub → xs ≡ sub ++ drop (length sub) xs
take-drop xs [] h = refl
take-drop [] (y ∷ sub) h = cc
take-drop (x ∷ xs) (y ∷ sub) h = cc (take-drop xs sub (cc))

-- `sub` stands in `s`.
abbrev pub Occurs : List ℕ → List ℕ → Type 0
Occurs sub s = (before : List ℕ) × (after : List ℕ) × (s ≡ before ++ (sub ++ after))

search_from-Occurs : (s sub : List ℕ) → search_from s sub ≡ true → Occurs sub s
unfolding search_from
search_from-Occurs [] sub h = cc
search_from-Occurs (x ∷ s) sub h = elim (Bool-cases (equal_bytes (take (length sub) (x ∷ s)) sub)) [
  | inl e ↦ ([], drop (length sub) (x ∷ s), take-drop (x ∷ s) sub (equal_bytes-eq _ sub e))
  | inr n ↦
      let (before, after, e) = search_from-Occurs s sub (ground arith) in
      (x ∷ before, after, ap (λ l. x ∷ l) e)
]

search_from-here :
    (x : ℕ) (s sub after : List ℕ) → x ∷ s ≡ sub ++ after → search_from (x ∷ s) sub ≡ true
unfolding search_from
search_from-here x s sub after e =
    let same : equal_bytes (take (length sub) (x ∷ s)) sub ≡ true =
      rw e (rw take-append (equal_bytes_refl sub)) in
    let long = ap length e ∙ length-append sub after in ground (arith, same, long)

Occurs-search_from :
    (s before : List ℕ) (b : ℕ) (sub after : List ℕ)
    → s ≡ before ++ ((b ∷ sub) ++ after)
    → search_from s (b ∷ sub) ≡ true
unfolding search_from
Occurs-search_from [] [] b sub after e = cc
Occurs-search_from [] (y ∷ before) b sub after e = cc
Occurs-search_from (x ∷ s) [] b sub after e = search_from-here x s (b ∷ sub) after e
Occurs-search_from (x ∷ s) (y ∷ before) b sub after e =
    let rest = Occurs-search_from s before b sub after (cc) in
    let long = ap length e ∙ length-append (y ∷ before) ((b ∷ sub) ++ after) in
    let long' = length-append (b ∷ sub) after in ground (arith, rest, long, long')

-- The hand-written `contains` finds a byte string exactly when it stands somewhere in the other.
pub contains_iff : (s sub : List ℕ) → (contains s sub ≡ true) ↔ Occurs sub s
unfolding contains
contains_iff s [] = (λ h. ([], s, refl), λ h. refl)
contains_iff s (b ∷ sub) =
    (search_from-Occurs s (b ∷ sub), λ o. Occurs-search_from s o.0 b sub o.1 o.2)

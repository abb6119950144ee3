-- ===== src/ExecManifest/Turns/Fresh.antt =====
-- The invariant of the turns in flight: their numbers are distinct and not yet recorded.
use ottie.Prelude.{
  ℕ, ◌≤◌, ◌<◌, ◌≡◌, ◌≢◌, refl, sym, String, false, none, some, List, [], ◌∷◌, ◌++◌, arith, All,
}
use ottie.Prelude.Dict.{lookup}
use ottie.ExecManifest.Rows.{TraceRow, has_turn}
use ottie.ExecManifest.Reads.{select_max_turn}
use ottie.ExecManifest.Turns.{Counters, Turn, seeding, seeded, holding, pending}

-- A turn above the largest recorded one is not recorded.
pub above_max :
    (session : String) (n : ℕ) (rows : List TraceRow)
    → select_max_turn session rows < n
    → has_turn session n rows ≡ false
unfolding select_max_turn
above_max session n [] lt = refl
above_max session n (r ∷ rows) lt = ground (arith, above_max session n rows)

-- Two turns with a number do not have the same one in the same session.
abbrev pub Differs : Turn → Turn → Type 0
Differs (pending s n) (pending s' n') = s ≡ s' → n ≢ n'
Differs _ _ = Unit

abbrev pub Apart : List Turn → Type 0
Apart [] = Unit
Apart (t ∷ ts) = All (Differs t) ts × Apart ts

-- A seed is current while its session has no cell; a cell that is held is the session's; a number is covered by the
-- session's cell, and not recorded.
abbrev pub IsOpen : Counters → List TraceRow → Turn → Type 0
IsOpen cs rows (seeding s) = Unit
IsOpen cs rows (seeded s seed) =
    lookup s cs.index ≡ none → (n : ℕ) → seed < n → has_turn s n rows ≡ false
IsOpen cs rows (holding s a) = lookup s cs.index ≡ some a
IsOpen cs rows (pending s n) =
    (a : ℕ) × (lookup s cs.index ≡ some a) × (n ≤ cs.cells a) × (has_turn s n rows ≡ false)

-- Cells that are not new, one for each session, above which no turn is recorded; turns in flight that are open
-- and apart.
pub record IsFresh (cs : Counters) (rows : List TraceRow) (turns : List Turn) : Type 0 where
  pub old : (s : String) (a : ℕ) → lookup s cs.index ≡ some a → a < cs.next
  pub own :
      (s s' : String) (a : ℕ) → lookup s cs.index ≡ some a → lookup s' cs.index ≡ some a → s ≡ s'
  pub above :
      (s : String) (a n : ℕ)
      → lookup s cs.index ≡ some a
      → cs.cells a < n
      → has_turn s n rows ≡ false
  pub open' : All (IsOpen cs rows) turns
  pub apart : Apart turns

pub All-map :
    {A : Type 0} (P Q : A → Type 0) (xs : List A) → ((x : A) → P x → Q x) → All P xs → All Q xs
All-map P Q [] f h = tt
All-map P Q (x ∷ xs) f h = (f x h.0, All-map P Q xs f h.1)

pub All-zip :
    {A : Type 0} (P Q R : A → Type 0) (xs : List A)
    → ((x : A) → P x → Q x → R x)
    → All P xs
    → All Q xs
    → All R xs
All-zip P Q R [] f h k = tt
All-zip P Q R (x ∷ xs) f h k = (f x h.0 k.0, All-zip P Q R xs f h.1 k.1)

-- A member taken out of a list.
pub All-without :
    {A : Type 0} (P : A → Type 0) (before : List A) (x : A) (after : List A)
    → All P (before ++ (x ∷ after))
    → P x × All P (before ++ after)
All-without P [] x after h = h
All-without P (y ∷ before) x after h =
    let (p, rest) = All-without P before x after h.1 in (p, (h.0, rest))

Differs-sym : (p q : Turn) → Differs p q → Differs q p
Differs-sym (seeding s) (seeding s') d = tt
Differs-sym (seeding s) (seeded s' n') d = tt
Differs-sym (seeding s) (holding s' a') d = tt
Differs-sym (seeding s) (pending s' n') d = tt
Differs-sym (seeded s n) (seeding s') d = tt
Differs-sym (seeded s n) (seeded s' n') d = tt
Differs-sym (seeded s n) (holding s' a') d = tt
Differs-sym (seeded s n) (pending s' n') d = tt
Differs-sym (holding s a) (seeding s') d = tt
Differs-sym (holding s a) (seeded s' n') d = tt
Differs-sym (holding s a) (holding s' a') d = tt
Differs-sym (holding s a) (pending s' n') d = tt
Differs-sym (pending s n) (seeding s') d = tt
Differs-sym (pending s n) (seeded s' n') d = tt
Differs-sym (pending s n) (holding s' a') d = tt
Differs-sym (pending s n) (pending s' n') d = λ e f. d (sym e) (sym f)

pub Apart-without :
    (before : List Turn) (t : Turn) (after : List Turn)
    → Apart (before ++ (t ∷ after))
    → All (Differs t) (before ++ after) × Apart (before ++ after)
Apart-without [] t after h = h
Apart-without (q ∷ before) t after h =
    let (d, rest) = Apart-without before t after h.1 in
    let (dq, rest') = All-without (Differs q) before t after h.0 in
    ((Differs-sym q t dq, d), (rest', rest))

pub drop-IsFresh :
    (cs : Counters) (rows : List TraceRow) (before after : List Turn) (t : Turn)
    → IsFresh cs rows (before ++ (t ∷ after))
    → IsFresh cs rows (before ++ after)
drop-IsFresh cs rows before after t h = record {
  old = h.old;
  own = h.own;
  above = h.above;
  open' = (All-without (IsOpen cs rows) before t after h.open').1;
  apart = (Apart-without before t after h.apart).1;
}

-- A turn with no number is apart from any.
abbrev pub HasNoNumber : Turn → Type 0
HasNoNumber (pending s n) = ⊥
HasNoNumber _ = Unit

no_number-Differs : (t q : Turn) → HasNoNumber t → Differs t q
no_number-Differs (seeding s) q h = tt
no_number-Differs (seeded s n) q h = tt
no_number-Differs (holding s a) q h = tt
no_number-Differs (pending s n) q h = absurd h

All-always : {A : Type 0} (P : A → Type 0) (xs : List A) → ((x : A) → P x) → All P xs
All-always P [] f = tt
All-always P (x ∷ xs) f = (f x, All-always P xs f)

-- A turn without a number joins the others.
pub join-IsFresh :
    (cs : Counters) (rows : List TraceRow) (turns : List Turn) (t : Turn)
    → HasNoNumber t
    → IsOpen cs rows t
    → IsFresh cs rows turns
    → IsFresh cs rows (t ∷ turns)
join-IsFresh cs rows turns t no_number o h = record {
  old = h.old;
  own = h.own;
  above = h.above;
  open' = (o, h.open');
  apart = (All-always (Differs t) turns (λ q. no_number-Differs t q no_number), h.apart);
}

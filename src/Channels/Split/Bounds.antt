-- ===== src/Channels/Split/Bounds.antt =====
-- Every chunk respects the limit.
use ottie.Prelude.{
  ℕ, zero, suc, ◌+◌, ◌-◌, ◌<◌, ◌≤◌, inl, inr, min, Option, none, some, List, [], ◌∷◌, ◌==◌, leb,
  ltb, arith, length, take, length-append, All, Bool-cases, leb→le,
}
use ottie.Channels.Split.{
  Runes, effective_limit, after_start, natural_end, trim_white_right, plain_cut, closing_fence,
  fence_cut, better_end, header_of, white_or, split_block, close_or_split, cut_at, split_round,
  messages_after, add_chunk, split_from,
}
use ottie.Channels.Split.Search.{
  find_last_newline, find_last_space, find_unclosed, find_next_closing, find_newline_from, IsBelow,
  find_last_newline-IsBelow, find_last_space-IsBelow, find_unclosed-IsBelow,
}

length-take_le : (n : ℕ) (s : Runes) → length (take n s) ≤ n
length-take_le zero s = omega arith
length-take_le (suc n) [] = omega arith
length-take_le (suc n) (c ∷ s) = omega (arith, length-take_le n s)

length-trim : (s : Runes) → length (trim_white_right s) ≤ length s
unfolding trim_white_right
length-trim [] = omega arith
length-trim (c ∷ s) = ground (arith, length-trim s)

effective_le : (n : ℕ) → effective_limit n ≤ n
effective_le n = ground arith

plain_le : (n m : ℕ) (s : Runes) → m ≤ n → length (plain_cut n m s).0 ≤ n
unfolding plain_cut
plain_le n m s le = elim (Bool-cases (m == 0)) [
  | inl e ↦ rw e (omega (arith, length-take_le (effective_limit n) s, effective_le n))
  | inr e ↦ rw e (omega (arith, length-take_le m s, le))
]

after_start_le :
    (o : Option ℕ) (other end : ℕ) → IsBelow end o → other ≤ end → after_start o other ≤ end
after_start_le none other end h le = le
after_start_le (some zero) other end h le = le
after_start_le (some (suc i)) other end h le = omega (arith, h)

natural_end_le : (s : Runes) (end : ℕ) → natural_end s end ≤ end
unfolding natural_end
natural_end_le s end =
    after_start_le (find_last_newline s end 200) _ end (find_last_newline-IsBelow s end 200) (
      after_start_le (find_last_space s end 100) end end (find_last_space-IsBelow s end 100)
        (omega arith))

better_end_le :
    (o : Option ℕ) (header_end inner : ℕ) → IsBelow inner o → better_end o header_end inner ≤ inner
better_end_le none header_end inner h = omega arith
better_end_le (some i) header_end inner h = ground arith

module _ (trim_space : Runes → Runes) where
  fence_le :
      (n : ℕ) (header : Runes) (m : ℕ) (s : Runes)
      → 5 ≤ n
      → m ≤ n - 5
      → length (fence_cut trim_space header m s).0 ≤ n
  unfolding fence_cut
  fence_le n header m s big le = omega (
    arith,
    length-append (trim_white_right (take m s)) closing_fence,
    length-trim (take m s),
    length-take_le m s,
    le,
    big,
  )

  block_le :
      (n : ℕ) (s : Runes) (cut u : ℕ)
      → 5 ≤ n
      → cut ≤ n
      → u < cut
      → length (split_block trim_space n s cut u).0 ≤ n
  unfolding split_block
  block_le n s cut u big le lt =
      let newline = find_newline_from s u in
      let header = header_of trim_space s u newline in
      let inner = min (n - 5) (length s) in
      let inner_le : inner ≤ n - 5 = ground arith in
      let header_end = white_or newline (u + length header) in
      let better = better_end (find_last_newline s inner 200) header_end inner in
      let better_le : better ≤ n - 5 = omega (
        arith,
        better_end_le (find_last_newline s inner 200) header_end inner
            (find_last_newline-IsBelow s inner 200),
        inner_le,
      ) in
      let before =
        after_start (find_last_newline s u 200) (after_start (find_last_space s u 100) 0) in
      let before_le : before ≤ n = omega (
        arith,
        le,
        lt,
        after_start_le (find_last_newline s u 200) (after_start (find_last_space s u 100) 0) u
            (find_last_newline-IsBelow s u 200)
            (after_start_le (find_last_space s u 100) 0 u (find_last_space-IsBelow s u 100)
              (omega arith)),
      ) in
      elim (Bool-cases (ltb (header_end + 20) cut)) [
        | inl e ↦ rw e (fence_le n header better s big better_le)
        | inr e ↦ rw e (elim (Bool-cases (ltb 0 before)) [
          | inl f ↦ rw f (plain_le n before s before_le)
          | inr f ↦ rw f (elim (Bool-cases (ltb 20 u)) [
            | inl g ↦ rw g (plain_le n u s (omega (arith, lt, le)))
            | inr g ↦ rw g (fence_le n header inner s big inner_le)
          ])
        ])
      ]

  close_le :
      (n : ℕ) (s : Runes) (cut u : ℕ) (o : Option ℕ)
      → 5 ≤ n
      → cut ≤ n
      → u < cut
      → length (close_or_split trim_space n s cut u o).0 ≤ n
  unfolding close_or_split
  close_le n s cut u none big le lt = block_le n s cut u big le lt
  close_le n s cut u (some i) big le lt = elim (Bool-cases (leb i n)) [
    | inl e ↦ rw e (plain_le n i s (ground arith))
    | inr e ↦ rw e (block_le n s cut u big le lt)
  ]

  cut_le :
      (n : ℕ) (s : Runes) (cut : ℕ) (o : Option ℕ)
      → 5 ≤ n
      → cut ≤ n
      → IsBelow cut o
      → length (cut_at trim_space n s cut o).0 ≤ n
  unfolding cut_at
  cut_le n s cut none big le h = plain_le n cut s le
  cut_le n s cut (some u) big le h = close_le n s cut u (find_next_closing s cut) big le h

  round_le : (n : ℕ) (s : Runes) → 5 ≤ n → length (split_round trim_space n s).0 ≤ n
  unfolding split_round
  round_le n s big =
      let cut = natural_end s (effective_limit n) in
      cut_le n s cut (find_unclosed s cut) big
        (omega (arith, natural_end_le s (effective_limit n), effective_le n))
        (find_unclosed-IsBelow s cut)

  -- The chunks, if there are any, respect the limit.
  abbrev pub Fits : ℕ → Option (List Runes) → Type 0
  Fits n none = Unit
  Fits n (some chunks) = All (λ chunk. length chunk ≤ n) chunks

  add_chunk-Fits :
      (n : ℕ) (chunk : Runes) (o : Option (List Runes))
      → length chunk ≤ n
      → Fits n o
      → Fits n (add_chunk chunk o)
  add_chunk-Fits n chunk none le h = tt
  add_chunk-Fits n chunk (some chunks) le h = (le, h)

  made_le :
      (rounds n : ℕ) (s : Runes)
      → 5 ≤ n
      → All (λ chunk. length chunk ≤ n) (messages_after trim_space rounds n s)
  unfolding messages_after
  made_le rounds n [] big = tt
  made_le zero n (c ∷ s) big = tt
  made_le (suc rounds) n (c ∷ s) big =
      let (chunk, rest) = split_round trim_space n (c ∷ s) in
      let first = round_le n (c ∷ s) big in
      let others = made_le rounds n rest big in
      elim (Bool-cases (leb (length (c ∷ s)) n)) [
        | inl y ↦ rw y (leb→le (length (c ∷ s)) n y, tt)
        | inr y ↦ rw y (first, others)
      ]

  result-Fits : (fuel n : ℕ) (s : Runes) → 5 ≤ n → Fits n (split_from trim_space fuel n s)
  unfolding split_from
  result-Fits fuel n [] big = tt
  result-Fits zero n (c ∷ s) big = tt
  result-Fits (suc fuel) n (c ∷ s) big =
      let (chunk, rest) = split_round trim_space n (c ∷ s) in
      let more =
        add_chunk-Fits n chunk (split_from trim_space fuel n rest) (round_le n (c ∷ s) big)
          (result-Fits fuel n rest big) in
      elim (Bool-cases (leb (length (c ∷ s)) n)) [
        | inl y ↦ rw y (leb→le (length (c ∷ s)) n y, tt)
        | inr y ↦ rw y more
      ]

  -- After any number of rounds, whether the splitting has ended or not, every chunk that SplitMessage has made for a
  -- limit of at least five has at most as many runes as the limit, whatever strings.TrimSpace does; and so has every
  -- chunk of the result, where the rounds given are enough for one.
  pub split_from-Fits :
      (rounds n : ℕ) (s : Runes)
      → 5 ≤ n
      → All (λ chunk. length chunk ≤ n) (messages_after trim_space rounds n s)
        × Fits n (split_from trim_space rounds n s)
  split_from-Fits rounds n s big = (made_le rounds n s big, result-Fits rounds n s big)

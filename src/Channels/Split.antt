-- ===== src/Channels/Split.antt =====
-- pkg/channels/split.go: SplitMessage. Runes are numbers, and a list of them is what is left from `start` on, so
-- that an index is relative to it. strings.TrimSpace is a parameter. `maxLen-5` is not negative where
-- it is reached: a fence needs three runes within the limit.
pub mod Search
pub mod Bounds
pub mod Plain
use ottie.Prelude.{
  ℕ, zero, suc, ◌+◌, ◌-◌, ◌/◌, min, max, Bool, true, false, not, ◌&&◌, ◌||◌, Option, none, some,
  List, [], ◌∷◌, ◌++◌, ◌==◌, leb, ltb, length, take, drop, if◌then◌else◌,
}
use ottie.Prelude.Int.{ℤ, pos, negsuc}
use ottie.Channels.Split.Search.{
  find_last_newline, find_last_space, find_unclosed, find_next_closing, find_newline_from, is_white,
}

abbrev pub Runes : Type 0
Runes = List ℕ

-- The size of codeBlockBuffer.
abbrev pub code_block_buffer : ℕ → ℕ
code_block_buffer max_len =
    let wanted = max (max_len / 10) 50 in if ltb (max_len / 2) wanted then max_len / 2 else wanted

abbrev pub effective_limit : ℕ → ℕ
effective_limit max_len = max (max_len - code_block_buffer max_len) (max_len / 2)

-- A position after the start, or the next choice.
abbrev pub after_start : Option ℕ → ℕ → ℕ
after_start none other = other
after_start (some zero) other = other
after_start (some (suc i)) other = suc i

-- The last newline or space that can end a chunk, else the limit.
unfoldable pub natural_end : Runes → ℕ → ℕ
natural_end s end =
    after_start (find_last_newline s end 200) (after_start (find_last_space s end 100) end)

unfoldable pub trim_white_right : Runes → Runes
trim_white_right [] = []
trim_white_right (c ∷ s) =
    let rest = trim_white_right s in if is_white c && length rest == 0 then [] else c ∷ rest

unfoldable pub skip_white : Runes → Runes
skip_white [] = []
skip_white (c ∷ s) = let rest = skip_white s in if is_white c then rest else c ∷ s

abbrev pub closing_fence : Runes
closing_fence = b'\n' ∷ b'`' ∷ b'`' ∷ b'`' ∷ []

-- A round's chunk, and what is left.
abbrev pub Cut : Type 0
Cut = Runes × Runes

-- The end of a round, at a position; 0 is replaced by the limit.
unfoldable pub plain_cut : ℕ → ℕ → Runes → Cut
unfolding skip_white
plain_cut max_len m s =
    let end = if m == 0 then effective_limit max_len else m in (take end s, skip_white (drop end s))

abbrev pub white_or : Option ℕ → ℕ → ℕ
white_or none i = i
white_or (some h) i = h

abbrev pub better_end : Option ℕ → ℕ → ℕ → ℕ
better_end none header_end inner = inner
better_end (some i) header_end inner = if ltb header_end i then i else inner

abbrev pub add_chunk : Runes → Option (List Runes) → Option (List Runes)
add_chunk chunk none = none
add_chunk chunk (some chunks) = some (chunk ∷ chunks)

module _ (trim_space : Runes → Runes) where
  -- The line that opens a block.
  abbrev pub header_of : Runes → ℕ → Option ℕ → Runes
  header_of s u none = trim_space (take 3 (drop u s))
  header_of s u (some h) = trim_space (take (h - u) (drop u s))

  -- A chunk that closes the block, and the rest with the block opened again.
  unfoldable pub fence_cut : Runes → ℕ → Runes → Cut
  unfolding trim_white_right
  fence_cut header m s =
      (trim_white_right (take m s) ++ closing_fence, trim_space (header ++ (b'\n' ∷ drop m s)))

  -- A block that cannot be closed within the limit: split inside it, or before it.
  unfoldable pub split_block : ℕ → Runes → ℕ → ℕ → Cut
  unfolding plain_cut fence_cut
  split_block max_len s cut u =
      let newline = find_newline_from s u in
      let header = header_of s u newline in
      let header_end = white_or newline (u + length header) in
      let inner = min (max_len - 5) (length s) in
      let before =
        after_start (find_last_newline s u 200) (after_start (find_last_space s u 100) 0) in
      if ltb (header_end + 20) cut
      then fence_cut header (better_end (find_last_newline s inner 200) header_end inner) s
      else if ltb 0 before
      then plain_cut max_len before s
      else if ltb 20 u
      then plain_cut max_len u s
      else fence_cut header inner s

  unfoldable pub close_or_split : ℕ → Runes → ℕ → ℕ → Option ℕ → Cut
  unfolding plain_cut split_block
  close_or_split max_len s cut u none = split_block max_len s cut u
  close_or_split max_len s cut u (some closing) =
      if leb closing max_len then plain_cut max_len closing s else split_block max_len s cut u

  unfoldable pub cut_at : ℕ → Runes → ℕ → Option ℕ → Cut
  unfolding plain_cut close_or_split
  cut_at max_len s cut none = plain_cut max_len cut s
  cut_at max_len s cut (some u) = close_or_split max_len s cut u (find_next_closing s cut)

  -- A round on more than maxLen runes.
  unfoldable pub split_round : ℕ → Runes → Cut
  unfolding cut_at natural_end
  split_round max_len s =
      let cut = natural_end s (effective_limit max_len) in
      cut_at max_len s cut (find_unclosed s cut)

  -- The loop; `none` where the rounds given are not enough.
  unfoldable pub split_from : ℕ → ℕ → Runes → Option (List Runes)
  unfolding split_round
  split_from fuel max_len [] = some []
  split_from zero max_len (c ∷ s) = none
  split_from (suc fuel) max_len (c ∷ s) =
      let (chunk, rest) = split_round max_len (c ∷ s) in
      let more = split_from fuel max_len rest in
      if leb (length (c ∷ s)) max_len then some ((c ∷ s) ∷ []) else add_chunk chunk more

  -- `messages` after so many rounds, ended or not.
  unfoldable pub messages_after : ℕ → ℕ → Runes → List Runes
  unfolding split_round
  messages_after rounds max_len [] = []
  messages_after zero max_len (c ∷ s) = []
  messages_after (suc rounds) max_len (c ∷ s) =
      let (chunk, rest) = split_round max_len (c ∷ s) in
      let more = messages_after rounds max_len rest in
      if leb (length (c ∷ s)) max_len then (c ∷ s) ∷ [] else chunk ∷ more

  -- A maxLen that is not positive asks for no split.
  unfoldable pub split_unlimited : Runes → List Runes
  split_unlimited [] = []
  split_unlimited (c ∷ s) = (c ∷ s) ∷ []

  unfoldable pub split_message : ℕ → ℤ → Runes → Option (List Runes)
  unfolding split_from split_unlimited
  split_message fuel (negsuc n) s = some (split_unlimited s)
  split_message fuel (pos zero) s = some (split_unlimited s)
  split_message fuel (pos (suc n)) s = split_from fuel (suc n) s

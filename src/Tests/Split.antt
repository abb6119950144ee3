-- ===== src/Tests/Split.antt =====
-- A message of eight runes, with a limit of five, and a header line above the limit.
use ottie.Prelude.{◌≡◌, refl, some, List, [], ◌∷◌, arith, ℕ, zero, suc, ◌≤◌, All, length}
use ottie.Channels.Split.{Runes, split_from, messages_after, split_round}
use ottie.Channels.Split.Search.{
  find_unclosed, find_last_newline, find_last_space, find_next_closing, find_newline_from,
}
use ottie.Channels.Split.Bounds.{Fits, split_from-Fits}
use ottie.Channels.Split.Plain.{IsPlain, ink, concat, split_from-IsPlain}

abbrev message : Runes
message = b'a' ∷ b'b' ∷ b' ' ∷ b'c' ∷ b'd' ∷ b' ' ∷ b'e' ∷ b'f' ∷ []

abbrev untrimmed : Runes → Runes
untrimmed s = s

split_from-Fits_example :
    All (λ chunk. length chunk ≤ 5) (messages_after untrimmed 8 5 message)
    × Fits untrimmed 5 (split_from untrimmed 8 5 message)
split_from-Fits_example = split_from-Fits untrimmed 8 5 message (omega arith)

message-IsPlain : IsPlain message
message-IsPlain = (refl, (refl, (refl, (refl, (refl, (refl, (refl, (refl, tt))))))))

split_from-IsPlain_example :
    (chunks : List Runes) × (split_from untrimmed 8 5 message ≡ some chunks)
    × (ink (concat chunks) ≡ ink message)
split_from-IsPlain_example =
    split_from-IsPlain untrimmed 8 5 message (omega arith) (omega arith) message-IsPlain

-- A header line of 33 runes, for a limit of 30.
abbrev some_letters : ℕ → Runes
some_letters zero = b'\n' ∷ b'x' ∷ []
some_letters (suc n) = b'a' ∷ some_letters n

abbrev long_header : Runes
long_header = b'`' ∷ b'`' ∷ b'`' ∷ some_letters 30

-- A round leaves more runes than it was given, and so does the next one.
long_header_grows :
    (length long_header ≡ 35)
    × (length (split_round untrimmed 30 long_header).1 ≡ 44)
    × (length (split_round untrimmed 30 (split_round untrimmed 30 long_header).1).1 ≡ 53)
unfolding split_round find_unclosed find_last_newline find_last_space find_next_closing
    find_newline_from
long_header_grows = (refl, refl, refl)

-- ===== src/Memory/History.antt =====
-- What a reader of the history sees after each operation.
use ottie.Providers.Protocol.{Message, stored}
use ottie.Prelude.{
  ℕ, zero, suc, ◌+◌, ◌-◌, ◌≤◌, ◌≡◌, ◌≢◌, refl, sym, ap, ◌∙◌, String, Bool, true, false, ◌&&◌,
  Option, none, some, List, [], ◌∷◌, ◌++◌, map, arith, length, length-drop, drop, take, Bool-cases,
  inl, inr, All, Option-cases, if◌then◌else◌,
}
use ottie.Memory.{
  Json, Disk, read_meta, write_meta, all_fit, fits, scan, over, count_lines, set_history,
  set_writes, rewrite_jsonl, set_summary, truncate_history, decode_all, read_messages, get_history,
  append_line, write, write_all, add_writes, add_message, truncated_skip,
}

drop-append {ℓ} :
    {A : Type ℓ} (n : ℕ) (xs ys : List A) → n ≤ length xs → drop n (xs ++ ys) ≡ drop n xs ++ ys
drop-append zero xs ys h = refl
drop-append (suc n) [] ys h = elim h [ ]
drop-append (suc n) (x ∷ xs) ys h = drop-append n xs ys (omega arith)

suc_plus : (n k : ℕ) → suc n + k ≡ suc (n + k)
suc_plus n k = omega arith

drop-drop {ℓ} : {A : Type ℓ} (n k : ℕ) (xs : List A) → drop k (drop n xs) ≡ drop (n + k) xs
drop-drop zero k xs = ap (λ m. drop m xs) (let e : k ≡ zero + k = omega arith in e)
drop-drop (suc n) zero [] = rw suc_plus refl
drop-drop (suc n) (suc k) [] = rw suc_plus refl
drop-drop (suc n) k (x ∷ xs) = rw suc_plus (drop-drop n k xs)

-- A session with no torn line, whose skip is within its lines.
pub record IsClean {L : Type 0} (key : String) (d : Disk L) : Type 0 where
  pub whole : d.tail ≡ none
  pub within : (read_meta key d).skip ≤ length d.lines

module _ {L A : Type 0} (json : Json L A) where
  open json use {decode, encode, join}

  pub decode_all-append :
      (xs ys : List L) → decode_all json (xs ++ ys) ≡ decode_all json xs ++ decode_all json ys
  unfolding decode_all
  decode_all-append [] ys = refl
  decode_all-append (x ∷ xs) ys = ground (arith, decode_all-append xs ys)

  decode_all-encode : (ms : List (Message A)) → decode_all json (map encode ms) ≡ map stored ms
  unfolding decode_all
  decode_all-encode [] = refl
  decode_all-encode (m ∷ ms) = ground (arith, json.decode-encode m, decode_all-encode ms)

  pub all_fit-append :
      (xs ys : List L) → all_fit json (xs ++ ys) ≡ (all_fit json xs && all_fit json ys)
  unfolding all_fit
  all_fit-append [] ys = refl
  all_fit-append (x ∷ xs) ys = ground (arith, all_fit-append xs ys)

  -- The history that reads back as these messages, if each line fits the reader.
  abbrev pub readable : List (Message A) → Option (List (Message A))
  readable ms = if all_fit json (map encode ms) then some (map stored ms) else none

  abbrev pub appended : Option (List (Message A)) → Message A → Option (List (Message A))
  appended none m = none
  appended (some ms) m = some (ms ++ (m ∷ []))

  -- A reader from `skip` on of lines, the last of which is new.
  read_snoc :
      (skip : ℕ) (lines : List L) (msg : Message A)
      → skip ≤ length lines
      → over
          (λ ls. decode_all json (drop skip ls))
          (if all_fit json (lines ++ (encode msg ∷ []))
            then some (lines ++ (encode msg ∷ []))
            else none)
        ≡ (if fits json (encode msg)
            then appended
                (over
                  (λ ls. decode_all json (drop skip ls))
                  (if all_fit json lines then some lines else none))
                (stored msg)
            else none)
  unfolding all_fit
  read_snoc skip lines msg h =
      rw (all_fit-append lines (encode msg ∷ []))
        (by_fits (all_fit json lines) (fits json (encode msg)))
    where
      one :
          decode_all json (drop skip (lines ++ (encode msg ∷ [])))
          ≡ decode_all json (drop skip lines) ++ (stored msg ∷ [])
      one =
          ap (decode_all json) (drop-append skip lines (encode msg ∷ []) h)
          ∙ decode_all-append (drop skip lines) (encode msg ∷ [])
          ∙ ap (λ t. decode_all json (drop skip lines) ++ t) (decode_all-encode (msg ∷ []))

      by_fits :
          (b c : Bool)
          → over
              (λ ls. decode_all json (drop skip ls))
              (if b && (c && true) then some (lines ++ (encode msg ∷ [])) else none)
            ≡ (if c
                then appended
                    (over (λ ls. decode_all json (drop skip ls)) (if b then some lines else none))
                    (stored msg)
                else none)
      by_fits true true = ap some one
      by_fits true false = refl
      by_fits false true = refl
      by_fits false false = refl

  -- In a session with no torn line, AddMessage appends to the history what the JSON keeps of the new message, if its
  -- line fits the reader, and so does a crash after its first write; a longer line makes the history
  -- unreadable from then on.
  pub history-add_message :
      (now : ℕ) (key : String) (msg : Message A) (d : Disk L)
      → IsClean key d
      → let after =
          if fits json (encode msg) then appended (get_history json key d) (stored msg) else none in
        (get_history json key (add_message json now key msg d) ≡ after)
        × (get_history json key (write_all json (take 1 (add_writes json now key msg d)) d) ≡ after)
  unfolding get_history read_messages scan add_message add_writes write_all write append_line
      write_meta read_meta
  history-add_message now key msg d h =
      let snoc = read_snoc (read_meta key d).skip d.lines msg h.within in
      (rw h.whole snoc, rw h.whole snoc)

  -- Lines that were written of messages.
  pub read_rewritten :
      (ms : List (Message A))
      → over
          (λ ls. decode_all json (drop 0 ls))
          (if all_fit json (map encode ms) then some (map encode ms) else none)
        ≡ readable ms
  read_rewritten ms = elim (Bool-cases (all_fit json (map encode ms))) [
    | inl e ↦ rw e (ap some (decode_all-encode ms))
    | inr e ↦ rw e refl
  ]

  length-decode_all :
      (ls : List L) → All (λ l. json.decode l ≢ none) ls → length (decode_all json ls) ≡ length ls
  unfolding decode_all
  length-decode_all [] h = refl
  length-decode_all (l ∷ ls) h = ground (arith, length-decode_all ls h.1, h.0)

  decode_all-drop :
      (n : ℕ) (ls : List L)
      → All (λ l. json.decode l ≢ none) ls
      → decode_all json (drop n ls) ≡ drop n (decode_all json ls)
  unfolding decode_all
  decode_all-drop zero ls h = refl
  decode_all-drop (suc n) [] h = refl
  decode_all-drop (suc n) (l ∷ ls) h = elim (Option-cases (decode l)) [
    | inl e ↦ absurd (h.0 e)
    | inr (m, e) ↦ rw (e, decode_all) (decode_all-drop n ls h.1)
  ]

  All-drop : (P : L → Type 0) (n : ℕ) (ls : List L) → All P ls → All P (drop n ls)
  All-drop P zero ls h = h
  All-drop P (suc n) [] h = tt
  All-drop P (suc n) (l ∷ ls) h = All-drop P n ls h.1

  truncated_skip_lem : (k n skip : ℕ) → skip ≤ n → truncated_skip k n skip ≡ skip + (n - skip - k)
  truncated_skip_lem zero n skip h = omega arith
  truncated_skip_lem (suc k) n skip h = ground arith

  -- Reading from the skip that a truncation sets.
  read_truncated :
      (k skip : ℕ) (lines : List L) (old : List (Message A)) (b : Bool)
      → skip ≤ length lines
      → All (λ l. json.decode l ≢ none) lines
      → over (λ ls. decode_all json (drop skip ls)) (if b then some lines else none) ≡ some old
      → over
          (λ n.
            over
              (λ ls. decode_all json (drop (truncated_skip k n skip) ls))
              (if b then some lines else none))
          (over length (if b then some lines else none))
        ≡ some (some (drop (length old - k) old))
  read_truncated k skip lines old false h decodes e = cc e
  read_truncated k skip lines old true h decodes e =
      let same : decode_all json (drop skip lines) ≡ old = cc e in
      let seen = drop skip lines in
      let some_decode = All-drop (λ l. json.decode l ≢ none) skip lines decodes in
      let size : length (decode_all json seen) ≡ length lines - skip =
        length-decode_all seen some_decode ∙ length-drop skip lines in
      let shift : truncated_skip k (length lines) skip
          ≡ skip + (length (decode_all json seen) - k) =
        rw size (truncated_skip_lem k (length lines) skip h) in
      let moved =
        ap (λ m. decode_all json (drop m lines)) shift
        ∙ ap (decode_all json) (sym (drop-drop skip (length (decode_all json seen) - k) lines))
        ∙ decode_all-drop (length (decode_all json seen) - k) seen some_decode in
      ap (λ ms. some (some ms)) (moved ∙ ap (λ ms. drop (length ms - k) ms) same)

  -- After SetHistory the history is what the JSON keeps of the given one, if each line fits the reader, and is
  -- unreadable else; SetSummary leaves it as it was; in any session, torn and corrupt lines included.
  pub history-rewrites :
      (now : ℕ) (key summary : String) (hs : List (Message A)) (d : Disk L)
      → (get_history json key (set_history json now key hs d) ≡ readable hs)
        × (get_history json key (set_summary json now key summary d) ≡ get_history json key d)
  unfolding set_history set_writes write_all write set_summary get_history read_messages scan
      write_meta rewrite_jsonl read_meta
  history-rewrites now key summary hs d = (read_rewritten hs, refl)

  -- TruncateHistory keeps the last messages: in a session with no torn or corrupt line, where the history can be
  -- read, it succeeds, and leaves the old history without all but its last `keep_last` messages.
  pub history-truncate :
      (now : ℕ) (key : String) (keep_last : ℕ) (d : Disk L) (old : List (Message A))
      → IsClean key d
      → All (λ l. json.decode l ≢ none) d.lines
      → get_history json key d ≡ some old
      → over (get_history json key) (truncate_history json now key keep_last d)
        ≡ some (some (drop (length old - keep_last) old))
  unfolding get_history read_messages scan truncate_history read_meta write_meta count_lines
  history-truncate now key keep_last d old h decodes e = elim (Bool-cases (all_fit json d.lines)) [
    | inl y ↦
        let seen = rw (h.whole, y) at e in
        rw (h.whole, y)
          (rw y (
            read_truncated keep_last (read_meta key d).skip d.lines old true h.within decodes seen))
    | inr y ↦ let none_seen = rw (h.whole, y) at e in absurd (cc none_seen)
  ]

-- ===== src/Memory/Crash.antt =====
-- A crash between the writes of an operation, or in the middle of an append.
use ottie.Providers.Protocol.{Message, stored}
use ottie.Prelude.{
  ℕ, zero, suc, ◌≡◌, ◌⊎◌, inl, inr, refl, sym, ap, ◌∙◌, String, Bool, true, false, ◌&&◌, Option,
  none, some, List, [], ◌∷◌, ◌++◌, map, arith, drop, take, ◌==◌, Option-cases, length,
  if◌then◌else◌,
}
use ottie.Memory.{
  Json, Disk, SessionMeta, Write, read_meta, write_meta, all_fit, fits, scan, over, decode_all,
  read_messages, get_history, append_line, rewrite_jsonl, write, write_all, add_writes, add_message,
  set_writes, compact_writes, compacting,
}
use ottie.Memory.History.{decode_all-append, all_fit-append, readable, read_rewritten}

module _ {L A : Type 0} (json : Json L A) where
  open json use {decode, encode, join, size}

  take-drop : (n : ℕ) (ls : List L) → take n ls ++ drop n ls ≡ ls
  take-drop zero ls = refl
  take-drop (suc n) [] = refl
  take-drop (suc n) (l ∷ ls) = ap (λ r. l ∷ r) (take-drop n ls)

  -- The history has the old one at its end; it can be read where the old one could.
  abbrev pub EndsWith : Option (List (Message A)) → Option (List (Message A)) → Type 0
  EndsWith none new = new ≡ none
  EndsWith (some old) new = (extra : List (Message A)) × (new ≡ some (extra ++ old))

  all-EndsWith :
      (n : ℕ) (o : Option (List L))
      → EndsWith
          (over (λ ls. decode_all json (drop n ls)) o)
          (over (λ ls. decode_all json (drop 0 ls)) o)
  all-EndsWith n none = refl
  all-EndsWith n (some ls) = (
    decode_all json (take n ls),
    ap some (
        ap (decode_all json) (sym (take-drop n ls))
        ∙ decode_all-append json (take n ls) (drop n ls)),
  )

  EndsWith-refl : (o : Option (List (Message A))) → EndsWith o o
  EndsWith-refl none = refl
  EndsWith-refl (some ms) = ([], refl)

  -- Of two writes, the first of which clears the skip and the second of which replaces the lines, however many are
  -- done: no message is lost, or both are done.
  two_writes :
      (key : String) (m : SessionMeta) (ms : List (Message A)) (d : Disk L) (k : ℕ)
      → m.skip ≡ 0
      → let new =
          get_history json key
            (write_all json (take k (Write.meta_write m ∷ Write.lines_write ms ∷ [])) d) in
        EndsWith (get_history json key d) new ⊎ (new ≡ readable json ms)
  unfolding get_history read_messages scan write_all write write_meta rewrite_jsonl read_meta
  two_writes key m ms d zero z = inl (EndsWith-refl _)
  two_writes key m ms d (suc zero) z =
      inl (rw z (all-EndsWith (read_meta key d).skip (scan json d)))
  two_writes key m ms d (suc (suc zero)) z = inr (rw z (read_rewritten json ms))
  two_writes key m ms d (suc (suc (suc k))) z = inr (rw z (read_rewritten json ms))

  decode_all-stored : (ls : List L) → map stored (decode_all json ls) ≡ decode_all json ls
  unfolding decode_all
  decode_all-stored [] = refl
  decode_all-stored (l ∷ ls) = elim (Option-cases (decode l)) [
    | inl e ↦ rw (e, decode_all) (decode_all-stored ls)
    | inr (m, e) ↦
        rw (e, decode_all)
          (ap (λ n. n ∷ map stored (decode_all json ls)) (json.decode-stored l m e)
            ∙ ap (λ ms. m ∷ ms) (decode_all-stored ls))
  ]

  -- What was read is kept when it is written again.
  read_kept :
      (skip : ℕ) (o : Option (List L)) (active : List (Message A))
      → over (λ ls. decode_all json (drop skip ls)) o ≡ some active
      → map stored active ≡ active
  read_kept skip none active h = cc h
  read_kept skip (some ls) active h =
      let same : decode_all json (drop skip ls) ≡ active = cc h in
      ap (map stored) (sym same) ∙ decode_all-stored (drop skip ls) ∙ same

  -- What a complete Compact leaves of a history.
  abbrev pub compacted : Option (List (Message A)) → Option (List (Message A))
  compacted none = none
  compacted (some ms) = if all_fit json (map encode ms) then some ms else none

  compact_keeps :
      (now : ℕ) (key : String) (d : Disk L) (ws : List (Write A)) (k : ℕ)
      → compact_writes json now key d ≡ some ws
      → let new = get_history json key (write_all json (take k ws) d) in
        EndsWith (get_history json key d) new ⊎ (new ≡ compacted (get_history json key d))
  unfolding compact_writes get_history write_all read_messages
  compact_keeps now key d ws k h =
      by_skip ((read_meta key d).skip == 0) (read_messages json (read_meta key d).skip d) refl h
    where
      m : SessionMeta
      m = read_meta key d

      by_skip :
          (b : Bool) (o : Option (List (Message A)))
          → read_messages json m.skip d ≡ o
          → (if b then some [] else over (compacting json now m) o) ≡ some ws
          → let new = get_history json key (write_all json (take k ws) d) in
            EndsWith (get_history json key d) new ⊎ (new ≡ compacted o)
      by_skip true o e h = by_none k (cc h)
        where
          by_none :
              (k : ℕ)
              → ws ≡ []
              → let new = get_history json key (write_all json (take k ws) d) in
                EndsWith (get_history json key d) new ⊎ (new ≡ compacted o)
          by_none zero n = inl (EndsWith-refl _)
          by_none (suc k) n = rw n (inl (EndsWith-refl _))
      by_skip false none e h = cc h
      by_skip false (some active) e h =
          let same : ws ≡ compacting json now m active = cc h in
          let kept = read_kept m.skip (scan json d) active e in
          rw same (
            rw kept at (
              two_writes key (record m { skip = 0; count = length active; updated_at = now }) active
                d k refl))

  -- However many of the writes of SetHistory or of Compact are done when the process stops, no message is lost: the
  -- history ends with all that it was, perhaps with messages in front that had been truncated, or it is the new
  -- one, complete; which cannot be read if one of its lines does not fit the reader.
  pub crash_keeps :
      (now : ℕ) (key : String) (hs : List (Message A)) (d : Disk L) (ws : List (Write A)) (k : ℕ)
      → compact_writes json now key d ≡ some ws
      → let old = get_history json key d in
        let set = get_history json key (write_all json (take k (set_writes json now key hs d)) d) in
        let compact' = get_history json key (write_all json (take k ws) d) in
        (EndsWith old set ⊎ (set ≡ readable json hs))
        × (EndsWith old compact' ⊎ (compact' ≡ compacted old))
  unfolding set_writes
  crash_keeps now key hs d ws k h = (two_writes key _ hs d k refl, compact_keeps now key d ws k h)

  last_corrupt :
      (n : ℕ) (ls : List L) (x y : L)
      → decode x ≡ none
      → decode y ≡ none
      → decode_all json (drop n (ls ++ (x ∷ []))) ≡ decode_all json (drop n (ls ++ (y ∷ [])))
  unfolding decode_all
  last_corrupt zero [] x y hx hy = rw (hx, hy) refl
  last_corrupt zero (l ∷ ls) x y hx hy = ground (arith, last_corrupt zero ls x y hx hy)
  last_corrupt (suc n) [] x y hx hy = refl
  last_corrupt (suc n) (l ∷ ls) x y hx hy = last_corrupt n ls x y hx hy

  -- Reading lines of which the last is corrupt, whatever it is, if it fits the reader.
  read_corrupt :
      (n : ℕ) (ls : List L) (x y : L)
      → decode x ≡ none
      → decode y ≡ none
      → (fits json x ≡ true → fits json y ≡ true)
      → over
          (λ ls. decode_all json (drop n ls))
          (if all_fit json (ls ++ (x ∷ [])) then some (ls ++ (x ∷ [])) else none)
        ≡ (if fits json x
            then over
                (λ ls. decode_all json (drop n ls))
                (if all_fit json (ls ++ (y ∷ [])) then some (ls ++ (y ∷ [])) else none)
            else none)
  unfolding all_fit
  read_corrupt n ls x y hx hy shorter = rw (all_fit-append json ls (x ∷ [])) (
      rw (all_fit-append json ls (y ∷ []))
        (by_fits (all_fit json ls) (fits json x) (fits json y) shorter))
    where
      by_fits :
          (b c c' : Bool)
          → (c ≡ true → c' ≡ true)
          → over
              (λ ls. decode_all json (drop n ls))
              (if b && (c && true) then some (ls ++ (x ∷ [])) else none)
            ≡ (if c
                then over
                    (λ ls. decode_all json (drop n ls))
                    (if b && (c' && true) then some (ls ++ (y ∷ [])) else none)
                else none)
      by_fits true true true s = ap some (last_corrupt n ls x y hx hy)
      by_fits true true false s = absurd (cc (s refl))
      by_fits true false c' s = refl
      by_fits false true c' s = refl
      by_fits false false c' s = refl

  -- After a crash in the middle of an append, a torn line is left that has no newline. If what it makes
  -- with the next line does not decode, then AddMessage reports success and its message is not in the
  -- history: the history stays as it was but for the torn line itself, or cannot be read any more, if
  -- the two together do not fit the reader.
  pub torn_line_swallows :
      (now : ℕ) (key : String) (msg : Message A) (torn : L) (d : Disk L)
      → d.tail ≡ some torn
      → decode (join torn (encode msg)) ≡ none
      → decode torn ≡ none
      → get_history json key (add_message json now key msg d)
        ≡ (if fits json (join torn (encode msg)) then get_history json key d else none)
  unfolding add_message add_writes write_all write append_line write_meta get_history read_messages
      scan read_meta
  torn_line_swallows now key msg torn d t bad bad' =
      let sizes = json.size-join torn (encode msg) in
      let shorter : fits json (join torn (encode msg)) ≡ true → fits json torn ≡ true =
        λ h. ground (arith, sizes, h) in
      rw t
        (read_corrupt (read_meta key d).skip d.lines (join torn (encode msg)) torn bad bad' shorter)

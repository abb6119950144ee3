-- ===== src/Memory.antt =====
-- pkg/memory/jsonl.go: one session's two files, the append-only lines and the metadata.
-- A line is raw text of type `L`; decoding, encoding and concatenation are those of encoding/json and
-- of the file system. `tail` is a last line with no newline yet, which a crash may leave. Empty lines
-- are never written. Errors of the file system other than a crash between two writes are not modelled.
pub mod History
pub mod Crash
use ottie.Providers.Protocol.{Message, stored}
use ottie.Prelude.{
  ℕ, zero, suc, ◌+◌, ◌-◌, ◌*◌, ◌≡◌, String, Bool, true, false, ◌&&◌, Option, none, some, List, [],
  ◌∷◌, ◌++◌, map, ltb, ◌==◌, if◌then◌else◌, length, drop,
}

-- What the code relies on: the JSON of a message is read back as what `stored` keeps of it, and nothing that is
-- read has more; a text has a size in bytes.
pub record Json (L A : Type 0) : Type 0 where
  pub decode : L → Option (Message A)
  pub encode : Message A → L
  pub join : L → L → L
  pub size : L → ℕ
  pub decode-encode : (m : Message A) → decode (encode m) ≡ some (stored m)
  pub decode-stored : (l : L) (m : Message A) → decode l ≡ some m → stored m ≡ m
  pub size-join : (a b : L) → size (join a b) ≡ size a + size b

abbrev pub max_line_size : ℕ
max_line_size = 10 * 1024 * 1024

-- `sessionMeta`; a `time.Time` is a number, 0 the zero time.
pub record SessionMeta : Type 0 where
  pub key : String
  pub summary : String
  pub skip : ℕ
  pub count : ℕ
  pub created_at : ℕ
  pub updated_at : ℕ

pub record Disk (L : Type 0) : Type 0 where
  pub lines : List L
  pub tail : Option L
  pub meta : Option SessionMeta

abbrev pub zero_meta : String → SessionMeta
zero_meta key = record {
  key = key;
  summary = "";
  skip = 0;
  count = 0;
  created_at = 0;
  updated_at = 0;
}

abbrev pub meta_or_zero : String → Option SessionMeta → SessionMeta
meta_or_zero key none = zero_meta key
meta_or_zero key (some m) = m

-- `keepLast <= 0` is 0 here.
abbrev pub truncated_skip : ℕ → ℕ → ℕ → ℕ
truncated_skip zero count skip = count
truncated_skip (suc k) count skip = if ltb (suc k) (count - skip) then count - suc k else skip

module _ {L : Type 0} where
  -- The lines that a scanner returns.
  abbrev pub scanned : List L → Option L → List L
  scanned lines none = lines
  scanned lines (some l) = lines ++ (l ∷ [])

  unfoldable pub read_meta : String → Disk L → SessionMeta
  read_meta key d = meta_or_zero key d.meta

  unfoldable pub write_meta : SessionMeta → Disk L → Disk L
  write_meta m d = record d { meta = some m }

-- What a reader returns, or its error, with a function on it.
abbrev pub over : {B C : Type 0} → (B → C) → Option B → Option C
over f none = none
over f (some b) = some (f b)

-- The writes of the operations, each of them atomic but for the append.
pub data Write (A : Type 0) : Type 0 where
  meta_write : SessionMeta → Write A
  append_write : Message A → Write A
  lines_write : List (Message A) → Write A

abbrev pub count_message : ℕ → SessionMeta → SessionMeta
count_message now m = record m {
  count = m.count + 1;
  created_at = if m.count == 0 && m.created_at == 0 then now else m.created_at;
  updated_at = now;
}

abbrev pub stamp : ℕ → SessionMeta → SessionMeta
stamp now m = record m {
  created_at = if m.created_at == 0 then now else m.created_at;
  updated_at = now;
}

module _ {L A : Type 0} (json : Json L A) where
  open json use {decode, encode, join, size}

  -- A line that the scanner's buffer holds; with a longer one the scan ends in an error.
  abbrev pub fits : L → Bool
  fits l = ltb (size l) max_line_size

  unfoldable pub all_fit : List L → Bool
  all_fit [] = true
  all_fit (l ∷ ls) = fits l && all_fit ls

  unfoldable pub scan : Disk L → Option (List L)
  unfolding all_fit
  scan d = let ls = scanned d.lines d.tail in if all_fit ls then some ls else none

  unfoldable pub count_lines : Disk L → Option ℕ
  unfolding scan
  count_lines d = over length (scan d)

  -- The lines that decode; a corrupt line is skipped.
  unfoldable pub decode_all : List L → List (Message A)
  decode_all [] = []
  decode_all (l ∷ ls) =
      let rest = decode_all ls in elim (decode l) [ some m ↦ m ∷ rest | none ↦ rest ]

  unfoldable pub read_messages : ℕ → Disk L → Option (List (Message A))
  unfolding decode_all scan
  read_messages skip d = over (λ ls. decode_all (drop skip ls)) (scan d)

  unfoldable pub get_history : String → Disk L → Option (List (Message A))
  unfolding read_messages read_meta
  get_history key d = read_messages (read_meta key d).skip d

  -- A write with O_APPEND goes behind an unterminated line.
  abbrev pub append_to : Option L → L → L
  append_to none l = l
  append_to (some p) l = join p l

  unfoldable pub append_line : L → Disk L → Disk L
  append_line l d = record d { lines = d.lines ++ (append_to d.tail l ∷ []); tail = none }

  -- The atomic replacement of the file of lines.
  unfoldable pub rewrite_jsonl : List (Message A) → Disk L → Disk L
  rewrite_jsonl msgs d = record d { lines = map encode msgs; tail = none }

  unfoldable pub write : Write A → Disk L → Disk L
  unfolding write_meta append_line rewrite_jsonl
  write (meta_write m) d = write_meta m d
  write (append_write msg) d = append_line (encode msg) d
  write (lines_write msgs) d = rewrite_jsonl msgs d

  unfoldable pub write_all : List (Write A) → Disk L → Disk L
  unfolding write
  write_all [] d = d
  write_all (w ∷ ws) d = write_all ws (write w d)

  unfoldable pub add_writes : ℕ → String → Message A → Disk L → List (Write A)
  unfolding read_meta
  add_writes now key msg d =
      append_write msg ∷ meta_write (count_message now (read_meta key d)) ∷ []

  unfoldable pub add_message : ℕ → String → Message A → Disk L → Disk L
  unfolding write_all add_writes
  add_message now key msg d = write_all (add_writes now key msg d) d

  unfoldable pub set_summary : ℕ → String → String → Disk L → Disk L
  unfolding write_meta read_meta
  set_summary now key summary d =
      write_meta (record (stamp now (read_meta key d)) { summary = summary }) d

  -- The disk after it, or an error, with nothing written.
  unfoldable pub truncate_history : ℕ → String → ℕ → Disk L → Option (Disk L)
  unfolding write_meta read_meta count_lines
  truncate_history now key keep_last d =
      let m = read_meta key d in
      over
        (λ n.
          write_meta
            (record m { count = n; skip = truncated_skip keep_last n m.skip; updated_at = now }) d)
        (count_lines d)

  unfoldable pub set_writes : ℕ → String → List (Message A) → Disk L → List (Write A)
  unfolding read_meta
  set_writes now key history d =
      meta_write (record (stamp now (read_meta key d)) { skip = 0; count = length history })
      ∷ lines_write history
      ∷ []

  unfoldable pub set_history : ℕ → String → List (Message A) → Disk L → Disk L
  unfolding set_writes write_all
  set_history now key history d = write_all (set_writes now key history d) d

  abbrev pub compacting : ℕ → SessionMeta → List (Message A) → List (Write A)
  compacting now m active =
      meta_write (record m { skip = 0; count = length active; updated_at = now })
      ∷ lines_write active
      ∷ []

  -- No writes without a skip, and an error where the messages cannot be read.
  unfoldable pub compact_writes : ℕ → String → Disk L → Option (List (Write A))
  unfolding read_messages read_meta
  compact_writes now key d =
      let m = read_meta key d in
      if m.skip == 0 then some [] else over (compacting now m) (read_messages m.skip d)

  unfoldable pub compact : ℕ → String → Disk L → Option (Disk L)
  unfolding compact_writes write_all
  compact now key d = over (λ ws. write_all ws d) (compact_writes now key d)

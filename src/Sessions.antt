-- ===== src/Sessions.antt =====
-- pkg/session/manager.go: the sessions in memory, and the files that they are saved to. M are the messages. A
-- directory is the map of its regular .json files, in the order of os.ReadDir; the JSON of a session, the test
-- filepath.IsLocal, the time, and an error of the file system before a rename are arguments.
pub mod Store
pub mod Files
use ottie.Prelude.{
  ℕ, suc, ◌-◌, String, Bool, true, false, not, ◌&&◌, ◌||◌, Option, none, some, List, [], ◌∷◌, ◌++◌,
  leb, length, drop, if◌then◌else◌,
}
use ottie.Prelude.Int.{ℤ, pos, negsuc}
use ottie.Prelude.Dict.{Dict, lookup, insert}

pub record Session (M : Type 0) : Type 0 where
  pub key : String
  pub messages : List M
  pub summary : String
  pub created : ℕ
  pub updated : ℕ

-- The map of a `SessionManager`.
abbrev pub Sessions : Type 0 → Type 0
Sessions M = Dict (Session M)

module _ {M : Type 0} where
  abbrev pub new_session : ℕ → String → Session M
  new_session now key = record {
    key = key;
    messages = [];
    summary = "";
    created = now;
    updated = 0;
  }

  unfoldable pub created : ℕ → String → Option (Session M) → Sessions M → Session M × Sessions M
  created now key (some s) sessions = (s, sessions)
  created now key none sessions =
      let s = record (new_session now key) { updated = now } in (s, insert key s sessions)

  unfoldable pub get_or_create : ℕ → String → Sessions M → Session M × Sessions M
  unfolding created
  get_or_create now key sessions = created now key (lookup key sessions) sessions

  -- The session that AddFullMessage appends to.
  abbrev pub or_new : ℕ → String → Option (Session M) → Session M
  or_new now key none = new_session now key
  or_new now key (some s) = s

  unfoldable pub add_full_message : ℕ → String → M → Sessions M → Sessions M
  add_full_message now key msg sessions =
      let s = or_new now key (lookup key sessions) in
      insert key (record s { messages = s.messages ++ (msg ∷ []); updated = now }) sessions

  abbrev pub messages_of : Option (Session M) → List M
  messages_of none = []
  messages_of (some s) = s.messages

  unfoldable pub get_history : String → Sessions M → List M
  get_history key sessions = messages_of (lookup key sessions)

  abbrev pub summary_of : Option (Session M) → String
  summary_of none = ""
  summary_of (some s) = s.summary

  unfoldable pub get_summary : String → Sessions M → String
  get_summary key sessions = summary_of (lookup key sessions)

  -- A session that is there, changed; one that is not there is left so.
  unfoldable pub change :
      (Session M → Session M) → String → Option (Session M) → Sessions M → Sessions M
  change f key none sessions = sessions
  change f key (some s) sessions = insert key (f s) sessions

  unfoldable pub set_summary : ℕ → String → String → Sessions M → Sessions M
  unfolding change
  set_summary now key summary sessions =
      change (λ s. record s { summary = summary; updated = now }) key (lookup key sessions) sessions

  unfoldable pub set_history : ℕ → String → List M → Sessions M → Sessions M
  unfolding change
  set_history now key history sessions =
      change (λ s. record s { messages = history; updated = now }) key (lookup key sessions)
        sessions

  abbrev pub keep_last_of : ℕ → ℕ → Session M → Session M
  keep_last_of now keep_last s =
      if leb (length s.messages) keep_last
      then s
      else record s { messages = drop (length s.messages - keep_last) s.messages; updated = now }

  -- What TruncateHistory makes of a session, for a `keepLast` that is not positive, and for one that is.
  unfoldable pub truncated : ℕ → ℤ → Session M → Session M
  truncated now (negsuc n) s = record s { messages = []; updated = now }
  truncated now (pos ℕ.zero) s = record s { messages = []; updated = now }
  truncated now (pos (suc n)) s = keep_last_of now (suc n) s

  unfoldable pub truncate_history : ℕ → String → ℤ → Sessions M → Sessions M
  unfolding change truncated
  truncate_history now key keep_last sessions =
      change (truncated now keep_last) key (lookup key sessions) sessions

-- ===== src/Sessions/Files.antt =====
-- manager.go, sanitizeFilename, Save and loadSessions: what a restart finds.
pub mod Restart
use Prim.Native.Char.{Char, code}
use Prim.Native.String.{◌++◌}
use ottie.Prelude.{
  ◌≡◌, String, Bool, true, false, not, ◌||◌, Option, none, some, List, [], ◌∷◌, str_eq, map, ◌==◌,
  if◌then◌else◌,
}
use ottie.Prelude.Dict.{Dict, lookup, insert}
use ottie.Providers.Protocol.{Message, stored}
use ottie.Sessions.{Session, Sessions}

abbrev pub separator : Char
separator = "_"

-- The three replacements of `sanitizeFilename`, on one character.
unfoldable pub safe_char : Char → Char
safe_char c = if code c == b':' || (code c == b'/' || code c == b'\\') then separator else c

unfoldable pub sanitize_filename : String → String
unfolding safe_char
sanitize_filename String.[] = ""
sanitize_filename (String.◌∷◌ c s) = String.◌∷◌ (safe_char c) (sanitize_filename s)

-- What the JSON of a session keeps of it.
abbrev pub stored_session : {A : Type 0} → Session (Message A) → Session (Message A)
stored_session s = record s { messages = map stored s.messages }

pub record SessionJson (A F : Type 0) : Type 0 where
  pub encode : Session (Message A) → F
  pub decode : F → Option (Session (Message A))
  pub decode-encode : (s : Session (Message A)) → decode (encode s) ≡ some (stored_session s)

pub data SaveError : Type 0 where
  invalid_name : SaveError
  io_error : String → SaveError

abbrev pub file_name : String → String
file_name key = sanitize_filename key ++ ".json"

module _ {A F : Type 0} (json : SessionJson A F) (is_local : String → Bool) where
  -- The end of Save: the rename, or what failed before it.
  unfoldable pub write_session :
      Option String → String → Option (Session (Message A)) → Dict F → Option SaveError × Dict F
  write_session fault key none dir = (none, dir)
  write_session none key (some s) dir = (none, insert (file_name key) (json.encode s) dir)
  write_session (some e) key (some s) dir = (some (io_error e), dir)

  -- `Save`; without storage it does nothing.
  unfoldable pub save :
      Bool → Option String → String → Sessions (Message A) → Dict F → Option SaveError × Dict F
  unfolding write_session sanitize_filename
  save has_storage fault key sessions dir =
      if not has_storage
      then (none, dir)
      else if str_eq (sanitize_filename key) "." || not (is_local (sanitize_filename key))
      then (some invalid_name, dir)
      else write_session fault key (lookup key sessions) dir

  abbrev pub loaded : Option (Session (Message A)) → Sessions (Message A) → Sessions (Message A)
  loaded none sessions = sessions
  loaded (some s) sessions = insert s.key s sessions

  -- The loop of loadSessions; a file that cannot be read or decoded is skipped.
  unfoldable pub load_sessions : Dict F → Sessions (Message A) → Sessions (Message A)
  load_sessions [] sessions = sessions
  load_sessions (file ∷ files) sessions = load_sessions files (loaded (json.decode file.1) sessions)

-- ===== src/Routing/Ids.antt =====
-- pkg/routing/agent_id.go: NormalizeAgentID and NormalizeAccountID.
use ottie.Prelude.{ℕ, String, Bool, str_eq, ltb, if◌then◌else◌}

-- strings.TrimSpace, strings.ToLower, regexp's MatchString and ReplaceAllString, and the length and
-- the prefix of a string in bytes.
pub record GoStrings : Type 0 where
  pub trim_space : String → String
  pub to_lower : String → String
  pub match_string : String → String → Bool
  pub replace_all : String → String → String → String
  pub byte_length : String → ℕ
  pub first_bytes : ℕ → String → String

abbrev pub default_agent_id : String
default_agent_id = "main"

abbrev pub default_main_key : String
default_main_key = "main"

abbrev pub default_account_id : String
default_account_id = "default"

abbrev pub max_agent_id_length : ℕ
max_agent_id_length = 64

abbrev pub valid_id_re : String
valid_id_re = "^[a-z0-9][a-z0-9_-]{0,63}$"

abbrev pub invalid_chars_re : String
invalid_chars_re = "[^a-z0-9_-]+"

abbrev pub leading_dash_re : String
leading_dash_re = "^-+"

abbrev pub trailing_dash_re : String
trailing_dash_re = "-+$"

module _ (go : GoStrings) where
  open go use {trim_space, to_lower, match_string, replace_all, byte_length, first_bytes}

  abbrev pub shorten : String → String
  shorten s =
      if ltb max_agent_id_length (byte_length s) then first_bytes max_agent_id_length s else s

  -- The common body of the two functions, with what they return for nothing.
  unfoldable pub normalize_id : String → String → String
  normalize_id empty id =
      let trimmed = trim_space id in
      let lower = to_lower trimmed in
      let dashed = replace_all invalid_chars_re lower "-" in
      let led = replace_all leading_dash_re dashed "" in
      let result = shorten (replace_all trailing_dash_re led "") in
      if str_eq trimmed ""
      then empty
      else if match_string valid_id_re lower
      then lower
      else if str_eq result ""
      then empty
      else result

  unfoldable pub normalize_agent_id : String → String
  unfolding normalize_id
  normalize_agent_id id = normalize_id default_agent_id id

  unfoldable pub normalize_account_id : String → String
  unfolding normalize_id
  normalize_account_id id = normalize_id default_account_id id

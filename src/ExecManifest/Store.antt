-- ===== src/ExecManifest/Store.antt =====
-- execmanifest.go: doBegin, doRecordCall, the writer's handleOp, and Begin, RecordProviderCall and Close over
-- them. A random identifier is an argument, `none` where rand.Read fails; so is the time.
use ottie.Prelude.{
  ℕ, String, Bool, Option, none, some, List, [], ◌∷◌, ◌==◌, str_eq, if◌then◌else◌, ◌||◌,
}
use ottie.Prelude.Int.{negative}
use ottie.Ledger.Text.{bytes, contains_any}
use ottie.Ledger.Rows.{SqlError, sqlite_constraint_foreign_key, sqlite_constraint_unique}
use ottie.Ledger.Errors.{sqlite_constraint_primary_key}
use ottie.ExecManifest.Rows.{Codec, Manifest, ProviderCall, TraceRow, CallRow}

pub data ManifestError : Type 0 where
  session_id_required negative_turn prompt_hash_required tool_schema_hash_required : ManifestError
  model_id_required generate_id trace_id_required request_id_required negative_seq : ManifestError
  trace_already_recorded call_already_recorded trace_unknown insert_failed :
      SqlError → ManifestError
  trace_not_found corrupt_json decode_failed store_closed context_done : ManifestError
  query_failed : String → ManifestError

-- `writeResult`
pub record WriteResult : Type 0 where
  pub id : String
  pub err : Option ManifestError

abbrev pub failed_with : ManifestError → WriteResult
failed_with e = record { id = ""; err = some e }

abbrev pub written : String → WriteResult
written id = record { id = id; err = none }

abbrev pub is_duplicate_code : ℕ → Bool
is_duplicate_code code =
    (code == sqlite_constraint_unique) || (code == sqlite_constraint_primary_key)

abbrev pub begin_texts : List (List ℕ)
begin_texts = bytes "UNIQUE constraint failed" ∷ bytes "constraint failed: traces" ∷ []

abbrev pub begin_by_text : SqlError → ManifestError
begin_by_text e =
    if contains_any e.text begin_texts then trace_already_recorded e else insert_failed e

-- `wrapBeginError`, by the code of a driver's error if it has one.
unfoldable pub wrap_begin : Option ℕ → SqlError → ManifestError
wrap_begin none e = begin_by_text e
wrap_begin (some code) e =
    if is_duplicate_code code then trace_already_recorded e else begin_by_text e

abbrev pub call_texts : List (List ℕ)
call_texts = bytes "UNIQUE constraint failed" ∷ bytes "PRIMARY KEY constraint failed" ∷ []

unfoldable pub call_by_text : SqlError → ManifestError
call_by_text e =
    if contains_any e.text call_texts
    then call_already_recorded e
    else if contains_any e.text (bytes "FOREIGN KEY constraint failed" ∷ [])
    then trace_unknown e
    else insert_failed e

-- `wrapRecordCallError`
unfoldable pub wrap_record_call : Option ℕ → SqlError → ManifestError
unfolding call_by_text
wrap_record_call none e = call_by_text e
wrap_record_call (some code) e =
    if is_duplicate_code code
    then call_already_recorded e
    else if code == sqlite_constraint_foreign_key
    then trace_unknown e
    else call_by_text e

-- The first field of `doBegin` that is refused.
unfoldable pub refused_field : {V : Type 0} → Manifest V → Option ManifestError
refused_field m =
    if str_eq m.session_id ""
    then some session_id_required
    else if negative m.turn
    then some negative_turn
    else if str_eq m.prompt_hash ""
    then some prompt_hash_required
    else if str_eq m.tool_schema_hash ""
    then some tool_schema_hash_required
    else if str_eq m.model_id ""
    then some model_id_required
    else none

-- sql.NullString of a model: NULL where it is empty.
abbrev pub nullable : String → Option String
nullable s = if str_eq s "" then none else some s

unfoldable pub refused_call_field : ProviderCall → Option ManifestError
refused_call_field c =
    if str_eq c.trace_id ""
    then some trace_id_required
    else if str_eq c.request_id ""
    then some request_id_required
    else if negative c.call_seq
    then some negative_seq
    else none

module _ (codec : Codec) where
  open codec use {Versions}

  unfoldable pub canonical_json_array : Option (List String) → String
  canonical_json_array none = codec.marshal_array []
  canonical_json_array (some xs) = codec.marshal_array xs

  unfoldable pub canonical_json_map : Option Versions → String
  canonical_json_map none = codec.marshal_map codec.no_versions
  canonical_json_map (some m) = codec.marshal_map m

  -- The row that `doBegin` inserts, for a turn that is not negative.
  unfoldable pub trace_row : String → ℕ → ℕ → Manifest Versions → TraceRow
  unfolding canonical_json_array canonical_json_map
  trace_row id now turn m = record {
    trace_id = id;
    session_id = m.session_id;
    turn = turn;
    prompt_hash = m.prompt_hash;
    tool_schema_hash = m.tool_schema_hash;
    skill_hashes = canonical_json_array m.skill_hashes;
    mcp_versions = canonical_json_map m.mcp_versions;
    model_id = m.model_id;
    prompt_epoch = m.prompt_epoch;
    created_at = now;
  }

unfoldable pub call_row : ℕ → ℕ → ProviderCall → CallRow
call_row now seq c = record {
  trace_id = c.trace_id;
  call_seq = seq;
  request_id = c.request_id;
  model_id = nullable c.model_id;
  recorded_at = now;
}

-- ===== src/ExecManifest/Reads.antt =====
-- execmanifest.go: Get, GetBySessionTurn, MaxTurn, ListBySession and the queries behind them. A query is
-- its SQL on the rows; that the driver may fail on one is an argument.
pub mod Sort
use ottie.Prelude.{
  ℕ, String, Bool, true, false, Option, none, some, List, [], ◌∷◌, ◌&&◌, ◌==◌, str_eq,
  if◌then◌else◌, keep_if, max, map, ◌⊎◌, inl, inr,
}
use ottie.Prelude.Int.{ℤ, pos, negsuc}
use ottie.Ledger.Keys.{find_key}
use ottie.ExecManifest.Rows.{Codec, Manifest, ProviderCall, TraceRow, CallRow, Engine}
use ottie.ExecManifest.Store.{
  ManifestError, session_id_required, trace_id_required, trace_not_found, corrupt_json,
  decode_failed, store_closed, query_failed,
}
use ottie.ExecManifest.Ops.{Store}
use ottie.ExecManifest.Reads.Sort.{sort_by}

-- What goes wrong in the driver, if anything, in the query of traces and in the queries of a trace's calls.
pub record Faults : Type 0 where
  pub on_traces : Option String
  pub on_calls : Option String

abbrev pub no_faults : Faults
no_faults = record { on_traces = none; on_calls = none }

-- `FullManifest`
pub record FullManifest (Versions : Type 0) : Type 0 where
  pub manifest : Manifest Versions
  pub created_at : ℕ
  pub provider_calls : List ProviderCall

abbrev pub Result : Type 0 → Type 0
Result A = A ⊎ ManifestError

abbrev pub and_then : {A B : Type 0} → Result A → (A → Result B) → Result B
and_then (inl x) f = f x
and_then (inr e) f = inr e

abbrev pub unless : {A : Type 0} → Option String → A → Result A
unless none x = inl x
unless (some e) x = inr (query_failed e)

-- COALESCE(model_id, '')
abbrev pub or_empty : Option String → String
or_empty none = ""
or_empty (some s) = s

abbrev pub decoded : {A : Type 0} → Option A → Result A
decoded none = inr decode_failed
decoded (some x) = inl x

unfoldable pub scan_call : CallRow → ProviderCall
scan_call r = record {
  trace_id = r.trace_id;
  call_seq = pos r.call_seq;
  request_id = r.request_id;
  model_id = or_empty r.model_id;
}

module _ (codec : Codec) where
  open codec use {Versions}

  unfoldable pub decode_json_array : String → Result (List String)
  decode_json_array s = if str_eq s "" then inr corrupt_json else decoded (codec.unmarshal_array s)

  unfoldable pub decode_json_map : String → Result Versions
  decode_json_map s = if str_eq s "" then inr corrupt_json else decoded (codec.unmarshal_map s)

  -- The columns of a row, decoded: the common end of `scanTrace` and `scanTraceFromRows`.
  unfoldable pub scan_row : TraceRow → Result (FullManifest Versions)
  unfolding decode_json_array decode_json_map
  scan_row r = and_then (decode_json_array r.skill_hashes) (λ hashes.
      and_then (decode_json_map r.mcp_versions) (λ versions. inl (record {
        manifest = record {
          trace_id = r.trace_id;
          session_id = r.session_id;
          turn = pos r.turn;
          prompt_hash = r.prompt_hash;
          tool_schema_hash = r.tool_schema_hash;
          skill_hashes = some hashes;
          mcp_versions = some versions;
          model_id = r.model_id;
          prompt_epoch = r.prompt_epoch;
        };
        created_at = r.created_at;
        provider_calls = [];
      })))

  unfoldable pub scan_trace : Option TraceRow → Result (FullManifest Versions)
  unfolding scan_row
  scan_trace none = inr trace_not_found
  scan_trace (some r) = scan_row r

-- SELECT … WHERE session_id = ? AND turn = ?
unfoldable pub find_turn : String → ℕ → List TraceRow → Option TraceRow
find_turn session turn [] = none
find_turn session turn (r ∷ rs) =
    let below = find_turn session turn rs in
    if str_eq r.session_id session && (r.turn == turn) then some r else below

-- SELECT COALESCE(MAX(turn), 0) … WHERE session_id = ?
unfoldable pub select_max_turn : String → List TraceRow → ℕ
select_max_turn session [] = 0
select_max_turn session (r ∷ rs) =
    let below = select_max_turn session rs in
    if str_eq r.session_id session then max r.turn below else below

-- SELECT … WHERE trace_id = ? ORDER BY call_seq ASC
unfoldable pub select_calls : String → List CallRow → List CallRow
unfolding sort_by
select_calls trace rows = sort_by (λ r. r.call_seq) (keep_if (λ r. str_eq r.trace_id trace) rows)

unfoldable pub load_provider_calls :
    Option String → String → List CallRow → Result (List ProviderCall)
unfolding select_calls scan_call
load_provider_calls fault trace rows = unless fault (map scan_call (select_calls trace rows))

-- SELECT … WHERE session_id = ? ORDER BY turn ASC
unfoldable pub select_session : String → List TraceRow → List TraceRow
unfolding sort_by
select_session session rows =
    sort_by (λ r. r.turn) (keep_if (λ r. str_eq r.session_id session) rows)

-- `guardedRead`
unfoldable pub guarded_read : {A : Type 0} → Bool → Result A → Result A
guarded_read true r = inr store_closed
guarded_read false r = r

module _ (codec : Codec) (sq : Engine) (faults : Faults) where
  open codec use {Versions}

  -- A row of traces, by scanTrace, and its calls.
  unfoldable pub read_trace : Option TraceRow → sq.Db → Result (FullManifest Versions)
  unfolding scan_trace load_provider_calls
  read_trace row db = and_then (unless faults.on_traces row) (λ row.
      and_then (scan_trace codec row) (λ full.
        and_then (load_provider_calls faults.on_calls full.manifest.trace_id (sq.calls db))
          (λ calls. inl (record full { provider_calls = calls }))))

  unfoldable pub get : String → Store codec sq → Result (FullManifest Versions)
  unfolding read_trace guarded_read
  get trace s =
      if str_eq trace ""
      then inr trace_id_required
      else guarded_read s.closed
          (read_trace (find_key (λ r. r.trace_id) trace (sq.traces s.db)) s.db)

  -- WHERE turn = ? for a turn that may be negative, which no row has.
  unfoldable pub find_turn_at : String → ℤ → List TraceRow → Option TraceRow
  unfolding find_turn
  find_turn_at session (pos turn) rows = find_turn session turn rows
  find_turn_at session (negsuc n) rows = none

  unfoldable pub get_by_session_turn : String → ℤ → Store codec sq → Result (FullManifest Versions)
  unfolding read_trace guarded_read find_turn_at
  get_by_session_turn session turn s =
      if str_eq session ""
      then inr session_id_required
      else guarded_read s.closed (read_trace (find_turn_at session turn (sq.traces s.db)) s.db)

  unfoldable pub max_turn : String → Store codec sq → Result ℕ
  unfolding guarded_read select_max_turn
  max_turn session s =
      if str_eq session ""
      then inr session_id_required
      else guarded_read s.closed
          (unless faults.on_traces (select_max_turn session (sq.traces s.db)))

  -- The two loops of ListBySession: the rows scanned, then their calls.
  unfoldable pub scan_rows : List TraceRow → Result (List (FullManifest Versions))
  unfolding scan_row
  scan_rows [] = inl []
  scan_rows (r ∷ rs) =
      and_then (scan_row codec r) (λ full. and_then (scan_rows rs) (λ out. inl (full ∷ out)))

  unfoldable pub hydrate :
      sq.Db → List (FullManifest Versions) → Result (List (FullManifest Versions))
  unfolding load_provider_calls
  hydrate db [] = inl []
  hydrate db (full ∷ out) =
      and_then (load_provider_calls faults.on_calls full.manifest.trace_id (sq.calls db)) (λ calls.
        and_then (hydrate db out) (λ rest. inl (record full { provider_calls = calls } ∷ rest)))

  unfoldable pub list_by_session : String → Store codec sq → Result (List (FullManifest Versions))
  unfolding scan_rows hydrate guarded_read select_session
  list_by_session session s =
      if str_eq session ""
      then inr session_id_required
      else guarded_read s.closed (
          and_then (unless faults.on_traces (select_session session (sq.traces s.db)))
            (λ rows. and_then (scan_rows rows) (λ out. hydrate s.db out)))

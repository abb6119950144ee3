-- ===== src/Tests/ManifestEngine.antt =====
-- An engine with the schema of the manifest store, as two lists of rows.
use ottie.Prelude.{
  ◌≡◌, inl, inr, refl, true, false, Option, none, some, List, [], ◌∷◌, ◌++◌, arith, Bool-cases,
  if◌then◌else◌,
}
use ottie.Ledger.Rows.{SqlError}
use ottie.ExecManifest.Rows.{TraceRow, CallRow, Engine, has_trace, has_turn, has_call}
use ottie.ExecManifest.Invariant.{IsSound}
use ottie.ExecManifest.Turns.Unique.{NamesClashes}
use ottie.Tests.Engine.{primary_key_error, unique_error, foreign_key_error}
use ottie.Tests.Json.{codec}

pub record Tables : Type 0 where
  pub rows : List TraceRow
  pub requests : List CallRow

abbrev pub add_trace : TraceRow → Tables → Option SqlError × Tables
add_trace r db =
    if has_trace r.trace_id db.rows
    then (some primary_key_error, db)
    else if has_turn r.session_id r.turn db.rows
    then (some unique_error, db)
    else (none, record db { rows = db.rows ++ (r ∷ []) })

abbrev pub add_call : CallRow → Tables → Option SqlError × Tables
add_call c db =
    if has_call c.trace_id c.call_seq db.requests
    then (some primary_key_error, db)
    else if has_trace c.trace_id db.rows
    then (none, record db { requests = db.requests ++ (c ∷ []) })
    else (some foreign_key_error, db)

pub add_trace_done :
    (r : TraceRow) (db : Tables)
    → (add_trace r db).0 ≡ none
    → ((add_trace r db).1.rows ≡ db.rows ++ (r ∷ []))
      × ((add_trace r db).1.requests ≡ db.requests)
      × (has_trace r.trace_id db.rows ≡ false)
      × (has_turn r.session_id r.turn db.rows ≡ false)
add_trace_done r db h = (ground arith, ground arith, ground arith, ground arith)

pub add_trace_failed :
    (r : TraceRow) (db : Tables) (x : SqlError)
    → (add_trace r db).0 ≡ some x
    → ((add_trace r db).1.rows ≡ db.rows) × ((add_trace r db).1.requests ≡ db.requests)
add_trace_failed r db x h = (ground arith, ground arith)

pub add_call_done :
    (c : CallRow) (db : Tables)
    → (add_call c db).0 ≡ none
    → ((add_call c db).1.rows ≡ db.rows)
      × ((add_call c db).1.requests ≡ db.requests ++ (c ∷ []))
      × (has_trace c.trace_id db.rows ≡ true)
      × (has_call c.trace_id c.call_seq db.requests ≡ false)
add_call_done c db h = (ground arith, ground arith, ground arith, ground arith)

pub add_call_failed :
    (c : CallRow) (db : Tables) (x : SqlError)
    → (add_call c db).0 ≡ some x
    → ((add_call c db).1.rows ≡ db.rows) × ((add_call c db).1.requests ≡ db.requests)
add_call_failed c db x h = (ground arith, ground arith)

abbrev pub tables : Engine
tables = record {
  Db = Tables;
  traces = λ db. db.rows;
  calls = λ db. db.requests;
  insert_trace = add_trace;
  insert_call = add_call;
  checkpoint = λ db. (true, db);
  insert_trace_done = add_trace_done;
  insert_trace_failed = add_trace_failed;
  insert_call_done = add_call_done;
  insert_call_failed = add_call_failed;
  checkpoint_rows = λ db. (refl, refl);
}

abbrev pub empty_tables : Tables
empty_tables = record { rows = []; requests = [] }

pub empty_tables-IsSound : IsSound codec tables empty_tables
empty_tables-IsSound = record {
  unique_traces = tt;
  unique_turns = tt;
  unique_calls = tt;
  referenced = λ id h. refl;
  encoded = tt;
}

-- Its errors of clashes are of clashes that there are.
pub tables-NamesClashes : NamesClashes codec tables
tables-NamesClashes r db e x h k = elim (Bool-cases (has_trace r.trace_id db.rows)) [
  | inl y ↦ inl y
  | inr n ↦ elim (Bool-cases (has_turn r.session_id r.turn db.rows)) [
    | inl y ↦ inr y
    | inr m ↦ absurd (ground (arith, h, n, m))
  ]
]

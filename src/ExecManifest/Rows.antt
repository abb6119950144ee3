-- ===== src/ExecManifest/Rows.antt =====
-- execmanifest.go: the manifests, the two tables, and the SQLite engine and JSON codec behind them.
-- The engine is a parameter with the laws that the schema of `initSchema` asks of it: `trace_id` is the
-- primary key of traces, (session_id, turn) is UNIQUE there, (trace_id, call_seq) is the primary key of
-- trace_provider_requests, whose `trace_id` references traces; a failed statement changes nothing.
-- So is the JSON codec: what it marshals it unmarshals, and it writes no empty text.
use ottie.Prelude.{
  ℕ, ◌≡◌, ◌≢◌, String, Bool, true, false, Option, none, some, List, [], ◌∷◌, ◌++◌, ◌==◌, ◌&&◌,
  str_eq, any,
}
use ottie.Prelude.Int.{ℤ}
use ottie.Ledger.Keys.{has_key}
use ottie.Ledger.Rows.{SqlError}

-- The JSON of the two columns: Versions are the maps of McpVersions, `none` a text that is not JSON.
pub record Codec : Type 1 where
  pub Versions : Type 0
  pub no_versions : Versions
  pub marshal_array : List String → String
  pub marshal_map : Versions → String
  pub unmarshal_array : String → Option (List String)
  pub unmarshal_map : String → Option Versions
  pub unmarshal-marshal_array : (xs : List String) → unmarshal_array (marshal_array xs) ≡ some xs
  pub unmarshal-marshal_map : (m : Versions) → unmarshal_map (marshal_map m) ≡ some m
  pub array_text : (xs : List String) → marshal_array xs ≢ ""
  pub map_text : (m : Versions) → marshal_map m ≢ ""

-- `Manifest`: `none` is a nil slice or map.
pub record Manifest (Versions : Type 0) : Type 0 where
  pub trace_id : String
  pub session_id : String
  pub turn : ℤ
  pub prompt_hash : String
  pub tool_schema_hash : String
  pub skill_hashes : Option (List String)
  pub mcp_versions : Option Versions
  pub model_id : String
  pub prompt_epoch : ℤ

pub record ProviderCall : Type 0 where
  pub trace_id : String
  pub call_seq : ℤ
  pub request_id : String
  pub model_id : String

-- A row of traces. Its turn is not negative: `doBegin` is the only writer.
pub record TraceRow : Type 0 where
  pub trace_id : String
  pub session_id : String
  pub turn : ℕ
  pub prompt_hash : String
  pub tool_schema_hash : String
  pub skill_hashes : String
  pub mcp_versions : String
  pub model_id : String
  pub prompt_epoch : ℤ
  pub created_at : ℕ

-- A row of trace_provider_requests; its model may be NULL.
pub record CallRow : Type 0 where
  pub trace_id : String
  pub call_seq : ℕ
  pub request_id : String
  pub model_id : Option String
  pub recorded_at : ℕ

abbrev pub has_trace : String → List TraceRow → Bool
has_trace = has_key (λ r. r.trace_id)

abbrev pub has_turn : String → ℕ → List TraceRow → Bool
has_turn session turn = any (λ r. str_eq r.session_id session && (r.turn == turn))

abbrev pub has_call : String → ℕ → List CallRow → Bool
has_call trace seq = any (λ r. str_eq r.trace_id trace && (r.call_seq == seq))

pub record Engine : Type 1 where
  pub Db : Type 0
  pub traces : Db → List TraceRow
  pub calls : Db → List CallRow
  pub insert_trace : TraceRow → Db → Option SqlError × Db
  pub insert_call : CallRow → Db → Option SqlError × Db
  pub checkpoint : Db → Bool × Db
  pub insert_trace_done :
      (r : TraceRow) (db : Db)
      → (insert_trace r db).0 ≡ none
      → (traces (insert_trace r db).1 ≡ traces db ++ (r ∷ []))
        × (calls (insert_trace r db).1 ≡ calls db)
        × (has_trace r.trace_id (traces db) ≡ false)
        × (has_turn r.session_id r.turn (traces db) ≡ false)
  pub insert_trace_failed :
      (r : TraceRow) (db : Db) (e : SqlError)
      → (insert_trace r db).0 ≡ some e
      → (traces (insert_trace r db).1 ≡ traces db) × (calls (insert_trace r db).1 ≡ calls db)
  pub insert_call_done :
      (c : CallRow) (db : Db)
      → (insert_call c db).0 ≡ none
      → (traces (insert_call c db).1 ≡ traces db)
        × (calls (insert_call c db).1 ≡ calls db ++ (c ∷ []))
        × (has_trace c.trace_id (traces db) ≡ true)
        × (has_call c.trace_id c.call_seq (calls db) ≡ false)
  pub insert_call_failed :
      (c : CallRow) (db : Db) (e : SqlError)
      → (insert_call c db).0 ≡ some e
      → (traces (insert_call c db).1 ≡ traces db) × (calls (insert_call c db).1 ≡ calls db)
  pub checkpoint_rows :
      (db : Db) → (traces (checkpoint db).1 ≡ traces db) × (calls (checkpoint db).1 ≡ calls db)

-- ===== src/Ledger/Rows.antt =====
-- actionlog.go: the records, the two tables, and the SQLite engine behind them.
-- The engine is a parameter: its rows, its two INSERT statements and its checkpoint, with the laws
-- that the schema of `initSchema` asks of it: `intent_id` is a primary key of action_intents,
-- `intent_id` is UNIQUE in action_commits and references action_intents (foreign_keys is ON), and a
-- failed statement changes nothing. An INSERT may also fail for any other reason.
use ottie.Prelude.{ℕ, ◌≡◌, String, Bool, true, false, Option, none, some, List, [], ◌∷◌, ◌++◌}
use ottie.Ledger.Keys.{has_key}

pub record Intent : Type 0 where
  pub intent_id : String
  pub trace_id : String
  pub tool_name : String
  pub args_hash : String
  pub principal : String
  pub effect_class : String

-- `ExternalIDs`: an empty map, one with its JSON, or one that json.Marshal refuses.
pub data ExternalIds : Type 0 where
  no_ids unencodable : ExternalIds
  ids : String → ExternalIds

-- marshalExternalIDs: whether it fails, and else the column.
abbrev pub marshal_fails : ExternalIds → Bool
marshal_fails no_ids = false
marshal_fails unencodable = true
marshal_fails (ids json) = false

abbrev pub ids_column : ExternalIds → Option String
ids_column no_ids = none
ids_column unencodable = none
ids_column (ids json) = some json

pub record Commit : Type 0 where
  pub commit_id : String
  pub intent_id : String
  pub external_ids : ExternalIds
  pub result_hash : String

pub record Abort : Type 0 where
  pub commit_id : String
  pub intent_id : String
  pub error_message : String

-- A row of action_intents.
pub record IntentRow : Type 0 where
  pub intent : Intent
  pub prepared_at : ℕ

-- CHECK (status IN ('committed','aborted'))
pub data Status : Type 0 where
  committed aborted : Status

-- A row of action_commits.
pub record CommitRow : Type 0 where
  pub commit_id : String
  pub intent_id : String
  pub status : Status
  pub external_ids : Option String
  pub result_hash : Option String
  pub error_message : Option String
  pub completed_at : ℕ

-- An error of the driver: the code of a `*mcsqlite.Error`, if it is one, and its text's bytes.
pub record SqlError : Type 0 where
  pub code : Option ℕ
  pub text : List ℕ

abbrev pub sqlite_constraint_foreign_key : ℕ
sqlite_constraint_foreign_key = 787

abbrev pub sqlite_constraint_unique : ℕ
sqlite_constraint_unique = 2067

abbrev pub has_intent : String → List IntentRow → Bool
has_intent = has_key (λ r. r.intent.intent_id)

abbrev pub has_commit : String → List CommitRow → Bool
has_commit = has_key (λ r. r.intent_id)

pub record Sqlite : Type 1 where
  pub Db : Type 0
  -- The rows, in the order of their rowid.
  pub intents : Db → List IntentRow
  pub commits : Db → List CommitRow
  pub insert_intent : IntentRow → Db → Option SqlError × Db
  pub insert_commit : CommitRow → Db → Option SqlError × Db
  pub checkpoint : Db → Bool × Db
  pub insert_intent_done :
      (r : IntentRow) (db : Db)
      → (insert_intent r db).0 ≡ none
      → (intents (insert_intent r db).1 ≡ intents db ++ (r ∷ []))
        × (commits (insert_intent r db).1 ≡ commits db)
        × (has_intent r.intent.intent_id (intents db) ≡ false)
  pub insert_intent_failed :
      (r : IntentRow) (db : Db) (e : SqlError)
      → (insert_intent r db).0 ≡ some e
      → (intents (insert_intent r db).1 ≡ intents db)
        × (commits (insert_intent r db).1 ≡ commits db)
  pub insert_commit_done :
      (c : CommitRow) (db : Db)
      → (insert_commit c db).0 ≡ none
      → (intents (insert_commit c db).1 ≡ intents db)
        × (commits (insert_commit c db).1 ≡ commits db ++ (c ∷ []))
        × (has_intent c.intent_id (intents db) ≡ true)
        × (has_commit c.intent_id (commits db) ≡ false)
  pub insert_commit_failed :
      (c : CommitRow) (db : Db) (e : SqlError)
      → (insert_commit c db).0 ≡ some e
      → (intents (insert_commit c db).1 ≡ intents db)
        × (commits (insert_commit c db).1 ≡ commits db)
  pub checkpoint_rows :
      (db : Db)
      → (intents (checkpoint db).1 ≡ intents db) × (commits (checkpoint db).1 ≡ commits db)

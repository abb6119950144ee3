-- ===== src/Tests/Engine.antt =====
-- An engine with the schema of the ledger, as two lists of rows.
use ottie.Prelude.{
  ◌≡◌, refl, true, false, Option, none, some, List, [], ◌∷◌, ◌++◌, arith, if◌then◌else◌, Bool-cases,
  inl, inr,
}
use ottie.Ledger.Keys.{has_key}
use ottie.Ledger.Text.{bytes}
use ottie.Ledger.Rows.{
  IntentRow, CommitRow, SqlError, Sqlite, has_intent, has_commit, sqlite_constraint_foreign_key,
  sqlite_constraint_unique,
}
use ottie.Ledger.Errors.{sqlite_constraint_primary_key}
use ottie.Ledger.Phases.{IsSound}

pub record Tables : Type 0 where
  pub ints : List IntentRow
  pub coms : List CommitRow

abbrev pub primary_key_error : SqlError
primary_key_error = record {
  code = some sqlite_constraint_primary_key;
  text = bytes "UNIQUE constraint failed: action_commits.commit_id";
}

abbrev pub unique_error : SqlError
unique_error = record { code = some sqlite_constraint_unique; text = [] }

abbrev pub foreign_key_error : SqlError
foreign_key_error = record { code = some sqlite_constraint_foreign_key; text = [] }

abbrev pub add_intent : IntentRow → Tables → Option SqlError × Tables
add_intent r db =
    if has_intent r.intent.intent_id db.ints
    then (some primary_key_error, db)
    else (none, record db { ints = db.ints ++ (r ∷ []) })

abbrev pub add_commit : CommitRow → Tables → Option SqlError × Tables
add_commit c db =
    if has_key (λ x. x.commit_id) c.commit_id db.coms
    then (some primary_key_error, db)
    else if has_commit c.intent_id db.coms
    then (some unique_error, db)
    else if has_intent c.intent_id db.ints
    then (none, record db { coms = db.coms ++ (c ∷ []) })
    else (some foreign_key_error, db)

pub add_intent_done :
    (r : IntentRow) (db : Tables)
    → (add_intent r db).0 ≡ none
    → ((add_intent r db).1.ints ≡ db.ints ++ (r ∷ []))
      × ((add_intent r db).1.coms ≡ db.coms)
      × (has_intent r.intent.intent_id db.ints ≡ false)
add_intent_done r db h = elim (Bool-cases (has_intent r.intent.intent_id db.ints)) [
  | inl e ↦ absurd (ground (arith, e))
  | inr e ↦ rw e (refl, refl, refl)
]

pub add_intent_failed :
    (r : IntentRow) (db : Tables) (x : SqlError)
    → (add_intent r db).0 ≡ some x
    → ((add_intent r db).1.ints ≡ db.ints) × ((add_intent r db).1.coms ≡ db.coms)
add_intent_failed r db x h = elim (Bool-cases (has_intent r.intent.intent_id db.ints)) [
  | inl e ↦ rw e (refl, refl)
  | inr e ↦ absurd (ground (arith, e))
]

pub add_commit_done :
    (c : CommitRow) (db : Tables)
    → (add_commit c db).0 ≡ none
    → ((add_commit c db).1.ints ≡ db.ints)
      × ((add_commit c db).1.coms ≡ db.coms ++ (c ∷ []))
      × (has_intent c.intent_id db.ints ≡ true)
      × (has_commit c.intent_id db.coms ≡ false)
add_commit_done c db h = (ground arith, ground arith, ground arith, ground arith)

pub add_commit_failed :
    (c : CommitRow) (db : Tables) (x : SqlError)
    → (add_commit c db).0 ≡ some x
    → ((add_commit c db).1.ints ≡ db.ints) × ((add_commit c db).1.coms ≡ db.coms)
add_commit_failed c db x h = (ground arith, ground arith)

abbrev pub engine : Sqlite
engine = record {
  Db = Tables;
  intents = λ db. db.ints;
  commits = λ db. db.coms;
  insert_intent = add_intent;
  insert_commit = add_commit;
  checkpoint = λ db. (true, db);
  insert_intent_done = add_intent_done;
  insert_intent_failed = add_intent_failed;
  insert_commit_done = add_commit_done;
  insert_commit_failed = add_commit_failed;
  checkpoint_rows = λ db. (refl, refl);
}

abbrev pub no_rows : Tables
no_rows = record { ints = []; coms = [] }

pub no_rows-IsSound : IsSound engine no_rows
no_rows-IsSound = record { unique_intents = tt; unique_commits = tt; referenced = λ id h. refl }

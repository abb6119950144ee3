-- ===== src/Ledger/Errors.antt =====
-- What the errors of a finalization mean.
use ottie.Prelude.{
  ℕ, ◌≡◌, ◌≢◌, ◌↔◌, ◌⊎◌, inl, inr, refl, ap, Bool-cases, String, true, false, Option, none, some,
  List, [], ◌∷◌, arith, eq_iff, str_eq, ◌==◌,
}
use ottie.Ledger.Text.{bytes, contains, contains_any}
use ottie.Ledger.Rows.{
  marshal_fails, Sqlite, Commit, CommitRow, SqlError, sqlite_constraint_unique,
  sqlite_constraint_foreign_key,
}
use ottie.Ledger.Ops.{
  already_finalized, wrap_finalization_error, wrap_by_code, wrap_by_text, Call, do_commit,
  insert_final, after_insert, choose_id, failed_with,
}
use ottie.Ledger.Effects.{commit_row}
use ottie.Ledger.Phases.{prepared, view}

-- SQLITE_CONSTRAINT_PRIMARYKEY, which a duplicate `commit_id` gives.
abbrev pub sqlite_constraint_primary_key : ℕ
sqlite_constraint_primary_key = 1555

abbrev pub unique_texts : List (List ℕ)
unique_texts =
    bytes "UNIQUE constraint failed" ∷ bytes "constraint failed: action_commits.intent_id" ∷ []

abbrev pub foreign_key_texts : List (List ℕ)
foreign_key_texts = bytes "FOREIGN KEY constraint failed" ∷ []

-- The class of an error without one of the two codes.
abbrev pub Uncoded : Option ℕ → Type 0
Uncoded o = (o ≢ some sqlite_constraint_unique) × (o ≢ some sqlite_constraint_foreign_key)

text_lem :
    (e : SqlError)
    → (wrap_by_text e ≡ already_finalized e) ↔ (contains_any e.text unique_texts ≡ true)
unfolding wrap_by_text
text_lem e = elim (Bool-cases (contains_any e.text unique_texts)) [
  | inl y ↦ (λ h. y, λ h. rw y refl)
  | inr n ↦ (λ h. ground (arith, n), λ h. ground (arith, n))
]

by_code_lem :
    (o : Option ℕ) (e : SqlError)
    → (wrap_by_code o e ≡ already_finalized e) ↔ (
        (o ≡ some sqlite_constraint_unique)
        ⊎ (Uncoded o × (contains_any e.text unique_texts ≡ true)))
unfolding wrap_by_code
by_code_lem none e = (
  λ h. inr (((λ x. cc), (λ x. cc)), (text_lem e).0 h),
  elim [ inl x ↦ cc | inr x ↦ (text_lem e).1 x.1 ],
)
by_code_lem (some code) e = elim (Bool-cases (code == sqlite_constraint_unique)) [
  | inl u ↦
      let x : code ≡ sqlite_constraint_unique = ground arith in
      (λ h. inl (ap some x), λ h. rw u refl)
  | inr nu ↦ elim (Bool-cases (code == sqlite_constraint_foreign_key)) [
    | inl f ↦
        let x : code ≡ sqlite_constraint_foreign_key = ground arith in
        (λ h. ground arith, elim [ inl y ↦ ground arith | inr y ↦ absurd (y.0.1 (ap some x)) ])
    | inr nf ↦
        rw (nu, nf)
          (
            λ h. inr (((λ x. ground arith), (λ x. ground arith)), (text_lem e).0 h),
            elim [ inl y ↦ ground arith | inr y ↦ (text_lem e).1 y.1 ],
          )
  ]
]

-- A failed finalization is reported as "already finalized" exactly when the driver's code is that of a
-- UNIQUE constraint, or when it is neither that nor the code of a foreign key and the text holds one of
-- the two phrases of the fallback.
pub already_finalized_iff :
    (e : SqlError)
    → (wrap_finalization_error e ≡ already_finalized e) ↔ (
        (e.code ≡ some sqlite_constraint_unique)
        ⊎ (Uncoded e.code × (contains_any e.text unique_texts ≡ true)))
unfolding wrap_finalization_error
already_finalized_iff e = by_code_lem e.code e

unique_text :
    (e : SqlError)
    → contains e.text (bytes "UNIQUE constraint failed") ≡ true
    → contains_any e.text unique_texts ≡ true
unfolding contains_any
unique_text e h = rw h refl

given_id : (id prefix : String) (o : Option String) → id ≢ "" → choose_id id prefix o ≡ some id
unfolding choose_id
given_id id prefix none h = ground (arith, eq_iff id "")
given_id id prefix (some g) h = ground (arith, eq_iff id "")

insert_final_failed :
    (sq : Sqlite) (row : CommitRow) (id : String) (db : sq.Db) (e : SqlError)
    → (sq.insert_commit (record row { commit_id = id }) db).0 ≡ some e
    → insert_final sq row (some id) db ≡ (
      failed_with (wrap_finalization_error e),
      (sq.insert_commit (record row { commit_id = id }) db).1,
    )
unfolding insert_final after_insert
insert_final_failed sq row id db e f = rw (f, after_insert) refl

-- Where the caller gives Commit an identifier for its row, its external identifiers encode, and the
-- INSERT fails with the primary-key code and a text that holds "UNIQUE constraint failed", as for an
-- identifier that is taken, Commit reports its own prepared intent as already finalized, although that
-- intent is still only prepared.
pub duplicate_commit_id_misreported :
    (sq : Sqlite) (call : Call) (c : Commit) (db : sq.Db) (e : SqlError)
    → c.intent_id ≢ ""
    → c.commit_id ≢ ""
    → view sq db c.intent_id ≡ prepared
    → marshal_fails c.external_ids ≡ false
    → (sq.insert_commit (commit_row call c c.commit_id) db).0 ≡ some e
    → e.code ≡ some sqlite_constraint_primary_key
    → contains e.text (bytes "UNIQUE constraint failed") ≡ true
    → let (res, db') = do_commit sq call c db in
      (res.err ≡ some (already_finalized e)) × (view sq db' c.intent_id ≡ prepared)
unfolding do_commit
duplicate_commit_id_misreported sq call c db e ni nc p m f code text =
    let row = commit_row call c c.commit_id in
    let nonempty : str_eq c.intent_id "" ≡ false = ground (arith, eq_iff c.intent_id "") in
    let same = sq.insert_commit_failed row db e f in
    let other : Uncoded e.code = ((λ x. ground arith), (λ x. ground arith)) in
    rw (nonempty, m, given_id c.commit_id "cmt-" call.random nc)
      (rw (insert_final_failed sq row c.commit_id db e f) (
        ap some ((already_finalized_iff e).1 (inr (other, unique_text e text))),
        rw (same.0, same.1) p,
      ))

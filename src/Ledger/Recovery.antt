-- ===== src/Ledger/Recovery.antt =====
-- actionlog.go, RecoverOrphans: the intents with no row in action_commits, oldest first, and in the
-- order of their rowid where prepared_at is equal. The texts of the
-- errors that the query, the scan of a row and the end of the rows give, if any, are an argument.
use ottie.Prelude.{
  ℕ, ◌≤◌, ◌≡◌, ◌↔◌, ◌⊎◌, inl, inr, refl, sym, ap, ◌∙◌, String, Bool, true, false, not, ◌&&◌, ◌||◌,
  Option, none, some, List, [], ◌∷◌, arith, str_eq, eq_iff, leb, ◌==◌, if◌then◌else◌, keep_if,
  Bool-cases,
}
use ottie.Ledger.Keys.{find_key, find_key-has, has_key-find}
use ottie.Ledger.Rows.{IntentRow, CommitRow, Sqlite, has_intent, has_commit}
use ottie.Ledger.Phases.{prepared, view, phase_of}

-- ORDER BY prepared_at ASC, rowid ASC, on rows that stand in the order of their rowid.
unfoldable pub insert_row : IntentRow → List IntentRow → List IntentRow
insert_row r [] = r ∷ []
insert_row r (x ∷ xs) = if leb r.prepared_at x.prepared_at then r ∷ x ∷ xs else x ∷ insert_row r xs

unfoldable pub order_rows : List IntentRow → List IntentRow
order_rows [] = []
order_rows (r ∷ rs) = insert_row r (order_rows rs)

pub data RecoverError : Type 0 where
  query_error : String → RecoverError
  scan_error : String → RecoverError
  rows_error : String → RecoverError

-- What the driver fails with; a closed database fails the query.
pub record RecoverFaults : Type 0 where
  pub on_query : Option String
  pub on_scan : IntentRow → Option String
  pub on_rows : Option String

-- A row in front of what was scanned of the rest, which a failed row leaves out.
abbrev add_scanned :
    IntentRow → Option String → List IntentRow ⊎ RecoverError → List IntentRow ⊎ RecoverError
add_scanned r (some e) rest = inr (scan_error e)
add_scanned r none (inl rows) = inl (r ∷ rows)
add_scanned r none (inr e) = inr e

-- The loop over the rows.
unfoldable pub scan_orphans : RecoverFaults → List IntentRow → List IntentRow ⊎ RecoverError
scan_orphans faults [] = elim faults.on_rows [ some e ↦ inr (rows_error e) | none ↦ inl [] ]
scan_orphans faults (r ∷ rs) = add_scanned r (faults.on_scan r) (scan_orphans faults rs)

abbrev pub no_faults : RecoverFaults
no_faults = record { on_query = none; on_scan = λ r. none; on_rows = none }

module _ (sq : Sqlite) where
  open sq use {Db, intents, commits}

  -- WHERE c.commit_id IS NULL after the LEFT JOIN
  abbrev pub is_orphan : Db → IntentRow → Bool
  is_orphan db r = not (has_commit r.intent.intent_id (commits db))

  -- The rows of the query.
  unfoldable pub orphan_rows : Db → List IntentRow
  unfolding order_rows insert_row
  orphan_rows db = order_rows (keep_if (is_orphan db) (intents db))

  unfoldable pub recover_orphans : RecoverFaults → Db → List IntentRow ⊎ RecoverError
  unfolding orphan_rows scan_orphans
  recover_orphans faults db = elim faults.on_query [
    | some e ↦ inr (query_error e)
    | none ↦ scan_orphans faults (orphan_rows db)
  ]

has-insert_row :
    (id : String) (r : IntentRow) (xs : List IntentRow)
    → has_intent id (insert_row r xs) ≡ (str_eq r.intent.intent_id id || has_intent id xs)
unfolding insert_row
has-insert_row id r [] = refl
has-insert_row id r (x ∷ xs) = ground (arith, has-insert_row id r xs)

has-order_rows :
    (id : String) (xs : List IntentRow) → has_intent id (order_rows xs) ≡ has_intent id xs
unfolding order_rows
has-order_rows id [] = refl
has-order_rows id (r ∷ rs) =
    has-insert_row id r (order_rows rs)
    ∙ ap (λ b. str_eq r.intent.intent_id id || b) (has-order_rows id rs)

has-keep_if :
    (id : String) (q : String → Bool) (xs : List IntentRow)
    → has_intent id (keep_if (λ r. q r.intent.intent_id) xs) ≡ (has_intent id xs && q id)
has-keep_if id q [] = refl
has-keep_if id q (r ∷ rs) = elim (Bool-cases (str_eq r.intent.intent_id id)) [
  | inl e ↦ ground (arith, has-keep_if id q rs, ap q ((eq_iff r.intent.intent_id id).0 e))
  | inr n ↦ ground (arith, has-keep_if id q rs)
]

-- The first row, if there is one, was not prepared before `t`.
abbrev pub StartsFrom : ℕ → List IntentRow → Type 0
StartsFrom t [] = Unit
StartsFrom t (x ∷ xs) = t ≤ x.prepared_at

-- Oldest first.
abbrev pub Ordered : List IntentRow → Type 0
Ordered [] = Unit
Ordered (x ∷ xs) = StartsFrom x.prepared_at xs × Ordered xs

insert_row-StartsFrom :
    (t : ℕ) (r : IntentRow) (xs : List IntentRow)
    → t ≤ r.prepared_at
    → StartsFrom t xs
    → StartsFrom t (insert_row r xs)
unfolding insert_row
insert_row-StartsFrom t r [] h s = h
insert_row-StartsFrom t r (x ∷ xs) h s = ground arith

insert_row-Ordered : (r : IntentRow) (xs : List IntentRow) → Ordered xs → Ordered (insert_row r xs)
unfolding insert_row
insert_row-Ordered r [] o = (tt, tt)
insert_row-Ordered r (x ∷ xs) o = elim (Bool-cases (leb r.prepared_at x.prepared_at)) [
  | inl h ↦ rw h (ground arith, o)
  | inr h ↦
      rw h
        (insert_row-StartsFrom x.prepared_at r xs (ground arith) o.0, insert_row-Ordered r xs o.1)
]

order_rows-Ordered : (xs : List IntentRow) → Ordered (order_rows xs)
unfolding order_rows
order_rows-Ordered [] = tt
order_rows-Ordered (r ∷ rs) = insert_row-Ordered r (order_rows rs) (order_rows-Ordered rs)

-- The rows that were prepared at time `t`.
abbrev pub at_time : ℕ → List IntentRow → List IntentRow
at_time t = keep_if (λ r. r.prepared_at == t)

at_time-insert_row :
    (t : ℕ) (r : IntentRow) (xs : List IntentRow) → at_time t (insert_row r xs) ≡ at_time t (r ∷ xs)
unfolding insert_row
at_time-insert_row t r [] = refl
at_time-insert_row t r (x ∷ xs) = ground (arith, at_time-insert_row t r xs)

at_time-order_rows : (t : ℕ) (xs : List IntentRow) → at_time t (order_rows xs) ≡ at_time t xs
unfolding order_rows
at_time-order_rows t [] = refl
at_time-order_rows t (r ∷ rs) =
    at_time-insert_row t r (order_rows rs) ∙ ground (arith, at_time-order_rows t rs)

phase_of-prepared :
    (o : Option CommitRow) (b : Bool) → (phase_of o b ≡ prepared) ↔ ((o ≡ none) × (b ≡ true))
phase_of-prepared none true = (λ h. (refl, refl), λ h. refl)
phase_of-prepared none false = (λ h. cc, λ h. cc)
phase_of-prepared (some c) b = (λ h. cc, λ h. cc)

scan_orphans-none : (rows : List IntentRow) → scan_orphans no_faults rows ≡ inl rows
unfolding scan_orphans
scan_orphans-none [] = refl
scan_orphans-none (r ∷ rs) = rw (scan_orphans-none rs) refl

-- Rows that are scanned without an error are all of them.
scan_orphans-all :
    (faults : RecoverFaults) (rows out : List IntentRow)
    → scan_orphans faults rows ≡ inl out
    → out ≡ rows
unfolding scan_orphans
scan_orphans-all faults [] out h = by_end faults.on_rows h
  where
    by_end :
        (o : Option String)
        → (elim o as (λ x. List IntentRow ⊎ RecoverError) [
          | some e ↦ inr (rows_error e)
          | none ↦ inl []
        ])
          ≡ inl out
        → out ≡ []
    by_end none h = cc h
    by_end (some e) h = cc h
scan_orphans-all faults (r ∷ rs) out h =
    by_row (faults.on_scan r) (scan_orphans faults rs) (λ rows k. scan_orphans-all faults rs rows k)
      h
  where
    by_row :
        (o : Option String) (rest : List IntentRow ⊎ RecoverError)
        → ((rows : List IntentRow) → rest ≡ inl rows → rows ≡ rs)
        → add_scanned r o rest ≡ inl out
        → out ≡ r ∷ rs
    by_row (some e) rest k h = cc h
    by_row none (inr e) k h = cc h
    by_row none (inl rows) k h = let same = k rows refl in cc (h, same)

pub no_faults_lem :
    (sq : Sqlite) (db : sq.Db) → recover_orphans sq no_faults db ≡ inl (orphan_rows sq db)
unfolding recover_orphans
no_faults_lem sq db = scan_orphans-none (orphan_rows sq db)

-- The rows that RecoverOrphans returns without an error.
recovered :
    (sq : Sqlite) (faults : RecoverFaults) (db : sq.Db) (out : List IntentRow)
    → recover_orphans sq faults db ≡ inl out
    → out ≡ orphan_rows sq db
unfolding recover_orphans
recovered sq faults db out h = by_query faults.on_query h
  where
    by_query :
        (o : Option String)
        → (elim o as (λ x. List IntentRow ⊎ RecoverError) [
          | some e ↦ inr (query_error e)
          | none ↦ scan_orphans faults (orphan_rows sq db)
        ])
          ≡ inl out
        → out ≡ orphan_rows sq db
    by_query none h = scan_orphans-all faults (orphan_rows sq db) out h
    by_query (some e) h = cc h

orphan_rows-exact :
    (sq : Sqlite) (db : sq.Db) (id : String) (t : ℕ)
    → ((has_intent id (orphan_rows sq db) ≡ true) ↔ (view sq db id ≡ prepared))
      × Ordered (orphan_rows sq db)
      × (at_time t (orphan_rows sq db) ≡ at_time t (keep_if (is_orphan sq db) (sq.intents db)))
unfolding orphan_rows
orphan_rows-exact sq db id t =
    let kept = keep_if (is_orphan sq db) (sq.intents db) in
    let key : CommitRow → String = λ c. c.intent_id in
    let member =
      has-order_rows id kept
      ∙ has-keep_if id (λ i. not (has_commit i (sq.commits db))) (sq.intents db) in
    let phase =
      phase_of-prepared (find_key key id (sq.commits db)) (has_intent id (sq.intents db)) in
    (
      (
        λ h.
            phase.1 (
              find_key-has key id (sq.commits db) (ground (arith, member)),
              ground (arith, member),
            ),
        λ h.
            let (no_row, there) = phase.0 h in
            ground (arith, member, has_key-find key id (sq.commits db) no_row, there),
      ),
      order_rows-Ordered kept,
      at_time-order_rows t kept,
    )

-- Recovery is exact: where it returns without an error, it returns what it does where the driver gives none; an
-- identifier is among the orphans if and only if its intent is prepared and not finalized; the orphans come
-- oldest first; and those of one millisecond come in the order in which they stand in the table.
pub recover_orphans-exact :
    (sq : Sqlite) (faults : RecoverFaults) (db : sq.Db) (id : String) (t : ℕ) (out : List IntentRow)
    → recover_orphans sq faults db ≡ inl out
    → (recover_orphans sq no_faults db ≡ inl out)
      × ((has_intent id out ≡ true) ↔ (view sq db id ≡ prepared))
      × Ordered out
      × (at_time t out ≡ at_time t (keep_if (is_orphan sq db) (sq.intents db)))
recover_orphans-exact sq faults db id t out h =
    let same = recovered sq faults db out h in
    let (member, order, times) = orphan_rows-exact sq db id t in
    (no_faults_lem sq db ∙ ap inl (sym same), rw same member, rw same order, rw same times)

-- ===== src/Ledger/Phases.antt =====
-- The ledger as its callers see it: an intent is absent, prepared, or finalized for good.
use ottie.Prelude.{
  ◌≡◌, ◌≢◌, inl, inr, refl, sym, ◌∙◌, String, Bool, true, false, ◌||◌, Option, none, some, List, [],
  ◌∷◌, arith, str_eq, eq_iff, eq_refl, Bool-cases,
}
use ottie.Ledger.Keys.{
  UniqueKeys, UniqueKeys-snoc, find_key, find_key-snoc_ne, find_key-snoc_self, find_key-has,
  any-append,
}
use ottie.Ledger.Rows.{IntentRow, CommitRow, Sqlite, has_intent, has_commit, Status}
use ottie.Ledger.Ops.{WriteResult}
use ottie.Ledger.Effects.{SameRows, Inserted, Finalized}

abbrev pub find_intent : String → List IntentRow → Option IntentRow
find_intent = find_key (λ r. r.intent.intent_id)

abbrev pub find_commit : String → List CommitRow → Option CommitRow
find_commit = find_key (λ r. r.intent_id)

pub data Phase : Type 0 where
  absent prepared : Phase
  finalized : Status → Phase

abbrev pub phase_of : Option CommitRow → Bool → Phase
phase_of (some c) _ = finalized c.status
phase_of none true = prepared
phase_of none false = absent

-- The abstract ledger: the phase of every identifier.
abbrev pub View : Type 0
View = String → Phase

-- What an operation may do to the phases: nothing, prepare an absent intent, or finalize a prepared one.
pub data LedgerStep (v v' : View) : Type 0 where
  stays : ((j : String) → v' j ≡ v j) → LedgerStep v v'
  prepares :
      (id : String)
      → v id ≡ absent
      → v' id ≡ prepared
      → ((j : String) → id ≢ j → v' j ≡ v j)
      → LedgerStep v v'
  finalizes :
      (id : String) (s : Status)
      → v id ≡ prepared
      → v' id ≡ finalized s
      → ((j : String) → id ≢ j → v' j ≡ v j)
      → LedgerStep v v'

str_ne : (a b : String) → a ≢ b → str_eq a b ≡ false
str_ne a b ne = ground (arith, eq_iff a b)

or_false : (b : Bool) → (b || false) ≡ b
or_false true = refl
or_false false = refl

module _ (sq : Sqlite) where
  open sq use {Db, intents, commits}

  abbrev pub view : Db → View
  view db id = phase_of (find_commit id (commits db)) (has_intent id (intents db))

  -- Identifiers are unique in both tables, and every commit row has its intent.
  pub record IsSound (db : Db) : Type 0 where
    pub unique_intents : UniqueKeys (λ r. r.intent.intent_id) (intents db)
    pub unique_commits : UniqueKeys (λ r. r.intent_id) (commits db)
    pub referenced :
        (id : String) → has_intent id (intents db) ≡ false → has_commit id (commits db) ≡ false

  -- An intent row that was just written is prepared.
  pub Inserted-prepared :
      (r : IntentRow) (res : WriteResult) (db db' : Db)
      → Inserted sq r res db db'
      → IsSound db
      → view db' r.intent.intent_id ≡ prepared
  Inserted-prepared r res db db' w h =
      let id = r.intent.intent_id in
      let no_commit =
        find_key-has (λ (c : CommitRow). c.intent_id) id (commits db) (h.referenced id w.2) in
      let there : has_intent id (intents db') ≡ true =
        rw w.3 (any-append _ (intents db) (r ∷ []) ∙ rw w.2 (rw (eq_refl id) refl)) in
      rw w.4 (rw no_commit (rw there refl))

  -- An intent whose commit row was just written is finalized, with the status of that row.
  pub Finalized-final :
      (c : CommitRow) (res : WriteResult) (db db' : Db)
      → Finalized sq c res db db'
      → view db' c.intent_id ≡ finalized c.status
  Finalized-final c res db db' w =
      let id = c.intent_id in
      rw w.5 (
        rw (find_key-snoc_self (λ (x : CommitRow). x.intent_id) id (commits db) c (eq_refl id) w.3)
          refl)

  pub SameRows-keeps :
      (db db' : Db)
      → SameRows sq db db'
      → IsSound db
      → IsSound db' × LedgerStep (view db) (view db')
  SameRows-keeps db db' (ins, coms) h = (
    record {
      unique_intents = rw ins h.unique_intents;
      unique_commits = rw coms h.unique_commits;
      referenced = λ id. rw (ins, coms) (h.referenced id);
    },
    stays (λ j. rw (ins, coms) refl),
  )

  pub Inserted-keeps :
      (r : IntentRow) (res : WriteResult) (db db' : Db)
      → Inserted sq r res db db'
      → IsSound db
      → IsSound db' × LedgerStep (view db) (view db')
  Inserted-keeps r res db db' w h =
      let id = r.intent.intent_id in
      let key : IntentRow → String = λ x. x.intent.intent_id in
      let free = w.2 in
      let ins = w.3 in
      let coms = w.4 in
      let grown : (j : String)
          → has_intent j (intents db') ≡ (has_intent j (intents db) || (str_eq id j || false)) =
        λ j. rw ins (any-append _ (intents db) (r ∷ [])) in
      let no_commit =
        find_key-has (λ (c : CommitRow). c.intent_id) id (commits db) (h.referenced id free) in
      (
        record {
          unique_intents = rw ins (UniqueKeys-snoc key (intents db) r h.unique_intents free);
          unique_commits = rw coms h.unique_commits;
          referenced = λ j e. rw coms (h.referenced j (ground (arith, grown j)));
        },
        prepares id (rw no_commit (rw free refl)) (Inserted-prepared r res db db' w h)
            (λ j ne. rw coms (rw (grown j) (rw (str_ne id j ne) (rw or_false refl)))),
      )

  pub Finalized-keeps :
      (c : CommitRow) (res : WriteResult) (db db' : Db)
      → Finalized sq c res db db'
      → IsSound db
      → IsSound db' × LedgerStep (view db) (view db')
  Finalized-keeps c res db db' w h =
      let id = c.intent_id in
      let key : CommitRow → String = λ x. x.intent_id in
      let there = w.2 in
      let free = w.3 in
      let ins = w.4 in
      let coms = w.5 in
      let before = find_key-has key id (commits db) free in
      let grown : (j : String)
          → has_commit j (commits db') ≡ (has_commit j (commits db) || (str_eq id j || false)) =
        λ j. rw coms (any-append _ (commits db) (c ∷ [])) in
      let same : (j : String) → has_intent j (intents db') ≡ has_intent j (intents db) =
        λ j. rw ins refl in
      (
        record {
          unique_intents = rw ins h.unique_intents;
          unique_commits = rw coms (UniqueKeys-snoc key (commits db) c h.unique_commits free);
          referenced = λ j e. elim (Bool-cases (str_eq id j)) [
            | inl eq ↦ absurd (ground (arith, eq_iff id j, same j, there))
            | inr no_eq ↦ rw (grown j) (rw (h.referenced j (sym (same j) ∙ e)) (rw no_eq refl))
          ];
        },
        finalizes id c.status (rw before (rw there refl)) (Finalized-final c res db db' w) (λ j ne.
            rw coms (rw (find_key-snoc_ne key j (commits db) c (str_ne id j ne)) (rw ins refl))),
      )

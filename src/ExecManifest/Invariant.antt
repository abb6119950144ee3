-- ===== src/ExecManifest/Invariant.antt =====
-- The tables' invariant, which every operation of the writer keeps.
use ottie.Prelude.{
  ◌≡◌, inl, inr, refl, Bool-cases, sym, ap, ◌∙◌, String, Bool, false, Option, List, [], ◌∷◌, ◌++◌,
  arith, All, str_eq, eq_iff,
}
use ottie.Ledger.Keys.{has_key, UniqueKeys, UniqueKeys-snoc, any-append}
use ottie.Ledger.Ops.{Call}
use ottie.ExecManifest.Rows.{Codec, TraceRow, CallRow, Engine, has_trace, has_turn, has_call}
use ottie.ExecManifest.Store.{WriteResult, canonical_json_array, canonical_json_map, trace_row}
use ottie.ExecManifest.Ops.{WriteOp, begin_op, record_op, handle_op}
use ottie.ExecManifest.Effects.{
  SameRows, Begun, Recorded, begun_row, do_begin_lem, do_record_call_lem,
}

-- No two rows have the same session and turn.
abbrev pub UniqueTurns : List TraceRow → Type 0
UniqueTurns [] = Unit
UniqueTurns (r ∷ rs) = (has_turn r.session_id r.turn rs ≡ false) × UniqueTurns rs

abbrev pub UniqueCalls : List CallRow → Type 0
UniqueCalls [] = Unit
UniqueCalls (c ∷ cs) = (has_call c.trace_id c.call_seq cs ≡ false) × UniqueCalls cs

-- Some call belongs to the trace.
abbrev pub has_calls : String → List CallRow → Bool
has_calls = has_key (λ c. c.trace_id)

UniqueTurns-snoc :
    (rs : List TraceRow) (r : TraceRow)
    → UniqueTurns rs
    → has_turn r.session_id r.turn rs ≡ false
    → UniqueTurns (rs ++ (r ∷ []))
UniqueTurns-snoc [] r u h = (refl, tt)
UniqueTurns-snoc (x ∷ rs) r u h = (
  rw any-append
      (ground (arith, eq_iff x.session_id r.session_id, eq_iff r.session_id x.session_id, u.0)),
  UniqueTurns-snoc rs r u.1 (ground arith),
)

UniqueCalls-snoc :
    (cs : List CallRow) (c : CallRow)
    → UniqueCalls cs
    → has_call c.trace_id c.call_seq cs ≡ false
    → UniqueCalls (cs ++ (c ∷ []))
UniqueCalls-snoc [] c u h = (refl, tt)
UniqueCalls-snoc (x ∷ cs) c u h = (
  rw any-append (ground (arith, eq_iff x.trace_id c.trace_id, eq_iff c.trace_id x.trace_id, u.0)),
  UniqueCalls-snoc cs c u.1 (ground arith),
)

All-snoc :
    {A : Type 0} (P : A → Type 0) (xs : List A) (x : A) → All P xs → P x → All P (xs ++ (x ∷ []))
All-snoc P [] x h p = (p, tt)
All-snoc P (y ∷ xs) x h p = (h.0, All-snoc P xs x h.1 p)

module _ (codec : Codec) where
  open codec use {Versions}

  -- Both JSON columns hold what the codec wrote.
  abbrev pub IsEncoded : TraceRow → Type 0
  IsEncoded r =
      (hashes : Option (List String)) × (versions : Option Versions) × (r.skill_hashes
        ≡ canonical_json_array codec hashes)
      × (r.mcp_versions ≡ canonical_json_map codec versions)

module _ (codec : Codec) (sq : Engine) where
  open sq use {Db, traces, calls}

  pub record IsSound (db : Db) : Type 0 where
    pub unique_traces : UniqueKeys (λ r. r.trace_id) (traces db)
    pub unique_turns : UniqueTurns (traces db)
    pub unique_calls : UniqueCalls (calls db)
    pub referenced :
        (id : String) → has_trace id (traces db) ≡ false → has_calls id (calls db) ≡ false
    pub encoded : All (IsEncoded codec) (traces db)

  Same-IsSound : (db db' : Db) → SameRows codec sq db db' → IsSound db → IsSound db'
  Same-IsSound db db' (ts, cs) h = record {
    unique_traces = rw ts h.unique_traces;
    unique_turns = rw ts h.unique_turns;
    unique_calls = rw cs h.unique_calls;
    referenced = rw (ts, cs) h.referenced;
    encoded = rw ts h.encoded;
  }

  Begun-IsSound :
      (r : TraceRow) (res : WriteResult) (db db' : Db)
      → Begun codec sq r res db db'
      → IsEncoded codec r
      → IsSound db
      → IsSound db'
  Begun-IsSound r res db db' (e, free, free_turn, ts, cs) enc h = record {
    unique_traces = rw ts (UniqueKeys-snoc (λ x. x.trace_id) (traces db) r h.unique_traces free);
    unique_turns = rw ts (UniqueTurns-snoc (traces db) r h.unique_turns free_turn);
    unique_calls = rw cs h.unique_calls;
    referenced = λ id n. rw cs (h.referenced id (absent id n));
    encoded = rw ts (All-snoc _ (traces db) r h.encoded enc);
  }
    where
      absent : (id : String) → has_trace id (traces db') ≡ false → has_trace id (traces db) ≡ false
      absent id n =
          let split = any-append (λ (x : TraceRow). str_eq x.trace_id id) (traces db) (r ∷ []) in
          let n' = ap (has_trace id) ts in ground (arith, n', split)

  Recorded-IsSound :
      (c : CallRow) (res : WriteResult) (db db' : Db)
      → Recorded codec sq c res db db'
      → IsSound db
      → IsSound db'
  Recorded-IsSound c res db db' (e, there, free, ts, cs) h = record {
    unique_traces = rw ts h.unique_traces;
    unique_turns = rw ts h.unique_turns;
    unique_calls = rw cs (UniqueCalls-snoc (calls db) c h.unique_calls free);
    referenced = absent;
    encoded = rw ts h.encoded;
  }
    where
      absent : (id : String) → has_trace id (traces db') ≡ false → has_calls id (calls db') ≡ false
      absent id n =
          let gone = sym (ap (has_trace id) ts) ∙ n in
          let none_before = h.referenced id gone in
          let split = any-append (λ (x : CallRow). str_eq x.trace_id id) (calls db) (c ∷ []) in
          rw cs (
            rw split (
              rw none_before (elim (Bool-cases (str_eq c.trace_id id)) [
                | inl y ↦
                    let same : c.trace_id ≡ id = ground (arith, eq_iff c.trace_id id) in
                    let known = ap (λ t. has_trace t (traces db)) same in ground (arith, known)
                | inr y ↦ rw y refl
              ])))

  -- The invariant is kept by every operation of the writer, whether it succeeds or fails.
  pub handle_op-IsSound :
      (call : Call) (op : WriteOp codec sq) (db : Db)
      → IsSound db
      → IsSound (handle_op codec sq call op db).1
  unfolding handle_op begun_row trace_row
  handle_op-IsSound call (begin_op m) db h = elim (do_begin_lem codec sq call m db) [
    | inl (e, r, same) ↦ Same-IsSound db _ same h
    | inr (id, ok, e, x) ↦
        Begun-IsSound (begun_row codec sq call m id) _ db _ x
          (m.skill_hashes, m.mcp_versions, refl, refl) h
  ]
  handle_op-IsSound call (record_op c) db h = elim (do_record_call_lem codec sq call c db) [
    | inl (e, r, same) ↦ Same-IsSound db _ same h
    | inr (ok, x) ↦ Recorded-IsSound _ _ db _ x h
  ]

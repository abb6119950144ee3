-- ===== src/ExecManifest/Listing.antt =====
-- ListBySession gives every turn of a session once, in order.
use ottie.Prelude.{
  ℕ, ◌<◌, ◌≡◌, ◌≢◌, inl, inr, refl, sym, ap, ◌∙◌, String, false, ◌==◌, some, List, [], ◌∷◌, arith,
  any, All, str_eq, eq_iff, Bool-cases, keep_if, map,
}
use ottie.Prelude.Int.{to_ℕ, pos}
use ottie.ExecManifest.Rows.{Codec, TraceRow, Engine, has_turn}
use ottie.ExecManifest.Ops.{Store}
use ottie.ExecManifest.Reads.{
  FullManifest, no_faults, scan_row, scan_rows, hydrate, list_by_session, select_session,
  guarded_read, load_provider_calls, select_calls, scan_call,
}
use ottie.ExecManifest.Reads.Sort.{
  sort_by, Ascending, Distinct, sort_by-Ascending, any-sort_by, any-keep_if, All-sort_by,
  All-keep_if,
}
use ottie.ExecManifest.Invariant.{IsSound, IsEncoded, UniqueTurns}
use ottie.ExecManifest.Replay.{decode_array, decode_map, or_nil}

other_turns :
    (session : String) (n : ℕ) (rows : List TraceRow)
    → has_turn session n rows ≡ false
    → All (λ (y : TraceRow). n ≢ y.turn) (keep_if (λ r. str_eq r.session_id session) rows)
other_turns session n [] h = tt
other_turns session n (r ∷ rows) h = elim (Bool-cases (str_eq r.session_id session)) [
  | inl e ↦ rw e (ground arith, other_turns session n rows (ground arith))
  | inr e ↦ rw e (other_turns session n rows (ground arith))
]

keep_if-Distinct :
    (session : String) (rows : List TraceRow)
    → UniqueTurns rows
    → Distinct (λ r. r.turn) (keep_if (λ (r : TraceRow). str_eq r.session_id session) rows)
keep_if-Distinct session [] u = tt
keep_if-Distinct session (r ∷ rows) u = elim (Bool-cases (str_eq r.session_id session)) [
  | inl e ↦
      let same : r.session_id ≡ session = ground (arith, eq_iff r.session_id session) in
      rw e (
        other_turns session r.turn rows (sym (ap (λ s. has_turn s r.turn rows) same) ∙ u.0),
        keep_if-Distinct session rows u.1,
      )
  | inr e ↦ rw e (keep_if-Distinct session rows u.1)
]

module _ {A : Type 0} (key : A → ℕ) where
  map-above : (n : ℕ) (xs : List A) → All (λ x. n < key x) xs → All (λ k. n < k) (map key xs)
  map-above n [] h = tt
  map-above n (x ∷ xs) h = (h.0, map-above n xs h.1)

  map-Ascending : (xs : List A) → Ascending key xs → Ascending (λ k. k) (map key xs)
  map-Ascending [] h = tt
  map-Ascending (x ∷ xs) h = (map-above (key x) xs h.0, map-Ascending xs h.1)

  any-map : (n : ℕ) (xs : List A) → any (λ k. k == n) (map key xs) ≡ any (λ x. key x == n) xs
  any-map n [] = refl
  any-map n (x ∷ xs) = ground (arith, any-map n xs)

module _ (codec : Codec) where
  open codec use {Versions}

  abbrev pub turn_of : FullManifest Versions → ℕ
  turn_of full = to_ℕ full.manifest.turn

  -- A row whose columns the codec wrote is scanned, with its turn.
  scan_encoded :
      (r : TraceRow)
      → IsEncoded codec r
      → (full : FullManifest Versions) × (scan_row codec r ≡ inl full) × (turn_of full ≡ r.turn)
  unfolding scan_row
  scan_encoded r (hashes, versions, h, v) = (
    record {
      manifest = record {
        trace_id = r.trace_id;
        session_id = r.session_id;
        turn = pos r.turn;
        prompt_hash = r.prompt_hash;
        tool_schema_hash = r.tool_schema_hash;
        skill_hashes = some (or_nil [] hashes);
        mcp_versions = some (or_nil codec.no_versions versions);
        model_id = r.model_id;
        prompt_epoch = r.prompt_epoch;
      };
      created_at = r.created_at;
      provider_calls = [];
    },
    rw (h, v) (rw (decode_array codec hashes, decode_map codec versions) refl),
    refl,
  )

  module _ (sq : Engine) where
    open sq use {Db, traces, calls}

    scan_rows_encoded :
        (rows : List TraceRow)
        → All (IsEncoded codec) rows
        → (out : List (FullManifest Versions)) × (scan_rows codec sq no_faults rows ≡ inl out)
          × (map turn_of out ≡ map (λ r. r.turn) rows)
    unfolding scan_rows
    scan_rows_encoded [] h = ([], refl, refl)
    scan_rows_encoded (r ∷ rows) h =
        let (full, e, t) = scan_encoded r h.0 in
        let (out, es, ts) = scan_rows_encoded rows h.1 in (full ∷ out, rw (e, es) refl, cc (t, ts))

    hydrated :
        (db : Db) (fulls : List (FullManifest Versions))
        → (out : List (FullManifest Versions)) × (hydrate codec sq no_faults db fulls ≡ inl out)
          × (map turn_of out ≡ map turn_of fulls)
    unfolding hydrate load_provider_calls
    hydrated db [] = ([], refl, refl)
    hydrated db (full ∷ fulls) =
        let (out, e, t) = hydrated db fulls in
        (
          record full {
            provider_calls = map scan_call (select_calls full.manifest.trace_id (calls db));
          }
              ∷ out,
          rw e refl,
          cc t,
        )

    -- On a sound store that is open, and without faults of the driver, ListBySession of a session returns a
    -- list: its turns ascend strictly, and they are the turns that the session has a row of.
    pub list_by_session-Ascending :
        (session : String) (s : Store codec sq)
        → session ≢ ""
        → s.closed ≡ false
        → IsSound codec sq s.db
        → (out : List (FullManifest Versions)) × (list_by_session codec sq no_faults session s
            ≡ inl out)
          × Ascending (λ k. k) (map turn_of out)
          × ((n : ℕ) → any (λ k. k == n) (map turn_of out) ≡ has_turn session n (traces s.db))
    unfolding list_by_session guarded_read select_session
    list_by_session-Ascending session s ne is_open h =
        let kept = keep_if (λ (r : TraceRow). str_eq r.session_id session) (traces s.db) in
        let rows = sort_by (λ (r : TraceRow). r.turn) kept in
        let encoded =
          All-sort_by (λ (r : TraceRow). r.turn) _ kept
            (All-keep_if (IsEncoded codec) _ (traces s.db) h.encoded) in
        let (fulls, e, t) = scan_rows_encoded rows encoded in
        let (out, e', t') = hydrated s.db fulls in
        let named : str_eq session "" ≡ false = ground (arith, eq_iff session "") in
        let sorted =
          sort_by-Ascending (λ (r : TraceRow). r.turn) kept
            (keep_if-Distinct session (traces s.db) h.unique_turns) in
        (
          out,
          rw (named, is_open) (rw (e, e') refl),
          rw (t' ∙ t) (map-Ascending (λ (r : TraceRow). r.turn) rows sorted),
          λ n. rw (t' ∙ t) (
              any-map (λ (r : TraceRow). r.turn) n rows
              ∙ any-sort_by (λ (r : TraceRow). r.turn) (λ r. r.turn == n) kept
              ∙ any-keep_if (λ (r : TraceRow). r.turn == n) (λ r. str_eq r.session_id session)
                  (traces s.db)),
        )

-- ===== src/ExecManifest/Replay.antt =====
-- What Begin records, Get gives back.
use Prim.Native.String.{◌++◌, count}
use text.Mathlib.TextLemmas.{length-append}
use ottie.Prelude.{
  ℕ, ◌≡◌, ◌≢◌, inl, inr, refl, ap, String, Bool, true, false, Option, none, some, List, [], ◌∷◌,
  arith, str_eq, eq_iff, eq_refl, keep_if,
}
use ottie.Prelude.Int.{ℤ, pos, negsuc, negative, to_ℕ}
use ottie.Ledger.Keys.{find_key, find_key-snoc_self}
use ottie.Ledger.Ops.{choose_id, Call, received}
use ottie.ExecManifest.Rows.{Codec, Manifest, TraceRow, CallRow, Engine}
use ottie.ExecManifest.Store.{
  WriteResult, refused_field, canonical_json_array, canonical_json_map, trace_row,
}
use ottie.ExecManifest.Ops.{begin_op, Store, begin, enqueue, deliver, handle_op, do_begin}
use ottie.ExecManifest.Reads.{
  FullManifest, no_faults, decode_json_array, decode_json_map, scan_row, scan_trace, read_trace,
  get, guarded_read, load_provider_calls, select_calls,
}
use ottie.ExecManifest.Reads.Sort.{sort_by}
use ottie.ExecManifest.Effects.{Begun, begun_row, do_begin_lem}
use ottie.ExecManifest.Invariant.{IsSound, has_calls}

abbrev pub or_nil : {A : Type 0} → A → Option A → A
or_nil x none = x
or_nil x (some y) = y

no_calls :
    (id : String) (rows : List CallRow)
    → has_calls id rows ≡ false
    → keep_if (λ r. str_eq r.trace_id id) rows ≡ []
no_calls id [] h = refl
no_calls id (r ∷ rows) h = ground (arith, no_calls id rows)

not_negative : {V : Type 0} (m : Manifest V) → refused_field m ≡ none → pos (to_ℕ m.turn) ≡ m.turn
unfolding refused_field
not_negative m h = by_sign m.turn (ground arith)
  where
    by_sign : (z : ℤ) → negative z ≡ false → pos (to_ℕ z) ≡ z
    by_sign (pos n) e = refl
    by_sign (negsuc n) e = cc

chosen_id :
    (given : String) (random : Option String) (id : String)
    → choose_id given "trc-" random ≡ some id
    → str_eq id "" ≡ false
unfolding choose_id
chosen_id given none id h = ground (arith, eq_iff given "", eq_iff id "")
chosen_id given (some g) id h = ground (arith, eq_iff given "", eq_iff id "", prefixed)
  where
    prefixed : "trc-" ++ g ≢ ""
    prefixed e =
        let long = ap count e in let joined = length-append "trc-" g in omega (arith, long, joined)

module _ (codec : Codec) where
  open codec use {Versions}

  -- What a reader gets of a manifest that was recorded under an identifier: its fields, with an empty list
  -- or map for a nil one, and no calls yet.
  abbrev pub recorded : Manifest Versions → String → ℕ → FullManifest Versions
  recorded m id now = record {
    manifest = record m {
      trace_id = id;
      skill_hashes = some (or_nil [] m.skill_hashes);
      mcp_versions = some (or_nil codec.no_versions m.mcp_versions);
    };
    created_at = now;
    provider_calls = [];
  }

  pub decode_array :
      (o : Option (List String))
      → decode_json_array codec (canonical_json_array codec o) ≡ inl (or_nil [] o)
  unfolding decode_json_array canonical_json_array
  decode_array none = ground (
    arith,
    eq_iff (codec.marshal_array []) "",
    codec.array_text [],
    codec.unmarshal-marshal_array [],
  )
  decode_array (some xs) = ground (
    arith,
    eq_iff (codec.marshal_array xs) "",
    codec.array_text xs,
    codec.unmarshal-marshal_array xs,
  )

  pub decode_map :
      (o : Option Versions)
      → decode_json_map codec (canonical_json_map codec o) ≡ inl (or_nil codec.no_versions o)
  unfolding decode_json_map canonical_json_map
  decode_map none = ground (
    arith,
    eq_iff (codec.marshal_map codec.no_versions) "",
    codec.map_text codec.no_versions,
    codec.unmarshal-marshal_map codec.no_versions,
  )
  decode_map (some m) =
      ground
        (arith, eq_iff (codec.marshal_map m) "", codec.map_text m, codec.unmarshal-marshal_map m)

  scan-trace_row :
      (m : Manifest Versions) (id : String) (now : ℕ)
      → pos (to_ℕ m.turn) ≡ m.turn
      → scan_row codec (trace_row codec id now (to_ℕ m.turn) m) ≡ inl (recorded m id now)
  unfolding scan_row trace_row
  scan-trace_row m id now e = rw (decode_array m.skill_hashes, decode_map m.mcp_versions, e) refl

module _ (codec : Codec) (sq : Engine) where
  open codec use {Versions}
  open sq use {Db, traces, calls}

  -- The row of an identifier is the row just written.
  read-Begun :
      (call : Call) (m : Manifest Versions) (id : String) (res : WriteResult) (db db' : Db)
      → Begun codec sq (begun_row codec sq call m id) res db db'
      → refused_field m ≡ none
      → IsSound codec sq db
      → read_trace codec sq no_faults (find_key (λ r. r.trace_id) id (traces db')) db'
        ≡ inl (recorded codec m id call.now)
  unfolding read_trace scan_trace load_provider_calls select_calls sort_by begun_row trace_row
  read-Begun call m id res db db' (e, free, free_turn, ts, cs) ok h =
      let row = trace_row codec id call.now (to_ℕ m.turn) m in
      let found =
        find_key-snoc_self (λ (r : TraceRow). r.trace_id) id (traces db) row (eq_refl id) free in
      let scanned = scan-trace_row codec m id call.now (not_negative m ok) in
      let empty = no_calls id (calls db) (h.referenced id free) in
      rw (ts, cs) (rw found (rw scanned (rw empty refl)))

  begun_open :
      (call : Call) (m : Manifest Versions) (s : Store codec sq) (closed : Bool)
      → (enqueue codec sq closed received call (begin_op m) s).0.1 ≡ none
      → let (res, db') = do_begin codec sq call m s.db in
        (closed ≡ false)
        × (res.err ≡ none)
        × (enqueue codec sq closed received call (begin_op m) s
            ≡ ((res.id, none), record s { db = db' }))
  unfolding enqueue deliver handle_op
  begun_open call m s true h = cc
  begun_open call m s false h = (refl, h, rw h refl)

  begun_get :
      (call : Call) (m : Manifest Versions) (s : Store codec sq)
      → IsSound codec sq s.db
      → s.closed ≡ false
      → let (res, db') = do_begin codec sq call m s.db in
        res.err ≡ none
        → get codec sq no_faults res.id (record s { db = db' })
          ≡ inl (recorded codec m res.id call.now)
  unfolding get guarded_read begun_row
  begun_get call m s h open' e = elim (do_begin_lem codec sq call m s.db) [
    | inl (x, r, same) ↦ absurd (ground (arith, r))
    | inr (id, ok, chosen, b) ↦
        rw (open', b.0)
          (rw (chosen_id m.trace_id call.random id chosen) (read-Begun call m id _ s.db _ b ok h))
  ]

  -- On a sound store, when Begin returns no error, Get of the identifier that it returned gives back the
  -- manifest under that identifier, with an empty list or map for a nil one, at the time of Begin, and
  -- without provider calls.
  pub get-begin :
      (call : Call) (m : Manifest Versions) (s : Store codec sq)
      → IsSound codec sq s.db
      → (begin codec sq received call m s).0.1 ≡ none
      → let ((id, err), s') = begin codec sq received call m s in
        get codec sq no_faults id s' ≡ inl (recorded codec m id call.now)
  unfolding begin
  get-begin call m s h e =
      let (is_open, ok, out) = begun_open call m s s.closed e in
      rw out (begun_get call m s h is_open ok)

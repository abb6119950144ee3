-- ===== src/Tests/Manifests.antt =====
-- The manifest store over the test engine: one session of two turns.
use ottie.Prelude.{ℕ, ◌≡◌, ◌≢◌, inl, refl, false, none, some, List, [], ◌∷◌, any, map, ◌==◌, String}
use ottie.Prelude.Dict.{lookup, insert}
use ottie.Prelude.Int.{pos}
use ottie.Ledger.Ops.{Call, received, choose_id}
use ottie.ExecManifest.Rows.{Manifest, has_turn}
use ottie.ExecManifest.Store.{refused_field, trace_row, trace_already_recorded}
use ottie.ExecManifest.Ops.{
  Store, begin, begin_op, enqueue, deliver, handle_op, do_begin, start_begin, insert_begun,
  after_insert,
}
use ottie.ExecManifest.Reads.{
  FullManifest, no_faults, get, list_by_session, max_turn, guarded_read, select_max_turn,
}
use ottie.ExecManifest.Reads.Sort.{Ascending}
use ottie.ExecManifest.Invariant.{IsSound, handle_op-IsSound}
use ottie.ExecManifest.Replay.{recorded, get-begin}
use ottie.ExecManifest.Listing.{turn_of, list_by_session-Ascending}
use ottie.ExecManifest.Turns.{
  World, TurnRun, idle, and_then, loads, seeds, stores, adds, seeding, pending, no_counters,
  load_counter, load_or_store, add_one, seed_of,
}
use ottie.ExecManifest.Turns.Unique.{begin_never_clashes}
use ottie.Tests.Engine.{unique_error}
use ottie.Tests.Json.{codec}
use ottie.Tests.ManifestEngine.{
  Tables, tables, empty_tables, empty_tables-IsSound, tables-NamesClashes,
}

abbrev manifest : Manifest (List String)
manifest = record {
  trace_id = "";
  session_id = "s";
  turn = pos 1;
  prompt_hash = "p";
  tool_schema_hash = "t";
  skill_hashes = none;
  mcp_versions = none;
  model_id = "m";
  prompt_epoch = pos 0;
}

abbrev call : Call
call = record { random = some "aa"; now = 7 }

abbrev new_store : Store codec tables
new_store = record { db = empty_tables; closed = false }

handle_op-IsSound_example :
    IsSound codec tables (handle_op codec tables call (begin_op manifest) empty_tables).1
handle_op-IsSound_example =
    handle_op-IsSound codec tables call (begin_op manifest) empty_tables empty_tables-IsSound

is_begun : (begin codec tables received call manifest new_store).0.1 ≡ none
unfolding begin enqueue deliver handle_op do_begin start_begin insert_begun after_insert
    refused_field trace_row choose_id
is_begun = refl

get-begin_example :
    let ((id, err), s') = begin codec tables received call manifest new_store in
    get codec tables no_faults id s' ≡ inl (recorded codec manifest id 7)
get-begin_example = get-begin codec tables call manifest new_store empty_tables-IsSound is_begun

abbrev begun : Tables
begun = (handle_op codec tables call (begin_op manifest) empty_tables).1

begun-IsSound : IsSound codec tables begun
begun-IsSound =
    handle_op-IsSound codec tables call (begin_op manifest) empty_tables empty_tables-IsSound

list_by_session-Ascending_example :
    (out : List (FullManifest (List String))) × (list_by_session codec tables no_faults "s"
        (record { db = begun; closed = false })
      ≡ inl out)
    × Ascending (λ k. k) (map (turn_of codec) out)
    × ((n : ℕ) → any (λ k. k == n) (map (turn_of codec) out) ≡ has_turn "s" n begun.rows)
list_by_session-Ascending_example =
    list_by_session-Ascending codec tables "s" (record { db = begun; closed = false }) (λ e. cc)
      refl begun-IsSound

seeded_zero : max_turn codec tables no_faults "s" new_store ≡ inl 0
unfolding max_turn guarded_read select_max_turn
seeded_zero = refl

abbrev restarted : World codec tables
restarted = record { store = new_store; counters = no_counters; turns = [] }

-- A second turn that has found no counter, and the first turn's four accesses.
abbrev two_turns : World codec tables
two_turns = record {
  store = new_store;
  counters = (add_one 0 (load_or_store "s" 0 no_counters).1).1;
  turns = pending "s" 1 ∷ seeding "s" ∷ [];
}

run_two : TurnRun codec tables restarted two_turns
unfolding load_counter load_or_store add_one seed_of max_turn guarded_read select_max_turn lookup
    insert
run_two =
    and_then
      (and_then
        (and_then (and_then (and_then idle (loads "s")) (loads "s"))
          (seeds no_faults "s" 0 [] (seeding "s" ∷ []) refl seeded_zero))
        (stores "s" 0 [] (seeding "s" ∷ []) refl))
      (adds "s" 0 [] (seeding "s" ∷ []) refl)

chosen : choose_id "" "trc-" (some "aa") ≡ some "trc-aa"
unfolding choose_id
chosen = refl

begin_never_clashes_example :
    (has_turn "s" 1 (tables.traces empty_tables) ≡ false)
    × ((begin codec tables received call manifest new_store).0.1
        ≢ some (trace_already_recorded unique_error))
begin_never_clashes_example =
    begin_never_clashes codec tables new_store two_turns call manifest 1 "trc-aa" []
      (seeding "s" ∷ []) unique_error tables-NamesClashes run_two refl refl chosen refl

-- ===== src/ExecManifest/Turns.antt =====
-- pkg/agent/loop.go, allocateACSTurnNumber: the turn numbers of a session, seeded from the store, and the turns that
-- run at the same time. It takes no lock: its four accesses, Load, MaxTurn, LoadOrStore and Add, are steps
-- that the steps of other turns come between. A counter is a cell that the map points to. It is an
-- int64 there, and a number here: it is not modelled beyond 2^63 - 1. Without a store every number is 0.
pub mod Fresh
pub mod Cells
pub mod Recorded
pub mod Unique
use ottie.Prelude.{
  ℕ, suc, ◌+◌, String, Bool, true, false, Option, none, some, List, [], ◌∷◌, ◌++◌, ◌≡◌, ◌==◌, inl,
  inr, if◌then◌else◌,
}
use ottie.Prelude.Dict.{Dict, lookup, insert}
use ottie.Prelude.Int.{pos}
use ottie.Ledger.Ops.{Call, Delivery}
use ottie.ExecManifest.Rows.{Codec, Manifest, ProviderCall, Engine}
use ottie.ExecManifest.Ops.{Store, begin, record_provider_call}
use ottie.ExecManifest.Reads.{Result, Faults, max_turn}

-- `acsTurnCounters`: the cell of each session, what the cells hold, and the next new cell.
pub record Counters : Type 0 where
  pub index : Dict ℕ
  pub cells : ℕ → ℕ
  pub next : ℕ

-- A turn of a session that is in the middle of allocateACSTurnNumber, or has its number and is not recorded.
pub data Turn : Type 0 where
  seeding : String → Turn
  seeded : String → ℕ → Turn
  holding : String → ℕ → Turn
  pending : String → ℕ → Turn

abbrev pub no_counters : Counters
no_counters = record { index = []; cells = λ a. 0; next = 0 }

abbrev pub loaded : String → Option ℕ → Turn
loaded session none = seeding session
loaded session (some a) = holding session a

-- `Load`: a turn that finds no counter goes on to seed one.
unfoldable pub load_counter : String → Counters → Turn
load_counter session cs = loaded session (lookup session cs.index)

-- `maxTurn`, 0 where the lookup failed.
unfoldable pub seed_of : Result ℕ → ℕ
seed_of (inl n) = n
seed_of (inr e) = 0

abbrev pub set_cell : ℕ → ℕ → (ℕ → ℕ) → ℕ → ℕ
set_cell a v cells b = if b == a then v else cells b

-- A new cell with the seed in it; it is the session's only if there is none.
abbrev pub stored_cell : String → ℕ → Option ℕ → Counters → ℕ × Counters
stored_cell session seed (some a) cs =
    (a, record cs { cells = set_cell cs.next seed cs.cells; next = suc cs.next })
stored_cell session seed none cs = (
  cs.next,
  record {
    index = insert session cs.next cs.index;
    cells = set_cell cs.next seed cs.cells;
    next = suc cs.next;
  },
)

-- `LoadOrStore`: the session's cell.
unfoldable pub load_or_store : String → ℕ → Counters → ℕ × Counters
load_or_store session seed cs = stored_cell session seed (lookup session cs.index) cs

-- `counter.Add(1)`: the number, and the cell that now holds it.
unfoldable pub add_one : ℕ → Counters → ℕ × Counters
add_one a cs = let n = cs.cells a + 1 in (n, record cs { cells = set_cell a n cs.cells })

module _ (codec : Codec) (sq : Engine) where
  -- The store, the counters, and the turns that are neither recorded nor given up.
  pub record World : Type 0 where
    pub store : Store codec sq
    pub counters : Counters
    pub turns : List Turn

  abbrev pub after_store : String → ℕ → List Turn → World → World
  after_store session n others w =
      let (a, cs) = load_or_store session n w.counters in
      record w { counters = cs; turns = holding session a ∷ others }

  abbrev pub after_add : String → ℕ → List Turn → World → World
  after_add session a others w =
      let (n, cs) = add_one a w.counters in
      record w { counters = cs; turns = pending session n ∷ others }

  -- A turn starts with Load, and each further access of it is a step; with its number it calls Begin; at any point
  -- it can give up; or a provider call is recorded.
  pub data TurnStep (w : World) : World → Type 0 where
    loads :
        (session : String)
        → TurnStep w (record w { turns = load_counter session w.counters ∷ w.turns })
    seeds :
        (faults : Faults) (session : String) (k : ℕ) (before after : List Turn)
        → w.turns ≡ before ++ (seeding session ∷ after)
        → max_turn codec sq faults session w.store ≡ inl k
        → TurnStep w (record w {
          turns =
              seeded session (seed_of (max_turn codec sq faults session w.store))
              ∷ (before ++ after);
        })
    stores :
        (session : String) (n : ℕ) (before after : List Turn)
        → w.turns ≡ before ++ (seeded session n ∷ after)
        → TurnStep w (after_store session n (before ++ after) w)
    adds :
        (session : String) (a : ℕ) (before after : List Turn)
        → w.turns ≡ before ++ (holding session a ∷ after)
        → TurnStep w (after_add session a (before ++ after) w)
    begins :
        (d : Delivery) (call : Call) (m : Manifest codec.Versions) (turn : ℕ)
        (before after : List Turn)
        → w.turns ≡ before ++ (pending m.session_id turn ∷ after)
        → m.turn ≡ pos turn
        → TurnStep w
            (record w { store = (begin codec sq d call m w.store).1; turns = before ++ after })
    gives_up :
        (t : Turn) (before after : List Turn)
        → w.turns ≡ before ++ (t ∷ after)
        → TurnStep w (record w { turns = before ++ after })
    records_call :
        (d : Delivery) (call : Call) (c : ProviderCall)
        → TurnStep w (record w { store = (record_provider_call codec sq d call c w.store).1 })

  pub data TurnRun (w : World) : World → Type 0 where
    idle : TurnRun w w
    and_then : {v u : World} → TurnRun w v → TurnStep v u → TurnRun w u

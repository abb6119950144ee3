-- ===== src/Infra/Debounce.antt =====
-- pkg/infra/debounce.go: the debouncer, its timers, and the flushes that a timer has started. A timer is a number
-- and a key; Stop of a timer only prevents one that has not fired. A fired timer's flush waits for the
-- lock, so that other operations may come first. The callback is a list of what it was called with.
pub mod Changes
pub mod Pending
pub mod Delivery
use ottie.Prelude.{
  ℕ, suc, String, Bool, true, false, Option, none, some, List, [], ◌∷◌, str_eq, any, ◌==◌,
  if◌then◌else◌,
}
use ottie.Prelude.Dict.{Dict, lookup, insert, delete}

-- time.AfterFunc's timers that have not fired: the number, and the key that the timer flushes.
abbrev pub Timers : Type 0
Timers = List (ℕ × String)

unfoldable pub timer_key : ℕ → Timers → Option String
timer_key id [] = none
timer_key id (t ∷ ts) = if t.0 == id then some t.1 else timer_key id ts

unfoldable pub disarm : ℕ → Timers → Timers
disarm id [] = []
disarm id (t ∷ ts) = let rest = disarm id ts in if t.0 == id then rest else t ∷ rest

unfoldable pub take_one : String → List String → List String
take_one key [] = []
take_one key (k ∷ ks) = let rest = take_one key ks in if str_eq k key then ks else k ∷ rest

module _ (M : Type 0) where
  -- `debounceEntry`: its timer and its message.
  abbrev pub Entry : Type 0
  Entry = ℕ × M

  -- The debouncer, and what runs beside it: `flushing` are the keys of the flushes that have started.
  pub record Debouncer : Type 0 where
    pub entries : Dict Entry
    pub stopped : Bool
    pub armed : Timers
    pub flushing : List String
    pub next_timer : ℕ
    pub called : List (String × M)

  unfoldable pub new_debouncer : Debouncer
  new_debouncer = record {
    entries = [];
    stopped = false;
    armed = [];
    flushing = [];
    next_timer = 0;
    called = [];
  }

  -- The timer of the entry that is there, stopped.
  unfoldable pub stop_timer : Option Entry → Timers → Timers
  unfolding disarm
  stop_timer none ts = ts
  stop_timer (some e) ts = disarm e.0 ts

  unfoldable pub set_entry : String → M → Debouncer → Debouncer
  unfolding stop_timer
  set_entry key msg d = record d {
    entries = insert key (d.next_timer, msg) d.entries;
    armed = (d.next_timer, key) ∷ stop_timer (lookup key d.entries) d.armed;
    next_timer = suc d.next_timer;
  }

  -- `Submit`; `immediate` is a delay that is not positive.
  unfoldable pub submit : Bool → String → M → Debouncer → Debouncer
  unfolding set_entry
  submit true key msg d = record d { called = (key, msg) ∷ d.called }
  submit false key msg d = if d.stopped then d else set_entry key msg d

  unfoldable pub stop_timers : Dict Entry → Timers → Timers
  unfolding disarm
  stop_timers [] ts = ts
  stop_timers (p ∷ ps) ts = stop_timers ps (disarm p.1.0 ts)

  unfoldable pub stop : Debouncer → Debouncer
  unfolding stop_timers
  stop d = record d { stopped = true; entries = []; armed = stop_timers d.entries d.armed }

  -- A timer fires: its flush has started.
  unfoldable pub start_flush : ℕ → Option String → Debouncer → Debouncer
  start_flush id none d = d
  start_flush id (some key) d = record d { armed = disarm id d.armed; flushing = key ∷ d.flushing }

  unfoldable pub fire : ℕ → Debouncer → Debouncer
  unfolding start_flush timer_key
  fire id d = start_flush id (timer_key id d.armed) d

  -- The body of `flush`.
  unfoldable pub flush_entry : String → Option Entry → Debouncer → Debouncer
  flush_entry key none d = d
  flush_entry key (some e) d = record d {
    entries = delete key d.entries;
    called = (key, e.1) ∷ d.called;
  }

  -- A flush that has started takes the lock.
  unfoldable pub flush : String → Debouncer → Debouncer
  unfolding flush_entry take_one
  flush key d =
      if any (λ k. str_eq k key) d.flushing
      then flush_entry key (lookup key d.entries) (record d { flushing = take_one key d.flushing })
      else d

  pub data Event : Type 0 where
    submits : String → M → Event
    fires : ℕ → Event
    flushes : String → Event
    stops : Event

  -- One event of a debouncer with a positive delay.
  unfoldable pub step : Event → Debouncer → Debouncer
  unfolding submit fire flush stop
  step (submits key msg) d = submit false key msg d
  step (fires id) d = fire id d
  step (flushes key) d = flush key d
  step stops d = stop d

  -- The events, the latest first.
  unfoldable pub run : List Event → Debouncer
  unfolding step new_debouncer
  run [] = new_debouncer
  run (e ∷ es) = step e (run es)

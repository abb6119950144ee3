-- ===== src/Ledger/Writer.antt =====
-- actionlog.go, writer, enqueue and Close beside each other: the channel of operations, the goroutine
-- that handles them, and the shutdown, as a step relation.
use ottie.Prelude.{
  ℕ, suc, ◌<◌, ◌≡◌, ◌≢◌, refl, ap, sym, ◌∙◌, Bool, true, false, List, [], ◌∷◌, ◌++◌, map, arith,
  length,
}
use mathlib.Core.List.{append_assoc, append-nil, map-append}
use ottie.Ledger.Rows.{Sqlite}
use ottie.Ledger.Ops.{Call, WriteOp, handle_op}

-- Where the goroutine is: in its outer select, in the loop after `<-l.closed`, or returned.
pub data WriterPhase : Type 0 where
  serving draining exited : WriterPhase

module _ (sq : Sqlite) where
  open sq use {Db}

  -- `queue` is the channel; `accepted` and `handled` record, oldest first, what was put into it and what
  -- was taken out and handled, with the clock and the random identifier of its handling.
  pub record WriterState : Type 0 where
    pub queue : List WriteOp
    pub closed : Bool
    pub phase : WriterPhase
    pub db : Db
    pub accepted : List WriteOp
    pub handled : List (Call × WriteOp)

  unfoldable pub start_writer : Db → WriterState
  start_writer db = record {
    queue = [];
    closed = false;
    phase = serving;
    db = db;
    accepted = [];
    handled = [];
  }

  -- The send in `enqueue`, under the read lock.
  unfoldable pub accept : WriteOp → WriterState → WriterState
  accept op s = record s { queue = s.queue ++ (op ∷ []); accepted = s.accepted ++ (op ∷ []) }

  -- op.reply <- l.handleOp(op)
  unfoldable pub serve : Call → WriteOp → List WriteOp → WriterState → WriterState
  serve call op rest s = record s {
    queue = rest;
    db = (handle_op sq call op s.db).1;
    handled = s.handled ++ ((call, op) ∷ []);
  }

  -- `depth` is opts.WriteQueueDepth; an operation that the writer has in its hands still stands at the
  -- head of the queue. A send and the change of closedFlag exclude each other by the lock.
  pub data WriterStep (depth : ℕ) (s : WriterState) : WriterState → Type 0 where
    accepts :
        (op : WriteOp)
        → s.closed ≡ false
        → length s.queue < suc depth
        → WriterStep depth s (accept op s)
    serves :
        (call : Call) (op : WriteOp) (rest : List WriteOp)
        → s.phase ≢ exited
        → s.queue ≡ op ∷ rest
        → WriterStep depth s (serve call op rest s)
    closes : s.closed ≡ false → WriterStep depth s (record s { closed = true })
    notices :
        s.closed ≡ true → s.phase ≡ serving → WriterStep depth s (record s { phase = draining })
    exits : s.phase ≡ draining → s.queue ≡ [] → WriterStep depth s (record s { phase = exited })

  pub data WriterSteps (depth : ℕ) (s : WriterState) : WriterState → Type 0 where
    none_taken : WriterSteps depth s s
    then_step :
        (s' s'' : WriterState)
        → WriterSteps depth s s'
        → WriterStep depth s' s''
        → WriterSteps depth s s''

  -- The operations run one after the other.
  unfoldable pub replay : List (Call × WriteOp) → Db → Db
  replay [] db = db
  replay ((call, op) ∷ ops) db = replay ops (handle_op sq call op db).1

  replay-append :
      (xs ys : List (Call × WriteOp)) (db : Db) → replay (xs ++ ys) db ≡ replay ys (replay xs db)
  unfolding replay
  replay-append [] ys db = refl
  replay-append ((call, op) ∷ xs) ys db = replay-append xs ys (handle_op sq call op db).1

  abbrev pub ops_of : List (Call × WriteOp) → List WriteOp
  ops_of = map (λ x. x.1)

  -- Nothing is lost or reordered, the writer leaves only a closed and empty channel, and the database is
  -- the one that the handled operations make.
  pub record IsOrderly (start : Db) (s : WriterState) : Type 0 where
    pub in_order : s.accepted ≡ ops_of s.handled ++ s.queue
    pub stopped : s.phase ≢ serving → s.closed ≡ true
    pub emptied : s.phase ≡ exited → s.queue ≡ []
    pub replayed : s.db ≡ replay s.handled start

  accept-IsOrderly :
      (start : Db) (op : WriteOp) (s : WriterState)
      → s.closed ≡ false
      → IsOrderly start s
      → IsOrderly start (accept op s)
  unfolding accept
  accept-IsOrderly start op s open_still h = record {
    in_order =
        ap (λ l. l ++ (op ∷ [])) h.in_order ∙ append_assoc (ops_of s.handled) s.queue (op ∷ []);
    stopped = h.stopped;
    emptied = λ e. absurd (ground (arith, h.stopped (λ f. cc (e, f))));
    replayed = h.replayed;
  }

  serve-IsOrderly :
      (start : Db) (call : Call) (op : WriteOp) (rest : List WriteOp) (s : WriterState)
      → s.phase ≢ exited
      → s.queue ≡ op ∷ rest
      → IsOrderly start s
      → IsOrderly start (serve call op rest s)
  unfolding serve replay
  serve-IsOrderly start call op rest s on q h = record {
    in_order =
        h.in_order
        ∙ ap (λ l. ops_of s.handled ++ l) q
        ∙ sym (append_assoc (ops_of s.handled) (op ∷ []) rest)
        ∙ ap (λ l. l ++ rest) (sym (map-append (λ x. x.1) s.handled ((call, op) ∷ [])));
    stopped = h.stopped;
    emptied = λ e. absurd (on e);
    replayed =
        ap (λ db. (handle_op sq call op db).1) h.replayed
        ∙ sym (replay-append s.handled ((call, op) ∷ []) start);
  }

  step-IsOrderly :
      (depth : ℕ) (start : Db) (s s' : WriterState)
      → WriterStep depth s s'
      → IsOrderly start s
      → IsOrderly start s'
  step-IsOrderly depth start s _ (accepts op c room) h = accept-IsOrderly start op s c h
  step-IsOrderly depth start s _ (serves call op rest on q) h =
      serve-IsOrderly start call op rest s on q h
  step-IsOrderly depth start s _ (closes c) h = record {
    in_order = h.in_order;
    stopped = λ e. refl;
    emptied = h.emptied;
    replayed = h.replayed;
  }
  step-IsOrderly depth start s _ (notices c p) h = record {
    in_order = h.in_order;
    stopped = λ e. c;
    emptied = λ e. cc;
    replayed = h.replayed;
  }
  step-IsOrderly depth start s _ (exits p q) h = record {
    in_order = h.in_order;
    stopped = λ e. h.stopped (λ f. cc (p, f));
    emptied = λ e. q;
    replayed = h.replayed;
  }

  steps-IsOrderly :
      (depth : ℕ) (start : Db) (s : WriterState)
      → WriterSteps depth (start_writer start) s
      → IsOrderly start s
  unfolding start_writer replay
  steps-IsOrderly depth start _ none_taken = record {
    in_order = refl;
    stopped = λ e. absurd (e refl);
    emptied = λ e. refl;
    replayed = refl;
  }
  steps-IsOrderly depth start _ (then_step s' s'' before last) =
      step-IsOrderly depth start s' s'' last (steps-IsOrderly depth start s' before)

  -- Close loses no write: in every state in which the writer has returned, however the sends, the
  -- handling and Close were interleaved, the operations handled are those accepted, in their order, and
  -- the database is the one that they make one after the other.
  pub exited_handled_all :
      (depth : ℕ) (start : Db) (s : WriterState)
      → WriterSteps depth (start_writer start) s
      → s.phase ≡ exited
      → (ops_of s.handled ≡ s.accepted) × (s.db ≡ replay s.handled start)
  exited_handled_all depth start s run e =
      let h = steps-IsOrderly depth start s run in
      (
        sym (
            h.in_order
            ∙ ap (λ l. ops_of s.handled ++ l) (h.emptied e)
            ∙ append-nil (ops_of s.handled)),
        h.replayed,
      )

  abbrev pub Exits : ℕ → WriterState → WriterState → Type 0
  Exits depth from s =
      (end : WriterState) × WriterSteps depth from end
      × (end.phase ≡ exited)
      × (end.accepted ≡ s.accepted)

  drain :
      (depth : ℕ) (call : Call) (from s : WriterState) (queue : List WriteOp)
      → WriterSteps depth from s
      → s.phase ≡ draining
      → s.queue ≡ queue
      → Exits depth from s
  unfolding serve
  drain depth call from s [] before p q =
      (record s { phase = exited }, then_step s _ before (exits p q), refl, refl)
  drain depth call from s (op ∷ rest) before p q =
      drain depth call from (serve call op rest s) rest
        (then_step s _ before (serves call op rest (λ e. cc (e, p)) q)) p refl

  drain_from :
      (depth : ℕ) (call : Call) (s : WriterState) (phase : WriterPhase)
      → s.closed ≡ true
      → s.phase ≡ phase
      → Exits depth s s
  drain_from depth call s serving c p =
      drain depth call s (record s { phase = draining }) s.queue
        (then_step s _ none_taken (notices c p)) refl refl
  drain_from depth call s draining c p = drain depth call s s s.queue none_taken p refl
  drain_from depth call s exited c p = (s, none_taken, p, refl)

  -- After Close the writer can always return, without another operation being accepted: from every
  -- closed state there are steps of the writer to one in which it has returned.
  pub closed-Exits : (depth : ℕ) (call : Call) (s : WriterState) → s.closed ≡ true → Exits depth s s
  closed-Exits depth call s c = drain_from depth call s s.phase c refl

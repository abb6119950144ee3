-- ===== src/Tests/Writer.antt =====
-- A writer that is closed with one operation in its channel.
use ottie.Prelude.{◌≡◌, refl, true, [], arith}
use ottie.Ledger.Ops.{prepare}
use ottie.Ledger.Writer.{
  WriterState, WriterSteps, start_writer, accept, serve, accepts, closes, notices, serves, exits,
  none_taken, then_step, exited, draining, ops_of, replay, exited_handled_all, Exits, closed-Exits,
}
use ottie.Tests.Engine.{engine, no_rows}
use ottie.Tests.Ledger.{at_one, swap_intent}

abbrev filled : WriterState engine
filled = accept engine (prepare swap_intent) (start_writer engine no_rows)

abbrev shut : WriterState engine
shut = record filled { closed = true }

abbrev noticed : WriterState engine
noticed = record shut { phase = draining }

abbrev drained : WriterState engine
drained = serve engine at_one (prepare swap_intent) [] noticed

abbrev returned : WriterState engine
returned = record drained { phase = exited }

shutdown : WriterSteps engine 1 (start_writer engine no_rows) returned
unfolding start_writer accept serve
shutdown =
    then_step drained returned
      (then_step noticed drained
        (then_step shut noticed
          (then_step filled shut
            (then_step (start_writer engine no_rows) filled none_taken
              (accepts (prepare swap_intent) refl (omega arith)))
            (closes refl))
          (notices refl refl))
        (serves at_one (prepare swap_intent) [] (λ e. cc) refl))
      (exits refl refl)

exited_handled_all_example :
    (ops_of engine returned.handled ≡ returned.accepted)
    × (returned.db ≡ replay engine returned.handled no_rows)
exited_handled_all_example = exited_handled_all engine 1 no_rows returned shutdown refl

closed-Exits_example : Exits engine 1 shut shut
closed-Exits_example = closed-Exits engine 1 at_one shut refl

-- ===== src/Tests/Debounce.antt =====
-- Two messages of one chat.
use ottie.Prelude.{◌≡◌, refl, String, true, false, none, some, List, [], ◌∷◌, any, str_eq}
use ottie.Prelude.Dict.{lookup, insert}
use ottie.Infra.Debounce.{
  Event, submits, fires, flushes, run, step, submit, set_entry, stop_timer, fire, start_flush,
  timer_key, disarm, new_debouncer,
}
use ottie.Infra.Debounce.Pending.{IsPending, run-IsPending}
use ottie.Infra.Debounce.Delivery.{fire_and_flush, early_flush}

abbrev two_messages : List (Event String)
two_messages = submits "chat" "b" ∷ submits "chat" "a" ∷ []

run-IsPending_example : IsPending two_messages (run String two_messages)
run-IsPending_example = run-IsPending two_messages

is_pending : lookup "chat" (run String two_messages).entries ≡ some (1, "b")
unfolding run step submit set_entry new_debouncer lookup insert
is_pending = refl

fire_and_flush_example :
    ((run String (flushes "chat" ∷ fires 1 ∷ two_messages)).called
      ≡ ("chat", "b") ∷ (run String two_messages).called)
    × (lookup "chat" (run String (flushes "chat" ∷ fires 1 ∷ two_messages)).entries ≡ none)
fire_and_flush_example = fire_and_flush two_messages "chat" (1, "b") is_pending

abbrev fired : List (Event String)
fired = fires 0 ∷ submits "chat" "a" ∷ []

has_started : any (λ k. str_eq k "chat") (run String fired).flushing ≡ true
unfolding run step submit set_entry stop_timer fire start_flush timer_key disarm new_debouncer
    lookup insert
has_started = refl

is_running : (run String fired).stopped ≡ false
unfolding run step submit set_entry stop_timer fire start_flush timer_key disarm new_debouncer
    lookup insert
is_running = refl

early_flush_example :
    ((run String (flushes "chat" ∷ submits "chat" "b" ∷ fired)).called
      ≡ ("chat", "b") ∷ (run String fired).called)
    × (timer_key
          (run String fired).next_timer
          (run String (flushes "chat" ∷ submits "chat" "b" ∷ fired)).armed
        ≡ some "chat")
early_flush_example = early_flush fired "chat" "b" has_started is_running

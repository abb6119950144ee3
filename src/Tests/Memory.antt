-- ===== src/Tests/Memory.antt =====
-- A session whose lines are lists of messages, a message being written as the list of what is kept of it.
use ottie.Providers.Protocol.{Message, ToolCall, stored, stored_twice}
use ottie.Prelude.{
  ℕ, ◌≡◌, ◌⊎◌, refl, sym, ap, ◌∙◌, Option, none, some, List, [], ◌∷◌, ◌++◌, arith, length,
  length-append, take, if◌then◌else◌,
}
use ottie.Memory.{
  Json, Disk, read_meta, fits, get_history, add_message, add_writes, set_writes, write_all,
  compact_writes, compacting, zero_meta, decode_all, read_messages, over, truncate_history, scan,
  all_fit, Write,
}
use ottie.Memory.History.{IsClean, history-truncate, appended, readable, history-add_message}
use ottie.Memory.Crash.{EndsWith, compacted, crash_keeps, torn_line_swallows}

abbrev Msg : Type 0
Msg = Message ℕ

abbrev decode_one : List Msg → Option Msg
decode_one [] = none
decode_one (m ∷ []) = some (stored m)
decode_one (m ∷ (n ∷ l)) = none

only_kept : (l : List Msg) (m : Msg) → decode_one l ≡ some m → stored m ≡ m
only_kept [] m h = cc h
only_kept (x ∷ []) m h =
    let same : stored x ≡ m = cc h in sym (ap stored same) ∙ stored_twice x ∙ same
only_kept (x ∷ (y ∷ l)) m h = cc h

abbrev lists : Json (List Msg) ℕ
lists = record {
  decode = decode_one;
  encode = λ m. stored m ∷ [];
  join = λ a b. a ++ b;
  size = λ l. length l;
  decode-encode = λ m. ap some (stored_twice m);
  decode-stored = only_kept;
  size-join = λ a b. length-append a b;
}

abbrev calling : ToolCall ℕ
calling = record {
  id = "c1";
  kind = "function";
  function = none;
  name = "swap";
  arguments = some 7;
  thought_signature = "";
  extra_content = none;
}

abbrev message : Msg
message = record {
  role = "assistant";
  content = "hi";
  media = [];
  reasoning_content = "";
  system_parts = [];
  tool_calls = calling ∷ [];
  tool_call_id = "";
}

abbrev two_messages : Disk (List Msg)
two_messages = record { lines = (message ∷ []) ∷ (message ∷ []) ∷ []; tail = none; meta = none }

abbrev torn_session : Disk (List Msg)
torn_session = record two_messages { tail = some (message ∷ message ∷ []) }

two_messages-IsClean : IsClean "k" two_messages
unfolding read_meta
two_messages-IsClean = record { whole = refl; within = omega arith }

history-add_message_example :
    let after =
      if fits lists (lists.encode message)
      then appended lists (get_history lists "k" two_messages) (stored message)
      else none in
    (get_history lists "k" (add_message lists 5 "k" message two_messages) ≡ after)
    × (get_history lists "k"
          (write_all lists (take 1 (add_writes lists 5 "k" message two_messages)) two_messages)
        ≡ after)
history-add_message_example =
    history-add_message lists 5 "k" message two_messages two_messages-IsClean

two_read : get_history lists "k" two_messages ≡ some (stored message ∷ stored message ∷ [])
unfolding get_history read_messages scan all_fit decode_all read_meta
two_read = refl

history-truncate_example :
    over (get_history lists "k") (truncate_history lists 5 "k" 1 two_messages)
    ≡ some (some (stored message ∷ []))
history-truncate_example =
    history-truncate lists 5 "k" 1 two_messages (stored message ∷ stored message ∷ [])
      two_messages-IsClean ((λ h. cc h), ((λ h. cc h), tt)) two_read

-- One of the two messages is skipped.
abbrev skipping : Disk (List Msg)
skipping = record two_messages { meta = some (record (zero_meta "k") { skip = 1; count = 2 }) }

abbrev compact_plan : List (Write ℕ)
compact_plan =
    compacting lists 5 (record (zero_meta "k") { skip = 1; count = 2 }) (stored message ∷ [])

is_planned : compact_writes lists 5 "k" skipping ≡ some compact_plan
unfolding compact_writes read_messages scan all_fit decode_all read_meta
is_planned = refl

crash_keeps_example :
    let old = get_history lists "k" skipping in
    let set =
      get_history lists "k"
        (write_all lists (take 1 (set_writes lists 5 "k" (message ∷ []) skipping)) skipping) in
    let compact' = get_history lists "k" (write_all lists (take 1 compact_plan) skipping) in
    (EndsWith lists old set ⊎ (set ≡ readable lists (message ∷ [])))
    × (EndsWith lists old compact' ⊎ (compact' ≡ compacted lists old))
crash_keeps_example = crash_keeps lists 5 "k" (message ∷ []) skipping compact_plan 1 is_planned

torn_line_swallows_example :
    get_history lists "k" (add_message lists 5 "k" message torn_session) ≡ (
      if fits lists (lists.join (message ∷ message ∷ []) (lists.encode message))
      then get_history lists "k" torn_session
      else none)
torn_line_swallows_example =
    torn_line_swallows lists 5 "k" message (message ∷ message ∷ []) torn_session refl refl refl

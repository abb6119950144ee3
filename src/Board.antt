-- ===== src/Board.antt =====
-- pkg/swarm/board: the project board in memory. `render` is strconv's decimal form of a number; times are
-- arguments. The board keeps the caller's pointer to a task; a task here is a value.
pub mod Claims
pub mod Updates
use Prim.Native.String.{◌++◌}
use ottie.Prelude.{
  ℕ, suc, String, Bool, true, false, Option, none, some, List, [], ◌∷◌, str_eq, if◌then◌else◌, map,
}
use ottie.Prelude.Dict.{Dict, lookup, insert}

pub record BoardTask : Type 0 where
  pub id : String
  pub title : String
  pub description : String
  pub status : String
  pub assigned_to : String
  pub created_by : String
  pub artifacts : List String
  pub created_at : ℕ
  pub updated_at : ℕ

pub record Artifact : Type 0 where
  pub key : String
  pub value : String
  pub created_by : String
  pub created_at : ℕ

pub record MemoryBoard : Type 0 where
  pub tasks : Dict BoardTask
  pub artifacts : Dict Artifact
  pub context : Dict String
  pub next_id : ℕ

unfoldable pub new_memory_board : MemoryBoard
new_memory_board = record { tasks = []; artifacts = []; context = []; next_id = 0 }

unfoldable pub put_artifact : ℕ → String → String → String → MemoryBoard → MemoryBoard
put_artifact now key value created_by b = record b {
  artifacts =
      insert key (record { key = key; value = value; created_by = created_by; created_at = now })
        b.artifacts;
}

unfoldable pub get_artifact : String → MemoryBoard → Option Artifact
get_artifact key b = lookup key b.artifacts

unfoldable pub list_artifacts : MemoryBoard → List Artifact
list_artifacts b = map (λ p. p.1) b.artifacts

-- The task as it is kept: its identifier, its two times, and "open" for no status.
abbrev pub posted : ℕ → String → BoardTask → BoardTask
posted now id t = record t {
  id = id;
  created_at = now;
  updated_at = now;
  status = if str_eq t.status "" then "open" else t.status;
}

unfoldable pub keep_task : ℕ → String → BoardTask → MemoryBoard → MemoryBoard
keep_task now id t b = record b { tasks = insert id (posted now id t) b.tasks }

-- `PostTask`: the identifier that the task gets, and the board.
unfoldable pub post_task : (ℕ → String) → ℕ → BoardTask → MemoryBoard → String × MemoryBoard
unfolding keep_task
post_task render now t b =
    if str_eq t.id ""
    then (let id = "task-" ++ render (suc b.next_id) in
        (id, keep_task now id t (record b { next_id = suc b.next_id })))
    else (t.id, keep_task now t.id t b)

abbrev pub claimed : ℕ → String → BoardTask → BoardTask
claimed now assignee t = record t { status = "claimed"; assigned_to = assignee; updated_at = now }

-- A task that is there, changed; false is "not found".
unfoldable pub change_task :
    (BoardTask → BoardTask) → String → Option BoardTask → MemoryBoard → Bool × MemoryBoard
change_task f id none b = (false, b)
change_task f id (some t) b = (true, record b { tasks = insert id (f t) b.tasks })

unfoldable pub claim_task : ℕ → String → String → MemoryBoard → Bool × MemoryBoard
unfolding change_task
claim_task now id assignee b = change_task (claimed now assignee) id (lookup id b.tasks) b

-- The switch of UpdateTask on one key.
unfoldable pub set_field : String × String → BoardTask → BoardTask
set_field p t =
    if str_eq p.0 "status"
    then record t { status = p.1 }
    else if str_eq p.0 "title"
    then record t { title = p.1 }
    else if str_eq p.0 "description"
    then record t { description = p.1 }
    else if str_eq p.0 "assigned_to"
    then record t { assigned_to = p.1 }
    else t

-- The loop over the updates, in the order in which the map is ranged over.
unfoldable pub set_fields : Dict String → BoardTask → BoardTask
unfolding set_field
set_fields [] t = t
set_fields (p ∷ ps) t = set_fields ps (set_field p t)

unfoldable pub update_task : ℕ → String → Dict String → MemoryBoard → Bool × MemoryBoard
unfolding change_task set_fields
update_task now id updates b =
    change_task (λ t. record (set_fields updates t) { updated_at = now }) id (lookup id b.tasks) b

unfoldable pub list_tasks : MemoryBoard → List BoardTask
list_tasks b = map (λ p. p.1) b.tasks

unfoldable pub get_task : String → MemoryBoard → Option BoardTask
get_task id b = lookup id b.tasks

unfoldable pub put_context : String → String → MemoryBoard → MemoryBoard
put_context key value b = record b { context = insert key value b.context }

unfoldable pub get_context : String → MemoryBoard → Option String
get_context key b = lookup key b.context

-- ===== src/Tests/Board.antt =====
-- An update of a task's status.
use ottie.Prelude.{◌≡◌, refl, str_eq, [], ◌∷◌, if◌then◌else◌, String}
use ottie.Prelude.Dict.{Dict, IsMap, lookup}
use ottie.Board.{BoardTask, MemoryBoard, update_task, get_task}
use ottie.Board.Updates.{update_task_fields, updated, changed, is_there}

abbrev task : BoardTask
task = record {
  id = "t";
  title = "audit";
  description = "";
  status = "open";
  assigned_to = "";
  created_by = "ann";
  artifacts = [];
  created_at = 1;
  updated_at = 1;
}

abbrev board : MemoryBoard
board = record { tasks = ("t", task) ∷ []; artifacts = []; context = []; next_id = 0 }

abbrev done : Dict String
done = ("status", "done") ∷ []

done-IsMap : IsMap done
unfolding IsMap lookup
done-IsMap = (refl, tt)

update_task_fields_example :
    ((update_task 5 "t" done board).0 ≡ is_there (get_task "t" board))
    × (get_task "t" (update_task 5 "t" done board).1 ≡ (
        if str_eq "t" "t"
        then changed (λ t. record (updated done t) { updated_at = 5 }) (get_task "t" board)
        else get_task "t" board))
update_task_fields_example = update_task_fields 5 "t" "t" done board done-IsMap

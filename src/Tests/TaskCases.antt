-- ===== src/Tests/TaskCases.antt =====
-- The tasks tool on a file with two tasks.
use chango_assistant.Base.{Text, [], codes, none, refl, some, text_eq, ◌∷◌, ◌≡◌}
use chango_assistant.Providers.Types.{Fields, end_fields, field, text}
use chango_assistant.Tools.Args.{set_arg, text_arg, text_arg?}
use chango_assistant.Tools.TaskList.{UniqueIds, tasks_in}
use chango_assistant.Tools.TaskStore.{execute-UniqueIds, execute-others}
use chango_assistant.Tools.TaskTexts.{execute, find_task}
use chango_assistant.Tools.Tasks.{
  Task, TaskEnv, TasksFile, done_status, holds, pending_status, save_tasks, saved, set_fields,
  set_status, store_changed, update, update_first,
}

abbrev task : Text → Text → Task
task id title = record {
  id = id;
  title = title;
  description = [];
  status = pending_status;
  priority = codes "medium";
  due_date = [];
  tags = [];
  notes = [];
  goal_id = [];
  created_at = [];
  updated_at = [];
}

abbrev two_tasks : TasksFile
two_tasks = holds (task (codes "a") (codes "wash") ∷ task (codes "b") (codes "cook") ∷ [])

abbrev env : TaskEnv
env = record {
  now = codes "2026-11-26T08:00:00Z";
  today = codes "2026-11-26";
  new_id = codes "c";
  no_file = codes "no such file";
  fault = none;
}

abbrev completes_a : Fields
completes_a =
    field (codes "action") (text (codes "complete"))
      (field (codes "id") (text (codes "a")) end_fields)

execute-others_example :
    find_task (codes "b") (tasks_in (execute (λ s. s) (λ s. s) env completes_a two_tasks).1)
    ≡ find_task (codes "b") (tasks_in two_tasks)
execute-others_example =
    execute-others (λ s. s) (λ s. s) env completes_a two_tasks (codes "b") refl refl
      (unfold text_arg text_arg? text_eq in refl) (unfold text_eq in refl)

execute-UniqueIds_example :
    UniqueIds (tasks_in (execute (λ s. s) (λ s. s) env completes_a two_tasks).1)
execute-UniqueIds_example =
    execute-UniqueIds (λ s. s) (λ s. s) env completes_a two_tasks refl refl
      (unfold find_task text_eq in refl) (unfold find_task text_eq in (refl, (refl, tt)))

completed :
    (find_task (codes "a") (tasks_in (execute (λ s. s) (λ s. s) env completes_a two_tasks).1))
    ≡ some (record (task (codes "a") (codes "wash")) {
      status = done_status;
      updated_at = codes "2026-11-26T08:00:00Z";
    })
unfolding execute set_status update update_first set_fields set_arg store_changed saved save_tasks
    find_task text_arg text_arg? text_eq
completed = refl

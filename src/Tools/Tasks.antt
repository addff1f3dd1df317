-- ===== src/Tools/Tasks.antt =====
-- pkg/tools/tasks.go: the file of tasks and the actions that change it.
use chango_assistant.Base.{
  List, Option, Text, [], any, codes, concat_texts, if◌then◌else◌, inl, inr, keep, none, not, some,
  text_eq, ◌++◌, ◌∷◌, ◌⊎◌,
}
use chango_assistant.Providers.Types.{Fields, Values, text}
use chango_assistant.Tools.Args.{array_of, find_arg, set_arg, text_arg, text_arg?, texts}
use chango_assistant.Tools.Result.{ToolResult, error_result, silent_result}

pub record Task : Type 0 where
  pub id : Text
  pub title : Text
  pub description : Text
  pub status : Text
  pub priority : Text
  pub due_date : Text
  pub tags : List Text
  pub notes : Text
  pub goal_id : Text
  pub created_at : Text
  pub updated_at : Text

-- What the file gives a reader: no file, an error of the read or of the parser with its text, or tasks.
pub data TasksFile : Type 0 where
  missing : TasksFile
  unreadable malformed : Text → TasksFile
  holds : List Task → TasksFile

-- What one call meets: the clock in both formats, the random identifier, the text of the error for a
-- file that does not exist, and where the write fails, what it leaves and its error.
pub record TaskEnv : Type 0 where
  pub now : Text
  pub today : Text
  pub new_id : Text
  pub no_file : Text
  pub fault : Option (TasksFile × Text)

abbrev pub pending_status : Text
pending_status = codes "pending"

abbrev pub done_status : Text
done_status = codes "done"

abbrev pub cancelled_status : Text
cancelled_status = codes "cancelled"

-- `loadTasks`: an error's text, or the tasks.
unfoldable pub load_tasks : TasksFile → Text ⊎ List Task
load_tasks missing = inr []
load_tasks (unreadable e) = inl e
load_tasks (malformed e) = inl e
load_tasks (holds tasks) = inr tasks

-- `saveTasks`: the file, and the error's text.
unfoldable pub save_tasks : TaskEnv → List Task → TasksFile × Option Text
save_tasks env tasks = elim env.fault [
  | none ↦ (holds tasks, none)
  | some (left, e) ↦ (left, some e)
]

-- The answer after a save.
unfoldable pub saved : TaskEnv → List Task → Text → ToolResult × TasksFile
unfolding save_tasks silent_result error_result
saved env tasks answer =
    let (file, err) = save_tasks env tasks in
    (
      elim err [
        | none ↦ silent_result answer
        | some e ↦ error_result (codes "failed to save: " ++ e)
      ],
      file,
    )

-- The reading in `add`, where an error of the read is no error.
abbrev pub tasks_to_add : TasksFile → Text ⊎ List Task
tasks_to_add missing = inr []
tasks_to_add (unreadable e) = inr []
tasks_to_add (malformed e) = inl (codes "corrupted tasks file: " ++ e)
tasks_to_add (holds tasks) = inr tasks

-- The reading in `update` and `del`.
abbrev pub tasks_to_change : TaskEnv → TasksFile → Text ⊎ List Task
tasks_to_change env missing = inl (codes "failed to load tasks: " ++ env.no_file)
tasks_to_change env (unreadable e) = inl (codes "failed to load tasks: " ++ e)
tasks_to_change env (malformed e) = inl (codes "corrupted tasks file: " ++ e)
tasks_to_change env (holds tasks) = inr tasks

abbrev tags_of : Option Values → List Text
tags_of none = []
tags_of (some vs) = texts vs

abbrev or_medium : Text → Text
or_medium [] = codes "medium"
or_medium (a ∷ s) = a ∷ s

-- The task that `add` makes.
unfoldable pub new_task : TaskEnv → Fields → Task
unfolding text_arg text_eq
new_task env args = record {
  id = env.new_id;
  title = text_arg (codes "title") args;
  description = text_arg (codes "description") args;
  status = pending_status;
  priority = or_medium (text_arg (codes "priority") args);
  due_date = text_arg (codes "due_date") args;
  tags = tags_of (array_of (find_arg (codes "tags") args));
  notes = text_arg (codes "notes") args;
  goal_id = text_arg (codes "goal_id") args;
  created_at = env.now;
  updated_at = env.now;
}

unfoldable pub created_text : Task → Text
unfolding text_eq
created_text task = concat_texts (
    codes "Task created: "
    ∷ task.title
    ∷ codes " (ID: "
    ∷ task.id
    ∷ codes ", priority: "
    ∷ task.priority
    ∷ (if text_eq task.due_date [] then [] else codes ", due: " ++ task.due_date)
    ∷ codes ")"
    ∷ [])

-- `add`.
unfoldable pub add : TaskEnv → Fields → TasksFile → ToolResult × TasksFile
unfolding text_arg text_eq new_task created_text saved error_result
add env args file =
    if text_eq (text_arg (codes "title") args) []
    then (error_result (codes "title is required for add"), file)
    else elim (tasks_to_add file) [
      | inl e ↦ (error_result e, file)
      | inr tasks ↦
          let task = new_task env args in saved env (tasks ++ task ∷ []) (created_text task)
    ]

-- `if s, ok := args[key].(string); ok && s != ""`, or the value before.
abbrev if_filled : Option Text → Text → Text
if_filled none old = old
if_filled (some []) old = old
if_filled (some (a ∷ s)) old = a ∷ s

-- `if s, ok := args[key].(string); ok`.
abbrev if_given : Option Text → Text → Text
if_given none old = old
if_given (some s) old = s

abbrev if_array : Option Values → List Text → List Text
if_array none old = old
if_array (some vs) old = texts vs

-- The fields that `update` sets in the task that it finds.
unfoldable pub set_fields : TaskEnv → Fields → Task → Task
unfolding text_arg? text_eq
set_fields env args task = record task {
  title = if_filled (text_arg? (codes "title") args) task.title;
  description = if_given (text_arg? (codes "description") args) task.description;
  status = if_filled (text_arg? (codes "status") args) task.status;
  priority = if_filled (text_arg? (codes "priority") args) task.priority;
  due_date = if_given (text_arg? (codes "due_date") args) task.due_date;
  notes = if_given (text_arg? (codes "notes") args) task.notes;
  goal_id = if_given (text_arg? (codes "goal_id") args) task.goal_id;
  tags = if_array (array_of (find_arg (codes "tags") args)) task.tags;
  updated_at = env.now;
}

-- The first task with an identifier, changed; `none` where there is none.
unfoldable pub update_first : Text → (Task → Task) → List Task → Option (List Task)
unfolding text_eq
update_first id f [] = none
update_first id f (task ∷ tasks) =
    let rest = update_first id f tasks in
    if text_eq task.id id
    then some (f task ∷ tasks)
    else elim rest [ none ↦ none | some tasks' ↦ some (task ∷ tasks') ]

unfoldable pub no_task : Text → ToolResult
unfolding silent_result
no_task id = silent_result (codes "No task found with ID '" ++ (id ++ codes "'"))

abbrev pub about_task : Text → Text → Text
about_task id what = codes "Task '" ++ (id ++ (codes "' " ++ what))

-- The end of `update` and of `del`.
unfoldable pub store_changed :
    TaskEnv → Text → Text → TasksFile → Option (List Task) → ToolResult × TasksFile
unfolding no_task saved
store_changed env id what file none = (no_task id, file)
store_changed env id what file (some tasks) = saved env tasks (about_task id what)

-- `update`.
unfoldable pub update : TaskEnv → Fields → TasksFile → ToolResult × TasksFile
unfolding text_arg text_eq update_first set_fields error_result store_changed
update env args file =
    let id = text_arg (codes "id") args in
    if text_eq id []
    then (error_result (codes "id is required for update"), file)
    else elim (tasks_to_change env file) [
      | inl e ↦ (error_result e, file)
      | inr tasks ↦
          store_changed env id (codes "updated") file (update_first id (set_fields env args) tasks)
    ]

-- `complete` and `cancelTask`, with the name of the action and the status.
unfoldable pub set_status : Text → Text → TaskEnv → Fields → TasksFile → ToolResult × TasksFile
unfolding text_arg text_eq set_arg update error_result
set_status name status env args file =
    if text_eq (text_arg (codes "id") args) []
    then (error_result (codes "id is required for " ++ name), file)
    else update env (set_arg (codes "status") (text status) args) file

-- Every task but those with an identifier, where there is one.
unfoldable pub without_task : Text → List Task → Option (List Task)
unfolding text_eq
without_task id tasks =
    if any (λ t. text_eq t.id id) tasks
    then some (keep (λ t. not (text_eq t.id id)) tasks)
    else none

-- `del`.
unfoldable pub del : TaskEnv → Fields → TasksFile → ToolResult × TasksFile
unfolding text_arg text_eq without_task error_result store_changed
del env args file =
    let id = text_arg (codes "id") args in
    if text_eq id []
    then (error_result (codes "id is required for delete"), file)
    else elim (tasks_to_change env file) [
      | inl e ↦ (error_result e, file)
      | inr tasks ↦ store_changed env id (codes "deleted") file (without_task id tasks)
    ]

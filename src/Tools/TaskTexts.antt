-- ===== src/Tools/TaskTexts.antt =====
-- pkg/tools/tasks.go: the actions that only read the tasks, and `Execute`. `upper` and `lower` are
-- `strings.ToUpper` and `strings.ToLower`.
use chango_assistant.Base.{
  Bool, List, Option, Text, [], codes, concat_texts, contains, decimal, if◌then◌else◌, inl, inr,
  join_texts, keep, length, ltb, map, none, not, reverse, some, text_eq, text_lt, utf8, ◌&&◌, ◌++◌,
  ◌||◌, ◌∷◌,
}
use chango_assistant.Providers.Types.{Fields}
use chango_assistant.Tools.Args.{text_arg}
use chango_assistant.Tools.Result.{ToolResult, error_result, silent_result}
use chango_assistant.Tools.Tasks.{
  Task, TaskEnv, TasksFile, add, cancelled_status, del, done_status, load_tasks, no_task,
  set_status, update,
}

abbrev is_closed : Task → Bool
is_closed task = text_eq task.status done_status || text_eq task.status cancelled_status

-- Whether a task is past its date.
unfoldable pub is_overdue : TaskEnv → Task → Bool
unfolding text_eq text_lt
is_overdue env task =
    not (text_eq task.due_date []) && (text_lt task.due_date env.today && not (is_closed task))

abbrev if_some : Text → Text → Text
if_some prefix s = if text_eq s [] then [] else prefix ++ s

abbrev newline : Text
newline = 10 ∷ []

module _ (upper lower : Text → Text) where
  -- A line of `list`.
  unfoldable pub task_line : TaskEnv → Task → Text
  unfolding text_eq is_overdue
  task_line env task = concat_texts (
      codes "- ["
      ∷ upper task.status
      ∷ codes "] "
      ∷ task.title
      ∷ codes " (ID: "
      ∷ task.id
      ∷ codes ", status: "
      ∷ task.status
      ∷ codes ", priority: "
      ∷ task.priority
      ∷ if_some (codes ", due: ") task.due_date
      ∷ if_some (codes ", goal: ") task.goal_id
      ∷ codes ")"
      ∷ (if is_overdue env task then codes " [OVERDUE]" else [])
      ∷ [])

  abbrev list_text : TaskEnv → List Task → Text
  list_text env [] = codes "No active tasks"
  list_text env (t ∷ ts) =
      let overdue = length (keep (is_overdue env) (t ∷ ts)) in
      concat_texts (
        decimal (length (t ∷ ts))
        ∷ codes " active task(s)"
        ∷ (if ltb 0 overdue then codes " (" ++ (decimal overdue ++ codes " overdue)") else [])
        ∷ codes ":\n"
        ∷ join_texts newline (map (task_line env) (t ∷ ts))
        ∷ [])

  abbrev listed : TaskEnv → List Task → Text
  listed env [] = codes "No tasks found"
  listed env (t ∷ ts) = list_text env (keep (λ t. not (is_closed t)) (t ∷ ts))

  abbrev failed_load : Text → ToolResult
  unfolding error_result
  failed_load e = error_result (codes "failed to load tasks: " ++ e)

  -- `list`.
  unfoldable pub list : TaskEnv → TasksFile → ToolResult
  unfolding load_tasks task_line is_overdue text_eq decimal silent_result failed_load
  list env file = elim (load_tasks file) [
    | inl e ↦ failed_load e
    | inr tasks ↦ silent_result (listed env tasks)
  ]

  -- `search`: the texts that the query is looked for in, and the matches.
  unfoldable pub matches : Text → Task → Bool
  unfolding contains
  matches query task =
      contains
        (lower (
          concat_texts (
            task.title
            ∷ codes " "
            ∷ task.description
            ∷ codes " "
            ∷ join_texts (codes " ") task.tags
            ∷ [])))
        (lower query)

  abbrev match_line : Task → Text
  match_line task = concat_texts (
      codes "- ["
      ∷ upper task.priority
      ∷ codes "] "
      ∷ task.title
      ∷ codes " (ID: "
      ∷ task.id
      ∷ codes ", status: "
      ∷ task.status
      ∷ codes ")"
      ∷ [])

  abbrev found_text : Text → List Task → Text
  found_text query [] = codes "No tasks matching '" ++ (query ++ codes "'")
  found_text query (t ∷ ts) = concat_texts (
      codes "Found "
      ∷ decimal (length (t ∷ ts))
      ∷ codes " task(s):\n"
      ∷ join_texts newline (map match_line (t ∷ ts))
      ∷ [])

  unfoldable pub search_tasks : Fields → TasksFile → ToolResult
  unfolding load_tasks text_arg text_eq matches decimal silent_result error_result failed_load
  search_tasks args file =
      let query = text_arg (codes "query") args in
      if text_eq query []
      then error_result (codes "query is required for search")
      else elim (load_tasks file) [
        | inl e ↦ failed_load e
        | inr tasks ↦ silent_result (found_text query (keep (matches query) tasks))
      ]

-- `formatTask`.
unfoldable pub format_task : TaskEnv → Task → Text
unfolding text_eq is_overdue
format_task env task = join_texts newline (
    (codes "ID: " ++ task.id)
    ∷ (codes "Title: " ++ task.title)
    ∷ (codes "Status: " ++ task.status)
    ∷ (codes "Priority: " ++ task.priority)
    ∷ (optional (codes "Description: ") task.description
        ++ (optional (codes "Due Date: ") task.due_date
            ++ ((if is_overdue env task then codes "** OVERDUE **" ∷ [] else [])
                ++ (tags_line task.tags
                    ++ (optional (codes "Notes: ") task.notes
                        ++ (optional (codes "Goal ID: ") task.goal_id
                            ++ ((codes "Created: " ++ task.created_at)
                                ∷ (codes "Updated: " ++ task.updated_at)
                                ∷ []))))))))
  where
    optional : Text → Text → List Text
    optional prefix s = if text_eq s [] then [] else (prefix ++ s) ∷ []

    tags_line : List Text → List Text
    tags_line [] = []
    tags_line (s ∷ ss) = (codes "Tags: " ++ join_texts (codes ", ") (s ∷ ss)) ∷ []

-- The first task with an identifier.
unfoldable pub find_task : Text → List Task → Option Task
unfolding text_eq
find_task id [] = none
find_task id (task ∷ tasks) = if text_eq task.id id then some task else find_task id tasks

-- `get`.
unfoldable pub get : TaskEnv → Fields → TasksFile → ToolResult
unfolding text_arg text_eq load_tasks find_task format_task no_task silent_result error_result
get env args file =
    let id = text_arg (codes "id") args in
    if text_eq id []
    then error_result (codes "id is required for get")
    else elim (load_tasks file) [
      | inl e ↦ error_result (codes "failed to load tasks: " ++ e)
      | inr tasks ↦ elim (find_task id tasks) [
        | none ↦ no_task id
        | some task ↦ silent_result (format_task env task)
      ]
    ]

abbrev is_sub : Text → Task → Bool
is_sub id task = text_eq task.goal_id id && not (text_eq task.status cancelled_status)

abbrev sub_line : Task → Text
sub_line task =
    concat_texts (codes "- " ∷ task.title ∷ codes " (status: " ∷ task.status ∷ codes ")" ∷ [])

abbrev existing_text : List Task → Text
existing_text [] = []
existing_text (t ∷ ts) = concat_texts (
    codes "\nExisting sub-tasks:\n"
    ∷ join_texts newline (map sub_line (t ∷ ts))
    ∷ codes "\n\nOnly add MISSING sub-tasks, don't duplicate existing ones.\n"
    ∷ [])

-- The prompt of `decompose`, from the goal and its sub-tasks.
unfoldable pub decompose_text : Task → List Task → Text
unfolding utf8
decompose_text goal subs = concat_texts (
    codes "GOAL TO DECOMPOSE:\nID: "
    ∷ goal.id
    ∷ codes "\nTitle: "
    ∷ goal.title
    ∷ codes "\nDescription: "
    ∷ goal.description
    ∷ codes "\nPriority: "
    ∷ goal.priority
    ∷ codes "\n"
    ∷ existing_text subs
    ∷ codes "\nNow create 3-7 concrete, actionable sub-tasks using:\n"
    ∷ codes "tasks(action='add', title='...', description='...', priority='...', goal_id='"
    ∷ goal.id
    ∷ codes "')\n\n"
    ∷ codes "Each sub-task should be completable in a single session. "
    ∷ utf8 "Be specific — 'research X' is better than 'think about X'."
    ∷ [])

-- `decompose`; of several tasks with the identifier the last one is the goal.
unfoldable pub decompose : Fields → TasksFile → ToolResult
unfolding text_arg text_eq load_tasks find_task decompose_text silent_result error_result
decompose args file =
    let id = text_arg (codes "id") args in
    if text_eq id []
    then error_result (utf8 "id is required for decompose — provide the goal/task ID to break down")
    else elim (load_tasks file) [
      | inl e ↦ error_result (codes "failed to load tasks: " ++ e)
      | inr tasks ↦ elim (find_task id (reverse tasks)) [
        | none ↦ error_result (codes "No task found with ID '" ++ (id ++ codes "'"))
        | some goal ↦ silent_result (decompose_text goal (keep (is_sub id) tasks))
      ]
    ]

-- `Execute`.
unfoldable pub execute :
    (upper lower : Text → Text) → TaskEnv → Fields → TasksFile → ToolResult × TasksFile
unfolding text_arg text_eq add list get update set_status del search_tasks decompose error_result
execute upper lower env args file =
    let action = text_arg (codes "action") args in
    if text_eq action (codes "add")
    then add env args file
    else if text_eq action (codes "list")
    then (list upper lower env file, file)
    else if text_eq action (codes "get")
    then (get env args file, file)
    else if text_eq action (codes "update")
    then update env args file
    else if text_eq action (codes "complete")
    then set_status (codes "complete") done_status env args file
    else if text_eq action (codes "cancel")
    then set_status (codes "cancel") cancelled_status env args file
    else if text_eq action (codes "delete")
    then del env args file
    else if text_eq action (codes "search")
    then (search_tasks upper lower args file, file)
    else if text_eq action (codes "decompose")
    then (decompose args file, file)
    else (error_result (codes "unknown action: " ++ action), file)

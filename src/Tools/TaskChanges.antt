-- ===== src/Tools/TaskChanges.antt =====
-- What each action of pkg/tools/tasks.go does to the tasks of the file.
use chango_assistant.Base.{
  Bool, List, Option, Text, [], any, ap, arith, codes, false, if◌then◌else◌, none, refl, some,
  subst, sym, text_eq, text_eq_iff, true, ◌++◌, ◌∙◌, ◌∷◌, ◌≡◌,
}
use chango_assistant.Providers.Types.{Fields, Value, end_fields, field, text}
use chango_assistant.Tools.Args.{find_arg, or_empty, set_arg, text_arg, text_arg?, text_of}
use chango_assistant.Tools.Result.{ToolResult, error_result}
use chango_assistant.Tools.TaskList.{
  ChangesOnly, UniqueIds, UniqueIds-snoc, find_task-snoc, is_unreadable, none_ne_some, others,
  others-UniqueIds, others-other, some_inj, tasks_in, update_first-updated, updated-UniqueIds,
  updated-other,
}
use chango_assistant.Tools.TaskTexts.{find_task}
use chango_assistant.Tools.Tasks.{
  Task, TaskEnv, TasksFile, about_task, add, created_text, del, holds, malformed, missing, new_task,
  save_tasks, saved, set_fields, set_status, store_changed, unreadable, update, update_first,
  without_task,
}

-- The tasks of a file change in this way, and the file is not left broken.
abbrev pub Changes : Text → Text → TasksFile → TasksFile → Type 0
Changes id fresh file file' =
    ((j : Text)
      → text_eq id j ≡ false
      → text_eq fresh j ≡ false
      → find_task j (tasks_in file') ≡ find_task j (tasks_in file))
    × (find_task fresh (tasks_in file) ≡ none
        → UniqueIds (tasks_in file)
        → UniqueIds (tasks_in file'))

pub Changes-refl : (id fresh : Text) (file : TasksFile) → Changes id fresh file file
Changes-refl id fresh file = ((λ j e e'. refl), λ new u. u)

saved-file :
    (env : TaskEnv) (tasks : List Task) (answer : Text)
    → env.fault ≡ none
    → (saved env tasks answer).1 ≡ holds tasks
unfolding saved save_tasks
saved-file env tasks answer h = rw h refl

-- A call that is refused changes nothing.
unless_refused :
    (id fresh : Text) (file : TasksFile) (b : Bool) (r : ToolResult) (x : ToolResult × TasksFile)
    → Changes id fresh file x.1
    → Changes id fresh file (if b then (r, file) else x).1
unless_refused id fresh file true r x h = Changes-refl id fresh file
unless_refused id fresh file false r x h = h

store_changed-Changes :
    (env : TaskEnv) (id what : Text) (tasks : List Task) (o : Option (List Task))
    → env.fault ≡ none
    → ((tasks' : List Task) → o ≡ some tasks' → ChangesOnly id tasks tasks')
    → Changes id env.new_id (holds tasks) (store_changed env id what (holds tasks) o).1
unfolding store_changed
store_changed-Changes env id what tasks none h f = Changes-refl id env.new_id (holds tasks)
store_changed-Changes env id what tasks (some tasks') h f =
    subst (Changes id env.new_id (holds tasks)) (sym (saved-file env tasks' (about_task id what) h))
      ((λ j e e'. (f tasks' refl).0 j e), λ new u. (f tasks' refl).1 u)

set_fields-same :
    (env : TaskEnv) (args : Fields) (task : Task) → (set_fields env args task).id ≡ task.id
unfolding set_fields
set_fields-same env args task = refl

update_first-ChangesOnly :
    (id : Text) (env : TaskEnv) (args : Fields) (tasks tasks' : List Task)
    → update_first id (set_fields env args) tasks ≡ some tasks'
    → ChangesOnly id tasks tasks'
update_first-ChangesOnly id env args tasks tasks' h =
    subst (ChangesOnly id tasks)
      (sym (update_first-updated id (set_fields env args) tasks tasks' h))
      (
        (λ j e. updated-other id (set_fields env args) (set_fields-same env args) j tasks e),
        λ u. updated-UniqueIds id (set_fields env args) (set_fields-same env args) tasks u,
      )

without_task-ChangesOnly :
    (id : Text) (tasks tasks' : List Task)
    → without_task id tasks ≡ some tasks'
    → ChangesOnly id tasks tasks'
unfolding without_task
without_task-ChangesOnly id tasks tasks' h =
    subst (ChangesOnly id tasks)
      (if_some_inj (any (λ t. text_eq t.id id) tasks) (others id tasks) tasks' h)
      ((λ j e. others-other id j tasks e), λ u. others-UniqueIds id tasks u)
  where
    if_some_inj : (b : Bool) (x y : List Task) → (if b then some x else none) ≡ some y → x ≡ y
    if_some_inj true x y e = some_inj e
    if_some_inj false x y e = absurd (none_ne_some e)

module _ (env : TaskEnv) (args : Fields) where
  pub update-Changes :
      (file : TasksFile)
      → env.fault ≡ none
      → Changes (text_arg (codes "id") args) env.new_id file (update env args file).1
  unfolding update
  update-Changes missing h =
      unless_refused (text_arg (codes "id") args) env.new_id missing
        (text_eq (text_arg (codes "id") args) []) (error_result (codes "id is required for update"))
        (error_result (codes "failed to load tasks: " ++ env.no_file), missing)
        (Changes-refl (text_arg (codes "id") args) env.new_id missing)
  update-Changes (unreadable e) h =
      unless_refused (text_arg (codes "id") args) env.new_id (unreadable e)
        (text_eq (text_arg (codes "id") args) []) (error_result (codes "id is required for update"))
        (error_result (codes "failed to load tasks: " ++ e), unreadable e)
        (Changes-refl (text_arg (codes "id") args) env.new_id (unreadable e))
  update-Changes (malformed e) h =
      unless_refused (text_arg (codes "id") args) env.new_id (malformed e)
        (text_eq (text_arg (codes "id") args) []) (error_result (codes "id is required for update"))
        (error_result (codes "corrupted tasks file: " ++ e), malformed e)
        (Changes-refl (text_arg (codes "id") args) env.new_id (malformed e))
  update-Changes (holds tasks) h =
      unless_refused (text_arg (codes "id") args) env.new_id (holds tasks)
        (text_eq (text_arg (codes "id") args) []) (error_result (codes "id is required for update"))
        (store_changed env (text_arg (codes "id") args) (codes "updated") (holds tasks)
          (update_first (text_arg (codes "id") args) (set_fields env args) tasks))
        (store_changed-Changes env (text_arg (codes "id") args) (codes "updated") tasks
          (update_first (text_arg (codes "id") args) (set_fields env args) tasks) h
          (update_first-ChangesOnly (text_arg (codes "id") args) env args tasks))

  pub del-Changes :
      (file : TasksFile)
      → env.fault ≡ none
      → Changes (text_arg (codes "id") args) env.new_id file (del env args file).1
  unfolding del
  del-Changes missing h =
      unless_refused (text_arg (codes "id") args) env.new_id missing
        (text_eq (text_arg (codes "id") args) []) (error_result (codes "id is required for delete"))
        (error_result (codes "failed to load tasks: " ++ env.no_file), missing)
        (Changes-refl (text_arg (codes "id") args) env.new_id missing)
  del-Changes (unreadable e) h =
      unless_refused (text_arg (codes "id") args) env.new_id (unreadable e)
        (text_eq (text_arg (codes "id") args) []) (error_result (codes "id is required for delete"))
        (error_result (codes "failed to load tasks: " ++ e), unreadable e)
        (Changes-refl (text_arg (codes "id") args) env.new_id (unreadable e))
  del-Changes (malformed e) h =
      unless_refused (text_arg (codes "id") args) env.new_id (malformed e)
        (text_eq (text_arg (codes "id") args) []) (error_result (codes "id is required for delete"))
        (error_result (codes "corrupted tasks file: " ++ e), malformed e)
        (Changes-refl (text_arg (codes "id") args) env.new_id (malformed e))
  del-Changes (holds tasks) h =
      unless_refused (text_arg (codes "id") args) env.new_id (holds tasks)
        (text_eq (text_arg (codes "id") args) []) (error_result (codes "id is required for delete"))
        (store_changed env (text_arg (codes "id") args) (codes "deleted") (holds tasks)
          (without_task (text_arg (codes "id") args) tasks))
        (store_changed-Changes env (text_arg (codes "id") args) (codes "deleted") tasks
          (without_task (text_arg (codes "id") args) tasks) h
          (without_task-ChangesOnly (text_arg (codes "id") args) tasks))

  added-Changes :
      (id : Text) (task : Task) (file : TasksFile) (answer : Text)
      → task.id ≡ env.new_id
      → env.fault ≡ none
      → Changes id env.new_id file (saved env (tasks_in file ++ task ∷ []) answer).1
  added-Changes id task file answer same h =
      subst (Changes id env.new_id file)
        (sym (saved-file env (tasks_in file ++ task ∷ []) answer h))
        (
          (λ j e e'. find_task-snoc j (tasks_in file) task (ap (λ k. text_eq k j) same ∙ e')),
          λ new u.
              UniqueIds-snoc (tasks_in file) task (ap (λ k. find_task k (tasks_in file)) same ∙ new)
                u,
        )

  pub add-Changes :
      (file : TasksFile) (id : Text)
      → env.fault ≡ none
      → is_unreadable file ≡ false
      → Changes id env.new_id file (add env args file).1
  unfolding add new_task
  add-Changes missing id h r =
      unless_refused id env.new_id missing (text_eq (text_arg (codes "title") args) [])
        (error_result (codes "title is required for add"))
        (saved env (tasks_in missing ++ new_task env args ∷ []) (created_text (new_task env args)))
        (added-Changes id (new_task env args) missing (created_text (new_task env args)) refl h)
  add-Changes (unreadable e) id h r = absurd (cc)
  add-Changes (malformed e) id h r =
      unless_refused id env.new_id (malformed e) (text_eq (text_arg (codes "title") args) [])
        (error_result (codes "title is required for add"))
        (error_result (codes "corrupted tasks file: " ++ e), malformed e)
        (Changes-refl id env.new_id (malformed e))
  add-Changes (holds tasks) id h r =
      unless_refused id env.new_id (holds tasks) (text_eq (text_arg (codes "title") args) [])
        (error_result (codes "title is required for add"))
        (saved env (tasks_in (holds tasks) ++ new_task env args ∷ [])
          (created_text (new_task env args)))
        (added-Changes id (new_task env args) (holds tasks) (created_text (new_task env args)) refl
          h)

find_arg-set_arg :
    (key k : Text) (v : Value) (args : Fields)
    → text_eq key k ≡ false
    → find_arg k (set_arg key v args) ≡ find_arg k args
unfolding set_arg
find_arg-set_arg key k v end_fields e = rw e refl
find_arg-set_arg key k v (field j w rest) e =
    ground (arith, text_eq_iff j key, find_arg-set_arg key k v rest e)

pub set_status-Changes :
    (name status : Text) (env : TaskEnv) (args : Fields) (file : TasksFile)
    → env.fault ≡ none
    → Changes (text_arg (codes "id") args) env.new_id file (set_status name status env args file).1
unfolding set_status
set_status-Changes name status env args file h =
    let changed = set_arg (codes "status") (text status) args in
    let same : text_arg (codes "id") changed ≡ text_arg (codes "id") args =
      unfold text_arg text_arg? in
      ap (λ v. or_empty (text_of v))
        (find_arg-set_arg (codes "status") (codes "id") (text status) args
          (unfold text_eq in refl)) in
    unless_refused (text_arg (codes "id") args) env.new_id file
      (text_eq (text_arg (codes "id") args) []) (error_result (codes "id is required for " ++ name))
      (update env changed file)
      (subst (λ k. Changes k env.new_id file (update env changed file).1) same
        (update-Changes env changed file h))

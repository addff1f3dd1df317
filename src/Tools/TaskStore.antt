-- ===== src/Tools/TaskStore.antt =====
-- The calls of the tasks tool of pkg/tools/tasks.go as a whole.
use chango_assistant.Base.{
  Bool, Text, codes, false, if_both, if◌then◌else◌, none, text_eq, ◌++◌, ◌≡◌,
}
use chango_assistant.Providers.Types.{Fields}
use chango_assistant.Tools.Args.{text_arg}
use chango_assistant.Tools.Result.{ToolResult, error_result}
use chango_assistant.Tools.TaskChanges.{
  Changes, Changes-refl, add-Changes, del-Changes, set_status-Changes, update-Changes,
}
use chango_assistant.Tools.TaskList.{UniqueIds, is_unreadable, tasks_in}
use chango_assistant.Tools.TaskTexts.{decompose, execute, find_task, get, list, search_tasks}
use chango_assistant.Tools.Tasks.{
  TaskEnv, TasksFile, add, cancelled_status, del, done_status, set_status, update,
}

module _ (upper lower : Text → Text) (env : TaskEnv) (args : Fields) (file : TasksFile) where
  abbrev CallChanges : ToolResult × TasksFile → Type 0
  CallChanges x = Changes (text_arg (codes "id") args) env.new_id file x.1

  reads : (r : ToolResult) → CallChanges (r, file)
  reads r = Changes-refl (text_arg (codes "id") args) env.new_id file

  or_else :
      (b : Bool) (x y : ToolResult × TasksFile)
      → CallChanges x
      → CallChanges y
      → CallChanges (if b then x else y)
  or_else b x y h k = if_both CallChanges b x y h k

  execute-Changes :
      env.fault ≡ none
      → is_unreadable file ≡ false
      → CallChanges (execute upper lower env args file)
  unfolding execute
  execute-Changes h r =
      let action = text_arg (codes "action") args in
      let otherwise : ToolResult × TasksFile =
        (error_result (codes "unknown action: " ++ action), file) in
      let or_decompose : ToolResult × TasksFile =
        if text_eq action (codes "decompose") then (decompose args file, file) else otherwise in
      let or_search : ToolResult × TasksFile =
        if text_eq action (codes "search")
        then (search_tasks upper lower args file, file)
        else or_decompose in
      let or_delete : ToolResult × TasksFile =
        if text_eq action (codes "delete") then (del env args file) else or_search in
      let or_cancel : ToolResult × TasksFile =
        if text_eq action (codes "cancel")
        then (set_status (codes "cancel") cancelled_status env args file)
        else or_delete in
      let or_complete : ToolResult × TasksFile =
        if text_eq action (codes "complete")
        then (set_status (codes "complete") done_status env args file)
        else or_cancel in
      let or_update : ToolResult × TasksFile =
        if text_eq action (codes "update") then (update env args file) else or_complete in
      let or_get : ToolResult × TasksFile =
        if text_eq action (codes "get") then (get env args file, file) else or_update in
      let or_list : ToolResult × TasksFile =
        if text_eq action (codes "list") then (list upper lower env file, file) else or_get in
      or_else (text_eq action (codes "add")) (add env args file) or_list
        (add-Changes env args file (text_arg (codes "id") args) h r)
        (or_else (text_eq action (codes "list")) (list upper lower env file, file) or_get
          (reads (list upper lower env file))
          (or_else (text_eq action (codes "get")) (get env args file, file) or_update
            (reads (get env args file))
            (or_else (text_eq action (codes "update")) (update env args file) or_complete
              (update-Changes env args file h)
              (or_else (text_eq action (codes "complete"))
                (set_status (codes "complete") done_status env args file) or_cancel
                (set_status-Changes (codes "complete") done_status env args file h)
                (or_else (text_eq action (codes "cancel"))
                  (set_status (codes "cancel") cancelled_status env args file) or_delete
                  (set_status-Changes (codes "cancel") cancelled_status env args file h)
                  (or_else (text_eq action (codes "delete")) (del env args file) or_search
                    (del-Changes env args file h)
                    (or_else (text_eq action (codes "search"))
                      (search_tasks upper lower args file, file) or_decompose
                      (reads (search_tasks upper lower args file))
                      (or_else (text_eq action (codes "decompose")) (decompose args file, file)
                        otherwise (reads (decompose args file))
                        (reads (error_result (codes "unknown action: " ++ action)))))))))))

  -- Whatever the action, a task whose identifier is neither the one given nor the new one is found as
  -- before, if the file can be read and written.
  pub execute-others :
      (j : Text)
      → env.fault ≡ none
      → is_unreadable file ≡ false
      → text_eq (text_arg (codes "id") args) j ≡ false
      → text_eq env.new_id j ≡ false
      → find_task j (tasks_in (execute upper lower env args file).1) ≡ find_task j (tasks_in file)
  execute-others j h r other old = (execute-Changes h r).0 j other old

  -- No action makes two tasks share an identifier, if the random one is not in use and the file can be
  -- read and written.
  pub execute-UniqueIds :
      env.fault ≡ none
      → is_unreadable file ≡ false
      → find_task env.new_id (tasks_in file) ≡ none
      → UniqueIds (tasks_in file)
      → UniqueIds (tasks_in (execute upper lower env args file).1)
  execute-UniqueIds h r fresh unique = (execute-Changes h r).1 fresh unique

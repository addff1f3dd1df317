-- ===== src/Tools/Subagent/Runs.antt =====
-- The runs of subagents in pkg/tools/subagent.go: `runTask` in the background, and the tool that waits.
use chango_assistant.Base.{
  Bool, List, Option, Text, [], codes, decimal, if◌then◌else◌, inl, inr, insert, keep, length, ltb,
  none, not, some, take, text_eq, ℕ, ◌&&◌, ◌++◌, ◌||◌, ◌∷◌, ◌⊎◌,
}
use chango_assistant.Channels.Base.{InboundMessage}
use chango_assistant.Providers.Types.{Fields, Message, ToolDefinition, plain}
use chango_assistant.Tools.Args.{text_arg, text_arg?}
use chango_assistant.Tools.Loop.{Config, ToolLoopResult, run_tool_loop}
use chango_assistant.Tools.Result.{ToolResult, error_result, new_tool_result, with_error}
use chango_assistant.Tools.Subagent.Manager.{
  SubagentManager, SubagentTask, Toolbox, build_system_prompt, cancelled_status, completed_status,
  failed_status, running_status,
}

-- The fields that `runTask` sets at its start.
unfoldable pub restarted : ℕ → SubagentTask → SubagentTask
restarted now task = record task { status = running_status; created = now }

-- The status and the result of a task after its loop.
unfoldable pub settled : Bool → Text ⊎ ToolLoopResult → SubagentTask → SubagentTask
settled cancelled (inl e) task =
    if cancelled
    then record task { status = cancelled_status; result = codes "Task cancelled during execution" }
    else record task { status = failed_status; result = codes "Error: " ++ e }
settled cancelled (inr r) task = record task { status = completed_status; result = r.content }

-- What the callback is given.
unfoldable pub report : Text ⊎ ToolLoopResult → SubagentTask → ToolResult
unfolding new_tool_result error_result with_error decimal
report (inl e) task = with_error (some e) (error_result task.result)
report (inr r) task =
    record (new_tool_result (
      codes "Subagent '"
      ++ task.label
      ++ codes "' completed (iterations: "
      ++ decimal r.iterations
      ++ codes "): "
      ++ r.content)) { for_user = r.content }

abbrev pub is_over : SubagentTask → Bool
is_over t =
    text_eq t.status completed_status
    || (text_eq t.status failed_status || text_eq t.status cancelled_status)

-- The test of the pruning.
unfoldable pub is_old : Text → ℕ → Text × SubagentTask → Bool
unfolding text_eq
is_old id cutoff e = not (text_eq e.1.id id) && (is_over e.1 && ltb e.1.created cutoff)

-- The message to the main agent.
unfoldable pub announcement : SubagentTask → InboundMessage
announcement task = record {
  channel = codes "system";
  sender_id = codes "subagent:" ++ task.id;
  chat_id = task.origin_channel ++ codes ":" ++ task.origin_chat_id;
  content = codes "Task '" ++ task.label ++ codes "' completed.\n\nResult:\n" ++ task.result;
  media = [];
  session_key = [];
  metadata = [];
}

abbrev pub announced : InboundMessage → Option (List InboundMessage) → Option (List InboundMessage)
announced msg none = none
announced msg (some msgs) = some (msgs ++ msg ∷ [])

-- The task as cancelled before its loop.
unfoldable pub cancelled_early : SubagentTask → SubagentTask
cancelled_early task = record task {
  status = cancelled_status;
  result = codes "Task cancelled before execution";
}

-- What one run meets: the clock at its start, an hour before its end, whether the context is done
-- before and after the loop, and what other calls do to the manager during the loop.
pub record RunMoment (W : Type 0) : Type 0 where
  pub now : ℕ
  pub cutoff : ℕ
  pub done_before : Bool
  pub done_after : Bool
  pub meanwhile : SubagentManager W → SubagentManager W

abbrev pub shortened : Text → Text
shortened content = if ltb 500 (length content) then take 500 content ++ codes "..." else content

abbrev pub label_or : Text → Text
label_or [] = codes "(unnamed)"
label_or (c ∷ s) = c ∷ s

abbrev pub report_sync : Text → Text ⊎ ToolLoopResult → ToolResult
report_sync label (inl e) =
    with_error (some e) (error_result (codes "Subagent execution failed: " ++ e))
report_sync label (inr r) =
    record (new_tool_result (
      codes "Subagent task completed:\nLabel: "
      ++ label_or label
      ++ codes "\nIterations: "
      ++ decimal r.iterations
      ++ codes "\nResult: "
      ++ r.content)) { for_user = shortened r.content }

module _ {W : Type 0} where
  abbrev definitions_of : Option (Toolbox W) → Option (List ToolDefinition)
  definitions_of none = none
  definitions_of (some t) = some t.definitions

  abbrev execute_of : Option (Toolbox W) → Text → Text → Text → Fields → W → ToolResult × W
  execute_of none channel chat name args world = (error_result (codes "No tools available"), world)
  execute_of (some t) channel chat name args world = t.execute channel chat name args world

  -- The `ToolLoopConfig` that both runs build.
  unfoldable pub loop_config : (Fields → Text) → Text → Text → SubagentManager W → Config W
  unfolding error_result
  loop_config marshal channel chat sm = record {
    max_iterations = sm.max_iterations;
    definitions = definitions_of sm.tools;
    chat = sm.provider sm.default_model;
    execute = execute_of sm.tools channel chat;
    marshal = marshal;
  }

  -- The messages that both runs start with.
  unfoldable pub first_messages : Text → SubagentManager W → W → List Message
  unfolding build_system_prompt
  first_messages task sm world =
      plain (codes "system") (build_system_prompt sm world) ∷ plain (codes "user") task ∷ []

  -- The part of `runTask` after the loop: the task settles, old tasks go, and the bus is told. The task
  -- stands in the table under its identifier; `cutoff` is an hour before.
  unfoldable pub finish_task :
      ℕ
      → Bool
      → Text ⊎ ToolLoopResult
      → SubagentTask
      → SubagentManager W
      → ToolResult × SubagentManager W
  unfolding settled report is_old announcement insert
  finish_task cutoff cancelled outcome task sm =
      let done = settled cancelled outcome task in
      (
        report outcome done,
        record sm {
          tasks = keep (λ e. not (is_old task.id cutoff e)) (insert task.id done sm.tasks);
          published = announced (announcement done) sm.published;
        },
      )

  -- `runTask`: what the callback is given, if it is called, the manager and the world.
  unfoldable pub run_task :
      (Fields → Text)
      → RunMoment W
      → SubagentTask
      → SubagentManager W
      → W
      → Option ToolResult × (SubagentManager W × W)
  unfolding restarted cancelled_early loop_config first_messages finish_task run_tool_loop insert
  run_task marshal m given sm world =
      let task = restarted m.now given in
      let sm1 = record sm { tasks = insert task.id task sm.tasks } in
      let ended =
        run_tool_loop (loop_config marshal task.origin_channel task.origin_chat_id sm1)
          (first_messages task.task sm1 world) world in
      let (result, sm2) = finish_task m.cutoff m.done_after ended.outcome task (m.meanwhile sm1) in
      if m.done_before
      then (none, (record sm { tasks = insert task.id (cancelled_early task) sm.tasks }, world))
      else (some result, (sm2, ended.world))

  -- `SubagentTool.Execute` with the tool's channel and chat.
  unfoldable pub execute :
      (Fields → Text) → Text → Text → Fields → Option (SubagentManager W) → W → ToolResult × W
  unfolding text_arg? text_arg loop_config first_messages run_tool_loop with_error error_result
      new_tool_result decimal
  execute marshal channel chat args manager world = elim (text_arg? (codes "task") args) [
    | none ↦ (
      with_error (some (codes "task parameter is required"))
          (error_result (codes "task is required")),
      world,
    )
    | some task ↦ elim manager [
      | none ↦ (
        with_error (some (codes "manager is nil"))
            (error_result (codes "Subagent manager not configured")),
        world,
      )
      | some sm ↦
          let ended =
            run_tool_loop (loop_config marshal channel chat sm) (first_messages task sm world)
              world in
          (report_sync (text_arg (codes "label") args) ended.outcome, ended.world)
    ]
  ]

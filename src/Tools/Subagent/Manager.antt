-- ===== src/Tools/Subagent/Manager.antt =====
-- The manager of subagents in pkg/tools/subagent.go and its table of tasks. The model, the tools and the
-- builder of the prompt act on a world of their own.
use chango_assistant.Base.{
  List, Option, Text, [], codes, decimal, if◌then◌else◌, insert, is_nil, lookup, map, none, some,
  suc, ℕ, ◌++◌, ◌⊎◌,
}
use chango_assistant.Channels.Base.{InboundMessage}
use chango_assistant.Providers.Types.{Fields, LlmResponse, Message, ToolDefinition}
use chango_assistant.Tools.Result.{ToolResult}

-- `SubagentTask`.
pub record SubagentTask : Type 0 where
  pub id : Text
  pub task : Text
  pub label : Text
  pub origin_channel : Text
  pub origin_chat_id : Text
  pub status : Text
  pub result : Text
  pub created : ℕ

-- The registry that subagents use: its definitions, and `ExecuteWithContext` for a channel and a chat.
pub record Toolbox (W : Type 0) : Type 0 where
  pub definitions : List ToolDefinition
  pub execute : Text → Text → Text → Fields → W → ToolResult × W

-- `SubagentManager`; `published` is what the bus was given, `none` without a bus.
pub record SubagentManager (W : Type 0) : Type 0 where
  pub tasks : List (Text × SubagentTask)
  pub provider : Text → List Message → List ToolDefinition → W → (Text ⊎ LlmResponse) × W
  pub default_model : Text
  pub tools : Option (Toolbox W)
  pub max_iterations : ℕ
  pub next_id : ℕ
  pub prompt_builder : Option (W → Text)
  pub published : Option (List InboundMessage)

abbrev pub running_status : Text
running_status = codes "running"

abbrev pub completed_status : Text
completed_status = codes "completed"

abbrev pub failed_status : Text
failed_status = codes "failed"

abbrev pub cancelled_status : Text
cancelled_status = codes "cancelled"

module _ {W : Type 0} where
  -- `NewSubagentManager`, with the empty registry that it makes.
  unfoldable pub new_subagent_manager :
      (Text → List Message → List ToolDefinition → W → (Text ⊎ LlmResponse) × W)
      → Text
      → Toolbox W
      → Option (List InboundMessage)
      → SubagentManager W
  new_subagent_manager provider model registry bus = record {
    tasks = [];
    provider = provider;
    default_model = model;
    tools = some registry;
    max_iterations = 10;
    next_id = 1;
    prompt_builder = none;
    published = bus;
  }

  -- `SetProvider`.
  unfoldable pub set_provider :
      (Text → List Message → List ToolDefinition → W → (Text ⊎ LlmResponse) × W)
      → SubagentManager W
      → SubagentManager W
  set_provider p sm = record sm { provider = p }

  -- `SetDefaultModel`.
  unfoldable pub set_default_model : Text → SubagentManager W → SubagentManager W
  set_default_model model sm = record sm { default_model = model }

  -- `SetSystemPromptBuilder`.
  unfoldable pub set_system_prompt_builder :
      Option (W → Text) → SubagentManager W → SubagentManager W
  set_system_prompt_builder builder sm = record sm { prompt_builder = builder }

  -- `SetTools`.
  unfoldable pub set_tools : Option (Toolbox W) → SubagentManager W → SubagentManager W
  set_tools tools sm = record sm { tools = tools }

  abbrev pub prompt_of : Option (W → Text) → W → Text
  prompt_of none world =
      codes
        "You are a subagent. Complete the given task independently and report the result.\nYou have access to tools - use them as needed to complete your task.\nAfter completing the task, provide a clear summary of what was done."
  prompt_of (some builder) world =
      builder world
      ++ codes
          "\n\n---\n\nYou are running as a subagent. Complete the given task independently and report the result. Use tools as needed. Provide a clear summary when done."

  -- `buildSystemPrompt`.
  unfoldable pub build_system_prompt : SubagentManager W → W → Text
  build_system_prompt sm world = prompt_of sm.prompt_builder world

  -- The identifier of the next task.
  unfoldable pub task_id : SubagentManager W → Text
  unfolding decimal
  task_id sm = codes "subagent-" ++ decimal sm.next_id

  -- `Spawn`; the task runs by itself afterwards.
  unfoldable pub spawn :
      ℕ → Text → Text → Text → Text → SubagentManager W → Text × SubagentManager W
  unfolding task_id insert
  spawn now task label channel chat sm = (
    if is_nil label
        then codes "Spawned subagent for task: " ++ task
        else codes "Spawned subagent '" ++ label ++ codes "' for task: " ++ task,
    record sm {
      tasks =
          insert (task_id sm)
            (record {
              id = task_id sm;
              task = task;
              label = label;
              origin_channel = channel;
              origin_chat_id = chat;
              status = running_status;
              result = [];
              created = now;
            })
            sm.tasks;
      next_id = suc sm.next_id;
    },
  )

  -- `GetTask`.
  unfoldable pub get_task : Text → SubagentManager W → Option SubagentTask
  get_task id sm = lookup id sm.tasks

  -- `ListTasks`, in the order in which the map is read.
  unfoldable pub list_tasks : SubagentManager W → List SubagentTask
  list_tasks sm = map (λ e. e.1) sm.tasks

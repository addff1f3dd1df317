-- ===== src/Tests/SubagentCases.antt =====
-- The end of a subagent beside one that runs and one that ended long ago.
use chango_assistant.Base.{
  All, Text, [], codes, false, inr, lookup, none, some, ℕ, ◌∷◌, ◌≡◌, ◌≢◌, ◌≤◌, ◌⊎◌,
}
use chango_assistant.Tools.Loop.{ToolLoopResult}
use chango_assistant.Tools.Subagent.Finished.{IsNotOver, IsSettled, finish_task_lem, tasks_after}
use chango_assistant.Tools.Subagent.Manager.{SubagentManager, SubagentTask}
use chango_assistant.Tools.Workflow.{completed_status, running_status}

abbrev subagent : Text → Text → ℕ → SubagentTask
subagent id status created = record {
  id = id;
  task = codes "look";
  label = [];
  origin_channel = codes "cli";
  origin_chat_id = codes "direct";
  status = status;
  result = [];
  created = created;
}

abbrev manager : SubagentManager ℕ
manager = record {
  tasks =
      (codes "s-1", subagent (codes "s-1") completed_status 3)
      ∷ (codes "s-2", subagent (codes "s-2") running_status 4)
      ∷ (codes "s-3", subagent (codes "s-3") running_status 9)
      ∷ [];
  provider = λ model ms ds w. (
    inr (record {
      response_id = [];
      content = codes "ok";
      tool_calls = [];
      finish_reason = [];
      usage = none;
    }),
    w,
  );
  default_model = codes "m";
  tools = none;
  max_iterations = 10;
  next_id = 4;
  prompt_builder = none;
  published = none;
}

abbrev ending : SubagentTask
ending = subagent (codes "s-3") running_status 9

abbrev outcome : Text ⊎ ToolLoopResult
outcome = inr (record { content = codes "ok"; iterations = 1 })

finish_task_lem_example :
    ((t : SubagentTask) × (lookup (codes "s-3") (tasks_after 5 false outcome ending manager)
        ≡ some t)
      × IsSettled false outcome ending t)
    × (((j : Text) (t : SubagentTask)
          → j ≢ codes "s-3"
          → lookup j manager.tasks ≡ some t
          → (t.status ≡ codes "running") ⊎ (5 ≤ t.created)
          → lookup j (tasks_after 5 false outcome ending manager) ≡ some t)
        × All
            (λ e. (e.1.id ≡ codes "s-3") ⊎ ((5 ≤ e.1.created) ⊎ IsNotOver e.1))
            (tasks_after 5 false outcome ending manager))
finish_task_lem_example = finish_task_lem 5 false outcome ending manager

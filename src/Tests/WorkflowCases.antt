-- ===== src/Tests/WorkflowCases.antt =====
-- Workflows of tools that succeed and fail.
use chango_assistant.Base.{
  List, Text, [], codes, decimal, false, if◌then◌else◌, refl, text_eq, true, ℕ, ◌∷◌, ◌≡◌,
}
use chango_assistant.Providers.Types.{end_fields}
use chango_assistant.Tools.Result.{ToolResult, error_result, new_tool_result}
use chango_assistant.Tools.Workflow.{
  Env, Workflow, WorkflowStep, abort_policy, attempts, execute_step, retry_policy, running_status,
  skip_policy, wf_truncate,
}
use chango_assistant.Tools.WorkflowRuns.{
  missing, put_workflow, run_steps, run_workflow, save_workflow,
}

abbrev step : Text → Text → WorkflowStep
step tool on_fail = record { tool = tool; args = end_fields; on_fail = on_fail; label = tool }

-- A tool succeeds if its name is `good`.
abbrev outcome : Text → ToolResult
outcome tool =
    if text_eq tool (codes "good")
    then new_tool_result (codes "done")
    else error_result (codes "no")

abbrev env : Env ℕ
env = record {
  execute = λ tool args w. (outcome tool, w);
  cancelled = λ w. false;
  backoff = λ k w. (false, w);
  elapsed = λ v w. codes "1s";
}

abbrev good_steps : List WorkflowStep
good_steps = step (codes "good") abort_policy ∷ step (codes "bad") skip_policy ∷ []

abbrev run : List WorkflowStep → Workflow
run steps = (run_workflow env (codes "w") steps (codes "1") (codes "2") true true missing 0).0

abbrev retried : List WorkflowStep
retried = step (codes "bad") retry_policy ∷ step (codes "good") skip_policy ∷ []

retried_status : (run retried).status ≡ running_status
unfolding run_workflow run_steps execute_step attempts text_eq wf_truncate new_tool_result
    error_result save_workflow put_workflow decimal
retried_status = refl

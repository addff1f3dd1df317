-- ===== src/Tools/Workflow.antt =====
-- pkg/tools/workflow.go: steps that are run one after another, with retries, and the file of the last
-- workflows. The texts of the summaries are left out, but for the workflow that they describe.
use chango_assistant.Base.{
  Bool, List, Option, Text, [], codes, decimal, false, if◌then◌else◌, inl, inr, leb, length, none,
  not, some, suc, take, text_eq, zero, ℕ, ◌++◌, ◌+◌, ◌-◌, ◌||◌, ◌∷◌, ◌⊎◌,
}
use chango_assistant.Providers.Types.{
  Fields, Value, Values, array, boolean, end_fields, end_values, null, number, object, text, value,
}
use chango_assistant.Tools.Args.{find_arg, text_arg}
use chango_assistant.Tools.Result.{ToolResult}

pub record WorkflowStep : Type 0 where
  pub tool : Text
  pub args : Fields
  pub on_fail : Text
  pub label : Text

pub record StepResult : Type 0 where
  pub step_index : ℕ
  pub tool : Text
  pub status : Text
  pub output : Text
  pub error : Text
  pub duration : Text

pub record Workflow : Type 0 where
  pub name : Text
  pub steps : List WorkflowStep
  pub results : List StepResult
  pub status : Text
  pub started_at : Text
  pub ended_at : Text
  pub error : Text

abbrev pub max_workflows : ℕ
max_workflows = 20

abbrev pub abort_policy : Text
abort_policy = codes "abort"

abbrev pub retry_policy : Text
retry_policy = codes "retry"

abbrev pub skip_policy : Text
skip_policy = codes "skip"

abbrev pub success_status : Text
success_status = codes "success"

abbrev pub failed_status : Text
failed_status = codes "failed"

abbrev pub skipped_status : Text
skipped_status = codes "skipped"

abbrev pub running_status : Text
running_status = codes "running"

abbrev pub completed_status : Text
completed_status = codes "completed"

abbrev pub aborted_status : Text
aborted_status = codes "aborted"

-- What a run meets: the tools behind `registry.Execute` with a deadline of 120 seconds, whether the
-- context is done, the wait before a retry (and whether the context ended in it), and the printed
-- time between two moments.
pub record Env (W : Type 0) : Type 0 where
  pub execute : Text → Fields → W → ToolResult × W
  pub cancelled : W → Bool
  pub backoff : ℕ → W → Bool × W
  pub elapsed : W → W → Text

-- `wfTruncate`, at a limit of three bytes or more.
unfoldable pub wf_truncate : Text → ℕ → Text
wf_truncate s max_len = if leb (length s) max_len then s else take (max_len - 3) s ++ codes "..."

-- The wait at the top of an attempt: none before the first one.
abbrev pub wait_turn : {W : Type 0} → Env W → ℕ → W → Bool × W
wait_turn env zero w = (false, w)
wait_turn env (suc k) w = env.backoff k w

abbrev pub cancelled_result : ℕ → WorkflowStep → StepResult
cancelled_result index step = record {
  step_index = index;
  tool = step.tool;
  status = failed_status;
  output = [];
  error = codes "cancelled during retry backoff";
  duration = codes "0s";
}

-- All attempts are used up.
abbrev pub exhausted_result : ℕ → WorkflowStep → Text → StepResult
exhausted_result index step last_err = record {
  step_index = index;
  tool = step.tool;
  status = if text_eq step.on_fail skip_policy then skipped_status else failed_status;
  output = [];
  error = last_err;
  duration = codes "0s";
}

abbrev pub success_result : ℕ → WorkflowStep → Text → Text → StepResult
success_result index step output duration = record {
  step_index = index;
  tool = step.tool;
  status = success_status;
  output = output;
  error = [];
  duration = duration;
}

module _ {W : Type 0} (env : Env W) (index : ℕ) (step : WorkflowStep) where
  -- The attempts that are left, after `done` of them.
  unfoldable pub attempts : ℕ → ℕ → Text → W → StepResult × W
  unfolding wf_truncate text_eq
  attempts zero done last_err w = (exhausted_result index step last_err, w)
  attempts (suc left) done last_err w =
      let (stopped, w1) = wait_turn env done w in
      let (r, w2) = env.execute step.tool step.args w1 in
      let again = attempts left (suc done) r.for_llm w2 in
      if stopped
      then (cancelled_result index step, w1)
      else if not r.is_error
      then (success_result index step (wf_truncate r.for_llm 500) (env.elapsed w1 w2), w2)
      else again

  abbrev pub max_attempts : ℕ
  max_attempts = if text_eq step.on_fail retry_policy then 3 else 1

  -- `executeStep`.
  unfoldable pub execute_step : W → StepResult × W
  unfolding attempts text_eq
  execute_step w = attempts max_attempts 0 [] w

abbrev pub step_error : ℕ → Text → Text
step_error i what = codes "step " ++ (decimal i ++ (codes ": " ++ what))

abbrev pub or_text : Text → Text → Text
or_text [] d = d
or_text (c ∷ s) d = c ∷ s

abbrev fields_of : Option Value → Fields
fields_of none = end_fields
fields_of (some (object fs)) = fs
fields_of (some null) = end_fields
fields_of (some (boolean b)) = end_fields
fields_of (some (number n)) = end_fields
fields_of (some (text t)) = end_fields
fields_of (some (array vs)) = end_fields

abbrev known_policy : Text → Bool
known_policy p = text_eq p abort_policy || (text_eq p retry_policy || text_eq p skip_policy)

-- One step of the array, at index `i`.
unfoldable pub parse_object : ℕ → Fields → Text ⊎ WorkflowStep
unfolding text_arg text_eq decimal
parse_object i fs =
    let tool = text_arg (codes "tool") fs in
    let on_fail = or_text (text_arg (codes "on_fail") fs) abort_policy in
    if text_eq tool []
    then inl (step_error i (codes "tool name is required"))
    else if text_eq tool (codes "workflow")
    then inl (step_error i (codes "cannot call workflow from within a workflow"))
    else if not (known_policy on_fail)
    then inl (step_error i (codes "on_fail must be abort, retry, or skip"))
    else inr (record {
      tool = tool;
      args = fields_of (find_arg (codes "args") fs);
      on_fail = on_fail;
      label =
          or_text (text_arg (codes "label") fs)
            (codes "Step " ++ (decimal (i + 1) ++ (codes ": " ++ tool)));
    })

abbrev pub parse_step : ℕ → Value → Text ⊎ WorkflowStep
parse_step i (object fs) = parse_object i fs
parse_step i null = inl (step_error i (codes "invalid format, expected object"))
parse_step i (boolean b) = inl (step_error i (codes "invalid format, expected object"))
parse_step i (number n) = inl (step_error i (codes "invalid format, expected object"))
parse_step i (text t) = inl (step_error i (codes "invalid format, expected object"))
parse_step i (array vs) = inl (step_error i (codes "invalid format, expected object"))

abbrev pub add_step : Text ⊎ WorkflowStep → Text ⊎ List WorkflowStep → Text ⊎ List WorkflowStep
add_step (inl e) rest = inl e
add_step (inr s) (inl e) = inl e
add_step (inr s) (inr ss) = inr (s ∷ ss)

-- The loop over the array of steps.
unfoldable pub parse_steps : ℕ → Values → Text ⊎ List WorkflowStep
unfolding parse_object decimal
parse_steps i end_values = inr []
parse_steps i (value v vs) = add_step (parse_step i v) (parse_steps (suc i) vs)

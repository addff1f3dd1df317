-- ===== src/Tools/WorkflowRuns.antt =====
-- The rest of pkg/tools/workflow.go: `create`, which runs the steps, the file of workflows, and the
-- search for one by its name.
use chango_assistant.Base.{
  Bool, List, Option, Text, [], codes, decimal, drop, false, if◌then◌else◌, inl, inr, length, ltb,
  none, not, some, suc, text_eq, true, ℕ, ◌&&◌, ◌++◌, ◌-◌, ◌∷◌, ◌⊎◌,
}
use chango_assistant.Providers.Types.{Fields, Values, end_values, value}
use chango_assistant.Tools.Args.{array_of, find_arg, text_arg}
use chango_assistant.Tools.Workflow.{
  Env, StepResult, Workflow, WorkflowStep, abort_policy, aborted_status, completed_status,
  execute_step, failed_status, max_workflows, parse_steps, running_status,
}

pub data WorkflowsFile : Type 0 where
  missing unreadable malformed : WorkflowsFile
  holds : List Workflow → WorkflowsFile

-- `loadWorkflows`; `none` is its error.
abbrev pub load_workflows : WorkflowsFile → Option (List Workflow)
load_workflows missing = some []
load_workflows unreadable = none
load_workflows malformed = none
load_workflows (holds wfs) = some wfs

abbrev pub or_nil : Option (List Workflow) → List Workflow
or_nil none = []
or_nil (some wfs) = wfs

abbrev pub same_run : Workflow → Workflow → Bool
same_run a b = text_eq a.name b.name && text_eq a.started_at b.started_at

-- The loop of `saveWorkflow`, and the append where it finds nothing.
unfoldable pub put_workflow : Workflow → List Workflow → List Workflow
unfolding text_eq
put_workflow wf [] = wf ∷ []
put_workflow wf (e ∷ es) = if same_run e wf then wf ∷ es else e ∷ put_workflow wf es

abbrev pub last_workflows : List Workflow → List Workflow
last_workflows wfs =
    if ltb max_workflows (length wfs) then drop (length wfs - max_workflows) wfs else wfs

-- `saveWorkflow`; `ok` says whether the file is written and renamed.
unfoldable pub save_workflow : Bool → Workflow → WorkflowsFile → WorkflowsFile
unfolding put_workflow
save_workflow ok wf file =
    if ok then holds (last_workflows (put_workflow wf (or_nil (load_workflows file)))) else file

-- The search of `status`, from the newest to the oldest.
unfoldable pub find_newest : Text → List Workflow → Option Workflow
unfolding text_eq
find_newest name [] = none
find_newest name (wf ∷ wfs) = elim (find_newest name wfs) [
  | some found ↦ some found
  | none ↦ if text_eq wf.name name then some wf else none
]

-- The workflow while its steps run, whether all have succeeded, and the world.
abbrev pub Progress : Type 0 → Type 0
Progress W = Workflow × Bool × W

abbrev pub add_result : StepResult → Workflow → Workflow
add_result r wf = record wf { results = wf.results ++ r ∷ [] }

abbrev pub is_failed : StepResult → Bool
is_failed r = text_eq r.status failed_status

abbrev pub failure_text : ℕ → WorkflowStep → StepResult → Text
failure_text i step r =
    codes "step " ++ (decimal i ++ (codes " (" ++ (step.label ++ (codes ") failed: " ++ r.error))))

module _ {W : Type 0} (env : Env W) where
  -- The loop of `create` over the steps.
  unfoldable pub run_steps : ℕ → List WorkflowStep → Progress W → Progress W
  unfolding execute_step text_eq decimal
  run_steps i [] (wf, ok, w) = (wf, ok, w)
  run_steps i (step ∷ steps) (wf, ok, w) =
      let (r, w') = execute_step env i step w in
      let wf' = add_result r wf in
      let rest = run_steps (suc i) steps (wf', ok && not (is_failed r), w') in
      if is_failed r && text_eq step.on_fail abort_policy
      then (record wf' { status = failed_status; error = failure_text i step r }, false, w')
      else if env.cancelled w'
      then (
        record wf' { status = aborted_status; error = codes "workflow cancelled: context done" },
        false,
        w',
      )
      else rest

  abbrev pub started : Text → List WorkflowStep → Text → Workflow
  started name steps now = record {
    name = name;
    steps = steps;
    results = [];
    status = running_status;
    started_at = now;
    ended_at = [];
    error = [];
  }

  -- The status after the loop.
  abbrev pub finish : Text → Progress W → Workflow × W
  finish now (wf, ok, w) = (
    record wf {
      status = if ok && text_eq wf.status running_status then completed_status else wf.status;
      ended_at = now;
    },
    w,
  )

  -- What a call of `create` ends with: a refusal of its arguments, or the workflow that it ran, with
  -- the file and the world after it.
  abbrev pub Created : Type 0
  Created = Text ⊎ (Workflow × WorkflowsFile × W)

  -- `create` with steps that parse; the clock is read at the start and at the end, and the file is
  -- written twice.
  unfoldable pub run_workflow :
      Text
      → List WorkflowStep
      → Text
      → Text
      → Bool
      → Bool
      → WorkflowsFile
      → W
      → Workflow × WorkflowsFile × W
  unfolding run_steps save_workflow text_eq
  run_workflow name steps now now' ok ok' file w =
      let first = save_workflow ok (started name steps now) file in
      let (wf, w') = finish now' (run_steps 0 steps (started name steps now, true, w)) in
      (wf, save_workflow ok' wf first, w')

  abbrev no_values : Values → Bool
  no_values end_values = true
  no_values (value v vs) = false

  abbrev run_parsed :
      Text → Text → Text → Bool → Bool → WorkflowsFile → W → Text ⊎ List WorkflowStep → Created
  run_parsed name now now' ok ok' file w (inl e) = inl e
  run_parsed name now now' ok ok' file w (inr steps) =
      inr (run_workflow name steps now now' ok ok' file w)

  abbrev steps_required : Text
  steps_required = codes "steps array is required for create (at least 1 step)"

  -- `create`.
  unfoldable pub create : Fields → Text → Text → Bool → Bool → WorkflowsFile → W → Created
  unfolding text_arg parse_steps run_workflow text_eq
  create args now now' ok ok' file w =
      let name = text_arg (codes "name") args in
      if text_eq name []
      then inl (codes "name is required for create")
      else elim (array_of (find_arg (codes "steps") args)) [
        | none ↦ inl steps_required
        | some vs ↦
            if no_values vs
            then inl steps_required
            else run_parsed name now now' ok ok' file w (parse_steps 0 vs)
      ]

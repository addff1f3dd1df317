-- ===== src/Tools/WorkflowOutcome.antt =====
-- How a workflow of pkg/tools/workflow.go ends.
use chango_assistant.Base.{
  All, Bool, Bool-cases, List, Text, [], any, arith, false, if_both, inl, inr, length, not, refl,
  suc, text_eq, text_eq-ne, text_eq_refl, text_ne, true, ℕ, ◌∷◌, ◌≡◌, ◌≢◌, ◌⊎◌,
}
use chango_assistant.Tools.Workflow.{
  Env, StepResult, Workflow, WorkflowStep, abort_policy, aborted_status, attempts, completed_status,
  execute_step, failed_status, running_status, skip_policy,
}
use chango_assistant.Tools.WorkflowRuns.{
  Progress, WorkflowsFile, finish, is_failed, run_steps, run_workflow, started,
}

abbrev pub IsFine : StepResult → Type 0
IsFine r = is_failed r ≡ false

failed-ne-running : failed_status ≢ running_status
failed-ne-running z = cc z

aborted-ne-running : aborted_status ≢ running_status
unfolding text_eq
aborted-ne-running = text_ne aborted_status running_status refl

completed-ne-running : completed_status ≢ running_status
completed-ne-running z = cc z

module _ {W : Type 0} (env : Env W) where
  -- What the flag of the loop means: every one of the `n` steps ran and none failed.
  abbrev RunEnd : ℕ → Progress W → Type 0
  RunEnd n (wf, ok, w) =
      (ok ≡ true → All IsFine wf.results × (length wf.results ≡ n) × (wf.status ≡ running_status))
      × (wf.status ≢ completed_status)

  abbrev NeverRetries : WorkflowStep → Type 0
  NeverRetries s = (s.on_fail ≡ abort_policy) ⊎ (s.on_fail ≡ skip_policy)

  -- A step that is skipped on failure is never reported as failed.
  execute_step-skip :
      (i : ℕ) (s : WorkflowStep) (w : W)
      → s.on_fail ≡ skip_policy
      → is_failed (execute_step env i s w).0 ≡ false
  unfolding execute_step attempts text_eq
  execute_step-skip i s w h = rw h (ground arith)

  -- The loop goes on without a failure, or has left the workflow failed or aborted.
  abbrev HasEnded : Progress W → Type 0
  HasEnded (wf, ok, w) = (ok ≡ true × (wf.status ≡ running_status)) ⊎ (wf.status ≢ running_status)

  run_steps-HasEnded :
      (i : ℕ) (steps : List WorkflowStep) (wf : Workflow) (w : W)
      → wf.status ≡ running_status
      → All NeverRetries steps
      → HasEnded (run_steps env i steps (wf, true, w))
  unfolding run_steps text_eq
  run_steps-HasEnded i [] wf w running h = inl (refl, running)
  run_steps-HasEnded i (step ∷ steps) wf w running (inl abort, rest) =
      elim (Bool-cases (is_failed (execute_step env i step w).0)) [
        | inl bad ↦ rw (bad, abort) (inr failed-ne-running)
        | inr good ↦ rw (good) (
            if_both HasEnded (env.cancelled (execute_step env i step w).1) _ _
              (inr aborted-ne-running) (run_steps-HasEnded (suc i) steps _ _ running rest))
      ]
  run_steps-HasEnded i (step ∷ steps) wf w running (inr skip, rest) =
      rw (execute_step-skip i step w skip) (
        if_both HasEnded (env.cancelled (execute_step env i step w).1) _ _ (inr aborted-ne-running)
          (run_steps-HasEnded (suc i) steps _ _ running rest))

  finish-ended :
      (now : Text) (p : Progress W) → HasEnded p → (finish env now p).0.status ≢ running_status
  finish-ended now (wf, true, w) (inl (_, running)) =
      rw (running, text_eq_refl running_status) completed-ne-running
  finish-ended now (wf, false, w) (inl (bad, running)) = absurd (cc)
  finish-ended now (wf, true, w) (inr e) = rw (text_eq-ne wf.status running_status e) e
  finish-ended now (wf, false, w) (inr e) = e

  -- A workflow whose steps abort or are skipped on failure does not stay in the status that it has
  -- while it runs.
  run_workflow-ends :
      (name : Text) (steps : List WorkflowStep) (now now' : Text) (ok ok' : Bool)
      (file : WorkflowsFile) (w : W)
      → All NeverRetries steps
      → (run_workflow env name steps now now' ok ok' file w).0.status ≢ running_status
  unfolding run_workflow
  run_workflow-ends name steps now now' ok ok' file w h =
      finish-ended now' (run_steps env 0 steps (started env name steps now, true, w))
        (run_steps-HasEnded 0 steps (started env name steps now) w refl h)

  abbrev Flag : Progress W → Type 0
  Flag (wf, ok, w) = (wf.status ≡ running_status) × (ok ≡ not (any is_failed wf.results))

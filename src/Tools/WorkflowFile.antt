-- ===== src/Tools/WorkflowFile.antt =====
-- What the file of workflows of pkg/tools/workflow.go holds.
use chango_assistant.Base.{
  All, All-drop, Bool, Bool-cases, List, Text, [], ap, arith, drop, false, if_both, inl, inr,
  length, length-append, length-drop, ltb, refl, some, subst, suc, sym, text_eq, text_eq_refl, true,
  zero, ℕ, ◌&&◌, ◌++◌, ◌-◌, ◌∙◌, ◌∷◌, ◌≡◌, ◌≤◌,
}
use chango_assistant.Tools.Workflow.{
  Env, StepResult, Workflow, WorkflowStep, abort_policy, execute_step, max_workflows,
}
use chango_assistant.Tools.WorkflowRuns.{
  Progress, WorkflowsFile, add_result, find_newest, holds, is_failed, last_workflows,
  load_workflows, malformed, missing, or_nil, put_workflow, run_steps, run_workflow, same_run,
  save_workflow, started, unreadable,
}

last_workflows-le : (wfs : List Workflow) → length (last_workflows wfs) ≤ max_workflows
last_workflows-le wfs = elim (Bool-cases (ltb max_workflows (length wfs))) [
  | inl e ↦ rw e (omega (arith, length-drop (length wfs - max_workflows) wfs))
  | inr e ↦ rw e (ground arith)
]

-- The workflows that a file holds for a reader.
abbrev pub readable : WorkflowsFile → List Workflow
readable missing = []
readable unreadable = []
readable malformed = []
readable (holds wfs) = wfs

find_newest-snoc :
    (wf : Workflow) (wfs : List Workflow) → find_newest wf.name (wfs ++ wf ∷ []) ≡ some wf
unfolding find_newest
find_newest-snoc wf [] = rw (text_eq_refl wf.name) refl
find_newest-snoc wf (e ∷ es) = rw (find_newest-snoc wf es) refl

find_newest-drop :
    (name : Text) (wf : Workflow) (n : ℕ) (wfs : List Workflow)
    → find_newest name (drop n wfs) ≡ some wf
    → find_newest name wfs ≡ some wf
unfolding find_newest
find_newest-drop name wf zero wfs h = h
find_newest-drop name wf (suc n) [] h = h
find_newest-drop name wf (suc n) (e ∷ es) h = rw (find_newest-drop name wf n es h) refl

put_workflow-new :
    (wf : Workflow) (wfs : List Workflow)
    → All (λ e. same_run e wf ≡ false) wfs
    → put_workflow wf wfs ≡ wfs ++ wf ∷ []
unfolding put_workflow
put_workflow-new wf [] h = refl
put_workflow-new wf (e ∷ es) h = rw (h.0, put_workflow-new wf es h.1) refl

drop-snoc {ℓ} :
    {A : Type ℓ} (n : ℕ) (xs : List A) (x : A)
    → n ≤ length xs
    → drop n (xs ++ x ∷ []) ≡ drop n xs ++ x ∷ []
drop-snoc zero xs x h = refl
drop-snoc (suc n) [] x h = absurd (omega arith)
drop-snoc (suc n) (y ∷ xs) x h = drop-snoc n xs x (omega arith)

last_workflows-snoc :
    (P : Workflow → Type 0) (wfs : List Workflow) (wf : Workflow)
    → All P wfs
    → (kept : List Workflow) × (last_workflows (wfs ++ wf ∷ []) ≡ kept ++ wf ∷ []) × All P kept
last_workflows-snoc P wfs wf h =
    let n = length (wfs ++ wf ∷ []) - max_workflows in
    elim (Bool-cases (ltb max_workflows (length (wfs ++ wf ∷ [])))) [
      | inl e ↦ (
        drop n wfs,
        rw e (drop-snoc n wfs wf (omega (arith, length-append wfs (wf ∷ [])))),
        All-drop P n wfs h,
      )
      | inr e ↦ (wfs, rw e refl, h)
    ]

put_workflow-last :
    (wf e : Workflow) (wfs : List Workflow)
    → All (λ f. same_run f wf ≡ false) wfs
    → same_run e wf ≡ true
    → put_workflow wf (wfs ++ e ∷ []) ≡ wfs ++ wf ∷ []
unfolding put_workflow
put_workflow-last wf e [] h same = rw same refl
put_workflow-last wf e (f ∷ fs) h same = rw (h.0, put_workflow-last wf e fs h.1 same) refl

last_workflows-few : (wfs : List Workflow) → length wfs ≤ max_workflows → last_workflows wfs ≡ wfs
last_workflows-few wfs h = ground arith

-- The list after both writes of a run that it did not hold.
written_twice :
    (first last : Workflow) (wfs : List Workflow)
    → All (λ e. same_run e first ≡ false) wfs
    → first.name ≡ last.name
    → first.started_at ≡ last.started_at
    → (kept : List Workflow) × (last_workflows
          (put_workflow last (last_workflows (put_workflow first wfs)))
        ≡ kept ++ last ∷ [])
      × (length (kept ++ last ∷ []) ≤ max_workflows)
written_twice first last wfs fresh name start =
    let named =
      subst (λ n. All (λ e. text_eq e.name n && text_eq e.started_at first.started_at ≡ false) wfs)
        name fresh in
    let other =
      subst (λ s. All (λ e. text_eq e.name last.name && text_eq e.started_at s ≡ false) wfs) start
        named in
    let (kept, cut, apart) = last_workflows-snoc (λ e. same_run e last ≡ false) wfs first other in
    let same : same_run first last ≡ true =
      rw (name, start, text_eq_refl last.name, text_eq_refl last.started_at) refl in
    let few : length (kept ++ last ∷ []) ≤ max_workflows = omega (
      arith,
      last_workflows-le (wfs ++ first ∷ []),
      ap length cut,
      length-append kept (first ∷ []),
      length-append kept (last ∷ []),
    ) in
    (
      kept,
      rw (put_workflow-new first wfs fresh, cut, put_workflow-last last first kept apart same)
          (last_workflows-few (kept ++ last ∷ []) few),
      few,
    )

-- A file with no run of this name and start, after both writes of the run.
saved_twice :
    (first last : Workflow) (file : WorkflowsFile)
    → All (λ e. same_run e first ≡ false) (readable file)
    → first.name ≡ last.name
    → first.started_at ≡ last.started_at
    → let file' = save_workflow true last (save_workflow true first file) in
      (find_newest last.name (readable file') ≡ some last)
      × (length (readable file') ≤ max_workflows)
unfolding save_workflow
saved_twice first last file fresh name start =
    let (kept, e, few) = written_twice first last (readable file) fresh name start in
    subst (λ l. (find_newest last.name l ≡ some last) × (length l ≤ max_workflows))
      (sym e
        ∙ ap (λ l. last_workflows (put_workflow last (last_workflows (put_workflow first l))))
            (readable-load file))
      (find_newest-snoc last kept, few)
  where
    readable-load : (f : WorkflowsFile) → readable f ≡ or_nil (load_workflows f)
    readable-load missing = refl
    readable-load unreadable = refl
    readable-load malformed = refl
    readable-load (holds wfs) = refl

module _ {W : Type 0} (env : Env W) where
  run_steps-identity :
      (i : ℕ) (steps : List WorkflowStep) (wf : Workflow) (ok : Bool) (w : W)
      → let wf' = (run_steps env i steps (wf, ok, w)).0 in
        (wf.name ≡ wf'.name) × (wf.started_at ≡ wf'.started_at)
  unfolding run_steps
  run_steps-identity i [] wf ok w = (refl, refl)
  run_steps-identity i (step ∷ steps) wf ok w =
      if_both {A = Progress W} (λ p. (wf.name ≡ p.0.name) × (wf.started_at ≡ p.0.started_at))
        (is_failed r && text_eq step.on_fail abort_policy) _ _ (refl, refl)
        (if_both {A = Progress W} (λ p. (wf.name ≡ p.0.name) × (wf.started_at ≡ p.0.started_at))
          (env.cancelled w') _ _ (refl, refl)
          (run_steps-identity (suc i) steps (add_result r wf) _ w'))
    where
      r : StepResult
      r = (execute_step env i step w).0

      w' : W
      w' = (execute_step env i step w).1

  -- If no run of the same name began at the same time and both writes succeed, then after `create` the
  -- search of `status` finds the workflow as it ended, and the file holds at most twenty.
  run_workflow-found :
      (name : Text) (steps : List WorkflowStep) (now now' : Text) (file : WorkflowsFile) (w : W)
      → All (λ e. same_run e (started env name steps now) ≡ false) (readable file)
      → let (wf, file', w') = run_workflow env name steps now now' true true file w in
        (find_newest name (readable file') ≡ some wf) × (length (readable file') ≤ max_workflows)
  unfolding run_workflow
  run_workflow-found name steps now now' file w fresh =
      let (same, start) = run_steps-identity 0 steps (started env name steps now) true w in
      let (found, few) = saved_twice (started env name steps now) _ file fresh same start in
      (
        ap (λ n. find_newest n (readable (run_workflow env name steps now now' true true file w).1))
              same
            ∙ found,
        few,
      )

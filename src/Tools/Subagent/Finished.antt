-- ===== src/Tools/Subagent/Finished.antt =====
-- What the end of a subagent of pkg/tools/subagent.go does to the table of tasks.
use chango_assistant.Base.{
  All, All-mono, Bool, Bool-cases, List, Text, [], ap, arith, codes, false, if_both, if_cases,
  if_false, if_true, inl, inr, insert, keep, lookup, lookup-insert, lookup-insert_self, not, refl,
  some, subst, sym, text_eq, text_eq-ne, text_eq_iff, text_eq_refl, text_eq→eq, true, ℕ, ◌++◌, ◌∙◌,
  ◌∷◌, ◌≡◌, ◌≢◌, ◌≤◌, ◌⊎◌,
}
use chango_assistant.Tools.Loop.{ToolLoopResult}
use chango_assistant.Tools.Subagent.Manager.{SubagentManager, SubagentTask}
use chango_assistant.Tools.Subagent.Runs.{finish_task, is_old, is_over, settled}
use chango_assistant.Tools.TaskList.{some_inj}

-- An entry that stays is found as before.
lookup-keep :
    (p : Text × SubagentTask → Bool) (j : Text) (t : SubagentTask)
    (tasks : List (Text × SubagentTask))
    → ((k : Text) → p (k, t) ≡ true)
    → lookup j tasks ≡ some t
    → lookup j (keep p tasks) ≡ some t
lookup-keep p j t [] stays h = h
lookup-keep p j t ((k, u) ∷ tasks) stays h = elim (Bool-cases (text_eq k j)) [
  | inl e ↦
      let same : u ≡ t = some_inj (sym (if_true (text_eq k j) (some u) (lookup j tasks) e) ∙ h) in
      let stays' : p (k, u) ≡ true = subst (λ v. p (k, v) ≡ true) (sym same) (stays k) in
      rw (stays', e) (ap (λ v. some v) same)
  | inr e ↦
      let rest : lookup j tasks ≡ some t =
        sym (if_false (text_eq k j) (some u) (lookup j tasks) e) ∙ h in
      if_both (λ ts. lookup j ts ≡ some t) (p (k, u)) ((k, u) ∷ keep p tasks) (keep p tasks)
        (rw e (lookup-keep p j t tasks stays rest)) (lookup-keep p j t tasks stays rest)
]

kept_only :
    (p : Text × SubagentTask → Bool) (tasks : List (Text × SubagentTask))
    → All (λ e. p e ≡ true) (keep p tasks)
kept_only p [] = tt
kept_only p (e ∷ tasks) =
    if_cases (All (λ x. p x ≡ true)) (p e) (e ∷ keep p tasks) (keep p tasks)
      (λ h. (h, kept_only p tasks)) (λ h. kept_only p tasks)

-- What becomes of a task when its loop ends.
abbrev pub IsSettled : Bool → Text ⊎ ToolLoopResult → SubagentTask → SubagentTask → Type 0
IsSettled true (inl e) task t =
    (t.status ≡ codes "cancelled")
    × (t.result ≡ codes "Task cancelled during execution")
    × (t.id ≡ task.id)
    × (t.task ≡ task.task)
    × (t.created ≡ task.created)
IsSettled false (inl e) task t =
    (t.status ≡ codes "failed")
    × (t.result ≡ codes "Error: " ++ e)
    × (t.id ≡ task.id)
    × (t.task ≡ task.task)
    × (t.created ≡ task.created)
IsSettled b (inr r) task t =
    (t.status ≡ codes "completed")
    × (t.result ≡ r.content)
    × (t.id ≡ task.id)
    × (t.task ≡ task.task)
    × (t.created ≡ task.created)

-- The task is neither completed nor failed nor cancelled.
abbrev pub IsNotOver : SubagentTask → Type 0
IsNotOver t =
    (t.status ≢ codes "completed") × (t.status ≢ codes "failed") × (t.status ≢ codes "cancelled")

running-is_over : (t : SubagentTask) → t.status ≡ codes "running" → is_over t ≡ false
unfolding text_eq
running-is_over t h = rw h refl

is_over-IsNotOver : (t : SubagentTask) → is_over t ≡ false → IsNotOver t
is_over-IsNotOver t h = (
  λ e. absurd (ground (arith, h, text_eq_iff t.status (codes "completed"), e)),
  λ e. absurd (ground (arith, h, text_eq_iff t.status (codes "failed"), e)),
  λ e. absurd (ground (arith, h, text_eq_iff t.status (codes "cancelled"), e)),
)

-- A task that the pruning keeps is the one that ended, or young, or not over.
kept-reason :
    (id : Text) (cutoff : ℕ) (e : Text × SubagentTask)
    → not (is_old id cutoff e) ≡ true
    → (e.1.id ≡ id) ⊎ ((cutoff ≤ e.1.created) ⊎ IsNotOver e.1)
unfolding is_old
kept-reason id cutoff e h = elim (Bool-cases (text_eq e.1.id id)) [
  | inl same ↦ inl (text_eq→eq e.1.id id same)
  | inr other ↦ inr (elim (Bool-cases (is_over e.1)) [
    | inr running ↦ inr (is_over-IsNotOver e.1 running)
    | inl over ↦ inl (ground (arith, h, other, over))
  ])
]

module _ {W : Type 0} (cutoff : ℕ) (cancelled : Bool) (outcome : Text ⊎ ToolLoopResult)
    (task : SubagentTask) (sm : SubagentManager W) where
  abbrev pub tasks_after : List (Text × SubagentTask)
  unfolding finish_task
  tasks_after = (finish_task cutoff cancelled outcome task sm).1.tasks

  settled-same : (settled cancelled outcome task).id ≡ task.id
  unfolding settled
  settled-same = settled_id cancelled outcome
    where
      settled_id : (b : Bool) (o : Text ⊎ ToolLoopResult) → (settled b o task).id ≡ task.id
      settled_id true (inl e) = refl
      settled_id false (inl e) = refl
      settled_id b (inr r) = refl

  settled-IsSettled : IsSettled cancelled outcome task (settled cancelled outcome task)
  unfolding settled
  settled-IsSettled = by_outcome cancelled outcome
    where
      by_outcome : (b : Bool) (o : Text ⊎ ToolLoopResult) → IsSettled b o task (settled b o task)
      by_outcome true (inl e) = (refl, refl, refl, refl, refl)
      by_outcome false (inl e) = (refl, refl, refl, refl, refl)
      by_outcome b (inr r) = (refl, refl, refl, refl, refl)

  young-stays :
      (k : Text) (t : SubagentTask)
      → (t.status ≡ codes "running") ⊎ (cutoff ≤ t.created)
      → not (is_old task.id cutoff (k, t)) ≡ true
  unfolding is_old
  young-stays k t (inl running) = ground (arith, running-is_over t running)
  young-stays k t (inr young) = ground (arith, young)

  -- When a subagent ends, its task stands in the table as completed with the content of its answer, or
  -- as cancelled or failed with a text that says so, if its loop ended with an error. Every other task
  -- that is still running, or that was not created before the cutoff, is found as before. No other
  -- task stays that is completed, failed or cancelled and was created before the cutoff.
  pub finish_task_lem :
      ((t : SubagentTask) × (lookup task.id tasks_after ≡ some t)
        × IsSettled cancelled outcome task t)
      × (((j : Text) (t : SubagentTask)
            → j ≢ task.id
            → lookup j sm.tasks ≡ some t
            → (t.status ≡ codes "running") ⊎ (cutoff ≤ t.created)
            → lookup j tasks_after ≡ some t)
          × All (λ e. (e.1.id ≡ task.id) ⊎ ((cutoff ≤ e.1.created) ⊎ IsNotOver e.1)) tasks_after)
  unfolding finish_task is_old
  finish_task_lem =
      let done = settled cancelled outcome task in
      let p : Text × SubagentTask → Bool = λ e. not (is_old task.id cutoff e) in
      let table : List (Text × SubagentTask) = insert task.id done sm.tasks in
      (
        (
          done,
          lookup-keep p task.id done table
              (λ k. ground (arith, settled-same, text_eq_refl task.id, text_eq_iff done.id task.id))
              (lookup-insert_self task.id done sm.tasks),
          settled-IsSettled,
        ),
        (
          λ j t other found young.
              lookup-keep p j t table (λ k. young-stays k t young)
                (lookup-insert task.id j done sm.tasks
                  ∙ if_false (text_eq task.id j) (some done) (lookup j sm.tasks)
                      (text_eq-ne task.id j (λ e. other (sym e)))
                  ∙ found),
          All-mono (λ e. p e ≡ true)
              (λ e. (e.1.id ≡ task.id) ⊎ ((cutoff ≤ e.1.created) ⊎ IsNotOver e.1)) (keep p table)
              (λ e h. kept-reason task.id cutoff e h) (kept_only p table),
        ),
      )

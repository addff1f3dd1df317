-- ===== src/Tools/TaskList.antt =====
-- Lists of tasks of pkg/tools/tasks.go: what a new task, a change and a removal do to the searches by
-- identifier.
use chango_assistant.Base.{
  Bool, Bool-cases, List, Option, Text, [], ap, arith, false, if_both, if_false, if_true,
  if◌then◌else◌, inl, inr, keep, none, not, refl, some, sym, text_eq, text_eq_comm, text_eq_iff,
  true, ◌++◌, ◌∙◌, ◌∷◌, ◌≡◌,
}
use chango_assistant.Tools.TaskTexts.{find_task}
use chango_assistant.Tools.Tasks.{
  Task, TasksFile, holds, malformed, missing, unreadable, update_first,
}

-- The tasks that a file holds for a reader.
abbrev pub tasks_in : TasksFile → List Task
tasks_in missing = []
tasks_in (unreadable e) = []
tasks_in (malformed e) = []
tasks_in (holds tasks) = tasks

abbrev pub is_unreadable : TasksFile → Bool
is_unreadable missing = false
is_unreadable (unreadable e) = true
is_unreadable (malformed e) = false
is_unreadable (holds tasks) = false

-- No identifier stands twice.
abbrev pub UniqueIds : List Task → Type 0
UniqueIds [] = Unit
UniqueIds (task ∷ tasks) = (find_task task.id tasks ≡ none) × UniqueIds tasks

pub none_ne_some : {A : Type 0} {x : A} → none ≡ some x → ⊥
none_ne_some h = cc

pub find_task-snoc :
    (j : Text) (tasks : List Task) (task : Task)
    → text_eq task.id j ≡ false
    → find_task j (tasks ++ task ∷ []) ≡ find_task j tasks
unfolding find_task
find_task-snoc j [] task h = rw h refl
find_task-snoc j (t ∷ ts) task h = rw (find_task-snoc j ts task h) refl

pub find_task-snoc_none :
    (j : Text) (tasks : List Task) (task : Task)
    → find_task j tasks ≡ none
    → text_eq task.id j ≡ false
    → find_task j (tasks ++ task ∷ []) ≡ none
find_task-snoc_none j tasks task h e = find_task-snoc j tasks task e ∙ h

-- The first task does not have an identifier that is not found.
pub head_differs :
    (j : Text) (t : Task) (ts : List Task) → find_task j (t ∷ ts) ≡ none → text_eq t.id j ≡ false
unfolding find_task
head_differs j t ts h = elim (Bool-cases (text_eq t.id j)) [
  | inl e ↦ absurd (none_ne_some (sym h ∙ if_true (text_eq t.id j) (some t) (find_task j ts) e))
  | inr e ↦ e
]

pub tail_none :
    (j : Text) (t : Task) (ts : List Task) → find_task j (t ∷ ts) ≡ none → find_task j ts ≡ none
unfolding find_task
tail_none j t ts h =
    sym (if_false (text_eq t.id j) (some t) (find_task j ts) (head_differs j t ts h)) ∙ h

pub UniqueIds-snoc :
    (tasks : List Task) (task : Task)
    → find_task task.id tasks ≡ none
    → UniqueIds tasks
    → UniqueIds (tasks ++ task ∷ [])
UniqueIds-snoc [] task h u = (unfold find_task in refl, tt)
UniqueIds-snoc (t ∷ ts) task h u = (
  find_task-snoc_none t.id ts task u.0 (text_eq_comm task.id t.id ∙ head_differs task.id t ts h),
  UniqueIds-snoc ts task (tail_none task.id t ts h) u.1,
)

-- What a change of the tasks does to those with other identifiers.
abbrev pub ChangesOnly : Text → List Task → List Task → Type 0
ChangesOnly id tasks tasks' =
    ((j : Text) → text_eq id j ≡ false → find_task j tasks' ≡ find_task j tasks)
    × (UniqueIds tasks → UniqueIds tasks')

-- The list after `update_first`, where it finds a task.
abbrev pub updated : Text → (Task → Task) → List Task → List Task
updated id f [] = []
updated id f (t ∷ ts) = if text_eq t.id id then f t ∷ ts else t ∷ updated id f ts

pub some_inj : {A : Type 0} {x y : A} → some x ≡ some y → x ≡ y
some_inj h = cc

pub cons_found :
    (b : Bool) (o : Option (List Task)) (x : List Task) (t : Task) (u tasks' : List Task)
    → ((ts' : List Task) → o ≡ some ts' → ts' ≡ u)
    → (if b then some x else (elim o [ none ↦ none | some ts' ↦ some (t ∷ ts') ])) ≡ some tasks'
    → tasks' ≡ (if b then x else t ∷ u)
cons_found true o x t u tasks' ih h = sym (some_inj h)
cons_found false none x t u tasks' ih h = absurd (none_ne_some h)
cons_found false (some ts') x t u tasks' ih h = sym (some_inj h) ∙ ap (λ l. t ∷ l) (ih ts' refl)

pub update_first-updated :
    (id : Text) (f : Task → Task) (tasks tasks' : List Task)
    → update_first id f tasks ≡ some tasks'
    → tasks' ≡ updated id f tasks
unfolding update_first
update_first-updated id f [] tasks' h = absurd (none_ne_some h)
update_first-updated id f (t ∷ ts) tasks' h =
    cons_found (text_eq t.id id) (update_first id f ts) (f t ∷ ts) t (updated id f ts) tasks'
      (update_first-updated id f ts) h

module _ (id : Text) (f : Task → Task) (same : (task : Task) → (f task).id ≡ task.id) where
  pub updated-other :
      (j : Text) (tasks : List Task)
      → text_eq id j ≡ false
      → find_task j (updated id f tasks) ≡ find_task j tasks
  unfolding find_task
  updated-other j [] e = refl
  updated-other j (t ∷ ts) e = ground (arith, same t, text_eq_iff t.id id, updated-other j ts e)

  updated-none :
      (j : Text) (tasks : List Task)
      → find_task j tasks ≡ none
      → find_task j (updated id f tasks) ≡ none
  unfolding find_task
  updated-none j [] h = h
  updated-none j (t ∷ ts) h = ground (
    arith,
    same t,
    head_differs j t ts h,
    tail_none j t ts h,
    updated-none j ts (tail_none j t ts h),
  )

  pub updated-UniqueIds : (tasks : List Task) → UniqueIds tasks → UniqueIds (updated id f tasks)
  updated-UniqueIds [] u = tt
  updated-UniqueIds (t ∷ ts) u =
      if_both UniqueIds (text_eq t.id id) (f t ∷ ts) (t ∷ updated id f ts)
        (ap (λ k. find_task k ts) (same t) ∙ u.0, u.1)
        (updated-none t.id ts u.0, updated-UniqueIds ts u.1)

module _ (id : Text) where
  abbrev pub others : List Task → List Task
  others tasks = keep (λ t. not (text_eq t.id id)) tasks

  pub others-other :
      (j : Text) (tasks : List Task)
      → text_eq id j ≡ false
      → find_task j (others tasks) ≡ find_task j tasks
  unfolding find_task
  others-other j [] e = refl
  others-other j (t ∷ ts) e = ground (arith, text_eq_iff t.id id, others-other j ts e)

  others-none :
      (j : Text) (tasks : List Task) → find_task j tasks ≡ none → find_task j (others tasks) ≡ none
  unfolding find_task
  others-none j [] h = h
  others-none j (t ∷ ts) h =
      ground (arith, head_differs j t ts h, others-none j ts (tail_none j t ts h))

  pub others-UniqueIds : (tasks : List Task) → UniqueIds tasks → UniqueIds (others tasks)
  others-UniqueIds [] u = tt
  others-UniqueIds (t ∷ ts) u =
      if_both UniqueIds (not (text_eq t.id id)) (t ∷ others ts) (others ts)
        (others-none t.id ts u.0, others-UniqueIds ts u.1) (others-UniqueIds ts u.1)

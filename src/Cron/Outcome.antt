-- ===== src/Cron/Outcome.antt =====
-- What removing and executing leave of the jobs of pkg/cron/service.go.
use chango_assistant.Base.{
  Bool, Bool-cases, List, Option, Text, [], ap, arith, codes, false, if◌then◌else◌, inl, inr,
  is_some, length, ltb, none, refl, some, sym, text_eq, text_eq_iff, text_eq_refl, text_eq→eq, true,
  ◌&&◌, ◌∙◌, ◌∷◌, ◌≡◌, ◌≢◌, ◌≤◌, ◌⊎◌,
}
use chango_assistant.Cron.Execution.{Run, finish_job, settle}
use chango_assistant.Cron.Ids.{KeepsId}
use chango_assistant.Cron.Jobs.{find_job, modify_job, without_job}
use chango_assistant.Cron.Schedule.{Gronx, compute_next_run}
use chango_assistant.Cron.Service.{remove_job, save_store, with_jobs}
use chango_assistant.Cron.Steps.{settle-KeepsId}
use chango_assistant.Cron.Types.{CronJob, CronJobState, CronService, at_kind}

pub find_job-without_job_self :
    (id : Text) (js : List CronJob) → find_job id (without_job id js) ≡ none
unfolding find_job without_job
find_job-without_job_self id [] = refl
find_job-without_job_self id (j ∷ js) = ground (arith, find_job-without_job_self id js)

pub find_job-without_job_ne :
    (id other : Text) (js : List CronJob)
    → other ≢ id
    → find_job other (without_job id js) ≡ find_job other js
unfolding find_job without_job
find_job-without_job_ne id other [] h = refl
find_job-without_job_ne id other (j ∷ js) h =
    ground
      (arith, text_eq_iff j.id id, text_eq_iff j.id other, find_job-without_job_ne id other js h)

length-without_job-le : (id : Text) (js : List CronJob) → length (without_job id js) ≤ length js
unfolding without_job
length-without_job-le id [] = omega arith
length-without_job-le id (j ∷ js) = ground (arith, length-without_job-le id js)

-- The list becomes shorter exactly when the job is there.
removed-eq-found :
    (id : Text) (js : List CronJob)
    → ltb (length (without_job id js)) (length js) ≡ is_some (find_job id js)
unfolding find_job without_job
removed-eq-found id [] = refl
removed-eq-found id (j ∷ js) = ground (arith, removed-eq-found id js, length-without_job-le id js)

remove_job-jobs :
    (ok : Bool) (id : Text) (cs : CronService)
    → (remove_job ok id cs).0.store.jobs ≡ without_job id cs.store.jobs
unfolding remove_job
remove_job-jobs true id cs = ground arith
remove_job-jobs false id cs = ground arith

find_job-without_job :
    (id other : Text) (js : List CronJob)
    → find_job other (without_job id js) ≡ (if text_eq other id then none else find_job other js)
find_job-without_job id other js = elim (Bool-cases (text_eq other id)) [
  | inl e ↦ rw (e, text_eq→eq other id e) (find_job-without_job_self id js)
  | inr e ↦ rw e (
      find_job-without_job_ne id other js
        (λ z. absurd (cc (e, ap (text_eq other) (sym z), text_eq_refl other))))
]

-- `RemoveJob` reports whether the job was there; afterwards it is gone, and every other job is found
-- as before.
remove_job_lem :
    (ok : Bool) (id other : Text) (cs : CronService)
    → let (cs', removed) = remove_job ok id cs in
      (removed ≡ is_some (find_job id cs.store.jobs))
      × (find_job other cs'.store.jobs
          ≡ (if text_eq other id then none else find_job other cs.store.jobs))
remove_job_lem ok id other cs = (
  unfold remove_job in removed-eq-found id cs.store.jobs,
  ap (find_job other) (remove_job-jobs ok id cs) ∙ find_job-without_job id other cs.store.jobs,
)

pub find_job-modify_job :
    (id : Text) (f : CronJob → CronJob) (js : List CronJob) (j : CronJob)
    → KeepsId id f
    → find_job id js ≡ some j
    → find_job id (modify_job id f js) ≡ some (f j)
unfolding find_job modify_job
find_job-modify_job id f [] j k h = cc
find_job-modify_job id f (x ∷ xs) j k h =
    ground
      (arith, k x, find_job-modify_job id f xs j k, text_eq_iff x.id id, text_eq_iff (f x).id id)

pub save_store-store : (ok : Bool) (cs : CronService) → (save_store ok cs).0.store ≡ cs.store
unfolding save_store
save_store-store true cs = refl
save_store-store false cs = refl

finish_job-find :
    (g : Gronx) (r : Run) (err : Option Text) (id : Text) (cs : CronService) (j : CronJob)
    → find_job id cs.store.jobs ≡ some j
    → find_job id (finish_job g r err id cs).store.jobs ≡ (
        if text_eq j.schedule.kind at_kind && j.delete_after_run
        then none
        else some (settle g r err j))
unfolding finish_job
finish_job-find g r err id cs j h =
    rw (h, finish_job)
      (ap (λ s. find_job id s.jobs) (save_store-store r.saved _)
        ∙ split (text_eq j.schedule.kind at_kind && j.delete_after_run))
  where
    settled : CronService
    settled = with_jobs (modify_job id (settle g r err) cs.store.jobs) cs

    split :
        (b : Bool)
        → find_job id (if b then (remove_job r.removed_saved id settled).0 else settled).store.jobs
          ≡ (if b then none else some (settle g r err j))
    split true =
        ap (find_job id) (remove_job-jobs r.removed_saved id settled)
        ∙ find_job-without_job_self id settled.store.jobs
    split false =
        find_job-modify_job id (settle g r err) cs.store.jobs j (settle-KeepsId g r err id) h

-- The status and the error that a run reports.
abbrev pub Reported : Option Text → CronJobState → Type 0
Reported none st = (st.last_status ≡ codes "ok") × (st.last_error ≡ [])
Reported (some e) st = (st.last_status ≡ codes "error") × (st.last_error ≡ e)

-- What a job becomes after a run: a one-shot job is off and has no next run, and any other one stays on
-- or off and has the next run of its schedule.
abbrev pub IsFinished : Gronx → Run → Option Text → CronJob → CronJob → Type 0
IsFinished g r err j j' =
    (j'.enabled ≡ (if text_eq j.schedule.kind (codes "at") then false else j.enabled))
    × (j'.state.next_run_at_ms ≡ (
        if text_eq j.schedule.kind (codes "at")
        then none
        else compute_next_run g j.schedule r.computed))
    × (j'.state.last_run_at_ms ≡ some r.started)
    × Reported err j'.state
    × (j'.updated_at_ms ≡ r.updated)
    × (j'.id ≡ j.id)
    × (j'.name ≡ j.name)
    × (j'.schedule ≡ j.schedule)
    × (j'.payload ≡ j.payload)
    × (j'.created_at_ms ≡ j.created_at_ms)
    × (j'.delete_after_run ≡ j.delete_after_run)

settle-IsFinished :
    (g : Gronx) (r : Run) (err : Option Text) (j : CronJob)
    → text_eq j.schedule.kind at_kind && j.delete_after_run ≡ false
    → IsFinished g r err j (settle g r err j)
unfolding settle
settle-IsFinished g r none j stays = elim (Bool-cases (text_eq j.schedule.kind at_kind)) [
  | inl e ↦
      let kept : j.delete_after_run ≡ false = ground (arith, e, stays) in
      rw (e, kept) (refl, refl, refl, (refl, refl), refl, refl, refl, refl, refl, refl, refl)
  | inr e ↦ rw e (refl, refl, refl, (refl, refl), refl, refl, refl, refl, refl, refl, refl)
]
settle-IsFinished g r (some x) j stays = elim (Bool-cases (text_eq j.schedule.kind at_kind)) [
  | inl e ↦
      let kept : j.delete_after_run ≡ false = ground (arith, e, stays) in
      rw (e, kept) (refl, refl, refl, (refl, refl), refl, refl, refl, refl, refl, refl, refl)
  | inr e ↦ rw e (refl, refl, refl, (refl, refl), refl, refl, refl, refl, refl, refl, refl)
]

-- If the job is still there when its run ends, a one-shot job that is to be deleted after its run is
-- gone. Any other job is found with the time of the run and its outcome, and otherwise as it was but
-- for this: a one-shot job is switched off and has no next run, and a recurring one has the next run
-- that its schedule gives.
pub finish_job_lem :
    (g : Gronx) (r : Run) (err : Option Text) (id : Text) (cs : CronService) (j : CronJob)
    → find_job id cs.store.jobs ≡ some j
    → let found = find_job id (finish_job g r err id cs).store.jobs in
      let once = text_eq j.schedule.kind (codes "at") && j.delete_after_run in
      ((once ≡ true) × (found ≡ none))
      ⊎ ((once ≡ false) × (j' : CronJob) × (found ≡ some j') × IsFinished g r err j j')
finish_job_lem g r err id cs j h =
    elim (Bool-cases (text_eq j.schedule.kind at_kind && j.delete_after_run)) [
      | inl e ↦ inl (e, finish_job-find g r err id cs j h ∙ rw e refl)
      | inr e ↦ inr (
        e,
        settle g r err j,
        finish_job-find g r err id cs j h ∙ rw e refl,
        settle-IsFinished g r err j e,
      )
    ]

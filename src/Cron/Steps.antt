-- ===== src/Cron/Steps.antt =====
-- The service as a state machine: one step for each method that takes the lock, in any order.
-- `executeJobByID` is two steps, since it gives the lock up while the handler runs.
use chango_assistant.Base.{
  Bool, Option, Option-cases, Text, arith, false, if_both, inl, inr, none, refl, some, subst, sym,
  text_eq→eq, ◌≡◌,
}
use chango_assistant.Base.Int64.{ℤ}
use chango_assistant.Cron.Execution.{Run, emit, finish_job, settle}
use chango_assistant.Cron.Ids.{
  IsDistinct, IsDistinct-snoc, IsValid, KeepsId, ids, ids-append, ids-clear_due, ids-modify_job,
  ids-recompute_next_runs, load_store-IsValid, remove_job-IsValid, save_store-IsValid,
  with_jobs-IsValid,
}
use chango_assistant.Cron.Jobs.{find_job, in_map, modify_job}
use chango_assistant.Cron.Schedule.{Gronx}
use chango_assistant.Cron.Service.{
  add_job, claim_due, enable_job, load_store, remove_job, save_store, set_event_callback,
  set_on_job, start, start_loaded, start_loop, stop, switch, update_job, with_jobs,
}
use chango_assistant.Cron.Types.{CronError, CronJob, CronSchedule, CronService}

pub settle-KeepsId :
    (g : Gronx) (r : Run) (err : Option Text) (id : Text) → KeepsId id (settle g r err)
unfolding settle
settle-KeepsId g r none id j h = ground arith
settle-KeepsId g r (some e) id j h = ground arith

pub switch-KeepsId :
    (g : Gronx) (enabled : Bool) (now now' : ℤ) (id : Text) → KeepsId id (switch g enabled now now')
unfolding switch
switch-KeepsId g enabled now now' id j h = refl

add_job-IsValid :
    (g : Gronx) (id : Text) (now : ℤ) (ok : Bool) (name : Text) (s : CronSchedule) (message : Text)
    (deliver : Bool) (channel to : Text) (cs : CronService)
    → in_map (ids cs.store.jobs) id ≡ false
    → IsValid cs
    → IsValid (add_job g id now ok name s message deliver channel to cs).0
unfolding add_job save_store
add_job-IsValid g id now ok name s message deliver channel to cs fresh v =
    let d =
      subst IsDistinct (sym (ids-append cs.store.jobs _))
        (IsDistinct-snoc (ids cs.store.jobs) id v.memory fresh) in
    elim ok as (λ o. IsValid (add_job g id now o name s message deliver channel to cs).0) [
      | Bool.true ↦ record { memory = d; file = d; loop = v.loop }
      | Bool.false ↦ record { memory = d; file = v.file; loop = v.loop }
    ]

update_job-IsValid :
    (now : ℤ) (ok : Bool) (job : CronJob) (cs : CronService)
    → IsValid cs
    → IsValid (update_job now ok job cs).0
unfolding update_job
update_job-IsValid now ok job cs v = elim (Option-cases (find_job job.id cs.store.jobs)) [
  | inl e ↦ rw (e, update_job) v
  | inr (j, e) ↦
      rw (e, update_job)
        (save_store-IsValid ok _ (
          with_jobs-IsValid _ cs
            (ids-modify_job job.id _ cs.store.jobs (λ k h. sym (text_eq→eq k.id job.id h))) v))
]

enable_job-IsValid :
    (g : Gronx) (id : Text) (enabled : Bool) (now now' : ℤ) (ok : Bool) (cs : CronService)
    → IsValid cs
    → IsValid (enable_job g id enabled now now' ok cs).0
unfolding enable_job
enable_job-IsValid g id enabled now now' ok cs v = elim (Option-cases (find_job id cs.store.jobs)) [
  | inl e ↦ rw (e, enable_job) v
  | inr (j, e) ↦
      rw (e, enable_job)
        (save_store-IsValid ok _ (
          with_jobs-IsValid _ cs
            (ids-modify_job id _ cs.store.jobs (switch-KeepsId g enabled now now' id)) v))
]

claim_due-IsValid :
    (now : ℤ) (ok : Bool) (cs : CronService) → IsValid cs → IsValid (claim_due now ok cs).1
unfolding claim_due
claim_due-IsValid now ok cs v =
    save_store-IsValid ok _ (with_jobs-IsValid _ cs (ids-clear_due _ cs.store.jobs) v)

pub finish_job-IsValid :
    (g : Gronx) (r : Run) (err : Option Text) (id : Text) (cs : CronService)
    → IsValid cs
    → IsValid (finish_job g r err id cs)
unfolding finish_job
finish_job-IsValid g r err id cs v = elim (Option-cases (find_job id cs.store.jobs)) [
  | inl e ↦ rw (e, finish_job) v
  | inr (j, e) ↦
      rw (e, finish_job)
        (save_store-IsValid r.saved _ (
          if_both IsValid _ _ _ (remove_job-IsValid r.removed_saved id settled settled-IsValid)
            settled-IsValid))
]
  where
    settled : CronService
    settled = with_jobs (modify_job id (settle g r err) cs.store.jobs) cs

    settled-IsValid : IsValid settled
    settled-IsValid =
        with_jobs-IsValid _ cs (ids-modify_job id _ cs.store.jobs (settle-KeepsId g r err id)) v

start_loop-IsValid : (p : CronService × Option CronError) → IsValid p.0 → IsValid (start_loop p).0
start_loop-IsValid (kept, some e) v = v
start_loop-IsValid (kept, none) v = record { memory = v.memory; file = v.file; loop = refl }

start_loaded-IsValid :
    (g : Gronx) (now : ℤ) (ok : Bool) (p : CronService × Option CronError)
    → IsValid p.0
    → IsValid (start_loaded g now ok p).0
unfolding start_loaded
start_loaded-IsValid g now ok (loaded, some e) v = v
start_loaded-IsValid g now ok (loaded, none) v = start_loop-IsValid _ (
    save_store-IsValid ok _
      (with_jobs-IsValid _ loaded (ids-recompute_next_runs g now loaded.store.jobs) v))

start-IsValid :
    (g : Gronx) (now : ℤ) (ok : Bool) (cs : CronService)
    → IsValid cs
    → IsValid (start g now ok cs).0
unfolding start
start-IsValid g now ok cs v =
    if_both {A = CronService × Option CronError} (λ p. IsValid p.0) cs.running _ _ v
      (start_loaded-IsValid g now ok (load_store cs) (load_store-IsValid cs v))

stop-IsValid : (cs : CronService) → IsValid cs → IsValid (stop cs)
unfolding stop
stop-IsValid cs v =
    if_both IsValid cs.running _ _ (record { memory = v.memory; file = v.file; loop = refl }) v

-- One step: a method, or one of the locked parts of an execution. `AddJob` draws an identifier that no
-- job has.
pub data Step (g : Gronx) (cs : CronService) : CronService → Type 0 where
  starts : (now : ℤ) (ok : Bool) → Step g cs (start g now ok cs).0
  stops : Step g cs (stop cs)
  loads : Step g cs (load_store cs).0
  adds :
      (id : Text) (now : ℤ) (ok : Bool) (name : Text) (s : CronSchedule) (message : Text)
      (deliver : Bool) (channel to : Text)
      → in_map (ids cs.store.jobs) id ≡ false
      → Step g cs (add_job g id now ok name s message deliver channel to cs).0
  updates : (now : ℤ) (ok : Bool) (job : CronJob) → Step g cs (update_job now ok job cs).0
  removes : (ok : Bool) (id : Text) → Step g cs (remove_job ok id cs).0
  enables :
      (id : Text) (enabled : Bool) (now now' : ℤ) (ok : Bool)
      → Step g cs (enable_job g id enabled now now' ok cs).0
  claims : (now : ℤ) (ok : Bool) → Step g cs (claim_due now ok cs).1
  emits : Step g cs (emit cs)
  finishes : (r : Run) (err : Option Text) (id : Text) → Step g cs (finish_job g r err id cs)
  sets_event : (set : Bool) → Step g cs (set_event_callback set cs)
  sets_on_job : (set : Bool) → Step g cs (set_on_job set cs)

pub data Reach (g : Gronx) (cs : CronService) : CronService → Type 0 where
  here : Reach g cs cs
  next : {t u : CronService} → Reach g cs t → Step g t u → Reach g cs u

Step-IsValid : (g : Gronx) {t u : CronService} → Step g t u → IsValid t → IsValid u
unfolding set_event_callback set_on_job
Step-IsValid g {t} (starts now ok) v = start-IsValid g now ok t v
Step-IsValid g {t} stops v = stop-IsValid t v
Step-IsValid g {t} loads v = load_store-IsValid t v
Step-IsValid g {t} (adds id now ok name s message deliver channel to fresh) v =
    add_job-IsValid g id now ok name s message deliver channel to t fresh v
Step-IsValid g {t} (updates now ok job) v = update_job-IsValid now ok job t v
Step-IsValid g {t} (removes ok id) v = remove_job-IsValid ok id t v
Step-IsValid g {t} (enables id enabled now now' ok) v =
    enable_job-IsValid g id enabled now now' ok t v
Step-IsValid g {t} (claims now ok) v = claim_due-IsValid now ok t v
Step-IsValid g {t} emits v =
    if_both IsValid t.on_event _ _ (record { memory = v.memory; file = v.file; loop = v.loop }) v
Step-IsValid g {t} (finishes r err id) v = finish_job-IsValid g r err id t v
Step-IsValid g {t} (sets_event set) v = record { memory = v.memory; file = v.file; loop = v.loop }
Step-IsValid g {t} (sets_on_job set) v = record { memory = v.memory; file = v.file; loop = v.loop }

-- From a valid service, in every order of the methods, also with jobs that finish after others have
-- changed the store, the identifiers stay distinct in memory and in the file, if every new one is
-- fresh, and the loop's channel is open exactly while the service runs.
pub Reach-IsValid : (g : Gronx) {cs t : CronService} → IsValid cs → Reach g cs t → IsValid t
Reach-IsValid g v here = v
Reach-IsValid g v (next r s) = Step-IsValid g s (Reach-IsValid g v r)

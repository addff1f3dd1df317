-- ===== src/Cron/Service.antt =====
-- The methods of `CronService`. A method that writes takes the outcome of the write to the disk and
-- the readings of the clock as arguments, and returns the new service beside its results. The lock
-- makes each method one step; `executeJobByID` gives it up while the handler runs.
use chango_assistant.Base.{
  Bool, List, Option, Text, [], codes, false, if◌then◌else◌, keep, length, ltb, none, some, text_eq,
  true, ℕ, ◌++◌, ◌∷◌,
}
use chango_assistant.Base.Int64.{ℤ}
use chango_assistant.Cron.Jobs.{
  clear_due, due_ids, find_job, is_enabled, modify_job, next_wake, set_next, without_job,
}
use chango_assistant.Cron.Schedule.{Gronx, compute_next_run}
use chango_assistant.Cron.Types.{
  CronError, CronJob, CronSchedule, CronService, CronStore, StoreFile, at_kind, holds,
  job_not_found, load_failed, malformed, missing, save_failed, unreadable,
}

abbrev pub with_jobs : List CronJob → CronService → CronService
with_jobs js cs = record cs { store = record cs.store { jobs = js } }

-- `saveStoreUnsafe`: the rename replaces the file whole, or the file stays as it was.
unfoldable pub save_store : Bool → CronService → CronService × Option CronError
save_store true cs = (record cs { disk = holds cs.store }, none)
save_store false cs = (cs, some save_failed)

abbrev empty_store : CronStore
empty_store = record { version = 1; jobs = [] }

-- The store and the error that reading a file gives.
abbrev pub read_store : StoreFile → CronStore × Option CronError
read_store missing = (empty_store, none)
read_store unreadable = (empty_store, some load_failed)
read_store (malformed s) = (s, some load_failed)
read_store (holds s) = (s, none)

-- `loadStore`, and `Load` under its lock.
unfoldable pub load_store : CronService → CronService × Option CronError
load_store cs = let (s, err) = read_store cs.disk in (record cs { store = s }, err)

-- `NewCronService`: the error of the first load is dropped.
unfoldable pub new_cron_service : StoreFile → Bool → CronService
unfolding load_store
new_cron_service file handler =
    (load_store (record {
      store = empty_store;
      on_job = handler;
      running = false;
      stop_chan = false;
      on_event = false;
      events = [];
      disk = file;
    })).0

unfoldable pub set_event_callback : Bool → CronService → CronService
set_event_callback set cs = record cs { on_event = set }

unfoldable pub set_on_job : Bool → CronService → CronService
set_on_job set cs = record cs { on_job = set }

unfoldable pub stop : CronService → CronService
stop cs = if cs.running then record cs { running = false; stop_chan = false } else cs

-- `removeJobUnsafe`; `ok` is the outcome of its write.
unfoldable pub remove_job : Bool → Text → CronService → CronService × Bool
unfolding without_job save_store
remove_job ok id cs =
    let js = without_job id cs.store.jobs in
    let cs' = with_jobs js cs in
    let removed = ltb (length js) (length cs.store.jobs) in
    (if removed then (save_store ok cs').0 else cs', removed)

unfoldable pub list_jobs : Bool → CronService → List CronJob
list_jobs include_disabled cs =
    if include_disabled then cs.store.jobs else keep is_enabled cs.store.jobs

unfoldable pub status : CronService → Bool × ℕ × Option ℤ
unfolding next_wake
status cs = (cs.running, length cs.store.jobs, next_wake cs.store.jobs)

-- The part of `checkJobs` under the lock: the identifiers of the due jobs, and the service with
-- their next runs taken away.
unfoldable pub claim_due : ℤ → Bool → CronService → List Text × CronService
unfolding due_ids clear_due save_store
claim_due now ok cs =
    let due = due_ids now cs.store.jobs in
    (due, (save_store ok (with_jobs (clear_due due cs.store.jobs) cs)).0)

-- `UpdateJob`.
unfoldable pub update_job : ℤ → Bool → CronJob → CronService → CronService × Option CronError
unfolding find_job modify_job save_store
update_job now ok job cs = elim (find_job job.id cs.store.jobs) [
  | none ↦ (cs, some job_not_found)
  | some _ ↦
      save_store ok
        (with_jobs (modify_job job.id (λ _. record job { updated_at_ms = now }) cs.store.jobs) cs)
]

-- The end of `Start`, after the store has been written.
abbrev pub start_loop : CronService × Option CronError → CronService × Option CronError
start_loop (kept, some e) = (kept, some e)
start_loop (kept, none) = (record kept { running = true; stop_chan = true }, none)

module _ (g : Gronx) where
  -- `recomputeNextRuns`.
  unfoldable pub recompute_next_runs : ℤ → List CronJob → List CronJob
  recompute_next_runs now [] = []
  recompute_next_runs now (j ∷ js) =
      (if j.enabled then set_next (compute_next_run g j.schedule now) j else j)
      ∷ recompute_next_runs now js

  -- `Start` after the store has been read.
  unfoldable pub start_loaded :
      ℤ → Bool → CronService × Option CronError → CronService × Option CronError
  unfolding recompute_next_runs save_store
  start_loaded now ok (loaded, some e) = (loaded, some e)
  start_loaded now ok (loaded, none) =
      start_loop (save_store ok (with_jobs (recompute_next_runs now loaded.store.jobs) loaded))

  -- `Start`.
  unfoldable pub start : ℤ → Bool → CronService → CronService × Option CronError
  unfolding load_store start_loaded
  start now ok cs = if cs.running then (cs, none) else start_loaded now ok (load_store cs)

  -- `AddJob`; `id` is what `generateID` drew.
  unfoldable pub add_job :
      Text
      → ℤ
      → Bool
      → Text
      → CronSchedule
      → Text
      → Bool
      → Text
      → Text
      → CronService
      → CronService × Option CronJob × Option CronError
  unfolding save_store
  add_job id now ok name schedule message deliver channel to cs =
      let job : CronJob = record {
        id = id;
        name = name;
        enabled = true;
        schedule = schedule;
        payload = record {
          kind = codes "agent_turn";
          message = message;
          command = [];
          deliver = deliver;
          channel = channel;
          to = to;
        };
        state = record {
          next_run_at_ms = compute_next_run g schedule now;
          last_run_at_ms = none;
          last_status = [];
          last_error = [];
        };
        created_at_ms = now;
        updated_at_ms = now;
        delete_after_run = text_eq schedule.kind at_kind;
      } in
      let (kept, err) = save_store ok (with_jobs (cs.store.jobs ++ job ∷ []) cs) in
      elim err [ none ↦ (kept, some job, none) | some e ↦ (kept, none, some e) ]

  -- What `EnableJob` writes to the job.
  unfoldable pub switch : Bool → ℤ → ℤ → CronJob → CronJob
  switch enabled now now' j =
      let next = if enabled then compute_next_run g j.schedule now' else none in
      record (set_next next j) { enabled = enabled; updated_at_ms = now }

  -- `EnableJob`; the clock is read twice.
  unfoldable pub enable_job :
      Text → Bool → ℤ → ℤ → Bool → CronService → CronService × Option CronJob
  unfolding find_job modify_job save_store switch
  enable_job id enabled now now' ok cs = elim (find_job id cs.store.jobs) [
    | none ↦ (cs, none)
    | some j ↦ (
      (save_store ok (with_jobs (modify_job id (switch enabled now now') cs.store.jobs) cs)).0,
      some (switch enabled now now' j),
    )
  ]

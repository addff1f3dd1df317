-- ===== src/Cron/Execution.antt =====
-- `executeJobByID` and `checkJobs` of pkg/cron/service.go. The lock is given up while the handler
-- runs, so an execution is two steps with what the other threads do between them.
use chango_assistant.Base.{
  Bool, List, Option, Text, [], codes, false, if◌then◌else◌, none, some, suc, text_eq, ℕ, ◌&&◌, ◌∷◌,
}
use chango_assistant.Base.Int64.{ℤ}
use chango_assistant.Cron.Jobs.{find_job, modify_job, set_next}
use chango_assistant.Cron.Schedule.{Gronx, compute_next_run}
use chango_assistant.Cron.Service.{claim_due, remove_job, save_store, with_jobs}
use chango_assistant.Cron.Types.{CronJob, CronService, at_kind}

-- What one execution meets: the clock at its start and at its end (read twice), the outcomes of its
-- writes, the error of the handler on the job that it is given, and what the other threads make of
-- the service while the handler runs.
pub record Run : Type 0 where
  pub started : ℤ
  pub updated : ℤ
  pub computed : ℤ
  pub saved : Bool
  pub removed_saved : Bool
  pub result : CronJob → Option Text
  pub meanwhile : CronService → CronService

abbrev pub set_status : Option Text → Run → CronJob → CronJob
set_status none r j = record j {
  state = record j.state {
    last_run_at_ms = some r.started;
    last_status = codes "ok";
    last_error = [];
  };
  updated_at_ms = r.updated;
}
set_status (some e) r j = record j {
  state = record j.state {
    last_run_at_ms = some r.started;
    last_status = codes "error";
    last_error = e;
  };
  updated_at_ms = r.updated;
}

-- The event at the start of `executeJobByID`.
abbrev pub emit : CronService → CronService
emit cs = if cs.on_event then record cs { events = codes "cron" ∷ cs.events } else cs

module _ (g : Gronx) where
  -- What the end of `executeJobByID` writes to the job, unless it removes it.
  unfoldable pub settle : Run → Option Text → CronJob → CronJob
  settle r err j =
      let done = set_status err r j in
      if text_eq j.schedule.kind at_kind
      then (if j.delete_after_run then done else record (set_next none done) { enabled = false })
      else set_next (compute_next_run g j.schedule r.computed) done

  -- The end of `executeJobByID`, under the lock.
  unfoldable pub finish_job : Run → Option Text → Text → CronService → CronService
  unfolding find_job modify_job remove_job save_store settle
  finish_job r err id cs = elim (find_job id cs.store.jobs) [
    | none ↦ cs
    | some j ↦
        let settled = with_jobs (modify_job id (settle r err) cs.store.jobs) cs in
        (save_store r.saved (
          if text_eq j.schedule.kind at_kind && j.delete_after_run
          then (remove_job r.removed_saved id settled).0
          else settled)).0
  ]

  -- `executeJobByID`.
  unfoldable pub execute_job : Run → Text → CronService → CronService
  unfolding find_job finish_job
  execute_job r id cs =
      let noted = emit cs in
      elim (find_job id noted.store.jobs) [
        | none ↦ noted
        | some j ↦ finish_job r (if noted.on_job then r.result j else none) id (r.meanwhile noted)
      ]

  -- The loop of `checkJobs` after the lock, the executions numbered from `i`.
  unfoldable pub execute_all : (ℕ → Run) → ℕ → List Text → CronService → CronService
  execute_all runs i [] cs = cs
  execute_all runs i (id ∷ ids) cs = execute_all runs (suc i) ids (execute_job (runs i) id cs)

  -- `checkJobs`, which `runLoop` calls every second.
  unfoldable pub check_jobs : ℤ → Bool → (ℕ → Run) → CronService → CronService
  unfolding claim_due execute_all
  check_jobs now ok runs cs =
      if cs.running
      then (let (due, claimed) = claim_due now ok cs in execute_all runs 0 due claimed)
      else cs

-- ===== src/Tests/CronCases.antt =====
-- The scheduler on two jobs: a reminder at 500 and a check every 100 milliseconds.
use chango_assistant.Base.{
  Bool, Option, Text, [], arith, codes, false, map, none, refl, some, text_eq, true, ◌&&◌, ◌∷◌, ◌≡◌,
  ◌⊎◌,
}
use chango_assistant.Base.Int64.{+ℤ_parts, IsInt64, add_int64, pos, ℤ, ◌+ℤ◌}
use chango_assistant.Cron.Claim.{claim_due_once}
use chango_assistant.Cron.Execution.{Run, check_jobs, execute_job, finish_job}
use chango_assistant.Cron.Ids.{IsValid, ids}
use chango_assistant.Cron.Jobs.{find_job, in_map}
use chango_assistant.Cron.Missed.{start-missed}
use chango_assistant.Cron.Outcome.{IsFinished, finish_job_lem}
use chango_assistant.Cron.Planned.{TicksLater, add_job_failed_stays, runs_at}
use chango_assistant.Cron.Schedule.{Gronx, compute_next_run}
use chango_assistant.Cron.Service.{add_job, claim_due, start}
use chango_assistant.Cron.Steps.{Reach-IsValid, claims, finishes, here, next}
use chango_assistant.Cron.Types.{
  CronJob, CronPayload, CronSchedule, CronService, at_kind, every_kind, holds, missing, save_failed,
}

abbrev unit_gronx : Gronx
unit_gronx = record {
  Zone = Unit {0};
  local = tt;
  load = λ tz. none;
  tick_after = λ expr z now. some (now +ℤ pos 60000);
}

abbrev once : CronSchedule
once = record { kind = at_kind; at_ms = some (pos 500); every_ms = none; expr = []; tz = [] }

abbrev repeated : CronSchedule
repeated = record { kind = every_kind; at_ms = none; every_ms = some (pos 100); expr = []; tz = [] }

abbrev no_payload : CronPayload
no_payload = record {
  kind = codes "agent_turn";
  message = codes "hi";
  command = [];
  deliver = true;
  channel = [];
  to = [];
}

abbrev job : Text → CronSchedule → Option ℤ → Bool → CronJob
job id s due delete = record {
  id = id;
  name = id;
  enabled = true;
  schedule = s;
  payload = no_payload;
  state = record { next_run_at_ms = due; last_run_at_ms = none; last_status = []; last_error = [] };
  created_at_ms = pos 0;
  updated_at_ms = pos 0;
  delete_after_run = delete;
}

abbrev reminder : CronJob
reminder = job (codes "r") once (some (pos 500)) true

abbrev checker : CronJob
checker = job (codes "c") repeated (some (pos 100)) false

abbrev two_jobs : CronService
two_jobs = record {
  store = record { version = 1; jobs = reminder ∷ checker ∷ [] };
  on_job = true;
  running = true;
  stop_chan = true;
  on_event = false;
  events = [];
  disk = missing;
}

abbrev quiet_run : Run
quiet_run = record {
  started = pos 500;
  updated = pos 510;
  computed = pos 520;
  saved = true;
  removed_saved = true;
  result = λ j. none;
  meanwhile = λ cs. cs;
}

two_jobs-IsValid : IsValid two_jobs
unfolding in_map text_eq
two_jobs-IsValid = record { memory = (refl, (refl, tt)); file = tt; loop = refl }

-- At 500 both jobs run; the reminder is gone and the check is due again at 620.
both_run :
    map
      (λ j. j.state.next_run_at_ms)
      (check_jobs unit_gronx (pos 500) true (λ i. quiet_run) two_jobs).store.jobs
    ≡ some (pos 620) ∷ []
unfolding check_jobs execute_job compute_next_run add_int64 ◌+ℤ◌ text_eq
both_run = refl

Reach-IsValid_example :
    IsValid (finish_job unit_gronx quiet_run none (codes "r") (claim_due (pos 500) true two_jobs).1)
Reach-IsValid_example =
    Reach-IsValid unit_gronx two_jobs-IsValid
      (next (next here (claims (pos 500) true)) (finishes quiet_run none (codes "r")))

claim_due_once_example : (claim_due (pos 450) true (claim_due (pos 500) false two_jobs).1).0 ≡ []
claim_due_once_example = claim_due_once (pos 500) (pos 450) false true two_jobs (omega arith)

finish_job_lem_example :
    let found =
      find_job (codes "c") (finish_job unit_gronx quiet_run none (codes "c") two_jobs).store.jobs in
    let once = text_eq checker.schedule.kind (codes "at") && checker.delete_after_run in
    ((once ≡ true) × (found ≡ none))
    ⊎ ((once ≡ false)
        × (j' : CronJob) × (found ≡ some j')
        × IsFinished unit_gronx quiet_run none checker j')
finish_job_lem_example =
    finish_job_lem unit_gronx quiet_run none (codes "c") two_jobs checker
      (unfold find_job text_eq in refl)

unit_gronx-TicksLater : TicksLater unit_gronx
unit_gronx-TicksLater expr z now t h =
    let same : some (now +ℤ pos 60000) ≡ some t = h in
    ground (arith, same, +ℤ_parts now (pos 60000))

hundred_fits : (e : ℤ) → repeated.every_ms ≡ some e → IsInt64 (pos 100 +ℤ e)
unfolding ◌+ℤ◌
hundred_fits e h = ground arith

abbrev added : CronJob
added = record (job (codes "n") repeated (some (pos 107)) false) {
  name = codes "new";
  created_at_ms = pos 7;
  updated_at_ms = pos 7;
}

add_job_failed_stays_example :
    let (cs', added, err) =
      add_job unit_gronx
        (codes "n")
        (pos 7)
        false
        (codes "new")
        repeated
        (codes "hi")
        true
        []
        []
        two_jobs in
    (added ≡ none)
    × (err ≡ some save_failed)
    × (cs'.disk ≡ two_jobs.disk)
    × (find_job (codes "n") cs'.store.jobs
        ≡ some (record {
          id = codes "n";
          name = codes "new";
          enabled = true;
          schedule = repeated;
          payload = record {
            kind = codes "agent_turn";
            message = codes "hi";
            command = [];
            deliver = true;
            channel = [];
            to = [];
          };
          state = record {
            next_run_at_ms = compute_next_run unit_gronx repeated (pos 7);
            last_run_at_ms = none;
            last_status = [];
            last_error = [];
          };
          created_at_ms = pos 7;
          updated_at_ms = pos 7;
          delete_after_run = text_eq repeated.kind (codes "at");
        }))
    × (in_map (claim_due (pos 200) true cs').0 (codes "n")
        ≡ runs_at (pos 200) (compute_next_run unit_gronx repeated (pos 7)))
add_job_failed_stays_example =
    add_job_failed_stays unit_gronx (codes "n") (pos 7) (codes "new") repeated (codes "hi") true []
      [] two_jobs (pos 200) true (unfold in_map text_eq in refl)

-- The service that was stopped with both jobs in its file.
abbrev stopped : CronService
stopped = record two_jobs { running = false; stop_chan = false; disk = holds two_jobs.store }

start-missed_example :
    let cs' = (start unit_gronx (pos 900) true stopped).0 in
    (in_map (ids cs'.store.jobs) (codes "r") ≡ true)
    × (in_map (claim_due (pos 1000) true cs').0 (codes "r") ≡ false)
start-missed_example =
    start-missed unit_gronx (codes "r") (pos 900) (pos 500) (pos 1000) true true two_jobs.store
      stopped reminder refl refl two_jobs-IsValid.memory (unfold find_job text_eq in refl) refl refl
      (omega arith)

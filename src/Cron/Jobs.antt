-- ===== src/Cron/Jobs.antt =====
-- The loops of pkg/cron/service.go over the list of jobs. A job is found by the first entry with its
-- identifier.
use chango_assistant.Base.{
  Bool, List, Option, Text, [], false, if◌then◌else◌, none, some, text_eq, true, ◌&&◌, ◌∷◌,
}
use chango_assistant.Base.Int64.{leb_ℤ, ltb_ℤ, ℤ}
use chango_assistant.Cron.Types.{CronJob}

unfoldable pub find_job : Text → List CronJob → Option CronJob
find_job id [] = none
find_job id (j ∷ js) = if text_eq j.id id then some j else find_job id js

-- Writes through the pointer to the first job with the identifier.
unfoldable pub modify_job : Text → (CronJob → CronJob) → List CronJob → List CronJob
modify_job id f [] = []
modify_job id f (j ∷ js) = if text_eq j.id id then f j ∷ js else j ∷ modify_job id f js

-- The rebuilding loop of `removeJobUnsafe`.
unfoldable pub without_job : Text → List CronJob → List CronJob
without_job id [] = []
without_job id (j ∷ js) = if text_eq j.id id then without_job id js else j ∷ without_job id js

abbrev pub next_le : Option ℤ → ℤ → Bool
next_le none now = false
next_le (some t) now = leb_ℤ t now

-- The test of the collecting loop of `checkJobs`.
unfoldable pub is_due : ℤ → CronJob → Bool
is_due now j = j.enabled && next_le j.state.next_run_at_ms now

unfoldable pub due_ids : ℤ → List CronJob → List Text
unfolding is_due
due_ids now [] = []
due_ids now (j ∷ js) = if is_due now j then j.id ∷ due_ids now js else due_ids now js

unfoldable pub in_map : List Text → Text → Bool
in_map [] id = false
in_map (d ∷ ds) id = if text_eq d id then true else in_map ds id

abbrev pub set_next : Option ℤ → CronJob → CronJob
set_next t j = record j { state = record j.state { next_run_at_ms = t } }

-- Takes the next run from every job whose identifier is in the map of due jobs.
unfoldable pub clear_due : List Text → List CronJob → List CronJob
unfolding in_map
clear_due due [] = []
clear_due due (j ∷ js) = (if in_map due j.id then set_next none j else j) ∷ clear_due due js

abbrev pick_wake : Option ℤ → Option ℤ → Option ℤ
pick_wake wake none = wake
pick_wake none (some t) = some t
pick_wake (some w) (some t) = if ltb_ℤ t w then some t else some w

-- One round of the loop of `getNextWakeMS`.
unfoldable pub earlier : Option ℤ → CronJob → Option ℤ
earlier wake j = if j.enabled then pick_wake wake j.state.next_run_at_ms else wake

unfoldable pub next_wake_from : Option ℤ → List CronJob → Option ℤ
unfolding earlier
next_wake_from wake [] = wake
next_wake_from wake (j ∷ js) = next_wake_from (earlier wake j) js

-- `getNextWakeMS`.
unfoldable pub next_wake : List CronJob → Option ℤ
unfolding next_wake_from
next_wake js = next_wake_from none js

abbrev pub is_enabled : CronJob → Bool
is_enabled j = j.enabled

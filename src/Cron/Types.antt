-- ===== src/Cron/Types.antt =====
-- The data of pkg/cron/service.go. An int64 is an integer in its range, a pointer to one an option.
use chango_assistant.Base.{Bool, List, Option, Text, codes, ℕ}
use chango_assistant.Base.Int64.{ℤ}

pub record CronSchedule : Type 0 where
  pub kind : Text
  pub at_ms : Option ℤ
  pub every_ms : Option ℤ
  pub expr : Text
  pub tz : Text

pub record CronPayload : Type 0 where
  pub kind : Text
  pub message : Text
  pub command : Text
  pub deliver : Bool
  pub channel : Text
  pub to : Text

pub record CronJobState : Type 0 where
  pub next_run_at_ms : Option ℤ
  pub last_run_at_ms : Option ℤ
  pub last_status : Text
  pub last_error : Text

pub record CronJob : Type 0 where
  pub id : Text
  pub name : Text
  pub enabled : Bool
  pub schedule : CronSchedule
  pub payload : CronPayload
  pub state : CronJobState
  pub created_at_ms : ℤ
  pub updated_at_ms : ℤ
  pub delete_after_run : Bool

pub record CronStore : Type 0 where
  pub version : ℕ
  pub jobs : List CronJob

-- What stands at the store's path: nothing, a file that cannot be read, a file that does not parse, with
-- what `json.Unmarshal` leaves in the store (the empty one for no JSON, more where a value has the
-- wrong type), or a store that was written there.
pub data StoreFile : Type 0 where
  missing unreadable : StoreFile
  malformed holds : CronStore → StoreFile

pub data CronError : Type 0 where
  load_failed save_failed job_not_found : CronError

-- `on_job` and `on_event` say whether the callbacks are set; `events` is what was sent to the
-- second one, the latest first; `stop_chan` says whether the loop's channel is open.
pub record CronService : Type 0 where
  pub store : CronStore
  pub on_job : Bool
  pub running : Bool
  pub stop_chan : Bool
  pub on_event : Bool
  pub events : List Text
  pub disk : StoreFile

abbrev pub at_kind : Text
at_kind = codes "at"

abbrev pub every_kind : Text
every_kind = codes "every"

abbrev pub cron_kind : Text
cron_kind = codes "cron"

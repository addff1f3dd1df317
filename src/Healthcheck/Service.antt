-- ===== src/Healthcheck/Service.antt =====
-- pkg/services/healthcheck/service.go. The HTTP client gives a status or an error for each endpoint;
-- what the service does to the world is a list of actions, in their order.
use chango_assistant.Base.{
  Bool, List, Option, Text, [], codes, drop, false, if◌then◌else◌, index_byte, insert, length,
  lookup, ltb, none, not, some, suc, take, text_eq, ℕ, ◌&&◌, ◌++◌, ◌+◌, ◌-◌, ◌==◌, ◌||◌, ◌∷◌,
}

pub record HealthEndpoint : Type 0 where
  pub name : Text
  pub url : Text
  pub expect_status : ℕ
  pub container : Text

pub record HealthCheck : Type 0 where
  pub name : Text
  pub url : Text
  pub status : ℕ
  pub ok : Bool
  pub timestamp : Text
  pub failures : ℕ

-- A docker restart, and an alert of an endpoint on a channel and a chat, with its failures and status.
pub data Action : Type 0 where
  restart : Text → Action
  alert : Text → Text → HealthEndpoint → ℕ → ℕ → Action

-- The failures of each endpoint, the number of failures of one that has none being 0; `has_bus` and
-- `last_channel` are what an alert depends on.
pub record Service : Type 0 where
  pub failures : List (Text × ℕ)
  pub has_bus : Bool
  pub last_channel : Text

abbrev pub max_log_entries : ℕ
max_log_entries = 100

abbrev expected : HealthEndpoint → ℕ
expected ep = if ep.expect_status == 0 then 200 else ep.expect_status

-- `checkEndpoint`, on the answer of the client.
unfoldable pub check_endpoint : HealthEndpoint → Text → Option ℕ → HealthCheck
check_endpoint ep now none = record {
  name = ep.name;
  url = ep.url;
  status = 0;
  ok = false;
  timestamp = now;
  failures = 0;
}
check_endpoint ep now (some code) = record {
  name = ep.name;
  url = ep.url;
  status = code;
  ok = code == expected ep;
  timestamp = now;
  failures = 0;
}

abbrev pub or_zero : Option ℕ → ℕ
or_zero none = 0
or_zero (some n) = n

abbrev pub failures_of : Text → Service → ℕ
failures_of name s = or_zero (lookup name s.failures)

-- `constants.IsInternalChannel`.
unfoldable pub is_internal_channel : Text → Bool
unfolding text_eq
is_internal_channel c =
    text_eq c (codes "cli") || (text_eq c (codes "system") || text_eq c (codes "subagent"))

-- `strings.SplitN(s, ":", 2)`, if there are two parts.
abbrev split_at : Text → Option ℕ → Option (Text × Text)
split_at s none = none
split_at s (some i) = some (take i s, drop (suc i) s)

abbrev alert_to : HealthEndpoint → ℕ → ℕ → Option (Text × Text) → List Action
alert_to ep n status none = []
alert_to ep n status (some (platform, user)) =
    if text_eq platform [] || (text_eq user [] || is_internal_channel platform)
    then []
    else alert platform user ep n status ∷ []

-- `sendAlert`.
unfoldable pub send_alert : HealthEndpoint → ℕ → ℕ → Service → List Action
unfolding index_byte is_internal_channel text_eq
send_alert ep n status s =
    alert_to ep n status (split_at s.last_channel (index_byte s.last_channel b':'))

-- The actions at a number of consecutive failures: a restart at the third, an alert at the fifth.
unfoldable pub react : HealthEndpoint → HealthCheck → ℕ → Service → List Action
unfolding send_alert text_eq
react ep r n s =
    (if (n == 3) && not (text_eq ep.container []) then restart ep.container ∷ [] else [])
    ++ (if (n == 5) && s.has_bus then send_alert ep n r.status s else [])

-- The failures of an endpoint after one more check.
unfoldable pub count_failure : HealthEndpoint → HealthCheck → Service → Service
unfolding insert
count_failure ep r s = record s {
  failures = insert ep.name (if r.ok then 0 else failures_of ep.name s + 1) s.failures;
}

-- The loop of `checkAll`. The result goes into the log before its failures are filled in.
unfoldable pub check_endpoints :
    (HealthEndpoint → Option ℕ)
    → Text
    → List HealthEndpoint
    → Service
    → List HealthCheck × List Action × Service
unfolding check_endpoint count_failure react
check_endpoints get now [] s = ([], [], s)
check_endpoints get now (ep ∷ eps) s =
    let r = check_endpoint ep now (get ep) in
    let s' = count_failure ep r s in
    let (rs, actions, s'') = check_endpoints get now eps s' in
    (r ∷ rs, react ep r (failures_of ep.name s') s' ++ actions, s'')

-- The log file: `none` where it is missing or does not parse.
abbrev pub checks_of : Option (List HealthCheck) → List HealthCheck
checks_of none = []
checks_of (some cs) = cs

abbrev pub last_entries : List HealthCheck → List HealthCheck
last_entries cs = drop (length cs - max_log_entries) cs

-- `saveLog`: the file is replaced whole, or stays.
unfoldable pub save_log :
    Bool → List HealthCheck → Option (List HealthCheck) → Option (List HealthCheck)
save_log ok new log =
    let cs = checks_of log ++ new in
    if ok then some (if ltb max_log_entries (length cs) then last_entries cs else cs) else log

-- `checkAll`.
unfoldable pub check_all :
    (HealthEndpoint → Option ℕ)
    → Text
    → Bool
    → List HealthEndpoint
    → Service
    → Option (List HealthCheck)
    → Option (List HealthCheck) × List Action × Service
unfolding check_endpoints save_log
check_all get now ok eps s log =
    let (rs, actions, s') = check_endpoints get now eps s in (save_log ok rs log, actions, s')

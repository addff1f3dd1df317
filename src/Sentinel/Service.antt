-- ===== src/Sentinel/Service.antt =====
-- pkg/sentinel/service.go. A moment is a number of nanoseconds, read from the clock by the caller. The
-- numbers that the machine reports are of a type of their own, with the tests and the printing that
-- the code uses of floating point numbers.
use chango_assistant.Base.{
  Bool, List, Option, Text, [], codes, drop, false, if◌then◌else◌, index_byte, insert, lookup, ltb,
  none, some, suc, take, text_eq, utf8, ℕ, ◌*◌, ◌++◌, ◌-◌, ◌/◌, ◌||◌, ◌∷◌,
}
use chango_assistant.Bus.Queue.{MessageBus, OutboundMessage, publish_outbound}
use chango_assistant.Healthcheck.Service.{is_internal_channel}
use chango_assistant.State.Manager.{Manager, get_last_channel}

module _ (F : Type 0) where
  -- What `readCPUTemp`, `readRAM` and `readDisk` report.
  pub record Metrics : Type 0 where
    pub cpu_temp_c : F
    pub ram_total_mb : ℕ
    pub ram_available_mb : ℕ
    pub ram_used_percent : F
    pub disk_total_gb : F
    pub disk_free_gb : F
    pub disk_used_percent : F

  pub record SentinelState : Type 0 where
    pub last_check : ℕ
    pub uptime_seconds : ℕ
    pub metrics : Metrics
    pub alerts : List Text

pub record Service (H : Type 0) : Type 0 where
  pub bus : Option (MessageBus H)
  pub state : Manager
  pub last_alert_time : List (Text × ℕ)

abbrev pub minute : ℕ
minute = 60000000000

abbrev pub hour : ℕ
hour = 3600000000000

-- `NewService`.
unfoldable pub new_service : {H : Type 0} → Manager → ℕ → Service H
new_service state now = record {
  bus = none;
  state = state;
  last_alert_time =
      (codes "cpu_temp", now - 30 * minute)
      ∷ (codes "ram", now - 30 * minute)
      ∷ (codes "disk", now - 30 * minute)
      ∷ [];
}

-- `SetBus`.
unfoldable pub set_bus : {H : Type 0} → MessageBus H → Service H → Service H
set_bus bus s = record s { bus = some bus }

abbrev both_parts : Text → Option ℕ → Option (Text × Text)
both_parts s none = none
both_parts s (some i) =
    if text_eq (take i s) [] || text_eq (drop (suc i) s) []
    then none
    else some (take i s, drop (suc i) s)

-- `parseLastChannel`, `none` for two empty texts.
unfoldable pub parse_last_channel : Text → Option (Text × Text)
unfolding text_eq index_byte
parse_last_channel s = both_parts s (index_byte s b':')

-- The warning sign, U+26A0 and U+FE0F, and a space.
abbrev pub alert_mark : Text
alert_mark = 0xe2 ∷ 0x9a ∷ 0xa0 ∷ 0xef ∷ 0xb8 ∷ 0x8f ∷ 0x20 ∷ []

-- The message with an alert.
unfoldable pub alert_message : Text → Text → Text → OutboundMessage
alert_message platform user alert = record {
  channel = platform;
  chat_id = user;
  content = alert_mark ++ alert;
  media = [];
}

-- Less than an hour has passed since the last alert with this text.
abbrev pub throttled : ℕ → Option ℕ → Bool
throttled now none = false
throttled now (some last) = ltb (now - last) hour

module _ {H : Type 0} where
  unfoldable pub publish_to :
      Text → Option (Text × Text) → Option (MessageBus H) → Option (MessageBus H)
  unfolding publish_outbound is_internal_channel alert_message
  publish_to alert target none = none
  publish_to alert none (some mb) = some mb
  publish_to alert (some (platform, user)) (some mb) =
      if is_internal_channel platform
      then some mb
      else some (publish_outbound (alert_message platform user alert) mb).0

  -- `sendAlert`.
  unfoldable pub send_alert : Text → ℕ → Service H → Service H
  unfolding insert parse_last_channel get_last_channel publish_to
  send_alert alert now s =
      let target = parse_last_channel (get_last_channel s.state) in
      if throttled now (lookup alert s.last_alert_time) then s else record s {
        last_alert_time = insert alert now s.last_alert_time;
        bus = publish_to alert target s.bus;
      }

module _ {F : Type 0} (above : F → ℕ → Bool) (one_decimal : F → Text) where
  -- The alerts of one round.
  unfoldable pub alerts_of : Metrics F → List Text
  unfolding utf8
  alerts_of m =
      (if above m.cpu_temp_c 80
        then (utf8 "CPU temperatura alta: " ++ (one_decimal m.cpu_temp_c ++ utf8 "°C")) ∷ []
        else [])
      ++ ((if above m.ram_used_percent 90
            then (utf8 "RAM crítica: " ++ (one_decimal m.ram_used_percent ++ codes "% usada")) ∷ []
            else [])
          ++ (if above m.disk_used_percent 95
              then (codes "Disco casi lleno: "
                  ++ (one_decimal m.disk_used_percent ++ codes "% usado"))
                ∷ []
              else []))

module _ {F H : Type 0} (above : F → ℕ → Bool) (one_decimal : F → Text) where
  unfoldable pub send_alerts : List Text → ℕ → Service H → Service H
  unfolding send_alert
  send_alerts [] now s = s
  send_alerts (a ∷ rest) now s = send_alerts rest now (send_alert a now s)

  -- `collect`: the state that `saveState` is given, and the service after the alerts.
  unfoldable pub collect : Metrics F → ℕ → ℕ → Service H → SentinelState F × Service H
  unfolding alerts_of send_alerts
  collect m start now s =
      let alerts = alerts_of above one_decimal m in
      (
        record {
          last_check = now;
          uptime_seconds = (now - start) / 1000000000;
          metrics = m;
          alerts = alerts;
        },
        send_alerts alerts now s,
      )

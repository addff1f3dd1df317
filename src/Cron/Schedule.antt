-- ===== src/Cron/Schedule.antt =====
-- `computeNextRun` of pkg/cron/service.go. Time zones come from the system, and the cron expressions
-- are read by the gronx library: both are parameters.
use chango_assistant.Base.{
  Bool, Option, Text, [], false, if◌then◌else◌, none, some, text_eq, true, ◌∷◌,
}
use chango_assistant.Base.Int64.{add_int64, leb_ℤ, ltb_ℤ, pos, ℤ}
use chango_assistant.Cron.Types.{CronSchedule, at_kind, cron_kind, every_kind}

-- `load` is time.LoadLocation, `local` time.Local, and `tick_after expr zone now` the result of
-- gronx.NextTickAfter as Unix milliseconds.
pub record Gronx : Type 1 where
  pub Zone : Type 0
  pub local : Zone
  pub load : Text → Option Zone
  pub tick_after : Text → Zone → ℤ → Option ℤ

abbrev pub is_empty : Text → Bool
is_empty [] = true
is_empty (c ∷ s) = false

-- The pointer `AtMS` if it lies ahead.
unfoldable pub next_at : Option ℤ → ℤ → Option ℤ
next_at none now = none
next_at (some t) now = if ltb_ℤ now t then some t else none

unfoldable pub next_every : Option ℤ → ℤ → Option ℤ
next_every none now = none
next_every (some e) now = if leb_ℤ e (pos 0) then none else some (add_int64 now e)

module _ (g : Gronx) where
  open g use {Zone, local, load, tick_after}

  abbrev or_local : Option Zone → Zone
  or_local none = local
  or_local (some z) = z

  pub zone_of : Text → Zone
  zone_of tz = if is_empty tz then local else or_local (load tz)

  unfoldable pub compute_next_run : CronSchedule → ℤ → Option ℤ
  unfolding next_at next_every zone_of
  compute_next_run s now =
      if text_eq s.kind at_kind
      then next_at s.at_ms now
      else if text_eq s.kind every_kind
      then next_every s.every_ms now
      else if text_eq s.kind cron_kind
      then (if is_empty s.expr then none else tick_after s.expr (zone_of s.tz) now)
      else none

-- ===== src/Cron/Planned.antt =====
-- What adding and enabling make of the schedule and of the file of pkg/cron/service.go.
use chango_assistant.Base.{
  Bool, List, Option, Option-cases, Text, [], ap, arith, codes, false, if_both, inl, inr, is_some,
  none, refl, some, text_eq, text_eq_iff, text_eq_refl, true, ◌++◌, ◌∙◌, ◌∷◌, ◌≡◌,
}
use chango_assistant.Base.Int64.{+ℤ_parts, IsInt64, add_int64-exact, leb_ℤ, ℤ, ◌+ℤ◌, ◌<ℤ◌}
use chango_assistant.Cron.Ids.{IsDistinct, IsValid, ids}
use chango_assistant.Cron.Jobs.{due_ids, find_job, in_map, is_due, modify_job, next_le}
use chango_assistant.Cron.Outcome.{save_store-store}
use chango_assistant.Cron.Schedule.{Gronx, compute_next_run, is_empty, next_at, next_every, zone_of}
use chango_assistant.Cron.Service.{add_job, claim_due, enable_job, new_cron_service, switch}
use chango_assistant.Cron.Types.{
  CronJob, CronSchedule, CronService, at_kind, cron_kind, every_kind, save_failed,
}

-- What the documentation of gronx promises of a tick: it lies after the given time.
abbrev pub TicksLater : Gronx → Type 0
TicksLater g = (expr : Text) (z : g.Zone) (now t : ℤ) → g.tick_after expr z now ≡ some t → now <ℤ t

-- The moment, if there is one, lies after `now`.
abbrev IsLater : ℤ → Option ℤ → Type 0
IsLater now o = (t : ℤ) → o ≡ some t → now <ℤ t

next_at-IsLater : (o : Option ℤ) (now : ℤ) → IsLater now (next_at o now)
unfolding next_at
next_at-IsLater none now t h = absurd (cc)
next_at-IsLater (some a) now t h = ground arith

next_every-IsLater :
    (o : Option ℤ) (now : ℤ)
    → ((e : ℤ) → o ≡ some e → IsInt64 (now +ℤ e))
    → IsLater now (next_every o now)
unfolding next_every
next_every-IsLater none now fits t h = absurd (cc)
next_every-IsLater (some e) now fits t h =
    ground (arith, add_int64-exact now e (fits e refl), +ℤ_parts now e)

-- A computed next run lies in the future, provided that adding an interval does not overflow and
-- that a tick of the cron library lies after the time that it is given.
compute_next_run-later :
    (g : Gronx) (s : CronSchedule) (now : ℤ)
    → TicksLater g
    → ((e : ℤ) → s.every_ms ≡ some e → IsInt64 (now +ℤ e))
    → (t : ℤ) → compute_next_run g s now ≡ some t
    → now <ℤ t
unfolding compute_next_run
compute_next_run-later g s now later fits =
    if_both (IsLater now) (text_eq s.kind at_kind) _ _ (next_at-IsLater s.at_ms now) (
      if_both (IsLater now) (text_eq s.kind every_kind) _ _ (next_every-IsLater s.every_ms now fits)
        (if_both (IsLater now) (text_eq s.kind cron_kind) _ _
          (if_both (IsLater now) (is_empty s.expr) _ _ (λ t h. absurd (cc))
            (later s.expr (zone_of g s.tz) now))
          (λ t h. absurd (cc))))

find_job-snoc :
    (js : List CronJob) (j : CronJob)
    → in_map (ids js) j.id ≡ false
    → find_job j.id (js ++ j ∷ []) ≡ some j
unfolding find_job in_map
find_job-snoc [] j h = ground (arith, text_eq_refl j.id)
find_job-snoc (x ∷ js) j h = ground (arith, find_job-snoc js j)

-- A job that `AddJob` returned is what a restarted service finds on the disk, if the identifier was
-- new.
add_job_durable :
    (g : Gronx) (id : Text) (now : ℤ) (ok : Bool) (name : Text) (s : CronSchedule) (message : Text)
    (deliver : Bool) (channel to : Text) (cs : CronService) (j : CronJob) (handler : Bool)
    → in_map (ids cs.store.jobs) id ≡ false
    → (add_job g id now ok name s message deliver channel to cs).1 ≡ some j
    → let disk = (add_job g id now ok name s message deliver channel to cs).0.disk in
      find_job id (new_cron_service disk handler).store.jobs ≡ some j
unfolding add_job new_cron_service
add_job_durable g id now true name s message deliver channel to cs j handler fresh h =
    find_job-snoc cs.store.jobs _ fresh ∙ h
add_job_durable g id now false name s message deliver channel to cs j handler fresh h = absurd (cc)

-- Whether a job that is on and has this next run is to run at `t`.
abbrev pub runs_at : ℤ → Option ℤ → Bool
runs_at t none = false
runs_at t (some next) = leb_ℤ next t

due_ids-snoc :
    (t : ℤ) (js : List CronJob) (j : CronJob)
    → in_map (ids js) j.id ≡ false
    → in_map (due_ids t (js ++ j ∷ [])) j.id ≡ is_due t j
unfolding due_ids in_map
due_ids-snoc t [] j h = ground (arith, text_eq_refl j.id)
due_ids-snoc t (x ∷ js) j h = ground (arith, due_ids-snoc t js j)

-- If the write fails, `AddJob` with a new identifier returns an error and no job and the file stays as
-- it was, but the job is in the schedule, switched on, with all that was asked for and the next run
-- of its schedule; and a check that follows claims it as soon as that has come.
pub add_job_failed_stays :
    (g : Gronx) (id : Text) (now : ℤ) (name : Text) (s : CronSchedule) (message : Text)
    (deliver : Bool) (channel to : Text) (cs : CronService) (t : ℤ) (ok : Bool)
    → in_map (ids cs.store.jobs) id ≡ false
    → let (cs', job, err) = add_job g id now false name s message deliver channel to cs in
      (job ≡ none)
      × (err ≡ some save_failed)
      × (cs'.disk ≡ cs.disk)
      × (find_job id cs'.store.jobs
          ≡ some (record {
            id = id;
            name = name;
            enabled = true;
            schedule = s;
            payload = record {
              kind = codes "agent_turn";
              message = message;
              command = [];
              deliver = deliver;
              channel = channel;
              to = to;
            };
            state = record {
              next_run_at_ms = compute_next_run g s now;
              last_run_at_ms = none;
              last_status = [];
              last_error = [];
            };
            created_at_ms = now;
            updated_at_ms = now;
            delete_after_run = text_eq s.kind (codes "at");
          }))
      × (in_map (claim_due t ok cs').0 id ≡ runs_at t (compute_next_run g s now))
unfolding add_job claim_due
add_job_failed_stays g id now name s message deliver channel to cs t ok fresh = (
  refl,
  refl,
  refl,
  find_job-snoc cs.store.jobs _ fresh,
  due_ids-snoc t cs.store.jobs _ fresh ∙ unfold is_due in by_next (compute_next_run g s now),
)
  where
    by_next : (o : Option ℤ) → next_le o t ≡ runs_at t o
    by_next none = refl
    by_next (some next) = refl

pub in_map-due_ids :
    (d : Text) (t : ℤ) (js : List CronJob)
    → in_map (ids js) d ≡ false
    → in_map (due_ids t js) d ≡ false
unfolding due_ids in_map
in_map-due_ids d t [] h = refl
in_map-due_ids d t (j ∷ js) h = ground (arith, in_map-due_ids d t js)

due_ids-off :
    (id : Text) (f : CronJob → CronJob) (t : ℤ) (js : List CronJob)
    → IsDistinct (ids js)
    → ((j : CronJob) → (f j).enabled ≡ false)
    → in_map (due_ids t (modify_job id f js)) id ≡ false
unfolding due_ids modify_job in_map is_due
due_ids-off id f t [] d off = refl
due_ids-off id f t (j ∷ js) d off =
    ground (
      arith,
      off j,
      text_eq_iff j.id id,
      in_map-due_ids j.id t js d.0,
      due_ids-off id f t js d.1 off,
    )

-- In a valid service, a job that is there and that `EnableJob` switches off is not claimed by a check
-- that follows, whatever the clock says.
enable_job-off :
    (g : Gronx) (id : Text) (now now' : ℤ) (ok ok' : Bool) (cs : CronService) (t : ℤ)
    → IsValid cs
    → is_some (find_job id cs.store.jobs) ≡ true
    → in_map (claim_due t ok' (enable_job g id false now now' ok cs).0).0 id ≡ false
unfolding enable_job claim_due
enable_job-off g id now now' ok ok' cs t v h = elim (Option-cases (find_job id cs.store.jobs)) [
  | inl e ↦ absurd (cc)
  | inr (j, e) ↦
      rw (e, enable_job)
        (ap (λ s. in_map (due_ids t s.jobs) id) (save_store-store ok _)
          ∙ due_ids-off id (switch g false now now') t cs.store.jobs v.memory
              (λ k. unfold switch in refl))
]

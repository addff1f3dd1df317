-- ===== src/Cron/Missed.antt =====
-- What `Start` of pkg/cron/service.go makes of a one-shot job whose time has passed.
use chango_assistant.Base.{
  Bool, Bool-cases, List, Option, Text, [], ap, arith, false, if_both, if◌then◌else◌, inl, inr,
  none, refl, some, subst, text_eq, text_eq_iff, text_eq_refl, text_eq→eq, true, ◌∙◌, ◌∷◌, ◌≡◌,
}
use chango_assistant.Base.Int64.{ltb_ℤ, ℤ, ◌≤ℤ◌}
use chango_assistant.Cron.Ids.{IsDistinct, ids, ids-recompute_next_runs}
use chango_assistant.Cron.Jobs.{due_ids, find_job, in_map, is_due, set_next}
use chango_assistant.Cron.Planned.{in_map-due_ids}
use chango_assistant.Cron.Schedule.{Gronx, compute_next_run, next_at}
use chango_assistant.Cron.Service.{
  claim_due, load_store, recompute_next_runs, save_store, start, start_loaded,
}
use chango_assistant.Cron.Types.{CronJob, CronSchedule, CronService, CronStore, at_kind, holds}

compute_next_run-missed :
    (g : Gronx) (s : CronSchedule) (now at : ℤ)
    → s.kind ≡ at_kind
    → s.at_ms ≡ some at
    → at ≤ℤ now
    → compute_next_run g s now ≡ none
unfolding compute_next_run next_at
compute_next_run-missed g s now at kind due le = rw (kind, text_eq_refl at_kind, due, late) refl
  where
    late : ltb_ℤ now at ≡ false
    late = ground arith

-- The job as `recomputeNextRuns` leaves it.
abbrev recomputed : Gronx → ℤ → CronJob → CronJob
recomputed g now j = if j.enabled then set_next (compute_next_run g j.schedule now) j else j

recomputed-off :
    (g : Gronx) (now t : ℤ) (j : CronJob)
    → compute_next_run g j.schedule now ≡ none
    → is_due t (recomputed g now j) ≡ false
unfolding is_due
recomputed-off g now t j h = elim (Bool-cases j.enabled) [
  | inl e ↦ rw (e, h) (ground arith)
  | inr e ↦ rw e refl
]

recomputed-id : (g : Gronx) (now : ℤ) (j : CronJob) → (recomputed g now j).id ≡ j.id
recomputed-id g now j = if_both {A = CronJob} (λ k. k.id ≡ j.id) j.enabled _ _ refl refl

due_ids-missed :
    (g : Gronx) (id : Text) (now t : ℤ) (js : List CronJob) (j : CronJob)
    → IsDistinct (ids js)
    → find_job id js ≡ some j
    → compute_next_run g j.schedule now ≡ none
    → in_map (due_ids t (recompute_next_runs g now js)) id ≡ false
unfolding due_ids recompute_next_runs find_job in_map
due_ids-missed g id now t [] j d found h = refl
due_ids-missed g id now t (k ∷ js) j d found h = elim (Bool-cases (text_eq k.id id)) [
  | inl e ↦
      let here : some k ≡ some j = (rw e at found) in
      let off = recomputed-off g now t k (ap (λ o. next_of o) here ∙ h) in
      let rest =
        in_map-due_ids k.id t (recompute_next_runs g now js)
          (rw (ids-recompute_next_runs g now js) d.0) in
      rw off (
        subst (λ i. in_map (due_ids t (recompute_next_runs g now js)) i ≡ false)
          (text_eq→eq k.id id e) rest)
  | inr e ↦ ground (
    arith,
    recomputed-id g now k,
    text_eq_iff k.id id,
    due_ids-missed g id now t js j d.1 (rw e at found) h,
  )
]
  where
    next_of : Option CronJob → Option ℤ
    next_of none = none
    next_of (some i) = compute_next_run g i.schedule now

in_map-found :
    (id : Text) (js : List CronJob) (j : CronJob)
    → find_job id js ≡ some j
    → in_map (ids js) id ≡ true
unfolding find_job in_map
in_map-found id [] j h = absurd (cc)
in_map-found id (k ∷ js) j h = ground (arith, in_map-found id js j)

start-jobs :
    (g : Gronx) (now : ℤ) (ok : Bool) (s : CronStore) (cs : CronService)
    → cs.running ≡ false
    → cs.disk ≡ holds s
    → (start g now ok cs).0.store.jobs ≡ recompute_next_runs g now s.jobs
unfolding start start_loaded load_store save_store
start-jobs g now true s cs off file = rw (off, file) refl
start-jobs g now false s cs off file = rw (off, file) refl

-- A one-shot job whose time has passed when the service starts again, with distinct identifiers in its
-- file, stays in the store, but no check after the start claims it.
pub start-missed :
    (g : Gronx) (id : Text) (now at t : ℤ) (ok ok' : Bool) (s : CronStore) (cs : CronService)
    (j : CronJob)
    → cs.running ≡ false
    → cs.disk ≡ holds s
    → IsDistinct (ids s.jobs)
    → find_job id s.jobs ≡ some j
    → j.schedule.kind ≡ at_kind
    → j.schedule.at_ms ≡ some at
    → at ≤ℤ now
    → let cs' = (start g now ok cs).0 in
      (in_map (ids cs'.store.jobs) id ≡ true) × (in_map (claim_due t ok' cs').0 id ≡ false)
unfolding claim_due
start-missed g id now at t ok ok' s cs j off file d found kind due le =
    let jobs = start-jobs g now ok s cs off file in
    (
      ap (λ js. in_map (ids js) id) jobs
          ∙ ap (λ ds. in_map ds id) (ids-recompute_next_runs g now s.jobs)
          ∙ in_map-found id s.jobs j found,
      ap (λ js. in_map (due_ids t js) id) jobs
          ∙ due_ids-missed g id now t s.jobs j d found
              (compute_next_run-missed g j.schedule now at kind due le),
    )

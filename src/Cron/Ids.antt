-- ===== src/Cron/Ids.antt =====
-- The identifiers of the jobs, in memory and in the file of pkg/cron/service.go, and what makes a
-- service valid.
use chango_assistant.Base.{
  Bool, Bool-cases, List, Text, [], ap, arith, false, inl, inr, length, ltb, refl, subst, sym,
  text_eq, text_eq_iff, true, ◌++◌, ◌∷◌, ◌≡◌,
}
use chango_assistant.Base.Int64.{ℤ}
use chango_assistant.Cron.Jobs.{clear_due, in_map, modify_job, without_job}
use chango_assistant.Cron.Schedule.{Gronx}
use chango_assistant.Cron.Service.{
  load_store, read_store, recompute_next_runs, remove_job, save_store, with_jobs,
}
use chango_assistant.Cron.Types.{
  CronJob, CronService, StoreFile, holds, malformed, missing, unreadable,
}

abbrev pub ids : List CronJob → List Text
ids [] = []
ids (j ∷ js) = j.id ∷ ids js

-- Only the first occurrence of an identifier counts: no two jobs have one.
abbrev pub IsDistinct : List Text → Type 0
IsDistinct [] = Unit
IsDistinct (d ∷ ds) = (in_map ds d ≡ false) × IsDistinct ds

-- A write to a job with the identifier leaves the identifier as it is.
abbrev pub KeepsId : Text → (CronJob → CronJob) → Type 0
KeepsId id f = (j : CronJob) → text_eq j.id id ≡ true → (f j).id ≡ j.id

pub ids-modify_job :
    (id : Text) (f : CronJob → CronJob) (js : List CronJob)
    → KeepsId id f
    → ids (modify_job id f js) ≡ ids js
unfolding modify_job
ids-modify_job id f [] k = refl
ids-modify_job id f (j ∷ js) k = ground (arith, k j, ids-modify_job id f js k)

pub ids-clear_due : (ds : List Text) (js : List CronJob) → ids (clear_due ds js) ≡ ids js
unfolding clear_due
ids-clear_due ds [] = refl
ids-clear_due ds (j ∷ js) = ground (arith, ids-clear_due ds js)

pub ids-recompute_next_runs :
    (g : Gronx) (now : ℤ) (js : List CronJob) → ids (recompute_next_runs g now js) ≡ ids js
unfolding recompute_next_runs
ids-recompute_next_runs g now [] = refl
ids-recompute_next_runs g now (j ∷ js) = ground (arith, ids-recompute_next_runs g now js)

pub ids-append : (js ks : List CronJob) → ids (js ++ ks) ≡ ids js ++ ids ks
ids-append [] ks = refl
ids-append (j ∷ js) ks = ap (λ t. j.id ∷ t) (ids-append js ks)

in_map-without_job :
    (id d : Text) (js : List CronJob)
    → in_map (ids js) d ≡ false
    → in_map (ids (without_job id js)) d ≡ false
unfolding in_map without_job
in_map-without_job id d [] h = refl
in_map-without_job id d (j ∷ js) h = ground (arith, in_map-without_job id d js)

pub IsDistinct-without_job :
    (id : Text) (js : List CronJob) → IsDistinct (ids js) → IsDistinct (ids (without_job id js))
unfolding without_job
IsDistinct-without_job id [] h = tt
IsDistinct-without_job id (j ∷ js) h =
    ground (arith, in_map-without_job id j.id js h.0, IsDistinct-without_job id js h.1)

in_map-snoc :
    (ds : List Text) (d e : Text)
    → in_map ds e ≡ false
    → text_eq d e ≡ false
    → in_map (ds ++ d ∷ []) e ≡ false
unfolding in_map
in_map-snoc [] d e h k = ground arith
in_map-snoc (x ∷ ds) d e h k = ground (arith, in_map-snoc ds d e)

pub IsDistinct-snoc :
    (ds : List Text) (d : Text) → IsDistinct ds → in_map ds d ≡ false → IsDistinct (ds ++ d ∷ [])
unfolding in_map
IsDistinct-snoc [] d h k = (refl, tt)
IsDistinct-snoc (x ∷ ds) d h k = (
  in_map-snoc ds d x h.0 (ground (arith, text_eq_iff x d, text_eq_iff d x)),
  IsDistinct-snoc ds d h.1 (ground arith),
)

-- The stored jobs have distinct identifiers, and so do those that reading the file
-- leaves in the store.
abbrev DiskIsDistinct : StoreFile → Type 0
DiskIsDistinct missing = Unit
DiskIsDistinct unreadable = Unit
DiskIsDistinct (malformed s) = IsDistinct (ids s.jobs)
DiskIsDistinct (holds s) = IsDistinct (ids s.jobs)

pub record IsValid (cs : CronService) : Type 0 where
  pub memory : IsDistinct (ids cs.store.jobs)
  pub file : DiskIsDistinct cs.disk
  pub loop : cs.stop_chan ≡ cs.running

pub save_store-IsValid : (ok : Bool) (cs : CronService) → IsValid cs → IsValid (save_store ok cs).0
unfolding save_store
save_store-IsValid true cs v = record { memory = v.memory; file = v.memory; loop = v.loop }
save_store-IsValid false cs v = v

pub with_jobs-IsValid :
    (js : List CronJob) (cs : CronService)
    → ids js ≡ ids cs.store.jobs
    → IsValid cs
    → IsValid (with_jobs js cs)
with_jobs-IsValid js cs e v = record {
  memory = subst IsDistinct (sym e) v.memory;
  file = v.file;
  loop = v.loop;
}

pub load_store-IsValid : (cs : CronService) → IsValid cs → IsValid (load_store cs).0
unfolding load_store
load_store-IsValid cs v = record { memory = go cs.disk v.file; file = v.file; loop = v.loop }
  where
    go : (f : StoreFile) → DiskIsDistinct f → IsDistinct (ids (read_store f).0.jobs)
    go missing h = tt
    go unreadable h = tt
    go (malformed s) h = h
    go (holds s) h = h

pub remove_job-IsValid :
    (ok : Bool) (id : Text) (cs : CronService) → IsValid cs → IsValid (remove_job ok id cs).0
unfolding remove_job
remove_job-IsValid ok id cs v = elim (Bool-cases removed) [
  | inl e ↦ rw e (save_store-IsValid ok cs' v')
  | inr e ↦ rw e v'
]
  where
    js : List CronJob
    js = without_job id cs.store.jobs

    cs' : CronService
    cs' = with_jobs js cs

    removed : Bool
    removed = ltb (length js) (length cs.store.jobs)

    v' : IsValid cs'
    v' = record {
      memory = IsDistinct-without_job id cs.store.jobs v.memory;
      file = v.file;
      loop = v.loop;
    }

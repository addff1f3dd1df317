-- ===== src/Cron/Claim.antt =====
-- How `checkJobs` claims the due jobs before it runs them, and when the next job is due.
use chango_assistant.Base.{
  All, Bool, Bool-cases, List, Option, Text, [], arith, false, inl, inr, none, refl, subst, sym,
  text_eq_refl, true, ◌||◌, ◌∷◌, ◌≡◌,
}
use chango_assistant.Base.Int64.{ℤ, ◌≤ℤ◌}
use chango_assistant.Cron.Jobs.{
  clear_due, due_ids, earlier, in_map, is_due, next_le, next_wake, next_wake_from,
}
use chango_assistant.Cron.Service.{claim_due, save_store}
use chango_assistant.Cron.Types.{CronJob, CronService}

-- Every job that is due has its identifier in the list.
abbrev Covers : List Text → ℤ → List CronJob → Type 0
Covers ds now = All (λ j. is_due now j ≡ true → in_map ds j.id ≡ true)

Covers-cons :
    (d : Text) (ds : List Text) (now : ℤ) (js : List CronJob)
    → Covers ds now js
    → Covers (d ∷ ds) now js
unfolding in_map
Covers-cons d ds now [] c = tt
Covers-cons d ds now (j ∷ js) c = (λ h. ground (arith, c.0 h), Covers-cons d ds now js c.1)

due_ids-due :
    (now : ℤ) (j : CronJob) (js : List CronJob)
    → is_due now j ≡ true
    → due_ids now (j ∷ js) ≡ j.id ∷ due_ids now js
unfolding due_ids
due_ids-due now j js h = rw h

due_ids-idle :
    (now : ℤ) (j : CronJob) (js : List CronJob)
    → is_due now j ≡ false
    → due_ids now (j ∷ js) ≡ due_ids now js
unfolding due_ids
due_ids-idle now j js h = rw h

due_ids-Covers : (now : ℤ) (js : List CronJob) → Covers (due_ids now js) now js
unfolding in_map
due_ids-Covers now [] = tt
due_ids-Covers now (j ∷ js) = elim (Bool-cases (is_due now j)) [
  | inl due ↦
      subst (λ ds. Covers ds now (j ∷ js)) (sym (due_ids-due now j js due))
        (
          λ _. ground (arith, text_eq_refl j.id),
          Covers-cons j.id (due_ids now js) now js (due_ids-Covers now js),
        )
  | inr idle ↦
      subst (λ ds. Covers ds now (j ∷ js)) (sym (due_ids-idle now j js idle))
        (λ h. absurd (cc), due_ids-Covers now js)
]

due_ids-clear_due :
    (ds : List Text) (now now' : ℤ) (js : List CronJob)
    → now' ≤ℤ now
    → Covers ds now js
    → due_ids now' (clear_due ds js) ≡ []
unfolding due_ids clear_due is_due
due_ids-clear_due ds now now' [] le c = refl
due_ids-clear_due ds now now' (j ∷ js) le c =
    ground (arith, c.0, due_ids-clear_due ds now now' js le c.1)

-- A check that has claimed the due jobs leaves none for another one that follows at once with the same
-- or an earlier reading of the clock, whether or not the writes to the disk succeed.
pub claim_due_once :
    (now now' : ℤ) (ok ok' : Bool) (cs : CronService)
    → now' ≤ℤ now
    → (claim_due now' ok' (claim_due now ok cs).1).0 ≡ []
unfolding claim_due save_store
claim_due_once now now' true ok' cs le =
    due_ids-clear_due _ now now' cs.store.jobs le (due_ids-Covers now cs.store.jobs)
claim_due_once now now' false ok' cs le =
    due_ids-clear_due _ now now' cs.store.jobs le (due_ids-Covers now cs.store.jobs)

earlier-next_le :
    (wake : Option ℤ) (j : CronJob) (t : ℤ)
    → next_le (earlier wake j) t ≡ (next_le wake t || is_due t j)
unfolding earlier is_due
earlier-next_le wake j t = ground arith

abbrev pub some_due : List Text → Bool
some_due [] = false
some_due (d ∷ ds) = true

next_wake_from-next_le :
    (wake : Option ℤ) (js : List CronJob) (t : ℤ)
    → next_le (next_wake_from wake js) t ≡ (next_le wake t || some_due (due_ids t js))
unfolding next_wake_from due_ids
next_wake_from-next_le wake [] t = ground arith
next_wake_from-next_le wake (j ∷ js) t =
    ground (arith, next_wake_from-next_le (earlier wake j) js t, earlier-next_le wake j t)

-- `getNextWakeMS` is the earliest time at which a job is due: at any moment, some job is due exactly if
-- that time has come; if there is none, no job will ever be.
next_wake-due : (js : List CronJob) (t : ℤ) → next_le (next_wake js) t ≡ some_due (due_ids t js)
unfolding next_wake
next_wake-due js t = next_wake_from-next_le none js t

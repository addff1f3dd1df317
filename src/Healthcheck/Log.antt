-- ===== src/Healthcheck/Log.antt =====
-- What the monitor logs.
use chango_assistant.Base.{
  All, Bool-cases, List, Option, Text, [], ap, arith, drop, false, inl, inr, length, length-drop,
  ltb, none, refl, some, true, ℕ, ◌++◌, ◌-◌, ◌∷◌, ◌≡◌, ◌≤◌,
}
use chango_assistant.Healthcheck.Service.{
  HealthCheck, HealthEndpoint, Service, check_endpoint, check_endpoints, checks_of, last_entries,
  max_log_entries, save_log,
}

-- Every entry that a round puts in the log says 0 consecutive failures.
logged_failures :
    (get : HealthEndpoint → Option ℕ) (now : Text) (eps : List HealthEndpoint) (s : Service)
    → All (λ r. r.failures ≡ 0) (check_endpoints get now eps s).0
unfolding check_endpoints check_endpoint
logged_failures get now [] s = tt
logged_failures get now (ep ∷ eps) s = (zero_failures (get ep), logged_failures get now eps _)
  where
    zero_failures : (o : Option ℕ) → (check_endpoint ep now o).failures ≡ 0
    zero_failures none = refl
    zero_failures (some c) = refl

-- A log that is written holds at most a hundred checks, the last ones of what was there and the new
-- ones after it.
save_log-last :
    (new : List HealthCheck) (log : Option (List HealthCheck))
    → (length (checks_of (save_log true new log)) ≤ max_log_entries)
      × (checks_of (save_log true new log) ≡ last_entries (checks_of log ++ new))
unfolding save_log
save_log-last new log =
    let cs = checks_of log ++ new in
    elim (Bool-cases (ltb max_log_entries (length cs))) [
      | inl e ↦ rw e (omega (arith, length-drop (length cs - max_log_entries) cs), refl)
      | inr e ↦ rw e (ground arith, ap (λ n. drop n cs) (zero_excess (length cs) e))
    ]
  where
    zero_excess : (n : ℕ) → ltb max_log_entries n ≡ false → 0 ≡ n - max_log_entries
    zero_excess n h = ground arith

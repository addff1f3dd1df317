-- ===== src/Tests/StateCases.antt =====
-- The experiments, the token budget and the health monitor.
use chango_assistant.Base.{
  List, Option, Text, [], codes, false, if◌then◌else◌, refl, some, text_eq, true, ℕ, ◌/◌, ◌∷◌, ◌≡◌,
  ◌⊎◌,
}
use chango_assistant.Base.Int64.{add_int64, pos, ℤ, ◌+ℤ◌, ◌≤ℤ◌}
use chango_assistant.Experiments.Store.{
  ExperimentsFile, Hypothesis, Store, active_status, add, max_active,
}
use chango_assistant.Healthcheck.Failures.{due_actions, rounds, rounds-actions, streak}
use chango_assistant.Healthcheck.Service.{
  HealthCheck, HealthEndpoint, Service, check_endpoint, check_endpoints, failures_of, restart,
}
use chango_assistant.Telemetry.Budget.{BudgetFile, Moment, TokenBudget, can_spend, record_usage}
use chango_assistant.Telemetry.Spending.{can_spend-record_usage, checks}

abbrev hypothesis : Text → Text → ℤ → Hypothesis
hypothesis id status cycles = record {
  id = id;
  title = [];
  description = [];
  category = codes "tone";
  adjustment = [];
  criteria = [];
  status = status;
  created_at = codes "2026";
  evaluated_at = [];
  cycle_count = cycles;
  max_cycles = pos 4;
}

-- Three active hypotheses, one of them over, and one that was rejected.
abbrev full_store : Store
full_store = record {
  hypotheses =
      hypothesis (codes "1") active_status (pos 0)
      ∷ hypothesis (codes "2") active_status (pos 4)
      ∷ hypothesis (codes "3") active_status (pos 1)
      ∷ hypothesis (codes "4") (codes "rejected") (pos 2)
      ∷ [];
  file = ExperimentsFile.missing;
}

full_run : (add [] true (hypothesis (codes "5") [] (pos 0)) full_store).1 ≡ some max_active
unfolding add text_eq
full_run = refl

-- A day has a hundred units of time.
abbrev day_of : ℕ → Text
day_of t = (t / 100) ∷ []

abbrev some_budget : TokenBudget
some_budget = record {
  daily_limit = pos 1000;
  background_max = pos 100;
  today_used = pos 900;
  bg_used = pos 50;
  last_reset = 110;
  file = BudgetFile.missing;
}

abbrev at_time : ℕ → Moment
at_time t = record { now = t; reset_saved = t; saved = t; reset_ok = true; ok = true }

can_spend-record_usage_example :
    let tb' = record_usage day_of (at_time 130) (pos 40) true (
      checks day_of
        ((at_time 125, pos 7, false) ∷ [])
        (can_spend day_of (at_time 120) (pos 40) true some_budget).1) in
    (tb'.today_used ≤ℤ tb'.daily_limit) × ((true ≡ false) ⊎ (tb'.bg_used ≤ℤ tb'.background_max))
can_spend-record_usage_example =
    can_spend-record_usage day_of (at_time 120) (at_time 130) (pos 40) true
      ((at_time 125, pos 7, false) ∷ []) some_budget (refl, tt) refl
      (unfold can_spend text_eq add_int64 ◌+ℤ◌ in refl)

abbrev endpoint : HealthEndpoint
endpoint = record {
  name = codes "web";
  url = codes "http://web";
  expect_status = 0;
  container = codes "box";
}

abbrev monitor : Service
monitor = record { failures = []; has_bus = true; last_channel = codes "telegram:7" }

abbrev other_endpoint : HealthEndpoint
other_endpoint = record endpoint { name = codes "db" }

-- The first endpoint fails and the other one answers.
abbrev first_fails : HealthEndpoint → Option ℕ
first_fails ep = if text_eq ep.name (codes "web") then some 500 else some 200

-- The third failure in a row restarts the container, the other endpoint's answers notwithstanding.
third_failure :
    (check_endpoints first_fails []
      (endpoint ∷ other_endpoint ∷ [])
      (rounds (first_fails ∷ first_fails ∷ []) [] (endpoint ∷ other_endpoint ∷ []) monitor)).1
    ≡ restart (codes "box") ∷ []
unfolding rounds check_endpoints check_endpoint text_eq
third_failure = refl

rounds-actions_example :
    (check_endpoints first_fails []
      (endpoint ∷ other_endpoint ∷ [])
      (rounds (first_fails ∷ first_fails ∷ []) [] (endpoint ∷ other_endpoint ∷ []) monitor)).1
    ≡ due_actions first_fails
        (λ e. streak e (first_fails ∷ first_fails ∷ first_fails ∷ []) (failures_of e.name monitor))
        monitor
        (endpoint ∷ other_endpoint ∷ [])
rounds-actions_example =
    rounds-actions first_fails (first_fails ∷ first_fails ∷ []) [] (endpoint ∷ other_endpoint ∷ [])
      monitor (unfold text_eq in ((refl, tt), (tt, tt)))

abbrev one_check : List HealthCheck
one_check =
    record { name = []; url = []; status = 200; ok = true; timestamp = []; failures = 0 } ∷ []

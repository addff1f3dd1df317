-- ===== src/Healthcheck/Failures.antt =====
-- When the monitor acts.
use chango_assistant.Base.{
  All, Bool, List, Option, Text, [], ap, arith, false, if◌then◌else◌, lookup-insert,
  lookup-insert_self, none, not, refl, some, suc, text_eq, text_eq_comm, ℕ, ◌&&◌, ◌++◌, ◌+◌, ◌==◌,
  ◌∙◌, ◌∷◌, ◌≡◌,
}
use chango_assistant.Healthcheck.Service.{
  Action, HealthCheck, HealthEndpoint, Service, check_endpoint, check_endpoints, count_failure,
  failures_of, or_zero, react, restart, send_alert,
}

-- The endpoint answers with the status that is expected of it.
abbrev pub answers : HealthEndpoint → Option ℕ → Bool
answers ep none = false
answers ep (some code) = code == (if ep.expect_status == 0 then 200 else ep.expect_status)

abbrev pub status_of : Option ℕ → ℕ
status_of none = 0
status_of (some code) = code

-- The failures in a row, with one more answer.
abbrev pub one_more : HealthEndpoint → Option ℕ → ℕ → ℕ
one_more ep answer n = if answers ep answer then 0 else suc n

-- The failures in a row after rounds with these answers, the latest first, and `n` before them.
abbrev pub streak : HealthEndpoint → List (HealthEndpoint → Option ℕ) → ℕ → ℕ
streak ep [] n = n
streak ep (get ∷ before) n = one_more ep (get ep) (streak ep before n)

-- What a round does that finds each endpoint at these failures in a row.
abbrev pub due_actions :
    (HealthEndpoint → Option ℕ) → (HealthEndpoint → ℕ) → Service → List HealthEndpoint → List Action
due_actions get count s [] = []
due_actions get count s (ep ∷ eps) =
    ((if (count ep == 3) && not (text_eq ep.container []) then restart ep.container ∷ [] else [])
      ++ (if (count ep == 5) && s.has_bus
          then send_alert ep (count ep) (status_of (get ep)) s
          else []))
    ++ due_actions get count s eps

-- The endpoints have distinct names.
abbrev pub HasDistinctNames : List HealthEndpoint → Type 0
HasDistinctNames [] = Unit
HasDistinctNames (ep ∷ eps) = All (λ e. text_eq ep.name e.name ≡ false) eps × HasDistinctNames eps

-- The service after rounds with these answers, the latest first.
unfoldable pub rounds :
    List (HealthEndpoint → Option ℕ) → Text → List HealthEndpoint → Service → Service
rounds [] now eps s = s
rounds (get ∷ before) now eps s = (check_endpoints get now eps (rounds before now eps s)).2

-- The counters are these.
abbrev Counts : (HealthEndpoint → ℕ) → Service → List HealthEndpoint → Type 0
Counts c s eps = All (λ e. failures_of e.name s ≡ c e) eps

checked-ok :
    (ep : HealthEndpoint) (now : Text) (o : Option ℕ) → (check_endpoint ep now o).ok ≡ answers ep o
unfolding check_endpoint
checked-ok ep now none = refl
checked-ok ep now (some code) = refl

checked-status :
    (ep : HealthEndpoint) (now : Text) (o : Option ℕ)
    → (check_endpoint ep now o).status ≡ status_of o
unfolding check_endpoint
checked-status ep now none = refl
checked-status ep now (some code) = refl

-- Counting for one endpoint.
counted-own :
    (ep : HealthEndpoint) (now : Text) (o : Option ℕ) (s : Service)
    → failures_of ep.name (count_failure ep (check_endpoint ep now o) s)
      ≡ one_more ep o (failures_of ep.name s)
unfolding count_failure
counted-own ep now o s =
    ap or_zero (lookup-insert_self ep.name _ s.failures) ∙ rw (checked-ok ep now o) (ground arith)

counted-other :
    (ep : HealthEndpoint) (r : HealthCheck) (name : Text) (s : Service)
    → text_eq ep.name name ≡ false
    → failures_of name (count_failure ep r s) ≡ failures_of name s
unfolding count_failure
counted-other ep r name s h =
    rw (lookup-insert ep.name name (if r.ok then 0 else failures_of ep.name s + 1) s.failures, h)
      refl

Counts-counted :
    (c : HealthEndpoint → ℕ) (ep : HealthEndpoint) (r : HealthCheck) (s : Service)
    (eps : List HealthEndpoint)
    → All (λ e. text_eq ep.name e.name ≡ false) eps
    → Counts c s eps
    → Counts c (count_failure ep r s) eps
Counts-counted c ep r s [] apart h = tt
Counts-counted c ep r s (e ∷ eps) apart h =
    (counted-other ep r e.name s apart.0 ∙ h.0, Counts-counted c ep r s eps apart.1 h.1)

module _ (get : HealthEndpoint → Option ℕ) (now : Text) where
  -- An endpoint that is not among them keeps its counter.
  check_endpoints-other :
      (eps : List HealthEndpoint) (name : Text) (s : Service)
      → All (λ e. text_eq name e.name ≡ false) eps
      → failures_of name (check_endpoints get now eps s).2 ≡ failures_of name s
  unfolding check_endpoints
  check_endpoints-other [] name s apart = refl
  check_endpoints-other (ep ∷ eps) name s apart =
      check_endpoints-other eps name _ apart.1
      ∙ counted-other ep (check_endpoint ep now (get ep)) name s
          (text_eq_comm ep.name name ∙ apart.0)

  check_endpoints-sends :
      (eps : List HealthEndpoint) (s : Service)
      → let s' = (check_endpoints get now eps s).2 in
        (s'.has_bus ≡ s.has_bus) × (s'.last_channel ≡ s.last_channel)
  unfolding check_endpoints count_failure
  check_endpoints-sends [] s = (refl, refl)
  check_endpoints-sends (ep ∷ eps) s = check_endpoints-sends eps _

  check_endpoints-Counts :
      (c : HealthEndpoint → ℕ) (eps : List HealthEndpoint) (s : Service)
      → HasDistinctNames eps
      → Counts c s eps
      → Counts (λ e. one_more e (get e) (c e)) (check_endpoints get now eps s).2 eps
  unfolding check_endpoints
  check_endpoints-Counts c [] s d h = tt
  check_endpoints-Counts c (ep ∷ eps) s d h =
      let s' = count_failure ep (check_endpoint ep now (get ep)) s in
      (
        check_endpoints-other eps ep.name s' d.0
            ∙ counted-own ep now (get ep) s
            ∙ ap (one_more ep (get ep)) h.0,
        check_endpoints-Counts c eps s' d.1
            (Counts-counted c ep (check_endpoint ep now (get ep)) s eps d.0 h.1),
      )

  due_actions-counted :
      (count : HealthEndpoint → ℕ) (ep : HealthEndpoint) (r : HealthCheck) (s : Service)
      (eps : List HealthEndpoint)
      → due_actions get count (count_failure ep r s) eps ≡ due_actions get count s eps
  unfolding count_failure send_alert
  due_actions-counted count ep r s [] = refl
  due_actions-counted count ep r s (e ∷ eps) = rw (due_actions-counted count ep r s eps) refl

  react-due :
      (ep : HealthEndpoint) (n : ℕ) (s : Service)
      → let s' = count_failure ep (check_endpoint ep now (get ep)) s in
        react ep (check_endpoint ep now (get ep)) n s'
        ≡ (if (n == 3) && not (text_eq ep.container []) then restart ep.container ∷ [] else [])
          ++ (if (n == 5) && s.has_bus then send_alert ep n (status_of (get ep)) s else [])
  unfolding react count_failure send_alert
  react-due ep n s = rw (checked-status ep now (get ep)) refl

  check_endpoints-actions :
      (c : HealthEndpoint → ℕ) (eps : List HealthEndpoint) (s : Service)
      → HasDistinctNames eps
      → Counts c s eps
      → (check_endpoints get now eps s).1 ≡ due_actions get (λ e. one_more e (get e) (c e)) s eps
  unfolding check_endpoints
  check_endpoints-actions c [] s d h = refl
  check_endpoints-actions c (ep ∷ eps) s d h =
      let r = check_endpoint ep now (get ep) in
      let s' = count_failure ep r s in
      let n : failures_of ep.name s' ≡ one_more ep (get ep) (c ep) =
        counted-own ep now (get ep) s ∙ ap (one_more ep (get ep)) h.0 in
      ap (λ t. react ep r (failures_of ep.name s') s' ++ t)
        (check_endpoints-actions c eps s' d.1 (Counts-counted c ep r s eps d.0 h.1)
          ∙ due_actions-counted (λ e. one_more e (get e) (c e)) ep r s eps)
      ∙ ap (λ k. react ep r k s' ++ due_actions get (λ e. one_more e (get e) (c e)) s eps) n
      ∙ ap (λ x. x ++ due_actions get (λ e. one_more e (get e) (c e)) s eps)
          (react-due ep (one_more ep (get ep) (c ep)) s)

rounds-Counts :
    (gets : List (HealthEndpoint → Option ℕ)) (now : Text) (eps : List HealthEndpoint) (s : Service)
    → HasDistinctNames eps
    → Counts (λ e. failures_of e.name s) s eps
    → Counts (λ e. streak e gets (failures_of e.name s)) (rounds gets now eps s) eps
unfolding rounds
rounds-Counts [] now eps s d h = h
rounds-Counts (get ∷ before) now eps s d h =
    check_endpoints-Counts get now (λ e. streak e before (failures_of e.name s)) eps _ d
      (rounds-Counts before now eps s d h)

Counts-self : (s : Service) (eps : List HealthEndpoint) → Counts (λ e. failures_of e.name s) s eps
Counts-self s [] = tt
Counts-self s (ep ∷ eps) = (refl, Counts-self s eps)

rounds-sends :
    (gets : List (HealthEndpoint → Option ℕ)) (now : Text) (eps : List HealthEndpoint) (s : Service)
    → let s' = rounds gets now eps s in
      (s'.has_bus ≡ s.has_bus) × (s'.last_channel ≡ s.last_channel)
unfolding rounds
rounds-sends [] now eps s = (refl, refl)
rounds-sends (get ∷ before) now eps s =
    let (bus, chan) = rounds-sends before now eps s in
    let (bus', chan') = check_endpoints-sends get now eps (rounds before now eps s) in
    (bus' ∙ bus, chan' ∙ chan)

due_actions-cong :
    (get : HealthEndpoint → Option ℕ) (count : HealthEndpoint → ℕ) (s t : Service)
    (eps : List HealthEndpoint)
    → s.has_bus ≡ t.has_bus
    → s.last_channel ≡ t.last_channel
    → due_actions get count s eps ≡ due_actions get count t eps
unfolding send_alert
due_actions-cong get count s t [] bus chan = refl
due_actions-cong get count s t (ep ∷ eps) bus chan =
    rw (bus, chan, due_actions-cong get count s t eps bus chan) refl

-- After any rounds over endpoints with distinct names, whatever they answer, the next round restarts
-- the container of an endpoint, if it has one, exactly when its failures in a row reach three, and
-- sends an alert for it, if one can be sent, exactly when they reach five, in the order of the
-- endpoints. An answer with the expected status begins the count of its endpoint anew, and the
-- answers of the others do not touch it.
pub rounds-actions :
    (get : HealthEndpoint → Option ℕ) (before : List (HealthEndpoint → Option ℕ)) (now : Text)
    (eps : List HealthEndpoint) (s : Service)
    → HasDistinctNames eps
    → (check_endpoints get now eps (rounds before now eps s)).1
      ≡ due_actions get (λ e. streak e (get ∷ before) (failures_of e.name s)) s eps
rounds-actions get before now eps s d =
    let (bus, chan) = rounds-sends before now eps s in
    check_endpoints-actions get now (λ e. streak e before (failures_of e.name s)) eps
      (rounds before now eps s) d (rounds-Counts before now eps s d (Counts-self s eps))
    ∙ due_actions-cong get (λ e. streak e (get ∷ before) (failures_of e.name s))
        (rounds before now eps s) s eps bus chan

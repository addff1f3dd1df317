-- ===== src/Agent/Recovery.antt =====
-- What a failed call of the model leads to in pkg/agent/loop.go and `tryAutoRecovery` of
-- pkg/agent/commands.go, and how `runLLMIteration` ends.
use chango_assistant.Base.{
  All, Bool-cases, List, Option, Text, [], ap, false, inl, inr, leb, leb_false→lt, leb→le, none,
  refl, some, suc, text_eq, text_eq→eq, ◌++◌, ◌<◌, ◌∷◌, ◌≡◌, ◌≤◌, ◌⊎◌,
}
use chango_assistant.Agent.State.{
  Agent, Env, Provider, fallback_order, max_fails, on_failure, switched, try_auto_recovery,
  try_candidates,
}

module _ {W H : Type 0} (env : Env W) where
  -- A candidate is the provider in use, or its provider cannot be created.
  abbrev pub Fails : Agent W H → Text → Type 0
  Fails a c =
      (c ≡ a.default_provider)
      ⊎ (env.create_provider c (env.default_model c a.model) a.world ≡ none)

  -- The first candidate that works, other than the provider in use.
  abbrev pub Works : Agent W H → List Text → Text → Provider W → Type 0
  Works a tried c provider =
      All (Fails a) tried
      × (text_eq c a.default_provider ≡ false)
      × (env.create_provider c (env.default_model c a.model) a.world ≡ some provider)

  -- The agent with a candidate's provider.
  abbrev pub with_provider : Agent W H → Text → Provider W → Agent W H
  with_provider a c provider = record a {
    provider = provider;
    model = env.default_model c a.model;
    default_provider = c;
    default_model = env.default_model c a.model;
    consecutive_fails = 0;
    world = env.set_model (env.default_model c a.model) a.world;
  }

  abbrev pub Recovers : List Text → Agent W H → Agent W H → Type 0
  Recovers candidates a a' =
      (All (Fails a) candidates × (a' ≡ a))
      ⊎ ((tried : List Text) × (c : Text) × (rest : List Text) × (provider : Provider W)
          × (candidates ≡ tried ++ c ∷ rest)
          × Works a tried c provider
          × (a' ≡ with_provider a c provider))

  -- One more candidate that fails in front.
  Recovers-cons :
      (c : Text) (cs : List Text) (a a' : Agent W H)
      → Fails a c
      → Recovers cs a a'
      → Recovers (c ∷ cs) a a'
  Recovers-cons c cs a a' f (inl (fs, e)) = inl ((f, fs), e)
  Recovers-cons c cs a a' f (inr (tried, d, rest, p, e, (fs, ne, made), e')) =
      inr (c ∷ tried, d, rest, p, ap (λ l. c ∷ l) e, ((f, fs), ne, made), e')

  switched-Recovers :
      (o : Option (Provider W)) (c : Text) (cs : List Text) (a next : Agent W H)
      → text_eq c a.default_provider ≡ false
      → env.create_provider c (env.default_model c a.model) a.world ≡ o
      → Recovers cs a next
      → Recovers (c ∷ cs) a (switched env o c (env.default_model c a.model) next a)
  switched-Recovers none c cs a next ne e r = Recovers-cons c cs a next (inr e) r
  switched-Recovers (some p) c cs a next ne e r = inr ([], c, cs, p, refl, (tt, ne, e), refl)

  try_candidates-Recovers :
      (cs : List Text) (a : Agent W H) → Recovers cs a (try_candidates env cs a)
  unfolding try_candidates
  try_candidates-Recovers [] a = inl (tt, refl)
  try_candidates-Recovers (c ∷ cs) a = elim (Bool-cases (text_eq c a.default_provider)) [
    | inl e ↦ rw e (
        Recovers-cons c cs a (try_candidates env cs a) (inl (text_eq→eq _ _ e))
          (try_candidates-Recovers cs a))
    | inr e ↦ rw e (
        switched-Recovers (env.create_provider c (env.default_model c a.model) a.world) c cs a
          (try_candidates env cs a) e refl (try_candidates-Recovers cs a))
  ]

  -- A failed call is counted. Up to the second in a row nothing else changes. From the third on the
  -- candidates are tried in order: the first that is not the provider in use and can be created takes
  -- its place with its own model, in memory, and the count starts again; where there is none, nothing
  -- else changes.
  pub on_failure_lem :
      (a : Agent W H)
      → let counted = record a { consecutive_fails = suc a.consecutive_fails } in
        ((suc a.consecutive_fails < max_fails) × (on_failure env a ≡ counted))
        ⊎ ((max_fails ≤ suc a.consecutive_fails)
            × Recovers fallback_order counted (on_failure env a))
  unfolding on_failure try_auto_recovery
  on_failure_lem a = elim (Bool-cases (leb max_fails (suc a.consecutive_fails))) [
    | inl e ↦ rw e (
        inr (
          leb→le _ _ e,
          try_candidates-Recovers fallback_order
              (record a { consecutive_fails = suc a.consecutive_fails }),
        ))
    | inr e ↦ rw e (inl (leb_false→lt _ _ e, refl))
  ]

-- ===== src/Agent/Ends.antt =====
-- How `runLLMIteration` of pkg/agent/loop.go ends.
use chango_assistant.Base.{
  Bool-cases, List, Text, [], arith, codes, contains, false, if_both, inl, inr, leb, leb→le, none,
  not, refl, some, suc, text_eq, text_ne, trim_space, true, zero, ℕ, ◌&&◌, ◌++◌, ◌+◌, ◌∷◌, ◌≡◌, ◌≢◌,
  ◌≤◌, ◌⊎◌,
}
use chango_assistant.Agent.Iteration.{
  Ended, Round, ask, event_of, go_on, loop, next_round, on_calls, on_response, run_call, run_calls,
  run_llm_iteration, show_user, stop, user_error, vision_notice, with_notice, with_vision_notice,
}
use chango_assistant.Agent.State.{Agent, Env, ProcessOptions, Provider, emit_event, save_message}
use chango_assistant.Providers.Types.{LlmResponse, Message, ToolCall}
use chango_assistant.Tools.Loop.{assistant_message, is_blank}
use chango_assistant.Tools.Registry.{execute_with_context}
use chango_assistant.Tools.Result.{ToolResult}

append_not-nil : (xs ys : List ℕ) → xs ≢ [] → xs ++ ys ≢ []
append_not-nil [] ys h = absurd (h refl)
append_not-nil (x ∷ xs) ys h = λ e. cc

not_blank : (s : Text) → is_blank s ≡ false → s ≢ []
not_blank [] h = absurd (unfold is_blank text_eq trim_space in cc)
not_blank (x ∷ s) h = λ e. cc

with_vision_notice-nil : (notice : Text) → with_vision_notice notice [] ≡ []
unfolding with_vision_notice text_eq
with_vision_notice-nil notice = ground arith

with_vision_notice-not_nil : (notice s : Text) → s ≢ [] → with_vision_notice notice s ≢ []
unfolding with_vision_notice
with_vision_notice-not_nil notice s h = elim (Bool-cases (text_eq notice [])) [
  | inl e ↦ rw e h
  | inr e ↦ rw e (
      if_both (λ x. x ≢ []) (not (text_eq s []) && not (contains s notice)) _ _
        (append_not-nil notice _ (text_ne notice [] e)) h)
]

-- The content and the rounds are those of an end without an error.
abbrev pub Answered : ℕ → Text → ℕ → Type 0
Answered max_iterations content rounds =
    (content ≢ []) ⊎ ((content ≡ []) × (rounds ≡ max_iterations))

-- The agent uses this provider and this model.
abbrev pub Uses : {W H : Type 0} → Provider W → Text → Agent W H → Type 0
Uses p model b = (b.provider ≡ p) × (b.model ≡ model)

module _ {W H : Type 0} (env : Env W) (opts : ProcessOptions) where
  show_user-Uses :
      (p : Provider W) (model : Text) (r : ToolResult) (a : Agent W H)
      → Uses p model a
      → Uses p model (show_user env opts r a)
  unfolding show_user
  show_user-Uses p model r a u = if_both (Uses p model) _ _ _ u u

  run_call-Uses :
      (p : Provider W) (model : Text) (tc : ToolCall) (a : Agent W H)
      → Uses p model a
      → Uses p model (run_call env opts tc a).2
  unfolding run_call emit_event save_message
  run_call-Uses p model tc a u =
      let ready : Agent W H = emit_event env (event_of tc.name) a in
      let (r, w) =
        execute_with_context env.quote env.tools tc.name tc.arguments opts.channel opts.chat_id true
          ready.world in
      show_user-Uses p model r (record ready { world = w }) u

  run_calls-Uses :
      (p : Provider W) (model : Text) (tcs : List ToolCall) (a : Agent W H)
      → Uses p model a
      → Uses p model (run_calls env opts tcs a).2
  unfolding run_calls
  run_calls-Uses p model [] a u = u
  run_calls-Uses p model (tc ∷ tcs) a u =
      run_calls-Uses p model tcs (run_call env opts tc a).2 (run_call-Uses p model tc a u)

module _ {W H : Type 0} (env : Env W) (opts : ProcessOptions) (p : Provider W) (model : Text) where
  -- An end with an error has one that this provider gave when it was asked with this model, some
  -- messages, and some sessions and world of the agent.
  abbrev pub EndsWell : Ended W H → Type 0
  EndsWell e =
      (e.iterations ≤ env.max_iterations)
      × (((x : Text) × ((ms : List Message) × (b : Agent W H) × Uses p model b
              × ((ask env opts ms b).0 ≡ inl x))
            × (e.err ≡ some (codes "LLM call failed: " ++ x))
            × (e.content ≡ user_error x)
            × (e.media ≡ []))
          ⊎ ((e.err ≡ none) × Answered env.max_iterations e.content e.iterations))

  abbrev RoundEndsWell : Round W H → Type 0
  RoundEndsWell (stop e) = EndsWell e
  RoundEndsWell (go_on ms media a) = Uses p model a

  on_calls-RoundEndsWell :
      (iteration : ℕ) (ms : List Message) (media : List Text) (r : LlmResponse)
      (tcs : List ToolCall) (a : Agent W H)
      → Uses p model a
      → iteration ≤ env.max_iterations
      → RoundEndsWell (on_calls env opts iteration ms media r tcs a)
  unfolding on_calls
  on_calls-RoundEndsWell iteration ms media r [] a u h = elim (Bool-cases (is_blank r.content)) [
    | inl e ↦ elim (Bool-cases (leb env.max_iterations iteration)) [
      | inl z ↦ rw (e, z) (h, inr (refl, inr (refl, omega (arith, leb→le _ _ z))))
      | inr z ↦ rw (e, z) u
    ]
    | inr e ↦ rw e (h, inr (refl, inl (not_blank r.content e)))
  ]
  on_calls-RoundEndsWell iteration ms media r (tc ∷ tcs) a u h =
      run_calls-Uses env opts p model (tc ∷ tcs)
        (save_message env opts.session_key (assistant_message env.marshal r) a)
        (unfold save_message in u)

  on_response-RoundEndsWell :
      (iteration : ℕ) (ms : List Message) (media : List Text) (reply : Text ⊎ LlmResponse)
      (a b : Agent W H)
      → (ask env opts ms b).0 ≡ reply
      → Uses p model a
      → Uses p model b
      → iteration ≤ env.max_iterations
      → RoundEndsWell (on_response env opts iteration ms media reply a)
  unfolding on_response
  on_response-RoundEndsWell iteration ms media (inl e) a b asked u v h =
      (h, inl (e, (ms, b, v, asked), refl, refl, refl))
  on_response-RoundEndsWell iteration ms media (inr r) a b asked u v h =
      on_calls-RoundEndsWell iteration ms media r r.tool_calls _ u h

  next_round-EndsWell :
      (again : List Message → List Text → Agent W H → Ended W H) (r : Round W H)
      → RoundEndsWell r
      → ((ms : List Message) (media : List Text) (b : Agent W H)
          → Uses p model b
          → EndsWell (again ms media b))
      → EndsWell (next_round again r)
  next_round-EndsWell again (stop e) x rest = x
  next_round-EndsWell again (go_on ms media b) x rest = rest ms media b x

  loop-EndsWell :
      (left iteration : ℕ) (ms : List Message) (media : List Text) (a : Agent W H)
      → Uses p model a
      → left + iteration ≡ env.max_iterations
      → EndsWell (loop env opts left iteration ms media a)
  unfolding loop
  loop-EndsWell zero iteration ms media a u h = (omega arith, inr (refl, inr (refl, omega arith)))
  loop-EndsWell (suc left) iteration ms media a u h =
      let (reply, asked) = ask env opts ms a in
      next_round-EndsWell (λ ns m b. loop env opts left (suc iteration) ns m b)
        (on_response env opts (suc iteration) ms media reply asked)
        (on_response-RoundEndsWell (suc iteration) ms media reply asked a refl
          (unfold ask emit_event in u) u (omega arith))
        (λ ns m b v. loop-EndsWell left (suc iteration) ns m b v (omega arith))

  with_notice-EndsWell :
      (notice : Text) (e : Ended W H)
      → EndsWell e
      → EndsWell (record e { content = with_notice notice e.err e.content })
  unfolding with_notice
  with_notice-EndsWell notice e (h, inl (x, asked, err, content, media)) =
      (h, inl (x, asked, err, rw err content, media))
  with_notice-EndsWell notice e (h, inr (err, inl ne)) =
      (h, inr (err, inl (rw err (with_vision_notice-not_nil notice e.content ne))))
  with_notice-EndsWell notice e (h, inr (err, inr (empty, last))) =
      (h, inr (err, inr (rw (err, empty) (with_vision_notice-nil notice), last)))

module _ {W H : Type 0} (env : Env W) (opts : ProcessOptions) where
  -- The iteration ends within the allowed rounds: with an error that the agent's provider gave when it
  -- was asked with the agent's model, its text for the user and no media, or without an error and with an answer, which is empty only
  -- where the rounds are used up.
  pub run_llm_iteration-EndsWell :
      (ms : List Message) (a : Agent W H)
      → EndsWell env opts a.provider a.model (run_llm_iteration env opts ms a)
  unfolding run_llm_iteration
  run_llm_iteration-EndsWell ms a =
      with_notice-EndsWell env opts a.provider a.model
        (vision_notice ms (a.provider.capabilities a.model))
        (loop env opts env.max_iterations 0 ms [] a)
        (loop-EndsWell env opts a.provider a.model env.max_iterations 0 ms [] a (refl, refl)
          (omega arith))

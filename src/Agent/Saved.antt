-- ===== src/Agent/Saved.antt =====
-- What `runLLMIteration` of pkg/agent/loop.go writes to the sessions.
use chango_assistant.Base.{
  Bool, Bool-cases, List, Option, Text, [], ap, append-nil, append_assoc, false, if_both,
  if◌then◌else◌, inl, inr, leb, map, none, refl, some, subst, suc, sym, text_eq, true, zero, ℕ,
  ◌++◌, ◌∙◌, ◌∷◌, ◌≡◌, ◌≢◌, ◌⊎◌,
}
use chango_assistant.Agent.Iteration.{
  Ended, Round, ask, event_of, go_on, loop, next_round, on_calls, on_response, run_call, run_calls,
  run_llm_iteration, show_user, stop,
}
use chango_assistant.Agent.State.{
  Agent, Env, ProcessOptions, Provider, emit_event, fallback_order, max_fails, on_failure,
  save_message, switched, try_auto_recovery, try_candidates,
}
use chango_assistant.Providers.Types.{LlmResponse, Message, ToolCall}
use chango_assistant.Session.History.{add_full_message_lem}
use chango_assistant.Session.Manager.{Sessions, get_history, get_summary}
use chango_assistant.Tools.Loop.{
  assistant_message, assistant_role, call_record, is_blank, tool_message, tool_role,
}
use chango_assistant.Tools.Registry.{execute_with_context}
use chango_assistant.Tools.Result.{ToolResult}
use chango_assistant.Tools.Transcript.{Answers}

-- Conversations of assistant messages with tool calls, each with all its answers.
pub data CallBlocks : List Message → Type 0 where
  done : CallBlocks []
  called :
      {ms : List Message} (m : Message) (results : List Message)
      → m.role ≡ assistant_role
      → m.tool_calls ≢ []
      → Answers m.tool_calls results
      → CallBlocks ms
      → CallBlocks (m ∷ results ++ ms)

CallBlocks-append : {ms ns : List Message} → CallBlocks ms → CallBlocks ns → CallBlocks (ms ++ ns)
CallBlocks-append done y = y
CallBlocks-append {ns = ns} (called {ms = ms} m results role calls answers x) y =
    subst CallBlocks (ap (λ t. m ∷ t) (sym (append_assoc results ms ns)))
      (called m results role calls answers (CallBlocks-append x y))

-- The messages are at the end of one session's history, and nothing else changed.
abbrev pub Saves : Text → List Message → Sessions → Sessions → Type 0
Saves key added sm sm' =
    (j : Text)
    → (get_history j sm' ≡ (if text_eq key j then get_history j sm ++ added else get_history j sm))
      × (get_summary j sm' ≡ get_summary j sm)

Saves-refl : (key : Text) (sm : Sessions) → Saves key [] sm sm
Saves-refl key sm j =
    (if_both (λ x. get_history j sm ≡ x) (text_eq key j) _ _ (sym (append-nil _)) refl, refl)

Saves-trans :
    (key : Text) (ms ns : List Message) (sm sm' sm'' : Sessions)
    → Saves key ms sm sm'
    → Saves key ns sm' sm''
    → Saves key (ms ++ ns) sm sm''
Saves-trans key ms ns sm sm' sm'' f g j =
    (go (text_eq key j) _ _ _ (f j).0 (g j).0, (g j).1 ∙ (f j).1)
  where
    go :
        (b : Bool) (x y z : List Message)
        → y ≡ (if b then x ++ ms else x)
        → z ≡ (if b then y ++ ns else y)
        → z ≡ (if b then x ++ (ms ++ ns) else x)
    go true x y z e h = h ∙ (ap (λ t. t ++ ns) e ∙ append_assoc x ms ns)
    go false x y z e h = h ∙ e

abbrev SavesBlocks : Text → Sessions → Sessions → Type 0
SavesBlocks key sm sm' = (added : List Message) × CallBlocks added × Saves key added sm sm'

SavesBlocks-refl : (key : Text) (sm : Sessions) → SavesBlocks key sm sm
SavesBlocks-refl key sm = ([], done, Saves-refl key sm)

SavesBlocks-trans :
    (key : Text) (sm sm' sm'' : Sessions)
    → SavesBlocks key sm sm'
    → SavesBlocks key sm' sm''
    → SavesBlocks key sm sm''
SavesBlocks-trans key sm sm' sm'' (ms, x, f) (ns, y, g) =
    (ms ++ ns, CallBlocks-append x y, Saves-trans key ms ns sm sm' sm'' f g)

module _ {W H : Type 0} (env : Env W) (opts : ProcessOptions) where
  save_message-Saves :
      (msg : Message) (a : Agent W H)
      → Saves opts.session_key
          (msg ∷ [])
          a.sessions
          (save_message env opts.session_key msg a).sessions
  unfolding save_message
  save_message-Saves msg a j = add_full_message_lem opts.session_key j msg _ _ a.sessions

  show_user-sessions :
      (r : ToolResult) (a : Agent W H) → (show_user env opts r a).sessions ≡ a.sessions
  unfolding show_user
  show_user-sessions r a = if_both {A = Agent W H} (λ x. x.sessions ≡ a.sessions) _ _ _ refl refl

  shown-Saves :
      (msg : Message) (r : ToolResult) (a : Agent W H)
      → Saves opts.session_key
          (msg ∷ [])
          a.sessions
          (save_message env opts.session_key msg (show_user env opts r a)).sessions
  shown-Saves msg r a =
      let shown = show_user env opts r a in
      subst
        (λ sm.
          Saves opts.session_key (msg ∷ []) sm
            (save_message env opts.session_key msg shown).sessions)
        (show_user-sessions r a) (save_message-Saves msg shown)

  -- A call's message answers it and is what is saved.
  run_call-Saves :
      (tc : ToolCall) (a : Agent W H)
      → let out = run_call env opts tc a in
        (out.0.role ≡ tool_role)
        × (out.0.tool_call_id ≡ tc.id)
        × Saves opts.session_key (out.0 ∷ []) a.sessions out.2.sessions
  unfolding run_call tool_message emit_event
  run_call-Saves tc a =
      let ready = emit_event env (event_of tc.name) a in
      let (r, w) =
        execute_with_context env.quote env.tools tc.name tc.arguments opts.channel opts.chat_id true
          ready.world in
      (refl, refl, shown-Saves (tool_message tc r) r (record ready { world = w }))

  run_calls-Saves :
      (tcs : List ToolCall) (a : Agent W H)
      → let out = run_calls env opts tcs a in
        Answers (map (call_record env.marshal) tcs) out.0
        × Saves opts.session_key out.0 a.sessions out.2.sessions
  unfolding run_calls call_record
  run_calls-Saves [] a = (tt, Saves-refl opts.session_key a.sessions)
  run_calls-Saves (tc ∷ tcs) a =
      let (role, id, saves) = run_call-Saves tc a in
      let (answers, more) = run_calls-Saves tcs (run_call env opts tc a).2 in
      ((role, id, answers), Saves-trans opts.session_key _ _ _ _ _ saves more)

  -- An assistant message with calls and its answers are one block.
  asked-SavesBlocks :
      (r : LlmResponse) (tc : ToolCall) (tcs : List ToolCall) (a : Agent W H)
      → r.tool_calls ≡ tc ∷ tcs
      → let asked = assistant_message env.marshal r in
        SavesBlocks opts.session_key a.sessions
          (run_calls env opts (tc ∷ tcs) (save_message env opts.session_key asked a)).2.sessions
  asked-SavesBlocks r tc tcs a e =
      let asked = assistant_message env.marshal r in
      let saved = save_message env opts.session_key asked a in
      let (answers, saves) = run_calls-Saves (tc ∷ tcs) saved in
      (
        asked ∷ (run_calls env opts (tc ∷ tcs) saved).0,
        subst CallBlocks (append-nil _) (
            called asked (run_calls env opts (tc ∷ tcs) saved).0 (unfold assistant_message in refl)
              (unfold assistant_message in λ z. cc (ap (map (call_record env.marshal)) e))
              (unfold assistant_message in
                subst
                  (λ cs.
                    Answers (map (call_record env.marshal) cs)
                      (run_calls env opts (tc ∷ tcs) saved).0)
                  (sym e) answers)
              done),
        Saves-trans opts.session_key (asked ∷ []) _ _ _ _ (save_message-Saves asked a) saves,
      )

  abbrev RoundSaves : Agent W H → Round W H → Type 0
  RoundSaves a (stop e) = SavesBlocks opts.session_key a.sessions e.agent.sessions
  RoundSaves a (go_on ms media a') = SavesBlocks opts.session_key a.sessions a'.sessions

  on_calls-RoundSaves :
      (iteration : ℕ) (ms : List Message) (media : List Text) (r : LlmResponse)
      (tcs : List ToolCall) (a : Agent W H)
      → r.tool_calls ≡ tcs
      → RoundSaves a (on_calls env opts iteration ms media r tcs a)
  unfolding on_calls
  on_calls-RoundSaves iteration ms media r [] a e =
      if_both (RoundSaves a) (is_blank r.content) _ _
        (if_both (RoundSaves a) (leb env.max_iterations iteration) _ _
          (SavesBlocks-refl _ a.sessions) (SavesBlocks-refl _ a.sessions))
        (SavesBlocks-refl _ a.sessions)
  on_calls-RoundSaves iteration ms media r (tc ∷ tcs) a e = asked-SavesBlocks r tc tcs a e

  switched-sessions :
      (o : Option (Provider W)) (c model : Text) (next b : Agent W H)
      → next.sessions ≡ b.sessions
      → (switched env o c model next b).sessions ≡ b.sessions
  switched-sessions none c model next b e = e
  switched-sessions (some p) c model next b e = refl

  try_candidates-sessions :
      (cs : List Text) (b : Agent W H) → (try_candidates env cs b).sessions ≡ b.sessions
  unfolding try_candidates
  try_candidates-sessions [] b = refl
  try_candidates-sessions (c ∷ cs) b =
      if_both {A = Agent W H} (λ x. x.sessions ≡ b.sessions) (text_eq c b.default_provider) _ _
        (try_candidates-sessions cs b)
        (switched-sessions (env.create_provider c (env.default_model c b.model) b.world) c _ _ b
          (try_candidates-sessions cs b))

  on_failure-sessions : (a : Agent W H) → (on_failure env a).sessions ≡ a.sessions
  unfolding on_failure try_auto_recovery
  on_failure-sessions a = elim (Bool-cases (leb max_fails (suc a.consecutive_fails))) [
    | inl e ↦ rw e (
        try_candidates-sessions fallback_order
          (record a { consecutive_fails = suc a.consecutive_fails }))
    | inr e ↦ rw e refl
  ]

  on_response-RoundSaves :
      (iteration : ℕ) (ms : List Message) (media : List Text) (reply : Text ⊎ LlmResponse)
      (a : Agent W H)
      → RoundSaves a (on_response env opts iteration ms media reply a)
  unfolding on_response
  on_response-RoundSaves iteration ms media (inl e) a =
      subst (SavesBlocks opts.session_key a.sessions) (sym (on_failure-sessions a))
        (SavesBlocks-refl _ a.sessions)
  on_response-RoundSaves iteration ms media (inr r) a =
      on_calls-RoundSaves iteration ms media r r.tool_calls _ refl

  next_round-SavesBlocks :
      (a : Agent W H) (again : List Message → List Text → Agent W H → Ended W H) (r : Round W H)
      → RoundSaves a r
      → ((ms : List Message) (media : List Text) (b : Agent W H)
          → SavesBlocks opts.session_key b.sessions (again ms media b).agent.sessions)
      → SavesBlocks opts.session_key a.sessions (next_round again r).agent.sessions
  next_round-SavesBlocks a again (stop e) x rest = x
  next_round-SavesBlocks a again (go_on ms media b) x rest =
      SavesBlocks-trans opts.session_key _ _ _ x (rest ms media b)

  loop-SavesBlocks :
      (left iteration : ℕ) (ms : List Message) (media : List Text) (a : Agent W H)
      → SavesBlocks opts.session_key a.sessions
          (loop env opts left iteration ms media a).agent.sessions
  unfolding loop ask emit_event
  loop-SavesBlocks zero iteration ms media a = SavesBlocks-refl _ a.sessions
  loop-SavesBlocks (suc left) iteration ms media a =
      let (reply, asked) = ask env opts ms a in
      next_round-SavesBlocks a (λ ns m b. loop env opts left (suc iteration) ns m b)
        (on_response env opts (suc iteration) ms media reply asked)
        (on_response-RoundSaves (suc iteration) ms media reply asked)
        (λ ns m b. loop-SavesBlocks left (suc iteration) ns m b)

  -- However the iteration ends, the session's history has grown by whole blocks, each an assistant
  -- message with at least one tool call and, in order, one tool message with the identifier of each
  -- call. No reminder and no final answer is among them. Every other history and every summary is as it
  -- was.
  pub run_llm_iteration-SavesBlocks :
      (ms : List Message) (a : Agent W H)
      → (added : List Message) × CallBlocks added
        × Saves opts.session_key added a.sessions (run_llm_iteration env opts ms a).agent.sessions
  unfolding run_llm_iteration
  run_llm_iteration-SavesBlocks ms a = loop-SavesBlocks env.max_iterations 0 ms [] a

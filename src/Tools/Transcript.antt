-- ===== src/Tools/Transcript.antt =====
-- What `RunToolLoop` adds to the messages, and how it ends.
use chango_assistant.Base.{
  Bool-cases, List, Text, [], ap, append-nil, append_assoc, arith, codes, false, if_both, if_cases,
  inl, inr, leb, leb→le, map, refl, subst, suc, sym, text_eq→eq, trim_space, true, zero, ℕ, ◌++◌,
  ◌+◌, ◌∙◌, ◌∷◌, ◌≡◌, ◌≢◌, ◌≤◌, ◌⊎◌,
}
use chango_assistant.Providers.Types.{LlmResponse, Message, ToolCall, plain}
use chango_assistant.Tools.Loop.{
  Config, Ended, Round, ToolLoopResult, ask, assistant_message, assistant_role, blank_reminder,
  call_record, go_on, is_blank, loop, next_round, on_calls, on_response, run_tool_loop, run_tools,
  stop, system_role, tool_message, tool_role,
}

-- The messages that answer these calls: one for each, in their order, with its identifier.
abbrev pub Answers : List ToolCall → List Message → Type 0
Answers [] [] = Unit
Answers [] (m ∷ ms) = ⊥
Answers (tc ∷ tcs) [] = ⊥
Answers (tc ∷ tcs) (m ∷ ms) = (m.role ≡ tool_role) × (m.tool_call_id ≡ tc.id) × Answers tcs ms

-- A conversation in which every tool call is answered at once, and every blank reply is reproached.
pub data Blocks : List Message → Type 0 where
  done : Blocks []
  reminded :
      {ms : List Message} (content : Text)
      → trim_space content ≡ []
      → Blocks ms
      → Blocks (plain assistant_role content ∷ plain system_role blank_reminder ∷ ms)
  called :
      {ms : List Message} (m : Message) (results : List Message)
      → m.role ≡ assistant_role
      → m.tool_calls ≢ []
      → Answers m.tool_calls results
      → Blocks ms
      → Blocks (m ∷ results ++ ms)

Blocks-append : {ms ns : List Message} → Blocks ms → Blocks ns → Blocks (ms ++ ns)
Blocks-append done y = y
Blocks-append (reminded content blank x) y = reminded content blank (Blocks-append x y)
Blocks-append {ns = ns} (called {ms = ms} m results role calls answers x) y =
    subst Blocks (ap (λ t. m ∷ t) (sym (append_assoc results ms ns)))
      (called m results role calls answers (Blocks-append x y))

-- The messages at the end are those at the start and then blocks.
abbrev pub Extends : List Message → List Message → Type 0
Extends ms final = (added : List Message) × (final ≡ ms ++ added) × Blocks added

Extends-refl : (ms : List Message) → Extends ms ms
Extends-refl ms = ([], sym (append-nil ms), done)

Extends-trans : (ms ns ks : List Message) → Extends ms ns → Extends ns ks → Extends ms ks
Extends-trans ms ns ks (a, e, x) (b, f, y) =
    (a ++ b, f ∙ (ap (λ t. t ++ b) e ∙ append_assoc ms a b), Blocks-append x y)

-- A blank text has nothing left when the white space around it is taken off.
is_blank-trim_space : (s : Text) → is_blank s ≡ true → trim_space s ≡ []
unfolding is_blank
is_blank-trim_space s h = text_eq→eq (trim_space s) [] h

module _ {W : Type 0} (c : Config W) where
  run_tools-Answers :
      (tcs : List ToolCall) (w : W)
      → Answers (map (call_record c.marshal) tcs) (run_tools c tcs w).0
  unfolding run_tools call_record tool_message
  run_tools-Answers [] w = tt
  run_tools-Answers (tc ∷ tcs) w = (refl, refl, run_tools-Answers tcs _)

  -- What one round leaves is an extension of what it was given.
  abbrev RoundExtends : List Message → Round W → Type 0
  RoundExtends ms (stop e) = Extends ms e.messages
  RoundExtends ms (go_on ns w) = Extends ms ns

  on_calls-RoundExtends :
      (iteration : ℕ) (ms : List Message) (r : LlmResponse) (tcs : List ToolCall) (w : W)
      → r.tool_calls ≡ tcs
      → RoundExtends ms (on_calls c iteration ms r tcs w)
  unfolding on_calls
  on_calls-RoundExtends iteration ms r [] w e =
      if_cases (RoundExtends ms) (is_blank r.content) _ _
        (λ blank.
          if_both (RoundExtends ms) (leb c.max_iterations iteration) _ _ (Extends-refl ms)
            (_, refl, reminded r.content (is_blank-trim_space r.content blank) done))
        (λ other. Extends-refl ms)
  on_calls-RoundExtends iteration ms r (tc ∷ tcs) w e = (
    _,
    refl,
    subst Blocks (append-nil _) (
        called (assistant_message c.marshal r) (run_tools c (tc ∷ tcs) w).0
          (unfold assistant_message in refl)
          (unfold assistant_message in λ z. cc (ap (map (call_record c.marshal)) e))
          (unfold assistant_message in rw e (run_tools-Answers (tc ∷ tcs) w)) done),
  )

  on_response-RoundExtends :
      (iteration : ℕ) (ms : List Message) (x : (Text ⊎ LlmResponse) × W)
      → RoundExtends ms (on_response c iteration ms x)
  unfolding on_response
  on_response-RoundExtends iteration ms (inl e, w) = Extends-refl ms
  on_response-RoundExtends iteration ms (inr r, w) =
      on_calls-RoundExtends iteration ms r r.tool_calls w refl

  next_round-Extends :
      (ms : List Message) (again : List Message → W → Ended W) (r : Round W)
      → RoundExtends ms r
      → ((ns : List Message) (w : W) → Extends ns (again ns w).messages)
      → Extends ms (next_round again r).messages
  next_round-Extends ms again (stop e) x rest = x
  next_round-Extends ms again (go_on ns w) x rest = Extends-trans ms ns _ x (rest ns w)

  loop-Extends :
      (left iteration : ℕ) (ms : List Message) (w : W)
      → Extends ms (loop c left iteration ms w).messages
  unfolding loop
  loop-Extends zero iteration ms w = Extends-refl ms
  loop-Extends (suc left) iteration ms w =
      next_round-Extends ms (λ ns v. loop c left (suc iteration) ns v)
        (on_response c (suc iteration) ms (ask c ms w))
        (on_response-RoundExtends (suc iteration) ms (ask c ms w))
        (λ ns v. loop-Extends left (suc iteration) ns v)

  -- The conversation at the end is the given one and then blocks. A block is a reply of nothing but white
  -- space with the reminder after it, or an assistant message with its tool calls, at least one, and for each of them in order
  -- one tool message with its identifier.
  pub run_tool_loop-Blocks :
      (ms : List Message) (w : W) → Extends ms (run_tool_loop c ms w).messages
  unfolding run_tool_loop
  run_tool_loop-Blocks ms w = loop-Extends c.max_iterations 0 ms w

  -- An error that the model gave to some messages.
  abbrev pub IsModelError : Text → Type 0
  IsModelError e =
      (ms : List Message) × (w : W) × (x : Text) × ((ask c ms w).0 ≡ inl x)
      × (e ≡ codes "LLM call failed: " ++ x)

  -- The rounds counted so far and the content, if the loop ends here: never more rounds than allowed,
  -- and an answer with nothing but white space only as the empty one, after the last round.
  abbrev pub EndsWell : Text ⊎ ToolLoopResult → Type 0
  EndsWell (inl e) = IsModelError e
  EndsWell (inr r) =
      (r.iterations ≤ c.max_iterations)
      × ((is_blank r.content ≡ false) ⊎ ((r.content ≡ []) × (r.iterations ≡ c.max_iterations)))

  abbrev RoundEndsWell : Round W → Type 0
  RoundEndsWell (stop e) = EndsWell e.outcome
  RoundEndsWell (go_on ms w) = Unit

  on_calls-RoundEndsWell :
      (iteration : ℕ) (ms : List Message) (r : LlmResponse) (tcs : List ToolCall) (w : W)
      → iteration ≤ c.max_iterations
      → RoundEndsWell (on_calls c iteration ms r tcs w)
  unfolding on_calls
  on_calls-RoundEndsWell iteration ms r [] w h = elim (Bool-cases (is_blank r.content)) [
    | inl e ↦ elim (Bool-cases (leb c.max_iterations iteration)) [
      | inl z ↦ rw (e, z) (h, inr (refl, omega (arith, leb→le _ _ z)))
      | inr z ↦ rw (e, z) tt
    ]
    | inr e ↦ rw e (h, inl e)
  ]
  on_calls-RoundEndsWell iteration ms r (tc ∷ tcs) w h = tt

  on_response-RoundEndsWell :
      (iteration : ℕ) (ms : List Message) (v : W) (x : (Text ⊎ LlmResponse) × W)
      → ask c ms v ≡ x
      → iteration ≤ c.max_iterations
      → RoundEndsWell (on_response c iteration ms x)
  unfolding on_response
  on_response-RoundEndsWell iteration ms v (inl e, w) asked h =
      (ms, v, e, ap (λ p. p.0) asked, refl)
  on_response-RoundEndsWell iteration ms v (inr r, w) asked h =
      on_calls-RoundEndsWell iteration ms r r.tool_calls w h

  next_round-EndsWell :
      (again : List Message → W → Ended W) (r : Round W)
      → RoundEndsWell r
      → ((ns : List Message) (w : W) → EndsWell (again ns w).outcome)
      → EndsWell (next_round again r).outcome
  next_round-EndsWell again (stop e) x rest = x
  next_round-EndsWell again (go_on ns w) x rest = rest ns w

  loop-EndsWell :
      (left iteration : ℕ) (ms : List Message) (w : W)
      → left + iteration ≡ c.max_iterations
      → EndsWell (loop c left iteration ms w).outcome
  unfolding loop
  loop-EndsWell zero iteration ms w h = (omega arith, inr (refl, omega arith))
  loop-EndsWell (suc left) iteration ms w h =
      next_round-EndsWell (λ ns v. loop c left (suc iteration) ns v)
        (on_response c (suc iteration) ms (ask c ms w))
        (on_response-RoundEndsWell (suc iteration) ms w (ask c ms w) refl (omega arith))
        (λ ns v. loop-EndsWell left (suc iteration) ns v (omega arith))

  -- The loop ends with an error that the model gave, or within the allowed rounds: with an answer that
  -- is not blank, or with the empty answer when the rounds are used up.
  pub run_tool_loop-EndsWell : (ms : List Message) (w : W) → EndsWell (run_tool_loop c ms w).outcome
  unfolding run_tool_loop
  run_tool_loop-EndsWell ms w = loop-EndsWell c.max_iterations 0 ms w (omega arith)

-- ===== src/Agent/Iteration.antt =====
-- `runLLMIteration` of pkg/agent/loop.go.
use chango_assistant.Base.{
  List, Option, Text, [], codes, contains, if◌then◌else◌, inl, inr, leb, none, not, some, suc,
  text_eq, true, utf8, zero, ℕ, ◌&&◌, ◌++◌, ◌||◌, ◌∷◌, ◌⊎◌,
}
use chango_assistant.Agent.State.{Agent, Env, ProcessOptions, emit_event, on_failure, save_message}
use chango_assistant.Bus.Queue.{publish_outbound}
use chango_assistant.Providers.Inputs.{has_vision_input, vision_unsupported_notice}
use chango_assistant.Providers.Types.{
  LlmResponse, Message, ModelCapabilities, ToolCall, UsageInfo, plain, supported, unknown,
  unsupported,
}
use chango_assistant.Tools.Loop.{
  assistant_message, assistant_role, is_blank, system_role, tool_message,
}
use chango_assistant.Tools.Registry.{execute_with_context, to_provider_defs}
use chango_assistant.Tools.Result.{ToolResult}

-- How the iteration ends: the content, the rounds, the media of the tools, and the error.
pub record Ended (W H : Type 0) : Type 0 where
  pub content : Text
  pub iterations : ℕ
  pub media : List Text
  pub err : Option Text
  pub agent : Agent W H

-- Whether the body of the loop leaves it or starts another round with these messages and media.
pub data Round (W H : Type 0) : Type 0 where
  stop : Ended W H → Round W H
  go_on : List Message → List Text → Agent W H → Round W H

abbrev pub next_round :
    {W H : Type 0} → (List Message → List Text → Agent W H → Ended W H) → Round W H → Ended W H
next_round again (stop e) = e
next_round again (go_on ms media a) = again ms media a

abbrev pub blank_reminder : Text
blank_reminder =
    utf8
      "Tu respuesta anterior quedó vacía. Respondé con texto útil para el usuario. No devuelvas una respuesta vacía."

-- What a user is told about an error of the model.
unfoldable pub user_error : Text → Text
unfolding contains
user_error e =
    if contains e (codes "exceed") && contains e (codes "context")
    then utf8
        "El mensaje es demasiado largo para el modelo local. Probá con /model para usar uno con más contexto."
    else if contains e (codes "Loading model")
    then utf8 "El modelo local está cargando todavía. Esperá unos segundos y volvé a intentar."
    else if contains e (codes "429") || contains e (codes "rate")
    then utf8 "La API está saturada (rate limit). Intentá de nuevo en unos segundos."
    else if contains e (codes "500") || (contains e (codes "502") || contains e (codes "503"))
    then utf8 "El servidor de la API está con problemas. Intentá de nuevo en un rato."
    else if contains e (codes "timeout") || contains e (codes "deadline")
    then utf8
        "La API tardó demasiado en responder (timeout). Intentá con un mensaje más corto o cambiá de modelo con /model."
    else if contains e (codes "401") || contains e (codes "403")
    then utf8 "Error de autenticación con la API. Revisá la API key en config.json."
    else codes "Error al comunicarme con la API: " ++ e

-- The activity that the call of a tool is reported as.
unfoldable pub event_of : Text → Text
unfolding text_eq
event_of name =
    if text_eq name (codes "memory")
    then codes "memory"
    else if text_eq name (codes "browse")
        || (text_eq name (codes "web_search") || text_eq name (codes "web_fetch"))
    then codes "browse"
    else if text_eq name (codes "learn")
    then codes "learn"
    else codes "tool"

-- The notice that the model does not see images, where the messages have some.
unfoldable pub vision_notice : List Message → ModelCapabilities → Text
unfolding has_vision_input vision_unsupported_notice
vision_notice ms caps = elim caps.vision [
  | supported ↦ []
  | unsupported ↦ if has_vision_input ms then vision_unsupported_notice caps.model else []
  | unknown ↦ []
]

-- The notice in front of the answer, once.
unfoldable pub with_vision_notice : Text → Text → Text
unfolding text_eq contains
with_vision_notice notice content =
    if not (text_eq notice []) && (not (text_eq content []) && not (contains content notice))
    then notice ++ (codes "\n\n" ++ content)
    else content

abbrev pub count_usage :
    {W : Type 0} → Option (Text → UsageInfo → W → W) → Text → Option UsageInfo → W → W
count_usage none feature usage w = w
count_usage (some f) feature none w = w
count_usage (some f) feature (some usage) w = f feature usage w

unfoldable pub with_notice : Text → Option Text → Text → Text
unfolding with_vision_notice
with_notice notice none content = with_vision_notice notice content
with_notice notice (some e) content = content

module _ {W H : Type 0} (env : Env W) (opts : ProcessOptions) where
  -- The part of a tool's result that the user is sent at once. Whether the bus takes it is not looked at.
  unfoldable pub show_user : ToolResult → Agent W H → Agent W H
  unfolding publish_outbound text_eq
  show_user r a =
      let (bus, outcome) =
        publish_outbound
          (record {
            channel = opts.channel;
            chat_id = opts.chat_id;
            content = r.for_user;
            media = [];
          })
          a.bus in
      if not r.silent && (not (text_eq r.for_user []) && opts.send_response)
      then record a { bus = bus }
      else a

  -- One tool call: its message, its media, and the agent after it.
  unfoldable pub run_call : ToolCall → Agent W H → Message × List Text × Agent W H
  unfolding emit_event event_of execute_with_context tool_message show_user save_message
  run_call tc a =
      let ready = emit_event env (event_of tc.name) a in
      let (r, w) =
        execute_with_context env.quote env.tools tc.name tc.arguments opts.channel opts.chat_id true
          ready.world in
      let shown = show_user r (record ready { world = w }) in
      (tool_message tc r, r.media, save_message env opts.session_key (tool_message tc r) shown)

  -- The tool calls of one response: the messages and the media, and the agent after them.
  unfoldable pub run_calls : List ToolCall → Agent W H → List Message × List Text × Agent W H
  unfolding run_call
  run_calls [] a = ([], [], a)
  run_calls (tc ∷ tcs) a =
      let (m, media, a') = run_call tc a in
      let (ms, more, a'') = run_calls tcs a' in (m ∷ ms, media ++ more, a'')

  abbrev finish : Text → ℕ → List Text → Agent W H → Round W H
  finish content iteration media a =
      stop
        (record { content = content; iterations = iteration; media = media; err = none; agent = a })

  -- What a response with these tool calls leads to in round `iteration`.
  unfoldable pub on_calls :
      ℕ → List Message → List Text → LlmResponse → List ToolCall → Agent W H → Round W H
  unfolding is_blank assistant_message save_message run_calls
  on_calls iteration ms media r [] a =
      if is_blank r.content
      then (if leb env.max_iterations iteration
          then finish [] iteration media a
          else go_on (ms ++ plain assistant_role r.content ∷ plain system_role blank_reminder ∷ [])
              media a)
      else finish r.content iteration media a
  on_calls iteration ms media r (tc ∷ tcs) a =
      let asked = assistant_message env.marshal r in
      let (results, more, a') = run_calls (tc ∷ tcs) (save_message env opts.session_key asked a) in
      go_on (ms ++ asked ∷ results) (media ++ more) a'

  -- One pass through the body of the loop, from the reply of the model.
  unfoldable pub on_response :
      ℕ → List Message → List Text → Text ⊎ LlmResponse → Agent W H → Round W H
  unfolding user_error on_failure on_calls
  on_response iteration ms media (inl e) a = stop (record {
    content = user_error e;
    iterations = iteration;
    media = [];
    err = some (codes "LLM call failed: " ++ e);
    agent = on_failure env a;
  })
  on_response iteration ms media (inr r) a = on_calls iteration ms media r r.tool_calls (record a {
    consecutive_fails = 0;
    world = count_usage env.record_usage opts.feature r.usage a.world;
  })

  -- The call of the model in one round.
  unfoldable pub ask : List Message → Agent W H → (Text ⊎ LlmResponse) × Agent W H
  unfolding emit_event to_provider_defs
  ask ms a =
      let thinking = emit_event env (codes "think") a in
      let (reply, w) =
        thinking.provider.chat ms (to_provider_defs env.tools) thinking.model opts.session_key
          thinking.world in
      (reply, record thinking { world = w })

  -- The loop with `left` rounds to go and `iteration` rounds done.
  unfoldable pub loop : ℕ → ℕ → List Message → List Text → Agent W H → Ended W H
  unfolding ask on_response
  loop zero iteration ms media a = record {
    content = [];
    iterations = iteration;
    media = media;
    err = none;
    agent = a;
  }
  loop (suc left) iteration ms media a =
      let (reply, asked) = ask ms a in
      next_round (λ ms' media' a'. loop left (suc iteration) ms' media' a')
        (on_response (suc iteration) ms media reply asked)

  -- `runLLMIteration`.
  unfoldable pub run_llm_iteration : List Message → Agent W H → Ended W H
  unfolding loop vision_notice with_notice
  run_llm_iteration ms a =
      let notice = vision_notice ms (a.provider.capabilities a.model) in
      let e = loop env.max_iterations 0 ms [] a in
      record e { content = with_notice notice e.err e.content }

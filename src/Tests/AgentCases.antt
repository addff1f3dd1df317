-- ===== src/Tests/AgentCases.antt =====
-- The iteration of the agent, its recovery, and the history of a prompt.
use chango_assistant.Base.{
  List, Text, [], codes, false, if◌then◌else◌, inr, none, refl, some, suc, text_eq, true, zero, ℕ,
  ◌++◌, ◌<◌, ◌∷◌, ◌≡◌, ◌≤◌, ◌⊎◌,
}
use chango_assistant.Agent.Background.{Background, call_model, local_for, on_provider, put_back}
use chango_assistant.Agent.Ends.{EndsWell, run_llm_iteration-EndsWell}
use chango_assistant.Agent.Escalation.{call_model-ignores_active, call_model-puts_back}
use chango_assistant.Agent.Iteration.{run_llm_iteration}
use chango_assistant.Agent.Recent.{Recent, trim_history_for_prompt_lem}
use chango_assistant.Agent.Recovery.{Recovers, on_failure_lem}
use chango_assistant.Agent.Saved.{CallBlocks, Saves, run_llm_iteration-SavesBlocks}
use chango_assistant.Agent.State.{
  Agent, Env, ProcessOptions, Provider, fallback_order, max_fails, on_failure, try_auto_recovery,
  try_candidates,
}
use chango_assistant.Agent.Trim.{blocks, select, trim_history_for_prompt}
use chango_assistant.Providers.Types.{
  LlmResponse, Message, ModelCapabilities, ToolCall, end_fields, plain, supported, unknown,
}
use chango_assistant.Tools.Registry.{Tool}
use chango_assistant.Tools.Result.{new_tool_result}

abbrev wants_time : ToolCall
wants_time = record {
  id = codes "c1";
  kind = [];
  function = none;
  name = codes "time";
  arguments = end_fields;
}

abbrev answer : Text → List ToolCall → LlmResponse
answer content calls = record {
  content = content;
  tool_calls = calls;
  finish_reason = [];
  usage = none;
  response_id = [];
}

-- The world counts the calls of the model: a tool call, and then an answer.
abbrev turn : ℕ → LlmResponse
turn zero = answer [] (wants_time ∷ [])
turn (suc n) = answer (codes "noon") []

abbrev caps : Text → ModelCapabilities
caps m = record {
  provider = [];
  model = m;
  vision = supported;
  tools = supported;
  audio_input = unknown;
}

abbrev talking : Provider ℕ
talking = record { chat = λ ms ds model key w. (inr (turn w), suc w); capabilities = caps }

abbrev time_tool : Tool ℕ
time_tool = record {
  name = codes "time";
  description = [];
  parameters = end_fields;
  set_context = none;
  set_callback = none;
  run = λ args w. (some (new_tool_result (codes "12:00")), w);
}

abbrev env : Env ℕ
env = record {
  max_iterations = 3;
  tools = (codes "time", time_tool) ∷ [];
  on_event = none;
  record_usage = none;
  set_model = λ m w. w;
  clock = λ w. w;
  marshal = λ args. codes "{}";
  quote = λ t. t;
  default_model = λ c m. codes "m2";
  create_provider = λ c m w. if text_eq c (codes "groq") then some talking else none;
}

abbrev agent : Agent ℕ ℕ
agent = record {
  provider = talking;
  model = codes "m1";
  default_provider = codes "openrouter";
  default_model = codes "m1";
  consecutive_fails = 2;
  sessions = [];
  bus = record { inbound = []; outbound = []; handlers = []; closed = false };
  world = 0;
}

abbrev opts : ProcessOptions
opts = record {
  session_key = codes "k";
  channel = codes "telegram";
  chat_id = codes "7";
  send_response = true;
  feature = codes "chat";
}

abbrev asks : List Message
asks = plain (codes "user") (codes "what time is it?") ∷ []

run_llm_iteration-SavesBlocks_example :
    (added : List Message) × CallBlocks added
    × Saves opts.session_key added agent.sessions
        (run_llm_iteration env opts asks agent).agent.sessions
run_llm_iteration-SavesBlocks_example = run_llm_iteration-SavesBlocks env opts asks agent

run_llm_iteration-EndsWell_example :
    EndsWell env opts agent.provider agent.model (run_llm_iteration env opts asks agent)
run_llm_iteration-EndsWell_example = run_llm_iteration-EndsWell env opts asks agent

on_failure_lem_example :
    let counted = record agent { consecutive_fails = 3 } in
    ((3 < max_fails) × (on_failure env agent ≡ counted))
    ⊎ ((max_fails ≤ 3) × Recovers env fallback_order counted (on_failure env agent))
on_failure_lem_example = on_failure_lem env agent

recovered : (on_failure env agent).default_provider ≡ codes "groq"
unfolding on_failure try_auto_recovery try_candidates text_eq
recovered = refl

trim_history_for_prompt_lem_example :
    Recent (asks ++ asks) 1 0 (trim_history_for_prompt (asks ++ asks) 1 0)
trim_history_for_prompt_lem_example = trim_history_for_prompt_lem (asks ++ asks) 1 0

trimmed : trim_history_for_prompt (asks ++ asks) 1 0 ≡ asks
unfolding trim_history_for_prompt blocks select text_eq
trimmed = refl

abbrev at_home : Background ℕ
at_home = record {
  local_provider = some talking;
  prefer_local = true;
  background_provider = none;
  background_model = [];
}

abbrev scheduled : ProcessOptions
scheduled = record opts { feature = codes "cron" }

-- With a background provider and model of its own.
abbrev with_background : Background ℕ
with_background = record at_home {
  background_provider = some talking;
  background_model = codes "m7";
}

call_model-puts_back_example :
    let e = call_model (λ s. s) with_background env scheduled asks agent in
    (e.agent.provider ≡ agent.provider) × (e.agent.model ≡ agent.model)
call_model-puts_back_example =
    call_model-puts_back (λ s. s) with_background env scheduled asks talking agent
      (unfold local_for text_eq in refl)

call_model-ignores_active_example :
    let e = call_model (λ s. s) at_home env scheduled asks agent in
    (call_model (λ s. s) at_home env scheduled asks (on_provider talking (codes "m9") agent)
      ≡ put_back talking (codes "m9") e)
    × (e ≡ put_back talking (codes "m1") e)
call_model-ignores_active_example =
    call_model-ignores_active (λ s. s) at_home env scheduled asks talking agent talking (codes "m9")
      (unfold local_for text_eq in refl) refl refl

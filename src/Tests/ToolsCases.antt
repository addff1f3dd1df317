-- ===== src/Tests/ToolsCases.antt =====
-- A model that asks for one tool, stays silent once and then answers.
use chango_assistant.Base.{
  List, Text, [], codes, false, inr, map, none, refl, some, suc, text_eq, trim_space, zero, ℕ, ◌∷◌,
  ◌≡◌,
}
use chango_assistant.Providers.Types.{LlmResponse, Message, ToolCall, end_fields, plain}
use chango_assistant.Tools.Loop.{Config, assistant_role, run_tool_loop, system_role, tool_role}
use chango_assistant.Tools.Transcript.{
  EndsWell, Extends, run_tool_loop-Blocks, run_tool_loop-EndsWell,
}

abbrev one_call : ToolCall
one_call = record {
  id = codes "c1";
  kind = [];
  function = none;
  name = codes "time";
  arguments = end_fields;
}

abbrev reply : Text → List ToolCall → LlmResponse
reply content calls = record {
  response_id = [];
  content = content;
  tool_calls = calls;
  finish_reason = [];
  usage = none;
}

-- The world counts the calls of the model.
abbrev script : ℕ → LlmResponse
script zero = reply [] (one_call ∷ [])
script (suc zero) = reply (codes "  ") []
script (suc (suc n)) = reply (codes "noon") []

abbrev scripted : Config ℕ
scripted = record {
  max_iterations = 5;
  definitions = some [];
  chat = λ ms ds n. (inr (script n), suc n);
  execute = λ name args n. (
    record {
      for_llm = codes "12:00";
      for_user = [];
      silent = false;
      is_error = false;
      async = false;
      media = [];
      err = none;
    },
    n,
  );
  marshal = λ args. codes "{}";
}

abbrev question : List Message
question = plain (codes "user") (codes "time?") ∷ []

-- Three rounds; the transcript holds the call, its answer, the blank reply and the reminder.
scripted_run :
    map (λ m. m.role) (run_tool_loop scripted question 0).messages
    ≡ codes "user" ∷ assistant_role ∷ tool_role ∷ assistant_role ∷ system_role ∷ []
unfolding run_tool_loop text_eq trim_space
scripted_run = refl

scripted_answer :
    (run_tool_loop scripted question 0).outcome
    ≡ inr (record { content = codes "noon"; iterations = 3 })
unfolding run_tool_loop text_eq trim_space
scripted_answer = refl

run_tool_loop-Blocks_example : Extends question (run_tool_loop scripted question 0).messages
run_tool_loop-Blocks_example = run_tool_loop-Blocks scripted question 0

run_tool_loop-EndsWell_example : EndsWell scripted (run_tool_loop scripted question 0).outcome
run_tool_loop-EndsWell_example = run_tool_loop-EndsWell scripted question 0

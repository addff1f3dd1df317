-- ===== src/Tools/Loop.antt =====
-- `RunToolLoop` of pkg/tools/toolloop.go. The model and the tools act on a world of their own, which
-- the loop hands on; `json.Marshal` of a tool's arguments is a parameter.
use chango_assistant.Base.{
  Bool, List, Option, Text, [], codes, if◌then◌else◌, inl, inr, leb, map, none, some, suc, text_eq,
  trim_space, zero, ℕ, ◌++◌, ◌∷◌, ◌⊎◌,
}
use chango_assistant.Providers.Types.{
  Fields, LlmResponse, Message, ToolCall, ToolDefinition, end_fields, plain,
}
use chango_assistant.Tools.Result.{ToolResult, error_result}

-- `chat` is `Provider.Chat` with the model and the options of the configuration, `tools` is `none`
-- where the configuration has no registry, `execute` is `ExecuteWithContext`.
pub record Config (W : Type 0) : Type 0 where
  pub max_iterations : ℕ
  pub definitions : Option (List ToolDefinition)
  pub chat : List Message → List ToolDefinition → W → (Text ⊎ LlmResponse) × W
  pub execute : Text → Fields → W → ToolResult × W
  pub marshal : Fields → Text

pub record ToolLoopResult : Type 0 where
  pub content : Text
  pub iterations : ℕ

-- How the loop ends: an error of the model, or a result; with the messages and the world then.
pub record Ended (W : Type 0) : Type 0 where
  pub outcome : Text ⊎ ToolLoopResult
  pub messages : List Message
  pub world : W

-- Whether the body of the loop leaves it or starts another round.
pub data Round (W : Type 0) : Type 0 where
  stop : Ended W → Round W
  go_on : List Message → W → Round W

abbrev pub next_round : {W : Type 0} → (List Message → W → Ended W) → Round W → Ended W
next_round again (stop e) = e
next_round again (go_on ms w) = again ms w

abbrev pub assistant_role : Text
assistant_role = codes "assistant"

abbrev pub system_role : Text
system_role = codes "system"

abbrev pub tool_role : Text
tool_role = codes "tool"

abbrev pub blank_reminder : Text
blank_reminder =
    codes
      "Your previous reply was empty. Respond with a direct, useful answer for the user. Do not leave the content blank."

-- `strings.TrimSpace(s) == ""`.
unfoldable pub is_blank : Text → Bool
unfolding text_eq trim_space
is_blank s = text_eq (trim_space s) []

module _ (marshal : Fields → Text) where
  -- A tool call as the assistant's message carries it.
  unfoldable pub call_record : ToolCall → ToolCall
  call_record tc = record {
    id = tc.id;
    kind = codes "function";
    function = some (record { name = tc.name; arguments = marshal tc.arguments });
    name = [];
    arguments = end_fields;
  }

  unfoldable pub assistant_message : LlmResponse → Message
  unfolding call_record
  assistant_message r = record (plain assistant_role r.content) {
    tool_calls = map call_record r.tool_calls;
  }

abbrev or_error : Text → Option Text → Text
or_error [] (some e) = e
or_error content err = content

unfoldable pub tool_message : ToolCall → ToolResult → Message
tool_message tc r = record (plain tool_role (or_error r.for_llm r.err)) { tool_call_id = tc.id }

module _ {W : Type 0} (c : Config W) where
  abbrev run_tool : Option (List ToolDefinition) → ToolCall → W → ToolResult × W
  run_tool none tc w = (error_result (codes "No tools available"), w)
  run_tool (some _) tc w = c.execute tc.name tc.arguments w

  -- The loop over the tool calls of one response: the messages that it appends.
  unfoldable pub run_tools : List ToolCall → W → List Message × W
  unfolding error_result tool_message
  run_tools [] w = ([], w)
  run_tools (tc ∷ tcs) w =
      let (r, w') = run_tool c.definitions tc w in
      let (ms, w'') = run_tools tcs w' in (tool_message tc r ∷ ms, w'')

  abbrev pub tool_defs : Option (List ToolDefinition) → List ToolDefinition
  tool_defs none = []
  tool_defs (some ds) = ds

  abbrev finish : Text → ℕ → List Message → W → Round W
  finish content iteration ms w = stop (record {
    outcome = inr (record { content = content; iterations = iteration });
    messages = ms;
    world = w;
  })

  -- What a response with these tool calls leads to in round `iteration`.
  unfoldable pub on_calls : ℕ → List Message → LlmResponse → List ToolCall → W → Round W
  unfolding is_blank assistant_message run_tools
  on_calls iteration ms r [] w =
      if is_blank r.content
      then (if leb c.max_iterations iteration
          then finish [] iteration ms w
          else go_on (ms ++ plain assistant_role r.content ∷ plain system_role blank_reminder ∷ [])
              w)
      else finish r.content iteration ms w
  on_calls iteration ms r (tc ∷ tcs) w =
      let (results, w') = run_tools (tc ∷ tcs) w in
      go_on (ms ++ assistant_message c.marshal r ∷ results) w'

  -- One pass through the body of the loop.
  unfoldable pub on_response : ℕ → List Message → (Text ⊎ LlmResponse) × W → Round W
  unfolding on_calls
  on_response iteration ms (inl e, w) =
      stop (record { outcome = inl (codes "LLM call failed: " ++ e); messages = ms; world = w })
  on_response iteration ms (inr r, w) = on_calls iteration ms r r.tool_calls w

  -- The call of the model in one round.
  abbrev pub ask : List Message → W → (Text ⊎ LlmResponse) × W
  ask ms w = c.chat ms (tool_defs c.definitions) w

  -- The loop with `left` rounds to go and `iteration` rounds done.
  unfoldable pub loop : ℕ → ℕ → List Message → W → Ended W
  unfolding on_response
  loop zero iteration ms w = record {
    outcome = inr (record { content = []; iterations = iteration });
    messages = ms;
    world = w;
  }
  loop (suc left) iteration ms w =
      next_round (λ ms' w'. loop left (suc iteration) ms' w')
        (on_response (suc iteration) ms (ask ms w))

  -- `RunToolLoop`.
  unfoldable pub run_tool_loop : List Message → W → Ended W
  unfolding loop
  run_tool_loop ms w = loop c.max_iterations 0 ms w

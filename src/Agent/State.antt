-- ===== src/Agent/State.antt =====
-- The `AgentLoop` of pkg/agent/loop.go, as far as answering a message changes it, and its recovery from
-- a provider that fails (pkg/agent/commands.go). Tools, providers and callbacks act on a world.
use chango_assistant.Base.{
  Bool, List, Option, Text, [], codes, if◌then◌else◌, leb, none, some, suc, text_eq, ℕ, ◌∷◌, ◌⊎◌,
}
use chango_assistant.Bus.Queue.{MessageBus}
use chango_assistant.Providers.Types.{
  Fields, LlmResponse, Message, ModelCapabilities, ToolDefinition, UsageInfo,
}
use chango_assistant.Session.Manager.{Sessions, add_full_message}
use chango_assistant.Tools.Registry.{ToolRegistry}

-- `Chat` of a provider with the limits of the constants: messages, tools, model, session; and whether
-- `ResolveCapabilities` reports for a model that images are unsupported, with the name it has there.
pub record Provider (W : Type 0) : Type 0 where
  pub chat : List Message → List ToolDefinition → Text → Text → W → (Text ⊎ LlmResponse) × W
  pub capabilities : Text → ModelCapabilities

-- `processOptions`, as far as the iteration reads it.
pub record ProcessOptions : Type 0 where
  pub session_key : Text
  pub channel : Text
  pub chat_id : Text
  pub send_response : Bool
  pub feature : Text

-- What the agent is given: `on_event`, `record_usage` and `set_model` are the event callback, `Record`
-- of the telemetry tracker and `SetModel` of the context builder; `default_model` is
-- `defaultModelForProvider` (the model in use is its last resort) and `create_provider` is
-- `CreateProvider` with a provider and a model in the configuration.
pub record Env (W : Type 0) : Type 0 where
  pub max_iterations : ℕ
  pub tools : ToolRegistry W
  pub on_event : Option (Text → W → W)
  pub record_usage : Option (Text → UsageInfo → W → W)
  pub set_model : Text → W → W
  pub clock : W → ℕ
  pub marshal : Fields → Text
  pub quote : Text → Text
  pub default_model : Text → Text → Text
  pub create_provider : Text → Text → W → Option (Provider W)

pub record Agent (W H : Type 0) : Type 0 where
  pub provider : Provider W
  pub model : Text
  pub default_provider : Text
  pub default_model : Text
  pub consecutive_fails : ℕ
  pub sessions : Sessions
  pub bus : MessageBus H
  pub world : W

abbrev pub fallback_order : List Text
fallback_order =
    codes "openrouter"
    ∷ codes "groq"
    ∷ codes "deepseek"
    ∷ codes "openai"
    ∷ codes "anthropic"
    ∷ codes "gemini"
    ∷ []

abbrev pub max_fails : ℕ
max_fails = 3

abbrev pub report : {W : Type 0} → Option (Text → W → W) → Text → W → W
report none kind w = w
report (some f) kind w = f kind w

module _ {W H : Type 0} (env : Env W) where
  -- `emitEvent`.
  unfoldable pub emit_event : Text → Agent W H → Agent W H
  emit_event kind a = record a { world = report env.on_event kind a.world }

  -- `AddFullMessage` of the session manager.
  unfoldable pub save_message : Text → Message → Agent W H → Agent W H
  unfolding add_full_message
  save_message key msg a = record a {
    sessions = add_full_message key msg (env.clock a.world) (env.clock a.world) a.sessions;
  }

  -- What follows the creation of a candidate's provider: the switch in memory, or the next candidate
  -- (`next`), where the configuration is as it was.
  abbrev pub switched : Option (Provider W) → Text → Text → Agent W H → Agent W H → Agent W H
  switched none candidate model next a = next
  switched (some provider) candidate model next a = record a {
    provider = provider;
    model = model;
    default_provider = candidate;
    default_model = model;
    consecutive_fails = 0;
    world = env.set_model model a.world;
  }

  -- The candidates that are left.
  unfoldable pub try_candidates : List Text → Agent W H → Agent W H
  unfolding text_eq
  try_candidates [] a = a
  try_candidates (candidate ∷ rest) a =
      let next = try_candidates rest a in
      let model = env.default_model candidate a.model in
      if text_eq candidate a.default_provider
      then next
      else switched (env.create_provider candidate model a.world) candidate model next a

  -- `tryAutoRecovery`.
  unfoldable pub try_auto_recovery : Agent W H → Agent W H
  unfolding try_candidates
  try_auto_recovery a = try_candidates fallback_order a

  abbrev pub recover_at : ℕ → Agent W H → Agent W H
  unfolding try_auto_recovery
  recover_at fails a = if leb max_fails fails then try_auto_recovery a else a

  -- The count of a failed call, and the recovery from the third on.
  unfoldable pub on_failure : Agent W H → Agent W H
  on_failure a =
      let fails = suc a.consecutive_fails in
      recover_at fails (record a { consecutive_fails = fails })

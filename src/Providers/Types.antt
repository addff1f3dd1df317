-- ===== src/Providers/Types.antt =====
-- pkg/providers/types.go: messages, tool calls and responses.
use chango_assistant.Base.{Bool, List, Option, Text, [], ℕ}

-- JSON values, as `interface{}` holds them; a number by its text.
mutual
  pub data Value : Type 0 where
    null : Value
    boolean : Bool → Value
    number text : Text → Value
    array : Values → Value
    object : Fields → Value

  pub data Values : Type 0 where
    end_values : Values
    value : Value → Values → Values

  pub data Fields : Type 0 where
    end_fields : Fields
    field : Text → Value → Fields → Fields

pub record FunctionCall : Type 0 where
  pub name : Text
  pub arguments : Text

pub record ToolCall : Type 0 where
  pub id : Text
  pub kind : Text
  pub function : Option FunctionCall
  pub name : Text
  pub arguments : Fields

pub record ImageUrl : Type 0 where
  pub url : Text
  pub detail : Text

pub record ContentPart : Type 0 where
  pub kind : Text
  pub text : Text
  pub image_url : Option ImageUrl

pub record Message : Type 0 where
  pub role : Text
  pub content : Text
  pub parts : List ContentPart
  pub tool_calls : List ToolCall
  pub tool_call_id : Text

pub record UsageInfo : Type 0 where
  pub prompt_tokens : ℕ
  pub completion_tokens : ℕ
  pub total_tokens : ℕ

pub record LlmResponse : Type 0 where
  pub response_id : Text
  pub content : Text
  pub tool_calls : List ToolCall
  pub finish_reason : Text
  pub usage : Option UsageInfo

pub record ToolDefinition : Type 0 where
  pub kind : Text
  pub name : Text
  pub description : Text
  pub parameters : Fields

-- `Message{Role: role, Content: content}`.
abbrev pub plain : Text → Text → Message
plain role content = record {
  role = role;
  content = content;
  parts = [];
  tool_calls = [];
  tool_call_id = [];
}

-- `CapabilitySupport` of pkg/providers/capabilities.go.
pub data CapabilitySupport : Type 0 where
  supported : CapabilitySupport
  unsupported : CapabilitySupport
  unknown : CapabilitySupport

pub record ModelCapabilities : Type 0 where
  pub provider : Text
  pub model : Text
  pub vision : CapabilitySupport
  pub tools : CapabilitySupport
  pub audio_input : CapabilitySupport

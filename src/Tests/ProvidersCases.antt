-- ===== src/Tests/ProvidersCases.antt =====
-- The privacy router between two models that say their names.
use chango_assistant.Base.{
  List, Text, [], arith, codes, inr, length, none, refl, some, suc, text_eq, trim_space, true, ℕ,
  ◌==◌, ◌∷◌, ◌≡◌,
}
use chango_assistant.Providers.Classifier.{PrivacyClassifier, classify}
use chango_assistant.Providers.Lock.{
  GoesToCloud, Turn, after_turns, after_turns-marked, chat-GoesToCloud,
}
use chango_assistant.Providers.Router.{
  PrivacyRouter, Provider, SensitiveSession, chat, is_overflow, marked_as, option_text, session_key,
}
use chango_assistant.Providers.Types.{
  CapabilitySupport, Fields, LlmResponse, Message, ToolDefinition, end_fields, field, plain,
  supported, text, unsupported,
}

abbrev says : Text → LlmResponse
says content = record {
  response_id = [];
  content = content;
  tool_calls = [];
  finish_reason = [];
  usage = none;
}

abbrev named : Text → CapabilitySupport → Provider ℕ
named name vision = record {
  chat = λ ms tools model options n. (inr (says name), suc n);
  vision = λ model. vision;
  model_name = λ model. name;
}

-- One pattern of weight 0.7 that matches every text, one of weight 1.0 that matches a text of three
-- bytes, and the keyword `med`.
abbrev classifier : PrivacyClassifier
classifier = record {
  patterns =
      record { regex = λ t. true; reason = codes "dni_pattern"; weight = 7 }
      ∷ record { regex = λ t. length t == 3; reason = codes "cuit_pattern"; weight = 10 }
      ∷ [];
  keywords = codes "med" ∷ [];
  words = λ t. t ∷ [];
  always_private_media = true;
  fail_closed = true;
}

abbrev options : Fields
options = field (codes "session_key") (text (codes "s")) end_fields

abbrev fresh_router : PrivacyRouter ℕ
fresh_router = record {
  cloud = named (codes "cloud") supported;
  local = named (codes "local") unsupported;
  classifier = classifier;
  sessions = [];
  stats = record { total_messages = 0; routed_local = 0; routed_cloud = 0; catches = 0 };
}

abbrev says_user : Text → List Message
says_user content = plain (codes "user") content ∷ []

abbrev marked : SensitiveSession
marked = record { marked_at = 100; msg_count = 0; reason = codes "cuit_pattern" }

abbrev marked_router : PrivacyRouter ℕ
marked_router = record fresh_router { sessions = (codes "s", marked) ∷ [] }

abbrev lookup_tool : ToolDefinition
lookup_tool = record {
  kind = codes "function";
  name = codes "lookup";
  description = [];
  parameters = end_fields;
}

-- A full score marks the session; the next message is local though it is harmless.
private_run :
    let (answer, pr, w) = chat (says_user (codes "123")) [] [] options 100 fresh_router 0 in
    let (second, pr', w') = chat (says_user (codes "hello")) [] [] options 200 pr w in
    (answer ≡ inr (says (codes "local"))) × (second ≡ inr (says (codes "local")))
unfolding chat classify text_eq is_overflow trim_space
private_run = (refl, refl)

chat-GoesToCloud_example :
    GoesToCloud
      (says_user (codes "123"))
      (lookup_tool ∷ [])
      []
      options
      marked_router
      0
      (chat (says_user (codes "123")) (lookup_tool ∷ []) [] options 100 marked_router 0)
chat-GoesToCloud_example =
    chat-GoesToCloud (says_user (codes "123")) lookup_tool [] [] options 100 0 marked_router

abbrev turn : ℕ → Turn
turn now = record { messages = says_user (codes "hello"); tools = []; now = now }

after_turns-marked_example :
    marked_as
      (session_key options)
      (after_turns [] options (turn 200 ∷ turn 300 ∷ []) marked_router 0).sessions
    ≡ some (record marked { msg_count = 2 })
after_turns-marked_example =
    after_turns-marked [] options (turn 200 ∷ turn 300 ∷ []) marked_router 0 marked
      (unfold option_text text_eq in refl) (omega arith) (omega arith)

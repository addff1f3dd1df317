-- ===== src/Providers/Router.antt =====
-- pkg/providers/privacy_router.go. The two models act on a world of their own; the clock is an
-- argument, in nanoseconds. The counters are numbers of calls, far below the range of an int64.
use chango_assistant.Base.{
  Bool, List, Option, Text, [], codes, contains, delete, false, if◌then◌else◌, inl, inr, insert,
  lookup, ltb, none, some, text_eq, trim_space, true, ℕ, ◌&&◌, ◌++◌, ◌+◌, ◌||◌, ◌∷◌, ◌⊎◌,
}
use chango_assistant.Providers.Classifier.{PrivacyClassifier, classify}
use chango_assistant.Providers.Inputs.{
  has_vision_input, no_parts, sanitize_for_local, vision_unsupported_notice,
}
use chango_assistant.Providers.Types.{
  CapabilitySupport, Fields, LlmResponse, Message, ToolDefinition, Value, end_fields, field, text,
  unsupported,
}

-- What the router uses of a provider: `Chat`, and the vision support and the model name that
-- `ResolveCapabilities` finds.
pub record Provider (W : Type 0) : Type 0 where
  pub chat : List Message → List ToolDefinition → Text → Fields → W → (Text ⊎ LlmResponse) × W
  pub vision : Text → CapabilitySupport
  pub model_name : Text → Text

pub record PrivacyStats : Type 0 where
  pub total_messages : ℕ
  pub routed_local : ℕ
  pub routed_cloud : ℕ
  pub catches : ℕ

pub record SensitiveSession : Type 0 where
  pub marked_at : ℕ
  pub msg_count : ℕ
  pub reason : Text

-- The providers and the classifier stay as they are; the marked sessions and the counters change.
pub record PrivacyRouter (W : Type 0) : Type 0 where
  pub cloud : Provider W
  pub local : Provider W
  pub classifier : PrivacyClassifier
  pub sessions : List (Text × SensitiveSession)
  pub stats : PrivacyStats

-- 30 minutes, in nanoseconds.
abbrev pub session_ttl : ℕ
session_ttl = 1800000000000

abbrev pub session_max_msgs : ℕ
session_max_msgs = 5

abbrev pub as_text : Value → Text
as_text (text t) = t
as_text v = []

-- `options["session_key"].(string)`, the empty text where it is missing or no string.
unfoldable pub option_text : Text → Fields → Text
option_text k end_fields = []
option_text k (field j v fs) = if text_eq j k then as_text v else option_text k fs

abbrev pub session_key : Fields → Text
session_key options = option_text (codes "session_key") options

abbrev is_unsupported : CapabilitySupport → Bool
is_unsupported unsupported = true
is_unsupported s = false

-- The notice goes in front of the answer where an image meets a model without vision.
unfoldable pub with_notice : Bool → Text → Text ⊎ LlmResponse → Text ⊎ LlmResponse
unfolding vision_unsupported_notice trim_space
with_notice blind model (inl e) = inl e
with_notice blind model (inr r) =
    if blind
    then inr (record r {
      content = trim_space (vision_unsupported_notice model ++ (10 ∷ 10 ∷ r.content));
    })
    else inr r

-- The errors of the local model on which `routeLocal` turns to the cloud.
unfoldable pub is_overflow : Text → Bool
unfolding contains
is_overflow e = contains e (codes "exceed") || contains e (codes "context_size")

abbrev pub Reply : Type 0 → Type 0
Reply W = (Text ⊎ LlmResponse) × PrivacyRouter W × W

-- A marked session has expired after its time or its number of messages.
abbrev pub expired : ℕ → SensitiveSession → Bool
expired now ss = ltb (ss.marked_at + session_ttl) now || ltb session_max_msgs ss.msg_count

abbrev pub bump : SensitiveSession → SensitiveSession
bump ss = record ss { msg_count = ss.msg_count + 1 }

abbrev pub marked_as : Text → List (Text × SensitiveSession) → Option SensitiveSession
marked_as key m = if text_eq key [] then none else lookup key m

module _ {W : Type 0} where
  abbrev pub blind : Provider W → Text → List Message → Bool
  blind p model ms = has_vision_input ms && is_unsupported (p.vision model)

  abbrev count : (PrivacyStats → PrivacyStats) → PrivacyRouter W → PrivacyRouter W
  count f pr = record pr { stats = f pr.stats }

  abbrev pub add_total : PrivacyRouter W → PrivacyRouter W
  add_total pr = count (λ s. record s { total_messages = s.total_messages + 1 }) pr

  abbrev pub add_local : PrivacyRouter W → PrivacyRouter W
  add_local pr = count (λ s. record s { routed_local = s.routed_local + 1 }) pr

  abbrev pub add_cloud : PrivacyRouter W → PrivacyRouter W
  add_cloud pr = count (λ s. record s { routed_cloud = s.routed_cloud + 1 }) pr

  abbrev pub add_catch : PrivacyRouter W → PrivacyRouter W
  add_catch pr = count (λ s. record s { catches = s.catches + 1 }) pr

  -- `routeCloud`.
  unfoldable pub route_cloud :
      List Message → List ToolDefinition → Text → Fields → PrivacyRouter W → W → Reply W
  unfolding has_vision_input with_notice
  route_cloud ms tools model options pr w =
      let (answer, w') = pr.cloud.chat ms tools model options w in
      (with_notice (blind pr.cloud model ms) (pr.cloud.model_name model) answer, add_cloud pr, w')

  -- The end of `routeLocal`, on the answer of the local model.
  unfoldable pub on_local :
      List Message → Fields → PrivacyRouter W → (Text ⊎ LlmResponse) × W → Reply W
  unfolding is_overflow has_vision_input with_notice
  on_local ms options pr (inr r, w) =
      (with_notice (blind pr.local [] ms) (pr.local.model_name []) (inr r), pr, w)
  on_local ms options pr (inl e, w) =
      let (answer, w') = pr.cloud.chat ms [] [] options w in
      if is_overflow e then (answer, pr, w') else (inl e, pr, w)

  -- `routeLocal`.
  unfoldable pub route_local : List Message → Fields → PrivacyRouter W → W → Reply W
  unfolding sanitize_for_local on_local
  route_local ms options pr w =
      on_local ms options (add_local pr) (pr.local.chat (sanitize_for_local ms) [] [] options w)

  abbrev pub mark : Text → ℕ → Text → PrivacyRouter W → PrivacyRouter W
  mark key now reason pr = if text_eq key [] then pr else record pr {
    sessions = insert key (record { marked_at = now; msg_count = 0; reason = reason }) pr.sessions;
  }

  abbrev pub unmark : Text → PrivacyRouter W → PrivacyRouter W
  unmark key pr = record pr { sessions = delete key pr.sessions }

  abbrev pub remember : Text → SensitiveSession → PrivacyRouter W → PrivacyRouter W
  remember key ss pr = record pr { sessions = insert key ss pr.sessions }

  -- The tools decide: a model that is asked to use tools is the one in the cloud.
  abbrev pub route :
      List Message → List ToolDefinition → Text → Fields → PrivacyRouter W → W → Reply W
  route ms tools model options pr w =
      if no_parts tools
      then route_local ms options pr w
      else route_cloud ms tools model options pr w

  -- The second half of `Chat`: the message is classified.
  unfoldable pub chat_classified :
      List Message → List ToolDefinition → Text → Fields → ℕ → PrivacyRouter W → W → Reply W
  unfolding classify insert route_local route_cloud text_eq
  chat_classified ms tools model options now pr w =
      let result = classify pr.classifier ms in
      let key = session_key options in
      if result.sensitive
      then route ms tools model options (add_catch (mark key now result.reason pr)) w
      else route_cloud ms tools model options pr w

  -- `Chat` in a session that is marked; `ss` has this message counted.
  unfoldable pub chat_marked :
      List Message
      → List ToolDefinition
      → Text
      → Fields
      → ℕ
      → SensitiveSession
      → PrivacyRouter W
      → W
      → Reply W
  unfolding delete insert chat_classified route_local route_cloud
  chat_marked ms tools model options now ss pr w =
      let key = session_key options in
      if expired now ss
      then chat_classified ms tools model options now (unmark key pr) w
      else route ms tools model options (remember key ss pr) w

  -- `Chat`.
  unfoldable pub chat :
      List Message → List ToolDefinition → Text → Fields → ℕ → PrivacyRouter W → W → Reply W
  unfolding option_text chat_marked chat_classified
  chat ms tools model options now pr w = elim (marked_as (session_key options) pr.sessions) [
    | none ↦ chat_classified ms tools model options now (add_total pr) w
    | some ss ↦ chat_marked ms tools model options now (bump ss) (add_total pr) w
  ]

  -- `ResetSession`.
  unfoldable pub reset_session : Text → PrivacyRouter W → PrivacyRouter W
  unfolding delete
  reset_session key pr = unmark key pr

-- ===== src/Providers/Privacy.antt =====
-- What the router of pkg/providers/privacy_router.go does with a private message without tools.
use chango_assistant.Base.{Bool, List, Text, [], false, inl, inr, some, true, ℕ, ◌≡◌, ◌⊎◌}
use chango_assistant.Providers.Classifier.{classify}
use chango_assistant.Providers.Inputs.{sanitize_for_local}
use chango_assistant.Providers.Router.{
  PrivacyRouter, Reply, SensitiveSession, blind, bump, chat, expired, is_overflow, marked_as,
  session_key, with_notice,
}
use chango_assistant.Providers.Types.{Fields, LlmResponse, Message}

-- The local model failed in a way on which the router turns to the cloud.
abbrev pub overflows : Text ⊎ LlmResponse → Bool
overflows (inl e) = is_overflow e
overflows (inr r) = false

module _ {W : Type 0} where
  -- A message without tools is private if it is classified as sensitive, or comes in a session that is
  -- marked and has not expired.
  abbrev pub IsPrivate : List Message → Fields → ℕ → PrivacyRouter W → Type 0
  IsPrivate ms options now pr =
      ((classify pr.classifier ms).sensitive ≡ true)
      ⊎ ((ss : SensitiveSession) × (marked_as (session_key options) pr.sessions ≡ some ss)
          × (expired now (bump ss) ≡ false))

  -- The answer of the local model to the sanitized messages, with its notice, and the world after it.
  abbrev pub local_answer : List Message → Fields → PrivacyRouter W → W → (Text ⊎ LlmResponse) × W
  local_answer ms options pr w = pr.local.chat (sanitize_for_local ms) [] [] options w

  -- The cloud is not called: answer and world are those of one call of the local model.
  abbrev pub StaysLocal : List Message → Fields → PrivacyRouter W → W → Reply W → Type 0
  StaysLocal ms options pr w reply =
      let (answer, w') = local_answer ms options pr w in
      (reply.0 ≡ with_notice (blind pr.local [] ms) (pr.local.model_name []) answer)
      × (reply.2 ≡ w')

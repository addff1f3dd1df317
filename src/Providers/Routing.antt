-- ===== src/Providers/Routing.antt =====
-- The counters of pkg/providers/privacy_router.go.
use chango_assistant.Base.{
  List, Option-cases, Text, [], arith, if_both, inl, inr, text_eq, ℕ, ◌+◌, ◌≡◌, ◌⊎◌,
}
use chango_assistant.Providers.Classifier.{classify}
use chango_assistant.Providers.Inputs.{no_parts, sanitize_for_local}
use chango_assistant.Providers.Router.{
  PrivacyRouter, Reply, SensitiveSession, add_catch, add_local, add_total, bump, chat,
  chat_classified, chat_marked, expired, is_overflow, mark, marked_as, on_local, remember, route,
  route_cloud, route_local, session_key, unmark,
}
use chango_assistant.Providers.Types.{Fields, LlmResponse, Message, ToolDefinition}
use mathlib.Core.Path.{refl}

-- Every message is counted once as local or as cloud.
abbrev pub IsBalanced : {W : Type 0} → PrivacyRouter W → Type 0
IsBalanced pr = pr.stats.total_messages ≡ pr.stats.routed_local + pr.stats.routed_cloud

module _ {W : Type 0} where
  abbrev OneShort : PrivacyRouter W → Type 0
  OneShort pr = pr.stats.total_messages ≡ pr.stats.routed_local + pr.stats.routed_cloud + 1

  pub on_local-router :
      (ms : List Message) (options : Fields) (pr : PrivacyRouter W) (x : (Text ⊎ LlmResponse) × W)
      → (on_local ms options pr x).1 ≡ pr
  unfolding on_local
  on_local-router ms options pr (inr r, w) = refl
  on_local-router ms options pr (inl e, w) =
      if_both {A = Reply W} (λ x. x.1 ≡ pr) (is_overflow e)
        ((pr.cloud.chat ms [] [] options w).0, pr, (pr.cloud.chat ms [] [] options w).1)
        (inl e, pr, w) refl refl

  route-IsBalanced :
      (ms : List Message) (tools : List ToolDefinition) (model : Text) (options : Fields)
      (pr : PrivacyRouter W) (w : W)
      → OneShort pr
      → IsBalanced (route ms tools model options pr w).1
  unfolding route_local route_cloud
  route-IsBalanced ms tools model options pr w h =
      if_both {A = Reply W} (λ x. IsBalanced x.1) (no_parts tools) _ _
        (rw
          (on_local-router ms options (add_local pr)
            (pr.local.chat (sanitize_for_local ms) [] [] options w))
          (omega arith))
        (omega arith)

  mark-OneShort :
      (key : Text) (now : ℕ) (reason : Text) (pr : PrivacyRouter W)
      → OneShort pr
      → OneShort (add_catch (mark key now reason pr))
  mark-OneShort key now reason pr h =
      if_both {A = PrivacyRouter W} (λ q. OneShort (add_catch q)) (text_eq key []) _ _ h h

  chat_classified-IsBalanced :
      (ms : List Message) (tools : List ToolDefinition) (model : Text) (options : Fields) (now : ℕ)
      (pr : PrivacyRouter W) (w : W)
      → OneShort pr
      → IsBalanced (chat_classified ms tools model options now pr w).1
  unfolding chat_classified
  chat_classified-IsBalanced ms tools model options now pr w h =
      if_both {A = Reply W} (λ x. IsBalanced x.1) (classify pr.classifier ms).sensitive
        (route ms tools model options caught w) (route_cloud ms tools model options pr w)
        (route-IsBalanced ms tools model options caught w
          (mark-OneShort (session_key options) now (classify pr.classifier ms).reason pr h))
        (unfold route_cloud in omega arith)
    where
      caught : PrivacyRouter W
      caught = add_catch (mark (session_key options) now (classify pr.classifier ms).reason pr)

  chat_marked-IsBalanced :
      (ms : List Message) (tools : List ToolDefinition) (model : Text) (options : Fields) (now : ℕ)
      (ss : SensitiveSession) (pr : PrivacyRouter W) (w : W)
      → OneShort pr
      → IsBalanced (chat_marked ms tools model options now ss pr w).1
  unfolding chat_marked
  chat_marked-IsBalanced ms tools model options now ss pr w h =
      if_both {A = Reply W} (λ x. IsBalanced x.1) (expired now ss)
        (chat_classified ms tools model options now (unmark (session_key options) pr) w)
        (route ms tools model options (remember (session_key options) ss pr) w)
        (chat_classified-IsBalanced ms tools model options now (unmark (session_key options) pr) w
          h)
        (route-IsBalanced ms tools model options (remember (session_key options) ss pr) w h)

  -- The calls of the local and of the cloud model add up to the messages. (A call of the cloud on an
  -- overflow of the local model is counted as local.)
  chat-IsBalanced :
      (ms : List Message) (tools : List ToolDefinition) (model : Text) (options : Fields) (now : ℕ)
      (pr : PrivacyRouter W) (w : W)
      → IsBalanced pr
      → IsBalanced (chat ms tools model options now pr w).1
  unfolding chat
  chat-IsBalanced ms tools model options now pr w h =
      elim (Option-cases (marked_as (session_key options) pr.sessions)) [
        | inl e ↦
            rw (e, chat)
              (chat_classified-IsBalanced ms tools model options now (add_total pr) w (omega arith))
        | inr (ss, e) ↦
            rw (e, chat)
              (chat_marked-IsBalanced ms tools model options now (bump ss) (add_total pr) w
                (omega arith))
      ]

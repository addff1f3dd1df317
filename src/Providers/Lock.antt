-- ===== src/Providers/Lock.antt =====
-- How long a session stays marked, and what tools do to the routing.
use chango_assistant.Base.{
  All, Bool-cases, List, Option-cases, Text, [], ap, arith, false, if_both, inl, inr, length,
  lookup, lookup-insert_self, refl, some, text_eq, ℕ, ◌+◌, ◌∙◌, ◌∷◌, ◌≡◌, ◌≤◌,
}
use chango_assistant.Providers.Classifier.{classify}
use chango_assistant.Providers.Inputs.{no_parts, sanitize_for_local}
use chango_assistant.Providers.Router.{
  PrivacyRouter, Reply, SensitiveSession, add_catch, add_local, add_total, blind, bump, chat,
  chat_classified, chat_marked, expired, marked_as, remember, route, route_cloud, route_local,
  session_key, session_max_msgs, session_ttl, unmark, with_notice,
}
use chango_assistant.Providers.Routing.{on_local-router}
use chango_assistant.Providers.Types.{Fields, Message, ToolDefinition}

module _ {W : Type 0} where
  -- The cloud answers, on the whole messages.
  abbrev pub GoesToCloud :
      List Message → List ToolDefinition → Text → Fields → PrivacyRouter W → W → Reply W → Type 0
  GoesToCloud ms tools model options pr w reply =
      let (answer, w') = pr.cloud.chat ms tools model options w in
      (reply.0 ≡ with_notice (blind pr.cloud model ms) (pr.cloud.model_name model) answer)
      × (reply.2 ≡ w')

  module _ (ms : List Message) (t : ToolDefinition) (ts : List ToolDefinition) (model : Text)
      (options : Fields) (now : ℕ) (w : W) where
    classified-GoesToCloud :
        (pr : PrivacyRouter W)
        → GoesToCloud ms
            (t ∷ ts)
            model
            options
            pr
            w
            (chat_classified ms (t ∷ ts) model options now pr w)
    unfolding chat_classified route_cloud
    classified-GoesToCloud pr = elim (Bool-cases (classify pr.classifier ms).sensitive) [
      | inl s ↦
          rw (s, chat_classified)
            (if_both {A = PrivacyRouter W}
              (λ q.
                GoesToCloud ms (t ∷ ts) model options pr w
                  (route_cloud ms (t ∷ ts) model options (add_catch q) w))
              (text_eq (session_key options) []) _ _ (refl, refl) (refl, refl))
      | inr s ↦ rw (s, chat_classified) (refl, refl)
    ]

    -- A message with tools goes to the cloud whole, whatever it says and also in a marked session.
    pub chat-GoesToCloud :
        (pr : PrivacyRouter W)
        → GoesToCloud ms (t ∷ ts) model options pr w (chat ms (t ∷ ts) model options now pr w)
    unfolding chat
    chat-GoesToCloud pr = elim (Option-cases (marked_as (session_key options) pr.sessions)) [
      | inl e ↦ rw (e, chat) (classified-GoesToCloud (add_total pr))
      | inr (ss, e) ↦
          rw (e, chat)
            (if_both {A = Reply W} (GoesToCloud ms (t ∷ ts) model options pr w)
              (expired now (bump ss))
              (chat_classified ms (t ∷ ts) model options now
                (unmark (session_key options) (add_total pr)) w)
              (route_cloud ms (t ∷ ts) model options
                (remember (session_key options) (bump ss) (add_total pr)) w)
              (classified-GoesToCloud (unmark (session_key options) (add_total pr)))
              (unfold route_cloud in (refl, refl)))
    ]

-- One call of the router in a conversation: its messages, its tools and the clock.
pub record Turn : Type 0 where
  pub messages : List Message
  pub tools : List ToolDefinition
  pub now : ℕ

module _ {W : Type 0} (model : Text) (options : Fields) where
  -- The router after the turns of one conversation.
  pub after_turns : List Turn → PrivacyRouter W → W → PrivacyRouter W
  after_turns [] pr w = pr
  after_turns (t ∷ ts) pr w =
      let (answer, pr', w') = chat t.messages t.tools model options t.now pr w in
      after_turns ts pr' w'

  route-sessions :
      (t : Turn) (pr : PrivacyRouter W) (w : W)
      → (route t.messages t.tools model options pr w).1.sessions ≡ pr.sessions
  unfolding route_local route_cloud
  route-sessions t pr w =
      if_both {A = Reply W} (λ x. x.1.sessions ≡ pr.sessions) (no_parts t.tools) _ _
        (ap (λ q. q.sessions)
          (on_local-router t.messages options (add_local pr)
            (pr.local.chat (sanitize_for_local t.messages) [] [] options w)))
        refl

  -- A message in a marked session that has not expired counts towards its end.
  chat-marked :
      (t : Turn) (pr : PrivacyRouter W) (w : W) (ss : SensitiveSession)
      → marked_as (session_key options) pr.sessions ≡ some ss
      → expired t.now (bump ss) ≡ false
      → marked_as
          (session_key options)
          (chat t.messages t.tools model options t.now pr w).1.sessions
        ≡ some (bump ss)
  unfolding chat chat_marked
  chat-marked t pr w ss e live = elim (Bool-cases (text_eq (session_key options) [])) [
    | inl z ↦ absurd (cc (rw z at e))
    | inr z ↦
        rw (e, chat, live, z)
          (ap (lookup (session_key options))
              (route-sessions t (remember (session_key options) (bump ss) (add_total pr)) w)
            ∙ lookup-insert_self (session_key options) (bump ss) pr.sessions)
  ]

  -- A marked session stays marked through the next messages, with or without tools, as long as it
  -- has had at most five of them and its time has not passed.
  pub after_turns-marked :
      (turns : List Turn) (pr : PrivacyRouter W) (w : W) (ss : SensitiveSession)
      → marked_as (session_key options) pr.sessions ≡ some ss
      → ss.msg_count + length turns ≤ session_max_msgs
      → All (λ t. t.now ≤ ss.marked_at + session_ttl) turns
      → marked_as (session_key options) (after_turns turns pr w).sessions
        ≡ some (record ss { msg_count = ss.msg_count + length turns })
  unfolding after_turns
  after_turns-marked [] pr w ss e few soon = e ∙ ground arith
  after_turns-marked (t ∷ turns) pr w ss e few soon =
      after_turns-marked turns _ _ (bump ss) (chat-marked t pr w ss e (live soon.0)) (omega arith)
        soon.1
      ∙ ground arith
    where
      live : t.now ≤ ss.marked_at + session_ttl → expired t.now (bump ss) ≡ false
      live h = ground arith

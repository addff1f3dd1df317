-- ===== src/Agent/Background.antt =====
-- The choice of the model for a turn in `runAgentLoop` of pkg/agent/loop.go: turns of the scheduler and
-- of the heartbeat go to a local model where one is preferred, and on to another one where it fails.
-- `lower` is `strings.ToLower`. The tree of thought, for turns of a chat only, is left out.
use chango_assistant.Base.{
  Bool, List, Option, Text, [], codes, contains, if◌then◌else◌, length, ltb, none, not, some,
  text_eq, trim_space, ◌&&◌, ◌||◌,
}
use chango_assistant.Agent.Iteration.{Ended, run_llm_iteration}
use chango_assistant.Agent.State.{Agent, Env, ProcessOptions, Provider}
use chango_assistant.Providers.Types.{Message}

pub record Background (W : Type 0) : Type 0 where
  pub local_provider : Option (Provider W)
  pub prefer_local : Bool
  pub background_provider : Option (Provider W)
  pub background_model : Text

abbrev pub is_background : Text → Bool
is_background feature = text_eq feature (codes "cron") || text_eq feature (codes "heartbeat")

-- The local provider, where the turn uses it (`useLocal`).
unfoldable pub local_for : {W : Type 0} → Background W → Text → Option (Provider W)
unfolding text_eq
local_for bg feature = if bg.prefer_local && is_background feature then bg.local_provider else none

abbrev or_provider : {W : Type 0} → Option (Provider W) → Provider W → Provider W
or_provider none p = p
or_provider (some q) p = q

-- Whether a local answer is too short or uncertain.
unfoldable pub needs_escalation : (Text → Text) → Text → Bool
unfolding trim_space contains
needs_escalation lower content =
    ltb (length (trim_space content)) 20
    || (contains (lower content) (codes "i don't know")
        || contains (lower content) (codes "no puedo"))

module _ {W H : Type 0} (bg : Background W) where
  -- `bgProvider`.
  unfoldable pub bg_provider : Agent W H → Provider W
  bg_provider a = or_provider bg.background_provider a.provider

  -- `bgModel`.
  unfoldable pub bg_model : Agent W H → Text
  unfolding text_eq
  bg_model a = if not (text_eq bg.background_model []) then bg.background_model else a.model

abbrev pub on_provider : {W H : Type 0} → Provider W → Text → Agent W H → Agent W H
on_provider p m a = record a { provider = p; model = m }

-- The end of a turn of the iteration with the provider and the model put back. An error leaves neither
-- a text nor media.
abbrev pub put_back : {W H : Type 0} → Provider W → Text → Ended W H → Ended W H
put_back p m e = record e { agent = on_provider p m e.agent }

abbrev pub without_text : {W H : Type 0} → Option Text → Ended W H → Ended W H
without_text none e = e
without_text (some err) e = record e { content = []; media = [] }

module _ {W H : Type 0} (lower : Text → Text) (env : Env W) (opts : ProcessOptions)
    (ms : List Message) where
  -- The second attempt, with the other provider.
  unfoldable pub escalate : Provider W → Text → Provider W → Text → Agent W H → Ended W H
  unfolding run_llm_iteration
  escalate other other_model p m a =
      put_back p m (run_llm_iteration env opts ms (on_provider other other_model a))

  -- After the first attempt with the local provider.
  unfoldable pub after_local :
      Option Text → Provider W → Text → Provider W → Text → Ended W H → Ended W H
  unfolding needs_escalation escalate
  after_local (some err) other other_model p m first = escalate other other_model p m first.agent
  after_local none other other_model p m first =
      if needs_escalation lower first.content
      then escalate other other_model p m first.agent
      else put_back p m first

module _ {W H : Type 0} (lower : Text → Text) (bg : Background W) (env : Env W)
    (opts : ProcessOptions) (ms : List Message) where
  abbrev pub on_local : Option (Provider W) → Agent W H → Ended W H
  unfolding run_llm_iteration after_local bg_provider bg_model
  on_local none a = run_llm_iteration env opts ms a
  on_local (some provider) a =
      let start = on_provider provider [] a in
      let first = run_llm_iteration env opts ms start in
      after_local lower env opts ms first.err (bg_provider bg start) (bg_model bg start) a.provider
        a.model first

  -- Step 4 of `runAgentLoop`.
  unfoldable pub call_model : Agent W H → Ended W H
  unfolding on_local local_for
  call_model a = let e = on_local (local_for bg opts.feature) a in without_text e.err e

-- ===== src/Agent/Escalation.antt =====
-- Which models a turn of the scheduler or the heartbeat asks in `runAgentLoop` of pkg/agent/loop.go.
use chango_assistant.Base.{
  Bool-cases, List, Option, Text, [], ap, inl, inr, none, refl, some, ◌∙◌, ◌≡◌,
}
use chango_assistant.Agent.Background.{
  Background, after_local, bg_model, bg_provider, call_model, escalate, local_for, needs_escalation,
  on_provider, put_back, without_text,
}
use chango_assistant.Agent.Iteration.{Ended, run_llm_iteration}
use chango_assistant.Agent.State.{Agent, Env, ProcessOptions, Provider}
use chango_assistant.Providers.Types.{Message}

module _ {W H : Type 0} (lower : Text → Text) (env : Env W) (opts : ProcessOptions)
    (ms : List Message) where
  after_local-put_back :
      (err : Option Text) (o : Provider W) (om : Text) (p : Provider W) (m : Text) (q : Provider W)
      (n : Text) (first : Ended W H)
      → after_local lower env opts ms err o om p m first
        ≡ put_back p m (after_local lower env opts ms err o om q n first)
  unfolding after_local escalate
  after_local-put_back (some err) o om p m q n first = refl
  after_local-put_back none o om p m q n first =
      elim (Bool-cases (needs_escalation lower first.content)) [
        | inl e ↦ rw e refl
        | inr e ↦ rw e refl
      ]

  without_text-put_back :
      (err : Option Text) (p : Provider W) (m : Text) (e : Ended W H)
      → without_text err (put_back p m e) ≡ put_back p m (without_text err e)
  without_text-put_back none p m e = refl
  without_text-put_back (some err) p m e = refl

  ended-put_back :
      (err : Option Text) (o : Provider W) (om : Text) (p : Provider W) (m : Text) (q : Provider W)
      (n : Text) (first : Ended W H)
      → let e = after_local lower env opts ms err o om p m first in
        let f = after_local lower env opts ms err o om q n first in
        without_text e.err e ≡ put_back p m (without_text f.err f)
  ended-put_back err o om p m q n first =
      let f = after_local lower env opts ms err o om q n first in
      ap (λ x. without_text x.err x) (after_local-put_back err o om p m q n first)
      ∙ without_text-put_back f.err p m f

module _ {W H : Type 0} (lower : Text → Text) (bg : Background W) (env : Env W)
    (opts : ProcessOptions) (ms : List Message) where
  -- A turn with a local provider leaves the agent with the provider and the model that it had before,
  -- however it ends, with a background provider or without one.
  pub call_model-puts_back :
      (local : Provider W) (a : Agent W H)
      → local_for bg opts.feature ≡ some local
      → let e = call_model lower bg env opts ms a in
        (e.agent.provider ≡ a.provider) × (e.agent.model ≡ a.model)
  unfolding call_model
  call_model-puts_back local a h =
      let same =
        ended-put_back lower env opts ms first.err (bg_provider bg start) (bg_model bg start)
          a.provider a.model a.provider a.model first in
      rw h (ap (λ e. e.agent.provider) same, ap (λ e. e.agent.model) same)
    where
      start : Agent W H
      start = on_provider local [] a

      first : Ended W H
      first = run_llm_iteration env opts ms start

  -- A turn with a local provider, where there is no background provider and no background model, does
  -- not ask the active ones: what it shows, saves and does to the world is the same with any others, so
  -- that an escalation asks the local provider again; and it puts back the provider and the model.
  pub call_model-ignores_active :
      (local : Provider W) (a : Agent W H) (p : Provider W) (m : Text)
      → local_for bg opts.feature ≡ some local
      → bg.background_provider ≡ none
      → bg.background_model ≡ []
      → let e = call_model lower bg env opts ms a in
        (call_model lower bg env opts ms (on_provider p m a) ≡ put_back p m e)
        × (e ≡ put_back a.provider a.model e)
  unfolding call_model bg_provider bg_model
  call_model-ignores_active local a p m h no_provider no_model =
      rw (h, no_provider, no_model)
        (
          ended-put_back lower env opts ms first.err local [] p m a.provider a.model first,
          ended-put_back lower env opts ms first.err local [] a.provider a.model a.provider a.model
              first,
        )
    where
      first : Ended W H
      first = run_llm_iteration env opts ms (on_provider local [] a)

-- ===== src/Tests/BusCases.antt =====
-- The queue of the bus, the dispatcher, the state file and the sentinel.
use chango_assistant.Base.{
  Bool, List, Option, Text, [], arith, codes, contains, false, has_prefix, if◌then◌else◌, is_some,
  length, ltb, none, refl, some, suc, text_eq, true, ℕ, ◌++◌, ◌+◌, ◌∷◌, ◌≡◌, ◌≤◌, ◌⊎◌,
}
use chango_assistant.Bus.Fifo.{
  Op, consume, consumes, publish, steps, steps-all_received, steps-fifo,
}
use chango_assistant.Bus.Queue.{
  MessageBus, OutboundMessage, buffer_size, publish_outbound, receive, send, subscribe_outbound,
}
use chango_assistant.Channels.Manager.{
  Channel, Channels, dispatch, is_permanent_send_error, send_attempts,
}
use chango_assistant.Channels.Retry.{FirstFinal, dispatch-FirstFinal}
use chango_assistant.Healthcheck.Service.{is_internal_channel}
use chango_assistant.Sentinel.Service.{Service}
use chango_assistant.Sentinel.Throttle.{alert_steps, count_sent, send_alert-once_per_hour}
use chango_assistant.State.Manager.{
  Fault, Manager, State, empty_state, missing, new_manager, save_atomic, set_last_channel,
}
use chango_assistant.State.Reload.{Remembers, apply, apply-restart, channel}

abbrev note : Text → OutboundMessage
note content = record {
  channel = codes "telegram";
  chat_id = codes "7";
  content = content;
  media = [];
}

abbrev one_waiting : MessageBus ℕ
one_waiting = record {
  inbound = [];
  outbound = note (codes "a") ∷ [];
  handlers = [];
  closed = false;
}

abbrev some_ops : List Op
some_ops = publish (note (codes "b")) ∷ consume ∷ publish (note (codes "c")) ∷ []

steps-fifo_example :
    let t = steps some_ops one_waiting in
    (one_waiting.outbound ++ t.accepted ≡ t.received ++ t.bus.outbound)
    × (length t.bus.outbound ≤ buffer_size)
steps-fifo_example = steps-fifo some_ops one_waiting refl (omega arith)

some_ops-received : (steps some_ops one_waiting).received ≡ note (codes "a") ∷ []
unfolding steps publish_outbound subscribe_outbound send receive
some_ops-received = refl

steps-all_received_example :
    let t = steps (some_ops ++ consumes buffer_size) one_waiting in
    (t.received ≡ one_waiting.outbound ++ t.accepted) × (t.bus.outbound ≡ [])
steps-all_received_example = steps-all_received some_ops one_waiting refl (omega arith)

-- A channel that fails twice; the world counts its calls.
abbrev flaky : Channel ℕ
flaky = record {
  is_running = λ w. true;
  send = λ msg w. (if ltb w 2 then some (codes "connection reset") else none, suc w);
}

abbrev channels : Channels ℕ
channels = (codes "telegram", flaky) ∷ []

dispatch-FirstFinal_example :
    FirstFinal
      (λ w. false)
      (λ k w. w)
      2
      0
      (flaky.send (note (codes "a")))
      0
      (dispatch (λ w. false) (λ k w. w) channels (note (codes "a")) 0)
dispatch-FirstFinal_example =
    dispatch-FirstFinal (λ w. false) (λ k w. w) channels flaky (note (codes "a")) 0
      (unfold is_internal_channel text_eq in refl) (unfold text_eq in refl)

third_attempt : dispatch (λ w. false) (λ k w. w) channels (note (codes "a")) 0 ≡ (none, 3)
unfolding dispatch send_attempts is_permanent_send_error contains has_prefix is_internal_channel
    text_eq
third_attempt = refl

-- Files that hold the state itself, as one text for each field.
abbrev printed : State → Text
printed s = s.last_channel

abbrev read_back : Text → State → State × Bool
read_back bytes s = (record s { last_channel = bytes; timestamp = 5 }, true)

abbrev fresh : Manager
fresh = record {
  state = empty_state;
  files = record { state_file = missing; temp_file = missing; old_file = missing };
}

apply-restart_example :
    let (sm', err) = apply printed read_back (channel (codes "telegram:7")) 5 none fresh in
    Remembers printed read_back (channel (codes "telegram:7")) 5 fresh sm'
    × (((err ≡ none)
          × ((later : Option Fault) → new_manager printed read_back later sm'.files ≡ sm'))
        ⊎ ((is_some err ≡ true) × (sm'.files.state_file ≡ fresh.files.state_file)))
apply-restart_example =
    apply-restart printed read_back (channel (codes "telegram:7")) 5 none fresh
      (unfold apply set_last_channel save_atomic in refl)

abbrev watch : Service ℕ
watch = record {
  bus = some one_waiting;
  state = record fresh { state = record empty_state { last_channel = codes "telegram:7" } };
  last_alert_time = [];
}

abbrev two_alerts : List (Text × ℕ)
two_alerts = (codes "RAM 91", 10) ∷ (codes "RAM 91", 20) ∷ []

send_alert-once_per_hour_example :
    count_sent (codes "RAM 91") (alert_steps two_alerts watch).bus
    ≤ 1 + count_sent (codes "RAM 91") watch.bus
send_alert-once_per_hour_example =
    send_alert-once_per_hour (codes "RAM 91") 10 two_alerts watch
      ((omega arith, omega arith), ((omega arith, omega arith), tt))

-- ===== src/Bus/Queue.antt =====
-- pkg/bus/bus.go. A Go channel with a buffer is the list of what waits in it, the oldest first. A
-- publication that finds no room waits ten seconds; what happens in that time are other steps, and the
-- step of the publication is the end of its wait.
use chango_assistant.Base.{
  Bool, List, Option, Text, [], false, if◌then◌else◌, insert, length, lookup, ltb, none, some, suc,
  true, zero, ℕ, ◌++◌, ◌∷◌,
}
use chango_assistant.Channels.Base.{InboundMessage}

pub record OutboundMessage : Type 0 where
  pub channel : Text
  pub chat_id : Text
  pub content : Text
  pub media : List Text

pub record MessageBus (H : Type 0) : Type 0 where
  pub inbound : List InboundMessage
  pub outbound : List OutboundMessage
  pub handlers : List (Text × H)
  pub closed : Bool

abbrev pub buffer_size : ℕ
buffer_size = 500

-- How a send ends: sent, given up after the wait, or stopped by the runtime on a closed channel.
pub data Sent : Type 0 where
  sent : Sent
  timed_out : Sent
  panics : Sent

-- Sending to a channel with a buffer.
unfoldable pub send {ℓ} : {A : Type ℓ} → Bool → A → List A → List A × Sent
send closed msg queue =
    if closed
    then (queue, panics)
    else if ltb (length queue) buffer_size
    then (queue ++ msg ∷ [], sent)
    else (queue, timed_out)

-- Receiving from it, where `zero_value` is what a closed and empty channel hands out; `none` where it is
-- empty and open and the context ends the wait.
unfoldable pub receive {ℓ} : {A : Type ℓ} → Bool → A → List A → Option A × List A
receive closed zero_value [] = (if closed then some zero_value else none, [])
receive closed zero_value (msg ∷ queue) = (some msg, queue)

abbrev pub no_inbound : InboundMessage
no_inbound = record {
  channel = [];
  sender_id = [];
  chat_id = [];
  content = [];
  media = [];
  session_key = [];
  metadata = [];
}

abbrev pub no_outbound : OutboundMessage
no_outbound = record { channel = []; chat_id = []; content = []; media = [] }

module _ {H : Type 0} where
  -- `NewMessageBus`.
  unfoldable pub new_message_bus : MessageBus H
  new_message_bus = record { inbound = []; outbound = []; handlers = []; closed = false }

  -- `PublishInbound`.
  unfoldable pub publish_inbound : InboundMessage → MessageBus H → MessageBus H × Sent
  unfolding send
  publish_inbound msg mb =
      let (queue, outcome) = send mb.closed msg mb.inbound in
      (record mb { inbound = queue }, outcome)

  -- `ConsumeInbound`.
  unfoldable pub consume_inbound : MessageBus H → Option InboundMessage × MessageBus H
  unfolding receive
  consume_inbound mb =
      let (msg, queue) = receive mb.closed no_inbound mb.inbound in
      (msg, record mb { inbound = queue })

  -- `PublishOutbound`.
  unfoldable pub publish_outbound : OutboundMessage → MessageBus H → MessageBus H × Sent
  unfolding send
  publish_outbound msg mb =
      let (queue, outcome) = send mb.closed msg mb.outbound in
      (record mb { outbound = queue }, outcome)

  -- `SubscribeOutbound`.
  unfoldable pub subscribe_outbound : MessageBus H → Option OutboundMessage × MessageBus H
  unfolding receive
  subscribe_outbound mb =
      let (msg, queue) = receive mb.closed no_outbound mb.outbound in
      (msg, record mb { outbound = queue })

  -- The attempts of `PublishOutboundWithRetry` that are left; before each one the others act on the bus
  -- (`meanwhile`).
  unfoldable pub publish_attempts :
      (ℕ → MessageBus H → MessageBus H) → ℕ → OutboundMessage → MessageBus H → MessageBus H × Sent
  unfolding publish_outbound
  publish_attempts meanwhile zero msg mb = (mb, timed_out)
  publish_attempts meanwhile (suc left) msg mb =
      let (mb', outcome) = publish_outbound msg (meanwhile left mb) in
      let rest = publish_attempts meanwhile left msg mb' in
      elim outcome [ sent ↦ (mb', sent) | timed_out ↦ rest | panics ↦ (mb', panics) ]

  -- `PublishOutboundWithRetry`.
  unfoldable pub publish_outbound_with_retry :
      (ℕ → MessageBus H → MessageBus H) → OutboundMessage → MessageBus H → MessageBus H × Sent
  unfolding publish_attempts
  publish_outbound_with_retry meanwhile msg mb = publish_attempts meanwhile 3 msg mb

  -- `RegisterHandler`.
  unfoldable pub register_handler : Text → H → MessageBus H → MessageBus H
  unfolding insert
  register_handler channel h mb = record mb { handlers = insert channel h mb.handlers }

  -- `GetHandler`.
  unfoldable pub get_handler : Text → MessageBus H → Option H
  get_handler channel mb = lookup channel mb.handlers

  -- `Drain`.
  unfoldable pub drain : MessageBus H → MessageBus H
  drain mb = record mb { inbound = []; outbound = [] }

  -- `Close`; `none` is the stop by the runtime where the channels are closed already.
  unfoldable pub close : MessageBus H → Option (MessageBus H)
  unfolding drain
  close mb = if mb.closed then none else some (record (drain mb) { closed = true })

-- ===== src/Bus/Fifo.antt =====
-- The outbound queue of pkg/bus/bus.go against an abstract one that forgets its bound: what goes in
-- comes out in the same order, whoever publishes and consumes, and in whatever order.
use chango_assistant.Base.{
  Bool-cases, List, List-cases, Option, [], ap, append-nil, append_assoc, arith, false, inl, inr,
  length, length-append, ltb, none, refl, some, subst, suc, sym, true, zero, ℕ, ◌++◌, ◌+◌, ◌∙◌, ◌∷◌,
  ◌≡◌, ◌≤◌,
}
use chango_assistant.Bus.Queue.{
  MessageBus, OutboundMessage, Sent, buffer_size, panics, publish_outbound, receive, send, sent,
  subscribe_outbound, timed_out,
}

-- What the threads do to the queue, in the order in which it happens.
pub data Op : Type 0 where
  publish : OutboundMessage → Op
  consume : Op

-- What a sequence of steps leaves: the messages that were accepted and the ones that were received,
-- each in order, and the bus.
pub record Traffic (H : Type 0) : Type 0 where
  pub accepted : List OutboundMessage
  pub received : List OutboundMessage
  pub bus : MessageBus H

abbrev accept : {H : Type 0} → OutboundMessage → Sent → Traffic H → Traffic H
accept msg sent t = record t { accepted = msg ∷ t.accepted }
accept msg timed_out t = t
accept msg panics t = t

abbrev deliver : {H : Type 0} → Option OutboundMessage → Traffic H → Traffic H
deliver none t = t
deliver (some msg) t = record t { received = msg ∷ t.received }

-- A number of receptions.
unfoldable pub consumes : ℕ → List Op
consumes zero = []
consumes (suc n) = consume ∷ consumes n

has_room : (n : ℕ) → ltb n buffer_size ≡ true → n + 1 ≤ buffer_size
has_room n e = ground arith

nothing_left : {n : ℕ} → suc n ≤ 0 → ⊥
nothing_left h = omega arith

one_less : {m n : ℕ} → suc m ≤ suc n → m ≤ n
one_less h = omega arith

shorter : {n : ℕ} → suc n ≤ buffer_size → n ≤ buffer_size
shorter h = omega arith

module _ {H : Type 0} where
  unfoldable pub steps : List Op → MessageBus H → Traffic H
  unfolding publish_outbound subscribe_outbound
  steps [] mb = record { accepted = []; received = []; bus = mb }
  steps (publish msg ∷ ops) mb =
      let (mb', outcome) = publish_outbound msg mb in accept msg outcome (steps ops mb')
  steps (consume ∷ ops) mb = let (msg, mb') = subscribe_outbound mb in deliver msg (steps ops mb')

  -- The two sides of the queue agree, and it is within its bound.
  abbrev pub InOrder : List OutboundMessage → Traffic H → Type 0
  InOrder waiting t =
      (waiting ++ t.accepted ≡ t.received ++ t.bus.outbound) × (length t.bus.outbound ≤ buffer_size)

  accept-InOrder :
      (msg : OutboundMessage) (waiting : List OutboundMessage) (t : Traffic H)
      → InOrder (waiting ++ msg ∷ []) t
      → InOrder waiting (accept msg sent t)
  accept-InOrder msg waiting t (e, h) = (sym (append_assoc waiting _ _) ∙ e, h)

  deliver-InOrder :
      (msg : OutboundMessage) (waiting : List OutboundMessage) (t : Traffic H)
      → InOrder waiting t
      → InOrder (msg ∷ waiting) (deliver (some msg) t)
  deliver-InOrder msg waiting t (e, h) = (ap (λ l. msg ∷ l) e, h)

  -- In every sequence of publications and receptions on an open bus the messages come out in the order
  -- in which they were accepted: what waited before and what was accepted is what was received and what
  -- still waits. The queue never holds more than its buffer.
  pub steps-fifo :
      (ops : List Op) (mb : MessageBus H)
      → mb.closed ≡ false
      → length mb.outbound ≤ buffer_size
      → let t = steps ops mb in
        (mb.outbound ++ t.accepted ≡ t.received ++ t.bus.outbound)
        × (length t.bus.outbound ≤ buffer_size)
  unfolding steps publish_outbound subscribe_outbound send receive
  steps-fifo [] mb c h = (append-nil mb.outbound, h)
  steps-fifo (publish msg ∷ ops) mb c h = elim (Bool-cases (ltb (length mb.outbound) buffer_size)) [
    | inl e ↦
        rw (c, e)
          (accept-InOrder msg mb.outbound
            (steps ops (record mb { outbound = mb.outbound ++ msg ∷ []; closed = false }))
            (steps-fifo ops (record mb { outbound = mb.outbound ++ msg ∷ []; closed = false }) refl
              (rw (length-append mb.outbound (msg ∷ [])) (has_room (length mb.outbound) e))))
    | inr e ↦ rw (c, e) (steps-fifo ops (record mb { closed = false }) refl h)
  ]
  steps-fifo (consume ∷ ops) mb c h = elim (List-cases mb.outbound) [
    | inl e ↦
        rw (c, e) (steps-fifo ops (record mb { outbound = []; closed = false }) refl (omega arith))
    | inr ((msg, queue), e) ↦ rw e (
        deliver-InOrder msg queue (steps ops (record mb { outbound = queue })) (
          steps-fifo ops (record mb { outbound = queue }) c
            (shorter (subst (λ l. length l ≤ buffer_size) e h))))
  ]

  consumes-empties :
      (n : ℕ) (mb : MessageBus H)
      → mb.closed ≡ false
      → length mb.outbound ≤ n
      → (steps (consumes n) mb).bus.outbound ≡ []
  unfolding steps consumes subscribe_outbound receive
  consumes-empties zero mb c h = elim (List-cases mb.outbound) [
    | inl e ↦ e
    | inr ((msg, queue), e) ↦ absurd (nothing_left (subst (λ l. length l ≤ 0) e h))
  ]
  consumes-empties (suc n) mb c h = elim (List-cases mb.outbound) [
    | inl e ↦
        rw (c, e)
          (consumes-empties n (record mb { outbound = []; closed = false }) refl (omega arith))
    | inr ((msg, queue), e) ↦ rw e (
        consumes-empties n (record mb { outbound = queue }) c
          (one_less (subst (λ l. length l ≤ suc n) e h)))
  ]

  appended-empties :
      (n : ℕ) (ops : List Op) (mb : MessageBus H)
      → buffer_size ≤ n
      → mb.closed ≡ false
      → length mb.outbound ≤ buffer_size
      → (steps (ops ++ consumes n) mb).bus.outbound ≡ []
  unfolding steps publish_outbound subscribe_outbound send receive
  appended-empties n [] mb b c h = consumes-empties n mb c (omega arith)
  appended-empties n (publish msg ∷ ops) mb b c h =
      elim (Bool-cases (ltb (length mb.outbound) buffer_size)) [
        | inl e ↦
            rw (c, e)
              (appended-empties n ops
                (record mb { outbound = mb.outbound ++ msg ∷ []; closed = false }) b refl
                (rw (length-append mb.outbound (msg ∷ []))
                  (omega (arith, has_room (length mb.outbound) e))))
        | inr e ↦ rw (c, e) (appended-empties n ops (record mb { closed = false }) b refl h)
      ]
  appended-empties n (consume ∷ ops) mb b c h = elim (List-cases mb.outbound) [
    | inl e ↦
        rw (c, e)
          (appended-empties n ops (record mb { outbound = []; closed = false }) b refl
            (omega arith))
    | inr ((msg, queue), e) ↦ rw e (
        appended-empties n ops (record mb { outbound = queue }) b c
          (shorter (subst (λ l. length l ≤ buffer_size) e h)))
  ]

  -- After any sequence of publications and receptions on an open bus, as many receptions as the buffer
  -- is long hand out every message that was accepted, each once and in order, and leave the queue empty.
  pub steps-all_received :
      (ops : List Op) (mb : MessageBus H)
      → mb.closed ≡ false
      → length mb.outbound ≤ buffer_size
      → let t = steps (ops ++ consumes buffer_size) mb in
        (t.received ≡ mb.outbound ++ t.accepted) × (t.bus.outbound ≡ [])
  steps-all_received ops mb c h =
      let t = steps (ops ++ consumes buffer_size) mb in
      let empty = appended-empties buffer_size ops mb (omega arith) c h in
      let fifo = (steps-fifo (ops ++ consumes buffer_size) mb c h).0 in
      (sym (append-nil t.received) ∙ ap (λ q. t.received ++ q) (sym empty) ∙ sym fifo, empty)

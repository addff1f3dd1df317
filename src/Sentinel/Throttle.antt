-- ===== src/Sentinel/Throttle.antt =====
-- How often pkg/sentinel/service.go sends the same alert.
use chango_assistant.Base.{
  All, Bool, Bool-cases, List, Option, Text, [], ap, arith, false, if_both, if◌then◌else◌, inl, inr,
  insert, keep, length, lookup, lookup-insert, lookup-insert_self, none, refl, some, subst, sym,
  text_eq, text_eq→eq, true, ℕ, ◌++◌, ◌+◌, ◌<◌, ◌∙◌, ◌∷◌, ◌≡◌, ◌≤◌,
}
use chango_assistant.Bus.Queue.{MessageBus, OutboundMessage, publish_outbound, send}
use chango_assistant.Healthcheck.Service.{is_internal_channel}
use chango_assistant.Sentinel.Service.{
  Service, alert_mark, alert_message, hour, parse_last_channel, publish_to, send_alert, throttled,
}
use chango_assistant.State.Manager.{get_last_channel}

-- The messages on the queue with the content of an alert.
abbrev pub count_sent : {H : Type 0} → Text → Option (MessageBus H) → ℕ
count_sent alert none = 0
count_sent alert (some mb) =
    length (keep (λ m. text_eq m.content (alert_mark ++ alert)) mb.outbound)

-- Alerts one after the other, each with its moment.
unfoldable pub alert_steps : {H : Type 0} → List (Text × ℕ) → Service H → Service H
unfolding send_alert
alert_steps [] s = s
alert_steps ((alert, now) ∷ steps) s = alert_steps steps (send_alert alert now s)

abbrev pub Within : ℕ → Text × ℕ → Type 0
Within start step = (start ≤ step.1) × (step.1 < start + hour)

length-keep-snoc :
    (p : OutboundMessage → Bool) (queue : List OutboundMessage) (m : OutboundMessage)
    → length (keep p (queue ++ m ∷ [])) ≡ length (keep p queue) + (if p m then 1 else 0)
length-keep-snoc p [] m = ground arith
length-keep-snoc p (x ∷ queue) m = ground (arith, length-keep-snoc p queue m)

-- What a send to the queue adds.
keep-send_lem :
    (p : OutboundMessage → Bool) (closed : Bool) (m : OutboundMessage)
    (queue : List OutboundMessage)
    → (length (keep p (send closed m queue).0) ≤ length (keep p queue) + (if p m then 1 else 0))
      × (length (keep p queue) ≤ length (keep p (send closed m queue).0))
unfolding send
keep-send_lem p closed m queue = ground (arith, length-keep-snoc p queue m)

-- Its upper bound.
keep-send-le :
    (p : OutboundMessage → Bool) (closed : Bool) (m : OutboundMessage)
    (queue : List OutboundMessage)
    → length (keep p (send closed m queue).0) ≤ 1 + length (keep p queue)
keep-send-le p closed m queue = ground (arith, keep-send_lem p closed m queue)

-- Another content adds nothing.
keep-send_other :
    (p : OutboundMessage → Bool) (closed : Bool) (m : OutboundMessage)
    (queue : List OutboundMessage)
    → p m ≡ false
    → length (keep p (send closed m queue).0) ≡ length (keep p queue)
keep-send_other p closed m queue e = ground (arith, keep-send_lem p closed m queue)

within_hour :
    (start last now : ℕ) → start ≤ last → now < start + hour → throttled now (some last) ≡ true
within_hour start last now g h = ground arith

module _ {H : Type 0} where
  publish_to-other :
      (alert x : Text) (target : Option (Text × Text)) (b : Option (MessageBus H))
      → text_eq x alert ≡ false
      → count_sent alert (publish_to x target b) ≡ count_sent alert b
  unfolding publish_to publish_outbound alert_message text_eq
  publish_to-other alert x target none e = refl
  publish_to-other alert x none (some mb) e = refl
  publish_to-other alert x (some (platform, user)) (some mb) e =
      if_both {A = Option (MessageBus H)} (λ b. count_sent alert b ≡ count_sent alert (some mb))
        (is_internal_channel platform) (some mb)
        (some (publish_outbound (alert_message platform user x) mb).0) refl
        (keep-send_other _ mb.closed (alert_message platform user x) mb.outbound e)

  publish_to-once :
      (alert x : Text) (target : Option (Text × Text)) (b : Option (MessageBus H))
      → count_sent alert (publish_to x target b) ≤ 1 + count_sent alert b
  unfolding publish_to publish_outbound
  publish_to-once alert x target none = omega arith
  publish_to-once alert x none (some mb) = omega arith
  publish_to-once alert x (some (platform, user)) (some mb) =
      if_both {A = Option (MessageBus H)} (λ b. count_sent alert b ≤ 1 + count_sent alert (some mb))
        (is_internal_channel platform) (some mb)
        (some (publish_outbound (alert_message platform user x) mb).0) (omega arith)
        (keep-send-le _ mb.closed (alert_message platform user x) mb.outbound)

  send_alert-throttled :
      (x : Text) (now : ℕ) (s : Service H)
      → throttled now (lookup x s.last_alert_time) ≡ true
      → send_alert x now s ≡ s
  unfolding send_alert
  send_alert-throttled x now s e = rw e refl

  -- Another alert changes neither the count of an alert nor its moment.
  send_alert-other :
      (alert x : Text) (now : ℕ) (s : Service H)
      → text_eq x alert ≡ false
      → (count_sent alert (send_alert x now s).bus ≡ count_sent alert s.bus)
        × (lookup alert (send_alert x now s).last_alert_time ≡ lookup alert s.last_alert_time)
  unfolding send_alert
  send_alert-other alert x now s e =
      let target = parse_last_channel (get_last_channel s.state) in
      if_both {A = Service H}
        (λ s'.
          (count_sent alert s'.bus ≡ count_sent alert s.bus)
          × (lookup alert s'.last_alert_time ≡ lookup alert s.last_alert_time))
        (throttled now (lookup x s.last_alert_time)) s
        (record s {
          last_alert_time = insert x now s.last_alert_time;
          bus = publish_to x target s.bus;
        })
        (refl, refl)
        (
          publish_to-other alert x target s.bus e,
          lookup-insert x alert now s.last_alert_time ∙ rw e refl,
        )

  -- An alert that is not held back leaves its moment.
  send_alert-marks :
      (alert : Text) (now : ℕ) (s : Service H)
      → throttled now (lookup alert s.last_alert_time) ≡ false
      → (count_sent alert (send_alert alert now s).bus ≤ 1 + count_sent alert s.bus)
        × (lookup alert (send_alert alert now s).last_alert_time ≡ some now)
  unfolding send_alert
  send_alert-marks alert now s e = rw e (
    publish_to-once alert alert (parse_last_channel (get_last_channel s.state)) s.bus,
    lookup-insert_self alert now s.last_alert_time,
  )

  -- An alert of the same hour is held back.
  alert_steps-throttled :
      (alert : Text) (start last : ℕ) (steps : List (Text × ℕ)) (s : Service H)
      → All (Within start) steps
      → lookup alert s.last_alert_time ≡ some last
      → start ≤ last
      → count_sent alert (alert_steps steps s).bus ≡ count_sent alert s.bus
  unfolding alert_steps
  alert_steps-throttled alert start last [] s h e g = refl
  alert_steps-throttled alert start last ((x, now) ∷ steps) s h e g =
      elim (Bool-cases (text_eq x alert)) [
        | inl z ↦
            subst (λ s'. count_sent alert (alert_steps steps s').bus ≡ count_sent alert s.bus)
              (sym (
                send_alert-throttled x now s (
                  ap (λ k. throttled now (lookup k s.last_alert_time)) (text_eq→eq x alert z)
                  ∙ (ap (throttled now) e ∙ within_hour start last now g h.0.1))))
              (alert_steps-throttled alert start last steps s h.1 e g)
        | inr z ↦
            let (same, moment) = send_alert-other alert x now s z in
            alert_steps-throttled alert start last steps (send_alert x now s) h.1 (moment ∙ e) g
            ∙ same
      ]

  -- The first alert of the hour that is not held back is the only one.
  sent_first :
      (alert : Text) (start now : ℕ) (steps : List (Text × ℕ)) (s : Service H)
      → (start ≤ now) × All (Within start) steps
      → throttled now (lookup alert s.last_alert_time) ≡ false
      → count_sent alert (alert_steps steps (send_alert alert now s)).bus
        ≤ 1 + count_sent alert s.bus
  sent_first alert start now steps s h free =
      let (once, moment) = send_alert-marks alert now s free in
      subst (λ n. n ≤ 1 + count_sent alert s.bus)
        (sym (alert_steps-throttled alert start now steps (send_alert alert now s) h.1 moment h.0))
        once

  -- Within an hour the queue gets at most one message with a given alert, whatever else is alerted.
  pub send_alert-once_per_hour :
      (alert : Text) (start : ℕ) (steps : List (Text × ℕ)) (s : Service H)
      → All (Within start) steps
      → count_sent alert (alert_steps steps s).bus ≤ 1 + count_sent alert s.bus
  unfolding alert_steps
  send_alert-once_per_hour alert start [] s h = omega arith
  send_alert-once_per_hour alert start ((x, now) ∷ steps) s h =
      elim (Bool-cases (text_eq x alert)) [
        | inl z ↦ elim (Bool-cases (throttled now (lookup x s.last_alert_time))) [
          | inl held ↦
              subst (λ s'. count_sent alert (alert_steps steps s').bus ≤ 1 + count_sent alert s.bus)
                (sym (send_alert-throttled x now s held))
                (send_alert-once_per_hour alert start steps s h.1)
          | inr free ↦
              subst
                (λ k.
                  count_sent alert (alert_steps steps (send_alert k now s)).bus
                  ≤ 1 + count_sent alert s.bus)
                (sym (text_eq→eq x alert z))
                (sent_first alert start now steps s (h.0.0, h.1)
                  (ap (λ k. throttled now (lookup k s.last_alert_time)) (sym (text_eq→eq x alert z))
                    ∙ free))
        ]
        | inr z ↦
            subst (λ n. count_sent alert (alert_steps steps (send_alert x now s)).bus ≤ 1 + n)
              (send_alert-other alert x now s z).0
              (send_alert-once_per_hour alert start steps (send_alert x now s) h.1)
      ]

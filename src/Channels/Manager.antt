-- ===== src/Channels/Manager.antt =====
-- pkg/channels/manager.go: the table of channels and the dispatcher of the outbound messages. A channel
-- acts on a world; `send` gives the text of its error, or `none`.
use chango_assistant.Base.{
  Bool, List, Option, Text, [], any, codes, contains, delete, if◌then◌else◌, insert, keys, lookup,
  map, none, some, suc, true, zero, ℕ, ◌++◌, ◌||◌, ◌∷◌,
}
use chango_assistant.Bus.Queue.{MessageBus, OutboundMessage, subscribe_outbound}
use chango_assistant.Healthcheck.Service.{is_internal_channel}

pub record Channel (W : Type 0) : Type 0 where
  pub is_running : W → Bool
  pub send : OutboundMessage → W → Option Text × W

abbrev pub Channels : Type 0 → Type 0
Channels W = List (Text × Channel W)

module _ {W : Type 0} where
  -- `RegisterChannel`.
  unfoldable pub register_channel : Text → Channel W → Channels W → Channels W
  unfolding insert
  register_channel name ch m = insert name ch m

  -- `UnregisterChannel`.
  unfoldable pub unregister_channel : Text → Channels W → Channels W
  unfolding delete
  unregister_channel name m = delete name m

  -- `GetChannel`.
  unfoldable pub get_channel : Text → Channels W → Option (Channel W)
  get_channel name m = lookup name m

  -- `GetStatus`: the channels, all enabled, and whether each runs.
  unfoldable pub get_status : Channels W → W → List (Text × Bool)
  get_status m w = map (λ p. (p.0, p.1.is_running w)) m

  -- `GetEnabledChannels`.
  unfoldable pub get_enabled_channels : Channels W → List Text
  get_enabled_channels m = keys m

  -- `SendToChannel`.
  unfoldable pub send_to_channel : Text → Text → Text → Channels W → W → Option Text × W
  send_to_channel name chat_id content m w = elim (lookup name m) [
    | none ↦ (some (codes "channel " ++ (name ++ codes " not found")), w)
    | some ch ↦
        ch.send (record { channel = name; chat_id = chat_id; content = content; media = [] }) w
  ]

abbrev permanent_patterns : List Text
permanent_patterns =
    codes "chat not found"
    ∷ codes "bot was blocked"
    ∷ codes "user is deactivated"
    ∷ codes "invalid chat ID"
    ∷ codes "not enough rights"
    ∷ codes "CHAT_WRITE_FORBIDDEN"
    ∷ codes "bot was kicked"
    ∷ []

-- `isPermanentSendError`.
unfoldable pub is_permanent_send_error : Text → Bool
unfolding contains
is_permanent_send_error e = any (contains e) permanent_patterns

-- `stopped` says whether the dispatcher's context is done, `pause` waits after an attempt, counted from
-- 0, or until the context is done.
module _ {W : Type 0} (stopped : W → Bool) (pause : ℕ → W → W) where
  -- Whether no attempt follows this outcome.
  abbrev pub is_final : Option Text × W → Bool
  is_final (none, w) = true
  is_final (some e, w) = is_permanent_send_error e || stopped w

  -- The attempts from number `attempt` on, with `left` more of them after it.
  unfoldable pub send_attempts : ℕ → ℕ → (W → Option Text × W) → W → Option Text × W
  send_attempts zero attempt send w = send w
  send_attempts (suc left) attempt send w =
      let (err, w') = send w in
      let rest = send_attempts left (suc attempt) send (pause attempt w') in
      if is_final (err, w') then (err, w') else rest

  -- The body of the loop of `dispatchOutbound`; the error is the one that is logged at the end.
  unfoldable pub dispatch : Channels W → OutboundMessage → W → Option Text × W
  unfolding send_attempts is_internal_channel
  dispatch m msg w =
      if is_internal_channel msg.channel then (none, w) else elim (lookup msg.channel m) [
        | none ↦ (none, w)
        | some ch ↦ send_attempts 2 0 (ch.send msg) w
      ]

  -- A number of rounds of `dispatchOutbound`, and what each leaves on the log.
  unfoldable pub dispatch_outbound :
      {H : Type 0} → ℕ → Channels W → MessageBus H → W → List Text × MessageBus H × W
  unfolding dispatch subscribe_outbound
  dispatch_outbound zero m mb w = ([], mb, w)
  dispatch_outbound (suc n) m mb w =
      let (msg, mb') = subscribe_outbound mb in
      elim msg [
        | none ↦ dispatch_outbound n m mb' w
        | some msg ↦
            let (err, w') = dispatch m msg w in
            let (errs, mb'', w'') = dispatch_outbound n m mb' w' in
            (elim err [ none ↦ errs | some e ↦ e ∷ errs ], mb'', w'')
      ]

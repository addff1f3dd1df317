-- ===== src/Channels/Retry.antt =====
-- The attempts to send a message in `dispatchOutbound` of pkg/channels/manager.go.
use chango_assistant.Base.{
  Bool, Bool-cases, Option, Text, ap, arith, false, if_false, if_true, inl, inr, lookup, none, refl,
  some, subst, suc, sym, true, zero, ℕ, ◌<◌, ◌||◌, ◌≡◌, ◌≤◌, ◌⊎◌,
}
use chango_assistant.Bus.Queue.{OutboundMessage}
use chango_assistant.Channels.Manager.{
  Channel, Channels, dispatch, is_final, is_permanent_send_error, send_attempts,
}
use chango_assistant.Healthcheck.Service.{is_internal_channel}

none_below : (j : ℕ) → j < 0 → ⊥
none_below j h = omega arith

or_true : (a b : Bool) → a || b ≡ true → (a ≡ true) ⊎ (b ≡ true)
or_true true b h = inl refl
or_true false b h = inr h

last_or_final : {A : Type 0} (left k : ℕ) → (k ≡ left) ⊎ A → (suc k ≡ suc left) ⊎ A
last_or_final left k (inl e) = inl (ap suc e)
last_or_final left k (inr a) = inr a

module _ {W : Type 0} (stopped : W → Bool) (pause : ℕ → W → W) where
  -- The world before attempt number `k`, if the ones before it failed, from attempt `start` on.
  abbrev pub world_at : ℕ → ℕ → (W → Option Text × W) → W → W
  world_at zero start send w = w
  world_at (suc k) start send w = world_at k (suc start) send (pause start (send w).1)

  -- The outcome of attempt number `k`.
  abbrev pub outcome_at : ℕ → ℕ → (W → Option Text × W) → W → Option Text × W
  outcome_at k start send w = send (world_at k start send w)

  -- An outcome after which nothing more is tried: the message is sent, or it failed with an error that
  -- another attempt would not mend, or it failed and the dispatcher is stopped.
  abbrev pub Ends : Option Text × W → Type 0
  Ends x =
      (x.0 ≡ none)
      ⊎ ((e : Text) × (x.0 ≡ some e) × ((is_permanent_send_error e ≡ true) ⊎ (stopped x.1 ≡ true)))

  -- An outcome after which another attempt follows: it failed with an error that may pass, and the
  -- dispatcher is not stopped.
  abbrev pub MayPass : Option Text × W → Type 0
  MayPass x =
      (e : Text) × (x.0 ≡ some e) × (is_permanent_send_error e ≡ false) × (stopped x.1 ≡ false)

  final-Ends : (x : Option Text × W) → is_final stopped pause x ≡ true → Ends x
  final-Ends (none, w) h = inl refl
  final-Ends (some e, w) h = inr (e, refl, or_true (is_permanent_send_error e) (stopped w) h)

  not_final-MayPass : (x : Option Text × W) → is_final stopped pause x ≡ false → MayPass x
  not_final-MayPass (none, w) h = absurd (cc)
  not_final-MayPass (some e, w) h = (e, refl, ground arith, ground arith)

  -- The first attempts up to number `k` fail with errors that may pass.
  abbrev pub NoneFinal : ℕ → ℕ → (W → Option Text × W) → W → Type 0
  NoneFinal k start send w = (j : ℕ) → j < k → MayPass (outcome_at j start send w)

  abbrev pub FirstFinal : ℕ → ℕ → (W → Option Text × W) → W → Option Text × W → Type 0
  FirstFinal left start send w result =
      (k : ℕ) × (k ≤ left)
      × (result ≡ outcome_at k start send w)
      × NoneFinal k start send w
      × ((k ≡ left) ⊎ Ends result)

  NoneFinal-suc :
      (k start : ℕ) (send : W → Option Text × W) (w : W)
      → MayPass (send w)
      → NoneFinal k (suc start) send (pause start (send w).1)
      → NoneFinal (suc k) start send w
  NoneFinal-suc k start send w e rest zero h = e
  NoneFinal-suc k start send w e rest (suc j) h = rest j (omega arith)

  send_attempts-FirstFinal :
      (left start : ℕ) (send : W → Option Text × W) (w : W)
      → FirstFinal left start send w (send_attempts stopped pause left start send w)
  unfolding send_attempts
  send_attempts-FirstFinal zero start send w =
      (0, omega arith, refl, (λ j h. absurd (none_below j h)), inl refl)
  send_attempts-FirstFinal (suc left) start send w =
      elim (Bool-cases (is_final stopped pause (send w))) [
        | inl e ↦
            subst (FirstFinal (suc left) start send w)
              (sym (
                if_true (is_final stopped pause (send w)) (send w)
                  (send_attempts stopped pause left (suc start) send (pause start (send w).1)) e))
              (0, omega arith, refl, (λ j h. absurd (none_below j h)), inr (final-Ends (send w) e))
        | inr e ↦
            let next = pause start (send w).1 in
            let (k, le, same, none_final, why) =
              send_attempts-FirstFinal left (suc start) send next in
            subst (FirstFinal (suc left) start send w)
              (sym (
                if_false (is_final stopped pause (send w)) (send w)
                  (send_attempts stopped pause left (suc start) send next) e))
              (
                suc k,
                omega arith,
                same,
                NoneFinal-suc k start send w (not_final-MayPass (send w) e) none_final,
                last_or_final left k why,
              )
      ]

  -- A message for a channel that exists and is not internal is sent at least once and at most three
  -- times. Each attempt but the last one fails with an error that is not permanent, in a dispatcher that
  -- is not stopped; the last one is the third, or succeeds, or fails for good, or fails in a stopped
  -- dispatcher; and its outcome is the one of the message.
  pub dispatch-FirstFinal :
      (m : Channels W) (ch : Channel W) (msg : OutboundMessage) (w : W)
      → is_internal_channel msg.channel ≡ false
      → lookup msg.channel m ≡ some ch
      → FirstFinal 2 0 (ch.send msg) w (dispatch stopped pause m msg w)
  unfolding dispatch
  dispatch-FirstFinal m ch msg w internal found =
      rw (internal, found) (send_attempts-FirstFinal 2 0 (ch.send msg) w)

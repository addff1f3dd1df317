-- ===== src/Tools/Wallet/Limits.antt =====
-- The limits of pkg/tools/wallet.go hold for payments that are made one after the other on one day.
use chango_assistant.Base.{
  All, Bool, List, Option, Text, [], ap, append-nil, append_assoc, arith, codes, false, if_both,
  if◌then◌else◌, inl, inr, none, option_split, refl, some, subst, switch_all, sym, text_eq, true,
  ◌++◌, ◌∙◌, ◌∷◌, ◌≡◌, ◌⊎◌,
}
use chango_assistant.Base.Int64.{add_int64, ltb_ℤ, pos, ℤ, ◌≤ℤ◌}
use chango_assistant.Providers.Types.{Fields}
use chango_assistant.Tools.Args.{text_arg}
use chango_assistant.Tools.Result.{ToolResult, error_result}
use chango_assistant.Tools.Wallet.Log.{
  Calendar, Period, SpendEntry, Wallet, counts, daily, holds, monthly, save_spend_log, sum_from,
  sum_spend,
}
use chango_assistant.Tools.Wallet.Payments.{
  Moment, after_payment, check_limits, decode_invoice_amount, execute, log_spend, make_calls, pay,
  pay_decoded, send_payment, wallet_actions,
}
use chango_assistant.Tools.Wallet.Requests.{Server}

-- The amounts of payments on top of a sum, as int64 adds them.
abbrev pub total : List SpendEntry → ℤ → ℤ
total [] z = z
total (e ∷ es) z = total es (add_int64 z e.amount)

module _ {W : Type 0} (s : Server W) where
  -- The wallet is as before, or it has one more entry, which the limits allow.
  abbrev pub Logs : Moment → Wallet → Wallet → Type 0
  Logs m w w' =
      (w'.daily_limit ≡ w.daily_limit)
      × ((w'.monthly_limit ≡ w.monthly_limit)
          × ((w'.entries ≡ w.entries)
              ⊎ ((e : SpendEntry) × ((w'.entries ≡ w.entries ++ e ∷ [])
                    × ((e.timestamp ≡ m.stamp) × (check_limits s m e.amount w ≡ none))))))

  Logs-refl : (m : Moment) (w : Wallet) → Logs m w w
  Logs-refl m w = (refl, (refl, inl refl))

  log_spend-Logs :
      (m : Moment) (amount : ℤ) (hash : Text) (w w' : Wallet)
      → w' ≡ w
      → check_limits s m amount w ≡ none
      → Logs m w (log_spend m amount hash w')
  unfolding log_spend save_spend_log
  log_spend-Logs m amount hash w w' same ok =
      let e : SpendEntry = record {
        amount = amount;
        memo = codes "outgoing payment";
        timestamp = m.stamp;
        payment_hash = hash;
      } in
      subst (λ k. Logs m w (log_spend m amount hash k)) (sym same)
        (if_both (Logs m w) m.saved
          (record w { entries = w.entries ++ e ∷ []; file = holds (w.entries ++ e ∷ []) })
          (record w { entries = w.entries ++ e ∷ [] }) (refl, (refl, inr (e, (refl, (refl, ok)))))
          (refl, (refl, inr (e, (refl, (refl, ok))))))

  module _ (m : Moment) (alone : (w : Wallet) → m.meanwhile w ≡ w) where
    after_payment-Logs :
        (amount : ℤ) (w : Wallet) (x : (Text ⊎ Fields) × W)
        → check_limits s m amount w ≡ none
        → Logs m w (after_payment s m amount w x).1.0
    unfolding after_payment
    after_payment-Logs amount w (inl e, world) ok = subst (Logs m w) (sym (alone w)) (Logs-refl m w)
    after_payment-Logs amount w (inr fs, world) ok =
        log_spend-Logs m amount (text_arg (codes "payment_hash") fs) w (m.meanwhile w) (alone w) ok

    abbrev CallLogs : Wallet → ToolResult × (Wallet × W) → Type 0
    CallLogs w x = Logs m w x.1.0

    pay_decoded-Logs :
        (bolt11 : Text) (w : Wallet) (x : (Text ⊎ ℤ) × W) → CallLogs w (pay_decoded s m bolt11 w x)
    unfolding pay_decoded pay
    pay_decoded-Logs bolt11 w (inl e, world) = Logs-refl m w
    pay_decoded-Logs bolt11 w (inr amount, world) =
        option_split (CallLogs w) (check_limits s m amount w) _ _
          (λ ok. after_payment-Logs amount w _ ok) (λ e refused. Logs-refl m w)

    send_payment-Logs :
        (bolt11 : Text) (w : Wallet) (world : W) → CallLogs w (send_payment s m bolt11 w world)
    unfolding send_payment
    send_payment-Logs bolt11 w world =
        if_both (CallLogs w) (text_eq bolt11 []) _ _ (Logs-refl m w) (
          if_both (CallLogs w) (text_eq w.admin_key []) _ _ (Logs-refl m w)
            (pay_decoded-Logs bolt11 w (decode_invoice_amount s bolt11 w world)))

    execute-Logs : (args : Fields) (w : Wallet) (world : W) → CallLogs w (execute s m args w world)
    unfolding execute wallet_actions
    execute-Logs args w world =
        let same : Logs m w w = Logs-refl m w in
        switch_all (CallLogs w) (text_arg (codes "action") args) (wallet_actions s m args w world)
          (
            error_result (codes "unknown wallet action: " ++ text_arg (codes "action") args),
            (w, world),
          )
          (
            same,
            (
              send_payment-Logs (text_arg (codes "bolt11") args) w world,
              (same, (same, (same, tt))),
            ),
          )
          same

  module _ (c : Calendar) where
    -- A call on the day `c`, whose timestamp is read back as that day, with no other call in between.
    abbrev pub OnDay : Moment × Fields → Type 0
    OnDay x =
        (x.0.day_now ≡ c)
        × ((x.0.month_now ≡ c)
            × ((s.parse_time x.0.stamp ≡ some c) × ((w : Wallet) → x.0.meanwhile w ≡ w)))

    abbrev pub spent : Period → Wallet → ℤ
    spent period w = sum_spend s.parse_time period c w.entries

    -- What counts for the day and for the month is within the limits.
    abbrev pub IsWithin : Wallet → Type 0
    IsWithin w = (spent daily w ≤ℤ w.daily_limit) × (spent monthly w ≤ℤ w.monthly_limit)

    -- The entries that are new, all of which count.
    abbrev pub Counted : Wallet → Wallet → Type 0
    Counted w w' =
        (new : List SpendEntry) × ((w'.entries ≡ w.entries ++ new)
          × ((spent daily w' ≡ total new (spent daily w))
              × (spent monthly w' ≡ total new (spent monthly w))))

    sum_from-append :
        (period : Period) (es : List SpendEntry) (e : SpendEntry) (z : ℤ)
        → counts period c (s.parse_time e.timestamp) ≡ true
        → sum_from s.parse_time period c (es ++ e ∷ []) z
          ≡ add_int64 (sum_from s.parse_time period c es z) e.amount
    unfolding sum_from
    sum_from-append period [] e z h = rw h refl
    sum_from-append period (d ∷ ds) e z h = sum_from-append period ds e _ h

    today : (period : Period) (o : Option Calendar) → o ≡ some c → counts period c o ≡ true
    today daily o h = rw h (ground arith)
    today monthly o h = rw h (ground arith)

    both_hold :
        (a b : Bool) (x y : Text)
        → (if a then some x else if b then some y else none) ≡ none
        → (a ≡ false) × (b ≡ false)
    both_hold true b x y h = absurd (cc)
    both_hold false true x y h = absurd (cc)
    both_hold false false x y h = (refl, refl)

    checked :
        (m : Moment) (amount : ℤ) (w : Wallet)
        → m.day_now ≡ c
        → m.month_now ≡ c
        → check_limits s m amount w ≡ none
        → (add_int64 (spent daily w) amount ≤ℤ w.daily_limit)
          × (add_int64 (spent monthly w) amount ≤ℤ w.monthly_limit)
    unfolding check_limits
    checked m amount w d n h =
        let (a, b) =
          both_hold
            (ltb_ℤ w.daily_limit
              (add_int64 (sum_spend s.parse_time daily m.day_now w.entries) amount))
            (ltb_ℤ w.monthly_limit
              (add_int64 (sum_spend s.parse_time monthly m.month_now w.entries) amount))
            _ _ h in
        (
          not_above w.daily_limit (add_int64 (spent daily w) amount) (
              subst
                (λ k.
                  ltb_ℤ w.daily_limit (add_int64 (sum_spend s.parse_time daily k w.entries) amount)
                  ≡ false)
                d a),
          not_above w.monthly_limit (add_int64 (spent monthly w) amount) (
              subst
                (λ k.
                  ltb_ℤ w.monthly_limit
                    (add_int64 (sum_spend s.parse_time monthly k w.entries) amount)
                  ≡ false)
                n b),
        )
      where
        not_above : (limit z : ℤ) → ltb_ℤ limit z ≡ false → z ≤ℤ limit
        not_above limit z e = ground arith

    -- One call.
    logged-Counted :
        (m : Moment) (w w' : Wallet)
        → m.day_now ≡ c
        → m.month_now ≡ c
        → s.parse_time m.stamp ≡ some c
        → Logs m w w'
        → IsWithin w
        → IsWithin w' × Counted w w'
    unfolding sum_spend
    logged-Counted m w w' d n stamped (dl, (ml, inl same)) within =
        let sums : (period : Period) → spent period w' ≡ spent period w =
          λ period. ap (λ es. sum_spend s.parse_time period c es) same in
        (
          (
            subst (λ k. k ≤ℤ w'.daily_limit) (sym (sums daily))
                (subst (λ k. spent daily w ≤ℤ k) (sym dl) within.0),
            subst (λ k. k ≤ℤ w'.monthly_limit) (sym (sums monthly))
                (subst (λ k. spent monthly w ≤ℤ k) (sym ml) within.1),
          ),
          ([], (same ∙ sym (append-nil w.entries), (sums daily, sums monthly))),
        )
    logged-Counted m w w' d n stamped (dl, (ml, inr (e, (more, (at, ok))))) within =
        let dated : s.parse_time e.timestamp ≡ some c = ap s.parse_time at ∙ stamped in
        let sums : (period : Period) → spent period w' ≡ add_int64 (spent period w) e.amount =
          λ period.
            ap (λ es. sum_spend s.parse_time period c es) more
            ∙ sum_from-append period w.entries e (pos 0)
                (today period (s.parse_time e.timestamp) dated) in
        let (day, month) = checked m e.amount w d n ok in
        (
          (
            subst (λ k. k ≤ℤ w'.daily_limit) (sym (sums daily))
                (subst (λ k. add_int64 (spent daily w) e.amount ≤ℤ k) (sym dl) day),
            subst (λ k. k ≤ℤ w'.monthly_limit) (sym (sums monthly))
                (subst (λ k. add_int64 (spent monthly w) e.amount ≤ℤ k) (sym ml) month),
          ),
          (e ∷ [], (more, (sums daily, sums monthly))),
        )

    total-append : (xs ys : List SpendEntry) (z : ℤ) → total (xs ++ ys) z ≡ total ys (total xs z)
    total-append [] ys z = refl
    total-append (x ∷ xs) ys z = total-append xs ys (add_int64 z x.amount)

    Counted-trans : (u v w : Wallet) → Counted u v → Counted v w → Counted u w
    Counted-trans u v w (xs, (e, (d, n))) (ys, (f, (d', n'))) = (
      xs ++ ys,
      (
        f ∙ ap (λ es. es ++ ys) e ∙ append_assoc u.entries xs ys,
        (
          d' ∙ ap (total ys) d ∙ sym (total-append xs ys (spent daily u)),
          n' ∙ ap (total ys) n ∙ sym (total-append xs ys (spent monthly u)),
        ),
      ),
    )

    -- For calls of the wallet made one after the other, with any actions and arguments and whatever the
    -- server answers and the system writes, on one day on which the timestamps of the entries are read
    -- back as that day: if what counted for the day and for the month was within the limits before, it
    -- is within them afterwards, the log has grown by entries at its end, and each of these counts.
    pub make_calls-IsWithin :
        (cs : List (Moment × Fields)) (w : Wallet) (world : W)
        → All OnDay cs
        → IsWithin w
        → IsWithin (make_calls s cs w world).0 × Counted w (make_calls s cs w world).0
    unfolding make_calls
    make_calls-IsWithin [] w world on within =
        (within, ([], (sym (append-nil w.entries), (refl, refl))))
    make_calls-IsWithin ((m, args) ∷ cs) w world ((d, (n, (stamped, alone))), on) within =
        let w1 : Wallet = (execute s m args w world).1.0 in
        let world1 : W = (execute s m args w world).1.1 in
        let (within1, counted1) =
          logged-Counted m w w1 d n stamped (execute-Logs m alone args w world) within in
        let (within2, counted2) = make_calls-IsWithin cs w1 world1 on within1 in
        (within2, Counted-trans w w1 (make_calls s cs w1 world1).0 counted1 counted2)

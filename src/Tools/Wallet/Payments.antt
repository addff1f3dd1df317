-- ===== src/Tools/Wallet/Payments.antt =====
-- The payments of pkg/tools/wallet.go with their limits, and `Execute`.
use chango_assistant.Base.{
  Bool, List, Option, Text, [], codes, if◌then◌else◌, inl, inr, none, some, switch, text_eq, ◌++◌,
  ◌∷◌, ◌⊎◌,
}
use chango_assistant.Base.Int64.{add_int64, ltb_ℤ, pos, ℤ}
use chango_assistant.Providers.Types.{Fields}
use chango_assistant.Tools.Args.{find_arg, text_arg}
use chango_assistant.Tools.Result.{ToolResult, error_result, silent_result}
use chango_assistant.Tools.Wallet.Log.{
  Calendar, Wallet, daily, decimal_int, monthly, negated, save_spend_log, sum_spend, thousandth,
}
use chango_assistant.Tools.Wallet.Requests.{
  Server, create_invoice, decode_complaints, get_balance, get_history, int_field, is_ok,
  is_ok_or_created, number_of, payment_complaints, request,
}

-- What one payment meets: the clock when the day's and the month's payments are summed, the timestamp
-- of its entry, whether the log can be written, and what other calls do to the wallet between the check
-- of the limits and the entry.
pub record Moment : Type 0 where
  pub day_now : Calendar
  pub month_now : Calendar
  pub stamp : Text
  pub saved : Bool
  pub meanwhile : Wallet → Wallet

-- The entry of a payment and the write of the log.
unfoldable pub log_spend : Moment → ℤ → Text → Wallet → Wallet
unfolding save_spend_log
log_spend m amount hash w = save_spend_log m.saved (record w {
  entries =
      w.entries
      ++ record {
        amount = amount;
        memo = codes "outgoing payment";
        timestamp = m.stamp;
        payment_hash = hash;
      }
        ∷ [];
})

module _ {W : Type 0} (s : Server W) where
  -- The amount in the answer to `decodeInvoiceAmount`.
  unfoldable pub amount_in : Fields → Text ⊎ ℤ
  unfolding thousandth
  amount_in fs = elim (number_of (find_arg (codes "amount_msat") fs)) [
    | some msats ↦ inr (thousandth (s.to_int64 msats))
    | none ↦ elim (number_of (find_arg (codes "amount") fs)) [
      | some sats ↦ inr (s.to_int64 sats)
      | none ↦ inl (codes "could not determine invoice amount from decode response")
    ]
  ]

  abbrev pub amount_of : Text ⊎ Fields → Text ⊎ ℤ
  amount_of (inl e) = inl e
  amount_of (inr fs) = amount_in fs

  -- `decodeInvoiceAmount`.
  unfoldable pub decode_invoice_amount : Text → Wallet → W → (Text ⊎ ℤ) × W
  unfolding request amount_in
  decode_invoice_amount bolt11 w world =
      let (o, world') =
        request s decode_complaints is_ok s.parse_object 10000
          (record {
            method = codes "POST";
            url = w.lnbits_url ++ codes "/api/v1/payments/decode";
            api_key = w.invoice_key;
            payload = codes "{\"data\": " ++ s.quote bolt11 ++ codes "}";
          })
          world in
      (amount_of o, world')

  abbrev pub exceeded : Text → ℤ → ℤ → ℤ → Text
  exceeded period spent amount limit =
      period
      ++ codes " limit exceeded: spent "
      ++ decimal_int spent
      ++ codes " + "
      ++ decimal_int amount
      ++ codes " = "
      ++ decimal_int (add_int64 spent amount)
      ++ codes " sats (limit: "
      ++ decimal_int limit
      ++ codes " sats)"

  -- The check of the limits: the error, if there is one.
  unfoldable pub check_limits : Moment → ℤ → Wallet → Option Text
  unfolding sum_spend add_int64 decimal_int
  check_limits m amount w =
      let day = sum_spend s.parse_time daily m.day_now w.entries in
      let month = sum_spend s.parse_time monthly m.month_now w.entries in
      if ltb_ℤ w.daily_limit (add_int64 day amount)
      then some (exceeded (codes "daily") day amount w.daily_limit)
      else if ltb_ℤ w.monthly_limit (add_int64 month amount)
      then some (exceeded (codes "monthly") month amount w.monthly_limit)
      else none

  -- The answer to a payment.
  unfoldable pub after_payment :
      Moment → ℤ → Wallet → (Text ⊎ Fields) × W → ToolResult × (Wallet × W)
  unfolding log_spend decimal_int text_arg silent_result error_result
  after_payment m amount w (inl e, world) = (error_result e, (m.meanwhile w, world))
  after_payment m amount w (inr fs, world) =
      let hash = text_arg (codes "payment_hash") fs in
      (
        silent_result (
            codes "Payment sent: "
            ++ decimal_int amount
            ++ codes " sats"
            ++ 10 ∷ codes "Payment hash: "
            ++ hash),
        (log_spend m amount hash (m.meanwhile w), world),
      )

  -- The payment of a decoded invoice.
  unfoldable pub pay : Moment → Text → ℤ → Wallet → W → ToolResult × (Wallet × W)
  unfolding check_limits request after_payment error_result
  pay m bolt11 amount w world = elim (check_limits m amount w) [
    | some e ↦ (error_result e, (w, world))
    | none ↦ after_payment m amount w (
        request s payment_complaints is_ok_or_created s.parse_object 10000
          (record {
            method = codes "POST";
            url = w.lnbits_url ++ codes "/api/v1/payments";
            api_key = w.admin_key;
            payload = codes "{\"out\": true, \"bolt11\": " ++ s.quote bolt11 ++ codes "}";
          })
          world)
  ]

  unfoldable pub pay_decoded : Moment → Text → Wallet → (Text ⊎ ℤ) × W → ToolResult × (Wallet × W)
  unfolding pay error_result
  pay_decoded m bolt11 w (inl e, world) =
      (error_result (codes "failed to decode invoice: " ++ e), (w, world))
  pay_decoded m bolt11 w (inr amount, world) = pay m bolt11 amount w world

  -- `sendPayment`.
  unfoldable pub send_payment : Moment → Text → Wallet → W → ToolResult × (Wallet × W)
  unfolding pay_decoded decode_invoice_amount error_result text_eq
  send_payment m bolt11 w world =
      if text_eq bolt11 []
      then (error_result (codes "bolt11 invoice is required for send action"), (w, world))
      else if text_eq w.admin_key []
      then (error_result (codes "admin_key is required for sending payments"), (w, world))
      else pay_decoded m bolt11 w (decode_invoice_amount bolt11 w world)

  unfoldable pub limit_line : Text → ℤ → ℤ → Text
  unfolding decimal_int add_int64 negated
  limit_line label spent limit =
      label
      ++ decimal_int spent
      ++ codes " / "
      ++ decimal_int limit
      ++ codes " sats (remaining: "
      ++ decimal_int (add_int64 limit (negated spent))
      ++ codes ")"

  -- `getLimits`.
  unfoldable pub get_limits : Moment → Wallet → ToolResult
  unfolding sum_spend limit_line silent_result
  get_limits m w = silent_result (
      codes "Spend limits:"
      ++ 10
        ∷ limit_line (codes "  Daily:   ") (sum_spend s.parse_time daily m.day_now w.entries)
            w.daily_limit
      ++ 10
        ∷ limit_line (codes "  Monthly: ") (sum_spend s.parse_time monthly m.day_now w.entries)
            w.monthly_limit)

  abbrev pub history_limit : Option Text → ℤ
  history_limit none = pos 10
  history_limit (some n) = if s.is_positive n then s.to_int64 n else pos 10

  abbrev pub same_wallet : Wallet → ToolResult × W → ToolResult × (Wallet × W)
  same_wallet w (r, world) = (r, (w, world))

  -- The cases of the switch in `Execute`.
  unfoldable pub wallet_actions :
      Moment → Fields → Wallet → W → List (Text × (ToolResult × (Wallet × W)))
  unfolding get_balance send_payment create_invoice get_history get_limits text_arg
  wallet_actions m args w world =
      (codes "balance", same_wallet w (get_balance s w world))
      ∷ (codes "send", send_payment m (text_arg (codes "bolt11") args) w world)
      ∷ (
        codes "receive",
        same_wallet w (
            create_invoice s (int_field s (codes "amount") args) (text_arg (codes "memo") args) w
              world),
      )
      ∷ (
        codes "history",
        same_wallet w
            (get_history s (history_limit (number_of (find_arg (codes "limit") args))) w world),
      )
      ∷ (codes "limits", (get_limits m w, (w, world)))
      ∷ []

  -- `Execute`.
  unfoldable pub execute : Moment → Fields → Wallet → W → ToolResult × (Wallet × W)
  unfolding wallet_actions text_arg text_eq error_result
  execute m args w world =
      switch (text_arg (codes "action") args) (wallet_actions m args w world) (
        error_result (codes "unknown wallet action: " ++ text_arg (codes "action") args),
        (w, world),
      )

-- Calls one after the other, each with its moment and its arguments.
unfoldable pub make_calls :
    {W : Type 0} → Server W → List (Moment × Fields) → Wallet → W → Wallet × W
unfolding execute
make_calls s [] w world = (w, world)
make_calls s ((m, args) ∷ cs) w world =
    let (r, (w', world')) = execute s m args w world in make_calls s cs w' world'

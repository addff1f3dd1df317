-- ===== src/Tests/WalletCases.antt =====
-- The wallet with a server that asks 5 sats for every invoice and accepts every payment.
use chango_assistant.Base.{
  All, List, Text, [], arith, codes, inr, refl, some, suc, text_eq, true, ℕ, ◌∷◌, ◌≡◌,
}
use chango_assistant.Base.Int64.{add_int64, pos, wrap, ◌+ℤ◌}
use chango_assistant.Providers.Types.{Fields, end_fields, field, number, text}
use chango_assistant.Tools.Args.{text_arg, text_arg?}
use chango_assistant.Tools.Wallet.Limits.{Counted, IsWithin, OnDay, make_calls-IsWithin}
use chango_assistant.Tools.Wallet.Log.{
  Calendar, Wallet, missing, save_spend_log, sum_from, sum_spend,
}
use chango_assistant.Tools.Wallet.Payments.{
  Moment, after_payment, amount_in, check_limits, decode_invoice_amount, execute, log_spend,
  make_calls, pay, pay_decoded, send_payment, wallet_actions,
}
use chango_assistant.Tools.Wallet.Requests.{Server, answered, received, request}

abbrev today : Calendar
today = record { year = 2026; year_day = 330; month = 11 }

abbrev tomorrow : Calendar
tomorrow = record { year = 2026; year_day = 331; month = 11 }

abbrev server : Server ℕ
server = record {
  ask = λ r asked. (answered 200 (codes "{}"), suc asked);
  parse_object = λ body. inr (field (codes "amount") (number (codes "5")) end_fields);
  parse_objects = λ body. inr [];
  to_int64 = λ n. pos 5;
  is_positive = λ n. true;
  quote = λ t. t;
  parse_time = λ t. elim t [ [] ↦ some today | _ ∷ _ ↦ some tomorrow ];
}

abbrev wallet : Wallet
wallet = record {
  lnbits_url = codes "http://pi";
  admin_key = codes "a";
  invoice_key = codes "i";
  daily_limit = pos 8;
  monthly_limit = pos 100;
  entries = [];
  file = missing;
}

abbrev at : Text → Moment
at stamp = record {
  day_now = today;
  month_now = today;
  stamp = stamp;
  saved = true;
  meanwhile = λ w. w;
}

abbrev send_args : Fields
send_args =
    field (codes "action") (text (codes "send"))
      (field (codes "bolt11") (text (codes "ln")) end_fields)

-- Of two payments of 5 sats the second goes over the limit of 8: the server is asked three times.
second_refused : (make_calls server ((at [], send_args) ∷ (at [], send_args) ∷ []) wallet 0).1 ≡ 3
unfolding make_calls execute wallet_actions send_payment pay_decoded pay check_limits sum_spend
    sum_from add_int64 ◌+ℤ◌ wrap decode_invoice_amount request received amount_in after_payment
    log_spend save_spend_log text_arg text_arg? text_eq
second_refused = refl

-- In the evening the timestamp, which is in UTC, is one of tomorrow: nothing counts, and both are paid.
evening_unlimited :
    (make_calls server ((at (codes "T"), send_args) ∷ (at (codes "T"), send_args) ∷ []) wallet 0).1
    ≡ 4
unfolding make_calls execute wallet_actions send_payment pay_decoded pay check_limits sum_spend
    sum_from add_int64 ◌+ℤ◌ wrap decode_invoice_amount request received amount_in after_payment
    log_spend save_spend_log text_arg text_arg? text_eq
evening_unlimited = refl

nothing_spent : IsWithin server today wallet
unfolding sum_spend sum_from
nothing_spent = (omega arith, omega arith)

abbrev two_sends : List (Moment × Fields)
two_sends = (at [], send_args) ∷ (at [], send_args) ∷ []

both_today : All (OnDay server today) two_sends
both_today = ((refl, (refl, (refl, λ w. refl))), ((refl, (refl, (refl, λ w. refl))), tt))

make_calls-IsWithin_example :
    IsWithin server today (make_calls server two_sends wallet 0).0
    × Counted server today wallet (make_calls server two_sends wallet 0).0
make_calls-IsWithin_example =
    make_calls-IsWithin server today two_sends wallet 0 both_today nothing_spent

-- ===== src/Tools/Wallet/Log.antt =====
-- The wallet of pkg/tools/wallet.go, its log of payments and the file of the log.
use chango_assistant.Base.{
  Bool, List, Option, Text, [], codes, decimal, false, if◌then◌else◌, none, reverse, some, suc,
  text_eq, ℕ, ◌&&◌, ◌++◌, ◌/◌, ◌==◌, ◌||◌, ◌∷◌,
}
use chango_assistant.Base.Int64.{add_int64, leb_ℤ, negsuc, pos, sub_ℕ, ℤ}

-- What the sums read of a moment: its year, day of the year and month, in its own time zone.
pub record Calendar : Type 0 where
  pub year : ℕ
  pub year_day : ℕ
  pub month : ℕ

-- `SpendEntry`.
pub record SpendEntry : Type 0 where
  pub amount : ℤ
  pub memo : Text
  pub timestamp : Text
  pub payment_hash : Text

-- The file of the log as the next read finds it.
pub data SpendFile : Type 0 where
  missing unreadable malformed : SpendFile
  holds : List SpendEntry → SpendFile

-- `WalletConfig`.
pub record WalletConfig : Type 0 where
  pub lnbits_url : Text
  pub admin_key : Text
  pub invoice_key : Text
  pub daily_limit : ℤ
  pub monthly_limit : ℤ

-- `WalletTool`, with the file of its log.
pub record Wallet : Type 0 where
  pub lnbits_url : Text
  pub admin_key : Text
  pub invoice_key : Text
  pub daily_limit : ℤ
  pub monthly_limit : ℤ
  pub entries : List SpendEntry
  pub file : SpendFile

-- `loadSpendLog`.
unfoldable pub load_spend_log : SpendFile → List SpendEntry
load_spend_log missing = []
load_spend_log unreadable = []
load_spend_log malformed = []
load_spend_log (holds entries) = entries

-- `saveSpendLog`; where a step fails, the file stays and nobody is told.
unfoldable pub save_spend_log : Bool → Wallet → Wallet
save_spend_log ok w = if ok then record w { file = holds w.entries } else w

-- `strings.TrimRight(url, "/")`, on the bytes in reverse.
abbrev drop_slashes : Text → Text
drop_slashes [] = []
drop_slashes (c ∷ s) = if c == 47 then drop_slashes s else c ∷ s

-- `if limit <= 0`.
abbrev pub limit_or : ℤ → ℤ → ℤ
limit_or limit fallback = if leb_ℤ limit (pos 0) then fallback else limit

-- `NewWalletTool`.
unfoldable pub new_wallet_tool : WalletConfig → SpendFile → Option Wallet
unfolding load_spend_log text_eq
new_wallet_tool cfg file =
    if text_eq cfg.lnbits_url [] || text_eq cfg.invoice_key []
    then none
    else some (record {
      lnbits_url = reverse (drop_slashes (reverse cfg.lnbits_url));
      admin_key = cfg.admin_key;
      invoice_key = cfg.invoice_key;
      daily_limit = limit_or cfg.daily_limit (pos 10000);
      monthly_limit = limit_or cfg.monthly_limit (pos 100000);
      entries = load_spend_log file;
      file = file;
    })

-- The periods of `sumSpend`.
pub data Period : Type 0 where
  daily monthly : Period

abbrev pub in_period : Period → Calendar → Calendar → Bool
in_period daily ts now = (ts.year == now.year) && (ts.year_day == now.year_day)
in_period monthly ts now = (ts.year == now.year) && (ts.month == now.month)

-- Whether the loop of `sumSpend` counts a timestamp, as `time.Parse` reads it.
abbrev pub counts : Period → Calendar → Option Calendar → Bool
counts period now none = false
counts period now (some ts) = in_period period ts now

-- The loop of `sumSpend` with the total so far.
unfoldable pub sum_from : (Text → Option Calendar) → Period → Calendar → List SpendEntry → ℤ → ℤ
unfolding add_int64
sum_from parse period now [] total = total
sum_from parse period now (e ∷ es) total =
    sum_from parse period now es
      (if counts period now (parse e.timestamp) then add_int64 total e.amount else total)

-- `sumSpend`.
unfoldable pub sum_spend : (Text → Option Calendar) → Period → Calendar → List SpendEntry → ℤ
unfolding sum_from
sum_spend parse period now entries = sum_from parse period now entries (pos 0)

-- `%d` on an int64.
unfoldable pub decimal_int : ℤ → Text
unfolding decimal
decimal_int (pos n) = decimal n
decimal_int (negsuc n) = codes "-" ++ decimal (suc n)

-- Go's division of an int64 by 1000, which rounds toward zero.
unfoldable pub thousandth : ℤ → ℤ
thousandth (pos n) = pos (n / 1000)
thousandth (negsuc n) = sub_ℕ 0 (suc n / 1000)

unfoldable pub negated : ℤ → ℤ
negated (pos n) = sub_ℕ 0 n
negated (negsuc n) = pos (suc n)

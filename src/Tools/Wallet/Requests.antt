-- ===== src/Tools/Wallet/Requests.antt =====
-- The requests of pkg/tools/wallet.go to the LNbits server, and the actions that only ask it.
use chango_assistant.Base.{
  Bool, List, Option, Text, [], codes, decimal, false, if◌then◌else◌, inl, inr, length, none, not,
  some, suc, take, utf8, ℕ, ◌++◌, ◌==◌, ◌||◌, ◌∷◌, ◌⊎◌,
}
use chango_assistant.Base.Int64.{leb_ℤ, ltb_ℤ, pos, ℤ}
use chango_assistant.Providers.Types.{Fields, Value, array, boolean, null, number, object, text}
use chango_assistant.Tools.Args.{find_arg, text_arg}
use chango_assistant.Tools.Result.{ToolResult, error_result, silent_result}
use chango_assistant.Tools.Wallet.Log.{Calendar, Wallet, decimal_int, negated, thousandth}

-- A request with its key.
pub record Request : Type 0 where
  pub method : Text
  pub url : Text
  pub api_key : Text
  pub payload : Text

-- What becomes of a request: it cannot be built, it gets no answer, the answer breaks off, or it comes
-- with a status and a body.
pub data Reply : Type 0 where
  not_built no_answer broken_off : Text → Reply
  answered : ℕ → Text → Reply

-- What the tool uses: the server, on a world of its own; encoding/json on an object and on a list of
-- objects, with the error on the left; the conversion of a number to int64 and its sign; `%q`; time.Parse.
pub record Server (W : Type 0) : Type 0 where
  pub ask : Request → W → Reply × W
  pub parse_object : Text → Text ⊎ Fields
  pub parse_objects : Text → Text ⊎ List Fields
  pub to_int64 : Text → ℤ
  pub is_positive : Text → Bool
  pub quote : Text → Text
  pub parse_time : Text → Option Calendar

-- `m[key].(float64)`.
abbrev pub number_of : Option Value → Option Text
number_of none = none
number_of (some (number n)) = some n
number_of (some null) = none
number_of (some (boolean b)) = none
number_of (some (text t)) = none
number_of (some (array vs)) = none
number_of (some (object fs)) = none

abbrev pub flag_of : Option Value → Bool
flag_of none = false
flag_of (some (boolean b)) = b
flag_of (some (number n)) = false
flag_of (some null) = false
flag_of (some (text t)) = false
flag_of (some (array vs)) = false
flag_of (some (object fs)) = false

-- The number of a field as an int64, and 0 without one.
abbrev pub int_field : {W : Type 0} → Server W → Text → Fields → ℤ
int_field s key fs = elim (number_of (find_arg key fs)) [ none ↦ pos 0 | some n ↦ s.to_int64 n ]

-- The texts of the errors of one request.
pub record Complaints : Type 0 where
  pub build : Text
  pub send : Text
  pub read : Text
  pub status : Text
  pub parse : Text

-- The checks between a request and the use of its answer, with at most `limit` bytes of the body.
unfoldable pub received :
    {B : Type 0} → Complaints → (ℕ → Bool) → (Text → Text ⊎ B) → ℕ → Reply → Text ⊎ B
unfolding decimal
received c accepts parse limit (not_built e) = inl (c.build ++ e)
received c accepts parse limit (no_answer e) = inl (c.send ++ e)
received c accepts parse limit (broken_off e) = inl (c.read ++ e)
received c accepts parse limit (answered status body) =
    let seen = take limit body in
    if not (accepts status)
    then inl (c.status ++ codes " (status " ++ decimal status ++ codes "): " ++ seen)
    else elim (parse seen) [ inl e ↦ inl (c.parse ++ e) | inr b ↦ inr b ]

abbrev pub is_ok : ℕ → Bool
is_ok status = status == 200

abbrev pub is_ok_or_created : ℕ → Bool
is_ok_or_created status = (status == 200) || (status == 201)

-- The complaints of `getBalance` and `getHistory`, those of `createInvoice`, of the payment and of the
-- decoding.
abbrev pub query_complaints : Complaints
query_complaints = record {
  build = codes "failed to create request: ";
  send = codes "request failed: ";
  read = codes "failed to read response: ";
  status = codes "LNbits API error";
  parse = codes "failed to parse response: ";
}

abbrev pub invoice_complaints : Complaints
invoice_complaints = record {
  build = codes "failed to create request: ";
  send = codes "request failed: ";
  read = codes "failed to read response: ";
  status = codes "invoice creation failed";
  parse = codes "failed to parse response: ";
}

abbrev pub payment_complaints : Complaints
payment_complaints = record {
  build = codes "failed to create request: ";
  send = codes "payment request failed: ";
  read = codes "failed to read response: ";
  status = codes "payment failed";
  parse = codes "failed to parse payment response: ";
}

abbrev pub decode_complaints : Complaints
decode_complaints = record {
  build = [];
  send = codes "decode request failed: ";
  read = codes "failed to read decode response: ";
  status = codes "decode failed";
  parse = codes "failed to parse decode response: ";
}

module _ {W : Type 0} (s : Server W) where
  -- A request and what is received.
  unfoldable pub request :
      {B : Type 0} → Complaints → (ℕ → Bool) → (Text → Text ⊎ B) → ℕ → Request → W → (Text ⊎ B) × W
  unfolding received
  request c accepts parse limit r world =
      let (reply, world') = s.ask r world in (received c accepts parse limit reply, world')

  -- The answer to what was received.
  abbrev pub answer_with : {B : Type 0} → (B → ToolResult) → (Text ⊎ B) × W → ToolResult × W
  answer_with f (inl e, world) = (error_result e, world)
  answer_with f (inr b, world) = (f b, world)

  -- `getBalance`.
  unfoldable pub get_balance : Wallet → W → ToolResult × W
  unfolding request thousandth decimal_int silent_result error_result text_arg
  get_balance w world =
      answer_with
        (λ fs. silent_result (
          codes "Wallet: "
          ++ text_arg (codes "name") fs
          ++ 10 ∷ codes "Balance: "
          ++ decimal_int (thousandth (int_field s (codes "balance") fs))
          ++ codes " sats"))
        (request query_complaints is_ok s.parse_object 10000
          (record {
            method = codes "GET";
            url = w.lnbits_url ++ codes "/api/v1/wallet";
            api_key = w.invoice_key;
            payload = [];
          })
          world)

  abbrev pub memo_or_default : Text → Text
  memo_or_default [] = codes "PicoClaw invoice"
  memo_or_default (c ∷ t) = c ∷ t

  -- `createInvoice`.
  unfoldable pub create_invoice : ℤ → Text → Wallet → W → ToolResult × W
  unfolding request decimal_int silent_result error_result text_arg
  create_invoice amount given w world =
      let memo = memo_or_default given in
      if leb_ℤ amount (pos 0)
      then (error_result (codes "amount must be greater than 0"), world)
      else answer_with
          (λ fs. silent_result (
            codes "Invoice created: "
            ++ decimal_int amount
            ++ codes " sats"
            ++ 10 ∷ codes "Memo: "
            ++ memo
            ++ 10 ∷ codes "Payment hash: "
            ++ text_arg (codes "payment_hash") fs
            ++ 10 ∷ codes "BOLT11: "
            ++ text_arg (codes "payment_request") fs))
          (request invoice_complaints is_ok_or_created s.parse_object 10000
            (record {
              method = codes "POST";
              url = w.lnbits_url ++ codes "/api/v1/payments";
              api_key = w.invoice_key;
              payload =
                  codes "{\"out\": false, \"amount\": "
                  ++ decimal_int amount
                  ++ codes ", \"memo\": "
                  ++ s.quote memo
                  ++ codes "}";
            })
            world)

  -- The lines of `getHistory`, the first with this number.
  unfoldable pub payment_lines : ℕ → List Fields → Text
  unfolding thousandth negated decimal_int decimal text_arg utf8
  payment_lines i [] = []
  payment_lines i (p ∷ ps) =
      let sats = thousandth (int_field s (codes "amount") p) in
      let out = ltb_ℤ sats (pos 0) in
      decimal i
      ++ codes ". ["
      ++ (if out then codes "OUT" else codes "IN")
      ++ codes "] "
      ++ decimal_int (if out then negated sats else sats)
      ++ utf8 " sats — "
      ++ text_arg (codes "memo") p
      ++ codes " ("
      ++ (if flag_of (find_arg (codes "pending") p) then codes "pending" else codes "completed")
      ++ codes ") "
      ++ text_arg (codes "created_at") p
      ++ 10 ∷ payment_lines (suc i) ps

  abbrev pub history_text : List Fields → Text
  history_text [] = codes "No transactions found."
  history_text (p ∷ ps) =
      codes "Last "
      ++ decimal (length (p ∷ ps))
      ++ codes " transactions:"
      ++ 10 ∷ 10 ∷ payment_lines 1 (p ∷ ps)

  -- `getHistory`.
  unfoldable pub get_history : ℤ → Wallet → W → ToolResult × W
  unfolding request decimal_int silent_result error_result payment_lines
  get_history limit w world =
      answer_with (λ ps. silent_result (history_text ps))
        (request query_complaints is_ok s.parse_objects 50000
          (record {
            method = codes "GET";
            url = w.lnbits_url ++ codes "/api/v1/payments?limit=" ++ decimal_int limit;
            api_key = w.invoice_key;
            payload = [];
          })
          world)

-- ===== src/Tests/Venue.antt =====
-- The adapter of the venue KIS, on a venue that answers every call of an order. The outside world is the
-- number of requests so far, which is also the clock.
use loss_function.Prelude.{
  ltb, if◌then◌else◌, Result, ok, ℕ, ◌+◌, ◌-◌, ◌≤◌, ◌≡◌, refl, true, Option, none, some, List, [],
}
use loss_function.Prelude.Int.{ℤ, pos}
use loss_function.Prelude.Text.{Text, bytes, text_beq, show_nat, show_int}
use loss_function.Prelude.Scan.{digits, digits_from, positive, parse_i64}
use loss_function.Types.{buy, market, parse, is_ascii_digit}
use loss_function.Domain.{partially_filled}
use loss_function.Broker.{OrderAck, ExecutionReport}
use loss_function.Execution.StateMachine as StateMachine
use loss_function.Execution.StateMachine.{StateMachine}
use loss_function.Execution.Gateway.{target_status, World}
use loss_function.Kis.{Json, Request, Wire, Times, DecimalText, answered}
use loss_function.Kis.Auth as Auth
use loss_function.Kis.Auth.{
  access_token, TokenResponse, CachedToken, issue, token_request, fresh_token, keep_token,
  judge_token, read_token, token_of, parse_kst_expiry, invalidate,
}
use loss_function.Kis.Rest.{ask, request, is_rejection, says, KisRestClient}
use loss_function.Kis.Rest.Retries.{logged, calls, request_calls}
use loss_function.Kis.Accounts.{quote_call, field, number_or_zero}
use loss_function.Kis.Reports.{execution_report_from_row, average_of, price_of}
use loss_function.Kis.Reports.Rows.{row_status}
use loss_function.Kis.Venue.{KisBroker}
use loss_function.Tests.Samples.{whole, samsung, id_a}

-- JSON of texts and objects
data Doc : Type 0 where
  absent : Doc
  leaf : Text → Doc
  node : Text → Doc → Doc → Doc

abbrev find : Text → Doc → Option Doc
find name absent = none
find name (leaf t) = none
find name (node key value rest) = if text_beq name key then some value else find name rest

abbrev text_of : Doc → Option Text
text_of (leaf t) = some t
text_of _ = none

instance abbrev docs : Json Doc
docs = record { null = absent; get = find; as_str = text_of; as_array = λ v. none; show = λ v. [] }

abbrev numbers : DecimalText ℤ
numbers = record {
  parse_decimal = λ t. elim (digits t) [ none ↦ none | some n ↦ some (pos n) ];
  show_decimal = show_int;
}

abbrev times : Times ℕ
times = record {
  back = λ t s. t - s;
  ahead = λ t s. t + s;
  before = ltb;
  parse_naive = λ t f. some 1_000_000;
  format = λ t f. show_nat t;
}

abbrev token_body : TokenResponse
token_body = record { access_token = some (bytes "abc"); access_token_token_expired = some [] }

abbrev ack_body : Doc
ack_body =
    node (bytes "output")
      (node (bytes "ODNO") (leaf (bytes "77"))
        (node (bytes "KRX_FWDG_ORD_ORGNO") (leaf (bytes "91252")) absent))
      absent

abbrev wire : Wire ℕ Doc
wire = record { send = λ h r. (answered 200 (bytes "200 OK") none (ok ack_body), h + 1) }

abbrev decode : Doc → Result Text TokenResponse
decode v = ok token_body

abbrev client : KisRestClient ℕ ℕ
client = record {
  auth = Auth.new (λ h. h) (bytes "u") (bytes "k") (bytes "s");
  environment = bytes "mock";
  base_url = bytes "u";
  cano = bytes "12345678";
  prdt = bytes "01";
  trading_mode = bytes "paper";
}

abbrev cached : CachedToken ℕ
cached = record { access_token = bytes "abc"; expires_at = 967_600 }

-- the client over the logged wire
abbrev client_logged : KisRestClient ℕ (ℕ × List Request)
client_logged = record {
  auth = Auth.new (λ (h : ℕ × List Request). h.0) (bytes "u") (bytes "k") (bytes "s");
  environment = bytes "mock";
  base_url = bytes "u";
  cano = bytes "12345678";
  prdt = bytes "01";
  trading_mode = bytes "paper";
}

request_calls_example :
    calls (request times decode (logged wire) client_logged (0, []) (quote_call samsung)).1.1.1 ≤ 1
unfolding ask access_token fresh_token Auth.new keep_token issue judge_token read_token token_of
    bytes parse_kst_expiry is_rejection
request_calls_example = request_calls times decode wire client_logged (0, []) (quote_call samsung)

abbrev venue : KisBroker ℕ ℕ
venue = record { rest = client; order_context = []; outside = 0 }

abbrev gateway : World ℕ (KisBroker ℕ ℕ)
gateway = record { broker_ids = []; machine = StateMachine.new; venue = venue }

abbrev acknowledged : OrderAck
acknowledged = record { client_order_id = id_a; broker_order_id = bytes "77" }

-- a row of an order of which four of ten are filled
abbrev row : Doc
row = node (bytes "pdno") (leaf (bytes "005930")) (
    node (bytes "ord_qty") (leaf (bytes "10")) (
      node (bytes "tot_ccld_qty") (leaf (bytes "4")) (
        node (bytes "tot_ccld_amt") (leaf (bytes "40"))
          (node (bytes "sll_buy_dvsn_cd") (leaf (bytes "02")) absent))))

abbrev report : ExecutionReport ℤ ℕ
report = record {
  broker_order_id = bytes "77";
  client_order_id = [];
  symbol = samsung;
  side = buy;
  order_type = market;
  order_quantity = pos 10;
  filled_quantity = pos 4;
  average_fill_price = some (pos 10);
  is_open = true;
  timestamp = 9;
}

row_status_example : target_status report ≡ partially_filled
unfolding execution_report_from_row field number_or_zero average_of price_of bytes parse parse_i64
    digits digits_from positive is_ascii_digit says
row_status_example = row_status numbers (bytes "77") [] row 9 report refl

-- ===== src/Kis/Rest.antt =====
-- rust/lossfunction/src/kis/rest.rs: the client and one request, with its single re-issue of the token.
pub mod Retries
use loss_function.Prelude.{
  ℕ, Bool, true, false, not, ◌||◌, ◌&&◌, Option, none, some, is_some, List, [], ◌∷◌, ◌++◌, Result,
  ok, err, map_err, ◌>>=◌, if◌then◌else◌, ◌==◌, leb, length, take, drop, unwrap_or,
}
use loss_function.Prelude.Text.{Text, bytes, text_beq, show_nat}
use loss_function.Types.{OrderType, limit, market, is_ascii_digit}
use loss_function.Broker.{BrokerError, internal, rejected}
use loss_function.Kis.{Json, index, text_at, Reply, failed, answered, Request, Method, Wire, Times}
use loss_function.Kis.Auth.{
  KisAuth, TokenResponse, AuthError, auth_error_text, access_token, invalidate,
}

pub data ApiErrorKind : Type 0 where
  api_reject auth rate_limited server network malformed : ApiErrorKind

pub record ApiError : Type 0 where
  pub kind : ApiErrorKind
  pub message : Text
  pub msg_cd : Option Text

-- `Debug` of the kind
unfoldable pub api_kind_name : ApiErrorKind → Text
api_kind_name api_reject = bytes "ApiReject"
api_kind_name auth = bytes "Auth"
api_kind_name rate_limited = bytes "RateLimited"
api_kind_name server = bytes "Server"
api_kind_name network = bytes "Network"
api_kind_name malformed = bytes "Malformed"

-- `to_string()` of the error
unfoldable pub api_error_text : ApiError → Text
api_error_text e = api_kind_name e.kind ++ (bytes ": " ++ e.message)

-- `From<ApiError> for BrokerError`
unfoldable pub broker_error_of : ApiError → BrokerError
broker_error_of e = elim e.kind [
  | api_reject ↦ rejected (api_error_text e)
  | _ ↦ internal (api_error_text e)
]

-- an error without a code of the venue
abbrev pub api_error : ApiErrorKind → Text → ApiError
api_error kind message = record { kind = kind; message = message; msg_cd = none }

pub record KisRestClient (T H : Type 0) : Type 0 where
  pub auth : KisAuth T H
  pub environment : Text
  pub base_url : Text
  pub cano : Text
  pub prdt : Text
  pub trading_mode : Text

-- the characters that are digits
unfoldable pub digits_only : Text → Text
digits_only [] = []
digits_only (b ∷ t) = let rest = digits_only t in if is_ascii_digit b then b ∷ rest else rest

-- `parse_account_number`; the quotes that the message puts around the number are left out
unfoldable pub parse_account_number : Text → Result BrokerError (Text × Text)
parse_account_number account =
    let digits = digits_only account in
    if length digits == 10
    then ok (take 8 digits, drop 8 digits)
    else err (internal (bytes "KIS account number must be 10 digits (8-2), got " ++ account))

-- `ord_dvsn`
unfoldable pub ord_dvsn : OrderType → Text
ord_dvsn limit = bytes "00"
ord_dvsn market = bytes "01"

-- `KisRestClient::new`
unfoldable pub new :
    {T H : Type 0}
    → KisAuth T H
    → Text
    → Text
    → Text
    → Text
    → Result BrokerError (KisRestClient T H)
new a account_number environment base_url trading_mode = do
  account ← parse_account_number account_number
  ok (record {
    auth = a;
    environment = environment;
    base_url = base_url;
    cano = account.0;
    prdt = account.1;
    trading_mode = trading_mode;
  })

-- What a request is made of, apart from the token.
pub record Call : Type 0 where
  pub method : Method
  pub path : Text
  pub tr_id : Text
  pub body : Option (List (Text × Text))
  pub query : Option (List (Text × Text))
  pub tr_cont : Option Text

-- the request with its headers
unfoldable pub request_with : {T H : Type 0} → KisRestClient T H → Text → Call → Request
request_with c token call = record {
  method = call.method;
  url = c.base_url ++ call.path;
  headers =
      (bytes "authorization", bytes "Bearer " ++ token)
      ∷ (bytes "appkey", c.auth.app_key)
      ∷ (bytes "appsecret", c.auth.app_secret)
      ∷ (bytes "tr_id", call.tr_id)
      ∷ (bytes "custtype", bytes "P")
      ∷ (bytes "tr_cont", unwrap_or call.tr_cont [])
      ∷ [];
  json = call.body;
  query = call.query;
}

-- `== Some(text)` on an optional text
unfoldable pub says : Option Text → Text → Bool
says none t = false
says (some s) t = text_beq s t

-- whether a reply rejects the token
unfoldable pub is_rejection : {J : Type 0} → Reply J → Bool
is_rejection (failed e) = false
is_rejection (answered status shown cont body) = status == 401 || status == 403

module _ {J : Type 0} ⦃j : Json J⦄ where
  -- the body of a reply of status 200: a code other than "0" is a rejection
  unfoldable pub judge_body : Option Text → Result Text J → Result ApiError (J × Option Text)
  judge_body cont (err e) = err (api_error malformed (bytes "non-JSON response: " ++ e))
  judge_body cont (ok payload) =
      if says (text_at (bytes "rt_cd") payload) (bytes "0")
        || not (is_some (j.get (bytes "rt_cd") payload))
      then ok (payload, cont)
      else err (record {
        kind = api_reject;
        message =
            bytes "KIS rejected: rt_cd="
            ++ (j.show (index (bytes "rt_cd") payload)
                ++ (bytes " msg_cd="
                    ++ (j.show (index (bytes "msg_cd") payload)
                        ++ (bytes " msg1=" ++ j.show (index (bytes "msg1") payload)))));
        msg_cd = text_at (bytes "msg_cd") payload;
      })

  -- the reply, where the token was re-issued before
  unfoldable pub judge_last : Reply J → Result ApiError (J × Option Text)
  judge_last (failed e) = err (api_error network e)
  judge_last (answered status shown cont body) =
      if status == 200
      then judge_body cont body
      else if status == 401 || status == 403
      then err (api_error auth (bytes "token rejected after re-issue"))
      else if status == 429
      then err (api_error rate_limited (bytes "rate limited"))
      else if leb 500 status
      then err (api_error server (bytes "server error " ++ show_nat status))
      else err (api_error malformed (bytes "unexpected status " ++ show_nat status))

module _ {T H J : Type 0} ⦃j : Json J⦄ (t : Times T) (decode : J → Result Text TokenResponse)
    (w : Wire H J) where
  -- one turn of the loop, up to the reply: the token, then the call
  unfoldable pub ask :
      KisRestClient T H → H → Call → Result ApiError (Reply J) × (KisRestClient T H × H)
  ask c h call =
      let (token, (a, h')) = access_token t decode w c.auth h in
      let c' = record c { auth = a } in
      elim token [
        | err e ↦ (err (api_error auth (auth_error_text e)), (c', h'))
        | ok token ↦
            let (reply, h'') = w.send h' (request_with c' token call) in (ok reply, (c', h''))
      ]

  -- the second turn, in which a rejected token is an error
  unfoldable pub ask_again :
      KisRestClient T H × H → Call → Result ApiError (J × Option Text) × (KisRestClient T H × H)
  ask_again (c, h) call = let (reply, s) = ask c h call in (reply >>= judge_last, s)

  -- the end of the first turn: a rejected token is dropped, and the loop goes round once more
  unfoldable pub after_first :
      Call
      → Result ApiError (Reply J) × (KisRestClient T H × H)
      → Result ApiError (J × Option Text) × (KisRestClient T H × H)
  after_first call (err e, s) = (err e, s)
  after_first call (ok reply, (c, h)) =
      if is_rejection reply
      then ask_again (record c { auth = invalidate c.auth }, h) call
      else (judge_last reply, (c, h))

  -- `KisRestClient::request`
  unfoldable pub request :
      KisRestClient T H → H → Call → Result ApiError (J × Option Text) × (KisRestClient T H × H)
  request c h call = after_first call (ask c h call)

-- ===== src/Kis/Auth.antt =====
-- rust/lossfunction/src/kis/auth.rs: access tokens, issued and cached.
pub mod Tokens
use loss_function.Prelude.{
  ℕ, ◌*◌, Bool, true, false, ◌||◌, Option, none, some, List, [], ◌∷◌, ◌++◌, Result, ok, err, ◌>>=◌,
  ok_or, if◌then◌else◌, ◌==◌, leb, length, unwrap_or,
}
use loss_function.Prelude.Text.{Text, bytes, text_beq, show_nat}
use loss_function.Broker.{BrokerError, internal}
use loss_function.Kis.{Reply, failed, answered, Request, post, Wire, Times}

-- `kis_base_url`
unfoldable pub kis_base_url : Text → Text
kis_base_url environment =
    if text_beq environment (bytes "real")
    then bytes "https://openapi.koreainvestment.com:9443"
    else bytes "https://openapivts.koreainvestment.com:9443"

-- `kis_ws_url`
unfoldable pub kis_ws_url : Text → Text
kis_ws_url environment =
    if text_beq environment (bytes "real")
    then bytes "ws://ops.koreainvestment.com:21000"
    else bytes "ws://vops.koreainvestment.com:21000"

-- `parse_kst_expiry`: a wall time of Korea, nine hours ahead
unfoldable pub parse_kst_expiry : {T : Type 0} → Times T → Text → Option T
parse_kst_expiry t raw = elim (t.parse_naive raw (bytes "%Y-%m-%d %H:%M:%S")) [
  | none ↦ none
  | some naive ↦ some (t.back naive (9 * 3600))
]

pub data AuthErrorKind : Type 0 where
  invalid_credentials rate_limited server network malformed : AuthErrorKind

pub record AuthError : Type 0 where
  pub kind : AuthErrorKind
  pub message : Text

-- `Debug` of the kind
unfoldable pub auth_kind_name : AuthErrorKind → Text
auth_kind_name invalid_credentials = bytes "InvalidCredentials"
auth_kind_name rate_limited = bytes "RateLimited"
auth_kind_name server = bytes "Server"
auth_kind_name network = bytes "Network"
auth_kind_name malformed = bytes "Malformed"

-- `to_string()` of the error
unfoldable pub auth_error_text : AuthError → Text
auth_error_text e = auth_kind_name e.kind ++ (bytes ": " ++ e.message)

-- `From<AuthError> for BrokerError`
unfoldable pub broker_error_of_auth : AuthError → BrokerError
broker_error_of_auth e = internal (auth_error_text e)

pub record TokenResponse : Type 0 where
  pub access_token : Option Text
  pub access_token_token_expired : Option Text

pub record CachedToken (T : Type 0) : Type 0 where
  pub access_token : Text
  pub expires_at : T

-- The margin is in seconds; `now` reads the clock of the outside world.
pub record KisAuth (T H : Type 0) : Type 0 where
  pub base_url : Text
  pub app_key : Text
  pub app_secret : Text
  pub margin : ℕ
  pub now : H → T
  pub cache : Option (CachedToken T)

module _ {T H : Type 0} where
  -- `KisAuth::new`, with the system's clock
  unfoldable pub new : (H → T) → Text → Text → Text → KisAuth T H
  new utc_now base_url app_key app_secret = record {
    base_url = base_url;
    app_key = app_key;
    app_secret = app_secret;
    margin = 5 * 60;
    now = utc_now;
    cache = none;
  }

  -- `KisAuth::with_clock`
  unfoldable pub with_clock : KisAuth T H → (H → T) → KisAuth T H
  with_clock a now = record a { now = now }

  -- `KisAuth::invalidate`
  unfoldable pub invalidate : KisAuth T H → KisAuth T H
  invalidate a = record a { cache = none }

  -- the request of `issue`
  unfoldable pub token_request : KisAuth T H → Request
  token_request a = record {
    method = post;
    url = a.base_url ++ bytes "/oauth2/tokenP";
    headers = [];
    json = some (
        (bytes "grant_type", bytes "client_credentials")
        ∷ (bytes "appkey", a.app_key)
        ∷ (bytes "appsecret", a.app_secret)
        ∷ []);
    query = none;
  }

module _ {T J : Type 0} (t : Times T) (decode : J → Result Text TokenResponse) where
  -- a token of a response that has one and a readable expiry
  unfoldable pub token_of : TokenResponse → Result AuthError (CachedToken T)
  token_of r =
      let missing : AuthError = record {
        kind = malformed;
        message = bytes "token response missing access_token";
      } in
      let unreadable : AuthError = record {
        kind = malformed;
        message = bytes "token response missing/invalid access_token_token_expired";
      } in
      elim r.access_token [
        | none ↦ err missing
        | some token ↦
            if length token == 0
            then err missing
            else elim (parse_kst_expiry t (unwrap_or r.access_token_token_expired [])) [
              | none ↦ err unreadable
              | some at ↦ ok (record { access_token = token; expires_at = at })
            ]
      ]

  -- the body of a reply of status 200; `decode` is the derived `Deserialize` of `TokenResponse`
  unfoldable pub read_token : Result Text J → Result AuthError (CachedToken T)
  read_token (err e) =
      err (record { kind = malformed; message = bytes "token response unreadable: " ++ e })
  read_token (ok body) = elim (decode body) [
    | err e ↦ err (record { kind = malformed; message = bytes "token response unreadable: " ++ e })
    | ok r ↦ token_of r
  ]

  -- the `match` on the reply
  unfoldable pub judge_token : Reply J → Result AuthError (CachedToken T)
  judge_token (failed e) = err (record { kind = network; message = e })
  judge_token (answered status shown cont body) =
      if status == 200
      then read_token body
      else if status == 401 || status == 403
      then err (record {
        kind = invalid_credentials;
        message = bytes "token request rejected: " ++ shown;
      })
      else if status == 429
      then err (record { kind = rate_limited; message = bytes "rate limited issuing token" })
      else if leb 500 status
      then err (record {
        kind = server;
        message = bytes "server error " ++ (show_nat status ++ bytes " issuing token");
      })
      else err (record {
        kind = malformed;
        message = bytes "unexpected status " ++ (show_nat status ++ bytes " issuing token");
      })

module _ {T H J : Type 0} (t : Times T) (decode : J → Result Text TokenResponse)
    (w : Wire H J) where
  -- `issue`
  unfoldable pub issue : KisAuth T H → H → Result AuthError (CachedToken T) × H
  issue a h = let (reply, h') = w.send h (token_request a) in (judge_token t decode reply, h')

  -- the cached token, while the clock is before its expiry less the margin
  unfoldable pub fresh_token : KisAuth T H → H → Option Text
  fresh_token a h = elim a.cache [
    | none ↦ none
    | some token ↦
        if t.before (a.now h) (t.back token.expires_at a.margin)
        then some token.access_token
        else none
  ]

  -- the end of `access_token`: a token that was issued is cached
  unfoldable pub keep_token :
      KisAuth T H → Result AuthError (CachedToken T) × H → Result AuthError Text × (KisAuth T H × H)
  keep_token a (err e, h) = (err e, (a, h))
  keep_token a (ok token, h) = (ok token.access_token, (record a { cache = some token }, h))

  -- `KisAuth::access_token`
  unfoldable pub access_token : KisAuth T H → H → Result AuthError Text × (KisAuth T H × H)
  access_token a h = elim (fresh_token a h) [
    | some token ↦ (ok token, (a, h))
    | none ↦ keep_token a (issue a h)
  ]

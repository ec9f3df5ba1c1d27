-- ===== src/Config/Loading.antt =====
-- rust/lossfunction/src/config.rs: `Settings::load` and the rules that it checks.
use loss_function.Prelude.{
  Bool, true, false, not, ◌&&◌, ◌||◌, none, some, [], Result, ok, err, ◌>>=◌, ◌>>◌, if◌then◌else◌,
  ◌==◌, length, unwrap_or,
}
use loss_function.Prelude.Text.{Text, bytes, text_beq}
use loss_function.Prelude.Scan.{to_ascii_lowercase, parse_i64, parse_u64}
use loss_function.Risk.{RiskSettings}
use loss_function.Config.{
  TradingMode, paper, live, KisEnvironment, mock, real, PaperBackend, memory, kis, QuotesSource,
  no_source, demo, kis_stream, expose, Settings, default, ConfigError, unknown_trading_mode,
  live_not_confirmed, live_requires_real_environment, invalid, unknown_value, paper_needs_mock,
  quotes_need_credentials, Env,
}
use loss_function.Config.Reading.{read_optional, read_flag, read_number, parse_watchlist}

-- the four `match`es on a value's text
unfoldable pub mode_of : Text → Result ConfigError TradingMode
mode_of t =
    if text_beq t (bytes "paper")
    then ok paper
    else if text_beq t (bytes "live")
    then ok live
    else err (unknown_trading_mode t)

unfoldable pub environment_of : Text → Result ConfigError KisEnvironment
environment_of t =
    if text_beq t (bytes "mock")
    then ok mock
    else if text_beq t (bytes "real")
    then ok real
    else err (invalid (bytes "KIS_ENVIRONMENT") (unknown_value t))

unfoldable pub backend_of : Text → Result ConfigError PaperBackend
backend_of t =
    if text_beq t (bytes "memory")
    then ok memory
    else if text_beq t (bytes "kis")
    then ok kis
    else err (invalid (bytes "PAPER_BACKEND") (unknown_value t))

unfoldable pub source_of : Text → Result ConfigError QuotesSource
source_of t =
    let lower = to_ascii_lowercase t in
    if text_beq lower (bytes "none") || length lower == 0
    then ok no_source
    else if text_beq lower (bytes "demo")
    then ok demo
    else if text_beq lower (bytes "kis")
    then ok kis_stream
    else err (invalid (bytes "QUOTES_SOURCE") (unknown_value lower))

-- a variable that is read only if it is set, with the value that stands otherwise
unfoldable pub read_or :
    {A : Type 0} → Env → Text → (Text → Result ConfigError A) → A → Result ConfigError A
read_or env key read default = do
  value ← read_optional env key
  elim value [ none ↦ ok default | some text ↦ read text ]

-- the five limits
unfoldable pub read_risk : Env → RiskSettings → Result ConfigError RiskSettings
read_risk env d = do
  notional ← read_number parse_i64 env (bytes "RISK_MAX_ORDER_NOTIONAL") d.max_order_notional
  quantity ← read_number parse_i64 env (bytes "RISK_MAX_POSITION_QUANTITY") d.max_position_quantity
  exposure ← read_number parse_i64 env (bytes "RISK_GROSS_EXPOSURE") d.gross_exposure
  loss ← read_number parse_i64 env (bytes "RISK_DAILY_LOSS_LIMIT") d.daily_loss_limit
  stale ← read_number parse_u64 env (bytes "RISK_STALE_QUOTE_SECONDS") d.stale_quote_seconds
  ok (record {
    max_order_notional = notional;
    max_position_quantity = quantity;
    gross_exposure = exposure;
    daily_loss_limit = loss;
    stale_quote_seconds = stale;
  })

-- the part of `Settings::load` before the rules are checked
unfoldable pub read_settings : Env → Result ConfigError Settings
read_settings env = do
  mode ← read_or env (bytes "TRADING_MODE") mode_of default.trading_mode
  confirmed ← read_flag env (bytes "LIVE_TRADING_CONFIRMED")
  environment ← read_or env (bytes "KIS_ENVIRONMENT") environment_of default.kis_environment
  backend ← read_or env (bytes "PAPER_BACKEND") backend_of default.paper_backend
  key ← read_optional env (bytes "KIS_APP_KEY")
  secret ← read_optional env (bytes "KIS_APP_SECRET")
  account ← read_optional env (bytes "KIS_ACCOUNT_NUMBER")
  source ← read_or env (bytes "QUOTES_SOURCE") source_of default.quotes_source
  symbols ← read_or env (bytes "WATCHLIST") parse_watchlist default.watchlist
  path ← read_optional env (bytes "DATABASE_PATH")
  limits ← read_risk env default.risk
  ok (record {
    trading_mode = mode;
    live_trading_confirmed = confirmed;
    kis_environment = environment;
    paper_backend = backend;
    kis_app_key = record { text = unwrap_or key [] };
    kis_app_secret = record { text = unwrap_or secret [] };
    kis_account_number = unwrap_or account [];
    database_path = unwrap_or path default.database_path;
    risk = limits;
    history_window_bars = default.history_window_bars;
    watchlist = symbols;
    quotes_source = source;
  })

unfoldable pub is_live : TradingMode → Bool
is_live paper = false
is_live live = true

unfoldable pub is_real : KisEnvironment → Bool
is_real mock = false
is_real real = true

unfoldable pub is_kis : PaperBackend → Bool
is_kis memory = false
is_kis kis = true

unfoldable pub is_kis_stream : QuotesSource → Bool
is_kis_stream kis_stream = true
is_kis_stream _ = false

-- the three rules of `Settings::validate`, in their order
unfoldable pub check_live : Settings → Result ConfigError (Unit {0})
check_live s =
    if is_live s.trading_mode
    then if not s.live_trading_confirmed
      then err live_not_confirmed
      else if not (is_real s.kis_environment)
      then err live_requires_real_environment
      else ok tt
    else ok tt

unfoldable pub check_paper : Settings → Result ConfigError (Unit {0})
check_paper s =
    if not (is_live s.trading_mode) && (is_kis s.paper_backend && is_real s.kis_environment)
    then err (invalid (bytes "KIS_ENVIRONMENT") paper_needs_mock)
    else ok tt

unfoldable pub check_quotes : Settings → Result ConfigError (Unit {0})
check_quotes s =
    if is_kis_stream s.quotes_source
      && (length (expose s.kis_app_key) == 0 || length (expose s.kis_app_secret) == 0)
    then err (invalid (bytes "KIS_APP_KEY") quotes_need_credentials)
    else ok tt

-- `Settings::validate`
unfoldable pub validate : Settings → Result ConfigError (Unit {0})
validate s = check_live s >> check_paper s >> check_quotes s

-- `Settings::load`
unfoldable pub load : Env → Result ConfigError Settings
load env = do s ← read_settings env; validate s >> ok s

-- ===== src/Config.antt =====
-- rust/lossfunction/src/config.rs: the settings and the errors of loading them. The environment is a
-- function: what `env::var` answers for a key, after the optional `.env` file was read.
pub mod Reading
pub mod Loading
pub mod Guards
pub mod Numbers
use loss_function.Prelude.{
  ℕ, Bool, true, false, Option, none, some, List, [], ◌∷◌, map, ok, err, if◌then◌else◌,
}
use loss_function.Prelude.Int.{ℤ, pos}
use loss_function.Prelude.Text.{Text, bytes}
use loss_function.Types.{Symbol, InvalidSymbol}
use loss_function.Risk.{RiskSettings}

pub data TradingMode : Type 0 where
  paper live : TradingMode

-- `Display for TradingMode`
unfoldable pub mode_name : TradingMode → Text
mode_name paper = bytes "paper"
mode_name live = bytes "live"

pub data KisEnvironment : Type 0 where
  mock real : KisEnvironment

pub data PaperBackend : Type 0 where
  memory kis : PaperBackend

-- `QuotesSource::None` is `no_source`.
pub data QuotesSource : Type 0 where
  no_source demo kis_stream : QuotesSource

-- The text is private in the source.
pub record Secret : Type 0 where
  pub text : Text

-- `Secret::expose`
unfoldable pub expose : Secret → Text
expose s = s.text

-- `Debug for Secret`
unfoldable pub debug_secret : Secret → Text
debug_secret s = bytes "Secret(***)"

pub record Settings : Type 0 where
  pub trading_mode : TradingMode
  pub live_trading_confirmed : Bool
  pub kis_environment : KisEnvironment
  pub paper_backend : PaperBackend
  pub kis_app_key : Secret
  pub kis_app_secret : Secret
  pub kis_account_number : Text
  pub database_path : Text
  pub risk : RiskSettings
  pub history_window_bars : ℕ
  pub watchlist : List Symbol
  pub quotes_source : QuotesSource

-- `Default for RiskSettings`
abbrev pub default_risk : RiskSettings
default_risk = record {
  max_order_notional = pos 5_000_000;
  max_position_quantity = pos 50;
  gross_exposure = pos 20_000_000;
  daily_loss_limit = pos 500_000;
  stale_quote_seconds = 30;
}

-- `default_watchlist`; the three codes are tickers, so that `expect` does not panic
unfoldable pub default_watchlist : List Symbol
default_watchlist =
    map (λ code. let s : Symbol = record { text = code } in s)
      (bytes "005930" ∷ bytes "035420" ∷ bytes "069500" ∷ [])

-- `Default for Settings`
unfoldable pub default : Settings
default = record {
  trading_mode = paper;
  live_trading_confirmed = false;
  kis_environment = mock;
  paper_backend = memory;
  kis_app_key = record { text = [] };
  kis_app_secret = record { text = [] };
  kis_account_number = [];
  database_path = bytes "data/lossfunction.db";
  risk = default_risk;
  history_window_bars = 120;
  watchlist = default_watchlist;
  quotes_source = no_source;
}

-- What the message of `ConfigError::Invalid` shows, without its English.
pub data Message : Type 0 where
  empty_watchlist paper_needs_mock quotes_need_credentials : Message
  not_a_symbol : Text → InvalidSymbol → Message
  unknown_value : Text → Message
  not_unicode_key : Text → Text → Message
  not_a_boolean : Text → Text → Message
  not_a_number : Text → Text → Message

pub data ConfigError : Type 0 where
  unknown_trading_mode : Text → ConfigError
  live_not_confirmed live_requires_real_environment : ConfigError
  invalid : Text → Message → ConfigError

-- What `env::var` answers: `Ok`, or the two cases of `VarError`.
pub data EnvVar : Type 0 where
  present : Text → EnvVar
  not_present : EnvVar
  not_unicode : Text → EnvVar

abbrev pub Env : Type 0
Env = Text → EnvVar

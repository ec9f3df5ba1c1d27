-- ===== src/Config/Guards.antt =====
-- What a loaded configuration guarantees: paper and live trading are kept apart.
use mathlib.Core.Path.{subst}
use loss_function.Prelude.{
  true, false, ◌≡◌, refl, ap, ◌∙◌, ok-injective, ◌↔◌, ◌⊎◌, inl, inr, Option, none, ok, Result,
  bind_succeeds, arith, length, ◌<◌,
}
use loss_function.Prelude.Text.{Text, bytes, text_beq_to}
use loss_function.Risk.{RiskSettings}
use loss_function.Config.{
  TradingMode, paper, live, mock, real, kis, kis_stream, expose, Settings, default, ConfigError,
  Env, present, not_present,
}
use loss_function.Config.Reading.{read_optional, read_flag, read_number, parse_watchlist}
use loss_function.Config.Loading.{
  mode_of, environment_of, backend_of, source_of, read_or, read_risk, read_settings, is_live,
  is_real, is_kis, is_kis_stream, check_live, check_paper, check_quotes, validate, load,
}

-- The separation of paper and live trading, and the credentials of the quote stream.
pub record IsGuarded (s : Settings) : Type 0 where
  pub live_confirmed : s.trading_mode ≡ live → s.live_trading_confirmed ≡ true
  pub live_real : s.trading_mode ≡ live → s.kis_environment ≡ real
  pub paper_mock : s.trading_mode ≡ paper → s.paper_backend ≡ kis → s.kis_environment ≡ mock
  pub quotes_key : s.quotes_source ≡ kis_stream → 0 < length (expose s.kis_app_key)
  pub quotes_secret : s.quotes_source ≡ kis_stream → 0 < length (expose s.kis_app_secret)

valid_to : (s : Settings) → validate s ≡ ok tt → IsGuarded s
unfolding validate check_live check_paper check_quotes is_live is_real is_kis is_kis_stream expose
valid_to s h = record {
  live_confirmed = λ l. ground (arith, h, l);
  live_real = λ l. ground (arith, h, l);
  paper_mock = λ l k. ground (arith, h, l, k);
  quotes_key = λ l. ground (arith, h, l);
  quotes_secret = λ l. ground (arith, h, l);
}

valid_from : (s : Settings) → IsGuarded s → validate s ≡ ok tt
unfolding validate check_live check_paper check_quotes is_live is_real is_kis is_kis_stream expose
valid_from s g =
    ground (arith, g.live_confirmed, g.live_real, g.paper_mock, g.quotes_key, g.quotes_secret)

-- Loading succeeds exactly if every variable is readable and the settings read from them keep to
-- the rules: live trading is confirmed and on the real domain, a paper broker at the venue is on the
-- mock domain, and the venue's quote stream has credentials. The result is then those settings.
pub load_exact :
    (env : Env) (s : Settings) → (load env ≡ ok s) ↔ ((read_settings env ≡ ok s) × IsGuarded s)
unfolding load
load_exact env s = (
  λ h.
      let (x, rest, first) = bind_succeeds (read_settings env) _ s h in
      let (u, same, valid) = bind_succeeds (validate x) _ s rest in
      (first ∙ same, subst IsGuarded (ok-injective same) (valid_to x valid)),
  λ h. rw (h.0) (rw (valid_from s h.1) refl),
)

default-IsGuarded : IsGuarded default
unfolding default
default-IsGuarded = record {
  live_confirmed = λ h. absurd (cc h);
  live_real = λ h. absurd (cc h);
  paper_mock = λ h k. absurd (cc k);
  quotes_key = λ h. absurd (cc h);
  quotes_secret = λ h. absurd (cc h);
}

module _ (env : Env) (unset : (key : Text) → env key ≡ not_present) where
  optional_unset : (key : Text) → read_optional env key ≡ ok none
  unfolding read_optional
  optional_unset key = ground (arith, unset key)

  or_unset :
      {A : Type 0} (key : Text) (read : Text → Result ConfigError A) (d : A)
      → read_or env key read d ≡ ok d
  unfolding read_or
  or_unset key read d = rw (optional_unset key)

  number_unset :
      {A : Type 0} (number : Text → Option A) (key : Text) (d : A)
      → read_number number env key d ≡ ok d
  unfolding read_number
  number_unset number key d = rw (optional_unset key)

  flag_unset : (key : Text) → read_flag env key ≡ ok false
  unfolding read_flag
  flag_unset key = rw (optional_unset key)

  risk_unset : (d : RiskSettings) → read_risk env d ≡ ok d
  unfolding read_risk
  risk_unset d = simp number_unset

  settings_unset : read_settings env ≡ ok default
  unfolding read_settings default
  settings_unset = simp (or_unset, flag_unset, optional_unset, risk_unset)

  -- With no variable of the environment set, the settings are the default ones: paper trading, in
  -- memory, on the mock domain.
  pub load-default : load env ≡ ok default
  unfolding load
  load-default = rw settings_unset (rw (valid_from default default-IsGuarded) refl)

mode_of_live : (t : Text) → mode_of t ≡ ok live → t ≡ bytes "live"
unfolding mode_of
mode_of_live t h = ground (arith, text_beq_to t (bytes "live"))

-- The value of a variable that is read if it is set.
read_or_inv :
    {A : Type 0} (env : Env) (key : Text) (read : Text → Result ConfigError A) (d a : A)
    → read_or env key read d ≡ ok a
    → (d ≡ a) ⊎ ((t : Text) × (env key ≡ present t) × (read t ≡ ok a))
unfolding read_or read_optional
read_or_inv env key read d a h = ground (arith, h)

-- what `read_settings` takes the mode from
mode_read :
    (env : Env) (s : Settings)
    → read_settings env ≡ ok s
    → (mode : TradingMode) × (mode ≡ s.trading_mode)
      × (read_or env (bytes "TRADING_MODE") mode_of paper ≡ ok mode)
unfolding read_settings default
mode_read env s h =
    let (mode, h1, asked) =
      bind_succeeds (read_or env (bytes "TRADING_MODE") mode_of paper) _ s h in
    let (x2, h2, _) = bind_succeeds (read_flag env (bytes "LIVE_TRADING_CONFIRMED")) _ s h1 in
    let (x3, h3, _) =
      bind_succeeds (read_or env (bytes "KIS_ENVIRONMENT") environment_of default.kis_environment) _
        s h2 in
    let (x4, h4, _) =
      bind_succeeds (read_or env (bytes "PAPER_BACKEND") backend_of default.paper_backend) _ s h3 in
    let (x5, h5, _) = bind_succeeds (read_optional env (bytes "KIS_APP_KEY")) _ s h4 in
    let (x6, h6, _) = bind_succeeds (read_optional env (bytes "KIS_APP_SECRET")) _ s h5 in
    let (x7, h7, _) = bind_succeeds (read_optional env (bytes "KIS_ACCOUNT_NUMBER")) _ s h6 in
    let (x8, h8, _) =
      bind_succeeds (read_or env (bytes "QUOTES_SOURCE") source_of default.quotes_source) _ s h7 in
    let (x9, h9, _) =
      bind_succeeds (read_or env (bytes "WATCHLIST") parse_watchlist default.watchlist) _ s h8 in
    let (x10, h10, _) = bind_succeeds (read_optional env (bytes "DATABASE_PATH")) _ s h9 in
    let (x11, h11, _) = bind_succeeds (read_risk env default.risk) _ s h10 in
    (mode, ap (λ (x : Settings). x.trading_mode) (ok-injective h11), asked)

-- The trading mode is the live one only where the environment asks for it by name.
pub live_asked :
    (env : Env) (s : Settings)
    → load env ≡ ok s
    → s.trading_mode ≡ live
    → env (bytes "TRADING_MODE") ≡ present (bytes "live")
live_asked env s h l =
    let (read, _) = (load_exact env s).0 h in
    let (mode, kept, asked) = mode_read env s read in
    elim (read_or_inv env (bytes "TRADING_MODE") mode_of paper mode asked) [
      | inl unset ↦ absurd (cc (unset, kept, l))
      | inr (t, set, named) ↦ rw set (ap present (mode_of_live t (rw (kept ∙ l) at named)))
    ]

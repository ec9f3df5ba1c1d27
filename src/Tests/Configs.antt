-- ===== src/Tests/Configs.antt =====
-- The settings and the assembly of a broker, from concrete environments. The outside world is a number.
use loss_function.Prelude.{if◌then◌else◌, ok, ℕ, ◌≡◌, refl, ◌↔◌, true, some, [], arith}
use loss_function.Prelude.Int.{pos, negsuc}
use loss_function.Prelude.Text.{bytes, text_beq, show_int, show_nat, show_nat_from}
use loss_function.Prelude.Scan.{parse_i64, to_ascii_lowercase, digits, digits_from, negative}
use loss_function.Types.{buy, sell, is_ascii_digit}
use loss_function.Config.{
  default_watchlist, expose, mode_name, default_risk, default, Env, Settings, live, mock, real, kis,
  present, not_present,
}
use loss_function.Config.Reading.{read_number, read_optional, read_flag, flag_of}
use loss_function.Config.Loading.{
  read_settings, load, read_or, mode_of, environment_of, backend_of, read_risk, validate,
  check_live, check_paper, check_quotes, is_live, is_real, is_kis, is_kis_stream,
}
use loss_function.Config.Guards.{load_exact, IsGuarded}
use loss_function.Config.Numbers.{read_i64_shown}
use loss_function.Kis.Auth as Auth
use loss_function.Kis.Rest as Rest
use loss_function.Kis.Venue as Venue
use loss_function.Kis.Auth.{kis_base_url}
use loss_function.Kis.Orders.{order_tr_id}
use loss_function.Kis.Venue.{KisBroker}
use loss_function.Runtime.Assembly.{
  assemble_broker, kis_backed, select, with_kis, build_kis, environment_name,
}
use loss_function.Runtime.Assembly.Separation.{assembled-IsAllowed, unasked-IsOn, IsOn, IsAllowed}

-- the variables of a live runtime, and of a paper runtime at the venue
abbrev live_env : Env
live_env key =
    if text_beq key (bytes "TRADING_MODE")
    then present (bytes "live")
    else if text_beq key (bytes "LIVE_TRADING_CONFIRMED")
    then present (bytes "Yes")
    else if text_beq key (bytes "KIS_ENVIRONMENT")
    then present (bytes "real")
    else if text_beq key (bytes "RISK_DAILY_LOSS_LIMIT")
    then present (show_int (negsuc 41))
    else not_present

abbrev paper_env : Env
paper_env key =
    if text_beq key (bytes "PAPER_BACKEND")
    then present (bytes "kis")
    else if text_beq key (bytes "KIS_ACCOUNT_NUMBER")
    then present (bytes "12345678-01")
    else not_present

abbrev live_settings : Settings
live_settings = record default {
  trading_mode = live;
  live_trading_confirmed = true;
  kis_environment = real;
  risk = record default_risk { daily_loss_limit = negsuc 41 };
}

abbrev paper_settings : Settings
paper_settings = record default { paper_backend = kis; kis_account_number = bytes "12345678-01" }

live_loads : load live_env ≡ ok live_settings
unfolding load read_settings read_or read_optional bytes mode_of read_flag flag_of
    to_ascii_lowercase environment_of backend_of read_risk read_number parse_i64 digits digits_from
    negative show_int show_nat show_nat_from validate check_live check_paper check_quotes is_live
    is_real is_kis is_kis_stream default default_watchlist expose
live_loads = refl

paper_loads : load paper_env ≡ ok paper_settings
unfolding load read_settings read_or read_optional bytes mode_of read_flag flag_of
    to_ascii_lowercase environment_of backend_of read_risk read_number parse_i64 digits digits_from
    negative show_int show_nat show_nat_from validate check_live check_paper check_quotes is_live
    is_real is_kis is_kis_stream default default_watchlist expose
paper_loads = refl

load_exact_example :
    (load live_env ≡ ok live_settings)
    ↔ ((read_settings live_env ≡ ok live_settings) × IsGuarded live_settings)
load_exact_example = load_exact live_env live_settings

read_i64_shown_example :
    read_number parse_i64 live_env (bytes "RISK_DAILY_LOSS_LIMIT") (pos 500_000) ≡ ok (negsuc 41)
unfolding bytes
read_i64_shown_example =
    read_i64_shown live_env (bytes "RISK_DAILY_LOSS_LIMIT") (negsuc 41) (pos 500_000)
      (record { low = ground arith; high = ground arith }) refl

-- the broker of the paper settings
abbrev paper_broker : KisBroker ℕ ℕ
paper_broker = record {
  rest = record {
    auth = Auth.new (λ h. h) (kis_base_url (bytes "mock")) [] [];
    environment = bytes "mock";
    base_url = kis_base_url (bytes "mock");
    cano = bytes "12345678";
    prdt = bytes "01";
    trading_mode = bytes "paper";
  };
  order_context = [];
  outside = 5;
}

paper_assembles :
    assemble_broker (λ h. h) paper_settings 5 ≡ ok (some paper_broker, kis_backed mock)
unfolding assemble_broker select default with_kis build_kis Rest.new Rest.parse_account_number
    Rest.digits_only bytes is_ascii_digit Venue.new environment_name expose mode_name
paper_assembles = refl

assembled-IsAllowed_example : IsAllowed (λ h. h) paper_settings (some paper_broker)
assembled-IsAllowed_example =
    assembled-IsAllowed (λ h. h) paper_settings 5 (some paper_broker) (kis_backed mock)
      paper_assembles

unasked-IsOn_example :
    IsOn mock paper_broker
    × (order_tr_id (bytes "mock") buy ≡ bytes "VTTC0012U")
    × (order_tr_id (bytes "mock") sell ≡ bytes "VTTC0011U")
unfolding bytes
unasked-IsOn_example =
    unasked-IsOn (λ h. h) paper_env paper_settings 5 paper_broker (kis_backed mock) paper_loads
      (λ e. cc e) paper_assembles

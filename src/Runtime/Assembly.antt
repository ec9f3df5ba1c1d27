-- ===== src/Runtime/Assembly.antt =====
-- rust/lossfunction/src/runtime/assembly.rs: the broker that the settings select.
pub mod Separation
use loss_function.Prelude.{
  Bool, true, false, Option, none, some, Result, ok, err, map_err, ◌>>=◌, if◌then◌else◌,
}
use loss_function.Prelude.Text.{Text, bytes}
use loss_function.Config.{
  TradingMode, paper, live, mode_name, KisEnvironment, mock, real, PaperBackend, memory, kis,
  Settings, expose,
}
use loss_function.Kis.Auth as Auth
use loss_function.Kis.Auth.{kis_base_url}
use loss_function.Kis.Rest as Rest
use loss_function.Kis.Rest.{KisRestClient}
use loss_function.Kis.Venue as Venue
use loss_function.Kis.Venue.{KisBroker}

-- `AssembledBroker`; `Memory` is `in_memory`.
pub data AssembledBroker : Type 0 where
  in_memory : AssembledBroker
  kis_backed : KisEnvironment → AssembledBroker

pub data AssemblyError : Type 0 where
  live_not_confirmed : AssemblyError
  unavailable : PaperBackend → AssemblyError
  paper_requires_mock_domain : AssemblyError

-- the `match` on an environment that `build_kis` writes twice
unfoldable pub environment_name : KisEnvironment → Text
environment_name real = bytes "real"
environment_name mock = bytes "mock"

module _ {T H : Type 0} (utc_now : H → T) where
  -- `build_kis`; the HTTP clients are the outside world
  unfoldable pub build_kis : Settings → KisEnvironment → H → Result AssemblyError (KisBroker T H)
  build_kis s environment h =
      let base_url = kis_base_url (environment_name environment) in
      let auth = Auth.new utc_now base_url (expose s.kis_app_key) (expose s.kis_app_secret) in
      let rest =
        Rest.new auth s.kis_account_number (environment_name environment) base_url
          (mode_name s.trading_mode) in
      map_err (λ x. unavailable kis) rest >>= (λ r. ok (Venue.new r h))

  -- a broker with what was assembled
  unfoldable pub with_kis :
      Settings
      → KisEnvironment
      → H
      → Result AssemblyError (Option (KisBroker T H) × AssembledBroker)
  with_kis s environment h = do
    broker ← build_kis s environment h
    ok (some broker, kis_backed environment)

  -- the `match` of `assemble_broker`
  unfoldable pub select :
      Settings
      → TradingMode
      → PaperBackend
      → KisEnvironment
      → H
      → Result AssemblyError (Option (KisBroker T H) × AssembledBroker)
  select s paper memory environment h = ok (none, in_memory)
  select s paper kis mock h = with_kis s mock h
  select s paper kis real h = err paper_requires_mock_domain
  select s live kis real h =
      if s.live_trading_confirmed then with_kis s real h else err live_not_confirmed
  select s live backend environment h = err live_not_confirmed

  -- `assemble_broker`
  unfoldable pub assemble_broker :
      Settings → H → Result AssemblyError (Option (KisBroker T H) × AssembledBroker)
  assemble_broker s h = select s s.trading_mode s.paper_backend s.kis_environment h

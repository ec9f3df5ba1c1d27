-- ===== src/Runtime/Assembly/Separation.antt =====
-- Paper and live trading are kept apart, from the environment's variables to the venue's domain.
use mathlib.Core.Path.{subst}
use loss_function.Prelude.{
  true, ◌≡◌, ◌≢◌, refl, sym, ap, inl, inr, Option, none, some, ok, err, arith, Bool-cases,
  bind_succeeds, ok-injective,
}
use loss_function.Prelude.Text.{bytes}
use loss_function.Types.{buy, sell}
use loss_function.Config.{
  TradingMode, paper, live, KisEnvironment, mock, real, PaperBackend, memory, kis, Settings, Env,
  present,
}
use loss_function.Config.Loading.{load}
use loss_function.Config.Guards.{load_exact, live_asked}
use loss_function.Kis.Auth as Auth
use loss_function.Kis.Rest as Rest
use loss_function.Kis.Venue as Venue
use loss_function.Kis.Auth.{kis_base_url}
use loss_function.Kis.Rest.{KisRestClient, parse_account_number}
use loss_function.Kis.Orders.{order_tr_id}
use loss_function.Kis.Venue.{KisBroker}
use loss_function.Runtime.Assembly.{
  AssembledBroker, kis_backed, live_not_confirmed, environment_name, build_kis, with_kis, select,
  assemble_broker,
}

-- The broker speaks to the domain of an environment: for tokens, for calls and by its label.
pub record IsOn {T H : Type 0} (e : KisEnvironment) (b : KisBroker T H) : Type 0 where
  pub label : b.rest.environment ≡ environment_name e
  pub calls : b.rest.base_url ≡ kis_base_url (environment_name e)
  pub tokens : b.rest.auth.base_url ≡ kis_base_url (environment_name e)

module _ {T H : Type 0} (utc_now : H → T) where
  built-IsOn :
      (s : Settings) (e : KisEnvironment) (h : H) (b : KisBroker T H)
      → build_kis utc_now s e h ≡ ok b
      → IsOn e b
  unfolding build_kis Rest.new Auth.new Venue.new
  built-IsOn s e h b k = record {
    label = ground (arith, k);
    calls = ground (arith, k);
    tokens = ground (arith, k);
  }

  -- What an assembled broker may be.
  pub data IsAllowed (s : Settings) : Option (KisBroker T H) → Type 0 where
    no_network : s.trading_mode ≡ paper → IsAllowed s none
    on_paper : (b : KisBroker T H) → s.trading_mode ≡ paper → IsOn mock b → IsAllowed s (some b)
    on_live :
        (b : KisBroker T H)
        → s.trading_mode ≡ live
        → s.live_trading_confirmed ≡ true
        → s.kis_environment ≡ real
        → IsOn real b
        → IsAllowed s (some b)

  with_kis_inv :
      (s : Settings) (e : KisEnvironment) (h : H) (x : Option (KisBroker T H)) (a : AssembledBroker)
      → with_kis utc_now s e h ≡ ok (x, a)
      → (b : KisBroker T H) × (x ≡ some b) × (a ≡ kis_backed e) × IsOn e b
  unfolding with_kis
  with_kis_inv s e h x a k =
      let (b, done, built) = bind_succeeds (build_kis utc_now s e h) _ (x, a) k in
      let same = ok-injective done in
      (b, sym (ap (λ p. p.0) same), sym (ap (λ p. p.1) same), built-IsOn s e h b built)

  select-IsAllowed :
      (s : Settings) (m : TradingMode) (p : PaperBackend) (e : KisEnvironment) (h : H)
      (x : Option (KisBroker T H)) (a : AssembledBroker)
      → s.trading_mode ≡ m
      → s.kis_environment ≡ e
      → select utc_now s m p e h ≡ ok (x, a)
      → IsAllowed s x
  unfolding select with_kis build_kis
  select-IsAllowed s paper memory e h x a m d k =
      subst (IsAllowed s) (ap (λ p. p.0) (ok-injective k)) (no_network m)
  select-IsAllowed s paper kis mock h x a m d k =
      let (b, is, _, on) = with_kis_inv s mock h x a k in rw is (on_paper b m on)
  select-IsAllowed s paper kis real h x a m d k = absurd (ground (arith, k))
  select-IsAllowed s live kis real h x a m d k = elim (Bool-cases s.live_trading_confirmed) [
    | inl confirmed ↦
        let (b, is, _, on) = with_kis_inv s real h x a (rw confirmed at k) in
        rw is (on_live b m confirmed d on)
    | inr unconfirmed ↦ absurd (ground (arith, k, unconfirmed))
  ]
  select-IsAllowed s live kis mock h x a m d k = absurd (ground (arith, k))
  select-IsAllowed s live memory e h x a m d k = absurd (ground (arith, k))

  -- Whatever the settings, also where they were not validated: a broker that is assembled under a
  -- paper label is in memory or on the mock domain, for tokens and for calls; one on the real domain
  -- is assembled only for live trading that is confirmed.
  pub assembled-IsAllowed :
      (s : Settings) (h : H) (x : Option (KisBroker T H)) (a : AssembledBroker)
      → assemble_broker utc_now s h ≡ ok (x, a)
      → IsAllowed s x
  unfolding assemble_broker
  assembled-IsAllowed s h x a k =
      select-IsAllowed s s.trading_mode s.paper_backend s.kis_environment h x a refl refl k

  allowed_mock :
      (s : Settings) (b : KisBroker T H)
      → s.trading_mode ≢ live
      → IsAllowed s (some b)
      → IsOn mock b
  allowed_mock s b h (on_paper _ m on) = on
  allowed_mock s b h (on_live _ m _ _ on) = absurd (h m)

  -- Unless the environment's TRADING_MODE is "live", a broker that is assembled from the loaded
  -- settings speaks to the mock domain, and the orders that it places carry the mock ids.
  pub unasked-IsOn :
      (env : Env) (s : Settings) (h : H) (b : KisBroker T H) (a : AssembledBroker)
      → load env ≡ ok s
      → env (bytes "TRADING_MODE") ≢ present (bytes "live")
      → assemble_broker utc_now s h ≡ ok (some b, a)
      → IsOn mock b
        × (order_tr_id b.rest.environment buy ≡ bytes "VTTC0012U")
        × (order_tr_id b.rest.environment sell ≡ bytes "VTTC0011U")
  unfolding order_tr_id environment_name bytes
  unasked-IsOn env s h b a loaded unasked k =
      let on =
        allowed_mock s b (λ l. unasked (live_asked env s loaded l))
          (assembled-IsAllowed s h (some b) a k) in
      (on, rw on.label, rw on.label)

  -- Loaded settings for live trading with the in-memory backend, which is the default one, are
  -- refused as not confirmed, although they are confirmed and on the real domain.
  pub live_memory_refused :
      (env : Env) (s : Settings) (h : H)
      → load env ≡ ok s
      → s.trading_mode ≡ live
      → s.paper_backend ≡ memory
      → (assemble_broker utc_now s h ≡ err live_not_confirmed)
        × (s.live_trading_confirmed ≡ true)
        × (s.kis_environment ≡ real)
  unfolding assemble_broker select
  live_memory_refused env s h loaded l m =
      let (_, g) = (load_exact env s).0 loaded in
      (ground (arith, l, m), g.live_confirmed l, g.live_real l)

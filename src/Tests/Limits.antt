-- ===== src/Tests/Limits.antt =====
-- The risk checks at concrete orders. Instants and spans are whole seconds.
use loss_function.Prelude.{leb, ok, ℕ, ◌-◌, ◌≡◌, refl, ◌↔◌, false, none, some, [], ◌∷◌}
use loss_function.Prelude.Int.{ℤ, pos}
use loss_function.Prelude.Text.{text_eq}
use loss_function.Prelude.Maps.{Map, lookup}
use loss_function.Types.{Symbol, symbol_eq, Quote}
use loss_function.Domain.Portfolio.{empty}
use loss_function.Risk.{stale_market_data, order_notional, check_order, Chrono, RiskManager}
use loss_function.Risk.Checks.{IsWithin}
use loss_function.Risk.Verdicts.{reason_of, approved_exact, rejected_for, stale}
use loss_function.Tests.Samples.{whole, samsung}
use loss_function.Tests.Orders.{ten}

abbrev pub seconds_clock : Chrono ℕ ℕ
seconds_clock = record { since = λ a b. a - b; le = leb; seconds = λ n. n }

abbrev pub manager : RiskManager ℤ ℕ
manager = record {
  limits = record {
    max_order_notional = pos 6000;
    max_position_quantity = pos 100;
    max_gross_exposure = pos 20000;
    daily_loss_limit = pos 1000;
    stale_quote_max_age = 30;
  };
  kill = record { active = false; reason = none };
}

abbrev seen : Quote ℤ ℕ
seen = record { symbol = samsung; last_price = pos 490; timestamp = 100 }

abbrev pub quotes : Map Symbol (Quote ℤ ℕ)
quotes = (samsung, seen) ∷ []

approved_exact_example :
    (check_order seconds_clock manager 110 ten empty quotes ≡ ok (pos 5000)) ↔ (
      (q : Quote ℤ ℕ) × (manager.kill.active ≡ false)
      × IsWithin seconds_clock manager.limits 110 ten empty quotes q
      × (pos 5000 ≡ order_notional ten q))
approved_exact_example = approved_exact seconds_clock manager 110 ten empty quotes (pos 5000)

rejected_for_example :
    reason_of (check_order seconds_clock manager 200 ten empty quotes) ≡ some stale_market_data
unfolding lookup
rejected_for_example =
    rejected_for seconds_clock manager 200 ten empty quotes (stale seen refl refl refl)

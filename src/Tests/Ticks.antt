-- ===== src/Tests/Ticks.antt =====
-- A calendar at which the other tests run. An instant is a number of hours.
use loss_function.Prelude.{◌==◌, ℕ, ◌+◌, ◌*◌, ◌/◌, ◌≡◌, ◌↔◌, true, arith}
use loss_function.Prelude.Keys.{Eq}
use loss_function.Types.{symbol_eq}
use loss_function.MarketData.Aggregator.{Calendar}
use loss_function.Tests.Samples.{whole}

pub same_number : (a b : ℕ) → (a == b ≡ true) ↔ (a ≡ b)
same_number a b = ground arith

instance abbrev pub dates : Eq ℕ
dates = record { beq = ◌==◌; beq_iff = same_number }

abbrev pub hours : Calendar ℕ ℕ
hours = record {
  plus_hours = λ t h. t + h;
  date_naive = λ t. t / 24;
  at_time = λ date h m s. date * 24 + h;
}

-- ===== src/Broker/Mock.antt =====
-- rust/lossfunction/src/broker/mock.rs: the in-memory venue. `now` is the reading of `Utc::now()`.
pub mod Acks
use loss_function.Prelude.{
  ℕ, ◌+◌, ◌%◌, ◌^◌, Bool, true, false, ◌||◌, Option, none, some, List, [], ◌∷◌, ◌++◌, map, Result,
  ok, err, ◌>>=◌, ok_or, unwrap_or, if◌then◌else◌,
}
use loss_function.Prelude.Int.{ℤ, pos, ltb_ℤ, eqb_ℤ, add_i64, sub_i64}
use loss_function.Prelude.Text.{Text, text_eq, bytes, text_less, show_nat}
use loss_function.Prelude.Maps.{Map, lookup, insert, remove}
use loss_function.Decimal.{Decimal}
use loss_function.Types.{OrderSide, buy, sell, OrderType, market, limit, Symbol, symbol_eq, Quote}
use loss_function.Domain.{blended_average}
use loss_function.Broker.{
  OrderRequest, OrderAck, ExecutionReport, Position, BrokerError, unknown_symbol, not_open,
  unknown_order, Broker, limit_crosses,
}

-- `struct Inner`
pub record Venue (P T : Type 0) : Type 0 where
  pub prices : Map Symbol P
  pub acks : Map Text OrderAck
  pub reports : Map Text (ExecutionReport P T)
  pub held : Map Symbol (ℤ × P)
  pub next_broker_id : ℕ  -- u64

-- `format!("MOCK-{}", n)`
unfoldable pub mock_id : ℕ → Text
unfolding show_nat
mock_id n = bytes "MOCK-" ++ show_nat n

module _ {P : Type 0} where
  -- `sort_by` on symbols, stable
  unfoldable pub place : Position P → List (Position P) → List (Position P)
  place p [] = p ∷ []
  place p (q ∷ qs) = if text_less q.symbol.text p.symbol.text then q ∷ place p qs else p ∷ q ∷ qs

  unfoldable pub sorted : List (Position P) → List (Position P)
  unfolding place
  sorted [] = []
  sorted (p ∷ ps) = place p (sorted ps)

module _ {P T : Type 0} where
  -- `MockBroker::new`
  abbrev pub new : Venue P T
  new = record { prices = []; acks = []; reports = []; held = []; next_broker_id = 1 }

  -- `MockBroker::set_price`
  unfoldable pub set_price : Venue P T → Symbol → P → Venue P T
  set_price v s price = record v { prices = insert s price v.prices }

module _ {P : Type 0} ⦃d : Decimal P⦄ where
  -- the buy arm of `apply_fill`
  unfoldable pub bought : Option (ℤ × P) → ℤ → P → ℤ × P
  bought none quantity price = (quantity, price)
  bought (some (held, average)) quantity price =
      (add_i64 held quantity, blended_average held average quantity price)

  -- the sell arm: a sale that is not covered leaves the positions alone
  unfoldable pub sold : Map Symbol (ℤ × P) → Symbol → Option (ℤ × P) → ℤ → Map Symbol (ℤ × P)
  sold positions s none quantity = positions
  sold positions s (some (held, average)) quantity =
      if ltb_ℤ held quantity
      then positions
      else let remaining = sub_i64 held quantity in
        if eqb_ℤ remaining (pos 0)
        then remove s positions
        else insert s (remaining, average) positions

  -- `apply_fill`
  unfoldable pub fill_positions :
      OrderSide → Map Symbol (ℤ × P) → Symbol → ℤ → P → Map Symbol (ℤ × P)
  unfolding bought sold
  fill_positions buy positions s quantity price =
      insert s (bought (lookup s positions) quantity price) positions
  fill_positions sell positions s quantity price = sold positions s (lookup s positions) quantity

  -- whether an order fills on submission, and at which price
  unfoldable pub fills_now : OrderRequest P → P → Bool
  fills_now r price = elim r.order_type [
    | market ↦ true
    | limit ↦ elim r.limit_price [ none ↦ false | some l ↦ limit_crosses r.side price l ]
  ]

  unfoldable pub fill_price : OrderRequest P → P → P
  fill_price r price = elim r.order_type [ market ↦ price | limit ↦ unwrap_or r.limit_price price ]

module _ {P T : Type 0} ⦃d : Decimal P⦄ where
  -- the report of an order that fills, or that stays open
  unfoldable pub report_of : OrderRequest P → P → Text → T → ExecutionReport P T
  unfolding fills_now fill_price
  report_of r price id now = record {
    broker_order_id = id;
    client_order_id = r.client_order_id;
    symbol = r.symbol;
    side = r.side;
    order_type = r.order_type;
    order_quantity = r.quantity;
    filled_quantity = if fills_now r price then r.quantity else pos 0;
    average_fill_price = if fills_now r price then some (fill_price r price) else none;
    is_open = if fills_now r price then false else true;
    timestamp = now;
  }

  -- the rest of `submit_order`, once a price is found
  unfoldable pub accept : T → Venue P T → OrderRequest P → P → OrderAck × Venue P T
  unfolding mock_id report_of fill_positions
  accept now v r price =
      let id = mock_id v.next_broker_id in
      let ack : OrderAck = record { client_order_id = r.client_order_id; broker_order_id = id } in
      (
        ack,
        record v {
          next_broker_id = (v.next_broker_id + 1) % 2 ^ 64;
          held =
              if fills_now r price
              then fill_positions r.side v.held r.symbol r.quantity (fill_price r price)
              else v.held;
          reports = insert id (report_of r price id now) v.reports;
          acks = insert r.client_order_id ack v.acks;
        },
      )

  -- `submit_order`
  unfoldable pub submit_order :
      T → Venue P T → OrderRequest P → Result BrokerError OrderAck × Venue P T
  submit_order now v r = elim (lookup r.client_order_id v.acks) [
    | some existing ↦ (ok existing, v)
    | none ↦ elim (lookup r.symbol v.prices) [
      | none ↦ (err (unknown_symbol r.symbol.text), v)
      | some price ↦ let (ack, v') = accept now v r price in (ok ack, v')
    ]
  ]

  -- `cancel_order`
  unfoldable pub cancel_order : T → Venue P T → Text → Result BrokerError (Unit {0}) × Venue P T
  cancel_order now v id = elim (lookup id v.reports) [
    | none ↦ (err (unknown_order id), v)
    | some report ↦
        if report.is_open
        then (
          ok tt,
          record v {
            reports = insert id (record report { is_open = false; timestamp = now }) v.reports;
          },
        )
        else (err (not_open id), v)
  ]

  -- `execution_report`
  unfoldable pub execution_report : Venue P T → Text → Result BrokerError (ExecutionReport P T)
  execution_report v id = ok_or (lookup id v.reports) (unknown_order id)

  -- `positions`
  unfoldable pub positions : Venue P T → List (Position P)
  unfolding sorted
  positions v = sorted (
      map
        (λ (e : Symbol × (ℤ × P)).
          let p : Position P = record { symbol = e.0; quantity = e.1.0; average_price = e.1.1 } in
          p)
        v.held)

  -- `quote`
  unfoldable pub quote : T → Venue P T → Symbol → Result BrokerError (Quote P T)
  quote now v s = do
    price ← ok_or (lookup s v.prices) (unknown_symbol s.text)
    ok (record { symbol = s; last_price = price; timestamp = now })

  -- `impl Broker for MockBroker`, at one reading of the clock
  abbrev pub mock_broker : T → Broker P T (Venue P T)
  mock_broker now = record {
    submit_order = submit_order now;
    cancel_order = cancel_order now;
    execution_report = λ v id. (execution_report v id, v);
    positions = λ v. (ok (positions v), v);
    quote = λ v s. (quote now v s, v);
  }

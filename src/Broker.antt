-- ===== src/Broker.antt =====
-- rust/lossfunction/src/broker/mod.rs: what crosses the boundary to a venue, and the venue itself as
-- an interface. A venue's state is of any type `S`; a method returns its answer and the new state.
pub mod Mock
use loss_function.Prelude.{Bool, Option, List, ◌++◌, Result}
use loss_function.Prelude.Int.{ℤ}
use loss_function.Prelude.Text.{Text, bytes}
use loss_function.Decimal.{Decimal}
use loss_function.Types.{OrderSide, buy, sell, OrderType, Symbol, Quote}

pub record OrderRequest (P : Type 0) : Type 0 where
  pub client_order_id : Text
  pub symbol : Symbol
  pub side : OrderSide
  pub order_type : OrderType
  pub quantity : ℤ
  pub limit_price : Option P

pub record OrderAck : Type 0 where
  pub client_order_id : Text
  pub broker_order_id : Text

pub record ExecutionReport (P T : Type 0) : Type 0 where
  pub broker_order_id : Text
  pub client_order_id : Text
  pub symbol : Symbol
  pub side : OrderSide
  pub order_type : OrderType
  pub order_quantity : ℤ
  pub filled_quantity : ℤ
  pub average_fill_price : Option P
  pub is_open : Bool
  pub timestamp : T

pub record Position (P : Type 0) : Type 0 where
  pub symbol : Symbol
  pub quantity : ℤ
  pub average_price : P

pub data BrokerError : Type 0 where
  unknown_symbol : Text → BrokerError
  not_open : Text → BrokerError
  insufficient_position : Text → BrokerError
  unknown_order : Text → BrokerError
  rejected : Text → BrokerError
  internal : Text → BrokerError

-- `to_string()`, from the `#[error(..)]` attributes
unfoldable pub error_text : BrokerError → Text
error_text (unknown_symbol s) = bytes "no quote configured for symbol " ++ s
error_text (not_open id) = bytes "order " ++ (id ++ bytes " is not open")
error_text (insufficient_position s) = bytes "insufficient position for " ++ (s ++ bytes " to sell")
error_text (unknown_order id) = bytes "order " ++ (id ++ bytes " not found")
error_text (rejected m) = bytes "broker rejected: " ++ m
error_text (internal m) = bytes "broker failure: " ++ m

-- `trait Broker`
pub record Broker (P T S : Type 0) : Type 0 where
  pub submit_order : S → OrderRequest P → Result BrokerError OrderAck × S
  pub cancel_order : S → Text → Result BrokerError (Unit {0}) × S
  pub execution_report : S → Text → Result BrokerError (ExecutionReport P T) × S
  pub positions : S → Result BrokerError (List (Position P)) × S
  pub quote : S → Symbol → Result BrokerError (Quote P T) × S

-- `limit_crosses`: a limit order fills when the market crosses it.
unfoldable pub limit_crosses : {P : Type 0} ⦃d : Decimal P⦄ → OrderSide → P → P → Bool
limit_crosses ⦃d⦄ buy market limit = d.le market limit
limit_crosses ⦃d⦄ sell market limit = d.le limit market

-- ===== src/Kis.antt =====
-- rust/lossfunction/src/kis: the adapter of the venue KIS. This file holds what the adapter calls of
-- other crates, as interfaces: reqwest (one request and its reply, over a state `H` of the outside
-- world, which also holds the clock), serde_json's `Value`, chrono, and the texts of rust_decimal.
pub mod Auth
pub mod Rest
pub mod Orders
pub mod Accounts
pub mod Reports
pub mod Venue
pub mod Chart
use loss_function.Prelude.{ℕ, Bool, Option, none, some, List, Result, unwrap_or, ◌>>=◌}
use loss_function.Prelude.Text.{Text}

-- `serde_json::Value`
pub record Json (J : Type 0) : Type 0 where
  pub null : J
  pub get : Text → J → Option J
  pub as_str : J → Option Text
  pub as_array : J → Option (List J)
  -- `Display`
  pub show : J → Text

module _ {J : Type 0} ⦃j : Json J⦄ where
  -- `value[name]`, which is null where the name is missing
  abbrev pub index : Text → J → J
  index name value = unwrap_or (j.get name value) j.null

  -- `value[name].as_str()`
  abbrev pub text_at : Text → J → Option Text
  text_at name value = j.as_str (index name value)

pub data Method : Type 0 where
  get post : Method

pub record Request : Type 0 where
  pub method : Method
  pub url : Text
  pub headers : List (Text × Text)
  -- a body whose fields are all texts
  pub json : Option (List (Text × Text))
  pub query : Option (List (Text × Text))

-- What comes of a request: an error of the transport, with its text; or the status code, its
-- `Display`, the header `tr_cont` if it is a text, and the body as JSON or the error of reading it.
pub data Reply (J : Type 0) : Type 0 where
  failed : Text → Reply J
  answered : ℕ → Text → Option Text → Result Text J → Reply J

-- `reqwest::Client`
pub record Wire (H J : Type 0) : Type 0 where
  pub send : H → Request → Reply J × H

-- What the adapter calls of chrono. An instant without a zone is the instant it would be in UTC.
pub record Times (T : Type 0) : Type 0 where
  -- an instant some seconds earlier and later
  pub back : T → ℕ → T
  pub ahead : T → ℕ → T
  -- `a < b`
  pub before : T → T → Bool
  -- `NaiveDateTime::parse_from_str`, by text and format
  pub parse_naive : Text → Text → Option T
  -- `format`
  pub format : T → Text → Text

-- `Decimal::from_str` and `Decimal`'s `Display`
pub record DecimalText (P : Type 0) : Type 0 where
  pub parse_decimal : Text → Option P
  pub show_decimal : P → Text

-- ===== src/Types.antt =====
-- rust/lossfunction/src/types.rs: sides, order types, validated tickers and quotes. A `Quantity` is
-- an `i64`, written ℤ; a `Price` is any type with the operations of `Decimal`; `T` is the type of
-- an instant (`DateTime<Utc>` of the chrono crate).
pub mod Symbols
use loss_function.Prelude.{
  ℕ, Bool, true, false, ◌&&◌, ◌≡◌, ◌↔◌, ap, Option, none, some, List, Result, ok, err, length, all,
  leb, ◌==◌, if◌then◌else◌,
}
use loss_function.Prelude.Keys.{Eq, Less}
use loss_function.Prelude.Text.{Text, text_beq, text_beq_iff, text_less}

pub data OrderSide : Type 0 where
  buy sell : OrderSide

pub data OrderType : Type 0 where
  market limit : OrderType

-- The ticker's text; the source keeps the field private to `parse`.
pub record Symbol : Type 0 where
  pub text : Text

-- What `Symbol::parse` returns for a refused text.
pub record InvalidSymbol : Type 0 where
  pub text : Text

-- `u8::is_ascii_digit`
unfoldable pub is_ascii_digit : ℕ → Bool
is_ascii_digit b = leb 48 b && leb b 57

-- `Symbol::parse`
unfoldable pub parse : Text → Result InvalidSymbol Symbol
unfolding is_ascii_digit
parse value =
    if length value == 6 && all is_ascii_digit value
    then ok (record { text = value })
    else err (record { text = value })

-- `Symbol::as_str`
unfoldable pub as_str : Symbol → Text
as_str s = s.text

pub symbol_beq_iff : (a b : Symbol) → (text_beq a.text b.text ≡ true) ↔ (a ≡ b)
symbol_beq_iff a b = (
  λ h.
      ap (λ (t : Text). let s : Symbol = record { text = t } in s)
        ((text_beq_iff a.text b.text).0 h),
  λ p. (text_beq_iff a.text b.text).1 (ap (λ (s : Symbol). s.text) p),
)

instance abbrev pub symbol_eq : Eq Symbol
symbol_eq = record { beq = λ a b. text_beq a.text b.text; beq_iff = symbol_beq_iff }

instance abbrev pub symbol_ord : Less Symbol
symbol_ord = record { less = λ a b. text_less a.text b.text }

pub record Quote (P T : Type 0) : Type 0 where
  pub symbol : Symbol
  pub last_price : P
  pub timestamp : T

-- `==` on the enumerations
unfoldable pub side_eq : OrderSide → OrderSide → Bool
side_eq buy buy = true
side_eq sell sell = true
side_eq _ _ = false

unfoldable pub type_eq : OrderType → OrderType → Bool
type_eq market market = true
type_eq limit limit = true
type_eq _ _ = false

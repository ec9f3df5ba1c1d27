-- ===== src/Types/Symbols.antt =====
-- Which texts are tickers.
use loss_function.Prelude.{ℕ, ◌≤◌, true, ◌≡◌, refl, ap, ◌↔◌, [], ◌∷◌, ok, length, all, All, arith}
use loss_function.Prelude.Text.{Text}
use loss_function.Types.{Symbol, is_ascii_digit, parse, as_str}

-- The digits, as the characters '0' to '9'.
abbrev pub IsDigit : ℕ → Type 0
IsDigit b = (48 ≤ b) × (b ≤ 57)

-- Six digits and nothing else.
pub record IsTicker (t : Text) : Type 0 where
  pub six : length t ≡ 6
  pub digits : All IsDigit t

all-All : (t : Text) → all is_ascii_digit t ≡ true → All IsDigit t
unfolding is_ascii_digit
all-All [] h = tt
all-All (b ∷ t) h = ground (arith, all-All t)

All-all : (t : Text) → All IsDigit t → all is_ascii_digit t ≡ true
unfolding is_ascii_digit
All-all [] h = refl
All-all (b ∷ t) h = ground (arith, All-all t h.1)

parse_to : (t : Text) (s : Symbol) → parse t ≡ ok s → IsTicker t × (s ≡ record { text = t })
unfolding parse
parse_to t s h = (record { six = ground arith; digits = all-All t (ground arith) }, ground arith)

-- `Symbol::parse` succeeds exactly on the texts of six digits, and the symbol is that text.
pub parse_exact : (t : Text) (s : Symbol) → (parse t ≡ ok s) ↔ (IsTicker t × (as_str s ≡ t))
unfolding parse as_str
parse_exact t s = (
  λ h. ((parse_to t s h).0, ap (λ (x : Symbol). x.text) (parse_to t s h).1),
  λ h. ground (arith, All-all t h.0.digits, h.0.six, h.1),
)

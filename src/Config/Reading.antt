-- ===== src/Config/Reading.antt =====
-- rust/lossfunction/src/config.rs: the readers of one variable, and of the watchlist.
use loss_function.Prelude.{
  Bool, true, false, ◌||◌, Option, none, some, List, [], ◌∷◌, Result, ok, err, ◌>>=◌, map_err,
  if◌then◌else◌, ◌==◌, length,
}
use loss_function.Prelude.Text.{Text, bytes, text_beq}
use loss_function.Prelude.Scan.{to_ascii_lowercase, split, trim}
use loss_function.Types.{Symbol, parse}
use loss_function.Config.{
  Env, present, not_present, not_unicode, ConfigError, invalid, empty_watchlist, not_a_symbol,
  not_unicode_key, not_a_boolean, not_a_number,
}

-- `read_optional`
unfoldable pub read_optional : Env → Text → Result ConfigError (Option Text)
read_optional env key = elim (env key) [
  | present value ↦ ok (some value)
  | not_present ↦ ok none
  | not_unicode raw ↦ err (invalid (bytes "environment") (not_unicode_key key raw))
]

-- the `match` of `read_flag`
unfoldable pub flag_of : Text → Text → Result ConfigError Bool
flag_of key value =
    let lower = to_ascii_lowercase value in
    if text_beq lower (bytes "1") || (text_beq lower (bytes "true") || text_beq lower (bytes "yes"))
    then ok true
    else if text_beq lower (bytes "0")
        || (text_beq lower (bytes "false") || (text_beq lower (bytes "no") || text_beq lower []))
    then ok false
    else err (invalid (bytes "flag") (not_a_boolean key lower))

-- `read_flag`
unfoldable pub read_flag : Env → Text → Result ConfigError Bool
read_flag env key = do
  value ← read_optional env key
  elim value [ none ↦ ok false | some text ↦ flag_of key text ]

-- `read_number`; `number` is the `FromStr` of the type
unfoldable pub read_number :
    {A : Type 0} → (Text → Option A) → Env → Text → A → Result ConfigError A
read_number number env key default = do
  value ← read_optional env key
  elim value [
    | none ↦ ok default
    | some text ↦ elim (number text) [
      | none ↦ err (invalid (bytes "number") (not_a_number key text))
      | some n ↦ ok n
    ]
  ]

-- the pieces that are not empty
unfoldable pub codes_of : List Text → List Text
codes_of [] = []
codes_of (piece ∷ pieces) =
    let rest = codes_of pieces in
    let code = trim piece in if length code == 0 then rest else code ∷ rest

-- the codes as symbols, up to the first that is none
unfoldable pub symbols_of : List Text → Result ConfigError (List Symbol)
symbols_of [] = ok []
symbols_of (code ∷ codes) = do
  s ← map_err (λ x. invalid (bytes "WATCHLIST") (not_a_symbol code x)) (parse code)
  rest ← symbols_of codes
  ok (s ∷ rest)

-- the part of `parse_watchlist` after the split
unfoldable pub watchlist_of : List Text → Result ConfigError (List Symbol)
watchlist_of [] = err (invalid (bytes "WATCHLIST") empty_watchlist)
watchlist_of (code ∷ codes) = symbols_of (code ∷ codes)

-- `parse_watchlist`
unfoldable pub parse_watchlist : Text → Result ConfigError (List Symbol)
parse_watchlist raw = watchlist_of (codes_of (split 44 raw))

-- ===== src/Kis/Reports/Rows.antt =====
-- What a row of the venue's daily executions means for the order.
use mathlib.Core.Path.{subst}
use loss_function.Prelude.{
  Bool, false, not, ◌&&◌, ◌≡◌, sym, ap, ◌∙◌, List, [], ◌∷◌, ok, map_err, ok_or, ◌>>=◌, arith,
  bind_succeeds, ok-injective, All, if◌then◌else◌, unwrap_or, Bool-cases, Result-cases, inl, inr,
}
use loss_function.Prelude.Int.{ℤ, pos, ltb_ℤ, leb_ℤ, ◌<ℤ◌}
use loss_function.Prelude.Text.{Text, bytes}
use loss_function.Prelude.Scan.{parse_i64}
use loss_function.Decimal.{Decimal}
use loss_function.Types.{Symbol, parse}
use loss_function.Domain.{submitted, partially_filled, filled, cancelled}
use loss_function.Broker.{ExecutionReport, Position}
use loss_function.Execution.Gateway.{target_status}
use loss_function.Kis.{Json, text_at, DecimalText}
use loss_function.Kis.Rest.{api_error, malformed, says}
use loss_function.Kis.Accounts.{field, number_or_zero, decimal_or_zero, positions_of}
use loss_function.Kis.Reports.{average_of, execution_report_from_row}

module _ {J : Type 0} ⦃j : Json J⦄ where
  -- the shares that a row says are filled, and whether it says that the order was cancelled
  abbrev pub filled_of : J → ℤ
  filled_of row = number_or_zero (text_at (bytes "tot_ccld_qty") row)

  abbrev pub is_cancelled : J → Bool
  is_cancelled row = says (text_at (bytes "cncl_yn") row) (bytes "Y")

module _ {P T J : Type 0} ⦃j : Json J⦄ ⦃d : Decimal P⦄ (n : DecimalText P) where
  row_inv :
      (id client : Text) (row : J) (now : T) (r : ExecutionReport P T)
      → execution_report_from_row n id client row now ≡ ok r
      → (r.filled_quantity ≡ filled_of row)
        × (r.is_open ≡ (not (is_cancelled row) && ltb_ℤ (filled_of row) r.order_quantity))
        × (average_of n (filled_of row) row ≡ ok r.average_fill_price)
  unfolding execution_report_from_row
  row_inv id client row now r h =
      let (code, h1, _) = bind_succeeds (field (bytes "pdno") row) _ r h in
      let (symbol, h2, _) =
        bind_succeeds (map_err (λ x. api_error malformed (bytes "ccld row bad pdno")) (parse code))
          _ r h1 in
      let (ordered, h3, _) = bind_succeeds (field (bytes "ord_qty") row) _ r h2 in
      let (quantity, h4, _) =
        bind_succeeds
          (ok_or (parse_i64 ordered) (api_error malformed (bytes "ccld row bad ord_qty"))) _ r h3 in
      let (average, h5, priced) = bind_succeeds (average_of n (filled_of row) row) _ r h4 in
      let (side, h6, _) = bind_succeeds (field (bytes "sll_buy_dvsn_cd") row) _ r h5 in
      let same = ok-injective h6 in
      (
        ap (λ (x : ExecutionReport P T). x.filled_quantity) (sym same),
        ap (λ (x : ExecutionReport P T). x.is_open) (sym same)
            ∙ ap
                (λ (x : ExecutionReport P T).
                  not (is_cancelled row) && ltb_ℤ (filled_of row) x.order_quantity)
                same,
        priced ∙ ap (λ (x : ExecutionReport P T). ok x.average_fill_price) same,
      )

  -- A row that can be read becomes a report from which the gateway concludes: the order is filled if
  -- the shares of the order are filled, whether or not it was cancelled; otherwise cancelled, if the
  -- row says so; otherwise partially filled or submitted.
  pub row_status :
      (id client : Text) (row : J) (now : T) (r : ExecutionReport P T)
      → execution_report_from_row n id client row now ≡ ok r
      → target_status r ≡ (
          if leb_ℤ r.order_quantity (filled_of row)
          then filled
          else if is_cancelled row
          then cancelled
          else if ltb_ℤ (pos 0) (filled_of row)
          then partially_filled
          else submitted)
  unfolding target_status
  row_status id client row now r h = ground (arith, row_inv id client row now r h)

module _ {P J : Type 0} ⦃j : Json J⦄ ⦃d : Decimal P⦄ (n : DecimalText P) where
  held_row :
      (row : J) (rows : List J) {symbol : Symbol}
      → leb_ℤ (number_or_zero (text_at (bytes "hldg_qty") row)) (pos 0) ≡ false
      → parse (unwrap_or (text_at (bytes "pdno") row) []) ≡ ok symbol
      → positions_of n (row ∷ rows) ≡ (
          positions_of n rows >>= (λ others. ok (
            record {
              symbol = symbol;
              quantity = number_or_zero (text_at (bytes "hldg_qty") row);
              average_price = decimal_or_zero n (text_at (bytes "pchs_avg_pric") row);
            }
            ∷ others)))
  unfolding positions_of
  held_row row rows h e = ground (arith, h, e)

  -- The positions that are read from the rows of the balance are all of more than no shares.
  pub positions_held :
      (rows : List J) (ps : List (Position P))
      → positions_of n rows ≡ ok ps
      → All (λ p. pos 0 <ℤ p.quantity) ps
  unfolding positions_of
  positions_held [] ps h = subst (All (λ p. pos 0 <ℤ p.quantity)) (ok-injective h) tt
  positions_held (row ∷ rows) ps h =
      elim (Bool-cases (leb_ℤ (number_or_zero (text_at (bytes "hldg_qty") row)) (pos 0))) [
        | inl none_held ↦ positions_held rows ps (ground (arith, h, none_held))
        | inr held ↦ elim (Result-cases (parse (unwrap_or (text_at (bytes "pdno") row) []))) [
          | inr (x, bad) ↦ absurd (ground (arith, h, held, bad))
          | inl (symbol, good) ↦
              let (others, same, rest) =
                bind_succeeds (positions_of n rows) _ ps (sym (held_row row rows held good) ∙ h) in
              subst (All (λ p. pos 0 <ℤ p.quantity)) (ok-injective same)
                (ground (arith, held), positions_held rows others rest)
        ]
      ]

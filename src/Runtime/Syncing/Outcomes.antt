-- ===== src/Runtime/Syncing/Outcomes.antt =====
-- What the report of a working order leads to.
use loss_function.Prelude.{
  true, false, ◌≡◌, Option, none, some, ok, err, inl, inr, arith, Bool-cases, Option-cases,
  Result-cases, if◌then◌else◌,
}
use loss_function.Prelude.Int.{pos, ◌≤ℤ◌, ◌<ℤ◌, ltb_ℤ}
use loss_function.Prelude.Text.{Text}
use loss_function.Decimal.{Decimal}
use loss_function.Domain.{OrderStatus, submitted, partially_filled, filled, cancelled, DomainError}
use loss_function.Domain.Portfolio.{Fill, Portfolio, apply_fill}
use loss_function.Broker.{ExecutionReport}
use loss_function.Execution.Gateway.Reconciliation.{
  Means, all_filled, part_filled, untouched, closed_early,
}
use loss_function.Runtime.{is_working}
use loss_function.Runtime.Syncing.{with_fill, book_report}

-- the fill of the filled quantity of a report
abbrev pub fill_of : {P T : Type 0} → Text → ExecutionReport P T → P → Fill P
fill_of id report price = record {
  client_order_id = id;
  symbol = report.symbol;
  side = report.side;
  quantity = report.filled_quantity;
  price = price;
}

-- What a report leads to, by what it says: the status of the order, its entry among the open orders,
-- and the portfolio.
pub data Outcome {P T : Type 0} ⦃d : Decimal P⦄ (id b : Text) (report : ExecutionReport P T)
    (p : Portfolio P) : OrderStatus → Option Text → Portfolio P → Type 0 where
  booked :
      {price : P} {next : Portfolio P}
      → report.is_open ≡ false
      → report.order_quantity ≤ℤ report.filled_quantity
      → pos 0 <ℤ report.filled_quantity
      → report.average_fill_price ≡ some price
      → apply_fill p (fill_of id report price) ≡ ok next
      → Outcome id b report p filled none next
  refused :
      {price : P} {x : DomainError}
      → report.is_open ≡ false
      → report.order_quantity ≤ℤ report.filled_quantity
      → pos 0 <ℤ report.filled_quantity
      → report.average_fill_price ≡ some price
      → apply_fill p (fill_of id report price) ≡ err x
      → Outcome id b report p filled none p
  unpriced :
      report.is_open ≡ false
      → report.order_quantity ≤ℤ report.filled_quantity
      → report.average_fill_price ≡ none
      → Outcome id b report p filled none p
  empty_fill :
      report.is_open ≡ false
      → report.order_quantity ≤ℤ report.filled_quantity
      → report.filled_quantity ≤ℤ pos 0
      → Outcome id b report p filled none p
  cut_short :
      report.is_open ≡ false
      → report.filled_quantity <ℤ report.order_quantity
      → Outcome id b report p cancelled none p
  running :
      report.is_open ≡ true
      → pos 0 <ℤ report.filled_quantity
      → Outcome id b report p partially_filled (some b) p
  resting :
      report.is_open ≡ true
      → report.filled_quantity ≤ℤ pos 0
      → Outcome id b report p submitted (some b) p

module _ {P : Type 0} ⦃d : Decimal P⦄ where
  with_fill_taken :
      (p : Portfolio P) (f : Fill P) {next : Portfolio P}
      → apply_fill p f ≡ ok next
      → with_fill p f ≡ next
  unfolding with_fill
  with_fill_taken p f h = ground (arith, h)

  with_fill_refused :
      (p : Portfolio P) (f : Fill P) {x : DomainError} → apply_fill p f ≡ err x → with_fill p f ≡ p
  unfolding with_fill
  with_fill_refused p f h = ground (arith, h)

module _ {P T : Type 0} ⦃d : Decimal P⦄ where
  -- the three ways of a report of an order that is filled
  report_spent :
      (id : Text) (report : ExecutionReport P T) (p : Portfolio P)
      → report.filled_quantity ≤ℤ pos 0
      → book_report id (some filled) report p ≡ p
  unfolding book_report
  report_spent id report p h = ground arith

  report_unpriced :
      (id : Text) (report : ExecutionReport P T) (p : Portfolio P)
      → report.average_fill_price ≡ none
      → book_report id (some filled) report p ≡ p
  unfolding book_report
  report_unpriced id report p h = ground (arith, h)

  report_priced :
      (id : Text) (report : ExecutionReport P T) (p : Portfolio P) {price : P}
      → pos 0 <ℤ report.filled_quantity
      → report.average_fill_price ≡ some price
      → book_report id (some filled) report p ≡ with_fill p (fill_of id report price)
  unfolding book_report
  report_priced id report p h k = ground (arith, k)

  filled-Outcome :
      (id b : Text) (report : ExecutionReport P T) (p : Portfolio P)
      → report.is_open ≡ false
      → report.order_quantity ≤ℤ report.filled_quantity
      → Outcome id b report p filled none (book_report id (some filled) report p)
  filled-Outcome id b report p o q = elim (Bool-cases (ltb_ℤ (pos 0) report.filled_quantity)) [
    | inr spent ↦ rw (report_spent id report p (ground arith)) (empty_fill o q (ground arith))
    | inl some_shares ↦ elim (Option-cases report.average_fill_price) [
      | inl free ↦ rw (report_unpriced id report p free) (unpriced o q free)
      | inr (price, priced) ↦
          let f = fill_of id report price in
          elim (Result-cases (apply_fill p f)) [
            | inl (next, taken) ↦
                rw (report_priced id report p (ground arith) priced, with_fill_taken p f taken)
                  (booked o q (ground arith) priced taken)
            | inr (x, bad) ↦
                rw (report_priced id report p (ground arith) priced, with_fill_refused p f bad)
                  (refused o q (ground arith) priced bad)
          ]
    ]
  ]

  pub report-Outcome :
      (id b : Text) (report : ExecutionReport P T) (p : Portfolio P) {t : OrderStatus}
      → Means report t
      → Outcome id b report p t
          (if is_working t then some b else none)
          (book_report id (some t) report p)
  unfolding is_working book_report
  report-Outcome id b report p (all_filled o q) = filled-Outcome id b report p o q
  report-Outcome id b report p (part_filled o q) = running o q
  report-Outcome id b report p (untouched o q) = resting o q
  report-Outcome id b report p (closed_early o q) = cut_short o q

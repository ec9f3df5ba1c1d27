-- ===== src/Backtest/Ledger.antt =====
-- The cash of a run is explained by its fills.
use loss_function.Prelude.{
  ◌⊎◌, ◌%◌, ◌^◌, ℕ, Bool, ◌≡◌, refl, sym, ap, ◌∙◌, none, some, List, [], ◌∷◌, ◌++◌, foldl, All,
  arith, true, inl, inr, Option-cases, Bool-cases, Result-cases, ◌+◌,
}
use loss_function.Prelude.Int.{pos, ltb_ℤ, ◌<ℤ◌}
use loss_function.Prelude.Text.{Text}
use loss_function.Decimal.{Decimal}
use loss_function.Risk.{Chrono}
use loss_function.Broker.{OrderRequest, ExecutionReport, Broker}
use loss_function.Types.{OrderSide, buy, sell}
use loss_function.Strategy.{OrderIntent}
use loss_function.Strategy.Entry.{All-snoc}
use loss_function.Backtest.{
  Bar, BacktestConfig, FillRecord, BacktestResult, BacktestEngine, Run, cash_after, book, record_of,
  place, preflight, build_request, trade, open_bar, seen, close_bar, turn, start, result_of, run,
  feed,
}

module _ {P : Type 0} ⦃d : Decimal P⦄ where
  -- What a trade of some value does to the cash: a purchase takes the value and the commission, a sale
  -- brings the value and takes commission and tax.
  abbrev pub paid : OrderSide → P → P → P → P → P
  paid buy value commission tax cash = d.sub (d.sub cash value) commission
  paid sell value commission tax cash = d.sub (d.sub (d.add cash value) commission) tax

  -- the tax of a trade of some value: of sales only
  abbrev pub tax_of : OrderSide → P → P → P
  tax_of buy value rate = d.zero
  tax_of sell value rate = d.mul value rate

module _ {P T : Type 0} ⦃d : Decimal P⦄ where
  -- the value of a fill
  abbrev pub value_of : FillRecord P T → P
  value_of f = d.mul (d.of_int f.quantity) f.price

  abbrev pub settled : P → List (FillRecord P T) → P
  settled cash [] = cash
  settled cash (f ∷ fs) = settled (paid f.side (value_of f) f.commission f.tax cash) fs

  -- a fill of shares, with the commission and the tax of the configured rates on its value
  abbrev pub IsPriced : BacktestConfig P → FillRecord P T → Type 0
  IsPriced config f =
      (pos 0 <ℤ f.quantity)
      × (f.commission ≡ d.mul (value_of f) config.commission_rate)
      × (f.tax ≡ tax_of f.side (value_of f) config.tax_rate)

  settled-cash_after :
      (cash : P) (f : FillRecord P T)
      → cash_after cash f ≡ paid f.side (value_of f) f.commission f.tax cash
  unfolding cash_after
  settled-cash_after cash f = ground arith

  settled-snoc :
      (cash : P) (fs : List (FillRecord P T)) (f : FillRecord P T)
      → settled cash (fs ++ f ∷ []) ≡ cash_after (settled cash fs) f
  settled-snoc cash [] f = sym (settled-cash_after cash f)
  settled-snoc cash (g ∷ gs) f =
      settled-snoc (paid g.side (value_of g) g.commission g.tax cash) gs f

  record-IsPriced :
      (config : BacktestConfig P) (bar : Bar P T) (order : OrderRequest P)
      (report : ExecutionReport P T)
      → ltb_ℤ (pos 0) report.filled_quantity ≡ true
      → IsPriced config (record_of config bar order report)
  unfolding record_of
  record-IsPriced config bar order report h = (ground arith, refl, ground arith)

module _ {P T S : Type 0} ⦃d : Decimal P⦄ where
  -- The cash is the initial cash after every recorded fill in turn, and each fill is priced.
  abbrev pub IsBalanced : BacktestConfig P → Run P T S → Type 0
  IsBalanced config r =
      (r.cash ≡ settled config.initial_cash r.fills) × All (IsPriced config) r.fills

  book-IsBalanced :
      (config : BacktestConfig P) (f : FillRecord P T) (r : Run P T S)
      → IsPriced config f
      → IsBalanced config r
      → IsBalanced config (book f r)
  unfolding book
  book-IsBalanced config f r k (h, hs) = (
    ap (λ x. cash_after x f) h ∙ sym (settled-snoc config.initial_cash r.fills f),
    All-snoc (IsPriced config) r.fills f hs k,
  )

module _ {P T Δ S : Type 0} ⦃d : Decimal P⦄ (c : Chrono T Δ) (clock : ℕ → T) (broker : Broker P T S)
    (e : BacktestEngine P T Δ S) where
  -- what placing an order does to the run: the venue moves on, and at most one fill is booked
  place-cases :
      (bar : Bar P T) (order : OrderRequest P) (r : Run P T S)
      → ((v : S) × (place c clock broker e bar order r ≡ record r { venue = v }))
        ⊎ ((v : S) × (f : FillRecord P T) × IsPriced e.config f
            × (place c clock broker e bar order r ≡ book f (record r { venue = v })))
  unfolding place
  place-cases bar order r = elim (Result-cases (broker.submit_order r.venue order).0) [
    | inr (x, refused) ↦ inl ((broker.submit_order r.venue order).1, ground (arith, refused))
    | inl (ack, accepted) ↦
        let v = (broker.submit_order r.venue order).1 in
        elim (Result-cases (broker.execution_report v ack.broker_order_id).0) [
          | inr (x, silent) ↦
              inl (
                (broker.execution_report v ack.broker_order_id).1,
                ground (arith, accepted, silent),
              )
          | inl (report, told) ↦ elim (Bool-cases (ltb_ℤ (pos 0) report.filled_quantity)) [
            | inl filled ↦ inr (
              (broker.execution_report v ack.broker_order_id).1,
              record_of e.config bar order report,
              record-IsPriced e.config bar order report filled,
              ground (arith, accepted, told, filled),
            )
            | inr resting ↦ inl (
              (broker.execution_report v ack.broker_order_id).1,
              ground (arith, accepted, told, resting),
            )
          ]
        ]
  ]

  place-IsBalanced :
      (bar : Bar P T) (order : OrderRequest P) (r : Run P T S)
      → IsBalanced e.config r
      → IsBalanced e.config (place c clock broker e bar order r)
  place-IsBalanced bar order r h = elim (place-cases bar order r) [
    | inl (v, eq) ↦ rw eq h
    | inr (v, f, priced, eq) ↦ rw eq (book-IsBalanced e.config f (record r { venue = v }) priced h)
  ]

  trade-IsBalanced :
      (bar : Bar P T) (r : Run P T S) (i : OrderIntent P)
      → IsBalanced e.config r
      → IsBalanced e.config (trade c clock broker e bar r i)
  unfolding trade
  trade-IsBalanced bar r i h =
      let seq = (r.order_seq + 1) % 2 ^ 64 in
      let order = build_request seq i in
      let r' : Run P T S = record r { order_seq = seq } in
      elim (preflight c (clock seq) e.risk order r.portfolio r.live_quotes)
        as (λ x.
          IsBalanced e.config
            (elim x [ none ↦ r' | some n ↦ place c clock broker e bar order r' ])) [
              | none ↦ h
              | some n ↦ place-IsBalanced bar order r' h
            ]

  trades-IsBalanced :
      (bar : Bar P T) (is : List (OrderIntent P)) (r : Run P T S)
      → IsBalanced e.config r
      → IsBalanced e.config (foldl (trade c clock broker e bar) r is)
  trades-IsBalanced bar [] r h = h
  trades-IsBalanced bar (i ∷ is) r h = trades-IsBalanced bar is _ (trade-IsBalanced bar r i h)

  turn-IsBalanced :
      (rfc3339 : T → Text) (r : Run P T S) (bar : Bar P T)
      → IsBalanced e.config r
      → IsBalanced e.config (turn c clock broker e rfc3339 r bar)
  unfolding turn open_bar close_bar
  turn-IsBalanced rfc3339 r bar h =
      let opened = open_bar c clock broker e bar r in
      trades-IsBalanced bar (e.strategy.decide (seen c clock broker e rfc3339 bar opened)).intents
        opened h

  turns-IsBalanced :
      (rfc3339 : T → Text) (bars : List (Bar P T)) (r : Run P T S)
      → IsBalanced e.config r
      → IsBalanced e.config (foldl (turn c clock broker e rfc3339) r bars)
  turns-IsBalanced rfc3339 [] r h = h
  turns-IsBalanced rfc3339 (b ∷ bs) r h =
      turns-IsBalanced rfc3339 bs (turn c clock broker e rfc3339 r b)
        (turn-IsBalanced rfc3339 r b h)

  start-IsBalanced :
      (venue : S) (r : Run P T S) → start c clock broker e venue ≡ some r → IsBalanced e.config r
  unfolding start
  start-IsBalanced venue r h = ground (arith, h)

  -- The cash of a finished run is the initial cash after each recorded fill in turn: a purchase
  -- takes its value and its commission, a sale brings its value less commission and tax. A fill is of
  -- one share at least; its commission is the configured part of its value, and so is the tax of a
  -- sale, while a purchase has none.
  pub run-IsBalanced :
      (before : T → T → Bool) (rfc3339 : T → Text) (bars : List (Bar P T)) (venue : S)
      {result : BacktestResult P T}
      → run c clock broker e before rfc3339 bars venue ≡ some result
      → (result.cash ≡ settled e.config.initial_cash result.fills)
        × All (IsPriced e.config) result.fills
  unfolding run result_of
  run-IsBalanced before rfc3339 bars venue {result} h =
      elim (Option-cases (start c clock broker e venue)) [
        | inl panic ↦ ground (arith, panic, h)
        | inr (r, started) ↦
            let final = foldl (turn c clock broker e rfc3339) r (feed before bars).bars in
            let eq : result_of c clock broker e final ≡ result = ground (arith, started, h) in
            rw (sym eq) (
              turns-IsBalanced rfc3339 (feed before bars).bars r (start-IsBalanced venue r started))
      ]

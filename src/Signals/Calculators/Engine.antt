-- ===== src/Signals/Calculators/Engine.antt =====
-- `SignalGenerator` as the signal generator of a backtester.
use lobsimulater.Base.{ℕ, pos, ◌≡◌, refl, ap, List, [], ◌∷◌, ◌++◌, Option, some, ◌>>=◌, All}
use lobsimulater.Types.{Timestamp}
use lobsimulater.Book.{OrderBook}
use lobsimulater.Stats.{get_spread}
use lobsimulater.Queries.{get_aggregated_book}
use lobsimulater.Types.{bid, ask}
use lobsimulater.Double.{Double}
use lobsimulater.Backtester.{Generator}
use lobsimulater.Backtester.Books.{Steady}
use lobsimulater.Signals.{Signal}
use lobsimulater.Signals.Window.{latest, trim-then}
use lobsimulater.Signals.Pressure.{BookPressure, pressure_events, update_pressure}
use lobsimulater.Signals.Spread.{SpreadWindow, update_spread}
use lobsimulater.Signals.Calculators.{
  Calculator, imbalances, microprices, pressures, flows, spreads, queues, SignalGenerator,
  update_calculator, update_all, update_generator, generate_signals,
}

-- The windows that a calculator trims have a size that is not negative.
abbrev pub HasWindows : {D : Type 0} → Calculator D → Type 0
HasWindows (pressures c) = (n : ℕ) × (c.lookback_events ≡ pos n)
HasWindows (spreads c) = (n : ℕ) × (c.ma_periods ≡ pos n)
HasWindows _ = Unit

module _ {D : Type 0} ⦃d : Double D⦄ where
  -- The interface that `Backtester` uses, for signals that are made at the time `now`.
  abbrev pub engine : Timestamp → Generator (SignalGenerator D) (Signal D)
  engine now = record {
    update = λ book g. update_generator book g;
    generate_signals = λ book g. (generate_signals book now g, g);
  }

  update_pressure-ends :
      (book : OrderBook) (c : BookPressure D) (n : ℕ)
      → c.lookback_events ≡ pos n
      → (c' : BookPressure D) × (update_pressure book c ≡ some c') × (c'.lookback_events ≡ pos n)
  unfolding update_pressure
  update_pressure-ends book c n size =
      let events =
        (c.recent_events ++ pressure_events bid (get_aggregated_book bid 1 book) book)
        ++ pressure_events ask (get_aggregated_book ask 1 book) book in
      (
        record c { recent_events = latest n events },
        trim-then n events (λ xs. some (record c { recent_events = xs })) size,
        size,
      )

  update_spread-ends :
      (book : OrderBook) (c : SpreadWindow D) (n : ℕ)
      → c.ma_periods ≡ pos n
      → (c' : SpreadWindow D) × (update_spread book c ≡ some c') × (c'.ma_periods ≡ pos n)
  unfolding update_spread
  update_spread-ends book c n size =
      let seen = c.spread_history ++ ((get_spread book).0 ∷ []) in
      (
        record c { spread_history = latest n seen },
        trim-then n seen (λ xs. some (record c { spread_history = xs })) size,
        size,
      )

  update_calculator-HasWindows :
      (book : OrderBook) (c : Calculator D)
      → HasWindows c
      → (c' : Calculator D) × (update_calculator book c ≡ some c') × HasWindows c'
  unfolding update_calculator
  update_calculator-HasWindows book (imbalances c) w = (imbalances c, refl, tt)
  update_calculator-HasWindows book (microprices c) w = (microprices c, refl, tt)
  update_calculator-HasWindows book (pressures c) (n, size) =
      let (c', done, size') = update_pressure-ends book c n size in
      (
        pressures c',
        ap (λ (m : Option (BookPressure D)). m >>= λ (x : BookPressure D). some (pressures x)) done,
        (n, size'),
      )
  update_calculator-HasWindows book (flows c) w = (flows c, refl, tt)
  update_calculator-HasWindows book (spreads c) (n, size) =
      let (c', done, size') = update_spread-ends book c n size in
      (
        spreads c',
        ap (λ (m : Option (SpreadWindow D)). m >>= λ (x : SpreadWindow D). some (spreads x)) done,
        (n, size'),
      )
  update_calculator-HasWindows book (queues c) w = (queues c, refl, tt)

  update_all-HasWindows :
      (book : OrderBook) (cs : List (Calculator D))
      → All HasWindows cs
      → (cs' : List (Calculator D)) × (update_all book cs ≡ some cs') × All HasWindows cs'
  unfolding update_all
  update_all-HasWindows book [] w = ([], refl, tt)
  update_all-HasWindows book (c ∷ cs) (w, ws) =
      let (c', one, w') = update_calculator-HasWindows book c w in
      let (cs', rest, ws') = update_all-HasWindows book cs ws in
      (c' ∷ cs', rw (one, rest) refl, (w', ws'))

  -- Where no window of its calculators has a negative size, an update of a signal generator, as the
  -- backtester calls it, ends, and no window has a negative size after it.
  pub engine-HasWindows :
      (now : Timestamp) (book : OrderBook) (g : SignalGenerator D)
      → All HasWindows g.calculators
      → let update = Generator.update (engine now) in
        (g' : SignalGenerator D) × (update book g ≡ some g') × All HasWindows g'.calculators
  unfolding update_generator
  engine-HasWindows now book g w =
      let (cs', done, w') = update_all-HasWindows book g.calculators w in
      (record g { calculators = cs' }, rw done refl, w')

  pub engine-Steady : (now : Timestamp) → Steady (engine now) (λ g. All HasWindows g.calculators)
  engine-Steady now = record { ends = engine-HasWindows now; keeps = λ book g w. w }

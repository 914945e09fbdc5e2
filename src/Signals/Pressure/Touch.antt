-- ===== src/Signals/Pressure/Touch.antt =====
-- The events of the book pressure, each about an order at the touch.
use lobsimulater.Base.{
  ℕ, zero, suc, ◌≡◌, sym, ◌∙◌, ap, subst, ℤ, pos, negsuc, ◌-ℤ◌, ltb_ℤ, int_laws, List, [], ◌∷◌,
  ◌++◌, map, take, some, if◌then◌else◌, arith, All, All-append, Bool-cases, inl, inr,
}
use lobsimulater.Types.{Side, bid, ask, Price}
use lobsimulater.Levels.{Levels}
use lobsimulater.Book.{OrderBook, levels_of}
use lobsimulater.Book.Invariant.{Inv}
use lobsimulater.Queries.{get_best_bid, get_best_ask, get_aggregated_book, first_price}
use lobsimulater.Queries.Cache.{CacheInv, get_best-first_price}
use lobsimulater.Queries.Depth.{aggregated, get_aggregated_book-take}
use lobsimulater.Double.{Double}
use lobsimulater.Signals.Window.{latest, drop, trim-then}
use lobsimulater.Signals.Pressure.{
  PressureEvent, BookPressure, max_ℤ, quoted_spread, touch_spread, calculate_aggression,
  pressure_events, update_pressure,
}

All-drop : {A : Type 0} (P : A → Type 0) (k : ℕ) (xs : List A) → All P xs → All P (drop k xs)
All-drop P zero xs h = h
All-drop P (suc k) [] h = tt
All-drop P (suc k) (x ∷ xs) (p, ps) = All-drop P k xs ps

max_one : (s : ℤ) → (n : ℕ) × (max_ℤ (pos 1) s ≡ pos (suc n))
max_one (pos zero) = (0, ground arith)
max_one (pos (suc n)) = elim (Bool-cases (ltb_ℤ (pos 1) (pos (suc n)))) [
  | inl more ↦ (n, ap (λ c. if c then pos (suc n) else pos 1) more)
  | inr less ↦ (0, ap (λ c. if c then pos (suc n) else pos 1) less)
]
max_one (negsuc n) = (0, ground arith)

self_distance : (p q : ℤ) → p ≡ q → p -ℤ q ≡ pos 0
self_distance p q e = subst (λ r. p -ℤ r ≡ pos 0) e (omega int_laws)

-- The best price of a side, as `calculateAggression` asks for it.
abbrev touch : Side → OrderBook → Price
touch bid b = (get_best_bid b).0
touch ask b = (get_best_ask b).0

touch-first_price :
    (s : Side) (b : OrderBook) → CacheInv b → touch s b ≡ first_price (levels_of s b)
unfolding levels_of
touch-first_price bid b v = (get_best-first_price b v).0
touch-first_price ask b v = (get_best-first_price b v).1

touch_spread-positive : (b : OrderBook) → (n : ℕ) × (touch_spread b ≡ pos (suc n))
touch_spread-positive b = max_one (quoted_spread b)

module _ {D : Type 0} ⦃d : Double D⦄ where
  open d use {of_ℤ, div}

  -- An event whose score is 0 over a positive spread.
  abbrev pub IsStill : PressureEvent D → Type 0
  IsStill e = (n : ℕ) × (e.aggression_score ≡ div (of_ℤ (pos 0)) (of_ℤ (pos (suc n))))

  calculate_aggression-touch :
      (s : Side) (p : Price) (b : OrderBook)
      → p ≡ touch s b
      → (n : ℕ) × (calculate_aggression {D = D} s p b ≡ div (of_ℤ (pos 0)) (of_ℤ (pos (suc n))))
  unfolding calculate_aggression
  calculate_aggression-touch bid p b e =
      let (n, one) = touch_spread-positive b in
      (
        n,
        ap (λ (x : ℤ). div (of_ℤ x) (of_ℤ (touch_spread b))) (self_distance p _ e)
            ∙ ap (λ (x : ℤ). div (of_ℤ (pos 0)) (of_ℤ x)) one,
      )
  calculate_aggression-touch ask p b e =
      let (n, one) = touch_spread-positive b in
      (
        n,
        ap (λ (x : ℤ). div (of_ℤ x) (of_ℤ (touch_spread b))) (self_distance _ p (sym e))
            ∙ ap (λ (x : ℤ). div (of_ℤ (pos 0)) (of_ℤ x)) one,
      )

module _ (D : Type 0) ⦃d : Double D⦄ where
  events-IsStill :
      (s : Side) (b : OrderBook) (m : Levels)
      → first_price m ≡ touch s b
      → All IsStill (pressure_events {D = D} s (take 1 (map aggregated m)) b)
  events-IsStill s b [] e = tt
  events-IsStill s b ((p, l) ∷ m) e = (calculate_aggression-touch s p b e, tt)

  pressure_events-IsStill :
      (s : Side) (b : OrderBook)
      → Inv b
      → CacheInv b
      → All IsStill (pressure_events {D = D} s (get_aggregated_book s 1 b) b)
  pressure_events-IsStill s b v w =
      subst (λ xs. All IsStill (pressure_events {D = D} s xs b))
        (sym (get_aggregated_book-take s 1 b v))
        (events-IsStill s b (levels_of s b) (sym (touch-first_price s b w)))

module _ {D : Type 0} ⦃d : Double D⦄ where
  -- On a book that satisfies the invariant and whose valid caches are true, and with a lookback that is
  -- not negative, `BookPressureSignal::update` ends, and if all scores before it were 0 over a positive
  -- spread, so are all scores after it.
  pub update_pressure-IsStill :
      (b : OrderBook) (c : BookPressure D) (n : ℕ)
      → Inv b
      → CacheInv b
      → c.lookback_events ≡ pos n
      → All IsStill c.recent_events
      → (c' : BookPressure D) × (update_pressure b c ≡ some c') × All IsStill c'.recent_events
  unfolding update_pressure
  update_pressure-IsStill b c n v w size still =
      let bids = pressure_events bid (get_aggregated_book bid 1 b) b in
      let asks = pressure_events ask (get_aggregated_book ask 1 b) b in
      let events = (c.recent_events ++ bids) ++ asks in
      (
        record c { recent_events = latest n events },
        trim-then n events (λ xs. some (record c { recent_events = xs })) size,
        All-drop IsStill _ events (
            All-append IsStill (c.recent_events ++ bids) asks
              (All-append IsStill c.recent_events bids still (pressure_events-IsStill D bid b v w))
              (pressure_events-IsStill D ask b v w)),
      )

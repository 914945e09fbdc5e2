-- ===== src/Stats/Values.antt =====
-- What the statistics of a sound book are.
use lobsimulater.Base.{
  ℕ, ◌+◌, ◌-◌, ◌%◌, ◌^◌, ◌<◌, ◌≡◌, refl, ◌∙◌, ap, if◌then◌else◌, leb, ◌||◌, ◌==◌, pos, ◌+ℤ◌, ◌-ℤ◌,
  take, arith, Bool-cases, inl, inr,
}
use lobsimulater.Types.{bid, ask, Price, same_price, add32, sub32}
use lobsimulater.Levels.{Levels, side_volume}
use lobsimulater.Book.{OrderBook}
use lobsimulater.Book.Invariant.{Inv}
use lobsimulater.Queries.{depth_from, first_price, update_cache, get_best_bid}
use lobsimulater.Queries.Cache.{
  CacheInv, get_best-first_price, refresh_cache-valid, refresh_cache-invalid,
}
use lobsimulater.Queries.Depth.{depth_from_zero, total_depth-side_volume}
use lobsimulater.Double.{Double, of_ℕ, nought}
use lobsimulater.Stats.{get_spread, get_mid_price, get_order_imbalance, get_stats}

get_best_bid-levels :
    (b : OrderBook)
    → ◌≡◌ {A = Levels × Levels}
        ((get_best_bid b).1.bid_levels, (get_best_bid b).1.ask_levels)
        (b.bid_levels, b.ask_levels)
unfolding get_best_bid update_cache
get_best_bid-levels b = elim (Bool-cases b.cache_valid) [
  | inl on ↦ rw (refresh_cache-valid b on) refl
  | inr off ↦ rw (refresh_cache-invalid b off) refl
]

pub get_spread-book :
    (D : Type 0) ⦃d : Double D⦄ (b : OrderBook) → (get_spread {D = D} b).1 ≡ (get_best_bid b).1
unfolding get_spread get_best_bid
get_spread-book D b = ground arith

-- Asking for the mid price leaves the same book as asking for the best prices.
pub get_mid_price-book :
    (D : Type 0) ⦃d : Double D⦄ (b : OrderBook) → (get_mid_price {D = D} b).1 ≡ (get_best_bid b).1
unfolding get_mid_price get_best_bid
get_mid_price-book D b = ground arith

module _ {D : Type 0} ⦃d : Double D⦄ where
  open d use {literal, of_ℤ, div}

  -- The spread and the mid price of two best prices, of which 0 means that there is none.
  abbrev pub spread_of : Price → Price → D
  spread_of p q =
      if same_price p (pos 0) || same_price q (pos 0)
      then nought
      else div (of_ℤ (q -ℤ p)) (literal 100 0)

  abbrev pub mid_of : Price → Price → D
  mid_of p q =
      if same_price p (pos 0) || same_price q (pos 0)
      then nought
      else div (of_ℤ (p +ℤ q)) (literal 200 0)

  -- Where valid caches are true, spread and mid price are those of the best prices of the two maps,
  -- whether or not the caches were valid.
  pub get_spread-spread_of :
      (b : OrderBook)
      → CacheInv b
      → ((get_spread b).0 ≡ spread_of (first_price b.bid_levels) (first_price b.ask_levels))
        × ((get_mid_price b).0 ≡ mid_of (first_price b.bid_levels) (first_price b.ask_levels))
  unfolding get_spread get_mid_price update_cache
  get_spread-spread_of b v = elim (Bool-cases b.cache_valid) [
    | inl on ↦ rw (refresh_cache-valid b on, ← v.best_bid on, ← v.best_ask on) (ground arith)
    | inr off ↦ rw (refresh_cache-invalid b off) (ground arith)
  ]

  wrapped :
      (m n : ℕ)
      → m + n < 2 ^ 32
      → (if add32 m n == 0 then nought else div (of_ℕ (sub32 m n)) (of_ℕ (add32 m n))) ≡ (
          if m + n == 0
          then nought
          else div (of_ℕ (if leb n m then m - n else 2 ^ 32 - (n - m))) (of_ℕ (m + n)))
  wrapped m n small =
      let sum : add32 m n ≡ m + n = omega arith in
      let difference : sub32 m n ≡ (if leb n m then m - n else 2 ^ 32 - (n - m)) = ground arith in
      rw (sum, difference)

  -- On a book that satisfies the invariant, and where the best levels of both sides hold less than
  -- 2 ^ 32 together, the imbalance over them is 0 if they hold nothing; with as much or more on the bid
  -- side it is the quotient of difference and sum; with more on the ask side the difference has wrapped,
  -- to 2 ^ 32 less the excess.
  pub get_order_imbalance_lem :
      (levels : ℕ) (b : OrderBook)
      → Inv b
      → side_volume (take levels b.bid_levels) + side_volume (take levels b.ask_levels) < 2 ^ 32
      → let bids = side_volume (take levels b.bid_levels) in
        let asks = side_volume (take levels b.ask_levels) in
        get_order_imbalance {D = D} levels b ≡ (
          if bids + asks == 0
          then nought
          else div
              (of_ℕ (if leb asks bids then bids - asks else 2 ^ 32 - (asks - bids)))
              (of_ℕ (bids + asks)))
  unfolding get_order_imbalance
  get_order_imbalance_lem levels b v small =
      let bids : depth_from 0 0 levels b.bid_levels ≡ side_volume (take levels b.bid_levels) =
        depth_from_zero bid levels b.bid_levels (v.bids).levels ∙ omega arith in
      let asks : depth_from 0 0 levels b.ask_levels ≡ side_volume (take levels b.ask_levels) =
        depth_from_zero ask levels b.ask_levels (v.asks).levels ∙ omega arith in
      rw (bids, asks)
        (wrapped (side_volume (take levels b.bid_levels)) (side_volume (take levels b.ask_levels))
          small)

  -- On a book that satisfies the invariant and whose valid caches are true, the volumes of the statistics
  -- are what rests on the two sides, modulo 2 ^ 32, and their spread and mid price are those of their
  -- best prices.
  pub get_stats_lem :
      (b : OrderBook)
      → Inv b
      → CacheInv b
      → let stats = (get_stats {D = D} b).0 in
        (stats.bid_volume ≡ side_volume b.bid_levels % 2 ^ 32)
        × (stats.ask_volume ≡ side_volume b.ask_levels % 2 ^ 32)
        × (stats.spread ≡ spread_of stats.best_bid stats.best_ask)
        × (stats.mid_price ≡ mid_of stats.best_bid stats.best_ask)
  unfolding get_stats
  get_stats_lem b v c = (
    total_depth-side_volume bid 0 b.bid_levels (omega arith) (v.bids).levels ∙ omega arith,
    total_depth-side_volume ask 0 b.ask_levels (omega arith) (v.asks).levels ∙ omega arith,
    (get_spread-spread_of b c).0,
    rw (get_spread-book D b) (
        (get_spread-spread_of (get_best_bid b).1 (get_best-first_price b c).3).1
        ∙ ap (λ m. mid_of (first_price m.0) (first_price m.1)) (get_best_bid-levels b)),
  )

-- ===== src/Queries/Depth.antt =====
-- The aggregated (L2) view of the book, beside its orders (L3).
use lobsimulater.Base.{
  ℕ, suc, ◌+◌, ◌-◌, ◌%◌, ◌^◌, ◌<◌, ◌≡◌, refl, sym, ◌∙◌, ap, [], ◌∷◌, map, take, take-nil, All, ltb,
  arith, Bool-cases, Option-cases, inl, inr,
}
use lobsimulater.Types.{Side, Price, Quantity, add32}
use lobsimulater.Level.{PriceLevel, volume}
use lobsimulater.Level.Quantities.{LevelInv}
use lobsimulater.Levels.{Levels, find_level, side_volume}
use lobsimulater.Levels.Order.{queue_at-find_level, queue_at-find_none}
use lobsimulater.Book.{OrderBook, levels_of}
use lobsimulater.Book.Invariant.{Inv, side-Inv, queue_of}
use lobsimulater.Queries.{
  aggregate_from, get_aggregated_book, get_orders_at_level, depth_from, total_depth,
}

-- A level as its price with the quantity that rests there.
abbrev pub aggregated : Price × PriceLevel → Price × Quantity
aggregated e = (e.0, volume (e.1).queue % 2 ^ 32)

aggregate_from-take :
    (s : Side) (count levels : ℕ) (m : Levels)
    → All (λ e. LevelInv s e.0 e.1) m
    → aggregate_from count levels m ≡ take (levels - count) (map aggregated m)
unfolding aggregate_from
aggregate_from-take s count levels [] v = sym (take-nil (levels - count))
aggregate_from-take s count levels ((p, l) ∷ m) (v, vs) =
    elim (Bool-cases (ltb levels (count + 1))) [
      | inl out ↦ let none_left : levels - count ≡ 0 = ground arith in rw (out, none_left) refl
      | inr more ↦
          let some_left : levels - count ≡ suc (levels - (count + 1)) = ground arith in
          rw (more, some_left, aggregate_from-take s (count + 1) levels m vs, v.total) refl
    ]

-- On a book that satisfies the invariant, `getAggregatedBook` lists the best levels of a side, as many
-- as asked for, best first, each with the quantity of all the orders that rest there, modulo 2 ^ 32.
pub get_aggregated_book-take :
    (s : Side) (levels : ℕ) (b : OrderBook)
    → Inv b
    → get_aggregated_book s levels b ≡ take levels (map aggregated (levels_of s b))
unfolding get_aggregated_book
get_aggregated_book-take s levels b v =
    aggregate_from-take s 0 levels (levels_of s b) (side-Inv s v).levels
    ∙ ap (λ n. take n (map aggregated (levels_of s b))) (omega arith)

-- `getOrdersAtLevel` copies the queue at the price, and is empty where there is no level.
pub get_orders_at_level-queue_of :
    (p : Price) (s : Side) (b : OrderBook) → get_orders_at_level p s b ≡ queue_of s p b
unfolding get_orders_at_level
get_orders_at_level-queue_of p s b = elim (Option-cases (find_level p (levels_of s b))) [
  | inl missing ↦
      rw (missing, get_orders_at_level) (sym (queue_at-find_none p (levels_of s b) missing))
  | inr (l, found) ↦
      rw (found, get_orders_at_level) (sym (queue_at-find_level p (levels_of s b) l found))
]

pub depth_from-take :
    (s : Side) (v count levels : ℕ) (m : Levels)
    → v < 2 ^ 32
    → All (λ e. LevelInv s e.0 e.1) m
    → depth_from v count levels m ≡ (v + side_volume (take (levels - count) m)) % 2 ^ 32
unfolding depth_from
depth_from-take s v count levels [] small w =
    rw (take-nil {A = Price × PriceLevel} (levels - count)) (omega arith)
depth_from-take s v count levels ((p, l) ∷ m) small (w, ws) =
    elim (Bool-cases (ltb levels (count + 1))) [
      | inl out ↦
          let none_left : levels - count ≡ 0 = ground arith in rw (out, none_left) (omega arith)
      | inr more ↦
          let some_left : levels - count ≡ suc (levels - (count + 1)) = ground arith in
          rw (more, some_left)
            (omega (
              arith,
              depth_from-take s (add32 v l.total_quantity) (count + 1) levels m (omega arith) ws,
              w.total,
            ))
    ]

pub depth_from_zero :
    (s : Side) (levels : ℕ) (m : Levels)
    → All (λ e. LevelInv s e.0 e.1) m
    → depth_from 0 0 levels m ≡ side_volume (take levels m) % 2 ^ 32
depth_from_zero s levels m w =
    depth_from-take s 0 0 levels m (omega arith) w
    ∙ ap (λ n. (0 + side_volume (take n m)) % 2 ^ 32) all_levels
    ∙ omega arith
  where
    all_levels : levels - 0 ≡ levels
    all_levels = omega arith

pub total_depth-side_volume :
    (s : Side) (v : ℕ) (m : Levels)
    → v < 2 ^ 32
    → All (λ e. LevelInv s e.0 e.1) m
    → total_depth v m ≡ (v + side_volume m) % 2 ^ 32
unfolding total_depth
total_depth-side_volume s v [] small w = omega arith
total_depth-side_volume s v ((p, l) ∷ m) small (w, ws) =
    omega (arith, total_depth-side_volume s (add32 v l.total_quantity) m (omega arith) ws, w.total)

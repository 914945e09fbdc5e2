-- ===== src/Examples.antt =====
-- Small books and numbers for the tests: two asks at one price, and a bid that crosses them.
pub mod Books
pub mod Trading
pub mod Csv
pub mod Linked
pub mod Loops
pub mod Signals
pub mod Reports
use lobsimulater.Base.{
  take, ◌+◌, ◌<◌, ◌≡◌, refl, Option, some, none, true, lookup, insert, erase, ℕ, ℤ, pos, negsuc,
  zero, suc, leb, eqb_ℤ, pos_part, ◌*◌, ◌/◌, ◌^◌, ◌+ℤ◌, ◌-ℤ◌, negate, ltb_ℤ, if◌then◌else◌, arith,
  abs_ℕ, Bool, not,
}
use lobsimulater.Types.{same_price, before, Order, new_order, bid, ask}
use lobsimulater.Level
use lobsimulater.Level.{new_level, find_order, unlink, replace_order}
use lobsimulater.Levels.{side_volume, LevelRef, find_level, put_level}
use lobsimulater.Book.{
  OrderBook, new_book, add_order, enter_order, get_or_create_level, store_level, with_levels,
  levels_of, modify_order, cancel_order, deref, requeue, settle_level, remove_empty_level,
}
use lobsimulater.Book.Invariant.{Inv, new_book-Inv}
use lobsimulater.Book.Add.{add_order-Inv}
use lobsimulater.Crossing.{crosses}
use lobsimulater.Queries.Cache.{CacheInv, add_order-CacheInv, new_book-CacheInv}
use lobsimulater.History.{Sound}
use lobsimulater.Double.{Double}

abbrev pub first_ask : Order
first_ask = new_order 1 (pos 10100) 7 ask 1

abbrev pub second_ask : Order
second_ask = new_order 2 (pos 10100) 5 ask 2

abbrev pub high_bid : Order
high_bid = new_order 3 (pos 10200) 10 bid 3

abbrev pub two_asks : OrderBook
two_asks = (add_order second_ask 0 (add_order first_ask 0 (new_book "ACME")).0).0

abbrev pub crossed : OrderBook
crossed = (add_order high_bid 0 two_asks).0

pub two_asks-Inv : Inv two_asks
two_asks-Inv =
    add_order-Inv second_ask 0 (add_order first_ask 0 (new_book "ACME")).0
      (add_order-Inv first_ask 0 (new_book "ACME") (new_book-Inv "ACME") (omega arith))
      (omega arith)

pub crossed-Inv : Inv crossed
crossed-Inv = add_order-Inv high_bid 0 two_asks two_asks-Inv (omega arith)

pub two_asks-CacheInv : CacheInv two_asks
two_asks-CacheInv =
    add_order-CacheInv second_ask 0 (add_order first_ask 0 (new_book "ACME")).0
      (add_order-CacheInv first_ask 0 (new_book "ACME") (new_book-CacheInv "ACME"))

pub crossed-CacheInv : CacheInv crossed
crossed-CacheInv = add_order-CacheInv high_bid 0 two_asks two_asks-CacheInv

pub two_asks-Sound : Sound two_asks
two_asks-Sound = record { book = two_asks-Inv; caches = two_asks-CacheInv }

abbrev xor : Bool → Bool → Bool
xor a b = if a then not b else b

-- A sign with a size.
abbrev signed : Bool → ℕ → ℤ
signed negative n = if negative then negate (pos n) else pos n

-- The largest number up to n whose square is not above m.
abbrev root_below : ℕ → ℕ → ℕ
root_below m zero = 0
root_below m (suc n) = let less = root_below m n in if leb (suc n * suc n) m then suc n else less

-- An instance to compute with: whole numbers, rounded towards zero.
instance abbrev pub whole : Double ℤ
whole = record {
  literal = λ n k. pos (n / 10 ^ k);
  of_ℤ = λ n. n;
  to_ℤ = λ x. x;
  add = λ x y. x +ℤ y;
  sub = λ x y. x -ℤ y;
  mul = λ x y. signed (xor (ltb_ℤ x (pos 0)) (ltb_ℤ y (pos 0))) (abs_ℕ x * abs_ℕ y);
  div = λ x y. signed (xor (ltb_ℤ x (pos 0)) (ltb_ℤ y (pos 0))) (abs_ℕ x / abs_ℕ y);
  neg = negate;
  lt = ltb_ℤ;
  eq = eqb_ℤ;
  sqrt = λ x. pos (root_below (pos_part x) (pos_part x));
  pow = λ x y. pos (pos_part x ^ pos_part y);
  exp = λ x. pos (2718 ^ pos_part x / 1000 ^ pos_part x);
}

-- Runs of the small books.
abbrev pub at_best : LevelRef
at_best = record { side = ask; price = pos 10100 }

abbrev reached : Option (OrderBook × Bool) → OrderBook
reached none = new_book ""
reached (some (b, ok)) = b

abbrev pub raised : OrderBook
raised = reached (modify_order 1 9 0 two_asks)

abbrev pub without_first : OrderBook
without_first = reached (cancel_order 1 0 two_asks)

pub high_bid_fresh : lookup 3 two_asks.orders ≡ none
unfolding add_order enter_order new_book get_or_create_level store_level with_levels levels_of
    find_level put_level lookup insert same_price before Level.add_order
high_bid_fresh = refl

pub first_ask_known : lookup 1 two_asks.orders ≡ some at_best
unfolding add_order enter_order new_book get_or_create_level store_level with_levels levels_of
    find_level put_level lookup insert same_price before Level.add_order
first_ask_known = refl

pub second_ask_known : lookup 2 two_asks.orders ≡ some at_best
unfolding add_order enter_order new_book get_or_create_level store_level with_levels levels_of
    find_level put_level lookup insert same_price before Level.add_order
second_ask_known = refl

pub first_ask_raised : modify_order 1 9 0 two_asks ≡ some (raised, true)
unfolding add_order enter_order new_book get_or_create_level store_level with_levels levels_of
    find_level put_level lookup insert same_price before Level.add_order modify_order deref
    find_order requeue unlink replace_order Level.remove_order Level.modify_order
first_ask_raised = refl

pub first_ask_canceled : cancel_order 1 0 two_asks ≡ some (without_first, true)
unfolding add_order enter_order new_book get_or_create_level store_level with_levels levels_of
    find_level put_level lookup insert same_price before Level.add_order cancel_order deref
    find_order settle_level remove_empty_level unlink erase Level.remove_order
first_ask_canceled = refl

pub two_asks_depth :
    side_volume (take 5 two_asks.bid_levels) + side_volume (take 5 two_asks.ask_levels) < 2 ^ 32
unfolding add_order enter_order new_book get_or_create_level store_level with_levels levels_of
    find_level put_level lookup insert same_price before Level.add_order
two_asks_depth = omega arith

pub crossed-crosses : crosses crossed.bid_levels crossed.ask_levels ≡ true
unfolding add_order enter_order new_book get_or_create_level store_level with_levels levels_of
    find_level put_level lookup insert same_price before Level.add_order
crossed-crosses = refl

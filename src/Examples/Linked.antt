-- ===== src/Examples/Linked.antt =====
-- A book on a heap: two asks at one price, and a bid that crosses them.
use lobsimulater.Base.{
  ◌>>=◌, ◌≡◌, refl, sym, ap, subst, Option, none, some, Bool, false, arith, ◌==◌, lookup, insert,
}
use lobsimulater.Types.{bid, Order, same_price, before}
use lobsimulater.Book
use lobsimulater.Book.{OrderBook, new_book}
use lobsimulater.Book.Invariant.{Inv, new_book-Inv}
use lobsimulater.Book.Add.{add_order-Inv}
use lobsimulater.Market.{process_market_order}
use lobsimulater.Crossing.{match_orders}
use lobsimulater.Heap
use lobsimulater.Heap.{Ptr, null, write, load, link_back}
use lobsimulater.HeapBook
use lobsimulater.HeapBook.{
  LinkedBook, add_order, modify_order, cancel_order, get_or_create_level, in_level, write_level,
  load_level, find_at, put_at,
}
use lobsimulater.HeapBook.Refines.{IsBook}
use lobsimulater.HeapBook.Start.{new_book-IsBook}
use lobsimulater.HeapBook.Add.{add_order-IsBook}
use lobsimulater.HeapBook.Change.{modify_order-IsBook}
use lobsimulater.HeapBook.Cancel.Settle.{LevelsFreed}
use lobsimulater.HeapBook.Cancel.{cancel_order-IsBook}
use lobsimulater.HeapMatch.{ProcessMarketOrder, MatchOrders}
use lobsimulater.HeapMatch.Market.{process_market_order-IsBook}
use lobsimulater.HeapMatch.Matching.{match_orders-IsBook}
use lobsimulater.Examples.{
  first_ask, second_ask, high_bid, two_asks, two_asks-Inv, crossed, crossed-Inv,
}

-- The book that `addOrder` leaves.
abbrev left_by : Option (LinkedBook × Bool) → LinkedBook → LinkedBook
left_by none hb = hb
left_by (some r) hb = r.0

abbrev no_orders : LinkedBook
no_orders = HeapBook.new_book "ACME"

-- The asks at 10 and 20, their level at 1, the bid at 30, and its level at 2.
abbrev one_ask : LinkedBook
one_ask = left_by (add_order 10 1 first_ask 0 no_orders) no_orders

abbrev linked_asks : LinkedBook
linked_asks = left_by (add_order 20 2 second_ask 0 one_ask) no_orders

abbrev linked_crossed : LinkedBook
linked_crossed = left_by (add_order 30 2 high_bid 0 linked_asks) no_orders

added-IsBook :
    (x t : Ptr) (o : Order) (hb : LinkedBook) (b : OrderBook)
    → Inv b
    → IsBook hb b
    → (x == null) ≡ false
    → hb.cells x ≡ none
    → (t == null) ≡ false
    → hb.levels t ≡ none
    → IsBook (left_by (add_order x t o 0 hb) no_orders) (Book.add_order o 0 b).0
added-IsBook x t o hb b v same x_ok x_free t_ok t_free =
    let (hb', done, same') = add_order-IsBook x t o 0 hb b v same x_ok x_free t_ok t_free in
    subst (λ z. IsBook z (Book.add_order o 0 b).0) (sym (ap (λ r. left_by r no_orders) done)) same'

-- What is free on these heaps.
order_20 : one_ask.cells 20 ≡ none
unfolding add_order get_or_create_level in_level write_level load_level find_at put_at write load
    Heap.add_order link_back lookup insert same_price before
order_20 = refl

level_2 : one_ask.levels 2 ≡ none
unfolding add_order get_or_create_level in_level write_level load_level find_at put_at write load
    Heap.add_order link_back lookup insert same_price before
level_2 = refl

order_30 : linked_asks.cells 30 ≡ none
unfolding add_order get_or_create_level in_level write_level load_level find_at put_at write load
    Heap.add_order link_back lookup insert same_price before
order_30 = refl

second_level_2 : linked_asks.levels 2 ≡ none
unfolding add_order get_or_create_level in_level write_level load_level find_at put_at write load
    Heap.add_order link_back lookup insert same_price before
second_level_2 = refl

one_ask-IsBook : IsBook one_ask (Book.add_order first_ask 0 (new_book "ACME")).0
one_ask-IsBook =
    added-IsBook 10 1 first_ask no_orders (new_book "ACME") (new_book-Inv "ACME")
      (new_book-IsBook "ACME") refl refl refl refl

linked_asks-IsBook : IsBook linked_asks two_asks
linked_asks-IsBook =
    added-IsBook 20 2 second_ask one_ask (Book.add_order first_ask 0 (new_book "ACME")).0
      (add_order-Inv first_ask 0 (new_book "ACME") (new_book-Inv "ACME") (omega arith))
      one_ask-IsBook refl order_20 refl level_2

linked_crossed-IsBook : IsBook linked_crossed crossed
linked_crossed-IsBook =
    added-IsBook 30 2 high_bid linked_asks two_asks two_asks-Inv linked_asks-IsBook refl order_30
      refl second_level_2

add_order-IsBook_example :
    (hb' : LinkedBook) × (add_order 30 2 high_bid 0 linked_asks
      ≡ some (hb', (Book.add_order high_bid 0 two_asks).1))
    × IsBook hb' (Book.add_order high_bid 0 two_asks).0
add_order-IsBook_example =
    add_order-IsBook 30 2 high_bid 0 linked_asks two_asks two_asks-Inv linked_asks-IsBook refl
      order_30 refl second_level_2

modify_order-IsBook_example :
    (hb' : LinkedBook) × (b' : OrderBook) × (ok : Bool) × (modify_order 1 9 0 linked_asks
      ≡ some (hb', ok))
    × (Book.modify_order 1 9 0 two_asks ≡ some (b', ok))
    × IsBook hb' b'
modify_order-IsBook_example =
    modify_order-IsBook 1 9 0 linked_asks two_asks two_asks-Inv linked_asks-IsBook

cancel_order-IsBook_example :
    (hb' : LinkedBook) × (b' : OrderBook) × (ok : Bool) × (cancel_order 3 0 linked_crossed
      ≡ some (hb', ok))
    × (Book.cancel_order 3 0 crossed ≡ some (b', ok))
    × IsBook hb' b'
    × ((lookup 3 linked_crossed.orders >>= λ p. hb'.cells p) ≡ none)
    × LevelsFreed linked_crossed hb'
cancel_order-IsBook_example =
    cancel_order-IsBook 3 0 linked_crossed crossed crossed-Inv linked_crossed-IsBook

process_market_order-IsBook_example :
    (hb' : LinkedBook) × ProcessMarketOrder bid 9 4 linked_asks hb'
      (process_market_order bid 9 4 two_asks).1
    × IsBook hb' (process_market_order bid 9 4 two_asks).0
process_market_order-IsBook_example =
    process_market_order-IsBook bid 9 4 linked_asks two_asks two_asks-Inv (omega arith)
      linked_asks-IsBook

match_orders-IsBook_example :
    (hb' : LinkedBook) × MatchOrders linked_crossed hb' (match_orders crossed).1
    × IsBook hb' (match_orders crossed).0
match_orders-IsBook_example =
    match_orders-IsBook linked_crossed crossed crossed-Inv linked_crossed-IsBook

-- ===== src/HeapMatch/Trade.antt =====
-- One round of the inner loop of `matchOrders` on a heap beside that of `Crossing`.
use lobsimulater.Base.{◌≡◌, refl, sym, ◌∙◌, ap, subst, List, [], ◌∷◌, ◌++◌, some, min}
use lobsimulater.Types.{bid, ask, Order, Price, Quantity}
use lobsimulater.Level.{PriceLevel}
use lobsimulater.Levels.{Levels}
use lobsimulater.Levels.Index.{Orders}
use lobsimulater.Book.{OrderBook, Metrics, with_levels}
use lobsimulater.Fill
use lobsimulater.Fill.{count_fill}
use lobsimulater.Crossing
use lobsimulater.Crossing.{match_execution}
use lobsimulater.Crossing.Invariant.{CrossingInv, bids_here, asks_here, asks_next}
use lobsimulater.Heap.{Ptr, null, Cell, cell, Heap, LevelCell, load}
use lobsimulater.Heap.Steps.{bind_some}
use lobsimulater.HeapBook.{LinkedBook, LevelMap, LevelHeap, map_of, load_level}
use lobsimulater.HeapBook.Refines.{IsBook}
use lobsimulater.HeapMatch.{
  Crossing, fill_cell, fill_level, drop_filled, match_fill, match_at, match_front,
}
use lobsimulater.HeapMatch.Front.{filled_level}
use lobsimulater.HeapMatch.Placed.{placed}
use lobsimulater.HeapMatch.Taken.{Taken, Along, take_placed, drop_placed}

-- The book in the middle of the loops.
abbrev pub crossed : Levels → Levels → Orders → Metrics → OrderBook → OrderBook
crossed m n orders metrics b = record b {
  bid_levels = m;
  ask_levels = n;
  orders = orders;
  metrics = metrics;
}

pub crossed-bid :
    (m n : Levels) (orders : Orders) (metrics : Metrics) (b : OrderBook)
    → placed bid m orders metrics (record b { ask_levels = n }) ≡ crossed m n orders metrics b
unfolding with_levels
crossed-bid m n orders metrics b = refl

pub crossed-ask :
    (m n : Levels) (orders : Orders) (metrics : Metrics) (b : OrderBook)
    → placed ask n orders metrics (record b { bid_levels = m }) ≡ crossed m n orders metrics b
unfolding with_levels
crossed-ask m n orders metrics b = refl

-- One round, from what it reads and writes.
run_match :
    (hb : LinkedBook) (es : List _) (t u : Ptr) (l k : LevelCell) (b a : Cell) (h1 h2 : Heap)
    (ls1 ls2 : LevelHeap) (hb1 hb2 : LinkedBook)
    → let fill = min b.order.remaining_quantity a.order.remaining_quantity in
      load_level t hb.levels ≡ some l
      → load_level u hb.levels ≡ some k
      → load l.head hb.cells ≡ some b
      → load k.head hb.cells ≡ some a
      → fill_cell l.head fill hb.cells ≡ some h1
      → fill_cell k.head fill h1 ≡ some h2
      → fill_level t fill hb.levels ≡ some ls1
      → fill_level u fill ls1 ≡ some ls2
      → drop_filled t l.head
          (record hb { cells = h2; levels = ls2; metrics = count_fill fill hb.metrics })
        ≡ some hb1
      → drop_filled u k.head hb1 ≡ some hb2
      → match_fill t u (record { book = hb; executions = es })
        ≡ some
            (record { book = hb2; executions = es ++ (match_execution b.order a.order fill ∷ []) })
unfolding match_fill
run_match hb es t u l k b a h1 h2 ls1 ls2 hb1 hb2 e1 e2 e3 e4 e5 e6 e7 e8 e9 e10 =
    bind_some _ _ e1 (
      bind_some _ _ e2 (
        bind_some _ _ e3 (
          bind_some _ _ e4 (
            bind_some _ _ e5 (
              bind_some _ _ e6 (
                bind_some _ _ e7
                  (bind_some _ _ e8 (bind_some _ _ e9 (bind_some _ _ e10 refl)))))))))

match_front-levels :
    (s : Crossing) (p q : Price) (t u : Ptr) (m n : LevelMap)
    → map_of bid s.book ≡ (p, t) ∷ m
    → map_of ask s.book ≡ (q, u) ∷ n
    → match_front s ≡ match_fill t u s
match_front-levels s p q t u m n e f =
    ap (λ x. match_at x s.book.ask_levels s) e ∙ ap (λ x. match_at ((p, t) ∷ m) x s) f

module _ (p q : Price) (l k : PriceLevel) (m n : Levels) (b a : Order) (bs as' : List Order)
    (base : OrderBook) (hb : LinkedBook) (c : Crossing.Crossing) (bid_rest ask_rest : _)
    (v : CrossingInv bid_rest ask_rest c) (at_bid : c.bids ≡ (p, l) ∷ m)
    (at_ask : c.asks ≡ (q, k) ∷ n) (e : l.queue ≡ b ∷ bs) (f : k.queue ≡ a ∷ as')
    (same : IsBook hb (crossed ((p, l) ∷ m) ((q, k) ∷ n) c.orders c.metrics base)) where
  abbrev fill : Quantity
  fill = min b.remaining_quantity a.remaining_quantity

  abbrev with_asks : Levels → OrderBook
  with_asks x = record base { ask_levels = x }

  abbrev with_bids : Levels → OrderBook
  with_bids x = record base { bid_levels = x }

  abbrev l1 : PriceLevel
  l1 = filled_level l b bs fill

  abbrev k1 : PriceLevel
  k1 = filled_level k a as' fill

  -- The bid is filled, and then the ask.
  bid_taken :
      Taken bid p l m b bs c.orders c.metrics (with_asks ((q, k) ∷ n)) hb same.view fill (λ x. x)
  bid_taken =
      take_placed bid p l m b bs c.orders c.metrics (with_asks ((q, k) ∷ n)) hb same.view fill
        (λ x. x)
        (subst (λ x. Along hb x same.view)
          (sym (crossed-bid _ ((q, k) ∷ n) c.orders c.metrics base)) (same, refl))
        e (bids_here bid_rest ask_rest c v p q l k m n b a bs as' at_bid at_ask e f).sorted

  -- The ask, as it stands before.
  ask_read :
      Taken ask q k n a as' c.orders c.metrics (with_bids ((p, l) ∷ m)) hb same.view fill (λ x. x)
  ask_read =
      take_placed ask q k n a as' c.orders c.metrics (with_bids ((p, l) ∷ m)) hb same.view fill
        (λ x. x)
        (subst (λ x. Along hb x same.view)
          (sym (crossed-ask ((p, l) ∷ m) _ c.orders c.metrics base)) (same, refl))
        f (asks_here bid_rest ask_rest c v p q l k m n b a bs as' at_bid at_ask e f).sorted

  abbrev hb1 : LinkedBook
  hb1 = record hb { cells = bid_taken.cells; levels = bid_taken.levels }

  ask_taken :
      Taken ask q k n a as' c.orders c.metrics
        (with_bids ((p, l1) ∷ m))
        hb1
        bid_taken.view'
        fill
        (count_fill fill)
  ask_taken =
      take_placed ask q k n a as' c.orders c.metrics (with_bids ((p, l1) ∷ m)) hb1 bid_taken.view'
        fill (count_fill fill)
        (subst (λ x. Along hb1 x bid_taken.view')
          (crossed-bid ((p, l1) ∷ m) ((q, k) ∷ n) c.orders c.metrics base
            ∙ sym (crossed-ask ((p, l1) ∷ m) ((q, k) ∷ n) c.orders c.metrics base))
          bid_taken.books)
        f (asks_here bid_rest ask_rest c v p q l k m n b a bs as' at_bid at_ask e f).sorted

  -- The same pointers as before.
  same_address : ask_taken.address ≡ ask_read.address
  same_address = ap at_front (sym ask_taken.map ∙ ask_read.map)
    where
      at_front : LevelMap → Ptr
      at_front [] = null
      at_front ((r, x) ∷ y) = x

  same_head : ask_taken.level.head ≡ ask_read.level.head
  same_head = sym ask_taken.here ∙ bid_taken.moves.1 ask q refl ∙ ask_read.here

  abbrev hb2 : LinkedBook
  hb2 = record hb1 {
    cells = ask_taken.cells;
    levels = ask_taken.levels;
    metrics = count_fill fill hb.metrics;
  }

  -- A round of the model, whose front orders are known.
  pub match_step :
      (s : Crossing) × (match_front (record { book = hb; executions = c.executions }) ≡ some s)
      × IsBook s.book (
          crossed
            ((p, Fill.fill_front l b bs fill) ∷ m)
            ((q, Fill.fill_front k a as' fill) ∷ n)
            (Fill.drop_filled a fill (Fill.drop_filled b fill c.orders))
            (count_fill fill c.metrics)
            base)
      × (s.executions ≡ c.executions ++ (match_execution b a fill ∷ []))
  match_step =
      let orders1 : Orders = Fill.drop_filled b fill c.orders in
      let orders2 : Orders = Fill.drop_filled a fill orders1 in
      let counted : Metrics = count_fill fill c.metrics in
      let l2 : PriceLevel = Fill.fill_front l b bs fill in
      let (hb3, view3, bid_dropped, books3, maps3, else3) =
        drop_placed bid p l l m b bs c.orders counted (with_asks ((q, k1) ∷ n)) hb2 ask_taken.view'
          fill bid_taken.address bid_taken.level.head bid_taken.rest
          (subst (λ x. Along hb2 x ask_taken.view')
            (crossed-ask ((p, l1) ∷ m) ((q, k1) ∷ n) c.orders counted base
              ∙ sym (crossed-bid ((p, l1) ∷ m) ((q, k1) ∷ n) c.orders counted base))
            ask_taken.books)
          e (bids_here bid_rest ask_rest c v p q l k m n b a bs as' at_bid at_ask e f) bid_taken.map
          (ask_taken.moves.1 bid p refl ∙ bid_taken.moves.0) in
      let (hb4, view4, ask_dropped, (same4, seen4), maps4, else4) =
        drop_placed ask q k k n a as' orders1 counted (with_bids ((p, l2) ∷ m)) hb3 view3 fill
          ask_read.address ask_read.level.head ask_read.rest
          (subst (λ x. Along hb3 x view3)
            (crossed-bid ((p, l2) ∷ m) ((q, k1) ∷ n) orders1 counted base
              ∙ sym (crossed-ask ((p, l2) ∷ m) ((q, k1) ∷ n) orders1 counted base))
            books3)
          f (asks_next bid_rest ask_rest c v p q l k m n b a bs as' at_bid at_ask e f)
          (maps3 ask ∙ ask_read.map) (else3 ask q refl ∙ ask_taken.moves.0 ∙ same_head) in
      (
        record { book = hb4; executions = c.executions ++ (match_execution b a fill ∷ []) },
        match_front-levels (record { book = hb; executions = c.executions }) p q bid_taken.address
              ask_read.address bid_taken.rest ask_read.rest bid_taken.map ask_read.map
            ∙ run_match hb c.executions bid_taken.address ask_read.address bid_taken.level
                ask_read.level (cell b null bid_taken.after bid_taken.address)
                (cell a null ask_read.after ask_read.address) bid_taken.cells ask_taken.cells
                bid_taken.levels ask_taken.levels hb3 hb4 bid_taken.level_loaded
                ask_read.level_loaded bid_taken.loaded ask_read.loaded bid_taken.cell_filled
                (ap (λ x. fill_cell x fill bid_taken.cells) (sym same_head) ∙ ask_taken.cell_filled)
                bid_taken.level_filled
                (ap (λ x. fill_level x fill bid_taken.levels) (sym same_address)
                  ∙ ask_taken.level_filled)
                bid_dropped ask_dropped,
        subst (IsBook hb4)
            (crossed-ask ((p, l2) ∷ m) ((q, Fill.fill_front k a as' fill) ∷ n) orders2 counted base)
            same4,
        refl,
      )

-- ===== src/HeapBook/Add.antt =====
-- `OrderBook::addOrder` on a heap beside `add_order` of `Book`.
pub mod Enter
use lobsimulater.Base.{
  ℕ, ◌+◌, ◌≡◌, refl, sym, ◌∙◌, ap, subst, [], ◌∷◌, ◌++◌, none, some, Bool, true, false, ◌==◌,
  lookup, insert, lookup-insert, Option-cases, Bool-cases, inl, inr, arith, if◌then◌else◌,
  Dictionary, ==_iff,
}
use lobsimulater.Types.{Side, bid, ask, Order, OrderId, Price, same_side, same_price, add64}
use lobsimulater.Level
use lobsimulater.Level.{PriceLevel, new_level}
use lobsimulater.Levels.{LevelRef, find_level}
use lobsimulater.Book
use lobsimulater.Book.{OrderBook, Metrics, levels_of, with_levels, store_level}
use lobsimulater.Book.Invariant.{Inv, side-Inv, store_level-orders, store_level-store_level}
use lobsimulater.Book.Add.{ref_of, get_or_create_level-found, get_or_create_level-missing}
use lobsimulater.Heap
use lobsimulater.Heap.{Ptr, null, Cell, cell, Heap, LevelCell, write, load}
use lobsimulater.Heap.Linked.{Cells, has, last, load-ok, write_here, write_away}
use lobsimulater.Heap.Steps.{bind_some}
use lobsimulater.Heap.Refines.{IsLevel}
use lobsimulater.HeapBook.{
  LinkedBook, find_at, put_at, map_of, with_map, write_level, new_cell, get_or_create_level,
  in_level, add_order,
}
use lobsimulater.HeapBook.Find.{
  SamePrices, put_at-SamePrices, find_at-put_map, find_level-store_level,
}
use lobsimulater.HeapBook.Places.{
  View, Places, AtPlace, same_place, same_place_refl, set_view, if_same_place, AtPlace-frame,
  AtPlace-cell, AtPlace-stored, change-Places,
}
use lobsimulater.HeapBook.Owned.{
  SameTarget, SameIndex, SameTarget-frame, order_at, order_at-join, order_at-has, order_at-here,
}
use lobsimulater.HeapBook.Steps.{
  stray, write_stray-Places, write_level_here, write_level_away, moved, join,
}
use lobsimulater.HeapBook.Refines.{
  SameFields, IsBook, store_level-SameFields, store_level-prices, index-unknown, index-known,
  place-missing, place-found, touch-Places, touch-prices,
}
use lobsimulater.HeapBook.Add.Enter.{allocate-Places, Entered, enter}

-- The index with the new order.
insert-SameIndex :
    (view : View) (x : Ptr) (o : Order) (ps : Dictionary Ptr) (rs : Dictionary LevelRef)
    → SameIndex view ps rs
    → has x (view o.side o.price) ≡ false
    → SameIndex
        (set_view o.side o.price (view o.side o.price ++ ((x, o) ∷ [])) view)
        (insert o.id x ps)
        (insert o.id (ref_of o) rs)
insert-SameIndex view x o ps rs v out j =
    rw (lookup-insert j o.id x ps, lookup-insert j o.id (ref_of o) rs)
      (elim (Bool-cases (o.id == j)) [
        | inl same ↦
            rw (same, same_place_refl o.side o.price)
              (o, order_at-here x o (view o.side o.price) [] out, ground arith)
        | inr other ↦ rw other (
            SameTarget-frame view o.id j x o.side o.price _ (lookup j ps) (lookup j rs)
              (λ y off. order_at-join y x o (view o.side o.price) off)
              (λ z at. absurd (ground (arith, order_at-has x z (view o.side o.price) at, out)))
              other (v j))
      ])

-- The ends of `addOrder`.
abbrev listed : Ptr → OrderId → ℕ → LinkedBook → LinkedBook
listed x i elapsed hb = record hb {
  orders = insert i x hb.orders;
  metrics = record hb.metrics {
    orders_added = add64 hb.metrics.orders_added 1;
    total_latency = hb.metrics.total_latency + elapsed;
  };
  cache_valid = false;
}

abbrev listed_model : Order → ℕ → OrderBook → OrderBook
listed_model o elapsed b = record b {
  orders = insert o.id (ref_of o) b.orders;
  metrics = record b.metrics {
    orders_added = add64 b.metrics.orders_added 1;
    total_latency = b.metrics.total_latency + elapsed;
  };
  cache_valid = false;
}

-- The order joins the level that has been found or made.
joined-IsBook :
    (x t : Ptr) (o : Order) (elapsed : ℕ) (hb : LinkedBook) (b : OrderBook) (view : View)
    (e : Entered t o.side o.price hb b view)
    → SameIndex view hb.orders b.orders
    → (x == null) ≡ false
    → hb.cells x ≡ some (cell o null null null)
    → (hb' : LinkedBook) × (in_level e.level_at (Heap.add_order e.level_at x) e.book ≡ some hb')
      × ((before after level : Ptr) × (load x hb'.cells ≡ some (cell o before after level)))
      × IsBook
          (listed x o.id elapsed hb')
          (listed_model o elapsed (store_level o.side o.price (Level.add_order e.level o) e.model))
joined-IsBook x t o elapsed hb b view e index ok there =
    let here : e.book.cells x ≡ some (cell o null null null) = ap (λ h. h x) e.cells ∙ there in
    let (k, h, done, places, cell_at) =
      join e.book e.model view e.places o.side o.price e.level_at e.level e.at e.found x o ok
        here in
    let b3 : OrderBook = store_level o.side o.price (Level.add_order e.level o) e.model in
    let index' : SameIndex view e.book.orders b3.orders =
      subst (λ r. SameIndex view e.book.orders r)
        (sym (store_level-orders o.side o.price (Level.add_order e.level o) e.model ∙ e.known))
        (subst (λ r. SameIndex view r b.orders) (sym e.owned) index) in
    let same : SameFields e.book b3 =
      store_level-SameFields o.side o.price (Level.add_order e.level o) e.book e.model e.fields in
    (
      moved e.book h e.level_at k,
      done,
      (_, _, _, load-ok x h _ ok cell_at),
      record {
        view = set_view o.side o.price (view o.side o.price ++ ((x, o) ∷ [])) view;
        places =
            touch-Places (listed x o.id elapsed (moved e.book h e.level_at k)) b3 _ _ _ _ places;
        index =
            insert-SameIndex view x o e.book.orders b3.orders index'
              (stray e.book e.model view e.places x o here o.side o.price);
        prices =
            touch-prices (listed x o.id elapsed (moved e.book h e.level_at k)) b3 _ _ _
              (e.prices (Level.add_order e.level o));
        fields = (
          same.0,
          same.1,
          same.2,
          refl,
          ap
              (λ (m : Metrics). record m {
                orders_added = add64 m.orders_added 1;
                total_latency = m.total_latency + elapsed;
              })
              same.4,
        );
      },
    )

-- On a book on a heap that stands for a book of the invariant, `addOrder` with free addresses for the
-- order and the level faults nowhere, returns what the other returns, and the two books agree again.
pub add_order-IsBook :
    (x t : Ptr) (o : Order) (elapsed : ℕ) (hb : LinkedBook) (b : OrderBook)
    → Inv b
    → IsBook hb b
    → (x == null) ≡ false
    → hb.cells x ≡ none
    → (t == null) ≡ false
    → hb.levels t ≡ none
    → (hb' : LinkedBook) × (add_order x t o elapsed hb ≡ some (hb', (Book.add_order o elapsed b).1))
      × IsBook hb' (Book.add_order o elapsed b).0
unfolding add_order Book.add_order Book.enter_order
add_order-IsBook x t o elapsed hb b v same x_ok x_free t_ok t_free =
    elim (Option-cases (lookup o.id b.orders)) [
      | inr (r, known) ↦
          let (y, z, held, at, id) = index-known same.view o.id _ r (
            subst (λ k. SameTarget same.view o.id (lookup o.id hb.orders) k) known
              (same.index o.id)) in
          (hb, rw (held, add_order, known, Book.add_order) refl, rw (known, Book.add_order) same)
      | inl fresh ↦
          let fresh_here : lookup o.id hb.orders ≡ none = index-unknown same.view o.id _ (
            subst (λ k. SameTarget same.view o.id (lookup o.id hb.orders) k) fresh
              (same.index o.id)) in
          let c : Cell = cell o null null null in
          let hb1 : LinkedBook = record hb { cells = write hb.cells x c } in
          let e : Entered t o.side o.price hb1 b same.view =
            enter t o.side o.price hb1 b same.view v
              (allocate-Places hb b same.view x c same.places x_free) same.prices same.fields t_ok
              t_free in
          let there : hb1.cells x ≡ some c = write_here hb.cells x c in
          let (hb3, joined, (p1, p2, p3, loaded), result) =
            joined-IsBook x t o elapsed hb1 b same.view e same.index x_ok there in
          (
            listed x o.id elapsed hb3,
            rw (fresh_here, add_order, fresh, Book.add_order)
                (bind_some _ _ (load-ok x hb1.cells c x_ok there)
                  (rw e.on_heap (bind_some _ _ joined (bind_some _ _ loaded refl)))),
            rw (fresh, Book.add_order, e.in_model) result,
          )
    ]

-- ===== src/HeapMatch/Taken.antt =====
-- A fill of the front order of a side, and its removal, on a book in the middle of the loops.
use lobsimulater.Base.{◌≡◌, refl, sym, ◌∙◌, ap, subst, List, [], ◌∷◌, some, false}
use lobsimulater.Types.{Side, Order, Price, Quantity}
use lobsimulater.Level.{PriceLevel}
use lobsimulater.Levels.{Levels}
use lobsimulater.Levels.Order.{IsSorted}
use lobsimulater.Levels.Index.{Orders, SideInv}
use lobsimulater.Book.{OrderBook, Metrics}
use lobsimulater.Fill
use lobsimulater.Heap.{Ptr, null, cell, Heap, LevelCell, load}
use lobsimulater.Heap.Linked.{load-ok, first}
use lobsimulater.HeapBook.{LinkedBook, LevelMap, LevelHeap, map_of, load_level}
use lobsimulater.HeapBook.Places.{View, same_place}
use lobsimulater.HeapBook.Steps.{load_level-ok}
use lobsimulater.HeapBook.Refines.{IsBook}
use lobsimulater.HeapMatch.{fill_cell, fill_level, drop_filled}
use lobsimulater.HeapMatch.Front.{
  Moves, best, front_of_queue, take, same_pointer, filled_order, filled_level, count,
}
use lobsimulater.HeapMatch.Drop.{drop}
use lobsimulater.HeapMatch.Placed.{
  placed, levels_of-placed, store_level-placed, front_known, front_alone, fill-placed,
}

-- A book on a heap beside one in the middle of the loops, with its view.
abbrev pub Along : LinkedBook → OrderBook → View → Type 0
Along hb b view = (same : IsBook hb b) × (same.view ≡ view)

-- What a step on a side leaves of the first cells elsewhere.
abbrev pub SameElse : Side → Price → View → View → Type 0
SameElse s p view view' =
    (u : Side) (r : Price)
    → same_place s p u r ≡ false
    → first (view' u r) null ≡ first (view u r) null

-- The data of a fill: the level and the cell that it reads, and what it writes.
pub record Taken (s : Side) (p : Price) (l : PriceLevel) (m : Levels) (o : Order) (os : List Order)
    (orders : Orders) (metrics : Metrics) (b : OrderBook) (hb : LinkedBook) (view : View)
    (q : Quantity) (f : Metrics → Metrics) : Type 0 where
  pub address : Ptr
  pub rest : LevelMap
  pub level : LevelCell
  pub after : Ptr
  pub cells : Heap
  pub levels : LevelHeap
  pub view' : View
  pub map : map_of s hb ≡ (p, address) ∷ rest
  pub level_loaded : load_level address hb.levels ≡ some level
  pub key : level.price ≡ l.price
  pub loaded : load level.head hb.cells ≡ some (cell o null after address)
  pub cell_filled : fill_cell level.head q hb.cells ≡ some cells
  pub level_filled : fill_level address q hb.levels ≡ some levels
  pub books :
      Along
        (record hb { cells = cells; levels = levels; metrics = f hb.metrics })
        (placed s ((p, filled_level l o os q) ∷ m) orders (f metrics) b)
        view'
  pub moves : Moves s p level.head view view'
  pub here : first (view s p) null ≡ level.head

pub take_placed :
    (s : Side) (p : Price) (l : PriceLevel) (m : Levels) (o : Order) (os : List Order)
    (orders : Orders) (metrics : Metrics) (b : OrderBook) (hb : LinkedBook) (view : View)
    (q : Quantity) (f : Metrics → Metrics)
    → Along hb (placed s ((p, l) ∷ m) orders metrics b) view
    → l.queue ≡ o ∷ os
    → IsSorted s ((p, l) ∷ m)
    → Taken s p l m o os orders metrics b hb view q f
take_placed s p l m o os orders metrics b hb view q f (same, seen) e sorted =
    let b0 : OrderBook = placed s ((p, l) ∷ m) orders metrics b in
    let top = levels_of-placed s ((p, l) ∷ m) orders metrics b in
    let t = best hb b0 same s p l m top in
    let x = front_of_queue hb s p t.address l same.view o os t.place e in
    let (h, ls, cell_filled, level_filled, (kept, moves)) =
      take hb b0 same s p l m o os t x (subst (IsSorted s) (sym top) sorted) q f in
    let hb1 : LinkedBook = record hb { cells = h; levels = ls; metrics = f hb.metrics } in
    record {
      address = t.address;
      rest = t.rest;
      level = t.place.level;
      after = first x.behind null;
      cells = h;
      levels = ls;
      view' = kept.view;
      map = t.map;
      level_loaded = load_level-ok hb.levels t.address t.place.level t.place.address t.place.stored;
      key = t.place.is_level.price;
      loaded =
          ap (λ y. load y hb.cells) x.head ∙ load-ok x.pointer hb.cells _ x.pointer_ok x.cell_here;
      cell_filled = ap (λ y. fill_cell y q hb.cells) x.head ∙ cell_filled;
      level_filled = level_filled;
      books =
          subst (λ c. Along hb1 c kept.view)
            (ap (count f) (store_level-placed s p l (filled_level l o os q) m orders metrics b))
            (kept, refl);
      here =
          ap (λ (w : View). first (w s p) null) (sym seen)
          ∙ same_pointer hb s p t.address l same.view o os t.place x
          ∙ sym x.head;
      moves = (
        moves.0 ∙ sym x.head,
        λ u r off. moves.1 u r off ∙ ap (λ (w : View). first (w u r) null) seen,
      );
    }

-- The front order goes if it is filled.
pub drop_placed :
    (s : Side) (p : Price) (l l1 : PriceLevel) (m : Levels) (o : Order) (os : List Order)
    (orders : Orders) (metrics : Metrics) (b : OrderBook) (hb : LinkedBook) (view : View)
    (fill : Quantity) (address pointer : Ptr) (rest : LevelMap)
    → Along hb (placed s ((p, filled_level l o os fill) ∷ m) orders metrics b) view
    → l1.queue ≡ o ∷ os
    → SideInv s ((p, l1) ∷ m) orders
    → map_of s hb ≡ (p, address) ∷ rest
    → first (view s p) null ≡ pointer
    → (hb' : LinkedBook) × (view' : View) × (drop_filled address pointer hb ≡ some hb')
      × Along hb'
          (placed s
            ((p, Fill.fill_front l o os fill) ∷ m)
            (Fill.drop_filled o fill orders)
            metrics
            b)
          view'
      × ((u : Side) → map_of u hb' ≡ map_of u hb)
      × SameElse s p view view'
drop_placed s p l l1 m o os orders metrics b hb view fill address pointer rest (same, seen) e v map
      here =
    let o1 : Order = filled_order o fill in
    let l2 : PriceLevel = filled_level l o os fill in
    let b1 : OrderBook = placed s ((p, l2) ∷ m) orders metrics b in
    let top = levels_of-placed s ((p, l2) ∷ m) orders metrics b in
    let t = best hb b1 same s p l2 m top in
    let x = front_of_queue hb s p t.address l2 same.view o1 os t.place refl in
    let same_level : t.address ≡ address = ap at_front (sym t.map ∙ map) in
    let same_order : x.pointer ≡ pointer =
      sym (same_pointer hb s p t.address l2 same.view o1 os t.place x)
      ∙ ap (λ (w : View). first (w s p) null) seen
      ∙ here in
    let (hb', dropped, (kept, maps, elsewhere)) =
      drop hb b1 same s p l2 m o1 os t x (subst (IsSorted s) (sym top) v.sorted)
        (front_known s p l1 m orders o os v e) (front_alone s p l1 m orders o os v e) in
    (
      hb',
      kept.view,
      ap (λ a. drop_filled a pointer hb) (sym same_level)
          ∙ ap (λ a. drop_filled t.address a hb) (sym same_order)
          ∙ dropped,
      subst (λ c. Along hb' c kept.view) (fill-placed s p l o os fill m orders metrics b)
          (kept, refl),
      maps,
      λ u r off. elsewhere u r off ∙ ap (λ (w : View). first (w u r) null) seen,
    )
  where
    at_front : LevelMap → Ptr
    at_front [] = null
    at_front ((q, a) ∷ n) = a

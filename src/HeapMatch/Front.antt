-- ===== src/HeapMatch/Front.antt =====
-- The best level of a side of a book on a heap, and the order at its front.
mod Heads
pub use Heads.*
use lobsimulater.Base.{
  ◌≡◌, refl, sym, ◌∙◌, ap, subst, List, [], ◌∷◌, ◌++◌, Option, none, some, true, false, ◌==◌, ◌>>=◌,
  Bool-cases, inl, inr, arith, if◌then◌else◌, lookup, is_empty, not,
}
use lobsimulater.Types.{
  Side, bid, ask, Order, OrderId, Price, Quantity, sub32, same_price_refl, before_irrefl,
}
use lobsimulater.Level.{PriceLevel, occurs}
use lobsimulater.Levels.{Levels, find_level, put_level}
use lobsimulater.Levels.Order.{IsSorted}
use lobsimulater.Book.{OrderBook, Metrics, levels_of, with_levels, store_level}
use lobsimulater.Book.Invariant.{store_level-orders}
use lobsimulater.Heap.{Ptr, null, Cell, cell, Heap, LevelCell, write}
use lobsimulater.Heap.Linked.{
  Cells, orders_of, has, first, last, Linked, Linked-write, load-ok, write_here, write_away,
}
use lobsimulater.Heap.Relink.{update-ok}
use lobsimulater.Heap.Refines.{IsLevel}
use lobsimulater.Heap.Steps.{bind_some}
use lobsimulater.HeapBook.{
  LinkedBook, LevelMap, LevelHeap, find_at, map_of, write_level, load_level,
}
use lobsimulater.HeapBook.Find.{SamePrices}
use lobsimulater.HeapBook.Places.{
  View, Places, IsPlace, same_place, set_view, set_view_here, same_place-eq,
}
use lobsimulater.HeapBook.Owned.{SameTarget, SameIndex, order_at}
use lobsimulater.HeapBook.Steps.{place_here, in_level-Places, moved, cells_apart, load_level-ok}
use lobsimulater.HeapBook.Refines.{
  IsBook, store_level-prices, store_level-SameFields, touch-Places, touch-prices,
}
use lobsimulater.HeapMatch.{fill_cell, fill_level}

-- A place whose cells keep their ids keeps the targets of the index.
pub refill-SameIndex :
    (view : View) (s : Side) (p : Price) (xs : Cells) (i : OrderId) (a : Option Ptr) (r : Option _)
    → ((y : Ptr) (z : Order)
        → order_at y (view s p) ≡ some z
        → (w : Order) × (order_at y xs ≡ some w) × (w.id ≡ z.id))
    → SameTarget view i a r
    → SameTarget (set_view s p xs view) i a r
refill-SameIndex view s p xs i none none same v = tt
refill-SameIndex view s p xs i none (some r) same v = absurd v
refill-SameIndex view s p xs i (some a) none same v = absurd v
refill-SameIndex view s p xs i (some a) (some r) same (z, at, id) =
    elim (Bool-cases (same_place s p r.side r.price)) [
      | inr off ↦ rw off (z, at, id)
      | inl on ↦
          let (w, there, same_id) =
            same a z (ap (order_at a) (same_place-eq view s p r.side r.price on) ∙ at) in
          rw on (w, there, same_id ∙ id)
    ]

-- The level after `-=` on its front order and on its total.
abbrev pub filled_order : Order → Quantity → Order
filled_order o q = record o { remaining_quantity = sub32 o.remaining_quantity q }

abbrev pub filled_level : PriceLevel → Order → List Order → Quantity → PriceLevel
filled_level l o os q = record l {
  queue = filled_order o q ∷ os;
  total_quantity = sub32 l.total_quantity q;
}

abbrev pub count : (Metrics → Metrics) → OrderBook → OrderBook
count f b = record b { metrics = f b.metrics }

-- The first cell of a place after a step, and of the others.
abbrev pub Moves : Side → Price → Ptr → View → View → Type 0
Moves s p x view view' =
    (first (view' s p) null ≡ x)
    × ((u : Side) (r : Price)
        → same_place s p u r ≡ false
        → first (view' u r) null ≡ first (view u r) null)

refill_at :
    (x : Ptr) (o o' : Order) (xs : Cells)
    → o'.id ≡ o.id
    → (y : Ptr) (z : Order) → order_at y ((x, o) ∷ xs) ≡ some z
    → (w : Order) × (order_at y ((x, o') ∷ xs) ≡ some w) × (w.id ≡ z.id)
refill_at x o o' xs same y z e = elim (Bool-cases (y == x)) [
  | inl on ↦
      let one : o ≡ z = ground (arith, on) in rw on (o', refl, same ∙ ap (λ (w : Order). w.id) one)
  | inr off ↦ rw off (z, ground (arith, off), refl)
]

module _ (hb : LinkedBook) (b : OrderBook) (same : IsBook hb b) (s : Side) (p : Price)
    (l : PriceLevel) (m : Levels) (o : Order) (os : List Order) (t : BestLevel hb b same s p l m)
    (x : FrontCell hb s p t.address l same.view o os t.place) (sorted : IsSorted s (levels_of s b))
    (q : Quantity) (f : Metrics → Metrics) where
  -- `-=` on the front order and on its level, and a count.
  pub take :
      (h : Heap) × (ls : LevelHeap) × (fill_cell x.pointer q hb.cells ≡ some h)
      × (fill_level t.address q hb.levels ≡ some ls)
      × ((kept : IsBook
            (record hb { cells = h; levels = ls; metrics = f hb.metrics })
            (count f (store_level s p (filled_level l o os q) b)))
          × Moves s p x.pointer same.view kept.view)
  unfolding fill_level
  take =
      let c : Cell = cell o null (first x.behind null) t.address in
      let o' : Order = filled_order o q in
      let c' : Cell = cell o' null (first x.behind null) t.address in
      let l' : PriceLevel = filled_level l o os q in
      let k : LevelCell = record t.place.level {
        total_quantity = sub32 t.place.level.total_quantity q;
      } in
      let h : Heap = write hb.cells x.pointer c' in
      let xs : Cells = (x.pointer, o') ∷ x.behind in
      let level : IsLevel h t.address k xs l' = record {
        price = t.place.is_level.price;
        side = t.place.is_level.side;
        total = ap (λ n. sub32 n q) t.place.is_level.total;
        count = t.place.is_level.count;
        queue = ap (λ r. o' ∷ r) (sym x.orders);
        head = x.head;
        tail = t.place.is_level.tail ∙ ap (last null) x.cells;
        linked = (
          write_here hb.cells x.pointer c',
          x.pointer_ok,
          x.out,
          Linked-write hb.cells t.address x.pointer null x.pointer c' x.behind x.out x.linked,
        );
      } in
      let fields = store_level-SameFields s p l' hb b same.fields in
      let (done, places) =
        in_level-Places hb b same.view same.places s p t.address l t.at t.found (λ _ _. some (k, h))
          k h l' xs refl level refl refl
          (λ u r a off i.
            write_away hb.cells x.pointer a c'
              (apart a (cells_apart hb b same.view same.places s u p r a off i))) in
      (
        h,
        write_level hb.levels t.address (some k),
        update-ok x.pointer _ hb.cells c x.pointer_ok x.cell_here,
        bind_some _ _
            (load_level-ok hb.levels t.address t.place.level t.place.address t.place.stored) refl,
        (
          record {
            view = set_view s p xs same.view;
            places =
                touch-Places
                  (record hb {
                    cells = h;
                    levels = write_level hb.levels t.address (some k);
                    metrics = f hb.metrics;
                  })
                  (store_level s p l' b) (set_view s p xs same.view) _ _ _ places;
            index = λ j.
                subst
                  (λ r. SameTarget (set_view s p xs same.view) j (lookup j hb.orders) (lookup j r))
                  (sym (store_level-orders s p l' b))
                  (refill-SameIndex same.view s p xs j (lookup j hb.orders) (lookup j b.orders)
                    (λ y z e.
                      refill_at x.pointer o o' x.behind refl y z
                        (ap (order_at y) (sym x.cells) ∙ e))
                    (same.index j));
            prices =
                touch-prices hb (store_level s p l' b) _ _ _
                  (store_level-prices s p l' l hb b sorted t.found same.prices);
            fields = (fields.0, fields.1, fields.2, fields.3, ap f fields.4);
          },
          (ap (λ c. first c null) (set_view_here s p xs same.view), λ u r off. rw off refl),
        ),
      )
    where
      apart : (a : Ptr) → has a (same.view s p) ≡ false → (a == x.pointer) ≡ false
      apart a off = ground (arith, ap (has a) x.cells)

-- The same addresses as before.
pub same_address :
    (hb hb' : LinkedBook) (b b' : OrderBook) (same : IsBook hb b) (same' : IsBook hb' b') (s : Side)
    (p : Price) (l l' : PriceLevel) (m m' : Levels) (t : BestLevel hb b same s p l m)
    (t' : BestLevel hb' b' same' s p l' m')
    → map_of s hb ≡ map_of s hb'
    → t.address ≡ t'.address
same_address hb hb' b b' same same' s p l l' m m' t t' e = ap at_front (sym t.map ∙ e ∙ t'.map)
  where
    at_front : LevelMap → Ptr
    at_front [] = null
    at_front ((q, a) ∷ n) = a

pub same_pointer :
    (hb : LinkedBook) (s : Side) (p : Price) (t : Ptr) (l : PriceLevel) (view : View) (o : Order)
    (os : List Order) (place : IsPlace hb.cells hb.levels s p t l (view s p))
    (x : FrontCell hb s p t l view o os place)
    → first (view s p) null ≡ x.pointer
same_pointer hb s p t l view o os place x = ap (λ c. first c null) x.cells

-- ===== src/HeapBook/Change.antt =====
-- `OrderBook::modifyOrder` on a heap beside `modify_order` of `Book`.
mod Refilled
pub use Refilled.*
use lobsimulater.Base.{
  ℕ, ◌+◌, ◌≡◌, refl, sym, ◌∙◌, ap, subst, [], ◌∷◌, ◌++◌, none, some, some-injective, Bool, true,
  false, ◌==◌, lookup, Option-cases, Bool-cases, inl, inr, arith, ltb, max, Dictionary,
}
use lobsimulater.Types.{Side, Order, OrderId, Price, Quantity, add64}
use lobsimulater.Level
use lobsimulater.Level.{PriceLevel}
use lobsimulater.Levels.{LevelRef, find_level}
use lobsimulater.Book
use lobsimulater.Book.{OrderBook, Metrics, levels_of, store_level}
use lobsimulater.Book.Invariant.{Inv, side-Inv, store_level-orders, store_level-store_level}
use lobsimulater.Heap
use lobsimulater.Heap.{Ptr, null, Cell, cell, Heap, LevelCell, write, load, update}
use lobsimulater.Heap.Linked.{Cells, has, has-append, load-ok, write_here}
use lobsimulater.Heap.Relink.{update-ok}
use lobsimulater.Heap.Steps.{bind_some}
use lobsimulater.HeapBook.{LinkedBook, LevelHeap, find_at, map_of, in_level, requeue, modify_order}
use lobsimulater.HeapBook.Find.{find_level-store_level}
use lobsimulater.HeapBook.Places.{View, Places, same_place_refl, set_view, set_view_here}
use lobsimulater.HeapBook.Owned.{
  SameTarget, SameIndex, SameTarget-frame, order_at, order_at-join, order_at-leave, order_at-has,
  order_at-here, order_at-change, change-SameIndex,
}
use lobsimulater.HeapBook.Steps.{stray, write_stray-Places, moved, join, leave, amend}
use lobsimulater.HeapBook.Refines.{
  IsBook, store_level-SameFields, store_level-prices, index-unknown, touch-Places, touch-prices,
}
use lobsimulater.HeapBook.Pointed.{Pointed, pointed}

-- On a book on a heap that stands for a book of the invariant, `modifyOrder` faults nowhere, returns what
-- the other returns, and the two books agree again.
pub modify_order-IsBook :
    (i : OrderId) (n : Quantity) (elapsed : ℕ) (hb : LinkedBook) (b : OrderBook)
    → Inv b
    → IsBook hb b
    → (hb' : LinkedBook) × (b' : OrderBook) × (ok : Bool) × (modify_order i n elapsed hb
        ≡ some (hb', ok))
      × (Book.modify_order i n elapsed b ≡ some (b', ok))
      × IsBook hb' b'
unfolding modify_order Book.modify_order Book.requeue
modify_order-IsBook i n elapsed hb b v same = elim (Option-cases (lookup i b.orders)) [
  | inl unknown ↦
      let unknown_here : lookup i hb.orders ≡ none =
        index-unknown same.view i _
          (subst (λ k. SameTarget same.view i (lookup i hb.orders) k) unknown (same.index i)) in
      (
        hb,
        b,
        false,
        rw (unknown_here, modify_order) refl,
        rw (unknown, Book.modify_order) refl,
        same,
      )
  | inr (r, known) ↦
      let t : Pointed i r hb b same = pointed i r hb b same v known in
      let f : Metrics → Metrics = λ m. record m {
        orders_modified = add64 m.orders_modified 1;
        total_latency = m.total_latency + elapsed;
      } in
      let loaded = load-ok t.pointer hb.cells _ t.pointer_ok t.cell_here in
      elim (Bool-cases (ltb t.order.remaining_quantity n)) [
        | inl more ↦
            let (h, ls, view, done, places, index) = raised i r hb b same t n in
            (
              counted f (relinked hb h ls),
              _,
              true,
              rw (t.held, modify_order) (bind_some _ _ loaded (rw more (bind_some _ _ done refl))),
              rw (known, Book.modify_order, t.target.reached, more) refl,
              counted-IsBook r hb b t.level _ h ls view f v same t.found places index,
            )
        | inr less ↦
            let (h, ls, view, done, places, index) = lowered i r hb b same t n in
            (
              counted f (relinked hb h ls),
              _,
              true,
              rw (t.held, modify_order) (bind_some _ _ loaded (rw less (bind_some _ _ done refl))),
              rw (known, Book.modify_order, t.target.reached, less) refl,
              counted-IsBook r hb b t.level _ h ls view f v same t.found places index,
            )
      ]
]

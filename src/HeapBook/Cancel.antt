-- ===== src/HeapBook/Cancel.antt =====
-- `OrderBook::cancelOrder` on a heap beside `cancel_order` of `Book`.
pub mod Settle
use lobsimulater.Base.{
  ℕ, ◌+◌, ◌≡◌, refl, sym, ◌∙◌, ap, subst, [], ◌∷◌, ◌++◌, none, some, Bool, true, false, ◌==◌,
  lookup, erase, lookup-erase, Option-cases, List-cases, Bool-cases, inl, inr, arith, Dictionary,
  if◌then◌else◌, ◌>>=◌,
}
use lobsimulater.Types.{Side, bid, ask, Order, OrderId, Price, add64}
use lobsimulater.Level
use lobsimulater.Level.{PriceLevel}
use lobsimulater.Levels.{LevelRef, find_level}
use lobsimulater.Book
use lobsimulater.Book.{OrderBook, Metrics, levels_of, with_levels, store_level, settle_level}
use lobsimulater.Book.Invariant.{Inv, side-Inv, store_level-orders, remove_empty_level-orders}
use lobsimulater.Book.Cancel.{settle-empty, settle-full, settle_level-orders}
use lobsimulater.Heap
use lobsimulater.Heap.{Ptr, null, Heap, LevelCell, cell}
use lobsimulater.Heap.Linked.{Cells, orders_of, has, first, Linked, load-ok}
use lobsimulater.Heap.Refines.{IsLevel}
use lobsimulater.Heap.Steps.{bind_some}
use lobsimulater.HeapBook.{
  LinkedBook, LevelHeap, find_at, erase_at, map_of, with_map, in_level, free, write_level,
  load_level, remove_empty_level, cancel_order,
}
use lobsimulater.HeapBook.Find.{
  SamePrices, erase_at-SamePrices, find_at-erase_map, find_level-store_level,
  find_level-remove_empty_level,
}
use lobsimulater.HeapBook.Places.{
  View, Places, AtPlace, same_place, same_place_refl, set_view, if_same_place, set_view_here,
  AtPlace-other, change-Places,
}
use lobsimulater.HeapBook.Owned.{SameTarget, SameIndex, SameTarget-frame, order_at, order_at-leave}
use lobsimulater.HeapBook.Steps.{
  erased_level-Places, stray, stray-Places, moved, place_here, leave, load_level-ok,
  write_level_here, write_level_away,
}
use lobsimulater.HeapBook.Refines.{
  SameFields, IsBook, store_level-SameFields, remove_empty_level-SameFields, store_level-prices,
  index-unknown, touch-Places, touch-prices,
}
use lobsimulater.HeapBook.Pointed.{Pointed, pointed}
use lobsimulater.HeapBook.Change.{owner}
use lobsimulater.HeapBook.Cancel.Settle.{
  dropped, dropped-IsBook, erase-SameIndex, Settled, settled, LevelsFreed, free_here,
}

-- On a book on a heap that stands for a book of the invariant, `cancelOrder` faults nowhere, returns what
-- the other returns, and the two books agree again. The cell that the index held for the id is freed, and
-- the level that stood at a side and price is still the one of its map there, or is freed.
pub cancel_order-IsBook :
    (i : OrderId) (elapsed : ℕ) (hb : LinkedBook) (b : OrderBook)
    → Inv b
    → IsBook hb b
    → (hb' : LinkedBook) × (b' : OrderBook) × (ok : Bool) × (cancel_order i elapsed hb
        ≡ some (hb', ok))
      × (Book.cancel_order i elapsed b ≡ some (b', ok))
      × IsBook hb' b'
      × ((lookup i hb.orders >>= λ p. hb'.cells p) ≡ none)
      × LevelsFreed hb hb'
unfolding cancel_order Book.cancel_order
cancel_order-IsBook i elapsed hb b v same = elim (Option-cases (lookup i b.orders)) [
  | inl unknown ↦
      let unknown_here : lookup i hb.orders ≡ none =
        index-unknown same.view i _
          (subst (λ k. SameTarget same.view i (lookup i hb.orders) k) unknown (same.index i)) in
      (
        hb,
        b,
        false,
        rw (unknown_here, cancel_order) refl,
        rw (unknown, Book.cancel_order) refl,
        same,
        rw unknown_here refl,
        λ s q. refl,
      )
  | inr (r, known) ↦
      let t : Pointed i r hb b same = pointed i r hb b same v known in
      let gone : PriceLevel = Level.remove_order t.level t.order in
      let view : View = set_view r.side r.price (t.front ++ t.back) same.view in
      let here =
        place_here hb b same.view same.places r.side r.price t.level_at t.level t.at t.found in
      let (k, h, left, places, cleared, level) =
        leave hb b same.view same.places r.side r.price t.level_at t.level t.at t.found t.pointer
          t.order t.front t.back t.split t.first_one in
      let hb1 : LinkedBook = moved hb h t.level_at k in
      let s : Settled i r hb b hb1 k gone view = settled i r hb b v same t k h places level in
      (
        dropped i t.pointer elapsed s.book,
        _,
        true,
        rw (t.held, cancel_order)
            (bind_some _ _ (load-ok t.pointer hb.cells _ t.pointer_ok t.cell_here) (
              bind_some _ _ left (
                bind_some _ _
                  (load_level-ok hb1.levels t.level_at k here.address
                    (write_level_here hb.levels t.level_at (some k)))
                  (ap (λ c. some (dropped i t.pointer elapsed c, true)) s.on_heap)))),
        rw (known, Book.cancel_order, t.target.reached) refl,
        dropped-IsBook i t.pointer elapsed s.book (settle_level r gone b) view s.places
            (subst (λ x. SameIndex view (erase i x) (erase i (settle_level r gone b).orders))
              (sym s.owned)
              (subst (λ x. SameIndex view (erase i hb.orders) (erase i x))
                (sym (settle_level-orders i r t.level t.order b v known t.target))
                (erase-SameIndex i r hb b same t)))
            s.prices s.fields
            (stray hb1 (store_level r.side r.price gone b) view places t.pointer t.order cleared),
        rw t.held (free_here s.book.cells t.pointer),
        s.levels_freed,
      )
]

-- ===== src/HeapBook/Change/Refilled.antt =====
-- The changes of the cells of a level in `modifyOrder` on a heap.
use lobsimulater.Base.{
  ◌≡◌, refl, sym, ◌∙◌, ap, subst, [], ◌∷◌, ◌++◌, some, some-injective, false, lookup, arith, max,
}
use lobsimulater.Types.{Side, Order, OrderId, Price, Quantity}
use lobsimulater.Level
use lobsimulater.Level.{PriceLevel}
use lobsimulater.Levels.{LevelRef, find_level}
use lobsimulater.Book.{OrderBook, Metrics, levels_of, store_level}
use lobsimulater.Book.Invariant.{Inv, side-Inv, store_level-orders, store_level-store_level}
use lobsimulater.Heap
use lobsimulater.Heap.{Ptr, null, Cell, cell, Heap, LevelCell, write, load, update}
use lobsimulater.Heap.Linked.{Cells, has, write_here}
use lobsimulater.Heap.Relink.{update-ok}
use lobsimulater.Heap.Steps.{bind_some}
use lobsimulater.HeapBook.{LinkedBook, LevelHeap, in_level, requeue}
use lobsimulater.HeapBook.Find.{find_level-store_level}
use lobsimulater.HeapBook.Places.{View, Places, same_place_refl, set_view, set_view_here}
use lobsimulater.HeapBook.Owned.{
  SameTarget, SameIndex, SameTarget-frame, order_at, order_at-join, order_at-leave, order_at-has,
  order_at-here, order_at-change, change-SameIndex,
}
use lobsimulater.HeapBook.Steps.{stray, write_stray-Places, moved, join, leave, amend}
use lobsimulater.HeapBook.Refines.{
  IsBook, store_level-SameFields, store_level-prices, touch-Places, touch-prices,
}
use lobsimulater.HeapBook.Pointed.{Pointed}

-- A book after a change of one level, with its metrics counted.
abbrev pub relinked : LinkedBook → Heap → LevelHeap → LinkedBook
relinked hb h ls = record hb { cells = h; levels = ls }

abbrev pub counted : (Metrics → Metrics) → LinkedBook → LinkedBook
counted f hb = record hb { metrics = f hb.metrics; cache_valid = false }

abbrev counted_model : (Metrics → Metrics) → OrderBook → OrderBook
counted_model f b = record b { metrics = f b.metrics; cache_valid = false }

pub counted-IsBook :
    (r : LevelRef) (hb : LinkedBook) (b : OrderBook) (k l : PriceLevel) (h : Heap) (ls : LevelHeap)
    (view : View) (f : Metrics → Metrics)
    → Inv b
    → IsBook hb b
    → find_level r.price (levels_of r.side b) ≡ some k
    → Places (relinked hb h ls) (store_level r.side r.price l b) view
    → SameIndex view hb.orders b.orders
    → IsBook (counted f (relinked hb h ls)) (counted_model f (store_level r.side r.price l b))
counted-IsBook r hb b k l h ls view f v same found places index =
    let fields = store_level-SameFields r.side r.price l hb b same.fields in
    record {
      view = view;
      places =
          touch-Places (counted f (relinked hb h ls)) (store_level r.side r.price l b) view _ _ _
            places;
      index =
          subst (λ x. SameIndex view hb.orders x) (sym (store_level-orders r.side r.price l b))
            index;
      prices =
          touch-prices hb (store_level r.side r.price l b) _ _ _ (
            store_level-prices r.side r.price l k hb b (side-Inv r.side v).sorted found
              same.prices);
      fields = (fields.0, fields.1, fields.2, refl, ap f fields.4);
    }

module _ (i : OrderId) (r : LevelRef) (hb : LinkedBook) (b : OrderBook) (same : IsBook hb b)
    (t : Pointed i r hb b same) where
  pub owner : (z : Order) → order_at t.pointer (same.view r.side r.price) ≡ some z → z.id ≡ i
  owner z at =
      ap (λ (y : Order). y.id)
        (some-injective _ _ (
          sym at
          ∙ ap (order_at t.pointer) t.split
          ∙ order_at-here t.pointer t.order t.front t.back t.out_front))
      ∙ t.target.order_id

  -- What the cell's id leads to, in a view of its place.
  target_at :
      (view : View) (o : Order)
      → order_at t.pointer (view r.side r.price) ≡ some o
      → o.id ≡ i
      → SameTarget view i (lookup i hb.orders) (lookup i b.orders)
  target_at view o at id = rw (t.held, t.known) (o, at, id)

  -- A smaller quantity.
  pub lowered :
      (n : Quantity)
      → (h : Heap) × (ls : LevelHeap) × (view : View) × (in_level t.level_at
            (Heap.modify_order t.pointer n)
            hb
          ≡ some (relinked hb h ls))
        × Places
            (relinked hb h ls)
            (store_level r.side r.price (Level.modify_order t.level t.order n) b)
            view
        × SameIndex view hb.orders b.orders
  lowered n =
      let o' : Order = record t.order {
        remaining_quantity = n;
        quantity = max t.order.quantity n;
      } in
      let xs : Cells = t.front ++ ((t.pointer, o') ∷ t.back) in
      let view' : View = set_view r.side r.price xs same.view in
      let (k, h, done, places) =
        amend hb b same.view same.places r.side r.price t.level_at t.level t.at t.found t.pointer
          t.order t.front t.back t.split t.first_one n in
      (
        h,
        _,
        view',
        done,
        places,
        change-SameIndex same.view view' i hb.orders b.orders
            (target_at view' o'
              (ap (order_at t.pointer) (set_view_here r.side r.price xs same.view)
                ∙ order_at-here t.pointer o' t.front t.back t.out_front)
              t.target.order_id)
            (λ j off.
              SameTarget-frame same.view i j t.pointer r.side r.price xs (lookup j hb.orders)
                (lookup j b.orders)
                (λ y other.
                  order_at-change y t.pointer t.order o' t.front t.back other
                  ∙ ap (order_at y) (sym t.split))
                owner off)
            same.index,
      )

  -- A larger one.
  pub raised :
      (n : Quantity)
      → let o' = record t.order { remaining_quantity = n; quantity = n } in
        (h : Heap) × (ls : LevelHeap) × (view : View) × (requeue t.pointer t.level_at n hb
          ≡ some (relinked hb h ls))
        × Places
            (relinked hb h ls)
            (store_level r.side r.price (Level.add_order (Level.remove_order t.level t.order) o') b)
            view
        × SameIndex view hb.orders b.orders
  unfolding requeue
  raised n =
      let o' : Order = record t.order { remaining_quantity = n; quantity = n } in
      let gone : PriceLevel = Level.remove_order t.level t.order in
      let b1 : OrderBook = store_level r.side r.price gone b in
      let ys : Cells = t.front ++ t.back in
      let view1 : View = set_view r.side r.price ys same.view in
      let (k, h, left, places, cleared, level) =
        leave hb b same.view same.places r.side r.price t.level_at t.level t.at t.found t.pointer
          t.order t.front t.back t.split t.first_one in
      let hb1 : LinkedBook = moved hb h t.level_at k in
      let out : (u : Side) (q : Price) → has t.pointer (view1 u q) ≡ false =
        stray hb1 b1 view1 places t.pointer t.order cleared in
      let change : Cell → Cell =
        λ c. record c { order = record c.order { remaining_quantity = n; quantity = n } } in
      let h2 : Heap = write h t.pointer (cell o' null null null) in
      let updated : update t.pointer change h ≡ some h2 =
        update-ok t.pointer change h (cell t.order null null null) t.pointer_ok cleared in
      let hb2 : LinkedBook = record hb1 { cells = h2 } in
      let (k3, h3, joined, places3, there) =
        join hb2 b1 view1
          (write_stray-Places hb1 b1 view1 t.pointer (cell o' null null null) places out) r.side
          r.price t.level_at gone t.at
          (find_level-store_level r.side r.price gone b r.side r.price
            ∙ rw (same_place_refl r.side r.price) refl)
          t.pointer o' t.pointer_ok (write_here h t.pointer (cell o' null null null)) in
      let view3 : View =
        set_view r.side r.price (view1 r.side r.price ++ ((t.pointer, o') ∷ [])) view1 in
      (
        h3,
        _,
        view3,
        bind_some _ _ left (bind_some _ _ updated joined),
        subst (λ c. Places (moved hb2 h3 t.level_at k3) c view3)
            (store_level-store_level r.side r.price gone (Level.add_order gone o') b) places3,
        change-SameIndex same.view view3 i hb.orders b.orders
            (target_at view3 o'
              (ap (order_at t.pointer) (
                  set_view_here r.side r.price (view1 r.side r.price ++ ((t.pointer, o') ∷ []))
                    view1)
                ∙ order_at-here t.pointer o' (view1 r.side r.price) [] (out r.side r.price))
              t.target.order_id)
            (λ j off at_j.
              SameTarget-frame view1 i j t.pointer r.side r.price
                (view1 r.side r.price ++ ((t.pointer, o') ∷ [])) (lookup j hb.orders)
                (lookup j b.orders)
                (λ y other. order_at-join y t.pointer o' (view1 r.side r.price) other)
                (λ z at. absurd (
                  ground (
                    arith,
                    order_at-has t.pointer z (view1 r.side r.price) at,
                    out r.side r.price,
                  )))
                off
                (SameTarget-frame same.view i j t.pointer r.side r.price ys (lookup j hb.orders)
                  (lookup j b.orders)
                  (λ y other.
                    sym (order_at-leave y t.pointer t.order t.front t.back other)
                    ∙ ap (order_at y) (sym t.split))
                  owner off at_j))
            same.index,
      )

-- ===== src/HeapMatch/Drop.antt =====
-- A filled order leaves its level and the index, and an empty level its map.
use lobsimulater.Base.{
  ◌≤◌, ◌≡◌, refl, sym, ◌∙◌, ap, subst, List, [], ◌∷◌, some, some-injective, false, ◌==◌, ◌>>=◌,
  Bool-cases, inl, inr, arith, if◌then◌else◌, lookup, erase, lookup-erase,
}
use lobsimulater.Types.{Side, Order, OrderId, Price, is_filled}
use lobsimulater.Level
use lobsimulater.Level.{PriceLevel, occurs}
use lobsimulater.Levels.{Levels}
use lobsimulater.Levels.Order.{IsSorted}
use lobsimulater.Book.{OrderBook, levels_of, store_level}
use lobsimulater.Heap
use lobsimulater.Heap.{Ptr, null, Cell, cell, Heap, LevelCell}
use lobsimulater.Heap.Linked.{Cells, orders_of, has, first, load-ok}
use lobsimulater.Heap.Steps.{bind_some}
use lobsimulater.HeapBook.{LinkedBook, map_of, in_level, free}
use lobsimulater.HeapBook.Places.{View, same_place, set_view}
use lobsimulater.HeapBook.Owned.{
  SameTarget, SameTarget-frame, order_at, order_at-leave, order_at-here,
}
use lobsimulater.HeapBook.Steps.{stray, stray-Places, moved, leave}
use lobsimulater.HeapBook.Refines.{
  IsBook, store_level-SameFields, store_level-prices, touch-Places, touch-prices, index-known,
}
use lobsimulater.HeapMatch.{erase_order, drop_filled}
use lobsimulater.HeapMatch.Front.{BestLevel, FrontCell}

order_at-occurs :
    (y : Ptr) (z : Order) (xs : Cells) → order_at y xs ≡ some z → 1 ≤ occurs z.id (orders_of xs)
order_at-occurs y z [] e = absurd (ground arith)
order_at-occurs y z ((x, o) ∷ xs) e = elim (Bool-cases (y == x)) [
  | inl on ↦ let one : o ≡ z = ground (arith, on) in ground (arith, ap (λ (w : Order). w.id) one)
  | inr off ↦ ground (arith, order_at-occurs y z xs (ground (arith, off)))
]

free_away : (h : Heap) (x a : Ptr) → (a == x) ≡ false → free h x a ≡ h a
unfolding free
free_away h x a off = rw off

module _ (hb : LinkedBook) (b : OrderBook) (same : IsBook hb b) (s : Side) (p : Price)
    (l : PriceLevel) (m : Levels) (o : Order) (os : List Order) (t : BestLevel hb b same s p l m)
    (x : FrontCell hb s p t.address l same.view o os t.place) (sorted : IsSorted s (levels_of s b))
    (known : lookup o.id b.orders ≡ some (record { side = s; price = p }))
    (alone : occurs o.id os ≡ 0) where
  -- The index owns the front cell for its id.
  owned : lookup o.id hb.orders ≡ some x.pointer
  owned =
      let (y, z, held, at, id) = index-known same.view o.id _ _ (
        subst (λ r. SameTarget same.view o.id (lookup o.id hb.orders) r) known (same.index o.id)) in
      let there : order_at y ((x.pointer, o) ∷ x.behind) ≡ some z =
        ap (order_at y) (sym x.cells) ∙ at in
      elim (Bool-cases (y == x.pointer)) [
        | inl on ↦ let one : y ≡ x.pointer = ground (arith, on) in held ∙ ap some one
        | inr off ↦ absurd (
            ground (
              arith,
              order_at-occurs y z x.behind (ground (arith, off, there)),
              ap (λ i. occurs i (orders_of x.behind)) id,
              ap (occurs o.id) x.orders,
              alone,
            ))
      ]

  -- The books agree again; neither the maps nor the other places have changed.
  abbrev Kept : LinkedBook → OrderBook → Type 0
  Kept hb' c =
      (kept : IsBook hb' c) × ((u : Side) → map_of u hb' ≡ map_of u hb)
      × ((u : Side) (r : Price)
          → same_place s p u r ≡ false
          → first (kept.view u r) null ≡ first (same.view u r) null)

  abbrev without : OrderBook
  without = record (store_level s p (Level.remove_order l o) b) { orders = erase o.id b.orders }

  gone :
      (hb' : LinkedBook) × ((do
        b1 ← in_level t.address (Heap.remove_order x.pointer) hb
        some (erase_order o.id b1))
        ≡ some hb')
      × Kept hb' without
  unfolding erase_order
  gone =
      let b1 : OrderBook = store_level s p (Level.remove_order l o) b in
      let view : View = set_view s p x.behind same.view in
      let (k, h, left, places, cleared, level) =
        leave hb b same.view same.places s p t.address l t.at t.found x.pointer o [] x.behind
          x.cells refl in
      let hb1 : LinkedBook = moved hb h t.address k in
      let hb2 : LinkedBook = record hb1 {
        orders = erase o.id hb1.orders;
        cells = free h x.pointer;
      } in
      let out : (u : Side) (q : Price) → has x.pointer (view u q) ≡ false =
        stray hb1 b1 view places x.pointer o cleared in
      (
        hb2,
        bind_some _ _ left (rw (owned, erase_order) refl),
        (
          record {
            view = view;
            places = touch-Places hb2 b1 view _ _ _ (
                stray-Places hb1 b1 view x.pointer (free h x.pointer) places out
                  (λ a off. free_away h x.pointer a off));
            index = λ j. index_at j;
            prices =
                touch-prices hb b1 _ _ _ (
                  store_level-prices s p (Level.remove_order l o) l hb b sorted t.found
                    same.prices);
            fields = store_level-SameFields s p (Level.remove_order l o) hb b same.fields;
          },
          λ u. refl,
          λ u r off. rw off refl,
        ),
      )
    where
      index_at :
          (j : OrderId)
          → SameTarget
              (set_view s p x.behind same.view)
              j
              (lookup j (erase o.id hb.orders))
              (lookup j (erase o.id b.orders))
      index_at j =
          rw (lookup-erase j o.id hb.orders, lookup-erase j o.id b.orders)
            (elim (Bool-cases (o.id == j)) [
              | inl own ↦ rw own tt
              | inr other ↦ rw other (
                  SameTarget-frame same.view o.id j x.pointer s p x.behind (lookup j hb.orders)
                    (lookup j b.orders)
                    (λ y off.
                      sym (order_at-leave y x.pointer o [] x.behind off)
                      ∙ ap (order_at y) (sym x.cells))
                    (λ z at. front_id z (ap (order_at x.pointer) (sym x.cells) ∙ at)) other
                    (same.index j))
            ])
        where
          front_id :
              (z : Order) → order_at x.pointer ((x.pointer, o) ∷ x.behind) ≡ some z → z.id ≡ o.id
          front_id z at =
              ap (λ (w : Order). w.id)
                (some-injective _ _ (sym at ∙ order_at-here x.pointer o [] x.behind refl))

  pub drop :
      (hb' : LinkedBook) × (drop_filled t.address x.pointer hb ≡ some hb')
      × Kept hb' (if is_filled o then without else b)
  unfolding drop_filled
  drop =
      let loaded = load-ok x.pointer hb.cells _ x.pointer_ok x.cell_here in
      elim (Bool-cases (is_filled o)) [
        | inr off ↦
            (hb, bind_some _ _ loaded (rw off refl), rw off (same, λ u. refl, λ u r e. refl))
        | inl on ↦
            let (hb', done, result) = gone in (hb', bind_some _ _ loaded (rw on done), rw on result)
      ]

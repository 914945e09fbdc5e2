-- ===== src/Heap/Refines.antt =====
-- The operations on the linked cells of a level, beside those on the queue of `Level`.
use lobsimulater.Base.{◌≡◌, refl, sym, ◌∙◌, ap, List, [], ◌∷◌, ◌++◌, some, false, ◌==◌, arith, max}
use lobsimulater.Types.{Order, Quantity, add32, sub32, to_uint32}
use lobsimulater.Level
use lobsimulater.Level.{PriceLevel, occurs, unlink, replace_order}
use lobsimulater.Heap.{
  Ptr, null, Cell, cell, Heap, LevelCell, write, update, add_order, remove_order, modify_order,
}
use lobsimulater.Heap.Linked.{
  Cells, orders_of, has, first, last, Linked, Linked-write, Linked-frame, Linked-append,
  Linked-split, Apart, load-ok, write_here, write_away, first-append, last-append, orders_of-append,
  has-append,
}
use lobsimulater.Heap.Relink.{SameOutside, update-ok}
use lobsimulater.Heap.Steps.{
  bind_some, Apart-single, link_back_lem, unlink_before_lem, unlink_after_lem, Apart-front,
  Apart-join, Apart-away, Apart-back,
}

-- The level at the address `this` stands for the queue of `q`, through the cells `xs`.
pub record IsLevel (h : Heap) (this : Ptr) (l : LevelCell) (xs : Cells) (q : PriceLevel)
    : Type 0 where
  pub price : l.price ≡ q.price
  pub side : l.side ≡ q.side
  pub total : l.total_quantity ≡ q.total_quantity
  pub count : l.order_count ≡ q.order_count
  pub queue : q.queue ≡ orders_of xs
  pub head : l.head ≡ first xs null
  pub tail : l.tail ≡ last null xs
  pub linked : Linked h this null xs null

-- `addOrder` of a cell outside the level puts its order at the back of the queue, writes to no other
-- cell than those of the level, and counts as the operation on the queue does.
pub add_order-IsLevel :
    (h : Heap) (this p : Ptr) (l : LevelCell) (xs : Cells) (q : PriceLevel) (c : Cell)
    → IsLevel h this l xs q
    → (p == null) ≡ false
    → h p ≡ some c
    → has p xs ≡ false
    → (l' : LevelCell) × (h' : Heap) × (add_order this p l h ≡ some (l', h'))
      × IsLevel h' this l' (xs ++ ((p, c.order) ∷ [])) (Level.add_order q c.order)
      × SameOutside (xs ++ ((p, c.order) ∷ [])) h h'
unfolding add_order Level.add_order
add_order-IsLevel h this p l xs q c v ok here out =
    let c1 : Cell = cell c.order l.tail null this in
    let h1 : Heap = write h p c1 in
    let first_step : update p (λ d. record d { level = this; next = null; prev = l.tail }) h
        ≡ some h1 =
      update-ok p (λ d. record d { level = this; next = null; prev = l.tail }) h c ok here in
    let (h2, linked, w, same) =
      link_back_lem h1 this p l xs (Linked-write h this null null p c1 xs out v.linked) v.head
        v.tail in
    let there : h2 p ≡ some c1 = same p out ∙ write_here h p c1 in
    let at_back : Linked h2 this (last null xs) ((p, c.order) ∷ []) null =
      (there ∙ ap (λ t. some (cell c.order t null this)) v.tail, ok, refl, tt) in
    (
      record (record l { head = first xs p }) {
        tail = p;
        total_quantity = add32 l.total_quantity c.order.remaining_quantity;
        order_count = add32 l.order_count 1;
      },
      h2,
      bind_some _ _ first_step
          (bind_some _ _ linked (bind_some _ _ (load-ok p h2 c1 ok there) refl)),
      record {
        price = v.price;
        side = v.side;
        total = ap (λ n. add32 n c.order.remaining_quantity) v.total;
        count = ap (λ n. add32 n 1) v.count;
        queue =
            ap (λ x. x ++ (c.order ∷ [])) v.queue ∙ sym (orders_of-append xs ((p, c.order) ∷ []));
        head = sym (first-append xs ((p, c.order) ∷ []) null);
        tail = sym (last-append null xs ((p, c.order) ∷ []));
        linked =
            Linked-append h2 this null null xs ((p, c.order) ∷ []) w at_back
              (Apart-single p c.order xs out);
      },
      λ a off.
          same a (ground (arith, off, has-append a xs ((p, c.order) ∷ [])))
          ∙ write_away h p a c1 (ground (arith, off, has-append a xs ((p, c.order) ∷ []))),
    )

unlink-append :
    (o : Order) (os rest : List Order)
    → occurs o.id os ≡ 0
    → unlink o.id (os ++ (o ∷ rest)) ≡ os ++ rest
unfolding unlink
unlink-append o [] rest none_there = ground arith
unlink-append o (x ∷ os) rest none_there = ground (arith, unlink-append o os rest)

replace_order-append :
    (o n : Order) (os rest : List Order)
    → occurs o.id os ≡ 0
    → replace_order o.id n (os ++ (o ∷ rest)) ≡ os ++ (n ∷ rest)
unfolding replace_order
replace_order-append o n [] rest none_there = ground arith
replace_order-append o n (x ∷ os) rest none_there = ground (arith, replace_order-append o n os rest)

-- The parts of a level at one of its cells.
module _ (h : Heap) (this p : Ptr) (l : LevelCell) (o : Order) (ys zs : Cells) (q : PriceLevel)
    (v : IsLevel h this l (ys ++ ((p, o) ∷ zs)) q) where
  abbrev here_cell : Cell
  here_cell = cell o (last null ys) (first zs null) this

  parts :
      Linked h this null ys p
      × (h p ≡ some here_cell)
      × ((p == null) ≡ false)
      × (has p zs ≡ false)
      × Linked h this p zs null
      × (has p ys ≡ false)
      × Apart ys zs
  parts =
      let (front, (here, ok, out, back), apart) =
        Linked-split h this null null ys ((p, o) ∷ zs) v.linked in
      let (out', apart') = Apart-front p o ys zs apart in (front, here, ok, out, back, out', apart')

  parts-head : l.head ≡ first ys p
  parts-head = v.head ∙ first-append ys ((p, o) ∷ zs) null

  parts-tail : l.tail ≡ last p zs
  parts-tail = v.tail ∙ last-append null ys ((p, o) ∷ zs)

  parts-queue : q.queue ≡ orders_of ys ++ (o ∷ orders_of zs)
  parts-queue = v.queue ∙ orders_of-append ys ((p, o) ∷ zs)

  outside :
      (a : Ptr)
      → has a (ys ++ ((p, o) ∷ zs)) ≡ false
      → (has a ys ≡ false) × ((a == p) ≡ false) × (has a zs ≡ false)
  outside a off = ground (arith, has-append a ys ((p, o) ∷ zs))

  -- `removeOrder` of any cell of a level, whose order has an id that no order before it has, takes that
  -- order out of the queue, clears the pointers of its cell, writes to no cell outside the level, and
  -- counts as the operation on the queue does.
  pub remove_order-IsLevel :
      occurs o.id (orders_of ys) ≡ 0
      → (l' : LevelCell) × (h' : Heap) × (remove_order p l h ≡ some (l', h'))
        × IsLevel h' this l' (ys ++ zs) (Level.remove_order q o)
        × (h' p ≡ some (cell o null null null))
        × SameOutside (ys ++ ((p, o) ∷ zs)) h h'
  unfolding remove_order Level.remove_order
  remove_order-IsLevel none_before =
      let (front, here, ok, out, back, out', apart) = parts in
      let (h1, step1, front1, same1) =
        unlink_before_lem h this p (first zs null) o l ys ok here front parts-head in
      let l1 : LevelCell = record l { head = first ys (first zs null) } in
      let back1 : Linked h1 this p zs null =
        Linked-frame h h1 this p null zs (λ a i. same1 a (Apart-away a ys zs apart i)) back in
      let (h2, step2, back2, same2) =
        unlink_after_lem h1 this p (last null ys) o l1 zs ok (same1 p out' ∙ here) back1
          parts-tail in
      let front2 : Linked h2 this null ys (first zs null) =
        Linked-frame h1 h2 this null (first zs null) ys
          (λ a i. same2 a (Apart-back a ys zs apart i)) front1 in
      let still : h2 p ≡ some here_cell = same2 p out ∙ same1 p out' ∙ here in
      let cleared : Cell = cell o null null null in
      (
        record (record l1 { tail = last (last null ys) zs }) {
          total_quantity = sub32 l.total_quantity o.remaining_quantity;
          order_count = sub32 l.order_count 1;
        },
        write h2 p cleared,
        bind_some _ _ step1
            (bind_some _ _ step2 (bind_some _ _ (load-ok p h2 here_cell ok still) refl)),
        record {
          price = v.price;
          side = v.side;
          total = ap (λ n. sub32 n o.remaining_quantity) v.total;
          count = ap (λ n. sub32 n 1) v.count;
          queue =
              ap (unlink o.id) parts-queue
              ∙ unlink-append o (orders_of ys) (orders_of zs) none_before
              ∙ sym (orders_of-append ys zs);
          head = sym (first-append ys zs null);
          tail = sym (last-append null ys zs);
          linked =
              Linked-append (write h2 p cleared) this null null ys zs
                (Linked-write h2 this null (first zs null) p cleared ys out' front2)
                (Linked-write h2 this (last null ys) null p cleared zs out back2) apart;
        },
        write_here h2 p cleared,
        λ a off.
            let (a_ys, a_p, a_zs) = outside a off in
            write_away h2 p a cleared a_p ∙ same2 a a_zs ∙ same1 a a_ys,
      )

  -- `modifyOrder` of any cell of a level, whose order has an id that no order before it has, changes the
  -- order in its place, writes to no other cell, and counts as the operation on the queue does.
  pub modify_order-IsLevel :
      (n : Quantity)
      → occurs o.id (orders_of ys) ≡ 0
      → let o' = record o { remaining_quantity = n; quantity = max o.quantity n } in
        (l' : LevelCell) × (h' : Heap) × (modify_order p n l h ≡ some (l', h'))
        × IsLevel h' this l' (ys ++ ((p, o') ∷ zs)) (Level.modify_order q o n)
        × ((a : Ptr) → (a == p) ≡ false → h' a ≡ h a)
  unfolding modify_order Level.modify_order
  modify_order-IsLevel n none_before =
      let (front, here, ok, out, back, out', apart) = parts in
      let o' : Order = record o { remaining_quantity = n; quantity = max o.quantity n } in
      let changed : Cell = cell o' (last null ys) (first zs null) this in
      (
        _,
        write h p changed,
        bind_some _ _ (load-ok p h here_cell ok here) refl,
        record {
          price = v.price;
          side = v.side;
          total =
              ap (λ t. add32 t (to_uint32 (Level.quantity_difference n o.remaining_quantity)))
                v.total;
          count = v.count;
          queue =
              ap (replace_order o.id o') parts-queue
              ∙ replace_order-append o o' (orders_of ys) (orders_of zs) none_before
              ∙ sym (orders_of-append ys ((p, o') ∷ zs));
          head = parts-head ∙ sym (first-append ys ((p, o') ∷ zs) null);
          tail = parts-tail ∙ sym (last-append null ys ((p, o') ∷ zs));
          linked =
              Linked-append (write h p changed) this null null ys ((p, o') ∷ zs)
                (Linked-write h this null p p changed ys out' front)
                (write_here h p changed, ok, out, Linked-write h this p null p changed zs out back)
                (Apart-join p o' ys zs out' apart);
        },
        λ a off. write_away h p a changed off,
      )

-- ===== src/HeapBook/Pointed.antt =====
-- The cell and the level behind a pointer of the index, in a book on a heap.
use lobsimulater.Base.{
  ◌≡◌, sym, ◌∙◌, ap, subst, List, [], ◌∷◌, ◌++◌, some, some-injective, false, ◌==◌, lookup,
  Option-cases, inl, inr, arith, sum_of-append, if◌then◌else◌,
}
use lobsimulater.Types.{Order, OrderId}
use lobsimulater.Level.{PriceLevel, find_order, occurs}
use lobsimulater.Levels.{LevelRef, find_level, hits}
use lobsimulater.Levels.Index.{hits_self}
use lobsimulater.Book.{OrderBook, levels_of, deref}
use lobsimulater.Book.Invariant.{Inv, side-Inv}
use lobsimulater.Book.Change.{Target, deref_lem}
use lobsimulater.Heap.{Ptr, null, cell}
use lobsimulater.Heap.Linked.{
  Cells, orders_of, has, first, last, Linked, Linked-split, orders_of-append,
}
use lobsimulater.Heap.Steps.{Apart-front}
use lobsimulater.HeapBook.{LinkedBook, find_at, map_of}
use lobsimulater.HeapBook.Places.{AtPlace}
use lobsimulater.HeapBook.Owned.{SameTarget, order_at-split}
use lobsimulater.HeapBook.Refines.{IsBook, index-known, place-found}
use lobsimulater.HeapBook.Steps.{place_here}

-- What an id leads to in the two books.
pub record Pointed (i : OrderId) (r : LevelRef) (hb : LinkedBook) (b : OrderBook)
    (same : IsBook hb b) : Type 0 where
  pub pointer : Ptr
  pub order : Order
  pub level : PriceLevel
  pub level_at : Ptr
  pub front : Cells
  pub back : Cells
  pub known : lookup i b.orders ≡ some r
  pub held : lookup i hb.orders ≡ some pointer
  pub target : Target i r b level order
  pub split : same.view r.side r.price ≡ front ++ ((pointer, order) ∷ back)
  pub out_front : has pointer front ≡ false
  pub out_back : has pointer back ≡ false
  pub first_one : occurs order.id (orders_of front) ≡ 0
  pub at : find_at r.price (map_of r.side hb) ≡ some level_at
  pub found : find_level r.price (levels_of r.side b) ≡ some level
  pub pointer_ok : (pointer == null) ≡ false
  pub cell_here : hb.cells pointer ≡ some (cell order (last null front) (first back null) level_at)

find_order-append :
    (i : OrderId) (o : Order) (os rest : List Order)
    → occurs i os ≡ 0
    → o.id ≡ i
    → find_order i (os ++ (o ∷ rest)) ≡ some o
unfolding find_order
find_order-append i o [] rest h e = ground arith
find_order-append i o (x ∷ os) rest h e = ground (arith, find_order-append i o os rest)

once_there :
    (i : OrderId) (o : Order) (os rest : List Order)
    → occurs i (os ++ (o ∷ rest)) ≡ 1
    → o.id ≡ i
    → occurs i os ≡ 0
once_there i o os rest h e =
    ground (arith, sum_of-append (λ (x : Order). if x.id == i then 1 else 0) os (o ∷ rest))

deref-found :
    (i : OrderId) (r : LevelRef) (b : OrderBook) (l : PriceLevel) (o : Order)
    → deref i r b ≡ some (l, o)
    → find_level r.price (levels_of r.side b) ≡ some l
unfolding deref
deref-found i r b l o e = elim (Option-cases (find_level r.price (levels_of r.side b))) [
  | inl missing ↦ absurd (ground (arith, missing))
  | inr (k, found) ↦ elim (Option-cases (find_order i k.queue)) [
    | inl lost ↦ absurd (ground (arith, found, lost))
    | inr (x, got) ↦ ground (arith, found, got)
  ]
]

pub pointed :
    (i : OrderId) (r : LevelRef) (hb : LinkedBook) (b : OrderBook) (same : IsBook hb b)
    → Inv b
    → lookup i b.orders ≡ some r
    → Pointed i r hb b same
pointed i r hb b same v known =
    let (l, o, t) = deref_lem i r b v known in
    let (x, z, held, order_there, id) =
      index-known same.view i _ r
        (subst (λ k. SameTarget same.view i (lookup i hb.orders) k) known (same.index i)) in
    let (ys, zs, split) = order_at-split x z (same.view r.side r.price) order_there in
    let found : find_level r.price (levels_of r.side b) ≡ some l =
      deref-found i r b l o t.reached in
    let (u, at) = place-found hb b same.view r.side r.price _ l (
      subst
        (λ k.
          AtPlace hb.cells hb.levels r.side r.price (find_at r.price (map_of r.side hb)) k
            (same.view r.side r.price))
        found (same.places r.side r.price)) in
    let place = place_here hb b same.view same.places r.side r.price u l at found in
    let queue : l.queue ≡ orders_of ys ++ (z ∷ orders_of zs) =
      place.is_level.queue ∙ ap orders_of split ∙ orders_of-append ys ((x, z) ∷ zs) in
    let once : occurs i l.queue ≡ 1 =
      ap (occurs i) (sym t.level_queue)
      ∙ (side-Inv r.side v).indexed i r.price
      ∙ ap (hits r.side r.price) known
      ∙ hits_self r in
    let alone : occurs i (orders_of ys) ≡ 0 =
      once_there i z (orders_of ys) (orders_of zs) (ap (occurs i) (sym queue) ∙ once) id in
    let one : z ≡ o = some-injective _ _ (
      sym (find_order-append i z (orders_of ys) (orders_of zs) alone id)
      ∙ ap (find_order i) (sym queue)
      ∙ ap (λ j. find_order j l.queue) (sym t.order_id)
      ∙ t.found) in
    let (front, (here, ok, out, back), apart) =
      Linked-split hb.cells u null null ys ((x, z) ∷ zs)
        (subst (λ c. Linked hb.cells u null c null) split place.is_level.linked) in
    record {
      pointer = x;
      order = o;
      level = l;
      level_at = u;
      front = ys;
      back = zs;
      known = known;
      held = held;
      out_front = (Apart-front x z ys zs apart).0;
      out_back = out;
      target = t;
      split = split ∙ ap (λ y. ys ++ ((x, y) ∷ zs)) one;
      first_one = ap (λ j. occurs j (orders_of ys)) t.order_id ∙ alone;
      at = at;
      found = found;
      pointer_ok = ok;
      cell_here = here ∙ ap (λ y. some (cell y (last null ys) (first zs null) u)) one;
    }

-- ===== src/HeapBook/Cancel/Settle.antt =====
-- What `cancelOrder` does on a heap after the order has left its level.
use lobsimulater.Base.{
  ℕ, ◌+◌, ◌≡◌, refl, sym, ◌∙◌, ap, subst, ◌∷◌, ◌++◌, none, some, true, false, ◌==◌, lookup, erase,
  lookup-erase, List-cases, Bool-cases, inl, inr, if◌then◌else◌, ◌>>=◌, arith,
}
use lobsimulater.Types.{Side, bid, ask, OrderId, Price, add64}
use lobsimulater.Level
use lobsimulater.Level.{PriceLevel}
use lobsimulater.Levels.{LevelRef, find_level}
use lobsimulater.Book
use lobsimulater.Book.{OrderBook, Metrics, levels_of, with_levels, store_level, settle_level}
use lobsimulater.Book.Invariant.{Inv, side-Inv}
use lobsimulater.Book.Cancel.{settle-empty, settle-full}
use lobsimulater.Heap.{Ptr, null, Heap, LevelCell}
use lobsimulater.Heap.Linked.{orders_of, has, first, Linked}
use lobsimulater.Heap.Refines.{IsLevel}
use lobsimulater.HeapBook.{
  LinkedBook, find_at, erase_at, map_of, with_map, free, write_level, remove_empty_level,
}
use lobsimulater.HeapBook.Find.{
  SamePrices, erase_at-SamePrices, find_at-erase_map, find_level-store_level,
  find_level-remove_empty_level,
}
use lobsimulater.HeapBook.Places.{
  View, Places, same_place, same_place_refl, same_place-eq, set_view, set_view_here,
}
use lobsimulater.HeapBook.Owned.{SameIndex, SameTarget-frame, order_at, order_at-leave}
use lobsimulater.HeapBook.Steps.{erased_level-Places, stray-Places, moved, write_level_here}
use lobsimulater.HeapBook.Refines.{
  SameFields, IsBook, store_level-SameFields, remove_empty_level-SameFields, store_level-prices,
  touch-Places, touch-prices,
}
use lobsimulater.HeapBook.Pointed.{Pointed}
use lobsimulater.HeapBook.Change.{owner}

erase_map-prices :
    (s : Side) (p : Price) (hb : LinkedBook) (b : OrderBook)
    → ((u : Side) → SamePrices (map_of u hb) (levels_of u b))
    → (u : Side)
    → SamePrices
        (map_of u (with_map s (erase_at p (map_of s hb)) hb))
        (levels_of u (Book.remove_empty_level p s b))
unfolding Book.remove_empty_level with_levels levels_of
erase_map-prices bid p hb b h bid = erase_at-SamePrices p hb.bid_levels b.bid_levels (h bid)
erase_map-prices bid p hb b h ask = h ask
erase_map-prices ask p hb b h bid = h bid
erase_map-prices ask p hb b h ask = erase_at-SamePrices p hb.ask_levels b.ask_levels (h ask)

-- The ends of `cancelOrder`.
abbrev pub dropped : OrderId → Ptr → ℕ → LinkedBook → LinkedBook
dropped i x elapsed hb = record hb {
  orders = erase i hb.orders;
  cells = free hb.cells x;
  metrics = record hb.metrics {
    orders_canceled = add64 hb.metrics.orders_canceled 1;
    total_latency = hb.metrics.total_latency + elapsed;
  };
  cache_valid = false;
}

abbrev dropped_model : OrderId → ℕ → OrderBook → OrderBook
dropped_model i elapsed b = record b {
  orders = erase i b.orders;
  metrics = record b.metrics {
    orders_canceled = add64 b.metrics.orders_canceled 1;
    total_latency = b.metrics.total_latency + elapsed;
  };
  cache_valid = false;
}

free_away : (h : Heap) (x a : Ptr) → (a == x) ≡ false → free h x a ≡ h a
unfolding free
free_away h x a off = rw off

pub dropped-IsBook :
    (i : OrderId) (x : Ptr) (elapsed : ℕ) (hb : LinkedBook) (b : OrderBook) (view : View)
    → Places hb b view
    → SameIndex view (erase i hb.orders) (erase i b.orders)
    → ((s : Side) → SamePrices (map_of s hb) (levels_of s b))
    → SameFields hb b
    → ((u : Side) (q : Price) → has x (view u q) ≡ false)
    → IsBook (dropped i x elapsed hb) (dropped_model i elapsed b)
dropped-IsBook i x elapsed hb b view ps index prices fields out = record {
  view = view;
  places =
      touch-Places (dropped i x elapsed hb) b view _ _ _
        (stray-Places hb b view x (free hb.cells x) ps out (λ a off. free_away hb.cells x a off));
  index = index;
  prices = touch-prices hb b _ _ _ prices;
  fields = (
    fields.0,
    fields.1,
    fields.2,
    refl,
    ap
        (λ (m : Metrics). record m {
          orders_canceled = add64 m.orders_canceled 1;
          total_latency = m.total_latency + elapsed;
        })
        fields.4,
  );
}

pub free_here : (h : Heap) (x : Ptr) → free h x x ≡ none
unfolding free
free_here h x = ground arith

-- The index without the order.
pub erase-SameIndex :
    (i : OrderId) (r : LevelRef) (hb : LinkedBook) (b : OrderBook) (same : IsBook hb b)
    (t : Pointed i r hb b same)
    → SameIndex
        (set_view r.side r.price (t.front ++ t.back) same.view)
        (erase i hb.orders)
        (erase i b.orders)
erase-SameIndex i r hb b same t j =
    rw (lookup-erase j i hb.orders, lookup-erase j i b.orders)
      (elim (Bool-cases (i == j)) [
        | inl own ↦ rw own tt
        | inr other ↦ rw other (
            SameTarget-frame same.view i j t.pointer r.side r.price (t.front ++ t.back)
              (lookup j hb.orders) (lookup j b.orders)
              (λ y off.
                sym (order_at-leave y t.pointer t.order t.front t.back off)
                ∙ ap (order_at y) (sym t.split))
              (owner i r hb b same t) other (same.index j))
      ])

-- The model erases the level whether it has been written or not.
erased :
    (s : Side) (p : Price) (l : PriceLevel) (b : OrderBook) (u : Side) (q : Price)
    → find_level q (levels_of u (Book.remove_empty_level p s b))
      ≡ (if same_place s p u q then none else find_level q (levels_of u (store_level s p l b)))
erased s p l b u q =
    rw (find_level-remove_empty_level s p b u q, find_level-store_level s p l b u q)
      (elim (Bool-cases (same_place s p u q)) [ inl on ↦ rw on refl | inr off ↦ rw off refl ])

-- The level that the first book had at a place is the one that the second has there, or is freed.
abbrev pub LevelsFreed : LinkedBook → LinkedBook → Type 0
LevelsFreed hb hb' =
    (s : Side) (q : Price)
    → (find_at q (map_of s hb) >>= λ t. hb'.levels t)
      ≡ (find_at q (map_of s hb') >>= λ t. hb'.levels t)

-- The map without a level, whose address is freed.
erase_map-LevelsFreed :
    (s : Side) (p : Price) (t : Ptr) (hb hb1 : LinkedBook)
    → find_at p (map_of s hb1) ≡ some t
    → ((u : Side) (q : Price) → find_at q (map_of u hb) ≡ find_at q (map_of u hb1))
    → LevelsFreed hb (
        with_map s
          (erase_at p (map_of s hb1))
          (record hb1 { levels = write_level hb1.levels t none }))
erase_map-LevelsFreed s p t hb hb1 at same u q =
    rw (same u q, find_at-erase_map s p hb1 u q)
      (elim (Bool-cases (same_place s p u q)) [
        | inr off ↦ rw off refl
        | inl on ↦
            let here : find_at q (map_of u hb1) ≡ some t =
              sym (same_place-eq (λ v x. find_at x (map_of v hb1)) s p u q on) ∙ at in
            rw (on, here) (write_level_here hb1.levels t none)
      ])

-- The book after the order has left its level.
pub record Settled (i : OrderId) (r : LevelRef) (hb : LinkedBook) (b : OrderBook)
    (left : LinkedBook) (level : LevelCell) (gone : PriceLevel) (view : View) : Type 0 where
  pub book : LinkedBook
  pub on_heap :
      (if level.head == null then remove_empty_level level.price level.side left else left) ≡ book
  pub owned : book.orders ≡ hb.orders
  pub places : Places book (settle_level r gone b) view
  pub prices : (u : Side) → SamePrices (map_of u book) (levels_of u (settle_level r gone b))
  pub fields : SameFields book (settle_level r gone b)
  pub levels_freed : LevelsFreed hb book

remove_empty_level-found :
    (p : Price) (s : Side) (t : Ptr) (hb : LinkedBook)
    → find_at p (map_of s hb) ≡ some t
    → remove_empty_level p s hb
      ≡ with_map s (erase_at p (map_of s hb)) (record hb { levels = write_level hb.levels t none })
unfolding remove_empty_level
remove_empty_level-found p s t hb at = rw (at, remove_empty_level) refl

pub settled :
    (i : OrderId) (r : LevelRef) (hb : LinkedBook) (b : OrderBook) (v : Inv b) (same : IsBook hb b)
    (t : Pointed i r hb b same) (k : LevelCell) (h : Heap)
    → let gone = Level.remove_order t.level t.order in
      let xs = t.front ++ t.back in
      let view = set_view r.side r.price xs same.view in
      Places (moved hb h t.level_at k) (store_level r.side r.price gone b) view
      → IsLevel h t.level_at k xs gone
      → Settled i r hb b (moved hb h t.level_at k) k gone view
unfolding Level.remove_order
settled i r hb b v same t k h places level =
    let gone : PriceLevel = Level.remove_order t.level t.order in
    let hb1 : LinkedBook = moved hb h t.level_at k in
    let view : View = set_view r.side r.price (t.front ++ t.back) same.view in
    elim (List-cases (t.front ++ t.back)) [
      | inr ((x, o), zs, e) ↦
          let kept : settle_level r gone b ≡ store_level r.side r.price gone b =
            settle-full i r t.level t.order b v t.known t.target o (orders_of zs)
              (level.queue ∙ ap orders_of e) in
          let linked : Linked h t.level_at null ((x, o) ∷ zs) null =
            subst (λ c. Linked h t.level_at null c null) e level.linked in
          let full : (k.head == null) ≡ false =
            ap (λ a. a == null) (level.head ∙ ap (λ c. first c null) e) ∙ linked.1 in
          record {
            book = hb1;
            on_heap = rw full refl;
            owned = refl;
            levels_freed = λ u q. refl;
            places = subst (λ c. Places hb1 c view) (sym kept) places;
            prices = λ u.
                subst (λ c. SamePrices (map_of u hb) (levels_of u c)) (sym kept)
                  (store_level-prices r.side r.price gone t.level hb b (side-Inv r.side v).sorted
                    t.found same.prices u);
            fields =
                subst (λ c. SameFields hb c) (sym kept)
                  (store_level-SameFields r.side r.price gone hb b same.fields);
          }
      | inl e ↦
          let emptied : settle_level r gone b ≡ Book.remove_empty_level r.price r.side b =
            settle-empty i r t.level t.order b v t.known t.target (level.queue ∙ ap orders_of e) in
          let hb2 : LinkedBook =
            with_map r.side (erase_at r.price (map_of r.side hb1))
              (record hb1 { levels = write_level hb1.levels t.level_at none }) in
          let empty : (k.head == null) ≡ true =
            ap (λ a. a == null) (level.head ∙ ap (λ c. first c null) e) in
          record {
            book = hb2;
            on_heap = rw empty (
                ap (λ p. remove_empty_level p k.side hb1) (level.price ∙ t.target.level_inv.price)
                ∙ ap (λ u. remove_empty_level r.price u hb1) (level.side ∙ t.target.level_inv.side)
                ∙ remove_empty_level-found r.price r.side t.level_at hb1 t.at);
            owned = refl;
            levels_freed =
                erase_map-LevelsFreed r.side r.price t.level_at hb hb1 t.at (λ u q. refl);
            places =
                subst (λ c. Places hb2 c view) (sym emptied)
                  (erased_level-Places hb1 (store_level r.side r.price gone b)
                    (Book.remove_empty_level r.price r.side b) view r.side r.price t.level_at gone
                    (erase_at r.price (map_of r.side hb1)) places t.at
                    (find_level-store_level r.side r.price gone b r.side r.price
                      ∙ rw (same_place_refl r.side r.price) refl)
                    (find_at-erase_map r.side r.price hb1) (erased r.side r.price gone b)
                    (set_view_here r.side r.price (t.front ++ t.back) same.view ∙ e));
            prices = λ u.
                subst (λ c. SamePrices (map_of u hb2) (levels_of u c)) (sym emptied)
                  (erase_map-prices r.side r.price hb b same.prices u);
            fields =
                subst (λ c. SameFields hb c) (sym emptied)
                  (remove_empty_level-SameFields r.side r.price hb b same.fields);
          }
    ]

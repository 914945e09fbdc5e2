-- ===== src/HeapBook/Steps.antt =====
-- One method of a level, called on a book on a heap, beside the same on the book of `Book`.
mod Stray
pub use Stray.*
use lobsimulater.Base.{
  ◌≡◌, refl, sym, ◌∙◌, ap, subst, [], ◌∷◌, ◌++◌, Option, none, some, some-injective, true, false,
  ◌==◌, ◌||◌, arith, Bool-cases, inl, inr, max, if◌then◌else◌, if◌then◌else◌,
}
use lobsimulater.Types.{Side, Order, Price, Quantity}
use lobsimulater.Level
use lobsimulater.Level.{PriceLevel, occurs}
use lobsimulater.Levels.{find_level}
use lobsimulater.Book.{OrderBook, levels_of, store_level}
use lobsimulater.Heap
use lobsimulater.Heap.{Ptr, null, Cell, cell, Heap, LevelCell, write}
use lobsimulater.Heap.Linked.{Cells, orders_of, has, last, has-append, Linked-split, write_away}
use lobsimulater.Heap.Relink.{SameOutside}
use lobsimulater.Heap.Steps.{bind_some}
use lobsimulater.Heap.Refines.{
  IsLevel, add_order-IsLevel, remove_order-IsLevel, modify_order-IsLevel,
}
use lobsimulater.HeapBook.{
  LinkedBook, LevelHeap, LevelMap, find_at, map_of, with_map, write_level, load_level, in_level,
}
use lobsimulater.HeapBook.Find.{find_level-store_level}
use lobsimulater.HeapBook.Places.{
  View, Places, AtPlace, IsPlace, same_place, set_view, AtPlace-cell, AtPlace-other, if_same_place,
  AtPlace-frame, change-Places,
}

module _ (hb : LinkedBook) (b : OrderBook) (view : View) (ps : Places hb b view) (s : Side)
    (p : Price) (t : Ptr) (l : PriceLevel) (at : find_at p (map_of s hb) ≡ some t)
    (level : find_level p (levels_of s b) ≡ some l) where
  pub place_here : IsPlace hb.cells hb.levels s p t l (view s p)
  place_here =
      subst (λ x. AtPlace hb.cells hb.levels s p (some t) x (view s p)) level
        (subst (λ x. AtPlace hb.cells hb.levels s p x (find_level p (levels_of s b)) (view s p)) at
          (ps s p))

  pub in_level-Places :
      (method : LevelCell → Heap → Option (LevelCell × Heap)) (k : LevelCell) (h : Heap)
      (l' : PriceLevel) (xs : Cells)
      → method place_here.level hb.cells ≡ some (k, h)
      → IsLevel h t k xs l'
      → l'.side ≡ l.side
      → l'.price ≡ l.price
      → ((u : Side) (q : Price) (a : Ptr)
          → same_place s p u q ≡ false
          → has a (view u q) ≡ true
          → h a ≡ hb.cells a)
      → (in_level t method hb ≡ some (moved hb h t k))
        × Places (moved hb h t k) (store_level s p l' b) (set_view s p xs view)
  unfolding in_level
  in_level-Places method k h l' xs called v side price same = (
    bind_some _ _ (load_level-ok hb.levels t place_here.level place_here.address place_here.stored)
        (bind_some _ _ called refl),
    change-Places hb (moved hb h t k) b (store_level s p l' b) view s p (some t) (some l') xs ps
        (if_same_place (λ u q. find_at q (map_of u hb)) s p (some t) at)
        (find_level-store_level s p l' b)
        (record {
          level = k;
          address = place_here.address;
          stored = write_level_here hb.levels t (some k);
          at_side = v.side ∙ side ∙ sym place_here.is_level.side ∙ place_here.at_side;
          at_price = v.price ∙ price ∙ sym place_here.is_level.price ∙ place_here.at_price;
          is_level = v;
        })
        (λ u q a off e. write_level_away hb.levels t a (some k) (
          AtPlace-other hb.cells hb.levels s u p q t place_here.level _ _ (view u q) (ps u q)
            place_here.stored place_here.at_side place_here.at_price off a e))
        same,
  )

  -- What two steps on cells of the level alone leave at the other places.
  untouched :
      (h : Heap)
      → SameOutside (view s p) hb.cells h
      → (u : Side) (q : Price) (a : Ptr) → same_place s p u q ≡ false
      → has a (view u q) ≡ true
      → h a ≡ hb.cells a
  untouched h same u q a off there = same a (cells_apart hb b view ps s u p q a off there)

  -- `addOrder` of a stray cell.
  pub join :
      (x : Ptr) (o : Order)
      → (x == null) ≡ false
      → hb.cells x ≡ some (cell o null null null)
      → (k : LevelCell) × (h : Heap) × (in_level t (Heap.add_order t x) hb ≡ some (moved hb h t k))
        × Places
            (moved hb h t k)
            (store_level s p (Level.add_order l o) b)
            (set_view s p (view s p ++ ((x, o) ∷ [])) view)
        × (h x ≡ some (cell o (last null (view s p)) null t))
  unfolding Level.add_order
  join x o ok there =
      let out : (u : Side) (q : Price) → has x (view u q) ≡ false = stray hb b view ps x o there in
      let (k, h, called, v, same) =
        add_order-IsLevel hb.cells t x place_here.level (view s p) l (cell o null null null)
          place_here.is_level ok there (out s p) in
      let (done, places) =
        in_level-Places (Heap.add_order t x) k h (Level.add_order l o) (view s p ++ ((x, o) ∷ []))
          called v refl refl (λ u q a off i. same a (apart u q a off i (out u q))) in
      let (front, (here, here_ok, here_out, back), out_of) =
        Linked-split h t null null (view s p) ((x, o) ∷ []) v.linked in
      (k, h, done, places, here)
    where
      apart :
          (u : Side) (q : Price) (a : Ptr)
          → same_place s p u q ≡ false
          → has a (view u q) ≡ true
          → has x (view u q) ≡ false
          → has a (view s p ++ ((x, o) ∷ [])) ≡ false
      apart u q a off i out =
          has-append a (view s p) ((x, o) ∷ [])
          ∙ ground
              (arith, cells_apart hb b view ps s u p q a off i, ap (λ (z : Ptr). has z (view u q)))

  module _ (x : Ptr) (o : Order) (ys zs : Cells) (cells : view s p ≡ ys ++ ((x, o) ∷ zs))
      (first_one : occurs o.id (orders_of ys) ≡ 0) where
    here_split : IsLevel hb.cells t place_here.level (ys ++ ((x, o) ∷ zs)) l
    here_split = subst (λ c. IsLevel hb.cells t place_here.level c l) cells place_here.is_level

    -- `removeOrder` of a cell of the level.
    pub leave :
        (k : LevelCell) × (h : Heap) × (in_level t (Heap.remove_order x) hb ≡ some (moved hb h t k))
        × Places
            (moved hb h t k)
            (store_level s p (Level.remove_order l o) b)
            (set_view s p (ys ++ zs) view)
        × (h x ≡ some (cell o null null null))
        × IsLevel h t k (ys ++ zs) (Level.remove_order l o)
    unfolding Level.remove_order
    leave =
        let (k, h, called, v, cleared, same) =
          remove_order-IsLevel hb.cells t x place_here.level o ys zs l here_split first_one in
        let (done, places) =
          in_level-Places (Heap.remove_order x) k h (Level.remove_order l o) (ys ++ zs) called v
            refl refl (untouched h (subst (λ c. SameOutside c hb.cells h) (sym cells) same)) in
        (k, h, done, places, cleared, v)

    -- `modifyOrder` of a cell of the level.
    pub amend :
        (n : Quantity)
        → let o' = record o { remaining_quantity = n; quantity = max o.quantity n } in
          (k : LevelCell) × (h : Heap) × (in_level t (Heap.modify_order x n) hb
            ≡ some (moved hb h t k))
          × Places
              (moved hb h t k)
              (store_level s p (Level.modify_order l o n) b)
              (set_view s p (ys ++ ((x, o') ∷ zs)) view)
    unfolding Level.modify_order
    amend n =
        let o' : Order = record o { remaining_quantity = n; quantity = max o.quantity n } in
        let (k, h, called, v, same) =
          modify_order-IsLevel hb.cells t x place_here.level o ys zs l here_split n first_one in
        let (done, places) =
          in_level-Places (Heap.modify_order x n) k h (Level.modify_order l o n)
            (ys ++ ((x, o') ∷ zs)) called v refl refl
            (untouched h (λ a out.
              same a (ground (arith, ap (has a) cells, has-append a ys ((x, o) ∷ zs))))) in
        (k, h, done, places)

-- What is left in a map that gives a level back, whose queue is empty.
pub erased_level-Places :
    (hb : LinkedBook) (b b' : OrderBook) (view : View) (s : Side) (p : Price) (t : Ptr)
    (l : PriceLevel) (m : LevelMap)
    → Places hb b view
    → find_at p (map_of s hb) ≡ some t
    → find_level p (levels_of s b) ≡ some l
    → ((u : Side) (q : Price)
        → find_at q (map_of u (with_map s m hb))
          ≡ (if same_place s p u q then none else find_at q (map_of u hb)))
    → ((u : Side) (q : Price)
        → find_level q (levels_of u b')
          ≡ (if same_place s p u q then none else find_level q (levels_of u b)))
    → view s p ≡ []
    → Places (with_map s m (record hb { levels = write_level hb.levels t none })) b' view
erased_level-Places hb b b' view s p t l m ps at found erased_at erased empty =
    let hb2 : LinkedBook = with_map s m (record hb { levels = write_level hb.levels t none }) in
    let here = place_here hb b view ps s p t l at found in
    let changed : Places hb2 b' (set_view s p [] view) =
      change-Places hb hb2 b b' view s p none none [] ps erased_at erased refl
        (λ u q a off e. write_level_away hb.levels t a none (
          AtPlace-other hb.cells hb.levels s u p q t here.level _ _ (view u q) (ps u q) here.stored
            here.at_side here.at_price off a e))
        (λ u q a off i. refl) in
    λ u q.
      subst
        (λ xs.
          AtPlace hb2.cells hb2.levels u q (find_at q (map_of u hb2))
            (find_level q (levels_of u b')) xs)
        (sym (if_same_place view s p [] empty u q)) (changed u q)

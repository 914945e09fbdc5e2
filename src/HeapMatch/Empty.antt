-- ===== src/HeapMatch/Empty.antt =====
-- The best level of a side, once it is empty, leaves its map.
use lobsimulater.Base.{
  ◌≡◌, refl, sym, ◌∙◌, ap, subst, List, [], ◌∷◌, none, some, ◌==◌, Bool-cases, List-cases, inl, inr,
  arith, if◌then◌else◌, is_empty,
}
use lobsimulater.Types.{
  Side, bid, ask, Order, Price, same_price, before-same_price, same_price_comm, same_price-eq,
}
use lobsimulater.Level.{PriceLevel}
use lobsimulater.Levels.{Levels, find_level}
use lobsimulater.Levels.Order.{IsSorted, AllAfter}
use lobsimulater.Book.{OrderBook, levels_of, with_levels}
use lobsimulater.Fill
use lobsimulater.Fill.Keeps.{drop_front-empty, drop_front-full}
use lobsimulater.Heap.{Ptr, null}
use lobsimulater.Heap.Linked.{Cells, orders_of, first}
use lobsimulater.Heap.Steps.{bind_some}
use lobsimulater.HeapBook.{LinkedBook, LevelMap, find_at, map_of, with_map, write_level}
use lobsimulater.HeapBook.Find.{SamePrices}
use lobsimulater.HeapBook.Places.{same_place}
use lobsimulater.HeapBook.Owned.{SameIndex}
use lobsimulater.HeapBook.Steps.{load_level-ok, erased_level-Places}
use lobsimulater.HeapBook.Refines.{SameFields, IsBook}
use lobsimulater.HeapMatch.{level_empty, front_empty, drop_front}
use lobsimulater.HeapMatch.Front.{BestLevel, best, front_of_queue}

find_level-AllAfter : (s : Side) (p : Price) (m : Levels) → AllAfter s p m → find_level p m ≡ none
unfolding find_level
find_level-AllAfter s p [] a = refl
find_level-AllAfter s p ((q, l) ∷ m) (b, a) =
    ground (arith, before-same_price s p q b, same_price_comm p q, find_level-AllAfter s p m a)

find_at-missing :
    (p : Price) (m : LevelMap) (n : Levels)
    → SamePrices m n
    → find_level p n ≡ none
    → find_at p m ≡ none
unfolding find_level find_at
find_at-missing p [] [] h e = refl
find_at-missing p [] (x ∷ n) h e = absurd h
find_at-missing p (x ∷ m) [] h e = absurd h
find_at-missing p ((q, t) ∷ m) ((r, l) ∷ n) (f, h) e =
    rw f (ground (arith, find_at-missing p m n h))

tail_at :
    (p q : Price) (t : Ptr) (m : LevelMap)
    → find_at p m ≡ none
    → find_at q m ≡ (if same_price p q then none else find_at q ((p, t) ∷ m))
unfolding find_at
tail_at p q t m e = elim (Bool-cases (same_price p q)) [
  | inl on ↦ rw on (ap (λ r. find_at r m) (sym (same_price-eq p q on)) ∙ e)
  | inr off ↦ rw off refl
]

tail_level :
    (p q : Price) (l : PriceLevel) (m : Levels)
    → find_level p m ≡ none
    → find_level q m ≡ (if same_price p q then none else find_level q ((p, l) ∷ m))
unfolding find_level
tail_level p q l m e = elim (Bool-cases (same_price p q)) [
  | inl on ↦ rw on (ap (λ r. find_level r m) (sym (same_price-eq p q on)) ∙ e)
  | inr off ↦ rw off refl
]

-- A map without its first level, among the maps of the book.
tail_of_map :
    (s : Side) (p : Price) (t : Ptr) (m : LevelMap) (hb : LinkedBook)
    → map_of s hb ≡ (p, t) ∷ m
    → find_at p m ≡ none
    → (u : Side) (q : Price)
    → find_at q (map_of u (with_map s m hb))
      ≡ (if same_place s p u q then none else find_at q (map_of u hb))
tail_of_map bid p t m hb e f bid q =
    tail_at p q t m f ∙ ap (λ n. if same_price p q then none else find_at q n) (sym e)
tail_of_map bid p t m hb e f ask q = refl
tail_of_map ask p t m hb e f bid q = refl
tail_of_map ask p t m hb e f ask q =
    tail_at p q t m f ∙ ap (λ n. if same_price p q then none else find_at q n) (sym e)

tail_of_levels :
    (s : Side) (p : Price) (l : PriceLevel) (m : Levels) (b : OrderBook)
    → levels_of s b ≡ (p, l) ∷ m
    → find_level p m ≡ none
    → (u : Side) (q : Price)
    → find_level q (levels_of u (with_levels s m b))
      ≡ (if same_place s p u q then none else find_level q (levels_of u b))
unfolding levels_of with_levels
tail_of_levels bid p l m b e f bid q =
    tail_level p q l m f ∙ ap (λ n. if same_price p q then none else find_level q n) (sym e)
tail_of_levels bid p l m b e f ask q = refl
tail_of_levels ask p l m b e f bid q = refl
tail_of_levels ask p l m b e f ask q =
    tail_level p q l m f ∙ ap (λ n. if same_price p q then none else find_level q n) (sym e)

tail-prices :
    (s : Side) (m : LevelMap) (n : Levels) (hb : LinkedBook) (b : OrderBook)
    → SamePrices m n
    → ((u : Side) → SamePrices (map_of u hb) (levels_of u b))
    → (u : Side) → SamePrices (map_of u (with_map s m hb)) (levels_of u (with_levels s n b))
unfolding levels_of with_levels
tail-prices bid m n hb b v h bid = v
tail-prices bid m n hb b v h ask = h ask
tail-prices ask m n hb b v h bid = h bid
tail-prices ask m n hb b v h ask = v

with_levels-orders : (s : Side) (m : Levels) (b : OrderBook) → (with_levels s m b).orders ≡ b.orders
unfolding with_levels
with_levels-orders bid m b = refl
with_levels-orders ask m b = refl

with_levels-SameFields :
    (s : Side) (m : Levels) (hb : LinkedBook) (b : OrderBook)
    → SameFields hb b
    → SameFields hb (with_levels s m b)
unfolding with_levels
with_levels-SameFields bid m hb b v = v
with_levels-SameFields ask m hb b v = v

with_levels-levels_of : (s : Side) (b : OrderBook) → with_levels s (levels_of s b) b ≡ b
unfolding with_levels levels_of
with_levels-levels_of bid b = refl
with_levels-levels_of ask b = refl

orders_of-nil : (xs : Cells) → orders_of xs ≡ [] → xs ≡ []
orders_of-nil [] e = refl
orders_of-nil (x ∷ xs) e = absurd (ground arith)

module _ (hb : LinkedBook) (b : OrderBook) (same : IsBook hb b) (s : Side) (p : Price)
    (l : PriceLevel) (m : Levels) (top : levels_of s b ≡ (p, l) ∷ m) where
  empty_cells : (t : BestLevel hb b same s p l m) → l.queue ≡ [] → same.view s p ≡ []
  empty_cells t e = orders_of-nil (same.view s p) (sym t.place.is_level.queue ∙ e)

  -- The test on the best level's head agrees with the queue.
  pub level_empty_lem :
      (t : BestLevel hb b same s p l m) → level_empty t.address hb ≡ some (is_empty l.queue)
  level_empty_lem t =
      bind_some _ _ (load_level-ok hb.levels t.address t.place.level t.place.address t.place.stored)
        (ap some head_empty)
    where
      head_empty : (t.place.level.head == null) ≡ is_empty l.queue
      head_empty = elim (List-cases l.queue) [
        | inl e ↦
            rw e (
              ap (λ a. a == null)
                (t.place.is_level.head ∙ ap (λ c. first c null) (empty_cells t e)))
        | inr (o, os, e) ↦
            let x = front_of_queue hb s p t.address l same.view o os t.place e in
            rw e (ap (λ a. a == null) x.head ∙ x.pointer_ok)
      ]

  pub front_empty_lem : front_empty s hb ≡ some (is_empty l.queue)
  unfolding front_empty
  front_empty_lem =
      let t = best hb b same s p l m top in rw (t.map, front_empty) (level_empty_lem t)

  -- An empty level goes, with the map's last pointer to it.
  pub drop_front-IsBook :
      IsSorted s ((p, l) ∷ m)
      → (hb' : LinkedBook) × (drop_front s hb ≡ some hb')
        × IsBook hb' (with_levels s (Fill.drop_front ((p, l) ∷ m)) b)
  unfolding drop_front
  drop_front-IsBook (after, sorted) =
      let t = best hb b same s p l m top in
      let erased : LinkedBook =
        with_map s t.rest (record hb { levels = write_level hb.levels t.address none }) in
      let tested = level_empty_lem t in
      elim (List-cases l.queue) [
        | inr (o, os, e) ↦ (
          hb,
          rw (t.map, drop_front)
              (bind_some _ _ tested (
                ap (λ c. some (if c then erased else hb)) (ap (λ (q : List Order). is_empty q) e))),
          subst (λ c. IsBook hb c)
              (sym (
                ap (λ n. with_levels s n b) (drop_front-full p l m o os e ∙ sym top)
                ∙ with_levels-levels_of s b))
              same,
        )
        | inl e ↦
            let missing : find_level p m ≡ none = find_level-AllAfter s p m after in
            let none_at : find_at p t.rest ≡ none = find_at-missing p t.rest m t.prices missing in
            (
              erased,
              rw (t.map, drop_front)
                  (bind_some _ _ tested (
                    ap (λ c. some (if c then erased else hb))
                      (ap (λ (q : List Order). is_empty q) e))),
              subst (λ n. IsBook erased (with_levels s n b)) (sym (drop_front-empty p l m e))
                  (record {
                    view = same.view;
                    places =
                        erased_level-Places hb b (with_levels s m b) same.view s p t.address l
                          t.rest same.places t.at t.found
                          (tail_of_map s p t.address t.rest hb t.map none_at)
                          (tail_of_levels s p l m b top missing) (empty_cells t e);
                    index =
                        subst (λ r. SameIndex same.view hb.orders r)
                          (sym (with_levels-orders s m b)) same.index;
                    prices = tail-prices s t.rest m hb b t.prices same.prices;
                    fields = with_levels-SameFields s m hb b same.fields;
                  }),
            )
      ]

-- ===== src/HeapMatch/Front/Heads.antt =====
-- The best level of a side of a book on a heap, and the cell at its front.
use lobsimulater.Base.{◌≡◌, refl, sym, ◌∙◌, ap, subst, List, [], ◌∷◌, some, false, ◌==◌, arith}
use lobsimulater.Types.{Side, Order, Price, same_price_refl}
use lobsimulater.Level.{PriceLevel}
use lobsimulater.Levels.{Levels, find_level}
use lobsimulater.Book.{OrderBook, levels_of}
use lobsimulater.Heap.{Ptr, null, cell}
use lobsimulater.Heap.Linked.{Cells, orders_of, has, first, Linked}
use lobsimulater.HeapBook.{LinkedBook, LevelMap, find_at, map_of}
use lobsimulater.HeapBook.Find.{SamePrices}
use lobsimulater.HeapBook.Places.{View, IsPlace}
use lobsimulater.HeapBook.Steps.{place_here}
use lobsimulater.HeapBook.Refines.{IsBook}

-- The best level of a side in the two books.
pub record BestLevel (hb : LinkedBook) (b : OrderBook) (same : IsBook hb b) (s : Side) (p : Price)
    (l : PriceLevel) (m : Levels) : Type 0 where
  pub address : Ptr
  pub rest : LevelMap
  pub map : map_of s hb ≡ (p, address) ∷ rest
  pub prices : SamePrices rest m
  pub at : find_at p (map_of s hb) ≡ some address
  pub found : find_level p (levels_of s b) ≡ some l
  pub place : IsPlace hb.cells hb.levels s p address l (same.view s p)

best_of_map :
    (p : Price) (l : PriceLevel) (m : Levels) (n : LevelMap)
    → SamePrices n ((p, l) ∷ m)
    → (t : Ptr) × (rest : LevelMap) × (n ≡ (p, t) ∷ rest) × SamePrices rest m
best_of_map p l m [] h = absurd h
best_of_map p l m ((q, t) ∷ rest) (e, h) = (t, rest, ap (λ x. (x, t) ∷ rest) e, h)

pub best :
    (hb : LinkedBook) (b : OrderBook) (same : IsBook hb b) (s : Side) (p : Price) (l : PriceLevel)
    (m : Levels)
    → levels_of s b ≡ (p, l) ∷ m
    → BestLevel hb b same s p l m
unfolding find_level find_at
best hb b same s p l m top =
    let (t, rest, map, prices) =
      best_of_map p l m (map_of s hb) (subst (SamePrices (map_of s hb)) top (same.prices s)) in
    let at : find_at p (map_of s hb) ≡ some t = ap (find_at p) map ∙ rw (same_price_refl p) refl in
    let found : find_level p (levels_of s b) ≡ some l =
      ap (find_level p) top ∙ rw (same_price_refl p) refl in
    record {
      address = t;
      rest = rest;
      map = map;
      prices = prices;
      at = at;
      found = found;
      place = place_here hb b same.view same.places s p t l at found;
    }

-- The cell at the front of a queue.
pub record FrontCell (hb : LinkedBook) (s : Side) (p : Price) (t : Ptr) (l : PriceLevel)
    (view : View) (o : Order) (os : List Order)
    (place : IsPlace hb.cells hb.levels s p t l (view s p)) : Type 0 where
  pub pointer : Ptr
  pub behind : Cells
  pub cells : view s p ≡ (pointer, o) ∷ behind
  pub orders : orders_of behind ≡ os
  pub head : place.level.head ≡ pointer
  pub pointer_ok : (pointer == null) ≡ false
  pub cell_here : hb.cells pointer ≡ some (cell o null (first behind null) t)
  pub out : has pointer behind ≡ false
  pub linked : Linked hb.cells t pointer behind null

head_cells :
    (xs : Cells) (o : Order) (os : List Order)
    → o ∷ os ≡ orders_of xs
    → (x : Ptr) × (ys : Cells) × (xs ≡ (x, o) ∷ ys) × (orders_of ys ≡ os)
head_cells [] o os e = absurd (ground arith)
head_cells ((x, z) ∷ ys) o os e =
    let one : z ≡ o = ground arith in (x, ys, ap (λ w. (x, w) ∷ ys) one, ground arith)

pub front_of_queue :
    (hb : LinkedBook) (s : Side) (p : Price) (t : Ptr) (l : PriceLevel) (view : View) (o : Order)
    (os : List Order) (place : IsPlace hb.cells hb.levels s p t l (view s p))
    → l.queue ≡ o ∷ os
    → FrontCell hb s p t l view o os place
front_of_queue hb s p t l view o os place e =
    let (x, ys, cells, orders) = head_cells (view s p) o os (sym e ∙ place.is_level.queue) in
    let (here, ok, out, linked) : Linked hb.cells t null ((x, o) ∷ ys) null =
      subst (λ c. Linked hb.cells t null c null) cells place.is_level.linked in
    record {
      pointer = x;
      behind = ys;
      cells = cells;
      orders = orders;
      head = place.is_level.head ∙ ap (λ c. first c null) cells;
      pointer_ok = ok;
      cell_here = here;
      out = out;
      linked = linked;
    }

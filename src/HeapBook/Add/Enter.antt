-- ===== src/HeapBook/Add/Enter.antt =====
-- The level that `addOrder` finds or makes on a heap.
use lobsimulater.Base.{
  ◌≡◌, refl, sym, ◌∙◌, ap, subst, [], none, some, false, ◌==◌, Option-cases, Bool-cases, inl, inr,
  arith,
}
use lobsimulater.Types.{Side, bid, ask, Price}
use lobsimulater.Level.{PriceLevel, new_level}
use lobsimulater.Levels.{find_level}
use lobsimulater.Book
use lobsimulater.Book.{OrderBook, Metrics, levels_of, with_levels, store_level}
use lobsimulater.Book.Invariant.{Inv, side-Inv, store_level-orders, store_level-store_level}
use lobsimulater.Book.Add.{get_or_create_level-found, get_or_create_level-missing}
use lobsimulater.Heap.{Ptr, null, Cell, Heap, LevelCell, write}
use lobsimulater.Heap.Linked.{has}
use lobsimulater.Heap.Refines.{IsLevel}
use lobsimulater.HeapBook.{
  LinkedBook, find_at, put_at, map_of, with_map, write_level, new_cell, get_or_create_level,
}
use lobsimulater.HeapBook.Find.{
  SamePrices, put_at-SamePrices, find_at-put_map, find_level-store_level,
}
use lobsimulater.HeapBook.Places.{
  View, Places, AtPlace, same_place_refl, set_view, if_same_place, AtPlace-cell, AtPlace-stored,
  change-Places,
}
use lobsimulater.HeapBook.Steps.{write_stray-Places, write_level_here, write_level_away}
use lobsimulater.HeapBook.Refines.{
  SameFields, store_level-SameFields, store_level-prices, place-missing, place-found,
}

-- `make_unique<Order>` at an address that is free.
pub allocate-Places :
    (hb : LinkedBook) (b : OrderBook) (view : View) (x : Ptr) (c : Cell)
    → Places hb b view
    → hb.cells x ≡ none
    → Places (record hb { cells = write hb.cells x c }) b view
allocate-Places hb b view x c ps free = write_stray-Places hb b view x c ps out
  where
    out : (u : Side) (q : Price) → has x (view u q) ≡ false
    out u q = elim (Bool-cases (has x (view u q))) [
      | inr off ↦ off
      | inl on ↦
          let (a, k, d, at, ok, stored, side, price, there, up) =
            AtPlace-cell hb.cells hb.levels u q _ _ (view u q) x (ps u q) on in
          absurd (ground (arith, sym free ∙ there))
    ]

new_cell-IsLevel :
    (h : Heap) (t : Ptr) (s : Side) (p : Price) → IsLevel h t (new_cell p s) [] (new_level p s)
new_cell-IsLevel h t s p = record {
  price = refl;
  side = refl;
  total = refl;
  count = refl;
  queue = refl;
  head = refl;
  tail = refl;
  linked = tt;
}

-- A level that `make_unique<PriceLevel>` puts at an address that is free, in its map.
made_level-Places :
    (t : Ptr) (s : Side) (p : Price) (hb : LinkedBook) (b : OrderBook) (view : View)
    → Places hb b view
    → hb.levels t ≡ none
    → (t == null) ≡ false
    → find_at p (map_of s hb) ≡ none
    → find_level p (levels_of s b) ≡ none
    → view s p ≡ []
    → Places
        (with_map s
          (put_at s p t (map_of s hb))
          (record hb { levels = write_level hb.levels t (some (new_cell p s)) }))
        (store_level s p (new_level p s) b)
        view
made_level-Places t s p hb b view ps free ok none_at missing empty =
    let hb1 : LinkedBook = record hb { levels = write_level hb.levels t (some (new_cell p s)) } in
    let hb2 : LinkedBook = with_map s (put_at s p t (map_of s hb)) hb1 in
    let changed : Places hb2 (store_level s p (new_level p s) b) (set_view s p [] view) =
      change-Places hb hb2 b (store_level s p (new_level p s) b) view s p (some t)
        (some (new_level p s)) [] ps (find_at-put_map s p t hb1)
        (find_level-store_level s p (new_level p s) b)
        (record {
          level = new_cell p s;
          address = ok;
          stored = write_level_here hb.levels t (some (new_cell p s));
          at_side = refl;
          at_price = refl;
          is_level = new_cell-IsLevel hb.cells t s p;
        })
        (λ u q a off e.
          let (k, stored) = AtPlace-stored hb.cells hb.levels u q _ _ (view u q) a (ps u q) e in
          write_level_away hb.levels t a (some (new_cell p s)) (apart a k stored))
        (λ u q a off i. refl) in
    λ u q.
      subst
        (λ xs.
          AtPlace hb2.cells hb2.levels u q (find_at q (map_of u hb2))
            (find_level q (levels_of u (store_level s p (new_level p s) b))) xs)
        (sym (if_same_place view s p [] empty u q)) (changed u q)
  where
    apart : (a : Ptr) (k : LevelCell) → hb.levels a ≡ some k → (a == t) ≡ false
    apart a k there = elim (Bool-cases (a == t)) [
      | inr off ↦ off
      | inl same ↦
          let one : a ≡ t = ground arith in
          absurd (ground (arith, sym there ∙ ap hb.levels one ∙ free))
    ]

put_map-prices :
    (s : Side) (p : Price) (t : Ptr) (l : PriceLevel) (hb : LinkedBook) (b : OrderBook)
    → ((u : Side) → SamePrices (map_of u hb) (levels_of u b))
    → (u : Side)
    → SamePrices
        (map_of u (with_map s (put_at s p t (map_of s hb)) hb))
        (levels_of u (store_level s p l b))
unfolding store_level with_levels levels_of
put_map-prices bid p t l hb b h bid = put_at-SamePrices bid p t l hb.bid_levels b.bid_levels (h bid)
put_map-prices bid p t l hb b h ask = h ask
put_map-prices ask p t l hb b h bid = h bid
put_map-prices ask p t l hb b h ask = put_at-SamePrices ask p t l hb.ask_levels b.ask_levels (h ask)

-- The level that `getOrCreateLevel` finds or makes, in the two books.
pub record Entered (t : Ptr) (s : Side) (p : Price) (hb : LinkedBook) (b : OrderBook) (view : View)
    : Type 0 where
  pub level_at : Ptr
  pub book : LinkedBook
  pub level : PriceLevel
  pub model : OrderBook
  pub on_heap : get_or_create_level t p s hb ≡ (level_at, book)
  pub in_model : Book.get_or_create_level p s b ≡ (level, model)
  pub places : Places book model view
  pub at : find_at p (map_of s book) ≡ some level_at
  pub found : find_level p (levels_of s model) ≡ some level
  pub cells : book.cells ≡ hb.cells
  pub owned : book.orders ≡ hb.orders
  pub known : model.orders ≡ b.orders
  pub fields : SameFields book model
  pub prices :
      (l : PriceLevel) (u : Side)
      → SamePrices (map_of u book) (levels_of u (store_level s p l model))

pub enter :
    (t : Ptr) (s : Side) (p : Price) (hb : LinkedBook) (b : OrderBook) (view : View)
    → Inv b
    → Places hb b view
    → ((u : Side) → SamePrices (map_of u hb) (levels_of u b))
    → SameFields hb b
    → (t == null) ≡ false
    → hb.levels t ≡ none
    → Entered t s p hb b view
unfolding get_or_create_level
enter t s p hb b view v ps prices fields ok free =
    elim (Option-cases (find_level p (levels_of s b))) [
      | inr (l, found) ↦
          let (u, at) = place-found hb b view s p _ l (
            subst (λ x. AtPlace hb.cells hb.levels s p (find_at p (map_of s hb)) x (view s p)) found
              (ps s p)) in
          record {
            level_at = u;
            book = hb;
            level = l;
            model = b;
            on_heap = rw (at, get_or_create_level) refl;
            in_model = get_or_create_level-found p s b l found;
            places = ps;
            at = at;
            found = found;
            cells = refl;
            owned = refl;
            known = refl;
            fields = fields;
            prices = λ l' u. store_level-prices s p l' l hb b (side-Inv s v).sorted found prices u;
          }
      | inl missing ↦
          let (none_at, empty) = place-missing hb b view s p _ (
            subst (λ x. AtPlace hb.cells hb.levels s p (find_at p (map_of s hb)) x (view s p))
              missing (ps s p)) in
          let hb1 : LinkedBook = record hb {
            levels = write_level hb.levels t (some (new_cell p s));
          } in
          let hb2 : LinkedBook = with_map s (put_at s p t (map_of s hb)) hb1 in
          let b2 : OrderBook = store_level s p (new_level p s) b in
          record {
            level_at = t;
            book = hb2;
            level = new_level p s;
            model = b2;
            on_heap = rw (none_at, get_or_create_level) refl;
            in_model = get_or_create_level-missing p s b missing;
            places = made_level-Places t s p hb b view ps free ok none_at missing empty;
            at = find_at-put_map s p t hb s p ∙ rw (same_place_refl s p) refl;
            found =
                find_level-store_level s p (new_level p s) b s p ∙ rw (same_place_refl s p) refl;
            cells = refl;
            owned = refl;
            known = store_level-orders s p (new_level p s) b;
            fields = store_level-SameFields s p (new_level p s) hb b fields;
            prices = λ l' u.
                subst (λ c. SamePrices (map_of u hb2) (levels_of u c))
                  (sym (store_level-store_level s p (new_level p s) l' b))
                  (put_map-prices s p t l' hb b prices u);
          }
    ]

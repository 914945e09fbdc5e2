-- ===== src/HeapBook/Steps/Stray.antt =====
-- Cells of no queue, and cells of two, on a heap.
use lobsimulater.Base.{
  ◌≡◌, refl, sym, ◌∙◌, ap, Option, some, some-injective, true, false, ◌==◌, arith, Bool-cases, inl,
  inr,
}
use lobsimulater.Types.{Side, Order, Price}
use lobsimulater.Book.{OrderBook}
use lobsimulater.Heap.{Ptr, null, Cell, cell, Heap, LevelCell, write}
use lobsimulater.Heap.Linked.{has, write_away}
use lobsimulater.HeapBook.{LinkedBook, LevelHeap, write_level, load_level}
use lobsimulater.HeapBook.Places.{
  View, Places, same_place, AtPlace-cell, AtPlace-other, AtPlace-frame,
}

-- A cell of no level stands in no queue.
pub stray :
    (hb : LinkedBook) (b : OrderBook) (view : View)
    → Places hb b view
    → (x : Ptr) (o : Order) → hb.cells x ≡ some (cell o null null null)
    → (u : Side) (q : Price) → has x (view u q) ≡ false
stray hb b view ps x o here u q = elim (Bool-cases (has x (view u q))) [
  | inr off ↦ off
  | inl on ↦
      let (a, k, c, at, ok, stored, side, price, there, up) =
        AtPlace-cell hb.cells hb.levels u q _ _ (view u q) x (ps u q) on in
      let same : c ≡ cell o null null null = some-injective _ _ (sym there ∙ here) in
      absurd (ground (arith, ap (λ (d : Cell). d.level) same))
]

-- A change of a cell of no queue.
pub stray-Places :
    (hb : LinkedBook) (b : OrderBook) (view : View) (x : Ptr) (h : Heap)
    → Places hb b view
    → ((u : Side) (q : Price) → has x (view u q) ≡ false)
    → ((a : Ptr) → (a == x) ≡ false → h a ≡ hb.cells a)
    → Places (record hb { cells = h }) b view
stray-Places hb b view x h ps out same s p =
    AtPlace-frame hb.cells h hb.levels hb.levels s p _ _ (view s p) (ps s p) (λ a e. refl)
      (λ a i. same a (apart a i))
  where
    apart : (a : Ptr) → has a (view s p) ≡ true → (a == x) ≡ false
    apart a i = ground (arith, out s p, ap (λ (y : Ptr). has y (view s p)))

pub write_stray-Places :
    (hb : LinkedBook) (b : OrderBook) (view : View) (x : Ptr) (c : Cell)
    → Places hb b view
    → ((u : Side) (q : Price) → has x (view u q) ≡ false)
    → Places (record hb { cells = write hb.cells x c }) b view
write_stray-Places hb b view x c ps out =
    stray-Places hb b view x (write hb.cells x c) ps out (λ a off. write_away hb.cells x a c off)

-- No cell stands in two places.
pub cells_apart :
    (hb : LinkedBook) (b : OrderBook) (view : View)
    → Places hb b view
    → (s u : Side) (p q : Price) (a : Ptr) → same_place s p u q ≡ false
    → has a (view u q) ≡ true
    → has a (view s p) ≡ false
cells_apart hb b view ps s u p q a off there = elim (Bool-cases (has a (view s p))) [
  | inr out ↦ out
  | inl here ↦
      let (x, k, c, at, ok, stored, side, price, cell_x, up_x) =
        AtPlace-cell hb.cells hb.levels s p _ _ (view s p) a (ps s p) here in
      let (y, m, d, at_y, ok_y, stored_y, side_y, price_y, cell_y, up_y) =
        AtPlace-cell hb.cells hb.levels u q _ _ (view u q) a (ps u q) there in
      let same : c ≡ d = some-injective _ _ (sym cell_x ∙ cell_y) in
      let one : y ≡ x = sym up_y ∙ ap (λ (e : Cell). e.level) (sym same) ∙ up_x in
      let two : (y == x) ≡ false =
        AtPlace-other hb.cells hb.levels s u p q x k _ _ (view u q) (ps u q) stored side price off y
          at_y in
      absurd (ground arith)
]

pub write_level_here : (ls : LevelHeap) (t : Ptr) (l : Option LevelCell) → write_level ls t l t ≡ l
unfolding write_level
write_level_here ls t l = ground arith

pub write_level_away :
    (ls : LevelHeap) (t a : Ptr) (l : Option LevelCell)
    → (a == t) ≡ false
    → write_level ls t l a ≡ ls a
unfolding write_level
write_level_away ls t a l off = rw off

pub load_level-ok :
    (ls : LevelHeap) (t : Ptr) (l : LevelCell)
    → (t == null) ≡ false
    → ls t ≡ some l
    → load_level t ls ≡ some l
unfolding load_level
load_level-ok ls t l ok at = rw (ok, at)

-- The book after a method of a level.
abbrev pub moved : LinkedBook → Heap → Ptr → LevelCell → LinkedBook
moved hb h t k = record hb { cells = h; levels = write_level hb.levels t (some k) }

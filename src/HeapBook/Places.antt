-- ===== src/HeapBook/Places.antt =====
-- The levels of a book on a heap beside those of the book of `Book`, at every side and price.
use lobsimulater.Base.{
  ◌≡◌, ◌≢◌, refl, sym, ◌∙◌, ap, subst, [], ◌∷◌, Option, none, some, some-injective, Bool, true,
  false, if◌then◌else◌, ◌==◌, ◌&&◌, arith, Bool-cases, inl, inr,
}
use lobsimulater.Types.{
  Side, Price, same_side, same_side-eq, same_side_refl, same_price, same_price-eq, same_price_refl,
}
use lobsimulater.Level.{PriceLevel}
use lobsimulater.Levels.{find_level}
use lobsimulater.Book.{OrderBook, levels_of}
use lobsimulater.Heap.{Ptr, null, Cell, cell, Heap, LevelCell}
use lobsimulater.Heap.Linked.{Cells, has, first, Linked, Linked-frame}
use lobsimulater.Heap.Refines.{IsLevel}
use lobsimulater.HeapBook.{LevelHeap, LinkedBook, find_at, map_of}

-- The level at the address `t` stands for the level `l` of a side at a price.
pub record IsPlace (h : Heap) (ls : LevelHeap) (s : Side) (p : Price) (t : Ptr) (l : PriceLevel)
    (xs : Cells) : Type 0 where
  pub level : LevelCell
  pub address : (t == null) ≡ false
  pub stored : ls t ≡ some level
  pub at_side : level.side ≡ s
  pub at_price : level.price ≡ p
  pub is_level : IsLevel h t level xs l

-- What the two maps hold at a side and a price.
abbrev pub AtPlace :
    Heap → LevelHeap → Side → Price → Option Ptr → Option PriceLevel → Cells → Type 0
AtPlace h ls s p none none xs = xs ≡ []
AtPlace h ls s p (some t) (some l) xs = IsPlace h ls s p t l xs
AtPlace h ls s p _ _ xs = ⊥

-- The cells that stand at each side and price.
abbrev pub View : Type 0
View = Side → Price → Cells

abbrev pub Places : LinkedBook → OrderBook → View → Type 0
Places hb b view =
    (s : Side) (p : Price)
    → AtPlace hb.cells hb.levels s p (find_at p (map_of s hb)) (find_level p (levels_of s b))
        (view s p)

abbrev pub same_place : Side → Price → Side → Price → Bool
same_place s p u q = same_side s u && same_price p q

-- A view that is changed at one place.
abbrev pub set_view : Side → Price → Cells → View → View
set_view s p xs view u q = if same_place s p u q then xs else view u q

-- Each cell of a queue is on the heap, and points to the level.
pub has-Linked :
    (h : Heap) (this before after : Ptr) (xs : Cells) (a : Ptr)
    → Linked h this before xs after
    → has a xs ≡ true
    → (c : Cell) × (h a ≡ some c) × (c.level ≡ this)
has-Linked h this before after [] a v i = absurd (ground arith)
has-Linked h this before after ((p, o) ∷ xs) a (here, ok, out, v) i = elim (Bool-cases (a == p)) [
  | inl same ↦ (cell o before (first xs after) this, ap h (ground arith) ∙ here, refl)
  | inr other ↦ has-Linked h this p after xs a v (ground arith)
]

-- A place is as it was if its level and its cells are.
pub AtPlace-frame :
    (h h' : Heap) (ls ls' : LevelHeap) (s : Side) (p : Price) (t : Option Ptr)
    (l : Option PriceLevel) (xs : Cells)
    → AtPlace h ls s p t l xs
    → ((a : Ptr) → t ≡ some a → ls' a ≡ ls a)
    → ((a : Ptr) → has a xs ≡ true → h' a ≡ h a)
    → AtPlace h' ls' s p t l xs
AtPlace-frame h h' ls ls' s p none none xs v levels cells = v
AtPlace-frame h h' ls ls' s p none (some l) xs v levels cells = absurd v
AtPlace-frame h h' ls ls' s p (some t) none xs v levels cells = absurd v
AtPlace-frame h h' ls ls' s p (some t) (some l) xs v levels cells = record {
  level = v.level;
  address = v.address;
  stored = levels t refl ∙ v.stored;
  at_side = v.at_side;
  at_price = v.at_price;
  is_level = record {
    price = v.is_level.price;
    side = v.is_level.side;
    total = v.is_level.total;
    count = v.is_level.count;
    queue = v.is_level.queue;
    head = v.is_level.head;
    tail = v.is_level.tail;
    linked = Linked-frame h h' t null null xs cells v.is_level.linked;
  };
}

-- What a place holds, if its cells are known to be some.
pub AtPlace-cell :
    (h : Heap) (ls : LevelHeap) (s : Side) (p : Price) (t : Option Ptr) (l : Option PriceLevel)
    (xs : Cells) (a : Ptr)
    → AtPlace h ls s p t l xs
    → has a xs ≡ true
    → (u : Ptr) × (k : LevelCell) × (c : Cell) × (t ≡ some u)
      × ((u == null) ≡ false)
      × (ls u ≡ some k)
      × (k.side ≡ s)
      × (k.price ≡ p)
      × (h a ≡ some c)
      × (c.level ≡ u)
AtPlace-cell h ls s p none none xs a v i = absurd (ground (arith, ap (has a) v))
AtPlace-cell h ls s p none (some l) xs a v i = absurd v
AtPlace-cell h ls s p (some t) none xs a v i = absurd v
AtPlace-cell h ls s p (some t) (some l) xs a v i =
    let (c, here, up) = has-Linked h t null null xs a v.is_level.linked i in
    (t, v.level, c, refl, v.address, v.stored, v.at_side, v.at_price, here, up)

-- A place has its level where its map says.
pub AtPlace-stored :
    (h : Heap) (ls : LevelHeap) (s : Side) (p : Price) (t : Option Ptr) (l : Option PriceLevel)
    (xs : Cells) (a : Ptr)
    → AtPlace h ls s p t l xs
    → t ≡ some a
    → (k : LevelCell) × (ls a ≡ some k)
AtPlace-stored h ls s p none none xs a v e = absurd (ground arith)
AtPlace-stored h ls s p none (some l) xs a v e = absurd v
AtPlace-stored h ls s p (some t) none xs a v e = absurd v
AtPlace-stored h ls s p (some t) (some l) xs a v e =
    (v.level, ap ls (sym (some-injective _ _ e)) ∙ v.stored)

same_place_apart :
    (s : Side) (p : Price) (u : Side) (q : Price) → same_place s p u q ≡ false → s ≡ u → p ≢ q
same_place_apart s p u q off e f = ground (
  arith,
  ap (λ x. same_side s x) e,
  same_side_refl s,
  ap (λ x. same_price p x) f,
  same_price_refl p,
)

-- An address with a level that is of another side or price than the place is not the place's.
pub AtPlace-other :
    (h : Heap) (ls : LevelHeap) (s u : Side) (p q : Price) (a : Ptr) (k : LevelCell)
    (t : Option Ptr) (l : Option PriceLevel) (xs : Cells)
    → AtPlace h ls u q t l xs
    → ls a ≡ some k
    → k.side ≡ s
    → k.price ≡ p
    → same_place s p u q ≡ false
    → (b : Ptr) → t ≡ some b
    → (b == a) ≡ false
AtPlace-other h ls s u p q a k none none xs v at side price off b e = absurd (ground arith)
AtPlace-other h ls s u p q a k none (some l) xs v at side price off b e = absurd v
AtPlace-other h ls s u p q a k (some t) none xs v at side price off b e = absurd v
AtPlace-other h ls s u p q a k (some t) (some l) xs v at side price off b e =
    elim (Bool-cases (b == a)) [
      | inr other ↦ other
      | inl same ↦
          let here : t ≡ a = ground arith in
          let one : v.level ≡ k = some-injective _ _ (sym v.stored ∙ ap ls here ∙ at) in
          absurd (
            same_place_apart s p u q off (sym side ∙ ap (λ c. c.side) (sym one) ∙ v.at_side)
              (sym price ∙ ap (λ c. c.price) (sym one) ∙ v.at_price))
    ]

pub same_place-eq :
    {A : Type 0} (f : Side → Price → A) (s : Side) (p : Price) (u : Side) (q : Price)
    → same_place s p u q ≡ true
    → f s p ≡ f u q
same_place-eq f s p u q on =
    ap (λ x. f x p) (same_side-eq s u (ground arith)) ∙ ap (f u) (same_price-eq p q (ground arith))

pub same_place_refl : (s : Side) (p : Price) → same_place s p s p ≡ true
same_place_refl s p = ground (arith, same_side_refl s, same_price_refl p)

pub set_view_here :
    (s : Side) (p : Price) (xs : Cells) (view : View) → set_view s p xs view s p ≡ xs
set_view_here s p xs view = rw (same_place_refl s p) refl

-- What stands at a place, told apart from the others.
pub if_same_place :
    {A : Type 0} (f : Side → Price → A) (s : Side) (p : Price) (v : A)
    → f s p ≡ v
    → (u : Side) (q : Price) → f u q ≡ (if same_place s p u q then v else f u q)
if_same_place f s p v e u q = elim (Bool-cases (same_place s p u q)) [
  | inl on ↦ rw on (sym (same_place-eq f s p u q on) ∙ e)
  | inr off ↦ rw off refl
]

-- Books that differ at one place alone, whose other places are not touched.
pub change-Places :
    (hb hb' : LinkedBook) (b b' : OrderBook) (view : View) (s : Side) (p : Price) (t : Option Ptr)
    (l : Option PriceLevel) (xs : Cells)
    → Places hb b view
    → ((u : Side) (q : Price)
        → find_at q (map_of u hb') ≡ (if same_place s p u q then t else find_at q (map_of u hb)))
    → ((u : Side) (q : Price)
        → find_level q (levels_of u b')
          ≡ (if same_place s p u q then l else find_level q (levels_of u b)))
    → AtPlace hb'.cells hb'.levels s p t l xs
    → ((u : Side) (q : Price) (a : Ptr)
        → same_place s p u q ≡ false
        → find_at q (map_of u hb) ≡ some a
        → hb'.levels a ≡ hb.levels a)
    → ((u : Side) (q : Price) (a : Ptr)
        → same_place s p u q ≡ false
        → has a (view u q) ≡ true
        → hb'.cells a ≡ hb.cells a)
    → Places hb' b' (set_view s p xs view)
change-Places hb hb' b b' view s p t l xs ps map_eq level_eq new levels cells u q =
    rw (map_eq u q, level_eq u q)
      (elim (Bool-cases (same_place s p u q)) [
        | inr off ↦ rw off (
            AtPlace-frame hb.cells hb'.cells hb.levels hb'.levels u q _ _ (view u q) (ps u q)
              (λ a e. levels u q a off e) (λ a i. cells u q a off i))
        | inl on ↦ rw on (
            subst (λ x. AtPlace hb'.cells hb'.levels x q t l xs) (same_side-eq s u (ground arith))
              (subst (λ x. AtPlace hb'.cells hb'.levels s x t l xs)
                (same_price-eq p q (ground arith)) new))
      ])

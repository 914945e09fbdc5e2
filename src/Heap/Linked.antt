-- ===== src/Heap/Linked.antt =====
-- The cells of a level on the heap: which pointers they hold, for a given sequence of orders.
use lobsimulater.Base.{
  ◌≡◌, refl, sym, ◌∙◌, ap, List, [], ◌∷◌, ◌++◌, some, Bool, true, false, ◌==◌, ◌||◌, arith, map,
}
use lobsimulater.Types.{Order}
use lobsimulater.Heap.{Ptr, null, Cell, cell, Heap, write, load}

-- The pointers of a queue, each with its order.
abbrev pub Cells : Type 0
Cells = List (Ptr × Order)

abbrev pub orders_of : Cells → List Order
orders_of = map λ x. x.1

abbrev pub has : Ptr → Cells → Bool
has a [] = false
has a ((p, o) ∷ xs) = (a == p) || has a xs

-- The first pointer of a queue that `after` follows, and the last of one that `before` leads.
abbrev pub first : Cells → Ptr → Ptr
first [] after = after
first ((p, o) ∷ xs) after = p

abbrev pub last : Ptr → Cells → Ptr
last before [] = before
last before ((p, o) ∷ xs) = last p xs

-- Distinct cells, each linked with its neighbours.
abbrev pub Linked : Heap → Ptr → Ptr → Cells → Ptr → Type 0
Linked h this before [] after = Unit
Linked h this before ((p, o) ∷ xs) after =
    (h p ≡ some (cell o before (first xs after) this))
    × ((p == null) ≡ false)
    × (has p xs ≡ false)
    × Linked h this p xs after

pub load-ok :
    (p : Ptr) (h : Heap) (c : Cell) → (p == null) ≡ false → h p ≡ some c → load p h ≡ some c
unfolding load
load-ok p h c ok here = rw (ok, here)

pub write_here : (h : Heap) (p : Ptr) (c : Cell) → write h p c p ≡ some c
unfolding write
write_here h p c = ground arith

pub write_away : (h : Heap) (p a : Ptr) (c : Cell) → (a == p) ≡ false → write h p c a ≡ h a
unfolding write
write_away h p a c off = rw off

-- A change elsewhere leaves a queue linked.
pub Linked-frame :
    (h g : Heap) (this before after : Ptr) (xs : Cells)
    → ((a : Ptr) → has a xs ≡ true → g a ≡ h a)
    → Linked h this before xs after
    → Linked g this before xs after
Linked-frame h g this before after [] same v = tt
Linked-frame h g this before after ((p, o) ∷ xs) same (here, ok, out, v) = (
  same p (ground arith) ∙ here,
  ok,
  out,
  Linked-frame h g this p after xs (λ a i. same a (ground (arith, i))) v,
)

pub Linked-write :
    (h : Heap) (this before after p : Ptr) (c : Cell) (xs : Cells)
    → has p xs ≡ false
    → Linked h this before xs after
    → Linked (write h p c) this before xs after
Linked-write h this before after p c xs out v =
    Linked-frame h (write h p c) this before after xs (λ a i. write_away h p a c (apart a i)) v
  where
    apart : (a : Ptr) → has a xs ≡ true → (a == p) ≡ false
    apart a i = ground (arith, ap (λ (x : Ptr). has x xs))

pub has-append : (a : Ptr) (xs ys : Cells) → has a (xs ++ ys) ≡ (has a xs || has a ys)
has-append a [] ys = refl
has-append a ((p, o) ∷ xs) ys = ground (arith, has-append a xs ys)

pub first-append :
    (xs ys : Cells) (after : Ptr) → first (xs ++ ys) after ≡ first xs (first ys after)
first-append [] ys after = refl
first-append (x ∷ xs) ys after = refl

pub last-append : (before : Ptr) (xs ys : Cells) → last before (xs ++ ys) ≡ last (last before xs) ys
last-append before [] ys = refl
last-append before ((p, o) ∷ xs) ys = last-append p xs ys

pub orders_of-append : (xs ys : Cells) → orders_of (xs ++ ys) ≡ orders_of xs ++ orders_of ys
orders_of-append [] ys = refl
orders_of-append (x ∷ xs) ys = ap (λ q. x.1 ∷ q) (orders_of-append xs ys)

-- Two queues that share no cell.
abbrev pub Apart : Cells → Cells → Type 0
Apart [] ys = Unit
Apart ((p, o) ∷ xs) ys = (has p ys ≡ false) × Apart xs ys

-- A queue is linked exactly if its two parts are.
pub Linked-append :
    (h : Heap) (this before after : Ptr) (xs ys : Cells)
    → Linked h this before xs (first ys after)
    → Linked h this (last before xs) ys after
    → Apart xs ys
    → Linked h this before (xs ++ ys) after
Linked-append h this before after [] ys v w apart = w
Linked-append h this before after ((p, o) ∷ xs) ys (here, ok, out, v) w (off, apart) = (
  here ∙ ap (λ n. some (cell o before n this)) (sym (first-append xs ys after)),
  ok,
  has-append p xs ys ∙ ground arith,
  Linked-append h this p after xs ys v w apart,
)

pub Linked-split :
    (h : Heap) (this before after : Ptr) (xs ys : Cells)
    → Linked h this before (xs ++ ys) after
    → Linked h this before xs (first ys after)
      × Linked h this (last before xs) ys after
      × Apart xs ys
Linked-split h this before after [] ys w = (tt, w, tt)
Linked-split h this before after ((p, o) ∷ xs) ys (here, ok, out, v) =
    let (l, r, a) = Linked-split h this p after xs ys v in
    (
      (
        here ∙ ap (λ n. some (cell o before n this)) (first-append xs ys after),
        ok,
        ground (arith, has-append p xs ys),
        l,
      ),
      r,
      (ground (arith, has-append p xs ys), a),
    )

-- ===== src/HeapBook/Owned.antt =====
-- Where the pointers of the index point: the order that stands behind an address of a queue.
use lobsimulater.Base.{
  ◌≡◌, sym, ◌∙◌, ap, subst, [], ◌∷◌, ◌++◌, Option, none, some, true, false, ◌==◌, arith, Bool-cases,
  inl, inr, if◌then◌else◌, Dictionary, lookup,
}
use lobsimulater.Types.{Side, Order, OrderId, Price}
use lobsimulater.Levels.{LevelRef}
use lobsimulater.Heap.{Ptr}
use lobsimulater.Heap.Linked.{Cells, has}
use lobsimulater.HeapBook.Places.{View, same_place, same_place-eq, set_view}

abbrev pub order_at : Ptr → Cells → Option Order
order_at a [] = none
order_at a ((p, o) ∷ xs) = if a == p then some o else order_at a xs

pub order_at-split :
    (a : Ptr) (o : Order) (xs : Cells)
    → order_at a xs ≡ some o
    → (ys : Cells) × (zs : Cells) × (xs ≡ ys ++ ((a, o) ∷ zs))
order_at-split a o [] e = absurd (ground arith)
order_at-split a o ((p, x) ∷ xs) e = elim (Bool-cases (a == p)) [
  | inl same ↦
      let pa : p ≡ a = ground arith in
      let xo : x ≡ o = ground arith in ([], xs, ap (λ q. (q, x) ∷ xs) pa ∙ ap (λ y. (a, y) ∷ xs) xo)
  | inr other ↦
      let (ys, zs, f) = order_at-split a o xs (ground arith) in
      ((p, x) ∷ ys, zs, ap (λ q. (p, x) ∷ q) f)
]

pub order_at-has : (a : Ptr) (o : Order) (xs : Cells) → order_at a xs ≡ some o → has a xs ≡ true
order_at-has a o [] e = absurd (ground arith)
order_at-has a o ((p, x) ∷ xs) e = ground (arith, order_at-has a o xs)

-- Another cell that joins, leaves or changes is no matter to an address.
pub order_at-join :
    (a x : Ptr) (o : Order) (xs : Cells)
    → (a == x) ≡ false
    → order_at a (xs ++ ((x, o) ∷ [])) ≡ order_at a xs
order_at-join a x o [] off = ground arith
order_at-join a x o ((p, y) ∷ xs) off = ground (arith, order_at-join a x o xs off)

pub order_at-leave :
    (a x : Ptr) (o : Order) (ys zs : Cells)
    → (a == x) ≡ false
    → order_at a (ys ++ ((x, o) ∷ zs)) ≡ order_at a (ys ++ zs)
order_at-leave a x o [] zs off = ground arith
order_at-leave a x o ((p, y) ∷ ys) zs off = ground (arith, order_at-leave a x o ys zs off)

pub order_at-here :
    (x : Ptr) (o : Order) (ys zs : Cells)
    → has x ys ≡ false
    → order_at x (ys ++ ((x, o) ∷ zs)) ≡ some o
order_at-here x o [] zs out = ground arith
order_at-here x o ((p, y) ∷ ys) zs out = ground (arith, order_at-here x o ys zs)

-- The pointer and the reference that an id is sent to.
abbrev pub SameTarget : View → OrderId → Option Ptr → Option LevelRef → Type 0
SameTarget view i none none = Unit
SameTarget view i (some a) (some r) =
    (o : Order) × (order_at a (view r.side r.price) ≡ some o) × (o.id ≡ i)
SameTarget view i _ _ = ⊥

abbrev pub SameIndex : View → Dictionary Ptr → Dictionary LevelRef → Type 0
SameIndex view ps rs = (i : OrderId) → SameTarget view i (lookup i ps) (lookup i rs)

-- Other ids keep their orders if a place changes at one address alone.
pub SameTarget-frame :
    (view : View) (i j : OrderId) (x : Ptr) (s : Side) (p : Price) (xs : Cells) (a : Option Ptr)
    (r : Option LevelRef)
    → ((y : Ptr) → (y == x) ≡ false → order_at y xs ≡ order_at y (view s p))
    → ((o : Order) → order_at x (view s p) ≡ some o → o.id ≡ i)
    → (i == j) ≡ false
    → SameTarget view j a r
    → SameTarget (set_view s p xs view) j a r
SameTarget-frame view i j x s p xs none none same own off v = tt
SameTarget-frame view i j x s p xs none (some r) same own off v = absurd v
SameTarget-frame view i j x s p xs (some a) none same own off v = absurd v
SameTarget-frame view i j x s p xs (some a) (some r) same own off (o, at, id) =
    elim (Bool-cases (same_place s p r.side r.price)) [
      | inr away ↦ rw away (o, at, id)
      | inl here ↦
          let at' : order_at a (view s p) ≡ some o =
            ap (order_at a) (same_place-eq view s p r.side r.price here) ∙ at in
          elim (Bool-cases (a == x)) [
            | inr other ↦ rw here (o, same a other ∙ at', id)
            | inl one ↦
                absurd (
                  ground
                    (arith, own o (ap (λ y. order_at y (view s p)) (sym (ground arith)) ∙ at')))
          ]
    ]

-- A change at one address of a place, told for the id that owns it and for the others.
pub change-SameIndex :
    (view view' : View) (i : OrderId) (ps : Dictionary Ptr) (rs : Dictionary LevelRef)
    → SameTarget view' i (lookup i ps) (lookup i rs)
    → ((j : OrderId)
        → (i == j) ≡ false
        → SameTarget view j (lookup j ps) (lookup j rs)
        → SameTarget view' j (lookup j ps) (lookup j rs))
    → SameIndex view ps rs
    → SameIndex view' ps rs
change-SameIndex view view' i ps rs at others v j = elim (Bool-cases (i == j)) [
  | inr other ↦ others j other (v j)
  | inl same ↦ subst (λ k. SameTarget view' k (lookup k ps) (lookup k rs)) (ground arith) at
]

pub order_at-change :
    (a x : Ptr) (o o' : Order) (ys zs : Cells)
    → (a == x) ≡ false
    → order_at a (ys ++ ((x, o') ∷ zs)) ≡ order_at a (ys ++ ((x, o) ∷ zs))
order_at-change a x o o' ys zs off =
    order_at-leave a x o' ys zs off ∙ sym (order_at-leave a x o ys zs off)

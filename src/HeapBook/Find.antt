-- ===== src/HeapBook/Find.antt =====
-- What the two kinds of maps of levels hold after a write and an erasure.
use lobsimulater.Base.{
  ◌≡◌, refl, ◌∙◌, [], ◌∷◌, Option, none, some, true, false, if◌then◌else◌, arith, Bool-cases, inl,
  inr, ◌⊎◌, ◌&&◌,
}
use lobsimulater.Types.{
  Side, bid, ask, Price, same_side, same_price, same_price-eq, before, before_total,
  before-same_price, before_trans, before_irrefl, same_price_comm,
}
use lobsimulater.Level.{PriceLevel}
use lobsimulater.Levels.{Levels, find_level, put_level, erase_level}
use lobsimulater.Levels.Order.{IsSorted, find_level-All}
use lobsimulater.Book.{OrderBook, levels_of, store_level, with_levels}
use lobsimulater.Book
use lobsimulater.Heap.{Ptr}
use lobsimulater.HeapBook.{LevelMap, LinkedBook, find_at, put_at, erase_at, map_of, with_map}

-- The tests of a search past an entry at `q`.
module _ {A : Type 0} (p q r : Price) (other : same_price q p ≡ false) (x y z : Option A) where
  past_entry :
      (if same_price q r then x else (if same_price p r then y else z))
      ≡ (if same_price p r then y else (if same_price q r then x else z))
  past_entry = between (Bool-cases (same_price p r))
    where
      between :
          (same_price p r ≡ true) ⊎ (same_price p r ≡ false)
          → (if same_price q r then x else (if same_price p r then y else z))
            ≡ (if same_price p r then y else (if same_price q r then x else z))
      between (inl same) = rw (same, ← same_price-eq p r same, other)
      between (inr off) = rw off

pub find_level-put_level :
    (s : Side) (p : Price) (l : PriceLevel) (m : Levels) (r : Price)
    → find_level r (put_level s p l m) ≡ (if same_price p r then some l else find_level r m)
unfolding find_level put_level
find_level-put_level s p l [] r = refl
find_level-put_level s p l ((q, k) ∷ m) r = elim (Bool-cases (before s p q)) [
  | inl first ↦ rw first refl
  | inr later ↦ elim (Bool-cases (before s q p)) [
    | inl past ↦
        rw (later, past, find_level-put_level s p l m r)
          (past_entry p q r (before-same_price s q p past) (some k) (some l) (find_level r m))
    | inr level ↦
        rw (later, level, same_price-eq p q (before_total s p q later level)) (ground arith)
  ]
]

pub find_at-put_at :
    (s : Side) (p : Price) (t : Ptr) (m : LevelMap) (r : Price)
    → find_at r (put_at s p t m) ≡ (if same_price p r then some t else find_at r m)
unfolding find_at put_at
find_at-put_at s p t [] r = refl
find_at-put_at s p t ((q, u) ∷ m) r = elim (Bool-cases (before s p q)) [
  | inl first ↦ rw first refl
  | inr later ↦ elim (Bool-cases (before s q p)) [
    | inl past ↦
        rw (later, past, find_at-put_at s p t m r)
          (past_entry p q r (before-same_price s q p past) (some u) (some t) (find_at r m))
    | inr level ↦
        rw (later, level, same_price-eq p q (before_total s p q later level)) (ground arith)
  ]
]

pub find_level-erase_level :
    (p : Price) (m : Levels) (r : Price)
    → find_level r (erase_level p m) ≡ (if same_price p r then none else find_level r m)
unfolding find_level erase_level
find_level-erase_level p [] r = ground arith
find_level-erase_level p ((q, l) ∷ m) r = elim (Bool-cases (same_price q p)) [
  | inl same ↦ rw (same, same_price-eq q p same, find_level-erase_level p m r) (ground arith)
  | inr other ↦
      rw (other, find_level-erase_level p m r)
        (past_entry p q r other (some l) none (find_level r m))
]

pub find_at-erase_at :
    (p : Price) (m : LevelMap) (r : Price)
    → find_at r (erase_at p m) ≡ (if same_price p r then none else find_at r m)
unfolding find_at erase_at
find_at-erase_at p [] r = ground arith
find_at-erase_at p ((q, t) ∷ m) r = elim (Bool-cases (same_price q p)) [
  | inl same ↦ rw (same, same_price-eq q p same, find_at-erase_at p m r) (ground arith)
  | inr other ↦
      rw (other, find_at-erase_at p m r) (past_entry p q r other (some t) none (find_at r m))
]

-- The same of a book, at every side and price.
pub find_level-store_level :
    (s : Side) (p : Price) (l : PriceLevel) (b : OrderBook) (u : Side) (q : Price)
    → find_level q (levels_of u (store_level s p l b))
      ≡ (if same_side s u && same_price p q then some l else find_level q (levels_of u b))
unfolding store_level with_levels levels_of
find_level-store_level bid p l b bid q = find_level-put_level bid p l b.bid_levels q
find_level-store_level bid p l b ask q = refl
find_level-store_level ask p l b bid q = refl
find_level-store_level ask p l b ask q = find_level-put_level ask p l b.ask_levels q

pub find_level-remove_empty_level :
    (s : Side) (p : Price) (b : OrderBook) (u : Side) (q : Price)
    → find_level q (levels_of u (Book.remove_empty_level p s b))
      ≡ (if same_side s u && same_price p q then none else find_level q (levels_of u b))
unfolding Book.remove_empty_level with_levels levels_of
find_level-remove_empty_level bid p b bid q = find_level-erase_level p b.bid_levels q
find_level-remove_empty_level bid p b ask q = refl
find_level-remove_empty_level ask p b bid q = refl
find_level-remove_empty_level ask p b ask q = find_level-erase_level p b.ask_levels q

pub find_at-put_map :
    (s : Side) (p : Price) (t : Ptr) (b : LinkedBook) (u : Side) (q : Price)
    → find_at q (map_of u (with_map s (put_at s p t (map_of s b)) b))
      ≡ (if same_side s u && same_price p q then some t else find_at q (map_of u b))
find_at-put_map bid p t b bid q = find_at-put_at bid p t b.bid_levels q
find_at-put_map bid p t b ask q = refl
find_at-put_map ask p t b bid q = refl
find_at-put_map ask p t b ask q = find_at-put_at ask p t b.ask_levels q

pub find_at-erase_map :
    (s : Side) (p : Price) (b : LinkedBook) (u : Side) (q : Price)
    → find_at q (map_of u (with_map s (erase_at p (map_of s b)) b))
      ≡ (if same_side s u && same_price p q then none else find_at q (map_of u b))
find_at-erase_map bid p b bid q = find_at-erase_at p b.bid_levels q
find_at-erase_map bid p b ask q = refl
find_at-erase_map ask p b bid q = refl
find_at-erase_map ask p b ask q = find_at-erase_at p b.ask_levels q

-- Two maps with the same prices in the same order.
abbrev pub SamePrices : LevelMap → Levels → Type 0
SamePrices [] [] = Unit
SamePrices ((p, t) ∷ m) ((q, l) ∷ n) = (p ≡ q) × SamePrices m n
SamePrices _ _ = ⊥

pub put_at-SamePrices :
    (s : Side) (p : Price) (t : Ptr) (l : PriceLevel) (m : LevelMap) (n : Levels)
    → SamePrices m n
    → SamePrices (put_at s p t m) (put_level s p l n)
unfolding put_at put_level
put_at-SamePrices s p t l [] [] h = (refl, tt)
put_at-SamePrices s p t l [] (x ∷ n) h = absurd h
put_at-SamePrices s p t l (x ∷ m) [] h = absurd h
put_at-SamePrices s p t l ((q, u) ∷ m) ((r, k) ∷ n) (e, h) = elim (Bool-cases (before s p r)) [
  | inl first ↦ rw (e, first) (refl, (refl, h))
  | inr later ↦ elim (Bool-cases (before s r p)) [
    | inl past ↦ rw (e, later, past) (refl, put_at-SamePrices s p t l m n h)
    | inr level ↦ rw (e, later, level) (refl, h)
  ]
]

pub erase_at-SamePrices :
    (p : Price) (m : LevelMap) (n : Levels)
    → SamePrices m n
    → SamePrices (erase_at p m) (erase_level p n)
unfolding erase_at erase_level
erase_at-SamePrices p [] [] h = tt
erase_at-SamePrices p [] (x ∷ n) h = absurd h
erase_at-SamePrices p (x ∷ m) [] h = absurd h
erase_at-SamePrices p ((q, u) ∷ m) ((r, k) ∷ n) (e, h) = elim (Bool-cases (same_price r p)) [
  | inl same ↦ rw (e, same) (erase_at-SamePrices p m n h)
  | inr other ↦ rw (e, other) (refl, erase_at-SamePrices p m n h)
]

-- A write to a level of the map moves no price.
pub put_level-SamePrices :
    (s : Side) (p : Price) (l k : PriceLevel) (m : LevelMap) (n : Levels)
    → IsSorted s n
    → find_level p n ≡ some k
    → SamePrices m n
    → SamePrices m (put_level s p l n)
unfolding find_level put_level
put_level-SamePrices s p l k [] [] a e h = absurd (ground arith)
put_level-SamePrices s p l k [] (x ∷ n) a e h = absurd h
put_level-SamePrices s p l k (x ∷ m) [] a e h = absurd h
put_level-SamePrices s p l k ((q, u) ∷ m) ((r, j) ∷ n) (after, sorted) e (f, h) =
    elim (Bool-cases (before s p r)) [
      | inl first ↦
          let other : same_price r p ≡ false =
            same_price_comm r p ∙ before-same_price s p r first in
          absurd (
            ground (
              arith,
              before_trans s p r p first
                  (find_level-All (λ x. before s r x.0 ≡ true) p n k (ground arith) after),
              before_irrefl s p,
            ))
      | inr later ↦ elim (Bool-cases (before s r p)) [
        | inl past ↦
            rw (later, past)
              (
                f,
                put_level-SamePrices s p l k m n sorted
                    (ground (arith, before-same_price s r p past)) h,
              )
        | inr level ↦ rw (later, level) (f, h)
      ]
    ]

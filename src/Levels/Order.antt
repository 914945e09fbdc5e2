-- ===== src/Levels/Order.antt =====
-- The order of the entries in a map of levels, and properties of all entries, through its operations.
use lobsimulater.Base.{
  ◌≡◌, refl, [], ◌∷◌, none, some, true, false, if◌then◌else◌, arith, All, Bool-cases, inl, inr, ◌⊎◌,
  subst,
}
use lobsimulater.Types.{
  Side, Price, same_price, same_price-eq, same_price_comm, before, before_trans, before_total,
  before-same_price, before_irrefl,
}
use lobsimulater.Level.{PriceLevel}
use lobsimulater.Levels.{Levels, find_level, put_level, erase_level, queue_at}

-- Every entry comes after a price.
abbrev pub AllAfter : Side → Price → Levels → Type 0
AllAfter s p = All λ e. before s p e.0 ≡ true

-- The prices come strictly one after the other.
abbrev pub IsSorted : Side → Levels → Type 0
IsSorted s [] = Unit
IsSorted s ((p, l) ∷ m) = AllAfter s p m × IsSorted s m

pub AllAfter-trans :
    (s : Side) (p q : Price) (m : Levels) → before s p q ≡ true → AllAfter s q m → AllAfter s p m
AllAfter-trans s p q [] h a = tt
AllAfter-trans s p q ((r, l) ∷ m) h (b, a) = (before_trans s p q r h b, AllAfter-trans s p q m h a)

pub put_level-All {κ} :
    (P : Price × PriceLevel → Type κ) (s : Side) (p : Price) (l : PriceLevel) (m : Levels)
    → P (p, l)
    → All P m
    → All P (put_level s p l m)
unfolding put_level
put_level-All P s p l [] h a = (h, tt)
put_level-All P s p l ((q, k) ∷ m) h (b, a) = elim (Bool-cases (before s p q)) [
  | inl first ↦ rw first (h, (b, a))
  | inr later ↦ elim (Bool-cases (before s q p)) [
    | inl past ↦ rw (later, past) (b, put_level-All P s p l m h a)
    | inr level ↦
        rw (later, level)
          (subst (λ x. P (x, l)) (same_price-eq p q (before_total s p q later level)) h, a)
  ]
]

pub erase_level-All {κ} :
    (P : Price × PriceLevel → Type κ) (p : Price) (m : Levels) → All P m → All P (erase_level p m)
unfolding erase_level
erase_level-All P p [] a = tt
erase_level-All P p ((q, l) ∷ m) (b, a) = elim (Bool-cases (same_price q p)) [
  | inl same ↦ rw same (erase_level-All P p m a)
  | inr other ↦ rw other (b, erase_level-All P p m a)
]

pub find_level-All {κ} :
    (P : Price × PriceLevel → Type κ) (p : Price) (m : Levels) (l : PriceLevel)
    → find_level p m ≡ some l
    → All P m
    → P (p, l)
unfolding find_level
find_level-All P p [] l h a = absurd (ground arith)
find_level-All P p ((q, k) ∷ m) l h (b, a) = elim (Bool-cases (same_price q p)) [
  | inl same ↦
      subst (λ x. P (x, l)) (same_price-eq q p same) (subst (λ x. P (q, x)) (ground arith) b)
  | inr other ↦ find_level-All P p m l (ground arith) a
]

pub put_level-IsSorted :
    (s : Side) (p : Price) (l : PriceLevel) (m : Levels)
    → IsSorted s m
    → IsSorted s (put_level s p l m)
unfolding put_level
put_level-IsSorted s p l [] h = (tt, tt)
put_level-IsSorted s p l ((q, k) ∷ m) (a, h) = elim (Bool-cases (before s p q)) [
  | inl first ↦ rw first ((first, AllAfter-trans s p q m first a), (a, h))
  | inr later ↦ elim (Bool-cases (before s q p)) [
    | inl past ↦
        rw (later, past)
          (put_level-All (λ e. before s q e.0 ≡ true) s p l m past a, put_level-IsSorted s p l m h)
    | inr level ↦ rw (later, level) (a, h)
  ]
]

pub erase_level-IsSorted :
    (s : Side) (p : Price) (m : Levels) → IsSorted s m → IsSorted s (erase_level p m)
unfolding erase_level
erase_level-IsSorted s p [] h = tt
erase_level-IsSorted s p ((q, l) ∷ m) (a, h) = elim (Bool-cases (same_price q p)) [
  | inl same ↦ rw same (erase_level-IsSorted s p m h)
  | inr other ↦
      rw other (erase_level-All (λ e. before s q e.0 ≡ true) p m a, erase_level-IsSorted s p m h)
]

-- What is found at a price after a write, an erasure, and behind the first entry.
pub queue_at-put_level :
    (s : Side) (p : Price) (l : PriceLevel) (m : Levels) (r : Price)
    → queue_at r (put_level s p l m) ≡ (if same_price p r then l.queue else queue_at r m)
unfolding queue_at put_level
queue_at-put_level s p l [] r = refl
queue_at-put_level s p l ((q, k) ∷ m) r = elim (Bool-cases (before s p q)) [
  | inl first ↦ rw first refl
  | inr later ↦ elim (Bool-cases (before s q p)) [
    | inl past ↦
        rw (later, past, queue_at-put_level s p l m r)
          (between (Bool-cases (same_price p r)) (before-same_price s q p past))
    | inr level ↦
        rw (later, level, same_price-eq p q (before_total s p q later level)) (ground arith)
  ]
]
  where
    between :
        (same_price p r ≡ true) ⊎ (same_price p r ≡ false)
        → same_price q p ≡ false
        → (if same_price q r then k.queue else (if same_price p r then l.queue else queue_at r m))
          ≡ (if same_price p r then l.queue else (if same_price q r then k.queue else queue_at r m))
    between (inl same) off = rw (same, ← same_price-eq p r same, off)
    between (inr other) off = rw other

pub queue_at-erase_level :
    (p : Price) (m : Levels) (r : Price)
    → queue_at r (erase_level p m) ≡ (if same_price p r then [] else queue_at r m)
unfolding queue_at erase_level
queue_at-erase_level p [] r = ground arith
queue_at-erase_level p ((q, l) ∷ m) r = elim (Bool-cases (same_price q p)) [
  | inl same ↦ rw (same, same_price-eq q p same, queue_at-erase_level p m r) (ground arith)
  | inr other ↦ rw (other, queue_at-erase_level p m r) (apart (Bool-cases (same_price p r)) other)
]
  where
    apart :
        (same_price p r ≡ true) ⊎ (same_price p r ≡ false)
        → same_price q p ≡ false
        → (if same_price q r then l.queue else (if same_price p r then [] else queue_at r m))
          ≡ (if same_price p r then [] else (if same_price q r then l.queue else queue_at r m))
    apart (inl same) off = rw (same, ← same_price-eq p r same, off)
    apart (inr other) off = rw other

pub queue_at-AllAfter : (s : Side) (p : Price) (m : Levels) → AllAfter s p m → queue_at p m ≡ []
unfolding queue_at
queue_at-AllAfter s p [] a = refl
queue_at-AllAfter s p ((q, l) ∷ m) (b, a) =
    ground (arith, before-same_price s p q b, same_price_comm p q, queue_at-AllAfter s p m a)

pub queue_at-find_level :
    (p : Price) (m : Levels) (l : PriceLevel) → find_level p m ≡ some l → queue_at p m ≡ l.queue
unfolding queue_at find_level
queue_at-find_level p [] l h = ground arith
queue_at-find_level p ((q, k) ∷ m) l h = ground (arith, queue_at-find_level p m l)

pub queue_at-find_none : (p : Price) (m : Levels) → find_level p m ≡ none → queue_at p m ≡ []
unfolding queue_at find_level
queue_at-find_none p [] h = refl
queue_at-find_none p ((q, k) ∷ m) h = ground (arith, queue_at-find_none p m)

pub put_level-put_level :
    (s : Side) (p : Price) (k l : PriceLevel) (m : Levels)
    → put_level s p l (put_level s p k m) ≡ put_level s p l m
unfolding put_level
put_level-put_level s p k l [] = ground (arith, before_irrefl s p)
put_level-put_level s p k l ((q, j) ∷ m) = elim (Bool-cases (before s p q)) [
  | inl first ↦ rw (first, before_irrefl s p) refl
  | inr later ↦ elim (Bool-cases (before s q p)) [
    | inl past ↦ rw (later, past, later, past, put_level-put_level s p k l m) refl
    | inr level ↦ rw (later, level, later, level) refl
  ]
]

-- ===== src/Level/Quantities.antt =====
-- The counters of a price level (src/order_book.cpp, `PriceLevel`) beside its queue: facts about the
-- queue first, then the three operations.
use lobsimulater.Base.{
  ◌+◌, ◌-◌, ◌%◌, ◌^◌, ◌<◌, ◌≡◌, refl, List, [], ◌∷◌, ◌++◌, none, some, length, ◌==◌, if◌then◌else◌,
  arith, All, All-append, Bool-cases, subst, inl, inr, length-append, sum_of-append, ◌-ℤ◌,
}
use lobsimulater.Types.{Order, OrderId, Price, Quantity, Side, to_uint32}
use lobsimulater.Level.{
  PriceLevel, find_order, unlink, replace_order, add_order, remove_order, modify_order, volume,
  occurs, quantity_difference, new_level,
}

pub find_order-id : (i : OrderId) (q : List Order) (o : Order) → find_order i q ≡ some o → o.id ≡ i
unfolding find_order
find_order-id i [] o h = ground arith
find_order-id i (x ∷ q) o h = ground (arith, find_order-id i q o)

pub find_order-All {κ} :
    (P : Order → Type κ) (i : OrderId) (q : List Order) (o : Order)
    → find_order i q ≡ some o
    → All P q
    → P o
unfolding find_order
find_order-All P i [] o h a = absurd (ground arith)
find_order-All P i (x ∷ q) o h (px, pq) = elim (Bool-cases (x.id == i)) [
  | inl same ↦ subst P (ground arith) px
  | inr other ↦ find_order-All P i q o (ground arith) pq
]

pub occurs-find_order : (i : OrderId) (q : List Order) → find_order i q ≡ none → occurs i q ≡ 0
unfolding find_order
occurs-find_order i [] h = refl
occurs-find_order i (x ∷ q) h = ground (arith, occurs-find_order i q)

pub find_order-occurs : (i : OrderId) (q : List Order) → occurs i q ≡ 0 → find_order i q ≡ none
unfolding find_order
find_order-occurs i [] h = refl
find_order-occurs i (x ∷ q) h = ground (arith, find_order-occurs i q)

pub volume-unlink :
    (i : OrderId) (q : List Order) (o : Order)
    → find_order i q ≡ some o
    → volume (unlink i q) + o.remaining_quantity ≡ volume q
unfolding find_order unlink
volume-unlink i [] o h = ground arith
volume-unlink i (x ∷ q) o h = ground (arith, volume-unlink i q o)

pub length-unlink :
    (i : OrderId) (q : List Order) (o : Order)
    → find_order i q ≡ some o
    → length (unlink i q) + 1 ≡ length q
unfolding find_order unlink
length-unlink i [] o h = ground arith
length-unlink i (x ∷ q) o h = ground (arith, length-unlink i q o)

pub occurs-unlink :
    (i j : OrderId) (q : List Order)
    → occurs j (unlink i q) ≡ (if i == j then occurs j q - 1 else occurs j q)
unfolding unlink
occurs-unlink i j [] = ground arith
occurs-unlink i j (x ∷ q) = ground (arith, occurs-unlink i j q)

pub unlink-All {κ} :
    (P : Order → Type κ) (i : OrderId) (q : List Order) → All P q → All P (unlink i q)
unfolding unlink
unlink-All P i [] a = tt
unlink-All P i (x ∷ q) (px, pq) = ground (arith, unlink-All P i q pq)

pub volume-replace_order :
    (i : OrderId) (n : Order) (q : List Order) (o : Order)
    → find_order i q ≡ some o
    → volume (replace_order i n q) + o.remaining_quantity ≡ volume q + n.remaining_quantity
unfolding find_order replace_order
volume-replace_order i n [] o h = ground arith
volume-replace_order i n (x ∷ q) o h = ground (arith, volume-replace_order i n q o)

pub length-replace_order :
    (i : OrderId) (n : Order) (q : List Order) → length (replace_order i n q) ≡ length q
unfolding replace_order
length-replace_order i n [] = refl
length-replace_order i n (x ∷ q) = ground (arith, length-replace_order i n q)

pub occurs-replace_order :
    (i j : OrderId) (n : Order) (q : List Order)
    → n.id ≡ i
    → occurs j (replace_order i n q) ≡ occurs j q
unfolding replace_order
occurs-replace_order i j n [] h = refl
occurs-replace_order i j n (x ∷ q) h = ground (arith, occurs-replace_order i j n q h)

pub replace_order-All {κ} :
    (P : Order → Type κ) (i : OrderId) (n : Order) (q : List Order)
    → P n
    → All P q
    → All P (replace_order i n q)
unfolding replace_order
replace_order-All P i n [] pn a = tt
replace_order-All P i n (x ∷ q) pn (px, pq) = ground (arith, replace_order-All P i n q pn pq)

pub occurs-append :
    (i : OrderId) (q : List Order) (o : Order)
    → occurs i (q ++ (o ∷ [])) ≡ occurs i q + (if o.id == i then 1 else 0)
occurs-append i q o = omega (arith, sum_of-append (λ x. if x.id == i then 1 else 0) q (o ∷ []))

-- An order that belongs at the level of a side and a price.
pub record OrderFits (s : Side) (p : Price) (o : Order) : Type 0 where
  pub side : o.side ≡ s
  pub price : o.price ≡ p
  pub remaining : o.remaining_quantity < 2 ^ 32

-- The level is keyed by its own price and side, its orders belong there, and its two counters are
-- the quantity and the number of its orders, modulo their width.
pub record LevelInv (s : Side) (p : Price) (l : PriceLevel) : Type 0 where
  pub price : l.price ≡ p
  pub side : l.side ≡ s
  pub total : l.total_quantity ≡ volume l.queue % 2 ^ 32
  pub count : l.order_count ≡ length l.queue % 2 ^ 32
  pub orders : All (OrderFits s p) l.queue

pub new_level-LevelInv : (s : Side) (p : Price) → LevelInv s p (new_level p s)
new_level-LevelInv s p = record {
  price = refl;
  side = refl;
  total = omega arith;
  count = omega arith;
  orders = tt;
}

module _ {s : Side} {p : Price} {l : PriceLevel} (v : LevelInv s p l) where
  pub add_order-LevelInv : (o : Order) → OrderFits s p o → LevelInv s p (add_order l o)
  unfolding add_order
  add_order-LevelInv o f = record {
    price = v.price;
    side = v.side;
    total =
        omega
          (arith, v.total, sum_of-append (λ (x : Order). x.remaining_quantity) l.queue (o ∷ []));
    count = omega (arith, v.count, length-append l.queue (o ∷ []));
    orders = All-append (OrderFits s p) l.queue (o ∷ []) v.orders (f, tt);
  }

  pub remove_order-LevelInv :
      (o : Order) → find_order o.id l.queue ≡ some o → LevelInv s p (remove_order l o)
  unfolding remove_order
  remove_order-LevelInv o h =
      let fits = find_order-All (OrderFits s p) o.id l.queue o h v.orders in
      record {
        price = v.price;
        side = v.side;
        total = omega (arith, v.total, volume-unlink o.id l.queue o h, fits.remaining);
        count = omega (arith, v.count, length-unlink o.id l.queue o h);
        orders = unlink-All (OrderFits s p) o.id l.queue v.orders;
      }

-- For quantities that fit 32 bits, the old quantity plus the difference that `modifyOrder` casts gives
-- the new one modulo 2 ^ 32.
pub to_uint32-quantity_difference :
    (new_qty old : Quantity)
    → new_qty < 2 ^ 32
    → old < 2 ^ 32
    → (old + to_uint32 (quantity_difference new_qty old)) % 2 ^ 32 ≡ new_qty
unfolding ◌-ℤ◌
to_uint32-quantity_difference new_qty old h k = ground arith

module _ {s : Side} {p : Price} {l : PriceLevel} (v : LevelInv s p l) where
  pub modify_order-LevelInv :
      (o : Order) (new_qty : Quantity)
      → find_order o.id l.queue ≡ some o
      → new_qty < 2 ^ 32
      → LevelInv s p (modify_order l o new_qty)
  unfolding modify_order
  modify_order-LevelInv o new_qty h small =
      let fits = find_order-All (OrderFits s p) o.id l.queue o h v.orders in
      record {
        price = v.price;
        side = v.side;
        total = omega (
          arith,
          v.total,
          volume-replace_order o.id _ l.queue o h,
          to_uint32-quantity_difference new_qty o.remaining_quantity small fits.remaining,
        );
        count = omega (arith, v.count, length-replace_order o.id _ l.queue);
        orders =
            replace_order-All (OrderFits s p) o.id _ l.queue
              (record { side = fits.side; price = fits.price; remaining = small }) v.orders;
      }

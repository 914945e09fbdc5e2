-- ===== src/Types.antt =====
-- The data of include/lob/order_book.hpp: sides, order kinds, orders, executions, and the arithmetic
-- of its fixed-width integers. Prices are signed, all other numbers are unsigned.

use lobsimulater.Base.{
  ℕ, ◌+◌, ◌-◌, ◌%◌, ◌^◌, ◌≡◌, Bool, true, false, ℤ, pos, negsuc, sub_ℕ, eqb_ℤ, ltb_ℤ, eqb_ℤ-eq,
  eqb_ℤ_refl, ltb, if◌then◌else◌, arith, ◌==◌,
}

abbrev pub OrderId : Type 0
OrderId = ℕ

abbrev pub Price : Type 0
Price = ℤ

abbrev pub Quantity : Type 0
Quantity = ℕ

abbrev pub Timestamp : Type 0
Timestamp = ℕ

pub data Side : Type 0 where
  bid ask : Side

pub data OrderType : Type 0 where
  limit market stop stop_limit : OrderType

pub data TimeInForce : Type 0 where
  gtc ioc fok gtd : TimeInForce

abbrev pub same_side : Side → Side → Bool
same_side bid bid = true
same_side ask ask = true
same_side _ _ = false

-- `uint32_t` addition and subtraction.
abbrev pub add32 : ℕ → ℕ → ℕ
add32 a b = (a + b) % 2 ^ 32

abbrev pub sub32 : ℕ → ℕ → ℕ
sub32 a b = (a + 2 ^ 32 - b) % 2 ^ 32

-- The intrusive links `next`, `prev` and `level` are not fields: an order stands in the queue of its
-- level, and the index of the book names that level.
pub record Order : Type 0 where
  pub id : OrderId
  pub price : Price
  pub quantity : Quantity
  pub remaining_quantity : Quantity
  pub side : Side
  pub type : OrderType
  pub tif : TimeInForce
  pub timestamp : Timestamp
  pub participant_id : ℕ

-- The constructor `Order(id, price, qty, side, ts)`.
abbrev pub new_order : OrderId → Price → Quantity → Side → Timestamp → Order
new_order i p q s t = record {
  id = i;
  price = p;
  quantity = q;
  remaining_quantity = q;
  side = s;
  type = limit;
  tif = gtc;
  timestamp = t;
  participant_id = 0;
}

abbrev pub is_filled : Order → Bool
is_filled o = o.remaining_quantity == 0

-- `isBuy`, `isSell` and `filledQuantity`.
abbrev pub is_buy : Order → Bool
is_buy o = same_side o.side bid

abbrev pub is_sell : Order → Bool
is_sell o = same_side o.side ask

abbrev pub filled_quantity : Order → Quantity
filled_quantity o = sub32 o.quantity o.remaining_quantity

pub record Execution : Type 0 where
  pub bid_id : OrderId
  pub ask_id : OrderId
  pub price : Price
  pub quantity : Quantity
  pub timestamp : Timestamp

pub same_side-eq : (s t : Side) → same_side s t ≡ true → s ≡ t
same_side-eq s t h = ground arith

pub same_side_refl : (s : Side) → same_side s s ≡ true
same_side_refl s = ground arith

abbrev pub opposite : Side → Side
opposite bid = ask
opposite ask = bid

-- Two keys of a `std::map<Price, …>` that neither precedes.
unfoldable pub same_price : Price → Price → Bool
same_price p q = eqb_ℤ p q

pub same_price-eq : (p q : Price) → same_price p q ≡ true → p ≡ q
unfolding same_price
same_price-eq p q h = eqb_ℤ-eq p q h

pub same_price_refl : (p : Price) → same_price p p ≡ true
unfolding same_price
same_price_refl p = eqb_ℤ_refl p

-- The order of the two maps: `std::greater<>` for bids and `std::less<>` for asks, so that the
-- better price comes first.
unfoldable pub before : Side → Price → Price → Bool
before bid p q = ltb_ℤ q p
before ask p q = ltb_ℤ p q

pub before_irrefl : (s : Side) (p : Price) → before s p p ≡ false
unfolding before
before_irrefl bid p = ground arith
before_irrefl ask p = ground arith

pub before_trans :
    (s : Side) (p q r : Price) → before s p q ≡ true → before s q r ≡ true → before s p r ≡ true
unfolding before
before_trans bid p q r h k = ground arith
before_trans ask p q r h k = ground arith

pub before_total :
    (s : Side) (p q : Price) → before s p q ≡ false → before s q p ≡ false → same_price p q ≡ true
unfolding before same_price
before_total bid p q h k = ground arith
before_total ask p q h k = ground arith

pub before-same_price : (s : Side) (p q : Price) → before s p q ≡ true → same_price p q ≡ false
unfolding before same_price
before-same_price bid p q h = ground arith
before-same_price ask p q h = ground arith

pub same_price_comm : (p q : Price) → same_price p q ≡ same_price q p
unfolding same_price
same_price_comm p q = ground arith

-- `uint64_t` addition and subtraction.
abbrev pub add64 : ℕ → ℕ → ℕ
add64 a b = (a + b) % 2 ^ 64

abbrev pub sub64 : ℕ → ℕ → ℕ
sub64 a b = (a + 2 ^ 64 - b) % 2 ^ 64

-- `static_cast<int32_t>(q)` of a `uint32_t`.
abbrev pub to_int32 : ℕ → ℤ
to_int32 q = if ltb q (2 ^ 31) then pos q else sub_ℕ q (2 ^ 32)

-- The conversion of a signed number to `uint32_t`.
abbrev pub to_uint32 : ℤ → ℕ
to_uint32 (pos n) = n % 2 ^ 32
to_uint32 (negsuc n) = 2 ^ 32 - 1 - n % 2 ^ 32

-- Market data of the feeds, `MarketDataUpdate`.
pub data UpdateType : Type 0 where
  add_order modify_order cancel_order trade clear snapshot : UpdateType

pub record MarketDataUpdate : Type 0 where
  pub type : UpdateType
  pub side : Side
  pub price : Price
  pub quantity : Quantity
  pub order_id : OrderId
  pub timestamp : Timestamp

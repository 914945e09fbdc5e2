-- ===== src/Portfolio.antt =====
-- `struct Position` and `class Portfolio` (include/lob/backtester.hpp, src/backtester.cpp). Quantities
-- are signed integers, money is in floating point. A hash map is in the order of insertion, which is
-- also the order in which a sum over it runs.
pub mod Net
use Prim.Native.String.{String}
use lobsimulater.Base.{
  ℕ, ◌+◌, ◌%◌, ◌^◌, ℤ, pos, ◌+ℤ◌, abs_ℕ, ltb_ℤ, eqb_ℤ, List, [], ◌∷◌, Option, none, some, Bool,
  true, false, not, if◌then◌else◌, ◌&&◌, ◌||◌, Named, find_named, set_named,
}
use lobsimulater.Types.{Order, bid, limit, gtc, Timestamp, add64}
use lobsimulater.Double.{Double, of_ℕ, nought, min_of, max_of, abs_of}

pub record Position (D : Type 0) : Type 0 where
  pub symbol : String
  pub quantity : ℤ
  pub average_price : D
  pub realized_pnl : D
  pub unrealized_pnl : D
  pub total_traded : ℕ

pub record Portfolio (D : Type 0) : Type 0 where
  pub initial_capital : D
  pub cash : D
  pub commission_rate : D
  pub slippage_model : Option (Order → D)
  pub positions : Named (Position D)
  pub total_commission : D
  pub total_slippage : D
  pub max_equity : D
  pub max_drawdown : D

pub record Snapshot (D : Type 0) : Type 0 where
  pub timestamp : Timestamp
  pub equity : D
  pub cash : D
  pub realized_pnl : D
  pub unrealized_pnl : D
  pub positions : Named (Position D)

-- `Order{}`.
abbrev pub blank_order : Order
blank_order = record {
  id = 0;
  price = pos 0;
  quantity = 0;
  remaining_quantity = 0;
  side = bid;
  type = limit;
  tif = gtc;
  timestamp = 0;
  participant_id = 0;
}

-- `(quantity >= 0 && dq > 0) || (quantity <= 0 && dq < 0)`.
abbrev pub extends : ℤ → ℤ → Bool
extends q dq =
    (not (ltb_ℤ q (pos 0)) && ltb_ℤ (pos 0) dq) || (not (ltb_ℤ (pos 0) q) && ltb_ℤ dq (pos 0))

unfoldable pub set_slippage_model : {D : Type 0} → (Order → D) → Portfolio D → Portfolio D
set_slippage_model model f = record f { slippage_model = some model }

unfoldable pub get_max_drawdown : {D : Type 0} → Portfolio D → D
get_max_drawdown f = f.max_drawdown

module _ {D : Type 0} ⦃d : Double D⦄ where
  open d use {literal, of_ℤ, add, sub, mul, div, neg, lt}

  -- `Position{}`.
  abbrev pub new_position : String → Position D
  new_position name = record {
    symbol = name;
    quantity = pos 0;
    average_price = nought;
    realized_pnl = nought;
    unrealized_pnl = nought;
    total_traded = 0;
  }

  -- `std::abs(static_cast<double>(q))`.
  abbrev pub size_of : ℤ → D
  size_of q = abs_of (of_ℤ q)

  abbrev pub extended_price : Position D → ℤ → D → D
  extended_price p dq px =
      let size_new = size_of (p.quantity +ℤ dq) in
      if lt nought size_new
      then div (add (mul (size_of p.quantity) p.average_price) (mul (size_of dq) px)) size_new
      else nought

  abbrev pub closed_pnl : Position D → ℤ → D → D
  closed_pnl p dq px =
      let closed = min_of (size_of p.quantity) (size_of dq) in
      mul (sub px p.average_price) (if ltb_ℤ (pos 0) p.quantity then closed else neg closed)

  -- The prices and profit of a position that trades `dq`.
  unfoldable pub reprice : ℤ → D → Position D → Position D
  reprice dq px p =
      if extends p.quantity dq
      then record p { average_price = extended_price p dq px }
      else record p { realized_pnl = add p.realized_pnl (closed_pnl p dq px) }

  unfoldable pub update_position : ℤ → D → Position D → Position D
  update_position dq px p =
      let p1 = reprice dq px p in
      let q : ℤ = p1.quantity +ℤ dq in
      if eqb_ℤ dq (pos 0) then p else record p1 {
        quantity = q;
        total_traded = add64 p1.total_traded (abs_ℕ dq);
        average_price = if eqb_ℤ q (pos 0) then nought else p1.average_price;
      }

  unfoldable pub position_unrealized_pnl : Position D → D → D
  position_unrealized_pnl p current = mul (sub current p.average_price) (of_ℤ p.quantity)

  unfoldable pub position_total_pnl : Position D → D → D
  position_total_pnl p current = add p.realized_pnl (position_unrealized_pnl p current)

  -- `Portfolio(initial_capital)`, with a commission of one basis point.
  unfoldable pub new_portfolio : D → Portfolio D
  new_portfolio capital = record {
    initial_capital = capital;
    cash = capital;
    commission_rate = literal 1 4;
    slippage_model = none;
    positions = [];
    total_commission = nought;
    total_slippage = nought;
    max_equity = nought;
    max_drawdown = nought;
  }

  unfoldable pub set_commission_rate : D → Portfolio D → Portfolio D
  set_commission_rate rate f = record f { commission_rate = rate }

  -- `positions_[sym]`, which makes a position that is not there.
  abbrev pub or_new : String → Option (Position D) → Position D
  or_new sym none = new_position sym
  or_new sym (some p) = p

  abbrev pub position_at : String → Portfolio D → Position D
  position_at sym f = or_new sym (find_named sym f.positions)

  abbrev pub slippage : Portfolio D → D
  slippage f = elim f.slippage_model [ none ↦ nought | some model ↦ model blank_order ]

  -- `Portfolio::updatePosition`.
  unfoldable pub trade_position : String → ℤ → D → Portfolio D → Portfolio D
  trade_position sym dq px f =
      let commission = mul f.commission_rate (mul (size_of dq) px) in
      let slip = slippage f in
      record f {
        cash = sub f.cash (add (add (mul (of_ℤ dq) px) commission) slip);
        total_commission = add f.total_commission commission;
        total_slippage = add f.total_slippage slip;
        positions =
            set_named sym (update_position dq px (record (position_at sym f) { symbol = sym }))
              f.positions;
      }

  unfoldable pub get_position : String → Portfolio D → Option (Position D)
  get_position sym f = find_named sym f.positions

  unfoldable pub get_net_position : String → Portfolio D → ℤ
  get_net_position sym f = elim (get_position sym f) [ some p ↦ p.quantity | none ↦ pos 0 ]

  unfoldable pub sum_realized : D → Named (Position D) → D
  sum_realized s [] = s
  sum_realized s ((sym, p) ∷ m) = sum_realized (add s p.realized_pnl) m

  unfoldable pub get_realized_pnl : Portfolio D → D
  get_realized_pnl f = sum_realized nought f.positions

  unfoldable pub sum_unrealized : Named D → D → Named (Position D) → D
  sum_unrealized prices s [] = s
  sum_unrealized prices s ((sym, p) ∷ m) =
      sum_unrealized prices
        (elim (find_named sym prices) [ some px ↦ add s (position_unrealized_pnl p px) | none ↦ s ])
        m

  unfoldable pub get_unrealized_pnl : Named D → Portfolio D → D
  get_unrealized_pnl prices f = sum_unrealized prices nought f.positions

  unfoldable pub get_total_pnl : Named D → Portfolio D → D
  get_total_pnl prices f = add (get_realized_pnl f) (get_unrealized_pnl prices f)

  unfoldable pub get_equity : Named D → Portfolio D → D
  get_equity prices f = add f.cash (get_total_pnl prices f)

  unfoldable pub get_margin_used : Portfolio D → D
  get_margin_used f = nought

  unfoldable pub gross_exposure : Named D → D → Named (Position D) → D
  gross_exposure prices s [] = s
  gross_exposure prices s ((sym, p) ∷ m) =
      gross_exposure prices
        (elim (find_named sym prices) [
          | some px ↦ add s (abs_of (mul (of_ℤ p.quantity) px))
          | none ↦ s
        ])
        m

  unfoldable pub get_leverage : Named D → Portfolio D → D
  get_leverage prices f =
      let eq = get_equity prices f in
      if lt nought eq then div (gross_exposure prices nought f.positions) eq else nought

  unfoldable pub update_drawdown : D → Portfolio D → Portfolio D
  update_drawdown eq f =
      let top = max_of f.max_equity eq in
      record f {
        max_equity = top;
        max_drawdown = max_of f.max_drawdown (div (sub top eq) (max_of (literal 1 12) top));
      }

  unfoldable pub take_snapshot : Timestamp → Named D → Portfolio D → Snapshot D
  take_snapshot ts prices f = record {
    timestamp = ts;
    equity = get_equity prices f;
    cash = f.cash;
    realized_pnl = get_realized_pnl f;
    unrealized_pnl = get_unrealized_pnl prices f;
    positions = f.positions;
  }

-- ===== src/Double.antt =====
-- `double` as the program uses it: a type with its operations, of which nothing is assumed here. A
-- theorem that needs a law of arithmetic has it as a hypothesis.
use lobsimulater.Base.{ℕ, ℤ, pos, Bool, if◌then◌else◌}
use lobsimulater.Types.{Price}

pub record Double (D : Type 0) : Type 0 where
  -- The number nearest to n / 10 ^ k, as a literal of the source.
  pub literal : ℕ → ℕ → D
  -- `static_cast<double>` of an integer, and back, towards zero.
  pub of_ℤ : ℤ → D
  pub to_ℤ : D → ℤ
  pub add : D → D → D
  pub sub : D → D → D
  pub mul : D → D → D
  pub div : D → D → D
  pub neg : D → D
  pub lt : D → D → Bool
  pub eq : D → D → Bool
  -- `std::sqrt`, `std::pow` and `std::exp`.
  pub sqrt : D → D
  pub pow : D → D → D
  pub exp : D → D

module _ {D : Type 0} ⦃d : Double D⦄ where
  open d use {literal, of_ℤ, to_ℤ, add, sub, mul, div, neg, lt}

  abbrev pub of_ℕ : ℕ → D
  of_ℕ n = of_ℤ (pos n)

  abbrev pub nought : D
  nought = literal 0 0

  -- `std::min` and `std::max`.
  abbrev pub min_of : D → D → D
  min_of a b = if lt b a then b else a

  abbrev pub max_of : D → D → D
  max_of a b = if lt a b then b else a

  -- `std::abs`.
  abbrev pub abs_of : D → D
  abs_of a = if lt a nought then neg a else a

  abbrev pub price_to_double : Price → D
  price_to_double p = div (of_ℤ p) (literal 100 0)

  abbrev pub double_to_price : D → Price
  double_to_price x = to_ℤ (add (mul x (literal 100 0)) (literal 5 1))

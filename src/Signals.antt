-- ===== src/Signals.antt =====
-- The signals of a book (include/lob/signals.hpp, src/signals.cpp): what the calculators share. The
-- caches that the queries of a `const` book fill are left out here. The time at which a signal is made is an argument.
pub mod Window
pub mod Stateless
pub mod Pressure
pub mod Flow
pub mod Spread
pub mod Calculators
pub mod Features
pub mod Statistics
use Prim.Native.String.{String}
use lobsimulater.Base.{
  ℕ, ◌+◌, ℤ, pos, List, [], ◌∷◌, Option, none, some, Bool, if◌then◌else◌, ltb_ℤ, length, Named,
}
use lobsimulater.Types.{Timestamp}
use lobsimulater.Double.{Double, nought, of_ℕ, min_of, max_of}
use lobsimulater.Metrics.{accumulate, square}

pub data SignalType : Type 0 where
  order_imbalance microprice spread volatility momentum : SignalType
  mean_reversion trade_flow queue_position book_pressure custom : SignalType

pub record Signal (D : Type 0) : Type 0 where
  pub type : SignalType
  pub symbol : String
  pub value : D
  pub confidence : D
  pub timestamp : Timestamp
  pub metadata : Named D

abbrev pub new_signal : {D : Type 0} → SignalType → String → D → D → Timestamp → Signal D
new_signal t sym val conf now = record {
  type = t;
  symbol = sym;
  value = val;
  confidence = conf;
  timestamp = now;
  metadata = [];
}

-- `while (static_cast<int>(xs.size()) > n) xs.pop_front();`, for sizes that fit an `int`; `none` is the
-- `pop_front` of an empty deque.
unfoldable pub trim {ℓ} : {A : Type ℓ} → ℤ → List A → Option (List A)
trim n [] = if ltb_ℤ n (pos 0) then none else some []
trim n (x ∷ xs) =
    let rest = trim n xs in if ltb_ℤ n (pos (length (x ∷ xs))) then rest else some (x ∷ xs)

module _ {D : Type 0} ⦃d : Double D⦄ where
  open d use {literal, sub, div, lt, sqrt}

  abbrev pub clamp : D → D → D → D
  clamp x a b = max_of a (min_of b x)

  -- `calculateMean` and `calculateStdDev`, and with them `rollingMean` and `rollingStdDev`, of which the
  -- code is the same.
  unfoldable pub mean_of : List D → D
  mean_of [] = nought
  mean_of (x ∷ xs) = div (accumulate (λ v. v) nought (x ∷ xs)) (of_ℕ (length (x ∷ xs)))

  unfoldable pub std_dev_of : List D → D
  std_dev_of (x ∷ y ∷ xs) =
      let m = mean_of (x ∷ y ∷ xs) in
      sqrt (div (accumulate (λ v. square (sub v m)) nought (x ∷ y ∷ xs)) (of_ℕ (length (y ∷ xs))))
  std_dev_of _ = nought

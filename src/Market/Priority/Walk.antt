-- ===== src/Market/Priority/Walk.antt =====
-- A walk along the orders of a side in the order of trading, and one step of it.
use lobsimulater.Base.{
  ℕ, ◌-◌, ◌<◌, ◌^◌, ◌≡◌, refl, sym, ◌∙◌, ap, [], ◌∷◌, ◌++◌, List, false, if◌then◌else◌, Bool-cases,
  ◌==◌, leb, List-cases, inl, inr, arith, min, map,
}
use lobsimulater.Types.{Side, Order, Price, Quantity, Timestamp, Execution, sub32}
use lobsimulater.Level.{PriceLevel}
use lobsimulater.Levels.{Levels}
use lobsimulater.Fill.{fill_front, drop_front}
use lobsimulater.Fill.Keeps.{fill_front-queue, drop_front-empty, drop_front-full}
use lobsimulater.Market.{market_execution}

-- The orders of a side with their prices, in the order of trading.
abbrev pub priced : Levels → List (Price × Order)
priced [] = []
priced ((p, l) ∷ m) = map (λ o. (p, o)) l.queue ++ priced m

-- The executions of a market order for `r` against orders in turn.
unfoldable pub fills_of : Side → Timestamp → ℕ → List (Price × Order) → List Execution
fills_of side ts r [] = []
fills_of side ts r ((p, o) ∷ os) =
    let rest = fills_of side ts (r - o.remaining_quantity) os in
    if r == 0 then [] else market_execution side o.id p (min r o.remaining_quantity) ts ∷ rest

-- The orders that it leaves: the filled ones go, and the last that it reaches may lose a part.
unfoldable pub rest_of : ℕ → List (Price × Order) → List (Price × Order)
rest_of r [] = []
rest_of r ((p, o) ∷ os) =
    let rest = rest_of (r - o.remaining_quantity) os in
    if r == 0
    then (p, o) ∷ os
    else if leb o.remaining_quantity r
    then rest
    else (p, record o { remaining_quantity = o.remaining_quantity - r }) ∷ os

pub fills_of_zero :
    (side : Side) (ts : Timestamp) (os : List (Price × Order)) → fills_of side ts 0 os ≡ []
unfolding fills_of
fills_of_zero side ts [] = refl
fills_of_zero side ts ((p, o) ∷ os) = refl

pub rest_of_zero : (os : List (Price × Order)) → rest_of 0 os ≡ os
unfolding rest_of
rest_of_zero [] = refl
rest_of_zero ((p, o) ∷ os) = refl

pub priced-drop_front : (m : Levels) → priced (drop_front m) ≡ priced m
priced-drop_front [] = refl
priced-drop_front ((p, l) ∷ m) = elim (List-cases l.queue) [
  | inl e ↦ rw (drop_front-empty p l m e, e) refl
  | inr (x, q, e) ↦ ap priced (drop_front-full p l m x q e)
]

pub append_snoc : (es fs : List Execution) (e : Execution) → (es ++ (e ∷ [])) ++ fs ≡ es ++ (e ∷ fs)
append_snoc [] fs e = refl
append_snoc (x ∷ es) fs e = ap (λ z. x ∷ z) (append_snoc es fs e)

abbrev pub at_price : Price → List Order → List (Price × Order)
at_price p = map λ o. (p, o)

-- One step of the walk, as a round of the inner loop makes it.
module _ (p : Price) (l : PriceLevel) (o : Order) (os : List Order) (zs : List (Price × Order))
    (r : ℕ) (more : 0 < r) (small : r < 2 ^ 32) (fits : o.remaining_quantity < 2 ^ 32) where
  abbrev pub here : Quantity
  here = min r o.remaining_quantity

  pub left_in_level : (fill_front l o os here).queue ≡ (
      if leb o.remaining_quantity r
      then os
      else record o { remaining_quantity = o.remaining_quantity - r } ∷ os)
  left_in_level = ground (arith, fill_front-queue l o os here fits (omega arith))

  pub some_asked : (r == 0) ≡ false
  some_asked = ground arith

  abbrev pub reduced : Order
  reduced = record o { remaining_quantity = o.remaining_quantity - r }

  pub left_to_fill : sub32 r here ≡ r - o.remaining_quantity
  left_to_fill = ground arith

  pub fills_of-step :
      (side : Side) (ts : Timestamp)
      → fills_of side ts r ((p, o) ∷ (at_price p os ++ zs))
        ≡ market_execution side o.id p here ts
          ∷ fills_of side ts (sub32 r here) (at_price p (fill_front l o os here).queue ++ zs)
  unfolding fills_of
  fills_of-step side ts = elim (Bool-cases (leb o.remaining_quantity r)) [
    | inl all ↦
        let q : (fill_front l o os here).queue ≡ os = ground (arith, left_in_level) in
        rw (left_to_fill, q, some_asked)
    | inr part ↦
        let q : (fill_front l o os here).queue ≡ reduced ∷ os = ground (arith, left_in_level) in
        let none_left : r - o.remaining_quantity ≡ 0 = ground arith in
        rw (left_to_fill, q, some_asked, none_left)
          (ap (λ z. market_execution side o.id p here ts ∷ z)
            (fills_of_zero side ts (at_price p os ++ zs)
              ∙ sym (fills_of_zero side ts ((p, reduced) ∷ (at_price p os ++ zs)))))
  ]

  pub rest_of-step :
      rest_of r ((p, o) ∷ (at_price p os ++ zs))
      ≡ rest_of (sub32 r here) (at_price p (fill_front l o os here).queue ++ zs)
  unfolding rest_of
  rest_of-step = elim (Bool-cases (leb o.remaining_quantity r)) [
    | inl all ↦
        let q : (fill_front l o os here).queue ≡ os = ground (arith, left_in_level) in
        rw (left_to_fill, q, some_asked, all)
    | inr part ↦
        let q : (fill_front l o os here).queue ≡ reduced ∷ os = ground (arith, left_in_level) in
        let none_left : r - o.remaining_quantity ≡ 0 = ground arith in
        rw (left_to_fill, q, some_asked, part, none_left)
          (sym (rest_of_zero ((p, reduced) ∷ (at_price p os ++ zs))))
  ]

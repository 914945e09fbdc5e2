-- ===== src/Crossing/Result.antt =====
-- The book that `matchOrders` leaves.
use lobsimulater.Base.{
  ◌+◌, ◌≡◌, refl, ap, [], ◌∷◌, true, false, arith, is_empty, All, All-map, ltb_ℤ, ◌∙◌, sym,
  Bool-cases, inl, inr,
}
use lobsimulater.Types.{bid, ask, Price, before, before_trans}
use lobsimulater.Level.Quantities.{LevelInv}
use lobsimulater.Levels.{Levels, side_volume}
use lobsimulater.Levels.Order.{AllAfter, IsSorted}
use lobsimulater.Book.{OrderBook}
use lobsimulater.Book.Invariant.{Inv, NoEmpty}
use lobsimulater.Fill.{executed}
use lobsimulater.Fill.Keeps.{NoEmpty-TailFull}
use lobsimulater.Crossing.{crosses, begin_match, match_sweep, match_orders}
use lobsimulater.Crossing.Loops.{Still, match_sweep-Still}

-- Every bid rests below every ask.
abbrev pub IsUncrossed : Levels → Levels → Type 0
IsUncrossed bids asks = All (λ e. All (λ f. before ask e.0 f.0 ≡ true) asks) bids

-- One price below another, in the order of either map.
before_flip : (p q : Price) → before bid p q ≡ before ask q p
unfolding before
before_flip p q = refl

AllAfter-above :
    (p q : Price) (n : Levels)
    → before ask p q ≡ true
    → AllAfter ask q n
    → All (λ f. before ask p f.0 ≡ true) n
AllAfter-above p q n h = All-map _ _ (λ f. before_trans ask p q f.0 h) n

IsUncrossed-behind :
    (p : Price) (m asks : Levels)
    → AllAfter bid p m
    → All (λ f. before ask p f.0 ≡ true) asks
    → IsUncrossed m asks
IsUncrossed-behind p [] asks a h = tt
IsUncrossed-behind p ((r, l) ∷ m) asks (b, a) h = (
  All-map _ _ (λ f. before_trans ask r p f.0 (sym (before_flip p r) ∙ b)) asks h,
  IsUncrossed-behind p m asks a h,
)

crosses-IsUncrossed :
    (bids asks : Levels)
    → IsSorted bid bids
    → IsSorted ask asks
    → All (λ e. LevelInv bid e.0 e.1) bids
    → All (λ e. LevelInv ask e.0 e.1) asks
    → crosses bids asks ≡ false
    → IsUncrossed bids asks
unfolding before
crosses-IsUncrossed [] asks sb sa vb va h = tt
crosses-IsUncrossed ((p, l) ∷ m) [] sb sa vb va h = (tt, IsUncrossed-behind p m [] sb.0 tt)
crosses-IsUncrossed ((p, l) ∷ m) ((q, k) ∷ n) sb sa vb va h =
    let levels_below : ltb_ℤ l.price k.price ≡ true = ground arith in
    let below : before ask p q ≡ true =
      sym (ap (λ x. ltb_ℤ x k.price) (vb.0).price ∙ ap (λ x. ltb_ℤ p x) (va.0).price)
      ∙ levels_below in
    let all_above : All (λ f. before ask p f.0 ≡ true) ((q, k) ∷ n) =
      (below, AllAfter-above p q n below sa.0) in
    (all_above, IsUncrossed-behind p m ((q, k) ∷ n) sb.0 all_above)

pub begin_match-Still :
    (b : OrderBook)
    → Inv b
    → (f : NoEmpty b.bid_levels) → (g : NoEmpty b.ask_levels)
    → Still
        (side_volume b.bid_levels)
        (side_volume b.ask_levels)
        b.bid_levels
        b.ask_levels
        f
        g
        (begin_match b)
begin_match-Still b v f g = record {
  inv = record {
    bids = v.bids;
    asks = v.asks;
    bid_tail = NoEmpty-TailFull b.bid_levels f;
    ask_tail = NoEmpty-TailFull b.ask_levels g;
    bid_volume = omega arith;
    ask_volume = omega arith;
  };
  still_bids = λ _. refl;
  still_asks = λ _. refl;
}

module _ (b : OrderBook) (v : Inv b) where
  pub swept :
      Still
        (side_volume b.bid_levels)
        (side_volume b.ask_levels)
        b.bid_levels
        b.ask_levels
        v.full_bids
        v.full_asks
        (match_sweep (begin_match b))
      × NoEmpty (match_sweep (begin_match b)).bids
      × NoEmpty (match_sweep (begin_match b)).asks
      × (crosses (match_sweep (begin_match b)).bids (match_sweep (begin_match b)).asks ≡ false)
  swept =
      match_sweep-Still (side_volume b.bid_levels) (side_volume b.ask_levels) b.bid_levels
        b.ask_levels v.full_bids v.full_asks (begin_match b)
        (begin_match-Still b v v.full_bids v.full_asks) v.full_bids v.full_asks

  -- On a book that satisfies the invariant, matching keeps it.
  pub match_orders-Inv : Inv (match_orders b).0
  unfolding match_orders
  match_orders-Inv =
      let (s, f, g, stop) = swept in
      record { bids = (s.inv).bids; asks = (s.inv).asks; full_bids = f; full_asks = g }

  -- After matching a book that satisfies the invariant, every bid rests strictly below every ask.
  pub match_orders-IsUncrossed :
      IsUncrossed (match_orders b).0.bid_levels (match_orders b).0.ask_levels
  unfolding match_orders
  match_orders-IsUncrossed =
      let (s, f, g, stop) = swept in
      let w = s.inv in
      crosses-IsUncrossed _ _ (w.bids).sorted (w.asks).sorted (w.bids).levels (w.asks).levels stop

  -- On a book that satisfies the invariant, matching takes from both sides exactly the quantity that it executes.
  pub match_orders-executed :
      (side_volume (match_orders b).0.bid_levels + executed (match_orders b).1
        ≡ side_volume b.bid_levels)
      × (side_volume (match_orders b).0.ask_levels + executed (match_orders b).1
          ≡ side_volume b.ask_levels)
  unfolding match_orders
  match_orders-executed = let (s, f, g, stop) = swept in ((s.inv).bid_volume, (s.inv).ask_volume)

  -- If nothing was executed, both sides are as they were, as a valid cache needs.
  pub match_orders-idle :
      is_empty (match_orders b).1 ≡ true
      → ((match_orders b).0.bid_levels ≡ b.bid_levels)
        × ((match_orders b).0.ask_levels ≡ b.ask_levels)
  unfolding match_orders
  match_orders-idle h = let (s, f, g, stop) = swept in (s.still_bids h, s.still_asks h)

  -- If the best bid of a book that satisfies the invariant is not below its best ask, matching executes
  -- something.
  pub match_orders_progress :
      crosses b.bid_levels b.ask_levels ≡ true → is_empty (match_orders b).1 ≡ false
  unfolding match_orders
  match_orders_progress crossed =
      let (s, f, g, stop) = swept in
      elim (Bool-cases (is_empty (match_orders b).1)) [
        | inr busy ↦ busy
        | inl idle ↦
            let (bids, asks) = match_orders-idle idle in
            let still : crosses b.bid_levels b.ask_levels ≡ false =
              sym (
                ap (λ m. crosses m (match_orders b).0.ask_levels) bids
                ∙ ap (λ m. crosses b.bid_levels m) asks)
              ∙ stop in
            absurd (ground (arith, still, crossed))
      ]

-- ===== src/Crossing/Invariant.antt =====
-- The loops of `matchOrders`: one round of the inner loop.
use lobsimulater.Base.{
  ℕ, ◌+◌, ◌<◌, ◌≤◌, ◌≡◌, refl, ap, subst, [], ◌∷◌, ◌++◌, List, false, arith, is_empty, min, length,
}
use lobsimulater.Types.{bid, ask, Order, Price, Execution}
use lobsimulater.Level.{PriceLevel}
use lobsimulater.Levels.{Levels, side_volume}
use lobsimulater.Levels.Index.{SideInv, keep-SideInv}
use lobsimulater.Fill.{drop_filled, front_length, executed}
use lobsimulater.Fill.Keeps.{
  fill-SideInv, fill-SameHits, fill-side_volume, TailFull, fill_front-queue, front_small,
}
use lobsimulater.Market.Invariant.{executed-append}
use lobsimulater.Crossing.{Crossing, match_fill, match_execution}

-- What the rounds keep: `bid_rest` and `ask_rest` rest on the sides when the loop begins.
pub record CrossingInv (bid_rest ask_rest : ℕ) (c : Crossing) : Type 0 where
  pub bids : SideInv bid c.bids c.orders
  pub asks : SideInv ask c.asks c.orders
  pub bid_tail : TailFull c.bids
  pub ask_tail : TailFull c.asks
  pub bid_volume : side_volume c.bids + executed c.executions ≡ bid_rest
  pub ask_volume : side_volume c.asks + executed c.executions ≡ ask_rest

abbrev pub level_measure : Crossing → ℕ
level_measure c = front_length c.bids + front_length c.asks

module _ (bid_rest ask_rest : ℕ) (c : Crossing) (v : CrossingInv bid_rest ask_rest c) (p q : Price)
    (l k : PriceLevel) (m n : Levels) (b a : Order) (bs as' : List Order)
    (at_bid : c.bids ≡ (p, l) ∷ m) (at_ask : c.asks ≡ (q, k) ∷ n) (e : l.queue ≡ b ∷ bs)
    (f : k.queue ≡ a ∷ as') where
  abbrev pub fill : ℕ
  fill = min b.remaining_quantity a.remaining_quantity

  pub bids_here : SideInv bid ((p, l) ∷ m) c.orders
  bids_here = subst (λ x. SideInv bid x c.orders) at_bid v.bids

  pub asks_here : SideInv ask ((q, k) ∷ n) c.orders
  asks_here = subst (λ x. SideInv ask x c.orders) at_ask v.asks

  bid_le : fill ≤ b.remaining_quantity
  bid_le = omega arith

  ask_le : fill ≤ a.remaining_quantity
  ask_le = omega arith

  -- The asks beside the index that the bid's fill leaves.
  pub asks_next : SideInv ask ((q, k) ∷ n) (drop_filled b fill c.orders)
  asks_next =
      keep-SideInv asks_here (drop_filled b fill c.orders)
        (fill-SameHits bid p l m c.orders b bs fill bids_here e bid_le ask refl)

  traded : executed (c.executions ++ (match_execution b a fill ∷ [])) ≡ executed c.executions + fill
  traded = executed-append c.executions (match_execution b a fill)

  pub fill-CrossingInv :
      CrossingInv bid_rest ask_rest (match_fill (p, l) m (q, k) n (b ∷ bs) (a ∷ as') c)
  unfolding match_fill
  fill-CrossingInv = record {
    bids =
        keep-SideInv (fill-SideInv bid p l m c.orders b bs fill bids_here e bid_le)
          (drop_filled a fill (drop_filled b fill c.orders))
          (fill-SameHits ask q k n (drop_filled b fill c.orders) a as' fill asks_next f ask_le bid
            refl);
    asks = fill-SideInv ask q k n (drop_filled b fill c.orders) a as' fill asks_next f ask_le;
    bid_tail = subst TailFull at_bid v.bid_tail;
    ask_tail = subst TailFull at_ask v.ask_tail;
    bid_volume = omega (
      arith,
      traded,
      v.bid_volume,
      ap side_volume at_bid,
      fill-side_volume bid p l m c.orders b bs fill bids_here e bid_le,
    );
    ask_volume = omega (
      arith,
      traded,
      v.ask_volume,
      ap side_volume at_ask,
      fill-side_volume ask q k n c.orders a as' fill asks_here f ask_le,
    );
  }

  pub fill-measure :
      level_measure (match_fill (p, l) m (q, k) n (b ∷ bs) (a ∷ as') c) < level_measure c
  unfolding match_fill
  fill-measure = ground (
    arith,
    ap (λ (x : List Order). length x)
        (fill_front-queue l b bs fill (front_small bid p l b bs fill e bid_le (bids_here.levels).0)
          bid_le),
    ap (λ (x : List Order). length x)
        (fill_front-queue k a as' fill
          (front_small ask q k a as' fill f ask_le (asks_here.levels).0) ask_le),
    ap front_length at_bid,
    ap front_length at_ask,
    ap (λ (x : List Order). length x) e,
    ap (λ (x : List Order). length x) f,
  )

  pub fill-length :
      (length (match_fill (p, l) m (q, k) n (b ∷ bs) (a ∷ as') c).bids ≡ length c.bids)
      × (length (match_fill (p, l) m (q, k) n (b ∷ bs) (a ∷ as') c).asks ≡ length c.asks)
  unfolding match_fill
  fill-length =
      omega (arith, ap (λ (x : Levels). length x) at_bid, ap (λ (x : Levels). length x) at_ask)

  pub fill-executes :
      is_empty (match_fill (p, l) m (q, k) n (b ∷ bs) (a ∷ as') c).executions ≡ false
  unfolding match_fill
  fill-executes = append-full c.executions (match_execution b a fill)
    where
      append-full : (es : List Execution) (x : Execution) → is_empty (es ++ (x ∷ [])) ≡ false
      append-full [] x = refl
      append-full (y ∷ es) x = refl

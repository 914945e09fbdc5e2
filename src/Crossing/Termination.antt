-- ===== src/Crossing/Termination.antt =====
-- The loops of `matchOrders` as loops without fuel.
use lobsimulater.Base.{◌≡◌, refl, ◌&&◌, length, ◌+◌}
use lobsimulater.Base.Rounds.{Ends, loop-Ends}
use lobsimulater.Levels.{side_volume}
use lobsimulater.Book.{OrderBook}
use lobsimulater.Book.Invariant.{Inv}
use lobsimulater.Fill.{front_rests, front_length, drop_front}
use lobsimulater.Crossing.{
  Crossing, match_front, match_level, match_round, match_sweep, crosses, begin_match, end_match,
  match_orders,
}
use lobsimulater.Crossing.Loops.{
  InLevel, InSides, match_front-InLevel, match_level-InLevel, match_round-InSides,
}
use lobsimulater.Crossing.Result.{begin_match-Still, swept}

-- The inner loop ends, one round of the outer loop ends, and the outer loop ends.
abbrev pub LevelEnds : Crossing → Crossing → Type 0
LevelEnds =
    Ends (λ c. front_rests c.bids && front_rests c.asks) (λ c d. d ≡ match_front c.bids c.asks c)

abbrev pub RoundEnds : Crossing → Crossing → Type 0
RoundEnds c d =
    (e : Crossing) × LevelEnds c e
    × (d ≡ record e { bids = drop_front e.bids; asks = drop_front e.asks })

abbrev pub MatchEnds : Crossing → Crossing → Type 0
MatchEnds = Ends (λ c. crosses c.bids c.asks) RoundEnds

module _ (b : OrderBook) (v : Inv b) where
  abbrev Rounds : Crossing → Type 0
  Rounds =
      InSides (side_volume b.bid_levels) (side_volume b.ask_levels) b.bid_levels b.ask_levels
        v.full_bids v.full_asks

  match_round-RoundEnds : (c : Crossing) → Rounds c → RoundEnds c (match_round c)
  unfolding match_round match_level
  match_round-RoundEnds c (s, f, g) =
      let (w, stop) =
        match_level-InLevel (side_volume b.bid_levels) (side_volume b.ask_levels) b.bid_levels
          b.ask_levels v.full_bids v.full_asks (length c.bids) (length c.asks) c (s, refl, refl) in
      (
        match_level c,
        loop-Ends (λ d. front_rests d.bids && front_rests d.asks) (λ d. match_front d.bids d.asks d)
            (λ d e. e ≡ match_front d.bids d.asks d)
            (InLevel (side_volume b.bid_levels) (side_volume b.ask_levels) b.bid_levels b.ask_levels
              v.full_bids v.full_asks (length c.bids) (length c.asks))
            (λ d h go.
              (match_front-InLevel (side_volume b.bid_levels) (side_volume b.ask_levels)
                b.bid_levels b.ask_levels v.full_bids v.full_asks (length c.bids) (length c.asks) d
                h go).0)
            (λ d h go. refl) (front_length c.bids + front_length c.asks + 1) c (s, refl, refl) stop,
        refl,
      )

  -- On a book that satisfies the invariant, the two nested loops of `matchOrders`, run without fuel,
  -- end after finitely many rounds, and what they leave is what the function returns.
  pub match_orders-MatchEnds :
      (c : Crossing) × MatchEnds (begin_match b) c
      × (match_orders b ≡ (end_match c b, c.executions))
  unfolding match_orders match_sweep
  match_orders-MatchEnds =
      let (s, f, g, stop) = swept b v in
      (
        match_sweep (begin_match b),
        loop-Ends (λ c. crosses c.bids c.asks) match_round RoundEnds Rounds
            (λ c h go.
              (match_round-InSides (side_volume b.bid_levels) (side_volume b.ask_levels)
                b.bid_levels b.ask_levels v.full_bids v.full_asks c h go).0)
            (λ c h go. match_round-RoundEnds c h) (length b.bid_levels + length b.ask_levels + 1)
            (begin_match b)
            (begin_match-Still b v v.full_bids v.full_asks, v.full_bids, v.full_asks) stop,
        refl,
      )

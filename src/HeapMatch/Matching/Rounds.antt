-- ===== src/HeapMatch/Matching/Rounds.antt =====
-- The rounds of the loops of `matchOrders` on a heap.
mod States
pub use States.*
use lobsimulater.Base.{
  ℕ, ◌<◌, ◌≡◌, refl, sym, ◌∙◌, ap, subst, [], ◌∷◌, Option, some, Bool, true, false, not, ◌&&◌,
  ◌>>=◌, ltb_ℤ, length, is_empty, List-cases, inl, inr, arith, if◌then◌else◌,
}
use lobsimulater.Base.Rounds.{Ends-Runs}
use lobsimulater.Types.{bid, ask, Price}
use lobsimulater.Level.{PriceLevel}
use lobsimulater.Levels.{Levels, side_volume}
use lobsimulater.Levels.Order.{IsSorted}
use lobsimulater.Book.{OrderBook, levels_of, with_levels}
use lobsimulater.Book.Invariant.{Inv}
use lobsimulater.Fill
use lobsimulater.Fill.{front_rests}
use lobsimulater.Market.Invariant.{front_rests-cases}
use lobsimulater.Crossing
use lobsimulater.Crossing.{begin_match, end_match, match_orders}
use lobsimulater.Crossing.Loops.{
  InLevel, InSides, match_front-InLevel, match_front-match_fill, drop_fronts-InSides,
  crosses-length,
}
use lobsimulater.Crossing.Termination.{RoundEnds}
use lobsimulater.Heap.{Ptr}
use lobsimulater.Heap.Steps.{bind_some}
use lobsimulater.HeapBook.{LinkedBook, LevelMap, load_level}
use lobsimulater.HeapBook.Steps.{load_level-ok}
use lobsimulater.HeapBook.Find.{SamePrices}
use lobsimulater.HeapBook.Refines.{IsBook, touch-Places, touch-prices}
use lobsimulater.HeapMatch.{
  Crossing, match_front, fronts_rest, crosses, crosses_at, drop_front, RoundMatches,
}
use lobsimulater.HeapMatch.Front.{best}
use lobsimulater.HeapMatch.Empty.{front_empty_lem, drop_front-IsBook}
use lobsimulater.HeapMatch.Trade.{crossed, match_step}

module _ (b : OrderBook) (v : Inv b) where
  abbrev WithinLevels : ℕ → ℕ → Crossing.Crossing → Type 0
  WithinLevels =
      InLevel (side_volume b.bid_levels) (side_volume b.ask_levels) b.bid_levels b.ask_levels
        v.full_bids v.full_asks

  abbrev pub BetweenLevels : Crossing.Crossing → Type 0
  BetweenLevels =
      InSides (side_volume b.bid_levels) (side_volume b.ask_levels) b.bid_levels b.ask_levels
        v.full_bids v.full_asks

  inner_step :
      (i j : ℕ) (s : Crossing) (c d : Crossing.Crossing)
      → WithinLevels i j c
      → SameCrossing b s c
      → (front_rests c.bids && front_rests c.asks) ≡ true
      → d ≡ Crossing.match_front c.bids c.asks c
      → WithinLevels i j d × (s' : Crossing) × (match_front s ≡ some s') × SameCrossing b s' d
  unfolding Crossing.match_fill
  inner_step i j s c d (still, x, y) same go does =
      let (p, l, m, o, bs, at_bid, e) = front_rests-cases c.bids (ground arith) in
      let (q, k, n, a, as', at_ask, f) = front_rests-cases c.asks (ground arith) in
      let (s', done, books, executions) =
        match_step p q l k m n o a bs as' b s.book c _ _ still.inv at_bid at_ask e f (
          subst (λ z. IsBook s.book (crossed z ((q, k) ∷ n) c.orders c.metrics b)) at_bid
            (subst (λ z. IsBook s.book (crossed c.bids z c.orders c.metrics b)) at_ask
              same.books)) in
      (
        subst (WithinLevels i j) (sym does)
            (match_front-InLevel (side_volume b.bid_levels) (side_volume b.ask_levels) b.bid_levels
              b.ask_levels v.full_bids v.full_asks i j c (still, x, y) go).0,
        s',
        ap (λ z. match_front (record { book = s.book; executions = z })) same.executions ∙ done,
        subst (SameCrossing b s')
            (sym (
              does
              ∙ match_front-match_fill c.bids c.asks c p q l k m n (o ∷ bs) (a ∷ as') at_bid at_ask
                  e f))
            (record { books = books; executions = executions }),
      )

  inner_test :
      (i j : ℕ)
      → 0 < i
      → 0 < j
      → (s : Crossing) (c : Crossing.Crossing) → WithinLevels i j c
      → SameCrossing b s c
      → fronts_rest s ≡ some (front_rests c.bids && front_rests c.asks)
  unfolding fronts_rest
  inner_test i j some_bids some_asks s c (still, x, y) same = elim (List-cases c.bids) [
    | inl e ↦ absurd (omega (arith, some_bids, x, ap (λ (z : Levels). length z) e))
    | inr ((p, l), m, e) ↦ elim (List-cases c.asks) [
      | inl f ↦ absurd (omega (arith, some_asks, y, ap (λ (z : Levels). length z) f))
      | inr ((q, k), n, f) ↦
          let now : OrderBook = crossed c.bids c.asks c.orders c.metrics b in
          both_test _ _ (is_empty l.queue) (is_empty k.queue)
            (front_empty_lem s.book now same.books bid p l m (bids_of now ∙ e))
            (front_empty_lem s.book now same.books ask q k n (asks_of now ∙ f))
          ∙ ap (λ z. some (front_rests z && not (is_empty k.queue))) (sym e)
          ∙ ap (λ z. some (front_rests c.bids && front_rests z)) (sym f)
    ]
  ]

  pub outer_test :
      (s : Crossing) (c : Crossing.Crossing)
      → BetweenLevels c
      → SameCrossing b s c
      → crosses s ≡ some (Crossing.crosses c.bids c.asks)
  outer_test s c inside same =
      let now : OrderBook = crossed c.bids c.asks c.orders c.metrics b in
      crosses_lem s.book now same.books s.book.bid_levels s.book.ask_levels c.bids c.asks refl refl
        (bids_of now) (asks_of now)
        (subst (SamePrices s.book.bid_levels) (bids_of now) (same.books.prices bid))
        (subst (SamePrices s.book.ask_levels) (asks_of now) (same.books.prices ask))

  -- The exit of the inner loop, with the levels that it may have emptied.
  drop_step :
      (s : Crossing) (c : Crossing.Crossing) (p q : Price) (l k : PriceLevel) (m n : Levels)
      → c.bids ≡ (p, l) ∷ m
      → c.asks ≡ (q, k) ∷ n
      → IsSorted bid c.bids
      → IsSorted ask c.asks
      → SameCrossing b s c
      → (b1 b2 : LinkedBook) × (drop_front bid s.book ≡ some b1)
        × (drop_front ask b1 ≡ some b2)
        × SameCrossing b
            (record s { book = b2 })
            (record c { bids = Fill.drop_front c.bids; asks = Fill.drop_front c.asks })
  drop_step s c p q l k m n e f bids_sorted asks_sorted same =
      let now : OrderBook = crossed c.bids c.asks c.orders c.metrics b in
      let next : OrderBook = crossed (Fill.drop_front c.bids) c.asks c.orders c.metrics b in
      let (b1, done1, kept1) =
        drop_front-IsBook s.book now same.books bid p l m (bids_of now ∙ e)
          (subst (IsSorted bid) e bids_sorted) in
      let same1 : IsBook b1 next =
        subst (IsBook b1)
          (ap (λ z. with_levels bid (Fill.drop_front z) now) (sym e)
            ∙ with_bids (Fill.drop_front c.bids) now)
          kept1 in
      let (b2, done2, kept2) =
        drop_front-IsBook b1 next same1 ask q k n (asks_of next ∙ f)
          (subst (IsSorted ask) f asks_sorted) in
      (
        b1,
        b2,
        done1,
        done2,
        record {
          books =
              subst (IsBook b2)
                (ap (λ z. with_levels ask (Fill.drop_front z) next) (sym f)
                  ∙ with_asks (Fill.drop_front c.asks) next)
                kept2;
          executions = same.executions;
        },
      )

  pub outer_step :
      (s : Crossing) (c d : Crossing.Crossing)
      → BetweenLevels c
      → SameCrossing b s c
      → Crossing.crosses c.bids c.asks ≡ true
      → RoundEnds c d
      → BetweenLevels d × (s' : Crossing) × RoundMatches s s' × SameCrossing b s' d
  outer_step s c d (still, fb, fa) same go (w, ends, does) =
      let (some_bids, some_asks) = crosses-length c.bids c.asks go in
      let ((still', x, y), s1, runs, same1) =
        Ends-Runs fronts_rest (λ z u. match_front z ≡ some u)
          (λ z. front_rests z.bids && front_rests z.asks)
          (λ z u. u ≡ Crossing.match_front z.bids z.asks z)
          (WithinLevels (length c.bids) (length c.asks)) (SameCrossing b)
          (inner_test (length c.bids) (length c.asks) some_bids some_asks)
          (inner_step (length c.bids) (length c.asks)) s c w (still, refl, refl) same ends in
      elim (List-cases w.bids) [
        | inl e ↦ absurd (omega (arith, some_bids, x, ap (λ (z : Levels). length z) e))
        | inr ((p, l), m, e) ↦ elim (List-cases w.asks) [
          | inl f ↦ absurd (omega (arith, some_asks, y, ap (λ (z : Levels). length z) f))
          | inr ((q, k), n, f) ↦
              let (b1, b2, done1, done2, same2) =
                drop_step s1 w p q l k m n e f still'.inv.bids.sorted still'.inv.asks.sorted
                  same1 in
              (
                subst BetweenLevels (sym does) (
                    drop_fronts-InSides (side_volume b.bid_levels) (side_volume b.ask_levels)
                      b.bid_levels b.ask_levels v.full_bids v.full_asks w still'),
                record s1 { book = b2 },
                (s1, runs, (b1, b2, done1, done2, refl)),
                subst (SameCrossing b (record s1 { book = b2 })) (sym does) same2,
              )
        ]
      ]

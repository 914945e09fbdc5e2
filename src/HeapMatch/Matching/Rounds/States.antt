-- ===== src/HeapMatch/Matching/Rounds/States.antt =====
-- The states of the loops of `matchOrders` in the two books, and their tests.
use lobsimulater.Base.{
  ◌≡◌, refl, sym, ◌∙◌, ap, [], ◌∷◌, Option, some, Bool, true, false, not, ◌&&◌, ◌>>=◌, ltb_ℤ,
  if◌then◌else◌,
}
use lobsimulater.Types.{bid, ask}
use lobsimulater.Levels.{Levels}
use lobsimulater.Book.{OrderBook, levels_of, with_levels}
use lobsimulater.Crossing
use lobsimulater.Crossing.{begin_match, end_match, match_orders}
use lobsimulater.Heap.{Ptr}
use lobsimulater.Heap.Steps.{bind_some}
use lobsimulater.HeapBook.{LinkedBook, LevelMap, load_level}
use lobsimulater.HeapBook.Steps.{load_level-ok}
use lobsimulater.HeapBook.Find.{SamePrices}
use lobsimulater.HeapBook.Refines.{IsBook, touch-Places, touch-prices}
use lobsimulater.HeapMatch.{Crossing, crosses_at}
use lobsimulater.HeapMatch.Front.{best}
use lobsimulater.HeapMatch.Trade.{crossed}

-- The states of the two loops.
pub record SameCrossing (b : OrderBook) (s : Crossing) (c : Crossing.Crossing) : Type 0 where
  pub books : IsBook s.book (crossed c.bids c.asks c.orders c.metrics b)
  pub executions : s.executions ≡ c.executions

pub bids_of : (b : OrderBook) → levels_of bid b ≡ b.bid_levels
unfolding levels_of
bids_of b = refl

pub asks_of : (b : OrderBook) → levels_of ask b ≡ b.ask_levels
unfolding levels_of
asks_of b = refl

-- The test of the outer loop, on maps with the same prices.
pub crosses_lem :
    (hb : LinkedBook) (b : OrderBook) (same : IsBook hb b) (m n : LevelMap) (x y : Levels)
    → hb.bid_levels ≡ m
    → hb.ask_levels ≡ n
    → levels_of bid b ≡ x
    → levels_of ask b ≡ y
    → SamePrices m x
    → SamePrices n y
    → crosses_at m n hb.levels ≡ some (Crossing.crosses x y)
crosses_lem hb b same [] n [] y em en ex ey h k = refl
crosses_lem hb b same [] n (e ∷ x) y em en ex ey h k = absurd h
crosses_lem hb b same (e ∷ m) n [] y em en ex ey h k = absurd h
crosses_lem hb b same (e ∷ m) [] (f ∷ x) [] em en ex ey h k = refl
crosses_lem hb b same (e ∷ m) [] (f ∷ x) (g ∷ y) em en ex ey h k = absurd k
crosses_lem hb b same (e ∷ m) (g ∷ n) (f ∷ x) [] em en ex ey h k = absurd k
crosses_lem hb b same ((p, t) ∷ m) ((q, u) ∷ n) ((p', l) ∷ x) ((q', k) ∷ y) em en ex ey (hp, h)
      (kq, hk) =
    let bids = best hb b same bid p' l x ex in
    let asks = best hb b same ask q' k y ey in
    bind_some _ _
      (ap (λ a. load_level a hb.levels) (ap at_front (sym em ∙ bids.map))
        ∙ load_level-ok hb.levels bids.address bids.place.level bids.place.address
            bids.place.stored)
      (bind_some _ _
        (ap (λ a. load_level a hb.levels) (ap at_front (sym en ∙ asks.map))
          ∙ load_level-ok hb.levels asks.address asks.place.level asks.place.address
              asks.place.stored)
        (ap (λ z. some (not (ltb_ℤ z asks.place.level.price))) bids.place.is_level.price
          ∙ ap (λ z. some (not (ltb_ℤ l.price z))) asks.place.is_level.price))
  where
    at_front : LevelMap → Ptr
    at_front [] = 0
    at_front ((r, a) ∷ z) = a

pub with_bids : (m : Levels) (b : OrderBook) → with_levels bid m b ≡ record b { bid_levels = m }
unfolding with_levels
with_bids m b = refl

pub with_asks : (m : Levels) (b : OrderBook) → with_levels ask m b ≡ record b { ask_levels = m }
unfolding with_levels
with_asks m b = refl

-- The flags of both caches are set alike.
pub recached :
    (hb : LinkedBook) (b : OrderBook) (x y : Bool)
    → IsBook hb b
    → x ≡ y
    → IsBook (record hb { cache_valid = x }) (record b { cache_valid = y })
recached hb b x y same e = record {
  view = same.view;
  places = touch-Places (record hb { cache_valid = x }) b same.view _ _ _ same.places;
  index = same.index;
  prices = touch-prices hb b _ _ _ same.prices;
  fields = (same.fields.0, same.fields.1, same.fields.2, e, same.fields.4);
}

pub both_test :
    (m n : Option Bool) (c d : Bool)
    → m ≡ some c
    → n ≡ some d
    → (m >>= λ x. if not x then (n >>= λ y. some (not y)) else some false) ≡ some (not c && not d)
both_test m n true d e f = bind_some m _ e refl
both_test m n false d e f = bind_some m _ e (bind_some n _ f refl)

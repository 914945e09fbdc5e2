-- ===== src/Crossing/Loops.antt =====
-- The loops of `matchOrders`: their invariants and measures.
use lobsimulater.Base.{
  ℕ, ◌+◌, ◌<◌, ◌≤◌, ◌≡◌, refl, sym, ◌∙◌, ap, subst, [], ◌∷◌, List, true, false, Bool-cases,
  List-cases, inl, inr, arith, ◌&&◌, is_empty, length, loop_rule,
}
use lobsimulater.Types.{Order, Price}
use lobsimulater.Level.{PriceLevel}
use lobsimulater.Levels.{Levels}
use lobsimulater.Book.Invariant.{NoEmpty}
use lobsimulater.Fill.{front_rests, front_length, drop_front}
use lobsimulater.Types.{bid, ask}
use lobsimulater.Fill.Keeps.{
  drop_front-SideInv, drop_front-side_volume, NoEmpty-TailFull, drop_front-NoEmpty,
  drop_front-empty, drop_front-full,
}
use lobsimulater.Market.Invariant.{front_rests-cases}
use lobsimulater.Crossing.{
  Crossing, match_fill, match_front, match_level, match_round, match_sweep, crosses,
}
use lobsimulater.Crossing.Invariant.{
  CrossingInv, level_measure, fill-CrossingInv, fill-measure, fill-length, fill-executes,
}

NoEmpty-drop_front : (m : Levels) → NoEmpty m → drop_front m ≡ m
NoEmpty-drop_front [] f = refl
NoEmpty-drop_front ((p, l) ∷ m) f = elim (List-cases l.queue) [
  | inl e ↦ absurd (f.0 e)
  | inr (x, q, e) ↦ drop_front-full p l m x q e
]

drop_front-length :
    (m : Levels) (k : ℕ)
    → length m ≡ k
    → (length (drop_front m) ≤ k) × (front_rests m ≡ false → 0 < k → length (drop_front m) < k)
drop_front-length [] k n = omega arith
drop_front-length ((p, l) ∷ m) k n = elim (List-cases l.queue) [
  | inl e ↦ rw (drop_front-empty p l m e) (omega arith, λ _ _. omega arith)
  | inr (x, q, e) ↦
      rw (drop_front-full p l m x q e)
        (omega arith, λ stop _. absurd (ground (arith, ap (λ (z : List Order). is_empty z) e)))
]

pub crosses-length : (m n : Levels) → crosses m n ≡ true → (0 < length m) × (0 < length n)
crosses-length [] n h = absurd (ground arith)
crosses-length ((p, l) ∷ m) [] h = absurd (ground arith)
crosses-length ((p, l) ∷ m) ((q, k) ∷ n) h = omega arith

pub match_front-match_fill :
    (bids asks : Levels) (c : Crossing) (p q : Price) (l r : PriceLevel) (m n : Levels)
    (xs ys : List Order)
    → bids ≡ (p, l) ∷ m
    → asks ≡ (q, r) ∷ n
    → l.queue ≡ xs
    → r.queue ≡ ys
    → match_front bids asks c ≡ match_fill (p, l) m (q, r) n xs ys c
unfolding match_front
match_front-match_fill bids asks c p q l r m n xs ys at_bid at_ask e f =
    ap (λ x. match_front x asks c) at_bid
    ∙ ap (λ x. match_front ((p, l) ∷ m) x c) at_ask
    ∙ ap (λ x. match_fill (p, l) m (q, r) n x r.queue c) e
    ∙ ap (λ x. match_fill (p, l) m (q, r) n xs x c) f

module _ (bid_rest ask_rest : ℕ) (bids0 asks0 : Levels) (full_bids0 : NoEmpty bids0)
    (full_asks0 : NoEmpty asks0) where
  -- What nothing was executed on is as it was.
  pub record Still (c : Crossing) : Type 0 where
    pub inv : CrossingInv bid_rest ask_rest c
    pub still_bids : is_empty c.executions ≡ true → c.bids ≡ bids0
    pub still_asks : is_empty c.executions ≡ true → c.asks ≡ asks0

  abbrev pub InLevel : ℕ → ℕ → Crossing → Type 0
  InLevel k j c = Still c × (length c.bids ≡ k) × (length c.asks ≡ j)

  pub match_front-InLevel :
      (k j : ℕ) (c : Crossing)
      → InLevel k j c
      → (front_rests c.bids && front_rests c.asks) ≡ true
      → InLevel k j (match_front c.bids c.asks c)
        × (level_measure (match_front c.bids c.asks c) < level_measure c)
  unfolding match_front
  match_front-InLevel k j c (s, x, y) go =
      let (p, l, m, b, bs, at_bid, e) = front_rests-cases c.bids (ground arith) in
      let (q, r, n, a, as', at_ask, f) = front_rests-cases c.asks (ground arith) in
      let v = s.inv in
      let done = fill-executes bid_rest ask_rest c v p q l r m n b a bs as' at_bid at_ask e f in
      let step : match_front c.bids c.asks c ≡ match_fill (p, l) m (q, r) n (b ∷ bs) (a ∷ as') c =
        match_front-match_fill c.bids c.asks c p q l r m n (b ∷ bs) (a ∷ as') at_bid at_ask e f in
      subst (λ d. InLevel k j d × (level_measure d < level_measure c)) (sym step)
        (
          (
            record {
              inv = fill-CrossingInv bid_rest ask_rest c v p q l r m n b a bs as' at_bid at_ask e f;
              still_bids = λ none_done. cc (done, none_done);
              still_asks = λ none_done. cc (done, none_done);
            },
            (fill-length bid_rest ask_rest c v p q l r m n b a bs as' at_bid at_ask e f).0 ∙ x,
            (fill-length bid_rest ask_rest c v p q l r m n b a bs as' at_bid at_ask e f).1 ∙ y,
          ),
          fill-measure bid_rest ask_rest c v p q l r m n b a bs as' at_bid at_ask e f,
        )

  pub match_level-InLevel :
      (k j : ℕ) (c : Crossing)
      → InLevel k j c
      → InLevel k j (match_level c)
        × ((front_rests (match_level c).bids && front_rests (match_level c).asks) ≡ false)
  unfolding match_level
  match_level-InLevel k j c h =
      loop_rule (λ d. front_rests d.bids && front_rests d.asks) (λ d. match_front d.bids d.asks d)
        (InLevel k j) level_measure (match_front-InLevel k j)
        (front_length c.bids + front_length c.asks + 1) c (omega arith) h

  abbrev pub InSides : Crossing → Type 0
  InSides c = Still c × NoEmpty c.bids × NoEmpty c.asks

  -- The exit of the inner loop.
  pub drop_fronts-InSides :
      (d : Crossing)
      → Still d
      → InSides (record d { bids = drop_front d.bids; asks = drop_front d.asks })
  drop_fronts-InSides d t =
      let v = t.inv in
      (
        record {
          inv = record {
            bids = drop_front-SideInv bid d.bids d.orders v.bids;
            asks = drop_front-SideInv ask d.asks d.orders v.asks;
            bid_tail = NoEmpty-TailFull (drop_front d.bids) (drop_front-NoEmpty d.bids v.bid_tail);
            ask_tail = NoEmpty-TailFull (drop_front d.asks) (drop_front-NoEmpty d.asks v.ask_tail);
            bid_volume = omega (arith, v.bid_volume, drop_front-side_volume d.bids);
            ask_volume = omega (arith, v.ask_volume, drop_front-side_volume d.asks);
          };
          still_bids = λ h. ap drop_front (t.still_bids h) ∙ NoEmpty-drop_front bids0 full_bids0;
          still_asks = λ h. ap drop_front (t.still_asks h) ∙ NoEmpty-drop_front asks0 full_asks0;
        },
        drop_front-NoEmpty d.bids v.bid_tail,
        drop_front-NoEmpty d.asks v.ask_tail,
      )

  abbrev side_measure : Crossing → ℕ
  side_measure c = length c.bids + length c.asks

  pub match_round-InSides :
      (c : Crossing)
      → InSides c
      → crosses c.bids c.asks ≡ true
      → InSides (match_round c) × (side_measure (match_round c) < side_measure c)
  unfolding match_round
  match_round-InSides c (s, fb, fa) go =
      let ((t, x, y), stop) =
        match_level-InLevel (length c.bids) (length c.asks) c (s, refl, refl) in
      let d = match_level c in
      let v = t.inv in
      let (some_bids, some_asks) = crosses-length c.bids c.asks go in
      let (less_bids, fewer_bids) = drop_front-length d.bids (length c.bids) x in
      let (less_asks, fewer_asks) = drop_front-length d.asks (length c.asks) y in
      (
        drop_fronts-InSides d t,
        elim (Bool-cases (front_rests d.bids)) [
          | inr out ↦ omega (arith, fewer_bids out some_bids, less_asks)
          | inl more ↦ omega (arith, less_bids, fewer_asks (ground arith) some_asks)
        ],
      )

  pub match_sweep-Still :
      (c : Crossing)
      → Still c
      → NoEmpty c.bids
      → NoEmpty c.asks
      → Still (match_sweep c)
        × NoEmpty (match_sweep c).bids
        × NoEmpty (match_sweep c).asks
        × (crosses (match_sweep c).bids (match_sweep c).asks ≡ false)
  unfolding match_sweep
  match_sweep-Still c s fb fa =
      let ((t, gb, ga), stop) =
        loop_rule (λ d. crosses d.bids d.asks) match_round InSides side_measure match_round-InSides
          (length c.bids + length c.asks + 1) c (omega arith) (s, fb, fa) in
      (t, gb, ga, stop)

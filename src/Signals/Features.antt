-- ===== src/Signals/Features.antt =====
-- `FeatureExtractor` (src/signals.cpp).
use lobsimulater.Base.{◌-◌, List, [], ◌∷◌, Option, none, some, if◌then◌else◌, length, max}
use lobsimulater.Types.{bid, ask, Price, Quantity, add32}
use lobsimulater.Book.{OrderBook}
use lobsimulater.Queries.{get_aggregated_book}
use lobsimulater.Stats.{BookStats, get_stats, get_micro_price}
use lobsimulater.Double.{Double, nought, of_ℕ, max_of}
use lobsimulater.Metrics.{accumulate, square}

pub record Features (D : Type 0) : Type 0 where
  pub mid_price : D
  pub spread : D
  pub spread_pct : D
  pub bid_volume : D
  pub ask_volume : D
  pub volume_imbalance : D
  pub bid_depth_1 : D
  pub ask_depth_1 : D
  pub bid_depth_5 : D
  pub ask_depth_5 : D
  pub microprice : D
  pub book_pressure : D
  pub queue_imbalance : D
  pub time_since_last_trade : D
  pub time_of_day_normalized : D
  pub price_momentum : D
  pub volume_momentum : D
  pub volatility : D

abbrev pub to_vector : {D : Type 0} → Features D → List D
to_vector f =
    f.mid_price ∷ f.spread ∷ f.spread_pct ∷ f.bid_volume ∷ f.ask_volume ∷ f.volume_imbalance
    ∷ f.bid_depth_1 ∷ f.ask_depth_1 ∷ f.bid_depth_5 ∷ f.ask_depth_5 ∷ f.microprice ∷ f.book_pressure
    ∷ f.queue_imbalance ∷ f.time_since_last_trade ∷ f.time_of_day_normalized ∷ f.price_momentum
    ∷ f.volume_momentum ∷ f.volatility ∷ []

-- `hist[hist.size()-2]` and `hist.back()`, if there are two.
abbrev pub last_two : {A : Type 0} → List A → Option (A × A)
last_two [] = none
last_two (x ∷ []) = none
last_two (x ∷ y ∷ []) = some (x, y)
last_two (x ∷ y ∷ z ∷ xs) = last_two (y ∷ z ∷ xs)

module _ {D : Type 0} ⦃d : Double D⦄ where
  open d use {literal, sub, mul, div, lt, sqrt}

  abbrev pub first_depth : List (Price × Quantity) → D
  first_depth [] = nought
  first_depth ((p, q) ∷ xs) = of_ℕ q

  abbrev pub depth_sum : List (Price × Quantity) → D
  depth_sum xs = accumulate (λ p. of_ℕ p.1) nought xs

  unfoldable pub extract_features : OrderBook → Features D
  extract_features book =
      let (stats, book') = get_stats {D = D} book in
      record {
        mid_price = stats.mid_price;
        spread = stats.spread;
        spread_pct =
            if lt nought stats.mid_price
            then div stats.spread (max_of (literal 1 6) stats.mid_price)
            else nought;
        bid_volume = of_ℕ stats.bid_volume;
        ask_volume = of_ℕ stats.ask_volume;
        volume_imbalance = stats.imbalance;
        bid_depth_1 = first_depth (get_aggregated_book bid 1 book');
        ask_depth_1 = first_depth (get_aggregated_book ask 1 book');
        bid_depth_5 = depth_sum (get_aggregated_book bid 5 book');
        ask_depth_5 = depth_sum (get_aggregated_book ask 5 book');
        microprice = (get_micro_price 1 book').0;
        book_pressure = stats.imbalance;
        queue_imbalance = stats.imbalance;
        time_since_last_trade = nought;
        time_of_day_normalized = literal 5 1;
        price_momentum = nought;
        volume_momentum = nought;
        volatility = nought;
      }

  unfoldable pub extract_features_with_history : OrderBook → List (BookStats D) → Features D
  extract_features_with_history book hist =
      let f = extract_features book in
      elim (last_two hist) [
        | none ↦ f
        | some (prev, last) ↦ record f {
          price_momentum = sub last.mid_price prev.mid_price;
          volume_momentum =
              sub (of_ℕ (add32 last.bid_volume last.ask_volume))
                (of_ℕ (add32 prev.bid_volume prev.ask_volume));
          volatility = sqrt (
              div
                (accumulate (λ (h : BookStats D). square (sub h.mid_price last.mid_price)) nought
                  hist)
                (of_ℕ (max 1 (length hist - 1))));
        }
      ]

  -- `Features{}`.
  abbrev pub blank_features : Features D
  blank_features = record {
    mid_price = nought;
    spread = nought;
    spread_pct = nought;
    bid_volume = nought;
    ask_volume = nought;
    volume_imbalance = nought;
    bid_depth_1 = nought;
    ask_depth_1 = nought;
    bid_depth_5 = nought;
    ask_depth_5 = nought;
    microprice = nought;
    book_pressure = nought;
    queue_imbalance = nought;
    time_since_last_trade = nought;
    time_of_day_normalized = nought;
    price_momentum = nought;
    volume_momentum = nought;
    volatility = nought;
  }

  -- The loop of `normalizeFeatures`, over the values, the means and the deviations.
  unfoldable pub normalized : List D → List D → List D → List D
  normalized (v ∷ vs) (m ∷ ms) (s ∷ ss) =
      (if lt nought s then div (sub v m) s else nought) ∷ normalized vs ms ss
  normalized vs _ _ = vs

  -- `normalizeFeatures`, with the vector that it computes: the features are reset, and the vector is
  -- not assigned back.
  unfoldable pub normalize_features : Features D → Features D → Features D → Features D × List D
  normalize_features f m s = (blank_features, normalized (to_vector f) (to_vector m) (to_vector s))

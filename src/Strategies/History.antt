-- ===== src/Strategies/History.antt =====
-- The price history of a momentum strategy.
use mathlib.Core.List.{append_assoc, append-nil}
use lobsimulater.Base.{
  ℕ, suc, ◌+◌, ◌-◌, ◌≤◌, ◌≡◌, refl, sym, ◌∙◌, ap, pos, ltb_ℤ, List, [], ◌∷◌, ◌++◌, if◌then◌else◌,
  length, length-append, Bool-cases, inl, inr, arith,
}
use lobsimulater.Book.{OrderBook}
use lobsimulater.Stats.{get_mid_price}
use lobsimulater.Double.{Double, nought}
use lobsimulater.Signals.Window.{latest, latest-append, drop-nil, length-drop}
use lobsimulater.Strategies.{Momentum, pop_over, observe}

module _ {ℓ} {A : Type ℓ} where
  length-latest : (n : ℕ) (xs : List A) → length (latest n xs) ≤ n
  length-latest n xs = omega (arith, length-drop (length xs - n) xs)

  -- One pop is enough for a window that was not over its size.
  pop_over-latest :
      (n : ℕ) (xs : List A) (x : A)
      → length xs ≤ n
      → pop_over (pos n) (xs ++ (x ∷ [])) ≡ latest n (xs ++ (x ∷ []))
  pop_over-latest n xs x fits = popped n (xs ++ (x ∷ [])) (omega (arith, length-append xs (x ∷ [])))
    where
      popped : (n : ℕ) (ys : List A) → length ys ≤ n + 1 → pop_over (pos n) ys ≡ latest n ys
      popped n [] h = sym (drop-nil (0 - n))
      popped n (y ∷ ys) h = elim (Bool-cases (ltb_ℤ (pos n) (pos (length (y ∷ ys))))) [
        | inl over ↦ let one : suc (length ys) - n ≡ suc 0 = ground arith in rw (over, one) refl
        | inr under ↦
            let none_over : suc (length ys) - n ≡ 0 = ground arith in rw (under, none_over) refl
      ]

module _ {D : Type 0} ⦃d : Double D⦄ where
  open d use {lt}

  -- The mid prices above 0 of some books.
  abbrev pub mids : List OrderBook → List D
  mids [] = []
  mids (b ∷ bs) =
      let mid : D = (get_mid_price b).0 in if lt nought mid then mid ∷ mids bs else mids bs

  -- `onMarketData` for each of some books.
  unfoldable pub observe_all : List OrderBook → Momentum D → Momentum D
  observe_all [] s = s
  observe_all (b ∷ bs) s = observe_all bs (observe b s)

  observe-window :
      (n : ℕ) (seen : List D) (b : OrderBook) (s : Momentum D)
      → s.lookback_periods ≡ pos n
      → s.price_history ≡ latest n seen
      → ((observe b s).lookback_periods ≡ pos n)
        × ((observe b s).price_history ≡ latest n (seen ++ mids (b ∷ [])))
  unfolding observe
  observe-window n seen b s size kept =
      let mid : D = (get_mid_price b).0 in
      elim (Bool-cases (lt nought mid)) [
        | inl up ↦ rw up (
          size,
          ap (λ m. pop_over m (s.price_history ++ (mid ∷ []))) size
              ∙ ap (λ xs. pop_over (pos n) (xs ++ (mid ∷ []))) kept
              ∙ pop_over-latest n (latest n seen) mid (length-latest n seen)
              ∙ latest-append n seen (mid ∷ []),
        )
        | inr none_there ↦ rw none_there (size, kept ∙ ap (latest n) (sym (append-nil seen)))
      ]

  mids-cons : (b : OrderBook) (bs : List OrderBook) → mids (b ∷ bs) ≡ mids (b ∷ []) ++ mids bs
  mids-cons b bs = elim (Bool-cases (lt nought (get_mid_price {D = D} b).0)) [
    | inl up ↦ rw up refl
    | inr none_there ↦ rw none_there refl
  ]

  observe_all-window :
      (n : ℕ) (seen : List D) (bs : List OrderBook) (s : Momentum D)
      → s.lookback_periods ≡ pos n
      → s.price_history ≡ latest n seen
      → (observe_all bs s).price_history ≡ latest n (seen ++ mids bs)
  unfolding observe_all
  observe_all-window n seen [] s size kept = kept ∙ ap (latest n) (sym (append-nil seen))
  observe_all-window n seen (b ∷ bs) s size kept =
      let (size', kept') = observe-window n seen b s size kept in
      observe_all-window n (seen ++ mids (b ∷ [])) bs (observe b s) size' kept'
      ∙ ap (latest n) (append_assoc seen (mids (b ∷ [])) (mids bs))
      ∙ ap (λ xs. latest n (seen ++ xs)) (sym (mids-cons b bs))

  -- After `onMarketData` for any sequence of books, the history of a momentum strategy that began empty
  -- with a lookback that is not negative holds the last mid prices above 0, as many as its lookback.
  pub observe_all-latest :
      (n : ℕ) (bs : List OrderBook) (s : Momentum D)
      → s.lookback_periods ≡ pos n
      → s.price_history ≡ []
      → (observe_all bs s).price_history ≡ latest n (mids bs)
  observe_all-latest n bs s size empty =
      observe_all-window n [] bs s size (empty ∙ sym (drop-nil (0 - n)))

-- ===== src/Signals/Window.antt =====
-- The windows of the calculators: a deque that is trimmed after each entry at its back.
use lobsimulater.Base.{
  ℕ, zero, suc, ◌+◌, ◌-◌, ◌≤◌, ◌≡◌, refl, sym, ◌∙◌, ap, ℤ, pos, negsuc, List, [], ◌∷◌, ◌++◌, none,
  Option, ◌>>=◌, some, Bool-cases, inl, inr, ltb_ℤ, length, length-append, arith,
}
use lobsimulater.Signals.{trim}

module _ {ℓ} {A : Type ℓ} where
  -- A list without its first n elements, and the last n of a list.
  abbrev pub drop : ℕ → List A → List A
  drop zero xs = xs
  drop (suc n) [] = []
  drop (suc n) (x ∷ xs) = drop n xs

  abbrev pub latest : ℕ → List A → List A
  latest n xs = drop (length xs - n) xs

  pub trim-latest : (n : ℕ) (xs : List A) → trim (pos n) xs ≡ some (latest n xs)
  unfolding trim
  trim-latest n [] = ground arith
  trim-latest n (x ∷ xs) = elim (Bool-cases (ltb_ℤ (pos n) (pos (length (x ∷ xs))))) [
    | inl over ↦
        let one_more : suc (length xs) - n ≡ suc (length xs - n) = ground arith in
        rw (over, one_more) (trim-latest n xs)
    | inr fits ↦ let none_over : suc (length xs) - n ≡ 0 = ground arith in rw (fits, none_over) refl
  ]

  -- A trim in front of other steps.
  pub trim-then {κ} :
      {B : Type κ} {m : ℤ} (n : ℕ) (xs : List A) (f : List A → Option B)
      → m ≡ pos n
      → (trim m xs >>= f) ≡ f (latest n xs)
  trim-then n xs f size = ap (λ t. t >>= f) (ap (λ k. trim k xs) size ∙ trim-latest n xs)

  -- A negative size empties the deque, and then pops once more.
  pub trim-negsuc : (n : ℕ) (xs : List A) → trim (negsuc n) xs ≡ none
  unfolding trim
  trim-negsuc n [] = ground arith
  trim-negsuc n (x ∷ xs) = rw (trim-negsuc n xs) (ground arith)

  drop-append : (k : ℕ) (xs ys : List A) → k ≤ length xs → drop k (xs ++ ys) ≡ drop k xs ++ ys
  drop-append zero xs ys h = refl
  drop-append (suc k) [] ys h = absurd (omega arith)
  drop-append (suc k) (x ∷ xs) ys h = drop-append k xs ys (omega arith)

  pub length-drop : (k : ℕ) (xs : List A) → length (drop k xs) ≡ length xs - k
  length-drop zero xs = omega arith
  length-drop (suc k) [] = omega arith
  length-drop (suc k) (x ∷ xs) = omega (arith, length-drop k xs)

  pub drop-nil : (k : ℕ) → drop k [] ≡ []
  drop-nil zero = refl
  drop-nil (suc k) = refl

  drop-drop : (j k : ℕ) (xs : List A) → drop j (drop k xs) ≡ drop (k + j) xs
  drop-drop j zero xs = ap (λ m. drop m xs) (omega arith)
  drop-drop j (suc k) [] = drop-nil j ∙ sym (drop-nil (suc k + j))
  drop-drop j (suc k) (x ∷ xs) =
      let carried : suc (k + j) ≡ suc k + j = omega arith in
      drop-drop j k xs ∙ ap (λ m. drop m (x ∷ xs)) carried

  -- What entries at the back leave of a window does not depend on what an earlier window dropped.
  pub latest-append : (n : ℕ) (xs ys : List A) → latest n (latest n xs ++ ys) ≡ latest n (xs ++ ys)
  latest-append n xs ys =
      let k = length xs - n in
      let le : k ≤ length xs = omega arith in
      let inner : latest n xs ++ ys ≡ drop k (xs ++ ys) = sym (drop-append k xs ys le) in
      ap (latest n) inner
      ∙ drop-drop (length (drop k (xs ++ ys)) - n) k (xs ++ ys)
      ∙ ap (λ j. drop j (xs ++ ys)) (omega (arith, length-drop k (xs ++ ys), length-append xs ys))

-- ===== src/Signals/Calculators/Lookup.antt =====
-- The calculators of a signal generator by their names.
use Prim.Native.String.{String}
use text.Mathlib.Text.{◌==◌ as str_eq}
use mathlib.Core.Option as Option
use lobsimulater.Base.{
  ℕ, suc, ◌+◌, ◌≡◌, refl, sym, ◌∙◌, ap, List, [], ◌∷◌, ◌++◌, map, Option, none, some, if◌then◌else◌,
  length, get_elem?, find_named, find_named-set_named, arith, inl, inr, ◌⊎◌, Bool-cases,
}
use lobsimulater.Base.Results.{Ensures, of_some, Ensures-bind, Ensures-then, Ensures-elim}
use lobsimulater.Types.{Timestamp}
use lobsimulater.Book.{OrderBook}
use lobsimulater.Double.{Double}
use lobsimulater.Signals.Pressure.{update_pressure}
use lobsimulater.Signals.Spread.{update_spread}
use lobsimulater.Signals.Calculators.{
  Calculator, imbalances, microprices, pressures, flows, spreads, queues, get_name, SignalGenerator,
  new_generator, add_calculator, reset_generator, calculate, update_calculator, update_all,
  update_generator, get_signal,
}

-- The last place, counted from k, of a name among some names.
abbrev last_place : String → ℕ → List String → Option ℕ
last_place name k [] = none
last_place name k (x ∷ xs) = elim (last_place name (k + 1) xs) [
  | some i ↦ some i
  | none ↦ if str_eq x name then some k else none
]

last_place-append :
    (name : String) (k : ℕ) (xs : List String) (x : String)
    → last_place name k (xs ++ (x ∷ []))
      ≡ (if str_eq x name then some (k + length xs) else last_place name k xs)
last_place-append name k [] x = ground arith
last_place-append name k (y ∷ xs) x = ground (arith, last_place-append name (k + 1) xs x)

module _ {D : Type 0} where
  -- The last calculator of a name.
  abbrev pub last_named : String → List (Calculator D) → Option (Calculator D)
  last_named name [] = none
  last_named name (c ∷ cs) = elim (last_named name cs) [
    | some c' ↦ some c'
    | none ↦ if str_eq (get_name c) name then some c else none
  ]

  abbrev names : List (Calculator D) → List String
  names = map λ c. get_name c

  names-append :
      (cs : List (Calculator D)) (c : Calculator D)
      → names (cs ++ (c ∷ [])) ≡ names cs ++ (get_name c ∷ [])
  names-append [] c = refl
  names-append (x ∷ cs) c = ap (λ xs. get_name x ∷ xs) (names-append cs c)

  names-length : (cs : List (Calculator D)) → length (names cs) ≡ length cs
  names-length [] = refl
  names-length (c ∷ cs) = omega (arith, names-length cs)

  -- Each name stands for its last place.
  abbrev IsIndexed : SignalGenerator D → Type 0
  IsIndexed g =
      (name : String) → find_named name g.calculator_map ≡ last_place name 0 (names g.calculators)

  add_calculator-IsIndexed :
      (c : Calculator D) (g : SignalGenerator D) → IsIndexed g → IsIndexed (add_calculator c g)
  unfolding add_calculator
  add_calculator-IsIndexed c g v name =
      find_named-set_named name (get_name c) (length g.calculators) g.calculator_map
      ∙ ap (λ r. if str_eq (get_name c) name then some (length g.calculators) else r) (v name)
      ∙ ap
          (λ n.
            if str_eq (get_name c) name then some n else last_place name 0 (names g.calculators))
          (omega (arith, names-length g.calculators))
      ∙ sym (last_place-append name 0 (names g.calculators) (get_name c))
      ∙ ap (last_place name 0) (sym (names-append g.calculators c))

  -- At that place stands the last calculator of the name.
  last_place-named :
      (name : String) (k : ℕ) (cs : List (Calculator D))
      → ((last_place name k (names cs) ≡ none) × (last_named name cs ≡ none))
        ⊎ ((i : ℕ) × (c : Calculator D) × (last_place name k (names cs) ≡ some (k + i))
            × (get_elem? cs i ≡ some c)
            × (last_named name cs ≡ some c))
  last_place-named name k [] = inl (refl, refl)
  last_place-named name k (c ∷ cs) = elim (last_place-named name (k + 1) cs) [
    | inr (i, c', place, there, last) ↦ inr (suc i, c', ground (arith, place), there, rw last refl)
    | inl (off, missing) ↦ elim (Bool-cases (str_eq (get_name c) name)) [
      | inl same ↦ inr (0, c, rw (off, same) (ap some (omega arith)), refl, rw (missing, same) refl)
      | inr other ↦ inl (rw (off, other) refl, rw (missing, other) refl)
    ]
  ]

-- What the calls on a new signal generator lead to: any calculators added, any updates that end, and
-- resets.
pub data Reached {D : Type 0} ⦃d : Double D⦄ : SignalGenerator D → Type 0 where
  begun : Reached new_generator
  added : (c : Calculator D) {g : SignalGenerator D} → Reached g → Reached (add_calculator c g)
  updated :
      (book : OrderBook) {g : SignalGenerator D} (g' : SignalGenerator D)
      → Reached g
      → update_generator book g ≡ some g'
      → Reached g'
  cleared : {g : SignalGenerator D} → Reached g → Reached (reset_generator g)

module _ {D : Type 0} ⦃d : Double D⦄ where
  update_calculator-get_name :
      (book : OrderBook) (c : Calculator D)
      → Ensures (λ c'. get_name c' ≡ get_name c) (update_calculator book c)
  unfolding update_calculator
  update_calculator-get_name book (imbalances c) = of_some refl
  update_calculator-get_name book (microprices c) = of_some refl
  update_calculator-get_name book (pressures c) =
      Ensures-bind (update_pressure book c) _ λ c'. of_some refl
  update_calculator-get_name book (flows c) = of_some refl
  update_calculator-get_name book (spreads c) =
      Ensures-bind (update_spread book c) _ λ c'. of_some refl
  update_calculator-get_name book (queues c) = of_some refl

  update_all-names :
      (book : OrderBook) (cs : List (Calculator D))
      → Ensures (λ cs'. names cs' ≡ names cs) (update_all book cs)
  unfolding update_all
  update_all-names book [] = of_some refl
  update_all-names book (c ∷ cs) = Ensures-then _ (update_calculator-get_name book c) λ c' one.
      Ensures-then _ (update_all-names book cs)
        λ cs' rest. of_some (ap (λ x. x ∷ names cs') one ∙ ap (λ xs. get_name c ∷ xs) rest)

  update_generator-IsIndexed :
      (book : OrderBook) (g : SignalGenerator D)
      → IsIndexed g
      → Ensures IsIndexed (update_generator book g)
  unfolding update_generator
  update_generator-IsIndexed book g v =
      Ensures-then _ (update_all-names book g.calculators)
        λ cs same. of_some λ name. v name ∙ ap (last_place name 0) (sym same)

  Reached-IsIndexed : {g : SignalGenerator D} → Reached g → IsIndexed g
  unfolding reset_generator find_named
  Reached-IsIndexed begun = λ name. refl
  Reached-IsIndexed (added c {g} r) = add_calculator-IsIndexed c g (Reached-IsIndexed r)
  Reached-IsIndexed (updated book {g} g' r done) =
      Ensures-elim (update_generator-IsIndexed book g (Reached-IsIndexed r)) done
  Reached-IsIndexed (cleared r) = λ name. refl

  -- In a signal generator that any calls have led to, `getSignal` follows no pointer to a calculator
  -- that is gone, and answers with the signal of the last calculator of the given name, if there is one.
  pub get_signal-last_named :
      (g : SignalGenerator D) (name : String) (book : OrderBook) (now : Timestamp)
      → Reached g
      → get_signal name book now g
        ≡ some (Option.map (λ c. calculate c book now) (last_named name g.calculators))
  unfolding get_signal
  get_signal-last_named g name book now r = elim (last_place-named name 0 g.calculators) [
    | inl (off, missing) ↦
        let nowhere : find_named name g.calculator_map ≡ none = Reached-IsIndexed r name ∙ off in
        rw (nowhere, get_signal, missing) refl
    | inr (i, c, place, there, last) ↦
        let here : find_named name g.calculator_map ≡ some i =
          Reached-IsIndexed r name ∙ place ∙ ap some (omega arith) in
        rw (here, get_signal, there, last) refl
  ]

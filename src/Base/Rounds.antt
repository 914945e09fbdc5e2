-- ===== src/Base/Rounds.antt =====
-- A `while` loop as a relation on its states, without fuel, beside `loop`.
use Prim.Native.Nat.{ℕ, zero, suc}
use mathlib.Core.Path.{◌≡◌, ap, ◌∙◌}
use mathlib.Core.Option.{Option, some}
use mathlib.Core.Logic.{inl, inr}
use mathlib.Core.Bool.{Bool, true, false}
use lobsimulater.Base.Tests.{Bool-cases}
use lobsimulater.Base.Loop.{loop}

-- The loop, begun in one state, ends in another: finitely many rounds, each where the test holds, and
-- then the exit, where it does not.
pub data Ends {ℓ κ} {S : Type ℓ} (test : S → Bool) (round : S → S → Type κ)
    : S → S → Type (ℓ ⊔ κ) where
  left : {s : S} → test s ≡ false → Ends test round s s
  around : {s t u : S} → test s ≡ true → round s t → Ends test round t u → Ends test round s u

module _ {ℓ κ ι} {S : Type ℓ} (test : S → Bool) (body : S → S) (round : S → S → Type κ)
    (P : S → Type ι) (keep : (s : S) → P s → test s ≡ true → P (body s))
    (does : (s : S) → P s → test s ≡ true → round s (body s)) where
  -- A loop on fuel that leaves by its test is such a loop.
  pub loop-Ends :
      (rounds : ℕ) (s : S)
      → P s
      → test (loop test body rounds s) ≡ false
      → Ends test round s (loop test body rounds s)
  unfolding loop
  loop-Ends zero s holds stop = left stop
  loop-Ends (suc rounds) s holds stop = elim (Bool-cases (test s)) [
    | inl go ↦
        rw (go, loop)
          (around go (does s holds go)
            (loop-Ends rounds (body s) (keep s holds go) (rw (go, loop) at stop)))
    | inr out ↦ rw (out, loop) (left out)
  ]

-- A `while` loop whose test and rounds can fault: a run of it that does not.
pub data Runs {ℓ κ} {S : Type ℓ} (test : S → Option Bool) (round : S → S → Type κ)
    : S → S → Type (ℓ ⊔ κ) where
  stops : {s : S} → test s ≡ some false → Runs test round s s
  goes_on : {s t u : S} → test s ≡ some true → round s t → Runs test round t u → Runs test round s u

-- A loop that goes along with another one, round by round.
module _ {ℓ ι κ μ ν ξ} {S : Type ℓ} {T : Type ι} (test : S → Option Bool) (round : S → S → Type κ)
    (test_along : T → Bool) (round_along : T → T → Type μ) (P : T → Type ν) (R : S → T → Type ξ)
    (tests : (s : S) (t : T) → P t → R s t → test s ≡ some (test_along t))
    (step : (s : S) (t u : T)
      → P t
      → R s t
      → test_along t ≡ true
      → round_along t u
      → P u × (s' : S) × round s s' × R s' u) where
  pub Ends-Runs :
      (s : S) (t u : T)
      → P t
      → R s t
      → Ends test_along round_along t u
      → P u × (s' : S) × Runs test round s s' × R s' u
  Ends-Runs s t u p r (left stop) = (p, s, stops (tests s t p r ∙ ap some stop), r)
  Ends-Runs s t u p r (around {t = w} go once more) =
      let (p', s1, done, r') = step s t w p r go once in
      let (q, s2, rest, r'') = Ends-Runs s1 w u p' r' more in
      (q, s2, goes_on (tests s t p r ∙ ap some go) done rest, r'')

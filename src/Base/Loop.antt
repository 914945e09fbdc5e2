-- ===== src/Base/Loop.antt =====
-- A `while` loop on fuel, and the rule by which its theorems are proved.
use Prim.Native.Nat.{ℕ, zero, suc, ◌<◌}
use mathlib.Core.Path.{◌≡◌}
use mathlib.Core.Logic.{inl, inr}
use mathlib.Core.Bool.{Bool, true, false}
use native.Mathlib.Omega.{arith}
use lobsimulater.Base.Tests.{Bool-cases}

module _ {ℓ} {S : Type ℓ} (test : S → Bool) (body : S → S) where
  -- `while (test(s)) s = body(s);`, for at most the given number of rounds.
  unfoldable pub loop : ℕ → S → S
  loop zero s = s
  loop (suc rounds) s = elim (test s) [ true ↦ loop rounds (body s) | false ↦ s ]

  -- If each round keeps `P` and brings the measure down, then with more rounds than the measure
  -- the loop leaves by its test, and `P` holds there.
  pub loop_rule {κ} :
      (P : S → Type κ) (measure : S → ℕ)
      → ((s : S) → P s → test s ≡ true → P (body s) × (measure (body s) < measure s))
      → (rounds : ℕ) (s : S) → measure s < rounds
      → P s
      → P (loop rounds s) × (test (loop rounds s) ≡ false)
  unfolding loop
  loop_rule P measure keep zero s fits holds = absurd (omega arith)
  loop_rule P measure keep (suc rounds) s fits holds = elim (Bool-cases (test s)) [
    | inl go ↦
        let (holds', falls) = keep s holds go in
        rw (go, loop) (loop_rule P measure keep rounds (body s) (omega arith) holds')
    | inr stop ↦ rw (stop, loop) (holds, stop)
  ]

  -- What each round keeps, the loop keeps, however it ends.
  pub loop_keeps {κ} :
      (P : S → Type κ)
      → ((s : S) → P s → P (body s))
      → (rounds : ℕ) (s : S) → P s
      → P (loop rounds s)
  unfolding loop
  loop_keeps P keep zero s holds = holds
  loop_keeps P keep (suc rounds) s holds = elim (Bool-cases (test s)) [
    | inl go ↦ rw (go, loop) (loop_keeps P keep rounds (body s) (keep s holds))
    | inr stop ↦ rw (stop, loop) holds
  ]

  -- The same where a round may use that the test held.
  pub loop_keeps_on {κ} :
      (P : S → Type κ)
      → ((s : S) → P s → test s ≡ true → P (body s))
      → (rounds : ℕ) (s : S) → P s
      → P (loop rounds s)
  unfolding loop
  loop_keeps_on P keep zero s holds = holds
  loop_keeps_on P keep (suc rounds) s holds = elim (Bool-cases (test s)) [
    | inl go ↦ rw (go, loop) (loop_keeps_on P keep rounds (body s) (keep s holds go))
    | inr stop ↦ rw (stop, loop) holds
  ]

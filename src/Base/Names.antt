-- ===== src/Base/Names.antt =====
-- A hash map keyed by texts, as an association list in the order of insertion.
use Prim.Native.String.{String}
use mathlib.Core.Path.{◌≡◌, refl}
use mathlib.Core.List.{List, [], ◌∷◌}
use mathlib.Core.Option.{Option, none, some}
use text.Mathlib.Text.{◌==◌}
use text.Mathlib.TextEquality.{eq_iff}
use native.Mathlib.Omega.{arith}
use lobsimulater.Base.Tests.{if◌then◌else◌}

abbrev pub Named {ℓ} : Type ℓ → Type ℓ
Named V = List (String × V)

module _ {ℓ} {V : Type ℓ} where
  unfoldable pub find_named : String → Named V → Option V
  find_named k [] = none
  find_named k ((j, v) ∷ m) = if j == k then some v else find_named k m

  -- `m[k] = v`.
  unfoldable pub set_named : String → V → Named V → Named V
  set_named k v [] = (k, v) ∷ []
  set_named k v ((j, w) ∷ m) = if j == k then (k, v) ∷ m else (j, w) ∷ set_named k v m

  pub find_named-set_named :
      (j k : String) (v : V) (m : Named V)
      → find_named j (set_named k v m) ≡ (if k == j then some v else find_named j m)
  unfolding find_named set_named
  find_named-set_named j k v [] = refl
  find_named-set_named j k v ((i, w) ∷ m) =
      ground (arith, eq_iff k j, eq_iff i k, eq_iff i j, find_named-set_named j k v m)

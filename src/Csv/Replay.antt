-- ===== src/Csv/Replay.antt =====
-- A CSV file as the data source of a run of the backtester: from its lines through `loadBuffer` and
-- `run`.
use Prim.Native.String.{String}
use text.Mathlib.Text.{◌==◌ as str_eq}
use lobsimulater.Base.{
  ℕ, ◌+◌, ◌≡◌, refl, ◌∙◌, ap, List, [], ◌∷◌, map, Option, none, some, Bool, true, false, ◌&&◌, ◌||◌,
  Bool-cases, Option-cases, inl, inr, arith, All, ◌>>=◌,
}
use lobsimulater.Base.Results.{Ensures, of_some, Ensures-bind, Ensures-then, Ensures-elim}
use lobsimulater.Double.{Double}
use lobsimulater.Backtester.{
  Event, Hooks, Generator, Backtester, dispatch, process_market_data, process_event, process_events,
  run,
}
use lobsimulater.Backtester.Books.{AllSound, Carries, Steady, run-AllSound}
use lobsimulater.Csv.{
  Numbers, split_from, split_csv, parse_columns, parse_line, parse_lines, has_header, load_buffer,
}
use lobsimulater.Csv.Kinds.{has_known, parse_columns-Carries, parse_columns-Blank, Blank}

-- Every line that is not empty is of a known kind. In a file there is a first line, which is a header or
-- of a known kind.
abbrev pub all_known : List String → Bool
all_known [] = true
all_known (line ∷ lines) = (str_eq line "" || has_known (split_csv line)) && all_known lines

abbrev pub file_known : List String → Bool
file_known [] = false
file_known (line ∷ lines) = (has_header line || has_known (split_csv line)) && all_known lines

-- The events with the time that each takes.
abbrev pub timed : (ℕ → ℕ) → ℕ → List Event → List (Event × ℕ)
timed clock k [] = []
timed clock k (e ∷ es) = (e, clock k) ∷ timed clock (k + 1) es

abbrev AllCarry : List (Event × ℕ) → Type 0
AllCarry = All λ x. Carries (x.0).type x.0

module _ (numbers : Numbers) (clock : ℕ → ℕ) where
  cons-AllCarry :
      (line : String) (m : Option (List Event)) (k : ℕ)
      → has_known (split_csv line) ≡ true
      → Ensures (λ es. AllCarry (timed clock (k + 1) es)) m
      → Ensures
          (λ es. AllCarry (timed clock k es))
          (do e ← parse_line numbers line; es ← m; some (e ∷ es))
  unfolding parse_line
  cons-AllCarry line m k known h =
      Ensures-then _ (parse_columns-Carries numbers (split_csv line) known)
        λ e carries. Ensures-then _ h λ es all. of_some (carries, all)

  parse_lines-AllCarry :
      (lines : List String) (k : ℕ)
      → all_known lines ≡ true
      → Ensures (λ es. AllCarry (timed clock k es)) (parse_lines numbers lines)
  unfolding parse_lines
  parse_lines-AllCarry [] k known = of_some tt
  parse_lines-AllCarry (line ∷ lines) k known = elim (Bool-cases (str_eq line "")) [
    | inl empty ↦ rw empty (parse_lines-AllCarry lines k (ground arith))
    | inr full ↦ rw full (
        cons-AllCarry line (parse_lines numbers lines) k (ground arith)
          (parse_lines-AllCarry lines (k + 1) (ground arith)))
  ]

  load_buffer-AllCarry :
      (lines : List String)
      → file_known lines ≡ true
      → Ensures (λ es. AllCarry (timed clock 0 es)) (load_buffer numbers lines)
  unfolding load_buffer
  load_buffer-AllCarry [] known = cc
  load_buffer-AllCarry (line ∷ lines) known = elim (Bool-cases (has_header line)) [
    | inl header ↦ rw header (parse_lines-AllCarry lines 0 (ground arith))
    | inr plain ↦ rw plain (
        cons-AllCarry line (parse_lines numbers lines) 0 (ground arith)
          (parse_lines-AllCarry lines (0 + 1) (ground arith)))
  ]

  module _ {D S G X : Type 0} ⦃d : Double D⦄ (hooks : Hooks D S X) (gen : Generator G X) where
    -- From sound books and a signal generator that is ready, where it never faults on a ready state and
    -- stays ready, a run over the events of a file that loads, whose first line is a header or of a
    -- known kind and whose other lines are empty or of a known kind, ends without a fault, in sound
    -- books and with a signal generator that is ready.
    pub load_buffer-run :
        {Ready : G → Type 0} (steady : Steady gen Ready) (lines : List String) (es : List Event)
        (t : Backtester D S G)
        → file_known lines ≡ true
        → load_buffer numbers lines ≡ some es
        → AllSound t.order_books
        → Ready t.signal_generator
        → (t' : Backtester D S G) × (run hooks gen (timed clock 0 es) t ≡ some t')
          × AllSound t'.order_books
          × Ready t'.signal_generator
    load_buffer-run steady lines es t known loaded =
        run-AllSound hooks gen steady (timed clock 0 es) t
          (Ensures-elim (load_buffer-AllCarry lines known) loaded)

    -- The run over these events faults.
    abbrev Faults : ℕ → List Event → Type 0
    Faults k es = (t : Backtester D S G) → process_events hooks gen (timed clock k es) t ≡ none

    process_event-Blank :
        (e : Event) (elapsed : ℕ) (t : Backtester D S G)
        → Blank e
        → process_event hooks gen e elapsed t ≡ none
    unfolding process_event dispatch process_market_data
    process_event-Blank e elapsed t (type, no_update) =
        ap (λ k. dispatch hooks gen k e elapsed t) type ∙ (rw no_update refl)

    Blank-Faults : (e : Event) (es : List Event) (k : ℕ) → Blank e → Faults k (e ∷ es)
    unfolding process_events
    Blank-Faults e es k blank t =
        ap (λ x. x >>= process_events hooks gen (timed clock (k + 1) es))
          (process_event-Blank e (clock k) t blank)

    cons-Faults : (e : Event) (es : List Event) (k : ℕ) → Faults (k + 1) es → Faults k (e ∷ es)
    unfolding process_events
    cons-Faults e es k h t = elim (Option-cases (process_event hooks gen e (clock k) t)) [
      | inl none_there ↦ rw none_there refl
      | inr (t', done) ↦ rw done (h t')
    ]

    -- A first line in front of others, of which one of them all is of an unknown kind.
    cons_lines-Faults :
        (line : String) (m : Option (List Event)) (k : ℕ)
        → (has_known (split_csv line) ≡ true → Ensures (Faults (k + 1)) m)
        → Ensures (Faults k) (do e ← parse_line numbers line; es ← m; some (e ∷ es))
    unfolding parse_line
    cons_lines-Faults line m k h = elim (Bool-cases (has_known (split_csv line))) [
      | inl known ↦
          Ensures-bind (parse_columns numbers (split_csv line)) _
            λ e. Ensures-then _ (h known) λ es faults. of_some (cons-Faults e es k faults)
      | inr unknown ↦
          Ensures-then _ (parse_columns-Blank numbers (split_csv line) unknown)
            λ e blank. Ensures-bind m _ λ es. of_some (Blank-Faults e es k blank)
    ]

    parse_lines-Faults :
        (lines : List String) (k : ℕ)
        → all_known lines ≡ false
        → Ensures (Faults k) (parse_lines numbers lines)
    unfolding parse_lines
    parse_lines-Faults [] k unknown = cc
    parse_lines-Faults (line ∷ lines) k unknown = elim (Bool-cases (str_eq line "")) [
      | inl empty ↦ rw empty (parse_lines-Faults lines k (ground arith))
      | inr full ↦ rw full (
          cons_lines-Faults line (parse_lines numbers lines) k
            λ known. parse_lines-Faults lines (k + 1) (ground (arith, known)))
    ]

    load_buffer-Faults :
        (lines : List String)
        → file_known lines ≡ false
        → Ensures (Faults 0) (load_buffer numbers lines)
    unfolding load_buffer parse_line split_csv split_from parse_columns
    load_buffer-Faults [] unknown = of_some (Blank-Faults _ [] 0 (refl, refl))
    load_buffer-Faults (line ∷ lines) unknown = elim (Bool-cases (has_header line)) [
      | inl header ↦ rw header (parse_lines-Faults lines 0 (ground arith))
      | inr plain ↦ rw plain (
          cons_lines-Faults line (parse_lines numbers lines) 0
            λ known. parse_lines-Faults lines (0 + 1) (ground (arith, known)))
    ]

    -- A run over the events of a file that loads, but has no first line that is a header or of a known
    -- kind, or has another that is not empty and of an unknown kind, faults, whatever the strategies and
    -- the signal generator do: it reads an update that is not there.
    pub load_buffer-fault :
        (lines : List String) (es : List Event) (t : Backtester D S G)
        → file_known lines ≡ false
        → load_buffer numbers lines ≡ some es
        → run hooks gen (timed clock 0 es) t ≡ none
    unfolding run
    load_buffer-fault lines es t unknown loaded = rw (
        Ensures-elim (load_buffer-Faults lines unknown) loaded
          (record t { strategies = map hooks.on_start t.strategies; portfolio_history = [] }))

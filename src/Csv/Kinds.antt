-- ===== src/Csv/Kinds.antt =====
-- The events that `parseLine` makes, by the third column of the line.
use Prim.Native.String.{String}
use text.Mathlib.Text.{◌==◌ as str_eq}
use lobsimulater.Base.{
  ◌≡◌, refl, List, [], ◌∷◌, none, some, Bool, true, false, ◌||◌, Bool-cases, inl, inr, arith,
}
use lobsimulater.Types.{Timestamp}
use lobsimulater.Backtester.{Event, market_data}
use lobsimulater.Backtester.Books.{Carries}
use lobsimulater.Base.Results.{Ensures, of_some, Ensures-bind}
use lobsimulater.Csv.{
  Numbers, blank_event, column, parse_add, parse_cancel, parse_modify, parse_trade, parse_kind,
  parse_columns,
}

-- The kinds of line that `parseLine` knows.
abbrev pub is_known : String → Bool
is_known kind =
    str_eq kind "ADD"
    || (str_eq kind "CANCEL"
        || (str_eq kind "MODIFY" || (str_eq kind "TRADE" || str_eq kind "EOD")))

abbrev pub has_known : List String → Bool
has_known (stamp ∷ symbol ∷ kind ∷ cols) = is_known kind
has_known _ = false

abbrev pub CarriesOwn : Event → Type 0
CarriesOwn e = Carries e.type e

abbrev stamped : Timestamp → String → Event
stamped t symbol = record blank_event { timestamp = t; symbol = symbol }

module _ (numbers : Numbers) (t : Timestamp) (symbol : String) (cols : List String) where
  parse_add-Carries : Ensures CarriesOwn (parse_add numbers cols (stamped t symbol))
  unfolding parse_add
  parse_add-Carries = Ensures-bind (column cols 3) _ λ side. Ensures-bind (column cols 4) _ λ price.
      Ensures-bind (numbers.stoll price) _ λ p. Ensures-bind (column cols 5) _ λ quantity.
        Ensures-bind (numbers.stoul quantity) _ λ q.
          Ensures-bind (column cols 6) _
            λ order_id. Ensures-bind (numbers.stoull order_id) _ λ i. of_some (_, refl, omega arith)

  parse_cancel-Carries : Ensures CarriesOwn (parse_cancel numbers cols (stamped t symbol))
  unfolding parse_cancel
  parse_cancel-Carries = Ensures-bind (column cols 3) _ λ side.
      Ensures-bind (column cols 6) _
        λ order_id. Ensures-bind (numbers.stoull order_id) _ λ i. of_some (_, refl, omega arith)

  parse_modify-Carries : Ensures CarriesOwn (parse_modify numbers cols (stamped t symbol))
  unfolding parse_modify
  parse_modify-Carries = Ensures-bind (column cols 3) _ λ side.
      Ensures-bind (column cols 6) _ λ order_id. Ensures-bind (numbers.stoull order_id) _ λ i.
        Ensures-bind (column cols 5) _
          λ quantity. Ensures-bind (numbers.stoul quantity) _ λ q. of_some (_, refl, omega arith)

  parse_trade-Carries : Ensures CarriesOwn (parse_trade numbers cols (stamped t symbol))
  unfolding parse_trade
  parse_trade-Carries = Ensures-bind (column cols 4) _ λ price.
      Ensures-bind (numbers.stoll price) _ λ p.
        Ensures-bind (column cols 5) _
          λ quantity. Ensures-bind (numbers.stoul quantity) _ λ q. of_some (_, refl)

  parse_kind-Carries :
      (kind : String)
      → is_known kind ≡ true
      → Ensures CarriesOwn (parse_kind numbers kind cols (stamped t symbol))
  unfolding parse_kind
  parse_kind-Carries kind known = elim (Bool-cases (str_eq kind "ADD")) [
    | inl y ↦ rw y parse_add-Carries
    | inr n1 ↦ elim (Bool-cases (str_eq kind "CANCEL")) [
      | inl y ↦ rw (n1, y) parse_cancel-Carries
      | inr n2 ↦ elim (Bool-cases (str_eq kind "MODIFY")) [
        | inl y ↦ rw (n1, n2, y) parse_modify-Carries
        | inr n3 ↦ elim (Bool-cases (str_eq kind "TRADE")) [
          | inl y ↦ rw (n1, n2, n3, y) parse_trade-Carries
          | inr n4 ↦
              let y : str_eq kind "EOD" ≡ true = rw (n1, n2, n3, n4) at known in
              rw (n1, n2, n3, n4, y) (of_some tt)
        ]
      ]
    ]
  ]

  parse_kind-unknown :
      (kind : String)
      → is_known kind ≡ false
      → parse_kind numbers kind cols (stamped t symbol) ≡ some (stamped t symbol)
  unfolding parse_kind
  parse_kind-unknown kind unknown = ground arith

-- What `parseLine` makes of the columns of a line of a known kind carries the payload of its type, with
-- a quantity that fits.
pub parse_columns-Carries :
    (numbers : Numbers) (cols : List String)
    → has_known cols ≡ true
    → Ensures CarriesOwn (parse_columns numbers cols)
unfolding parse_columns
parse_columns-Carries numbers [] known = cc
parse_columns-Carries numbers (a ∷ []) known = cc
parse_columns-Carries numbers (a ∷ b ∷ []) known = cc
parse_columns-Carries numbers (stamp ∷ symbol ∷ kind ∷ cols) known =
    Ensures-bind (numbers.stoull stamp) _
      λ t. parse_kind-Carries numbers t symbol (stamp ∷ symbol ∷ kind ∷ cols) kind known

-- An event of the type of market data without an update.
abbrev pub Blank : Event → Type 0
Blank e = (e.type ≡ market_data) × (e.market_update ≡ none)

-- What it makes of the columns of any other line is such an event.
pub parse_columns-Blank :
    (numbers : Numbers) (cols : List String)
    → has_known cols ≡ false
    → Ensures Blank (parse_columns numbers cols)
unfolding parse_columns
parse_columns-Blank numbers [] unknown = of_some (refl, refl)
parse_columns-Blank numbers (a ∷ []) unknown = of_some (refl, refl)
parse_columns-Blank numbers (a ∷ b ∷ []) unknown = of_some (refl, refl)
parse_columns-Blank numbers (stamp ∷ symbol ∷ kind ∷ cols) unknown =
    Ensures-bind (numbers.stoull stamp) _ λ t.
      rw (parse_kind-unknown numbers t symbol (stamp ∷ symbol ∷ kind ∷ cols) kind unknown)
        (of_some (refl, refl))

-- ===== src/Csv.antt =====
-- `class CSVDataSource` (src/backtester.cpp): a line of the file is split into its columns and read as an
-- event. `none` is a failure: an exception of a number's parser, or the read of a column that is not
-- there. The parsers `std::stoull`, `std::stoll` and `std::stoul` are parameters, and so are the lines
-- that `std::getline` takes from the file.
pub mod Split
pub mod Kinds
pub mod Replay
use Prim.Native.Char.{code}
use Prim.Native.String.{String, ◌++◌ as append}
use text.Mathlib.Text.{◌==◌ as str_eq, find?}
use lobsimulater.Base.{
  ℕ, zero, suc, ◌%◌, ◌^◌, ℤ, pos, List, [], ◌∷◌, Option, none, some, Bool, true, false, not,
  if◌then◌else◌, ◌==◌, ◌&&◌, ◌>>=◌, ltb, length,
}
use lobsimulater.Types.{
  Side, bid, ask, MarketDataUpdate, UpdateType, add_order, modify_order, cancel_order, Execution,
  to_uint32,
}
use lobsimulater.Backtester.{Event, EventType, market_data, fill, end_of_day}

-- The loop of `splitCSV`, with its variables `in_q` and `cur`; `out` is what it returns in front of the
-- rest. The numbers are those of the quotation mark and of the comma.
unfoldable pub split_from : Bool → String → String → List String
split_from in_q cur String.[] = cur ∷ []
split_from in_q cur (String.◌∷◌ c cs) =
    let turned = split_from (not in_q) cur cs in
    let cut = split_from in_q "" cs in
    let kept = split_from in_q (append cur (String.◌∷◌ c String.[])) cs in
    if code c == 34 then turned else if code c == 44 && not in_q then cur ∷ cut else kept

unfoldable pub split_csv : String → List String
split_csv s = split_from false "" s

-- `cols[n]`.
abbrev pub column : List String → ℕ → Option String
column [] n = none
column (c ∷ cs) zero = some c
column (c ∷ cs) (suc n) = column cs n

-- The parsers of numbers, which throw on what is not a number of their type.
pub record Numbers : Type 0 where
  pub stoull : String → Option ℕ
  pub stoll : String → Option ℤ
  pub stoul : String → Option ℕ

-- `Event{}` and `MarketDataUpdate{}`.
abbrev pub blank_event : Event
blank_event = record {
  type = market_data;
  timestamp = 0;
  symbol = "";
  market_update = none;
  order = none;
  execution = none;
}

abbrev pub blank_update : MarketDataUpdate
blank_update = record {
  type = add_order;
  side = bid;
  price = pos 0;
  quantity = 0;
  order_id = 0;
  timestamp = 0;
}

abbrev pub side_of : String → Side
side_of s = if str_eq s "BID" then bid else ask

-- `line.find("timestamp") != std::string::npos`.
abbrev pub has_header : String → Bool
has_header line = elim (find? line "timestamp") [ none ↦ false | some n ↦ true ]

module _ (numbers : Numbers) where
  open numbers use {stoull, stoll, stoul}

  -- The branches of `parseLine` by the third column, on the event so far.
  unfoldable pub parse_add : List String → Event → Option Event
  parse_add cols e = do
    side ← column cols 3
    price ← column cols 4
    p ← stoll price
    quantity ← column cols 5
    q ← stoul quantity
    order_id ← column cols 6
    i ← stoull order_id
    some (record e {
      market_update = some (record blank_update {
        type = add_order;
        timestamp = e.timestamp;
        side = side_of side;
        price = p;
        quantity = q % 2 ^ 32;
        order_id = i;
      });
    })

  unfoldable pub parse_cancel : List String → Event → Option Event
  parse_cancel cols e = do
    side ← column cols 3
    order_id ← column cols 6
    i ← stoull order_id
    some (record e {
      market_update = some (record blank_update {
        type = cancel_order;
        timestamp = e.timestamp;
        side = side_of side;
        order_id = i;
      });
    })

  unfoldable pub parse_modify : List String → Event → Option Event
  parse_modify cols e = do
    side ← column cols 3
    order_id ← column cols 6
    i ← stoull order_id
    quantity ← column cols 5
    q ← stoul quantity
    some (record e {
      market_update = some (record blank_update {
        type = modify_order;
        timestamp = e.timestamp;
        side = side_of side;
        order_id = i;
        quantity = q % 2 ^ 32;
      });
    })

  unfoldable pub parse_trade : List String → Event → Option Event
  parse_trade cols e = do
    price ← column cols 4
    p ← stoll price
    quantity ← column cols 5
    q ← stoul quantity
    some (record e {
      type = fill;
      execution = some (record {
        bid_id = 0;
        ask_id = 0;
        price = p;
        quantity = q % 2 ^ 32;
        timestamp = e.timestamp;
      });
    })

  -- The chain of tests on the third column; what is none of these is an event without a payload.
  unfoldable pub parse_kind : String → List String → Event → Option Event
  parse_kind kind cols e =
      if str_eq kind "ADD"
      then parse_add cols e
      else if str_eq kind "CANCEL"
      then parse_cancel cols e
      else if str_eq kind "MODIFY"
      then parse_modify cols e
      else if str_eq kind "TRADE"
      then parse_trade cols e
      else if str_eq kind "EOD"
      then some (record e { type = end_of_day })
      else some e

  -- `parseLine` on the columns.
  unfoldable pub parse_columns : List String → Option Event
  parse_columns (stamp ∷ symbol ∷ kind ∷ cols) = do
    t ← stoull stamp
    parse_kind kind (stamp ∷ symbol ∷ kind ∷ cols)
        (record blank_event { timestamp = t; symbol = symbol })
  parse_columns _ = some blank_event

  unfoldable pub parse_line : String → Option Event
  parse_line line = parse_columns (split_csv line)

  -- `while (std::getline(file_, line))`: an empty line is skipped.
  unfoldable pub parse_lines : List String → Option (List Event)
  parse_lines [] = some []
  parse_lines (line ∷ lines) =
      let parsed : Option (List Event) = (do
        e ← parse_line line
        es ← parse_lines lines
        some (e ∷ es)) in
      let skipped = parse_lines lines in if str_eq line "" then skipped else parsed

  -- `loadBuffer` on a file that opens, given by its lines: the first is a header or is parsed. Where
  -- there is no line, the variable `line` is still empty.
  unfoldable pub load_buffer : List String → Option (List Event)
  load_buffer [] = do e ← parse_line ""; some (e ∷ [])
  load_buffer (line ∷ lines) =
      let parsed : Option (List Event) = (do
        e ← parse_line line
        es ← parse_lines lines
        some (e ∷ es)) in
      if has_header line then parse_lines lines else parsed

-- `hasNext` and `getNext` on the queue of loaded events.
abbrev pub has_next : List Event → Bool
has_next [] = false
has_next (e ∷ es) = true

abbrev pub get_next : List Event → Option (Event × List Event)
get_next [] = none
get_next (e ∷ es) = some (e, es)

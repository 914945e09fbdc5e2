-- ===== src/Examples/Csv.antt =====
-- A small file, a run over it, and a row of which a column holds a comma.
use Prim.Native.Char.{code}
use Prim.Native.String.{String}
use lobsimulater.Base.{
  ◌≡◌, refl, List, [], ◌∷◌, ◌++◌, ℕ, ◌+◌, ◌-◌, ◌*◌, ℤ, pos, Option, none, some, true, false,
  if◌then◌else◌, ltb, ◌&&◌, not, ◌>>=◌,
}
use lobsimulater.Types.{bid, add_order}
use lobsimulater.Main.{main}
use lobsimulater.Main.Constant.{idle_result, main-idle_result}
use lobsimulater.Backtester.{Event, Backtester, run, end_of_day}
use lobsimulater.Backtester.Books.{AllSound}
use lobsimulater.Csv.{
  Numbers, split_from, split_csv, parse_add, parse_kind, parse_columns, parse_line, parse_lines,
  load_buffer, blank_event,
}
use lobsimulater.Csv.Split.{row, split_csv-row}
use lobsimulater.Csv.Replay.{file_known, timed, load_buffer-run, load_buffer-fault}
use lobsimulater.Examples.{whole}
use lobsimulater.Examples.Trading.{idle, mute, mute-Steady, tester, books-AllSound}

split_csv-row_example : split_csv (row "AB" ("1,2" ∷ [])) ≡ "AB" ∷ "1,2" ∷ []
split_csv-row_example =
    split_csv-row "AB" ("1,2" ∷ []) (refl, (refl, tt)) ((refl, (refl, (refl, tt))), tt)

-- Decimal numbers: the digits at the front, with the number that they have made so far.
abbrev decimal_from : ℕ → String → Option ℕ
decimal_from n String.[] = some n
decimal_from n (String.◌∷◌ c s) =
    let more = decimal_from (10 * n + (code c - 48)) s in
    if not (ltb (code c) 48) && ltb (code c) 58 then more else some n

abbrev decimal : String → Option ℕ
decimal String.[] = none
decimal (String.◌∷◌ c s) =
    if not (ltb (code c) 48) && ltb (code c) 58 then decimal_from 0 (String.◌∷◌ c s) else none

abbrev decimals : Numbers
decimals = record {
  stoull = decimal;
  stoll = λ s. decimal s >>= λ n. some (pos n);
  stoul = decimal;
}

abbrev clock : ℕ → ℕ
clock k = 10 + k

abbrev file : List String
file = "timestamp,symbol,type,side,price,quantity,order_id" ∷ "5,ACME,ADD,BID,10000,6,10" ∷ []

file-known : file_known file ≡ true
unfolding split_csv split_from
file-known = refl

abbrev events : List Event
events =
    record blank_event {
      timestamp = 5;
      symbol = "ACME";
      market_update = some (record {
        type = add_order;
        timestamp = 5;
        order_id = 10;
        price = pos 10000;
        quantity = 6;
        side = bid;
      });
    }
    ∷ []

file-events : load_buffer decimals file ≡ some events
unfolding load_buffer parse_lines parse_line parse_columns parse_kind parse_add split_csv split_from
file-events = refl

load_buffer-run_example :
    (t' : Backtester ℤ Unit Unit) × (run idle mute (timed clock 0 events) tester ≡ some t')
    × AllSound t'.order_books
    × Unit {0}
load_buffer-run_example =
    load_buffer-run decimals clock idle mute mute-Steady file events tester file-known file-events
      books-AllSound tt

no_lines-unknown : file_known [] ≡ false
no_lines-unknown = refl

no_lines-events : load_buffer decimals [] ≡ some (blank_event ∷ [])
unfolding load_buffer parse_line parse_columns split_csv split_from
no_lines-events = refl

load_buffer-fault_example : run idle mute (timed clock 0 (blank_event ∷ [])) tester ≡ none
load_buffer-fault_example =
    load_buffer-fault decimals clock idle mute [] (blank_event ∷ []) tester no_lines-unknown
      no_lines-events

-- Two days that end, with one order.
abbrev calm_file : List String
calm_file = "4,ACME,EOD" ∷ "5,ACME,ADD,BID,10000,6,10" ∷ "9,ACME,EOD" ∷ []

calm-known : file_known calm_file ≡ true
unfolding split_csv split_from
calm-known = refl

abbrev day_end : ℕ → Event
day_end ts = record blank_event { type = end_of_day; timestamp = ts; symbol = "ACME" }

abbrev calm_events : List Event
calm_events = day_end 4 ∷ events ++ (day_end 9 ∷ [])

calm-events : load_buffer decimals calm_file ≡ some calm_events
unfolding load_buffer parse_lines parse_line parse_columns parse_kind parse_add split_csv split_from
calm-events = refl

main-idle_result_example :
    main ⦃d = whole⦄ decimals clock (λ n. n) 0 (some calm_file)
    ≡ some (
      (idle_result ⦃d = whole⦄ (4 ∷ 9 ∷ [])).sharpe,
      (idle_result ⦃d = whole⦄ (4 ∷ 9 ∷ [])).max_drawdown,
    )
main-idle_result_example =
    main-idle_result ⦃d = whole⦄ decimals clock (λ n. n) 0 calm_file calm_events calm-known
      calm-events (tt, (tt, (tt, tt)))

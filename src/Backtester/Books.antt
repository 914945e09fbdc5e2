-- ===== src/Backtester/Books.antt =====
-- The books of the backtester through the handlers of its events and through `run`.
use Prim.Native.String.{String}
use text.Mathlib.Text.{◌==◌ as str_eq}
use lobsimulater.Base.{
  map, ℕ, ◌<◌, ◌^◌, ◌≡◌, refl, sym, ap, ◌∙◌, subst, List, [], ◌∷◌, Option, some, Bool-cases,
  Option-cases, inl, inr, arith, All, Named, find_named, set_named, find_named-set_named, ◌>>=◌,
  some-injective,
}
use lobsimulater.Types.{
  Order, OrderType, limit, market, stop, stop_limit, Execution, new_order, MarketDataUpdate,
  UpdateType, add_order, modify_order, cancel_order, trade, clear, snapshot,
}
use lobsimulater.Book
use lobsimulater.Book.{OrderBook, new_book}
use lobsimulater.History.{
  Sound, adds, modifies, cancels, trades, clears, update, update-Sound, asked-Sound, new_book-Sound,
}
use lobsimulater.Stats.{get_mid_price}
use lobsimulater.Stats.Values.{get_mid_price-book}
use lobsimulater.Double.{Double}
use lobsimulater.Backtester.{
  run, finish, Event, EventType, market_data, signal, order, fill, end_of_day, Hooks, Generator,
  Backtester, book_at, update_book, process_market_data, process_signal, apply_fill, apply_fills,
  process_fill, place_order, process_order, dispatch, process_event, process_events, update_metrics,
  count_order,
}

-- All books that the backtester holds are sound.
abbrev pub AllSound : Named OrderBook → Type 0
AllSound books = (sym : String) (b : OrderBook) → find_named sym books ≡ some b → Sound b

pub set_named-AllSound :
    (name : String) (b : OrderBook) (books : Named OrderBook)
    → Sound b
    → AllSound books
    → AllSound (set_named name b books)
set_named-AllSound name b books v all other c e = elim (Bool-cases (str_eq name other)) [
  | inl same ↦
      subst Sound
        (some-injective _ _ (rw same at (sym (find_named-set_named other name b books) ∙ e))) v
  | inr off ↦ all other c (rw off at (sym (find_named-set_named other name b books) ∙ e))
]

pub book_at-Sound :
    (name : String) (books : Named OrderBook) → AllSound books → Sound (book_at name books)
book_at-Sound name books all = elim (Option-cases (find_named name books)) [
  | inl missing ↦ rw (missing, book_at) (new_book-Sound name)
  | inr (b, found) ↦ rw (found, book_at) (all name b found)
]

-- A switch of the feed on a sound book.
update_book-Sound :
    (type : UpdateType) (u : MarketDataUpdate) (elapsed : ℕ) (b : OrderBook)
    → u.quantity < 2 ^ 32
    → Sound b
    → (b' : OrderBook) × (update_book type u elapsed b ≡ some b') × Sound b'
unfolding update_book update
update_book-Sound add_order u elapsed b fits v =
    update-Sound (adds (new_order u.order_id u.price u.quantity u.side u.timestamp) elapsed) b fits
      v
update_book-Sound modify_order u elapsed b fits v =
    let (b', done, w) = update-Sound (modifies u.order_id u.quantity elapsed) b fits v in
    (b', ground (arith, done), w)
update_book-Sound cancel_order u elapsed b fits v =
    let (b', done, w) = update-Sound (cancels u.order_id elapsed) b tt v in
    (b', ground (arith, done), w)
update_book-Sound trade u elapsed b fits v = (b, refl, v)
update_book-Sound clear u elapsed b fits v = update-Sound clears b tt v
update_book-Sound snapshot u elapsed b fits v = (b, refl, v)

-- An event carries the payload of its type, with quantities that fit.
abbrev pub Carries : EventType → Event → Type 0
Carries market_data e = (u : MarketDataUpdate) × (e.market_update ≡ some u) × (u.quantity < 2 ^ 32)
Carries order e =
    (o : Order) × (e.order ≡ some o) × (o.quantity < 2 ^ 32) × (o.remaining_quantity < 2 ^ 32)
Carries fill e = (x : Execution) × (e.execution ≡ some x)
Carries signal e = Unit
Carries end_of_day e = Unit

-- A signal generator that never faults on a state that is ready, and stays ready.
pub record Steady {G X : Type 0} (gen : Generator G X) (Ready : G → Type 0) : Type 0 where
  pub ends :
      (book : OrderBook) (g : G) → Ready g → (g' : G) × (gen.update book g ≡ some g') × Ready g'
  pub keeps : (book : OrderBook) (g : G) → Ready g → Ready (gen.generate_signals book g).1

module _ {D S G X : Type 0} ⦃d : Double D⦄ (hooks : Hooks D S X) (gen : Generator G X) where
  apply_fill-order_books :
      (name : String) (x : Execution) (t : Backtester D S G)
      → (apply_fill hooks gen name x t).order_books ≡ t.order_books
  unfolding apply_fill
  apply_fill-order_books name x t = refl

  apply_fills-order_books :
      (name : String) (xs : List Execution) (t : Backtester D S G)
      → (apply_fills hooks gen name xs t).order_books ≡ t.order_books
  unfolding apply_fills
  apply_fills-order_books name [] t = refl
  apply_fills-order_books name (x ∷ xs) t =
      apply_fills-order_books name xs (apply_fill hooks gen name x t)
      ∙ apply_fill-order_books name x t

  apply_fills-signal_generator :
      (name : String) (xs : List Execution) (t : Backtester D S G)
      → (apply_fills hooks gen name xs t).signal_generator ≡ t.signal_generator
  unfolding apply_fills apply_fill
  apply_fills-signal_generator name [] t = refl
  apply_fills-signal_generator name (x ∷ xs) t =
      apply_fills-signal_generator name xs (apply_fill hooks gen name x t)

  place_order-signal_generator :
      (type : OrderType) (o : Order) (e : Event) (elapsed : ℕ) (t : Backtester D S G)
      → (place_order hooks gen type o e elapsed t).signal_generator ≡ t.signal_generator
  unfolding place_order
  place_order-signal_generator market o e elapsed t = apply_fills-signal_generator e.symbol _ _
  place_order-signal_generator limit o e elapsed t = refl
  place_order-signal_generator stop o e elapsed t = refl
  place_order-signal_generator stop_limit o e elapsed t = refl

  rested-AllSound :
      (o : Order) (e : Event) (elapsed : ℕ) (t : Backtester D S G)
      → o.remaining_quantity < 2 ^ 32
      → AllSound t.order_books
      → AllSound (
          set_named e.symbol
            (Book.add_order
              (record o { timestamp = e.timestamp })
              elapsed
              (book_at e.symbol t.order_books)).0
            t.order_books)
  unfolding update
  rested-AllSound o e elapsed t fits all =
      let (b', done, w) =
        update-Sound (adds (record o { timestamp = e.timestamp }) elapsed)
          (book_at e.symbol t.order_books) fits (book_at-Sound e.symbol t.order_books all) in
      set_named-AllSound e.symbol _ t.order_books (subst Sound (sym (some-injective _ _ done)) w)
        all

  place_order-AllSound :
      (type : OrderType) (o : Order) (e : Event) (elapsed : ℕ) (t : Backtester D S G)
      → o.quantity < 2 ^ 32
      → o.remaining_quantity < 2 ^ 32
      → AllSound t.order_books
      → AllSound (place_order hooks gen type o e elapsed t).order_books
  unfolding place_order update
  place_order-AllSound market o e elapsed t small fits all =
      let b = book_at e.symbol t.order_books in
      let (b', done, w) =
        update-Sound (trades o.side o.quantity e.timestamp) b small
          (book_at-Sound e.symbol t.order_books all) in
      subst AllSound (sym (apply_fills-order_books e.symbol _ _)) (
        set_named-AllSound e.symbol _ t.order_books (subst Sound (sym (some-injective _ _ done)) w)
          all)
  place_order-AllSound limit o e elapsed t small fits all = rested-AllSound o e elapsed t fits all
  place_order-AllSound stop o e elapsed t small fits all = rested-AllSound o e elapsed t fits all
  place_order-AllSound stop_limit o e elapsed t small fits all =
      rested-AllSound o e elapsed t fits all

  module _ {Ready : G → Type 0} (steady : Steady gen Ready) where
    -- An event that carries its payload is processed without a fault, and leaves sound books.
    pub dispatch-AllSound :
        (type : EventType) (e : Event) (elapsed : ℕ) (t : Backtester D S G)
        → Carries type e
        → AllSound t.order_books
        → Ready t.signal_generator
        → (t' : Backtester D S G) × (dispatch hooks gen type e elapsed t ≡ some t')
          × AllSound t'.order_books
          × Ready t'.signal_generator
    unfolding dispatch process_market_data process_order process_fill process_signal update_metrics
        apply_fill
    dispatch-AllSound market_data e elapsed t (u, there, fits) all ready =
        let (b, done, v) =
          update_book-Sound u.type u elapsed (book_at e.symbol t.order_books) fits
            (book_at-Sound e.symbol t.order_books all) in
        let (g, updated, ready') =
          steady.ends (get_mid_price {D = D} b).1 t.signal_generator ready in
        rw (there, done, updated)
          (
            _,
            refl,
            set_named-AllSound e.symbol (get_mid_price {D = D} b).1 t.order_books
                (rw (get_mid_price-book D b) (asked-Sound b v)) all,
            ready',
          )
    dispatch-AllSound signal e elapsed t c all ready = (
      _,
      refl,
      set_named-AllSound e.symbol (book_at e.symbol t.order_books) t.order_books
          (book_at-Sound e.symbol t.order_books all) all,
      steady.keeps (book_at e.symbol t.order_books) t.signal_generator ready,
    )
    dispatch-AllSound order e elapsed t (o, there, small, fits) all ready = (
      count_order hooks gen (place_order hooks gen o.type o e elapsed t),
      ap
          (λ (x : Option Order). x >>= λ (o : Order).
            some (count_order hooks gen (place_order hooks gen o.type o e elapsed t)))
          there,
      place_order-AllSound o.type o e elapsed t small fits all,
      subst Ready (sym (place_order-signal_generator o.type o e elapsed t)) ready,
    )
    dispatch-AllSound fill e elapsed t (x, there) all ready = rw there (
      apply_fill hooks gen e.symbol x t,
      refl,
      subst AllSound (sym (apply_fill-order_books e.symbol x t)) all,
      ready,
    )
    dispatch-AllSound end_of_day e elapsed t c all ready = (_, refl, all, ready)

    pub process_events-AllSound :
        (es : List (Event × ℕ)) (t : Backtester D S G)
        → All (λ x. Carries (x.0).type x.0) es
        → AllSound t.order_books
        → Ready t.signal_generator
        → (t' : Backtester D S G) × (process_events hooks gen es t ≡ some t')
          × AllSound t'.order_books
          × Ready t'.signal_generator
    unfolding process_events process_event
    process_events-AllSound [] t c all ready = (t, refl, all, ready)
    process_events-AllSound ((e, elapsed) ∷ es) t (c, cs) all ready =
        let (t1, done, all1, ready1) = dispatch-AllSound e.type e elapsed t c all ready in
        let (t', finish, all', ready') = process_events-AllSound es t1 cs all1 ready1 in
        (t', ap (λ x. x >>= process_events hooks gen es) done ∙ finish, all', ready')

    -- From sound books and a signal generator that is ready, where it never faults on a ready state
    -- and stays ready, a run over events that all carry the payload of their type, with quantities
    -- below 2 ^ 32, reaches its end without a fault, whatever the strategies do, and every book is
    -- sound there and the signal generator ready.
    pub run-AllSound :
        (es : List (Event × ℕ)) (t : Backtester D S G)
        → All (λ x. Carries (x.0).type x.0) es
        → AllSound t.order_books
        → Ready t.signal_generator
        → (t' : Backtester D S G) × (run hooks gen es t ≡ some t')
          × AllSound t'.order_books
          × Ready t'.signal_generator
    unfolding run finish
    run-AllSound es t c all ready =
        let start = record t {
          strategies = map hooks.on_start t.strategies;
          portfolio_history = [];
        } in
        let (t', done, sound, ready') = process_events-AllSound es start c all ready in
        (_, ap (λ x. x >>= λ (u : Backtester D S G). some (finish hooks u)) done, sound, ready')

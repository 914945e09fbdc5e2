-- ===== src/HeapBook/Start.antt =====
-- The books on a heap without orders: a new one, and one after `clear`.
use Prim.Native.String.{String}
use lobsimulater.Base.{refl, lookup, []}
use lobsimulater.Types.{bid, ask}
use lobsimulater.Book
use lobsimulater.Book.{OrderBook, levels_of}
use lobsimulater.Levels.{find_level}
use lobsimulater.HeapBook.{LinkedBook, find_at, new_book, clear}
use lobsimulater.HeapBook.Refines.{IsBook}

pub new_book-IsBook : (name : String) → IsBook (new_book name) (Book.new_book name)
unfolding Book.new_book levels_of find_level find_at lookup
new_book-IsBook name = record {
  view = λ s p. [];
  places = elim [ bid ↦ λ p. refl | ask ↦ λ p. refl ];
  index = λ i. tt;
  prices = elim [ bid ↦ tt | ask ↦ tt ];
  fields = (refl, refl, refl, refl, refl);
}

pub clear-IsBook :
    (hb : LinkedBook) (b : OrderBook) → IsBook hb b → IsBook (clear hb) (Book.clear b)
unfolding clear Book.clear levels_of find_level find_at lookup
clear-IsBook hb b same = record {
  view = λ s p. [];
  places = elim [ bid ↦ λ p. refl | ask ↦ λ p. refl ];
  index = λ i. tt;
  prices = elim [ bid ↦ tt | ask ↦ tt ];
  fields = (same.fields.0, same.fields.1, same.fields.2, refl, same.fields.4);
}

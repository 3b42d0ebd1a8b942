-- ===== src/Book/History.antt =====
-- All that can happen to an `OrderBook` (engine/core/order_book.py) from its creation on.
use mini_hft_system.Types.{buy, OrderId, Symbol}
use mini_hft_system.Order.{Order}
use mini_hft_system.Book.{Book, new_book, submit, cancel}
use mini_hft_system.Book.Cancel.{cancel-Cancels}
use mini_hft_system.Book.Fill.{Readings}
use mini_hft_system.Book.Level.{PriceLevel}
use mini_hft_system.Book.Outcome.{submit-IsBook}
use mini_hft_system.Book.Prices.{SortedDict, negated, ascending}
use mini_hft_system.Book.State.{IsBook, Sides-IsBook}
use mini_hft_system.Book.Submit.{IsSubmittable}

module _ (S : SortedDict PriceLevel) where
  pub data Step (b : Book S) : Book S → Type 0 where
    submits : (env : Readings) (o : Order) → IsSubmittable S b o → Step b (submit S env b o).book
    cancels : (i : OrderId) → Step b (cancel S b i).1

  -- What the calls of a session lead to.
  pub data Reach (sym : Symbol) : Book S → Type 0 where
    created : Reach sym (new_book S sym)
    next : {b b' : Book S} → Reach sym b → Step b b' → Reach sym b'

  pub new_book-IsBook : (sym : Symbol) → IsBook S (new_book S sym)
  unfolding new_book
  new_book-IsBook sym = Sides-IsBook S buy (new_book S sym) (
      rw (S.items-empty negated, S.items-empty ascending)
        (record {
          own_stored = record { sorted = tt; levels = tt };
          opp_stored = record { sorted = tt; levels = tt };
          clear = tt;
          own_known = tt;
          opp_known = tt;
          own_distinct = tt;
          opp_distinct = tt;
        }))

  Step-IsBook : {b b' : Book S} → IsBook S b → Step b b' → IsBook S b'
  Step-IsBook {b} v (submits env o w) = submit-IsBook S env b o v w
  Step-IsBook {b} v (cancels i) = (cancel-Cancels S b i v).book

  -- Every book that submissions and cancellations lead to from a new one is valid, where each order that is
  -- submitted may be: its id does not rest in the book, it has a price if it is a limit order, and it is
  -- not filled beyond its quantity.
  pub Reach-IsBook : {sym : Symbol} {b : Book S} → Reach sym b → IsBook S b
  Reach-IsBook {sym} created = new_book-IsBook sym
  Reach-IsBook (next r s) = Step-IsBook (Reach-IsBook r) s

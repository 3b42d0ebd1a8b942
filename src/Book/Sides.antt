-- ===== src/Book/Sides.antt =====
-- What one side of the book of engine/core/order_book.py promises: levels in strict price priority,
-- each with its resting orders and their exact total.
use mini_hft_system.Prelude.{ℕ, ◌+◌, ◌<◌, ◌≡◌, List, [], ◌∷◌, ◌++◌, some, true, false, All, arith}
use mini_hft_system.Types.{OrderSide, buy, sell, Price}
use mini_hft_system.Order.{Order, remaining_quantity}
use mini_hft_system.Book.Level.{PriceLevel, no_orders}
use mini_hft_system.Book.Prices.{KeyOrder, ascending, negated, before}

-- The key order of a side's dictionary, and the side that an order is matched against.
abbrev pub key_order : OrderSide → KeyOrder
key_order buy = negated
key_order sell = ascending

abbrev pub opposite : OrderSide → OrderSide
opposite buy = sell
opposite sell = buy

pub record IsResting (side : OrderSide) (p : Price) (o : Order) : Type 0 where
  pub at_price : o.price ≡ some p
  pub on_side : o.side ≡ side
  pub unfilled : o.filled_quantity < o.quantity

abbrev pub sum_remaining : List Order → ℕ
sum_remaining [] = 0
sum_remaining (o ∷ os) = remaining_quantity o + sum_remaining os

pub sum_remaining-append :
    (xs ys : List Order) → sum_remaining (xs ++ ys) ≡ sum_remaining xs + sum_remaining ys
sum_remaining-append [] ys = omega arith
sum_remaining-append (x ∷ xs) ys = omega (arith, sum_remaining-append xs ys)

-- A level while it is being worked on: it may be empty.
pub record IsLevel (side : OrderSide) (p : Price) (l : PriceLevel) : Type 0 where
  pub priced : l.price ≡ p
  pub total : l.total_quantity ≡ sum_remaining l.orders
  pub resting : All (IsResting side p) l.orders

abbrev pub Behind : KeyOrder → Price → ℕ × PriceLevel → Type 0
Behind k p b = before k p b.0 ≡ true

abbrev pub IsSorted : KeyOrder → List (ℕ × PriceLevel) → Type 0
IsSorted k [] = Unit {0}
IsSorted k (b ∷ m) = All (Behind k b.0) m × IsSorted k m

abbrev pub IsStored : OrderSide → ℕ × PriceLevel → Type 0
IsStored side b = IsLevel side b.0 b.1 × (no_orders b.1.orders ≡ false)

-- One side of a book that no operation is working on.
pub record IsSide (side : OrderSide) (k : KeyOrder) (m : List (ℕ × PriceLevel)) : Type 0 where
  pub sorted : IsSorted k m
  pub levels : All (IsStored side) m

-- The resting orders of a side in priority order: by price, then by arrival.
abbrev pub queue : List (ℕ × PriceLevel) → List Order
queue [] = []
queue (b ∷ m) = b.1.orders ++ queue m

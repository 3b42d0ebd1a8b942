-- ===== src/Book/Level.antt =====
-- `PriceLevel` of engine/core/order_book.py: the FIFO queue of the orders at one price.
use mini_hft_system.Prelude.{
  ℕ, ◌+◌, ◌-◌, List, [], ◌∷◌, ◌++◌, Option, none, some, Bool, true, false, ◌==◌, length,
  if◌then◌else◌,
}
use mini_hft_system.Types.{OrderId, Price, Quantity}
use mini_hft_system.Order.{Order, remaining_quantity}

pub record PriceLevel : Type 0 where
  pub price : Price
  pub orders : List Order
  pub total_quantity : Quantity

-- `PriceLevel(price=price)`
abbrev pub new_level : Price → PriceLevel
new_level p = record { price = p; orders = []; total_quantity = 0 }

-- `book[price]`, after `book[price] = PriceLevel(price)` where there was none.
abbrev pub level_or_new : Price → Option PriceLevel → PriceLevel
level_or_new p none = new_level p
level_or_new p (some l) = l

abbrev pub add : PriceLevel → Order → PriceLevel
add l o = record l {
  orders = l.orders ++ (o ∷ []);
  total_quantity = l.total_quantity + remaining_quantity o;
}

abbrev pub front : List Order → Option Order
front [] = none
front (o ∷ os) = some o

abbrev pub peek : PriceLevel → Option Order
peek l = front l.orders

-- The scan of the deque, and `del self.orders[i]` at the index where it stops.
unfoldable pub find : OrderId → List Order → Option Order
find i [] = none
find i (o ∷ os) = if o.order_id == i then some o else find i os

unfoldable pub delete : OrderId → List Order → List Order
delete i [] = []
delete i (o ∷ os) = if o.order_id == i then os else o ∷ delete i os

unfoldable pub remove : PriceLevel → OrderId → Option Order × PriceLevel
remove l i = elim (find i l.orders) [
  | none ↦ (none, l)
  | some o ↦ (
    some o,
    record l {
      orders = delete i l.orders;
      total_quantity = l.total_quantity - remaining_quantity o;
    },
  )
]

abbrev pub no_orders : List Order → Bool
no_orders [] = true
no_orders (o ∷ os) = false

abbrev pub is_empty : PriceLevel → Bool
is_empty l = no_orders l.orders

abbrev pub order_count : PriceLevel → ℕ
order_count l = length l.orders

-- ===== src/Book/Sweep.antt =====
-- The specification of matching: one pass over the resting orders in priority order, with no price
-- levels, dictionaries or loops.
use mini_hft_system.Prelude.{
  ℕ, ◌+◌, ◌-◌, ◌≡◌, refl, ap, List, [], ◌∷◌, ◌++◌, map, min, Bool, ◌&&◌, ltb, leb, if◌then◌else◌,
}
use mini_hft_system.Types.{OrderId, Price, Quantity}
use mini_hft_system.Order.{Order, Trade, price_of, remaining_quantity}
use mini_hft_system.Book.Fill.{fill_status}

pub record Execution : Type 0 where
  pub maker : OrderId
  pub price : Price
  pub quantity : Quantity

abbrev pub execution : Trade → Execution
execution t = record { maker = t.maker_order_id; price = t.price; quantity = t.quantity }

abbrev pub executions : List Trade → List Execution
executions = map execution

abbrev pub fill_by : ℕ → Order → Order
fill_by n o = fill_status (record o { filled_quantity = o.filled_quantity + n })

-- The executions of `n` shares at the prices that `ok` accepts.
unfoldable pub sweep : (Price → Bool) → ℕ → List Order → List Execution
sweep ok n [] = []
sweep ok n (o ∷ os) =
    let e : Execution = record {
      maker = o.order_id;
      price = price_of o;
      quantity = min n (remaining_quantity o);
    } in
    let rest = sweep ok (n - remaining_quantity o) os in
    if ltb 0 n && ok (price_of o) then e ∷ rest else []

-- The resting orders that they leave.
unfoldable pub leftover : (Price → Bool) → ℕ → List Order → List Order
leftover ok n [] = []
leftover ok n (o ∷ os) =
    let rest = leftover ok (n - remaining_quantity o) os in
    if ltb 0 n && ok (price_of o)
    then (if leb (remaining_quantity o) n then rest else fill_by n o ∷ os)
    else o ∷ os

pub sweep-zero : (ok : Price → Bool) (q : List Order) → sweep ok 0 q ≡ []
unfolding sweep
sweep-zero ok [] = refl
sweep-zero ok (o ∷ os) = refl

pub leftover-zero : (ok : Price → Bool) (q : List Order) → leftover ok 0 q ≡ q
unfolding leftover
leftover-zero ok [] = refl
leftover-zero ok (o ∷ os) = refl

pub executions-snoc :
    (ts : List Trade) (t : Trade) (es : List Execution)
    → executions (ts ++ (t ∷ [])) ++ es ≡ executions ts ++ (execution t ∷ es)
executions-snoc [] t es = refl
executions-snoc (x ∷ ts) t es = ap (◌∷◌ (execution x)) (executions-snoc ts t es)

-- ===== src/Strategy/Ledger.antt =====
-- `BaseStrategy` and `StrategyState` of strategy/base.py: the position, and the average-cost profit and loss
-- that fills and marks change.
use mini_hft_system.Prelude.{
  ℕ, zero, suc, ◌+◌, ◌-◌, ◌*◌, min, List, Option, none, some, Bool, true, false, ◌==◌, leb,
  if◌then◌else◌, ◌≡◌, refl, ap, Bool-cases, inl, inr,
}
use mini_hft_system.Types.{Symbol, Price, Quantity}
use mini_hft_system.Order.{Order, Trade, Ratio, is_buy, notional}

-- A signed number of shares: `negsuc n` is `-(n + 1)`.
pub data ℤ : Type 0 where
  pos negsuc : ℕ → ℤ

abbrev pub magnitude : ℤ → ℕ
magnitude (pos n) = n
magnitude (negsuc n) = suc n

-- The position after `q` more shares are bought, or sold.
abbrev pub shift : ℤ → Bool → Quantity → ℤ
shift (pos n) true q = pos (n + q)
shift (negsuc n) true q = if leb q n then negsuc (n - q) else pos (q - suc n)
shift (pos n) false q = if leb q n then pos (n - q) else negsuc (q - suc n)
shift (negsuc n) false q = negsuc (n + q)

-- The amount `(gain - loss) / over`.
pub record Amount : Type 0 where
  pub gain : ℕ
  pub loss : ℕ
  pub over : ℕ

abbrev pub no_amount : Amount
no_amount = record { gain = 0; loss = 0; over = 1 }

abbrev pub add : Amount → Amount → Amount
add a b = record {
  gain = a.gain * b.over + b.gain * a.over;
  loss = a.loss * b.over + b.loss * a.over;
  over = a.over * b.over;
}

abbrev pub whole : ℕ → Ratio
whole n = record { numerator = n; denominator = 1 }

-- `(a - b) * n`, of two prices and a signed number of shares.
abbrev pub difference_times : Ratio → Ratio → ℤ → Amount
difference_times a b (pos n) = record {
  gain = a.numerator * b.denominator * n;
  loss = b.numerator * a.denominator * n;
  over = a.denominator * b.denominator;
}
difference_times a b (negsuc n) = record {
  gain = b.numerator * a.denominator * suc n;
  loss = a.numerator * b.denominator * suc n;
  over = a.denominator * b.denominator;
}

pub record StrategyState : Type 0 where
  pub position : ℤ
  pub average_entry_price : Ratio
  pub realised_pnl : Amount
  pub unrealised_pnl : Amount
  pub mark_price : Option Ratio
  pub total_fills : ℕ
  pub total_notional : ℕ
  pub orders_submitted : ℕ
  pub risk_rejections : ℕ
  pub killed_reason : Option (List ℕ)

abbrev pub new_state : StrategyState
new_state = record {
  position = pos 0;
  average_entry_price = whole 0;
  realised_pnl = no_amount;
  unrealised_pnl = no_amount;
  mark_price = none;
  total_fills = 0;
  total_notional = 0;
  orders_submitted = 0;
  risk_rejections = 0;
  killed_reason = none;
}

abbrev pub total_pnl : StrategyState → Amount
total_pnl s = add s.realised_pnl s.unrealised_pnl

pub record BaseStrategy : Type 0 where
  pub strategy_id : List ℕ
  pub symbol : Symbol
  pub capital : ℕ
  pub max_position : Quantity
  pub replace_open_orders : Bool
  pub state : StrategyState
  pub is_running : Bool

abbrev pub new_strategy : List ℕ → Symbol → ℕ → Quantity → Bool → BaseStrategy
new_strategy name s capital max_position replace = record {
  strategy_id = name;
  symbol = s;
  capital = capital;
  max_position = max_position;
  replace_open_orders = replace;
  state = new_state;
  is_running = false;
}

-- `mark_to_market`
unfoldable pub mark_to_market : Ratio → StrategyState → StrategyState
mark_to_market price s = record s {
  mark_price = some price;
  unrealised_pnl = difference_times price s.average_entry_price s.position;
}

-- `prior_position == 0 or prior_position * signed_quantity > 0`, for a fill that buys or sells.
abbrev pub adds : ℤ → Bool → Quantity → Bool
adds (pos zero) b q = true
adds (pos (suc n)) true q = if q == 0 then false else true
adds (pos (suc n)) false q = false
adds (negsuc n) true q = false
adds (negsuc n) false q = if q == 0 then false else true

-- `(prior_value + fill_value) / abs(new_position)`
abbrev pub average : ℤ → Ratio → Quantity → Price → ℤ → Ratio
average prior a q price new = record {
  numerator = magnitude prior * a.numerator + q * price * a.denominator;
  denominator = a.denominator * magnitude new;
}

-- `closing_quantity * direction`
abbrev pub closing : ℤ → Quantity → ℤ
closing (pos zero) q = pos 0
closing (pos (suc n)) q = pos (min (suc n) q)
closing (negsuc n) q = if q == 0 then pos 0 else negsuc (min (suc n) q - 1)

-- The average price where a fill closes the position, in part, or turns it over.
abbrev pub left_average : ℤ → ℤ → Ratio → Price → Ratio
left_average prior (pos zero) a price = whole 0
left_average (pos m) (pos (suc n)) a price = a
left_average (pos m) (negsuc n) a price = whole price
left_average (negsuc m) (pos (suc n)) a price = whole price
left_average (negsuc m) (negsuc n) a price = a

-- The first half of `on_fill`: the average price and the realised profit.
unfoldable pub book_fill : Bool → Quantity → Price → StrategyState → StrategyState
book_fill b q price s =
    let new = shift s.position b q in
    if adds s.position b q
    then record s { average_entry_price = average s.position s.average_entry_price q price new }
    else record s {
      realised_pnl =
          add s.realised_pnl
            (difference_times (whole price) s.average_entry_price (closing s.position q));
      average_entry_price = left_average s.position new s.average_entry_price price;
    }

-- What `on_fill` does to the position and the counts.
abbrev pub count_fill : Bool → Trade → StrategyState → StrategyState
count_fill b t s = record s {
  position = shift s.position b t.quantity;
  total_fills = s.total_fills + 1;
  total_notional = s.total_notional + notional t;
}

-- `on_fill`: the order says whether the shares of the trade come or go.
unfoldable pub on_fill : Order → Trade → BaseStrategy → BaseStrategy
on_fill o t s = record s {
  state =
      mark_to_market (whole t.price)
        (count_fill (is_buy o) t (book_fill (is_buy o) t.quantity t.price s.state));
}

-- `start` and `stop`, up to the hooks that a subclass may give.
unfoldable pub start : BaseStrategy → BaseStrategy
start s = record s { state = record (s.state) { killed_reason = none }; is_running = true }

unfoldable pub stop : Option (List ℕ) → BaseStrategy → BaseStrategy
stop reason s = record s { state = record (s.state) { killed_reason = reason }; is_running = false }

pub book_fill-position :
    (b : Bool) (q : Quantity) (p : Price) (s : StrategyState)
    → (book_fill b q p s).position ≡ s.position
unfolding book_fill
book_fill-position b q p s = elim (Bool-cases (adds s.position b q)) [
  | inl t ↦ rw t refl
  | inr t ↦ rw t refl
]

pub on_fill-position :
    (o : Order) (t : Trade) (s : BaseStrategy)
    → (on_fill o t s).state.position ≡ shift s.state.position (is_buy o) t.quantity
unfolding on_fill mark_to_market
on_fill-position o t s =
    ap (λ x. shift x (is_buy o) t.quantity)
      (book_fill-position (is_buy o) t.quantity t.price s.state)

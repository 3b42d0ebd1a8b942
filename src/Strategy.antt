-- ===== src/Strategy.antt =====
-- `StrategyRiskGuard` of strategy/risk.py, the limits of one strategy.
pub mod Ledger
pub mod Balance
pub mod Cash
pub mod Runtime
pub mod Dispatch
pub mod Control
pub mod Gate
pub mod Wiring
mod Tests
use mini_hft_system.Prelude.{
  ℕ, suc, ◌+◌, ◌-◌, ◌*◌, ◌≤◌, ◌≡◌, ◌↔◌, refl, sym, ap, ◌∙◌, List, [], ◌∷◌, min, List, Option, none,
  some, Bool, true, false, not, ltb, leb, if◌then◌else◌, arith, Bool-cases, inl, inr,
}
use mini_hft_system.Types.{Price, Quantity}
use mini_hft_system.Order.{Order, Trade, is_buy, sum_quantity}
use mini_hft_system.Strategy.Ledger.{
  ℤ, pos, negsuc, magnitude, shift, BaseStrategy, on_fill, on_fill-position,
}

pub record StrategyRiskLimits : Type 0 where
  pub max_order_size : Quantity
  pub max_position : Quantity
  pub max_notional_per_order : ℕ

-- The texts of a refusal.
pub data RefusalText : Type 0 where
  stopped_or_killed size_exceeded inventory_exceeded notional_exceeded : RefusalText

pub record StrategyRiskDecision : Type 0 where
  pub accepted : Bool
  pub reason : Option RefusalText

abbrev pub projected : BaseStrategy → Order → ℤ
projected s o = shift s.state.position (is_buy o) o.quantity

abbrev pub maximum : StrategyRiskLimits → BaseStrategy → Quantity
maximum l s = min s.max_position l.max_position

abbrev pub refuse : RefusalText → StrategyRiskDecision
refuse t = record { accepted = false; reason = some t }

abbrev pub over_notional : ℕ → Option Price → Quantity → Bool
over_notional n none q = false
over_notional n (some p) q = ltb n (p * q)

unfoldable pub evaluate : StrategyRiskLimits → BaseStrategy → Order → StrategyRiskDecision
evaluate l s o =
    if not s.is_running
    then refuse stopped_or_killed
    else if ltb l.max_order_size o.quantity
    then refuse size_exceeded
    else if ltb (maximum l s) (magnitude (projected s o))
    then refuse inventory_exceeded
    else if over_notional l.max_notional_per_order o.price o.quantity
    then refuse notional_exceeded
    else record { accepted = true; reason = none }

-- What an accepted order keeps to.
pub record Allowed (l : StrategyRiskLimits) (s : BaseStrategy) (o : Order) : Type 0 where
  pub running : s.is_running ≡ true
  pub small : o.quantity ≤ l.max_order_size
  pub inventory : magnitude (projected s o) ≤ maximum l s
  pub notional : over_notional l.max_notional_per_order o.price o.quantity ≡ false

-- An order is accepted exactly if the strategy runs, the order is within its size, the inventory that it
-- would lead to is within both position limits, and its notional, if it has a price, within the largest.
pub evaluate_iff :
    (l : StrategyRiskLimits) (s : BaseStrategy) (o : Order)
    → ((evaluate l s o).accepted ≡ true) ↔ Allowed l s o
unfolding evaluate
evaluate_iff l s o = (
  λ h. record {
    running = ground (arith, h);
    small = ground (arith, h);
    inventory = ground (arith, h);
    notional = ground (arith, h);
  },
  λ a. ground (arith, a.running, a.small, a.inventory, a.notional),
)

-- Between two positions within a limit all are within it.
shift_between :
    (p : ℤ) (b : Bool) (f q m : ℕ)
    → f ≤ q
    → magnitude p ≤ m
    → magnitude (shift p b q) ≤ m
    → magnitude (shift p b f) ≤ m
shift_between (pos n) true f q m h g k = omega arith
shift_between (negsuc n) true f q m h g k = ground (arith, k)
shift_between (pos n) false f q m h g k = ground (arith, k)
shift_between (negsuc n) false f q m h g k = omega arith

shift_none : (p : ℤ) (b : Bool) → shift p b 0 ≡ p
shift_none (pos n) true = ground arith
shift_none (negsuc n) true = ground arith
shift_none (pos n) false = ground arith
shift_none (negsuc n) false = ground arith

shift_twice : (p : ℤ) (b : Bool) (f g : ℕ) → shift (shift p b f) b g ≡ shift p b (f + g)
shift_twice (pos n) true f g = ground arith
shift_twice (negsuc n) true f g = ground arith
shift_twice (pos n) false f g = ground arith
shift_twice (negsuc n) false f g = ground arith

-- The fills of one order, one after the other.
abbrev pub fill_each : Order → List Trade → BaseStrategy → BaseStrategy
fill_each o [] s = s
fill_each o (t ∷ ts) s = fill_each o ts (on_fill o t s)

fill_each-position :
    (o : Order) (ts : List Trade) (s : BaseStrategy)
    → (fill_each o ts s).state.position ≡ shift s.state.position (is_buy o) (sum_quantity ts)
fill_each-position o [] s = sym (shift_none s.state.position (is_buy o))
fill_each-position o (t ∷ ts) s =
    fill_each-position o ts (on_fill o t s)
    ∙ ap (λ x. shift x (is_buy o) (sum_quantity ts)) (on_fill-position o t s)
    ∙ shift_twice s.state.position (is_buy o) t.quantity (sum_quantity ts)

-- Let an order be accepted for a strategy whose inventory is within both position limits. Then its fills, any
-- number of them that come to its quantity at most, with no fill of another order between the acceptance
-- and the last of them, leave the inventory within both limits.
pub on_fill-Allowed :
    (l : StrategyRiskLimits) (s : BaseStrategy) (o : Order) (ts : List Trade)
    → (evaluate l s o).accepted ≡ true
    → magnitude s.state.position ≤ maximum l s
    → sum_quantity ts ≤ o.quantity
    → magnitude (fill_each o ts s).state.position ≤ maximum l s
on_fill-Allowed l s o ts h g f = rw (fill_each-position o ts s) (
    shift_between s.state.position (is_buy o) (sum_quantity ts) o.quantity (maximum l s) f g
      ((evaluate_iff l s o).0 h).inventory)

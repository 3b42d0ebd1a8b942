-- ===== src/Risk.antt =====
-- `RiskLimits` and `PreTradeRiskEngine` of engine/risk/limits.py: the checks of an order before it goes to
-- the engine. The text `detail` of a result, which only a person reads, is left out.
mod Tests
use mini_hft_system.Prelude.{
  ℕ, ◌*◌, ◌≤◌, ◌<◌, ◌≡◌, ◌≢◌, ◌↔◌, ◌⊎◌, refl, List, [], Option, none, some, Bool, true, false, ◌==◌,
  ltb, if◌then◌else◌, arith, Bool-cases, inl, inr, ap, ◌∙◌, sym,
}
use mini_hft_system.Prelude.Dict
use mini_hft_system.Prelude.Tests.{text_eq, text_beq}
use mini_hft_system.Types.{
  Symbol, Price, Quantity, OrderType, limit, market, RejectReason, invalid_quantity,
  risk_limit_exceeded, invalid_price,
}
use mini_hft_system.Order.{Order}
use mini_hft_system.Book.Level.{PriceLevel}
use mini_hft_system.Book.Prices.{SortedDict}
use mini_hft_system.Engine.{validate_new, validate_price}

pub record RiskLimits : Type 0 where
  pub max_order_quantity : Quantity
  pub min_order_price : Price
  pub max_order_price : Price
  pub max_orders_per_second : ℕ
  pub max_notional_per_order : ℕ

-- The defaults of shared/constants.py, prices and amounts in ticks of 0.0001 dollar.
abbrev pub default_limits : RiskLimits
default_limits = record {
  max_order_quantity = 1_000_000;
  min_order_price = 100;
  max_order_price = 10_000_000_000;
  max_orders_per_second = 1_000;
  max_notional_per_order = 100_000_000_000;
}

pub record RiskCheckResult : Type 0 where
  pub passed : Bool
  pub reason : Option RejectReason

abbrev pub PreTradeRiskEngine : Type 0
PreTradeRiskEngine = RiskLimits × List (Symbol × RiskLimits)

-- `PreTradeRiskEngine(limits)`
abbrev pub new_risk : Option RiskLimits → PreTradeRiskEngine
new_risk none = (default_limits, [])
new_risk (some l) = (l, [])

abbrev pub set_symbol_limits : PreTradeRiskEngine → Symbol → RiskLimits → PreTradeRiskEngine
set_symbol_limits (g, m) s l = (g, Dict.put s l m)

abbrev pub limits_or : RiskLimits → Option RiskLimits → RiskLimits
limits_or g none = g
limits_or g (some l) = l

abbrev pub limits_for : PreTradeRiskEngine → Symbol → RiskLimits
limits_for (g, m) s = limits_or g (Dict.get s m)

abbrev pub check_passes : RiskCheckResult
check_passes = record { passed = true; reason = none }

abbrev pub check_fails : RejectReason → RiskCheckResult
check_fails r = record { passed = false; reason = some r }

abbrev pub check_price : RiskLimits → Quantity → OrderType → Option Price → RiskCheckResult
check_price l q market p = check_passes
check_price l q limit none = check_fails invalid_price
check_price l q limit (some p) =
    if ltb p l.min_order_price
    then check_fails invalid_price
    else if ltb l.max_order_price p
    then check_fails invalid_price
    else if ltb l.max_notional_per_order (p * q)
    then check_fails risk_limit_exceeded
    else check_passes

abbrev pub check_limits : RiskLimits → Order → RiskCheckResult
check_limits l o =
    if o.quantity == 0
    then check_fails invalid_quantity
    else if ltb l.max_order_quantity o.quantity
    then check_fails risk_limit_exceeded
    else check_price l o.quantity o.order_type o.price

unfoldable pub check : PreTradeRiskEngine → Order → RiskCheckResult
check r o = check_limits (limits_for r o.symbol) o

-- What the limits mean for an order.
abbrev pub PriceWithin : RiskLimits → Quantity → OrderType → Option Price → Type 0
PriceWithin l q market p = Unit
PriceWithin l q limit none = ⊥
PriceWithin l q limit (some p) =
    (l.min_order_price ≤ p) × ((p ≤ l.max_order_price) × (p * q ≤ l.max_notional_per_order))

pub record Within (l : RiskLimits) (o : Order) : Type 0 where
  pub sized : o.quantity ≢ 0
  pub small : o.quantity ≤ l.max_order_quantity
  pub priced : PriceWithin l o.quantity o.order_type o.price

price_iff :
    (l : RiskLimits) (q : Quantity) (t : OrderType) (p : Option Price)
    → ((check_price l q t p).passed ≡ true) ↔ PriceWithin l q t p
price_iff l q market p = (λ h. tt, λ h. refl)
price_iff l q limit none = (λ h. absurd (cc), λ h. elim h [ ])
price_iff l q limit (some p) = (λ h. ground (arith, h), λ h. ground (arith, h))

limits_iff : (l : RiskLimits) (o : Order) → ((check_limits l o).passed ≡ true) ↔ Within l o
limits_iff l o = (accepted, within)
  where
    accepted : (check_limits l o).passed ≡ true → Within l o
    accepted h = record {
      sized = ground (arith, h);
      small = ground (arith, h);
      priced = (price_iff l o.quantity o.order_type o.price).0 (ground (arith, h));
    }

    within : Within l o → (check_limits l o).passed ≡ true
    within w =
        let e = (price_iff l o.quantity o.order_type o.price).1 w.priced in
        ground (arith, w.sized, w.small, e)

-- An order passes the checks exactly if it keeps within the limits of its symbol: its quantity is not 0
-- and at most the largest, and a limit order has a price between the bounds whose notional is within
-- the largest.
pub check_iff :
    (r : PreTradeRiskEngine) (o : Order)
    → ((check r o).passed ≡ true) ↔ Within (limits_for r o.symbol) o
unfolding check
check_iff r o = limits_iff (limits_for r o.symbol) o

-- An override of one symbol's limits decides about the orders of that symbol, and about no other.
set_symbol_limits-check :
    (r : PreTradeRiskEngine) (s : Symbol) (l : RiskLimits) (o : Order)
    → check (set_symbol_limits r s l) o
      ≡ (if text_beq s o.symbol then check_limits l o else check r o)
unfolding check
set_symbol_limits-check (g, m) s l o = elim (Bool-cases (text_beq s o.symbol)) [
  | inl e ↦
      let same : s ≡ o.symbol = (text_eq.beq_iff s o.symbol).0 e in
      let it : Dict.get o.symbol (Dict.put s l m) ≡ some l =
        ap (λ x. Dict.get x (Dict.put s l m)) (sym same) ∙ Dict.get-put_self s l m in
      rw (it, e) refl
  | inr e ↦
      let apart : s ≢ o.symbol =
        λ h. let c : true ≡ false = sym ((text_eq.beq_iff s o.symbol).1 h) ∙ e in cc in
      rw (Dict.get-put_ne s o.symbol l m apart, e) refl
]

module _ (S : SortedDict PriceLevel) where
  -- What passes the risk checks of limits with a least price above 0 has a quantity and a price that the
  -- matching engine accepts.
  pub check-validate_new :
      (r : PreTradeRiskEngine) (o : Order)
      → 0 < (limits_for r o.symbol).min_order_price
      → (check r o).passed ≡ true
      → validate_new S o ≡ none
  check-validate_new r o m h =
      let w = (check_iff r o).0 h in ground (arith, w.sized, plain o.order_type o.price w.priced)
    where
      plain :
          (t : OrderType) (p : Option Price)
          → PriceWithin (limits_for r o.symbol) o.quantity t p
          → validate_price S t p ≡ none
      plain market p g = refl
      plain limit none g = elim g [ ]
      plain limit (some p) g = ground (arith, m, g.0)

-- ===== src/Strategy/Cash.antt =====
-- The profit and loss of strategy/base.py over any number of fills.
use mini_hft_system.Prelude.{
  ℕ, zero, suc, ◌+◌, ◌*◌, ◌<◌, ◌≡◌, refl, ap, List, [], ◌∷◌, Bool, arith, Bool-cases, inl, inr, All,
}
use mini_hft_system.Types.{Price, Quantity}
use mini_hft_system.Order.{Order, Trade, Ratio, is_buy}
use mini_hft_system.Strategy.Ledger.{
  ℤ, pos, negsuc, shift, Amount, add, difference_times, StrategyState, BaseStrategy, adds,
  book_fill, book_fill-position, mark_to_market, on_fill, total_pnl, new_strategy,
}
use mini_hft_system.Strategy.Balance.{Balances, received, spent, next-Balances, pos_times}

abbrev pub long : ℤ → ℕ
long (pos n) = n
long (negsuc n) = 0

abbrev pub short : ℤ → ℕ
short (pos n) = 0
short (negsuc n) = suc n

-- The fills of a strategy's orders, one after the other.
unfoldable pub fill_all : List (Order × Trade) → BaseStrategy → BaseStrategy
fill_all [] s = s
fill_all ((o, t) ∷ fills) s = fill_all fills (on_fill o t s)

-- What sold shares bring, and what bought ones cost.
abbrev pub receipts : List (Order × Trade) → ℕ → ℕ
receipts [] got = got
receipts ((o, t) ∷ fills) got = receipts fills (received (is_buy o) (t.quantity * t.price) got)

abbrev pub payments : List (Order × Trade) → ℕ → ℕ
payments [] paid = paid
payments ((o, t) ∷ fills) paid = payments fills (spent (is_buy o) (t.quantity * t.price) paid)

-- The amount `x` is `got - paid`, and the position at the price `mark`, both sides multiplied by the
-- divisors.
pub record IsWorth (x : Amount) (mark : Ratio) (position : ℤ) (got paid : ℕ) : Type 0 where
  pub over : 0 < x.over
  pub value :
      x.gain * mark.denominator
        + paid * (x.over * mark.denominator)
        + short position * mark.numerator * x.over
      ≡ x.loss * mark.denominator
        + got * (x.over * mark.denominator)
        + long position * mark.numerator * x.over

Sound : StrategyState → ℕ → ℕ → Type 0
Sound s got paid = Balances s.position s.average_entry_price s.realised_pnl got paid

book_fill-Sound :
    (b : Bool) (m : ℕ) (p : Price) (s : StrategyState) (got paid : ℕ)
    → Sound s got paid
    → let q = suc m in
      let s' = book_fill b q p s in
      Balances
        (shift s.position b q)
        s'.average_entry_price
        s'.realised_pnl
        (received b (q * p) got)
        (spent b (q * p) paid)
unfolding Sound book_fill
book_fill-Sound b m p s got paid h =
    let next = next-Balances s.average_entry_price s.realised_pnl p got paid b m s.position h in
    elim (Bool-cases (adds s.position b (suc m))) [
      | inl t ↦ rw t (rw t at next)
      | inr t ↦ rw t (rw t at next)
    ]

new-Sound :
    (name symbol : List ℕ) (capital : ℕ) (max_position : Quantity) (replace : Bool)
    → Sound (new_strategy name symbol capital max_position replace).state 0 0
unfolding Sound
new-Sound name symbol capital max_position replace = record {
  divides = omega arith;
  over = omega arith;
  balance = omega arith;
}

on_fill-Sound :
    (o : Order) (t : Trade) (s : BaseStrategy) (got paid : ℕ)
    → 0 < t.quantity
    → Sound s.state got paid
    → Sound
        (on_fill o t s).state
        (received (is_buy o) (t.quantity * t.price) got)
        (spent (is_buy o) (t.quantity * t.price) paid)
unfolding Sound on_fill mark_to_market
on_fill-Sound o t s got paid some_shares h = by_quantity t.quantity some_shares
  where
    by_quantity :
        (q : Quantity)
        → 0 < q
        → let s' = book_fill (is_buy o) q t.price s.state in
          Balances
            (shift s'.position (is_buy o) q)
            s'.average_entry_price
            s'.realised_pnl
            (received (is_buy o) (q * t.price) got)
            (spent (is_buy o) (q * t.price) paid)
    by_quantity zero some = elim some [ ]
    by_quantity (suc m) some =
        rw (book_fill-position (is_buy o) (suc m) t.price s.state)
          (book_fill-Sound (is_buy o) m t.price s.state got paid h)

fill_all-Sound :
    (fills : List (Order × Trade)) (s : BaseStrategy) (got paid : ℕ)
    → All (λ f. 0 < f.1.quantity) fills
    → Sound s.state got paid
    → Sound (fill_all fills s).state (receipts fills got) (payments fills paid)
unfolding fill_all
fill_all-Sound [] s got paid some_shares h = h
fill_all-Sound ((o, t) ∷ fills) s got paid some_shares h =
    fill_all-Sound fills (on_fill o t s) (received (is_buy o) (t.quantity * t.price) got)
      (spent (is_buy o) (t.quantity * t.price) paid) some_shares.1
      (on_fill-Sound o t s got paid some_shares.0 h)

mark-IsWorth :
    (m : Ratio) (s : StrategyState) (got paid : ℕ)
    → 0 < m.denominator
    → Sound s got paid
    → IsWorth (total_pnl (mark_to_market m s)) m s.position got paid
unfolding mark_to_market Sound
mark-IsWorth m s got paid some_den h = by_position s.position refl h
  where
    by_position :
        (x : ℤ)
        → s.position ≡ x
        → Balances x s.average_entry_price s.realised_pnl got paid
        → IsWorth (add s.realised_pnl (difference_times m s.average_entry_price x)) m x got paid
    by_position (pos n) e h = record {
      over =
          pos_times s.realised_pnl.over (m.denominator * s.average_entry_price.denominator) h.over
            (pos_times m.denominator s.average_entry_price.denominator some_den h.divides);
      value = omega (arith, ap (λ x. x * (m.denominator * m.denominator)) h.balance);
    }
    by_position (negsuc n) e h = record {
      over =
          pos_times s.realised_pnl.over (m.denominator * s.average_entry_price.denominator) h.over
            (pos_times m.denominator s.average_entry_price.denominator some_den h.divides);
      value = omega (arith, ap (λ x. x * (m.denominator * m.denominator)) h.balance);
    }

-- Over any sequence of fills of at least one share each, long, short, or turning from one to the other,
-- the total profit of a strategy that starts flat, marked at any price, is what its sales brought less
-- what its purchases cost, plus its position at that price. The divisor of the amount is not 0.
pub total_pnl_lem :
    (fills : List (Order × Trade)) (m : Ratio) (name : List ℕ) (symbol : List ℕ) (capital : ℕ)
    (max_position : Quantity) (replace : Bool)
    → All (λ f. 0 < f.1.quantity) fills
    → 0 < m.denominator
    → let s = (fill_all fills (new_strategy name symbol capital max_position replace)).state in
      IsWorth (total_pnl (mark_to_market m s)) m s.position (receipts fills 0) (payments fills 0)
total_pnl_lem fills m name symbol capital max_position replace some_shares some_den =
    let new = new_strategy name symbol capital max_position replace in
    mark-IsWorth m (fill_all fills new).state (receipts fills 0) (payments fills 0) some_den (
      fill_all-Sound fills new 0 0 some_shares (new-Sound name symbol capital max_position replace))

-- ===== src/Book/Priority.antt =====
-- What the sweep means for the trades of `OrderBook.submit` (engine/core/order_book.py): price
-- protection, time priority, and that all the liquidity within the limit is taken.
use mini_hft_system.Prelude.{
  ℕ, ◌+◌, ◌-◌, ◌≡◌, ◌⊎◌, ◌∙◌, refl, sym, ap, List, [], ◌∷◌, ◌++◌, map, some, none, Option, Bool,
  true, false, ◌&&◌, inl, inr, All, All-imp, All-append, length, take, min, arith, subst,
  Bool-cases, if◌then◌else◌, ltb,
}
use mini_hft_system.Types.{OrderSide, buy, sell, Price, OrderId}
use mini_hft_system.Order.{Order, Trade, price_of, remaining_quantity, sum_quantity}
use mini_hft_system.Book.{Book, submit}
use mini_hft_system.Book.Fill.{Readings}
use mini_hft_system.Book.Level.{PriceLevel}
use mini_hft_system.Book.Match.{crosses}
use mini_hft_system.Book.Outcome.{submit-sweep}
use mini_hft_system.Book.Prices.{SortedDict, before}
use mini_hft_system.Book.Sides.{IsSorted, IsStored, IsResting, Behind, key_order, opposite, queue}
use mini_hft_system.Book.State.{IsBook, queue_of, items_of}
use mini_hft_system.Book.Submit.{IsSubmittable}
use mini_hft_system.Book.Sweep.{Execution, executions, sweep}

module _ (ok : Price → Bool) where
  sweep_accepted : (n : ℕ) (q : List Order) → All (λ e. ok e.price ≡ true) (sweep ok n q)
  unfolding sweep
  sweep_accepted n [] = tt
  sweep_accepted n (o ∷ os) = elim (Bool-cases (ltb 0 n && ok (price_of o))) [
    | inl e ↦ rw e (ground arith, sweep_accepted (n - remaining_quantity o) os)
    | inr e ↦ rw e tt
  ]

  abbrev makers : List Execution → List OrderId
  makers = map (λ e. e.maker)

  sweep_first :
      (n : ℕ) (q : List Order)
      → makers (sweep ok n q) ≡ take (length (sweep ok n q)) (map (λ o. o.order_id) q)
  unfolding sweep
  sweep_first n [] = refl
  sweep_first n (o ∷ os) = elim (Bool-cases (ltb 0 n && ok (price_of o))) [
    | inl e ↦ rw e (ap (◌∷◌ o.order_id) (sweep_first (n - remaining_quantity o) os))
    | inr e ↦ rw e
  ]

  abbrev sum_executed : List Execution → ℕ
  sum_executed [] = 0
  sum_executed (e ∷ es) = e.quantity + sum_executed es

  -- The shares that rest at accepted prices.
  abbrev pub available : List Order → ℕ
  available [] = 0
  available (o ∷ os) = (if ok (price_of o) then remaining_quantity o else 0) + available os

  abbrev Refused : Order → Type 0
  Refused o = ok (price_of o) ≡ false

  available-Refused : (q : List Order) → All Refused q → available q ≡ 0
  available-Refused [] a = refl
  available-Refused (o ∷ os) a = ground (arith, a.0, available-Refused os a.1)

  -- Behind a refused order all are refused.
  abbrev Falls : List Order → Type 0
  Falls [] = Unit {0}
  Falls (o ∷ os) = ((ok (price_of o) ≡ true) ⊎ All Refused os) × Falls os

  sweep_takes :
      (n : ℕ) (q : List Order) → Falls q → sum_executed (sweep ok n q) ≡ min n (available q)
  unfolding sweep
  sweep_takes n [] f = omega arith
  sweep_takes n (o ∷ os) (inl a, f) = ground (arith, a, sweep_takes (n - remaining_quantity o) os f)
  sweep_takes n (o ∷ os) (inr a, f) =
      ground (arith, available-Refused os a, sweep_takes (n - remaining_quantity o) os f)

  sum_executions : (ts : List Trade) → sum_executed (executions ts) ≡ sum_quantity ts
  sum_executions [] = refl
  sum_executions (t ∷ ts) = omega (arith, sum_executions ts)

-- A worse price is not accepted where a better one is refused.
crosses_falls :
    (s : OrderSide) (l : Option Price) (p q : Price)
    → before (key_order (opposite s)) p q ≡ true
    → crosses s l p ≡ false
    → crosses s l q ≡ false
crosses_falls s none p q h g = cc
crosses_falls buy (some l) p q h g = ground arith
crosses_falls sell (some l) p q h g = ground arith

module _ (s : OrderSide) (l : Option Price) (side : OrderSide) where
  abbrev ok : Price → Bool
  ok = crosses s l

  level-Refused :
      (p : Price) (os : List Order) → ok p ≡ false → All (IsResting side p) os → All (Refused ok) os
  level-Refused p os h = All-imp (IsResting side p) (Refused ok) os λ o r. ground (arith, r, h)

  queue-Refused :
      (p : Price) (m : List (ℕ × PriceLevel))
      → ok p ≡ false
      → All (Behind (key_order (opposite s)) p) m
      → All (IsStored side) m
      → All (Refused ok) (queue m)
  queue-Refused p [] h b a = tt
  queue-Refused p ((j, w) ∷ m) h b a =
      All-append (Refused ok) w.orders (queue m)
        (level-Refused j w.orders (crosses_falls s l p j b.0 h) a.0.0.resting)
        (queue-Refused p m h b.1 a.1)

  level-Falls :
      (p : Price) (os rest : List Order)
      → All (IsResting side p) os
      → (ok p ≡ true) ⊎ (All (Refused ok) (os ++ rest))
      → Falls ok rest
      → Falls ok (os ++ rest)
  level-Falls p [] rest a h f = f
  level-Falls p (o ∷ os) rest a (inl h) f =
      (inl (ground (arith, a.0, h)), level-Falls p os rest a.1 (inl h) f)
  level-Falls p (o ∷ os) rest a (inr h) f = (inr h.1, level-Falls p os rest a.1 (inr h.1) f)

  queue-Falls :
      (m : List (ℕ × PriceLevel))
      → IsSorted (key_order (opposite s)) m
      → All (IsStored side) m
      → Falls ok (queue m)
  queue-Falls [] o a = tt
  queue-Falls ((j, w) ∷ m) o a =
      level-Falls j w.orders (queue m) a.0.0.resting (refused (Bool-cases (ok j)))
        (queue-Falls m o.1 a.1)
    where
      refused :
          (ok j ≡ true) ⊎ (ok j ≡ false) → (ok j ≡ true) ⊎ All (Refused ok) (w.orders ++ queue m)
      refused (inl h) = inl h
      refused (inr h) = inr (
          All-append (Refused ok) w.orders (queue m) (level-Refused j w.orders h a.0.0.resting)
            (queue-Refused j m h o.0 a.1))

trade-makers :
    (ts : List Trade) → map (λ e. e.maker) (executions ts) ≡ map (λ t. t.maker_order_id) ts
trade-makers [] = refl
trade-makers (t ∷ ts) = ap (◌∷◌ t.maker_order_id) (trade-makers ts)

trade_prices :
    (P : Price → Type 0) (ts : List Trade)
    → All (λ e. P e.price) (executions ts)
    → All (λ t. P t.price) ts
trade_prices P [] a = tt
trade_prices P (t ∷ ts) a = (a.0, trade_prices P ts a.1)

length-executions : (ts : List Trade) → length (executions ts) ≡ length ts
length-executions [] = refl
length-executions (t ∷ ts) = omega (arith, length-executions ts)

module _ (S : SortedDict PriceLevel) (env : Readings) (b : Book S) (o : Order) (v : IsBook S b)
    (w : IsSubmittable S b o) where
  -- No trade of an order that may be submitted to a valid book is at a price that its limit excludes.
  pub submit_protects :
      All (λ t. crosses o.side o.price t.price ≡ true) (submit S env b o).result.trades
  submit_protects =
      trade_prices (λ p. crosses o.side o.price p ≡ true) (submit S env b o).result.trades
        (subst (All (λ e. crosses o.side o.price e.price ≡ true))
          (sym (submit-sweep S env b o v w).0)
          (sweep_accepted (crosses o.side o.price) (remaining_quantity o)
            (queue_of S (opposite o.side) b)))

  -- For an order that may be submitted to a valid book, the makers of the trades are the first orders of the opposite queue, in its order: best price
  -- first, and at one price the oldest first, with none passed over.
  pub submit_in_turn :
      let ts = (submit S env b o).result.trades in
      map (λ t. t.maker_order_id) ts
      ≡ take (length ts) (map (λ r. r.order_id) (queue_of S (opposite o.side) b))
  submit_in_turn =
      let ts = (submit S env b o).result.trades in
      let q = queue_of S (opposite o.side) b in
      let swept = (submit-sweep S env b o v w).0 in
      sym (trade-makers ts)
      ∙ subst (λ es. map (λ e. e.maker) es ≡ take (length es) (map (λ r. r.order_id) q)) (sym swept)
          (sweep_first (crosses o.side o.price) (remaining_quantity o) q)
      ∙ ap (λ n. take n (map (λ r. r.order_id) q)) (length-executions ts)

  -- An order that may be submitted to a valid book trades all the shares that rest within its limit, up
  -- to its remaining quantity.
  pub submit_takes :
      sum_quantity (submit S env b o).result.trades
      ≡ min
          (remaining_quantity o)
          (available (crosses o.side o.price) (queue_of S (opposite o.side) b))
  submit_takes =
      let s = v.stored (opposite o.side) in
      sym (sum_executions (crosses o.side o.price) (submit S env b o).result.trades)
      ∙ ap (sum_executed (crosses o.side o.price)) (submit-sweep S env b o v w).0
      ∙ sweep_takes (crosses o.side o.price) (remaining_quantity o) (queue_of S (opposite o.side) b)
          (queue-Falls o.side o.price (opposite o.side) (items_of S (opposite o.side) b) s.sorted
            s.levels)

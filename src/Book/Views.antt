-- ===== src/Book/Views.antt =====
-- The market data of a book: `snapshot`, `best_bid`, `best_ask`, `bid_volume` and `ask_volume` of
-- engine/core/order_book.py against the resting orders.
use mini_hft_system.Prelude.{
  ℕ, ◌+◌, ◌<◌, ◌≤◌, ◌≡◌, ◌≢◌, ◌∙◌, refl, sym, ap, List, [], ◌∷◌, ◌++◌, map, some, All, All-imp,
  All-append, All-imp₂, subst, Option, none, true, false, All-take, length, length-take, take,
  arith, if◌then◌else◌, ◌==◌,
}
use mathlib.Core.Option
use mini_hft_system.Types.{OrderSide, buy, sell, Price, TimestampNs}
use mini_hft_system.Order.{Order, price_of, price_or_zero, remaining_quantity}
use mini_hft_system.Book.{
  Book, snapshot, depth_row, best_bid, best_ask, bid_volume, ask_volume, sum_levels,
}
use mini_hft_system.Book.Level.{PriceLevel, no_orders}
use mini_hft_system.Book.Prices.{SortedDict, KeyOrder, before, negated, ascending, head?}
use mini_hft_system.Book.Rest.{before_irrefl}
use mini_hft_system.Book.Sides.{
  IsSorted, IsStored, IsResting, Behind, queue, sum_remaining, sum_remaining-append,
}
use mini_hft_system.Book.State.{IsBook, ClearOf, items_of, queue_of}

abbrev key : ℕ × PriceLevel → ℕ
key e = e.0

-- The shares and the number of the orders at one price.
abbrev pub shares_at : Price → List Order → ℕ
shares_at p [] = 0
shares_at p (o ∷ os) = (if price_of o == p then remaining_quantity o else 0) + shares_at p os

abbrev pub orders_at : Price → List Order → ℕ
orders_at p [] = 0
orders_at p (o ∷ os) = (if price_of o == p then 1 else 0) + orders_at p os

-- A row of the snapshot says what rests at its price.
abbrev pub Tells : List Order → Price × ℕ × ℕ → Type 0
Tells q r = (r.1 ≡ shares_at r.0 q) × (r.2 ≡ orders_at r.0 q)

module _ (side : OrderSide) where
  at_own :
      (p : Price) (os : List Order)
      → All (IsResting side p) os
      → (shares_at p os ≡ sum_remaining os) × (orders_at p os ≡ length os)
  at_own p [] a = (refl, refl)
  at_own p (o ∷ os) a = ground (arith, a.0, at_own p os a.1)

  at_other :
      (p j : Price) (os : List Order)
      → p ≢ j
      → All (IsResting side j) os
      → (shares_at p os ≡ 0) × (orders_at p os ≡ 0)
  at_other p j [] h a = (refl, refl)
  at_other p j (o ∷ os) h a = ground (arith, a.0, at_other p j os h a.1)

  at-append :
      (p : Price) (xs ys : List Order)
      → (shares_at p (xs ++ ys) ≡ shares_at p xs + shares_at p ys)
        × (orders_at p (xs ++ ys) ≡ orders_at p xs + orders_at p ys)
  at-append p [] ys = omega arith
  at-append p (x ∷ xs) ys = omega (arith, at-append p xs ys)

  module _ (k : KeyOrder) where
    none-Behind :
        (p : Price) (m : List (ℕ × PriceLevel))
        → All (Behind k p) m
        → All (IsStored side) m
        → (shares_at p (queue m) ≡ 0) × (orders_at p (queue m) ≡ 0)
    none-Behind p [] b a = (refl, refl)
    none-Behind p ((j, w) ∷ m) b a =
        let apart : p ≢ j = λ e. ground (arith, before_irrefl k p j e, b.0) in
        omega (
          arith,
          at-append p w.orders (queue m),
          at_other p j w.orders apart a.0.0.resting,
          none-Behind p m b.1 a.1,
        )

    rows_tell :
        (m : List (ℕ × PriceLevel))
        → IsSorted k m
        → All (IsStored side) m
        → All (λ e. Tells (queue m) (depth_row e)) m
    rows_tell [] o a = tt
    rows_tell ((j, w) ∷ m) o a = (
      omega (
        arith,
        a.0.0.total,
        at-append j w.orders (queue m),
        at_own j w.orders a.0.0.resting,
        none-Behind j m o.0 a.1,
      ),
      All-imp₂ (Behind k j) (λ e. Tells (queue m) (depth_row e))
          (λ e. Tells (w.orders ++ queue m) (depth_row e)) m later o.0 (rows_tell m o.1 a.1),
    )
      where
        later :
            (e : ℕ × PriceLevel)
            → Behind k j e
            → Tells (queue m) (depth_row e)
            → Tells (w.orders ++ queue m) (depth_row e)
        later e b t =
            let apart : e.0 ≢ j = λ h. ground (arith, before_irrefl k j e.0 (sym h), b) in
            omega (
              arith,
              at-append e.0 w.orders (queue m),
              at_other e.0 j w.orders apart a.0.0.resting,
              t,
            )

  sum_levels-queue :
      (m : List (ℕ × PriceLevel)) → All (IsStored side) m → sum_levels m ≡ sum_remaining (queue m)
  sum_levels-queue [] a = refl
  sum_levels-queue ((j, w) ∷ m) a =
      omega (arith, a.0.0.total, sum_remaining-append w.orders (queue m), sum_levels-queue m a.1)

All-rows :
    (P : Price × ℕ × ℕ → Type 0) (m : List (ℕ × PriceLevel))
    → All (λ e. P (depth_row e)) m
    → All P (map depth_row m)
All-rows P [] a = tt
All-rows P (e ∷ m) a = (a.0, All-rows P m a.1)

length-rows : (m : List (ℕ × PriceLevel)) → length (map depth_row m) ≡ length m
length-rows [] = refl
length-rows (e ∷ m) = omega (arith, length-rows m)

best_lem :
    (bids asks : List (ℕ × PriceLevel)) (p q : Price)
    → All (λ y. ClearOf buy bids y.0) asks
    → Option.map key (head? bids) ≡ some p
    → Option.map key (head? asks) ≡ some q
    → p < q
best_lem [] asks p q c h g = absurd (cc)
best_lem (x ∷ bids) [] p q c h g = absurd (cc)
best_lem (x ∷ bids) (y ∷ asks) p q c h g = ground (arith, c.0.0)

-- `best` is the price of an order of the queue that is at least as good as the price of every other, or
-- nothing where the queue is empty.
pub data IsBest (Better : Price → Price → Type 0) (q : List Order) : Option Price → Type 0 where
  empty_queue : q ≡ [] → IsBest Better q none
  first_of :
      (p : Price) (o : Order) (os : List Order)
      → q ≡ o ∷ os
      → o.price ≡ some p
      → All (λ x. Better p (price_of x)) q
      → IsBest Better q (some p)

module _ (side : OrderSide) (k : KeyOrder) (Better : Price → Price → Type 0)
    (same : (p : Price) → Better p p)
    (worse : (p q : Price) → before k p q ≡ true → Better p q) where
  level-Better :
      (p j : Price) (os : List Order)
      → Better p j
      → All (IsResting side j) os
      → All (λ x. Better p (price_of x)) os
  level-Better p j os h a =
      All-imp (IsResting side j) (λ x. Better p (price_of x)) os
        (λ x r. subst (Better p) (sym (ap price_or_zero r.at_price)) h) a

  queue-Better :
      (p : Price) (m : List (ℕ × PriceLevel))
      → All (Behind k p) m
      → All (IsStored side) m
      → All (λ x. Better p (price_of x)) (queue m)
  queue-Better p [] h a = tt
  queue-Better p ((j, w) ∷ m) h a =
      All-append (λ x. Better p (price_of x)) w.orders (queue m)
        (level-Better p j w.orders (worse p j h.0) a.0.0.resting) (queue-Better p m h.1 a.1)

  head-IsBest :
      (m : List (ℕ × PriceLevel))
      → IsSorted k m
      → All (IsStored side) m
      → IsBest Better (queue m) (Option.map key (head? m))
  head-IsBest [] o a = empty_queue refl
  head-IsBest ((j, w) ∷ m) o a = by_orders w.orders refl
    where
      by_orders : (os : List Order) → w.orders ≡ os → IsBest Better (w.orders ++ queue m) (some j)
      by_orders [] e = absurd (let c : true ≡ false = ap no_orders (sym e) ∙ a.0.1 in cc)
      by_orders (x ∷ os) e =
          first_of j x (os ++ queue m) (ap (λ y. y ++ queue m) e)
            ((subst (λ y. All (IsResting side j) y) e a.0.0.resting).0.at_price)
            (All-append (λ y. Better j (price_of y)) w.orders (queue m)
              (level-Better j j w.orders (same j) a.0.0.resting) (queue-Better j m o.0 a.1))

module _ (S : SortedDict PriceLevel) (b : Book S) (v : IsBook S b) where
  -- Each row of a snapshot of a valid book gives the shares and the number of the orders that rest at
  -- its price on its side, and a side has at most `depth` rows.
  snapshot-Tells :
      (depth : ℕ) (now : TimestampNs)
      → let s = snapshot S b depth now in
        All (Tells (queue_of S buy b)) s.bids
        × All (Tells (queue_of S sell b)) s.asks
        × (length s.bids ≤ depth)
        × (length s.asks ≤ depth)
  unfolding snapshot
  snapshot-Tells depth now =
      let bids = items_of S buy b in
      let asks = items_of S sell b in
      let bids_tell = rows_tell buy negated bids (v.stored buy).sorted (v.stored buy).levels in
      let asks_tell = rows_tell sell ascending asks (v.stored sell).sorted (v.stored sell).levels in
      (
        All-rows (Tells (queue bids)) (take depth bids)
            (All-take (λ e. Tells (queue bids) (depth_row e)) depth bids bids_tell),
        All-rows (Tells (queue asks)) (take depth asks)
            (All-take (λ e. Tells (queue asks) (depth_row e)) depth asks asks_tell),
        omega (arith, length-rows (take depth bids), length-take depth bids),
        omega (arith, length-rows (take depth asks), length-take depth asks),
      )

  -- The volume of a side of a valid book is the sum of what its resting orders have left.
  volume_lem :
      (bid_volume S b ≡ sum_remaining (queue_of S buy b))
      × (ask_volume S b ≡ sum_remaining (queue_of S sell b))
  unfolding bid_volume ask_volume
  volume_lem = (
    sum_levels-queue buy (items_of S buy b) (v.stored buy).levels,
    sum_levels-queue sell (items_of S sell b) (v.stored sell).levels,
  )

  -- The best bid of a valid book is the highest price at which a buy order rests, and there is none exactly
  -- where no buy order rests; the best ask is the lowest price of a sell order in the same way; and a best
  -- bid lies below a best ask, so that the book is never crossed or locked.
  pub quotes-IsBest :
      IsBest (λ p q. q ≤ p) (queue_of S buy b) (best_bid S b)
      × IsBest (λ p q. p ≤ q) (queue_of S sell b) (best_ask S b)
      × ((p q : Price) → best_bid S b ≡ some p → best_ask S b ≡ some q → p < q)
  unfolding best_bid best_ask
  quotes-IsBest =
      let bid_at = ap (Option.map key) (sym (S.peekitem_lem negated b.bids)) in
      let ask_at = ap (Option.map key) (sym (S.peekitem_lem ascending b.asks)) in
      (
        subst (IsBest (λ p q. q ≤ p) (queue_of S buy b)) bid_at (
            head-IsBest buy negated (λ p q. q ≤ p) (λ p. omega arith) (λ p q h. ground (arith, h))
              (items_of S buy b) (v.stored buy).sorted (v.stored buy).levels),
        subst (IsBest (λ p q. p ≤ q) (queue_of S sell b)) ask_at (
            head-IsBest sell ascending (λ p q. p ≤ q) (λ p. omega arith)
              (λ p q h. ground (arith, h)) (items_of S sell b) (v.stored sell).sorted
              (v.stored sell).levels),
        λ p q h g.
            best_lem (items_of S buy b) (items_of S sell b) p q (v.uncrossed buy) (bid_at ∙ h)
              (ask_at ∙ g),
      )

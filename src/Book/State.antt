-- ===== src/Book/State.antt =====
-- The invariant of `OrderBook` (engine/core/order_book.py) between two calls.
use mini_hft_system.Prelude.{
  ℕ, ◌<◌, ◌≡◌, refl, ap, List, [], ◌∷◌, some, true, false, All, All-imp, arith,
}
use mini_hft_system.Types.{OrderSide, buy, sell, Price}
use mini_hft_system.Order.{Order}
use mini_hft_system.Book.Prices.{SortedDict, ascending, negated, before}
use mini_hft_system.Book.Level.{PriceLevel}
use mini_hft_system.Book.Fill.{CancelMap}
use mini_hft_system.Book.Match.{crosses}
use mini_hft_system.Book.Match.Refine.{Blocks}
use mini_hft_system.Book.Sides.{IsSide, IsSorted, Behind, queue, key_order, opposite}
use mini_hft_system.Book.Index.{Known, Distinct}
use mini_hft_system.Book.{Book, side_book, with_side}

-- A price of one side does not reach a price of the other: bids lie below asks.
abbrev pub Clear : OrderSide → Price → Price → Type 0
Clear buy p q = p < q
Clear sell p q = q < p

abbrev pub ClearOf : OrderSide → List (ℕ × PriceLevel) → ℕ → Type 0
ClearOf s own q = All (λ x. Clear s x.0 q) own

pub opposite-opposite : (s : OrderSide) → opposite (opposite s) ≡ s
opposite-opposite buy = refl
opposite-opposite sell = refl

All-swap :
    (s : OrderSide) (xs ys : List (ℕ × PriceLevel))
    → All (λ y. ClearOf s xs y.0) ys
    → All (λ x. ClearOf (opposite s) ys x.0) xs
All-swap s [] ys h = tt
All-swap s (x ∷ xs) ys h = (
  All-imp (λ y. ClearOf s (x ∷ xs) y.0) (λ y. Clear (opposite s) y.0 x.0) ys
      (λ y g. turn s x.0 y.0 g.0) h,
  All-swap s xs ys
      (All-imp (λ y. ClearOf s (x ∷ xs) y.0) (λ y. ClearOf s xs y.0) ys (λ y g. g.1) h),
)
  where
    turn : (t : OrderSide) (p q : Price) → Clear t p q → Clear (opposite t) q p
    turn buy p q c = c
    turn sell p q c = c

-- What a limit order does not accept, its price is clear of; and of all that is worse.
pub Blocks-Clear :
    (s : OrderSide) (p : Price) (m : List (ℕ × PriceLevel))
    → IsSorted (key_order (opposite s)) m
    → Blocks (crosses s (some p)) m
    → All (λ y. Clear s p y.0) m
Blocks-Clear s p [] o b = tt
Blocks-Clear s p (y ∷ m) o b = (
  first s y.0 b,
  All-imp (Behind (key_order (opposite s)) y.0) (λ z. Clear s p z.0) m (λ z. further s y.0 z.0 b)
      o.0,
)
  where
    first : (t : OrderSide) (q : Price) → crosses t (some p) q ≡ false → Clear t p q
    first buy q h = ground arith
    first sell q h = ground arith

    further :
        (t : OrderSide) (q r : Price)
        → crosses t (some p) q ≡ false
        → before (key_order (opposite t)) q r ≡ true
        → Clear t p r
    further buy q r h g = ground arith
    further sell q r h g = ground arith

-- The invariant seen from one side, on the contents of the two dictionaries and the cancel map.
pub record Sides (s : OrderSide) (own opp : List (ℕ × PriceLevel)) (cm : CancelMap) : Type 0 where
  pub own_stored : IsSide s (key_order s) own
  pub opp_stored : IsSide (opposite s) (key_order (opposite s)) opp
  pub clear : All (λ y. ClearOf s own y.0) opp
  pub own_known : Known s cm (queue own)
  pub opp_known : Known (opposite s) cm (queue opp)
  pub own_distinct : Distinct (queue own)
  pub opp_distinct : Distinct (queue opp)

module _ (S : SortedDict PriceLevel) where
  open S use {items}

  abbrev pub items_of : (s : OrderSide) → Book S → List (ℕ × PriceLevel)
  items_of s b = items (key_order s) (side_book S s b)

  -- The resting orders of a side, in priority order.
  abbrev pub queue_of : OrderSide → Book S → List Order
  queue_of s b = queue (items_of s b)

  pub record IsBook (b : Book S) : Type 0 where
    pub stored : (s : OrderSide) → IsSide s (key_order s) (items_of s b)
    pub uncrossed :
        (s : OrderSide) → All (λ y. ClearOf s (items_of s b) y.0) (items_of (opposite s) b)
    pub known : (s : OrderSide) → Known s b.cancel_map (queue_of s b)
    pub distinct : (s : OrderSide) → Distinct (queue_of s b)

  -- The contents of the sides do not depend on the other fields.
  pub items-same :
      (s : OrderSide) (b b' : Book S)
      → b'.bids ≡ b.bids
      → b'.asks ≡ b.asks
      → items_of s b' ≡ items_of s b
  items-same buy b b' h g = ap (items negated) h
  items-same sell b b' h g = ap (items ascending) g

  pub items-with_self :
      (s : OrderSide) (b : Book S) (d : S.Table (key_order s))
      → items_of s (with_side S s b d) ≡ items (key_order s) d
  items-with_self buy b d = refl
  items-with_self sell b d = refl

  pub items-with_other :
      (s : OrderSide) (b : Book S) (d : S.Table (key_order (opposite s)))
      → items_of s (with_side S (opposite s) b d) ≡ items_of s b
  items-with_other buy b d = refl
  items-with_other sell b d = refl

  pub other_items-with_side :
      (s : OrderSide) (b : Book S) (d : S.Table (key_order s))
      → items_of (opposite s) (with_side S s b d) ≡ items_of (opposite s) b
  other_items-with_side buy b d = refl
  other_items-with_side sell b d = refl

  pub cancel_map-with_side :
      (s : OrderSide) (b : Book S) (d : S.Table (key_order s))
      → (with_side S s b d).cancel_map ≡ b.cancel_map
  cancel_map-with_side buy b d = refl
  cancel_map-with_side sell b d = refl

  by_side {ℓ} :
      (P : OrderSide → Type ℓ) (s : OrderSide) → P s → P (opposite s) → (t : OrderSide) → P t
  by_side P buy h g buy = h
  by_side P buy h g sell = g
  by_side P sell h g buy = g
  by_side P sell h g sell = h

  turned :
      (s : OrderSide) (b : Book S)
      → Sides s (items_of s b) (items_of (opposite s) b) b.cancel_map
      → All
          (λ y. ClearOf (opposite s) (items_of (opposite s) b) y.0)
          (items_of (opposite (opposite s)) b)
  turned buy b v = All-swap buy (items_of buy b) (items_of sell b) v.clear
  turned sell b v = All-swap sell (items_of sell b) (items_of buy b) v.clear

  pub Sides-IsBook :
      (s : OrderSide) (b : Book S)
      → Sides s (items_of s b) (items_of (opposite s) b) b.cancel_map
      → IsBook b
  Sides-IsBook s b v = record {
    stored = by_side (λ t. IsSide t (key_order t) (items_of t b)) s v.own_stored v.opp_stored;
    uncrossed =
        by_side (λ t. All (λ y. ClearOf t (items_of t b) y.0) (items_of (opposite t) b)) s v.clear
          (turned s b v);
    known = by_side (λ t. Known t b.cancel_map (queue_of t b)) s v.own_known v.opp_known;
    distinct = by_side (λ t. Distinct (queue_of t b)) s v.own_distinct v.opp_distinct;
  }

  pub IsBook-Sides :
      (s : OrderSide) (b : Book S)
      → IsBook b
      → Sides s (items_of s b) (items_of (opposite s) b) b.cancel_map
  IsBook-Sides s b v = record {
    own_stored = v.stored s;
    opp_stored = v.stored (opposite s);
    clear = v.uncrossed s;
    own_known = v.known s;
    opp_known = v.known (opposite s);
    own_distinct = v.distinct s;
    opp_distinct = v.distinct (opposite s);
  }

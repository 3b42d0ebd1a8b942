-- ===== src/Book/Rest.antt =====
-- Resting an order on its own side (`_rest_order` of engine/core/order_book.py): the dictionary stays
-- in price priority, and the order queues behind all that are at its price or better.
use mini_hft_system.Prelude.{
  ℕ, ◌≡◌, refl, sym, ap, ◌∙◌, List, [], ◌∷◌, ◌++◌, Option, none, some, true, false, inl, inr, All,
  All-imp, All-append, arith, Bool-cases, append_assoc, subst, subst₂, if◌then◌else◌, ◌==◌,
}
use mini_hft_system.Types.{OrderSide, Price}
use mini_hft_system.Order.{Order, price_of}
use mini_hft_system.Book.Level.{PriceLevel, level_or_new, add, no_orders}
use mini_hft_system.Book.Prices.{KeyOrder, ascending, negated, before, lookup, upsert}
use mini_hft_system.Book.Sides.{
  IsSide, IsLevel, IsStored, IsSorted, IsResting, Behind, queue, sum_remaining-append,
}

pub before_trans :
    (k : KeyOrder) (a b c : ℕ) → before k a b ≡ true → before k b c ≡ true → before k a c ≡ true
before_trans ascending a b c h g = ground arith
before_trans negated a b c h g = ground arith

before_total :
    (k : KeyOrder) (a b : ℕ) → (b == a) ≡ false → before k a b ≡ false → before k b a ≡ true
before_total ascending a b h g = ground arith
before_total negated a b h g = ground arith

pub before_irrefl : (k : KeyOrder) (a b : ℕ) → a ≡ b → before k a b ≡ false
before_irrefl ascending a b h = ground arith
before_irrefl negated a b h = ground arith

pub before_asym : (k : KeyOrder) (a b : ℕ) → before k a b ≡ true → before k b a ≡ false
before_asym ascending a b h = ground arith
before_asym negated a b h = ground arith

module _ (k : KeyOrder) (p : Price) where
  pub upsert-All {κ} :
      (P : ℕ × PriceLevel → Type κ) (v : PriceLevel) (m : List (ℕ × PriceLevel))
      → P (p, v)
      → All P m
      → All P (upsert k p v m)
  unfolding upsert
  upsert-All P v [] h a = (h, tt)
  upsert-All P v ((j, w) ∷ m) h a = elim (Bool-cases (j == p)) [
    | inl e ↦ rw e (h, a.1)
    | inr e ↦ elim (Bool-cases (before k p j)) [
      | inl b ↦ rw (e, b) (h, a)
      | inr b ↦ rw (e, b) (a.0, upsert-All P v m h a.1)
    ]
  ]

  pub upsert-IsSorted :
      (v : PriceLevel) (m : List (ℕ × PriceLevel)) → IsSorted k m → IsSorted k (upsert k p v m)
  unfolding upsert
  upsert-IsSorted v [] s = (tt, tt)
  upsert-IsSorted v ((j, w) ∷ m) s = elim (Bool-cases (j == p)) [
    | inl e ↦
        let same : j ≡ p = ground arith in rw e (subst (λ i. All (Behind k i) m) same s.0, s.1)
    | inr e ↦ elim (Bool-cases (before k p j)) [
      | inl b ↦
          rw (e, b)
            ((b, All-imp (Behind k j) (Behind k p) m (λ c. before_trans k p j c.0 b) s.0), s)
      | inr b ↦
          rw (e, b)
            (upsert-All (Behind k j) v m (before_total k p j e b) s.0, upsert-IsSorted v m s.1)
    ]
  ]

pub lookup-All {κ} :
    (P : ℕ × PriceLevel → Type κ) (p : Price) (m : List (ℕ × PriceLevel)) (l : PriceLevel)
    → All P m
    → lookup p m ≡ some l
    → P (p, l)
unfolding lookup
lookup-All P p [] l a h = absurd (cc)
lookup-All P p ((j, w) ∷ m) l a h = elim (Bool-cases (j == p)) [
  | inl e ↦
      let there : w ≡ l = ground arith in
      let same : j ≡ p = ground arith in subst₂ (λ i v. P (i, v)) same there a.0
  | inr e ↦ lookup-All P p m l a.1 (ground arith)
]

no_orders-append : (os : List Order) (o : Order) → no_orders (os ++ (o ∷ [])) ≡ false
no_orders-append [] o = refl
no_orders-append (x ∷ os) o = refl

add-IsStored :
    (side : OrderSide) (p : Price) (o : Order) (l : PriceLevel)
    → IsResting side p o
    → IsLevel side p l
    → IsStored side (p, add l o)
add-IsStored side p o l r v = (
  record {
    priced = v.priced;
    total = ground (arith, v.total, sum_remaining-append l.orders (o ∷ []));
    resting = All-append (IsResting side p) l.orders (o ∷ []) v.resting (r, tt);
  },
  no_orders-append l.orders o,
)

module _ (side : OrderSide) (k : KeyOrder) (p : Price) (o : Order) (r : IsResting side p o) where
  found-IsLevel :
      (m : List (ℕ × PriceLevel))
      → IsSide side k m
      → (f : Option PriceLevel) → lookup p m ≡ f
      → IsLevel side p (level_or_new p f)
  found-IsLevel m s none e = record { priced = refl; total = refl; resting = tt }
  found-IsLevel m s (some l) e = (lookup-All (IsStored side) p m l s.levels e).0

  -- One side after an order has been added at its price.
  pub rested-IsSide :
      (m : List (ℕ × PriceLevel))
      → IsSide side k m
      → IsSide side k (upsert k p (add (level_or_new p (lookup p m)) o) m)
  rested-IsSide m s = record {
    sorted = upsert-IsSorted k p _ m s.sorted;
    levels =
        upsert-All k p (IsStored side) _ m
          (add-IsStored side p o _ r (found-IsLevel m s (lookup p m) refl)) s.levels;
  }

-- A price that is better than all levels has no level.
lookup-none :
    (k : KeyOrder) (p : Price) (m : List (ℕ × PriceLevel)) → All (Behind k p) m → lookup p m ≡ none
unfolding lookup
lookup-none k p [] a = refl
lookup-none k p ((j, w) ∷ m) a = ground (arith, before_irrefl k p j, lookup-none k p m a.1)

-- The specification: behind every order at the same price or a better one.
unfoldable pub enqueue : KeyOrder → Price → Order → List Order → List Order
enqueue k p o [] = o ∷ []
enqueue k p o (r ∷ rs) = if before k p (price_of r) then o ∷ r ∷ rs else r ∷ enqueue k p o rs

module _ (side : OrderSide) (k : KeyOrder) (p : Price) (o : Order) where
  enqueue-pass :
      (j : Price) (os rest : List Order)
      → All (IsResting side j) os
      → before k p j ≡ false
      → enqueue k p o (os ++ rest) ≡ os ++ enqueue k p o rest
  unfolding enqueue
  enqueue-pass j [] rest a h = refl
  enqueue-pass j (r ∷ rs) rest a h = ground (arith, enqueue-pass j rs rest a.1 h)

  enqueue-stop :
      (j : Price) (os rest : List Order)
      → All (IsResting side j) os
      → no_orders os ≡ false
      → before k p j ≡ true
      → enqueue k p o (os ++ rest) ≡ o ∷ (os ++ rest)
  unfolding enqueue
  enqueue-stop j [] rest a n h = cc
  enqueue-stop j (r ∷ rs) rest a n h = ground arith

  enqueue-first :
      (m : List (ℕ × PriceLevel))
      → All (IsStored side) m
      → All (Behind k p) m
      → enqueue k p o (queue m) ≡ o ∷ queue m
  unfolding enqueue
  enqueue-first [] a b = refl
  enqueue-first ((j, w) ∷ m) a b = enqueue-stop j w.orders (queue m) a.0.0.resting a.0.1 b.0

  -- The dictionary with its levels keeps the queue in that order.
  pub queue-upsert :
      (m : List (ℕ × PriceLevel)) (f : Option PriceLevel)
      → IsSide side k m
      → lookup p m ≡ f
      → queue (upsert k p (add (level_or_new p f) o) m) ≡ enqueue k p o (queue m)
  unfolding upsert lookup enqueue
  queue-upsert [] f s g = rw (← g)
  queue-upsert ((j, w) ∷ m) f s g =
      let tail : IsSide side k m = record { sorted = s.sorted.1; levels = s.levels.1 } in
      let here = s.levels.0 in
      elim (Bool-cases (j == p)) [
        | inl e ↦
            let same : j ≡ p = ground arith in
            let found : f ≡ some w = ground arith in
            let behind = subst (λ i. All (Behind k i) m) same s.sorted.0 in
            rw (found, e)
              (append_assoc w.orders (o ∷ []) (queue m)
                ∙ sym (
                    enqueue-pass j w.orders (queue m) here.0.resting
                      (before_irrefl k p j (sym same))
                    ∙ ap (◌++◌ w.orders) (enqueue-first m s.levels.1 behind)))
        | inr e ↦
            let later : lookup p m ≡ f = ground arith in
            elim (Bool-cases (before k p j)) [
              | inl b ↦
                  let behind =
                    All-imp (Behind k j) (Behind k p) m (λ c. before_trans k p j c.0 b)
                      s.sorted.0 in
                  let absent : f ≡ none = sym later ∙ lookup-none k p m behind in
                  rw (absent, e, b)
                    (sym (enqueue-stop j w.orders (queue m) here.0.resting here.1 b))
              | inr b ↦
                  rw (e, b)
                    (ap (◌++◌ w.orders) (queue-upsert m f tail later)
                      ∙ sym (enqueue-pass j w.orders (queue m) here.0.resting b))
            ]
      ]

-- ===== src/Book/Withdraw.antt =====
-- Taking an order off its side (`PriceLevel.remove` and the end of `OrderBook.cancel` in
-- engine/core/order_book.py), against deletion from the queue of the side.
use mini_hft_system.Prelude.{
  ℕ, ◌+◌, ◌≡◌, ◌≢◌, ◌⊎◌, refl, sym, ap, ◌∙◌, List, [], ◌∷◌, ◌++◌, none, some, inl, inr, All,
  All-imp₂, All-split, All-append, arith, Bool-cases, Option-cases, subst, if◌then◌else◌, ◌==◌,
}
use mini_hft_system.Types.{OrderSide, OrderId, Price}
use mini_hft_system.Order.{Order, price_of, remaining_quantity}
use mini_hft_system.Book.Level.{PriceLevel, find, delete, remove, is_empty}
use mini_hft_system.Book.Prices.{KeyOrder, lookup, upsert, erase}
use mini_hft_system.Book.Rest.{before_irrefl, before_asym, upsert-All, upsert-IsSorted, lookup-All}
use mini_hft_system.Book.Sides.{
  IsSide, IsLevel, IsStored, IsSorted, IsResting, Behind, queue, sum_remaining,
}

abbrev pub Other : OrderId → Order → Type 0
Other i o = o.order_id ≢ i

module _ (i : OrderId) where
  pub delete-All {κ} : (P : Order → Type κ) (os : List Order) → All P os → All P (delete i os)
  unfolding delete
  delete-All P [] a = tt
  delete-All P (o ∷ os) a = elim (Bool-cases (o.order_id == i)) [
    | inl e ↦ rw e a.1
    | inr e ↦ rw e (a.0, delete-All P os a.1)
  ]

  pub delete-none : (os : List Order) → find i os ≡ none → delete i os ≡ os
  unfolding find delete
  delete-none [] e = refl
  delete-none (o ∷ os) e = ground (arith, delete-none os)

  delete-append : (xs ys : List Order) → All (Other i) xs → delete i (xs ++ ys) ≡ xs ++ delete i ys
  unfolding delete
  delete-append [] ys a = refl
  delete-append (x ∷ xs) ys a = ground (arith, a.0, delete-append xs ys a.1)

  pub find-append : (xs ys : List Order) → All (Other i) xs → find i (xs ++ ys) ≡ find i ys
  unfolding find
  find-append [] ys a = refl
  find-append (x ∷ xs) ys a = ground (arith, a.0, find-append xs ys a.1)

  pub find-none : (xs : List Order) → All (Other i) xs → find i xs ≡ none
  unfolding find
  find-none [] a = refl
  find-none (x ∷ xs) a = ground (arith, a.0, find-none xs a.1)

  -- What stands behind holds no such order.
  pub find-append_left : (xs ys : List Order) → All (Other i) ys → find i (xs ++ ys) ≡ find i xs
  unfolding find
  find-append_left [] ys a = find-none ys a
  find-append_left (x ∷ xs) ys a = ground (arith, find-append_left xs ys a)

  delete-append_left :
      (xs ys : List Order) → All (Other i) ys → delete i (xs ++ ys) ≡ delete i xs ++ ys
  unfolding delete
  delete-append_left [] ys a = delete-none ys (find-none ys a)
  delete-append_left (x ∷ xs) ys a = ground (arith, delete-append_left xs ys a)

  sum_remaining-delete :
      (os : List Order) (o : Order)
      → find i os ≡ some o
      → sum_remaining os ≡ remaining_quantity o + sum_remaining (delete i os)
  unfolding find delete
  sum_remaining-delete [] o e = absurd (cc)
  sum_remaining-delete (x ∷ os) o e = ground (arith, sum_remaining-delete os o)

  pub orders-remove : (l : PriceLevel) → (remove l i).1.orders ≡ delete i l.orders
  unfolding remove
  orders-remove l = ground (arith, delete-none l.orders)

  pub remove-IsLevel :
      (side : OrderSide) (p : Price) (l : PriceLevel)
      → IsLevel side p l
      → IsLevel side p (remove l i).1
  unfolding remove
  remove-IsLevel side p l v = elim (Option-cases (find i l.orders)) [
    | inl e ↦ rw (e, remove) v
    | inr (o, e) ↦
        rw (e, remove)
          (record {
            priced = v.priced;
            total = ground (arith, v.total, sum_remaining-delete l.orders o e);
            resting = delete-All (IsResting side p) l.orders v.resting;
          })
  ]

  pub found-remove : (l : PriceLevel) → (remove l i).0 ≡ find i l.orders
  unfolding remove
  found-remove l = ground (arith)

-- An order with the id stands at the price, if at all.
abbrev pub Only : OrderId → Price → Order → Type 0
Only i p o = Other i o ⊎ (price_of o ≡ p)

pub elsewhere :
    (i : OrderId) (side : OrderSide) (p j : Price) (os : List Order)
    → j ≢ p
    → All (IsResting side j) os
    → All (Only i p) os
    → All (Other i) os
elsewhere i side p j os h a b = All-imp₂ (IsResting side j) (Only i p) (Other i) os at_j a b
  where
    at_j : (o : Order) → IsResting side j o → Only i p o → Other i o
    at_j o r (inl d) = d
    at_j o r (inr e) = absurd (h (ground arith))

module _ (i : OrderId) (side : OrderSide) (k : KeyOrder) (p : Price) where
  Behind-elsewhere :
      (m : List (ℕ × PriceLevel))
      → All (Behind k p) m
      → All (IsStored side) m
      → All (Only i p) (queue m)
      → All (Other i) (queue m)
  Behind-elsewhere [] b s a = tt
  Behind-elsewhere ((j, w) ∷ m) b s a =
      let (here, later) = All-split (Only i p) w.orders (queue m) a in
      let apart : j ≢ p = λ e. ground (arith, before_irrefl k p j (sym e), b.0) in
      All-append (Other i) w.orders (queue m)
        (elsewhere i side p j w.orders apart s.0.0.resting here) (Behind-elsewhere m b.1 s.1 later)

  -- The side after the level of the price has become `l`.
  abbrev pub replaced : PriceLevel → List (ℕ × PriceLevel) → List (ℕ × PriceLevel)
  replaced l m = if is_empty l then erase p m else upsert k p l m

  pub erase-All {κ} :
      (P : ℕ × PriceLevel → Type κ) (m : List (ℕ × PriceLevel)) → All P m → All P (erase p m)
  unfolding erase
  erase-All P [] a = tt
  erase-All P ((j, w) ∷ m) a = elim (Bool-cases (j == p)) [
    | inl e ↦ rw e a.1
    | inr e ↦ rw e (a.0, erase-All P m a.1)
  ]

  erase-IsSorted : (m : List (ℕ × PriceLevel)) → IsSorted k m → IsSorted k (erase p m)
  unfolding erase
  erase-IsSorted [] s = tt
  erase-IsSorted ((j, w) ∷ m) s = elim (Bool-cases (j == p)) [
    | inl e ↦ rw e s.1
    | inr e ↦ rw e (erase-All (Behind k j) m s.0, erase-IsSorted m s.1)
  ]

  pub replaced-IsSide :
      (l : PriceLevel) (m : List (ℕ × PriceLevel))
      → IsLevel side p l
      → IsSide side k m
      → IsSide side k (replaced l m)
  replaced-IsSide l m v s = elim (Bool-cases (is_empty l)) [
    | inl e ↦ rw e (record {
      sorted = erase-IsSorted m s.sorted;
      levels = erase-All (IsStored side) m s.levels;
    })
    | inr e ↦ rw e (record {
      sorted = upsert-IsSorted k p l m s.sorted;
      levels = upsert-All k p (IsStored side) l m (v, e) s.levels;
    })
  ]

  pub find-queue :
      (m : List (ℕ × PriceLevel)) (l : PriceLevel)
      → IsSide side k m
      → All (Only i p) (queue m)
      → lookup p m ≡ some l
      → find i (queue m) ≡ find i l.orders
  unfolding lookup
  find-queue [] l s a g = absurd (cc)
  find-queue ((j, w) ∷ m) l s a g =
      let (here, later) = All-split (Only i p) w.orders (queue m) a in
      elim (Bool-cases (j == p)) [
        | inl e ↦
            let same : j ≡ p = ground arith in
            let it : w ≡ l = ground arith in
            let behind = subst (λ x. All (Behind k x) m) same s.sorted.0 in
            find-append_left i w.orders (queue m) (Behind-elsewhere m behind s.levels.1 later)
            ∙ ap (λ (x : PriceLevel). find i x.orders) it
        | inr e ↦
            find-append i w.orders (queue m)
              (elsewhere i side p j w.orders (ground arith) s.levels.0.0.resting here)
            ∙ find-queue m l (record { sorted = s.sorted.1; levels = s.levels.1 }) later
                (ground arith)
      ]

  pub queue-replaced :
      (m : List (ℕ × PriceLevel)) (l l' : PriceLevel)
      → IsSide side k m
      → All (Only i p) (queue m)
      → lookup p m ≡ some l
      → l'.orders ≡ delete i l.orders
      → queue (replaced l' m) ≡ delete i (queue m)
  unfolding lookup erase upsert
  queue-replaced [] l l' s a g d = absurd (cc)
  queue-replaced ((j, w) ∷ m) l l' s a g d =
      let (here, later) = All-split (Only i p) w.orders (queue m) a in
      elim (Bool-cases (j == p)) [
        | inl e ↦
            let same : j ≡ p = ground arith in
            let it : w ≡ l = ground arith in
            let behind = subst (λ x. All (Behind k x) m) same s.sorted.0 in
            ground (
              arith,
              delete-append_left i w.orders (queue m) (Behind-elsewhere m behind s.levels.1 later),
              d,
              it,
            )
        | inr e ↦
            let found : lookup p m ≡ some l = ground arith in
            let ahead = lookup-All (Behind k j) p m l s.sorted.0 found in
            ground (
              arith,
              delete-append i w.orders (queue m)
                  (elsewhere i side p j w.orders (ground arith) s.levels.0.0.resting here),
              queue-replaced m l l' (record { sorted = s.sorted.1; levels = s.levels.1 }) later
                  found d,
              before_asym k j p ahead,
            )
      ]

-- ===== src/Book/Match/Refine.antt =====
-- The outer loop of `submit` against the sweep.
use mini_hft_system.Prelude.{
  ℕ, suc, ◌+◌, ◌<◌, ◌≡◌, refl, ◌⊎◌, List, [], ◌∷◌, ◌++◌, some, min, Bool, true, false, length,
  arith, All, subst, if◌then◌else◌, append-nil, inr,
}
use mini_hft_system.Prelude.Loops.{while_inv}
use mini_hft_system.Types.{OrderSide, Price, Symbol}
use mini_hft_system.Order.{Order, remaining_quantity, sum_quantity}
use mini_hft_system.Book.Level.{PriceLevel, is_empty, no_orders}
use mini_hft_system.Book.Prices.{SortedDict, KeyOrder, upsert, erase}
use mini_hft_system.Book.Fill.{Filling, Readings, fill_level, fill_test}
use mini_hft_system.Book.Fill.Refine.{IsFilledFrom, Fills, fill_level-Fills}
use mini_hft_system.Book.Match.{Matching, crosses, match_test, match_one, match_all, enter, leave}
use mini_hft_system.Book.Sides.{IsSide, IsLevel, IsResting, queue}
use mini_hft_system.Book.Sweep.{Execution, sweep, leftover, executions}

-- Nothing is executed.
abbrev pub Stops : (Price → Bool) → ℕ → List Order → Type 0
Stops ok n q = (sweep ok n q ≡ []) × (leftover ok n q ≡ q)

-- The best level, if there is one, is not accepted.
abbrev pub Blocks : (Price → Bool) → List (ℕ × PriceLevel) → Type 0
Blocks ok [] = Unit {0}
Blocks ok (b ∷ m) = ok b.0 ≡ false

blocked :
    (side : OrderSide) (ok : Price → Bool) (n : ℕ) (p : Price) (os behind : List Order)
    → All (IsResting side p) os
    → no_orders os ≡ false
    → (n ≡ 0) ⊎ (ok p ≡ false)
    → Stops ok n (os ++ behind)
unfolding sweep leftover
blocked side ok n p [] behind a e c = cc
blocked side ok n p (o ∷ os) behind a e c = ground arith

-- The opposite side after a round at its best level.
module _ (S : SortedDict PriceLevel) (k : KeyOrder) (env : Readings) (sym : Symbol)
    (m : Matching S k) (best : Price) (l : PriceLevel) (rest : List (ℕ × PriceLevel)) where
  open S use {items, items-set, items-del}

  pub items-leave :
      (s : Filling)
      → items k m.opposite ≡ (best, l) ∷ rest
      → items k (leave S k env sym m best s).opposite
        ≡ (if is_empty s.level then rest else (best, s.level) ∷ rest)
  unfolding leave upsert erase
  items-leave s e =
      ground (arith, items-del k best m.opposite, items-set k best s.level m.opposite, e)

  pub queue-leave :
      (s : Filling)
      → items k m.opposite ≡ (best, l) ∷ rest
      → queue (items k (leave S k env sym m best s).opposite) ≡ s.level.orders ++ queue rest
  queue-leave s e = rw (items-leave s e) (ground (arith))

module _ (S : SortedDict PriceLevel) (k : KeyOrder) (env : Readings) (sym : Symbol)
    (side : OrderSide) (es : List Execution) (left : List Order) (o : Order)
    (P : Price → Type 0) where
  open S use {items, peekitem, peekitem_lem, items-set, items-del}

  abbrev accepts : Price → Bool
  accepts = crosses o.side o.price

  pub record Matches (m : Matching S k) : Type 0 where
    pub made :
        executions m.trades
          ++ sweep accepts (remaining_quantity m.order) (queue (items k m.opposite))
        ≡ es
    pub leaves : leftover accepts (remaining_quantity m.order) (queue (items k m.opposite)) ≡ left
    pub stored : IsSide side k (items k m.opposite)
    pub order : IsFilledFrom o m.order
    pub counted : m.order.filled_quantity ≡ o.filled_quantity + sum_quantity m.trades
    pub kept : All (λ b. P b.0) (items k m.opposite)

  abbrev match_measure : Matching S k → ℕ
  match_measure m = length (items k m.opposite) + min 1 (remaining_quantity m.order)

  module _ (m : Matching S k) (best : Price) (l : PriceLevel) (rest : List (ℕ × PriceLevel))
      (e : items k m.opposite ≡ (best, l) ∷ rest) (f : Matches m) (h : accepts best ≡ true) where
    stored : IsSide side k ((best, l) ∷ rest)
    stored = subst (IsSide side k) e f.stored

    entered : Fills env sym side best accepts (queue rest) es left o (enter S k env sym m l)
    unfolding enter
    entered = record {
      crossing = h;
      made =
          subst
            (λ q. executions m.trades ++ sweep accepts (remaining_quantity m.order) (queue q) ≡ es)
            e f.made;
      leaves =
          subst (λ q. leftover accepts (remaining_quantity m.order) (queue q) ≡ left) e f.leaves;
      level = stored.levels.0.0;
      order = f.order;
      counted = f.counted;
    }

    -- The loop on the best level keeps the invariant of that level, and ends by its test.
    level-Fills :
        Fills env sym side best accepts
          (queue rest)
          es
          left
          o
          (fill_level env sym (enter S k env sym m l))
        × (fill_test (fill_level env sym (enter S k env sym m l)) ≡ false)
    level-Fills = fill_level-Fills env sym side best accepts (queue rest) es left o _ entered

    leave-stored :
        (s : Filling)
        → IsLevel side best s.level
        → IsSide side k (items k (leave S k env sym m best s).opposite)
    leave-stored s v = rw (items-leave S k env sym m best l rest s e) (ground (arith, stored))

    leave-kept : (s : Filling) → All (λ b. P b.0) (items k (leave S k env sym m best s).opposite)
    leave-kept s =
        rw (items-leave S k env sym m best l rest s e)
          (ground (arith, subst (All (λ b. P b.0)) e f.kept))

    leave-Matches :
        (s : Filling)
        → Fills env sym side best accepts (queue rest) es left o s
        → Matches (leave S k env sym m best s)
    unfolding leave
    leave-Matches s v = record {
      made = rw (queue-leave S k env sym m best l rest s e) v.made;
      leaves = rw (queue-leave S k env sym m best l rest s e) v.leaves;
      stored = leave-stored s v.level;
      order = v.order;
      counted = v.counted;
      kept = leave-kept s;
    }

    leave-measure :
        (s : Filling)
        → fill_test s ≡ false
        → 0 < remaining_quantity m.order
        → match_measure (leave S k env sym m best s) < match_measure m
    unfolding leave
    leave-measure s t g = ground (arith, items-leave S k env sym m best l rest s e, e)

  module _ (m : Matching S k) (f : Matches m) where
    accepts-order : (p : Price) → crosses m.order.side m.order.price p ≡ accepts p
    accepts-order p = rw f.order.same refl

    match_one_cases :
        (q : List (ℕ × PriceLevel))
        → items k m.opposite ≡ q
        → match_test S k m ≡ true
        → Matches (match_one S k env sym m)
          × (match_measure (match_one S k env sym m) < match_measure m)
    unfolding match_test match_one
    match_one_cases [] e t = ground (arith, peekitem_lem k m.opposite, e)
    match_one_cases ((best, l) ∷ rest) e t =
        let first : peekitem k m.opposite ≡ some (best, l) =
          ground (arith, peekitem_lem k m.opposite, e) in
        let some_left : 0 < remaining_quantity m.order = ground (arith) in
        let crossing : accepts best ≡ true = ground (arith, first, accepts-order best) in
        let loop = level-Fills m best l rest e f crossing in
        rw (first, match_one)
          (
            leave-Matches m best l rest e f crossing (fill_level env sym (enter S k env sym m l))
                loop.0,
            leave-measure m best l rest e f crossing (fill_level env sym (enter S k env sym m l))
                loop.1 some_left,
          )

    -- When the loop ends by its test, the sweep has nothing left to do.
    match_done :
        (q : List (ℕ × PriceLevel))
        → items k m.opposite ≡ q
        → match_test S k m ≡ false
        → Stops accepts (remaining_quantity m.order) (queue q)
    unfolding match_test sweep leftover
    match_done [] e t = (refl, refl)
    match_done ((best, l) ∷ rest) e t =
        let first : peekitem k m.opposite ≡ some (best, l) =
          ground (arith, peekitem_lem k m.opposite, e) in
        let here = subst (IsSide side k) e f.stored in
        blocked side accepts (remaining_quantity m.order) best l.orders (queue rest)
          here.levels.0.0.resting here.levels.0.1 (ground (arith, first, accepts-order best))

    match_stop :
        (q : List (ℕ × PriceLevel))
        → items k m.opposite ≡ q
        → match_test S k m ≡ false
        → (remaining_quantity m.order ≡ 0) ⊎ Blocks accepts q
    unfolding match_test
    match_stop [] e t = inr tt
    match_stop ((best, l) ∷ rest) e t =
        let first : peekitem k m.opposite ≡ some (best, l) =
          ground (arith, peekitem_lem k m.opposite, e) in
        ground (arith, first, accepts-order best)

  match_one-Matches :
      (m : Matching S k)
      → Matches m
      → match_test S k m ≡ true
      → Matches (match_one S k env sym m)
        × (match_measure (match_one S k env sym m) < match_measure m)
  match_one-Matches m f t = match_one_cases m f (items k m.opposite) refl t

  match_all-Matches :
      (m : Matching S k)
      → Matches m
      → Matches (match_all S k env sym m) × (match_test S k (match_all S k env sym m) ≡ false)
  unfolding match_all
  match_all-Matches m f =
      while_inv Matches match_measure (match_test S k) (match_one S k env sym) match_one-Matches
        (suc (suc (length (items k m.opposite)))) m (omega arith) f

  -- What holds when the loop is over.
  pub record Matched (t : Matching S k) : Type 0 where
    pub made : executions t.trades ≡ es
    pub leaves : queue (items k t.opposite) ≡ left
    pub stored : IsSide side k (items k t.opposite)
    pub order : IsFilledFrom o t.order
    pub counted : t.order.filled_quantity ≡ o.filled_quantity + sum_quantity t.trades
    pub kept : All (λ b. P b.0) (items k t.opposite)
    pub stop : (remaining_quantity t.order ≡ 0) ⊎ Blocks accepts (items k t.opposite)

  pub match_all-Matched : (m : Matching S k) → Matches m → Matched (match_all S k env sym m)
  match_all-Matched m f =
      let t = match_all S k env sym m in
      let (g, stop) = match_all-Matches m f in
      let halt = match_done t g (items k t.opposite) refl stop in
      record {
        made = ground (arith, g.made, halt, append-nil (executions t.trades));
        leaves = ground (arith, g.leaves, halt);
        stored = g.stored;
        order = g.order;
        counted = g.counted;
        kept = g.kept;
        stop = match_stop t g (items k t.opposite) refl stop;
      }

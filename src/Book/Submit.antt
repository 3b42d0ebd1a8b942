-- ===== src/Book/Submit.antt =====
-- `OrderBook.submit` (engine/core/order_book.py): matching against the specification, and the book
-- that it leaves before the residual is treated.
use mini_hft_system.Prelude.{
  ℕ, ◌+◌, ◌<◌, ◌≤◌, ◌≡◌, ◌⊎◌, refl, List, some, none, true, false, arith, subst, subst₂, sym, Bool,
  ◌∙◌, ap, inl, inr,
}
use mathlib.Core.Path.{subst₃}
use mini_hft_system.Prelude.Dict
use mini_hft_system.Prelude.Tests.{nat_eq}
use mini_hft_system.Types.{OrderId, Price}
use mini_hft_system.Order.{Order, remaining_quantity, is_limit}
use mini_hft_system.Book.{Book, matched, start, crossed, settle, residual, has_residual}
use mini_hft_system.Book.Fill.{Readings}
use mini_hft_system.Book.Fill.Refine.{IsFilledFrom}
use mini_hft_system.Book.Level.{PriceLevel}
use mini_hft_system.Book.Match.{Matching, crosses}
use mini_hft_system.Book.Match.Refine.{Matched, Blocks, match_all-Matched}
use mini_hft_system.Book.Match.Index.{Indexed, match_all-Indexed}
use mini_hft_system.Book.Prices.{SortedDict}
use mini_hft_system.Book.Residual.{CanRest, Treats, residual-Treats}
use mini_hft_system.Book.Sides.{key_order, opposite}
use mini_hft_system.Book.State.{
  IsBook, Sides, ClearOf, items_of, queue_of, opposite-opposite, Sides-IsBook, items-same,
  items-with_self, items-with_other, cancel_map-with_side,
}
use mini_hft_system.Book.Index.{Known}
use mini_hft_system.Book.Sweep.{Execution, sweep, leftover}

stuck :
    (n : ℕ) (ok : Price → Bool) (m : List (ℕ × PriceLevel))
    → (n ≡ 0) ⊎ Blocks ok m
    → 0 < n
    → Blocks ok m
stuck n ok m (inl z) g = absurd (omega arith)
stuck n ok m (inr x) g = x

-- What the engine has checked of an order before the book sees it.
pub record IsSubmittable (S : SortedDict PriceLevel) (b : Book S) (o : Order) : Type 0 where
  pub within : o.filled_quantity ≤ o.quantity
  pub fresh : Dict.get o.order_id b.cancel_map ≡ none
  pub priced : (is_limit o ≡ false) ⊎ ((p : Price) × (o.price ≡ some p))

module _ (S : SortedDict PriceLevel) (env : Readings) (b : Book S) (o : Order) where
  abbrev pub expected : List Execution
  expected = sweep (crosses o.side o.price) (remaining_quantity o) (queue_of S (opposite o.side) b)

  abbrev pub expected_queue : List Order
  expected_queue =
      leftover (crosses o.side o.price) (remaining_quantity o) (queue_of S (opposite o.side) b)

  abbrev pub IsMatched : Matching S (key_order (opposite o.side)) → Type 0
  IsMatched =
      Matched S (key_order (opposite o.side)) env b.symbol (opposite o.side) expected expected_queue
        o (ClearOf o.side (items_of S o.side b))

  pub matched-IsMatched :
      IsBook S b → o.filled_quantity ≤ o.quantity → IsMatched (matched S env b o)
  unfolding matched
  matched-IsMatched v h =
      match_all-Matched S (key_order (opposite o.side)) env b.symbol (opposite o.side) expected
        expected_queue o (ClearOf o.side (items_of S o.side b)) (start S b o)
        (record {
          made = refl;
          leaves = refl;
          stored = v.stored (opposite o.side);
          order = record { same = refl; more = omega arith; within = h };
          counted = omega arith;
          kept = v.uncrossed o.side;
        })

  pub matched-Indexed :
      (i : OrderId)
      → IsBook S b
      → Dict.get i b.cancel_map ≡ none
      → Indexed S
          (key_order (opposite o.side))
          env
          b.symbol
          (opposite o.side)
          (queue_of S o.side b)
          i
          (matched S env b o)
  unfolding matched
  matched-Indexed i v h =
      match_all-Indexed S (key_order (opposite o.side)) env b.symbol (opposite o.side)
        (queue_of S o.side b) i (start S b o)
        (record {
          theirs = v.known (opposite o.side);
          ours =
              subst (λ t. Known t b.cancel_map (queue_of S o.side b))
                (sym (opposite-opposite o.side)) (v.known o.side);
          distinct = v.distinct (opposite o.side);
          fresh = h;
        })

  -- What matching leaves of the two sides.
  pub matched-Sides :
      IsBook S b
      → IsSubmittable S b o
      → Sides o.side
          (items_of S o.side b)
          (S.items (key_order (opposite o.side)) (matched S env b o).opposite)
          (matched S env b o).cancel_map
  matched-Sides v w =
      let t = matched-IsMatched v w.within in
      let x = matched-Indexed o.order_id v w.fresh in
      record {
        own_stored = v.stored o.side;
        opp_stored = t.stored;
        clear = t.kept;
        own_known =
            subst (λ r. Known r (matched S env b o).cancel_map (queue_of S o.side b))
              (opposite-opposite o.side) x.ours;
        opp_known = x.theirs;
        own_distinct = v.distinct o.side;
        opp_distinct = x.distinct;
      }

  abbrev pub settled : Order
  settled = settle S (matched S env b o).order (matched S env b o).trades env.processed_at

  -- What settling keeps of the incoming order.
  settled_same :
      IsFilledFrom o (matched S env b o).order
      → (settled.side ≡ o.side)
        × (settled.price ≡ o.price)
        × (settled.order_id ≡ o.order_id)
        × (settled.order_type ≡ o.order_type)
        × (settled.time_in_force ≡ o.time_in_force)
        × (settled.quantity ≡ o.quantity)
        × (settled.filled_quantity ≡ (matched S env b o).order.filled_quantity)
  unfolding settle
  settled_same f = ground arith

  abbrev pub after : Book S
  after = crossed S b o (matched S env b o)

  pub own_items-after : items_of S o.side after ≡ items_of S o.side b
  own_items-after =
      let b' : Book S = record b {
        sequence = b.sequence + 1;
        cancel_map = (matched S env b o).cancel_map;
      } in
      items-with_other S o.side b' (matched S env b o).opposite ∙ items-same S o.side b b' refl refl

  pub opp_items-after :
      items_of S (opposite o.side) after
      ≡ S.items (key_order (opposite o.side)) (matched S env b o).opposite
  opp_items-after = items-with_self S (opposite o.side) _ (matched S env b o).opposite

  pub cancel_map-after : after.cancel_map ≡ (matched S env b o).cancel_map
  cancel_map-after = cancel_map-with_side S (opposite o.side) _ (matched S env b o).opposite

  module _ (v : IsBook S b) (w : IsSubmittable S b o) where
    after-IsBook : IsBook S after
    after-IsBook = Sides-IsBook S o.side after (
        subst₃ (Sides o.side) (sym own_items-after) (sym opp_items-after) (sym cancel_map-after)
          (matched-Sides v w))

    pub settled_facts :
        (settled.side ≡ o.side)
        × (settled.price ≡ o.price)
        × (settled.order_id ≡ o.order_id)
        × (settled.order_type ≡ o.order_type)
        × (settled.time_in_force ≡ o.time_in_force)
        × (settled.quantity ≡ o.quantity)
        × (settled.filled_quantity ≡ (matched S env b o).order.filled_quantity)
    settled_facts = settled_same (matched-IsMatched v w.within).order

    -- A residual has met no more price that it accepts.
    settled-CanRest :
        (p : Price)
        → o.price ≡ some p
        → 0 < remaining_quantity settled
        → CanRest (items_of S (opposite settled.side) after) after.cancel_map p settled
    settled-CanRest p e h =
        let f = settled_facts in
        let t = matched-IsMatched v w.within in
        let open_end =
          stuck _ (crosses o.side o.price) _ t.stop
            (omega (arith, ap (λ (x : Order). x.quantity) t.order.same)) in
        record {
          priced = f.1 ∙ e;
          unfilled = omega arith;
          blocked =
              subst₂ (λ s q. Blocks (crosses s q) (items_of S (opposite s) after)) (sym f.0) e
                (rw opp_items-after open_end);
          fresh =
              subst₂ (λ i cm. Dict.get i cm ≡ none) (sym f.2) (sym cancel_map-after)
                (matched-Indexed o.order_id v w.fresh).fresh;
        }

    -- Only an order with a limit has a residual to treat.
    settled_priced :
        has_residual S settled ≡ true
        → (p : Price) × CanRest
            (items_of S (opposite settled.side) after)
            after.cancel_map
            p
            settled
    settled_priced h = has_price w.priced
      where
        has_price :
            (is_limit o ≡ false) ⊎ ((p : Price) × (o.price ≡ some p))
            → (p : Price) × CanRest
                (items_of S (opposite settled.side) after)
                after.cancel_map
                p
                settled
        has_price (inl m) = absurd (let c : true ≡ false = ground (arith, settled_facts) in cc)
        has_price (inr (p, e)) = (p, settled-CanRest p e (ground arith))

    pub settled-Treats :
        Treats S after settled
          (has_residual S settled)
          (residual S after settled (has_residual S settled))
    settled-Treats =
        residual-Treats S after settled after-IsBook (has_residual S settled) settled_priced

-- ===== src/Book/Residual.antt =====
-- `_rest_order` and the policy for the residual at the end of `OrderBook.submit`
-- (engine/core/order_book.py).
use mini_hft_system.Prelude.{
  ℕ, ◌<◌, ◌≡◌, ◌∙◌, refl, sym, ap, List, some, none, Bool, true, false, inl, inr, All, All-imp₂,
  arith, subst, subst₂, Bool-cases, if◌then◌else◌, ◌==◌, ◌&&◌,
}
use mathlib.Core.Path.{subst₃}
use mini_hft_system.Prelude.Dict
use mini_hft_system.Prelude.Tests.{nat_eq}
use mini_hft_system.Types.{OrderSide, Price, TimeInForce, gtc, ioc, fok, gtd}
use mini_hft_system.Order.{Order, remaining_quantity, price_of}
use mini_hft_system.Book.{
  Book, rest_order, rest_at, rest_priced, opened, residual, apply_tif, withdraw, side_book,
  level_at,
}
use mini_hft_system.Book.Fill.{CancelMap}
use mini_hft_system.Book.Index.{
  Known, KnownAt, Known-put, Known-fresh, enqueue-All, enqueue-Distinct,
}
use mini_hft_system.Book.Level.{PriceLevel, add, level_or_new}
use mini_hft_system.Book.Match.{crosses}
use mini_hft_system.Book.Match.Refine.{Blocks}
use mini_hft_system.Book.Prices.{SortedDict, lookup, upsert}
use mini_hft_system.Book.Rest.{enqueue, queue-upsert, rested-IsSide, upsert-All}
use mini_hft_system.Book.Sides.{key_order, opposite, queue}
use mini_hft_system.Book.State.{
  IsBook, Sides, Sides-IsBook, IsBook-Sides, Clear, ClearOf, Blocks-Clear, items_of, queue_of,
  items-same, items-with_self, other_items-with_side, cancel_map-with_side,
}
use mini_hft_system.Book.Withdraw.{Other}

-- A residual that may rest: it has a price, which the other side does not reach.
pub record CanRest (opp : List (ℕ × PriceLevel)) (cm : CancelMap) (p : Price) (o : Order)
    : Type 0 where
  pub priced : o.price ≡ some p
  pub unfilled : o.filled_quantity < o.quantity
  pub blocked : Blocks (crosses o.side (some p)) opp
  pub fresh : Dict.get o.order_id cm ≡ none

module _ (own opp : List (ℕ × PriceLevel)) (cm : CancelMap) (p : Price) (o : Order)
    (c : CanRest opp cm p o) (v : Sides o.side own opp cm) where
  abbrev rested : List (ℕ × PriceLevel)
  rested = upsert (key_order o.side) p (add (level_or_new p (lookup p own)) o) own

  pub queue-rested : queue rested ≡ enqueue (key_order o.side) p o (queue own)
  queue-rested = queue-upsert o.side (key_order o.side) p o own (lookup p own) v.own_stored refl

  rested-clear : All (λ y. ClearOf o.side rested y.0) opp
  rested-clear =
      All-imp₂ (λ y. Clear o.side p y.0) (λ y. ClearOf o.side own y.0)
        (λ y. ClearOf o.side rested y.0) opp
        (λ y.
          upsert-All (key_order o.side) p (λ x. Clear o.side x.0 y.0)
            (add (level_or_new p (lookup p own)) o) own)
        (Blocks-Clear o.side p opp v.opp_stored.sorted c.blocked) v.clear

  own-Other : All (Other o.order_id) (queue own)
  own-Other = Known-fresh o.side o.order_id cm (queue own) c.fresh v.own_known

  here : KnownAt o.side (Dict.put o.order_id (o.side, p) cm) o
  here = Dict.get-put_self o.order_id (o.side, p) cm ∙ rw c.priced refl

  pub rested-Sides : Sides o.side rested opp (Dict.put o.order_id (o.side, p) cm)
  rested-Sides = record {
    own_stored =
        rested-IsSide o.side (key_order o.side) p o
          (record { at_price = c.priced; on_side = refl; unfilled = c.unfilled }) own v.own_stored;
    opp_stored = v.opp_stored;
    clear = rested-clear;
    own_known = subst (Known o.side (Dict.put o.order_id (o.side, p) cm)) (sym queue-rested) (
        enqueue-All (key_order o.side) p o (KnownAt o.side (Dict.put o.order_id (o.side, p) cm))
          (queue own) here
          (Known-put o.side o.order_id (o.side, p) cm (queue own) own-Other v.own_known));
    opp_known =
        Known-put (opposite o.side) o.order_id (o.side, p) cm (queue opp)
          (Known-fresh (opposite o.side) o.order_id cm (queue opp) c.fresh v.opp_known) v.opp_known;
    own_distinct =
        rw queue-rested
          (enqueue-Distinct (key_order o.side) p o (queue own) own-Other v.own_distinct);
    opp_distinct = v.opp_distinct;
  }

module _ (S : SortedDict PriceLevel) (b : Book S) where
  -- The contents of the own side after `rest_at`.
  items-rest_at :
      (o : Order) (p : Price)
      → items_of S o.side (rest_at S b o p)
        ≡ upsert
            (key_order o.side)
            p
            (add (level_or_new p (lookup p (items_of S o.side b))) o)
            (items_of S o.side b)
  items-rest_at o p =
      let k = key_order o.side in
      let d = side_book S o.side b in
      items-with_self S o.side
        (record b { cancel_map = Dict.put o.order_id (o.side, p) b.cancel_map })
        (S.set k p (add (level_at S o.side b p) o) d)
      ∙ S.items-set k p (add (level_at S o.side b p) o) d
      ∙ ap (λ f. upsert k p (add (level_or_new p f) o) (S.items k d)) (S.get_lem k p d)

  other_items-rest_at :
      (o : Order) (p : Price)
      → items_of S (opposite o.side) (rest_at S b o p) ≡ items_of S (opposite o.side) b
  other_items-rest_at o p =
      let b' : Book S = record b { cancel_map = Dict.put o.order_id (o.side, p) b.cancel_map } in
      other_items-with_side S o.side b'
        (S.set (key_order o.side) p (add (level_at S o.side b p) o) (side_book S o.side b))
      ∙ items-same S (opposite o.side) b b' refl refl

  pub cancel_map-rest_at :
      (o : Order) (p : Price)
      → (rest_at S b o p).cancel_map ≡ Dict.put o.order_id (o.side, p) b.cancel_map
  cancel_map-rest_at o p = cancel_map-with_side S o.side _ _

  module _ (o : Order) (p : Price) (c : CanRest (items_of S (opposite o.side) b) b.cancel_map p o)
      (v : IsBook S b) where
    rest_at-IsBook : IsBook S (rest_at S b o p)
    rest_at-IsBook =
        let t =
          rested-Sides (items_of S o.side b) (items_of S (opposite o.side) b) b.cancel_map p o c
            (IsBook-Sides S o.side b v) in
        Sides-IsBook S o.side (rest_at S b o p) (
          subst₃ (Sides o.side) (sym (items-rest_at o p)) (sym (other_items-rest_at o p))
            (sym (cancel_map-rest_at o p)) t)

    queue-rest_at :
        queue_of S o.side (rest_at S b o p) ≡ enqueue (key_order o.side) p o (queue_of S o.side b)
    queue-rest_at =
        ap queue (items-rest_at o p)
        ∙ queue-rested (items_of S o.side b) (items_of S (opposite o.side) b) b.cancel_map p o c
            (IsBook-Sides S o.side b v)

-- What resting does: the invariant is kept, the order as it rests queues up on its own side, and the
-- other side stays.
pub record Rests (S : SortedDict PriceLevel) (b : Book S) (p : Price) (side : OrderSide)
    (r : Book S × Order) : Type 0 where
  pub book : IsBook S r.0
  pub queued : queue_of S side r.0 ≡ enqueue (key_order side) p r.1 (queue_of S side b)
  pub other : items_of S (opposite side) r.0 ≡ items_of S (opposite side) b

module _ (S : SortedDict PriceLevel) (b : Book S) (o : Order) (p : Price) where
  pub opened_same :
      ((opened o).side ≡ o.side)
      × ((opened o).price ≡ o.price)
      × ((opened o).order_id ≡ o.order_id)
      × (remaining_quantity (opened o) ≡ remaining_quantity o)
  opened_same = ground arith

  opened-CanRest :
      CanRest (items_of S (opposite o.side) b) b.cancel_map p o
      → CanRest (items_of S (opposite (opened o).side) b) b.cancel_map p (opened o)
  opened-CanRest c = elim (Bool-cases (o.filled_quantity == 0)) [
    | inl e ↦
        rw e (record {
          priced = c.priced;
          unfilled = c.unfilled;
          blocked = c.blocked;
          fresh = c.fresh;
        })
    | inr e ↦ rw e c
  ]

  pub rest_order-Rests :
      IsBook S b
      → CanRest (items_of S (opposite o.side) b) b.cancel_map p o
      → Rests S b p o.side (rest_order S b o)
  unfolding rest_order
  rest_order-Rests v c =
      let c' = opened-CanRest c in
      let done : Rests S b p (opened o).side (rest_at S b (opened o) p, opened o) = record {
        book = rest_at-IsBook S b (opened o) p c' v;
        queued = queue-rest_at S b (opened o) p c' v;
        other = other_items-rest_at S b (opened o) p;
      } in
      subst₂ (λ s r. Rests S b p s r) opened_same.0 (ap (rest_priced S b o) (sym c.priced)) done

-- The time in force lets a residual rest.
abbrev pub keeps : TimeInForce → Bool
keeps gtc = true
keeps gtd = true
keeps ioc = false
keeps fok = false

-- What the end of `submit` makes of the residual of `o`, by the test that there is one.
pub record Treats (S : SortedDict PriceLevel) (b : Book S) (o : Order) (test : Bool)
    (r : Book S × Order × Bool) : Type 0 where
  pub book : IsBook S r.0
  pub filled : r.1.filled_quantity ≡ o.filled_quantity
  pub quantity : r.1.quantity ≡ o.quantity
  pub own : queue_of S o.side r.0 ≡ (
      if r.2
      then enqueue (key_order o.side) (price_of o) r.1 (queue_of S o.side b)
      else queue_of S o.side b)
  pub other : items_of S (opposite o.side) r.0 ≡ items_of S (opposite o.side) b
  pub rests : r.2 ≡ (test && keeps o.time_in_force)

module _ (S : SortedDict PriceLevel) (b : Book S) (o : Order) (v : IsBook S b) where
  rest_order_amounts :
      ((rest_order S b o).1.filled_quantity ≡ o.filled_quantity)
      × ((rest_order S b o).1.quantity ≡ o.quantity)
  unfolding rest_order
  rest_order_amounts = ground arith

  rested-Treats :
      (p : Price)
      → CanRest (items_of S (opposite o.side) b) b.cancel_map p o
      → keeps o.time_in_force ≡ true
      → Treats S b o true ((rest_order S b o).0, (rest_order S b o).1, true)
  rested-Treats p c k =
      let t = rest_order-Rests S b o p v c in
      record {
        book = t.book;
        filled = rest_order_amounts.0;
        quantity = rest_order_amounts.1;
        own =
            subst
              (λ q.
                queue_of S o.side (rest_order S b o).0
                ≡ enqueue (key_order o.side) q (rest_order S b o).1 (queue_of S o.side b))
              (rw c.priced refl) t.queued;
        other = t.other;
        rests = sym k;
      }

  withdrawn-Treats : keeps o.time_in_force ≡ false → Treats S b o true (b, withdraw o, false)
  withdrawn-Treats k = record {
    book = v;
    filled = refl;
    quantity = refl;
    own = refl;
    other = refl;
    rests = sym k;
  }

  apply_tif-Treats :
      (p : Price) (t : TimeInForce)
      → CanRest (items_of S (opposite o.side) b) b.cancel_map p o
      → o.time_in_force ≡ t
      → Treats S b o true (apply_tif S b o t)
  unfolding apply_tif
  apply_tif-Treats p gtc c e = rested-Treats p c (rw e)
  apply_tif-Treats p gtd c e = rested-Treats p c (rw e)
  apply_tif-Treats p ioc c e = withdrawn-Treats (rw e)
  apply_tif-Treats p fok c e = withdrawn-Treats (rw e)

  pub residual-Treats :
      (test : Bool)
      → (test ≡ true → (p : Price) × CanRest (items_of S (opposite o.side) b) b.cancel_map p o)
      → Treats S b o test (residual S b o test)
  residual-Treats false c = record {
    book = v;
    filled = refl;
    quantity = refl;
    own = refl;
    other = refl;
    rests = refl;
  }
  residual-Treats true c = apply_tif-Treats (c refl).0 o.time_in_force (c refl).1 refl

-- ===== src/Book/Cancel.antt =====
-- `OrderBook.cancel` (engine/core/order_book.py): it takes exactly the named order off the book.
use mini_hft_system.Prelude.{
  ℕ, ◌≡◌, ◌∙◌, refl, sym, ap, List, [], ◌∷◌, ◌++◌, Option, none, some, inl, inr, All, All-imp,
  All-split, All-append, arith, subst₂, Bool-cases, Option-cases, ◌==◌,
}
use mathlib.Core.Option
use mathlib.Core.Path.{subst₃}
use mini_hft_system.Prelude.Dict
use mini_hft_system.Prelude.Tests.{nat_eq}
use mini_hft_system.Types.{OrderSide, buy, sell, OrderId, Price}
use mini_hft_system.Order.{Order}
use mini_hft_system.Book.{Book, cancel, cancel_at, cancel_entry, side_book, withdraw}
use mini_hft_system.Book.Fill.{CancelMap}
use mini_hft_system.Book.Index.{
  KnownAt, Known-del, Known-apart, Known-fresh, Known-Only, delete-Distinct, delete-Other,
}
use mini_hft_system.Book.Level.{PriceLevel, find, delete, remove, is_empty}
use mini_hft_system.Book.Prices.{SortedDict, lookup}
use mini_hft_system.Book.Rest.{lookup-All, upsert-All}
use mini_hft_system.Book.Sides.{IsSide, IsStored, key_order, opposite, queue}
use mini_hft_system.Book.State.{
  IsBook, Sides, Sides-IsBook, IsBook-Sides, Clear, ClearOf, items_of, queue_of, items-same,
  items-with_self, other_items-with_side, cancel_map-with_side,
}
use mini_hft_system.Book.Withdraw.{
  Other, Only, elsewhere, find-none, find-append, find-append_left, delete-none, delete-All,
  remove-IsLevel, found-remove, orders-remove, replaced, replaced-IsSide, erase-All, find-queue,
  queue-replaced,
}

-- Where there is no level, no order rests at the price.
absent_elsewhere :
    (i : OrderId) (side : OrderSide) (p : Price) (m : List (ℕ × PriceLevel))
    → All (IsStored side) m
    → All (Only i p) (queue m)
    → lookup p m ≡ none
    → All (Other i) (queue m)
unfolding lookup
absent_elsewhere i side p [] s a g = tt
absent_elsewhere i side p ((j, w) ∷ m) s a g =
    let (here, later) = All-split (Only i p) w.orders (queue m) a in
    elim (Bool-cases (j == p)) [
      | inl e ↦ absurd (let c : some w ≡ none = ground arith in cc)
      | inr e ↦
          All-append (Other i) w.orders (queue m)
            (elsewhere i side p j w.orders (ground arith) s.0.0.resting here)
            (absent_elsewhere i side p m s.1 later (ground arith))
    ]

module _ (i : OrderId) (s : OrderSide) (p : Price) (l l' : PriceLevel) where
  replaced-Clear :
      (m : List (ℕ × PriceLevel)) (q : ℕ)
      → lookup p m ≡ some l
      → ClearOf s m q
      → ClearOf s (replaced i s (key_order s) p l' m) q
  replaced-Clear m q g c = elim (Bool-cases (is_empty l')) [
    | inl e ↦ rw e (erase-All i s (key_order s) p (λ x. Clear s x.0 q) m c)
    | inr e ↦ rw e (
        upsert-All (key_order s) p (λ x. Clear s x.0 q) l' m
          (lookup-All (λ x. Clear s x.0 q) p m l c g) c)
  ]

-- The side of the order that is cancelled, and the other one.
module _ (i : OrderId) (s : OrderSide) (own opp : List (ℕ × PriceLevel)) (cm : CancelMap)
    (p : Price) (e : Dict.get i cm ≡ some (s, p)) (v : Sides s own opp cm) where
  others : All (Other i) (queue opp)
  others = Known-apart s i p cm (queue opp) e v.opp_known

  only : All (Only i p) (queue own)
  only = Known-Only s i p cm (queue own) e v.own_known

  left_Sides :
      (own' : List (ℕ × PriceLevel))
      → IsSide s (key_order s) own'
      → queue own' ≡ delete i (queue own)
      → All (λ y. ClearOf s own' y.0) opp
      → Sides s own' opp (Dict.del i cm)
  left_Sides own' st q c = record {
    own_stored = st;
    opp_stored = v.opp_stored;
    clear = c;
    own_known = rw q (
        Known-del s i cm (delete i (queue own)) (delete-Other i (queue own) v.own_distinct)
          (delete-All i (KnownAt s cm) (queue own) v.own_known));
    opp_known = Known-del (opposite s) i cm (queue opp) others v.opp_known;
    own_distinct = rw q (delete-Distinct i (queue own) v.own_distinct);
    opp_distinct = v.opp_distinct;
  }

  module _ (l : PriceLevel) (g : lookup p own ≡ some l) where
    abbrev shorter : List (ℕ × PriceLevel)
    shorter = replaced i s (key_order s) p (remove l i).1 own

    queue-shorter : queue shorter ≡ delete i (queue own)
    queue-shorter =
        queue-replaced i s (key_order s) p own l (remove l i).1 v.own_stored only g
          (orders-remove i l)

    shorter-Sides : Sides s shorter opp (Dict.del i cm)
    shorter-Sides =
        left_Sides shorter
          (replaced-IsSide i s (key_order s) p (remove l i).1 own
            (remove-IsLevel i s p l (lookup-All (IsStored s) p own l v.own_stored.levels g).0)
            v.own_stored)
          queue-shorter
          (All-imp (λ y. ClearOf s own y.0) (λ y. ClearOf s shorter y.0) opp
            (λ y. replaced-Clear i s p l (remove l i).1 own y.0 g) v.clear)

    found-shorter : (remove l i).0 ≡ find i (queue own)
    found-shorter =
        found-remove i l ∙ sym (find-queue i s (key_order s) p own l v.own_stored only g)

-- All resting orders, bids first.
abbrev pub resting : (S : SortedDict PriceLevel) → Book S → List Order
resting S b = queue_of S buy b ++ queue_of S sell b

-- What a cancellation has done: it returns the resting order with the id, if there is one, and the
-- book is left without it.
pub record Cancels (S : SortedDict PriceLevel) (b : Book S) (i : OrderId)
    (r : Option Order × Book S) : Type 0 where
  pub found : r.0 ≡ Option.map withdraw (find i (resting S b))
  pub book : IsBook S r.1
  pub queues : (s : OrderSide) → queue_of S s r.1 ≡ delete i (queue_of S s b)

module _ (S : SortedDict PriceLevel) (b : Book S) (i : OrderId) where
  by_side {ℓ} :
      (P : OrderSide → Type ℓ) (s : OrderSide) → P s → P (opposite s) → (t : OrderSide) → P t
  by_side P buy h g buy = h
  by_side P buy h g sell = g
  by_side P sell h g buy = g
  by_side P sell h g sell = h

  -- One side decides, where the other has no such order.
  find-resting :
      (s : OrderSide)
      → All (Other i) (queue_of S (opposite s) b)
      → find i (resting S b) ≡ find i (queue_of S s b)
  find-resting buy a = find-append_left i (queue_of S buy b) (queue_of S sell b) a
  find-resting sell a = find-append i (queue_of S buy b) (queue_of S sell b) a

  abbrev forget : Book S
  forget = record b { cancel_map = Dict.del i b.cancel_map }

  items-cancel_at :
      (s : OrderSide) (b' : Book S) (p : Price) (l : PriceLevel)
      → items_of S s (cancel_at S s b' i p l).1
        ≡ replaced i s (key_order s) p (remove l i).1 (items_of S s b')
  unfolding cancel_at
  items-cancel_at s b' p l =
      items-with_self S s b' _ ∙ elim (Bool-cases (is_empty (remove l i).1)) [
        | inl e ↦ rw e (S.items-del (key_order s) p (side_book S s b'))
        | inr e ↦ rw e (S.items-set (key_order s) p (remove l i).1 (side_book S s b'))
      ]

  -- No order with the id: nothing is returned, and nothing changes but the cancel map.
  nothing :
      (b' : Book S)
      → IsBook S b'
      → All (Other i) (queue_of S buy b)
      → All (Other i) (queue_of S sell b)
      → ((s : OrderSide) → queue_of S s b' ≡ queue_of S s b)
      → Cancels S b i (none, b')
  nothing b' v bids asks same = record {
    found = rw (
      find-append i (queue_of S buy b) (queue_of S sell b) bids,
      find-none i (queue_of S sell b) asks,
    );
    book = v;
    queues =
        by_side (λ s. queue_of S s b' ≡ delete i (queue_of S s b)) buy
          (same buy ∙ sym (delete-none i (queue_of S buy b) (find-none i (queue_of S buy b) bids)))
          (same sell
            ∙ sym (delete-none i (queue_of S sell b) (find-none i (queue_of S sell b) asks)));
  }

  module _ (s : OrderSide) (p : Price) (e : Dict.get i b.cancel_map ≡ some (s, p))
      (v : IsBook S b) where
    sides : Sides s (items_of S s b) (items_of S (opposite s) b) b.cancel_map
    sides = IsBook-Sides S s b v

    own-forget : items_of S s forget ≡ items_of S s b
    own-forget = items-same S s b forget refl refl

    opp-forget : items_of S (opposite s) forget ≡ items_of S (opposite s) b
    opp-forget = items-same S (opposite s) b forget refl refl

    opp_others : All (Other i) (queue_of S (opposite s) b)
    opp_others = others i s (items_of S s b) (items_of S (opposite s) b) b.cancel_map p e sides

    -- The entry names a price without a level.
    no_level : lookup p (items_of S s b) ≡ none → Cancels S b i (none, forget)
    no_level g =
        let own_only =
          only i s (items_of S s b) (items_of S (opposite s) b) b.cancel_map p e sides in
        let gone = absent_elsewhere i s p (items_of S s b) sides.own_stored.levels own_only g in
        let same = delete-none i (queue_of S s b) (find-none i (queue_of S s b) gone) in
        let t =
          left_Sides i s (items_of S s b) (items_of S (opposite s) b) b.cancel_map p e sides
            (items_of S s b) sides.own_stored (sym same) sides.clear in
        nothing forget
          (Sides-IsBook S s forget (
            subst₂ (λ x y. Sides s x y (Dict.del i b.cancel_map)) (sym own-forget) (sym opp-forget)
              t))
          (by_side (λ r. All (Other i) (queue_of S r b)) s gone opp_others buy)
          (by_side (λ r. All (Other i) (queue_of S r b)) s gone opp_others sell)
          (λ r. ap queue (items-same S r b forget refl refl))

    at_level :
        (l : PriceLevel)
        → lookup p (items_of S s b) ≡ some l
        → Cancels S b i (cancel_at S s forget i p l)
    unfolding cancel_at
    at_level l g =
        let own = items_of S s b in
        let opp = items_of S (opposite s) b in
        let own' : items_of S s (cancel_at S s forget i p l).1
            ≡ shorter i s own opp b.cancel_map p e sides l g =
          items-cancel_at s forget p l
          ∙ ap (replaced i s (key_order s) p (remove l i).1) own-forget in
        let opp' : items_of S (opposite s) (cancel_at S s forget i p l).1 ≡ opp =
          other_items-with_side S s forget _ ∙ opp-forget in
        let cm' : (cancel_at S s forget i p l).1.cancel_map ≡ Dict.del i b.cancel_map =
          cancel_map-with_side S s forget _ in
        record {
          found = ap (Option.map withdraw) (
              found-shorter i s own opp b.cancel_map p e sides l g
              ∙ sym (find-resting s opp_others));
          book = Sides-IsBook S s (cancel_at S s forget i p l).1 (
              subst₃ (Sides s) (sym own') (sym opp') (sym cm')
                (shorter-Sides i s own opp b.cancel_map p e sides l g));
          queues =
              by_side (λ r. queue_of S r (cancel_at S s forget i p l).1 ≡ delete i (queue_of S r b))
                s (ap queue own' ∙ queue-shorter i s own opp b.cancel_map p e sides l g)
                (ap queue opp'
                  ∙ sym (
                      delete-none i (queue_of S (opposite s) b)
                        (find-none i (queue_of S (opposite s) b) opp_others)));
        }

    cancel_entry-Cancels : Cancels S b i (cancel_entry S forget i (s, p))
    unfolding cancel_entry
    cancel_entry-Cancels =
        let there : S.get (key_order s) p (side_book S s forget) ≡ lookup p (items_of S s b) =
          S.get_lem (key_order s) p (side_book S s forget) ∙ ap (lookup p) own-forget in
        elim (Option-cases (lookup p (items_of S s b))) [
          | inl g ↦ rw (there ∙ g, cancel_entry) (no_level g)
          | inr (l, g) ↦ rw (there ∙ g, cancel_entry) (at_level l g)
        ]

  -- A cancellation returns the resting order with the id, marked CANCELLED, or nothing where no order
  -- has the id; it deletes that order from the queues of the book, leaves all others in their order,
  -- and keeps the invariant. It holds of every valid book.
  pub cancel-Cancels : IsBook S b → Cancels S b i (cancel S b i)
  unfolding cancel
  cancel-Cancels v = elim (Option-cases (Dict.get i b.cancel_map)) [
    | inl e ↦
        rw (e, cancel)
          (nothing b v (Known-fresh buy i b.cancel_map (queue_of S buy b) e (v.known buy))
            (Known-fresh sell i b.cancel_map (queue_of S sell b) e (v.known sell)) (λ s. refl))
    | inr ((s, p), e) ↦ rw (e, cancel) (cancel_entry-Cancels s p e v)
  ]

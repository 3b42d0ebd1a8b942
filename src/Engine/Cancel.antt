-- ===== src/Engine/Cancel.antt =====
-- `cancel_order` of engine/core/matching_engine.py: it keeps the engine's invariant, does to the book what
-- `OrderBook.cancel` does, and finds nothing the second time.
use mini_hft_system.Prelude.{
  ◌+◌, ◌≡◌, ◌∙◌, refl, sym, ap, [], Option, none, some, Bool, true, false, inl, inr, All, length,
  arith, Option-cases, subst, if◌then◌else◌,
}
use mathlib.Core.Option
use mini_hft_system.Prelude.Dict
use mini_hft_system.Prelude.Tests.{nat_eq, text_eq}
use mini_hft_system.Types.{OrderId, OrderSide, buy, sell, cancelled}
use mini_hft_system.Order.{Order}
use mini_hft_system.Book.{Book, cancel, withdraw}
use mini_hft_system.Book.Cancel.{cancel-Cancels, Cancels, resting}
use mini_hft_system.Book.Index.{delete-Other}
use mini_hft_system.Book.Level.{PriceLevel, find, delete}
use mini_hft_system.Book.Prices.{SortedDict}
use mini_hft_system.Book.State.{IsBook, queue_of}
use mini_hft_system.Book.Unknown.{cancel-Unknown}
use mini_hft_system.Book.Withdraw.{find-none, find-append, Other}
use mini_hft_system.Engine.{Engine, EngineReadings, Reply, cancel_in, cancel_order}
use mini_hft_system.Engine.State.{IsEngine, IsEngineBook, books_mono}

-- The order map has the order, and its symbol has a book.
pub record Names (S : SortedDict PriceLevel) (e : Engine S) (i : OrderId) (o : Order) (b : Book S)
    : Type 0 where
  pub known : Dict.get i e.order_map ≡ some o
  pub listed : Dict.get o.symbol e.books ≡ some b

abbrev pub is_some {ℓ} : {A : Type ℓ} → Option A → Bool
is_some none = false
is_some (some a) = true

module _ (S : SortedDict PriceLevel) (env : EngineReadings) (e : Engine S) (i : OrderId) where
  -- A cancellation leaves the engine as it was, or works on the book of the order's symbol.
  data Chooses : Reply S (Option Order) → Type 0 where
    passes :
        ((env' : EngineReadings)
          → cancel_order S env' e i ≡ record { value = none; engine = e; events = [] })
        → Chooses (record { value = none; engine = e; events = [] })
    works : (o : Order) (b : Book S) → Names S e i o b → Chooses (cancel_in S env e i o b)

  cancel_order-Chooses : Chooses (cancel_order S env e i)
  unfolding cancel_order
  cancel_order-Chooses = elim (Option-cases (Dict.get i e.order_map)) [
    | inl h ↦ rw (h, cancel_order) (passes λ x. rw (h, cancel_order) refl)
    | inr (o, h) ↦ elim (Option-cases (Dict.get o.symbol e.books)) [
      | inl g ↦ rw (h, g, cancel_order) (passes λ x. rw (h, g, cancel_order) refl)
      | inr (b, g) ↦ rw (h, g, cancel_order) (works o b (record { known = h; listed = g }))
    ]
  ]

  module _ (o : Order) (b : Book S) where
    pub cancel_order-in : Names S e i o b → cancel_order S env e i ≡ cancel_in S env e i o b
    unfolding cancel_order
    cancel_order-in n = rw (n.known, n.listed, cancel_order) refl

    own_book : IsEngine S e → Names S e i o b → IsEngineBook S e.order_map b
    own_book v n = Dict.get-All (IsEngineBook S e.order_map) o.symbol b e.books v.books n.listed

    after_book : IsEngine S e → Names S e i o b → IsEngineBook S e.order_map (cancel S b i).1
    after_book v n = record {
      valid = (cancel-Cancels S b i (own_book v n).valid).book;
      covered = λ j h. cancel-Unknown S j b i ((own_book v n).covered j h);
    }

    after_books :
        IsEngine S e
        → Names S e i o b
        → All (λ x. IsEngineBook S e.order_map x.1) (Dict.put o.symbol (cancel S b i).1 e.books)
    after_books v n =
        Dict.put-All (IsEngineBook S e.order_map) o.symbol (cancel S b i).1 e.books (after_book v n)
          v.books

    -- Marking a known order keeps the order map's ids.
    marked : Order
    marked = record o { status = cancelled }

    cancel_in-IsEngine :
        IsEngine S e → Names S e i o b → IsEngine S (cancel_in S env e i o b).engine
    unfolding cancel_in marked
    cancel_in-IsEngine v n = elim (Option-cases (cancel S b i).0) [
      | inl h ↦ rw (h, cancel_in) (record { books = after_books v n; counted = v.counted })
      | inr (x, h) ↦
          rw (h, cancel_in)
            (record {
              books =
                  books_mono S e.order_map (Dict.put i marked e.order_map)
                    (Dict.put o.symbol (cancel S b i).1 e.books)
                    (λ j g. (Dict.get-put-none i j marked e.order_map g).1) (after_books v n);
              counted =
                  omega (arith, v.counted, Dict.length-put_old i marked o e.order_map n.known);
            })
    ]

  chosen-IsEngine : (t : Reply S (Option Order)) → Chooses t → IsEngine S e → IsEngine S t.engine
  chosen-IsEngine t (passes f) v = v
  chosen-IsEngine t (works o b n) v = cancel_in-IsEngine o b v n

  -- Cancelling by any id, known or not, keeps the engine's invariant. It holds of every valid engine.
  pub cancel_order-IsEngine : IsEngine S e → IsEngine S (cancel_order S env e i).engine
  cancel_order-IsEngine = chosen-IsEngine (cancel_order S env e i) cancel_order-Chooses

module _ (S : SortedDict PriceLevel) (e : Engine S) (i : OrderId) (o : Order) (b : Book S) where
  abbrev pub here : Bool
  here = is_some (find i (resting S b))

  -- What a cancellation of a known order does: it finds the order exactly where it still rests, the
  -- book of its symbol loses it and keeps the rest of its queues, and it is counted and told to the
  -- callback exactly then.
  pub record Withdraws (t : Reply S (Option Order)) : Type 0 where
    pub found : is_some t.value ≡ here
    pub taken :
        (s : OrderSide)
        → Option.map (queue_of S s) (Dict.get o.symbol t.engine.books)
          ≡ some (delete i (queue_of S s b))
    pub counted :
        t.engine.stats.orders_cancelled ≡ e.stats.orders_cancelled + (if here then 1 else 0)
    pub told : length t.events ≡ (if here then (if e.on_event then 1 else 0) else 0)

module _ (S : SortedDict PriceLevel) (env : EngineReadings) (e : Engine S) (i : OrderId) (o : Order)
    (b : Book S) (v : IsEngine S e) (n : Names S e i o b) where
  cancels : Cancels S b i (cancel S b i)
  cancels = cancel-Cancels S b i (own_book S env e i o b v n).valid

  put_taken :
      (s : OrderSide)
      → Option.map (queue_of S s) (Dict.get o.symbol (Dict.put o.symbol (cancel S b i).1 e.books))
        ≡ some (delete i (queue_of S s b))
  put_taken s =
      ap (Option.map (queue_of S s)) (Dict.get-put_self o.symbol (cancel S b i).1 e.books)
      ∙ ap some (cancels.queues s)

  is_some-map {ℓ κ} :
      {A : Type ℓ} {B : Type κ} (f : A → B) (x : Option A) → is_some (Option.map f x) ≡ is_some x
  is_some-map f none = refl
  is_some-map f (some a) = refl

  found_here : is_some (cancel S b i).0 ≡ here S e i o b
  found_here = ap is_some cancels.found ∙ is_some-map withdraw (find i (resting S b))

  cancel_in-Withdraws : Withdraws S e i o b (cancel_in S env e i o b)
  unfolding cancel_in
  cancel_in-Withdraws = elim (Option-cases (cancel S b i).0) [
    | inl h ↦
        let no : here S e i o b ≡ false = sym found_here ∙ ap is_some h in
        rw (h, cancel_in)
          (record {
            found = sym no;
            taken = put_taken;
            counted = ground (arith, no);
            told = ground (arith, no);
          })
    | inr (x, h) ↦
        let yes : here S e i o b ≡ true = sym found_here ∙ ap is_some h in
        rw (h, cancel_in)
          (record {
            found = sym yes;
            taken = put_taken;
            counted = ground (arith, yes);
            told = ground (arith, yes);
          })
  ]

  -- A cancellation of an id that the order map has, whose symbol has a book, finds the order exactly where
  -- it still rests; the book of its symbol loses it and keeps the rest of both queues; the cancellation is
  -- counted, and told to an installed callback, exactly then. It holds of every valid engine.
  pub cancel_order-Withdraws : Withdraws S e i o b (cancel_order S env e i)
  cancel_order-Withdraws = rw (cancel_order-in S env e i o b n) cancel_in-Withdraws

-- Who has been taken off the queues is not found on them.
find-taken :
    (S : SortedDict PriceLevel) (b b' : Book S) (i : OrderId)
    → IsBook S b
    → ((s : OrderSide) → queue_of S s b' ≡ delete i (queue_of S s b))
    → find i (resting S b') ≡ none
find-taken S b b' i v q =
    let gone = λ (s : OrderSide).
      subst (All (Other i)) (sym (q s)) (delete-Other i (queue_of S s b) (v.distinct s)) in
    find-append i (queue_of S buy b') (queue_of S sell b') (gone buy)
    ∙ find-none i (queue_of S sell b') (gone sell)

module _ (S : SortedDict PriceLevel) (env later : EngineReadings) (e : Engine S) (i : OrderId) where
  module _ (o : Order) (b : Book S) (n : Names S e i o b) where
    -- The cancelled order keeps its symbol in the order map.
    cancel_in-order :
        (x : Order) × ((Dict.get i (cancel_in S env e i o b).engine.order_map ≡ some x)
          × (x.symbol ≡ o.symbol))
    unfolding cancel_in
    cancel_in-order = elim (Option-cases (cancel S b i).0) [
      | inl h ↦ rw (h, cancel_in) (o, (n.known, refl))
      | inr (x, h) ↦
          rw (h, cancel_in)
            (
              record o { status = cancelled },
              (Dict.get-put_self i (record o { status = cancelled }) e.order_map, refl),
            )
    ]

    cancel_in-book :
        Dict.get o.symbol (cancel_in S env e i o b).engine.books ≡ some (cancel S b i).1
    unfolding cancel_in
    cancel_in-book = elim (Option-cases (cancel S b i).0) [
      | inl h ↦ rw (h, cancel_in) (Dict.get-put_self o.symbol (cancel S b i).1 e.books)
      | inr (x, h) ↦ rw (h, cancel_in) (Dict.get-put_self o.symbol (cancel S b i).1 e.books)
    ]

    again :
        IsEngine S e
        → is_some (cancel_order S later (cancel_in S env e i o b).engine i).value ≡ false
    again v =
        let e' = (cancel_in S env e i o b).engine in
        let (x, (g, same)) = cancel_in-order in
        let b' = (cancel S b i).1 in
        let n' : Names S e' i x b' = record {
          known = g;
          listed = ap (λ y. Dict.get y e'.books) same ∙ cancel_in-book;
        } in
        let c = cancels S env e i o b v n in
        (cancel_order-Withdraws S later e' i x b' (cancel_in-IsEngine S env e i o b v n) n').found
        ∙ ap is_some (find-taken S b b' i (own_book S env e i o b v n).valid c.queues)

  chosen-again :
      (t : Reply S (Option Order))
      → Chooses S env e i t
      → IsEngine S e
      → is_some (cancel_order S later t.engine i).value ≡ false
  chosen-again t (passes f) v = ap (λ (r : Reply S (Option Order)). is_some r.value) (f later)
  chosen-again t (works o b n) v = again o b n v

  -- A second cancellation of an order, right after the first, finds nothing, whatever the first found.
  -- It holds of every valid engine.
  pub cancel_order-twice :
      IsEngine S e → is_some (cancel_order S later (cancel_order S env e i).engine i).value ≡ false
  cancel_order-twice = chosen-again (cancel_order S env e i) (cancel_order-Chooses S env e i)

-- ===== src/Engine/Submit.antt =====
-- `submit_order` and `cancel_order` of engine/core/matching_engine.py keep the engine's invariant.
use mini_hft_system.Prelude.{
  suc, ◌≤◌, ◌≡◌, ◌≢◌, ◌⊎◌, ◌∙◌, refl, sym, ap, Option, none, some, false, inl, inr, All, length,
  arith, Option-cases,
}
use mini_hft_system.Prelude.Dict
use mini_hft_system.Prelude.Tests.{nat_eq, text_eq}
use mini_hft_system.Types.{OrderId, Price, OrderType, limit, market, RejectReason, symbol_not_found}
use mini_hft_system.Order.{Order, is_limit}
use mini_hft_system.Book.{Book, MatchResult, submit}
use mini_hft_system.Book.Level.{PriceLevel}
use mini_hft_system.Book.Outcome.{submit-IsBook}
use mini_hft_system.Book.Prices.{SortedDict}
use mini_hft_system.Book.Submit.{IsSubmittable}
use mini_hft_system.Book.Unknown.{submit-Unknown}
use mini_hft_system.Engine.{
  Engine, EngineReadings, Reply, validate, validate_price, reject, accept, submit_order, write_back,
  acknowledge,
}
use mini_hft_system.Engine.State.{
  IsEngine, IsEngineBook, books_mono, write_back-none, write_back-new, length-write_back,
}
use mini_hft_system.Engine.Stats.{count_received, count_result_lem}

-- A limit order has a price, which is not 0.
abbrev pub Priced : Order → Type 0
Priced o = (is_limit o ≡ false) ⊎ ((p : Price) × ((o.price ≡ some p) × (p ≢ 0)))

-- What validation has established of an order that it lets through.
pub record Passes (S : SortedDict PriceLevel) (e : Engine S) (o : Order) (b : Book S) : Type 0 where
  pub listed : Dict.get o.symbol e.books ≡ some b
  pub new : Dict.get o.order_id e.order_map ≡ none
  pub sized : o.quantity ≢ 0
  pub priced : Priced o

priced_cases :
    (S : SortedDict PriceLevel) (t : OrderType) (p : Option Price)
    → validate_price S t p ≡ none
    → (t ≡ market) ⊎ ((x : Price) × ((p ≡ some x) × (x ≢ 0)))
priced_cases S market p h = inl refl
priced_cases S limit none h = absurd (cc)
priced_cases S limit (some p) h = inr (p, (refl, ground (arith, h)))

module _ (S : SortedDict PriceLevel) (e : Engine S) (o : Order) where
  limit_of : (o.order_type ≡ market) ⊎ ((x : Price) × ((o.price ≡ some x) × (x ≢ 0))) → Priced o
  limit_of (inl h) = inl (ground (arith, h))
  limit_of (inr h) = inr h

  validate-Passes :
      (b : Book S) → Dict.get o.symbol e.books ≡ some b → validate S e o ≡ none → Passes S e o b
  unfolding validate
  validate-Passes b g h = record {
    listed = g;
    new = ground (arith, g);
    sized = ground (arith, g);
    priced = limit_of (priced_cases S o.order_type o.price (ground (arith, g)));
  }

abbrev pub IsBooks : (S : SortedDict PriceLevel) → Engine S → Type 0
IsBooks S e = All (λ x. IsEngineBook S e.order_map x.1) e.books

module _ (S : SortedDict PriceLevel) (env : EngineReadings) (e : Engine S) (o : Order)
    (b : Book S) where
  pub submittable :
      IsBooks S e → Passes S e o b → o.filled_quantity ≤ o.quantity → IsSubmittable S b o
  submittable v p w =
      let here = Dict.get-All (IsEngineBook S e.order_map) o.symbol b e.books v p.listed in
      record { within = w; fresh = here.covered o.order_id p.new; priced = given p.priced }
    where
      given : Priced o → (is_limit o ≡ false) ⊎ ((q : Price) × (o.price ≡ some q))
      given (inl h) = inl h
      given (inr (q, (h, g))) = inr (q, h)

  length-accept :
      Passes S e o b → length (accept S env e o b).engine.order_map ≡ suc (length e.order_map)
  unfolding accept
  length-accept p =
      let s = submit S env.matching b o in
      Dict.length-put_new o.order_id (acknowledge S env s.result).order
        (write_back s.makers e.order_map) (write_back-new s.makers e.order_map o.order_id p.new)
      ∙ ap suc (length-write_back s.makers e.order_map)

  accept_grows :
      (i : OrderId)
      → Dict.get i (accept S env e o b).engine.order_map ≡ none
      → (o.order_id ≢ i) × (Dict.get i e.order_map ≡ none)
  unfolding accept
  accept_grows i h =
      let s = submit S env.matching b o in
      let t =
        Dict.get-put-none o.order_id i (acknowledge S env s.result).order
          (write_back s.makers e.order_map) h in
      (t.0, write_back-none s.makers e.order_map i t.1)

  -- The books and the order map of the engine after an order has been accepted.
  accept_books :
      IsBooks S e
      → Passes S e o b
      → o.filled_quantity ≤ o.quantity
      → All
          (λ x. IsEngineBook S (accept S env e o b).engine.order_map x.1)
          (accept S env e o b).engine.books
  unfolding accept
  accept_books v p w =
      let here = Dict.get-All (IsEngineBook S e.order_map) o.symbol b e.books v p.listed in
      let m = (accept S env e o b).engine.order_map in
      Dict.put-All (IsEngineBook S m) o.symbol (submit S env.matching b o).book e.books
        (record {
          valid = submit-IsBook S env.matching b o here.valid (submittable v p w);
          covered = λ i h.
              let g = accept_grows i h in
              submit-Unknown S i env.matching b o here.valid (submittable v p w) g.0
                (here.covered i g.1);
        })
        (books_mono S e.order_map m e.books (λ i h. (accept_grows i h).1) v)

  accept_stats :
      let t = (accept S env e o b).engine.stats in
      (t.orders_received ≡ e.stats.orders_received) × (t.orders_rejected ≡ e.stats.orders_rejected)
  unfolding accept
  accept_stats = let c = count_result_lem e.stats (submit S env.matching b o).result in (c.0, c.1)

-- What `submit_order` works on: the received order, and the engine that has counted it.
abbrev pub received : EngineReadings → Order → Order
received env o = record o { received_at_ns = env.received_at }

module _ (S : SortedDict PriceLevel) where
  abbrev pub counting : Engine S → Engine S
  counting e = record e { stats = count_received e.stats }

  module _ (env : EngineReadings) (e : Engine S) (o : Order) where
    -- An order is rejected, with nothing changed but the counters, or it passes and is accepted.
    pub data Decides : Reply S MatchResult → Type 0 where
      rejects :
          (r : RejectReason)
          → validate S (counting e) (received env o) ≡ some r
          → Decides (reject S env (counting e) (received env o) r)
      accepts :
          (b : Book S)
          → validate S (counting e) (received env o) ≡ none
          → Passes S (counting e) (received env o) b
          → Decides (accept S env (counting e) (received env o) b)

    unlisted :
        Dict.get o.symbol e.books ≡ none
        → validate S (counting e) (received env o) ≡ some symbol_not_found
    unfolding validate
    unlisted h = rw (h, validate) refl

    pub submit_order-Decides : Decides (submit_order S env e o)
    unfolding submit_order
    submit_order-Decides = elim (Option-cases (validate S (counting e) (received env o))) [
      | inr (r, h) ↦ rw h (rejects r h)
      | inl h ↦ elim (Option-cases (Dict.get o.symbol e.books)) [
        | inl g ↦ absurd (let c : none ≡ some symbol_not_found = sym h ∙ unlisted g in cc)
        | inr (b, g) ↦
            rw (h, g) (accepts b h (validate-Passes S (counting e) (received env o) b g h))
      ]
    ]

    decided-IsEngine :
        (t : Reply S MatchResult)
        → Decides t
        → IsEngine S e
        → o.filled_quantity ≤ o.quantity
        → IsEngine S t.engine
    unfolding reject
    decided-IsEngine t (rejects r h) v w = record { books = v.books; counted = omega arith }
    decided-IsEngine t (accepts b h p) v w = record {
      books = accept_books S env (counting e) (received env o) b v.books p w;
      counted = ground (
        arith,
        v.counted,
        length-accept S env (counting e) (received env o) b p,
        accept_stats S env (counting e) (received env o) b,
      );
    }

    -- Submitting an order, accepted or rejected, keeps the engine's invariant. It holds of every valid
    -- engine and every order that is not filled beyond its quantity.
    pub submit_order-IsEngine :
        IsEngine S e → o.filled_quantity ≤ o.quantity → IsEngine S (submit_order S env e o).engine
    submit_order-IsEngine = decided-IsEngine (submit_order S env e o) submit_order-Decides

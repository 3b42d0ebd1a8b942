-- ===== src/Engine/Answers.antt =====
-- What `submit_order` of engine/core/matching_engine.py answers on each of its branches.
use mini_hft_system.Prelude.{
  ◌+◌, ◌≤◌, ◌≡◌, ◌≢◌, refl, [], Option, none, some, false, inl, inr, length, arith, Option-cases,
  Bool-cases, if◌then◌else◌, ◌==◌, ◌⊎◌, subst,
}
use mini_hft_system.Prelude.Dict
use mini_hft_system.Prelude.Tests.{nat_eq, text_eq}
use mini_hft_system.Types.{
  Price, OrderType, limit, market, RejectReason, symbol_not_found, invalid_price, invalid_quantity,
  duplicate_order_id, rejected,
}
use mini_hft_system.Order.{Order, sum_quantity, remaining_quantity}
use mini_hft_system.Book.{Book, MatchResult, submit}
use mini_hft_system.Book.Level.{PriceLevel}
use mini_hft_system.Book.Match.{crosses}
use mini_hft_system.Book.Outcome.{submit-sweep, submit-filled}
use mini_hft_system.Book.Prices.{SortedDict}
use mini_hft_system.Book.Sides.{opposite}
use mini_hft_system.Book.State.{queue_of}
use mini_hft_system.Book.Sweep.{executions, sweep}
use mini_hft_system.Engine.{
  Engine, EngineReadings, Reply, validate, validate_new, validate_price, reject, accept,
  submit_order, write_back, acknowledge,
}
use mini_hft_system.Engine.State.{IsEngine, IsEngineBook}
use mini_hft_system.Engine.Stats.{count_result_lem}
use mini_hft_system.Engine.Submit.{
  Passes, Decides, rejects, accepts, submit_order-Decides, received, counting, submittable,
}

-- The reasons for a rejection, in the order in which they are looked for.
pub data Refusable (S : SortedDict PriceLevel) (e : Engine S) (o : Order)
    : RejectReason → Type 0 where
  not_listed : Dict.get o.symbol e.books ≡ none → Refusable S e o symbol_not_found
  seen :
      (b : Book S) (old : Order)
      → Dict.get o.symbol e.books ≡ some b
      → Dict.get o.order_id e.order_map ≡ some old
      → Refusable S e o duplicate_order_id
  no_size :
      (b : Book S)
      → Dict.get o.symbol e.books ≡ some b
      → Dict.get o.order_id e.order_map ≡ none
      → o.quantity ≡ 0
      → Refusable S e o invalid_quantity
  no_price :
      (b : Book S)
      → Dict.get o.symbol e.books ≡ some b
      → Dict.get o.order_id e.order_map ≡ none
      → o.quantity ≢ 0
      → o.order_type ≡ limit
      → (o.price ≡ none) ⊎ (o.price ≡ some 0)
      → Refusable S e o invalid_price

module _ (S : SortedDict PriceLevel) (e : Engine S) (o : Order) where
  price_refused :
      (t : OrderType) (p : Option Price) (r : RejectReason)
      → validate_price S t p ≡ some r
      → (t ≡ limit) × (((p ≡ none) ⊎ (p ≡ some 0)) × (invalid_price ≡ r))
  price_refused market p r h = absurd (cc)
  price_refused limit none r h = (refl, (inl refl, ground (arith, h)))
  price_refused limit (some p) r h = (refl, (inr (ground (arith, h)), ground (arith, h)))

  new_refused :
      (b : Book S) (r : RejectReason)
      → Dict.get o.symbol e.books ≡ some b
      → Dict.get o.order_id e.order_map ≡ none
      → validate_new S o ≡ some r
      → Refusable S e o r
  new_refused b r g n h = elim (Bool-cases (o.quantity == 0)) [
    | inl z ↦ subst (Refusable S e o) (ground (arith, h)) (no_size b g n (ground (arith, z)))
    | inr z ↦
        let (t, (p, same)) = price_refused o.order_type o.price r (ground (arith, h, z)) in
        subst (Refusable S e o) same (no_price b g n (ground (arith, z)) t p)
  ]

  -- The source's guards reject for one of the reasons.
  pub validate-Refusable : (r : RejectReason) → validate S e o ≡ some r → Refusable S e o r
  unfolding validate
  validate-Refusable r h = elim (Option-cases (Dict.get o.symbol e.books)) [
    | inl g ↦
        subst (Refusable S e o)
          (let c : some symbol_not_found ≡ some r = rw (g, validate) at h in cc) (not_listed g)
    | inr (b, g) ↦ elim (Option-cases (Dict.get o.order_id e.order_map)) [
      | inr (old, n) ↦
          subst (Refusable S e o)
            (let c : some duplicate_order_id ≡ some r = rw (g, n, validate) at h in cc)
            (seen b old g n)
      | inl n ↦ new_refused b r g n (rw (g, n, validate) at h)
    ]
  ]

-- What a refusal leaves: everything but the counters, and one event if a callback is installed.
pub record Refused (S : SortedDict PriceLevel) (e : Engine S) (t : Reply S MatchResult)
    : Type 0 where
  pub status : t.value.order.status ≡ rejected
  pub untraded : t.value.trades ≡ []
  pub unrested : t.value.is_new_resting ≡ false
  pub books : t.engine.books ≡ e.books
  pub order_map : t.engine.order_map ≡ e.order_map
  pub received : t.engine.stats.orders_received ≡ e.stats.orders_received + 1
  pub counted : t.engine.stats.orders_rejected ≡ e.stats.orders_rejected + 1

-- What an accepted order gets: the executions of one sweep of its symbol's book, and a place in the
-- order map; the counters grow by what has happened.
pub record Executed (S : SortedDict PriceLevel) (e : Engine S) (o : Order) (b : Book S)
    (t : Reply S MatchResult) : Type 0 where
  pub swept :
      executions t.value.trades
      ≡ sweep (crosses o.side o.price) (remaining_quantity o) (queue_of S (opposite o.side) b)
  pub filled : t.value.order.filled_quantity ≡ o.filled_quantity + sum_quantity t.value.trades
  pub stored : Dict.get o.order_id t.engine.order_map ≡ some t.value.order
  pub received : t.engine.stats.orders_received ≡ e.stats.orders_received + 1
  pub rejected_same : t.engine.stats.orders_rejected ≡ e.stats.orders_rejected
  pub executed : t.engine.stats.trades_executed ≡ e.stats.trades_executed + length t.value.trades
  pub volume : t.engine.stats.total_volume ≡ e.stats.total_volume + sum_quantity t.value.trades
  pub resting :
      t.engine.stats.orders_resting
      ≡ e.stats.orders_resting + (if t.value.is_new_resting then 1 else 0)

module _ (S : SortedDict PriceLevel) (env : EngineReadings) (e : Engine S) (o : Order) where
  pub data Answers (t : Reply S MatchResult) : Type 0 where
    refuses : (r : RejectReason) → Refusable S e o r → Refused S e t → Answers t
    executes : (b : Book S) → Passes S e o b → Executed S e o b t → Answers t

  -- The counters and the receiving time do not matter to validation.
  pub same_reason :
      (r : RejectReason) → Refusable S (counting S e) (received env o) r → Refusable S e o r
  same_reason r (not_listed g) = not_listed g
  same_reason r (seen b old g n) = seen b old g n
  same_reason r (no_size b g n z) = no_size b g n z
  same_reason r (no_price b g n z t p) = no_price b g n z t p

  same_pass : (b : Book S) → Passes S (counting S e) (received env o) b → Passes S e o b
  same_pass b p = record { listed = p.listed; new = p.new; sized = p.sized; priced = p.priced }

  reject-Refused : (r : RejectReason) → Refused S e (reject S env (counting S e) (received env o) r)
  unfolding reject
  reject-Refused r = record {
    status = refl;
    untraded = refl;
    unrested = refl;
    books = refl;
    order_map = refl;
    received = refl;
    counted = refl;
  }

  accept-Executed :
      (b : Book S)
      → IsEngine S e
      → o.filled_quantity ≤ o.quantity
      → Passes S (counting S e) (received env o) b
      → Executed S e o b (accept S env (counting S e) (received env o) b)
  unfolding accept
  accept-Executed b v w p =
      let o' = received env o in
      let here = Dict.get-All (IsEngineBook S e.order_map) o.symbol b e.books v.books p.listed in
      let fit = submittable S env (counting S e) o' b v.books p w in
      let s = submit S env.matching b o' in
      let c = count_result_lem (counting S e).stats s.result in
      record {
        swept = (submit-sweep S env.matching b o' here.valid fit).0;
        filled = (submit-filled S env.matching b o' here.valid fit).0;
        stored =
            Dict.get-put_self o.order_id (acknowledge S env s.result).order
              (write_back s.makers e.order_map);
        received = ground (arith, c);
        rejected_same = ground (arith, c);
        executed = ground (arith, c);
        volume = ground (arith, c);
        resting = ground (arith, c);
      }

  decided-Answers :
      (t : Reply S MatchResult)
      → Decides S env e o t
      → IsEngine S e
      → o.filled_quantity ≤ o.quantity
      → Answers t
  decided-Answers t (rejects r h) v w =
      refuses r (same_reason r (validate-Refusable S (counting S e) (received env o) r h))
        (reject-Refused r)
  decided-Answers t (accepts b h p) v w = executes b (same_pass b p) (accept-Executed b v w p)

  -- A submission is refused, for a reason that holds of it, and then leaves the books and the order map
  -- as they were; or all checks hold of it, and then it gets exactly the executions of one sweep of the
  -- opposite side of its symbol's book, its fill is their sum, it is put into the order map as it is
  -- returned, and the counters grow by its trades, their volume, and by one resting order if it rests.
  -- It holds of every valid engine and every order that is not filled beyond its quantity.
  pub submit_order-Answers :
      IsEngine S e → o.filled_quantity ≤ o.quantity → Answers (submit_order S env e o)
  submit_order-Answers = decided-Answers (submit_order S env e o) (submit_order-Decides S env e o)

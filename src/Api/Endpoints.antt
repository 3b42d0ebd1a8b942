-- ===== src/Api/Endpoints.antt =====
-- What the endpoints of api/routers/orders.py answer, and what a later query or cancellation finds.
use mini_hft_system.Prelude.{
  ℕ, ◌+◌, ◌≡◌, refl, ap, List, [], ◌∷◌, map, Option, none, some, true, false, Bool-cases, inl, inr,
  arith,
}
use mini_hft_system.Prelude.Results.{Result, ok, err}
use mini_hft_system.Prelude.Tests.{nat_eq}
use mini_hft_system.Types.{
  OrderType, limit, market, OrderId, Price, TimestampNs, RejectReason, rejected,
}
use mini_hft_system.Order.{Trade, sum_quantity}
use mini_hft_system.Book.Level.{PriceLevel}
use mini_hft_system.Book.Prices.{SortedDict}
use mini_hft_system.Engine.{EngineReadings, submit_order, cancel_order}
use mini_hft_system.Engine.Answers.{Answers, refuses, executes, Refusable, submit_order-Answers}
use mini_hft_system.Engine.Cancel.{is_some, cancel_order-twice}
use mini_hft_system.Engine.State.{IsEngine}
use mini_hft_system.Events.Service.{Ids, OrderService, submit_through, cancel_through}
use mini_hft_system.Api.{
  OrderRequest, OrderResponse, OrderView, TradeResponse, HttpError, unprocessable_entity, not_found,
  fits_schema, lacks_price, order_of, trade_response, order_response, post_order, delete_order,
  query_order, query_answer, cancel_answer,
}

abbrev pub shares : List TradeResponse → ℕ
shares [] = 0
shares (t ∷ ts) = t.quantity + shares ts

shares-trade_response : (ts : List Trade) → shares (map trade_response ts) ≡ sum_quantity ts
shares-trade_response [] = refl
shares-trade_response (t ∷ ts) = ap (λ n. t.quantity + n) (shares-trade_response ts)

lacks-limit : (t : OrderType) (p : Option Price) → lacks_price t p ≡ true → (t ≡ limit) × (p ≡ none)
lacks-limit limit none h = (refl, refl)
lacks-limit limit (some p) h = absurd (cc)
lacks-limit market p h = absurd (cc)

has_price :
    (t : OrderType) (price : Option Price)
    → lacks_price t price ≡ false
    → t ≡ limit
    → (p : Price) × (price ≡ some p)
has_price limit none h l = absurd (cc)
has_price limit (some p) h l = (p, refl)
has_price market price h l = absurd (cc)

module _ (S : SortedDict PriceLevel) (ids : Ids) (env : EngineReadings) (i : OrderId)
    (now : TimestampNs) (s : OrderService S) (q : OrderRequest) where
  -- The engine has rejected the order.
  pub record Rejects (a : OrderResponse) (s' : OrderService S) : Type 0 where
    pub reason : RejectReason
    pub holds : Refusable S s.engine (order_of i now q) reason
    pub status : a.status ≡ rejected
    pub trades : a.trades ≡ []
    pub books : s'.engine.books ≡ s.engine.books
    pub order_map : s'.engine.order_map ≡ s.engine.order_map

  -- The engine has executed the order; a query finds it as it was answered.
  pub record Accepts (a : OrderResponse) (s' : OrderService S) : Type 0 where
    pub filled : a.filled_quantity ≡ shares a.trades
    pub view : OrderView
    pub found : query_order S s' i ≡ ok view
    pub status : view.status ≡ a.status
    pub same_filled : view.filled_quantity ≡ a.filled_quantity
    pub same_remaining : view.remaining_quantity ≡ a.remaining_quantity
    pub same_average : view.avg_fill_price ≡ a.avg_fill_price

  -- A limit order has a price.
  abbrev pub HasPrice : Type 0
  HasPrice = q.order_type ≡ limit → (p : Price) × (q.price ≡ some p)

  pub data Posted : Result HttpError OrderResponse × OrderService S → Type 0 where
    off_schema : fits_schema q ≡ false → Posted (err unprocessable_entity, s)
    without_price :
        fits_schema q ≡ true
        → q.order_type ≡ limit
        → q.price ≡ none
        → Posted (err unprocessable_entity, s)
    rejects :
        (a : OrderResponse) (s' : OrderService S)
        → fits_schema q ≡ true
        → HasPrice
        → Rejects a s'
        → Posted (ok a, s')
    accepts :
        (a : OrderResponse) (s' : OrderService S)
        → fits_schema q ≡ true
        → HasPrice
        → Accepts a s'
        → Posted (ok a, s')

  answered :
      fits_schema q ≡ true
      → HasPrice
      → Answers S env s.engine (order_of i now q) (submit_order S env s.engine (order_of i now q))
      → let (r, s') = submit_through S ids env s (order_of i now q) in
        Posted (ok (order_response r), s')
  unfolding submit_through query_order
  answered fits priced (refuses r holds d) =
      let (r', s') = submit_through S ids env s (order_of i now q) in
      rejects (order_response r') s' fits priced (record {
        reason = r;
        holds = holds;
        status = d.status;
        trades = ap (map trade_response) d.untraded;
        books = d.books;
        order_map = d.order_map;
      })
  answered fits priced (executes b p x) =
      let (r', s') = submit_through S ids env s (order_of i now q) in
      accepts (order_response r') s' fits priced (record {
        filled = omega (arith, x.filled, shares-trade_response r'.trades);
        view = _;
        found = ap (query_answer S) x.stored;
        status = refl;
        same_filled = refl;
        same_remaining = refl;
        same_average = refl;
      })

  -- A request that breaks the schema, or asks for a limit order without a price, is answered by 422, and the
  -- service stays as it was. Every other request is answered by the order: rejected, for a reason that
  -- holds of it, without trades, the books and the order map as they were; or executed, its filled quantity
  -- the sum of the trades in the answer, and a query for its id right after finds the same status, filled
  -- quantity, remaining quantity and average price. It holds of every service with a valid engine.
  pub post_order_lem : IsEngine S s.engine → Posted (post_order S ids env i now s q)
  unfolding post_order
  post_order_lem v = elim (Bool-cases (fits_schema q)) [
    | inr bad ↦ rw bad (off_schema bad)
    | inl fits ↦ elim (Bool-cases (lacks_price q.order_type q.price)) [
      | inl lacks ↦
          let h = lacks-limit q.order_type q.price lacks in
          rw (fits, lacks) (without_price fits h.0 h.1)
      | inr has ↦
          rw (fits, has)
            (answered fits (has_price q.order_type q.price has)
              (submit_order-Answers S env s.engine (order_of i now q) v (omega arith)))
    ]
  ]

-- A second DELETE of an order, right after the first, is answered by 404, whatever the first answered. It
-- holds of every service with a valid engine.
delete_order-twice :
    (S : SortedDict PriceLevel) (ids later_ids : Ids) (env later : EngineReadings)
    (s : OrderService S) (i : OrderId)
    → IsEngine S s.engine
    → (delete_order S later_ids later (delete_order S ids env s i).1 i).0 ≡ err not_found
unfolding delete_order cancel_through
delete_order-twice S ids later_ids env later s i v =
    gone (cancel_order S later (cancel_order S env s.engine i).engine i).value
      (cancel_order-twice S env later s.engine i v)
  where
    gone : (o : Option _) → is_some o ≡ false → cancel_answer S i o ≡ err not_found
    gone none h = refl
    gone (some o) h = absurd (cc)

-- ===== src/Events/Announce.antt =====
-- What api/services/order_service.py publishes for a submission to engine/core/matching_engine.py.
use mini_hft_system.Prelude.{
  suc, ◌+◌, ◌≡◌, ◌∙◌, refl, ap, ap₂, append-nil, append_assoc, List, [], ◌∷◌, ◌++◌, map, none, some,
  true, length, ◌==◌, if◌then◌else◌, Bool-cases, inl, inr,
}
use mini_hft_system.Prelude.Dict
use mini_hft_system.Prelude.Tests.{text_eq}
use mini_hft_system.Types.{Symbol, RejectReason, rejected}
use mini_hft_system.Order.{Order, Trade, remaining_quantity}
use mini_hft_system.Book.{Book, BookSnapshot, MatchResult, snapshot, submit}
use mini_hft_system.Book.Level.{PriceLevel}
use mini_hft_system.Book.Prices.{SortedDict}
use mini_hft_system.Engine.{
  Engine, EngineEvent, EngineReadings, Reply, submit_order, reject, accept, no_trades, outcome_type,
  acknowledge,
}
use mini_hft_system.Engine.Answers.{Refusable, same_reason, validate-Refusable}
use mini_hft_system.Engine.Submit.{
  counting, Decides, rejects, accepts, submit_order-Decides, received,
}
use mini_hft_system.Events.{
  DomainEvent, EventBody, acked_event, filled_event, partially_filled_event, rejected_event,
  trade_event, book_update_event,
}
use mini_hft_system.Events.Service.{
  Ids, trade_prints, translate, translate_all, status_body, event_of, result_events, other_events,
}

abbrev pub bodies : List DomainEvent → List EventBody
bodies es = map (λ (e : DomainEvent). e.body) es

-- The event on an order that was accepted, told from its result alone.
abbrev pub outcome_body : MatchResult → BookSnapshot → EventBody
outcome_body r s =
    if no_trades r.trades
    then acked_event (some r.order) (some s)
    else if remaining_quantity r.order == 0
    then filled_event (some r.order) r.trades (some s)
    else partially_filled_event (some r.order) r.trades (some s)

abbrev pub trade_bodies : List Trade → List EventBody
trade_bodies ts = map (λ (t : Trade). trade_event (some t)) ts

bodies-append : (xs ys : List DomainEvent) → bodies (xs ++ ys) ≡ bodies xs ++ bodies ys
bodies-append [] ys = refl
bodies-append (x ∷ xs) ys = ap (◌∷◌ x.body) (bodies-append xs ys)

bodies-trade_prints :
    (ids : Ids) (s : Symbol) (ts : List Trade) → bodies (trade_prints ids s ts) ≡ trade_bodies ts
bodies-trade_prints ids s [] = refl
bodies-trade_prints ids s (t ∷ ts) =
    ap (◌∷◌ (trade_event (some t))) (bodies-trade_prints (λ n. ids (suc n)) s ts)

status-outcome :
    (r x : MatchResult) (s : BookSnapshot)
    → x.trades ≡ r.trades
    → remaining_quantity x.order ≡ remaining_quantity r.order
    → status_body (outcome_type x) r (some s) ≡ outcome_body r s
status-outcome r x s t q = elim (Bool-cases (no_trades r.trades)) [
  | inl e ↦ rw (t, e) refl
  | inr e ↦ elim (Bool-cases (remaining_quantity r.order == 0)) [
    | inl z ↦ rw (t, e, q, z) refl
    | inr z ↦ rw (t, e, q, z) refl
  ]
]

-- An event for an accepted order is not a rejection.
translate-accepted :
    (ids : Ids) (e : EngineEvent) (x : MatchResult)
    → e.event_type ≡ outcome_type x
    → translate ids e ≡ other_events ids e
unfolding translate
translate-accepted ids e x h = elim (Bool-cases (no_trades x.trades)) [
  | inl n ↦ rw (h, n) refl
  | inr n ↦ elim (Bool-cases (remaining_quantity x.order == 0)) [
    | inl z ↦ rw (h, n, z) refl
    | inr z ↦ rw (h, n, z) refl
  ]
]

-- The events of a result that comes with a snapshot and cancels nothing.
bodies-other :
    (ids : Ids) (e : EngineEvent) (r : MatchResult) (s : BookSnapshot) (b : EventBody)
    → status_body e.event_type r (some s) ≡ b
    → bodies (
        result_events ids (record e { snapshot = some s }) (some r)
        ++ (event_of
              (ids (length (result_events ids (record e { snapshot = some s }) (some r)) + 0))
              e
              (book_update_event (some s))
            ∷ []))
      ≡ trade_bodies r.trades ++ (b ∷ book_update_event (some s) ∷ [])
bodies-other ids e r s b h =
    let prints = trade_prints ids e.symbol r.trades in
    let status : DomainEvent =
      event_of (ids (length r.trades)) e (status_body e.event_type r (some s)) in
    bodies-append (prints ++ (status ∷ [])) (_ ∷ [])
    ∙ ap (λ x. x ++ (book_update_event (some s) ∷ []))
        (bodies-append prints (status ∷ [])
          ∙ ap₂ (λ x y. x ++ (y ∷ [])) (bodies-trade_prints ids e.symbol r.trades) h)
    ∙ append_assoc (trade_bodies r.trades) (b ∷ []) (book_update_event (some s) ∷ [])

module _ (S : SortedDict PriceLevel) (ids : Ids) (env : EngineReadings) (e : Engine S)
    (o : Order) where
  -- What subscribers hear of a submission.
  pub data Announced (t : Reply S MatchResult) : Type 0 where
    refusal :
        (reason : RejectReason)
        → Refusable S e o reason
        → t.value.order.status ≡ rejected
        → bodies (translate_all ids t.events)
          ≡ rejected_event (some t.value.order) (some reason) ∷ []
        → Announced t
    execution :
        (b : Book S)
        → Dict.get o.symbol t.engine.books ≡ some b
        → bodies (translate_all ids t.events)
          ≡ trade_bodies t.value.trades
            ++ (outcome_body t.value (snapshot S b 10 env.snapshot_at)
                ∷ book_update_event (some (snapshot S b 10 env.snapshot_at))
                ∷ [])
        → Announced t

  decided-Announced :
      (t : Reply S MatchResult) → Decides S env e o t → e.on_event ≡ true → Announced t
  unfolding reject accept translate
  decided-Announced t (rejects r h) l =
      refusal r (same_reason S env e o r (validate-Refusable S (counting S e) (received env o) r h))
        refl (rw l refl)
  decided-Announced t (accepts b h p) l =
      let s = submit S env.matching b (received env o) in
      let r = acknowledge S env s.result in
      let book : BookSnapshot = snapshot S s.book 10 env.snapshot_at in
      let event : EngineEvent = record {
        event_type = outcome_type s.result;
        timestamp_ns = env.event_at;
        symbol = o.symbol;
        result = some r;
        reject_reason = none;
        cancelled_order = none;
        snapshot = some book;
      } in
      execution s.book (Dict.get-put_self o.symbol s.book e.books) (
        ap (λ c. bodies (translate_all ids (if c then event ∷ [] else []))) l
        ∙ ap bodies (append-nil (translate ids event))
        ∙ ap bodies (translate-accepted ids event s.result refl)
        ∙ bodies-other ids event r book (outcome_body r book)
            (status-outcome r s.result book refl refl))

  -- Every submission to an engine with a callback is announced: a refusal by one rejection event with a
  -- reason that holds of the order; an accepted order by one trade event for each of its trades, in their order, then one event
  -- on the order, which is filled, partially filled or acknowledged as its result says, and then one
  -- update with the snapshot of the book that the engine has then.
  pub submit_order-Announced : e.on_event ≡ true → Announced (submit_order S env e o)
  submit_order-Announced =
      decided-Announced (submit_order S env e o) (submit_order-Decides S env e o)

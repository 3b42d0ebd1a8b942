-- ===== src/Strategy/Gate.antt =====
-- What reaches the gateway of strategy/runtime.py: only what the guard of the owning strategy accepts.
use mini_hft_system.Prelude.{
  ◌≡◌, ◌∙◌, refl, sym, ap, List, [], ◌∷◌, ◌++◌, Option, none, some, Bool, true, false, arith,
  Bool-cases, Option-cases, inl, inr,
}
use mini_hft_system.Prelude.Dict
use mini_hft_system.Prelude.Results.{Result, ok, err}
use mini_hft_system.Prelude.Sets.{discard}
use mini_hft_system.Prelude.Tests.{nat_eq, text_beq, text_beq_iff, text_eq}
use mini_hft_system.Types.{OrderId, Symbol, Quantity}
use mini_hft_system.Order.{Order, Trade, is_active}
use mini_hft_system.Book.{BookSnapshot}
use mini_hft_system.Events.{DomainEvent, EventBody, trade_event, book_update_event}
use mini_hft_system.Strategy.{StrategyRiskLimits, Allowed, evaluate, evaluate_iff}
use mini_hft_system.Strategy.Ledger.{BaseStrategy, on_fill, mark_to_market, stop}
use mini_hft_system.Strategy.Runtime.{
  Text, Callbacks, Gateway, chain, chain-keeps, cancel_unless, Entry, Runtime, Work, cancel_each,
  cancel_open_orders, stop_entry, stopped, put_back, has_owner, marked, mid_price, failure_text,
}
use mini_hft_system.Strategy.Dispatch.{
  Turn, show_trade_all, close_unless, skips, turns, turn_if_there, fill_owned, filled_entry,
  dispatch, count_event, process_event, replay, on_book_event, on_trade_event, show_book,
  show_trade, act, submit_proposal, submit_proposals, count_rejection, count_failure,
}

-- What a strategy was registered with, which nothing changes.
pub record Terms : Type 0 where
  pub name : Text
  pub symbol : Symbol
  pub max_position : Quantity
  pub guard : StrategyRiskLimits

abbrev pub terms_of : {M : Type 0} → Entry M → Terms
terms_of e = record {
  name = e.strategy.strategy_id;
  symbol = e.strategy.symbol;
  max_position = e.strategy.max_position;
  guard = e.guard;
}

-- An order that a strategy `s` with the guard `l` may place.
pub record Proper (l : StrategyRiskLimits) (s : BaseStrategy) (o : Order) : Type 0 where
  pub allowed : Allowed l s o
  pub owner : o.strategy_id ≡ some s.strategy_id
  pub symbol : o.symbol ≡ s.symbol

owner_lem : (m : Option Text) (n : Text) → has_owner m n ≡ true → m ≡ some n
owner_lem none n h = absurd (cc)
owner_lem (some m) n h = ap some ((text_beq_iff m n).0 h)

module _ {M : Type 0} (C : Callbacks M) (G : Gateway) (P : G.State → Type 0)
    (T : Text → Option Terms) where
  -- The gateway's state satisfies `P`, and every strategy still has the terms `T`.
  pub record Watched (r : Runtime C G) : Type 0 where
    pub state : P r.gateway
    pub terms : (n : Text) (e : Entry M) → Dict.get n r.entries ≡ some e → T n ≡ some (terms_of e)

  abbrev WatchedWork : Text → Work C G → Type 0
  WatchedWork n (e, r) = Watched r × (T n ≡ some (terms_of e))

  put_back-Watched : (n : Text) (w : Work C G) → WatchedWork n w → Watched (put_back C G n w)
  put_back-Watched n (e, r) (h, t) = record {
    state = h.state;
    terms = λ j d found. elim (Bool-cases (text_beq n j)) [
      | inl same ↦
          let it : some e ≡ some d = sym (Dict.get-put n j e r.entries ∙ rw same refl) ∙ found in
          let here : n ≡ j = (text_beq_iff n j).0 same in
          let e_d : e ≡ d = ground (arith, it) in
          sym (ap T here) ∙ t ∙ ap (λ x. some (terms_of x)) e_d
      | inr other ↦ h.terms j d (sym (Dict.get-put n j e r.entries ∙ rw other refl) ∙ found)
    ];
  }

  module _ (cancels : (i : OrderId) (g : G.State) → P g → P (G.cancel i g))
      (submits : (n : Text) (l : StrategyRiskLimits) (s : BaseStrategy) (o : Order) (g : G.State)
        → T n
          ≡ some (record {
            name = s.strategy_id;
            symbol = s.symbol;
            max_position = s.max_position;
            guard = l;
          })
        → Proper l s o
        → P g
        → P (G.submit o g)) where
    cancel_each-Watched :
        (n : Text) (is : List OrderId) (w : Work C G)
        → WatchedWork n w
        → WatchedWork n (cancel_each C G is w)
    unfolding cancel_each
    cancel_each-Watched n [] w h = h
    cancel_each-Watched n (i ∷ is) (e, r) (h, t) =
        cancel_each-Watched n is
          (
            record e { open_orders = discard i e.open_orders },
            record r { gateway = G.cancel i r.gateway },
          )
          (record { state = cancels i r.gateway h.state; terms = h.terms }, t)

    stop_entry-Watched :
        (n : Text) (reason : Option Text) (w : Work C G)
        → WatchedWork n w
        → WatchedWork n (stop_entry C G reason w).0
    unfolding stop
    stop_entry-Watched n reason (e, r) h =
        unless_Watched (C.on_stop e.memory).0 ((stopped C G reason e).0, r) h
      where
        unless_Watched :
            (x : Option Text) (w : Work C G)
            → WatchedWork n w
            → WatchedWork n (cancel_unless C G x w).0
        unless_Watched none w k = cancel_each-Watched n w.0.open_orders w k
        unless_Watched (some t) w k = k

    submit_proposal-Watched :
        (n : Text) (o : Order) (w : Work C G)
        → WatchedWork n w
        → WatchedWork n (submit_proposal C G n o w)
    submit_proposal-Watched n o (e, r) (h, t) =
        let refused : WatchedWork n (count_rejection C G (e, r)) =
          (record { state = h.state; terms = h.terms }, t) in
        elim (Bool-cases (has_owner o.strategy_id e.strategy.strategy_id)) [
          | inr a ↦ rw a refused
          | inl a ↦ elim (Bool-cases (text_beq o.symbol e.strategy.symbol)) [
            | inr b ↦ rw (a, b) refused
            | inl b ↦ elim (Bool-cases ((evaluate e.guard e.strategy o).accepted)) [
              | inr c ↦ rw (a, b, c) refused
              | inl c ↦
                  let proper : Proper e.guard e.strategy o = record {
                    allowed = (evaluate_iff e.guard e.strategy o).0 c;
                    owner = owner_lem o.strategy_id e.strategy.strategy_id a;
                    symbol = (text_beq_iff o.symbol e.strategy.symbol).0 b;
                  } in
                  rw (a, b, c)
                    (
                      record {
                        state = submits n e.guard e.strategy o r.gateway t proper h.state;
                        terms = h.terms;
                      },
                      t,
                    )
            ]
          ]
        ]

    submit_proposals-Watched :
        (n : Text) (os : List Order) (w : Work C G)
        → WatchedWork n w
        → WatchedWork n (submit_proposals C G n os w)
    unfolding submit_proposals
    submit_proposals-Watched n [] w h = h
    submit_proposals-Watched n (o ∷ os) w h =
        submit_proposals-Watched n os (submit_proposal C G n o w) (submit_proposal-Watched n o w h)

    act-Watched :
        (b : Bool) (n : Text) (a : Result Text (List Order)) (w : Work C G)
        → WatchedWork n w
        → WatchedWork n (act C G b n a w).0
    act-Watched b n (err text) (e, r) (h, t) =
        stop_entry-Watched n (some (failure_text ++ text)) (e, count_failure C G r)
          (record { state = h.state; terms = h.terms }, t)
    act-Watched b n (ok []) w h = h
    act-Watched true n (ok (o ∷ os)) w h =
        submit_proposals-Watched n (o ∷ os) (cancel_open_orders C G w)
          (cancel_each-Watched n w.0.open_orders w h)
    act-Watched false n (ok (o ∷ os)) w h = submit_proposals-Watched n (o ∷ os) w h

    abbrev TurnKeeps : Turn C G → Type 0
    TurnKeeps turn = (n : Text) (w : Work C G) → WatchedWork n w → WatchedWork n (turn n w).0

    show_book-Watched : (s : BookSnapshot) → TurnKeeps (show_book C G s)
    unfolding mark_to_market
    show_book-Watched s n (e, r) (h, t) =
        let b = marked (mid_price s) e.strategy in
        let (answer, m) = C.on_book_update b s e.memory in
        act-Watched b.replace_open_orders n answer (record e { strategy = b; memory = m }, r)
          (elim (Option-cases (mid_price s)) [
            | inl none_there ↦ rw none_there (h, t)
            | inr (price, there) ↦ rw there (h, t)
          ])

    show_trade-Watched : (t : Trade) → TurnKeeps (show_trade C G t)
    show_trade-Watched t n (e, r) h =
        let (answer, m) = C.on_trade e.strategy t e.memory in
        act-Watched false n answer (record e { memory = m }, r) h

    turns-Watched :
        (turn : Turn C G) (s : Symbol)
        → TurnKeeps turn
        → (ns : List Text) (r : Runtime C G) → Watched r
        → Watched (turns C G turn s ns r).0
    unfolding turns
    turns-Watched turn s k [] r h = h
    turns-Watched turn s k (n ∷ ns) r h =
        chain-keeps Watched (turn_if_there C G turn s n r (Dict.get n r.entries))
          (turns C G turn s ns)
          (elim (Option-cases (Dict.get n r.entries)) [
            | inl none_there ↦ rw none_there h
            | inr (e, found) ↦ elim (Bool-cases (skips C G s e)) [
              | inl skip ↦ rw (found, skip) h
              | inr go ↦
                  rw (found, go)
                    (put_back-Watched n (turn n (e, r)).0 (k n (e, r) (h, h.terms n e found)))
            ]
          ])
          (turns-Watched turn s k ns)

    close-terms :
        (x : Option Text) (i : OrderId) (o : Order) (e : Entry M)
        → terms_of (close_unless C G x i o e) ≡ terms_of e
    close-terms (some t) i o e = refl
    close-terms none i o e = elim (Bool-cases (is_active o)) [
      | inl a ↦ rw a refl
      | inr a ↦ rw a refl
    ]

    fill_owned-Watched :
        (i : OrderId) (t : Trade) (r : Runtime C G) → Watched r → Watched (fill_owned C G i t r).0
    unfolding fill_owned on_fill mark_to_market
    fill_owned-Watched i t r h = elim (Option-cases (Dict.get i r.owned_orders)) [
      | inl free ↦ rw free h
      | inr ((n, o), owned) ↦ rw owned (elim (Option-cases (Dict.get n r.entries)) [
        | inl none_there ↦ rw none_there h
        | inr (e, found) ↦
            let o' = G.current r.gateway o in
            let (x, m) = C.after_fill o' t e.memory in
            let filled : Entry M = record e { strategy = on_fill o' t e.strategy; memory = m } in
            let kept : T n ≡ some (terms_of (filled_entry C G i o' t e).0) =
              h.terms n e found ∙ ap some (sym (close-terms x i o' filled)) in
            rw found (put_back-Watched n ((filled_entry C G i o' t e).0, r) (h, kept))
      ])
    ]

    dispatch-Watched :
        (s : Symbol) (b : EventBody) (r : Runtime C G) → Watched r → Watched (dispatch C G s b r).0
    unfolding on_book_event on_trade_event
    dispatch-Watched s (book_update_event (some b)) r h =
        turns-Watched (show_book C G b) s (show_book-Watched b) (Dict.keys r.entries) r h
    dispatch-Watched s (trade_event (some t)) r h =
        let first = fill_owned C G t.maker_order_id t r in
        chain-keeps Watched (chain first (fill_owned C G t.taker_order_id t))
          (show_trade_all C G s t)
          (chain-keeps Watched first (fill_owned C G t.taker_order_id t)
            (fill_owned-Watched t.maker_order_id t r h) (fill_owned-Watched t.taker_order_id t))
          (λ x. turns-Watched (show_trade C G t) s (show_trade-Watched t) (Dict.keys x.entries) x)
    dispatch-Watched s _ r h = h

    -- Whatever the callbacks propose: if the cancellations and the submissions that a guard allows keep a
    -- property of the gateway, then every sequence of events keeps it, up to
    -- the event at which a hook raises, if one does. An allowed submission is one of an
    -- order that carries the id and the symbol of a running strategy, with the limits that the strategy was
    -- registered with, and that meets all conditions of its guard. No event changes what a strategy was
    -- registered with.
    pub replay-Watched :
        (ds : List DomainEvent) (r : Runtime C G) → Watched r → Watched (replay C G ds r).0
    unfolding replay process_event
    replay-Watched [] r h = h
    replay-Watched (d ∷ ds) r h =
        chain-keeps Watched (process_event C G d r) (replay C G ds)
          (dispatch-Watched d.symbol d.body (count_event C G r)
            (record { state = h.state; terms = h.terms }))
          (replay-Watched ds)

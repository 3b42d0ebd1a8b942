-- ===== src/Strategy/Control.antt =====
-- The kill switch of strategy/runtime.py: what it leaves, and that nothing revives a strategy but a start.
use mini_hft_system.Prelude.{
  ◌≡◌, ◌∙◌, refl, sym, ap, subst, List, [], ◌∷◌, Option, none, some, true, false, not, ◌&&◌,
  if◌then◌else◌, arith, Bool-cases, Option-cases, inl, inr, ◌⊎◌, ◌≢◌, All, All-imp,
}
use mini_hft_system.Prelude.Dict
use mini_hft_system.Prelude.Sets.{has, discard, has-discard}
use mini_hft_system.Prelude.Tests.{nat_eq, text_beq, text_beq_iff, text_eq}
use mini_hft_system.Types.{OrderId, Symbol}
use mini_hft_system.Order.{Order, Trade, is_active}
use mini_hft_system.Events.{DomainEvent, EventBody, trade_event, book_update_event}
use mini_hft_system.Strategy.Ledger.{on_fill, mark_to_market, stop}
use mini_hft_system.Strategy.Runtime.{
  Text, Callbacks, Gateway, chain, chain-keeps, RuntimeError, hook_raised, cancel_open_orders,
  Entry, Runtime, Work, cancel_each, stopped, set_entry, stop_strategy, stop_each,
  engage_kill_switch, put_back, count_kill,
}
use mini_hft_system.Strategy.Dispatch.{
  Turn, skips, turns, turn_if_there, close_unless, show_trade_all, fill_owned, filled_entry,
  dispatch, count_event, process_event, replay, on_book_event, on_trade_event, show_book,
  show_trade,
}

has-nothing : (s : List OrderId) → ((x : OrderId) → has x s ≡ false) → s ≡ []
unfolding has
has-nothing [] h = refl
has-nothing (j ∷ s) h = absurd (
    let b : has j (j ∷ s) ≡ true = ground (arith, nat_eq.beq_iff j j) in
    let c : true ≡ false = sym b ∙ h j in cc)

module _ {M : Type 0} (C : Callbacks M) (G : Gateway) where
  pub record IsStopped (e : Entry M) : Type 0 where
    pub halted : e.strategy.is_running ≡ false
    pub none_open : e.open_orders ≡ []

  -- Every strategy is stopped, but for those in `ns`.
  abbrev pub StoppedBut : List Text → Runtime C G → Type 0
  StoppedBut ns r =
      (n : Text) (e : Entry M) → Dict.get n r.entries ≡ some e → IsStopped e ⊎ (has n ns ≡ true)

  abbrev pub AllStopped : Runtime C G → Type 0
  AllStopped r = (n : Text) (e : Entry M) → Dict.get n r.entries ≡ some e → IsStopped e

  cancel_each-open :
      (x : OrderId) (is : List OrderId) (w : Work C G)
      → has x ((cancel_each C G is w).0.open_orders) ≡ (not (has x is) && has x (w.0.open_orders))
  unfolding cancel_each has
  cancel_each-open x [] w = ground arith
  cancel_each-open x (i ∷ is) (e, r) = ground (
    arith,
    cancel_each-open x is (
      record e { open_orders = discard i e.open_orders },
      record r { gateway = G.cancel i r.gateway },
    ),
    has-discard x i e.open_orders,
  )

  cancel_each-keeps :
      (is : List OrderId) (w : Work C G)
      → ((cancel_each C G is w).0.strategy ≡ w.0.strategy)
        × ((cancel_each C G is w).1.entries ≡ w.1.entries)
  unfolding cancel_each
  cancel_each-keeps [] w = (refl, refl)
  cancel_each-keeps (i ∷ is) (e, r) = cancel_each-keeps is (
    record e { open_orders = discard i e.open_orders },
    record r { gateway = G.cancel i r.gateway },
  )

  -- A strategy whose hook does not raise, after its orders are cancelled.
  abbrev quiet_stop : Option Text → Work C G → Work C G
  quiet_stop reason (e, r) = cancel_open_orders C G ((stopped C G reason e).0, r)

  quiet_stop-IsStopped : (reason : Option Text) (w : Work C G) → IsStopped (quiet_stop reason w).0
  unfolding stop
  quiet_stop-IsStopped reason (e, r) = record {
    halted =
        ap (λ s. s.is_running) (cancel_each-keeps e.open_orders ((stopped C G reason e).0, r)).0;
    none_open =
        has-nothing (quiet_stop reason (e, r)).0.open_orders
          (λ x. ground (arith, cancel_each-open x e.open_orders ((stopped C G reason e).0, r)));
  }

  set-StoppedBut :
      (n : Text) (ns : List Text) (e : Entry M) (r r' : Runtime C G)
      → r'.entries ≡ Dict.put n e r.entries
      → IsStopped e
      → StoppedBut (n ∷ ns) r
      → StoppedBut ns r'
  unfolding has
  set-StoppedBut n ns e r r' put s h j d found =
      let at : Dict.get j (Dict.put n e r.entries) ≡ some d = ap (Dict.get j) (sym put) ∙ found in
      elim (Bool-cases (text_beq n j)) [
        | inl t ↦
            let same : some e ≡ some d =
              sym (rw t refl) ∙ sym (Dict.get-put n j e r.entries) ∙ at in
            let it : e ≡ d = ground (arith, same) in inl (subst IsStopped it s)
        | inr t ↦
            let old : Dict.get j r.entries ≡ some d =
              sym (Dict.get-put n j e r.entries ∙ rw t refl) ∙ at in
            elim (h j d old) [ inl k ↦ inl k | inr k ↦ inr (ground (arith, k, t)) ]
      ]

  -- The names of a list are in the table.
  abbrev pub Present : List Text → Runtime C G → Type 0
  Present ns r = All (λ n. (e : Entry M) × (Dict.get n r.entries ≡ some e)) ns

  set-Present :
      (n : Text) (ns : List Text) (e : Entry M) (r r' : Runtime C G)
      → r'.entries ≡ Dict.put n e r.entries
      → Present ns r
      → Present ns r'
  set-Present n ns e r r' put h = All-imp _ _ ns there h
    where
      there :
          (j : Text)
          → (d : Entry M) × (Dict.get j r.entries ≡ some d)
          → (d : Entry M) × (Dict.get j r'.entries ≡ some d)
      there j (d, found) =
          let at : Dict.get j r'.entries ≡ (if text_beq n j then some e else some d) =
            ap (Dict.get j) put ∙ Dict.get-put n j e r.entries ∙ rw found refl in
          elim (Bool-cases (text_beq n j)) [
            | inl t ↦ (e, at ∙ rw t refl)
            | inr t ↦ (d, at ∙ rw t refl)
          ]

  stop_strategy-quiet :
      (n : Text) (reason : Option Text) (r : Runtime C G) (e : Entry M)
      → Dict.get n r.entries ≡ some e
      → (C.on_stop e.memory).0 ≡ none
      → stop_strategy C G n reason r ≡ (put_back C G n (quiet_stop reason (e, r)), none)
  unfolding stop_strategy
  stop_strategy-quiet n reason r e found calm = rw (found, calm) refl

  stop_each-AllStopped :
      ((m : M) → (C.on_stop m).0 ≡ none)
      → (ns : List Text) (reason : Text) (r : Runtime C G) → Present ns r
      → StoppedBut ns r
      → (r' : Runtime C G) × (stop_each C G ns reason r ≡ (r', none)) × AllStopped r'
  unfolding stop_each has
  stop_each-AllStopped calm [] reason r there h =
      (r, refl, λ n e found. elim (h n e found) [ inl s ↦ s | inr c ↦ absurd (cc) ])
  stop_each-AllStopped calm (n ∷ ns) reason r there h =
      let (e, found) = there.0 in
      let w = quiet_stop (some reason) (e, r) in
      let r' = put_back C G n w in
      let put : r'.entries ≡ Dict.put n w.0 r.entries =
        ap (Dict.put n w.0)
          (cancel_each-keeps e.open_orders ((stopped C G (some reason) e).0, r)).1 in
      let s = quiet_stop-IsStopped (some reason) (e, r) in
      let rest =
        stop_each-AllStopped calm ns reason r' (set-Present n ns w.0 r r' put there.1)
          (set-StoppedBut n ns w.0 r r' put s h) in
      (
        rest.0,
        ap (λ o. chain o (stop_each C G ns reason))
              (stop_strategy-quiet n (some reason) r e found (calm e.memory))
            ∙ rest.1,
        rest.2,
      )

  -- With all strategies stopped an event changes entries only by fills, which keep them stopped, and makes
  -- no call of the gateway.
  abbrev pub Quiet : Runtime C G → G.State → Type 0
  Quiet r g = AllStopped r × (r.gateway ≡ g)

  turns-Quiet :
      (turn : Turn C G) (s : Symbol) (ns : List Text) (r : Runtime C G) (g : G.State)
      → Quiet r g
      → Quiet (turns C G turn s ns r).0 g
  unfolding turns
  turns-Quiet turn s [] r g q = q
  turns-Quiet turn s (n ∷ ns) r g q =
      chain-keeps (λ x. Quiet x g) (turn_if_there C G turn s n r (Dict.get n r.entries))
        (turns C G turn s ns)
        (elim (Option-cases (Dict.get n r.entries)) [
          | inl none_there ↦ rw none_there q
          | inr (e, found) ↦
              let skip : skips C G s e ≡ true = rw ((q.0 n e found).halted) refl in
              rw (found, skip) q
        ])
        (λ x p. turns-Quiet turn s ns x g p)

  close-IsStopped :
      (x : Option Text) (i : OrderId) (o : Order) (e : Entry M)
      → IsStopped e
      → IsStopped (close_unless C G x i o e)
  unfolding discard
  close-IsStopped (some t) i o e s = s
  close-IsStopped none i o e s = elim (Bool-cases (is_active o)) [
    | inl a ↦ rw a s
    | inr a ↦ rw a (record { halted = s.halted; none_open = ap (discard i) s.none_open })
  ]

  filled-IsStopped :
      (i : OrderId) (o : Order) (t : Trade) (e : Entry M)
      → IsStopped e
      → IsStopped (filled_entry C G i o t e).0
  unfolding on_fill mark_to_market
  filled-IsStopped i o t e s =
      let (x, m) = C.after_fill o t e.memory in
      close-IsStopped x i o (record e { strategy = on_fill o t e.strategy; memory = m })
        (record { halted = s.halted; none_open = s.none_open })

  set-Quiet :
      (n : Text) (e : Entry M) (r : Runtime C G) (g : G.State)
      → IsStopped e
      → Quiet r g
      → Quiet (set_entry C G n e r) g
  unfolding has
  set-Quiet n e r g s (all, same) = (
    λ j d found.
        elim (set-StoppedBut n [] e r (set_entry C G n e r) refl s (λ i c at. inl (all i c at)) j d
          found) [ inl k ↦ k | inr c ↦ absurd (cc) ],
    same,
  )

  fill_owned-Quiet :
      (i : OrderId) (t : Trade) (r : Runtime C G) (g : G.State)
      → Quiet r g
      → Quiet (fill_owned C G i t r).0 g
  unfolding fill_owned
  fill_owned-Quiet i t r g q = elim (Option-cases (Dict.get i r.owned_orders)) [
    | inl free ↦ rw free q
    | inr ((n, o), owned) ↦ rw owned (elim (Option-cases (Dict.get n r.entries)) [
      | inl none_there ↦ rw none_there q
      | inr (e, found) ↦
          let o' = G.current r.gateway o in
          rw found (
            set-Quiet n (filled_entry C G i o' t e).0 r g
              (filled-IsStopped i o' t e (q.0 n e found)) q)
    ])
  ]

  dispatch-Quiet :
      (s : Symbol) (b : EventBody) (r : Runtime C G) (g : G.State)
      → Quiet r g
      → Quiet (dispatch C G s b r).0 g
  unfolding on_book_event on_trade_event
  dispatch-Quiet s (book_update_event (some b)) r g q =
      turns-Quiet (show_book C G b) s (Dict.keys r.entries) r g q
  dispatch-Quiet s (trade_event (some t)) r g q =
      let first = fill_owned C G t.maker_order_id t r in
      chain-keeps (λ x. Quiet x g) (chain first (fill_owned C G t.taker_order_id t))
        (show_trade_all C G s t)
        (chain-keeps (λ x. Quiet x g) first (fill_owned C G t.taker_order_id t)
          (fill_owned-Quiet t.maker_order_id t r g q)
          (λ x p. fill_owned-Quiet t.taker_order_id t x g p))
        (λ x p. turns-Quiet (show_trade C G t) s (Dict.keys x.entries) x g p)
  dispatch-Quiet s _ r g q = q

  replay-Quiet :
      (ds : List DomainEvent) (r : Runtime C G) (g : G.State)
      → Quiet r g
      → Quiet (replay C G ds r).0 g
  unfolding replay process_event
  replay-Quiet [] r g q = q
  replay-Quiet (d ∷ ds) r g q =
      chain-keeps (λ x. Quiet x g) (process_event C G d r) (replay C G ds)
        (dispatch-Quiet d.symbol d.body (count_event C G r) g q) (λ x p. replay-Quiet ds x g p)

  keys-Present :
      (m : List (Text × Entry M)) → All (λ n. (e : Entry M) × (Dict.get n m ≡ some e)) (Dict.keys m)
  unfolding Dict.get
  keys-Present [] = tt
  keys-Present ((j, e) ∷ m) = (
    (e, ground (arith, text_beq_iff j j)),
    All-imp _ _ (Dict.keys m)
        (λ n (d, found). elim (Bool-cases (text_beq j n)) [
          | inl t ↦ (e, rw t refl)
          | inr t ↦ (d, rw t found)
        ])
        (keys-Present m),
  )

  has-keys :
      (n : Text) (e : Entry M) (m : List (Text × Entry M))
      → Dict.get n m ≡ some e
      → has n (Dict.keys m) ≡ true
  unfolding Dict.get has
  has-keys n e [] found = absurd (cc)
  has-keys n e ((j, d) ∷ m) found = elim (Bool-cases (text_beq j n)) [
    | inl t ↦ ground (arith, t)
    | inr t ↦ ground (arith, t, has-keys n e m (sym (rw t refl) ∙ found))
  ]

  -- Where no strategy's `on_stop` raises, the kill switch for all strategies succeeds. After it every
  -- strategy is stopped and has no open order; and whatever events follow, up to one at which a hook
  -- raises, all stay so, and no order and no cancellation goes to the gateway. It holds of every class of
  -- strategies whose overrides change its own memory only.
  pub kill_switch_lem :
      ((m : M) → (C.on_stop m).0 ≡ none)
      → (reason : Text) (r : Runtime C G)
      → (r' : Runtime C G) × (engage_kill_switch C G none reason r ≡ (r', none))
        × AllStopped r'
        × ((ds : List DomainEvent)
            → AllStopped (replay C G ds r').0 × ((replay C G ds r').0.gateway ≡ r'.gateway))
  unfolding engage_kill_switch
  kill_switch_lem calm reason r =
      let (r', done, all) =
        stop_each-AllStopped calm (Dict.keys r.entries) reason r (keys-Present r.entries)
          (λ n e found. inr (has-keys n e r.entries found)) in
      (
        count_kill C G r',
        rw done refl,
        all,
        λ ds. replay-Quiet ds (count_kill C G r') r'.gateway (all, refl),
      )

  -- The gateway after the cancellation of some orders, one after the other.
  abbrev pub cancelled_all : List OrderId → G.State → G.State
  cancelled_all [] g = g
  cancelled_all (i ∷ is) g = cancelled_all is (G.cancel i g)

  cancel_each-gateway :
      (is : List OrderId) (w : Work C G)
      → (cancel_each C G is w).1.gateway ≡ cancelled_all is w.1.gateway
  unfolding cancel_each
  cancel_each-gateway [] w = refl
  cancel_each-gateway (i ∷ is) (e, r) = cancel_each-gateway is (
    record e { open_orders = discard i e.open_orders },
    record r { gateway = G.cancel i r.gateway },
  )

  -- What is the same whether the hook raises or not.
  pub record Stops (n : Text) (reason : Option Text) (r r' : Runtime C G) (e' : Entry M)
      : Type 0 where
    pub found : Dict.get n r'.entries ≡ some e'
    pub halted : e'.strategy.is_running ≡ false
    pub reason_kept : e'.strategy.state.killed_reason ≡ reason
    pub others : (j : Text) → n ≢ j → Dict.get j r'.entries ≡ Dict.get j r.entries

  pub data StopAnswer (n : Text) (reason : Option Text) (r : Runtime C G) (e : Entry M)
      : Runtime C G × Option RuntimeError → Type 0 where
    cancels :
        (r' : Runtime C G) (e' : Entry M)
        → (C.on_stop e.memory).0 ≡ none
        → Stops n reason r r' e'
        → e'.open_orders ≡ []
        → r'.gateway ≡ cancelled_all e.open_orders r.gateway
        → StopAnswer n reason r e (r', none)
    breaks_off :
        (t : Text) (r' : Runtime C G) (e' : Entry M)
        → (C.on_stop e.memory).0 ≡ some t
        → Stops n reason r r' e'
        → e'.open_orders ≡ e.open_orders
        → r'.gateway ≡ r.gateway
        → StopAnswer n reason r e (r', some (hook_raised t))

  -- To stop a strategy that is registered stops it for the reason given, and leaves the other strategies as
  -- they were. If its `on_stop` does not raise, the call succeeds, the strategy has no open order, and the
  -- gateway got the cancellation of each order that it had open, in turn, and nothing else. If it
  -- raises, so does the call, the open orders stay, and the gateway is not called. It holds of every class
  -- of strategies whose overrides change its own memory only.
  pub stop_strategy_lem :
      (n : Text) (reason : Option Text) (r : Runtime C G) (e : Entry M)
      → Dict.get n r.entries ≡ some e
      → StopAnswer n reason r e (stop_strategy C G n reason r)
  unfolding stop_strategy stop
  stop_strategy_lem n reason r e found = elim (Option-cases (C.on_stop e.memory).0) [
    | inl calm ↦
        let w = quiet_stop reason (e, r) in
        let keeps = cancel_each-keeps e.open_orders ((stopped C G reason e).0, r) in
        rw (found, calm)
          (cancels (put_back C G n w) w.0 calm
            (record {
              found = Dict.get-put_self n w.0 w.1.entries;
              halted = (quiet_stop-IsStopped reason (e, r)).halted;
              reason_kept = ap (λ s. s.state.killed_reason) keeps.0;
              others =
                  λ j other. Dict.get-put_ne n j w.0 w.1.entries other ∙ ap (Dict.get j) keeps.1;
            })
            (quiet_stop-IsStopped reason (e, r)).none_open
            (cancel_each-gateway e.open_orders ((stopped C G reason e).0, r)))
    | inr (t, raised) ↦
        let e' = (stopped C G reason e).0 in
        rw (found, raised)
          (breaks_off t (set_entry C G n e' r) e' raised
            (record {
              found = Dict.get-put_self n e' r.entries;
              halted = refl;
              reason_kept = refl;
              others = λ j other. Dict.get-put_ne n j e' r.entries other;
            })
            refl refl)
  ]

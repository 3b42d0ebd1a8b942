-- ===== src/Engine/History.antt =====
-- All that can happen to a `MatchingEngine` (engine/core/matching_engine.py) from its creation on, and
-- what a submission does beside the order's own book.
use mini_hft_system.Prelude.{◌≡◌, ◌≢◌, ◌≤◌, refl, [], ◌∷◌, Bool, true, false, length, if◌then◌else◌}
use mini_hft_system.Prelude.Dict
use mini_hft_system.Prelude.Tests.{text_eq}
use mini_hft_system.Types.{OrderId, Symbol}
use mini_hft_system.Order.{Order}
use mini_hft_system.Book.{MatchResult}
use mini_hft_system.Book.Level.{PriceLevel}
use mini_hft_system.Book.Prices.{SortedDict}
use mini_hft_system.Engine.{
  Engine, EngineReadings, Reply, new_engine, register_symbol, set_event_callback, submit_order,
  cancel_order, reject, accept,
}
use mini_hft_system.Engine.Cancel.{cancel_order-IsEngine}
use mini_hft_system.Engine.State.{IsEngine, new_engine-IsEngine, register_symbol-IsEngine}
use mini_hft_system.Engine.Submit.{
  submit_order-IsEngine, submit_order-Decides, Decides, rejects, accepts,
}

module _ (S : SortedDict PriceLevel) where
  -- The calls that change an engine. No order arrives that is filled beyond its quantity.
  pub data Call (e : Engine S) : Engine S → Type 0 where
    registers : (name : Symbol) → Call e (register_symbol S e name)
    listens : Call e (set_event_callback S e)
    submits :
        (env : EngineReadings) (o : Order)
        → o.filled_quantity ≤ o.quantity
        → Call e (submit_order S env e o).engine
    cancels : (env : EngineReadings) (i : OrderId) → Call e (cancel_order S env e i).engine

  pub data Session : Engine S → Type 0 where
    begun : (listening : Bool) → Session (new_engine S listening)
    called : {e e' : Engine S} → Session e → Call e e' → Session e'

  Call-IsEngine : {e e' : Engine S} → IsEngine S e → Call e e' → IsEngine S e'
  Call-IsEngine {e} v (registers name) = register_symbol-IsEngine S e name v
  Call-IsEngine {e} v listens = record { books = v.books; counted = v.counted }
  Call-IsEngine {e} v (submits env o w) = submit_order-IsEngine S env e o v w
  Call-IsEngine {e} v (cancels env i) = cancel_order-IsEngine S env e i v

  -- Every engine that calls lead to from a new one, where no order is submitted that is filled beyond its
  -- quantity, is valid: its books keep their invariant, what can
  -- be cancelled is in the order map, and each order received was rejected or is in the order map.
  pub Session-IsEngine : {e : Engine S} → Session e → IsEngine S e
  Session-IsEngine (begun listening) = new_engine-IsEngine S listening
  Session-IsEngine (called s c) = Call-IsEngine (Session-IsEngine s) c

  module _ (env : EngineReadings) (e : Engine S) (o : Order) where
    emitted :
        {A : Type 0} (x : A) (l : Bool) → length (if l then x ∷ [] else []) ≡ (if l then 1 else 0)
    emitted x true = refl
    emitted x false = refl

    decided-isolated :
        (t : Reply S MatchResult) (name : Symbol)
        → Decides S env e o t
        → o.symbol ≢ name
        → (Dict.get name t.engine.books ≡ Dict.get name e.books)
          × (length t.events ≡ (if e.on_event then 1 else 0))
    unfolding reject accept
    decided-isolated t name (rejects r h) d = (refl, emitted _ e.on_event)
    decided-isolated t name (accepts b h p) d =
        (Dict.get-put_ne o.symbol name _ e.books d, emitted _ e.on_event)

    -- A submission does not touch the book of any other symbol, and hands exactly one event to the
    -- callback if one is installed, none otherwise.
    pub submit_order-isolated :
        (name : Symbol)
        → o.symbol ≢ name
        → (Dict.get name (submit_order S env e o).engine.books ≡ Dict.get name e.books)
          × (length (submit_order S env e o).events ≡ (if e.on_event then 1 else 0))
    submit_order-isolated name =
        decided-isolated (submit_order S env e o) name (submit_order-Decides S env e o)

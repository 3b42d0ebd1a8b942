-- ===== src/Events/Bus.antt =====
-- `EventBus` of shared/events.py. The queues stand in a store; a queue's number is its place there, and a
-- topic lists the numbers of the queues that have subscribed to it.
use mini_hft_system.Prelude.{
  ℕ, zero, suc, ◌+◌, List, [], ◌∷◌, ◌++◌, Option, none, some, Bool, ◌&&◌, ltb, leb, length,
  if◌then◌else◌,
}
use mini_hft_system.Prelude.Dict
use mini_hft_system.Prelude.Tests.{text_eq}
use mini_hft_system.Types.{EventType}
use mini_hft_system.Events.{DomainEvent, body_type, type_eq}

abbrev pub Name : Type 0
Name = List ℕ

pub record Subscriber : Type 0 where
  pub name : Option Name
  pub queue : List DomainEvent

pub record EventBus : Type 0 where
  pub queue_depth : ℕ
  pub subscribers : List Subscriber
  pub topics : List (EventType × List ℕ)
  pub dropped : ℕ
  pub subscriber_dropped : List (Name × ℕ)

-- `EventBus(queue_depth)`
abbrev pub new_bus : ℕ → EventBus
new_bus depth = record {
  queue_depth = depth;
  subscribers = [];
  topics = [];
  dropped = 0;
  subscriber_dropped = [];
}

abbrev pub ids_or_empty : Option (List ℕ) → List ℕ
ids_or_empty none = []
ids_or_empty (some ids) = ids

abbrev pub count_or_zero : Option ℕ → ℕ
count_or_zero none = 0
count_or_zero (some n) = n

-- An empty name counts as none.
abbrev pub given_name : Option Name → Option Name
given_name none = none
given_name (some []) = none
given_name (some (c ∷ cs)) = some (c ∷ cs)

abbrev pub subscribe_topics :
    ℕ → List EventType → List (EventType × List ℕ) → List (EventType × List ℕ)
subscribe_topics i [] topics = topics
subscribe_topics i (t ∷ ts) topics =
    subscribe_topics i ts (Dict.put t (ids_or_empty (Dict.get t topics) ++ (i ∷ [])) topics)

-- `subscribe`: the number of the new queue, and the bus.
unfoldable pub subscribe : EventBus → List EventType → Option Name → ℕ × EventBus
subscribe bus types name =
    let i = length bus.subscribers in
    (
      i,
      record bus {
        subscribers = bus.subscribers ++ (record { name = given_name name; queue = [] } ∷ []);
        topics = subscribe_topics i types bus.topics;
      },
    )

-- `asyncio.Queue(maxsize)`: a size of 0 sets no limit.
abbrev pub is_full : ℕ → List DomainEvent → Bool
is_full depth q = ltb 0 depth && leb depth (length q)

unfoldable pub subscriber_at : ℕ → List Subscriber → Option Subscriber
subscriber_at i [] = none
subscriber_at zero (s ∷ ss) = some s
subscriber_at (suc i) (s ∷ ss) = subscriber_at i ss

unfoldable pub set_subscriber : ℕ → Subscriber → List Subscriber → List Subscriber
set_subscriber i x [] = []
set_subscriber zero x (s ∷ ss) = x ∷ ss
set_subscriber (suc i) x (s ∷ ss) = s ∷ set_subscriber i x ss

abbrev pub count_drop : EventBus → Option Name → EventBus
count_drop bus none = record bus { dropped = bus.dropped + 1 }
count_drop bus (some n) = record bus {
  dropped = bus.dropped + 1;
  subscriber_dropped =
      Dict.put n (count_or_zero (Dict.get n bus.subscriber_dropped) + 1) bus.subscriber_dropped;
}

-- `put_nowait`, or the count of a drop where it raises `QueueFull`.
abbrev pub offer_to : EventBus → DomainEvent → ℕ → Option Subscriber → EventBus
offer_to bus e i none = bus
offer_to bus e i (some s) =
    if is_full bus.queue_depth s.queue then count_drop bus s.name else record bus {
      subscribers = set_subscriber i (record s { queue = s.queue ++ (e ∷ []) }) bus.subscribers;
    }

unfoldable pub offer : EventBus → DomainEvent → ℕ → EventBus
offer bus e i = offer_to bus e i (subscriber_at i bus.subscribers)

unfoldable pub offer_all : EventBus → DomainEvent → List ℕ → EventBus
offer_all bus e [] = bus
offer_all bus e (i ∷ is) = offer_all (offer bus e i) e is

unfoldable pub publish_nowait : EventBus → DomainEvent → EventBus
publish_nowait bus e = offer_all bus e (ids_or_empty (Dict.get (body_type e.body) bus.topics))

unfoldable pub publish_all : EventBus → List DomainEvent → EventBus
publish_all bus [] = bus
publish_all bus (e ∷ es) = publish_all (publish_nowait bus e) es

-- `dropped_events_for`: the `defaultdict` stores the 0 that it returns for a new name.
abbrev pub dropped_events_for : EventBus → Name → ℕ × EventBus
dropped_events_for bus n =
    let count = count_or_zero (Dict.get n bus.subscriber_dropped) in
    (count, record bus { subscriber_dropped = Dict.put n count bus.subscriber_dropped })

-- `get_nowait` of a queue: the oldest event.
abbrev pub take_first : List DomainEvent → Option (DomainEvent × List DomainEvent)
take_first [] = none
take_first (e ∷ es) = some (e, es)

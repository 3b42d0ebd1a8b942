-- ===== src/Events/Keeps.antt =====
-- The invariant of the bus of shared/events.py, and what a publication delivers.
use mini_hft_system.Prelude.{
  ℕ, zero, suc, ◌+◌, ◌<◌, ◌≤◌, ◌≡◌, ◌≢◌, refl, sym, List, [], ◌∷◌, ◌++◌, Option, none, some, false,
  length, length-append, if◌then◌else◌, arith, All, All-imp, All-append, Bool-cases, Option-cases,
  inl, inr, subst, subst₂,
}
use mathlib.Core.Option
use mini_hft_system.Prelude.Dict
use mini_hft_system.Types.{EventType}
use mini_hft_system.Events.{DomainEvent, body_type, type_eq}
use mini_hft_system.Events.Bus.{
  EventBus, Subscriber, Name, is_full, subscriber_at, set_subscriber, offer, offer_to, offer_all,
  publish_nowait, ids_or_empty, subscribe, subscribe_topics, given_name, new_bus, publish_all,
}
use mini_hft_system.Events.Delivery.{
  queued, member, DistinctIds, receive, QueueBounded, offer-depth, offer_all-accounts, offer_all-at,
  drop-subscribers,
}

-- A topic names queues that are there, each once.
pub record IsTopic (n : ℕ) (ids : List ℕ) : Type 0 where
  pub present : All (λ i. i < n) ids
  pub once : DistinctIds ids

abbrev pub AreTopics : ℕ → List (EventType × List ℕ) → Type 0
AreTopics n topics = All (λ t. IsTopic n t.1) topics

pub record IsBus (bus : EventBus) : Type 0 where
  pub limited : 0 < bus.queue_depth
  pub topics : AreTopics (length bus.subscribers) bus.topics
  pub bounded : All (QueueBounded bus.queue_depth) bus.subscribers

abbrev pub ids_of : EventBus → EventType → List ℕ
ids_of bus t = ids_or_empty (Dict.get t bus.topics)

ids-IsTopic_at :
    (n : ℕ) (t : EventType) (topics : List (EventType × List ℕ))
    → AreTopics n topics
    → IsTopic n (ids_or_empty (Dict.get t topics))
ids-IsTopic_at n t topics a = elim (Option-cases (Dict.get t topics)) [
  | inl h ↦ rw h (record { present = tt; once = tt })
  | inr (ids, h) ↦ rw h (Dict.get-All (IsTopic n) t ids topics a h)
]

All-set :
    (P : Subscriber → Type 0) (i : ℕ) (x : Subscriber) (ss : List Subscriber)
    → P x
    → All P ss
    → All P (set_subscriber i x ss)
unfolding set_subscriber
All-set P i x [] h a = tt
All-set P zero x (s ∷ ss) h a = (h, a.1)
All-set P (suc i) x (s ∷ ss) h a = (a.0, All-set P i x ss h a.1)

module _ (e : DomainEvent) where
  offer-bounded :
      (bus : EventBus) (i : ℕ)
      → 0 < bus.queue_depth
      → All (QueueBounded bus.queue_depth) bus.subscribers
      → All (QueueBounded bus.queue_depth) (offer bus e i).subscribers
  unfolding offer
  offer-bounded bus i l a = by_subscriber (subscriber_at i bus.subscribers)
    where
      by_subscriber :
          (s : Option Subscriber)
          → All (QueueBounded bus.queue_depth) (offer_to bus e i s).subscribers
      by_subscriber none = a
      by_subscriber (some s) = elim (Bool-cases (is_full bus.queue_depth s.queue)) [
        | inl f ↦ rw (f, drop-subscribers e bus s.name) a
        | inr f ↦
            let x : Subscriber = record s { queue = s.queue ++ (e ∷ []) } in
            let room : length x.queue ≤ bus.queue_depth =
              ground (arith, f, l, length-append s.queue (e ∷ [])) in
            rw f (All-set (QueueBounded bus.queue_depth) i x bus.subscribers room a)
      ]

  offer_all-bounded :
      (ids : List ℕ) (bus : EventBus)
      → 0 < bus.queue_depth
      → All (QueueBounded bus.queue_depth) bus.subscribers
      → All (QueueBounded bus.queue_depth) (offer_all bus e ids).subscribers
  unfolding offer_all
  offer_all-bounded [] bus l a = a
  offer_all-bounded (i ∷ is) bus l a =
      let same = offer-depth e bus i in
      subst (λ d. All (QueueBounded d) (offer_all (offer bus e i) e is).subscribers) same
        (offer_all-bounded is (offer bus e i) (subst (λ d. 0 < d) (sym same) l) (
          subst (λ d. All (QueueBounded d) (offer bus e i).subscribers) (sym same)
            (offer-bounded bus i l a)))

module _ (bus : EventBus) (e : DomainEvent) (v : IsBus bus) where
  ids-IsTopic : IsTopic (length bus.subscribers) (ids_of bus (body_type e.body))
  ids-IsTopic = ids-IsTopic_at (length bus.subscribers) (body_type e.body) bus.topics v.topics

  -- A publication offers the event to each queue that has subscribed to its type, and to no other: such a
  -- queue has the event behind all others, unless it was full and stays as it was. Each offer is
  -- accounted for: what stands in the queues and what was dropped grow together by the number of the
  -- subscriptions. It holds of every valid bus.
  pub publish_nowait_lem :
      (j : ℕ)
      → let bus' = publish_nowait bus e in
        let ids = ids_of bus (body_type e.body) in
        (subscriber_at j bus'.subscribers ≡ (
          if member j ids
          then Option.map (receive bus.queue_depth e) (subscriber_at j bus.subscribers)
          else subscriber_at j bus.subscribers))
        × (queued bus'.subscribers + bus'.dropped
            ≡ queued bus.subscribers + bus.dropped + length ids)
  unfolding publish_nowait
  publish_nowait_lem j = (
    offer_all-at e (ids_of bus (body_type e.body)) bus j ids-IsTopic.once,
    (offer_all-accounts e (ids_of bus (body_type e.body)) bus ids-IsTopic.present).0,
  )

  pub publish_nowait-IsBus : IsBus (publish_nowait bus e)
  unfolding publish_nowait
  publish_nowait-IsBus =
      let ids = ids_of bus (body_type e.body) in
      let h = offer_all-accounts e ids bus ids-IsTopic.present in
      record {
        limited = subst (λ d. 0 < d) (sym h.3) v.limited;
        topics = subst₂ AreTopics (sym h.1) (sym h.2) v.topics;
        bounded =
            subst (λ d. All (QueueBounded d) (offer_all bus e ids).subscribers) (sym h.3)
              (offer_all-bounded e ids bus v.limited v.bounded);
      }

pub publish_all-IsBus :
    (es : List DomainEvent) (bus : EventBus) → IsBus bus → IsBus (publish_all bus es)
unfolding publish_all
publish_all-IsBus [] bus v = v
publish_all-IsBus (e ∷ es) bus v =
    publish_all-IsBus es (publish_nowait bus e) (publish_nowait-IsBus bus e v)

-- A list of types with none twice, and none of whose topics names the new queue yet.
abbrev Awaits : ℕ → List (EventType × List ℕ) → List EventType → Type 0
Awaits n topics [] = Unit
Awaits n topics (t ∷ ts) = All (λ i. i < n) (ids_or_empty (Dict.get t topics)) × Awaits n topics ts

abbrev pub DistinctTypes : List EventType → Type 0
DistinctTypes [] = Unit
DistinctTypes (t ∷ ts) = All (λ u. t ≢ u) ts × DistinctTypes ts

fresh-once :
    (n : ℕ) (ids : List ℕ) → All (λ i. i < n) ids → DistinctIds ids → DistinctIds (ids ++ (n ∷ []))
fresh-once n [] a d = (refl, tt)
fresh-once n (i ∷ is) a d = (absent i is a.0 d.0, fresh-once n is a.1 d.1)
  where
    absent : (j : ℕ) (js : List ℕ) → j < n → member j js ≡ false → member j (js ++ (n ∷ [])) ≡ false
    absent j [] h g = ground (arith, h)
    absent j (k ∷ ks) h g = ground (arith, g, absent j ks h)

put-Awaits :
    (n : ℕ) (t : EventType) (ids : List ℕ) (topics : List (EventType × List ℕ))
    (ts : List EventType)
    → All (λ u. t ≢ u) ts
    → Awaits n topics ts
    → Awaits n (Dict.put t ids topics) ts
put-Awaits n t ids topics [] a w = tt
put-Awaits n t ids topics (u ∷ ts) a w = (
  subst (λ o. All (λ i. i < n) (ids_or_empty o)) (sym (Dict.get-put_ne t u ids topics a.0)) w.0,
  put-Awaits n t ids topics ts a.1 w.1,
)

subscribe_topics-AreTopics :
    (n : ℕ) (ts : List EventType) (topics : List (EventType × List ℕ))
    → AreTopics (suc n) topics
    → DistinctTypes ts
    → Awaits n topics ts
    → AreTopics (suc n) (subscribe_topics n ts topics)
subscribe_topics-AreTopics n [] topics a d w = a
subscribe_topics-AreTopics n (t ∷ ts) topics a d w =
    let ids = ids_or_empty (Dict.get t topics) in
    let old = ids-IsTopic_at (suc n) t topics a in
    let new : IsTopic (suc n) (ids ++ (n ∷ [])) = record {
      present = All-append (λ i. i < suc n) ids (n ∷ []) old.present (omega arith, tt);
      once = fresh-once n ids w.0 old.once;
    } in
    subscribe_topics-AreTopics n ts (Dict.put t (ids ++ (n ∷ [])) topics)
      (Dict.put-All (IsTopic (suc n)) t (ids ++ (n ∷ [])) topics new a) d.1
      (put-Awaits n t (ids ++ (n ∷ [])) topics ts d.0 w.1)

all-Awaits :
    (n : ℕ) (topics : List (EventType × List ℕ)) (ts : List EventType)
    → AreTopics n topics
    → Awaits n topics ts
all-Awaits n topics [] a = tt
all-Awaits n topics (t ∷ ts) a = ((ids-IsTopic_at n t topics a).present, all-Awaits n topics ts a)

wider-AreTopics :
    (n : ℕ) (topics : List (EventType × List ℕ)) → AreTopics n topics → AreTopics (suc n) topics
wider-AreTopics n topics =
    All-imp (λ t. IsTopic n t.1) (λ t. IsTopic (suc n) t.1) topics
      λ t v. record {
        present = All-imp (λ i. i < n) (λ i. i < suc n) t.1 (λ i h. omega (arith, h)) v.present;
        once = v.once;
      }

pub new_bus-IsBus : (depth : ℕ) → 0 < depth → IsBus (new_bus depth)
new_bus-IsBus depth h = record { limited = h; topics = tt; bounded = tt }

-- A new subscription to types with none twice keeps a valid bus valid.
pub subscribe-IsBus :
    (bus : EventBus) (types : List EventType) (name : Option Name)
    → IsBus bus
    → DistinctTypes types
    → IsBus (subscribe bus types name).1
unfolding subscribe
subscribe-IsBus bus types name v d =
    let n = length bus.subscribers in
    let x : Subscriber = record { name = given_name name; queue = [] } in
    let more : length (bus.subscribers ++ (x ∷ [])) ≡ suc n =
      omega (arith, length-append bus.subscribers (x ∷ [])) in
    record {
      limited = v.limited;
      topics =
          subst (λ k. AreTopics k (subscribe_topics n types bus.topics)) (sym more)
            (subscribe_topics-AreTopics n types bus.topics (wider-AreTopics n bus.topics v.topics) d
              (all-Awaits n bus.topics types v.topics));
      bounded =
          All-append (QueueBounded bus.queue_depth) bus.subscribers (x ∷ []) v.bounded
            (omega arith, tt);
    }

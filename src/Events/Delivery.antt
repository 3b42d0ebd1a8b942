-- ===== src/Events/Delivery.antt =====
-- What a publication on the bus of shared/events.py does to the queues and the counters.
use mini_hft_system.Prelude.{
  ℕ, zero, suc, ◌+◌, ◌<◌, ◌≤◌, ◌≡◌, ◌∙◌, refl, sym, ap, List, [], ◌∷◌, ◌++◌, Option, none, some,
  Bool, false, ◌==◌, ◌||◌, length, length-append, if◌then◌else◌, arith, All, All-imp, Bool-cases,
  inl, inr, ==_iff,
}
use mathlib.Core.Option
use mini_hft_system.Events.{DomainEvent, type_eq}
use mini_hft_system.Events.Bus.{
  EventBus, Subscriber, Name, is_full, subscriber_at, set_subscriber, count_drop, offer, offer_to,
  offer_all,
}

-- What stands in all queues.
abbrev pub queued : List Subscriber → ℕ
queued [] = 0
queued (s ∷ ss) = length s.queue + queued ss

abbrev pub member : ℕ → List ℕ → Bool
member i [] = false
member i (j ∷ js) = (j == i) || member i js

abbrev pub DistinctIds : List ℕ → Type 0
DistinctIds [] = Unit
DistinctIds (i ∷ is) = (member i is ≡ false) × DistinctIds is

-- A subscriber that is offered an event takes it unless its queue is full.
abbrev pub receive : ℕ → DomainEvent → Subscriber → Subscriber
receive depth e s = if is_full depth s.queue then s else record s { queue = s.queue ++ (e ∷ []) }

at-set :
    (i j : ℕ) (x : Subscriber) (ss : List Subscriber)
    → subscriber_at j (set_subscriber i x ss) ≡ (
        if i == j
        then Option.map (λ (y : Subscriber). x) (subscriber_at j ss)
        else subscriber_at j ss)
unfolding subscriber_at set_subscriber
at-set i j x [] = ground arith
at-set zero zero x (s ∷ ss) = refl
at-set zero (suc j) x (s ∷ ss) = ground arith
at-set (suc i) zero x (s ∷ ss) = ground arith
at-set (suc i) (suc j) x (s ∷ ss) = ground (arith, at-set i j x ss)

length-set :
    (i : ℕ) (x : Subscriber) (ss : List Subscriber) → length (set_subscriber i x ss) ≡ length ss
unfolding set_subscriber
length-set i x [] = refl
length-set zero x (s ∷ ss) = refl
length-set (suc i) x (s ∷ ss) = ap suc (length-set i x ss)

queued-set :
    (i : ℕ) (s x : Subscriber) (ss : List Subscriber)
    → subscriber_at i ss ≡ some s
    → queued (set_subscriber i x ss) + length s.queue ≡ queued ss + length x.queue
unfolding subscriber_at set_subscriber
queued-set i s x [] h = absurd (cc)
queued-set zero s x (y ∷ ss) h =
    let e : length y.queue ≡ length s.queue =
      let c : y ≡ s = cc in ap (λ (z : Subscriber). length z.queue) c in
    omega (arith, e)
queued-set (suc i) s x (y ∷ ss) h = omega (arith, queued-set i s x ss h)

pub at-valid :
    (i : ℕ) (ss : List Subscriber)
    → i < length ss
    → (s : Subscriber) × (subscriber_at i ss ≡ some s)
unfolding subscriber_at
at-valid i [] h = absurd (omega arith)
at-valid zero (s ∷ ss) h = (s, refl)
at-valid (suc i) (s ∷ ss) h = at-valid i ss (omega arith)

module _ (e : DomainEvent) where
  pub offer-depth : (bus : EventBus) (i : ℕ) → (offer bus e i).queue_depth ≡ bus.queue_depth
  unfolding offer
  offer-depth bus i = by_subscriber (subscriber_at i bus.subscribers)
    where
      drops : (n : Option Name) → (count_drop bus n).queue_depth ≡ bus.queue_depth
      drops none = refl
      drops (some n) = refl

      by_subscriber : (s : Option Subscriber) → (offer_to bus e i s).queue_depth ≡ bus.queue_depth
      by_subscriber none = refl
      by_subscriber (some s) = elim (Bool-cases (is_full bus.queue_depth s.queue)) [
        | inl f ↦ rw f (drops s.name)
        | inr f ↦ rw f refl
      ]

  pub drop-subscribers :
      (bus : EventBus) (n : Option Name) → (count_drop bus n).subscribers ≡ bus.subscribers
  drop-subscribers bus none = refl
  drop-subscribers bus (some n) = refl

  drop-dropped : (bus : EventBus) (n : Option Name) → (count_drop bus n).dropped ≡ bus.dropped + 1
  drop-dropped bus none = refl
  drop-dropped bus (some n) = refl

  drop-topics : (bus : EventBus) (n : Option Name) → (count_drop bus n).topics ≡ bus.topics
  drop-topics bus none = refl
  drop-topics bus (some n) = refl

  -- One offer: the event is in the queue, or counted as dropped.
  pub offer-accounts :
      (bus : EventBus) (i : ℕ)
      → i < length bus.subscribers
      → (queued (offer bus e i).subscribers + (offer bus e i).dropped
          ≡ queued bus.subscribers + bus.dropped + 1)
        × (length (offer bus e i).subscribers ≡ length bus.subscribers)
        × ((offer bus e i).topics ≡ bus.topics)
  unfolding offer
  offer-accounts bus i h =
      let (s, at) = at-valid i bus.subscribers h in
      elim (Bool-cases (is_full bus.queue_depth s.queue)) [
        | inl f ↦
            rw (at, f)
              (
                omega (arith, drop-dropped bus s.name, ap queued (drop-subscribers bus s.name)),
                ap length (drop-subscribers bus s.name),
                drop-topics bus s.name,
              )
        | inr f ↦
            let x : Subscriber = record s { queue = s.queue ++ (e ∷ []) } in
            rw (at, f)
              (
                omega (arith, queued-set i s x bus.subscribers at, length-append s.queue (e ∷ [])),
                length-set i x bus.subscribers,
                refl,
              )
      ]

  offer-at :
      (bus : EventBus) (i j : ℕ)
      → subscriber_at j (offer bus e i).subscribers ≡ (
          if i == j
          then Option.map (receive bus.queue_depth e) (subscriber_at j bus.subscribers)
          else subscriber_at j bus.subscribers)
  unfolding offer
  offer-at bus i j = by_subscriber (subscriber_at i bus.subscribers) refl
    where
      same_at : i ≡ j → subscriber_at i bus.subscribers ≡ subscriber_at j bus.subscribers
      same_at h = ap (λ k. subscriber_at k bus.subscribers) h

      by_subscriber :
          (s : Option Subscriber)
          → subscriber_at i bus.subscribers ≡ s
          → subscriber_at j (offer_to bus e i s).subscribers ≡ (
              if i == j
              then Option.map (receive bus.queue_depth e) (subscriber_at j bus.subscribers)
              else subscriber_at j bus.subscribers)
      by_subscriber none h = elim (Bool-cases (i == j)) [
        | inl t ↦ rw (t, sym (same_at ((==_iff i j).0 t)) ∙ h) refl
        | inr t ↦ rw t refl
      ]
      by_subscriber (some s) h = elim (Bool-cases (is_full bus.queue_depth s.queue)) [
        | inl f ↦ elim (Bool-cases (i == j)) [
          | inl t ↦
              rw (f, t, drop-subscribers bus s.name, sym (same_at ((==_iff i j).0 t)) ∙ h)
                (rw f refl)
          | inr t ↦ rw (f, t, drop-subscribers bus s.name) refl
        ]
        | inr f ↦
            let x : Subscriber = record s { queue = s.queue ++ (e ∷ []) } in
            elim (Bool-cases (i == j)) [
              | inl t ↦
                  rw (f, at-set i j x bus.subscribers, t, sym (same_at ((==_iff i j).0 t)) ∙ h)
                    (rw f refl)
              | inr t ↦ rw (f, at-set i j x bus.subscribers, t) refl
            ]
      ]

  -- Several offers of one event.
  pub offer_all-accounts :
      (ids : List ℕ) (bus : EventBus)
      → All (λ i. i < length bus.subscribers) ids
      → (queued (offer_all bus e ids).subscribers + (offer_all bus e ids).dropped
          ≡ queued bus.subscribers + bus.dropped + length ids)
        × (length (offer_all bus e ids).subscribers ≡ length bus.subscribers)
        × ((offer_all bus e ids).topics ≡ bus.topics)
        × ((offer_all bus e ids).queue_depth ≡ bus.queue_depth)
  unfolding offer_all
  offer_all-accounts [] bus a = (omega arith, refl, refl, refl)
  offer_all-accounts (i ∷ is) bus a =
      let h = offer-accounts bus i a.0 in
      let r = offer_all-accounts is (offer bus e i) (
        All-imp (λ j. j < length bus.subscribers) (λ j. j < length (offer bus e i).subscribers) is
          (λ j g. omega (arith, g, h.1)) a.1) in
      (omega (arith, h.0, r.0), r.1 ∙ h.1, r.2 ∙ h.2, r.3 ∙ offer-depth bus i)

  pub offer_all-at :
      (ids : List ℕ) (bus : EventBus) (j : ℕ)
      → DistinctIds ids
      → subscriber_at j (offer_all bus e ids).subscribers ≡ (
          if member j ids
          then Option.map (receive bus.queue_depth e) (subscriber_at j bus.subscribers)
          else subscriber_at j bus.subscribers)
  unfolding offer_all
  offer_all-at [] bus j d = refl
  offer_all-at (i ∷ is) bus j d = elim (Bool-cases (i == j)) [
    | inl t ↦
        let other : member j is ≡ false = ap (λ k. member k is) (sym ((==_iff i j).0 t)) ∙ d.0 in
        offer_all-at is (offer bus e i) j d.1 ∙ rw (other, offer-at bus i j, t) refl
    | inr t ↦
        offer_all-at is (offer bus e i) j d.1 ∙ rw (offer-at bus i j, t, offer-depth bus i) refl
  ]

abbrev pub QueueBounded : ℕ → Subscriber → Type 0
QueueBounded depth s = length s.queue ≤ depth

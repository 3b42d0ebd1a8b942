-- ===== src/Events.antt =====
-- shared/events.py: the domain events and the bus that hands them to the queues of its subscribers.
pub mod Bus
pub mod Delivery
pub mod Keeps
pub mod Service
pub mod Announce
mod Tests
use mini_hft_system.Prelude.{
  ℕ, ◌↔◌, ◌≡◌, ◌∙◌, refl, sym, ap, List, [], ◌∷◌, Option, none, some, Bool, true, false, ◌==◌,
  if◌then◌else◌, arith,
}
use mini_hft_system.Prelude.Tests.{Eq, ==_iff}
use mini_hft_system.Types.{
  EventType, order_received, order_acked, order_filled, order_partially_filled, order_cancelled,
  order_rejected, trade, book_update, ticker, TimestampNs, Symbol, RejectReason, Price,
}
use mini_hft_system.Order.{Order, Trade}
use mini_hft_system.Book.{BookSnapshot}

-- The subclasses of `DomainEvent`, with their own fields. The text of a rejection is that of its reason,
-- or "UNKNOWN" where there is none.
pub data EventBody : Type 0 where
  acked_event : Option Order → Option BookSnapshot → EventBody
  filled_event partially_filled_event : Option Order → List Trade → Option BookSnapshot → EventBody
  cancelled_event : Option Order → Option BookSnapshot → EventBody
  rejected_event : Option Order → Option RejectReason → EventBody
  trade_event : Option Trade → EventBody
  book_update_event : Option BookSnapshot → EventBody
  ticker_event : (bid ask last : Price) (volume : ℕ) → EventBody

pub record DomainEvent : Type 0 where
  pub event_id : ℕ
  pub timestamp_ns : TimestampNs
  pub symbol : Symbol
  pub body : EventBody

-- The default of the field `event_type` in each class; no event is made with another.
abbrev pub body_type : EventBody → EventType
body_type (acked_event o s) = order_acked
body_type (filled_event o ts s) = order_filled
body_type (partially_filled_event o ts s) = order_partially_filled
body_type (cancelled_event o s) = order_cancelled
body_type (rejected_event o r) = order_rejected
body_type (trade_event t) = trade
body_type (book_update_event s) = book_update
body_type (ticker_event b a l v) = ticker

abbrev pub type_code : EventType → ℕ
type_code order_received = 0
type_code order_acked = 1
type_code order_filled = 2
type_code order_partially_filled = 3
type_code order_cancelled = 4
type_code order_rejected = 5
type_code trade = 6
type_code book_update = 7
type_code ticker = 8

code_type : ℕ → EventType
code_type n =
    if n == 0
    then order_received
    else if n == 1
    then order_acked
    else if n == 2
    then order_filled
    else if n == 3
    then order_partially_filled
    else if n == 4
    then order_cancelled
    else if n == 5
    then order_rejected
    else if n == 6
    then trade
    else if n == 7
    then book_update
    else ticker

code_type-type_code : (t : EventType) → code_type (type_code t) ≡ t
unfolding code_type
code_type-type_code order_received = refl
code_type-type_code order_acked = refl
code_type-type_code order_filled = refl
code_type-type_code order_partially_filled = refl
code_type-type_code order_cancelled = refl
code_type-type_code order_rejected = refl
code_type-type_code trade = refl
code_type-type_code book_update = refl
code_type-type_code ticker = refl

abbrev pub type_beq : EventType → EventType → Bool
type_beq a b = type_code a == type_code b

pub type_beq_iff : (a b : EventType) → ((type_beq a b) ≡ true) ↔ (a ≡ b)
type_beq_iff a b = (
  λ h.
      sym (code_type-type_code a)
      ∙ ap code_type ((==_iff (type_code a) (type_code b)).0 h)
      ∙ code_type-type_code b,
  λ h. (==_iff (type_code a) (type_code b)).1 (ap type_code h),
)

instance abbrev pub type_eq : Eq EventType
type_eq = record { beq = type_beq; beq_iff = type_beq_iff }

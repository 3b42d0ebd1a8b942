-- ===== src/Services/Delta.antt =====
-- `BookDeltaProjector` of api/services/book_stream_service.py: full snapshots are turned into messages
-- that tell the levels that changed.
use mini_hft_system.Prelude.{
  ℕ, ◌+◌, ◌-◌, List, [], ◌∷◌, ◌++◌, Option, none, some, Bool, true, false, ◌&&◌, ◌==◌,
  if◌then◌else◌, map,
}
use mini_hft_system.Prelude.Dict
use mini_hft_system.Prelude.Tests.{nat_eq, text_eq}
use mini_hft_system.Types.{Symbol, Price, Quantity, TimestampNs}
use mini_hft_system.Order.{Ratio}
use mini_hft_system.Book.{BookSnapshot}

-- A row of a snapshot, and the dictionary of a side.
abbrev pub Row : Type 0
Row = Price × Quantity × ℕ

abbrev pub Levels : Type 0
Levels = List (Price × (Quantity × ℕ))

pub record BookLevel : Type 0 where
  pub price : Price
  pub quantity : Quantity
  pub order_count : ℕ

abbrev pub level_of : Row → BookLevel
level_of (p, q, c) = record { price = p; quantity = q; order_count = c }

abbrev pub best_of : List Row → Option Price
best_of [] = none
best_of ((p, q, c) ∷ rows) = some p

-- `spread` of a snapshot; a price of 0 counts as no price.
abbrev pub spread_of : Option Price → Option Price → Option ℕ
spread_of (some b) (some a) = if b == 0 then none else if a == 0 then none else some (a - b)
spread_of _ _ = none

abbrev pub mid_of : Option Price → Option Price → Option Ratio
mid_of (some b) (some a) =
    if b == 0
    then none
    else if a == 0
    then none
    else some (record { numerator = b + a; denominator = 2 })
mid_of _ _ = none

pub record BookMessage : Type 0 where
  pub symbol : Symbol
  -- Only an incremental message has one.
  pub previous_sequence : Option ℕ
  pub sequence : ℕ
  pub bids : List BookLevel
  pub asks : List BookLevel
  pub spread : Option ℕ
  pub mid_price : Option Ratio
  pub timestamp_ns : TimestampNs

abbrev pub message : BookSnapshot → Option ℕ → List BookLevel → List BookLevel → BookMessage
message s previous bids asks = record {
  symbol = s.symbol;
  previous_sequence = previous;
  sequence = s.sequence;
  bids = bids;
  asks = asks;
  spread = spread_of (best_of s.bids) (best_of s.asks);
  mid_price = mid_of (best_of s.bids) (best_of s.asks);
  timestamp_ns = s.timestamp_ns;
}

abbrev pub snapshot_message : BookSnapshot → BookMessage
snapshot_message s = message s none (map level_of s.bids) (map level_of s.asks)

-- `{price: (quantity, count) for price, quantity, count in rows}`
unfoldable pub levels_of : Levels → List Row → Levels
levels_of m [] = m
levels_of m ((p, q, c) ∷ rows) = levels_of (Dict.put p (q, c) m) rows

abbrev pub same_level : Option (Quantity × ℕ) → Quantity × ℕ → Bool
same_level none v = false
same_level (some (q, c)) (q', c') = q == q' && c == c'

-- The levels that are new or different, and those that are gone. The code's set of prices that are gone
-- has no order; here they come in the order of the prior levels.
unfoldable pub changed : Levels → Levels → List BookLevel
changed prior [] = []
changed prior ((p, (q, c)) ∷ levels) =
    let rest = changed prior levels in
    if same_level (Dict.get p prior) (q, c)
    then rest
    else record { price = p; quantity = q; order_count = c } ∷ rest

abbrev pub absent : Option (Quantity × ℕ) → Bool
absent none = true
absent (some v) = false

unfoldable pub gone : Levels → Levels → List BookLevel
gone [] current = []
gone ((p, v) ∷ prior) current =
    let rest = gone prior current in
    if absent (Dict.get p current)
    then record { price = p; quantity = 0; order_count = 0 } ∷ rest
    else rest

unfoldable pub changes : List Row → List Row → List BookLevel
changes previous current =
    let prior = levels_of [] previous in
    let now = levels_of [] current in changed prior now ++ gone prior now

unfoldable pub project :
    List (Symbol × BookSnapshot) → BookSnapshot → BookMessage × List (Symbol × BookSnapshot)
project memory s = (
  elim (Dict.get s.symbol memory) [
    | none ↦ snapshot_message s
    | some prior ↦
        message s (some prior.sequence) (changes prior.bids s.bids) (changes prior.asks s.asks)
  ],
  Dict.put s.symbol s memory,
)

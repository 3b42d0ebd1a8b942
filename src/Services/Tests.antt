-- ===== src/Services/Tests.antt =====
-- The projections at two snapshots of a side, and at one trade.
use mini_hft_system.Prelude.{ℕ, ◌≡◌, refl, some, List, [], ◌∷◌, take, min, arith}
use mini_hft_system.Prelude.Dict
use mini_hft_system.Prelude.Tests.{nat_eq, text_eq}
use mini_hft_system.Types.{Symbol, buy}
use mini_hft_system.Order.{Trade}
use mini_hft_system.Book.{BookSnapshot}
use mini_hft_system.Services.Latency.{percentile}
use mini_hft_system.Services.Delta.{project, Row, levels_of, changes}
use mini_hft_system.Services.Replay.{apply, apply-changes, project-follows}
use mini_hft_system.Services.Tape.{recent, record_all, trades_of, recent-record_all}

-- At 101 the level shrinks, at 102 it goes, at 103 there is a new one.
abbrev before_rows : List Row
before_rows = (101, 15, 2) ∷ (102, 5, 1) ∷ []

abbrev after_rows : List Row
after_rows = (101, 3, 1) ∷ (103, 4, 1) ∷ []

apply-changes_example :
    Dict.get 102 (apply (levels_of [] before_rows) (changes before_rows after_rows))
    ≡ Dict.get 102 (levels_of [] after_rows)
apply-changes_example = apply-changes 102 before_rows after_rows (omega arith, (omega arith, tt))

abbrev name : Symbol
name = 65 ∷ 66 ∷ []

abbrev print : Trade
print = record {
  symbol = name;
  price = 101;
  quantity = 10;
  aggressor_side = buy;
  maker_order_id = 1;
  taker_order_id = 2;
  trade_id = 3;
  timestamp_ns = 50;
}

recent-record_all_example :
    (recent (λ s. s) (record_all 500 (print ∷ [])) name 100).0
    ≡ take (min 100 500) (trades_of name (print ∷ []))
recent-record_all_example = recent-record_all (λ s. s) 500 (print ∷ []) name 100

abbrev before : BookSnapshot
before = record { symbol = name; sequence = 7; bids = []; asks = before_rows; timestamp_ns = 50 }

abbrev after : BookSnapshot
after = record { symbol = name; sequence = 9; bids = []; asks = after_rows; timestamp_ns = 60 }

project-follows_example :
    ((project ((name, before) ∷ []) after).0.previous_sequence ≡ some 7)
    × (Dict.get 102 (apply (levels_of [] []) (project ((name, before) ∷ []) after).0.bids)
        ≡ Dict.get 102 (levels_of [] []))
    × (Dict.get 102 (apply (levels_of [] before_rows) (project ((name, before) ∷ []) after).0.asks)
        ≡ Dict.get 102 (levels_of [] after_rows))
    × (Dict.get name (project ((name, before) ∷ []) after).1 ≡ some after)
unfolding Dict.get
project-follows_example =
    project-follows ((name, before) ∷ []) before after 102 refl tt (omega arith, (omega arith, tt))

abbrev latencies : List ℕ
latencies = 7 ∷ 3 ∷ 5 ∷ []

-- The median of 3, 5 and 7.
median : percentile 500 latencies ≡ some 5
unfolding percentile
median = refl

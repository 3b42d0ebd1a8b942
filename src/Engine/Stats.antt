-- ===== src/Engine/Stats.antt =====
-- `EngineStats` of engine/core/matching_engine.py, and how the engine's calls count.
use mini_hft_system.Prelude.{
  ℕ, ◌+◌, ◌-◌, ◌≤◌, ◌≡◌, List, [], ◌∷◌, ◌++◌, Option, none, some, Bool, length, drop, ltb,
  length-drop, arith, if◌then◌else◌,
}
use mini_hft_system.Order.{Trade, processing_latency, sum_quantity}
use mini_hft_system.Book.{MatchResult, total_filled}

-- The latencies are in nanoseconds; the code stores them divided by 1,000.
pub record EngineStats : Type 0 where
  pub orders_received : ℕ
  pub orders_matched : ℕ
  pub orders_resting : ℕ
  pub orders_cancelled : ℕ
  pub orders_rejected : ℕ
  pub trades_executed : ℕ
  pub total_volume : ℕ
  pub latency_samples : List ℕ

abbrev pub zero_stats : EngineStats
zero_stats = record {
  orders_received = 0;
  orders_matched = 0;
  orders_resting = 0;
  orders_cancelled = 0;
  orders_rejected = 0;
  trades_executed = 0;
  total_volume = 0;
  latency_samples = [];
}

abbrev pub max_samples : ℕ
max_samples = 10_000

-- `samples[-n:]` of a list that is longer than `n`.
unfoldable pub keep_last : ℕ → List ℕ → List ℕ
keep_last n xs = if ltb n (length xs) then drop (length xs - n) xs else xs

unfoldable pub record_latency : EngineStats → ℕ → EngineStats
record_latency s l = record s {
  latency_samples = keep_last max_samples (s.latency_samples ++ (l ∷ []));
}

abbrev pub record_measured : EngineStats → Option ℕ → EngineStats
record_measured s none = s
record_measured s (some l) = record_latency s l

abbrev pub count_received : EngineStats → EngineStats
count_received s = record s { orders_received = s.orders_received + 1 }

abbrev pub count_rejected : EngineStats → EngineStats
count_rejected s = record s { orders_rejected = s.orders_rejected + 1 }

abbrev pub count_resting : EngineStats → Bool → EngineStats
count_resting s resting = if resting then record s { orders_resting = s.orders_resting + 1 } else s

abbrev pub count_trades : EngineStats → List Trade → EngineStats
count_trades s [] = s
count_trades s (t ∷ ts) = record s {
  orders_matched = s.orders_matched + 1;
  trades_executed = s.trades_executed + length (t ∷ ts);
  total_volume = s.total_volume + total_filled (t ∷ ts);
}

-- The bookkeeping of `submit_order` after matching.
unfoldable pub count_result : EngineStats → MatchResult → EngineStats
count_result s r =
    record_measured (count_trades (count_resting s r.is_new_resting) r.trades)
      (processing_latency r.order)

-- `max(0, n - 1)` is the difference of natural numbers.
abbrev pub count_cancelled : EngineStats → EngineStats
count_cancelled s = record s {
  orders_cancelled = s.orders_cancelled + 1;
  orders_resting = s.orders_resting - 1;
}

-- The window of latency samples never holds more than its limit.
record_latency_bounded :
    (s : EngineStats) (l : ℕ) → length (record_latency s l).latency_samples ≤ max_samples
unfolding record_latency keep_last
record_latency_bounded s l = ground (
  arith,
  length-drop (length (s.latency_samples ++ (l ∷ [])) - max_samples)
      (s.latency_samples ++ (l ∷ [])),
)

count_trades_lem :
    (s : EngineStats) (ts : List Trade)
    → ((count_trades s ts).orders_received ≡ s.orders_received)
      × ((count_trades s ts).orders_rejected ≡ s.orders_rejected)
      × ((count_trades s ts).orders_resting ≡ s.orders_resting)
      × ((count_trades s ts).trades_executed ≡ s.trades_executed + length ts)
      × ((count_trades s ts).total_volume ≡ s.total_volume + sum_quantity ts)
count_trades_lem s [] = omega arith
count_trades_lem s (t ∷ ts) = omega arith

-- What an accepted order adds to the counters.
pub count_result_lem :
    (s : EngineStats) (r : MatchResult)
    → let t = count_result s r in
      (t.orders_received ≡ s.orders_received)
      × (t.orders_rejected ≡ s.orders_rejected)
      × (t.orders_resting ≡ s.orders_resting + (if r.is_new_resting then 1 else 0))
      × (t.trades_executed ≡ s.trades_executed + length r.trades)
      × (t.total_volume ≡ s.total_volume + sum_quantity r.trades)
unfolding count_result record_latency
count_result_lem s r = ground (arith, count_trades_lem (count_resting s r.is_new_resting) r.trades)

-- ===== src/Services/Latency.antt =====
-- Latency percentiles: `EngineStats.percentile` of engine/core/matching_engine.py, and
-- `RollingLatencyWindow` of api/services/metrics_service.py. Latencies are nanoseconds, and a percentile is
-- given in thousandths.
use mini_hft_system.Prelude.Tests.{nat_eq}
use mini_hft_system.Prelude.{
  ℕ, zero, suc, ◌-◌, ◌*◌, ◌/◌, ◌≤◌, min, List, [], ◌∷◌, ◌++◌, map, Option, none, some, ltb, leb,
  length, drop, length-drop, if◌then◌else◌, All, arith,
}

-- `sorted`
abbrev insert : ℕ → List ℕ → List ℕ
insert x [] = x ∷ []
insert x (y ∷ ys) = let rest = insert x ys in if leb x y then x ∷ y ∷ ys else y ∷ rest

abbrev sort : List ℕ → List ℕ
sort [] = []
sort (x ∷ xs) = insert x (sort xs)

abbrev pub nth : ℕ → List ℕ → Option ℕ
nth n [] = none
nth zero (x ∷ xs) = some x
nth (suc n) (x ∷ xs) = nth n xs

-- The index of the percentile `p` of `n` samples.
abbrev pub rank : ℕ → ℕ → ℕ
rank p n = min (n * p / 1_000) (n - 1)

-- `percentile`: none of no samples.
unfoldable pub percentile : ℕ → List ℕ → Option ℕ
percentile p xs = nth (rank p (length xs)) (sort xs)

-- `_samples`, a deque with a largest length.
pub record LatencyWindow : Type 0 where
  pub horizon : ℕ
  pub max_samples : ℕ
  pub samples : List (ℕ × ℕ)

abbrev pub default_window : LatencyWindow
default_window = record { horizon = 60_000_000_000; max_samples = 20_000; samples = [] }

-- `_evict`: the samples at the front that are older than the cutoff go.
unfoldable pub drop_older : ℕ → List (ℕ × ℕ) → List (ℕ × ℕ)
drop_older cutoff [] = []
drop_older cutoff ((at, l) ∷ xs) =
    let rest = drop_older cutoff xs in if ltb at cutoff then rest else (at, l) ∷ xs

abbrev pub evict : ℕ → LatencyWindow → LatencyWindow
evict now w = record w { samples = drop_older (now - w.horizon) w.samples }

-- `append` on a full deque drops the oldest sample.
abbrev pub append_sample : ℕ → ℕ → LatencyWindow → LatencyWindow
append_sample now l w =
    let xs = w.samples ++ ((now, l) ∷ []) in
    record w { samples = drop (length xs - w.max_samples) xs }

-- `record`
abbrev pub record_sample : ℕ → ℕ → LatencyWindow → LatencyWindow
record_sample now l w = evict now (append_sample now l w)

-- `RollingLatencyWindow.percentile` and `sample_count`, read at the time `now`
abbrev pub window_percentile : ℕ → ℕ → LatencyWindow → Option ℕ × LatencyWindow
window_percentile now p w = let w' = evict now w in (percentile p (map (λ s. s.1) w'.samples), w')

abbrev pub sample_count : ℕ → LatencyWindow → ℕ × LatencyWindow
sample_count now w = let w' = evict now w in (length w'.samples, w')

abbrev pub at_most : ℕ → List ℕ → ℕ
at_most v [] = 0
at_most v (x ∷ xs) = let n = at_most v xs in if leb x v then suc n else n

abbrev pub at_least : ℕ → List ℕ → ℕ
at_least v [] = 0
at_least v (x ∷ xs) = let n = at_least v xs in if leb v x then suc n else n

abbrev Ascending : List ℕ → Type 0
Ascending [] = All (λ x. x ≤ x) []
Ascending (x ∷ xs) = All (λ y. x ≤ y) xs × Ascending xs

drop_older-length : (cutoff : ℕ) (xs : List (ℕ × ℕ)) → length (drop_older cutoff xs) ≤ length xs
unfolding drop_older
drop_older-length cutoff [] = omega arith
drop_older-length cutoff ((at, l) ∷ xs) = ground (arith, drop_older-length cutoff xs)

-- The window never holds more samples than its limit after a record.
record_sample_bounded :
    (now l : ℕ) (w : LatencyWindow) → length (record_sample now l w).samples ≤ w.max_samples
record_sample_bounded now l w =
    let xs = w.samples ++ ((now, l) ∷ []) in
    omega (
      arith,
      drop_older-length (now - w.horizon) (drop (length xs - w.max_samples) xs),
      length-drop (length xs - w.max_samples) xs,
    )

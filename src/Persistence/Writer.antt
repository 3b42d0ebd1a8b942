-- ===== src/Persistence/Writer.antt =====
-- `AsyncDatabaseWriter` of infra/db/writer.py: batches from a queue, written with retries. The sink is not
-- under the writer's control: `answers n` says whether its n-th call succeeds.
use mini_hft_system.Prelude.{
  ℕ, zero, suc, ◌+◌, ◌-◌, List, [], ◌∷◌, ◌++◌, map, Bool, true, false, not, ◌||◌, length,
  if◌then◌else◌,
}
use mini_hft_system.Prelude.Loops.{while}
use mini_hft_system.Events.{DomainEvent}
use mini_hft_system.Persistence.Rows.{PersistenceRecords, serialize_event}

-- The times are in microseconds; the model does not wait.
pub record WriterConfig : Type 0 where
  pub batch_size : ℕ
  pub flush_interval : ℕ
  pub max_retries : ℕ
  pub retry_backoff : ℕ

abbrev pub default_config : WriterConfig
default_config = record {
  batch_size = 250;
  flush_interval = 25_000;
  max_retries = 3;
  retry_backoff = 20_000;
}

pub record PersistenceMetrics : Type 0 where
  pub events_consumed : ℕ
  pub rows_written : ℕ
  pub batches_written : ℕ
  pub write_retries : ℕ
  pub failed_batches : ℕ

abbrev pub zero_metrics : PersistenceMetrics
zero_metrics = record {
  events_consumed = 0;
  rows_written = 0;
  batches_written = 0;
  write_retries = 0;
  failed_batches = 0;
}

-- `calls` and `stored` are the sink's side: how often it was called, and what it has taken.
pub record Writer : Type 0 where
  pub queue : List DomainEvent
  pub metrics : PersistenceMetrics
  pub stop_requested : Bool
  pub calls : ℕ
  pub stored : List PersistenceRecords

abbrev pub new_writer : Writer
new_writer = record {
  queue = [];
  metrics = zero_metrics;
  stop_requested = false;
  calls = 0;
  stored = [];
}

abbrev pub request_stop : Writer → Writer
request_stop w = record w { stop_requested = true }

-- `get_nowait` until the batch is full or the queue is empty.
unfoldable pub take_more : ℕ → List DomainEvent → List DomainEvent × List DomainEvent
take_more zero q = ([], q)
take_more (suc n) [] = ([], [])
take_more (suc n) (e ∷ q) = let (es, rest) = take_more n q in (e ∷ es, rest)

-- The first event is waited for; where none comes within the interval, the batch is empty.
abbrev pub cut_batch : ℕ → List DomainEvent → List DomainEvent × List DomainEvent
cut_batch size [] = ([], [])
cut_batch size (e ∷ q) = let (es, rest) = take_more (size - 1) q in (e ∷ es, rest)

-- `_next_batch`
unfoldable pub next_batch : WriterConfig → Writer → List PersistenceRecords × Writer
next_batch c w =
    let (es, rest) = cut_batch c.batch_size w.queue in
    (
      map serialize_event es,
      record w {
        queue = rest;
        metrics = record (w.metrics) { events_consumed = w.metrics.events_consumed + length es };
      },
    )

abbrev pub rows_of : List PersistenceRecords → ℕ
rows_of [] = 0
rows_of (r ∷ rs) = length r.orders + length r.trades + rows_of rs

-- What a call of the sink that succeeds leaves.
abbrev pub count_written : List PersistenceRecords → Writer → Writer
count_written batch w = record w {
  calls = w.calls + 1;
  stored = w.stored ++ batch;
  metrics = record (w.metrics) {
    batches_written = w.metrics.batches_written + 1;
    rows_written = w.metrics.rows_written + rows_of batch;
  };
}

abbrev pub count_failed : Writer → Writer
count_failed w = record w {
  calls = w.calls + 1;
  metrics = record (w.metrics) { failed_batches = w.metrics.failed_batches + 1 };
}

abbrev pub count_retry : Writer → Writer
count_retry w = record w {
  calls = w.calls + 1;
  metrics = record (w.metrics) { write_retries = w.metrics.write_retries + 1 };
}

module _ (answers : ℕ → Bool) where
  -- The attempts that are left after this one.
  unfoldable pub attempt : ℕ → List PersistenceRecords → Writer → Writer
  attempt zero batch w = if answers w.calls then count_written batch w else count_failed w
  attempt (suc left) batch w =
      let again = attempt left batch (count_retry w) in
      if answers w.calls then count_written batch w else again

  -- `_persist_with_retry`
  abbrev pub persist_with_retry : WriterConfig → List PersistenceRecords → Writer → Writer
  persist_with_retry c batch w = attempt c.max_retries batch w

  abbrev pub persist_some : WriterConfig → List PersistenceRecords → Writer → Writer
  persist_some c [] w = w
  persist_some c (r ∷ rs) w = persist_with_retry c (r ∷ rs) w

  -- One round of `run`.
  unfoldable pub round : WriterConfig → Writer → Writer
  round c w = let (batch, w') = next_batch c w in persist_some c batch w'

  abbrev pub is_empty_queue : List DomainEvent → Bool
  is_empty_queue [] = true
  is_empty_queue (e ∷ q) = false

  abbrev pub running : Writer → Bool
  running w = not w.stop_requested || not (is_empty_queue w.queue)

  -- `run`, for as many rounds at most. Nothing arrives meanwhile.
  unfoldable pub run : ℕ → WriterConfig → Writer → Writer
  run fuel c w = while fuel running (round c) w

-- ===== src/Persistence/Tests.antt =====
-- A writer with two events in its queue, and a sink that fails every second call.
use mini_hft_system.Prelude.{
  ℕ, ◌+◌, ◌%◌, ◌≡◌, refl, [], ◌∷◌, ◌++◌, some, Bool, false, ◌==◌, arith, inl, inr, Bool-cases,
}
use mini_hft_system.Types.{buy}
use mini_hft_system.Events.{DomainEvent, trade_event}
use mini_hft_system.Persistence.Drain.{Answers, records, run_drains}
use mini_hft_system.Persistence.Writer.{
  Writer, WriterConfig, new_writer, request_stop, run, running,
}

abbrev answers : ℕ → Bool
answers n = n % 2 == 1

abbrev config : WriterConfig
config = record { batch_size = 1; flush_interval = 25_000; max_retries = 1; retry_backoff = 20_000 }

answers-Answers : (n : ℕ) → Answers 1 answers n
answers-Answers n = elim (Bool-cases (n % 2 == 1)) [
  | inl t ↦ inl t
  | inr t ↦ inr (ground (arith, t))
]

abbrev print : ℕ → DomainEvent
print i = record {
  event_id = i;
  timestamp_ns = 5;
  symbol = 65 ∷ [];
  body = trade_event (
      some (record {
        symbol = 65 ∷ [];
        price = 101;
        quantity = 10;
        aggressor_side = buy;
        maker_order_id = 1;
        taker_order_id = 2;
        trade_id = i;
        timestamp_ns = 50;
      }));
}

abbrev writer : Writer
writer = request_stop (record new_writer { queue = print 3 ∷ print 4 ∷ [] })

run_drains_example :
    ((run answers 3 config writer).queue ≡ [])
    × (running answers (run answers 3 config writer) ≡ false)
    × ((run answers 3 config writer).stored ≡ [] ++ records (print 3 ∷ print 4 ∷ []))
    × ((run answers 3 config writer).metrics.events_consumed ≡ 0 + 2)
    × ((run answers 3 config writer).metrics.rows_written ≡ 0 + 2)
    × ((run answers 3 config writer).metrics.failed_batches ≡ 0)
run_drains_example = run_drains answers config answers-Answers writer 3 refl (omega arith)

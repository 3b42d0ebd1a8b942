-- ===== src/Persistence/Drain.antt =====
-- The graceful end of the writer of infra/db/writer.py: every event that is queued is written, once and in
-- order, unless the sink fails too often.
use mini_hft_system.Prelude.{
  ℕ, zero, suc, ◌+◌, ◌-◌, ◌<◌, ◌≡◌, ◌∙◌, refl, sym, ap, ap₂, List, [], ◌∷◌, ◌++◌, map, Bool, true,
  false, length, length-append, append_assoc, append-nil, arith, Bool-cases, inl, inr, ◌⊎◌, subst,
}
use mini_hft_system.Prelude.Loops.{while_inv}
use mini_hft_system.Events.{DomainEvent}
use mini_hft_system.Persistence.Rows.{PersistenceRecords, serialize_event}
use mini_hft_system.Persistence.Writer.{
  Writer, WriterConfig, take_more, next_batch, rows_of, count_retry, attempt, persist_some, round,
  running, run,
}

-- The rows that events make.
abbrev pub records : List DomainEvent → List PersistenceRecords
records es = map serialize_event es

-- The sink answers one of any `n + 1` calls in a row.
abbrev pub Answers : ℕ → (ℕ → Bool) → ℕ → Type 0
Answers zero answers n = answers n ≡ true
Answers (suc k) answers n = (answers n ≡ true) ⊎ Answers k answers (suc n)

take_more-append : (n : ℕ) (q : List DomainEvent) → (take_more n q).0 ++ (take_more n q).1 ≡ q
unfolding take_more
take_more-append zero q = refl
take_more-append (suc n) [] = refl
take_more-append (suc n) (e ∷ q) = ap (◌∷◌ e) (take_more-append n q)

records-append : (xs ys : List DomainEvent) → records (xs ++ ys) ≡ records xs ++ records ys
records-append [] ys = refl
records-append (x ∷ xs) ys = ap (◌∷◌ (serialize_event x)) (records-append xs ys)

rows_of-append : (xs ys : List PersistenceRecords) → rows_of (xs ++ ys) ≡ rows_of xs + rows_of ys
rows_of-append [] ys = omega arith
rows_of-append (x ∷ xs) ys = omega (arith, rows_of-append xs ys)

module _ (answers : ℕ → Bool) where
  -- What an attempt that succeeds in the end has done.
  pub record Written (batch : List PersistenceRecords) (w w' : Writer) : Type 0 where
    pub queue : w'.queue ≡ w.queue
    pub stop : w'.stop_requested ≡ w.stop_requested
    pub stored : w'.stored ≡ w.stored ++ batch
    pub rows : w'.metrics.rows_written ≡ w.metrics.rows_written + rows_of batch
    pub consumed : w'.metrics.events_consumed ≡ w.metrics.events_consumed
    pub failed : w'.metrics.failed_batches ≡ w.metrics.failed_batches

  attempt-Written :
      (left : ℕ) (batch : List PersistenceRecords) (w : Writer)
      → Answers left answers w.calls
      → Written batch w (attempt answers left batch w)
  unfolding attempt
  attempt-Written zero batch w h = rw h (record {
    queue = refl;
    stop = refl;
    stored = refl;
    rows = refl;
    consumed = refl;
    failed = refl;
  })
  attempt-Written (suc left) batch w h = elim (Bool-cases (answers w.calls)) [
    | inl t ↦ rw t (record {
      queue = refl;
      stop = refl;
      stored = refl;
      rows = refl;
      consumed = refl;
      failed = refl;
    })
    | inr t ↦
        let e : suc w.calls ≡ w.calls + 1 = omega arith in
        let r =
          attempt-Written left batch (count_retry w)
            (subst (Answers left answers) e (later w.calls t h)) in
        rw t (record {
          queue = r.queue;
          stop = r.stop;
          stored = r.stored;
          rows = r.rows;
          consumed = r.consumed;
          failed = r.failed;
        })
  ]
    where
      later :
          (n : ℕ) → answers n ≡ false → Answers (suc left) answers n → Answers left answers (suc n)
      later n f (inl t) = absurd (let c : true ≡ false = sym t ∙ f in cc)
      later n f (inr a) = a

  -- What a round keeps on the way to the end: what is stored and what is queued, in order.
  pub record Draining (w0 w : Writer) : Type 0 where
    pub stop : w.stop_requested ≡ true
    pub order : w.stored ++ records w.queue ≡ w0.stored ++ records w0.queue
    pub rows :
        w.metrics.rows_written + rows_of (records w.queue)
        ≡ w0.metrics.rows_written + rows_of (records w0.queue)
    pub consumed :
        w.metrics.events_consumed + length w.queue ≡ w0.metrics.events_consumed + length w0.queue
    pub failed : w.metrics.failed_batches ≡ w0.metrics.failed_batches

  module _ (c : WriterConfig) (reliable : (n : ℕ) → Answers c.max_retries answers n) where
    -- A batch with the events of the queue's front.
    batch_taken :
        (w0 w : Writer) (e : DomainEvent) (es q : List DomainEvent)
        → w.queue ≡ (e ∷ es) ++ q
        → Draining w0 w
        → let taken : Writer = record w {
          queue = q;
          metrics = record (w.metrics) {
            events_consumed = w.metrics.events_consumed + length (e ∷ es);
          };
        } in
          Draining w0 (persist_some answers c (records (e ∷ es)) taken)
          × (length (persist_some answers c (records (e ∷ es)) taken).queue < length w.queue)
    batch_taken w0 w e es q h d =
        let taken : Writer = record w {
          queue = q;
          metrics = record (w.metrics) {
            events_consumed = w.metrics.events_consumed + length (e ∷ es);
          };
        } in
        let batch = records (e ∷ es) in
        let r = attempt-Written c.max_retries batch taken (reliable taken.calls) in
        let split : records w.queue ≡ batch ++ records q =
          ap records h ∙ records-append (e ∷ es) q in
        let size : length w.queue ≡ length (e ∷ es) + length q =
          ap length h ∙ length-append (e ∷ es) q in
        (
          record {
            stop = r.stop ∙ d.stop;
            order =
                ap₂ (λ s k. s ++ records k) r.stored r.queue
                ∙ append_assoc w.stored batch (records q)
                ∙ ap (λ x. w.stored ++ x) (sym split)
                ∙ d.order;
            rows = omega (
              arith,
              r.rows,
              d.rows,
              ap rows_of split,
              rows_of-append batch (records q),
              ap (λ k. rows_of (records k)) r.queue,
            );
            consumed = omega (arith, r.consumed, d.consumed, size, ap length r.queue);
            failed = r.failed ∙ d.failed;
          },
          omega (arith, size, ap length r.queue),
        )

    round-Draining :
        (w0 w : Writer)
        → Draining w0 w
        → running answers w ≡ true
        → Draining w0 (round answers c w) × (length (round answers c w).queue < length w.queue)
    unfolding round next_batch
    round-Draining w0 w d h = by_queue w.queue refl
      where
        by_queue :
            (q : List DomainEvent)
            → w.queue ≡ q
            → Draining w0 (round answers c w) × (length (round answers c w).queue < length w.queue)
        by_queue [] e = absurd (let x : true ≡ false = sym h ∙ rw (d.stop, e) refl in cc)
        by_queue (x ∷ q) e =
            let t = take_more (c.batch_size - 1) q in
            let whole : w.queue ≡ (x ∷ t.0) ++ t.1 =
              e ∙ ap (◌∷◌ x) (sym (take_more-append (c.batch_size - 1) q)) in
            let b = batch_taken w0 w x t.0 t.1 whole d in
            rw (e, round) (b.0, omega (arith, b.1, ap length e))

    -- Once a stop is requested and no event arrives any more, as many rounds as there are queued events end
    -- with the queue empty: the sink has taken the rows of every event that was queued, once and in order,
    -- behind what it had; the events and the rows are counted, and no batch is counted as failed. It holds
    -- of every batch size, and of every sink that answers one of any `max_retries + 1` calls in a row.
    pub run_drains :
        (w : Writer) (fuel : ℕ)
        → w.stop_requested ≡ true
        → length w.queue < fuel
        → let w' = run answers fuel c w in
          (w'.queue ≡ [])
          × (running answers w' ≡ false)
          × (w'.stored ≡ w.stored ++ records w.queue)
          × (w'.metrics.events_consumed ≡ w.metrics.events_consumed + length w.queue)
          × (w'.metrics.rows_written ≡ w.metrics.rows_written + rows_of (records w.queue))
          × (w'.metrics.failed_batches ≡ w.metrics.failed_batches)
    unfolding run
    run_drains w fuel s h =
        let start : Draining w w = record {
          stop = s;
          order = refl;
          rows = refl;
          consumed = refl;
          failed = refl;
        } in
        let r =
          while_inv (Draining w) (λ (x : Writer). length x.queue) (running answers)
            (round answers c) (round-Draining w) fuel w h start in
        let w' = run answers fuel c w in
        let empty : w'.queue ≡ [] = none_queued w' r.0.stop r.1 in
        (
          empty,
          r.1,
          sym (append-nil w'.stored) ∙ ap (λ q. w'.stored ++ records q) (sym empty) ∙ r.0.order,
          omega (arith, r.0.consumed, ap length empty),
          omega (arith, r.0.rows, ap (λ q. rows_of (records q)) empty),
          r.0.failed,
        )
      where
        none_queued :
            (x : Writer) → x.stop_requested ≡ true → running answers x ≡ false → x.queue ≡ []
        none_queued x t f = by_queue x.queue refl
          where
            by_queue : (q : List DomainEvent) → x.queue ≡ q → x.queue ≡ []
            by_queue [] e = e
            by_queue (y ∷ q) e = absurd (let k : true ≡ false = sym (rw (t, e) refl) ∙ f in cc)

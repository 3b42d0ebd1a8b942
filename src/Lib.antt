-- ===== src/Lib.antt =====
-- Verification of the matching core of a simulated exchange.
--
-- The program is a limit order book with price-time priority (engine/core/order_book.py) behind a
-- matching engine for several symbols (engine/core/matching_engine.py), on the orders and trades of
-- engine/core/order.py and the enumerations of engine/core/types.py. The engine validates an order,
-- hands it to the book of its symbol, keeps all orders in an order map, counts, and tells a callback;
-- the service layer, the strategies, the transports and the database stand around it.
--
-- Which file models what:
--   Types.antt     engine/core/types.py
--   Order.antt     Order and Trade of engine/core/order.py
--   Book.antt      OrderBook, MatchResult and BookSnapshot of engine/core/order_book.py; its children
--                  Book/Level (PriceLevel), Book/Fill (the inner loop of submit: one price level) and
--                  Book/Match (the outer loop of submit: one side) hold the parts of OrderBook.submit,
--                  Book/Prices the interface of sortedcontainers.SortedDict
--   Book/Sweep, Book/Rest     the specification: one sweep of a queue of orders, and the place at which
--                  an order is put into a queue
--   Book/State     the invariant of a book; Book/Submit, Book/Residual, Book/Outcome, Book/Priority and
--                  Book/Status are about submit, Book/Withdraw and Book/Cancel about cancel,
--                  Book/Views about the snapshot and the queries, Book/History about sequences of calls
--   Engine.antt    MatchingEngine, EngineEvent of engine/core/matching_engine.py; Engine/Stats has
--                  EngineStats, Engine/State the invariant, Engine/Submit, Engine/Answers and
--                  Engine/Cancel are about the two calls, Engine/History about sequences of calls
--   Ring.antt      SPSCRingBuffer of engine/core/ring_buffer.py, Ring/Events BinaryEventRing; Ring/Slices has
--                  the lemmas on slices, Ring/Refine the queue that a ring stands for, Ring/Capacity its start
--   Risk.antt      RiskLimits and PreTradeRiskEngine of engine/risk/limits.py
--   Services.antt  Services/Delta has BookDeltaProjector of api/services/book_stream_service.py,
--                  Services/Replay a client that applies its messages, Services/Tape has
--                  TradeTapeService of api/services/trade_tape_service.py, Services/Latency the
--                  percentiles of EngineStats and of api/services/metrics_service.py
--   Strategy.antt  StrategyRiskGuard of strategy/risk.py; Strategy/Ledger has BaseStrategy of strategy/base.py,
--                  Strategy/Runtime and Strategy/Dispatch StrategyRuntime of strategy/runtime.py,
--                  Strategy/Wiring its gateway in api/main.py; Strategy/Balance and Strategy/Cash are about
--                  the profit and loss, Strategy/Control about stopping, Strategy/Gate about what is placed
--   Codec.antt     engine/core/binary_protocol.py; Codec/Bytes has the big-endian fields, Codec/Wire the code
--                  tables and symbols, Codec/Sequences runs of frames, Codec/Orders, Codec/Trades and
--                  Codec/Books are about the frames
--   Events.antt    shared/events.py; Events/Bus has EventBus, Events/Service OrderService of
--                  api/services/order_service.py; Events/Delivery, Events/Keeps and Events/Announce are
--                  about what subscribers find in their queues
--   Persistence.antt  Persistence/Rows has infra/db/serialization.py, Persistence/Writer
--                  AsyncDatabaseWriter of infra/db/writer.py, Persistence/Drain is about its run
--   Sockets.antt   ConnectionManager of api/websocket/manager.py
--   Hal.antt       SoftwareMatchingHAL of engine/hal/software.py with the calls on frames of
--                  engine/hal/abstract.py, which Hal/Frames compares with those on objects
--   Api.antt       api/routers/orders.py; Api/Endpoints is about its answers
--   Prelude.antt   tests on the native numbers, lists, dicts as association lists, loops on fuel
--
-- How the code is modelled:
--   * A price or another dollar amount is a whole number of ticks of 0.0001 dollar: the code computes
--     with doubles, the model with the exact amounts that these stand for. Negative quantities and
--     prices are outside the model; the engine refuses them as it refuses 0. An average price is a
--     fraction. An order id is the 128-bit value of its UUID, a text the list of its character codes.
--   * time.time_ns() and uuid4() are arguments (Readings, EngineReadings). sortedcontainers.SortedDict
--     is the interface SortedDict: a type of tables with its operations, and the law that each acts on
--     the list of items in key order as its documentation says. Book.Prices.item_list is an instance.
--   * A mutating call returns the new state. An Order is shared in the code: by the book, by the order
--     map and by the caller. The model keeps it in the book and in the order map, and a submission
--     returns the resting orders that it has filled (makers), whose status and filled quantity
--     write_back copies to the order map. An order object is submitted once. The acknowledgement time,
--     set after matching, is not copied to the book, which does not read it.
--   * The loops of submit run on fuel: a level's loop on the number of its orders and two more, a
--     side's loop on the number of its levels and two more. Each round empties the order or takes an
--     order, or a level, away, so that the loops end by their own tests; the theorem on submit against
--     the sweep is about the whole sweep, which no loop that stops early would execute.
--   * What is left of an order is a difference that stops at 0. In the code it is negative for an order
--     that is filled beyond its quantity; a submission of such an order is outside the model.
--   * A ring's slot is the counter modulo the capacity. That is the code's bitwise and with the mask for a
--     capacity that is a power of 2, and the constructor makes no other.
--   * The event callback is not under the engine's control: the model returns the events handed to it.
--   * A struct format is the list of its field widths, big-endian; the 64 bits of a double are the
--     interface Float64, whose law is the round trip of the amounts that are exact. A byte is a number.
--   * A domain event's id, a fresh uuid4, is an argument. Queues of the event bus are numbered, and a
--     store maps a number to the queue; nothing in the model waits.
--   * The database is an oracle, which says of each attempt to write whether it succeeds. The writer's loop
--     runs on fuel, one round for each event and one more, and each round takes an event at least.
--   * A Python set is a list without repetition, whose order no theorem fixes for the client.
--   * A profit is a fraction with a signed numerator, (gain - loss) / over, and an average price a
--     fraction: the code's doubles round, the model's do not. The class of a strategy is an interface, with
--     a memory of its own, and callbacks and hooks that return or raise; an override of on_fill is taken to
--     call the base class's first, and no override to change the fields of the base class. The order gateway
--     is an interface too, whose calls return. The three dicts of the runtime that have the strategies' ids as keys are one table.
--
-- Not modelled: the native and FPGA adapters and the transport, the example strategy, the metrics
-- snapshot and the other endpoints, the database sink and its tables, the random market data feed, the
-- C++ engine and the frontend.
pub mod Prelude
pub mod Types
pub mod Order
pub mod Book
pub mod Engine
pub mod Risk
pub mod Events
pub mod Sockets
pub mod Persistence
pub mod Strategy
pub mod Services
pub mod Ring
pub mod Codec
pub mod Hal
pub mod Api

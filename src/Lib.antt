-- ===== src/Lib.antt =====
-- The market data core of somethingtrade: how the bot keeps a local copy of an exchange's order
-- book, when that copy may be used, and what it does when messages are lost.
--
-- The parts. A web socket reader puts depth updates on a bounded queue, which a monitor watches.
-- A consumer takes them off and applies them to the order book state of their symbol. A state
-- begins with a REST snapshot; the first delta must span the update id after the snapshot, and each
-- later one must start right after the one before. When this fails the state closes: it is not
-- ready until a snapshot comes that is newer than the failure. After a snapshot the queue is purged
-- of the updates that the snapshot already holds. A watch resets a state whose feed falls silent,
-- and counters keep account of what happens to a feed. A sample of the book is used only if the quality
-- checks pass.
--
-- Beside it, a local book for each Polymarket token takes book, price change and best price messages,
-- checks the best prices that the exchange reports, and quotes the token; the market state keeps the
-- last quotes and prices, and takes back the quotes of a market that has ended. Rows for the files go
-- through a batch writer with a thread of its own.
--
-- The files.
-- * Orderbook models bot/app/marketdata/orderbook_state.py. Types has the data, Levels the
--   parsing of raw levels (`_parse_levels` and below), Side one side of the book
--   (`_apply_level`), State the constructor, `validate` and the readiness, Updates
--   `apply_snapshot` and `apply_delta`, View `top_n` and `copy_snapshot`. The proofs are in Index
--   (the sorted price index), Sound (what a side holds), Parsing, Best (best prices and
--   `validate`), Outcome (the branches of the two updates), Aging, WellFormed, Refresh and Reach
--   (the invariant), Sequence (which deltas are accepted), Feed (runs), Recovery (after a gap)
--   and Top.
-- * Quality models bot/app/marketdata/orderbook_quality.py.
-- * Queue models bot/app/marketdata/queue_monitor.py.
-- * Lifecycle models bot/app/marketdata/ws_lifecycle.py: Counts has the counters, Resets what a
--   reconnect does to a state.
-- * Stale models `check_stale_periods` of bot/app/marketdata/orderbook_phase41.py with the methods it
--   calls: Check has the loop, Verdict the branches, Silence a run of checks.
-- * Ingest models `load_snapshot` of the same file, what `process_depth_update` does to reach and count
--   the verdict on a delta, and `_sequence_trace_classification`.
-- * Emission models the sample that follows an accepted delta, of the same file: the copy, the quality
--   checks, `_maybe_emit_or_block_sample` and the schema of a sample; its proofs are in Clean.
-- * Purge models `purge_queued_depth_updates_after_snapshot` and `purge_queue_after_snapshot` of
--   bot/app/marketdata/orderbook_phase41.py; its proofs are in Bridge, Split, Parted, Requeue and Resume.
-- * Polymarket models bot/app/marketdata/polymarket_orderbook.py: Types has the data, Levels the sides
--   (`_levels_to_dict` and below), Reported `_apply_reported_best` and what it calls, Quoting
--   `_quote`, Readiness `_record_readiness`, LocalBook the methods of `PolymarketLocalOrderBook`. The
--   proofs are in Mismatch, Agreement and Complete (what a complete quote says), Run (calls in any order),
--   Safety, Recovery, Samples and Limit (the samples of mismatches), Counting and Tally (the counts of
--   quotes).
-- * Writer models bot/app/marketdata/batch_writer.py: the file itself the steps of the callers and of
--   the thread, Rows the times noted in a row, Run the interleavings; the proofs are in Order, Drain,
--   Late, Bounded and Accounts.
-- * Market models bot/app/state/market_state.py, with the events of bot/app/core/events.py in Types:
--   History has `_append_price` and what it computes, Apply the rest of `apply`. The proofs are in
--   Window, Quotes and Complete.
-- * Ticks models bot/app/core/tick_math.py, with its proofs in Grid.
-- * Prelude has what they share: tests on numbers, lists, sorted lists (`sorted`, `bisect`), and
--   dictionaries as association lists in insertion order.
--
-- How it is modelled. A method is a function from the state to the new state, with its result. A
-- clock reading is an argument. A finite decimal is a whole number of quanta, for a quantum that
-- divides all prices and sizes of the run; infinities, NaN and unreadable texts are constructors of
-- their own. The mid price counts half quanta. Durations that the code keeps as floating point
-- milliseconds are whole nanoseconds. The texts for errors, statuses and reasons are enumerations,
-- ordered as the texts are. A loop is structural recursion over the list that it visits, so no fuel
-- is used and every function is total. The thread of the writer is a function of one step; Drain counts
-- the steps that it needs to end: at most four for each queued record and three more, since a record is
-- taken in one step and a batch of at least one record takes at most three others. Steps of several
-- threads are lists of events in any order, at the points where a lock or a queue lets them take turns.
-- The files that the writer writes buffer their lines: an exception in a batch is given with how many
-- records `write` was called for, which the code counts as written, and which of their lines have come
-- to a file. A difference of two clock readings that the code keeps as it is, is a signed integer.
--
-- Not modelled: the readiness reports of the Polymarket book and messages whose numbers do not read;
-- the JSON text of a row and what a file system does; the volatility beyond the returns that it is
-- computed of; market discovery, the gap detector, the web socket clients, the research and back test
-- programs, and the network and file access around the parts above.
pub mod Emission
pub mod Ingest
pub mod Lifecycle
pub mod Market
pub mod Orderbook
pub mod Polymarket
pub mod Prelude
pub mod Purge
pub mod Quality
pub mod Queue
pub mod Stale
pub mod Ticks
pub mod Writer

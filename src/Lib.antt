-- ===== src/Lib.antt =====
-- wspr-recorder records the bands of a WSPR receiver from radiod's RTP streams and cuts the audio
-- into the slots that the decoders take. This library models the core of that path.
--
-- A band's recorder (wspr_recorder/band_recorder.py) is given batches of samples by `on_samples`.
-- Its synchronisation strategy (wspr_recorder/sync_strategy.py) says at which sample the first
-- minute begins; from there the samples go to a ring (wspr_recorder/ring_buffer.py), minute by
-- minute. At each minute, and about once a second, the recorder harvests: for each period of its
-- decode modes (wspr_recorder/decode_mode.py) it hands the slots whose audio has arrived to the
-- decode pool (wspr_recorder/decode_pool.py). The health ledger (wspr_recorder/decode_health.py),
-- the backlog monitor (wspr_recorder/backlog_monitor.py) and the timing guards
-- (wspr_recorder/timing_guard.py) judge how the decodes go. The decoders' spots go to the cycle
-- batcher of wspr_recorder/spot_sink.py, which hands a cycle's spots of a receiver to the spot sink
-- once every band has reported, or at a deadline, wakes the uploader, and gives the cycle's mean dt
-- to the timing guard; the main program (wspr_recorder/__main__.py) then re-anchors a receiver's
-- recorders or asks for a restart. The streams come from channels that the receiver manager
-- (wspr_recorder/receiver_manager.py) sets up at radiod once the clock has settled, and sets up
-- again when they go stale. The callsign database (wspr_recorder/callsign_db.py) collects the calls
-- of all bands and writes the tables that the decoders resolve hashes with.
--
-- Common: shared names, native integers, rounding, slices of lists, results of code that raises,
--   dictionaries and sets in insertion order, what a dictionary's values hold together (Totals),
--   and texts as code points (Texts).
-- RingBuffer: `RingBuffer`, one function per method. An array is a list of its elements. Store,
--   Tracks and Extract compare it with the stream of all samples written, Gaps treats the gap
--   events.
-- SyncStrategy: `RtpSyncStrategy`, and the decisions of the clock and the fallback strategy. The
--   package hamsci_dsp's acquire_anchor_utc is the argument `acquire`. Unwrap and Boundary follow a
--   stream of packets through it.
-- DecodeMode: the modes and their grouping; the table of periods, defined by the package
--   hs_uploader, is an argument. Grouping says what the groups are.
-- BandRecorder: the recorder's state. Samples has `on_samples` and `_add_samples`, Boundary
--   `_on_minute_boundary` and `reset`, Alarm the tier alarm, Slots `_harvest_ready_slots`. Progress
--   and Windows treat the harvest, TierRuns and TierHistory the alarm over runs, Minutes and Ingest
--   what a batch leaves. What the recorder is told from outside in one call (radiod's channel, the authority's
--   tier, the clock) is the record World, and the strategy is the record Sync.
-- DecodePool: the pieces that run under the pool's lock. Order treats the queues, Workers the
--   interleavings of the worker threads, as a step relation: that a job has ended and that its place is
--   given back are two steps, as they take the lock twice. A heap is its sorted list. `shutdown`
--   unpacks the queued tuples as the code does; what a future does when cancelled is left out.
-- DecodeHealth, BacklogMonitor, TimingGuard: their states and rules. Streaks, Episodes and Strikes
--   say what the rules do over runs. The guards' floating-point numbers are a parameter.
-- SpotProcessor: the filter and the deduplication of wspr_recorder/spot_processor.py. Best and
--   Resolved say which spots are kept.
-- CycleBatcher: `_CycleBatch` and the calls of `CycleBatcher` of wspr_recorder/spot_sink.py, which
--   collect a cycle's spots per receiver. Writer has the locked part of the writer thread's turn,
--   Inputs a run: a list of calls, turns and pieces of work in the order in which they take the
--   lock. The sink is the interface Sink. Expected has the bands that a batch waits for. Keyed,
--   Conservation, Accounts and Balance follow the spots, Turns, Sleep and Delivery the deadlines,
--   Wakes, WakeEvents and WakeOnce the wakes of the uploader.
-- SpotSink: the rows of wspr_recorder/spot_sink.py; Sink has `SpotSink`, over the table writers of
--   the package hs_uploader, Ledger its counts, Brackets the callsigns; Batched fills the batcher's
--   interface with it.
-- CallsignDb: `CallsignDB`, over the table of the package callhash. Keys has the dictionary, Runs
--   any order of calls, Persistence the file, Suppression the cache of rejected calls and the
--   exports.
-- ReceiverManager: the channels of `ReceiverManager`, over the streams of the package ka9q-python.
--   A `try` block is a chain of steps that stops where a call raises. Settle has the wait for
--   chrony, Gate what it waits for; Recovery the readback, `connect`, `reprovision_stale`,
--   `full_reset` and `shutdown`; Entries, Tracked, Provisions, Kept and Runs treat the books, Readback
--   and Sweep what a provisioning and a readback say.
-- HostSlot: the host-wide slots of wspr_recorder/host_slot.py; Rounds follows the polling.
-- TimingService: the choice between the sources of time of wspr_recorder/timing_service.py. Tiers
--   has what a choice claims, Freshness the cache of chrony's answers.
-- WavWriter: of wspr_recorder/wav_writer.py the removal of a band's oldest files (Retention), the
--   header of a float32 file (Header) and `source_slug`.
-- AnchorGuard: what wspr_recorder/__main__.py does with the guards' verdicts (`_on_cycle_dt`,
--   `_wallclock_guard_check`, `_reanchor_rx`) and its watchdog's gate. The recovery ladder belongs
--   to the package ka9q. Isolation and Judgements say which receivers and how often a verdict
--   moves.
--
-- Times are whole microseconds (slots whole seconds; the monitor's and the batcher's times
-- milliseconds), so that rounding is exact; the code computes them as floating-point seconds. The
-- loop over a batch has one turn of fuel per sample, since each turn takes at least one; the loop
-- over a period has the anchor's time plus the samples received plus two, since each turn moves the
-- cursor by at least a second. The wait for chrony has 13 turns, since each sleeps 5 s of its
-- minute; the wait for a host's slot has one turn for each half second of its timeout, which a
-- round sleeps, and two more.
--
-- The batcher's run has no fuel: it ends with its list of inputs, and a turn or a piece of work is
-- one step. The wait on the condition is the time that a turn gives back. `stop` is taken to have
-- waited for the writer's last task before it drains; what is added after the drain waits for ever,
-- as in the code.
--
-- DecoderMerge: `_merge_wspr_passes` of wspr_recorder/decoder.py. The source sets the metric of a
-- spot in place, where both passes' dictionaries share it; nothing of the merge reads the metric, and
-- setting it again does not change it, so the model sets it in the copy that it files. The numbers
-- but the SNR are of a parameter type, and the other fields of a spot are one parameter.
--
-- Not modelled: log messages, status dictionaries, environment variables, files and sockets; the
-- rest of the decoders' drivers and of the WAV writer, the uploaders and verifiers, the configuration
-- and the user interfaces.
pub mod Common
pub mod HostSlot
pub mod ReceiverManager
pub mod RingBuffer
pub mod DecodeMode
pub mod TimingGuard
pub mod TimingService
pub mod WavWriter
pub mod AnchorGuard
pub mod DecodeHealth
pub mod BacklogMonitor
pub mod DecodePool
pub mod DecoderMerge
pub mod SyncStrategy
pub mod BandRecorder
pub mod CallsignDb
pub mod CycleBatcher
pub mod SpotProcessor
pub mod SpotSink

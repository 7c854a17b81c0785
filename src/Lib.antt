-- ===== src/Lib.antt =====
-- smallage: background jobs, cron and a dead letter queue on Redis Streams, for Litestar.
--
-- A client writes a job as an entry of a stream. Workers of a consumer group read entries, run the
-- handlers of their tasks, and acknowledge. An entry that is not acknowledged stays pending; another
-- worker takes it over when the liveness key of the entry has lapsed. A job that failed is put on
-- the clock, a sorted set from which the worker that holds a lease moves due jobs to their streams;
-- one that failed too often is parked in the dead letter queue.
--
-- The parts, each in the file named like the source file under src/smallage/core:
-- - Core/Envelope: envelope.py, the wire format of a job (`to_fields`, `from_fields`). Lines holds
--   the join and split of the history, Roundtrip the laws.
-- - Core/Retry: retry.py, `RetryPolicy` and its methods. History is about `record_failure`.
-- - Core/Stats: stats.py, the counters. Core/Cron: cron.py, jobs and their occurrences; Searching
--   is about the search for the next one.
-- - Core/Keys: keys.py, the keys of Redis. Schema is about what keys share and where they differ.
-- - Core/Worker: worker.py. Config has `WorkerConfig`, `credits` and `Slots`. Calls has what the
--   worker is given by protocols.py. Handler has `_run_one` and all that it calls, Loops the four
--   loops, one definition for a pass of each, and `run` to the end of its consume loop; Shutdown has
--   the task groups of `run`, the drain, and the signals of `run_with_signals`.
-- - Core/Transport: transport.py. Commands has what it asks of Redis, Setup has `__init__`, Upkeep
--   has `pending`, `dead_letter`, `reclaim`, `sweep_consumers`, `trim` and `lag`; Replies has
--   `parse_xclaim_reply` of scripts/__init__.py.
-- - Core/Scripts: the scripts ack.lua, reclaim.lua and sweep_consumers.lua over the commands of Redis
--   that they use, and what the commands of any number of transports do to one Redis. Keeping is
--   about an entry until it is acknowledged (Keeping/Described about what a sweep reads), with Keeping/Sent for the commands that the methods of
--   transports send; Claiming is about the liveness key of an entry, and Promoting has promote.lua.
-- - Core/Scheduler: scheduler.py, and the loop of promote.lua over the fields of a job.
--   Lease has the lease that one worker holds, with scripts/renew_leader.lua and release_leader.lua.
-- - Core/Deferred: deferred.py, the buffer of jobs that wait for a commit.
-- - Core/Payloads: payloads.py, over a file system.
-- - Core/Results: results.py, with msgspec a parameter. Core/Testing: testing.py, the enqueuers.
-- Under src/smallage/litestar:
-- - Litestar/Di: di.py. Its own file has `plan_dependencies`, Resolving has `resolved`.
-- - Litestar/Registry: registry.py. Its own file has the declaration of tasks and `_bind`; Calls what
--   is called and kept; Running has `bind`, `enqueue`, `execute` and `_call`, of tracing.py the source
--   of a traceparent, and `active` of core/deferred.py.
-- - Litestar/Plugin: plugin.py, the life of its connections, and config.py; App has what it does for
--   its application (`on_app_init`). Litestar/Cli: cli.py, what the command line overrides, with
--   `run_workers` in Command; Overriding is about the overrides. Litestar/Health: health.py, and `snapshot` of the counters.
--
-- A task is declared in a registry. When the application starts, `bind` splits its parameters: the
-- application provides some, which are planned by Di, and the payload carries the others. `enqueue`
-- writes an Envelope and gives it to the enqueuer, which the plugin backs with the transport; in the
-- worker, `execute` opens the payload, resolves the plan around the call, and tears it down.
--
-- How state and effects are modelled: Effect has coroutines as functions on a world, which is the
-- state that the coroutines of one process share and the trace of the calls made so far, the last
-- one first. A coroutine returns, raises or is cancelled. Each await is one event of the trace; the
-- environment chooses the answer from the events before it, and may at each await change the shared
-- state as the other coroutines do. A theorem about all environments so holds for all answers, all
-- failures, cancellation at every await, and all interleavings of the other coroutines. An answer
-- depends only on the trace, which is no restriction for one run: each await has a trace of its own
-- length. Effect/Keeps has one rule for each way to build a coroutine, for invariants of worlds.
--
-- Parameters, for code that is not in the repository: Python (UTF-8 and decimal numbers, with the
-- laws that decoding undoes encoding), Core/Floats (floats, without laws), the checksum CRC-32,
-- zoneinfo, datetime and cronsim (a Calendar), the handlers, msgspec and litestar's JSON, what
-- `inspect` says of a function, pathlib and the file system, click and litestar's lifespan, and
-- Redis. The coroutines that use Redis know it by the answers to their commands. The scripts run
-- inside it, on a state with the commands that they use and with the documented laws of these: a
-- Keyspace for the lease, Streams for entries and liveness keys, Sorted for the jobs on the clock.
--
-- `mark_alive` and `refresh_alive` send a pipeline that is no transaction. It is one event, and one
-- that failed or was cancelled leaves open which of its keys were written. What Redis then did is the
-- same command with fewer keys.
--
-- In Core/Worker/Shutdown the steps are what the tasks of one worker can do: those of the source are
-- definitions of their own (`spawn`, `drain`, `leave`, `watch_signal`, `end_block`), and what anyio
-- documents of task groups, cancel scopes and deadlines decides when each may be taken: a loop whose
-- scope is cancelled goes on until its next checkpoint.
--
-- The endless loops of the worker are counted: `consume_loop` and `rounds` make as many passes as
-- their number says, and each theorem is about every number. The visits of `plan_dependencies` have
-- fuel, one for each dependency and one more, since a chain of providers without a cycle visits no
-- dependency twice. All other loops are over lists. A registry is bound before it is used, so no
-- other coroutine changes it during an await of Registry/Running; the context variables belong to
-- the coroutine.
--
-- Integers are Python's, without bounds (Prelude/Int). Text is a list of code points and bytes a
-- list of numbers. A dict is an association list in insertion order (Prelude/Dict).
--
-- Not modelled: logging and tracing spans, which return nothing to the code; the registration of
-- scripts and of the command group; the package exports; and the benchmarks, examples and tests.
pub mod Prelude
pub mod Python
pub mod Effect
pub mod Core
pub mod Litestar
mod Tests

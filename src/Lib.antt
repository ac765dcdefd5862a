-- ===== src/Lib.antt =====
-- A model of the measuring tools of patroni-routing-bench: what watches a Patroni cluster, what sends it
-- queries, and what makes charts of a failover from the two.
--
-- An agent (tool/observers/core/agent.py) runs one watcher for each target. A watcher
-- (tool/observers/core/watcher.py and tool/observers/watchers/) polls a source and calls `emit_now` on
-- its emitter (tool/observers/core/emitter.py) for each change; the emitter buffers events and writes them
-- to TimescaleDB. Beside them the heartbeat client (tool/clients/failover/heartbeat.py) sends INSERTs,
-- writes their outcomes, finds failovers among them and gives the observers' events the id of a test run.
-- The charts (tool/charts/generate_charts.py) read both tables.
--
--   Prelude    lists, tests, texts and integers; `Text` is the list of a string's code points
--   Emitter    emitter.py: `flush`, `emit`, `emit_now`, `stop`; Session: sessions in which each of these
--              is over before the next begins; Bounds: the size of the buffer; Local: the table of
--              several emitters; Threads: the locked blocks and INSERTs of the watcher's thread and the
--              flush thread one by one, in any order. The sessions of Session, and of Agent with them,
--              have no two flushes that overlap; Threads/Sessions relates them to the steps of
--              Threads, and Threads/Exact is about what any of its interleavings writes
--   Heartbeat  heartbeat.py: a function for each method; `cycle` is one round of the loop of `run`.
--              Clock is `strftime` of a UTC time; Stamps is about the ids of the rows
--   Watcher    watcher.py: `run` over any `setup` and `poll`; Patroni, Consul, Vip, PostgresSql and
--              Haproxy are the watchers. Log says what it means that events are true to a value;
--              Haproxy/View is an abstract view of the servers' states
--   Agent      agent.py: Targets is `_parse_targets`, Main the modes of `main`; Session puts a
--              watcher, its emitter and the table together; Shared is `_run_multi_target` as it runs,
--              the workers' operations in any order on one table
--   Charts     generate_charts.py: Milestones, Window (what is read of a long run), Phases, Overlap,
--              Runs (the client's lane) and Gantt (the observers' lanes), Labels; Medians (the query of
--              the waterfall and its medians), Hero (server and client parts of a downtime) and
--              Waterfall; Iterations (the table of the runs), Failures (counts of errors), Latency (the
--              plot of one run), Batch (the batch report's summary table and its charts of routing
--              families), Report (the session report) and Comparison (`--compare`, and the
--              choices of the command without a subcommand). Dict is Python's dictionary
--
-- State is passed on: an operation takes the fields of its object, with the tables that it writes, and
-- returns them. What comes from outside is an argument: the outcome of each write (a `Delivery`, which
-- says how many rows were inserted before an exception, the connections being in autocommit mode), the
-- answers that the watchers get, clocks, signals. The base64 decoder, the csv reader, the json reader,
-- the rounding of a downtime that is read back from its text, and whether a module can be imported are parameters. An operation on a data frame is the one on the
-- list of its rows, and a query of the charts selects among the rows of a test run. Times are
-- microseconds; a duration that can be negative is an integer. Loops are recursions on the list of the
-- rounds that the outside makes happen, so no fuel bounds them; only the printing of a number takes
-- fuel, one more than the number, which has fewer digits.
--
-- Not modelled: SQL views and the schema, Plotly figures and HTML, the rounding of what is only shown, the batch report's
-- heat map and scenario bars, parsing of the command lines, logging, sleeping, the rendering of
-- details to JSON text, and the deployments that are measured.
pub mod Prelude
pub mod Emitter
pub mod Heartbeat
pub mod Watcher
pub mod Agent
pub mod Charts

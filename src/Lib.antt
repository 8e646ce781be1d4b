-- ===== src/Lib.antt =====
-- The controller: it pulls a schedule of jobs from an API, runs each job when it is due with
-- energy measured around it, reports the runs, and keeps in a spool what the API does not take.
--
-- The parts, and the files that model them:
--   Value       Python values (JSON, tuples, datetimes), texts and times: the values on which all
--               parts work. Value/Encode has `_jsonable` of hmasync_controller/apiclient.py and
--               the encoder of hmasync_controller/spool.py; Value/Number the rounding of integers
--               and microseconds to doubles, Value/Double the arithmetic on doubles, Value/Exact
--               the whole numbers that it holds exactly.
--   Api         hmasync_controller/apiclient.py. Client has the session (`_send`, `login`,
--               `_refresh`, `_ensure_auth`, `_authed_request`), Endpoints the calls, Response the
--               results; Clean, Guarded and Session hold what is proved of the session.
--   Spool       hmasync_controller/spool.py: the rows of the table and its counter; Spool/Order
--               has the order of the queue.
--   Reporter    hmasync_controller/reporter.py, over an interface `Uplink` that the client fills:
--               Chunks (batches), Report (`report_run`) and Drain (`drain_spool`).
--   PowerCap    hmasync_controller/powercap.py, over an interface `CapWorld` of the clock, the API
--               and the driver of the card: Bracket (`apply` and `restore` around a job) and Cache.
--   Profiler    hmasync_controller/profiler.py and hmasync_controller/nvml_reader.py: the summary of a
--               trace; Nvml and Smi the readings of the card and the choice of a backend, Sampler the
--               sampling of a run by one thread, Telemetry what its telemetry says, Threads the threads of
--               several runs in any order of their steps.
--   Node        hmasync_controller/fingerprint.py: what a box says of itself; Clean shows that the
--               redaction net of Submission finds nothing in it, Salt that the salt is kept.
--   Executor    hmasync_controller/executor.py. Schedule parses schedules and jobs, Select chooses
--               what is pending and due, Run has `_execute`, Tick has `tick` and `run_forever`.
--               Invariant has the rule for invariants of the loop; Order, Once, Attempts,
--               Window and Protocol hold what is proved of it.
--   Submission  hmasync_controller/bench/submission.py, over an interface `Carrier` that the client
--               fills: Redact has the redaction net, Guard what is let out and what is kept, Drain
--               the draining of the queue; Schema has the walk over the schema, Valid what an object has
--               that it accepts.
--   Config      `resolve_controller_id` and `set_bench_optin` of hmasync_controller/config.py;
--               Upsert has what becomes of the lines of the file.
--   Adapters    hmasync_controller/adapters.py: Request reads a request, Command, Ollama and OpenAi
--               are the three adapters, over a shell and an HTTP client (Http), Registry finds one
--               by its name; Result, Bounded and Fingerprint hold what is proved of them.
--   Bench       Parts of hmasync_controller/bench. Rouge has tasks/rouge_l.py: Subsequence and Tokens
--               what the rolling rows and the tokens are, Score the score of a text against itself.
--               Thermal has thermal.py, over an interface `ThermalWorld` of clock, sampler and sleep:
--               Trailing has the throttled run, Pause the end of the pause.
--               Roster has roster.py: the models of a tier; Largest which these are. Sweep has the power
--               sweep of quick.py, over an interface `SweepWorld`; Caps what the derived caps are.
--               Bundle has the redaction check of bundle.py, Net its relation to that of Submission;
--               Build assembles a bundle, Export has what leaves the box, Builds when it is built.
--               Tasks has parts of tasks: Boxed the boxed answers and Math the grader of math500.py (Nested,
--               Found, Total and Score what they find and count), Items the items of base.py and
--               gpqa_diamond.py (Sampled, Marked), Longctx those of longctx_summary.py (Bucketed).
--               Metrics has the counters of metrics/compute.py, Wrapped those that wrap; Flexibility has
--               metrics/flexibility.py, Deepest the caps that it finds.
--   Sdk         hmasync_controller/sdk.py: the credentials; Window the windows that the API advises,
--               Measure the measured blocks; Waits and Reported hold what is proved of them.
--   Samples     Concrete parameters; with the Examples of each part, the tests.
--
-- State is passed explicitly. The network, the driver and the collaborators of the executor are
-- parameters that answer each call from the calls made so far (or from an environment that they
-- change), so a theorem holds for every sequence of answers. An exception is a value of the
-- result. The functions of Python's library on texts and numbers (`isoformat`, `fromisoformat`,
-- `int` and `float` of a text, `str`) are the record `PyText`. A time is its clock and its offset
-- in microseconds, a double its value in units of 2 ^ -1074 or an infinity or no number. Every
-- loop recurses on a list (samples, pending items, placements, clock readings), but for three that have
-- fuel: the pause of Bench/Thermal, the boxes of Bench/Tasks and the ranges of Reporter. Theorems say
-- that the fuel is enough (for a range, that its chunks give the whole list).
--
-- Not modelled: logging, sleeping and closing of resources; exceptions of the profiler, the reporter and
-- the pull in a tick, which end the loop; ids of workflows that are numbers; the settings, the setting of
-- power limits by the profilers, the command line, and the rest of the benchmark suite.
pub mod Base
pub mod Bench
pub mod Value
pub mod Api
pub mod Spool
pub mod Reporter
pub mod Node
pub mod PowerCap
pub mod Profiler
pub mod Executor
pub mod Submission
pub mod Config
pub mod Adapters
pub mod Samples
pub mod Sdk

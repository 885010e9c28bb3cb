-- ===== src/Lib.antt =====
-- clai: shell suggestions by a background daemon. The shell hooks send each command to the daemon
-- (internal/daemon) through the shim (internal/shim); the daemon queues it, stores it and learns
-- from it (internal/suggestions), and internal/workflow runs multi-step workflow files. This
-- library models parts of that program and proves what makes them correct.
--
-- Which file models which part:
--   Daemon/CircuitBreaker   internal/daemon/circuit_breaker.go: the burst breaker in front of
--                           ingestion (AllowAt, Reset, Stats). Safety has its invariant and the
--                           sampling, Window its list of times, Reference whole runs.
--   Daemon/IngestionQueue   internal/daemon/ingestion_queue.go: the bounded queue that drops its
--                           oldest event.
--   Daemon/SessionManager   internal/daemon/session_manager.go: the sessions that are open.
--   Shim/RingBuffer         internal/shim/ringbuf.go: the ring of events kept while the daemon is
--                           away.
--   Shim/Event              internal/shim/event.go: the events of the hooks, and the dispatcher that
--                           makes calls of the IPC client of them (internal/ipc/client.go).
--   Shim/Persistent         internal/shim/persistent.go: the runner that sends events over one
--                           connection. Accepted and Delivery are about one event, Whole about runs.
--   Typo/Distance           internal/suggestions/typo/levenshtein.go: the two edit distances. Script
--                           has the edit scripts that they are measured against.
--   Dismissal               internal/suggestions/dismissal/dismissal.go: the suppression levels of
--                           suggestions, as statements on a table. Table has the laws of the
--                           table, History the state machine, Filter the filter before ranking.
--   Timing                  internal/suggestions/timing/timing.go: the typing cadence that says when
--                           suggestions are requested.
--   Suggest/Lru             internal/suggestions/suggest/lru.go: the cache that evicts what was used
--                           least recently. Elements and Recency are about the linked list, Valid
--                           and Moves about the invariant, Eviction and Removal about single
--                           operations, Refinement and Runs about the list that it stands for.
--   Config                  internal/config/config.go: the configuration. Fields has access by key,
--                           Fix the repair of the settings of the suggestions (Fixed, Kept,
--                           Unchanged and Warned say what it comes to), Validate the tests and
--                           loading. Valid, Setters and Accepted say what the tests accept and what
--                           keeps it so, Roundtrip what reading and setting a key come to.
--   Tracker                 internal/suggestions/workflow/tracker.go: the workflows that a session
--                           is in the middle of. Progress is about how they advance and end,
--                           Candidates about the next steps that are offered.
--   Workflow/LimitedBuffer  internal/workflow/buffer.go: the tail of a process's output.
--   Workflow/Types          internal/workflow/types.go: a parsed workflow file.
--   Workflow/Validate       internal/workflow/validate.go: the checks of a workflow file. Steps,
--                           Needs and Matrix are about its parts, Whole about secrets,
--                           requirements and jobs, WellFormed about all of it.
--   Workflow/Runner         internal/workflow/runner.go: the runner of a job's steps. Execute has one
--                           step and the loop, Steps what a round adds, Sequence what a run
--                           returns, Env the layers of the environment.
--   Workflow/Expression     internal/workflow/expression.go: the expressions in commands and names.
--   Workflow/Output         internal/workflow/output.go: the outputs that a step writes.
--   Workflow/Secrets        internal/workflow/secrets.go: the masking of secrets in output.
--   Workflow/Cycles         internal/workflow/validate.go: the search for dependency cycles. Edges
--                           has the relation between jobs, Equations and Below the laws of the
--                           search, Acyclic and Sound what its answer means, Fuel why it ends.
-- Common passes on the library's names and has the lists, integers and strings that they share,
-- Common/Strconv numbers and lists as text.
-- A function keeps the name of its Go function, in this language's spelling. Samples modules hold
-- the theorems at concrete inputs and tests of the definitions.
--
-- State is passed explicitly: a method that changes its receiver returns the new record. Every
-- method that takes the receiver's mutex is one step. Loops over collections are structural
-- recursions. The search for dependency cycles runs on fuel, one more than there are names of jobs,
-- as each call marks one more of them; the loops of the cache run on the number of its elements, as
-- each round removes one. An int that counts elements in memory is an unbounded number; an int64
-- counter is its bit pattern and wraps at 2^64. The daemon that the shim talks to and the system
-- that runs a workflow's processes are parameters, whose answers may depend on all calls so far. A
-- database driver may fail on every statement; a failed statement changes nothing. Logging is left
-- out, and so are floating point scores, the protocol buffers, the terminal interface and
-- everything that only calls the operating system.
pub mod Common
pub mod Config
pub mod Daemon
pub mod Dismissal
pub mod Shim
pub mod Suggest
pub mod Timing
pub mod Tracker
pub mod Typo
pub mod Workflow

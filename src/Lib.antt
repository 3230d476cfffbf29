-- ===== src/Lib.antt =====
-- llama-swap starts and stops model servers on demand, and routes each HTTP request to the server of
-- the model that it names. This library models the parts that decide what runs.
--
-- Parts:
--   Base       strings, numbers, lists, association lists and sorting, shared by the other parts.
--   Scheduler  internal/router/scheduler (fifo.go, scheduler.go): the queue of requests, the swaps in
--              flight and the concurrency limits. State has the structures and the interfaces
--              Effects and Swapper, Collision the tests on swaps, Grant admission and grants, Queue
--              the priority queue, Fairness the lifecycle pools, Handlers the events' handlers.
--              Ledger is the invariant of the whole state, with a module per group of handlers;
--              Ledger/Run is the run loop of internal/router/base.go, and reachability.
--   Router     internal/router/base.go: Loop joins the run loop and the handlers that it hands out, Grants
--              and Flow follow their number through the scheduler, Serving holds the bounds. Unload is the
--              function of that name; its Order is the sorting, its Divides what the requests hold.
--   Matrix     internal/matrix (program.go, dsl.go, doc.go): the solver of the matrix planner. Bits and
--              Mask have the bit sets, Registry the positions of models, Node the linked expressions
--              and the model sets they describe, Evaluate the evaluator, Program the support masks,
--              Solve the decisions. Frontier and Projection hold the proofs about the evaluator.
--              Dsl is dsl.go: Dsl/Lex the tokenizer, Dsl/Parse the parser. The Expr of a parsed text and
--              the Node of a linked program are both its node, before and after the references are set.
--              Compile is Compile of program.go, which resolves, orders and links the definitions.
--   Planner    internal/router (group.go, matrix.go, matrix_solver.go, provider.go): the eviction policies. Group
--              is the static one, Cached the matrix planner with the decision that it keeps, Lifecycle the
--              wrapper that makes room in the pool of a provider. Room says what it may stop.
--   Process    internal/process (process_command.go): the life of one model server. Types has the requests,
--              Start the function doStart, Loop a function for each case of the select of run, and the
--              relation of its turns. Settled, Transitions and Answers hold the proofs.
--   Config     internal/config: Merge is merge.go, the merge of the parsed files; its Union, Keys, Values and
--              Identity hold the proofs, and Sources the loop over the files. Names (config.go, peer.go) resolves
--              the name in a request, Selectors (selectors.go) validates a selector; its Accepted says which
--              ones are accepted, and Coexist joins the check to the group planner.
--   Logmon     internal/logmon/logging.go: the circular buffer of a log. History is the reading, Shapes the
--              writing, Kept what the buffer keeps, Runs any sequence of calls.
--   Server     internal/server: Selector is selector.go, the strategies of a selector; Least and Spill have what
--              the spillover strategy chooses, Counts its counts, Warm the warm strategy.
--   Ring       internal/ring/buffer.go: the bounded buffer of recent entries.
--   Cache      internal/cache/cache.go: stored bodies, bounded by their total size. Accounts has what the
--              fields mean, Room which entries go.
--   Chain      internal/chain/chain.go: middleware around a handler.
--
-- The scheduler asks a planner, through the Swapper interface, which models a swap stops. Here
-- the Swapper and the Effects are parameters of the scheduler, so its theorems hold for each planner
-- and for each answer of the processes, the callers and the clock.
--
-- A handler that the router hands out reports its end once, and nothing else sends that event. Router/Loop
-- says so, and thereby discharges what Scheduler/Ledger/Run asks of the end of a request. A duration of
-- the configuration keeps the wrap-around of its 64 bits.
--
-- A process runs one loop too. What a start sees outside (whether the command can be created and
-- started, each round of the health check) is a record StartEnv, a turn takes any request or end of a
-- context that its select can receive, and the answers go to a trace. The rounds of the health check
-- run on fuel; do_start_total shows it to be enough once the deadline has passed.
--
-- Correspondence: a handler of FIFO is a function from state to an optional state, where none is the
-- panic of release. What a handler does to the outside is appended to a trace, and what the outside
-- answers depends on the trace. The run loop takes one event at a time, so a run is a sequence of
-- events in any order. A Go map is an association list with one entry per key, or a function where a
-- missing key reads as zero. Machine words have 64 bits; counts are natural numbers, since limits bound
-- the reservations and the costs of a configuration are small.
--
-- The parser runs on fuel, three calls for each token and three more, which Dsl/Parse/Fuel shows to be
-- enough. The search for the order of the sets runs on one level more than there are sets, which
-- Compile/Fuel shows to be enough. Every other loop is over a list, a text or the children of an expression.
--
-- The classes of characters are written out below code point 128. From there up they are the parameter
-- Classes, for the tables of the unicode package.
--
-- Not modelled: logging, the identity of goroutines, the memo tables of the evaluator, which only save
-- work, the HTTP server, the reading of files and of YAML, and statistics. Of a child process only what
-- the run loop does to it is modelled. Of the router, the phases of ServeHTTP, the goroutine of a swap and
-- the leases of a provider's models are not: whether a caller takes a handler is an answer of Effects.
-- Of a provider's manager there is only what the planner reads of it at a decision.
pub mod Base
pub mod Scheduler
pub mod Matrix
pub mod Planner
pub mod Ring
pub mod Router
pub mod Cache
pub mod Chain
pub mod Process
pub mod Config
pub mod Logmon
pub mod Server

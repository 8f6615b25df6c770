-- ===== src/Lib.antt =====
-- Verification of the core logic of the research search engine: the backend under backend/, in Python.
--
-- The backend answers research questions over a crawled index. This library models eleven of its
-- parts that decide what is read, kept and let through:
--   * QueryFilter: the parser of filter expressions, which every search request with a filter goes
--     through before the retriever sees a tree, and their printer, which gives the canonical text of a
--     tree (backend/query_filter/parser.py, printer.py, ast_types.py, errors.py);
--   * Auth: API keys, which every request carries: their verification through a cache, and their
--     rotation with a grace period (backend/auth/service.py, key_management.py);
--   * Audit: the append-only audit log, and the deletion of the data of a tenant with its legal hold
--     (backend/audit_log/service.py, guards.py, deletion.py);
--   * Research: the research agent, from the plan of a job to its report, and the stream of events that
--     a client follows (backend/research_agent/models.py, planner.py, budget.py, executor.py, events.py,
--     service.py);
--   * Pipeline: pipelines of filters, rerankers and transforms over search results
--     (backend/pipeline_engine/models.py, registry.py, executor.py, service.py);
--   * Robots: what the crawler reads from a robots.txt and whether it may fetch a path
--     (backend/crawler/robots.py);
--   * Sessions: the store of research sessions, whose memory the research agent and the answer engine
--     read and extend (backend/session_store/models.py, service.py);
--   * Metering: the buffer for metering events that the database does not take
--     (backend/rate_limiter/metering_buffer.py);
--   * Redaction: what replaces personal data in a query before it reaches the audit log
--     (backend/pii_redactor/patterns.py, redactor.py);
--   * DeadLetters: when a document that could not be indexed is given up (backend/indexer/dlq.py);
--   * OptOut: the domains that the crawler leaves alone (backend/crawler/opt_out.py).
--
-- Prelude: shared names, Boolean tests, lists over the native numbers, text as lists of code points,
-- Python dicts as association lists (Prelude/Dict), and deques with a bound (Prelude/Deque).
--
-- QueryFilter.
--   QueryFilter/Ast        `FilterNode` and its literals, `ParseError`.
--   QueryFilter/Host       what Python decides about characters and numbers: isspace, isalpha, isalnum,
--                          lower, float, fromisoformat. It is a parameter; no law of it is assumed.
--   QueryFilter/State      `_Parser` as a state: the text before the position (reversed), the rest, the
--                          depth and the leaf count; `error` and `get_position`.
--   QueryFilter/Lexer, Literals, Parser
--                          the methods of `_Parser` under their own names, and `parse`.
--   QueryFilter/Rules ... Expressions
--                          proofs about each method; QueryFilter/Bounds and NotChains draw them together.
--   QueryFilter/Frames     `parse` on a larger stack.
--   QueryFilter/Printer    `print_filter` and `structural_eq`. What Python does with a finite float is a
--                          parameter (`Floats`).
--   QueryFilter/Escapes, Printed
--                          the parser on the text that the printer gives.
--   A loop runs on fuel: the number of characters left plus one, and each round reads one character or
--   more, so the fuel cannot run out. `parse_expr` runs on 33, one more than the nesting limit of 32,
--   which the code checks on entry. The outcome `diverge` stands for fuel that ran out. The argument
--   `frames` of `parse` is the number of calls of the methods that recurse (`parse_expr`, `parse_or_expr`,
--   `parse_and_expr`, `parse_not_expr`, `parse_primary`) that Python's stack has room for; one call more
--   gives `recursion_error`. The frames of methods that do not recurse are set aside.
--
-- Auth.
--   Auth/Keys              the rows of the table of keys, and what `authenticate` decides of them.
--   Auth/Cache             `_TTLCache`.
--   Auth/Service           `authenticate`, and the calls that other services make of `AuthService`. The
--                          verification of a hash, lower case and strip are a parameter (`Host`), and so
--                          is the emitter of audit events, which takes an event or raises.
--   Auth/Rotation          `rotate_key`, `create_key`. The key that is generated is an argument, and
--                          whether the service was given the `AuthService` whose cache it clears.
--   Auth/Propagation, Matches, Grace, Failures
--                          the proofs: the cache against the table, the rotation, the audit events.
--   Times are microseconds; a call of `authenticate` has the monotonic time of the cache and the time
--   of the day as two arguments.
--
-- Audit.
--   Audit/Tables           the tables as lists of rows, with the trigger of migrations/008_create_audit_events.sql
--                          that rejects DELETE on audit_events, which may be in place or not, and the
--                          column tenants.legal_hold_until, which no migration creates, there or not.
--   Audit/Log              `AuditLogService`. Whether an INSERT arrives in time is an argument, and
--                          `uuid.UUID`, which may raise, a parameter.
--   Audit/Guards           `audit_or_block` and `require_audit`: an action that runs behind its event.
--   Audit/Deletion         `TenantDeletionService`. Each statement commits by itself.
--   Audit/Selection, Partition, Executed, Requested
--                          the proofs, on rows, on one deletion, and on a deletion after its request.
--
-- Research.
--   Research/Events        `EventBuffer`, `EventEmitter`. `emit` has the two halves that the lock parts.
--   Research/Planner       `ResearchPlanner`. What the language model answers is an argument.
--   Research/Budget        `BudgetTracker`.
--   Research/Execution, Tools, Executor
--                          the state that the executor changes, its tools, and its loop, which is over
--                          the steps of the plan. The clock and the retriever are a parameter (`World`).
--   Research/Service       `ResearchAgentService`: a job runs inside `start_job`, as in the source.
--   Research/Replay, Turns the stream after many calls of `emit`, and two calls at once.
--   Research/Plans, Posts, Loop, Streams
--                          the proofs on plans, on the stream and the loop of the executor, and on a
--                          whole job.
--
-- Pipeline.
--   Pipeline/Models, Executor, Service
--                          the registry, the order and the execution of steps, and `PipelineService`. What
--                          a step does is a parameter: it returns, is late, or raises.
--   Pipeline/Builtin       the built-in filters and transforms of registry.py.
--   Pipeline/Steps         sequences of calls that create and delete pipelines.
--   Pipeline/Order, Warnings, Distinct
--                          the proofs.
--
-- Robots.
--   Robots/Pattern         `_path_matches` and `_wildcard_match`.
--   Robots/Glob            a reference for patterns that tries every occurrence.
--   Robots/Greedy, Paths   the code against the reference, with and without the end anchor.
--   Robots/Rules           `_check_rules`.
--   Robots/Parse, Allow    `_parse_robots_txt`, its lines as directives, and facts about its rules.
--   Robots/Cache, Freshness `RobotsCache`, and what is known after a fetch. The answer of the server and
--                          the times are arguments.
--   str.splitlines, strip, lower and float are a parameter (`Host`). The loops are structural.
--
-- Sessions.
--   Sessions/Memory        `SessionMemory`, a deque with `maxlen` as a list.
--   Sessions/Store         `Session` and every method of `SessionService`. The clock and the id of uuid4
--                          are arguments; the audit log is a function that accepts or refuses an event,
--                          and the list of the accepted ones.
--   Sessions/Steps         sequences of calls. A call of `create` comes with the hypothesis that uuid4
--                          returned an id that is not in use.
--   Sessions/Access, Recency, Unique, Adding, Invariant, Isolation, Sweep
--                          the proofs, by subject.
--   Numbers of a citation are only stored, so they are natural numbers here. Times are microseconds.
--   The code changes session objects in place; nothing else keeps a reference to one that it changes
--   later, so a change is one of the store.
--
-- Metering.
--   Metering/Buffer        `DurableMeteringBuffer`. Events, the database and the emitter of audit events
--                          are parameters, each of which may refuse. `fill_ratio >= 0.8` is
--                          4 * max_size <= 5 * size, which agrees for sizes below 10 ^ 15.
--   Metering/Flush, Level, Race
--                          proofs about `flush`, about many calls of `buffer_event`, and about one of
--                          them between the two halves of a round of `flush`.
--
-- Redaction.
--   Redaction/Detect       `detect_pii`, `luhn_check`; what a regular expression finds is a parameter
--                          (`Host`), of which nothing is assumed.
--   Redaction/Redact       `redact`, `redact_with_info`.
--   Redaction/Splicing     matches that stand apart, and one match within another.
--   Every loop is over a list.
--
-- DeadLetters/Queue and OptOut/Registry
--   hold the operations; DeadLetters/Routing and OptOut/Window the proofs. Times are whole seconds, and
--   the clock is an argument. The form of a domain in lower case without blanks around it is a
--   parameter.
--
-- Not modelled: the wording of error messages and their cut to 256 characters; the HTTP requests
-- of the crawler; threads, whose calls are taken one after another, except where an interleaving is
-- said above; the rerankers of the pipeline engine, which compute with floats, and the registry that
-- holds them; failures of the database other than those said above; and the other parts of the backend.
pub mod Prelude
pub mod QueryFilter
pub mod Robots
pub mod Sessions
pub mod Metering
pub mod Redaction
pub mod DeadLetters
pub mod OptOut
pub mod Audit
pub mod Auth
pub mod Pipeline
pub mod Research

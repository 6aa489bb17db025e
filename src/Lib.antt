-- ===== src/Lib.antt =====
-- The alerting core of Ding, modelled and verified.
--
-- Ding evaluates watches: a source gives observations, a condition is evaluated on each of them, and
-- a policy turns the outcomes into events (firing, recovered, source errors, gaps), which the store
-- keeps and the delivery workers send. An acceptance joins them: it appends the observations, evaluates
-- the entities that each concerns, and enqueues the events for their destinations.
--
-- Files and the code they are about (paths from the root of the repository):
--   Watch            internal/watch/types.go: Value (the dynamic values of a field), Observation,
--                    Event, EntityKey (`entity_key`).
--   Condition        internal/condition. Numeric is the expression tree of numeric.go and Parser its
--                    parser from tokens, with ParseCondition as a parameter; Model holds
--                    State, Transition and Evaluator; Compare has Number, Compare and Aggregate;
--                    Windowed, Signals and Predicate are the parts of `predicate` and `signal`; Emit
--                    is the closure `emit` with `messageWriter`; Policy is `unknown` and what follows
--                    a known predicate; Evaluate is the method Evaluate, branch by branch. Rule
--                    (below Policy and Evaluate) is one induction rule over all branches, which
--                    Lifecycle, Invariant and Events use; Run evaluates a history of observations.
--                    Routing is Route and SourceRecovered of routing.go, Targets is about them.
--   Delivery         internal/delivery/http.go: Http is HTTP and RetryAfter, Backoff the function of
--                    that name; Attempt is DeliverOne of internal/watchrun/workers.go.
--   Outbox           internal/store: Rows holds the tables and the statements on one table
--                    (statements_outbox.go, the triggers of schema14.sql), Operations is Enqueue,
--                    Claim and Finish of outbox.go, Manual is CancelDeliveries of lifecycle.go and
--                    Retry of inspection.go. A step is one transaction, rolled back on an error, and
--                    Trace runs any sequence of them. Due says of the tables when an intent is due,
--                    and Readings reads the tests of the claim's query so. A lease is that of a watch,
--                    a destination and its revision, as in the query, whereas
--                    docs/development/adapter-contract.md has one lease for a revision.
--   Logs             internal/logs: Frame is the Framer of frame.go and multiline.go; Boundaries and
--                    Writes compare its Write with one that takes a byte at a time, and
--                    Bounds is about the lengths of records. Window is the
--                    ring of buckets of window.go, Summary is Snapshot and Assess of summary.go,
--                    Counts and History follow the counters over any inputs.
--   Access           internal/access/access.go: Allows and Capabilities.
--   Hosting          internal/hostingpolicy/capacity.go: Effective, Validate and Limits.
--   Runtime          internal/watchrun on the rows of internal/store. Tables holds the rows of one
--                    watch and the statements on them (records.go, push.go, lifecycle.go); Cache is
--                    acceptance_entities.go, which Overlay, Coherent, Steps, Direct and Refinement
--                    compare with the table itself; Emission is appendEvent and appendEvaluated, with
--                    Enqueue of Outbox; Accept is acceptPush of app.go: Input its checks and
--                    the observations, Evaluation its loop over entities, with Evaluate of Condition.
--                    Rule, Loop and Settled are one rule for what that loop keeps; Outcome says
--                    which steps a commit has taken, Frame what each changes; Invariant, Preserved,
--                    Retry and Ranges are about whole calls. Control is Lifecycle of lifecycle.go, with
--                    PurgeWatch of purge.go, and its Resume what a resumed watch does to its
--                    entities; Watched, Follows, Preserved, Resumed and Actions are about it. History
--                    runs acceptances and lifecycle actions in any sequence, and Superseded is about
--                    an input that was read before them.
--   Plan             internal/plan/compile.go: Destination is CompileDestination with header and refs,
--                    Policy the part of Compile on policies and limits, Targets that on destinations,
--                    Groups that on grouping fields, Durations its durations and Names its regular
--                    expressions. Normal, Again, Settled, Bounds, Order, Sorted, Distinct, Clean and
--                    Kept are about them.
--
-- Conventions. A time is the number of nanoseconds since Go's zero time, a natural number without
-- bound, and 0 is the time for which IsZero holds; a duration is a natural number of nanoseconds, as
-- the compiler of definitions admits no negative one. `t.After(now.Add(-d))` is written `now < t + d`.
-- In the outbox and in the log window a time counts from the Unix epoch instead; a window's is past
-- the epoch's first hour.
-- A Go function that returns an error gives a Result with the error's message; the value that such a
-- function returns beside an error is not modelled, since callers discard it. Texts are native texts,
-- so they are always valid UTF-8. float64 and its operations are a parameter (Floats), and so are
-- text/template, SHA-256 and the JSON text of keys and baselines (Runtime). All recursion is
-- structural, except for three loops on fuel: the framer's Write has a round for each byte, and the
-- parser's two loops one for each token; a round takes one at least, so that is enough.
--
-- Not modelled: HTTP, files, processes, SQL itself, regular expressions except the three of
-- compile.go, the rest of the compiler of definitions (internal/plan: sources, conditions, YAML),
-- the rest of the runtime (internal/watchrun: Apply, RunTimers, schedules and readers), columns
-- that an acceptance never reads (the revision and time of an entity, push usage), retention and
-- the other tables of the store, and the login, installation and MCP packages. The rights of a
-- caller and the hold of a transfer are an argument (Caller), and integration mutations are left
-- out. Foreign keys are taken to hold, a state of the cache stands for its JSON text
-- (`stored_state` is what reading that text back gives), and random tokens, jitter and clocks are
-- arguments.
pub mod Base
pub mod Watch
pub mod Condition
pub mod Delivery
pub mod Outbox
pub mod Logs
pub mod Access
pub mod Hosting
pub mod Runtime
pub mod Plan

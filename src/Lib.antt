-- ===== src/Lib.antt =====
-- featureflip-go: the Go SDK of a feature-flag service. The SDK holds the flags and segments that
-- the service sends and evaluates them locally for a user's context; it reports analytics events.
--
-- How the parts interact: an update (streaming or polling) passes through the filter of entities that
-- this build cannot evaluate (unevaluable.go), enters the store (store.go), and the store reports the
-- keys whose evaluation may have moved (updates.go). An evaluation (evaluation.go) reads the store's
-- flags and segments, resolves prerequisites through a memo, tries the rules in order of priority,
-- tests conditions (conditions.go) and buckets users for percentage rollouts (bucketing.go,
-- canonical_number.go). Events are buffered, batched and posted (events.go). The HTTP client
-- (httpclient.go) says what an answer of the server is worth to the data sources: a poll
-- (polling.go) replaces the store, and the stream (streaming.go) hands on events, reconnects with a
-- delay, and starts a poller beside it when connections keep delivering nothing. A user's handle
-- (featureflip.go) reads flags and records events through a core (shared_core.go) that all handles of
-- an SDK key share and the last Close shuts down; inspectors (inspector.go) observe each read. The
-- initial load of a core enters the store without the filter.
--
-- Files and code:
--   Base, Base/*           shared names, lists and texts over the native numbers, integers, Go maps
--   Models                 models.go: the wire types, the context, reasons and details
--   Platform               Go's standard library as a record of functions, an argument of the model
--   Floats                 comparisons of float64 bit patterns
--   Semver, Semver/*       conditions.go: parseSemver, compareSemver and what they call
--   DateTime, DateTime/*   conditions.go: parseDateTime, canonicalizeISO, compareDateTime
--   Conditions, /*         conditions.go: attributes, operators, condition groups
--   Bucketing, /*          bucketing.go and canonical_number.go
--   Evaluation, /*         evaluation.go and unbucketable.go
--   Unevaluable, /*        unevaluable.go
--   Updates, /*            updates.go
--   Store, /*              store.go
--   Events                 events.go, with one call at a time
--   Events/Concurrent, /*  events.go: enqueue, flush, stop and start as steps of any number of goroutines
--   Http, /*               httpclient.go: requests, the User-Agent, what answers and failures mean
--   Polling                polling.go: one poll
--   Polling/Loop, Paced    polling.go: run and stop, as a function of what happens to the goroutine
--   Streaming              streaming.go: handleEvent
--   Streaming/Frames       streaming.go: connect, the events of the lines
--   Streaming/Connect      streaming.go: connect, from its request to its end
--   Streaming/Backoff      streaming.go: backoffDelay, withJitter
--   Streaming/Fallback, /* streaming.go: run, stop and the fallback poller, as steps of two goroutines
--   Streaming/Invariant    what the store holds once the data sources have updated it
--   Config                 config.go; shared_core.go: configsEqual
--   Client                 featureflip.go: evaluateFlag, narrow, recordEvaluation, the typed accessors
--   Client/Accessors       featureflip.go: the other accessors, Track, Identify, Flush
--   Client/Reads, Live     featureflip.go: what a read returns and reports; reads and live updates
--   Client/Inspector       inspector.go
--   Client/Initial         shared_core.go: newSharedCore, doInit; featureflip.go: the SDK key of Get
--   Client/Shutdown        shared_core.go: the end of a core
--   Client/Listeners       shared_core.go: the update listeners; featureflip.go: OnUpdate, Close;
--   Client/Listeners/*     with one call at a time, and (Overlap) as steps of any number of goroutines
--   Client/Lifecycle, /*   featureflip.go: Get and Close; shared_core.go: tryAcquire, release,
--                          shutdown; as steps of any number of goroutines; ResetForTesting (Reset)
--   Testing, /*            testing.go
--   Consistency, /*        snapshots and stream events with the evaluation before and after them
--   Samples, /*            concrete platform functions and a small configuration for the examples
--
-- Data. A Go string is the list of its bytes, a float64 its IEEE-754 bit pattern, an `int` an integer
-- without bound. A Go map is an association list with one entry to a key; the order of a range over
-- a map does not matter to what is computed from it here. State is passed on: `State` of the
-- evaluation has the memo and the set of rollouts that were logged, `Store` the two maps,
-- `EventProcessor` the fields that its mutex guards. An operation that holds a lock from its start to
-- its end is one step.
--
-- Fuel. `evaluate_internal` counts the levels that are left, 11 at depth 0, which is the bound of the
-- code and no addition to it. The work-list of addPrerequisiteDependents has one round for each key
-- at the start and each flag, and the loop of drain one round more than there are events. `itoa` has
-- four digits, one more than the exponent of a float64 needs.
--
-- Interleavings. `Step` of Streaming/Fallback has a step for what a goroutine does between two points
-- where another can intervene: what holds fallbackMu throughout is one step, and connect is the
-- delivery of its first event and its return. `Step` of Client/Lifecycle has one for a critical
-- section of liveCoresMu and for a compare-and-swap that succeeds; what a goroutine waits for in
-- between, such as the initial load, is no step. `Step` of Events/Concurrent has one for a critical
-- section of an event processor's mutex, for a request and for an operation on a channel; the
-- endpoint, the clock and the ticker may do anything at each. `Step` of Client/Listeners/Overlap has
-- one for a critical section and for an operation on `disposed`. `happen` of Polling/Loop is one for a
-- poll and for an arm of the select. `backoff_loop` counts the rounds of its loop.
--
-- Not modelled: DebugLiveCoreCount; net/http, which is given requests and timeouts and gives answers,
-- and bufio.Scanner, whose lines are the input of `read_lines`; logging; in Streaming/Fallback, the
-- polls themselves, of which one may be under way, and end by updating the store, after its poller was
-- told to stop. Where the text of a log line names a reason, the model has a constructor. A reference count has no upper bound. sort.Slice, md5,
-- regular expressions, case folding, number, date and JSON parsing, url.PathEscape, and what the
-- server answers are functions that the definitions take; a theorem that needs more of one than its
-- type takes a hypothesis.
pub mod Base
pub mod Models
pub mod Platform
pub mod Semver
pub mod Floats
pub mod DateTime
pub mod Conditions
pub mod Bucketing
pub mod Evaluation
pub mod Unevaluable
pub mod Updates
pub mod Store
pub mod Events
pub mod Http
pub mod Polling
pub mod Streaming
pub mod Config
pub mod Client
pub mod Testing
pub mod Consistency
pub mod Samples

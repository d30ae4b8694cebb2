-- ===== src/Lib.antt =====
-- m-ui: the publication of managed configurations, the validation of the desired state,
-- authentication, the operation lock and the schedulers.
--
-- m-ui keeps the desired state of a proxy server in SQLite, compiles it to the configuration that
-- Mihomo runs, and publishes it: the rows, the archived revision, the running file and the process
-- must agree whichever call fails. This library models that publication as the source runs it under
-- its operation lock, the lock itself, the validation that a desired state passes before it is
-- published, the logins and sessions of administrators with the back-off of failed logins, the
-- back-off of the core update loop, and the batch that disables expired users.
--
-- The parts and their files:
--   Prelude     shared names, Boolean tests, list helpers, association lists for maps, texts as lists
--               of code points with the functions of Go's `strings` and `strconv` that the code calls,
--               and a number that is printed and read back.
--   Domain      internal/domain. Model and Model/Stream are the records of model.go, Endpoint its
--               endpoints, Legacy its `NormalizeLegacy`. Of validate.go, Ports has `ParsePortRanges`,
--               Checks the checks of single values, Checks/Origins `ValidateCORSOrigins`, Security and
--               Protocols those of the listeners, Users, Nodes and State `validateNodeUser`,
--               `validateAccessProfile`, `validateNode` and `Validate`. Distinct has the lemmas on
--               loops that refuse repeated keys; Address, Bounds, Pair, Normal, Loops, Credentials and
--               Valid have the proofs.
--   Operation   internal/operation: Coordinator is the step relation of callers on the channel, the flag
--               and the lock file of coordinator.go and filelock_unix.go; Invariant and Exclusion have
--               the proofs.
--   Auth        Limiter: internal/auth/limiter.go. `LoginLimiter` is its record, `failure`, `success`,
--               `retry_after` and `cleanup` its methods; Delay, Attempts and Escalation have the
--               proofs. Accounts and Store: internal/store/auth.go and bootstrap.go, the tables with
--               their calls. Service: internal/auth/service.go with the policies of password.go, and
--               Setup its `CompleteSetup`; Store/Seeds and SetupToken are the setup token of the two
--               files bootstrap.go, with the proofs in Rotation; Runs and Effects take a successful run apart, Sessions,
--               Logins, Passwords, Bootstrap and Once have the proofs. PasswordHash makes, prints,
--               parses and verifies hashes, from password.go; Bounds and RoundTrip have the proofs.
--   Scheduler   Core: internal/scheduler/core.go, the rounds of its `Run` with their waits; Backoff
--               has the proofs. A duration is the bit pattern of an int64, whose doubling wraps.
--               Expiry: internal/scheduler/expiry.go, the
--               mutation that disables expired users and the nodes they leave empty.
--   Publisher   internal/publisher/publisher.go and files.go, with the revision, audit and system
--               tables of internal/store/managed.go. World has the data: the tables, the open
--               transaction's copy of them, the files, the process. Monad is state passing with
--               errors. Files, Rows, Store and Runtime are the calls; Recovery, Verify, Request and
--               Commit the functions of publisher.go, under their names; Publish is `publishLocked`
--               in stretches that end where the source defers a clean-up. Triple, View, Keeps and
--               Agreement have the proofs, Guarantees, Refusal and Retention the properties.
--
-- How the model stands to the code:
--   * Every call of the file system, the database and the process asks `Env.answer` at the call's
--     number how it ends: done, refused without effect, or lost, which is an error after the effect.
--     A property holds for each such environment, so for each placing of failures. A call that only
--     reads, and a new id, answer the same way; the clock does not fail.
--   * In the publisher, identifiers, times and digests are numbers. `Env.sha256`, `compile`, the snapshot codec, the
--     redaction, the validation of a candidate and the administrators' ids are parameters; of the compiler the model assumes
--     that one state has one text, and of the digest that it is a function.
--   * `Env.tampered` lets others write to the running file at each look that the code takes at it.
--     Writes between a look and the replacement that follows it are not modelled.
--   * `Commit` that reports an error closes the transaction, and the tables may be the old or the
--     new ones. A write of another connection fails while the transaction is open.
--   * `defer` runs the rollback in each case; on a closed transaction it does nothing, which stands
--     for the source's `transactionOpen`. `errors.Join` is the concatenation of fault lists.
--   * A mutation is any function on the transaction's tables.
--   * `waitHealthy` polls until a deadline: the model polls `Options.health_polls` times at most.
--   * A problem of the validation is the format of its message; the positions and values that it is
--     formatted with, and the prefixes that `%w` puts before it, are left out. The fields of
--     `Checks.Library` are the parsers of IP addresses, UUIDs, URLs, base64 and port names.
--   * A text is valid UTF-8, as the list of its code points. A set that a loop fills is
--     the list of what it has seen. The handshakes of a map are checked in the order of a list.
--   * `Auth.Env` says how each call of the database and of the random source ends. A transaction is one
--     call. The clock's readings in one request are equal, and its password hash stands
--     for the functions of PasswordHash.
--   * A caller of the coordinator is a number, and so is a process, each with the same lock file; the
--     coordinator without a file is left out. A step is one action of one caller,
--     in any order; the file lock is taken where no caller has it. A process that dies is not modelled.
--   * The limiter's clock is an argument, its mutex makes a method one step, and its counters wrap
--     at their widths.
--
-- Not modelled: the startup reconciliation and the rollback to an older revision, the rows of the
-- desired state and of the settings, the compiler and the rendering of the protocols, the
-- HTTP interface, process managers, downloads of the core, and symbolic links and permissions of
-- directories: I/O around the modelled parts, or parts that stand on their own.
pub mod Prelude
pub mod Auth
pub mod Publisher
pub mod Scheduler
pub mod Domain
pub mod Operation

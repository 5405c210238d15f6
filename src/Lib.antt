-- ===== src/Lib.antt =====
-- A verification library for pkgwatch, a tool that watches the packages installed on a machine for
-- vulnerabilities and malware and stands between the package managers and their registries.
--
-- The parts of the program and how they interact: OSV records become advisories (internal/osv),
-- which are packed into a signed bundle. The gate (internal/gate) answers for each package version
-- whether it may be installed: it looks the advisories of the package up, asks the matcher
-- (internal/match) which of them affect the version and how serious they are, keeps the worst and
-- holds fresh releases back. The matcher compares versions by the rules of their ecosystem
-- (internal/version). The dashboard (internal/web) limits how often a sign-in may fail. An agent
-- that has a hub keeps its events in a queue (internal/repo/syncqueue.go) and pushes them with its
-- findings to the hub (internal/agent/sync.go), which lets a device in by its signature, its
-- approval and its token (internal/hub/api.go, internal/device) and stores what it sends
-- (internal/hub/sync.go, internal/repo/fleet.go); a device is enrolled by a pairing code and
-- approved by a person (internal/repo/devices.go).
--
-- Files:
-- - Base: what the other files share: lists, integers, orders on values (Base/Compare), Go texts
--   with the functions of `strings` and `strconv` that the source uses (Base/Text), what a query
--   does with rows (Base/Select), and a backtracking engine of regular expressions (Base/Regex).
-- - Version/Dpkg, Version/Apk, Version/Pep440, Version/Npmver: internal/version/dpkg/dpkg.go,
--   apk/apk.go, pep440/pep440.go and npmver/npmver.go, a type with `parse`, `to_string`, `compare_*`,
--   `less` and `equal` each, which are Parse, String, Compare, Less and Equal. Their children hold
--   the proofs: Order (the laws of an order), Fragment, RoundTrip, Phases, Ranks, Parsed.
-- - Match: the types of internal/match/match.go; Match/Affects is Affects and inRange, with
--   their meaning in Match/Affects/Spec; Match/Score is Score and tierFor; Match/Ecosystem,
--   Match/Fix and Match/Purl are ecosystem.go, fix.go, and purl.go with parse.go.
-- - Gate: the types of internal/gate/gate.go; Gate/Decide is decide, beats and EvaluateSet (with
--   Worst for its loop, Blocks and Outcome for its answer), Gate/Buffer is applyBuffer, Gate/Record
--   the choice in record, Gate/Npm the names and versions of internal/gate/npm.go.
-- - Osv: Advisories and eventsToIntervals of internal/osv/osv.go.
-- - Scanner: collapse and scopeRank of internal/scanner/scanner.go, with Package of
--   internal/collect/collect.go and its PURL; Scanner/Collapse is about their effect.
-- - Web/LoginLimit: internal/web/loginlimit.go.
-- - Fleet: the messages of internal/fleet/protocol.go; Fleet/Queue is the queue of
--   internal/repo/syncqueue.go with Prune of internal/repo/retention.go and RecordEvent of
--   internal/repo/sessions.go, and Fleet/Queue/Trim is about TrimQueue.
-- - Agent: syncOnce with its request, handlePushError and runSync of internal/agent/sync.go, with
--   the waits in Agent/Backoff and what the request withholds in Agent/Inventory; Agent/Lease is
--   internal/agent/lease.go, with what a reader can rely on in Agent/Lease/Readers.
-- - Hub: the rows of the hub's tables. Hub/Store is IngestEvents and the Replace methods of
--   internal/repo/fleet.go, with Hub/Store/Ingest for their effect; Hub/Devices is
--   internal/repo/devices.go; Hub/Auth is Verify and canonical of internal/device/device.go and
--   requireDevice of internal/hub/api.go; Hub/Enroll is handleEnroll, with ID and HashCode;
--   Hub/Sync is handleSync of internal/hub/sync.go, where Frame, Terms, Answer and Stored tell what
--   a push leaves alone and what it stores. Hub/Lifecycle is any sequence of these actions on the
--   hub; Hub/Delivery is the step relation of one agent, the network and the hub, with its
--   invariant (Invariant, Agent, Arrival, Safe) and the emptying of the queue (Drain).
--   Hub/Samples and Hub/Enroll/Samples are data for the tests.
--
-- How the code is represented: a text is its list of code points, and is taken to be valid UTF-8;
-- a comparison result -1, 0, 1 is lt, eq, gt; an int is an integer without a bound, but for
-- strconv.Atoi, which refuses what does not fit; a time and a duration are integers of nanoseconds,
-- or numbers of seconds where a table or a message holds them, the zero time is `none`; an error is a constructor of ParseError, or none where the caller only
-- asks whether there is one; a map is an association list or a list in any order. A mutated
-- variable of a loop is an argument of the function for the loop, a record that a method changes
-- is returned. A table is the list of its rows, and a statement of SQL is written out as what it does
-- to them; a transaction that fails leaves them as they were, and the handlers are functions from
-- tables to an answer or a refusal and tables. An event's number is its primary key, positive and rising.
--
-- Parameters: the semver and purl libraries, the lower case of letters beyond ASCII, float64 (never
-- NaN here: severities come from a column that holds none), the database lookups, the overrides of
-- a session, the print of a duration, the clock, which transactions fail, and the cryptography
-- (SHA-256, base32, base64, ed25519 and the argon2id hash of a token). What is assumed of them stands in the
-- statements.
--
-- Fuel: the loop of compareFragment has a round for each character of the two texts, and each
-- round takes one of them at least; the loop over the suffixes of an Alpine version has one more
-- round than the text has characters, and each round shortens it; a starred regular expression
-- has a round for each character left; the print of a number n has n + 1 rounds for its digits.
-- All other loops are structural.
--
-- Not modelled: the queries that pages read, HTTP and JSON, the file system, goroutines and locks,
-- the logs, the recovery from a panic, the CVSS arithmetic of floats, and the parts that collect,
-- serve, quarantine, publish and print.
pub mod Base
pub mod Version
pub mod Match
pub mod Gate
pub mod Web
pub mod Osv
pub mod Fleet
pub mod Hub
pub mod Agent
pub mod Scanner

-- ===== src/Lib.antt =====
-- Verification library of stream-analysis-tools: the Go API that registers YouTube streams,
-- collects their chat replays, and watches reservations of streams that are still to come.
--
-- Parts and their files
--
-- Streams (apps/api/internal/streams): Streams/Model has the types of model.go, Streams/Parse
-- ParseYouTubeURL of url.go, with its theorems in Streams/Canonical, Streams/Normalize the checks of
-- repository.go (normalizeMetadata, validateListOptions), Streams/Repository the operations of
-- PostgresRepository, Streams/Service those of service.go, and Streams/Registered what Register leaves.
--
-- Youtube (apps/api/internal/youtube): Youtube/Duration has parseDuration of client.go and Youtube/Client
-- the rest of it, from Fetch on; Youtube/Sums and Youtube/Fetched have the theorems.
--
-- Collections (apps/api/internal/collections): Collections/Model and Collections/Cursor have the types
-- and the functions of model.go; Collections/Repository/Jobs has Start, Latest and Retry of repository.go,
-- with the theorems in Pending, Start and Retry beside it; Collections/Repository/Messages has
-- ListMessages and SearchMessages, with what is proved of their rows in Timeline, Pages and Search;
-- Collections/Repository/Like has escapeLikePattern and the ILIKE that it is written for;
-- Collections/Repository/ChatActivity has the query of activity.go, with the theorem in Activity;
-- Collections/Service has the operations of service.go, and Collections/Service/Walk a client that
-- follows the cursors, of a list in Walk/Listed and of a search in Walk/Searched.
--
-- Reservations (apps/api/internal/reservations): Reservations/Model has the states and the
-- transition table of model.go, Reservations/Schedule the functions stateFromMetadata, nextCheck and
-- boundedBackoff of repository.go, Reservations/Repository/Public, Leases, Guarded and Outcomes the
-- operations of PostgresRepository (Create, Get, List, Cancel; ClaimDue, Heartbeat; ApplyMetadata;
-- SyncCollection, RecordFailure), Reservations/Service the operations of service.go and
-- Reservations/Monitor RunOnce of monitor.go, with what it does and reports in Reservations/Reports
-- and runs that keep failing in Reservations/Exhausted. Reservations/Machine and the files below
-- Reservations/Schedule prove the pure functions, Reservations/Claims and Reservations/Fencing the
-- leases, Reservations/Invariant that each operation keeps the invariant, and Reservations/System
-- puts users, monitor workers, YouTube, the collection worker and failing calls together as a step
-- relation.
--
-- Http (apps/api/internal/httpapi and apps/api/internal/generated/openapiv1): Http/Problems has the
-- mapping of errors to problems of router.go, Http/Types the response structs of api.gen.go and Http/Enums
-- its enums, Http/Responses the response functions of router.go, and Http/Streams, Http/Collections and
-- Http/Reservations its handlers. Http/Routes has the registered patterns, and Http/Server the way of a
-- request to its handler: rejectCollectorOptions, the wrappers and the strict handlers, where `bound`
-- stands for each early return with the request problem. Http/Contract, Valid, Safe (with Reads)
-- and Resources have the theorems.
--
-- Migrations (apps/api/internal/database): Migrations has migrations.go, with the theorems in
-- Migrations/Names, Migrations/Runs and Migrations/Again.
--
-- Go has what these packages ask of Go's library: base64, strconv, strings and utf8. Samples has a package
-- of identifiers' texts, for the witnesses.
--
-- Sql models what these packages ask of PostgreSQL: Sql/Table a table as a list of rows, Sql/Rows the
-- rows of migrations/, Sql/Session the calls of the driver and transactions, with Hoare rules in
-- Sql/Session/Ensures, and Sql/Jobs and Sql/StreamTable the statements that two packages share. Errors
-- has the sentinel errors of all packages. Base has what every file uses.
--
-- How the parts interact
--
-- A service calls its repository, and the monitor its repository and the metadata provider. A
-- repository operation is a function from the database, with the faults to come, to a result and the
-- database after it. A handler calls one service and turns its result into a response; an error of a
-- service becomes a problem. Streams, jobs and reservations meet in the database only: ApplyMetadata
-- writes streams and jobs, SyncCollection reads jobs, Start and Retry add jobs.
--
-- Where the documents differ
--
-- The reservations are modelled as the code treats them. ADR 0004 (old_docs/decisions) keeps the state
-- at a transient failure, where RecordFailure gives up at the fifth check, and wants the chat replay to
-- be ready before a reservation collects, where stateFromMetadata asks for the duration only.
--
-- Choices of the model
--
-- A time is a number of nanoseconds since Go's zero time; the database's rounding to microseconds is
-- left out. A UUID is a number. What gen_random_uuid() and CURRENT_TIMESTAMP give is an argument
-- (`fresh`, `now`, `Supply`), checked against the primary key where a row is added. A text that the
-- code walks is a list of bytes. An error is the sentinel that errors.Is finds in its chain. Counters
-- of the database are unbounded.
--
-- An operation of a repository is one step: its row locks keep the rows that it decides by, and SKIP
-- LOCKED skips no row, since no other operation is under way. The list `faults` says which calls of
-- the driver fail; a failing call has no effect, the commit included. The CHECK constraints of
-- stream.streams are enforced by the model; those of reservation.reservations are not, but are part of
-- the invariant. Unique constraints are enforced where a row is added and where an UPDATE writes a column
-- of the index: the job of a reservation and the reservation of a job (no UPDATE makes a
-- reservation active again). Foreign keys and the lease columns of collection jobs are left out.
--
-- The services take the URL parser and the metadata provider as arguments, without any hypothesis; the
-- parser of Streams/Parse and the client of Youtube/Client are such arguments. What net/url, the HTTP
-- exchange with YouTube, floating-point numbers, the package uuid, the binding of parameters and JSON
-- answer are arguments, and so is the effect of a migration's SQL. Their hypotheses are the records
-- UuidText, UuidPaths and ReadsCanonical. A product of parseDuration is any 64 bits. The texts of
-- the identifiers in UuidPaths are asked for of every number, though those from 2^128 on do not occur.
-- The locale's notion of the same letter is an argument of ILIKE, without any hypothesis.
--
-- Bounds and fuel: the loop of boundedBackoff runs on the number of its rounds, which the code
-- counts too. Following the cursors is given one request more than there are messages, which is
-- enough for any page size: the walk says whether it ended at a page without a next cursor or ran
-- out of requests. A 64-bit number is written in at most twenty digits; trimming and counting
-- characters run on the length of the text, and the series of the chat activity on the duration,
-- which no series outlasts.
--
-- Not modelled: the encoding of JSON, HEAD requests and paths that the mux redirects; the wiring of the
-- process in apps/api/cmd/api/main.go and NewClient, which check configuration; the worker in Python,
-- which the model takes as an environment that changes the jobs in any way, and the web application.
mod Base
pub mod Errors
pub mod Streams
pub mod Collections
pub mod Sql
pub mod Reservations
pub mod Http
pub mod Go
pub mod Migrations
pub mod Youtube
pub mod Samples

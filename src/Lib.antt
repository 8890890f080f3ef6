-- ===== src/Lib.antt =====
-- Kafka3O Gateway: a stateless gateway that exposes one Kafka cluster as a REST API. This library
-- models its core and proves what makes it safe to operate.
--
-- Parts and their files, with the code's functions under each (paths from the repository's root):
-- - Command: the command catalog (internal/command/table.go: Table, Lookup).
-- - Errors: error kinds and codes, their texts and how a chain of wrapped errors is searched
--   (internal/kafka/errors.go, internal/service/core/errors.go: CodeOf, KindOf, Error), and the HTTP
--   statuses (internal/api/errors/tables.go).
-- - Gates: the caller, the policy and the check before every command
--   (internal/service/core/{caller,policy}.go, internal/service/gates/check.go: Check).
-- - Audit: events and their severity, the two-phase protocol over a list of sinks, and the recording
--   sink (internal/audit/{event,auditor,sink}.go, internal/audit/audittest/recording.go).
-- - Core: the lifecycles of commands. Run is the gate with its audit, Destructive the sequence plan,
--   confirm, ATTEMPT, apply, RESULT, and Bulk validation and independent execution
--   (internal/service/core/{run,destructive,bulk}.go).
--   Token is the token of a plan with many targets (plantoken.go), Events the base of an audit event,
--   and Paging the pagination that the topic and the group listing share.
-- - Scan: one bounded scan. Codec is decode.go and encode.go, Matcher is matcher.go and regex.go,
--   Runner the poll loop with its bounds and cursors, and Run the scan around it (internal/scan).
-- - Message: the message service's bounds, windows, events, reading commands, replay, and the commands
--   that write: Produce, BulkBody and Tombstone are produce.go, producebulk.go and tombstone.go
--   (internal/service/message/{bounds,window,events,read,search,get,replay,service}.go).
-- - Topic: the topic service. Listing is List, Describe is describe.go and size.go, Count is count.go,
--   Create is create.go, Delete and Records are delete.go, Alter is destructive.go
--   (internal/service/topic).
-- - Group: the group service. Lag is Describe and ConsumersOfTopic, Reset is reset.go, Members and
--   Clone are destructive.go (internal/service/group).
-- - Http: the middleware in front of every operation. Auth and Reason are apikey.go, Address is
--   clientip.go, Cors is cors.go and the order of the two in api.go (internal/api/middleware,
--   internal/api/api.go: New).
-- - Examples: concrete runs, and inputs at which the theorems apply.
-- A message command checks the gate (Core.Run), resolves its bounds and its windows (Message), runs a
-- scan (Scan.Run), and reports to the auditor (Audit).
--
-- How the code is modelled: a call that changes state, such as a sink's Write or a plan step, takes
-- the state and returns it (`Io`), and error results are `Result`, or an `Option` where the code
-- returns only an error. A Go map is an association list whose order stands for the order in which
-- the code would range over it, so a theorem about every list is one about every order. Integers are
-- unbounded, except that the product that makes a duration of milliseconds, the sums and products of
-- paging, the limit of an uploaded body, the start of a latest window and the count of the records
-- that a truncation affects wrap at 64 bits. Times are nanoseconds. sort.Strings and sort.Slice are an
-- insertion sort, which keeps the order of equal keys, where Go leaves it open; only the changes of a
-- topic's configuration can have equal keys. In a latest scan, where records can have equal
-- timestamps, sort.Slice is a parameter. Strings are ordered by their bytes.
--
-- The text of an encoding's error is the source's but for the position that base64's error names and
-- the escapes that `%q` makes in an encoding's name.
--
-- A panic is a value: `none` for a page whose length is negative, and the error "index out of range"
-- for the first result of an empty answer, which the port's contract excludes. Where a service's
-- function reads several answers in turn, its stages are functions of what was read before.
--
-- A scan's consumer is the list of what its polls answer, with what the loop sees of its context after
-- each; the poll loop recurs on that list, so it needs no fuel, and `none` says that it is still polling
-- when the list ends. Decimal numbers are written with one more unit of fuel than the number itself,
-- which has fewer digits than that.
--
-- Parameters: the Kafka clients, the standard library's validators, base64 and regexp, sort.Slice in
-- a latest scan, SHA-256, JSON, `%q`, the trimming of a text, the reading of addresses, the clock and the
-- ids. Hypotheses about them are what they document: base64 decodes what it encoded, sort.Slice permutes
-- and orders by a strict weak order, and the producer returns one result for each record.
--
-- Not modelled: the HTTP layer but for its error tables and middleware (its routes, its
-- parsing of requests and the request id are left out), configuration, start-up and shutdown, the
-- Kafka client adapters and test doubles, the sinks that write logs and topics, telemetry, and the
-- services for clusters and security, which use the lifecycles of Core. Of the message service, the
-- command that filters by JSONPath is left out. Concurrency inside the regex timeout is reduced to the
-- time that a match takes.
pub mod Prelude
pub mod Command
pub mod Audit
pub mod Errors
pub mod Gates
pub mod Core
pub mod Scan
pub mod Message
pub mod Topic
pub mod Group
pub mod Http
pub mod Examples

-- ===== src/Lib.antt =====
-- agentchat: a daemon through which agents talk in rooms that mirror Discord channels. Accounts own a
-- bot and API tokens; a gateway event of a bot becomes a row per message and a state row per room
-- member; watchers of an account get a fresh snapshot of its state after every change. This library
-- models the Go code of that core and states what the code guarantees.
--
-- The parts, and where they are modelled:
--   Prelude        Boolean tests, lists measured by native numbers, Go strings as lists of bytes, and
--                  Go maps keyed by strings as association lists. The lemmas the parts share.
--   Errcode        internal/errcode. Code, Error and Wrap, Is, As (errcode.go), HTTPStatus (http.go),
--                  ExitCode (exitcode.go). Errcode/Result is what the other parts return: a value or
--                  the code of the error, whose message and cause are dropped.
--   Store          internal/store/types.go, and internal/store/sqlite: a record of tables (`Db`), and
--                  a child module per repository (token_repo.go is Store/Tokens, and so on) with one
--                  function per SQL statement, from the tables to the tables or to an error. The
--                  primary keys, unique columns, foreign keys and cascades of the migrations are
--                  written out. `with_tx` is WithTx of db.go.
--   Auth           internal/auth/token.go (Auth/Token, Auth/Manager), internal/auth/middleware.go
--                  (Auth/Middleware) and internal/crypto/bcrypt.go. The other modules are proofs.
--   Bus            internal/state/bus.go. A bus is a record; every exported function and the timers'
--                  `fire` are functions on it, and Bus/Execution runs sequences of them together with
--                  what the environment does (a timer expires, a goroutine gets the mutex, a consumer
--                  receives). Bus/Steps has one preservation theorem per operation.
--   Aggregator     internal/state/aggregator.go and types.go: `build` makes a snapshot from the tables.
--                  Aggregator/Instance is its instance of the bus's `Builder`.
--   Message        internal/message/ingester.go: `dispatch` of one event, on the tables and the bus.
--   Connector      internal/connector/connector.go: one function per section that holds the mutex. In
--                  Connector/System a state is the connector with the goroutines that are between two
--                  sections, and a step is one section of one of them, in any order.
--   Mentions       internal/bot/mentions.go: ParseMentions, which the send path calls; its regular
--                  expressions are scans over bytes.
--   Account        internal/account/service.go: the checks and the plan of an update, and the calls of the
--                  account repository.
--   Api            internal/api/v1: the handlers of messages.go (Api/Post, Api/Send, Api/Read,
--                  Api/Display), rooms.go (Api/Rooms, Api/Members), announcements.go, accounts.go
--                  (Api/Profiles), tokens.go and discord.go.
--                  A handler is a function on the tables and the bus; the other modules are proofs.
--   Secrets        internal/crypto/aesgcm.go, on a GCM that is a parameter with its law (`GcmLaw`).
--   Downloader     internal/attachment/downloader.go: one cycle over the pending attachments, on the
--                  counts of failures and the tables. The file system and HTTP answer per attachment.
--
-- How they interact: the middleware asks the token manager, which reads and writes the token table
-- through the repository; the ingester runs the repositories inside one transaction and then calls
-- the bus's PublishMany, and so do the handlers; the bus builds snapshots through an interface
-- (`Builder`), of which the aggregator is an instance; the downloader fetches the rows that the
-- ingester left pending.
--
-- Choices. A time is its Unix second, and in the retries of the downloader its nanosecond. An int64
-- counter is its bit pattern, and the theorems on the bus ask that it stays below 2 ^ 63. No
-- function takes fuel: all loops recurse on the list that they range over. What a step reads from
-- outside (UUIDs, random bytes, clocks, hashes, base64, bcrypt, JSON) is an argument, with an error
-- where the source handles one; `BcryptLaw` and `GcmLaw` are the laws of such code, with instances
-- in Auth/Tests and Api/Discord/Tests. A panic is `none`, so that a theorem that a run is `some`
-- shows that it never panics. A SQL ORDER BY is an insertion sort. Timers have no deadlines: one that
-- runs may expire at any moment, so that Reset of a running timer changes nothing. Announcement
-- versions and the downloader's counts of failures are not bounded by their machine width, which
-- neither reaches; the downloader's cap on sizes is. A code of Errcode other than the constants is
-- `other_code`.
--
-- Not modelled: failures of the database engine itself; the decoding of requests and the streaming
-- of replies (internal/api), with the handlers of debug.go and state.go and the calls of the
-- connector in discord.go; the client (pkg/client) and the commands (cmd); the Discord and mock
-- providers; configuration; the file of the master key; the ticker of the downloader. The mutexes
-- themselves are not modelled: each section that holds one is a single step.
mod Prelude
pub mod Errcode
pub mod Store
pub mod Auth
pub mod Bus
pub mod Message
pub mod Account
pub mod Mentions
pub mod Aggregator
pub mod Connector
pub mod Api
pub mod Downloader
pub mod Secrets

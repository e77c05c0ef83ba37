-- ===== src/Lib.antt =====
-- Huddle: the state of a call in its API, and the rules about who may do what in it.
--
-- Huddle's API (apps/api) keeps a call's transient state in Redis, its lasting rows in a database,
-- and the call itself in LiveKit. Three parts of it decide who is in a call and who controls whose
-- screen:
--   * the waiting room and Direct Rejoin Grants: a guest knocks, the host admits or denies, and an
--     account that was admitted may come back without knocking while its LiveKit room lives;
--   * Remote Control: a Controller asks, the Sharer approves, a Control Agent redeems a one-time
--     code, and the session lives on renewals until somebody or the timer ends it;
--   * the audit rows of Remote Control.
-- Around the call stand the recordings and what ends things: a recording is started and stopped, its
-- indicator is shown to everyone in the room's metadata, it is delivered to the host's Google Drive
-- by a worker that holds leases, shared with those who consented, and its local copy is deleted in
-- time; the maintenance window shuts the rooms with a warning and cleans up after them; an account's
-- deletion takes everything of it away. Recordings read the consents in Redis and write the
-- metadata; both workers go over the same rows; maintenance and account deletion call the services
-- above.
-- Beside them stand two pure parts of the web client (apps/web): the layout of participants, and
-- the packets of Remote Control that cross between browsers and the Control Agent.
--
-- Which file models what:
--   Redis              apps/api/src/redis/fake-redis.ts, the API's stand-in for Redis, which gives
--                      the commands their meaning here (get, set, mget, getdel, sadd, srem,
--                      smembers, del, expire, with NX, XX and expiry)
--   Records            the JSON values and the keys of apps/api/src/rooms/rooms.state.ts and
--                      apps/api/src/rooms/remote-control.state.ts
--   RoomState, ShareConsents
--                      apps/api/src/rooms/rooms.state.ts, every method
--   ControlState       apps/api/src/rooms/remote-control.state.ts, every method
--   Fault, Service     apps/api/src/common/faults.ts with Nest's exceptions; async methods
--   ControlRepo        apps/api/src/rooms/remote-control.repo.ts
--   ControlWorld, ControlSteps, ControlRequests, ControlSessions, ControlReconcile
--                      apps/api/src/rooms/remote-control.service.ts: its data and world, its private
--                      methods, the requests, the sessions, and what ends them unasked
--   RoomsWorld, Admission, RoomsService
--                      apps/api/src/rooms/rooms.service.ts, with `create` of rooms.repo.ts
--   Layout             apps/web/src/components/call/participantLayout.ts
--   Packet             apps/web/src/lib/controlProtocol.ts: encoding and decoding packets
--   Prisma, Archive    apps/api/prisma/schema.prisma: Prisma's delegate for a table, with its laws, and
--                      the rows of recordings, deliveries, recipients and connections
--   Metadata           apps/api/src/rooms/livekit.service.ts: the room metadata
--   DeliveryWorld, Delivery, DeliveryCycle, DeliveryRequests
--                      apps/api/src/rooms/recording-delivery.service.ts, with `activeConnection` and
--                      `markActionRequired` of apps/api/src/rooms/storage-connections.service.ts
--   RecordingsWorld, RecordingRows, Recordings
--                      apps/api/src/rooms/recordings.service.ts and
--                      apps/api/src/rooms/recordings.repo.ts
--   DownloadToken      apps/api/src/rooms/download-token.service.ts and
--                      apps/api/src/rooms/download-token.guard.ts
--   Guards             apps/api/src/rooms/host.guard.ts, apps/api/src/rooms/participant.guard.ts
--   Maintenance        apps/api/src/maintenance: the service, its guard and the worker's sweep
--   AccountDeletion    apps/api/src/rooms/account-deletion.service.ts
--   Prelude, Dict, Act shared notation and lemmas, association lists, the actions on Redis
--   Tests              concrete runs
-- Proofs stand in the child modules of the part that they are about. A TypeScript method fooBar is
-- the function foo_bar.
--
-- How the code is represented. A method of a state class is a function of the time and the store. A
-- method of a service takes its world (time, Redis, rows, the calls made of LiveKit) and gives a
-- result or an exception with the world after it. The clock stands still during one method, but for
-- the upload of a recording, whose events say how long they took; a history of calls says how much
-- time passes between them. ISO texts are their instants in
-- milliseconds, JSON texts are values of a data type, and the templates of Redis keys are its
-- constructors, which are apart since room codes and LiveKit's SIDs have no colon. Each random
-- code, UUID and the SHA-256 of node:crypto is an argument. Prisma's tables are the records
-- `Sessions`, `Rooms` and `Delegate`, with laws for the first and the last. Of `Sessions`: `create` gives a row with the fields asked for,
-- and `updateMany` by an id rewrites the row with the id where its status fits and no other. Of
-- `Delegate`: rows have a unique key, `updateMany` rewrites the rows that its test meets, `findFirst`
-- gives one that is least in its order, `findMany` gives those that the test meets and all of them.
-- The rooms of LiveKit are the record `LivekitServer`, whose law is that an accepted write of the
-- metadata is read by the next reader. What maintenance and account deletion ask of the other
-- services is a record too.
-- LiveKit's answers are functions of the calls made of it so far, and any of them may be a
-- rejection, but for the reading of a room's metadata before it is written. Of JavaScript's JSON it is
-- assumed that a value is read back as it was written when its numbers are finite and not negative
-- zero and its fields have the names that packets use, each once. Texts are sequences of Unicode
-- characters, without lone surrogates. Of a number in a template it is assumed that `Number` reads it
-- back and that a whole one has no dot. Loops go down a list; no fuel is used.
--
-- Not modelled: messages of faults and log lines; a rejected Redis command, but for the second SET
-- of createPending; the queue `admissions` that runs the admissions of a room one after the other,
-- whose effect is taken; changes by other requests in the middle of a method, but for the time
-- while a token is minted and during an upload; a refusal by the database itself, as by the index that
-- lets a room have one active session in the audit rows; the limit of 60 seconds on
-- the transaction of a maintenance sweep, after which its lock is free while it still runs. Two requests about recordings do not run at the same
-- time. Controllers, DTOs, the webhook, chat files, the object storage, Google Drive's protocol, mails
-- and the user interface are outside this library, as are the Swift and Dart agents and the vendored
-- LiveKit SDK: most of it is input and output through libraries.
pub mod AccountDeletion
pub mod Act
pub mod Admission
pub mod Archive
pub mod ControlReconcile
pub mod ControlRepo
pub mod ControlRequests
pub mod ControlSessions
pub mod ControlState
pub mod ControlSteps
pub mod ControlWorld
pub mod Delivery
pub mod DeliveryCycle
pub mod DeliveryRequests
pub mod DeliveryWorld
pub mod Dict
pub mod DownloadToken
pub mod Fault
pub mod Guards
pub mod Layout
pub mod Maintenance
pub mod Metadata
pub mod Packet
pub mod Prelude
pub mod Prisma
pub mod RecordingRows
pub mod Recordings
pub mod RecordingsWorld
pub mod Records
pub mod Redis
pub mod RoomState
pub mod RoomsService
pub mod RoomsWorld
pub mod Service
pub mod ShareConsents
pub mod Tests

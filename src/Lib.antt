-- ===== src/Lib.antt =====
-- A model of the host and guest logic of the tapes monorepo: a desktop host keeps the recordings of
-- a band, and guests on the same network record, upload and play them.
--
-- Parts, and the files that model them:
--   * EventStore: apps/electron-client/src/eventStore.ts, the host's log of playback events: append,
--     the index of keys, replay, retention. EventStore/History runs all of these in any order, and
--     crashes too; EventStore/AtMostOnce and EventStore/Losses are about writes that are cut off.
--   * Aggregates: apps/electron-client/src/aggregates.ts, the play counts as folds over the log, and
--     the frozen baseline that takes in what retention deletes. Aggregates/Swept and Aggregates/Crash
--     are about the baseline file, where a write of it fails.
--   * Json, EventHttp, EventHttp/Limiter and EventHttp/Routes: apps/electron-client/src/eventHttp.ts,
--     from the validation of an event to the dispatch of a request.
--   * EventQueue: packages/core/app/eventQueue.ts, the guest's outbox; EventQueue/Delivery joins it to
--     the route: a batch leaves the queue, is judged, appended to the log and folded into the counts,
--     and the answer settles the queue.
--   * BlobStore: apps/electron-client/src/blobStore.ts, the content-addressed store; BlobStore/Owners
--     is the record of owners that BlobStore/Refinement shows it to keep. StatementUpload:
--     statementUpload.ts, the checks of an uploaded statement against the store. ClaimIngest:
--     claimIngest.ts, the claim that comes with an upload, and its receipt. BlobRoutes: blobHttp.ts
--     and channels/PutBlobChannel.ts, over these three.
--   * BlobClient: packages/core/app/blobClient.ts, how a guest looks for a blob among the hosts it
--     knows; BlobClient/Replicate: how it copies the statements of a recording to another host, which
--     BlobClient/Copied runs against the host's own route (BlobRoutes/Order, BlobRoutes/Stays).
--   * Encoding: packages/provenance/lib/encoding.ts, base64url. CanonicalJson:
--     packages/provenance/lib/canonicalJson.ts, what is signed.
--   * Statements: packages/provenance/lib, the signed statements and the check of each kind.
--     Provenance: packages/provenance/lib/recordingProvenance.ts, the verdict on a recording.
--   * Roster: apps/electron-client/src/personRoster.ts, pinHash.ts and revokedDeviceKeys.ts;
--     Vouching: apps/electron-client/src/hostVouching.ts, over the roster; Passkeys:
--     apps/electron-client/src/passkeyRecords.ts, over the roster and the challenges.
--   * Challenges: apps/electron-client/src/syncChallenges.ts. Connections:
--     apps/electron-client/src/syncConnections.ts. Sessions: apps/electron-client/src/
--     sessionRecorder.ts, which follows the list that the connections give it. HostSession:
--     apps/electron-client/src/hostSession.ts, what of it is published in the documents.
--   * Listings: apps/electron-client/src/sessionDelivery.ts and vouchRevocation.ts, and
--     packages/core/app/deviceRevocation.ts, which list a statement on recordings after their upload.
--   * Blobs: apps/electron-client/src/blobGc.ts. Ranges: parseRange of
--     apps/electron-client/src/blobHttp.ts. Cache: packages/core/app/blobCache.ts.
-- Base holds what these share, and Tests the runs on concrete inputs.
--
-- How the code corresponds. Objects with methods are records with functions by the methods' names,
-- in snake case, that return the changed record. Where a method can throw, an argument says whether
-- the write, or the request, succeeds, and the result says what is left. Where the code awaits
-- something slow and others can run meanwhile, the function is in two parts (the PIN checks of
-- Vouching, a flush of EventQueue, a start or a stop of HostSession), or has what was read before and
-- what is changed after as two arguments (store_record of Passkeys). What is drawn at random is an
-- argument. A `Map` is an association list and a `Set` a list; an object that is shared between two
-- maps is looked up anew. Times are milliseconds since the epoch as natural numbers, so `now - age`
-- is moved to the other side of a comparison. Fractions are a record of operations (Base/Floats), with
-- nothing assumed of rounding; the tokens of the limiter are counted in thousandths. A segment of
-- the log is named by the number of its day; a line of it is an event or does not parse, and the last
-- one may lack its newline, so that what is appended next joins it. JSON is a data type. The payload
-- of a statement is a constructor for its type and shape.
--
-- Parameters: Ed25519, SHA-256 and PBKDF2, the parsing and the canonical writing of statements
-- (CanonicalJson writes a value of the language, which the payloads here are not),
-- `Date.parse` and `toISOString`, label sanitizing, the check of a passkey write and of a backup file,
-- the order of texts, the sync library's documents, and what the blob store says of an object.
-- Nothing is assumed of any of them, but for the store's statements (BlobRoutes): canonical JSON is
-- read back as what was written, and the host's own key verifies the receipts that the host signs and
-- no receipt that names another key; where the store is compared with its record of owners, that a
-- hash has the form of one; and, where statements are copied, that JSON.parse finds the type of a
-- statement that the host's parser reads. The names of sessions (HostSession) are drawn new, and a
-- text has the code units of no other (CanonicalJson). Zero is finite, and so is the sum of a finite
-- number and one from 0 to 1 (Aggregates/Swept).
--
-- Bounds: the caps and times of the code are constants of the same names. Loops are structural
-- recursion, but for the eviction of challenges, whose fuel is the size of the store.
--
-- Not modelled: reads that fail, writes of the roster that fail, roster writes between the awaits of
-- confirm (Vouching), the user interface, the Electron shell, the blob store's files and locks,
-- key backups, certificates, the sync library and the network.
pub mod Base
pub mod EventStore
pub mod Aggregates
pub mod Json
pub mod EventHttp
pub mod EventQueue
pub mod Encoding
pub mod CanonicalJson
pub mod Statements
pub mod Roster
pub mod Vouching
pub mod Challenges
pub mod Connections
pub mod Passkeys
pub mod Sessions
pub mod BlobStore
pub mod StatementUpload
pub mod ClaimIngest
pub mod BlobRoutes
pub mod Blobs
pub mod Ranges
pub mod Cache
pub mod BlobClient
pub mod Listings
pub mod HostSession
pub mod Provenance
pub mod Tests

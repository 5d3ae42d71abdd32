-- ===== src/Lib.antt =====
-- ByteBucket, a self-hosted S3-compatible object store: the logic of its Go server.
--
-- The server keeps objects and their sidecars in the file system and answers on an S3 surface and
-- an admin surface. In front of both stand the request limits; the admin surface has a credential
-- check with a lockout and browser sessions.
--
-- Files and the code they model:
-- - Limiter: internal/auth/limiter.go, failureLimiter. `blocked`, `fail` and `reset` are its methods;
--   `run` is a history of wrong and right secrets.
-- - Session: internal/auth/session.go, sessionStore. `create`, `lookup` and `revoke` are its methods.
-- - IpBan: internal/middleware/ipban.go. Config and Address hold the settings and `bannableIP`; the
--   store's methods keep their names; the middleware is `arrive` and `finish`.
-- - Names: `ValidateBucketName` and `ValidateObjectKey` of internal/storage/names.go.
-- - Path: `SafeJoin` of internal/storage/names.go, with path/filepath on Unix.
-- - Multipart: internal/storage/multipart.go. The disk is the staging directories and the objects by
--   their paths; Assembly follows an upload from its creation to the object. An `Io` says which step of
--   the file system fails in a completion.
-- - Conditional: internal/handlers/conditional.go. A `Verdict` is the status that the caller emits. The
--   write that follows a precondition, which takes its lock only afterwards, is not part of the model.
-- - Range: `classifyRange` of internal/handlers/object.go, with strconv.ParseInt.
-- - Acl: internal/storage/acl.go, on the two sidecars that decide about one object.
-- - Listing: `ListObjectsHandler`, `bucketIsEmpty` and `parseMaxKeys` of internal/handlers/bucket.go, on
--   the keys that the walk over the bucket's directory meets.
-- - Auth: internal/auth/auth.go and internal/auth/presign.go. Request, Permission, Canonical, Signing,
--   Presigned and Access hold the functions of the same names; the two ways of signing share the steps
--   of `verify_signature`, and an early abort is a `refused` result. Escape is net/url's escaping.
-- - Admin: internal/auth/admin_session.go and `AdminAuthMiddleware` of internal/auth/auth.go, over the
--   stores of Limiter and Session. Handlers has one function for each handler, which returns the stores
--   and its answer; a `Check` is how `verifyAdmin` ends.
-- - ClientIp: internal/middleware/clientip.go, with `remoteAddrIP` and `splitTrim` of
--   internal/middleware/ratelimit.go.
-- - Cors: internal/storage/bucket_cors.go, with the sidecar of a bucket as an argument, and
--   internal/middleware/bucket_cors.go.
-- - BodyLimit: internal/middleware/body_limit.go, over the list of what a handler does with its response
--   and its body.
-- - RateLimit: internal/middleware/ratelimit.go. The store's methods keep their names; `run` is a history
--   of requests, sweeps of the janitor and new settings.
-- - Bytes: Go strings as lists of bytes, with what the program uses of package strings.
-- - Tagging: internal/storage/tagging.go, on the files by their paths; a `Write` says how the replacement
--   of a file ends.
-- - Table: the Go maps of these components with the scan for the oldest entry.
-- - Base64: what the program uses of encoding/base64.
-- - Prelude: shared notation and lemmas.
--
-- Object keys pass Names before they reach a handler, every path is built by Path.safe_join, and
-- Multipart and Acl resolve their files with it.
--
-- Times are natural numbers, nanoseconds since an epoch, and are arguments of the operations. The
-- iteration order of a map is left open. Digests, random identifiers, UTF-8 validity, the JSON encoding of
-- tags and the parsing of HTTP dates are parameters. Mutexes make each operation of a store atomic, so an interleaving is a
-- list of operations. The only fuel is that of the decimal digits in Bytes: a number `n` has at most
-- `n + 1` digits. Text is trimmed and lowered as ASCII.
--
-- Not modelled: failing reads and writes of staged files outside a completion and the lists of buckets and uploads; in Auth,
-- the overflow of durations, the rounding of `expires.Seconds()` and the base URL of a presigned URL
-- but its host; the event log, routing, metrics and start-up.
pub mod Acl
pub mod Admin
pub mod Auth
pub mod Base64
pub mod BodyLimit
pub mod Bytes
pub mod ClientIp
pub mod Conditional
pub mod Cors
pub mod IpBan
pub mod Limiter
pub mod Listing
pub mod Multipart
pub mod Names
pub mod Path
pub mod Prelude
pub mod Range
pub mod RateLimit
pub mod Session
pub mod Table
pub mod Tagging

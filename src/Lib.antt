-- ===== src/Lib.antt =====
-- pichost is an image host: an HTTP service (pichost-api) takes images and stores them in one or
-- two storage backends, and workers (pichost-worker) process them later, fed by a queue in Redis.
-- pichost-core has what both share: records, storage backends, the storage router.
--
-- The code awaits one call after the other on Redis, the database, a backend or a clock. Such a
-- function is here a program (Prog): a tree of the calls it makes and of what it does with each
-- answer. Running one against a service threads the service's state; `>>=` is the `?` of the
-- source.
--
--   - Common: names, tests, list lemmas and results that the other files share.
--   - Prog: programs, runs, and programs that run at the same time; Prog.Laws: a run against a service
--     that does what a specification says is a run of the specification; Prog.Costs: what a program
--     spends on every path.
--   - Redis: the commands that the queue sends and their documented effect. The server is a
--     parameter: it carries out a command, or answers with an error and may have carried it out.
--   - TaskQueue: pichost-worker/src/queue.rs. Children: Jobs (the abstract queue: the lists of tasks
--     that wait, are processed, are dead), Keys and Lists (lemmas), Runs and Refine (each operation on
--     the keys of Redis), Contract (the operations on Jobs), Recovery (stale tasks).
--     TaskQueue.RedisQueue is the `Queue` trait on top of them (errors as text, `nack` by id).
--   - Worker: pichost-worker/src/main.rs, one worker's loop. Rounds (what a round does to the queue and
--     the database), Retries (how often a task is tried).
--   - Worker.Pipeline: pichost-worker/src/pipeline.rs and pichost-worker/src/processor.rs, what is done
--     for one task (Variants: process_task; Steps, Results, Again, Redelivered,
--     Ready and Failures: what it leaves).
--   - SqliteQueue: pichost-core/src/state/sqlite_queue.rs, the queue of the lite mode, and the loop of
--     pichost-api/src/app.rs that works it off. Retries (one task's way through the table).
--   - Storage: the records and names of pichost-core/src/storage and models.rs; Storage.Router:
--     storage/router.rs, with its cache of Git backends and its lock.
--   - Crypto: pichost-core/src/crypto.rs, around the cipher.
--   - Auth: pichost-api/src/middleware/auth.rs and pichost-api/src/routes/auth.rs. Handlers (the
--     middleware, login, refresh, logout), Register (registration with an invite code; its rows are
--     those of pichost-core/src/state/sqlite_invite.rs), Revoked (the blacklist).
--   - RateLimit: pichost-api/src/middleware/rate_limit.rs over any limiter; SqliteLimiter and
--     RedisLimiter are the two that exist.
--   - Routes: handlers of pichost-api/src/routes. Categories (categories.rs; Depth: its two levels,
--     Cascade: removals, Tree: the tree that is shown), StorageConfigs (storage_configs.rs; Defaults,
--     and Limit with Owned and Added: how many there are), Images (images.rs, with the caches of
--     pichost-api/src/cache/mod.rs; Handlers, Serving, Removal; Removed and Deleted: what removals
--     leave, Cached, Coherent and Requests: the cache of details; Listing and
--     Pages: the list of images), Users (users.rs; Handlers, Account; Passwords, Statistics and
--     Updates: what requests leave).
--   - Upload: pichost-api/src/services/upload.rs. Calls (what an upload asks of the database, the
--     router, a backend, the queue, the clock, with the unique columns and, for PostgreSQL, the
--     widths of migrations/0002_create_images.sql), Checks (size, quota, duplicates, configurations),
--     Backends (one and two backends; Budget and Quota: the bytes that they add), Links (escaping),
--     Gallery (the list of a user's images and its SQL statements), Url (upload_url.rs, images that
--     are fetched from a URL; Blocks: private addresses).
--
-- UUIDs, times and sizes are natural numbers. Where the source computes in u32 or i64 and can leave
-- the range, the wrap-around is written out (offset_of, exceeds). Of the loops without a bound,
-- those of the workers are modelled as any number of rounds; generate_public_key, which draws until
-- a key is free, has fuel, `rounds` of the upload's context, and runs that draw a free key within
-- it are those of the source. The recursion of validate_depth along the parents of a category has
-- as much fuel as there are levels, and the cascade of a removal has more than there are rows.
--
-- Parameters, because they are libraries or services: the text forms of UUIDs, times and payloads
-- (Codec), decryption and JSON of a configuration (Vault), the cipher and Base64 (Ciphers), JSON
-- web tokens and password hashes (Auth.Libraries), chrono's texts of times (`stamp`), URLs
-- (Upload.Url.Libraries), detection and hashing of images (Media), the database and the other services (Services, Listings), the Redis
-- server (Server). The specification of a service says what a statement or a command does when it
-- does not fail; theorems that assume a service that is up (IsUp, AreUp) say so. In Auth and Routes
-- a parameter says which calls fail (`down`), for all choices of it where a theorem does not say
-- otherwise.
--
-- Not modelled: OAuth and administration, the handlers of uploads around services/upload.rs, the
-- Redis store of invite codes, image decoding and the geometry of watermarks, reading and writing
-- objects in a backend, configuration, the set-up wizard, translations of messages, log lines.
pub mod Common
pub mod Prog
pub mod Auth
pub mod Crypto
pub mod RateLimit
pub mod Redis
pub mod Routes
pub mod TaskQueue
pub mod SqliteQueue
pub mod Storage
pub mod Upload
pub mod Worker

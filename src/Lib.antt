-- ===== src/Lib.antt =====
-- mKestrel, a browser for SFTP, NFS and SMB servers: the parts that decide what is stored, which
-- connections and keys are used, what is transferred when, and which bytes are streamed.
--
-- Prelude: Boolean tests and lists over the native numbers, Rust's `str` as a list of code points
-- with the methods that the program calls, decimal numbers, `Result`, and `==` as an interface.
--
-- Core (crates/mk-core/src):
--   Host, Settings, Job, Credentials   the data model: host.rs, settings.rs, job.rs, credentials.rs
--   Recent        recent.rs: `normalize_path`, `folder_name`, `touch`
--   Bookmark      bookmark.rs: `add`, `contains`, `remove`
--   Persistence   persistence.rs: `load`, `save`, `quarantine`, `strip_fixtures`, `sanitize_jobs`. The
--                 file system is the content of each path; a write may fail with anything in its file.
--   Config        config.rs: `from_parts`, `from_json`, `merge_import`
-- Transfer.Scheduler (crates/mk-transfer/src/scheduler.rs): `plan_tick` and `backoff`.
-- Vfs (crates/mk-vfs/src):
--   Pool          pool.rs: `ConnectionPool`; the map of sessions is a list in its iteration order, and
--                 the calls are sequential because a mutex is held through each
--   Error         error.rs
--   HostPatterns, KnownHosts   known_hosts.rs: host patterns; the store (KnownHosts), the decision on
--                 a key (Check), the changes (Changes), the import (Openssh)
-- Media (crates/mk-media/src/lib.rs): `parse_range` (Range), `reader_stream` (Stream), `stream_file` and
-- `stream_response` (Server), `percent_encode`, `stream_url` and `content_type` (Url). The server takes
-- its backends from the pool of Vfs.Pool and reads them by the operations of `VfsBackend` and
-- `ReadStream` that it calls. A configuration bundle adds its bookmarks by `add` of Core.Bookmark, and
-- the store of Core.Persistence holds the hosts, jobs, recents and bookmarks of the other modules.
-- Secrets (crates/mk-secrets/src/lib.rs): `MemoryStore`, `FileStore` and `CachedVault`; the methods for the
-- three kinds of secrets are one, with the kind as an argument.
-- Ui (crates/mk-ui/src/store.rs): the queue of jobs and its operations (Queue, Enqueue), and the user's
-- operations as a step relation (Steps); the round of `start_transfer_engine` in three parts, promotion,
-- retry and workers (Engine), progress and the ends of jobs (Progress), the whole (Tick). Tick.Session
-- puts the user, the rounds and the workers together. The engine takes the planner of Transfer as its
-- specification.
-- Listing has the order, the filter and the sums of the table, Browser the navigation, where each backend
-- call that is in flight is a task and its answer an operation. Browser.Places
-- has the choice of a host, a recent folder or a bookmark, Browser.Reach all of it as a step relation. Hosts has the form of a host, the
-- enum of dialogs and `save_host_draft`.
-- App (app/src/transfer.rs): the local disk (Disk), local paths (Paths), the partial and the copy loop of
-- `download` (Transfer), the check of hashes (Verify), and `download` as a whole (Download). It reads by
-- the `ReadStream` of Media.Stream.
-- Samples: concrete values, and the theorems applied to them.
--
-- An operation that changes an object returns the object after the change. The clock, whether a
-- write to disk succeeds, and the functions of other crates (serde_json, Base64, HMAC-SHA1, SHA-256,
-- floats) are arguments; a theorem that relies on one of them says so in a hypothesis. u64 arithmetic
-- is written with its wrap-around or saturation (release builds). The loops on fuel: `emit`, which
-- prints decimals and needs no more rounds than the number has as its value; `reader_stream`, `copy` and
-- `read_back`, whose rounds each take a byte or end, so that one round more than there are bytes is enough;
-- `find_free`, for which one round more than there are files is enough; `trim_text`, whose rounds each drop
-- a character. All other recursion is on lists. Percent-encoding takes the bytes of the path. A seek of a
-- remote reader that fails is taken to leave the reader where it was.
--
-- Not modelled: the keyring and the search for key files of crates/mk-secrets; of crates/mk-ui the views
-- and, of its store, the submit of the other dialogs and the settings; of app the upload, the rate limiter, progress
-- messages, tree copies and start-up; crates/mk-core/src/fmt.rs; the backends (sftp.rs, nfs.rs, local.rs,
-- mock.rs), which are input and output through other crates; the demo seeds (fixtures.rs); the civil date
-- of `today_label`, whose text is an argument; the routing of the media server and its random token.
pub mod Prelude
pub mod Core
pub mod Transfer
pub mod Vfs
pub mod Media
pub mod Secrets
pub mod Ui
pub mod App
pub mod Samples

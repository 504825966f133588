-- ===== src/Lib.antt =====
-- The registry of curated skills (src/csk_registry): an append-only, hash-chained log of audit
-- records in SQLite, with a Merkle tree over its entries, memoized snapshot boundaries, idempotent
-- submissions, imports from upstream registries, and a cached integrity verdict.
--
-- The parts and their files:
--   Base        names and lemmas that the models share: lists, texts, hexadecimal, errors
--   Json        JSON values as Python objects, and the canonical form of signing.py
--   Merkle      the Merkle tree of store.py: `_merkle_root`, `_frontier_append`, `_frontier_root`
--   Signing     the canonical bytes and public keys of signing.py, and the parameters `Env`; signing
--               and verifying records over an abstract Ed25519 (Signing/Key)
--   Protocol    protocol.py: `validate_hash_version`, names, paths and source identities
--               (Protocol/Patterns), records, snapshots and signatures (Protocol/Records)
--   Keys        keys.py: the keyring file, the file provider (Keys/Provider), and the operations of a
--               key rotation on the files of the data home (Keys/Rotation, Keys/Retire)
--   Countersign  `_countersign` of app.py and `_countersign_imports` of bundle.py
--   Bundle      bundle.py and snapshot.py: the checks of a bundle, the import (Bundle/Import)
--   Store       store.py: the tables as lists of rows, in Store itself; the frontier table
--               (Store/Frontier), the boundaries (Store/Boundary), the verdict and the latch
--               (Store/Health), `_append_locked` (Store/Append), the transactions `append` and
--               `append_idempotent` (Store/Transaction), the import batches (Store/Imports), the
--               pages of the log (Store/Pages); the verification (Store/Verify): `_recompute_prefix`,
--               the walk over the log (Walk), the other tables (Ledgers), the boundary cache (Cache),
--               all of `_integrity_errors_on` and `refresh_health_verdict` (Refresh)
--   Store/Invariant  what consistent tables are, and what an append and a boundary make of them
--   Store/History    calls in the order in which the lock of the store runs them
--   Checkpoint  checkpoint.py and `apply_startup_checkpoint` of store.py
--   Limits      the rate limiter of limits.py
--   Auth        the auditors and their tokens of auth.py
--   Tests       runs on concrete inputs, and each theorem at one of them
--
-- How they interact: a write takes the lock, is refused by the write guard of the health fields, or
-- runs its body on the tables; the body reads the frontier table, checks it against the log and the
-- boundary of the head, and inserts the log row, the grown frontier and the new boundary. A
-- transaction is the database that its body computes, committed, or the one before it, rolled back
-- (BEGIN, COMMIT and ROLLBACK are taken to succeed, so a COMMIT that raises is not modelled);
-- a failure that the append latched stays in the health fields. Readers use the boundaries only.
--
-- Conventions. `hashlib.sha256` is a parameter with 32-byte digests, and the texts that json writes
-- are a parameter type `Doc` that reads back what was written; a dict is a list of fields sorted by
-- key. A float keeps only its text, since the code refuses every one. Integer columns, instants and
-- clock ticks are natural numbers. Messages of errors are reduced to constructors; a
-- `StoreIntegrityError` that the append has latched is the constructor `latched`. The lock makes
-- calls sequential; `export_bundle` takes it twice and so reads two databases. The limiter counts its
-- instants in nanoseconds, exactly. A file write of a key rotation is done, refused, or done and
-- followed by an exception; the deadline of a SQLite operation is not modelled.
--
-- Bounds and fuel. The loop of `_merkle_root` runs on fuel, for which the number of leaves is
-- enough: each round halves the level. The loop of `_bound_entries` runs on fuel, for which the
-- number of entries is enough: each round drops one. The depth limit of the frontier is 64 levels,
-- which is reached beyond 2^64 leaves, so statements on appends bound the log by that.
--
-- What the verification takes from outside is a parameter: the rows of the PRAGMAs, the parsing of
-- a time, and Python's comparison of a float with a number; so are Ed25519, base64 and what
-- unicodedata says of characters, and the PEM codec of keys. Their laws are hypotheses of the
-- theorems that use them.
--
-- Not modelled: `_ensure_boundaries`, the queries for records, schema migrations, how a key file is
-- written and protected, the depth scan and the parsing of raw JSON, the file of auditors, the HTTP
-- application but for `_countersign`, the command line, and file permissions.
pub mod Base
pub mod Merkle
pub mod Json
pub mod Keys
pub mod Signing
pub mod Protocol
pub mod Countersign
pub mod Store
pub mod Bundle
pub mod Checkpoint
pub mod Limits
pub mod Auth
pub mod Tests

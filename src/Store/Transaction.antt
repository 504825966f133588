-- ===== src/Store/Transaction.antt =====
-- The write transactions of the store: `_write_transaction`, `append` and `append_idempotent`.
--
-- A transaction computes the database that COMMIT makes durable. When its body raises, ROLLBACK
-- leaves the tables as they were; a failure that `_fail_append_locked` latched stays in the health
-- fields, which no rollback touches. BEGIN, COMMIT and ROLLBACK themselves are taken to succeed:
-- the states behind a COMMIT that raises are not modelled. `now` is the monotonic clock, `unix_now`
-- the wall clock.
pub mod Outcomes
pub mod Retry
use curator_skill_registry.Base.{
  ℕ, ◌+◌, ◌*◌, Bool, true, false, List, [], ◌∷◌, ◌++◌, Option, none, some, Text, codes, text_eq,
  hex256, ltb, leb, ◌==◌, ◌&&◌, ◌||◌, not, if◌then◌else◌, Outcome, ok, err, ◌>>=◌, ◌>>◌, ensure,
  length, all,
}
use curator_skill_registry.Json.{ℤ, pos, Value, Fields, int, str, obj, end, put}
use curator_skill_registry.Signing.{Env}
use curator_skill_registry.Store.{
  LogEntry, IdempotencyRow, Database, StoreError, value_error, integrity, latched,
  idempotency_conflict, stored_response,
}
use curator_skill_registry.Store.Append.{append_locked}
use curator_skill_registry.Store.Health.{Health, require_writes_allowed, latch, publish}

pub record Store (Doc : Type 0) : Type 0 where
  pub db : Database Doc
  pub health : Health

module _ {Doc A : Type 0} where
  -- COMMIT, or ROLLBACK with what was latched on the way
  unfoldable pub finish :
      Store Doc → ℕ → Outcome StoreError (A × Database Doc) → Outcome StoreError A × Store Doc
  finish s now (ok (a, db)) = (ok a, record s { db = db })
  finish s now (err (latched f)) = (err (latched f), record s { health = latch s.health now f })
  finish s now (err e) = (err e, s)

  -- `with self._write_transaction(): self._require_writes_allowed(); ...`
  unfoldable pub write_transaction :
      Store Doc
      → ℕ
      → (Database Doc → Outcome StoreError (A × Database Doc))
      → Outcome StoreError A × Store Doc
  write_transaction s now body = finish s now (require_writes_allowed s.health now >> body s.db)

  -- the publication after COMMIT, of the entry that a result tells of
  unfoldable pub published :
      (A → Option LogEntry) → Outcome StoreError A × Store Doc → Outcome StoreError A × Store Doc
  published entry (ok a, s) = (ok a, record s { health = publish s.health (entry a) })
  published entry (err e, s) = (err e, s)

-- `{"seq": entry.seq, "entry_hash": entry.entry_hash}`
unfoldable pub response_of : LogEntry → Fields
response_of entry =
    put (codes "seq") (int (pos entry.seq)) (put (codes "entry_hash") (str entry.entry_hash) end)

-- The response, and the entry if it was appended now: `none` means a replay.
pub record Submission : Type 0 where
  pub response : Fields
  pub entry : Option LogEntry

module _ {Doc : Type 0} where
  -- DELETE FROM idempotency WHERE expires_at <= now
  unfoldable pub purge : ℕ → List (IdempotencyRow Doc) → List (IdempotencyRow Doc)
  purge now [] = []
  purge now (r ∷ rs) = let rest = purge now rs in if leb r.expires_at now then rest else r ∷ rest

  -- SELECT ... FROM idempotency WHERE auditor_id = ? AND key = ?
  unfoldable pub find_key : Text → Text → List (IdempotencyRow Doc) → Option (IdempotencyRow Doc)
  find_key auditor key [] = none
  find_key auditor key (r ∷ rs) =
      if text_eq r.auditor_id auditor && text_eq r.key key then some r else find_key auditor key rs

-- What a client sends with an idempotency key.
pub record KeyedRequest : Type 0 where
  pub auditor_id : Text
  pub key : Text
  pub body_sha256 : Text
  pub created_at : Text
  pub unix_now : ℕ
  pub ttl_seconds : ℕ

-- 1 to 256 printable ASCII characters
unfoldable pub valid_key : Text → Bool
valid_key key =
    leb 1 (length key) && leb (length key) 256 && all (λ c. leb 0x21 c && leb c 0x7e) key

-- the checks of `append_idempotent` before it takes the lock
unfoldable pub valid_request : KeyedRequest → Bool
valid_request r =
    not (length r.auditor_id == 0)
    && valid_key r.key
    && hex256 r.body_sha256
    && not (ltb r.ttl_seconds (24 * 3600))

module _ {Doc : Type 0} (env : Env Doc) where
  -- `append(record, created_at=...)`
  unfoldable pub append : Store Doc → ℕ → Fields → Text → Outcome StoreError LogEntry × Store Doc
  append s now body created_at =
      published some (write_transaction s now (λ db. append_locked env db body created_at))

  -- the answer from a stored row
  unfoldable pub replay :
      KeyedRequest
      → IdempotencyRow Doc
      → Database Doc
      → Outcome StoreError (Submission × Database Doc)
  replay request row db =
      if not (text_eq row.body_sha256 request.body_sha256)
      then err idempotency_conflict
      else elim (env.loads row.response_json) [
        | some (obj response) ↦ ok (record { response = response; entry = none }, db)
        | some _ ↦ err (integrity stored_response)
        | none ↦ err value_error
      ]

  -- the append under a new key
  unfoldable pub append_keyed :
      Database Doc → Fields → KeyedRequest → Outcome StoreError (Submission × Database Doc)
  append_keyed db body request = do
    (entry, grown) ← append_locked env db body request.created_at
    let row : IdempotencyRow Doc = record {
      auditor_id = request.auditor_id;
      key = request.key;
      body_sha256 = request.body_sha256;
      response_json = env.dumps (obj (response_of entry));
      seq = entry.seq;
      expires_at = request.unix_now + request.ttl_seconds;
    }
    ok (
      record { response = response_of entry; entry = some entry },
      record grown { idempotency = grown.idempotency ++ row ∷ [] },
    )

  -- the body of the transaction of `append_idempotent`
  unfoldable pub idempotent_body :
      Fields → KeyedRequest → Database Doc → Outcome StoreError (Submission × Database Doc)
  idempotent_body body request db =
      let live = purge request.unix_now db.idempotency in
      let purged : Database Doc = record db { idempotency = live } in
      elim (find_key request.auditor_id request.key live) [
        | some row ↦ replay request row purged
        | none ↦ append_keyed purged body request
      ]

  -- `append_idempotent(...)`; the second part of Python's result is `entry` being none
  unfoldable pub append_idempotent :
      Store Doc → ℕ → Fields → KeyedRequest → Outcome StoreError Submission × Store Doc
  append_idempotent s now body request =
      if not (valid_request request)
      then (err value_error, s)
      else published (λ r. r.entry) (write_transaction s now (idempotent_body body request))

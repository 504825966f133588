-- ===== src/Store.antt =====
-- The store of src/csk_registry/store.py: the tables of its database, and what it may raise.
--
-- A table is the list of its rows; `log` is in the order of its primary key, the row id. Integer
-- columns hold natural numbers, as all that the code writes are. A column of JSON text is a `Doc`.
pub mod Frontier
pub mod Boundary
pub mod Health
pub mod Append
pub mod Invariant
pub mod Transaction
pub mod Imports
pub mod History
pub mod Pages
pub mod Verify
use curator_skill_registry.Base.{
  ℕ, Bool, true, false, List, [], ◌∷◌, Option, none, some, Text, codes, text_eq, ◌==◌, ◌&&◌, zero,
  suc, if◌then◌else◌, Outcome, ok, err,
}
use curator_skill_registry.Json.{Fields}

-- The closed refusal diagnostics of an upstream import.
pub data Diagnostic : Type 0 where
  import_upstream_rollback import_upstream_inconsistent : Diagnostic

pub record LogRow (Doc : Type 0) : Type 0 where
  pub seq : ℕ
  pub entry_hash : Text
  pub prev_hash : Text
  pub name : Text
  pub source_identity : Text
  pub commit_hash : Text
  pub content_sha256 : Text
  pub status : Text
  pub record_json : Doc
  pub created_at : Text

pub record BoundaryRow : Type 0 where
  pub log_size : ℕ
  pub head : Text
  pub merkle_root : Text
  pub created_at : Text

pub record FrontierRow (Doc : Type 0) : Type 0 where
  pub level : ℕ
  pub len : ℕ
  pub tail : Doc

pub record IdempotencyRow (Doc : Type 0) : Type 0 where
  pub auditor_id : Text
  pub key : Text
  pub body_sha256 : Text
  pub response_json : Doc
  pub seq : ℕ
  pub expires_at : ℕ

pub record ImportRow : Type 0 where
  pub fingerprint : Text
  pub imported_at : Text
  -- `none` is NULL, which only a migrated row can hold
  pub seq : Option ℕ

-- `UpstreamHighWater`, also a row of the table `upstream_high_water`
pub record UpstreamHighWater : Type 0 where
  pub key_id : Text
  pub version : ℕ
  pub log_size : ℕ
  pub head : Text
  pub merkle_root : Text
  pub updated_at : Text

pub record Database (Doc : Type 0) : Type 0 where
  pub log : List (LogRow Doc)
  -- the largest row id that AUTOINCREMENT has handed out
  pub log_sequence : ℕ
  -- the value of the metadata row 'created_at'
  pub created_at : Option Text
  pub boundaries : List BoundaryRow
  pub merkle_frontier : List (FrontierRow Doc)
  pub idempotency : List (IdempotencyRow Doc)
  pub imported_records : List ImportRow
  pub upstream_high_water : List UpstreamHighWater

pub record LogEntry : Type 0 where
  pub seq : ℕ
  pub entry_hash : Text
  pub prev_hash : Text
  pub record_fields : Fields

pub record SnapshotBoundary : Type 0 where
  pub version : ℕ
  pub log_size : ℕ
  pub head : Text
  pub merkle_root : Text
  pub created_at : Text

-- The messages of `StoreIntegrityError`.
pub data Failure : Type 0 where
  levels_not_contiguous frontier_encoding frontier_length : Failure
  frontier_not_head boundary_missing head_mismatch frontier_disagrees not_contiguous : Failure
  frontier_tail_incomplete frontier_inconsistent frontier_depth cache_inconsistent : Failure
  creation_metadata cache_missing verification_failed verification_stale : Failure
  stored_response stored_record checkpoint_refused : Failure
  -- the findings of `_integrity_errors_on` and `_boundary_cache_errors`
  database_check foreign_key schema_metadata log_gap record_json wrong_prev_hash : Failure
  wrong_entry_hash wrong_time idempotency_row import_unnumbered import_orphan : Failure
  import_inconsistent high_water_row boundary_invalid boundary_uncommitted : Failure
  boundary_disagrees refresh_raised boundary_unavailable log_changed : Failure
  wrong_column : Text → Failure

-- What the operations raise. `latched` is a `StoreIntegrityError` that `_fail_append_locked`
-- raises once it has latched the failure; a `ProtocolError` is a `ValueError`.
pub data StoreError : Type 0 where
  value_error index_error idempotency_conflict boundary_mismatch : StoreError
  integrity : Failure → StoreError
  latched : Failure → StoreError
  high_water_conflict : Diagnostic → UpstreamHighWater → UpstreamHighWater → StoreError

-- "0" * 64
abbrev pub genesis : Text
genesis = codes "0000000000000000000000000000000000000000000000000000000000000000"

module _ {Doc : Type 0} where
  -- SELECT ... FROM log ORDER BY seq DESC LIMIT 1
  unfoldable pub head_row : List (LogRow Doc) → Option (LogRow Doc)
  head_row [] = none
  head_row (r ∷ []) = some r
  head_row (r ∷ s ∷ rs) = head_row (s ∷ rs)

  -- SELECT ... FROM log WHERE seq = ?
  unfoldable pub row_at : ℕ → List (LogRow Doc) → Option (LogRow Doc)
  row_at n [] = none
  row_at n (r ∷ rs) = if r.seq == n then some r else row_at n rs

-- SELECT ... FROM boundaries WHERE log_size = ?
unfoldable pub boundary_at : ℕ → List BoundaryRow → Option BoundaryRow
boundary_at n [] = none
boundary_at n (b ∷ bs) = if b.log_size == n then some b else boundary_at n bs

-- The tables of a new database file: the creation time is the only row that the model keeps.
unfoldable pub fresh_database : {Doc : Type 0} → Text → Database Doc
fresh_database created_at = record {
  log = [];
  log_sequence = 0;
  created_at = some created_at;
  boundaries = [];
  merkle_frontier = [];
  idempotency = [];
  imported_records = [];
  upstream_high_water = [];
}

-- ===== src/Store/Verify/Refresh.antt =====
-- `_integrity_errors_on` as a whole, and `refresh_health_verdict`, the background pass that runs it
-- on a snapshot of the tables and publishes a verdict.
pub mod Verdict
use curator_skill_registry.Base.{
  ℕ, Bool, true, false, List, [], ◌∷◌, ◌++◌, Option, none, some, Text, codes, text_eq,
  if◌then◌else◌, Outcome, ok, err, ◌>>=◌, map,
}
use curator_skill_registry.Signing.{Env}
use curator_skill_registry.Store.{
  LogRow, Database, SnapshotBoundary, Failure, StoreError, genesis, database_check, foreign_key,
  schema_metadata, creation_metadata, refresh_raised, boundary_unavailable,
}
use curator_skill_registry.Store.Boundary.{snapshot_boundary}
use curator_skill_registry.Store.Health.{Health, HealthVerdict, not_ready}
use curator_skill_registry.Store.Transaction.{Store}
use curator_skill_registry.Store.Verify.Walk.{report, timestamp, walk_log}
use curator_skill_registry.Store.Verify.Ledgers.{idempotency_errors, import_errors, mark_errors}
use curator_skill_registry.Store.Verify.Cache.{verify_boundary_cache}

-- What SQLite reports about the file, and the metadata row of the schema version.
pub record Checks : Type 0 where
  -- the rows of PRAGMA integrity_check
  pub integrity_check : List Text
  -- the rows of PRAGMA foreign_key_check, printed
  pub foreign_keys : List Text
  pub schema_version : Option Text

-- `database_integrity != ["ok"]`, with one finding for each message
unfoldable pub check_errors : List Text → List Failure
check_errors (message ∷ []) = report (text_eq message (codes "ok")) database_check
check_errors messages = map (λ m. database_check) messages

-- the two metadata rows
unfoldable pub created_holds : (Text → Option Text) → Option Text → Bool
created_holds reformat none = false
created_holds reformat (some value) = timestamp reformat value

unfoldable pub schema_holds : Option Text → Bool
schema_holds none = false
schema_holds (some version) = text_eq version (codes "4")

-- the leaves that the walk passes on
unfoldable pub walked_leaves : {Doc : Type 0} → List (LogRow Doc) → List (Text × Text)
walked_leaves log = map (λ r. (r.entry_hash, r.created_at)) log

module _ {Doc : Type 0} (env : Env Doc) (reformat : Text → Option Text)
    (float_eq : Text → ℕ → Bool) where
  -- `_integrity_errors_on(conn)`, on one snapshot of the tables
  unfoldable pub integrity_errors : Checks → Database Doc → Outcome StoreError (List Failure)
  integrity_errors checks db = do
    walked ← walk_log env reformat genesis 1 db.log
    ok (
        check_errors checks.integrity_check
        ++ (map (λ row. foreign_key) checks.foreign_keys
            ++ (report (created_holds reformat db.created_at) creation_metadata
                ++ (report (schema_holds checks.schema_version) schema_metadata
                    ++ (walked
                        ++ (idempotency_errors env float_eq db.log db.log db.idempotency
                            ++ (import_errors env db.log db.imported_records
                                ++ mark_errors reformat db.upstream_high_water)))))))

  -- the walk of `refresh_health_verdict`: the boundary cache is compared when nothing else is wrong
  unfoldable pub verification : Checks → Database Doc → Outcome StoreError (List Failure)
  verification checks db = do
    errors ← integrity_errors checks db
    elim errors [ [] ↦ verify_boundary_cache env db (walked_leaves db.log) | e ∷ es ↦ ok (e ∷ es) ]

-- what the walk found, where any exception is a finding
unfoldable pub found : Outcome StoreError (List Failure) → List Failure
found (ok errors) = errors
found (err e) = refresh_raised ∷ []

-- the verdict from the fields of a store that is not ready
unfoldable pub refused_verdict : Health → HealthVerdict
refused_verdict h = record {
  ready = false;
  verified_head = h.verified_head;
  verified_log_size = h.verified_log_size;
  verified_at = h.verified_at;
  error = h.error;
  code = h.code;
}

-- `errors or boundary is None`: the failure is latched
unfoldable pub fail_refresh : Health → ℕ → List Failure → Health
fail_refresh h now errors = record h {
  integrity_failed = true;
  ready = false;
  error = some errors;
  last_refresh = now;
}

-- the verified head moves to the live one
unfoldable pub pass_refresh : Health → ℕ → Text → SnapshotBoundary → Health
pass_refresh h now utc_now boundary = record h {
  ready = true;
  verified_head = boundary.head;
  verified_log_size = boundary.log_size;
  verified_at = utc_now;
  error = none;
  last_refresh = now;
}

unfoldable pub ready_verdict : SnapshotBoundary → Text → HealthVerdict
ready_verdict boundary utc_now = record {
  ready = true;
  verified_head = boundary.head;
  verified_log_size = boundary.log_size;
  verified_at = utc_now;
  error = none;
  code = not_ready;
}

-- `errors`, then the live boundary, which may be unavailable
unfoldable pub outcome_of :
    List Failure → Outcome StoreError SnapshotBoundary → Outcome (List Failure) SnapshotBoundary
outcome_of (f ∷ fs) boundary = err (f ∷ fs)
outcome_of [] (err e) = err (boundary_unavailable ∷ [])
outcome_of [] (ok boundary) = ok boundary

module _ {Doc : Type 0} where
  -- the publication, under the lock, of what a walk over an earlier snapshot found
  unfoldable pub publish_refresh :
      Store Doc → ℕ → Text → Outcome StoreError (List Failure) → HealthVerdict × Store Doc
  publish_refresh s now utc_now walk =
      if s.health.integrity_failed
      then (refused_verdict s.health, s)
      else elim (outcome_of (found walk) (snapshot_boundary s.db none)) [
        | err errors ↦
            let failed = fail_refresh s.health now errors in
            (refused_verdict failed, record s { health = failed })
        | ok boundary ↦ (
          ready_verdict boundary utc_now,
          record s { health = pass_refresh s.health now utc_now boundary },
        )
      ]

module _ {Doc : Type 0} (env : Env Doc) (reformat : Text → Option Text)
    (float_eq : Text → ℕ → Bool) where
  -- `refresh_health_verdict()`, when no other call runs between its two locked parts
  unfoldable pub refresh_health_verdict : Checks → Store Doc → ℕ → Text → HealthVerdict × Store Doc
  refresh_health_verdict checks s now utc_now =
      if s.health.integrity_failed
      then (refused_verdict s.health, s)
      else publish_refresh s now utc_now (verification env reformat float_eq checks s.db)

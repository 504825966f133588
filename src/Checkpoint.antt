-- ===== src/Checkpoint.antt =====
-- src/csk_registry/checkpoint.py, and `apply_startup_checkpoint` of src/csk_registry/store.py: the
-- comparison of a restored store with a snapshot that was published earlier.
pub mod Comparison
use curator_skill_registry.Base.{
  ℕ, Bool, true, false, Option, none, some, Text, text_eq, ltb, ◌==◌, ◌&&◌, ◌||◌, if◌then◌else◌,
  Outcome, ok, err, ◌>>=◌,
}
use curator_skill_registry.Json.{Value, Fields, get, as_str, as_nat}
use curator_skill_registry.Store.{
  SnapshotBoundary, Database, StoreError, Failure, checkpoint_refused,
}
use curator_skill_registry.Store.Boundary.{snapshot_boundary}
use curator_skill_registry.Store.Health.{
  HealthCode, restore_below_checkpoint, restore_inconsistent_with_checkpoint,
  refuse_startup_checkpoint,
}
use curator_skill_registry.Store.Transaction.{Store}

-- `CheckpointView`; the version and the size of a snapshot that passed `validate_snapshot`
pub record CheckpointView : Type 0 where
  pub version : ℕ
  pub log_size : ℕ
  pub head : Text
  pub merkle_root : Text
  pub created_at : Text

-- the boundary at the checkpoint's size reproduces its head and root
unfoldable pub reproduces : CheckpointView → Option SnapshotBoundary → Bool
reproduces checkpoint none = false
reproduces checkpoint (some prefix) =
    text_eq prefix.head checkpoint.head && text_eq prefix.merkle_root checkpoint.merkle_root

-- `compare_checkpoint(live, checkpoint, prefix)`
unfoldable pub compare_checkpoint :
    SnapshotBoundary → CheckpointView → Option SnapshotBoundary → Option HealthCode
compare_checkpoint live checkpoint prefix =
    if ltb live.version checkpoint.version || ltb live.log_size checkpoint.log_size
    then some restore_below_checkpoint
    else if live.version == checkpoint.version
    then (if text_eq live.head checkpoint.head
          && text_eq live.merkle_root checkpoint.merkle_root
          && live.log_size == checkpoint.log_size
        then none
        else some restore_inconsistent_with_checkpoint)
    else (if reproduces checkpoint prefix then none else some restore_inconsistent_with_checkpoint)

-- what `except (ValueError, StoreIntegrityError)` makes of a boundary that cannot be read
unfoldable pub or_none : Outcome StoreError SnapshotBoundary → Option SnapshotBoundary
or_none (ok b) = some b
or_none (err e) = none

module _ {Doc : Type 0} where
  -- the prefix is read only above the checkpoint's version
  unfoldable pub checkpoint_prefix :
      Database Doc → SnapshotBoundary → CheckpointView → Option SnapshotBoundary
  checkpoint_prefix db live checkpoint =
      if ltb checkpoint.version live.version
      then or_none (snapshot_boundary db (some checkpoint.log_size))
      else none

  unfoldable pub settle_checkpoint : Store Doc → ℕ → Option HealthCode → Store Doc
  settle_checkpoint s now none = s
  settle_checkpoint s now (some diagnostic) = record s {
    health = refuse_startup_checkpoint s.health now diagnostic checkpoint_refused;
  }

  -- what the comparison makes of the live boundary, or of the error of reading it
  unfoldable pub apply_at :
      Store Doc
      → ℕ
      → CheckpointView
      → Outcome StoreError SnapshotBoundary
      → Outcome StoreError (Option HealthCode) × Store Doc
  apply_at s now checkpoint (err e) = (err e, s)
  apply_at s now checkpoint (ok live) =
      let diagnostic =
        compare_checkpoint live checkpoint (checkpoint_prefix s.db live checkpoint) in
      (ok diagnostic, settle_checkpoint s now diagnostic)

  -- `apply_startup_checkpoint(checkpoint)`
  unfoldable pub apply_startup_checkpoint :
      Store Doc → ℕ → CheckpointView → Outcome StoreError (Option HealthCode) × Store Doc
  apply_startup_checkpoint s now checkpoint =
      apply_at s now checkpoint (snapshot_boundary s.db none)

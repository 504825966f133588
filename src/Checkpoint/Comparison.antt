-- ===== src/Checkpoint/Comparison.antt =====
-- Which stores a checkpoint lets serve.
use curator_skill_registry.Base.{
  ℕ, ◌≡◌, ◌^◌, ◌≤◌, ◌<◌, sym, ap, ◌∙◌, true, Option, none, some, text_eq_refl, ltb, ok, length,
  length-append, arith, Bool-cases, inl, inr, ok-injective,
}
use curator_skill_registry.Signing.{Env}
use curator_skill_registry.Store.{SnapshotBoundary, Database, Failure}
use curator_skill_registry.Store.Boundary.{snapshot_boundary}
use curator_skill_registry.Store.Health.{
  Health, HealthCode, restore_below_checkpoint, refuse_startup_checkpoint, latch,
}
use curator_skill_registry.Store.Transaction.{Store}
use curator_skill_registry.Store.Invariant.{IsConsistent}
use curator_skill_registry.Store.Invariant.Snapshots.{
  snapshot_boundary-at, snapshot_boundary-grown, snapshot_boundary-live,
}
use curator_skill_registry.Store.History.{Reachable}
use curator_skill_registry.Store.History.Growth.{Reachable-Grows}
use curator_skill_registry.Store.History.Consistency.{Reachable-IsConsistent}
use curator_skill_registry.Checkpoint.{
  CheckpointView, reproduces, compare_checkpoint, or_none, checkpoint_prefix, settle_checkpoint,
  apply_at, apply_startup_checkpoint,
}

-- The checkpoint that a boundary is published as.
abbrev pub view_of : SnapshotBoundary → CheckpointView
view_of b = record {
  version = b.version;
  log_size = b.log_size;
  head = b.head;
  merkle_root = b.merkle_root;
  created_at = b.created_at;
}

compare_checkpoint-above :
    (live b : SnapshotBoundary)
    → b.version < live.version
    → b.log_size ≤ live.log_size
    → compare_checkpoint live (view_of b) (some b) ≡ none
unfolding compare_checkpoint reproduces
compare_checkpoint-above live b h k =
    ground (arith, text_eq_refl b.head, text_eq_refl b.merkle_root)

compare_checkpoint-same :
    (b : SnapshotBoundary) (prefix : Option SnapshotBoundary)
    → compare_checkpoint b (view_of b) prefix ≡ none
unfolding compare_checkpoint
compare_checkpoint-same b prefix = ground (arith, text_eq_refl b.head, text_eq_refl b.merkle_root)

compare_checkpoint-below :
    (live : SnapshotBoundary) (checkpoint : CheckpointView) (prefix : Option SnapshotBoundary)
    → live.version < checkpoint.version
    → compare_checkpoint live checkpoint prefix ≡ some restore_below_checkpoint
unfolding compare_checkpoint
compare_checkpoint-below live checkpoint prefix h = ground arith

refuse_startup_checkpoint-latches :
    (h : Health) (now : ℕ) (diagnostic : HealthCode) (detail : Failure)
    → (refuse_startup_checkpoint h now diagnostic detail).integrity_failed ≡ true
unfolding refuse_startup_checkpoint latch
refuse_startup_checkpoint-latches h now diagnostic detail = elim (Bool-cases h.integrity_failed) [
  | inl e ↦ rw (e, latch)
  | inr e ↦ rw (e, latch)
]

module _ {Doc : Type 0} (env : Env Doc) where
  -- The size and the version of the live boundary are the length of the log.
  live_boundary :
      (db : Database Doc) {b : SnapshotBoundary}
      → IsConsistent env db
      → snapshot_boundary db none ≡ ok b
      → (snapshot_boundary db (some (length db.log)) ≡ ok b)
        × (b.version ≡ length db.log)
        × (b.log_size ≡ length db.log)
  live_boundary db {b} v h =
      let (c, e, k, l) = snapshot_boundary-at env db (length db.log) v (omega arith) in
      let at = sym (snapshot_boundary-live env db v) ∙ h in
      let same : c ≡ b = ok-injective (sym e ∙ at) in
      (at, ap (λ d. d.version) (sym same) ∙ k, ap (λ d. d.log_size) (sym same) ∙ l)

  later_boundary :
      (db : Database Doc) (live b : SnapshotBoundary)
      → live.version ≡ length db.log
      → live.log_size ≡ length db.log
      → snapshot_boundary db (some (length db.log)) ≡ ok live
      → snapshot_boundary db (some b.log_size) ≡ ok b
      → b.version ≡ b.log_size
      → b.log_size ≤ length db.log
      → compare_checkpoint live (view_of b) (checkpoint_prefix db live (view_of b)) ≡ none
  unfolding checkpoint_prefix or_none
  later_boundary db live b v l here there e h = elim (Bool-cases (ltb b.version live.version)) [
    | inl k ↦
        rw (checkpoint_prefix, k, there)
          (compare_checkpoint-above live b (ground arith) (omega (arith, h, l)))
    | inr k ↦
        let size : b.log_size ≡ length db.log = ground (arith, v, e, h) in
        let same : live ≡ b =
          ok-injective (sym here ∙ ap (λ n. snapshot_boundary db (some n)) (sym size) ∙ there) in
        rw same (compare_checkpoint-same b _)
  ]

  -- The live boundary of a store with consistent tables, taken as a checkpoint, is passed by
  -- every store that a history of calls leads to, as long as its log has at most 2^64 entries:
  -- the startup comparison refuses nothing and changes nothing.
  pub apply_startup_checkpoint-Reachable :
      {s s' : Store Doc} (now : ℕ) (b : SnapshotBoundary)
      → Reachable env s s'
      → IsConsistent env s.db
      → length s'.db.log ≤ 2 ^ 64
      → snapshot_boundary s.db none ≡ ok b
      → apply_startup_checkpoint s' now (view_of b) ≡ (ok none, s')
  unfolding apply_startup_checkpoint apply_at settle_checkpoint
  apply_startup_checkpoint-Reachable {s} {s'} now b r v bound h =
      let g = Reachable-Grows env r in
      let v' = Reachable-IsConsistent env r v bound in
      let (was, version, size) = live_boundary s.db v h in
      let longer : length s.db.log ≤ length s'.db.log =
        rw g.log (omega (arith, length-append s.db.log g.added)) in
      let still : snapshot_boundary s'.db (some (length s.db.log)) ≡ ok b =
        snapshot_boundary-grown env s.db s'.db g.added (length s.db.log) v v' g.log g.created_at
          (omega arith)
        ∙ was in
      let (live, here, k, l) = snapshot_boundary-at env s'.db (length s'.db.log) v' (omega arith) in
      let read : snapshot_boundary s'.db none ≡ ok live =
        snapshot_boundary-live env s'.db v' ∙ here in
      let pass : compare_checkpoint live (view_of b) (checkpoint_prefix s'.db live (view_of b))
          ≡ none =
        later_boundary s'.db live b k l here
          (ap (λ n. snapshot_boundary s'.db (some n)) size ∙ still) (version ∙ sym size)
          (omega (arith, size, longer)) in
      rw (read, pass)

  -- A store with consistent tables whose log is shorter than the checkpoint's version is refused
  -- as below the checkpoint; its tables stay, and an integrity failure is latched.
  pub apply_startup_checkpoint-below :
      (s : Store Doc) (now : ℕ) (checkpoint : CheckpointView)
      → IsConsistent env s.db
      → length s.db.log < checkpoint.version
      → ((apply_startup_checkpoint s now checkpoint).0 ≡ ok (some restore_below_checkpoint))
        × ((apply_startup_checkpoint s now checkpoint).1.db ≡ s.db)
        × ((apply_startup_checkpoint s now checkpoint).1.health.integrity_failed ≡ true)
  unfolding apply_startup_checkpoint apply_at settle_checkpoint
  apply_startup_checkpoint-below s now checkpoint v h =
      let (live, here, k, l) = snapshot_boundary-at env s.db (length s.db.log) v (omega arith) in
      let read : snapshot_boundary s.db none ≡ ok live = snapshot_boundary-live env s.db v ∙ here in
      let below =
        compare_checkpoint-below live checkpoint (checkpoint_prefix s.db live checkpoint)
          (omega (arith, h, k)) in
      (
        rw (read, below),
        rw (read, below),
        rw (read, below) (refuse_startup_checkpoint-latches s.health now _ _),
      )

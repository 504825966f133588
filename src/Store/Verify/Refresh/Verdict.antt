-- ===== src/Store/Verify/Refresh/Verdict.antt =====
-- The verdict that a background verification publishes, and the writes that it lets through.
use curator_skill_registry.Base.{
  ℕ, ◌-◌, ◌*◌, ◌≤◌, ◌≡◌, refl, true, false, List, [], ◌∷◌, none, Text, Outcome, ok, err, ltb, arith,
  Bool-cases, inl, inr,
}
use curator_skill_registry.Store.{
  SnapshotBoundary, Failure, StoreError, integrity, verification_failed,
}
use curator_skill_registry.Store.Boundary.{snapshot_boundary}
use curator_skill_registry.Store.Health.{Health, is_stale, health_verdict, require_writes_allowed}
use curator_skill_registry.Store.Transaction.{Store}
use curator_skill_registry.Store.Verify.Refresh.{
  found, refused_verdict, fail_refresh, pass_refresh, ready_verdict, outcome_of, publish_refresh,
}

module _ {Doc : Type 0} (s : Store Doc) (now : ℕ) (utc_now : Text)
    (walk : Outcome StoreError (List Failure)) where
  pub publish_refresh-latched :
      s.health.integrity_failed ≡ true
      → publish_refresh s now utc_now walk ≡ (refused_verdict s.health, s)
  unfolding publish_refresh
  publish_refresh-latched h = rw h

  publish_refresh-passed :
      {b : SnapshotBoundary}
      → s.health.integrity_failed ≡ false
      → outcome_of (found walk) (snapshot_boundary s.db none) ≡ ok b
      → publish_refresh s now utc_now walk
        ≡ (ready_verdict b utc_now, record s { health = pass_refresh s.health now utc_now b })
  unfolding publish_refresh
  publish_refresh-passed h e = simp (h, e)

  publish_refresh-failed :
      {errors : List Failure}
      → s.health.integrity_failed ≡ false
      → outcome_of (found walk) (snapshot_boundary s.db none) ≡ err errors
      → publish_refresh s now utc_now walk ≡ (
        refused_verdict (fail_refresh s.health now errors),
        record s { health = fail_refresh s.health now errors },
      )
  unfolding publish_refresh
  publish_refresh-failed h e = simp (h, e)

  publish_outcome-db :
      (o : Outcome (List Failure) SnapshotBoundary)
      → s.health.integrity_failed ≡ false
      → outcome_of (found walk) (snapshot_boundary s.db none) ≡ o
      → (publish_refresh s now utc_now walk).1.db ≡ s.db
  publish_outcome-db (ok b) h e = rw (publish_refresh-passed h e)
  publish_outcome-db (err errors) h e = rw (publish_refresh-failed h e)

  -- A pass touches no table.
  pub publish_refresh-db : (publish_refresh s now utc_now walk).1.db ≡ s.db
  publish_refresh-db = elim (Bool-cases s.health.integrity_failed) [
    | inl h ↦ rw (publish_refresh-latched h)
    | inr h ↦ publish_outcome-db (outcome_of (found walk) (snapshot_boundary s.db none)) h refl
  ]

  -- The boundary of a pass without a finding.
  outcome_of-clean :
      {b : SnapshotBoundary}
      → walk ≡ ok []
      → snapshot_boundary s.db none ≡ ok b
      → outcome_of (found walk) (snapshot_boundary s.db none) ≡ ok b
  unfolding outcome_of found
  outcome_of-clean c e = rw (c, e)

-- What a store answers while it is ready and its last pass is not too old.
pub record IsReady (h : Health) (later : ℕ) : Type 0 where
  pub verdict : (health_verdict h later).ready ≡ true
  pub error : (health_verdict h later).error ≡ none
  pub writes : require_writes_allowed h later ≡ ok tt

pass_refresh-IsReady :
    (h : Health) (now : ℕ) (utc_now : Text) (b : SnapshotBoundary) (later : ℕ)
    → h.integrity_failed ≡ false
    → later - now ≤ h.verify_interval * 2
    → IsReady (pass_refresh h now utc_now b) later
unfolding pass_refresh health_verdict require_writes_allowed is_stale
pass_refresh-IsReady h now utc_now b later l fresh =
    let recent : ltb (h.verify_interval * 2) (later - now) ≡ false = ground arith in
    record { verdict = rw recent; error = rw recent; writes = rw (l, recent) }

module _ {Doc : Type 0} (s : Store Doc) (now : ℕ) (utc_now : Text)
    (walk : Outcome StoreError (List Failure)) where
  pub publish_refresh-IsReady :
      {b : SnapshotBoundary} (later : ℕ)
      → s.health.integrity_failed ≡ false
      → walk ≡ ok []
      → snapshot_boundary s.db none ≡ ok b
      → later - now ≤ s.health.verify_interval * 2
      → ((publish_refresh s now utc_now walk).0 ≡ ready_verdict b utc_now)
        × ((publish_refresh s now utc_now walk).1.health.verified_head ≡ b.head)
        × ((publish_refresh s now utc_now walk).1.health.verified_log_size ≡ b.log_size)
        × IsReady (publish_refresh s now utc_now walk).1.health later
  unfolding pass_refresh
  publish_refresh-IsReady {b} later h c e fresh =
      let run =
        publish_refresh-passed s now utc_now walk h (outcome_of-clean s now utc_now walk c e) in
      rw run (refl, refl, refl, pass_refresh-IsReady s.health now utc_now b later h fresh)

  -- A walk with a finding, or one that raised, leaves the store latched: the refresh answers not
  -- ready, writes are refused at any later time, and every table is as it was.
  pub publish_refresh-found :
      {f : Failure} {fs : List Failure} (later : ℕ)
      → found walk ≡ f ∷ fs
      → ((publish_refresh s now utc_now walk).0.ready ≡ false)
        × ((publish_refresh s now utc_now walk).1.health.integrity_failed ≡ true)
        × (require_writes_allowed (publish_refresh s now utc_now walk).1.health later
            ≡ err (integrity verification_failed))
        × ((publish_refresh s now utc_now walk).1.db ≡ s.db)
  unfolding outcome_of refused_verdict fail_refresh require_writes_allowed
  publish_refresh-found {f} {fs} later e = elim (Bool-cases s.health.integrity_failed) [
    | inl h ↦ rw (publish_refresh-latched s now utc_now walk h, h) (refl, refl, refl, refl)
    | inr h ↦
        let failed : outcome_of (found walk) (snapshot_boundary s.db none) ≡ err (f ∷ fs) = rw e in
        rw (publish_refresh-failed s now utc_now walk h failed) (refl, refl, refl, refl)
  ]

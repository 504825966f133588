-- ===== src/Store/Verify/Verified.antt =====
-- The tables that the whole verification passes, and its run over them.
pub mod Keeps
use curator_skill_registry.Base.{
  ℕ, ◌^◌, ◌≤◌, ◌≡◌, refl, Bool, true, List, [], ◌∷◌, Option, some, Text, codes, text_eq_refl, ok,
  length, All, all, ltb,
}
use curator_skill_registry.Signing.{Env}
use curator_skill_registry.Store.{
  LogRow, IdempotencyRow, ImportRow, UpstreamHighWater, Database, genesis, row_at, fresh_database,
}
use curator_skill_registry.Store.Invariant.{IsConsistent, Numbered}
use curator_skill_registry.Store.Invariant.Fresh.{fresh_database-IsConsistent}
use curator_skill_registry.Store.Verify.Walk.{report, timestamp}
use curator_skill_registry.Store.Verify.Walk.Sound.{Clean-walk_log}
use curator_skill_registry.Store.Verify.Ledgers.{
  idempotency_holds, idempotency_errors, import_error, import_errors, mark_holds, mark_errors,
}
use curator_skill_registry.Store.Verify.Cache.Clean.{verify_boundary_cache-IsConsistent}
use curator_skill_registry.Store.Verify.Refresh.{
  Checks, check_errors, created_holds, schema_holds, walked_leaves, integrity_errors, verification,
}

-- SQLite reports nothing, and the schema is the current one.
pub record Sound (checks : Checks) : Type 0 where
  pub integrity_check : checks.integrity_check ≡ codes "ok" ∷ []
  pub foreign_keys : checks.foreign_keys ≡ []
  pub schema_version : checks.schema_version ≡ some (codes "4")

module _ {Doc : Type 0} (env : Env Doc) (reformat : Text → Option Text)
    (float_eq : Text → ℕ → Bool) where
  -- A row of the ledger that answers for a row of the log.
  abbrev pub Fits : List (LogRow Doc) → IdempotencyRow Doc → Type 0
  Fits log row =
      (q : LogRow Doc) × (row_at row.seq log ≡ some q)
      × (idempotency_holds env float_eq log log row ≡ true)

  -- Well-formed times, and rows beside the log that fit it.
  pub record LedgersHold (db : Database Doc) : Type 0 where
    pub numbered : Numbered 1 db.log
    pub created : created_holds reformat db.created_at ≡ true
    pub times : All (λ (r : LogRow Doc). timestamp reformat r.created_at ≡ true) db.log
    pub ledger : All (Fits db.log) db.idempotency
    pub imports : All (λ r. import_error env db.log r ≡ []) db.imported_records
    pub marks : All (λ m. mark_holds reformat m ≡ true) db.upstream_high_water

  pub record IsVerified (db : Database Doc) : Type 0 where
    pub consistent : IsConsistent env db
    pub ledgers : LedgersHold db

  idempotency_errors-nil :
      (log : List (LogRow Doc)) (rows : List (IdempotencyRow Doc))
      → All (Fits log) rows
      → idempotency_errors env float_eq log log rows ≡ []
  unfolding idempotency_errors report
  idempotency_errors-nil log [] h = refl
  idempotency_errors-nil log (r ∷ rows) h = rw h.0.2 (idempotency_errors-nil log rows h.1)

  import_errors-nil :
      (log : List (LogRow Doc)) (rows : List ImportRow)
      → All (λ r. import_error env log r ≡ []) rows
      → import_errors env log rows ≡ []
  unfolding import_errors
  import_errors-nil log [] h = refl
  import_errors-nil log (r ∷ rows) h = rw h.0 (import_errors-nil log rows h.1)

  mark_errors-nil :
      (marks : List UpstreamHighWater)
      → All (λ m. mark_holds reformat m ≡ true) marks
      → mark_errors reformat marks ≡ []
  unfolding mark_errors report
  mark_errors-nil [] h = refl
  mark_errors-nil (m ∷ marks) h = rw h.0 (mark_errors-nil marks h.1)

  integrity_errors-IsVerified :
      (checks : Checks) (db : Database Doc)
      → Sound checks
      → IsVerified db
      → integrity_errors env reformat float_eq checks db ≡ ok []
  unfolding integrity_errors check_errors schema_holds report
  integrity_errors-IsVerified checks db s v =
      let c = v.consistent in
      let ascii : all (λ d. ltb d 128) genesis ≡ true = refl in
      rw (
        Clean-walk_log env reformat genesis 1 db.log ascii (c.numbered, c.chain, v.ledgers.times),
        s.integrity_check,
        s.foreign_keys,
        s.schema_version,
        text_eq_refl (codes "ok"),
        text_eq_refl (codes "4"),
        v.ledgers.created,
        idempotency_errors-nil db.log db.idempotency v.ledgers.ledger,
        import_errors-nil db.log db.imported_records v.ledgers.imports,
        mark_errors-nil db.upstream_high_water v.ledgers.marks,
      )

  pub verification-IsVerified :
      (checks : Checks) (db : Database Doc)
      → Sound checks
      → IsVerified db
      → length db.log ≤ 2 ^ 64
      → verification env reformat float_eq checks db ≡ ok []
  unfolding verification walked_leaves
  verification-IsVerified checks db s v h = rw (
    integrity_errors-IsVerified checks db s v,
    verify_boundary_cache-IsConsistent env db v.consistent h,
  )

  pub fresh_database-IsVerified :
      (created_at : Text)
      → timestamp reformat created_at ≡ true
      → IsVerified (fresh_database created_at)
  unfolding fresh_database created_holds
  fresh_database-IsVerified created_at t = record {
    consistent = fresh_database-IsConsistent env created_at;
    ledgers = record {
      numbered = tt;
      created = t;
      times = tt;
      ledger = tt;
      imports = tt;
      marks = tt;
    };
  }

-- ===== src/Store/History/Consistency.antt =====
-- Consistency through histories: every call leaves consistent tables consistent, and boundaries
-- that were served stay available.
use curator_skill_registry.Base.{
  ℕ, ◌+◌, ◌^◌, ◌≤◌, ◌≡◌, Bool, true, Option, none, some, Text, List, [], ◌∷◌, ok, Ensures,
  Ensures-bind, Ensures-then, Ensures-ok, Option-cases, inl, inr, length, length-append, arith,
}
use curator_skill_registry.Json.{Fields}
use curator_skill_registry.Signing.{Env}
use curator_skill_registry.Store.{
  LogEntry, IdempotencyRow, Database, UpstreamHighWater, SnapshotBoundary,
}
use curator_skill_registry.Store.Append.{append_locked}
use curator_skill_registry.Store.Boundary.{snapshot_boundary, boundary_available, page_boundary}
use curator_skill_registry.Store.Transaction.{
  Store, Submission, KeyedRequest, append, append_keyed, replay, idempotent_body, purge, find_key,
}
use curator_skill_registry.Store.Invariant.{IsConsistent}
use curator_skill_registry.Store.Invariant.Tables.{append_locked-Appends}
use curator_skill_registry.Store.Invariant.Keeps.{append_locked-keeps}
use curator_skill_registry.Store.Invariant.Snapshots.{snapshot_boundary-available}
use curator_skill_registry.Store.Verify.Refresh.Verdict.{publish_refresh-db}
use curator_skill_registry.Store.Imports.{
  Batch, UpstreamImport, ImportOutcome, advanced, noop, accepted_older, append_imports,
  append_upstream_import, imports_body, upstream_body, import_records, import_decision, no_batch,
  settle, settle_mark, require_mark, high_water,
}
use curator_skill_registry.Store.Imports.Records.{import_records-keeps}
use curator_skill_registry.Store.History.{
  Step, append_step, idempotent_step, imports_step, upstream_step, checkpoint_step, refresh_step,
  Reachable, here, step,
}
use curator_skill_registry.Store.History.Growth.{
  transaction-relates, append_idempotent-relates, Step-Grows, Reachable-Grows,
}

module _ {Doc : Type 0} (env : Env Doc) where
  -- Consistent, unless the log is longer than its Merkle tree can be.
  abbrev pub Keeps : Database Doc → Type 0
  Keeps db = length db.log ≤ 2 ^ 64 → IsConsistent env db

  -- Consistency is of the log, its boundaries and its frontier.
  with_tables :
      (db : Database Doc) (idempotency : List (IdempotencyRow Doc)) (marks : List UpstreamHighWater)
      → IsConsistent env db
      → IsConsistent env (record db { idempotency = idempotency; upstream_high_water = marks })
  with_tables db idempotency marks w = record {
    numbered = w.numbered;
    chain = w.chain;
    sequence = w.sequence;
    boundaries = w.boundaries;
    frontier = w.frontier;
    represents = w.represents;
    saved = w.saved;
    created = w.created;
    created_at = w.created_at;
  }

  append_locked-Keeps :
      (db : Database Doc) (body : Fields) (created_at : Text)
      → IsConsistent env db
      → Ensures (λ (r : LogEntry × Database Doc). Keeps r.1) (append_locked env db body created_at)
  append_locked-Keeps db body created_at v = record {
    at = λ (entry, grown) run bound.
        let a = (append_locked-Appends env db body created_at).at _ run in
        let longer : length grown.log ≡ length db.log + 1 =
          rw a.log (length-append db.log (a.row ∷ [])) in
        ((append_locked-keeps env db body created_at v (omega (arith, bound, longer))).at _ run).0;
  }

  append_keyed-Keeps :
      (db : Database Doc) (body : Fields) (request : KeyedRequest)
      → IsConsistent env db
      → Ensures (λ (r : Submission × Database Doc). Keeps r.1) (append_keyed env db body request)
  unfolding append_keyed
  append_keyed-Keeps db body request v =
      Ensures-bind (append_locked env db body request.created_at) _ (λ (entry, grown) run.
        Ensures-ok _ (λ bound.
          with_tables grown _ grown.upstream_high_water
            ((append_locked-Keeps db body request.created_at v).at _ run bound)))

  replay-Keeps :
      (request : KeyedRequest) (row : IdempotencyRow Doc) (db : Database Doc)
      → IsConsistent env db
      → Ensures (λ (r : Submission × Database Doc). Keeps r.1) (replay env request row db)
  replay-Keeps request row db v = record {
    at = λ r h bound. let same : r.1 ≡ db = (unfold replay in ground arith) in rw same v;
  }

  idempotent_body-Keeps :
      (db : Database Doc) (body : Fields) (request : KeyedRequest)
      → IsConsistent env db
      → Ensures (λ (r : Submission × Database Doc). Keeps r.1) (idempotent_body env body request db)
  idempotent_body-Keeps db body request v =
      let purged =
        with_tables db (purge request.unix_now db.idempotency) db.upstream_high_water v in
      elim (Option-cases
        (find_key request.auditor_id request.key (purge request.unix_now db.idempotency))) [
          | inl e ↦
              unfold idempotent_body in
              rw (idempotent_body, e) (append_keyed-Keeps _ body request purged)
          | inr (row, e) ↦
              unfold idempotent_body in rw (idempotent_body, e) (replay-Keeps request row _ purged)
        ]

  settle-Keeps :
      (db : Database Doc) (o : UpstreamHighWater) (outcome : ImportOutcome)
      → Keeps db
      → Keeps (settle outcome o db)
  unfolding settle
  settle-Keeps db o advanced k bound = with_tables db db.idempotency _ (k bound)
  settle-Keeps db o noop k bound = k bound
  settle-Keeps db o accepted_older k bound = k bound

  settle_mark-Keeps :
      (db : Database Doc) (mark : Option UpstreamHighWater) → Keeps db → Keeps (settle_mark mark db)
  unfolding settle_mark
  settle_mark-Keeps db none k = k
  settle_mark-Keeps db (some o) k = settle-Keeps db o advanced k

  imports_body-Keeps :
      (records : List (Text × Fields)) (created_at : Text) (mark : Option UpstreamHighWater)
      (db : Database Doc)
      → IsConsistent env db
      → Ensures
          (λ (r : Batch × Database Doc). Keeps r.1)
          (imports_body env records created_at mark db)
  unfolding imports_body
  imports_body-Keeps records created_at mark db v = Ensures-then (require_mark mark db) _ (λ _.
      Ensures-bind (import_records env db no_batch created_at records) _ (λ (batch, grown) run.
        Ensures-ok _ (
          settle_mark-Keeps grown mark
            ((import_records-keeps env db no_batch created_at records v).at _ run))))

  upstream_body-Keeps :
      (records : List (Text × Fields)) (created_at : Text) (o : UpstreamHighWater) (older : Bool)
      (db : Database Doc)
      → IsConsistent env db
      → Ensures
          (λ (r : UpstreamImport × Database Doc). Keeps r.1)
          (upstream_body env records created_at o older db)
  unfolding upstream_body
  upstream_body-Keeps records created_at o older db v =
      Ensures-bind (import_decision (high_water o.key_id db.upstream_high_water) o older) _
        (λ outcome _.
          Ensures-bind (import_records env db no_batch created_at records) _ (λ (batch, grown) run.
            Ensures-ok _ (
              settle-Keeps grown o outcome
                ((import_records-keeps env db no_batch created_at records v).at _ run))))

  Step-Keeps : {s s' : Store Doc} → Step env s s' → IsConsistent env s.db → Keeps s'.db
  unfolding append append_imports append_upstream_import
  Step-Keeps {s} (append_step now body created_at) v =
      transaction-relates Keeps some s now (λ db. append_locked env db body created_at) (λ _. v)
        (append_locked-Keeps s.db body created_at v)
  Step-Keeps {s} (idempotent_step now body request) v =
      append_idempotent-relates env Keeps s now body request (λ _. v)
        (idempotent_body-Keeps s.db body request v)
  Step-Keeps {s} (imports_step now records created_at mark) v =
      transaction-relates Keeps (λ b. b.last_entry) s now (imports_body env records created_at mark)
        (λ _. v) (imports_body-Keeps records created_at mark s.db v)
  Step-Keeps {s} (upstream_step now records created_at offered older) v =
      transaction-relates Keeps (λ r. r.batch.last_entry) s now
        (upstream_body env records created_at offered older) (λ _. v)
        (upstream_body-Keeps records created_at offered older s.db v)
  Step-Keeps {s} (checkpoint_step now diagnostic detail) v = λ _. v
  Step-Keeps {s} (refresh_step now utc_now walk) v =
      rw (publish_refresh-db s now utc_now walk) (λ _. v)

  -- Consistent tables stay consistent through every history of appends, keyed submissions, import
  -- batches, upstream imports, checkpoint refusals and background verifications, whatever each
  -- call answers, as long as the log ends with at most 2^64 entries.
  pub Reachable-IsConsistent :
      {s s' : Store Doc}
      → Reachable env s s'
      → IsConsistent env s.db
      → length s'.db.log ≤ 2 ^ 64
      → IsConsistent env s'.db
  Reachable-IsConsistent here v bound = v
  Reachable-IsConsistent (step {s = m} {s' = n} r q) v bound =
      let g = Step-Grows env q in
      let shorter : length m.db.log ≤ length n.db.log =
        rw g.log (omega (arith, length-append m.db.log g.added)) in
      Step-Keeps q (Reachable-IsConsistent r v (omega (arith, bound, shorter))) bound

  -- A boundary that a store with consistent tables served is available after any history of
  -- calls, and a page that carries it is evaluated at it, as long as the log ends with at most
  -- 2^64 entries.
  pub Reachable-boundary_available :
      {s s' : Store Doc} (n : ℕ) (b : SnapshotBoundary)
      → Reachable env s s'
      → IsConsistent env s.db
      → length s'.db.log ≤ 2 ^ 64
      → snapshot_boundary s.db (some n) ≡ ok b
      → (boundary_available s'.db b ≡ true) × (page_boundary s'.db (some b) none ≡ ok b)
  Reachable-boundary_available {s} {s'} n b r v bound h =
      let g = Reachable-Grows env r in
      snapshot_boundary-available env s.db s'.db g.added n b v (Reachable-IsConsistent r v bound)
        g.log g.created_at h

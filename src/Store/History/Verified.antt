-- ===== src/Store/History/Verified.antt =====
-- The bodies of the write transactions keep the rows beside the log fit for the verification.
pub mod Steps
use curator_skill_registry.Base.{
  ℕ, ◌+◌, ◌-◌, ◌*◌, ◌^◌, ◌≤◌, ◌≡◌, refl, Bool, true, false, Option, none, some, Text, List, [], ◌∷◌,
  ok, Ensures, Ensures-bind, Ensures-then, Ensures-ok, Ensures-if, Ensures-weaken, Option-cases,
  inl, inr, length, length-append, All, All-append, arith,
}
use curator_skill_registry.Json.{Fields, obj}
use curator_skill_registry.Signing.{Env}
use curator_skill_registry.Store.{LogEntry, IdempotencyRow, Database, UpstreamHighWater}
use curator_skill_registry.Store.Append.{append_locked}
use curator_skill_registry.Store.Boundary.{snapshot_boundary}
use curator_skill_registry.Store.Transaction.{
  Store, Submission, KeyedRequest, append, append_keyed, replay, idempotent_body, purge, find_key,
  valid_request, append_idempotent,
}
use curator_skill_registry.Store.Transaction.Outcomes.{
  append_idempotent-valid, append_idempotent-invalid,
}
use curator_skill_registry.Store.Invariant.Tables.{append_locked-Writes}
use curator_skill_registry.Store.Invariant.Snapshots.{snapshot_boundary-live, snapshot_boundary-at}
use curator_skill_registry.Store.Imports.{
  Batch, UpstreamImport, ImportOutcome, advanced, noop, accepted_older, append_imports,
  append_upstream_import, imports_body, upstream_body, import_records, import_one, import_decision,
  is_imported, no_batch, settle, settle_mark, require_mark, high_water,
}
use curator_skill_registry.Store.History.{
  Step, append_step, idempotent_step, imports_step, upstream_step, checkpoint_step, refresh_step,
  Reachable, here, step,
}
use curator_skill_registry.Store.History.Growth.{transaction-relates}
use curator_skill_registry.Store.History.Consistency.{Reachable-IsConsistent}
use curator_skill_registry.Store.Verify.Walk.{timestamp}
use curator_skill_registry.Store.Verify.Ledgers.{import_fingerprint, mark_holds}
use curator_skill_registry.Store.Verify.Refresh.{
  publish_refresh, ready_verdict, Checks, verification, refresh_health_verdict,
}
use curator_skill_registry.Store.Verify.Refresh.Verdict.{
  publish_refresh-db, publish_refresh-IsReady, IsReady,
}
use curator_skill_registry.Store.Verify.Verified.{
  LedgersHold, IsVerified, Sound, verification-IsVerified,
}
use curator_skill_registry.Store.Verify.Verified.Keeps.{
  LedgersHold-Writes, keyed_row-Fits, import_row-Fits, All-purge, All-put_high_water,
}

module _ {Doc : Type 0} (env : Env Doc) (reformat : Text → Option Text)
    (float_eq : Text → ℕ → Bool) where
  abbrev pub Holds : Database Doc → Type 0
  Holds = LedgersHold env reformat float_eq

  -- A record of a batch comes with the fingerprint that the verification computes from it.
  abbrev pub Fingerprinted : List (Text × Fields) → Type 0
  Fingerprinted records =
      All (λ (q : Text × Fields). import_fingerprint env (some (obj q.1)) ≡ some q.0) records

  pub append_locked-Holds :
      (db : Database Doc) (body : Fields) (created_at : Text)
      → timestamp reformat created_at ≡ true
      → Holds db
      → Ensures (λ (r : LogEntry × Database Doc). Holds r.1) (append_locked env db body created_at)
  append_locked-Holds db body created_at t v =
      Ensures-weaken (append_locked-Writes env db body created_at)
        (λ r w. LedgersHold-Writes env reformat float_eq body created_at w t v)

  append_keyed-Holds :
      (db : Database Doc) (body : Fields) (request : KeyedRequest)
      → timestamp reformat request.created_at ≡ true
      → valid_request request ≡ true
      → Holds db
      → Ensures (λ (r : Submission × Database Doc). Holds r.1) (append_keyed env db body request)
  unfolding append_keyed
  append_keyed-Holds db body request t valid v =
      Ensures-bind (append_locked env db body request.created_at) _ (λ (entry, grown) run.
        let w = (append_locked-Writes env db body request.created_at).at _ run in
        let g = LedgersHold-Writes env reformat float_eq body request.created_at w t v in
        Ensures-ok _ (record {
          numbered = g.numbered;
          created = g.created;
          times = g.times;
          ledger =
              All-append _ grown.idempotency _ g.ledger
                (keyed_row-Fits env reformat float_eq body request w v.numbered valid, tt);
          imports = g.imports;
          marks = g.marks;
        }))

  purged-Holds :
      (db : Database Doc) (now : ℕ)
      → Holds db
      → Holds (record db { idempotency = purge now db.idempotency })
  purged-Holds db now v = record {
    numbered = v.numbered;
    created = v.created;
    times = v.times;
    ledger = All-purge _ now db.idempotency v.ledger;
    imports = v.imports;
    marks = v.marks;
  }

  replay-Holds :
      (request : KeyedRequest) (row : IdempotencyRow Doc) (db : Database Doc)
      → Holds db
      → Ensures (λ (r : Submission × Database Doc). Holds r.1) (replay env request row db)
  replay-Holds request row db v = record {
    at = λ r h. let same : r.1 ≡ db = (unfold replay in ground arith) in rw same v;
  }

  pub idempotent_body-Holds :
      (db : Database Doc) (body : Fields) (request : KeyedRequest)
      → timestamp reformat request.created_at ≡ true
      → valid_request request ≡ true
      → Holds db
      → Ensures (λ (r : Submission × Database Doc). Holds r.1) (idempotent_body env body request db)
  idempotent_body-Holds db body request t valid v =
      let purged = purged-Holds db request.unix_now v in
      elim (Option-cases
        (find_key request.auditor_id request.key (purge request.unix_now db.idempotency))) [
          | inl e ↦
              unfold idempotent_body in
              rw (idempotent_body, e) (append_keyed-Holds _ body request t valid purged)
          | inr (row, e) ↦
              unfold idempotent_body in rw (idempotent_body, e) (replay-Holds request row _ purged)
        ]

  import_one-Holds :
      (db : Database Doc) (created_at fingerprint : Text) (body : Fields)
      → timestamp reformat created_at ≡ true
      → import_fingerprint env (some (obj body)) ≡ some fingerprint
      → Holds db
      → Ensures
          (λ (r : LogEntry × Database Doc). Holds r.1)
          (import_one env db created_at fingerprint body)
  unfolding import_one
  import_one-Holds db created_at fingerprint body t known v =
      Ensures-bind (append_locked env db body created_at) _ (λ (entry, grown) run.
        let w = (append_locked-Writes env db body created_at).at _ run in
        let g = LedgersHold-Writes env reformat float_eq body created_at w t v in
        Ensures-ok _ (record {
          numbered = g.numbered;
          created = g.created;
          times = g.times;
          ledger = g.ledger;
          imports = All-append _ grown.imported_records _ g.imports (
            import_row-Fits env reformat float_eq body created_at fingerprint w v.numbered known,
            tt,
          );
          marks = g.marks;
        }))

  pub import_records-Holds :
      (db : Database Doc) (batch : Batch) (created_at : Text) (records : List (Text × Fields))
      → timestamp reformat created_at ≡ true
      → Fingerprinted records
      → Holds db
      → Ensures
          (λ (r : Batch × Database Doc). Holds r.1)
          (import_records env db batch created_at records)
  unfolding import_records
  import_records-Holds db batch created_at [] t known v = Ensures-ok _ v
  import_records-Holds db batch created_at ((fingerprint, body) ∷ records) t known v =
      Ensures-if (is_imported fingerprint db.imported_records)
        (λ _. import_records-Holds db batch created_at records t known.1 v)
        (λ _. Ensures-bind (import_one env db created_at fingerprint body) _ (λ (entry, grown) run.
          import_records-Holds grown _ created_at records t known.1
            ((import_one-Holds db created_at fingerprint body t known.0 v).at _ run)))

  pub settle-Holds :
      (db : Database Doc) (offered : UpstreamHighWater) (outcome : ImportOutcome)
      → mark_holds reformat offered ≡ true
      → Holds db
      → Holds (settle outcome offered db)
  unfolding settle
  settle-Holds db offered advanced m v = record {
    numbered = v.numbered;
    created = v.created;
    times = v.times;
    ledger = v.ledger;
    imports = v.imports;
    marks = All-put_high_water _ offered db.upstream_high_water m v.marks;
  }
  settle-Holds db offered noop m v = v
  settle-Holds db offered accepted_older m v = v

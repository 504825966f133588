-- ===== src/Store/History/Growth.antt =====
-- What every call keeps of the tables that stand: the log only grows at its end, and no
-- high-water mark moves back.
use curator_skill_registry.Base.{
  ℕ, ◌≡◌, refl, sym, ap, ◌∙◌, Bool, Option, none, some, Text, List, [], ◌∷◌, ◌++◌, append-nil,
  append_assoc, Outcome, ok, err, ◌>>◌, Ensures, Ensures-bind, Ensures-then, Ensures-ok,
  Ensures-weaken, arith, Option-cases, Bool-cases, inl, inr,
}
use curator_skill_registry.Json.{Fields}
use curator_skill_registry.Signing.{Env}
use curator_skill_registry.Store.{
  LogRow, LogEntry, IdempotencyRow, Database, StoreError, latched, UpstreamHighWater,
}
use curator_skill_registry.Store.Health.{require_writes_allowed}
use curator_skill_registry.Store.Append.{append_locked}
use curator_skill_registry.Store.Transaction.{
  Store, Submission, finish, write_transaction, published, KeyedRequest, append, append_idempotent,
  append_keyed, replay, valid_request, idempotent_body, purge, find_key,
}
use curator_skill_registry.Store.Transaction.Outcomes.{
  append_idempotent-valid, append_idempotent-invalid, published-db,
}
use curator_skill_registry.Store.Invariant.Tables.{Appends, append_locked-Appends}
use curator_skill_registry.Store.Verify.Refresh.Verdict.{publish_refresh-db}
use curator_skill_registry.Store.Imports.{
  Batch, UpstreamImport, ImportOutcome, advanced, noop, accepted_older, append_imports,
  append_upstream_import, imports_body, upstream_body, import_records, import_decision, no_batch,
  settle, settle_mark, require_mark, high_water,
}
use curator_skill_registry.Store.Imports.Marks.{
  Follows, Follows-refl, Follows-trans, Follows-put, Decided-Follows, import_decision_iff,
  require_offer-Follows,
}
use curator_skill_registry.Store.Imports.Records.{Imports, import_records-Imports}
use curator_skill_registry.Store.History.{
  Step, append_step, idempotent_step, imports_step, upstream_step, checkpoint_step, refresh_step,
  Reachable, here, step,
}

module _ {Doc A : Type 0} where
  finish-relates :
      (P : Database Doc → Type 0) (s : Store Doc) (now : ℕ)
      (o : Outcome StoreError (A × Database Doc))
      → P s.db
      → Ensures (λ (r : A × Database Doc). P r.1) o
      → P (finish s now o).1.db
  unfolding finish
  finish-relates P s now (ok (a, db)) h run = run.at (a, db) refl
  finish-relates P s now (err (latched f)) h run = h
  finish-relates P s now (err e) h run = h

  -- What holds of the tables before, and of those that the body returns, holds after the call.
  pub transaction-relates :
      (P : Database Doc → Type 0) (entry : A → Option LogEntry) (s : Store Doc) (now : ℕ)
      (body : Database Doc → Outcome StoreError (A × Database Doc))
      → P s.db
      → Ensures (λ (r : A × Database Doc). P r.1) (body s.db)
      → P (published entry (write_transaction s now body)).1.db
  unfolding write_transaction
  transaction-relates P entry s now body h run = rw (published-db entry _) (
      finish-relates P s now (require_writes_allowed s.health now >> body s.db) h
        (Ensures-then _ _ (λ _. run)))

-- The tables `db'` after `db`.
pub record Grows {Doc : Type 0} (db db' : Database Doc) : Type 0 where
  pub added : List (LogRow Doc)
  pub log : db'.log ≡ db.log ++ added
  pub created_at : db'.created_at ≡ db.created_at
  pub marks :
      (key_id : Text)
      → Follows
          (high_water key_id db.upstream_high_water)
          (high_water key_id db'.upstream_high_water)

module _ {Doc : Type 0} where
  Grows-refl : (db : Database Doc) → Grows db db
  Grows-refl db = record {
    added = [];
    log = sym (append-nil db.log);
    created_at = refl;
    marks = λ key_id. Follows-refl _;
  }

  Appends-Grows : (db db' : Database Doc) (entry : LogEntry) → Appends db db' entry → Grows db db'
  Appends-Grows db db' entry a = record {
    added = a.row ∷ [];
    log = a.log;
    created_at = a.created_at;
    marks = λ key_id. rw a.upstream_high_water (Follows-refl _);
  }

  Imports-Grows : (db db' : Database Doc) → Imports db db' → Grows db db'
  Imports-Grows db db' m = record {
    added = m.added;
    log = m.log;
    created_at = m.created_at;
    marks = λ key_id. rw m.upstream_high_water (Follows-refl _);
  }

  -- A mark that advances over what it may follow.
  settle-Grows :
      (db db' : Database Doc) (o : UpstreamHighWater)
      → Imports db db'
      → Follows (high_water o.key_id db.upstream_high_water) (some o)
      → Grows db (settle advanced o db')
  unfolding settle
  settle-Grows db db' o m h = record {
    added = m.added;
    log = m.log;
    created_at = m.created_at;
    marks = λ key_id. rw m.upstream_high_water (Follows-put key_id o db.upstream_high_water h);
  }

module _ {Doc : Type 0} (env : Env Doc) where
  append_locked-Grows :
      (db : Database Doc) (body : Fields) (created_at : Text)
      → Ensures
          (λ (r : LogEntry × Database Doc). Grows db r.1)
          (append_locked env db body created_at)
  append_locked-Grows db body created_at =
      Ensures-weaken (append_locked-Appends env db body created_at)
        (λ r a. Appends-Grows db r.1 r.0 a)

  replay-Grows :
      (request : KeyedRequest) (row : IdempotencyRow Doc) (db : Database Doc)
      → Ensures (λ (r : Submission × Database Doc). Grows db r.1) (replay env request row db)
  replay-Grows request row db = record {
    at = λ r h. let same : r.1 ≡ db = (unfold replay in ground arith) in rw same (Grows-refl db);
  }

  append_keyed-Grows :
      (db : Database Doc) (body : Fields) (request : KeyedRequest)
      → Ensures (λ (r : Submission × Database Doc). Grows db r.1) (append_keyed env db body request)
  unfolding append_keyed
  append_keyed-Grows db body request =
      Ensures-bind (append_locked env db body request.created_at) _ (λ (entry, grown) run.
        let g = (append_locked-Grows db body request.created_at).at _ run in
        Ensures-ok _
          (record { added = g.added; log = g.log; created_at = g.created_at; marks = g.marks }))

  idempotent_body-Grows :
      (db : Database Doc) (body : Fields) (request : KeyedRequest)
      → Ensures
          (λ (r : Submission × Database Doc). Grows db r.1)
          (idempotent_body env body request db)
  unfolding idempotent_body
  idempotent_body-Grows db body request =
      elim (Option-cases
        (find_key request.auditor_id request.key (purge request.unix_now db.idempotency))) [
          | inl e ↦
              rw (idempotent_body, e)
                (Ensures-weaken (append_keyed-Grows _ body request) (λ r g. record {
                  added = g.added;
                  log = g.log;
                  created_at = g.created_at;
                  marks = g.marks;
                }))
          | inr (row, e) ↦
              rw (idempotent_body, e)
                (Ensures-weaken (replay-Grows request row _) (λ r g. record {
                  added = g.added;
                  log = g.log;
                  created_at = g.created_at;
                  marks = g.marks;
                }))
        ]

  imports_body-Grows :
      (records : List (Text × Fields)) (created_at : Text) (mark : Option UpstreamHighWater)
      (db : Database Doc)
      → Ensures
          (λ (r : Batch × Database Doc). Grows db r.1)
          (imports_body env records created_at mark db)
  unfolding imports_body require_mark settle_mark
  imports_body-Grows records created_at none db =
      Ensures-bind (import_records env db no_batch created_at records) _ (λ (batch, grown) run.
        Ensures-ok _ (
          Imports-Grows db grown
            ((import_records-Imports env db no_batch created_at records).at _ run)))
  imports_body-Grows records created_at (some o) db = Ensures-then _ _ (λ accepted.
      Ensures-bind (import_records env db no_batch created_at records) _ (λ (batch, grown) run.
        Ensures-ok _ (
          settle-Grows db grown o
            ((import_records-Imports env db no_batch created_at records).at _ run)
            (require_offer-Follows (high_water o.key_id db.upstream_high_water) o accepted))))

  settle_outcome-Grows :
      (db db' : Database Doc) (o : UpstreamHighWater) (older : Bool) (outcome : ImportOutcome)
      → Imports db db'
      → import_decision (high_water o.key_id db.upstream_high_water) o older ≡ ok outcome
      → Grows db (settle outcome o db')
  unfolding settle
  settle_outcome-Grows db db' o older advanced m h =
      settle-Grows db db' o m (Decided-Follows ((import_decision_iff _ o older (ok advanced)).0 h))
  settle_outcome-Grows db db' o older noop m h = Imports-Grows db db' m
  settle_outcome-Grows db db' o older accepted_older m h = Imports-Grows db db' m

  upstream_body-Grows :
      (records : List (Text × Fields)) (created_at : Text) (o : UpstreamHighWater) (older : Bool)
      (db : Database Doc)
      → Ensures
          (λ (r : UpstreamImport × Database Doc). Grows db r.1)
          (upstream_body env records created_at o older db)
  unfolding upstream_body
  upstream_body-Grows records created_at o older db =
      Ensures-bind (import_decision (high_water o.key_id db.upstream_high_water) o older) _
        (λ outcome decided.
          Ensures-bind (import_records env db no_batch created_at records) _ (λ (batch, grown) run.
            Ensures-ok _ (
              settle_outcome-Grows db grown o older outcome
                ((import_records-Imports env db no_batch created_at records).at _ run) decided)))

  pub append_idempotent-relates :
      (P : Database Doc → Type 0) (s : Store Doc) (now : ℕ) (body : Fields) (request : KeyedRequest)
      → P s.db
      → Ensures (λ (r : Submission × Database Doc). P r.1) (idempotent_body env body request s.db)
      → P (append_idempotent env s now body request).1.db
  append_idempotent-relates P s now body request h run = elim (Bool-cases (valid_request request)) [
    | inl e ↦
        rw (append_idempotent-valid env s now body request e)
          (transaction-relates P (λ r. r.entry) s now (idempotent_body env body request) h run)
    | inr e ↦ rw (append_idempotent-invalid env s now body request e) h
  ]

  -- One call, whatever it answers.
  pub Step-Grows : {s s' : Store Doc} → Step env s s' → Grows s.db s'.db
  unfolding append append_imports append_upstream_import
  Step-Grows {s} (append_step now body created_at) =
      transaction-relates (Grows s.db) some s now (λ db. append_locked env db body created_at)
        (Grows-refl s.db) (append_locked-Grows s.db body created_at)
  Step-Grows {s} (idempotent_step now body request) =
      append_idempotent-relates (Grows s.db) s now body request (Grows-refl s.db)
        (idempotent_body-Grows s.db body request)
  Step-Grows {s} (imports_step now records created_at mark) =
      transaction-relates (Grows s.db) (λ b. b.last_entry) s now
        (imports_body env records created_at mark) (Grows-refl s.db)
        (imports_body-Grows records created_at mark s.db)
  Step-Grows {s} (upstream_step now records created_at offered older) =
      transaction-relates (Grows s.db) (λ r. r.batch.last_entry) s now
        (upstream_body env records created_at offered older) (Grows-refl s.db)
        (upstream_body-Grows records created_at offered older s.db)
  Step-Grows {s} (checkpoint_step now diagnostic detail) = Grows-refl s.db
  Step-Grows {s} (refresh_step now utc_now walk) =
      rw (publish_refresh-db s now utc_now walk) (Grows-refl s.db)

  Grows-trans : {a b c : Database Doc} → Grows a b → Grows b c → Grows a c
  Grows-trans {a} p q = record {
    added = p.added ++ q.added;
    log = q.log ∙ ap (λ t. t ++ q.added) p.log ∙ append_assoc a.log p.added q.added;
    created_at = q.created_at ∙ p.created_at;
    marks = λ key_id. Follows-trans _ _ _ (p.marks key_id) (q.marks key_id);
  }

  -- Through every history of calls the log keeps its entries in order and only gains entries at
  -- its end, the creation time stays, and the high-water mark of each key is kept, advances to a
  -- greater version, or is written again at its version with the same boundary.
  pub Reachable-Grows : {s s' : Store Doc} → Reachable env s s' → Grows s.db s'.db
  Reachable-Grows here = Grows-refl _
  Reachable-Grows (step r q) = Grows-trans (Reachable-Grows r) (Step-Grows q)

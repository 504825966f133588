-- ===== src/Store/Imports/Records.antt =====
-- The loop over the records of a batch: which tables it grows, that it keeps them consistent, and
-- that it imports a record once.
use curator_skill_registry.Base.{
  some, ◌+◌, ◌^◌, ◌≤◌, ◌≡◌, refl, sym, ap, ◌∙◌, true, List, [], ◌∷◌, ◌++◌, append_assoc, append-nil,
  Text, text_eq_refl, ok, Ensures, Ensures-bind, Ensures-ok, Ensures-if, Ensures-weaken, All,
  length, length-append, inl, inr, Bool-cases, bind-eq-ok, arith,
}
use curator_skill_registry.Json.{Fields}
use curator_skill_registry.Signing.{Env}
use curator_skill_registry.Store.{LogRow, LogEntry, ImportRow, Database}
use curator_skill_registry.Store.Append.{append_locked}
use curator_skill_registry.Store.Invariant.{IsConsistent}
use curator_skill_registry.Store.Invariant.Tables.{append_locked-Appends}
use curator_skill_registry.Store.Invariant.Keeps.{append_locked-keeps}
use curator_skill_registry.Store.Imports.{Batch, no_batch, is_imported, import_one, import_records}

-- Only the log and the imports grow, each at its end; the marks stay.
pub record Imports {Doc : Type 0} (db db' : Database Doc) : Type 0 where
  pub upstream_high_water : db'.upstream_high_water ≡ db.upstream_high_water
  pub created_at : db'.created_at ≡ db.created_at
  pub idempotency : db'.idempotency ≡ db.idempotency
  pub added : List (LogRow Doc)
  pub log : db'.log ≡ db.log ++ added
  pub rows : List ImportRow
  pub imported_records : db'.imported_records ≡ db.imported_records ++ rows

pub is_imported-append :
    (fingerprint : Text) (rs ss : List ImportRow)
    → is_imported fingerprint rs ≡ true
    → is_imported fingerprint (rs ++ ss) ≡ true
unfolding is_imported
is_imported-append fingerprint [] ss h = cc
is_imported-append fingerprint (r ∷ rs) ss h = ground (arith, is_imported-append fingerprint rs ss)

is_imported-last :
    (rs : List ImportRow) (r : ImportRow) → is_imported r.fingerprint (rs ++ r ∷ []) ≡ true
unfolding is_imported
is_imported-last [] r = rw (text_eq_refl r.fingerprint)
is_imported-last (x ∷ rs) r = ground (arith, is_imported-last rs r)

module _ {Doc : Type 0} where
  Imports-refl : (db : Database Doc) → Imports db db
  Imports-refl db = record {
    upstream_high_water = refl;
    created_at = refl;
    idempotency = refl;
    added = [];
    log = sym (append-nil db.log);
    rows = [];
    imported_records = sym (append-nil db.imported_records);
  }

  Imports-trans : {a b c : Database Doc} → Imports a b → Imports b c → Imports a c
  Imports-trans {a} {b} {c} p q = record {
    created_at = q.created_at ∙ p.created_at;
    upstream_high_water = q.upstream_high_water ∙ p.upstream_high_water;
    idempotency = q.idempotency ∙ p.idempotency;
    added = p.added ++ q.added;
    log = q.log ∙ ap (λ t. t ++ q.added) p.log ∙ append_assoc a.log p.added q.added;
    rows = p.rows ++ q.rows;
    imported_records =
        q.imported_records
        ∙ ap (λ t. t ++ q.rows) p.imported_records
        ∙ append_assoc a.imported_records p.rows q.rows;
  }

module _ {Doc : Type 0} (env : Env Doc) where
  import_one-Imports :
      (db : Database Doc) (created_at fingerprint : Text) (body : Fields)
      → Ensures
          (λ (r : LogEntry × Database Doc).
            Imports db r.1 × (is_imported fingerprint r.1.imported_records ≡ true))
          (import_one env db created_at fingerprint body)
  unfolding import_one
  import_one-Imports db created_at fingerprint body =
      Ensures-bind (append_locked env db body created_at) _ (λ (entry, grown) run.
        let a = (append_locked-Appends env db body created_at).at _ run in
        let r : ImportRow = record {
          fingerprint = fingerprint;
          imported_at = created_at;
          seq = some entry.seq;
        } in
        Ensures-ok _ (
          record {
            created_at = a.created_at;
            upstream_high_water = a.upstream_high_water;
            idempotency = a.idempotency;
            added = a.row ∷ [];
            log = a.log;
            rows = r ∷ [];
            imported_records = ap (λ t. t ++ r ∷ []) a.imported_records;
          },
          is_imported-last grown.imported_records r,
        ))

  import_one-keeps :
      (db : Database Doc) (created_at fingerprint : Text) (body : Fields)
      → IsConsistent env db
      → Ensures
          (λ (r : LogEntry × Database Doc). length r.1.log ≤ 2 ^ 64 → IsConsistent env r.1)
          (import_one env db created_at fingerprint body)
  unfolding import_one
  import_one-keeps db created_at fingerprint body v =
      Ensures-bind (append_locked env db body created_at) _ (λ (entry, grown) run.
        Ensures-ok _ (λ bound.
          let a = (append_locked-Appends env db body created_at).at _ run in
          let longer : length grown.log ≡ length db.log + 1 =
            rw a.log (length-append db.log (a.row ∷ [])) in
          let w =
            ((append_locked-keeps env db body created_at v (omega (arith, bound, longer))).at _
              run).0 in
          record {
            numbered = w.numbered;
            chain = w.chain;
            sequence = w.sequence;
            boundaries = w.boundaries;
            frontier = w.frontier;
            represents = w.represents;
            saved = w.saved;
            created = w.created;
            created_at = w.created_at;
          }))

  pub import_records-Imports :
      (db : Database Doc) (batch : Batch) (created_at : Text) (records : List (Text × Fields))
      → Ensures
          (λ (r : Batch × Database Doc). Imports db r.1)
          (import_records env db batch created_at records)
  unfolding import_records
  import_records-Imports db batch created_at [] = Ensures-ok _ (Imports-refl db)
  import_records-Imports db batch created_at ((fingerprint, body) ∷ records) =
      Ensures-if (is_imported fingerprint db.imported_records)
        (λ _. import_records-Imports db batch created_at records)
        (λ _. Ensures-bind (import_one env db created_at fingerprint body) _ (λ (entry, grown) run.
          let one = (import_one-Imports db created_at fingerprint body).at _ run in
          Ensures-weaken (import_records-Imports grown _ created_at records)
            (λ r more. Imports-trans one.0 more)))

  -- A batch leaves consistent tables consistent, as long as the log fits.
  pub import_records-keeps :
      (db : Database Doc) (batch : Batch) (created_at : Text) (records : List (Text × Fields))
      → IsConsistent env db
      → Ensures
          (λ (r : Batch × Database Doc). length r.1.log ≤ 2 ^ 64 → IsConsistent env r.1)
          (import_records env db batch created_at records)
  unfolding import_records
  import_records-keeps db batch created_at [] v = Ensures-ok _ (λ bound. v)
  import_records-keeps db batch created_at ((fingerprint, body) ∷ records) v =
      Ensures-if (is_imported fingerprint db.imported_records)
        (λ _. import_records-keeps db batch created_at records v)
        (λ _. Ensures-bind (import_one env db created_at fingerprint body) _ (λ (entry, grown) run.
          record {
            at = λ r later bound.
                let more = (import_records-Imports grown _ created_at records).at r later in
                let shorter : length grown.log ≤ length r.1.log =
                  rw more.log (omega (arith, length-append grown.log more.added)) in
                let w =
                  (import_one-keeps db created_at fingerprint body v).at _ run
                    (omega (arith, bound, shorter)) in
                (import_records-keeps grown _ created_at records w).at r later bound;
          }))

  -- After a batch, each of its fingerprints is known.
  import_records-imported :
      (db : Database Doc) (batch : Batch) (created_at : Text) (records : List (Text × Fields))
      → Ensures
          (λ (r : Batch × Database Doc).
            All (λ q. is_imported q.0 r.1.imported_records ≡ true) records)
          (import_records env db batch created_at records)
  unfolding import_records
  import_records-imported db batch created_at [] = Ensures-ok _ tt
  import_records-imported db batch created_at ((fingerprint, body) ∷ records) = record {
    at = λ r h. elim (Bool-cases (is_imported fingerprint db.imported_records)) [
      | inl e ↦
          let run = rw (e, import_records) at h in
          let more = (import_records-Imports db batch created_at records).at r run in
          (
            rw more.imported_records
                (is_imported-append fingerprint db.imported_records more.rows e),
            (import_records-imported db batch created_at records).at r run,
          )
      | inr e ↦
          let ((entry, grown), first, run) =
            bind-eq-ok (import_one env db created_at fingerprint body) _
              (rw (e, import_records) at h) in
          let one = (import_one-Imports db created_at fingerprint body).at _ first in
          let more = (import_records-Imports grown _ created_at records).at r run in
          (
            rw more.imported_records
                (is_imported-append fingerprint grown.imported_records more.rows one.1),
            (import_records-imported grown _ created_at records).at r run,
          )
    ];
  }

  -- Records whose fingerprints are all known are passed over.
  pub import_records-known :
      (db : Database Doc) (batch : Batch) (created_at : Text) (records : List (Text × Fields))
      → All (λ q. is_imported q.0 db.imported_records ≡ true) records
      → import_records env db batch created_at records ≡ ok (batch, db)
  unfolding import_records
  import_records-known db batch created_at [] h = refl
  import_records-known db batch created_at ((fingerprint, body) ∷ records) h =
      rw h.0 (import_records-known db batch created_at records h.1)

  -- The records of a batch that was imported are all passed over when the same batch comes again:
  -- nothing is imported and no table changes.
  pub import_records-again :
      (db db' : Database Doc) (batch : Batch) (created_at later : Text)
      (records : List (Text × Fields))
      → import_records env db no_batch created_at records ≡ ok (batch, db')
      → import_records env db' no_batch later records ≡ ok (no_batch, db')
  import_records-again db db' batch created_at later records h =
      import_records-known db' no_batch later records
        ((import_records-imported db no_batch created_at records).at _ h)

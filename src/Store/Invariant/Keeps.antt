-- ===== src/Store/Invariant/Keeps.antt =====
-- An append that returns leaves consistent tables consistent, one row longer.
use curator_skill_registry.Base.{
  ◌+◌, ◌^◌, ◌<◌, ◌≡◌, sym, ap, ◌∙◌, true, Text, Bytes, Outcome, ok, err, Ensures, length,
  length-append, bind-eq-ok, then-eq-ok, ensure-eq-ok, ok-injective,
}
use curator_skill_registry.Json.{Fields}
use curator_skill_registry.Protocol.{valid_hash_version}
use curator_skill_registry.Json.Canonical.{CanonicalError}
use curator_skill_registry.Signing.{Env, canonical_bytes}
use curator_skill_registry.Store.{LogEntry, Database, value_error}
use curator_skill_registry.Store.Append.{Columns, append_locked, of_canonical, require_columns}
use curator_skill_registry.Store.Invariant.{IsConsistent}
use curator_skill_registry.Store.Invariant.Preserved.{append_locked-IsConsistent}

of_canonical-eq-ok :
    {A : Type 0} (o : Outcome CanonicalError A) {a : A} → of_canonical o ≡ ok a → o ≡ ok a
unfolding of_canonical
of_canonical-eq-ok (ok a) h = cc
of_canonical-eq-ok (err e) h = cc

-- What an append that returns read: the columns, the hash version and the canonical bytes.
record Reads {Doc : Type 0} (env : Env Doc) (body : Fields) : Type 0 where
  columns : Columns
  record_bytes : Bytes
  named : require_columns body ≡ ok columns
  version : valid_hash_version body ≡ true
  canonical : canonical_bytes env body ≡ ok record_bytes

module _ {Doc : Type 0} (env : Env Doc) where
  append_locked-Reads :
      (db : Database Doc) (body : Fields) (created_at : Text) {r : LogEntry × Database Doc}
      → append_locked env db body created_at ≡ ok r
      → Reads env body
  unfolding append_locked
  append_locked-Reads db body created_at h =
      let (columns, named, h1) = bind-eq-ok (require_columns body) _ h in
      let (version, h2) = then-eq-ok _ _ h1 in
      let (record_bytes, canonical, h3) =
        bind-eq-ok (of_canonical (canonical_bytes env body)) _ h2 in
      record {
        columns = columns;
        record_bytes = record_bytes;
        named = named;
        version = ensure-eq-ok _ value_error version;
        canonical = of_canonical-eq-ok (canonical_bytes env body) canonical;
      }

  pub append_locked-keeps :
      (db : Database Doc) (body : Fields) (created_at : Text)
      → IsConsistent env db
      → length db.log < 2 ^ 64
      → Ensures
          (λ (r : LogEntry × Database Doc).
            IsConsistent env r.1 × (length r.1.log ≡ length db.log + 1))
          (append_locked env db body created_at)
  append_locked-keeps db body created_at v bound = record {
    at = λ r h.
        let reads = append_locked-Reads db body created_at h in
        let (entry, db', run, kept, log, _, _) =
          append_locked-IsConsistent env db v body reads.record_bytes reads.columns created_at
            reads.named reads.canonical reads.version bound in
        let same : (entry, db') ≡ r = ok-injective (sym run ∙ h) in
        rw (ap (λ p. p.1) (sym same), log) (kept, length-append db.log _);
  }

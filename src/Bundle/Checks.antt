-- ===== src/Bundle/Checks.antt =====
-- The checks of an import accept the log that a consistent store exports.
use curator_skill_registry.Base.{
  All-map, ℕ, suc, ◌≡◌, refl, sym, ap, ◌∙◌, subst, Bool, true, List, [], ◌∷◌, none, some, Text,
  codes, text_eq, text_eq_refl, from_hex, ◌==◌, ◌&&◌, not, map, length, length-map, All, Outcome,
  ok, err, ok-injective, bind-eq-ok, arith,
}
use curator_skill_registry.Json.{Fields, pos, int, str, obj, get, put, equals_nat}
use curator_skill_registry.Signing.{Env}
use curator_skill_registry.Signing.PublicKey.{Base64}
use curator_skill_registry.Signing.Key.{Ed25519, is_text, sign_record, verify_signed}
use curator_skill_registry.Protocol.Patterns.{Unicode}
use curator_skill_registry.Protocol.Records.{validate_record}
use curator_skill_registry.Countersign.Reads.{get-sign_record}
use curator_skill_registry.Store.{LogRow, LogEntry, Database, SnapshotBoundary, genesis}
use curator_skill_registry.Store.Append.{chain_hash}
use curator_skill_registry.Store.Boundary.{snapshot_boundary}
use curator_skill_registry.Store.Pages.{entry_from_row, entries_from_rows, log_entries}
use curator_skill_registry.Store.Invariant.{IsConsistent, RowIsValid, Chain, leaf_of, leaves}
use curator_skill_registry.Store.Invariant.Rows.{leaf_of-RowIsValid, chain_end}
use curator_skill_registry.Bundle.{
  BundleError, Checked, lifted, canonical, snapshot_body, bundle_root, check_record, check_records,
  check_log, build_snapshot, leaf_bytes,
}
use curator_skill_registry.Bundle.Boundary.{live_boundary-log, log_entries-rows}

-- What a signed snapshot says of its boundary.
snapshot_body-fields :
    (b : SnapshotBoundary)
    → (get (codes "log_size") (snapshot_body b) ≡ some (int (pos b.log_size)))
      × (get (codes "head") (snapshot_body b) ≡ some (str b.head))
      × (get (codes "merkle_root") (snapshot_body b) ≡ some (str b.merkle_root))
unfolding snapshot_body put get text_eq
snapshot_body-fields b = (refl, refl, refl)

pub lifted-ok :
    {E A : Type 0} (raise : E → BundleError) (o : Outcome E A) {a : A}
    → lifted raise o ≡ ok a
    → o ≡ ok a
unfolding lifted
lifted-ok raise (ok b) h = ap ok (ok-injective h)
lifted-ok raise (err e) h = cc

module _ {Doc : Type 0} (env : Env Doc) where
  entry_from_row-body :
      (r : LogRow Doc) {prev : Text} (v : RowIsValid env prev r) {e : LogEntry}
      → entry_from_row env r ≡ ok e
      → e.record_fields ≡ v.body
  unfolding entry_from_row
  entry_from_row-body r v h =
      let run = rw (entry_from_row, v.stored) at h in
      ap (λ e. e.record_fields) (sym (ok-injective run))

module _ (base64 : Base64) (ed : Ed25519) {Doc : Type 0} (env : Env Doc) (unicode : Unicode)
    (float_eq : Text → ℕ → Bool) (upstream : Text) (schema_one : Bool) where
  -- A record that an import accepts on its own.
  pub record Accepts (body : Fields) : Type 0 where
    pub valid : validate_record base64 unicode (obj body) ≡ ok body
    pub framing : not (schema_one && equals_nat float_eq (get (codes "hash_version") body) 2) ≡ true
    pub signed : verify_signed base64 ed env upstream body ≡ true

  check_record-row :
      (r : LogRow Doc) {prev : Text} (v : RowIsValid env prev r)
      → Accepts v.body
      → check_record base64 ed env unicode float_eq upstream schema_one prev (obj v.body)
        ≡ ok (v.body, leaf_of r, r.entry_hash)
  unfolding check_record lifted leaf_bytes
  check_record-row r {prev} v a =
      let leaf : from_hex (chain_hash env prev v.record_bytes) ≡ some (leaf_of r) =
        ap from_hex (sym v.entry_hash) ∙ (leaf_of-RowIsValid env r v).1 in
      rw (a.valid, a.framing, a.signed, v.canonical, leaf)
        (ap (λ t. ok (v.body, leaf_of r, t)) (sym v.entry_hash))

  check_records-rows :
      (prev : Text) (rs : List (LogRow Doc)) {entries : List LogEntry}
      → Chain env prev rs
      → entries_from_rows env rs ≡ ok entries
      → All (λ (e : LogEntry). Accepts e.record_fields) entries
      → check_records base64 ed env unicode float_eq upstream schema_one prev
          (map (λ (e : LogEntry). obj e.record_fields) entries)
        ≡ ok (record {
          verified = map (λ (e : LogEntry). e.record_fields) entries;
          entry_hashes = leaves rs;
          head = chain_end env prev rs;
        })
  unfolding check_records entries_from_rows
  check_records-rows prev [] {entries} c h a =
      subst
        (λ (es : List LogEntry).
          check_records base64 ed env unicode float_eq upstream schema_one prev
            (map (λ (e : LogEntry). obj e.record_fields) es)
          ≡ ok (record {
            verified = map (λ (e : LogEntry). e.record_fields) es;
            entry_hashes = [];
            head = prev;
          }))
        (ok-injective h) refl
  check_records-rows prev (r ∷ rs) {entries} c h a =
      let (e, first, h1) = bind-eq-ok (entry_from_row env r) _ h in
      let (es, more, done) = bind-eq-ok (entries_from_rows env rs) _ h1 in
      let both : entries ≡ e ∷ es = sym (ok-injective done) in
      let a' = subst (All (λ (e : LogEntry). Accepts e.record_fields)) both a in
      let body = entry_from_row-body env r c.0 first in
      let one = check_record-row r c.0 (subst Accepts body a'.0) in
      let rest = check_records-rows r.entry_hash rs c.1 more a'.1 in rw (both, body, one, rest)

  build_snapshot-signed :
      (db : Database Doc) (key : ed.Private) {snapshot : Fields} {b : SnapshotBoundary}
      → build_snapshot base64 ed env db key ≡ ok snapshot
      → snapshot_boundary db none ≡ ok b
      → sign_record base64 ed env key (snapshot_body b) ≡ ok snapshot
  unfolding build_snapshot lifted
  build_snapshot-signed db key h e = lifted-ok canonical _ (rw (build_snapshot, e, lifted) at h)

  check_log-snapshot :
      (db : Database Doc) (key : ed.Private) {snapshot : Fields} (bodies : List Fields)
      → IsConsistent env db
      → build_snapshot base64 ed env db key ≡ ok snapshot
      → length bodies ≡ length db.log
      → check_log base64 ed env unicode float_eq upstream snapshot (record {
        verified = bodies;
        entry_hashes = leaves db.log;
        head = chain_end env genesis db.log;
      })
        ≡ ok tt
  unfolding check_log equals_nat is_text text_eq
  check_log-snapshot db key {snapshot} bodies v h size =
      let (b, d) = live_boundary-log env db v in
      let run = build_snapshot-signed db key h d.live in
      let (n, head, root) = snapshot_body-fields b in
      let log_size : get (codes "log_size") snapshot ≡ some (int (pos (length bodies))) =
        get-sign_record base64 ed env key (codes "log_size") (snapshot_body b) run refl
        ∙ n
        ∙ ap (λ k. some (int (pos k))) (d.log_size ∙ sym size) in
      let head' : get (codes "head") snapshot ≡ some (str (chain_end env genesis db.log)) =
        get-sign_record base64 ed env key (codes "head") (snapshot_body b) run refl
        ∙ head
        ∙ ap (λ t. some (str t)) d.head in
      let root' : get (codes "merkle_root") snapshot
          ≡ some (str (bundle_root env.sha256 (leaves db.log))) =
        get-sign_record base64 ed env key (codes "merkle_root") (snapshot_body b) run refl
        ∙ root
        ∙ ap (λ t. some (str t)) d.root in
      let same : (length bodies == length bodies) ≡ true = ground arith in
      rw (
        log_size,
        same,
        head',
        text_eq_refl (chain_end env genesis db.log),
        root',
        text_eq_refl (bundle_root env.sha256 (leaves db.log)),
      )

  entries_from_rows-length :
      (rs : List (LogRow Doc)) {entries : List LogEntry}
      → entries_from_rows env rs ≡ ok entries
      → length entries ≡ length rs
  unfolding entries_from_rows
  entries_from_rows-length [] h = sym (ap length (ok-injective h))
  entries_from_rows-length (r ∷ rs) h =
      let (e, _, h1) = bind-eq-ok (entry_from_row env r) _ h in
      let (es, more, done) = bind-eq-ok (entries_from_rows env rs) _ h1 in
      sym (ap length (ok-injective done)) ∙ ap suc (entries_from_rows-length rs more)

  -- From a store with consistent tables, take all log entries and the signed snapshot of the live
  -- boundary. If each record alone is valid, fits the schema and verifies under the upstream key,
  -- then the loop of `import_bundle` over the records succeeds with the leaves of the log, and
  -- the size, head and Merkle root of the snapshot agree with what it computed.
  pub check_records-exported :
      (db : Database Doc) (key : ed.Private) {entries : List LogEntry} {snapshot : Fields}
      → IsConsistent env db
      → log_entries env db 0 none ≡ ok entries
      → build_snapshot base64 ed env db key ≡ ok snapshot
      → All Accepts (map (λ (e : LogEntry). e.record_fields) entries)
      → (checked : Checked) × (check_records base64 ed env unicode float_eq upstream schema_one
            genesis
            (map (λ (e : LogEntry). obj e.record_fields) entries)
          ≡ ok checked)
        × (checked.verified ≡ map (λ (e : LogEntry). e.record_fields) entries)
        × (checked.entry_hashes ≡ leaves db.log)
        × (check_log base64 ed env unicode float_eq upstream snapshot checked ≡ ok tt)
  check_records-exported db key {entries} v read built good =
      let rows = log_entries-rows env db v read in
      let bodies = map (λ (e : LogEntry). e.record_fields) entries in
      let size : length bodies ≡ length db.log =
        length-map (λ (e : LogEntry). e.record_fields) entries
        ∙ entries_from_rows-length db.log rows in
      (
        record {
          verified = bodies;
          entry_hashes = leaves db.log;
          head = chain_end env genesis db.log;
        },
        check_records-rows genesis db.log v.chain rows
            (All-map Accepts (λ (e : LogEntry). e.record_fields) entries good),
        refl,
        refl,
        check_log-snapshot db key bodies v built size,
      )

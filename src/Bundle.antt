-- ===== src/Bundle.antt =====
-- src/csk_registry/bundle.py and src/csk_registry/snapshot.py: signed snapshots, and the bundles
-- that carry a registry's log to another one.
pub mod Boundary
pub mod Checks
pub mod Import
pub mod Validated
pub mod Safety
use curator_skill_registry.Base.{
  ℕ, Bool, true, false, List, [], ◌∷◌, Option, none, some, Text, codes, text_eq, Bytes, hex,
  from_hex, ◌==◌, ◌&&◌, ◌||◌, not, if◌then◌else◌, length, take, all, map, any, Outcome, ok, err,
  ◌>>=◌, ◌>>◌, ensure,
}
use curator_skill_registry.Json.{
  Value, Fields, ℤ, pos, null, int, str, arr, obj, end, get, has, put, keys, items, of_list,
  equals_nat,
}
use curator_skill_registry.Json.Canonical.{CanonicalError}
use curator_skill_registry.Merkle.{merkle_root}
use curator_skill_registry.Signing.{Env, canonical_bytes}
use curator_skill_registry.Signing.PublicKey.{Base64, parse_public_key}
use curator_skill_registry.Signing.Key.{
  Ed25519, key_id_of, is_text, public_pinned, sign_record, verify_signed,
}
use curator_skill_registry.Protocol.{is_int}
use curator_skill_registry.Protocol.Patterns.{Unicode, one_of}
use curator_skill_registry.Protocol.Records.{ProtocolError, validate_record, validate_snapshot}
use curator_skill_registry.Countersign.{value_or, ImportError}
use curator_skill_registry.Store.{
  LogEntry, Database, SnapshotBoundary, StoreError, UpstreamHighWater, genesis,
}
use curator_skill_registry.Store.Append.{chain_hash}
use curator_skill_registry.Store.Boundary.{snapshot_boundary}
use curator_skill_registry.Store.Pages.{log_entries}

-- What `export_bundle` and `import_bundle` raise.
pub data BundleError : Type 0 where
  bundle_fields bundle_schema bundle_key_missing snapshot_unverified : BundleError
  key_mismatch key_encoding records_missing framing_mismatch record_unverified : BundleError
  log_mismatch root_mismatch digest_encoding : BundleError
  protocol : ProtocolError → BundleError
  canonical : CanonicalError → BundleError
  import_failed : ImportError → BundleError
  store_failed : StoreError → BundleError
  -- `UpstreamRollbackError` and `UpstreamInconsistentError`
  rollback : Text → UpstreamHighWater → UpstreamHighWater → BundleError
  inconsistent : Text → UpstreamHighWater → UpstreamHighWater → BundleError

unfoldable pub lifted : {E A : Type 0} → (E → BundleError) → Outcome E A → Outcome BundleError A
lifted raise (ok a) = ok a
lifted raise (err e) = err (raise e)

-- the body that `build_snapshot` signs
unfoldable pub snapshot_body : SnapshotBoundary → Fields
snapshot_body selected = put (codes "schema_version") (int (pos 1)) (
    put (codes "merkle_root") (str selected.merkle_root) (
      put (codes "log_size") (int (pos selected.log_size)) (
        put (codes "head") (str selected.head) (
          put (codes "version") (int (pos selected.version))
            (put (codes "created_at") (str selected.created_at) end)))))

-- `bytes.fromhex(entry_hash)`
unfoldable pub leaf_bytes : Option Bytes → Outcome BundleError Bytes
leaf_bytes none = err digest_encoding
leaf_bytes (some leaf) = ok leaf

-- `_merkle_root(leaves)`
unfoldable pub bundle_root : (Bytes → Bytes) → List Bytes → Text
bundle_root sha256 [] = genesis
bundle_root sha256 (leaf ∷ leaves) = hex (merkle_root sha256 (leaf ∷ leaves))

-- `embedded_key is not None`, then a text that encodes the same key
unfoldable pub check_embedded :
    Base64 → Option Bytes → Option Value → Outcome BundleError (Unit {0})
check_embedded base64 pinned none = ok tt
check_embedded base64 pinned (some null) = ok tt
check_embedded base64 pinned (some (str t)) = elim (parse_public_key base64 t) [
  | none ↦ err key_encoding
  | some embedded ↦ elim pinned [
    | none ↦ err key_encoding
    | some public ↦ ensure (text_eq embedded public) key_mismatch
  ]
]
check_embedded base64 pinned (some _) = err key_mismatch

unfoldable pub record_list : Option Value → Outcome BundleError (List Value)
record_list (some (arr xs)) = ok (items xs)
record_list _ = err records_missing

-- What the loop over the records has gathered.
pub record Checked : Type 0 where
  pub verified : List Fields
  pub entry_hashes : List Bytes
  pub head : Text

module _ (base64 : Base64) (ed : Ed25519) {Doc : Type 0} (env : Env Doc) where
  -- `build_snapshot(store, signing_key)`
  unfoldable pub build_snapshot : Database Doc → ed.Private → Outcome BundleError Fields
  build_snapshot db key = do
    selected ← lifted store_failed (snapshot_boundary db none)
    lifted canonical (sign_record base64 ed env key (snapshot_body selected))

  -- `export_bundle(store, signing_key)`: the entries are read from the tables `db`; `db_later` is
  -- what they are when `build_snapshot` takes the lock again, and an append may stand between
  unfoldable pub export_bundle :
      Database Doc → Database Doc → ed.Private → Outcome BundleError Fields
  export_bundle db db_later key = do
    entries ← lifted store_failed (log_entries env db 0 none)
    snapshot ← build_snapshot db_later key
    let two = any (λ e. is_int (get (codes "hash_version") e.record_fields) 2) entries
    ok (
        put (codes "schema_version") (int (pos (if two then 2 else 1))) (
          put (codes "records") (arr (of_list (map (λ e. obj e.record_fields) entries))) (
            put (codes "snapshot") (obj snapshot)
              (put (codes "public_key") (str (public_pinned base64 ed key)) end))))

  module _ (unicode : Unicode) (float_eq : Text → ℕ → Bool) (upstream : Text) where
    -- one turn of the loop over the records
    unfoldable pub check_record : Bool → Text → Value → Outcome BundleError (Fields × Bytes × Text)
    check_record schema_one previous value = do
      checked ← lifted protocol (validate_record base64 unicode value)
      ensure (not (schema_one && equals_nat float_eq (get (codes "hash_version") checked) 2))
          framing_mismatch
      ensure (verify_signed base64 ed env upstream checked) record_unverified
      record_bytes ← lifted canonical (canonical_bytes env checked)
      let entry_hash = chain_hash env previous record_bytes
      leaf ← leaf_bytes (from_hex entry_hash)
      ok (checked, leaf, entry_hash)

    -- the loop, from the hash `previous` on
    unfoldable pub check_records : Bool → Text → List Value → Outcome BundleError Checked
    check_records schema_one previous [] =
        ok (record { verified = []; entry_hashes = []; head = previous })
    check_records schema_one previous (value ∷ values) = do
      (checked, leaf, entry_hash) ← check_record schema_one previous value
      rest ← check_records schema_one entry_hash values
      ok (record {
        verified = checked ∷ rest.verified;
        entry_hashes = leaf ∷ rest.entry_hashes;
        head = rest.head;
      })

    -- the comparison with the snapshot
    unfoldable pub check_log : Fields → Checked → Outcome BundleError (Unit {0})
    check_log snapshot checked = do
      ensure
          (equals_nat float_eq (get (codes "log_size") snapshot) (length checked.verified)
            && is_text (get (codes "head") snapshot) checked.head)
          log_mismatch
      ensure
          (is_text (get (codes "merkle_root") snapshot)
            (bundle_root env.sha256 checked.entry_hashes))
          root_mismatch

    -- the fields of the bundle, its signed snapshot and its key
    unfoldable pub check_snapshot : Fields → Outcome BundleError Fields
    check_snapshot bundle = do
      ensure
          (all
            (one_of (
              codes "schema_version"
              ∷ codes "records"
              ∷ codes "snapshot"
              ∷ codes "public_key"
              ∷ []))
            (keys bundle))
          bundle_fields
      let schema = get (codes "schema_version") bundle
      ensure (is_int schema 1 || is_int schema 2) bundle_schema
      ensure (not (is_int schema 2 && not (has (codes "public_key") bundle))) bundle_key_missing
      snapshot ←
          lifted protocol
            (validate_snapshot base64 float_eq (value_or null (get (codes "snapshot") bundle)))
      ensure (verify_signed base64 ed env upstream snapshot) snapshot_unverified
      check_embedded base64 (parse_public_key base64 upstream) (get (codes "public_key") bundle)
      ok snapshot

    -- the checks of `import_bundle`, up to the countersigning
    unfoldable pub check_bundle : Value → Outcome BundleError (Fields × Checked)
    check_bundle (obj bundle) = do
      snapshot ← check_snapshot bundle
      records ← record_list (get (codes "records") bundle)
      checked ← check_records (is_int (get (codes "schema_version") bundle) 1) genesis records
      check_log snapshot checked
      ok (snapshot, checked)
    check_bundle _ = err bundle_fields

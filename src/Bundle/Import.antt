-- ===== src/Bundle/Import.antt =====
-- `import_bundle`: the checks, the countersigning and the transaction of the store.
use curator_skill_registry.Base.{
  ℕ, Bool, List, [], none, some, Text, codes, Outcome, ok, err, ◌>>=◌,
}
use curator_skill_registry.Json.{Value, Fields, get, as_nat, as_str}
use curator_skill_registry.Signing.{Env}
use curator_skill_registry.Signing.PublicKey.{Base64, parse_public_key}
use curator_skill_registry.Signing.Key.{Ed25519, key_id_of}
use curator_skill_registry.Protocol.Patterns.{Unicode}
use curator_skill_registry.Countersign.{countersign_imports}
use curator_skill_registry.Store.{
  StoreError, UpstreamHighWater, import_upstream_rollback, import_upstream_inconsistent,
  high_water_conflict,
}
use curator_skill_registry.Store.Transaction.{Store}
use curator_skill_registry.Store.Imports.{UpstreamImport, append_upstream_import}
use curator_skill_registry.Bundle.{
  BundleError, lifted, import_failed, store_failed, rollback, inconsistent, key_encoding,
  check_bundle,
}

-- `int(offered[...])` and `str(offered[...])`, of fields that the validation has found
unfoldable pub nat_field : Text → Fields → ℕ
nat_field key snapshot = elim (as_nat (get key snapshot)) [ none ↦ 0 | some n ↦ n ]

unfoldable pub text_field : Text → Fields → Text
text_field key snapshot = elim (as_str (get key snapshot)) [ none ↦ [] | some t ↦ t ]

-- `advance`
unfoldable pub advance_of : Text → Fields → Text → UpstreamHighWater
advance_of key_id snapshot now = record {
  key_id = key_id;
  version = nat_field (codes "version") snapshot;
  log_size = nat_field (codes "log_size") snapshot;
  head = text_field (codes "head") snapshot;
  merkle_root = text_field (codes "merkle_root") snapshot;
  updated_at = now;
}

-- what becomes of an error of the store
unfoldable pub refusal : Text → StoreError → BundleError
refusal key_id (high_water_conflict import_upstream_inconsistent persisted offered) =
    inconsistent key_id persisted offered
refusal key_id (high_water_conflict import_upstream_rollback persisted offered) =
    rollback key_id persisted offered
refusal key_id e = store_failed e

-- `_upstream_key_id(upstream_public_key)`
unfoldable pub upstream_key_id : {Doc : Type 0} → Base64 → Env Doc → Text → Outcome BundleError Text
upstream_key_id base64 env upstream = elim (parse_public_key base64 upstream) [
  | none ↦ err key_encoding
  | some public ↦ ok (key_id_of env public)
]

-- What the transaction is given.
pub record Offer : Type 0 where
  pub key_id : Text
  pub batch : List (Text × Fields)
  pub advance : UpstreamHighWater

-- the number of records that were imported, or the error
unfoldable pub answered :
    {Doc : Type 0}
    → Text
    → Outcome StoreError UpstreamImport × Store Doc
    → Outcome BundleError ℕ × Store Doc
answered key_id (ok r, s) = (ok r.batch.imported, s)
answered key_id (err e, s) = (err (refusal key_id e), s)

module _ (base64 : Base64) (ed : Ed25519) {Doc : Type 0} (env : Env Doc) (unicode : Unicode)
    (float_eq : Text → ℕ → Bool) (upstream : Text) where
  -- everything before the transaction
  unfoldable pub prepare : ed.Private → Value → Text → Outcome BundleError Offer
  prepare key bundle utc_now = do
    (snapshot, checked) ← check_bundle base64 ed env unicode float_eq upstream bundle
    key_id ← upstream_key_id base64 env upstream
    batch ← lifted import_failed (countersign_imports base64 ed env key checked.verified)
    ok (record { key_id = key_id; batch = batch; advance = advance_of key_id snapshot utc_now })

  unfoldable pub submit :
      Store Doc → ℕ → Text → Bool → Outcome BundleError Offer → Outcome BundleError ℕ × Store Doc
  submit s now utc_now older (err e) = (err e, s)
  submit s now utc_now older (ok offer) =
      answered offer.key_id
        (append_upstream_import env s now offer.batch utc_now offer.advance older)

  -- `import_bundle(store, signing_key, bundle, upstream_public_key=..., accept_older_upstream=...)`
  unfoldable pub import_bundle :
      Store Doc → ℕ → ed.Private → Value → Text → Bool → Outcome BundleError ℕ × Store Doc
  import_bundle s now key bundle utc_now older =
      submit s now utc_now older (prepare key bundle utc_now)

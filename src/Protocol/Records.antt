-- ===== src/Protocol/Records.antt =====
-- `validate_signature`, `validate_record` and `validate_snapshot` of src/csk_registry/protocol.py.
pub mod Appendable
use curator_skill_registry.Base.{
  ℕ, Bool, true, false, List, [], ◌∷◌, Option, none, some, Text, codes, text_eq, hex256, Bytes, ltb,
  leb, ◌==◌, ◌&&◌, ◌||◌, not, if◌then◌else◌, length, all, Outcome, ok, err, ◌>>=◌, ◌>>◌, ensure,
}
use curator_skill_registry.Json.{
  Value, Fields, str, arr, obj, get, keys, items, has_exactly, equals_nat, as_str, as_nat,
}
use curator_skill_registry.Json.Canonical.{
  CanonicalError, too_deep, not_canonical, max_safe_integer, validate_ccj,
}
use curator_skill_registry.Signing.{sig_key}
use curator_skill_registry.Signing.PublicKey.{Base64}
use curator_skill_registry.Signing.Key.{envelope_keys, is_text}
use curator_skill_registry.Protocol.{valid_hash_version}
use curator_skill_registry.Protocol.Patterns.{
  Unicode, matches_identifier, matches_commit, matches_sha256, matches_key_id, matches_timestamp,
  one_of, portable_component, valid_source_identity,
}

-- The messages of `ProtocolError`; `json_depth` is a `JSONDepthError`, `canonical_error` the
-- `CanonicalError` that stays one, and `unhashable` the TypeError of a set looking for a list or
-- a dict.
pub data ProtocolError : Type 0 where
  not_object unknown_fields hash_version record_name source_identity record_commit : ProtocolError
  record_hash record_status record_audit endorsements_not_array endorsement_form : ProtocolError
  endorsement_endorser envelope_form envelope_algorithm envelope_key_id : ProtocolError
  envelope_signature snapshot_fields snapshot_hashes snapshot_sizes snapshot_time : ProtocolError
  json_depth canonical_error unhashable : ProtocolError

-- `_canonicalize_validated(value)`
unfoldable pub canonicalize_error :
    Outcome CanonicalError (Unit {0}) → Outcome ProtocolError (Unit {0})
canonicalize_error (ok u) = ok u
canonicalize_error (err too_deep) = err json_depth
canonicalize_error (err not_canonical) = err canonical_error

unfoldable pub canonicalize_validated : Value → Outcome ProtocolError (Unit {0})
canonicalize_validated value = canonicalize_error (validate_ccj value 0)

-- a text that passes a test
unfoldable pub text_that : (Text → Bool) → Option Value → Bool
text_that test (some (str t)) = test t
text_that test _ = false

-- `record.get("status") not in STATUSES`
abbrev pub statuses : List Text
statuses = codes "audited" ∷ codes "revoked" ∷ codes "deprecated" ∷ codes "pending" ∷ []

unfoldable pub validate_status : Option Value → Outcome ProtocolError (Unit {0})
validate_status (some (str t)) = ensure (one_of statuses t) record_status
validate_status (some (arr xs)) = err unhashable
validate_status (some (obj fs)) = err unhashable
validate_status _ = err record_status

abbrev pub record_keys : List Text
record_keys =
    codes "schema_version"
    ∷ codes "hash_version"
    ∷ codes "name"
    ∷ codes "source_identity"
    ∷ codes "commit"
    ∷ codes "content_sha256"
    ∷ codes "status"
    ∷ codes "audit"
    ∷ codes "endorsements"
    ∷ codes "sig"
    ∷ []

abbrev pub snapshot_keys : List Text
snapshot_keys =
    codes "schema_version"
    ∷ codes "merkle_root"
    ∷ codes "log_size"
    ∷ codes "head"
    ∷ codes "version"
    ∷ codes "created_at"
    ∷ codes "sig"
    ∷ []

-- `isinstance(audit, dict)`, where a missing one is an empty dict
unfoldable pub is_audit : Option Value → Bool
is_audit none = true
is_audit (some (obj fs)) = true
is_audit (some _) = false

-- `record.get("endorsements", [])`, where only a list will do
unfoldable pub endorsement_list : Option Value → Outcome ProtocolError (List Value)
endorsement_list none = ok []
endorsement_list (some (arr xs)) = ok (items xs)
endorsement_list (some _) = err endorsements_not_array

-- `0 <= log_size <= version <= MAX_SAFE_INTEGER` on integers that are no Booleans
unfoldable pub sizes_hold : Option ℕ → Option ℕ → Bool
sizes_hold (some log_size) (some version) = leb log_size version && leb version max_safe_integer
sizes_hold _ _ = false

module _ (base64 : Base64) where
  -- 64 bytes in canonical base64
  unfoldable pub is_signature : Text → Bool
  is_signature t = elim (base64.decode t) [
    | none ↦ false
    | some raw ↦ length raw == 64 && text_eq (base64.encode raw) t
  ]

  -- `validate_signature(value)`
  unfoldable pub validate_signature : Option Value → Outcome ProtocolError (Unit {0})
  validate_signature (some (obj fields)) = do
    ensure (has_exactly envelope_keys fields) envelope_form
    ensure (is_text (get (codes "algorithm") fields) (codes "ed25519")) envelope_algorithm
    ensure (text_that matches_key_id (get (codes "key_id") fields)) envelope_key_id
    ensure (text_that is_signature (get (codes "signature") fields)) envelope_signature
  validate_signature _ = err envelope_form

  -- one endorsement, and the loop over them
  unfoldable pub validate_endorsement : Value → Outcome ProtocolError (Unit {0})
  validate_endorsement (obj fields) = do
    ensure (has_exactly (codes "endorser" ∷ codes "sig" ∷ []) fields) endorsement_form
    ensure
        (text_that (λ t. not (length t == 0) && not (ltb 8192 (length t)))
          (get (codes "endorser") fields))
        endorsement_endorser
    validate_signature (get sig_key fields)
  validate_endorsement _ = err endorsement_form

  unfoldable pub validate_endorsements : List Value → Outcome ProtocolError (Unit {0})
  validate_endorsements [] = ok tt
  validate_endorsements (v ∷ vs) = validate_endorsement v >> validate_endorsements vs

  module _ (unicode : Unicode) where
    -- the checks of the columns of a record
    unfoldable pub validate_columns : Fields → Outcome ProtocolError (Unit {0})
    validate_columns body = do
      ensure
          (text_that
            (λ t. not (ltb 128 (length t)) && matches_identifier t && portable_component unicode t)
            (get (codes "name") body))
          record_name
      ensure (text_that (valid_source_identity unicode) (get (codes "source_identity") body))
          source_identity
      ensure (text_that matches_commit (get (codes "commit") body)) record_commit
      ensure (text_that matches_sha256 (get (codes "content_sha256") body)) record_hash
      validate_status (get (codes "status") body)

    -- `validate_record(record)`
    unfoldable pub validate_record : Value → Outcome ProtocolError Fields
    validate_record (obj body) = do
      ensure (all (one_of record_keys) (keys body)) unknown_fields
      ensure (valid_hash_version body) hash_version
      validate_columns body
      ensure (is_audit (get (codes "audit") body)) record_audit
      validate_signature (get sig_key body)
      endorsements ← endorsement_list (get (codes "endorsements") body)
      validate_endorsements endorsements
      canonicalize_validated (obj body)
      ok body
    validate_record _ = err not_object

  -- `validate_snapshot(snapshot)`
  unfoldable pub validate_snapshot : (Text → ℕ → Bool) → Value → Outcome ProtocolError Fields
  validate_snapshot float_eq (obj body) = do
    ensure
        (has_exactly snapshot_keys body
          && equals_nat float_eq (get (codes "schema_version") body) 1)
        snapshot_fields
    ensure
        (text_that hex256 (get (codes "merkle_root") body)
          && text_that hex256 (get (codes "head") body))
        snapshot_hashes
    ensure (sizes_hold (as_nat (get (codes "log_size") body)) (as_nat (get (codes "version") body)))
        snapshot_sizes
    ensure (text_that matches_timestamp (get (codes "created_at") body)) snapshot_time
    validate_signature (get sig_key body)
    canonicalize_validated (obj body)
    ok body
  validate_snapshot float_eq _ = err not_object

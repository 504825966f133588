-- ===== src/Signing.antt =====
-- src/csk_registry/signing.py: the canonical bytes that are signed and hashed.
--
-- `Env` holds what the code takes from hashlib and json. `Doc` is the type of the texts that
-- `json.dumps` writes with `sort_keys=True` and compact separators.
pub mod PublicKey
pub mod Key
use curator_skill_registry.Base.{◌≡◌, Option, some, Text, codes, Bytes, IsDigest, Outcome, ok, ◌>>◌}
use curator_skill_registry.Json.{Value, Fields, obj, without}
use curator_skill_registry.Json.Canonical.{CanonicalError, validate_ccj}

pub record Env (Doc : Type 0) : Type 0 where
  -- `hashlib.sha256(b).digest()`
  pub sha256 : Bytes → Bytes
  pub sha256-IsDigest : (b : Bytes) → IsDigest (sha256 b)
  -- `json.dumps(value, sort_keys=True, separators=(",", ":"), ensure_ascii=False)`
  pub dumps : Value → Doc
  -- `json.loads(text)`; `none` is its JSONDecodeError
  pub loads : Doc → Option Value
  pub loads-dumps : (v : Value) → loads (dumps v) ≡ some v
  -- `text.encode("utf-8")`
  pub utf8 : Doc → Bytes

abbrev pub sig_key : Text
sig_key = codes "sig"

module _ {Doc : Type 0} (env : Env Doc) where
  -- `_canonical_document(value)`
  unfoldable pub canonical_document_bytes : Value → Outcome CanonicalError Bytes
  canonical_document_bytes value = validate_ccj value 0 >> ok (env.utf8 (env.dumps value))

  -- `canonical_bytes(record)`: the record without its signature
  unfoldable pub canonical_bytes : Fields → Outcome CanonicalError Bytes
  canonical_bytes body = canonical_document_bytes (obj (without sig_key body))

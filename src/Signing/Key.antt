-- ===== src/Signing/Key.antt =====
-- `SigningKey`, `verify` and `verify_signed` of src/csk_registry/signing.py. Ed25519 of the package
-- cryptography and the codec of base64 are parameters.
pub mod Genuine
use curator_skill_registry.Base.{
  ℕ, ◌≡◌, Bool, true, false, List, [], ◌∷◌, ◌++◌, Option, none, some, Text, codes, text_eq, Bytes,
  hex, length, take, ◌==◌, ◌&&◌, if◌then◌else◌, Outcome, ok, err, ◌>>=◌,
}
use curator_skill_registry.Json.{Value, Fields, str, obj, end, get, put, without, has_exactly}
use curator_skill_registry.Json.Canonical.{CanonicalError}
use curator_skill_registry.Signing.{Env, sig_key, canonical_bytes}
use curator_skill_registry.Signing.PublicKey.{Base64, parse_public_key}

-- Ed25519: what a private key gives, and whether a raw public key verifies a signature. Without
-- its laws it may be any function.
pub record Ed25519 : Type 1 where
  pub Private : Type 0
  pub public_bytes : Private → Bytes
  pub sign : Private → Bytes → Bytes
  -- `from_public_bytes(raw).verify(signature, message)`; `false` is an exception of either call
  pub verify : Bytes → Bytes → Bytes → Bool

-- The lengths of keys and signatures, and that a signature verifies under its key.
pub record IsGenuine (ed : Ed25519) : Type 0 where
  pub length-public_bytes : (k : ed.Private) → length (ed.public_bytes k) ≡ 32
  pub length-sign : (k : ed.Private) (m : Bytes) → length (ed.sign k m) ≡ 64
  pub verify-sign :
      (k : ed.Private) (m : Bytes) → ed.verify (ed.public_bytes k) (ed.sign k m) m ≡ true

-- Decoding what was encoded gives it back.
pub record RoundTrips (base64 : Base64) : Type 0 where
  pub decode-encode : (b : Bytes) → base64.decode (base64.encode b) ≡ some b

-- `hashlib.sha256(public).hexdigest()[:16]`
unfoldable pub key_id_of : {Doc : Type 0} → Env Doc → Bytes → Text
key_id_of env public = take 16 (hex (env.sha256 public))

abbrev pub envelope_keys : List Text
envelope_keys = codes "algorithm" ∷ codes "key_id" ∷ codes "signature" ∷ []

-- `value == text` for a text
unfoldable pub is_text : Option Value → Text → Bool
is_text (some (str s)) t = text_eq s t
is_text _ t = false

module _ (base64 : Base64) (ed : Ed25519) where
  -- `verify(public_pinned, message, signature_b64)`
  unfoldable pub verify : Text → Bytes → Text → Bool
  verify public_pinned message signature_b64 = elim (parse_public_key base64 public_pinned) [
    | none ↦ false
    | some public ↦ elim (base64.decode signature_b64) [
      | none ↦ false
      | some signature ↦
          length signature == 64
          && text_eq (base64.encode signature) signature_b64
          && ed.verify public signature message
    ]
  ]

  -- `self.public_pinned` and `self.sign(message)`
  unfoldable pub public_pinned : ed.Private → Text
  public_pinned key = codes "ed25519:" ++ base64.encode (ed.public_bytes key)

  unfoldable pub sign : ed.Private → Bytes → Text
  sign key message = base64.encode (ed.sign key message)

  module _ {Doc : Type 0} (env : Env Doc) where
    -- the dict under "sig"
    unfoldable pub envelope : ed.Private → Bytes → Fields
    envelope key message = put (codes "key_id") (str (key_id_of env (ed.public_bytes key))) (
        put (codes "algorithm") (str (codes "ed25519"))
          (put (codes "signature") (str (sign key message)) end))

    -- `self.sign_record(body)`
    unfoldable pub sign_record : ed.Private → Fields → Outcome CanonicalError Fields
    sign_record key body = do
      message ← canonical_bytes env (without sig_key body)
      ok (put sig_key (obj (envelope key message)) (without sig_key body))

    -- `isinstance(signature, str) and verify(...)`
    unfoldable pub verify_value : Text → Bytes → Option Value → Bool
    verify_value pinned message (some (str signature)) = verify pinned message signature
    verify_value pinned message _ = false

    -- the checks of the envelope, after its keys
    unfoldable pub verify_envelope :
        Text → Option Bytes → Outcome CanonicalError Bytes → Fields → Bool
    verify_envelope pinned none canonical sig = false
    verify_envelope pinned (some public) (err e) sig = false
    verify_envelope pinned (some public) (ok canonical) sig =
        is_text (get (codes "algorithm") sig) (codes "ed25519")
        && is_text (get (codes "key_id") sig) (key_id_of env public)
        && verify_value pinned canonical (get (codes "signature") sig)

    -- `sig`, a dict with the three keys
    unfoldable pub verify_sig : Text → Fields → Option Value → Bool
    verify_sig pinned body (some (obj sig)) =
        has_exactly envelope_keys sig
        && verify_envelope pinned (parse_public_key base64 pinned) (canonical_bytes env body) sig
    verify_sig pinned body _ = false

    -- `verify_signed(public_pinned, obj)`
    unfoldable pub verify_signed : Text → Fields → Bool
    verify_signed pinned body = verify_sig pinned body (get sig_key body)

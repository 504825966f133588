-- ===== src/Keys/Retire.antt =====
-- `retire_public_key` of src/csk_registry/keys.py.
use curator_skill_registry.Base.{
  Bool, false, not, ◌&&◌, List, [], ◌∷◌, Option, none, some, Text, text_eq, Bytes, ℕ, if◌then◌else◌,
  Outcome, ok, err, ◌>>=◌, ◌>>◌, ensure,
}
use curator_skill_registry.Signing.{Env}
use curator_skill_registry.Signing.PublicKey.{Base64, parse_public_key}
use curator_skill_registry.Signing.Key.{Ed25519, key_id_of}
use curator_skill_registry.Keys.{
  KeysError, KeyProvider, Keyring, Home, Disk, put_keyring, write_public_keys, malformed_public_key,
  not_retirable, not_retained,
}
use curator_skill_registry.Keys.Rotation.{public_keys}

-- `values.remove(gone)`
unfoldable pub remove : Text → List Text → List Text
remove gone [] = []
remove gone (v ∷ vs) = if text_eq v gone then vs else v ∷ remove gone vs

module _ (base64 : Base64) (float_is : Text → ℕ → Bool) (ed : Ed25519)
    (provider : KeyProvider ed.Private) where
  module _ {Doc : Type 0} (env : Env Doc) where
    -- `[value for value in values if _key_id(value) == key_id]`
    unfoldable pub matching : Text → List Text → Outcome KeysError (List Text)
    matching key_id [] = ok []
    matching key_id (v ∷ vs) = elim (parse_public_key base64 v) [
      | none ↦ err malformed_public_key
      | some public ↦ do
        rest ← matching key_id vs
        ok (if text_eq (key_id_of env public) key_id then v ∷ rest else rest)
    ]

    abbrev is_key : Text → ed.Private → Bool
    is_key key_id key = text_eq key_id (key_id_of env (ed.public_bytes key))

    -- the staged key, where there is one, and whether it has the id
    unfoldable pub is_staged : Text → Option Bytes → Outcome KeysError Bool
    is_staged key_id none = ok false
    is_staged key_id (some pem) = do staged ← provider.load (some pem); ok (is_key key_id staged)

    unfoldable pub the_match : List Text → Outcome KeysError Text
    the_match (value ∷ []) = ok value
    the_match _ = err not_retained

    -- `retire_public_key(home, key_id)`: the key, and the keyring without it
    unfoldable pub retired : Home → Text → Outcome KeysError (Text × Keyring)
    retired home key_id = do
      active ← provider.load home.active
      staged ← is_staged key_id home.next
      ensure (not (is_key key_id active) && not staged) not_retirable
      values ← public_keys base64 float_is ed provider home active
      matches ← matching key_id values
      value ← the_match matches
      ring ← write_public_keys base64 float_is (remove value values)
      ok (value, ring)

    unfoldable pub retire_written :
        Text → Outcome KeysError (Unit {0}) × Home → Outcome KeysError Text × Home
    retire_written value (err e, home) = (err e, home)
    retire_written value (ok tt, home) = (ok value, home)

    unfoldable pub retire_ring :
        Home → Disk → Outcome KeysError (Text × Keyring) → Outcome KeysError Text × Home
    retire_ring home d (err e) = (err e, home)
    retire_ring home d (ok (value, ring)) =
        retire_written value (put_keyring home d.ring_write (ok ring))

    unfoldable pub retire_public_key : Home → Disk → Text → Outcome KeysError Text × Home
    retire_public_key home d key_id = retire_ring home d (retired home key_id)

-- ===== src/Keys.antt =====
-- src/csk_registry/keys.py: the files of a registry's signing keys, and the operations of a key
-- rotation on them. PEM files, Ed25519 and base64 are parameters.
pub mod Provider
pub mod Rotation
pub mod Retire
use curator_skill_registry.Base.{
  ◌≡◌, Bool, true, false, not, ◌&&◌, List, [], ◌∷◌, ◌++◌, map, Option, none, some, Text, codes,
  text_eq, any, Bytes, length, ℕ, if◌then◌else◌, Outcome, ok, err, ◌>>=◌, ◌>>◌, ensure,
}
use curator_skill_registry.Json.{
  Value, Fields, Items, null, bool, int, float, str, arr, obj, pos, end, get, put, has_exactly,
  items, of_list, equals_nat,
}
use curator_skill_registry.Signing.{Env}
use curator_skill_registry.Signing.PublicKey.{Base64, parse_public_key}
use curator_skill_registry.Signing.Key.{Ed25519, key_id_of, public_pinned}

-- the exceptions; `write_failed` is an OSError of writing or removing a file
pub data KeysError : Type 0 where
  empty_passphrase : KeysError
  passphrase_missing : KeysError
  wrong_passphrase : KeysError
  unavailable_key : KeysError
  malformed_key : KeysError
  already_exists : KeysError
  already_staged : KeysError
  not_staged : KeysError
  malformed_keyring : KeysError
  malformed_public_key : KeysError
  not_retirable : KeysError
  not_retained : KeysError
  write_failed : KeysError

-- `KeyProvider`: reading the file at a path, `none` where there is none, and the bytes that
-- storing a key writes
pub record KeyProvider (Private : Type 0) : Type 0 where
  pub load : Option Bytes → Outcome KeysError Private
  pub store : Private → Outcome KeysError Bytes

-- What the operations rely on: a stored key is the key that is loaded.
pub record LoadsStored {Private : Type 0} (provider : KeyProvider Private) : Type 0 where
  pub load-store :
      (key : Private) {pem : Bytes}
      → provider.store key ≡ ok pem
      → provider.load (some pem) ≡ ok key

-- a keyring file, which parses as JSON or does not
pub data Keyring : Type 0 where
  unreadable : Keyring
  json : Value → Keyring

-- signing-key.pem, next-signing-key.pem and signing-keyring.json of the data home
pub record Home : Type 0 where
  pub active : Option Bytes
  pub next : Option Bytes
  pub keyring : Option Keyring

-- What the file system does with `_atomic_write` or `unlink`: it is done, it is refused and the file
-- is the old one, or it is done and a call behind it raises.
pub data Write : Type 0 where
  done : Write
  refused : Write
  interrupted : Write

-- what it does with the calls of one operation
pub record Disk : Type 0 where
  pub key_write : Write
  pub ring_write : Write
  pub unlink : Write

-- `_atomic_write` of the keyring, of the active and of the staged key, when there is something to
-- write, and `unlink` of the staged key
unfoldable pub put_keyring :
    Home → Write → Outcome KeysError Keyring → Outcome KeysError (Unit {0}) × Home
put_keyring home w (err e) = (err e, home)
put_keyring home done (ok ring) = (ok tt, record home { keyring = some ring })
put_keyring home refused (ok ring) = (err write_failed, home)
put_keyring home interrupted (ok ring) = (err write_failed, record home { keyring = some ring })

unfoldable pub put_active :
    Home → Write → Outcome KeysError Bytes → Outcome KeysError (Unit {0}) × Home
put_active home w (err e) = (err e, home)
put_active home done (ok pem) = (ok tt, record home { active = some pem })
put_active home refused (ok pem) = (err write_failed, home)
put_active home interrupted (ok pem) = (err write_failed, record home { active = some pem })

unfoldable pub put_next :
    Home → Write → Outcome KeysError Bytes → Outcome KeysError (Unit {0}) × Home
put_next home w (err e) = (err e, home)
put_next home done (ok pem) = (ok tt, record home { next = some pem })
put_next home refused (ok pem) = (err write_failed, home)
put_next home interrupted (ok pem) = (err write_failed, record home { next = some pem })

unfoldable pub remove_next : Home → Write → Outcome KeysError (Unit {0}) × Home
remove_next home done = (ok tt, record home { next = none })
remove_next home refused = (err write_failed, home)
remove_next home interrupted = (err write_failed, record home { next = none })

abbrev pub schema_version : Text
schema_version = codes "schema_version"

abbrev pub public_keys_key : Text
public_keys_key = codes "public_keys"

abbrev pub keyring_keys : List Text
keyring_keys = schema_version ∷ public_keys_key ∷ []

-- `if value not in values: values.append(value)`
unfoldable pub add_unique : List Text → Text → List Text
add_unique values value = if any (text_eq value) values then values else values ++ value ∷ []

-- the JSON that `_write_public_keys` writes
unfoldable pub keyring_of : List Text → Keyring
keyring_of unique = json (
    obj
      (put public_keys_key (arr (of_list (map str unique))) (put schema_version (int (pos 1)) end)))

-- `float_is` tells whether a float of the JSON equals a number.
module _ (base64 : Base64) (float_is : Text → ℕ → Bool) where
  -- the loop over `configured`
  unfoldable pub read_entries : List Text → List Value → Outcome KeysError (List Text)
  read_entries values [] = ok values
  read_entries values (str t ∷ rest) =
      let added = read_entries (add_unique values t) rest in
      elim (parse_public_key base64 t) [ none ↦ err malformed_keyring | some _ ↦ added ]
  read_entries values (_ ∷ rest) = err malformed_keyring

  unfoldable pub read_array : List Text → Option Value → Outcome KeysError (List Text)
  read_array values (some (arr configured)) = read_entries values (items configured)
  read_array values _ = err malformed_keyring

  unfoldable pub read_object : List Text → Fields → Outcome KeysError (List Text)
  read_object values payload = do
    ensure (has_exactly keyring_keys payload) malformed_keyring
    ensure (equals_nat float_is (get schema_version payload) 1) malformed_keyring
    read_array values (get public_keys_key payload)

  -- `if path.is_file(): ...` of `public_keys`
  unfoldable pub read_keyring : List Text → Option Keyring → Outcome KeysError (List Text)
  read_keyring values none = ok values
  read_keyring values (some (json (obj payload))) = read_object values payload
  read_keyring values _ = err malformed_keyring

  -- the loop of `_write_public_keys`
  unfoldable pub unique_keys : List Text → List Text → Outcome KeysError (List Text)
  unique_keys unique [] = ok unique
  unique_keys unique (v ∷ vs) =
      let added = unique_keys (add_unique unique v) vs in
      elim (parse_public_key base64 v) [ none ↦ err malformed_public_key | some _ ↦ added ]

  -- what `_write_public_keys(home, values)` writes
  unfoldable pub write_public_keys : List Text → Outcome KeysError Keyring
  write_public_keys values = do unique ← unique_keys [] values; ok (keyring_of unique)

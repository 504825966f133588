-- ===== src/Keys/Rotation.antt =====
-- The operations of src/csk_registry/keys.py on the key files of a data home. A `Disk` says of a
-- call which of its writes the file system carries out, and which of them raise.
pub mod Retained
pub mod Activated
pub mod Rollback
pub mod Kept
use curator_skill_registry.Base.{
  ◌≡◌, Bool, true, false, not, ◌&&◌, List, [], ◌∷◌, ◌++◌, Option, none, some, Text, text_eq, Bytes,
  ℕ, if◌then◌else◌, Outcome, ok, err, ◌>>=◌, ◌>>◌, ensure,
}
use curator_skill_registry.Signing.{Env}
use curator_skill_registry.Signing.PublicKey.{Base64, parse_public_key}
use curator_skill_registry.Signing.Key.{Ed25519, key_id_of, public_pinned}
use curator_skill_registry.Keys.{
  KeysError, KeyProvider, Keyring, Home, Write, Disk, put_keyring, put_active, put_next,
  remove_next, add_unique, read_keyring, write_public_keys, already_exists, already_staged,
  not_staged, malformed_public_key, not_retirable, not_retained,
}

-- `[value for value in values if value != gone]`
unfoldable pub discard : Text → List Text → List Text
discard gone [] = []
discard gone (v ∷ vs) = if text_eq v gone then discard gone vs else v ∷ discard gone vs

module _ (base64 : Base64) (float_is : Text → ℕ → Bool) (ed : Ed25519)
    (provider : KeyProvider ed.Private) where
  abbrev pub pinned : ed.Private → Text
  pinned = public_pinned base64 ed

  unfoldable pub add_staged : List Text → Option Bytes → Outcome KeysError (List Text)
  add_staged values none = ok values
  add_staged values (some pem) = do
    staged ← provider.load (some pem)
    ok (add_unique values (pinned staged))

  -- `public_keys(home, active)`
  unfoldable pub public_keys : Home → ed.Private → Outcome KeysError (List Text)
  public_keys home active = do
    values ← read_keyring base64 float_is (pinned active ∷ []) home.keyring
    add_staged values home.next

  -- what `_write_public_keys(home, (*public_keys(home, active), staged.public_pinned))` writes
  unfoldable pub publish_staged : Home → ed.Private → ed.Private → Outcome KeysError Keyring
  publish_staged home active staged = do
    values ← public_keys home active
    write_public_keys base64 float_is (values ++ pinned staged ∷ [])

  -- `initialize_key(home, replace)`, where `generate_key()` gives `fresh`
  unfoldable pub initialize_ring :
      ed.Private → Outcome KeysError (Unit {0}) × Home → Outcome KeysError ed.Private × Home
  initialize_ring fresh (err e, home) = (err e, home)
  initialize_ring fresh (ok tt, home) = (ok fresh, home)

  unfoldable pub initialize_stored :
      Disk → ed.Private → Outcome KeysError (Unit {0}) × Home → Outcome KeysError ed.Private × Home
  initialize_stored d fresh (err e, home) = (err e, home)
  initialize_stored d fresh (ok tt, home) =
      initialize_ring fresh
        (put_keyring home d.ring_write (write_public_keys base64 float_is (pinned fresh ∷ [])))

  unfoldable pub initialize_absent :
      Home → Disk → ed.Private → Option Bytes → Outcome KeysError ed.Private × Home
  initialize_absent home d fresh (some staged) = (err already_staged, home)
  initialize_absent home d fresh none =
      initialize_stored d fresh (put_active home d.key_write (provider.store fresh))

  unfoldable pub initialize_key :
      Home → Disk → Bool → ed.Private → Option Bytes → Outcome KeysError ed.Private × Home
  initialize_key home d false fresh (some active) = (err already_exists, home)
  initialize_key home d false fresh none = initialize_absent home d fresh home.next
  initialize_key home d true fresh active = initialize_absent home d fresh home.next

  -- `prepare_rotation(home)`, where `generate_key()` gives `fresh`: the `except` clause
  unfoldable pub raised_again :
      KeysError
      → Outcome KeysError (Unit {0}) × Home
      → Outcome KeysError (ed.Private × ed.Private) × Home
  raised_again e (ok tt, home) = (err e, home)
  raised_again e (err f, home) = (err f, home)

  unfoldable pub prepare_ring :
      Disk
      → ed.Private
      → ed.Private
      → Outcome KeysError (Unit {0}) × Home
      → Outcome KeysError (ed.Private × ed.Private) × Home
  prepare_ring d active fresh (err e, home) = raised_again e (remove_next home d.unlink)
  prepare_ring d active fresh (ok tt, home) = (ok (active, fresh), home)

  -- the keyring, behind the staged key
  unfoldable pub prepare_stored :
      Disk
      → ed.Private
      → ed.Private
      → Outcome KeysError (Unit {0}) × Home
      → Outcome KeysError (ed.Private × ed.Private) × Home
  prepare_stored d active fresh (err e, home) = (err e, home)
  prepare_stored d active fresh (ok tt, home) =
      prepare_ring d active fresh (put_keyring home d.ring_write (publish_staged home active fresh))

  unfoldable pub prepare_loaded :
      Home
      → Disk
      → ed.Private
      → Outcome KeysError ed.Private
      → Option Bytes
      → Outcome KeysError (ed.Private × ed.Private) × Home
  prepare_loaded home d fresh (err e) next = (err e, home)
  prepare_loaded home d fresh (ok active) (some pem) = (err already_staged, home)
  prepare_loaded home d fresh (ok active) none =
      prepare_stored d active fresh (put_next home d.key_write (provider.store fresh))

  unfoldable pub prepare_rotation :
      Home → Disk → ed.Private → Outcome KeysError (ed.Private × ed.Private) × Home
  prepare_rotation home d fresh = prepare_loaded home d fresh (provider.load home.active) home.next

  -- `activate_rotation(home)`: the keyring, then the active key, then the staged file
  unfoldable pub activate_removed :
      ed.Private
      → ed.Private
      → Outcome KeysError (Unit {0}) × Home
      → Outcome KeysError (ed.Private × ed.Private) × Home
  activate_removed active staged (err e, home) = (err e, home)
  activate_removed active staged (ok tt, home) = (ok (active, staged), home)

  unfoldable pub activate_stored :
      Disk
      → ed.Private
      → ed.Private
      → Outcome KeysError (Unit {0}) × Home
      → Outcome KeysError (ed.Private × ed.Private) × Home
  activate_stored d active staged (err e, home) = (err e, home)
  activate_stored d active staged (ok tt, home) =
      activate_removed active staged (remove_next home d.unlink)

  unfoldable pub activate_ring :
      Disk
      → ed.Private
      → ed.Private
      → Outcome KeysError (Unit {0}) × Home
      → Outcome KeysError (ed.Private × ed.Private) × Home
  activate_ring d active staged (err e, home) = (err e, home)
  activate_ring d active staged (ok tt, home) =
      activate_stored d active staged (put_active home d.key_write (provider.store staged))

  unfoldable pub activate_staged :
      Home
      → Disk
      → ed.Private
      → Outcome KeysError ed.Private
      → Outcome KeysError (ed.Private × ed.Private) × Home
  activate_staged home d active (err e) = (err e, home)
  activate_staged home d active (ok staged) =
      activate_ring d active staged
        (put_keyring home d.ring_write (publish_staged home active staged))

  unfoldable pub activate_loaded :
      Home
      → Disk
      → Outcome KeysError ed.Private
      → Option Bytes
      → Outcome KeysError (ed.Private × ed.Private) × Home
  activate_loaded home d (err e) next = (err e, home)
  activate_loaded home d (ok active) none = (err not_staged, home)
  activate_loaded home d (ok active) (some pem) =
      activate_staged home d active (provider.load (some pem))

  unfoldable pub activate_rotation :
      Home → Disk → Outcome KeysError (ed.Private × ed.Private) × Home
  activate_rotation home d = activate_loaded home d (provider.load home.active) home.next

  -- `cancel_rotation(home)`
  unfoldable pub cancel_removed :
      ed.Private → Outcome KeysError (Unit {0}) × Home → Outcome KeysError ed.Private × Home
  cancel_removed staged (err e, home) = (err e, home)
  cancel_removed staged (ok tt, home) = (ok staged, home)

  unfoldable pub cancel_ring :
      Disk → ed.Private → Outcome KeysError (Unit {0}) × Home → Outcome KeysError ed.Private × Home
  cancel_ring d staged (err e, home) = (err e, home)
  cancel_ring d staged (ok tt, home) = cancel_removed staged (remove_next home d.unlink)

  unfoldable pub retain_others : Home → ed.Private → ed.Private → Outcome KeysError Keyring
  retain_others home active staged = do
    values ← public_keys home active
    write_public_keys base64 float_is (discard (pinned staged) values)

  unfoldable pub cancel_staged :
      Home → Disk → ed.Private → Outcome KeysError ed.Private → Outcome KeysError ed.Private × Home
  cancel_staged home d active (err e) = (err e, home)
  cancel_staged home d active (ok staged) =
      cancel_ring d staged (put_keyring home d.ring_write (retain_others home active staged))

  unfoldable pub cancel_loaded :
      Home
      → Disk
      → Outcome KeysError ed.Private
      → Option Bytes
      → Outcome KeysError ed.Private × Home
  cancel_loaded home d (err e) next = (err e, home)
  cancel_loaded home d (ok active) none = (err not_staged, home)
  cancel_loaded home d (ok active) (some pem) =
      cancel_staged home d active (provider.load (some pem))

  unfoldable pub cancel_rotation : Home → Disk → Outcome KeysError ed.Private × Home
  cancel_rotation home d = cancel_loaded home d (provider.load home.active) home.next

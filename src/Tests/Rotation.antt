-- ===== src/Tests/Rotation.antt =====
-- The witnesses of src/csk_registry/keys.py: a home with one encrypted key, a staged one, and the
-- two calls of a rotation.
use curator_skill_registry.Base.{
  ◌≡◌, refl, List, [], ◌∷◌, ◌++◌, none, some, Text, Bytes, ℕ, last?, Outcome, ok, err, arith, codes,
  text_eq,
}
use curator_skill_registry.Json.{
  get, put, keys, insert_sorted, text_lt, items, of_list, has_exactly, equals_nat,
}
use curator_skill_registry.Signing.PublicKey.{parse_public_key, remove_prefix}
use curator_skill_registry.Signing.Key.{public_pinned}
use curator_skill_registry.Keys.{
  Disk, done, refused, interrupted, put_keyring, put_active, put_next, remove_next, KeysError,
  KeyProvider, Home, write_failed, add_unique, keyring_of, read_entries, read_array, read_object,
  read_keyring, unique_keys, write_public_keys,
}
use curator_skill_registry.Keys.Provider.{
  Pem, IsPkcs8, marker, starts, contains, or_raise, load_encrypted, load_content, file_load,
  file_store, FileKeyProvider, FileKeyProvider-LoadsStored,
}
use curator_skill_registry.Keys.Rotation.Kept.{Keeps, prepare_rotation-Keeps}
use curator_skill_registry.Keys.Rotation.{
  raised_again, activate_removed, public_keys, add_staged, publish_staged, prepare_ring,
  prepare_stored, prepare_loaded, prepare_rotation, activate_stored, activate_ring, activate_staged,
  activate_loaded, activate_rotation,
}
use curator_skill_registry.Keys.Rotation.Activated.{Activated}
use curator_skill_registry.Keys.Rotation.Rollback.{prepare_rotation-rollback}
use curator_skill_registry.Tests.Signed.{base64, ed, no_float}

-- A PEM is its header and the key.
abbrev pem : Pem ℕ
pem = record {
  load_key = λ content secret. last? content;
  export_key_pem = λ key secret. elim secret [ none ↦ key ∷ [] | some _ ↦ marker ++ key ∷ [] ];
}

pem-IsPkcs8 : IsPkcs8 pem
unfolding contains starts
pem-IsPkcs8 = record {
  plain-marker = λ key. ground arith;
  encrypted-marker = λ key c secret. refl;
  load-plain = λ key. refl;
  load-encrypted = λ key c secret. refl;
}

abbrev provider : KeyProvider ℕ
provider = FileKeyProvider pem (some (codes "secret"))

abbrev sealed : ℕ → Bytes
sealed key = marker ++ key ∷ []

abbrev before : Home
before = record { active = some (sealed 7); next = none; keyring = none }

-- a file system that carries out every write, and one that raises behind the keyring's
abbrev fine : Disk
fine = record { key_write = done; ring_write = done; unlink = done }

abbrev full : Disk
full = record { key_write = done; ring_write = refused; unlink = interrupted }

abbrev flaky : Disk
flaky = record { key_write = done; ring_write = interrupted; unlink = done }

abbrev prepared : Outcome KeysError (ℕ × ℕ) × Home
prepared = prepare_rotation base64 no_float ed provider before fine 9

abbrev listed : List Text
listed = public_pinned base64 ed 7 ∷ public_pinned base64 ed 9 ∷ []

record Runs : Type 0 where
  loads : provider.load prepared.1.active ≡ ok 7
  lists : public_keys base64 no_float ed provider prepared.1 7 ≡ ok listed
  activates : (activate_rotation base64 no_float ed provider prepared.1 fine).0 ≡ ok (7, 9)
  refuses : (prepare_rotation base64 no_float ed provider before full 9).0 ≡ err write_failed
  loads_before : provider.load before.active ≡ ok 7
  lists_before :
      public_keys base64 no_float ed provider before 7 ≡ ok (public_pinned base64 ed 7 ∷ [])

runs : Runs
unfolding add_unique keyring_of read_entries read_array read_object read_keyring unique_keys
    write_public_keys starts contains or_raise load_encrypted load_content file_load file_store
    public_keys add_staged publish_staged prepare_ring prepare_stored prepare_loaded
    prepare_rotation activate_stored activate_ring activate_staged activate_loaded activate_rotation
    get put keys items of_list has_exactly equals_nat parse_public_key remove_prefix public_pinned
    text_eq insert_sorted text_lt put_keyring put_active put_next remove_next raised_again
    activate_removed
runs = record {
  loads = refl;
  lists = refl;
  activates = refl;
  refuses = refl;
  loads_before = refl;
  lists_before = refl;
}

prepare_rotation-rollback_example :
    (prepare_rotation base64 no_float ed provider before full 9).1 ≡ before
prepare_rotation-rollback_example =
    prepare_rotation-rollback base64 no_float ed provider before full 9 (λ h. cc) (λ h. cc)
      (λ h. cc) runs.refuses

prepare_rotation-Keeps_example :
    Keeps base64 no_float ed provider before 7
      (public_pinned base64 ed 7 ∷ [])
      (prepare_rotation base64 no_float ed provider before flaky 9).1
prepare_rotation-Keeps_example =
    prepare_rotation-Keeps base64 no_float ed provider
      (FileKeyProvider-LoadsStored pem pem-IsPkcs8 (some (codes "secret"))) before flaky 7 9
      (public_pinned base64 ed 7 ∷ []) runs.loads_before runs.lists_before

-- ===== src/Keys/Rotation/Rollback.antt =====
-- `prepare_rotation` of src/csk_registry/keys.py: the data home after an exception of it.
use curator_skill_registry.Base.{
  ◌≡◌, ◌≢◌, refl, ap, sym, Bool, Option, none, some, Text, Bytes, ℕ, Outcome, ok, err,
}
use curator_skill_registry.Signing.PublicKey.{Base64}
use curator_skill_registry.Signing.Key.{Ed25519}
use curator_skill_registry.Keys.{
  KeysError, KeyProvider, Keyring, Home, Write, Disk, done, refused, interrupted, put_keyring,
  put_next, remove_next, write_failed,
}
use curator_skill_registry.Keys.Rotation.{
  publish_staged, raised_again, prepare_ring, prepare_stored, prepare_loaded, prepare_rotation,
}

module _ (base64 : Base64) (float_is : Text → ℕ → Bool) (ed : Ed25519)
    (provider : KeyProvider ed.Private) where
  raised_again-removed :
      (home : Home) (pem : Bytes) (e : KeysError) (w : Write)
      → home.next ≡ none
      → w ≢ refused
      → (raised_again base64 float_is ed provider e
          (remove_next (record home { next = some pem }) w)).1
        ≡ home
  unfolding raised_again remove_next
  raised_again-removed home pem e done hn h = ap (λ n. record home { next = n }) (sym hn)
  raised_again-removed home pem e interrupted hn h = ap (λ n. record home { next = n }) (sym hn)
  raised_again-removed home pem e refused hn h = absurd (h refl)

  prepare_ring-rollback :
      (home : Home) (d : Disk) (active fresh : ed.Private) (pem : Bytes) (w : Write) {e : KeysError}
      (o : Outcome KeysError Keyring)
      → home.next ≡ none
      → w ≢ interrupted
      → d.unlink ≢ refused
      → (prepare_ring base64 float_is ed provider d active fresh
          (put_keyring (record home { next = some pem }) w o)).0
        ≡ err e
      → (prepare_ring base64 float_is ed provider d active fresh
          (put_keyring (record home { next = some pem }) w o)).1
        ≡ home
  unfolding prepare_ring put_keyring
  prepare_ring-rollback home d active fresh pem w (err e) hn hw hu h =
      raised_again-removed home pem e d.unlink hn hu
  prepare_ring-rollback home d active fresh pem refused (ok ring) hn hw hu h =
      raised_again-removed home pem write_failed d.unlink hn hu
  prepare_ring-rollback home d active fresh pem done (ok ring) hn hw hu h = cc
  prepare_ring-rollback home d active fresh pem interrupted (ok ring) hn hw hu h = absurd (hw refl)

  prepare_stored-rollback :
      (home : Home) (d : Disk) (active fresh : ed.Private) (w : Write) {e : KeysError}
      (o : Outcome KeysError Bytes)
      → home.next ≡ none
      → w ≢ interrupted
      → d.ring_write ≢ interrupted
      → d.unlink ≢ refused
      → (prepare_stored base64 float_is ed provider d active fresh (put_next home w o)).0 ≡ err e
      → (prepare_stored base64 float_is ed provider d active fresh (put_next home w o)).1 ≡ home
  unfolding prepare_stored put_next
  prepare_stored-rollback home d active fresh w (err e) hn hw hr hu h = refl
  prepare_stored-rollback home d active fresh refused (ok pem) hn hw hr hu h = refl
  prepare_stored-rollback home d active fresh interrupted (ok pem) hn hw hr hu h = absurd (hw refl)
  prepare_stored-rollback home d active fresh done (ok pem) hn hw hr hu h =
      let staged : Home = record home { next = some pem } in
      prepare_ring-rollback home d active fresh pem d.ring_write
        (publish_staged base64 float_is ed provider staged active fresh) hn hr hu h

  prepare_loaded-rollback :
      (home : Home) (d : Disk) (fresh : ed.Private) {e : KeysError}
      (o : Outcome KeysError ed.Private) (next : Option Bytes)
      → home.next ≡ next
      → d.key_write ≢ interrupted
      → d.ring_write ≢ interrupted
      → d.unlink ≢ refused
      → (prepare_loaded base64 float_is ed provider home d fresh o next).0 ≡ err e
      → (prepare_loaded base64 float_is ed provider home d fresh o next).1 ≡ home
  unfolding prepare_loaded
  prepare_loaded-rollback home d fresh (err e) next hn hw hr hu h = refl
  prepare_loaded-rollback home d fresh (ok active) (some pem) hn hw hr hu h = refl
  prepare_loaded-rollback home d fresh (ok active) none hn hw hr hu h =
      prepare_stored-rollback home d active fresh d.key_write (provider.store fresh) hn hw hr hu h

  -- Suppose that no write of a key or of the keyring raises behind the replacement of its file,
  -- and that the removal of the staged file is not refused. When `prepare_rotation` then raises,
  -- whether the active key does not load, a key is already staged, the new one cannot be stored,
  -- or the keyring cannot be read or written, the data home holds the files that it held before.
  pub prepare_rotation-rollback :
      (home : Home) (d : Disk) (fresh : ed.Private) {e : KeysError}
      → d.key_write ≢ interrupted
      → d.ring_write ≢ interrupted
      → d.unlink ≢ refused
      → (prepare_rotation base64 float_is ed provider home d fresh).0 ≡ err e
      → (prepare_rotation base64 float_is ed provider home d fresh).1 ≡ home
  unfolding prepare_rotation
  prepare_rotation-rollback home d fresh hw hr hu h =
      prepare_loaded-rollback home d fresh (provider.load home.active) home.next refl hw hr hu h

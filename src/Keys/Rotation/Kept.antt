-- ===== src/Keys/Rotation/Kept.antt =====
-- `prepare_rotation` of src/csk_registry/keys.py: what is kept on every path, whichever of its writes
-- was carried out.
use curator_skill_registry.Base.{
  ◌≡◌, refl, ap, ◌∙◌, ◌⊎◌, inl, inr, Bool, List, Option, none, some, Text, Bytes, ℕ, Outcome, ok,
  err, bind-eq-ok, ok-injective,
}
use curator_skill_registry.Signing.PublicKey.{Base64}
use curator_skill_registry.Signing.Key.{Ed25519}
use curator_skill_registry.Keys.{
  KeysError, KeyProvider, LoadsStored, Keyring, Home, Write, Disk, done, refused, interrupted,
  put_keyring, put_next, remove_next, read_keyring, add_unique,
}
use curator_skill_registry.Keys.Rotation.{
  public_keys, add_staged, pinned, publish_staged, raised_again, prepare_ring, prepare_stored,
  prepare_loaded, prepare_rotation,
}
use curator_skill_registry.Keys.Rotation.Retained.{
  Retains, own, publish_staged-Retains, add_unique-Lists,
}

module _ (base64 : Base64) (float_is : Text → ℕ → Bool) (ed : Ed25519)
    (provider : KeyProvider ed.Private) where
  -- the active key is the one of `home`, and every one of `values` is listed
  unfoldable pub Keeps : Home → ed.Private → List Text → Home → Type 0
  Keeps home active values after =
      (after.active ≡ home.active)
      × Retains base64 float_is ed provider values
          (public_keys base64 float_is ed provider after active)

  -- The files on the way: the keyring lists every one of `values`, and what is staged loads.
  record OnTheWay (home : Home) (active fresh : ed.Private) (values : List Text) (after : Home)
      : Type 0 where
    same : after.active ≡ home.active
    ring :
        Retains base64 float_is ed provider values
          (read_keyring base64 float_is (own base64 float_is ed provider active) after.keyring)
    staged :
        (after.next ≡ none)
        ⊎ ((pem : Bytes) × (after.next ≡ some pem) × (provider.load (some pem) ≡ ok fresh))

  OnTheWay-Keeps :
      {home : Home} {active fresh : ed.Private} {values : List Text} (after : Home)
      → OnTheWay home active fresh values after
      → Keeps home active values after
  unfolding Keeps Retains public_keys add_staged
  OnTheWay-Keeps {fresh = fresh} after w = elim w.staged [
    | inl e ↦ (w.same, (w.ring.0, rw (public_keys, w.ring.1, e) refl, w.ring.2))
    | inr (pem, e, l) ↦ (
      w.same,
      (
        add_unique w.ring.0 (pinned base64 float_is ed provider fresh),
        rw (public_keys, w.ring.1, e, add_staged, l) refl,
        λ x hx. add_unique-Lists w.ring.0 _ x (w.ring.2 x hx),
      ),
    )
  ]

  start-OnTheWay :
      (home : Home) (active fresh : ed.Private) (values : List Text)
      → home.next ≡ none
      → public_keys base64 float_is ed provider home active ≡ ok values
      → OnTheWay home active fresh values home
  unfolding public_keys add_staged Retains
  start-OnTheWay home active fresh values hn hv =
      let p =
        bind-eq-ok
          (read_keyring base64 float_is (own base64 float_is ed provider active) home.keyring)
          (λ vs. add_staged base64 float_is ed provider vs home.next) hv in
      let same : p.0 ≡ values = ok-injective (rw (hn, add_staged) at p.2) in
      record { same = refl; ring = (values, p.1 ∙ ap ok same, λ x h. h); staged = inl hn }

  ringed-OnTheWay :
      {home : Home} {active fresh : ed.Private} {values : List Text} (after : Home) {ring : Keyring}
      → publish_staged base64 float_is ed provider after active fresh ≡ ok ring
      → OnTheWay home active fresh values after
      → OnTheWay home active fresh values (record after { keyring = some ring })
  unfolding Keeps Retains
  ringed-OnTheWay {active = active} {fresh} after e h =
      let (_, (out, read, kept)) = OnTheWay-Keeps after h in
      let (out', read', kept') =
        publish_staged-Retains base64 float_is ed provider after active fresh
          (own base64 float_is ed provider active) read e in
      record { same = h.same; ring = (out', read', λ x hx. kept' x (kept x hx)); staged = h.staged }

  put_keyring-OnTheWay :
      {home : Home} {active fresh : ed.Private} {values : List Text} (after : Home) (w : Write)
      (o : Outcome KeysError Keyring)
      → publish_staged base64 float_is ed provider after active fresh ≡ o
      → OnTheWay home active fresh values after
      → OnTheWay home active fresh values (put_keyring after w o).1
  unfolding put_keyring
  put_keyring-OnTheWay after w (err e) eo h = h
  put_keyring-OnTheWay after refused (ok ring) eo h = h
  put_keyring-OnTheWay after done (ok ring) eo h = ringed-OnTheWay after eo h
  put_keyring-OnTheWay after interrupted (ok ring) eo h = ringed-OnTheWay after eo h

  raised_again-OnTheWay :
      {home : Home} {active fresh : ed.Private} {values : List Text} (after : Home) (w : Write)
      (e : KeysError)
      → OnTheWay home active fresh values after
      → OnTheWay home active fresh values
          (raised_again base64 float_is ed provider e (remove_next after w)).1
  unfolding raised_again remove_next
  raised_again-OnTheWay after refused e h = h
  raised_again-OnTheWay after done e h = record { same = h.same; ring = h.ring; staged = inl refl }
  raised_again-OnTheWay after interrupted e h = record {
    same = h.same;
    ring = h.ring;
    staged = inl refl;
  }

  prepare_ring-OnTheWay :
      {home : Home} {active fresh : ed.Private} {values : List Text} (d : Disk)
      (p : Outcome KeysError (Unit {0}) × Home)
      → OnTheWay home active fresh values p.1
      → OnTheWay home active fresh values
          (prepare_ring base64 float_is ed provider d active fresh p).1
  unfolding prepare_ring
  prepare_ring-OnTheWay d (err e, after) h = raised_again-OnTheWay after d.unlink e h
  prepare_ring-OnTheWay d (ok tt, after) h = h

  prepare_stored-OnTheWay :
      {home : Home} {active fresh : ed.Private} {values : List Text} (d : Disk)
      (p : Outcome KeysError (Unit {0}) × Home)
      → OnTheWay home active fresh values p.1
      → OnTheWay home active fresh values
          (prepare_stored base64 float_is ed provider d active fresh p).1
  unfolding prepare_stored
  prepare_stored-OnTheWay d (err e, after) h = h
  prepare_stored-OnTheWay d (ok tt, after) h =
      prepare_ring-OnTheWay d _ (put_keyring-OnTheWay after d.ring_write _ refl h)

  module _ (good : LoadsStored provider) where
    put_next-OnTheWay :
        {home : Home} {active fresh : ed.Private} {values : List Text} (after : Home) (w : Write)
        (o : Outcome KeysError Bytes)
        → provider.store fresh ≡ o
        → OnTheWay home active fresh values after
        → OnTheWay home active fresh values (put_next after w o).1
    unfolding put_next
    put_next-OnTheWay after w (err e) eo h = h
    put_next-OnTheWay after refused (ok pem) eo h = h
    put_next-OnTheWay {fresh = fresh} after done (ok pem) eo h = record {
      same = h.same;
      ring = h.ring;
      staged = inr (pem, refl, good.load-store fresh eo);
    }
    put_next-OnTheWay {fresh = fresh} after interrupted (ok pem) eo h = record {
      same = h.same;
      ring = h.ring;
      staged = inr (pem, refl, good.load-store fresh eo);
    }

    prepare_loaded-Keeps :
        (home : Home) (d : Disk) (active fresh : ed.Private) (values : List Text)
        (next : Option Bytes)
        → home.next ≡ next
        → public_keys base64 float_is ed provider home active ≡ ok values
        → Keeps home active values
            (prepare_loaded base64 float_is ed provider home d fresh (ok active) next).1
    unfolding prepare_loaded Keeps Retains
    prepare_loaded-Keeps home d active fresh values (some pem) hn hv =
        (refl, (values, hv, λ x h. h))
    prepare_loaded-Keeps home d active fresh values none hn hv = OnTheWay-Keeps _ (
        prepare_stored-OnTheWay d (put_next home d.key_write (provider.store fresh)) (
          put_next-OnTheWay home d.key_write (provider.store fresh) refl
            (start-OnTheWay home active fresh values hn hv)))

    -- When the active key loads and the public keys of the data home can be listed, then behind
    -- `prepare_rotation`, whether it returns or raises and whichever of its writes was done,
    -- refused, or done and followed by an exception, the active file is the one before, and the
    -- public keys can be listed and include all that were listed, under a provider that loads the
    -- key it stored.
    pub prepare_rotation-Keeps :
        (home : Home) (d : Disk) (active fresh : ed.Private) (values : List Text)
        → provider.load home.active ≡ ok active
        → public_keys base64 float_is ed provider home active ≡ ok values
        → Keeps home active values (prepare_rotation base64 float_is ed provider home d fresh).1
    unfolding prepare_rotation
    prepare_rotation-Keeps home d active fresh values hl hv =
        rw hl (prepare_loaded-Keeps home d active fresh values home.next refl hv)

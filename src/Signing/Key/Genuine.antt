-- ===== src/Signing/Key/Genuine.antt =====
-- A record that a key signed verifies under its public key.
use curator_skill_registry.Base.{
  ◌≡◌, refl, sym, ap, ◌∙◌, true, ◌++◌, some, Text, codes, text_eq, text_eq_refl, Bytes, length,
  ◌==◌, ok, ok-injective, bind-eq-ok, arith,
}
use curator_skill_registry.Json.{Fields, str, obj, get, put, without, has_exactly, keys}
use curator_skill_registry.Json.Laws.{get-put_same, without-put, without_twice}
use curator_skill_registry.Signing.{Env, sig_key, canonical_bytes, canonical_document_bytes}
use curator_skill_registry.Signing.PublicKey.{Base64, remove_prefix, parse_public_key}
use curator_skill_registry.Signing.Key.{
  Ed25519, IsGenuine, RoundTrips, key_id_of, envelope_keys, is_text, verify, public_pinned, sign,
  envelope, sign_record, verify_value, verify_envelope, verify_sig, verify_signed,
}

module _ {Doc : Type 0} (env : Env Doc) where
  -- What is signed forgets the signature.
  canonical_bytes-without :
      (a b : Fields)
      → without sig_key a ≡ without sig_key b
      → canonical_bytes env a ≡ canonical_bytes env b
  unfolding canonical_bytes
  canonical_bytes-without a b e = ap (λ f. canonical_document_bytes env (obj f)) e

module _ (base64 : Base64) (ed : Ed25519) {Doc : Type 0} (env : Env Doc) where
  -- A signed record has the canonical form that was signed, and the fields of its body.
  pub sign_record-canonical :
      (k : ed.Private) (body : Fields) {signed : Fields}
      → sign_record base64 ed env k body ≡ ok signed
      → (m : Bytes) × (canonical_bytes env signed ≡ ok m)
        × (get sig_key signed ≡ some (obj (envelope base64 ed env k m)))
        × (without sig_key signed ≡ without sig_key body)
  unfolding sign_record
  sign_record-canonical k body {signed} h =
      let bare = without sig_key body in
      let (m, e, done) = bind-eq-ok (canonical_bytes env bare) _ h in
      let v = obj (envelope base64 ed env k m) in
      let same : put sig_key v bare ≡ signed = ok-injective done in
      let kept : without sig_key signed ≡ without sig_key bare =
        ap (without sig_key) (sym same) ∙ without-put sig_key v bare in
      (
        m,
        canonical_bytes-without env signed bare kept ∙ e,
        ap (get sig_key) (sym same) ∙ get-put_same sig_key v bare,
        kept ∙ without_twice sig_key body,
      )

module _ (base64 : Base64) (ed : Ed25519) (rt : RoundTrips base64) (genuine : IsGenuine ed) where
  remove_prefix-pinned : (t : Text) → remove_prefix (codes "ed25519:" ++ t) ≡ t
  unfolding remove_prefix text_eq
  remove_prefix-pinned t = refl

  parse_public_key-public_pinned :
      (k : ed.Private)
      → parse_public_key base64 (public_pinned base64 ed k) ≡ some (ed.public_bytes k)
  unfolding parse_public_key public_pinned remove_prefix text_eq
  parse_public_key-public_pinned k =
      let size : (length (ed.public_bytes k) == 32) ≡ true =
        ground (arith, genuine.length-public_bytes k) in
      rw (
        parse_public_key,
        remove_prefix-pinned (base64.encode (ed.public_bytes k)),
        rt.decode-encode (ed.public_bytes k),
        size,
        text_eq_refl (base64.encode (ed.public_bytes k)),
      )

  verify-sign_lem :
      (k : ed.Private) (m : Bytes)
      → verify base64 ed (public_pinned base64 ed k) m (sign base64 ed k m) ≡ true
  unfolding verify sign
  verify-sign_lem k m =
      let size : (length (ed.sign k m) == 64) ≡ true = ground (arith, genuine.length-sign k m) in
      rw (
        verify,
        parse_public_key-public_pinned k,
        rt.decode-encode (ed.sign k m),
        size,
        text_eq_refl (base64.encode (ed.sign k m)),
        genuine.verify-sign k m,
      )

  module _ {Doc : Type 0} (env : Env Doc) where
    envelope-fields :
        (k : ed.Private) (m : Bytes)
        → (has_exactly envelope_keys (envelope base64 ed env k m) ≡ true)
          × (get (codes "algorithm") (envelope base64 ed env k m) ≡ some (str (codes "ed25519")))
          × (get (codes "key_id") (envelope base64 ed env k m)
              ≡ some (str (key_id_of env (ed.public_bytes k))))
          × (get (codes "signature") (envelope base64 ed env k m) ≡ some (str (sign base64 ed k m)))
    unfolding envelope put get keys text_eq has_exactly
    envelope-fields k m = (refl, refl, refl, refl)

    verify_sig-envelope :
        (k : ed.Private) (body : Fields) {m : Bytes}
        → canonical_bytes env body ≡ ok m
        → verify_sig base64 ed env
            (public_pinned base64 ed k)
            body
            (some (obj (envelope base64 ed env k m)))
          ≡ true
    unfolding verify_sig verify_envelope verify_value is_text
    verify_sig-envelope k body {m} c =
        let (shape, algorithm, id, signature) = envelope-fields k m in
        rw (
          shape,
          parse_public_key-public_pinned k,
          c,
          algorithm,
          text_eq_refl (codes "ed25519"),
          id,
          text_eq_refl (key_id_of env (ed.public_bytes k)),
          signature,
          verify-sign_lem k m,
        )

    -- With a codec that reads back what it wrote and genuine signatures, a record that
    -- `sign_record` returns verifies under the key's pinned public form, and differs from the
    -- body in its signature only.
    pub verify_signed-sign_record :
        (k : ed.Private) (body : Fields) {signed : Fields}
        → sign_record base64 ed env k body ≡ ok signed
        → (verify_signed base64 ed env (public_pinned base64 ed k) signed ≡ true)
          × (without sig_key signed ≡ without sig_key body)
    unfolding verify_signed
    verify_signed-sign_record k body {signed} h =
        let (m, message, stored, kept) = sign_record-canonical base64 ed env k body h in
        (rw (verify_signed, stored) (verify_sig-envelope k signed message), kept)

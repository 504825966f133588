-- ===== src/Countersign/Fingerprints.antt =====
-- Importing a record and verifying the stored one: the two fingerprints.
use curator_skill_registry.Base.{
  ℕ, ◌≡◌, refl, sym, ap, ◌∙◌, List, [], ◌∷◌, ◌++◌, Option, none, some, Text, codes, Outcome, ok,
  err, ok-injective, bind-eq-ok, All, subst,
}
use curator_skill_registry.Json.{Value, Fields, str, obj, get, without}
use curator_skill_registry.Json.Canonical.{CanonicalError}
use curator_skill_registry.Signing.{Env, sig_key}
use curator_skill_registry.Signing.PublicKey.{Base64}
use curator_skill_registry.Signing.Key.{Ed25519, sign_record}
use curator_skill_registry.Store.Append.{Columns, require_columns}
use curator_skill_registry.Store.Invariant.Reading.{require_columns-Names}
use curator_skill_registry.Store.Verify.Ledgers.{
  or_else, upstream_signature, texts_digest, import_fingerprint,
}
use curator_skill_registry.Countersign.{
  endorsement, endorsed, field_of, signature_of, signed_or, values_digest, countersign_import,
  countersign_imports,
}
use curator_skill_registry.Countersign.Imports.{
  listed, covered, upstream_signature-append, upstream_signature-endorsement,
  import_fingerprint-signed,
}

signed_or-ok : {A : Type 0} (o : Outcome CanonicalError A) {a : A} → signed_or o ≡ ok a → o ≡ ok a
unfolding signed_or
signed_or-ok (ok b) h = ap ok (ok-injective h)
signed_or-ok (err e) h = cc

field_of-some :
    (key : Text) (body : Fields) {v : Value} → get key body ≡ some v → field_of key body ≡ ok v
unfolding field_of
field_of-some key body e = rw (field_of, e)

-- A validated record: its columns are texts, and so is the signature in its envelope.
pub record Importable (body : Fields) : Type 0 where
  pub columns : Columns
  pub named : require_columns body ≡ ok columns
  pub sig : Fields
  pub envelope : get sig_key body ≡ some (obj sig)
  pub first : ℕ
  pub rest : Text
  pub signature : get (codes "signature") sig ≡ some (str (first ∷ rest))

-- No earlier import stands among the endorsements of a record.
abbrev pub IsOriginal : Fields → Type 0
IsOriginal body = upstream_signature (listed (get (codes "endorsements") body)) ≡ none

module _ (base64 : Base64) (ed : Ed25519) {Doc : Type 0} (env : Env Doc) where
  countersign_import-parts :
      (k : ed.Private) (body : Fields) (v : Importable body) {fingerprint : Text} {signed : Fields}
      → countersign_import base64 ed env k body ≡ ok (fingerprint, signed)
      → (fingerprint ≡ texts_digest env (covered v.columns ++ (v.first ∷ v.rest) ∷ []))
        × (sign_record base64 ed env k
              (endorsed (codes "upstream-import") body (without sig_key body))
            ≡ ok signed)
  unfolding countersign_import signature_of values_digest texts_digest
  countersign_import-parts k body v {fingerprint} {signed} h =
      let n = require_columns-Names body v.columns v.named in
      let rest =
        rw
          (
            field_of-some sig_key body v.envelope,
            field_of-some (codes "signature") v.sig v.signature,
            field_of-some (codes "source_identity") body n.source_identity,
            field_of-some (codes "commit") body n.commit_hash,
            field_of-some (codes "content_sha256") body n.content_sha256,
            field_of-some (codes "status") body n.status,
          )
          at h in
      let (s, e, done) =
        bind-eq-ok
          (signed_or (
            sign_record base64 ed env k
              (endorsed (codes "upstream-import") body (without sig_key body))))
          _ rest in
      let pair = ok-injective done in
      (ap (λ p. p.0) (sym pair), signed_or-ok _ e ∙ ap (λ p. ok p.1) pair)

  first_signature :
      (body : Fields) (v : Importable body) {o : Option Value}
      → upstream_signature (listed (get (codes "endorsements") body)) ≡ o
      → upstream_signature (
          listed (get (codes "endorsements") body)
          ++ endorsement (codes "upstream-import") body ∷ [])
        ≡ or_else o (some (str (v.first ∷ v.rest)))
  first_signature body v e =
      upstream_signature-append (listed (get (codes "endorsements") body)) _
      ∙ rw (e, upstream_signature-endorsement body v.sig (v.first ∷ v.rest) v.envelope v.signature)

  -- For a record with its required columns and a signature, among whose endorsements no earlier
  -- upstream import stands, the fingerprint that `_countersign_imports` computes is the one that
  -- `_import_fingerprint` computes from the countersigned record.
  pub countersign_import-fingerprint :
      (k : ed.Private) (body : Fields) {fingerprint : Text} {signed : Fields}
      → Importable body
      → IsOriginal body
      → countersign_import base64 ed env k body ≡ ok (fingerprint, signed)
      → import_fingerprint env (some (obj signed)) ≡ some fingerprint
  countersign_import-fingerprint k body v fresh h =
      let (e, run) = countersign_import-parts k body v h in
      import_fingerprint-signed base64 ed env k body v.columns v.first v.rest v.named
        (first_signature body v fresh ∙ (unfold or_else in refl)) run
      ∙ ap some (sym e)

  -- For a record with its required columns and a signature, among whose endorsements an earlier
  -- upstream import with a signature stands, the fingerprint of the import covers the record's
  -- own signature, while `_import_fingerprint` covers that earlier endorsement's.
  pub countersign_import-again :
      (k : ed.Private) (body : Fields) (v : Importable body) (c : ℕ) (t : Text) {fingerprint : Text}
      {signed : Fields}
      → upstream_signature (listed (get (codes "endorsements") body)) ≡ some (str (c ∷ t))
      → countersign_import base64 ed env k body ≡ ok (fingerprint, signed)
      → (fingerprint ≡ texts_digest env (covered v.columns ++ (v.first ∷ v.rest) ∷ []))
        × (import_fingerprint env (some (obj signed))
            ≡ some (texts_digest env (covered v.columns ++ (c ∷ t) ∷ [])))
  countersign_import-again k body v c t earlier h =
      let (e, run) = countersign_import-parts k body v h in
      (
        e,
        import_fingerprint-signed base64 ed env k body v.columns c t v.named
            (first_signature body v earlier ∙ (unfold or_else in refl)) run,
      )

  -- Every record of a batch of originals comes with the fingerprint of what is stored.
  pub countersign_imports-Fingerprinted :
      (k : ed.Private) (bodies : List Fields) {batch : List (Text × Fields)}
      → All Importable bodies
      → All IsOriginal bodies
      → countersign_imports base64 ed env k bodies ≡ ok batch
      → All (λ (q : Text × Fields). import_fingerprint env (some (obj q.1)) ≡ some q.0) batch
  unfolding countersign_imports
  countersign_imports-Fingerprinted k [] v fresh h = subst (All _) (ok-injective h) tt
  countersign_imports-Fingerprinted k (body ∷ bodies) v fresh h =
      let (one, e, h1) = bind-eq-ok (countersign_import base64 ed env k body) _ h in
      let (rest, e1, h2) = bind-eq-ok (countersign_imports base64 ed env k bodies) _ h1 in
      subst (All _) (ok-injective h2) (
        countersign_import-fingerprint k body v.0 fresh.0 e,
        countersign_imports-Fingerprinted k bodies v.1 fresh.1 e1,
      )

-- ===== src/Countersign/Appends.antt =====
-- A validated record, once countersigned, is one that the store appends.
use curator_skill_registry.Base.{
  ◌+◌, ◌^◌, ◌<◌, ◌≡◌, refl, ◌∙◌, true, false, some, Text, codes, text_eq, ok, length, Option-cases,
  inl, inr, arith,
}
use curator_skill_registry.Json.{Value, Fields, pos, int, get, put, without}
use curator_skill_registry.Json.Laws.{get-put_same}
use curator_skill_registry.Signing.{Env, sig_key}
use curator_skill_registry.Signing.PublicKey.{Base64}
use curator_skill_registry.Signing.Key.{
  Ed25519, IsGenuine, RoundTrips, public_pinned, verify_signed,
}
use curator_skill_registry.Signing.Key.Genuine.{verify_signed-sign_record, sign_record-canonical}
use curator_skill_registry.Store.{LogEntry, Database}
use curator_skill_registry.Store.Append.{require_str, require_columns, append_locked}
use curator_skill_registry.Store.Invariant.{IsConsistent}
use curator_skill_registry.Store.Invariant.Preserved.{append_locked-IsConsistent}
use curator_skill_registry.Protocol.{is_int, valid_hash_version}
use curator_skill_registry.Protocol.Patterns.{Unicode}
use curator_skill_registry.Protocol.Records.{validate_record}
use curator_skill_registry.Protocol.Records.Appendable.{validate_record-IsAppendable}
use curator_skill_registry.Countersign.{value_or, countersign}
use curator_skill_registry.Countersign.Reads.{
  get-put_other, get-without_other, get-endorsed, get-sign_record,
}

require_str-same :
    (key : Text) (a b : Fields) → get key a ≡ get key b → require_str key a ≡ require_str key b
unfolding require_str
require_str-same key a b e = rw (require_str, e)

-- Writing the schema version that a record has anyway, or the default, keeps the framing valid.
valid_hash_version-schema :
    (a b : Fields)
    → get (codes "hash_version") a ≡ get (codes "hash_version") b
    → get (codes "schema_version") a
      ≡ some (value_or (int (pos 1)) (get (codes "schema_version") b))
    → valid_hash_version b ≡ true
    → valid_hash_version a ≡ true
unfolding valid_hash_version is_int value_or
valid_hash_version-schema a b same schema h = elim (Option-cases (get (codes "schema_version") b)) [
  | inl e ↦
      let before = rw (valid_hash_version, e) at h in
      let now = rw e at schema in rw (valid_hash_version, same, now) (ground (arith, before))
  | inr (v, e) ↦
      let now : get (codes "schema_version") a ≡ some v = rw (e, value_or) at schema in
      let before = rw (valid_hash_version, e) at h in
      rw (valid_hash_version, same, now) (ground (arith, before, e, now))
]

module _ (base64 : Base64) (ed : Ed25519) {Doc : Type 0} (env : Env Doc) where
  abbrev with_schema : Fields → Fields
  with_schema body =
      put (codes "schema_version") (value_or (int (pos 1)) (get (codes "schema_version") body))
        (without sig_key body)

  countersign-get :
      (k : ed.Private) (endorser key : Text) (body : Fields) {signed : Fields}
      → countersign base64 ed env k endorser body ≡ ok signed
      → text_eq sig_key key ≡ false
      → text_eq (codes "endorsements") key ≡ false
      → get key signed ≡ get key (with_schema body)
  unfolding countersign
  countersign-get k endorser key body h s e =
      get-sign_record base64 ed env k key _ h s
      ∙ get-endorsed endorser key body (with_schema body) e

  countersign-kept :
      (k : ed.Private) (endorser key : Text) (body : Fields) {signed : Fields}
      → countersign base64 ed env k endorser body ≡ ok signed
      → text_eq sig_key key ≡ false
      → text_eq (codes "endorsements") key ≡ false
      → text_eq (codes "schema_version") key ≡ false
      → get key signed ≡ get key body
  countersign-kept k endorser key body h s e t =
      countersign-get k endorser key body h s e
      ∙ get-put_other (codes "schema_version") key _ (without sig_key body) t
      ∙ get-without_other sig_key key body s

  countersign-named :
      (k : ed.Private) (endorser : Text) (body : Fields) {signed : Fields}
      → countersign base64 ed env k endorser body ≡ ok signed
      → require_columns signed ≡ require_columns body
  unfolding require_columns text_eq
  countersign-named k endorser body {signed} h =
      let same =
        λ (key : Text) (s : text_eq sig_key key ≡ false)
            (e : text_eq (codes "endorsements") key ≡ false)
            (t : text_eq (codes "schema_version") key ≡ false).
          require_str-same key signed body (countersign-kept k endorser key body h s e t) in
      rw (
        same (codes "name") refl refl refl,
        same (codes "source_identity") refl refl refl,
        same (codes "commit") refl refl refl,
        same (codes "content_sha256") refl refl refl,
        same (codes "status") refl refl refl,
      )

  countersign-version :
      (k : ed.Private) (endorser : Text) (body : Fields) {signed : Fields}
      → countersign base64 ed env k endorser body ≡ ok signed
      → valid_hash_version body ≡ true
      → valid_hash_version signed ≡ true
  unfolding text_eq
  countersign-version k endorser body {signed} h =
      valid_hash_version-schema signed body
        (countersign-kept k endorser (codes "hash_version") body h refl refl refl)
        (countersign-get k endorser (codes "schema_version") body h refl refl
          ∙ get-put_same (codes "schema_version") _ (without sig_key body))

  -- With a codec that reads back what it wrote and genuine signatures: a record that
  -- `validate_record` accepts and `_countersign` signs is appended by a store with consistent
  -- tables of fewer than 2^64 entries, under the next number and with consistent tables after it,
  -- and the signed record verifies under the registry's public key.
  pub countersign-appends :
      (rt : RoundTrips base64) (genuine : IsGenuine ed) (unicode : Unicode) (db : Database Doc)
      (k : ed.Private) (v : Value) (endorser created_at : Text) {body signed : Fields}
      → validate_record base64 unicode v ≡ ok body
      → countersign base64 ed env k endorser body ≡ ok signed
      → IsConsistent env db
      → length db.log < 2 ^ 64
      → (entry : LogEntry) × (db' : Database Doc) × (append_locked env db signed created_at
          ≡ ok (entry, db'))
        × IsConsistent env db'
        × (entry.seq ≡ length db.log + 1)
        × (verify_signed base64 ed env (public_pinned base64 ed k) signed ≡ true)
  unfolding countersign
  countersign-appends rt genuine unicode db k v endorser created_at {body} {signed} valid h c
        bound =
      let (_, a) = validate_record-IsAppendable base64 unicode v valid in
      let (m, canonical, _, _) = sign_record-canonical base64 ed env k _ h in
      let (entry, db', run, c', _, seq, _) =
        append_locked-IsConsistent env db c signed m a.columns created_at
          (countersign-named k endorser body h ∙ a.named) canonical
          (countersign-version k endorser body h a.version) bound in
      (entry, db', run, c', seq, (verify_signed-sign_record base64 ed rt genuine env k _ h).0)
